-- ===== src/App/CommandManager/Tests.antt =====
-- Vectors with room for one or two elements, and commands on concrete telegrams.
use esp_arduino_ebus.Base.{
  ℕ, zero, suc, ◌%◌, ◌^◌, ◌≡◌, ◌≤◌, refl, ap, true, false, List, [], ◌∷◌, ◌++◌, none, some, leb,
  if◌then◌else◌, arith, length, bytes_eq, take, drop, slice,
}
use esp_arduino_ebus.Device.StringPool.{StringPool, lookup}
use esp_arduino_ebus.App.CommandManager.{Command, FieldOverride, CommandManager, Event}
use esp_arduino_ebus.App.CommandManager.Vector.{StaticVector, IsStaticVector}
use esp_arduino_ebus.App.CommandManager.Overrides.{get_field_min_override, get_field_max_override}
use esp_arduino_ebus.App.CommandManager.Store.{
  index_of, find_command, insert_command, remove_command,
}
use esp_arduino_ebus.App.CommandManager.Store.Keyed.{find_command-insert_command}
use esp_arduino_ebus.App.CommandManager.Store.Invariant.{
  Change, change_all, IsKeyed, empty_start-IsKeyed,
}
use esp_arduino_ebus.App.CommandManager.Store.Removal.{remove_command-Forgets}
use esp_arduino_ebus.App.CommandManager.WriteCmds.{command_write_cmd, set_write_cmd, find_write_cmd}
use esp_arduino_ebus.App.CommandManager.WriteCmds.Sharing.{command_write_cmd-set_write_cmd}
use esp_arduino_ebus.App.CommandManager.Polling.{next_active_command, next_loop, deadline}
use esp_arduino_ebus.App.CommandManager.Polling.Choice.{IsNext, next_active_command-IsNext}
use esp_arduino_ebus.App.CommandManager.Updates.{ProtocolInfo, Telegrams}

-- A vector that holds its elements in a list.
abbrev erase_at : {A : Type 0} → List A → ℕ → List A
erase_at [] i = []
erase_at (x ∷ xs) zero = xs
erase_at (x ∷ xs) (suc i) = x ∷ erase_at xs i

abbrev bounded : (A : Type 0) → ℕ → StaticVector A
bounded A n = record {
  capacity = n;
  push_back = λ xs x. if leb n (length xs) then (false, xs) else (true, xs ++ x ∷ []);
  erase = erase_at;
}

erase_at-middle :
    {A : Type 0} (xs ys : List A) (x : A) → erase_at (xs ++ x ∷ ys) (length xs) ≡ xs ++ ys
erase_at-middle [] ys x = refl
erase_at-middle (z ∷ xs) ys x = ap (◌∷◌ z) (erase_at-middle xs ys x)

bounded-IsStaticVector : (A : Type 0) (n : ℕ) → IsStaticVector (bounded A n)
bounded-IsStaticVector A n = record {
  push_room = λ xs x h. ground (arith, h);
  push_full = λ xs x h. ground (arith, h);
  erase_at = erase_at-middle;
}

-- The texts "a" and "b".
abbrev pool : StringPool
pool = record {
  buffer = 97 ∷ 0 ∷ 98 ∷ 0 ∷ [];
  offsets = 0 ∷ 2 ∷ [];
  lengths = 1 ∷ 1 ∷ [];
  count = 2;
  buffer_offset = 4;
}

abbrev command : ℕ → ℕ → ℕ → ℕ → Command
command key_id poll_id last interval = record {
  session_id = 0;
  poll_id = poll_id;
  last = last;
  last_data = [];
  key_id = key_id;
  name_id = 0;
  read_cmd = 8 ∷ key_id ∷ [];
  write_cmd_idx = 0;
  interval = interval;
  master = false;
  fields =
      record { name_id = 0; profile_idx = 0; position = 0; ha_profile_idx = 0; raw = true } ∷ [];
}

abbrev a_text : List ℕ
a_text = 97 ∷ []

abbrev first_a : Command
first_a = command 1 5 0 30

abbrev second_a : Command
second_a = command 1 9 0 60

abbrev only_b : Command
only_b = command 2 6 1000 10

abbrev two : StaticVector Command
two = bounded Command 2

abbrev limits : StaticVector (FieldOverride ℕ)
limits = bounded (FieldOverride ℕ) 2

abbrev no_limit : ℕ
no_limit = 1000

abbrev override : ℕ → ℕ → ℕ → ℕ → FieldOverride ℕ
override k i lo hi = record { key_id = k; field_idx = i; min_override = lo; max_override = hi }

abbrev both : CommandManager ℕ
both = record {
  commands = first_a ∷ only_b ∷ [];
  write_cmds = [];
  field_overrides = override 1 0 3 4 ∷ override 2 0 5 6 ∷ [];
}

abbrev empty : CommandManager ℕ
empty = record { commands = []; write_cmds = []; field_overrides = [] }

-- The second command with the key "a" takes the poll id of the first.
find_command-insert_command_example :
    find_command pool (insert_command pool two (first_a ∷ only_b ∷ []) second_a).0 a_text
    ≡ some (command 1 5 0 60)
unfolding lookup slice index_of find_command
find_command-insert_command_example =
    find_command-insert_command pool two (bounded-IsStaticVector Command 2) (first_a ∷ only_b ∷ [])
      second_a a_text

abbrev changes : List Change
changes =
    Change.insert first_a
    ∷ Change.insert only_b
    ∷ Change.insert second_a
    ∷ Change.remove a_text
    ∷ Change.insert first_a
    ∷ []

empty_start-IsKeyed_example : IsKeyed pool two (change_all pool two limits empty changes).commands
empty_start-IsKeyed_example =
    empty_start-IsKeyed pool two (bounded-IsStaticVector Command 2) limits empty changes refl

both-IsKeyed : IsKeyed pool two both.commands
unfolding lookup slice
both-IsKeyed = record { unique = (refl, (refl, tt)); fits = omega arith }

find_command-both : find_command pool both.commands a_text ≡ some first_a
unfolding lookup slice index_of find_command
find_command-both = refl

remove_command-Forgets_example :
    let (after, events) = remove_command two limits pool both a_text in
    (find_command pool after.commands a_text ≡ none)
    × (events ≡ Event.removed first_a ∷ [])
    × (get_field_min_override no_limit after.field_overrides 1 0 ≡ no_limit)
    × (get_field_max_override no_limit after.field_overrides 1 0 ≡ no_limit)
remove_command-Forgets_example =
    remove_command-Forgets no_limit pool two (bounded-IsStaticVector Command 2) limits
      (bounded-IsStaticVector (FieldOverride ℕ) 2) both a_text first_a both-IsKeyed
      find_command-both a_text 1 0

-- A limit for the field 256 is kept for the field 0.
abbrev one_telegram : StaticVector (List ℕ)
one_telegram = bounded (List ℕ) 1

-- There is room for one telegram, and it is taken.
command_write_cmd-set_write_cmd_example :
    (command_write_cmd
        (set_write_cmd one_telegram ((1 ∷ []) ∷ []) (2 ∷ [])).1
        (set_write_cmd one_telegram ((1 ∷ []) ∷ []) (2 ∷ [])).0
      ≡ [])
    × ((j : ℕ)
        → j ≤ 1
        → command_write_cmd (set_write_cmd one_telegram ((1 ∷ []) ∷ []) (2 ∷ [])).1 j
          ≡ command_write_cmd ((1 ∷ []) ∷ []) j)
    × (length (set_write_cmd one_telegram ((1 ∷ []) ∷ []) (2 ∷ [])).1 ≤ 1)
unfolding find_write_cmd
command_write_cmd-set_write_cmd_example =
    command_write_cmd-set_write_cmd one_telegram (bounded-IsStaticVector (List ℕ) 1) ((1 ∷ []) ∷ [])
      (2 ∷ []) (omega arith) (omega arith)

-- A command that was never read comes before one that is due.
only_unread : next_active_command (only_b ∷ first_a ∷ []) 20000 ≡ some first_a
unfolding next_loop deadline next_active_command
only_unread = refl

not_due : next_active_command (only_b ∷ []) 10999 ≡ none
unfolding next_loop deadline next_active_command
not_due = refl

-- Read 100 ms ago, with an interval of 30 s: the deadline has wrapped to a small number.
wrapped_deadline :
    next_active_command (command 2 6 4294967000 30 ∷ []) 4294967100
    ≡ some (command 2 6 4294967000 30)
unfolding next_loop deadline next_active_command
wrapped_deadline = refl

next_active_command-IsNext_example :
    IsNext
      (only_b ∷ first_a ∷ [])
      (20000 % 2 ^ 32)
      (next_active_command (only_b ∷ first_a ∷ []) 20000)
next_active_command-IsNext_example = next_active_command-IsNext (only_b ∷ first_a ∷ []) 20000

abbrev ebus : Telegrams
ebus = record {
  matches = λ master cmd off. bytes_eq (take (length cmd) (drop off master)) cmd;
  range = λ view off n. take n (drop off view);
  assign = λ view. view;
}

abbrev passive_a : Command
passive_a = command 1 0 0 0

abbrev telegram : ProtocolInfo
telegram = record {
  poll_id = 0;
  session_id = 77;
  master_view = 16 ∷ 8 ∷ 1 ∷ 0 ∷ 0 ∷ [];
  slave_view = 2 ∷ 21 ∷ 22 ∷ [];
}
