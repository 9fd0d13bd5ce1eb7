-- ===== src/App/CommandManager/Store.antt =====
-- src/app/command_manager.cpp: the commands, by their keys and by their poll ids.
pub mod Lookup
pub mod Keyed
pub mod Invariant
pub mod Removal
use esp_arduino_ebus.Base.{
  ℕ, zero, suc, Bool, true, false, List, [], ◌∷◌, ◌++◌, Option, none, some, ◌==◌, if◌then◌else◌,
  length, get_elem?, set, bytes_eq, ℤ, pos, int_leb, minus_one,
}
use esp_arduino_ebus.Device.StringPool.{StringPool}
use esp_arduino_ebus.App.CommandManager.{
  Command, FieldOverride, CommandManager, Event, get_active, get_key,
}
use esp_arduino_ebus.App.CommandManager.Vector.{StaticVector}
use esp_arduino_ebus.App.CommandManager.Overrides.{remove_field_overrides}

abbrev next_index : Option ℕ → Option ℕ
next_index none = none
next_index (some i) = some (suc i)

-- The loops over `commands_` that stop at the first one with a key.
unfoldable pub index_of : StringPool → List Command → List ℕ → Option ℕ
index_of pool [] key = none
index_of pool (c ∷ cs) key =
    let rest = next_index (index_of pool cs key) in
    if bytes_eq (get_key pool c) key then some 0 else rest

abbrev pub at : List Command → Option ℕ → Option Command
at cs none = none
at cs (some i) = get_elem? cs i

-- `findCommand(key)`.
unfoldable pub find_command : StringPool → List Command → List ℕ → Option Command
find_command pool cs key = at cs (index_of pool cs key)

-- `findCommand(poll_id)`.
unfoldable pub find_command_by_poll_id : List Command → ℕ → Option Command
find_command_by_poll_id [] poll_id = none
find_command_by_poll_id (c ∷ cs) poll_id =
    let rest = find_command_by_poll_id cs poll_id in if c.poll_id == poll_id then some c else rest

-- `getActiveCommands()` and `getPassiveCommands()`.
unfoldable pub get_active_commands : List Command → ℕ
get_active_commands [] = 0
get_active_commands (c ∷ cs) =
    let rest = get_active_commands cs in if get_active c then suc rest else rest

unfoldable pub get_passive_commands : List Command → ℕ
get_passive_commands [] = 0
get_passive_commands (c ∷ cs) =
    let rest = get_passive_commands cs in if get_active c then rest else suc rest

abbrev with_poll_id : Command → ℕ → Command
with_poll_id c id = record c { poll_id = id }

-- The write to `commands_[i]`; the old command is there when the index is one.
abbrev replaced : List Command → Command → ℕ → Option Command → List Command × List Event
replaced cs command i none = (cs, [])
replaced cs command i (some old) =
    let kept : Command = with_poll_id command old.poll_id in
    (set cs i kept, Event.changed kept ∷ [])

abbrev pushed : List Command → Command → Bool × List Command → List Command × List Event
pushed cs command (true, after) = (after, Event.changed command ∷ [])
pushed cs command (false, after) = (after, [])

abbrev inserted :
    StaticVector Command → List Command → Command → Option ℕ → List Command × List Event
inserted v cs command none = pushed cs command (v.push_back cs command)
inserted v cs command (some i) = replaced cs command i (get_elem? cs i)

-- `insertCommand(command)`.
unfoldable pub insert_command :
    StringPool → StaticVector Command → List Command → Command → List Command × List Event
insert_command pool v cs command = inserted v cs command (index_of pool cs (get_key pool command))

module _ {F : Type 0} (v : StaticVector Command) (w : StaticVector (FieldOverride F)) where
  abbrev erased : CommandManager F → ℕ → Option Command → CommandManager F × List Event
  erased m i none = (m, [])
  erased m i (some c) = (
    record m {
      commands = v.erase m.commands i;
      field_overrides = remove_field_overrides w c.key_id m.field_overrides;
    },
    Event.removed c ∷ [],
  )

  abbrev removed_at : CommandManager F → Option ℕ → CommandManager F × List Event
  removed_at m none = (m, [])
  removed_at m (some i) = erased m i (get_elem? m.commands i)

  -- `removeCommand(key)`.
  unfoldable pub remove_command :
      StringPool → CommandManager F → List ℕ → CommandManager F × List Event
  remove_command pool m key = removed_at m (index_of pool m.commands key)

-- The callbacks of `removeAll()`, from the last command to the first.
abbrev removed_events : List Command → List Event
removed_events [] = []
removed_events (c ∷ cs) = removed_events cs ++ Event.removed c ∷ []

-- `removeAll()`; the write telegrams stay.
unfoldable pub remove_all : {F : Type 0} → CommandManager F → CommandManager F × List Event
remove_all m = (record m { commands = []; field_overrides = [] }, removed_events m.commands)

-- What the file system answers: whether it is mounted, what `stat` says of the commands file, and
-- what `remove` does.
pub data Stat : Type 0 where
  size_of : ℤ → Stat
  no_entry : Stat
  failed : Stat

pub data Unlink : Type 0 where
  unlinked : Unlink
  not_there : Unlink
  denied : Unlink

pub record Files : Type 0 where
  pub mounted : Bool
  pub stat : Stat
  pub remove : Unlink

abbrev removed_size : ℤ → Unlink → ℤ
removed_size size Unlink.unlinked = if int_leb size (pos 0) then pos 0 else size
removed_size size Unlink.not_there = pos 0
removed_size size Unlink.denied = minus_one

abbrev wiped_size : Stat → Unlink → ℤ
wiped_size (Stat.size_of size) remove = removed_size size remove
wiped_size Stat.no_entry remove = pos 0
wiped_size Stat.failed remove = minus_one

-- `wipeCommands()`: the commands are cleared whatever becomes of the file.
unfoldable pub wipe_commands : {F : Type 0} → CommandManager F → Files → CommandManager F × ℤ
wipe_commands m files = (
  record m { commands = []; field_overrides = [] },
  if files.mounted then wiped_size files.stat files.remove else minus_one,
)
