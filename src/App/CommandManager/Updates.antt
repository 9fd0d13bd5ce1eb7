-- ===== src/App/CommandManager/Updates.antt =====
-- src/app/command_manager.cpp: the telegrams of the bus that update commands.
pub mod Passive
pub mod Whole
use esp_arduino_ebus.Base.{
  ℕ, zero, suc, ◌+◌, ◌*◌, ◌%◌, ◌^◌, Bool, true, false, not, ◌&&◌, ◌||◌, List, [], ◌∷◌, ◌++◌, Option,
  none, some, ◌==◌, ltb, leb, if◌then◌else◌, length, get_or, get_elem?, set,
}
use esp_arduino_ebus.Device.StringPool.{StringPool}
use esp_arduino_ebus.App.CommandManager.{Command, Event, get_active, get_key}
use esp_arduino_ebus.App.CommandManager.Vector.{StaticVector}

-- `ebus::ProtocolInfo`, as far as it is read.
pub record ProtocolInfo : Type 0 where
  pub poll_id : ℕ
  pub session_id : ℕ
  pub master_view : List ℕ
  pub slave_view : List ℕ

-- What the ebus library does with telegrams: `ebus::matches`, `ebus::range`, and the assignment of a
-- view to a sequence.
pub record Telegrams : Type 0 where
  pub matches : List ℕ → List ℕ → ℕ → Bool
  pub range : List ℕ → ℕ → ℕ → List ℕ
  pub assign : List ℕ → List ℕ

-- The position that `findCommand(poll_id)` gives; 0 is no id.
unfoldable pub poll_index : List Command → ℕ → ℕ → List ℕ
poll_index [] i poll_id = []
poll_index (c ∷ cs) i poll_id =
    let rest = poll_index cs (suc i) poll_id in if c.poll_id == poll_id then i ∷ [] else rest

abbrev before : List Event → List Command × List Event → List Command × List Event
before es (cs, fs) = (cs, es ++ fs)

module _ (ebus : Telegrams) where
  -- `Command::matches(master_view)`.
  abbrev pub matches : Command → List ℕ → Bool
  matches c master_view = ebus.matches master_view c.read_cmd 1

  -- `findPassiveCommands(master)`: the positions of the commands, from the position `i` on, in the
  -- vector that holds those that were found before.
  unfoldable pub find_passive_from : StaticVector ℕ → List Command → ℕ → List ℕ → List ℕ → List ℕ
  find_passive_from r [] i result master = result
  find_passive_from r (c ∷ cs) i result master =
      let hit : Bool = not (get_active c) && matches c master in
      let pushed : Bool × List ℕ = r.push_back result i in
      let rest = find_passive_from r cs (suc i) (if hit then pushed.1 else result) master in
      if hit && not pushed.0 then pushed.1 else rest

  unfoldable pub find_passive_commands : StaticVector ℕ → List Command → List ℕ → List ℕ
  unfolding find_passive_from
  find_passive_commands r cs master = find_passive_from r cs 0 [] master

  -- The length that the telegram gives for the data of a command.
  abbrev pub data_len : Command → ProtocolInfo → ℕ
  data_len c info =
      if c.master
      then (if leb 5 (length info.master_view) then get_or info.master_view 4 0 else 0)
      else (if leb 1 (length info.slave_view) then get_or info.slave_view 0 0 else 0)

  abbrev pub is_updated : Command → ProtocolInfo → Bool
  is_updated c info = not (length c.fields == 0) && not (data_len c info == 0)

  -- The lambda `update`, with the milliseconds since the start.
  abbrev pub updated : Command → ProtocolInfo → ℕ → Command
  updated c info now_ms =
      if is_updated c info
      then record c {
        last = now_ms % 2 ^ 32;
        session_id = info.session_id;
        last_data = ebus.assign (
            if c.master
            then ebus.range info.master_view 5 (data_len c info)
            else ebus.range info.slave_view 1 (data_len c info));
      }
      else c

  -- The calls of the callback and of the log's callback, with the key.
  abbrev pub update_events : StringPool → Command → ProtocolInfo → List Event
  update_events pool c info =
      if is_updated c info
      then Event.data_updated (get_key pool c) ∷ Event.data_updated (get_key pool c) ∷ []
      else []

  abbrev put :
      StringPool → ProtocolInfo → ℕ → List Command → ℕ → Option Command → List Command × List Event
  put pool info now_ms cs i none = (cs, [])
  put pool info now_ms cs i (some c) = (set cs i (updated c info now_ms), update_events pool c info)

  -- `update` for the commands at some positions.
  unfoldable pub update_at :
      StringPool → ProtocolInfo → ℕ → List Command → List ℕ → List Command × List Event
  update_at pool info now_ms cs [] = (cs, [])
  update_at pool info now_ms cs (i ∷ is) =
      let (after, events) = put pool info now_ms cs i (get_elem? cs i) in
      before events (update_at pool info now_ms after is)

  abbrev or_passive : StaticVector ℕ → List Command → List ℕ → List ℕ → List ℕ
  or_passive r cs master [] = find_passive_commands r cs master
  or_passive r cs master (i ∷ is) = i ∷ is

  -- `updateData(info)`.
  unfoldable pub update_data :
      StaticVector ℕ → StringPool → List Command → ProtocolInfo → ℕ → List Command × List Event
  unfolding update_at poll_index find_passive_commands
  update_data r pool cs info now_ms = update_at pool info now_ms cs (
      or_passive r cs info.master_view
        (if info.poll_id == 0 then [] else poll_index cs 0 info.poll_id))
