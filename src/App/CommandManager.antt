-- ===== src/App/CommandManager.antt =====
-- src/app/command_manager.cpp: the commands of the device, their write telegrams and the overrides of
-- their fields' limits.
pub mod Vector
pub mod Overrides
pub mod WriteCmds
pub mod Store
pub mod Polling
pub mod Updates
mod Tests
use esp_arduino_ebus.Base.{
  ℕ, zero, suc, ◌+◌, ◌*◌, ◌%◌, ◌^◌, Bool, true, false, not, ◌&&◌, ◌||◌, List, [], ◌∷◌, ◌++◌, Option,
  none, some, ◌==◌, ltb, leb, if◌then◌else◌, length, get_or, bytes_eq,
}
use esp_arduino_ebus.Device.StringPool.{StringPool, lookup}

-- `command_types::FieldRef`.
pub record FieldRef : Type 0 where
  pub name_id : ℕ
  pub profile_idx : ℕ
  pub position : ℕ
  pub ha_profile_idx : ℕ
  pub raw : Bool

-- The members of `Command`.
pub record Command : Type 0 where
  pub session_id : ℕ
  pub poll_id : ℕ
  pub last : ℕ
  pub last_data : List ℕ
  pub key_id : ℕ
  pub name_id : ℕ
  pub read_cmd : List ℕ
  pub write_cmd_idx : ℕ
  pub interval : ℕ
  pub master : Bool
  pub fields : List FieldRef

-- `getActive()` and `hasWriteCmd()`.
abbrev pub get_active : Command → Bool
get_active c = ltb 0 c.interval

abbrev pub has_write_cmd : Command → Bool
has_write_cmd c = not (c.write_cmd_idx == 0)

-- `getKey()`: the text that the pool holds for the key.
abbrev pub get_key : StringPool → Command → List ℕ
get_key pool c = lookup pool c.key_id

-- Limits are floats of the type `F`.
pub record FieldOverride (F : Type 0) : Type 0 where
  pub key_id : ℕ
  pub field_idx : ℕ
  pub min_override : F
  pub max_override : F

pub record CommandManager (F : Type 0) : Type 0 where
  pub commands : List Command
  pub write_cmds : List (List ℕ)
  pub field_overrides : List (FieldOverride F)

-- The callbacks, with the command they are given.
pub data Event : Type 0 where
  changed : Command → Event
  removed : Command → Event
  data_updated : List ℕ → Event
