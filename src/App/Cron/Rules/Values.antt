-- ===== src/App/Cron/Rules/Values.antt =====
-- src/app/cron.cpp and src/app/command.cpp: what an accepted rule sends.
use esp_arduino_ebus.Base.{
  ℕ, ◌/◌, ◌≡◌, ◌≢◌, refl, true, false, List, [], ◌∷◌, none, some, pos, int_eq,
}
use esp_arduino_ebus.Device.StringPool.{StringPool}
use esp_arduino_ebus.App.CommandManager.{Command, CommandManager}
use esp_arduino_ebus.App.CommandManager.Store.{find_command}
use esp_arduino_ebus.App.CommandManager.WriteCmds.{command_write_cmd}
use esp_arduino_ebus.App.Command.{DataProfile, Codec, Context, get_vector_from_value}
use esp_arduino_ebus.App.Command.Values.{IsWritten, get_vector_from_value_iff}
use esp_arduino_ebus.App.Cron.{is_empty}
use esp_arduino_ebus.App.Cron.Schedule.{Tm}
use esp_arduino_ebus.App.Cron.Rules.{Rule, Host, validate_rule, tick_rule}
use esp_arduino_ebus.App.Cron.Rules.Accepted.{IsInRange, validate_rule-tick_rule}
use esp_arduino_ebus.App.Cron.Rules.Minute.{triggered}

module _ {F D T : Type 0} (lib : Codec F D T) (profiles : List (DataProfile F)) (pool : StringPool)
    (commands : CommandManager F) where
  -- What the methods of a command see of the command manager.
  abbrev pub context : Context F
  context = record { profiles = profiles; pool = pool; field_overrides = commands.field_overrides }

  -- `getVectorFromValue` with its default field, the first one.
  abbrev pub with_values : Host → Host
  with_values h = record h {
    get_vector_from_value = λ c value_json. get_vector_from_value lib context c value_json 0;
  }

is_empty-ne : (bytes : List ℕ) → is_empty bytes ≡ false → bytes ≢ []
is_empty-ne [] e h = cc
is_empty-ne (x ∷ xs) e h = cc

-- For a rule that `validateRule` accepts, enabled and not triggered in the minute of `n`, there are a
-- minute, an hour, a day, a month and a weekday, each in its own range, such that, if the clock shows
-- them at `n`, the rule is triggered and enqueues the write telegram of its command followed by bytes,
-- at least one, that `getVectorFromValue` allows for its value: a number within the limits in force for
-- the field, or a text of the size of its type. The five need not be a date that ever comes: the 31st of
-- February is accepted.
pub validate_rule-IsWritten :
    {F D T : Type 0} (lib : Codec F D T) (profiles : List (DataProfile F)) (host : Host)
    (pool : StringPool) (commands : CommandManager F) (rule : Rule) (n : ℕ)
    → validate_rule (with_values lib profiles pool commands host) pool commands rule ≡ none
    → rule.enabled ≡ true
    → int_eq rule.last_triggered_minute (pos (n / 60)) ≡ false
    → (t : Tm) × IsInRange t
      × (c : Command) × (bytes : List ℕ) × (find_command pool commands.commands rule.command_key
          ≡ some c)
      × (bytes ≢ [])
      × IsWritten lib (context lib profiles pool commands) c rule.value_json 0 bytes
      × (tick_rule
            (record (with_values lib profiles pool commands host) { local_time = λ k. t })
            pool
            commands
            n
            rule
          ≡ (
            triggered (n / 60) rule,
            host.append (command_write_cmd commands.write_cmds c.write_cmd_idx) bytes ∷ [],
          ))
validate_rule-IsWritten lib profiles host pool commands rule n v on fresh =
    let h : Host = with_values lib profiles pool commands host in
    let (t, r, c, found, sent, some_bytes) =
      validate_rule-tick_rule h pool commands rule n v on fresh in
    let bytes : List ℕ =
      get_vector_from_value lib (context lib profiles pool commands) c rule.value_json 0 in
    (
      t,
      r,
      c,
      bytes,
      found,
      is_empty-ne bytes some_bytes,
      (get_vector_from_value_iff lib (context lib profiles pool commands) c rule.value_json 0 bytes
            (is_empty-ne bytes some_bytes)).0
          refl,
      sent,
    )
