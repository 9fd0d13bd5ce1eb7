-- ===== src/App/Cron/Rules.antt =====
-- src/app/cron.cpp: the rules, validateRule and Cron::tick.
pub mod Minute
pub mod Accepted
pub mod Values
mod Tests
use esp_arduino_ebus.Base.{
  ℕ, ◌+◌, ◌/◌, Bool, true, false, not, ◌&&◌, ◌||◌, List, [], ◌∷◌, ◌++◌, Option, none, some, ◌==◌,
  if◌then◌else◌, ℤ, pos, negsuc, int_eq,
}
use esp_arduino_ebus.Device.StringPool.{StringPool}
use esp_arduino_ebus.App.CommandManager.{Command, CommandManager, has_write_cmd}
use esp_arduino_ebus.App.CommandManager.Store.{find_command}
use esp_arduino_ebus.App.CommandManager.WriteCmds.{command_write_cmd}
use esp_arduino_ebus.App.Cron.{star, dash, slash, is_empty}
use esp_arduino_ebus.App.Cron.Fields.{comma, validate_field_expression}
use esp_arduino_ebus.App.Cron.Schedule.{Tm, scan, match_schedule}

-- `Cron::Rule`; texts are lists of bytes.
pub record Rule : Type 0 where
  pub id : List ℕ
  pub schedule : List ℕ
  pub command_key : List ℕ
  pub value_json : List ℕ
  pub enabled : Bool
  pub last_triggered_minute : ℤ

-- What the texts that `validateRule` returns say.
pub data RuleError : Type 0 where
  missing_id : RuleError
  missing_schedule : RuleError
  missing_command_key : RuleError
  missing_value : RuleError
  invalid_schedule : RuleError
  not_five_fields : RuleError
  invalid_minute : RuleError
  invalid_hour : RuleError
  invalid_day_of_month : RuleError
  invalid_month : RuleError
  invalid_day_of_week : RuleError
  command_not_found : RuleError
  no_write_cmd : RuleError
  invalid_value : RuleError

-- The ebus library's `push_back`, `FixedString::assign` and `Sequence::append`, the `localtime_r` of
-- the platform, and `Command::getVectorFromValue`.
pub record Host : Type 0 where
  pub push_back : List (List ℕ) → List ℕ → List (List ℕ)
  pub assign : List ℕ → List ℕ
  pub append : List ℕ → List ℕ → List ℕ
  pub local_time : ℕ → Tm
  pub get_vector_from_value : Command → List ℕ → List ℕ

-- `find(c) != npos`.
abbrev pub contains : List ℕ → ℕ → Bool
contains [] c = false
contains (x ∷ xs) c = x == c || contains xs c

abbrev sample : Tm
sample = record { tm_min = 0; tm_hour = 0; tm_mday = 1; tm_mon = 0; tm_wday = 0 }

abbrev with_rest : Rule × List (List ℕ) → List Rule × List (List ℕ) → List Rule × List (List ℕ)
with_rest (r, sent) (rs, more) = (r ∷ rs, sent ++ more)

module _ (h : Host) where
  -- The end of `validateRule`, for the command that was found.
  abbrev validate_command : List ℕ → Option Command → Option RuleError
  validate_command value_json none = some RuleError.command_not_found
  validate_command value_json (some c) =
      if not (has_write_cmd c)
      then some RuleError.no_write_cmd
      else if is_empty (h.get_vector_from_value c value_json)
      then some RuleError.invalid_value
      else none

  -- The five fields, before the command.
  abbrev validate_fields : List (List ℕ) → Option RuleError → Option RuleError
  validate_fields (a ∷ b ∷ c ∷ d ∷ e ∷ []) rest =
      if not (validate_field_expression h.push_back a 0 59 false)
      then some RuleError.invalid_minute
      else if not (validate_field_expression h.push_back b 0 23 false)
      then some RuleError.invalid_hour
      else if not (validate_field_expression h.push_back c 1 31 false)
      then some RuleError.invalid_day_of_month
      else if not (validate_field_expression h.push_back d 1 12 false)
      then some RuleError.invalid_month
      else if not (validate_field_expression h.push_back e 0 6 true)
      then some RuleError.invalid_day_of_week
      else rest
  validate_fields _ rest = some RuleError.not_five_fields

  abbrev validate_scanned : Option (List (List ℕ)) → Option RuleError → Option RuleError
  validate_scanned none rest = some RuleError.not_five_fields
  validate_scanned (some fields) rest = validate_fields fields rest

  -- `validateRule(rule, commands)`; `none` is the empty text.
  unfoldable pub validate_rule :
      {F : Type 0} → StringPool → CommandManager F → Rule → Option RuleError
  validate_rule pool commands rule =
      if is_empty rule.id
      then some RuleError.missing_id
      else if is_empty rule.schedule
      then some RuleError.missing_schedule
      else if is_empty rule.command_key
      then some RuleError.missing_command_key
      else if is_empty rule.value_json
      then some RuleError.missing_value
      else if not (match_schedule h.push_back h.assign rule.schedule sample)
          && not (contains rule.schedule star)
          && not (contains rule.schedule slash)
          && not (contains rule.schedule comma)
          && not (contains rule.schedule dash)
      then some RuleError.invalid_schedule
      else validate_scanned (scan h.push_back h.assign [] [] rule.schedule)
          (validate_command rule.value_json (find_command pool commands.commands rule.command_key))

  -- The telegrams that a triggered rule enqueues.
  abbrev pub enqueued : {F : Type 0} → CommandManager F → List ℕ → Option Command → List (List ℕ)
  enqueued commands value_json none = []
  enqueued commands value_json (some c) =
      if not (has_write_cmd c) || is_empty (h.get_vector_from_value c value_json)
      then []
      else h.append (command_write_cmd commands.write_cmds c.write_cmd_idx)
          (h.get_vector_from_value c value_json)
        ∷ []

  -- The three tests that leave a rule alone, in a minute and at the time that the clock shows.
  abbrev pub skips : ℕ → Tm → Rule → Bool
  skips minute_stamp local_time rule =
      not rule.enabled
      || int_eq rule.last_triggered_minute (pos minute_stamp)
      || not (match_schedule h.push_back h.assign rule.schedule local_time)

  -- A round of the loop in `tick`, at `now` seconds.
  unfoldable pub tick_rule :
      {F : Type 0} → StringPool → CommandManager F → ℕ → Rule → Rule × List (List ℕ)
  tick_rule pool commands now rule =
      if skips (now / 60) (h.local_time now) rule then (rule, []) else (
        record rule { last_triggered_minute = pos (now / 60) },
        enqueued commands rule.value_json (find_command pool commands.commands rule.command_key),
      )

  unfoldable pub tick_rules :
      {F : Type 0} → StringPool → CommandManager F → ℕ → List Rule → List Rule × List (List ℕ)
  tick_rules pool commands now [] = ([], [])
  tick_rules pool commands now (r ∷ rs) =
      with_rest (tick_rule pool commands now r) (tick_rules pool commands now rs)

  -- `tick()`: the rules in the order of the map, and the telegrams for the bus.
  unfoldable pub tick :
      {F : Type 0} → StringPool → CommandManager F → ℤ → List Rule → List Rule × List (List ℕ)
  unfolding tick_rule tick_rules
  tick pool commands (pos n) rules =
      if n == 0 then (rules, []) else tick_rules pool commands n rules
  tick pool commands (negsuc n) rules = (rules, [])
