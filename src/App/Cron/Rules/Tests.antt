-- ===== src/App/Cron/Rules/Tests.antt =====
-- Rules for one command with a write telegram.
use esp_arduino_ebus.Base.{
  ℕ, ◌≡◌, ◌≢◌, refl, true, false, List, [], ◌∷◌, ◌++◌, none, some, arith, pos, negsuc, slice,
}
use esp_arduino_ebus.Device.StringPool.{StringPool, lookup}
use esp_arduino_ebus.App.CommandManager.{Command, CommandManager}
use esp_arduino_ebus.App.CommandManager.Store.{find_command, index_of}
use esp_arduino_ebus.App.CommandManager.WriteCmds.{command_write_cmd, get_write_cmd}
use esp_arduino_ebus.App.Cron.{
  cut, digits, magnitude, parse_int, step_of, ends, match_ends, match_range, match_base,
  match_single_part, validate_ends, validate_range, validate_base, validate_single_part,
}
use esp_arduino_ebus.App.Cron.Fields.{
  split_from, match_parts, validate_parts, match_field, validate_field_expression,
}
use esp_arduino_ebus.App.Cron.Schedule.{
  Tm, end_field, scan, match_fields, match_scanned, match_schedule,
}
use esp_arduino_ebus.App.Cron.Rules.{
  Rule, RuleError, Host, validate_rule, tick_rule, tick_rules, tick,
}
use esp_arduino_ebus.App.Cron.Rules.Minute.{tick_all, tick_all-SameMinute, triggered}
use esp_arduino_ebus.App.Cron.Rules.Accepted.{IsInRange}
use esp_arduino_ebus.App.Cron.Rules.Values.{context, with_values, validate_rule-IsWritten}
use esp_arduino_ebus.App.Command.{get_vector_from_value}
use esp_arduino_ebus.App.Command.Values.{IsWritten}
use esp_arduino_ebus.App.Command.Tests.{codec, temperature, setpoint}
use esp_arduino_ebus.App.CommandManager.Overrides.{
  find_override, get_field_min_override, get_field_max_override,
}

abbrev pool : StringPool
pool = record {
  buffer = 97 ∷ 0 ∷ [];
  offsets = 0 ∷ [];
  lengths = 1 ∷ [];
  count = 1;
  buffer_offset = 2;
}

abbrev heating : Command
heating = record {
  session_id = 0;
  poll_id = 0;
  last = 0;
  last_data = [];
  key_id = 1;
  name_id = 0;
  read_cmd = 8 ∷ 1 ∷ [];
  write_cmd_idx = 1;
  interval = 0;
  master = false;
  fields = [];
}

abbrev commands : CommandManager ℕ
commands = record { commands = heating ∷ []; write_cmds = (8 ∷ 2 ∷ []) ∷ []; field_overrides = [] }

abbrev host : Host
host = record {
  push_back = λ parts part. parts ++ part ∷ [];
  assign = λ text. text;
  append = λ telegram bytes. telegram ++ bytes;
  local_time = λ now. record { tm_min = 5; tm_hour = 0; tm_mday = 1; tm_mon = 0; tm_wday = 0 };
  get_vector_from_value = λ c value. 7 ∷ [];
}

abbrev rule : List ℕ → Rule
rule schedule = record {
  id = 114 ∷ [];
  schedule = schedule;
  command_key = 97 ∷ [];
  value_json = 49 ∷ [];
  enabled = true;
  last_triggered_minute = negsuc 0;
}

-- The texts `5 * * * *` and `5 0 1 1 0`.
abbrev at_five : List ℕ
at_five = 53 ∷ 32 ∷ 42 ∷ 32 ∷ 42 ∷ 32 ∷ 42 ∷ 32 ∷ 42 ∷ []

abbrev new_year : List ℕ
new_year = 53 ∷ 32 ∷ 48 ∷ 32 ∷ 49 ∷ 32 ∷ 49 ∷ 32 ∷ 48 ∷ []

at_five-valid : validate_rule host pool commands (rule at_five) ≡ none
unfolding cut digits magnitude parse_int step_of ends match_ends match_range match_base
    match_single_part validate_ends validate_range validate_base validate_single_part split_from
    match_parts validate_parts match_field validate_field_expression end_field scan match_fields
    match_scanned match_schedule lookup slice index_of find_command validate_rule
at_five-valid = refl

at_five-sent :
    tick host pool commands (pos 600) (rule at_five ∷ [])
    ≡ (triggered 10 (rule at_five) ∷ [], (8 ∷ 2 ∷ 7 ∷ []) ∷ [])
unfolding cut digits magnitude parse_int step_of ends match_ends match_range match_base
    match_single_part split_from match_parts match_field end_field scan match_fields match_scanned
    match_schedule lookup slice index_of find_command get_write_cmd command_write_cmd tick_rule
    tick_rules tick
at_five-sent = refl

-- A schedule of five numbers that are not those of the sample.
new_year-refused :
    validate_rule host pool commands (rule new_year) ≡ some RuleError.invalid_schedule
unfolding cut digits magnitude parse_int step_of ends match_ends match_range match_base
    match_single_part split_from match_parts match_field end_field scan match_fields match_scanned
    match_schedule validate_rule
new_year-refused = refl

tick_all-SameMinute_example :
    tick_all host pool
      ((commands, pos 600) ∷ (commands, pos 601) ∷ (commands, pos 659) ∷ [])
      (rule at_five ∷ [])
    ≡ tick host pool commands (pos 600) (rule at_five ∷ [])
tick_all-SameMinute_example =
    tick_all-SameMinute host pool commands 600 (rule at_five ∷ [])
      ((commands, pos 601) ∷ (commands, pos 659) ∷ []) (omega arith)
      ((refl, refl), ((refl, refl), tt))

-- The command with a field for the value.
abbrev with_setpoint : CommandManager ℕ
with_setpoint = record commands { commands = record heating { fields = setpoint ∷ [] } ∷ [] }

abbrev valued : Host
valued = with_values codec (temperature ∷ []) pool with_setpoint host

valued-valid : validate_rule valued pool with_setpoint (rule at_five) ≡ none
unfolding cut digits magnitude parse_int step_of ends match_ends match_range match_base
    match_single_part validate_ends validate_range validate_base validate_single_part split_from
    match_parts validate_parts match_field validate_field_expression end_field scan match_fields
    match_scanned match_schedule lookup slice index_of find_command validate_rule find_override
    get_field_min_override get_field_max_override get_vector_from_value
valued-valid = refl

validate_rule-IsWritten_example :
    (t : Tm) × IsInRange t
    × (c : Command) × (bytes : List ℕ) × (find_command pool with_setpoint.commands (97 ∷ [])
        ≡ some c)
    × (bytes ≢ [])
    × IsWritten codec (context codec (temperature ∷ []) pool with_setpoint) c (49 ∷ []) 0 bytes
    × (tick_rule (record valued { local_time = λ k. t }) pool with_setpoint 600 (rule at_five) ≡ (
      triggered 10 (rule at_five),
      (command_write_cmd with_setpoint.write_cmds c.write_cmd_idx ++ bytes) ∷ [],
    ))
validate_rule-IsWritten_example =
    validate_rule-IsWritten codec (temperature ∷ []) host pool with_setpoint (rule at_five) 600
      valued-valid refl refl
