-- ===== src/App/Command/Tests.antt =====
-- Values on a small codec: numbers are bytes, and a text of one digit is a number.
use esp_arduino_ebus.Base.{
  ℕ, ◌-◌, ◌*◌, ◌≡◌, refl, false, List, [], ◌∷◌, Option, none, some, ◌==◌, ltb, leb, if◌then◌else◌,
}
use esp_arduino_ebus.App.CommandManager.{Command, FieldRef}
use esp_arduino_ebus.App.CommandManager.Overrides.{
  find_override, get_field_min_override, get_field_max_override,
}
use esp_arduino_ebus.App.Command.{
  DataProfile, DataValue, number, text, Codec, Context, get_vector_from_value,
}

abbrev encoded : ℕ → DataValue ℕ → List ℕ
encoded dt (number v) = v ∷ []
encoded dt (text t) = t

abbrev take_first : List ℕ → ℕ
take_first [] = 0
take_first (x ∷ xs) = x

abbrev digit : List ℕ → Option ℕ
digit (x ∷ []) = some (x - 48)
digit _ = none

-- The type 0 is numeric, the type 1 a hex byte; 99 is not a number.
abbrev pub codec : Codec ℕ ℕ ℕ
codec = record {
  nan = 99;
  float_zero = 0;
  is_nan = λ v. v == 99;
  at_least = λ v m. leb m v;
  at_most = λ v m. leb v m;
  times = λ v d. v * d;
  round_digits = λ v n. v;
  to_float = λ v. v;
  to_num_strict = digit;
  hex1 = 1;
  string_to_data_type = λ t. if ltb 0 (take_first t) then 0 else 1;
  data_type_to_string = λ t. if t == 0 then [] else b'H' ∷ b'E' ∷ b'X' ∷ [];
  is_numeric = λ t. t == 0;
  size_of_data_type = λ t. 1;
  to_bytes = λ t n. 171 ∷ [];
  byte_to_char = λ t. t;
  encode = encoded;
  object_fields = λ t. none;
}

-- The profile of a temperature between 1 and 5, in halves.
abbrev pub temperature : DataProfile ℕ
temperature = record { datatype = 1 ∷ []; divider = 2; digits = 0; min = 1; max = 5 }

abbrev pub setpoint : FieldRef
setpoint = record { name_id = 0; profile_idx = 1; position = 1; ha_profile_idx = 0; raw = false }

abbrev context : Context ℕ
context = record {
  profiles = temperature ∷ [];
  pool = record {
    buffer = 0 ∷ [];
    offsets = 0 ∷ [];
    lengths = 0 ∷ [];
    count = 0;
    buffer_offset = 1;
  };
  field_overrides = [];
}

abbrev heating : Command
heating = record {
  session_id = 0;
  poll_id = 0;
  last = 0;
  last_data = [];
  key_id = 1;
  name_id = 0;
  read_cmd = 8 ∷ 1 ∷ [];
  write_cmd_idx = 1;
  interval = 0;
  master = false;
  fields = setpoint ∷ [];
}

four_halves : get_vector_from_value codec context heating (b'4' ∷ []) 0 ≡ 8 ∷ []
unfolding get_vector_from_value find_override get_field_min_override get_field_max_override
four_halves = refl

too_warm : get_vector_from_value codec context heating (b'6' ∷ []) 0 ≡ []
unfolding get_vector_from_value find_override get_field_min_override get_field_max_override
too_warm = refl
