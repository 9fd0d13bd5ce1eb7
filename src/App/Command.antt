-- ===== src/App/Command.antt =====
-- src/app/command.cpp: the fields of a command, and the bytes that a value is written as.
pub mod Values
pub mod Tests
use esp_arduino_ebus.Base.{
  ℕ, zero, suc, ◌+◌, ◌-◌, ◌*◌, Bool, true, false, not, ◌&&◌, ◌||◌, List, [], ◌∷◌, ◌++◌, Option,
  none, some, ◌==◌, ltb, leb, if◌then◌else◌, length, get_elem?, bytes_eq, take, drop,
}
use esp_arduino_ebus.Device.StringPool.{StringPool, lookup}
use esp_arduino_ebus.App.CommandManager.{Command, FieldRef, FieldOverride}
use esp_arduino_ebus.App.CommandManager.Overrides.{get_field_min_override, get_field_max_override}

-- `DataProfile`, as far as the values need it; floats are of the type `F`.
pub record DataProfile (F : Type 0) : Type 0 where
  pub datatype : List ℕ
  pub divider : F
  pub digits : ℕ
  pub min : F
  pub max : F

-- `DataValue` of the ebus library, in the two forms that are encoded here.
pub data DataValue (F : Type 0) : Type 0 where
  number : F → DataValue F
  text : List ℕ → DataValue F

-- The floats `F`, the doubles `D`, and the functions of the ebus library on them and on its data types
-- `T`. `object_fields` is what its JsonReader finds in an object, in order.
pub record Codec (F D T : Type 0) : Type 0 where
  pub nan : F
  pub float_zero : F
  pub is_nan : F → Bool
  pub at_least : D → F → Bool
  pub at_most : D → F → Bool
  pub times : D → F → D
  pub round_digits : D → ℕ → D
  pub to_float : D → F
  pub to_num_strict : List ℕ → Option D
  pub hex1 : T
  pub string_to_data_type : List ℕ → T
  pub data_type_to_string : T → List ℕ
  pub is_numeric : T → Bool
  pub size_of_data_type : T → ℕ
  pub to_bytes : List ℕ → ℕ → List ℕ
  pub byte_to_char : List ℕ → List ℕ
  pub encode : T → DataValue F → List ℕ
  pub object_fields : List ℕ → Option (List (List ℕ × List ℕ))

-- What the methods of a command look up elsewhere: the profiles, the pool of texts and the limits that
-- the command manager holds.
pub record Context (F : Type 0) : Type 0 where
  pub profiles : List (DataProfile F)
  pub pool : StringPool
  pub field_overrides : List (FieldOverride F)

-- The texts of which `getVectorFromValue` reads the first and the last byte.
abbrev pub is_front : ℕ → List ℕ → Bool
is_front c [] = false
is_front c (x ∷ xs) = x == c

abbrev pub is_back : ℕ → List ℕ → Bool
is_back c [] = false
is_back c (x ∷ []) = x == c
is_back c (x ∷ y ∷ xs) = is_back c (y ∷ xs)

abbrev pub is_enclosed : ℕ → ℕ → List ℕ → Bool
is_enclosed first last s = leb 2 (length s) && is_front first s && is_back last s

abbrev pub unquoted : List ℕ → List ℕ
unquoted s = if is_enclosed b'"' b'"' s then take (length s - 2) (drop 1 s) else s

-- `std::isxdigit`.
abbrev pub is_xdigit : ℕ → Bool
is_xdigit c = leb 48 c && leb c 57 || leb 65 c && leb c 70 || leb 97 c && leb c 102

abbrev pub all_xdigits : List ℕ → Bool
all_xdigits [] = true
all_xdigits (c ∷ cs) = is_xdigit c && all_xdigits cs

-- `dt_name.find("HEX") == 0`.
abbrev pub starts_with_hex : List ℕ → Bool
starts_with_hex name = bytes_eq (take 3 name) (b'H' ∷ b'E' ∷ b'X' ∷ [])

abbrev pub field_key : List ℕ
field_key = b'f' ∷ b'i' ∷ b'e' ∷ b'l' ∷ b'd' ∷ []

-- `getFieldPosition(i)`.
abbrev pub position_of : Option FieldRef → ℕ
position_of none = 1
position_of (some r) = if r.position == 0 then 1 else r.position

unfoldable pub get_field_position : Command → ℕ → ℕ
get_field_position c i = position_of (get_elem? c.fields i)

-- `getProfileByIndex(idx)`, which counts from 1.
unfoldable pub get_profile_by_index :
    {F : Type 0} → List (DataProfile F) → ℕ → Option (DataProfile F)
get_profile_by_index profiles zero = none
get_profile_by_index profiles (suc i) = get_elem? profiles i

-- The loop of `getFieldIndex(name)`, from the field `i` on.
unfoldable pub index_from : StringPool → List ℕ → List FieldRef → ℕ → ℕ
index_from pool name [] i = 0
index_from pool name (r ∷ rs) i =
    let rest : ℕ = index_from pool name rs (i + 1) in
    if bytes_eq (lookup pool r.name_id) name then i else rest

unfoldable pub get_field_index : StringPool → Command → List ℕ → ℕ
unfolding index_from
get_field_index pool c name = index_from pool name c.fields 0

module _ {F D T : Type 0} (lib : Codec F D T) (ctx : Context F) (c : Command) where
  abbrev pub profile_of : Option FieldRef → Option (DataProfile F)
  profile_of none = none
  profile_of (some r) = get_profile_by_index ctx.profiles r.profile_idx

  -- `getFieldProfile(i)`.
  unfoldable pub get_field_profile : ℕ → Option (DataProfile F)
  unfolding get_profile_by_index
  get_field_profile i = profile_of (get_elem? c.fields i)

  -- `getFieldDatatype(i)`, whose buffer holds 31 bytes of the name.
  abbrev pub datatype_of : Option (DataProfile F) → T
  datatype_of none = lib.hex1
  datatype_of (some p) = lib.string_to_data_type (take 31 p.datatype)

  unfoldable pub get_field_datatype : ℕ → T
  unfolding get_field_profile
  get_field_datatype i = datatype_of (get_field_profile i)

  abbrev pub min_of : Option (DataProfile F) → F
  min_of none = lib.float_zero
  min_of (some p) = p.min

  abbrev pub max_of : Option (DataProfile F) → F
  max_of none = lib.float_zero
  max_of (some p) = p.max

  -- `getFieldMin(i)` and `getFieldMax(i)`.
  unfoldable pub get_field_min : ℕ → F
  unfolding get_field_profile
  get_field_min i =
      let ov : F = get_field_min_override lib.nan ctx.field_overrides c.key_id i in
      if ltb i (length c.fields) && not (lib.is_nan ov) then ov else min_of (get_field_profile i)

  unfoldable pub get_field_max : ℕ → F
  unfolding get_field_profile
  get_field_max i =
      let ov : F = get_field_max_override lib.nan ctx.field_overrides c.key_id i in
      if ltb i (length c.fields) && not (lib.is_nan ov) then ov else max_of (get_field_profile i)

  -- `getVectorFromDouble(value, field_idx)`, for the profile of the field.
  abbrev pub scaled : DataProfile F → D → DataValue F
  scaled p value = number (lib.to_float (lib.round_digits (lib.times value p.divider) p.digits))

  abbrev pub double_value : D → ℕ → Option (DataProfile F) → List ℕ
  double_value value field_idx none = []
  double_value value field_idx (some p) = lib.encode (get_field_datatype field_idx) (scaled p value)

  unfoldable pub get_vector_from_double : D → ℕ → List ℕ
  unfolding get_field_datatype get_field_profile
  get_vector_from_double value field_idx =
      double_value value field_idx (get_field_profile field_idx)

  -- `getVectorFromString(value, field_idx)`.
  abbrev pub hex_value : T → List ℕ → List ℕ
  hex_value dt value =
      let bytes : List ℕ = lib.to_bytes value 256 in
      if not (length value == 2 * lib.size_of_data_type dt)
      then []
      else if not (all_xdigits value)
      then []
      else if not (length bytes == lib.size_of_data_type dt)
      then []
      else lib.encode dt (text (lib.byte_to_char bytes))

  abbrev pub char_value : T → List ℕ → List ℕ
  char_value dt value =
      if not (length value == lib.size_of_data_type dt)
      then []
      else lib.encode dt (text (take (lib.size_of_data_type dt) value))

  abbrev pub string_value : List ℕ → ℕ → Option (DataProfile F) → List ℕ
  string_value value field_idx none = []
  string_value value field_idx (some p) =
      let dt : T = get_field_datatype field_idx in
      if starts_with_hex (lib.data_type_to_string dt)
      then hex_value dt value
      else char_value dt value

  unfoldable pub get_vector_from_string : List ℕ → ℕ → List ℕ
  unfolding get_field_datatype get_field_profile
  get_vector_from_string value field_idx =
      string_value value field_idx (get_field_profile field_idx)

  abbrev pub from_number : ℕ → Option D → List ℕ
  from_number field_idx none = []
  from_number field_idx (some val) =
      if lib.at_least val (get_field_min field_idx) && lib.at_most val (get_field_max field_idx)
      then get_vector_from_double val field_idx
      else []

  -- The field that an object names; the last `field` counts.
  abbrev pub named_in : List (List ℕ × List ℕ) → ℕ → ℕ
  named_in [] field_idx = field_idx
  named_in ((key, value) ∷ kvs) field_idx =
      named_in kvs (if bytes_eq key field_key then get_field_index ctx.pool c value else field_idx)

  abbrev pub named_by : Option (List (List ℕ × List ℕ)) → ℕ → ℕ
  named_by none field_idx = field_idx
  named_by (some kvs) field_idx = named_in kvs field_idx

  unfoldable pub chosen_field : List ℕ → ℕ → ℕ
  unfolding get_field_index
  chosen_field value_json field_idx =
      if is_enclosed b'{' b'}' value_json
      then named_by (lib.object_fields value_json) field_idx
      else field_idx

  unfoldable pub from_profile : List ℕ → ℕ → Option (DataProfile F) → List ℕ
  unfolding get_field_datatype get_field_min get_field_max get_vector_from_double
      get_vector_from_string
  from_profile value_json field_idx none = []
  from_profile value_json field_idx (some p) =
      if lib.is_numeric (get_field_datatype field_idx)
      then from_number field_idx (lib.to_num_strict value_json)
      else get_vector_from_string (unquoted value_json) field_idx

  -- `getVectorFromValue(value_json, field_idx)`; no bytes mean that the value is refused.
  unfoldable pub get_vector_from_value : List ℕ → ℕ → List ℕ
  unfolding chosen_field from_profile get_field_profile
  get_vector_from_value value_json field_idx =
      let chosen : ℕ = chosen_field value_json field_idx in
      if length value_json == 0 || leb (length c.fields) field_idx
      then []
      else if leb (length c.fields) chosen
      then []
      else from_profile value_json chosen (get_field_profile chosen)
