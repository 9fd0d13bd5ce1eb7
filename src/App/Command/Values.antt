-- ===== src/App/Command/Values.antt =====
-- src/app/command.cpp: which values are written, and as which bytes.
use esp_arduino_ebus.Base.{
  ℕ, ◌*◌, ◌<◌, ◌≡◌, ◌≢◌, ◌↔◌, ◌⊎◌, inl, inr, sym, true, false, ◌||◌, List, [], some, ◌==◌, leb,
  length, take, arith, Bool-cases, Option-cases,
}
use esp_arduino_ebus.App.CommandManager.{Command}
use esp_arduino_ebus.App.Command.{
  DataProfile, text, Codec, Context, unquoted, all_xdigits, starts_with_hex, get_field_profile,
  get_field_datatype, get_field_min, get_field_max, scaled, get_vector_from_double, hex_value,
  char_value, string_value, get_vector_from_string, from_number, chosen_field, from_profile,
  get_vector_from_value,
}

module _ {F D T : Type 0} (lib : Codec F D T) (ctx : Context F) (c : Command) where
  -- A number that can be read as a whole and is within the limits in force for the field.
  abbrev pub IsNumber : List ℕ → ℕ → DataProfile F → List ℕ → Type 0
  IsNumber value_json i p bytes =
      (val : D) × (lib.to_num_strict value_json ≡ some val)
      × (lib.at_least val (get_field_min lib ctx c i) ≡ true)
      × (lib.at_most val (get_field_max lib ctx c i) ≡ true)
      × (bytes ≡ lib.encode (get_field_datatype lib ctx c i) (scaled lib ctx c p val))

  -- Hex digits, two for each byte of the type, or a text of just that many bytes.
  abbrev pub IsText : List ℕ → T → List ℕ → Type 0
  IsText s dt bytes =
      ((starts_with_hex (lib.data_type_to_string dt) ≡ true)
        × (length s ≡ 2 * lib.size_of_data_type dt)
        × (all_xdigits s ≡ true)
        × (length (lib.to_bytes s 256) ≡ lib.size_of_data_type dt)
        × (bytes ≡ lib.encode dt (text (lib.byte_to_char (lib.to_bytes s 256)))))
      ⊎ ((starts_with_hex (lib.data_type_to_string dt) ≡ false)
          × (length s ≡ lib.size_of_data_type dt)
          × (bytes ≡ lib.encode dt (text (take (lib.size_of_data_type dt) s))))

  -- The bytes for a value in the field `i`.
  abbrev pub IsFieldValue : List ℕ → ℕ → DataProfile F → List ℕ → Type 0
  IsFieldValue value_json i p bytes =
      ((lib.is_numeric (get_field_datatype lib ctx c i) ≡ true) × IsNumber value_json i p bytes)
      ⊎ ((lib.is_numeric (get_field_datatype lib ctx c i) ≡ false)
          × IsText (unquoted value_json) (get_field_datatype lib ctx c i) bytes)

  hex_value-IsText :
      (dt : T) (s bytes : List ℕ)
      → bytes ≢ []
      → starts_with_hex (lib.data_type_to_string dt) ≡ true
      → (hex_value lib ctx c dt s ≡ bytes)
      → IsText s dt bytes
  hex_value-IsText dt s bytes n h e = elim (Bool-cases (length s == 2 * lib.size_of_data_type dt)) [
    | inr b ↦ absurd (n (ground arith))
    | inl b ↦ elim (Bool-cases (all_xdigits s)) [
      | inr x ↦ absurd (n (ground arith))
      | inl x ↦ elim (Bool-cases (length (lib.to_bytes s 256) == lib.size_of_data_type dt)) [
        | inr k ↦ absurd (n (ground arith))
        | inl k ↦ inl (h, ground arith, x, ground arith, ground arith)
      ]
    ]
  ]

  char_value-IsText :
      (dt : T) (s bytes : List ℕ)
      → bytes ≢ []
      → starts_with_hex (lib.data_type_to_string dt) ≡ false
      → (char_value lib ctx c dt s ≡ bytes)
      → IsText s dt bytes
  char_value-IsText dt s bytes n h e = elim (Bool-cases (length s == lib.size_of_data_type dt)) [
    | inr b ↦ absurd (n (ground arith))
    | inl b ↦ inr (h, ground arith, ground arith)
  ]

  string_value-IsText :
      (i : ℕ) (p : DataProfile F) (s bytes : List ℕ)
      → bytes ≢ []
      → string_value lib ctx c s i (some p) ≡ bytes
      → IsText s (get_field_datatype lib ctx c i) bytes
  string_value-IsText i p s bytes n e =
      let dt : T = get_field_datatype lib ctx c i in
      elim (Bool-cases (starts_with_hex (lib.data_type_to_string dt))) [
        | inl h ↦ hex_value-IsText dt s bytes n h (ground arith)
        | inr h ↦ char_value-IsText dt s bytes n h (ground arith)
      ]

  IsText-string_value :
      (i : ℕ) (p : DataProfile F) (s bytes : List ℕ)
      → IsText s (get_field_datatype lib ctx c i) bytes
      → string_value lib ctx c s i (some p) ≡ bytes
  IsText-string_value i p s bytes (inl (h, l, x, k, e)) = ground arith
  IsText-string_value i p s bytes (inr (h, l, e)) = ground arith

  from_number-IsNumber :
      (i : ℕ) (p : DataProfile F) (value_json bytes : List ℕ)
      → bytes ≢ []
      → get_field_profile lib ctx c i ≡ some p
      → from_number lib ctx c i (lib.to_num_strict value_json) ≡ bytes
      → IsNumber value_json i p bytes
  unfolding get_vector_from_double
  from_number-IsNumber i p value_json bytes n q e =
      elim (Option-cases (lib.to_num_strict value_json)) [
        | inl none_read ↦ absurd (n (sym (rw none_read at e)))
        | inr (val, read) ↦ elim (Bool-cases (lib.at_least val (get_field_min lib ctx c i))) [
          | inr low ↦ absurd (n (sym (rw (read, low) at e)))
          | inl above ↦ elim (Bool-cases (lib.at_most val (get_field_max lib ctx c i))) [
            | inr high ↦ absurd (n (sym (rw (read, above, high) at e)))
            | inl below ↦ (val, read, above, below, sym (rw (read, above, below, q) at e))
          ]
        ]
      ]

  IsNumber-from_number :
      (i : ℕ) (p : DataProfile F) (value_json bytes : List ℕ)
      → get_field_profile lib ctx c i ≡ some p
      → IsNumber value_json i p bytes
      → from_number lib ctx c i (lib.to_num_strict value_json) ≡ bytes
  unfolding get_vector_from_double
  IsNumber-from_number i p value_json bytes q (val, read, above, below, e) =
      rw (read, above, below, q) (sym e)

  from_profile-IsFieldValue :
      (i : ℕ) (p : DataProfile F) (value_json bytes : List ℕ)
      → bytes ≢ []
      → get_field_profile lib ctx c i ≡ some p
      → from_profile lib ctx c value_json i (some p) ≡ bytes
      → IsFieldValue value_json i p bytes
  unfolding from_profile get_vector_from_string
  from_profile-IsFieldValue i p value_json bytes n q e =
      elim (Bool-cases (lib.is_numeric (get_field_datatype lib ctx c i))) [
        | inl h ↦ inl (h, from_number-IsNumber i p value_json bytes n q (rw h at e))
        | inr h ↦ inr (h, string_value-IsText i p (unquoted value_json) bytes n (rw (h, q) at e))
      ]

  IsFieldValue-from_profile :
      (i : ℕ) (p : DataProfile F) (value_json bytes : List ℕ)
      → get_field_profile lib ctx c i ≡ some p
      → IsFieldValue value_json i p bytes
      → from_profile lib ctx c value_json i (some p) ≡ bytes
  unfolding from_profile get_vector_from_string
  IsFieldValue-from_profile i p value_json bytes q (inl (h, v)) =
      rw h (IsNumber-from_number i p value_json bytes q v)
  IsFieldValue-from_profile i p value_json bytes q (inr (h, v)) =
      rw (h, q) (IsText-string_value i p (unquoted value_json) bytes v)

  -- Bytes for a value: it is not empty, the field that is asked for and the one that the value names are
  -- there, the latter has a profile, and the bytes are those of the value in it.
  abbrev pub IsWritten : List ℕ → ℕ → List ℕ → Type 0
  IsWritten value_json field_idx bytes =
      let i : ℕ = chosen_field lib ctx c value_json field_idx in
      (length value_json ≢ 0)
      × (field_idx < length c.fields)
      × (i < length c.fields)
      × (p : DataProfile F) × (get_field_profile lib ctx c i ≡ some p)
      × IsFieldValue value_json i p bytes

  get_vector_from_value-IsWritten :
      (value_json : List ℕ) (field_idx : ℕ) (bytes : List ℕ)
      → bytes ≢ []
      → get_vector_from_value lib ctx c value_json field_idx ≡ bytes
      → IsWritten value_json field_idx bytes
  unfolding get_vector_from_value
  get_vector_from_value-IsWritten value_json field_idx bytes n e =
      let i : ℕ = chosen_field lib ctx c value_json field_idx in
      elim (Bool-cases (length value_json == 0 || leb (length c.fields) field_idx)) [
        | inl bad ↦ absurd (n (sym (rw bad at e)))
        | inr ok ↦ elim (Bool-cases (leb (length c.fields) i)) [
          | inl bad ↦ absurd (n (sym (rw (ok, bad) at e)))
          | inr in_range ↦ elim (Option-cases (get_field_profile lib ctx c i)) [
            | inl bad ↦ absurd (n (sym (rw (ok, in_range, bad, from_profile) at e)))
            | inr (p, q) ↦ (
              ground arith,
              ground arith,
              ground arith,
              p,
              q,
              from_profile-IsFieldValue i p value_json bytes n q (rw (ok, in_range, q) at e),
            )
          ]
        ]
      ]

  IsWritten-get_vector_from_value :
      (value_json : List ℕ) (field_idx : ℕ) (bytes : List ℕ)
      → IsWritten value_json field_idx bytes
      → get_vector_from_value lib ctx c value_json field_idx ≡ bytes
  unfolding get_vector_from_value
  IsWritten-get_vector_from_value value_json field_idx bytes (l, f, r, p, q, v) =
      let i : ℕ = chosen_field lib ctx c value_json field_idx in
      let ok : (length value_json == 0 || leb (length c.fields) field_idx) ≡ false = ground arith in
      let in_range : leb (length c.fields) i ≡ false = ground arith in
      rw (ok, in_range, q) (IsFieldValue-from_profile i p value_json bytes q v)

  pub get_vector_from_value_iff :
      (value_json : List ℕ) (field_idx : ℕ) (bytes : List ℕ)
      → bytes ≢ []
      → (get_vector_from_value lib ctx c value_json field_idx ≡ bytes)
        ↔ IsWritten value_json field_idx bytes
  get_vector_from_value_iff value_json field_idx bytes n = (
    get_vector_from_value-IsWritten value_json field_idx bytes n,
    IsWritten-get_vector_from_value value_json field_idx bytes,
  )
