-- ===== src/Config/Served.antt =====
-- src/config/config_manager.cpp: the configuration that is served over HTTP.
use esp_arduino_ebus.Base.{
  ℕ, ◌+◌, ◌≡◌, refl, sym, ◌∙◌, ap, Bool, true, false, not, ◌&&◌, ◌||◌, List, [], ◌∷◌, Option, none,
  some, if◌then◌else◌, ℤ, pos, negsuc, arith, Bool-cases, inl, inr,
}
use esp_arduino_ebus.Config.{Key, other, key_eq, wifi_password, mqtt_pass, ap_mode_password}
use esp_arduino_ebus.Config.Texts.{decimal}
use esp_arduino_ebus.Config.Nvs.{Nvs, Session, ensure_nvs_ready, read_handle}
use esp_arduino_ebus.Config.Merge.{Pair}
use esp_arduino_ebus.Config.Merge.Posted.{is_secret}
use esp_arduino_ebus.Config.Fields.{has, key_eq→eq}

-- `nvs_type_t`.
pub data EntryType : Type 0 where
  str i8 u8 i16 u16 i32 u32 i64 u64 other_type : EntryType

-- The rest of the nvs library: the entries that an iterator goes through, in its order (none if none is
-- found), and `nvs_get_i8` and the like.
pub record Entries (n : Nvs) : Type 0 where
  pub entries : n.Flash → List (Key × EntryType)
  pub get_number : n.Flash → Key → EntryType → Option ℤ

-- `std::to_string` of up to 64 bits.
unfoldable pub signed_text : ℤ → List ℕ
unfolding decimal
signed_text (pos v) = decimal 20 v []
signed_text (negsuc v) = b'-' ∷ decimal 20 (v + 1) []

abbrev pub number_text : Option ℤ → Option (List ℕ)
number_text none = none
number_text (some v) = some (signed_text v)

-- The comparison with the three names of passwords.
unfoldable pub is_secret_key : Key → Bool
is_secret_key k = key_eq k wifi_password || key_eq k mqtt_pass || key_eq k ap_mode_password

abbrev pub with_field : Key → Option (List ℕ) → List Pair → List Pair
with_field k none ps = ps
with_field k (some value) ps = (k, value) ∷ ps

module _ (n : Nvs) (e : Entries n) where
  -- `readEntryValueAsString(handle, info, out)`.
  unfoldable pub read_entry_value_as_string : n.Flash → Key → EntryType → Option (List ℕ)
  unfolding read_handle signed_text
  read_entry_value_as_string s k str = some (read_handle n s k [])
  read_entry_value_as_string s k other_type = none
  read_entry_value_as_string s k ty = number_text (e.get_number s k ty)

  -- The loop of `fillJsonFromNvs`: the fields that are written.
  unfoldable pub fill_from : n.Flash → List (Key × EntryType) → List Pair
  unfolding read_entry_value_as_string is_secret_key
  fill_from s [] = []
  fill_from s ((k, ty) ∷ es) =
      let rest : List Pair = fill_from s es in
      if not (is_secret_key k) then with_field k (read_entry_value_as_string s k ty) rest else rest

  unfoldable pub fill_json_from_nvs : n.Flash → List Pair
  unfolding fill_from
  fill_json_from_nvs s = fill_from s (e.entries s)

  -- `fetchConfig(visitor)`: the session, and the fields, of which there are none in `{}`.
  unfoldable pub fetch_config : Session n → Session n × List Pair
  fetch_config s =
      let s' : Session n = ensure_nvs_ready n s in
      if not s'.nvs_ready || not (n.open_read s'.flash)
      then (s', [])
      else (s', fill_json_from_nvs s'.flash)

abbrev pub keys : List Pair → List Key
keys [] = []
keys ((k, value) ∷ ps) = k ∷ keys ps

abbrev is_some : Option (List ℕ) → Bool
is_some none = false
is_some (some t) = true

-- The passwords are the three keys of `is_secret`, which a merge keeps when they are posted empty.
is_secret_key-is_secret : (k : Key) → is_secret_key k ≡ is_secret k
unfolding is_secret_key
is_secret_key-is_secret (other name) = refl
is_secret_key-is_secret k = refl

-- A key other than the passwords is none of them.
secret_same : (j k : Key) → is_secret_key k ≡ false → (key_eq k j && is_secret_key j) ≡ false
secret_same j k h = elim (Bool-cases (key_eq k j)) [
  | inl q ↦ rw q (ap is_secret_key (sym (key_eq→eq k j q)) ∙ h)
  | inr q ↦ rw q refl
]

module _ (n : Nvs) (e : Entries n) where
  -- Whether there is an entry of the key that can be read.
  pub is_readable : Key → n.Flash → List (Key × EntryType) → Bool
  is_readable j s [] = false
  is_readable j s ((k, ty) ∷ es) =
      (key_eq k j && is_some (read_entry_value_as_string n e s k ty)) || is_readable j s es

  has-with_field :
      (j k : Key) (o : Option (List ℕ)) (ps : List Pair)
      → has j (keys (with_field k o ps)) ≡ ((key_eq k j && is_some o) || has j (keys ps))
  has-with_field j k none ps = ground arith
  has-with_field j k (some t) ps = ground arith

  has-fill_from :
      (j : Key) (s : n.Flash) (es : List (Key × EntryType))
      → has j (keys (fill_from n e s es)) ≡ (not (is_secret_key j) && is_readable j s es)
  unfolding fill_from is_readable
  has-fill_from j s [] = ground arith
  has-fill_from j s ((k, ty) ∷ es) = elim (Bool-cases (is_secret_key k)) [
    | inl h ↦ elim (Bool-cases (key_eq k j)) [
      | inl q ↦
          let secret : is_secret_key j ≡ true = ap is_secret_key (sym (key_eq→eq k j q)) ∙ h in
          rw (h, secret) (has-fill_from j s es ∙ rw secret refl)
      | inr q ↦ rw (h, q) (has-fill_from j s es)
    ]
    | inr h ↦
        let same : (key_eq k j && is_secret_key j) ≡ false = secret_same j k h in
        let o : Option (List ℕ) = read_entry_value_as_string n e s k ty in
        rw h (has-with_field j k o (fill_from n e s es) ∙ ground (arith, has-fill_from j s es))
  ]

  has-fill_json_from_nvs :
      (j : Key) (s : n.Flash)
      → has j (keys (fill_json_from_nvs n e s))
        ≡ (not (is_secret_key j) && is_readable j s (e.entries s))
  unfolding fill_json_from_nvs
  has-fill_json_from_nvs j s = has-fill_from j s (e.entries s)

  fetch_config-quiet :
      (s : Session n) (j : Key) → (is_secret_key j && has j (keys (fetch_config n e s).1)) ≡ false
  unfolding fetch_config
  fetch_config-quiet s j =
      let s' : Session n = ensure_nvs_ready n s in
      elim (Bool-cases (not s'.nvs_ready || not (n.open_read s'.flash))) [
        | inl shut ↦ rw shut (ground arith)
        | inr able ↦
            let fields : has j (keys (fill_json_from_nvs n e s'.flash))
                ≡ (not (is_secret_key j) && is_readable j s'.flash (e.entries s'.flash)) =
              has-fill_json_from_nvs j s'.flash in
            rw able (rw fields (ground arith))
      ]

  -- `fetchConfig` never serves one of the three passwords, `wifi_password`, `ap_mode_password` and
  -- `mqtt_pass`, whatever is in the flash, also when the nvs library has to be initialised first; and of
  -- the other keys `fillJsonFromNvs` writes just those with an entry that can be read.
  pub fetch_config-secret :
      (s : Session n) (j : Key)
      → ((is_secret j && has j (keys (fetch_config n e s).1)) ≡ false)
        × (has j (keys (fill_json_from_nvs n e s.flash))
            ≡ (not (is_secret j) && is_readable j s.flash (e.entries s.flash)))
  fetch_config-secret s j =
      let same : is_secret j ≡ is_secret_key j = sym (is_secret_key-is_secret j) in
      rw same (fetch_config-quiet s j, has-fill_json_from_nvs j s.flash)
