-- ===== src/Config/Nvs.antt =====
-- src/config/config_manager.cpp: the values that are read from and written to the flash. The functions
-- of ESP-IDF's nvs library are the record Nvs, and IsNvs says what is relied on.
pub mod Stored
pub mod Written
use esp_arduino_ebus.Base.{
  ℕ, zero, suc, ◌+◌, ◌-◌, ◌≤◌, ◌<◌, ◌≡◌, refl, sym, ◌∙◌, ap, Bool, true, false, not, ◌&&◌, ◌||◌,
  List, [], ◌∷◌, Option, none, some, ◌==◌, ltb, leb, if◌then◌else◌, ℤ, pos, negsuc, arith, length,
}
use esp_arduino_ebus.Config.{Key, key_eq, is_empty}
use esp_arduino_ebus.Config.Texts.{c_str, strtol, is_true_text, selected}

-- The results of `nvs_flash_init`.
pub data InitResult : Type 0 where
  init_ok no_free_pages new_version_found init_failed : InitResult

-- The results of `nvs_get_str` with no buffer, which asks for the size.
pub data SizeResult : Type 0 where
  not_found size_failed : SizeResult
  size : ℕ → SizeResult

-- The functions of the nvs library in the namespace of the firmware. `get_str` takes the size of the
-- buffer, and a write gives its success and the flash.
pub record Nvs : Type 1 where
  pub Flash : Type 0
  pub flash_init : Flash → InitResult × Flash
  pub flash_erase : Flash → Flash
  pub open_read : Flash → Bool
  pub open_write : Flash → Bool
  pub str_size : Flash → Key → SizeResult
  pub get_str : Flash → Key → ℕ → Option (List ℕ)
  pub get_i32 : Flash → Key → Option ℤ
  pub set_str : Flash → Key → List ℕ → Bool × Flash
  pub erase_all : Flash → Bool × Flash
  pub commit : Flash → Bool × Flash

-- The bytes under a key if a text is stored there, with the zero behind them in the size.
abbrev pub size_of : Option (List ℕ) → SizeResult
size_of none = not_found
size_of (some t) = size (suc (length t))

abbrev pub read_into : Option (List ℕ) → ℕ → Option (List ℕ)
read_into none n = none
read_into (some t) n = if leb (suc (length t)) n then some t else none

-- `text_at` is the text that is stored under a key. A write that succeeds changes that key alone, a
-- commit changes none, and neither keeps the namespace from being opened; a number is not read where
-- a text is. Where all was erased, there is neither. A flash whose namespace can be opened is in the
-- library's format, so that `nvs_flash_init` after a restart succeeds and keeps the texts.
pub record IsNvs (n : Nvs) : Type 0 where
  pub text_at : n.Flash → Key → Option (List ℕ)
  pub str_size_lem : (s : n.Flash) (k : Key) → n.str_size s k ≡ size_of (text_at s k)
  pub get_str_lem : (s : n.Flash) (k : Key) (m : ℕ) → n.get_str s k m ≡ read_into (text_at s k) m
  pub get_i32_text :
      (s : n.Flash) (k : Key) (t : List ℕ) → text_at s k ≡ some t → n.get_i32 s k ≡ none
  pub set_str_lem :
      (s : n.Flash) (k : Key) (t : List ℕ)
      → (n.set_str s k t).0 ≡ true
      → (j : Key) → text_at (n.set_str s k t).1 j ≡ (if key_eq k j then some t else text_at s j)
  pub commit_lem : (s : n.Flash) (j : Key) → text_at (n.commit s).1 j ≡ text_at s j
  pub erase_all_lem :
      (s : n.Flash)
      → (n.erase_all s).0 ≡ true
      → (j : Key) → (text_at (n.erase_all s).1 j ≡ none) × (n.get_i32 (n.erase_all s).1 j ≡ none)
  pub commit_i32 : (s : n.Flash) (j : Key) → n.get_i32 (n.commit s).1 j ≡ n.get_i32 s j
  pub erase_all-open_read :
      (s : n.Flash) → n.open_read s ≡ true → n.open_read (n.erase_all s).1 ≡ true
  pub set_str-open_read :
      (s : n.Flash) (k : Key) (t : List ℕ)
      → n.open_read s ≡ true
      → n.open_read (n.set_str s k t).1 ≡ true
  pub commit-open_read : (s : n.Flash) → n.open_read s ≡ true → n.open_read (n.commit s).1 ≡ true
  pub flash_init_again : (s : n.Flash) → n.open_read s ≡ true → (n.flash_init s).0 ≡ init_ok
  pub flash_init_text :
      (s : n.Flash) → n.open_read s ≡ true → (j : Key) → text_at (n.flash_init s).1 j ≡ text_at s j
  pub flash_init-open_read :
      (s : n.Flash) → n.open_read s ≡ true → n.open_read (n.flash_init s).1 ≡ true

abbrev pub string_buffer_size : ℕ
string_buffer_size = 512

module _ (n : Nvs) where
  -- The static `nvs_ready` with the flash.
  pub record Session : Type 0 where
    pub nvs_ready : Bool
    pub flash : n.Flash

  abbrev pub init_again : InitResult × n.Flash → InitResult × n.Flash
  init_again (no_free_pages, s) = n.flash_init (n.flash_erase s)
  init_again (new_version_found, s) = n.flash_init (n.flash_erase s)
  init_again r = r

  abbrev pub is_init_ok : InitResult → Bool
  is_init_ok init_ok = true
  is_init_ok _ = false

  -- `ensureNvsReady()`, which returns `nvs_ready` of the session it leaves.
  unfoldable pub ensure_nvs_ready : Session → Session
  ensure_nvs_ready s =
      if s.nvs_ready
      then s
      else let (r, flash) = init_again (n.flash_init s.flash) in
        record { nvs_ready = is_init_ok r; flash = flash }

  abbrev or_fallback : Option (List ℕ) → List ℕ → List ℕ
  or_fallback none fallback = fallback
  or_fallback (some t) fallback = t

  -- `::readString(handle, key, fallback)`.
  abbrev read_sized : SizeResult → n.Flash → Key → List ℕ → List ℕ
  read_sized not_found s k fallback = fallback
  read_sized size_failed s k fallback = fallback
  read_sized (size required) s k fallback =
      if required == 0
      then fallback
      else or_fallback
          (n.get_str s k
            (if ltb string_buffer_size required then string_buffer_size - 1 else required))
          fallback

  unfoldable pub read_handle : n.Flash → Key → List ℕ → List ℕ
  read_handle s k fallback = read_sized (n.str_size s k) s k fallback

  -- `ConfigManager::readString(key, fallback)`, `readInt(key, 0)` and `readBool(key, fallback)` in the
  -- session that `ensureNvsReady` leaves.
  unfoldable pub read_string : Session → Key → List ℕ → List ℕ
  unfolding read_handle
  read_string s k fallback =
      if not s.nvs_ready || not (n.open_read s.flash)
      then fallback
      else read_handle s.flash k fallback

  abbrev parsed : Option ℤ → ℤ
  parsed none = pos 0
  parsed (some v) = v

  abbrev read_number : Option ℤ → n.Flash → Key → ℤ
  read_number (some v) s k = v
  read_number none s k =
      let t : List ℕ = read_handle s k [] in if is_empty t then pos 0 else parsed (strtol t)

  unfoldable pub read_int : Session → Key → ℤ
  unfolding read_handle
  read_int s k =
      if not s.nvs_ready || not (n.open_read s.flash)
      then pos 0
      else read_number (n.get_i32 s.flash k) s.flash k

  -- `parseStoredBool(value)`.
  unfoldable pub parse_stored_bool : List ℕ → Bool
  parse_stored_bool value = is_true_text value

  unfoldable pub read_bool : Session → Key → Bool → Bool
  unfolding read_string parse_stored_bool
  read_bool s k fallback = parse_stored_bool (read_string s k (if fallback then selected else []))

  abbrev commit_after : Bool × n.Flash → Bool × Session
  commit_after (false, s) = (false, record { nvs_ready = true; flash = s })
  commit_after (true, s) =
      let (ok, s') = n.commit s in (ok, record { nvs_ready = true; flash = s' })

  -- `ConfigManager::writeString(key, value)`.
  unfoldable pub write_string : Session → Key → List ℕ → Bool × Session
  unfolding ensure_nvs_ready c_str
  write_string s k value =
      let s' : Session = ensure_nvs_ready s in
      if not s'.nvs_ready || not (n.open_write s'.flash)
      then (false, s')
      else commit_after (n.set_str s'.flash k (c_str value))

  abbrev pub after_erase : Bool × n.Flash → Session
  after_erase (false, s) = record { nvs_ready = true; flash = s }
  after_erase (true, s) = record { nvs_ready = true; flash = (n.commit s).1 }

  -- `ConfigManager::resetConfig()`.
  unfoldable pub reset_config : Session → Session
  unfolding ensure_nvs_ready
  reset_config s =
      let s' : Session = ensure_nvs_ready s in
      if not s'.nvs_ready || not (n.open_write s'.flash)
      then s'
      else after_erase (n.erase_all s'.flash)
