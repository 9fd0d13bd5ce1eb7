-- ===== src/Config/Tests.antt =====
-- The configuration on a flash that keeps every text.
use esp_arduino_ebus.Base.{
  false, not, ◌&&◌, ℕ, ◌≡◌, refl, true, List, [], ◌∷◌, Option, none, arith, take,
}
use esp_arduino_ebus.Config.{
  wifi_ssid, FixedString, IsFixedString, AppConfig, Key, reset, pwm_value, bus_window, bus_offset,
  static_ip_enabled, sntp_enabled, system_inquiry, system_response, scan_on_startup, mqtt_enabled,
  ha_enabled, wifi_password, other,
}
use esp_arduino_ebus.Config.Texts.{c_str, strtol}
use esp_arduino_ebus.Config.Nvs.{reset_config, Nvs, IsNvs, Session, init_ok, size_of, read_into}
use esp_arduino_ebus.Config.Nvs.Stored.{IsOpen}
use esp_arduino_ebus.Config.Nvs.Written.{written}
use esp_arduino_ebus.Config.Fields.{has, Fits, field, IsSized}
use esp_arduino_ebus.Config.Loader.{load, save}
use esp_arduino_ebus.Config.Loader.RoundTrip.{load-save}
use esp_arduino_ebus.Config.Loader.Settled.{settled}
use esp_arduino_ebus.Config.Loader.Defaults.{blank, load-reset_config}
use esp_arduino_ebus.Config.Merge.{Token, merge_flat_json, object_start, object_end, key, string}
use esp_arduino_ebus.Config.Merge.Posted.{posted, sets_any, is_secret}
use esp_arduino_ebus.Config.Served.{
  Entries, str, keys, fetch_config, fill_json_from_nvs, is_readable, fetch_config-secret,
}
use esp_arduino_ebus.Config.Drift.{collect_drift}
use esp_arduino_ebus.Config.Drift.Exact.{collect_drift-merge_flat_json}

abbrev buffers : FixedString
buffers = record { assign = λ n t. take n t; room = λ n. n }

buffers-IsFixedString : IsFixedString buffers
buffers-IsFixedString = record { room_le = λ n. omega arith; truncates = λ n t. refl }

abbrev memory : Nvs
memory = record {
  Flash = Key → Option (List ℕ);
  flash_init = λ s. (init_ok, s);
  flash_erase = λ s k. none;
  open_read = λ s. true;
  open_write = λ s. true;
  str_size = λ s k. size_of (s k);
  get_str = λ s k m. read_into (s k) m;
  get_i32 = λ s k. none;
  set_str = λ s k t. (true, written k t s);
  erase_all = λ s. (true, λ k. none);
  commit = λ s. (true, s);
}

memory-IsNvs : IsNvs memory
memory-IsNvs = record {
  text_at = λ s k. s k;
  str_size_lem = λ s k. refl;
  get_str_lem = λ s k m. refl;
  get_i32_text = λ s k t e. refl;
  set_str_lem = λ s k t e j. refl;
  commit_lem = λ s j. refl;
  erase_all_lem = λ s e j. (refl, refl);
  commit_i32 = λ s j. refl;
  erase_all-open_read = λ s e. refl;
  set_str-open_read = λ s k t e. refl;
  commit-open_read = λ s e. refl;
  flash_init_again = λ s e. refl;
  flash_init_text = λ s e j. refl;
  flash_init-open_read = λ s e. e;
}

abbrev erased : Session memory
erased = record { nvs_ready = true; flash = λ k. none }

erased-IsOpen : IsOpen memory erased
erased-IsOpen = record { ready = refl; readable = refl }

abbrev fresh : AppConfig
fresh = reset buffers

fresh-Fits : (k : Key) → Fits buffers (field k fresh)
unfolding reset c_str
fresh-Fits pwm_value = omega arith
fresh-Fits bus_window = omega arith
fresh-Fits bus_offset = omega arith
fresh-Fits static_ip_enabled = tt
fresh-Fits sntp_enabled = tt
fresh-Fits system_inquiry = tt
fresh-Fits system_response = tt
fresh-Fits scan_on_startup = tt
fresh-Fits mqtt_enabled = tt
fresh-Fits ha_enabled = tt
fresh-Fits k = (refl, refl)

fresh-IsSized : IsSized buffers fresh
fresh-IsSized = record { fits = fresh-Fits }

load-save_example :
    load buffers memory (save memory fresh erased).1
    ≡ (settled buffers fresh, (save memory fresh erased).1)
unfolding save reset
load-save_example =
    load-save buffers buffers-IsFixedString memory memory-IsNvs fresh fresh-IsSized erased
      erased-IsOpen refl

load-reset_config_example :
    load buffers memory (reset_config memory erased) ≡ (blank buffers, reset_config memory erased)
load-reset_config_example =
    load-reset_config buffers memory memory-IsNvs erased erased-IsOpen refl refl

-- A body with a number, an empty password and a key that is not known.
abbrev body : List Token
body =
    object_start
    ∷ key bus_offset
    ∷ string (b'0' ∷ [])
    ∷ key wifi_password
    ∷ string []
    ∷ key (other (b'x' ∷ []))
    ∷ string (b'1' ∷ [])
    ∷ object_end
    ∷ []

collect_drift-merge_flat_json_example : sets_any bus_offset (posted body) ≡ true
unfolding merge_flat_json collect_drift reset strtol c_str
collect_drift-merge_flat_json_example =
    collect_drift-merge_flat_json buffers body fresh bus_offset refl

-- Two texts, of which one is a password.
abbrev two_entries : Entries memory
two_entries = record {
  entries = λ s. (wifi_ssid, str) ∷ (wifi_password, str) ∷ [];
  get_number = λ s k ty. none;
}

fetch_config-secret_example :
    ((is_secret wifi_password
        && has wifi_password (keys (fetch_config memory two_entries erased).1))
      ≡ false)
    × (has wifi_password (keys (fill_json_from_nvs memory two_entries erased.flash)) ≡ (
        not (is_secret wifi_password)
        && is_readable memory two_entries wifi_password erased.flash
            (two_entries.entries erased.flash)))
fetch_config-secret_example = fetch_config-secret memory two_entries erased wifi_password
