-- ===== src/Config/Apply/Accepted.antt =====
-- src/app/app.cpp: what the device starts with after a posted configuration.
use esp_arduino_ebus.Base.{◌≡◌, true}
use esp_arduino_ebus.Config.{Key, is_known_flat_key}
use esp_arduino_ebus.Config.Nvs.{Nvs, IsNvs, Session}
use esp_arduino_ebus.Config.Nvs.Stored.{IsOpen}
use esp_arduino_ebus.Config.Nvs.Written.{texts}

module _ (n : Nvs) (is : IsNvs n) where
  -- The namespace can be opened, and the texts under the known keys are those of `s`.
  record IsKept (s s' : Session n) : Type 0 where
    pub opened : IsOpen n s'
    pub kept : (k : Key) → is_known_flat_key k ≡ true → texts n is s' k ≡ texts n is s k

-- The session after the `nvs_flash_init` of the next start.
abbrev pub started : (n : Nvs) → Session n → Session n
started n s = record { nvs_ready = true; flash = (n.flash_init s.flash).1 }
