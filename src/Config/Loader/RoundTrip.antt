-- ===== src/Config/Loader/RoundTrip.antt =====
-- src/config/app_config_loader.cpp: what `load` gives back of a configuration that was saved.
use esp_arduino_ebus.Base.{◌≡◌, refl, ◌∙◌, ap, true, some}
use esp_arduino_ebus.Config.{FixedString, IsFixedString, AppConfig, Key, flat_keys, reset}
use esp_arduino_ebus.Config.Texts.{c_str}
use esp_arduino_ebus.Config.Nvs.{Nvs, IsNvs, Session}
use esp_arduino_ebus.Config.Nvs.Stored.{IsOpen}
use esp_arduino_ebus.Config.Nvs.Written.{texts}
use esp_arduino_ebus.Config.Fields.{IsSized, has}
use esp_arduino_ebus.Config.Loader.{saved_text, load, save}
use esp_arduino_ebus.Config.Loader.Saved.{IsSaved, save-IsSaved}
use esp_arduino_ebus.Config.Loader.Settled.{settled}
use esp_arduino_ebus.Config.Loader.Loaded.{load_fields-ready, loaded_all}

-- A load where the texts of a configuration are stored under its keys.
pub load-stored :
    (f : FixedString)
    → IsFixedString f
    → (n : Nvs) (is : IsNvs n) (c : AppConfig) → IsSized f c
    → (s : Session n) → IsOpen n s
    → ((k : Key) → has k flat_keys ≡ true → texts n is s k ≡ some (c_str (saved_text k c)))
    → load f n s ≡ (settled f c, s)
unfolding load
load-stored f fs n is c sized s o stored =
    load_fields-ready f n flat_keys s (reset f) o.ready
    ∙ ap (λ d. (d, s)) (loaded_all f fs n is c sized s o stored)

-- After a save that succeeds, with the nvs library ready, a load gives the configuration as it is
-- settled: every value that was saved, but the default for an empty text or a zero in a field that has
-- a default other than that, and no headers where there were 512 bytes of them.
pub load-save :
    (f : FixedString)
    → IsFixedString f
    → (n : Nvs) (is : IsNvs n) (c : AppConfig) → IsSized f c
    → (s : Session n) → IsOpen n s
    → (save n c s).0 ≡ true
    → load f n (save n c s).1 ≡ (settled f c, (save n c s).1)
load-save f fs n is c sized s o ok =
    let saved : IsSaved n is c flat_keys s (save n c s).1 = save-IsSaved n is c s o ok in
    load-stored f fs n is c sized (save n c s).1 saved.opened (λ k h. saved.stored k ∙ rw h refl)
