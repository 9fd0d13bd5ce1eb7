-- ===== src/Config/Apply.antt =====
-- src/app/app.cpp: App::loadConfig and applyFlatConfigJson.
pub mod Accepted
use esp_arduino_ebus.Base.{ℕ, ◌≡◌, refl, Bool, true, false, not, List, [], ◌∷◌, if◌then◌else◌}
use esp_arduino_ebus.Config.{FixedString, AppConfig, is_valid}
use esp_arduino_ebus.Config.Nvs.{Nvs, Session, write_string}
use esp_arduino_ebus.Config.Loader.{save, load}
use esp_arduino_ebus.Config.Merge.{Token, Pair, merge_flat_json}

-- The result, with the texts of the errors as constructors.
pub data Outcome : Type 0 where
  accepted invalid_json out_of_range write_failed : Outcome

module _ (n : Nvs) where
  -- The unknown keys are written in order, up to the first failure.
  unfoldable pub write_unknowns : List Pair → Session n → Bool × Session n
  unfolding write_string
  write_unknowns [] s = (true, s)
  write_unknowns ((k, value) ∷ ps) s =
      let (ok, s') = write_string n s k value in
      let rest : Bool × Session n = write_unknowns ps s' in if ok then rest else (false, s')

  abbrev pub after_unknowns : Bool × Session n → Outcome × Session n
  after_unknowns (false, s) = (write_failed, s)
  after_unknowns (true, s) = (accepted, s)

  abbrev pub after_save : List Pair → Bool × Session n → Outcome × Session n
  after_save unknowns (false, s) = (write_failed, s)
  after_save unknowns (true, s) = after_unknowns (write_unknowns unknowns s)

  abbrev pub after_merge : Bool × AppConfig × List Pair → Session n → Outcome × Session n
  after_merge (false, staging, unknowns) s = (invalid_json, s)
  after_merge (true, staging, unknowns) s =
      if not (is_valid staging) then (out_of_range, s) else after_save unknowns (save n staging s)

module _ (f : FixedString) (n : Nvs) where
  -- `applyFlatConfigJson(body, error)`, where `config` is the live configuration, which it leaves alone.
  unfoldable pub apply_flat_config_json : AppConfig → List Token → Session n → Outcome × Session n
  unfolding merge_flat_json is_valid save write_unknowns
  apply_flat_config_json config body s = after_merge n (merge_flat_json f body config) s

  -- `loadConfig()`.
  unfoldable pub load_config : Session n → AppConfig × Session n
  unfolding load
  load_config s = load f n s

  -- The next start: the static `nvs_ready` is false again, the flash is what it was.
  unfoldable pub next_start : Session n → AppConfig × Session n
  unfolding load_config
  next_start s = load_config (record { nvs_ready = false; flash = s.flash })
