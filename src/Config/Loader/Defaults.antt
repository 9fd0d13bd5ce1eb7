-- ===== src/Config/Loader/Defaults.antt =====
-- src/config/app_config_loader.cpp: what `load` gives after the configuration was erased.
use esp_arduino_ebus.Base.{◌≡◌, refl, ◌∙◌, ap, Bool, true, false, [], none}
use esp_arduino_ebus.Config.{FixedString, AppConfig, Key, flat_keys, reset}
use esp_arduino_ebus.Config.Nvs.{Nvs, IsNvs, Session, reset_config, after_erase}
use esp_arduino_ebus.Config.Nvs.Stored.{IsOpen, read_string-missing, read_int-missing}
use esp_arduino_ebus.Config.Loader.{load_value, load}
use esp_arduino_ebus.Config.Loader.Loaded.{loaded, load_fields-ready}

-- The configuration of a device whose flash holds none.
pub blank : FixedString → AppConfig
blank f = let c : AppConfig = reset f in record c { bus = record c.bus { system_response = false } }

module _ (f : FixedString) (n : Nvs) (is : IsNvs n) (s : Session n) (o : IsOpen n s)
    (texts : (k : Key) → is.text_at s.flash k ≡ none)
    (numbers : (k : Key) → n.get_i32 s.flash k ≡ none) where
  loaded-blank : loaded f n flat_keys s (reset f) ≡ blank f
  unfolding load_value blank reset
  loaded-blank =
      let strings = λ (k : Key). read_string-missing n is s o k [] (texts k) in
      let ints = λ (k : Key). read_int-missing n is s o k (texts k) (numbers k) in
      simp (strings, ints)

  load-blank : load f n s ≡ (blank f, s)
  unfolding load
  load-blank = load_fields-ready f n flat_keys s (reset f) o.ready ∙ ap (λ c. (c, s)) loaded-blank

after_erase-true :
    (n : Nvs) (p : Bool × n.Flash)
    → p.0 ≡ true
    → after_erase n p ≡ record { nvs_ready = true; flash = (n.commit p.1).1 }
after_erase-true n (true, s) e = refl
after_erase-true n (false, s) e = cc

reset_config-erased :
    (n : Nvs) (s : Session n)
    → s.nvs_ready ≡ true
    → n.open_write s.flash ≡ true
    → (n.erase_all s.flash).0 ≡ true
    → reset_config n s ≡ record { nvs_ready = true; flash = (n.commit (n.erase_all s.flash).1).1 }
unfolding reset_config
reset_config-erased n s r w e =
    let ready : reset_config n s ≡ after_erase n (n.erase_all s.flash) = simp (r, w) in
    ready ∙ after_erase-true n (n.erase_all s.flash) e

-- After a reset that erases the flash, `load` gives the values of `reset`, except that the device
-- does not answer for the system (`system_response`), which `reset` sets.
pub load-reset_config :
    (f : FixedString) (n : Nvs)
    → IsNvs n
    → (s : Session n) → IsOpen n s
    → n.open_write s.flash ≡ true
    → (n.erase_all s.flash).0 ≡ true
    → load f n (reset_config n s) ≡ (blank f, reset_config n s)
load-reset_config f n is s o w e =
    let erased : n.Flash = (n.erase_all s.flash).1 in
    let readable : n.open_read (n.commit erased).1 ≡ true =
      is.commit-open_read erased (is.erase_all-open_read s.flash o.readable) in
    rw (reset_config-erased n s o.ready w e) (
      load-blank f n is (record { nvs_ready = true; flash = (n.commit erased).1 })
        (record { ready = refl; readable = readable })
        (λ k. is.commit_lem erased k ∙ (is.erase_all_lem s.flash e k).0)
        (λ k. is.commit_i32 erased k ∙ (is.erase_all_lem s.flash e k).1))
