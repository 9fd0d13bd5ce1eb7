-- ===== src/Config/Loader/Loaded.antt =====
-- src/config/app_config_loader.cpp: what `load` makes of the texts under the keys.
use native.Mathlib.Nat.{mod-eq_of_lt}
use esp_arduino_ebus.Base.{
  ℕ, ◌≡◌, ◌<◌, ◌≤◌, ◌^◌, refl, ◌∙◌, ap, Bool, true, false, List, [], ◌∷◌, some, if◌then◌else◌,
  arith, ltb, length, leb-cases, lt→ltb, inl, inr,
}
use esp_arduino_ebus.Config.{
  FixedString, IsFixedString, AppConfig, Key, flat_keys, reset, is_empty, wifi_ssid, wifi_password,
  wifi_bssid, ap_mode_password, static_ip_enabled, ip_address, gateway, netmask, dns1, dns2,
  sntp_enabled, sntp_server, sntp_timezone, pwm_value, ebus_address, bus_window, bus_offset,
  system_inquiry, system_response, scan_on_startup, mqtt_enabled, mqtt_server, mqtt_user, mqtt_pass,
  root_topic, ha_enabled, thing_name, http_headers, default_wifi_ssid, default_wifi_password,
  default_ap_mode_password, default_sntp_server, default_sntp_timezone, default_ebus_address,
  default_thing_name,
}
use esp_arduino_ebus.Config.Texts.{c_str, c_str-to_string, to_string, bool_text}
use esp_arduino_ebus.Config.Nvs.{Nvs, IsNvs, Session, read_string, read_int, read_bool}
use esp_arduino_ebus.Config.Nvs.Stored.{
  IsOpen, ensure_nvs_ready-ready, read_string-text, read_string-long, read_int-to_string,
  read_bool-bool_text,
}
use esp_arduino_ebus.Config.Nvs.Written.{texts}
use esp_arduino_ebus.Config.Fields.{IsSized, has, Fits, text, length-le-capacity}
use esp_arduino_ebus.Config.Loader.{
  saved_text, assign_int_if_non_zero, assign_fixed_string_if_not_empty, load_value, load_fields,
}
use esp_arduino_ebus.Config.Loader.Settled.{settled, text_or, number_or}

is_empty-nil : (t : List ℕ) → is_empty t ≡ true → t ≡ []
is_empty-nil [] e = refl
is_empty-nil (x ∷ xs) e = cc

module _ (f : FixedString) (fs : IsFixedString f) (n : Nvs) (is : IsNvs n) (s : Session n)
    (o : IsOpen n s) where
  -- A text that fits its field comes back, unless it is empty.
  loaded_text :
      (k : Key) (capacity : ℕ) (dst t : List ℕ)
      → capacity < 512
      → Fits f (text capacity t)
      → texts n is s k ≡ some (c_str t)
      → assign_fixed_string_if_not_empty f capacity dst (read_string n s k []) ≡ text_or dst t
  unfolding assign_fixed_string_if_not_empty
  loaded_text k capacity dst t lt fits e =
      let short : length t ≤ capacity = length-le-capacity f fs capacity t fits.0 in
      let read : read_string n s k [] ≡ t =
        read_string-text n is s o k t [] (e ∙ ap some fits.1) (omega arith) in
      rw read (rw (fits.0) refl)

  -- So does a text of a field with no default.
  loaded_plain :
      (k : Key) (capacity : ℕ) (t : List ℕ)
      → capacity < 512
      → Fits f (text capacity t)
      → texts n is s k ≡ some (c_str t)
      → assign_fixed_string_if_not_empty f capacity [] (read_string n s k []) ≡ t
  loaded_plain k capacity [] lt fits e = loaded_text k capacity [] [] lt fits e
  loaded_plain k capacity (x ∷ xs) lt fits e = loaded_text k capacity [] (x ∷ xs) lt fits e

  loaded_headers :
      (k : Key) (t : List ℕ)
      → Fits f (text 512 t)
      → texts n is s k ≡ some (c_str t)
      → assign_fixed_string_if_not_empty f 512 [] (read_string n s k [])
        ≡ (if ltb (length t) 512 then t else [])
  unfolding assign_fixed_string_if_not_empty
  loaded_headers k t fits e = elim (leb-cases 512 (length t)) [
    | inl long ↦ rw (read_string-long n is s o k t [] (e ∙ ap some fits.1) long) (ground arith)
    | inr short ↦
        rw (read_string-text n is s o k t [] (e ∙ ap some fits.1) short)
          (rw (fits.0) (ground (arith, lt→ltb (length t) 512, is_empty-nil t)))
  ]

  loaded_int :
      (k : Key) (w dst v : ℕ)
      → v < 2 ^ w
      → v < 2 ^ 16
      → texts n is s k ≡ some (c_str (to_string v))
      → assign_int_if_non_zero w dst (read_int n s k) ≡ number_or dst v
  unfolding assign_int_if_non_zero
  loaded_int k w dst v lt le e =
      rw (read_int-to_string n is s o k v (e ∙ ap some (c_str-to_string v)) le)
        (rw (mod-eq_of_lt lt) refl)

  loaded_bool :
      (k : Key) (b : Bool) → texts n is s k ≡ some (c_str (bool_text b)) → read_bool n s k false ≡ b
  unfolding c_str
  loaded_bool k true e = read_bool-bool_text n is s o k true e
  loaded_bool k false e = read_bool-bool_text n is s o k false e

module _ (f : FixedString) (n : Nvs) where
  abbrev pub loaded : List Key → Session n → AppConfig → AppConfig
  loaded [] s c = c
  loaded (k ∷ ks) s c = loaded ks s (load_value f n k s c)

  -- With the library ready, each read is in one and the same session.
  pub load_fields-ready :
      (ks : List Key) (s : Session n) (c : AppConfig)
      → s.nvs_ready ≡ true
      → load_fields f n ks s c ≡ (loaded ks s c, s)
  unfolding load_fields
  load_fields-ready [] s c e = refl
  load_fields-ready (k ∷ ks) s c e =
      rw (ensure_nvs_ready-ready n s e) (load_fields-ready ks s (load_value f n k s c) e)

module _ (f : FixedString) (fs : IsFixedString f) (n : Nvs) (is : IsNvs n) (c : AppConfig)
    (sized : IsSized f c) (s : Session n) (o : IsOpen n s)
    (stored : (k : Key)
      → has k flat_keys ≡ true
      → texts n is s k ≡ some (c_str (saved_text k c))) where
  loaded_network : (loaded f n flat_keys s (reset f)).network ≡ (settled f c).network
  unfolding settled reset load_value saved_text
  loaded_network = λ i. record {
    wifi_ssid =
        loaded_text f fs n is s o wifi_ssid 32 (f.assign 32 default_wifi_ssid) c.network.wifi_ssid
          (omega arith) (sized.fits wifi_ssid) (stored wifi_ssid refl) i;
    wifi_password =
        loaded_text f fs n is s o wifi_password 64 (f.assign 64 default_wifi_password)
          c.network.wifi_password (omega arith) (sized.fits wifi_password)
          (stored wifi_password refl) i;
    wifi_bssid =
        loaded_plain f fs n is s o wifi_bssid 18 c.network.wifi_bssid (omega arith)
          (sized.fits wifi_bssid) (stored wifi_bssid refl) i;
    ap_password =
        loaded_text f fs n is s o ap_mode_password 32 (f.assign 32 default_ap_mode_password)
          c.network.ap_password (omega arith) (sized.fits ap_mode_password)
          (stored ap_mode_password refl) i;
    static_ip_enabled =
        loaded_bool f fs n is s o static_ip_enabled c.network.static_ip_enabled
          (stored static_ip_enabled refl) i;
    ip_address =
        loaded_plain f fs n is s o ip_address 16 c.network.ip_address (omega arith)
          (sized.fits ip_address) (stored ip_address refl) i;
    gateway =
        loaded_plain f fs n is s o gateway 16 c.network.gateway (omega arith) (sized.fits gateway)
          (stored gateway refl) i;
    netmask =
        loaded_plain f fs n is s o netmask 16 c.network.netmask (omega arith) (sized.fits netmask)
          (stored netmask refl) i;
    dns1 =
        loaded_plain f fs n is s o dns1 16 c.network.dns1 (omega arith) (sized.fits dns1)
          (stored dns1 refl) i;
    dns2 =
        loaded_plain f fs n is s o dns2 16 c.network.dns2 (omega arith) (sized.fits dns2)
          (stored dns2 refl) i;
  }

  loaded_sntp : (loaded f n flat_keys s (reset f)).sntp ≡ (settled f c).sntp
  unfolding settled reset load_value saved_text
  loaded_sntp = λ i. record {
    enabled = loaded_bool f fs n is s o sntp_enabled c.sntp.enabled (stored sntp_enabled refl) i;
    server =
        loaded_text f fs n is s o sntp_server 64 (f.assign 64 default_sntp_server) c.sntp.server
          (omega arith) (sized.fits sntp_server) (stored sntp_server refl) i;
    timezone =
        loaded_text f fs n is s o sntp_timezone 32 (f.assign 32 default_sntp_timezone)
          c.sntp.timezone (omega arith) (sized.fits sntp_timezone) (stored sntp_timezone refl) i;
  }

  loaded_pwm : (loaded f n flat_keys s (reset f)).pwm ≡ (settled f c).pwm
  unfolding settled reset load_value saved_text
  loaded_pwm = λ i. record {
    value =
        loaded_int f fs n is s o pwm_value 8 130 c.pwm.value (sized.fits pwm_value)
          (omega (arith, sized.fits pwm_value)) (stored pwm_value refl) i;
  }

  loaded_bus : (loaded f n flat_keys s (reset f)).bus ≡ (settled f c).bus
  unfolding settled reset load_value saved_text
  loaded_bus = λ i. record {
    window_us =
        loaded_int f fs n is s o bus_window 16 4400 c.bus.window_us (sized.fits bus_window)
          (omega (arith, sized.fits bus_window)) (stored bus_window refl) i;
    offset_us =
        loaded_int f fs n is s o bus_offset 16 50 c.bus.offset_us (sized.fits bus_offset)
          (omega (arith, sized.fits bus_offset)) (stored bus_offset refl) i;
    address =
        loaded_text f fs n is s o ebus_address 8 (f.assign 8 default_ebus_address) c.bus.address
          (omega arith) (sized.fits ebus_address) (stored ebus_address refl) i;
    system_inquiry =
        loaded_bool f fs n is s o system_inquiry c.bus.system_inquiry (stored system_inquiry refl)
          i;
    system_response =
        loaded_bool f fs n is s o system_response c.bus.system_response
          (stored system_response refl) i;
    scan_on_startup =
        loaded_bool f fs n is s o scan_on_startup c.bus.scan_on_startup
          (stored scan_on_startup refl) i;
  }

  loaded_mqtt : (loaded f n flat_keys s (reset f)).mqtt ≡ (settled f c).mqtt
  unfolding settled reset load_value saved_text
  loaded_mqtt = λ i. record {
    enabled = loaded_bool f fs n is s o mqtt_enabled c.mqtt.enabled (stored mqtt_enabled refl) i;
    server =
        loaded_plain f fs n is s o mqtt_server 64 c.mqtt.server (omega arith)
          (sized.fits mqtt_server) (stored mqtt_server refl) i;
    user =
        loaded_plain f fs n is s o mqtt_user 32 c.mqtt.user (omega arith) (sized.fits mqtt_user)
          (stored mqtt_user refl) i;
    pass =
        loaded_plain f fs n is s o mqtt_pass 32 c.mqtt.pass (omega arith) (sized.fits mqtt_pass)
          (stored mqtt_pass refl) i;
    root_topic =
        loaded_plain f fs n is s o root_topic 32 c.mqtt.root_topic (omega arith)
          (sized.fits root_topic) (stored root_topic refl) i;
  }

  loaded_mqtt_ha : (loaded f n flat_keys s (reset f)).mqtt_ha ≡ (settled f c).mqtt_ha
  unfolding settled reset load_value saved_text
  loaded_mqtt_ha = λ i. record {
    enabled = loaded_bool f fs n is s o ha_enabled c.mqtt_ha.enabled (stored ha_enabled refl) i;
    thing_name =
        loaded_text f fs n is s o thing_name 32 (f.assign 32 default_thing_name)
          c.mqtt_ha.thing_name (omega arith) (sized.fits thing_name) (stored thing_name refl) i;
  }

  loaded_http : (loaded f n flat_keys s (reset f)).http ≡ (settled f c).http
  unfolding settled reset load_value saved_text
  loaded_http = λ i. record {
    headers =
        loaded_headers f fs n is s o http_headers c.http.headers (sized.fits http_headers)
          (stored http_headers refl) i;
  }

  pub loaded_all : loaded f n flat_keys s (reset f) ≡ settled f c
  loaded_all = λ i. record {
    network = loaded_network i;
    sntp = loaded_sntp i;
    pwm = loaded_pwm i;
    bus = loaded_bus i;
    mqtt = loaded_mqtt i;
    mqtt_ha = loaded_mqtt_ha i;
    http = loaded_http i;
  }
