-- ===== src/Config/Loader.antt =====
-- src/config/app_config_loader.cpp: AppConfigLoader::load and save, over the values of the flash.
pub mod Saved
pub mod RoundTrip
pub mod Settled
pub mod Loaded
pub mod Defaults
use esp_arduino_ebus.Base.{
  ℕ, ◌%◌, ◌+◌, ◌-◌, ◌^◌, ◌&&◌, Bool, true, false, not, List, [], ◌∷◌, if◌then◌else◌, ◌==◌, ℤ, pos,
  negsuc,
}
use esp_arduino_ebus.Config.{
  FixedString, AppConfig, Key, flat_keys, reset, is_empty, other, wifi_ssid, wifi_password,
  wifi_bssid, ap_mode_password, static_ip_enabled, ip_address, gateway, netmask, dns1, dns2,
  sntp_enabled, sntp_server, sntp_timezone, pwm_value, ebus_address, bus_window, bus_offset,
  system_inquiry, system_response, scan_on_startup, mqtt_enabled, mqtt_server, mqtt_user, mqtt_pass,
  root_topic, ha_enabled, thing_name, http_headers,
}
use esp_arduino_ebus.Config.Texts.{to_string, bool_text}
use esp_arduino_ebus.Config.Nvs.{
  Nvs, Session, ensure_nvs_ready, read_string, read_int, read_bool, write_string,
}

-- `assignIntIfNonZero(dst, src)` for a `dst` of `w` bits.
unfoldable pub assign_int_if_non_zero : ℕ → ℕ → ℤ → ℕ
assign_int_if_non_zero w dst (pos v) = if v == 0 then dst else v % 2 ^ w
assign_int_if_non_zero w dst (negsuc v) = (2 ^ w - 1 - v % 2 ^ w) % 2 ^ w

module _ (f : FixedString) where
  -- `assignFixedStringIfNotEmpty(dst, src)`.
  unfoldable pub assign_fixed_string_if_not_empty : ℕ → List ℕ → List ℕ → List ℕ
  assign_fixed_string_if_not_empty capacity dst src =
      if is_empty src then dst else f.assign capacity src

module _ (f : FixedString) (n : Nvs) where
  -- The statement of `load` for a key, in the session after the call of `ensureNvsReady`.
  unfoldable pub load_value : Key → Session n → AppConfig → AppConfig
  unfolding assign_fixed_string_if_not_empty assign_int_if_non_zero read_string read_int read_bool
  load_value wifi_ssid s c = record c {
    network = record c.network {
      wifi_ssid =
          assign_fixed_string_if_not_empty f 32 c.network.wifi_ssid (read_string n s wifi_ssid []);
    };
  }
  load_value wifi_password s c = record c {
    network = record c.network {
      wifi_password =
          assign_fixed_string_if_not_empty f 64 c.network.wifi_password
            (read_string n s wifi_password []);
    };
  }
  load_value wifi_bssid s c = record c {
    network = record c.network {
      wifi_bssid =
          assign_fixed_string_if_not_empty f 18 c.network.wifi_bssid
            (read_string n s wifi_bssid []);
    };
  }
  load_value ap_mode_password s c = record c {
    network = record c.network {
      ap_password =
          assign_fixed_string_if_not_empty f 32 c.network.ap_password
            (read_string n s ap_mode_password []);
    };
  }
  load_value static_ip_enabled s c = record c {
    network = record c.network { static_ip_enabled = read_bool n s static_ip_enabled false };
  }
  load_value ip_address s c = record c {
    network = record c.network {
      ip_address =
          assign_fixed_string_if_not_empty f 16 c.network.ip_address
            (read_string n s ip_address []);
    };
  }
  load_value gateway s c = record c {
    network = record c.network {
      gateway =
          assign_fixed_string_if_not_empty f 16 c.network.gateway (read_string n s gateway []);
    };
  }
  load_value netmask s c = record c {
    network = record c.network {
      netmask =
          assign_fixed_string_if_not_empty f 16 c.network.netmask (read_string n s netmask []);
    };
  }
  load_value dns1 s c = record c {
    network = record c.network {
      dns1 = assign_fixed_string_if_not_empty f 16 c.network.dns1 (read_string n s dns1 []);
    };
  }
  load_value dns2 s c = record c {
    network = record c.network {
      dns2 = assign_fixed_string_if_not_empty f 16 c.network.dns2 (read_string n s dns2 []);
    };
  }
  load_value sntp_enabled s c = record c {
    sntp = record c.sntp { enabled = read_bool n s sntp_enabled false };
  }
  load_value sntp_server s c = record c {
    sntp = record c.sntp {
      server = assign_fixed_string_if_not_empty f 64 c.sntp.server (read_string n s sntp_server []);
    };
  }
  load_value sntp_timezone s c = record c {
    sntp = record c.sntp {
      timezone =
          assign_fixed_string_if_not_empty f 32 c.sntp.timezone (read_string n s sntp_timezone []);
    };
  }
  load_value pwm_value s c = record c {
    pwm = record c.pwm { value = assign_int_if_non_zero 8 c.pwm.value (read_int n s pwm_value) };
  }
  load_value ebus_address s c = record c {
    bus = record c.bus {
      address =
          assign_fixed_string_if_not_empty f 8 c.bus.address (read_string n s ebus_address []);
    };
  }
  load_value bus_window s c = record c {
    bus = record c.bus {
      window_us = assign_int_if_non_zero 16 c.bus.window_us (read_int n s bus_window);
    };
  }
  load_value bus_offset s c = record c {
    bus = record c.bus {
      offset_us = assign_int_if_non_zero 16 c.bus.offset_us (read_int n s bus_offset);
    };
  }
  load_value system_inquiry s c = record c {
    bus = record c.bus { system_inquiry = read_bool n s system_inquiry false };
  }
  load_value system_response s c = record c {
    bus = record c.bus { system_response = read_bool n s system_response false };
  }
  load_value scan_on_startup s c = record c {
    bus = record c.bus { scan_on_startup = read_bool n s scan_on_startup false };
  }
  load_value mqtt_enabled s c = record c {
    mqtt = record c.mqtt { enabled = read_bool n s mqtt_enabled false };
  }
  load_value mqtt_server s c = record c {
    mqtt = record c.mqtt {
      server = assign_fixed_string_if_not_empty f 64 c.mqtt.server (read_string n s mqtt_server []);
    };
  }
  load_value mqtt_user s c = record c {
    mqtt = record c.mqtt {
      user = assign_fixed_string_if_not_empty f 32 c.mqtt.user (read_string n s mqtt_user []);
    };
  }
  load_value mqtt_pass s c = record c {
    mqtt = record c.mqtt {
      pass = assign_fixed_string_if_not_empty f 32 c.mqtt.pass (read_string n s mqtt_pass []);
    };
  }
  load_value root_topic s c = record c {
    mqtt = record c.mqtt {
      root_topic =
          assign_fixed_string_if_not_empty f 32 c.mqtt.root_topic (read_string n s root_topic []);
    };
  }
  load_value ha_enabled s c = record c {
    mqtt_ha = record c.mqtt_ha { enabled = read_bool n s ha_enabled false };
  }
  load_value thing_name s c = record c {
    mqtt_ha = record c.mqtt_ha {
      thing_name =
          assign_fixed_string_if_not_empty f 32 c.mqtt_ha.thing_name
            (read_string n s thing_name []);
    };
  }
  load_value http_headers s c = record c {
    http = record c.http {
      headers =
          assign_fixed_string_if_not_empty f 512 c.http.headers (read_string n s http_headers []);
    };
  }
  load_value (other name) s c = c

  unfoldable pub load_fields : List Key → Session n → AppConfig → AppConfig × Session n
  unfolding load_value ensure_nvs_ready
  load_fields [] s c = (c, s)
  load_fields (k ∷ ks) s c =
      let s' : Session n = ensure_nvs_ready n s in load_fields ks s' (load_value k s' c)

  -- `AppConfigLoader::load(config)`, which always returns true: the configuration, and the session.
  unfoldable pub load : Session n → AppConfig × Session n
  unfolding load_fields reset
  load s = load_fields flat_keys s (reset f)

-- The value that `save` writes for a key.
unfoldable pub saved_text : Key → AppConfig → List ℕ
saved_text wifi_ssid c = c.network.wifi_ssid
saved_text wifi_password c = c.network.wifi_password
saved_text wifi_bssid c = c.network.wifi_bssid
saved_text ap_mode_password c = c.network.ap_password
saved_text static_ip_enabled c = bool_text c.network.static_ip_enabled
saved_text ip_address c = c.network.ip_address
saved_text gateway c = c.network.gateway
saved_text netmask c = c.network.netmask
saved_text dns1 c = c.network.dns1
saved_text dns2 c = c.network.dns2
saved_text sntp_enabled c = bool_text c.sntp.enabled
saved_text sntp_server c = c.sntp.server
saved_text sntp_timezone c = c.sntp.timezone
saved_text pwm_value c = to_string c.pwm.value
saved_text ebus_address c = c.bus.address
saved_text bus_window c = to_string c.bus.window_us
saved_text bus_offset c = to_string c.bus.offset_us
saved_text system_inquiry c = bool_text c.bus.system_inquiry
saved_text system_response c = bool_text c.bus.system_response
saved_text scan_on_startup c = bool_text c.bus.scan_on_startup
saved_text mqtt_enabled c = bool_text c.mqtt.enabled
saved_text mqtt_server c = c.mqtt.server
saved_text mqtt_user c = c.mqtt.user
saved_text mqtt_pass c = c.mqtt.pass
saved_text root_topic c = c.mqtt.root_topic
saved_text ha_enabled c = bool_text c.mqtt_ha.enabled
saved_text thing_name c = c.mqtt_ha.thing_name
saved_text http_headers c = c.http.headers
saved_text (other name) c = []

module _ (n : Nvs) where
  -- The statements of `save` for the keys, where `ok` is what is true so far.
  unfoldable pub save_fields : List Key → AppConfig → Bool → Session n → Bool × Session n
  unfolding saved_text write_string
  save_fields [] c ok s = (ok, s)
  save_fields (k ∷ ks) c ok s =
      let (written, s') = write_string n s k (saved_text k c) in save_fields ks c (ok && written) s'

  -- `AppConfigLoader::save(config)`.
  unfoldable pub save : AppConfig → Session n → Bool × Session n
  unfolding save_fields
  save c s = save_fields flat_keys c true s
