-- ===== src/Config/Loader/Settled.antt =====
-- src/config/app_config_loader.cpp: what is left of a configuration after it was saved and loaded.
use esp_arduino_ebus.Base.{ℕ, ◌≡◌, true, List, [], if◌then◌else◌, arith, ltb, ◌==◌, length}
use esp_arduino_ebus.Config.{
  FixedString, AppConfig, is_empty, is_valid, default_wifi_ssid, default_wifi_password,
  default_ap_mode_password, default_sntp_server, default_sntp_timezone, default_ebus_address,
  default_thing_name,
}

abbrev pub text_or : List ℕ → List ℕ → List ℕ
text_or default t = if is_empty t then default else t

abbrev pub number_or : ℕ → ℕ → ℕ
number_or default v = if v == 0 then default else v

-- What is left of a configuration after a restart: an empty text and a zero are the default again, and
-- headers that fill more than the buffer with their last zero are lost.
unfoldable pub settled : FixedString → AppConfig → AppConfig
settled f c = record {
  network = record {
    wifi_ssid = text_or (f.assign 32 default_wifi_ssid) c.network.wifi_ssid;
    wifi_password = text_or (f.assign 64 default_wifi_password) c.network.wifi_password;
    wifi_bssid = c.network.wifi_bssid;
    ap_password = text_or (f.assign 32 default_ap_mode_password) c.network.ap_password;
    static_ip_enabled = c.network.static_ip_enabled;
    ip_address = c.network.ip_address;
    gateway = c.network.gateway;
    netmask = c.network.netmask;
    dns1 = c.network.dns1;
    dns2 = c.network.dns2;
  };
  sntp = record {
    enabled = c.sntp.enabled;
    server = text_or (f.assign 64 default_sntp_server) c.sntp.server;
    timezone = text_or (f.assign 32 default_sntp_timezone) c.sntp.timezone;
  };
  pwm = record { value = number_or 130 c.pwm.value };
  bus = record {
    window_us = number_or 4400 c.bus.window_us;
    offset_us = number_or 50 c.bus.offset_us;
    address = text_or (f.assign 8 default_ebus_address) c.bus.address;
    system_inquiry = c.bus.system_inquiry;
    system_response = c.bus.system_response;
    scan_on_startup = c.bus.scan_on_startup;
  };
  mqtt = record {
    enabled = c.mqtt.enabled;
    server = c.mqtt.server;
    user = c.mqtt.user;
    pass = c.mqtt.pass;
    root_topic = c.mqtt.root_topic;
  };
  mqtt_ha = record {
    enabled = c.mqtt_ha.enabled;
    thing_name = text_or (f.assign 32 default_thing_name) c.mqtt_ha.thing_name;
  };
  http = record { headers = if ltb (length c.http.headers) 512 then c.http.headers else [] };
}

-- The settled form of a valid configuration is valid.
pub settled-is_valid :
    (f : FixedString) (c : AppConfig) → is_valid c ≡ true → is_valid (settled f c) ≡ true
unfolding is_valid settled
settled-is_valid f c v = ground arith
