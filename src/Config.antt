-- ===== src/Config.antt =====
-- src/config and include/config: the device's configuration as a record of values, its flat keys, and
-- what becomes of it.
pub mod Texts
pub mod Nvs
pub mod Loader
pub mod Merge
pub mod Drift
pub mod Fields
pub mod Apply
pub mod Served
mod Tests
use esp_arduino_ebus.Base.{
  ℕ, ◌≤◌, ◌≡◌, Bool, true, false, ◌||◌, ◌&&◌, List, [], ◌∷◌, ltb, leb, if◌then◌else◌, ◌==◌,
  bytes_eq, take,
}

-- `assign` of the ebus library's FixedString, by its capacity; it keeps as many bytes as there is
-- room for.
pub record FixedString : Type 0 where
  pub assign : ℕ → List ℕ → List ℕ
  pub room : ℕ → ℕ

pub record IsFixedString (f : FixedString) : Type 0 where
  pub room_le : (n : ℕ) → f.room n ≤ n
  pub truncates : (n : ℕ) (t : List ℕ) → f.assign n t ≡ take (f.room n) t

-- `AppConfig::Network`.
pub record Network : Type 0 where
  pub wifi_ssid : List ℕ
  pub wifi_password : List ℕ
  pub wifi_bssid : List ℕ
  pub ap_password : List ℕ
  pub static_ip_enabled : Bool
  pub ip_address : List ℕ
  pub gateway : List ℕ
  pub netmask : List ℕ
  pub dns1 : List ℕ
  pub dns2 : List ℕ

-- `AppConfig::Sntp`.
pub record Sntp : Type 0 where
  pub enabled : Bool
  pub server : List ℕ
  pub timezone : List ℕ

-- `AppConfig::Pwm`.
pub record Pwm : Type 0 where
  pub value : ℕ

-- `AppConfig::Bus`.
pub record Bus : Type 0 where
  pub window_us : ℕ
  pub offset_us : ℕ
  pub address : List ℕ
  pub system_inquiry : Bool
  pub system_response : Bool
  pub scan_on_startup : Bool

-- `AppConfig::Mqtt`.
pub record Mqtt : Type 0 where
  pub enabled : Bool
  pub server : List ℕ
  pub user : List ℕ
  pub pass : List ℕ
  pub root_topic : List ℕ

-- `AppConfig::MqttHa`.
pub record MqttHa : Type 0 where
  pub enabled : Bool
  pub thing_name : List ℕ

-- `AppConfig::Http`.
pub record Http : Type 0 where
  pub headers : List ℕ

-- `AppConfig`.
pub record AppConfig : Type 0 where
  pub network : Network
  pub sntp : Sntp
  pub pwm : Pwm
  pub bus : Bus
  pub mqtt : Mqtt
  pub mqtt_ha : MqttHa
  pub http : Http

-- The names of the flat configuration; `other` is any other name.
pub data Key : Type 0 where
  wifi_ssid wifi_password wifi_bssid ap_mode_password static_ip_enabled ip_address gateway netmask
        dns1 dns2 sntp_enabled sntp_server sntp_timezone pwm_value ebus_address bus_window
        bus_offset system_inquiry system_response scan_on_startup mqtt_enabled mqtt_server mqtt_user
        mqtt_pass root_topic ha_enabled thing_name http_headers :
      Key
  other : List ℕ → Key

abbrev pub index : Key → ℕ
index wifi_ssid = 0
index wifi_password = 1
index wifi_bssid = 2
index ap_mode_password = 3
index static_ip_enabled = 4
index ip_address = 5
index gateway = 6
index netmask = 7
index dns1 = 8
index dns2 = 9
index sntp_enabled = 10
index sntp_server = 11
index sntp_timezone = 12
index pwm_value = 13
index ebus_address = 14
index bus_window = 15
index bus_offset = 16
index system_inquiry = 17
index system_response = 18
index scan_on_startup = 19
index mqtt_enabled = 20
index mqtt_server = 21
index mqtt_user = 22
index mqtt_pass = 23
index root_topic = 24
index ha_enabled = 25
index thing_name = 26
index http_headers = 27
index (other name) = 28

abbrev pub name_of : Key → List ℕ
name_of (other name) = name
name_of k = []

-- The comparison of two names.
abbrev pub key_eq : Key → Key → Bool
key_eq j k = index j == index k && bytes_eq (name_of j) (name_of k)

-- `AppConfig::isKnownFlatKey(key)`.
unfoldable pub is_known_flat_key : Key → Bool
is_known_flat_key (other name) = false
is_known_flat_key k = true

-- The order in which `load`, `save` and `collectDrift` go through the names.
abbrev pub flat_keys : List Key
flat_keys =
    wifi_ssid ∷ wifi_password ∷ wifi_bssid ∷ ap_mode_password ∷ static_ip_enabled ∷ ip_address
    ∷ gateway ∷ netmask ∷ dns1 ∷ dns2 ∷ sntp_enabled ∷ sntp_server ∷ sntp_timezone ∷ pwm_value
    ∷ ebus_address ∷ bus_window ∷ bus_offset ∷ system_inquiry ∷ system_response ∷ scan_on_startup
    ∷ mqtt_enabled ∷ mqtt_server ∷ mqtt_user ∷ mqtt_pass ∷ root_topic ∷ ha_enabled ∷ thing_name
    ∷ http_headers ∷ []

abbrev pub default_wifi_ssid : List ℕ
default_wifi_ssid = b'e' ∷ b'b' ∷ b'u' ∷ b's' ∷ b'-' ∷ b't' ∷ b'e' ∷ b's' ∷ b't' ∷ []

abbrev pub default_wifi_password : List ℕ
default_wifi_password = b'l' ∷ b'e' ∷ b'c' ∷ b't' ∷ b'r' ∷ b'o' ∷ b'n' ∷ b'z' ∷ []

abbrev pub default_ap_mode_password : List ℕ
default_ap_mode_password = b'e' ∷ b'b' ∷ b'u' ∷ b's' ∷ b'e' ∷ b'b' ∷ b'u' ∷ b's' ∷ []

abbrev pub default_sntp_server : List ℕ
default_sntp_server =
    b'p' ∷ b'o' ∷ b'o' ∷ b'l' ∷ b'.' ∷ b'n' ∷ b't' ∷ b'p' ∷ b'.' ∷ b'o' ∷ b'r' ∷ b'g' ∷ []

abbrev pub default_sntp_timezone : List ℕ
default_sntp_timezone = b'U' ∷ b'T' ∷ b'C' ∷ b'0' ∷ []

abbrev pub default_ebus_address : List ℕ
default_ebus_address = b'f' ∷ b'f' ∷ []

abbrev pub default_thing_name : List ℕ
default_thing_name = b'e' ∷ b's' ∷ b'p' ∷ b'-' ∷ b'e' ∷ b'B' ∷ b'u' ∷ b's' ∷ []

-- `AppConfig::reset()`.
unfoldable pub reset : FixedString → AppConfig
reset f = record {
  network = record {
    wifi_ssid = f.assign 32 default_wifi_ssid;
    wifi_password = f.assign 64 default_wifi_password;
    wifi_bssid = [];
    ap_password = f.assign 32 default_ap_mode_password;
    static_ip_enabled = false;
    ip_address = [];
    gateway = [];
    netmask = [];
    dns1 = [];
    dns2 = [];
  };
  sntp = record {
    enabled = false;
    server = f.assign 64 default_sntp_server;
    timezone = f.assign 32 default_sntp_timezone;
  };
  pwm = record { value = 130 };
  bus = record {
    window_us = 4400;
    offset_us = 50;
    address = f.assign 8 default_ebus_address;
    system_inquiry = false;
    system_response = true;
    scan_on_startup = false;
  };
  mqtt = record { enabled = false; server = []; user = []; pass = []; root_topic = [] };
  mqtt_ha = record { enabled = false; thing_name = f.assign 32 default_thing_name };
  http = record { headers = [] };
}

-- The constants of `app::limits`.
abbrev pub pwm_min : ℕ
pwm_min = 1

abbrev pub pwm_max : ℕ
pwm_max = 255

abbrev pub window_min_us : ℕ
window_min_us = 4250

abbrev pub window_max_us : ℕ
window_max_us = 4500

abbrev pub offset_max_us : ℕ
offset_max_us = 200

abbrev pub is_empty : List ℕ → Bool
is_empty [] = true
is_empty (x ∷ xs) = false

-- `AppConfig::isValid()`.
unfoldable pub is_valid : AppConfig → Bool
is_valid c =
    if is_empty c.network.wifi_ssid
    then false
    else if ltb c.pwm.value pwm_min || ltb pwm_max c.pwm.value
    then false
    else if is_empty c.bus.address
    then false
    else if ltb c.bus.window_us window_min_us || ltb window_max_us c.bus.window_us
    then false
    else if ltb offset_max_us c.bus.offset_us
    then false
    else true
