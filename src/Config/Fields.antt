-- ===== src/Config/Fields.antt =====
-- The values of a configuration by their keys, and the configurations whose values fit their fields.
use esp_arduino_ebus.Base.{
  ℕ, ◌≤◌, ◌<◌, ◌^◌, ◌≡◌, refl, sym, ap, ap₂, ◌∙◌, ◌||◌, Bool, true, false, List, [], ◌∷◌, arith,
  bytes_eq→eq, get_or, length, length-take, bytes_eq_refl,
}
use esp_arduino_ebus.Config.{
  FixedString, IsFixedString, AppConfig, Key, key_eq, index, name_of, flat_keys, other, wifi_ssid,
  wifi_password, wifi_bssid, ap_mode_password, static_ip_enabled, ip_address, gateway, netmask,
  dns1, dns2, sntp_enabled, sntp_server, sntp_timezone, pwm_value, ebus_address, bus_window,
  bus_offset, system_inquiry, system_response, scan_on_startup, mqtt_enabled, mqtt_server,
  mqtt_user, mqtt_pass, root_topic, ha_enabled, thing_name, http_headers,
}
use esp_arduino_ebus.Config.Texts.{c_str}

-- A text with the capacity of its field, a truth value, or a number with the bits of its field.
pub data Value : Type 0 where
  text : ℕ → List ℕ → Value
  flag : Bool → Value
  number : ℕ → ℕ → Value

abbrev pub field : Key → AppConfig → Value
field wifi_ssid c = text 32 c.network.wifi_ssid
field wifi_password c = text 64 c.network.wifi_password
field wifi_bssid c = text 18 c.network.wifi_bssid
field ap_mode_password c = text 32 c.network.ap_password
field static_ip_enabled c = flag c.network.static_ip_enabled
field ip_address c = text 16 c.network.ip_address
field gateway c = text 16 c.network.gateway
field netmask c = text 16 c.network.netmask
field dns1 c = text 16 c.network.dns1
field dns2 c = text 16 c.network.dns2
field sntp_enabled c = flag c.sntp.enabled
field sntp_server c = text 64 c.sntp.server
field sntp_timezone c = text 32 c.sntp.timezone
field pwm_value c = number 8 c.pwm.value
field ebus_address c = text 8 c.bus.address
field bus_window c = number 16 c.bus.window_us
field bus_offset c = number 16 c.bus.offset_us
field system_inquiry c = flag c.bus.system_inquiry
field system_response c = flag c.bus.system_response
field scan_on_startup c = flag c.bus.scan_on_startup
field mqtt_enabled c = flag c.mqtt.enabled
field mqtt_server c = text 64 c.mqtt.server
field mqtt_user c = text 32 c.mqtt.user
field mqtt_pass c = text 32 c.mqtt.pass
field root_topic c = text 32 c.mqtt.root_topic
field ha_enabled c = flag c.mqtt_ha.enabled
field thing_name c = text 32 c.mqtt_ha.thing_name
field http_headers c = text 512 c.http.headers
field (other name) c = text 0 []

abbrev pub Fits : FixedString → Value → Type 0
Fits f (text capacity t) = (f.assign capacity t ≡ t) × (c_str t ≡ t)
Fits f (flag b) = Unit {0}
Fits f (number w v) = v < 2 ^ w

-- Every text is one that its field holds, with no zero byte in it, and every number is in the range of
-- its type.
pub record IsSized (f : FixedString) (c : AppConfig) : Type 0 where
  pub fits : (k : Key) → Fits f (field k c)

abbrev rebuilt : ℕ → List ℕ → Key
rebuilt i name = get_or flat_keys i (other name)

rebuilt_lem : (k : Key) → rebuilt (index k) (name_of k) ≡ k
rebuilt_lem (other name) = refl
rebuilt_lem k = refl

pub key_eq→eq : (j k : Key) → key_eq j k ≡ true → j ≡ k
key_eq→eq j k e =
    let i : index j ≡ index k = ground arith in
    let a : name_of j ≡ name_of k = bytes_eq→eq (name_of j) (name_of k) (ground arith) in
    sym (rebuilt_lem j) ∙ ap₂ rebuilt i a ∙ rebuilt_lem k

pub key_eq_refl : (k : Key) → key_eq k k ≡ true
key_eq_refl k = ground (arith, bytes_eq_refl (name_of k))

abbrev pub has : Key → List Key → Bool
has j [] = false
has j (k ∷ ks) = key_eq k j || has j ks

-- A text that fits its field is no longer than the field's capacity.
pub length-le-capacity :
    (f : FixedString) → IsFixedString f → (n : ℕ) (t : List ℕ) → f.assign n t ≡ t → length t ≤ n
length-le-capacity f is n t e =
    omega (arith, ap length (sym (is.truncates n t) ∙ e), length-take (f.room n) t, is.room_le n)

abbrev text_of : Value → List ℕ
text_of (text n t) = t
text_of (flag b) = []
text_of (number w v) = []

abbrev flag_of : Value → Bool
flag_of (flag b) = b
flag_of (text n t) = false
flag_of (number w v) = false

abbrev number_of : Value → ℕ
number_of (number w v) = v
number_of (text n t) = 0
number_of (flag b) = 0

-- Configurations are equal if all their values are.
pub AppConfig-ext : (a b : AppConfig) → ((k : Key) → field k a ≡ field k b) → a ≡ b
AppConfig-ext a b h = λ i. record {
  network = record {
    wifi_ssid = text_of (h wifi_ssid i);
    wifi_password = text_of (h wifi_password i);
    wifi_bssid = text_of (h wifi_bssid i);
    ap_password = text_of (h ap_mode_password i);
    static_ip_enabled = flag_of (h static_ip_enabled i);
    ip_address = text_of (h ip_address i);
    gateway = text_of (h gateway i);
    netmask = text_of (h netmask i);
    dns1 = text_of (h dns1 i);
    dns2 = text_of (h dns2 i);
  };
  sntp = record {
    enabled = flag_of (h sntp_enabled i);
    server = text_of (h sntp_server i);
    timezone = text_of (h sntp_timezone i);
  };
  pwm = record { value = number_of (h pwm_value i) };
  bus = record {
    window_us = number_of (h bus_window i);
    offset_us = number_of (h bus_offset i);
    address = text_of (h ebus_address i);
    system_inquiry = flag_of (h system_inquiry i);
    system_response = flag_of (h system_response i);
    scan_on_startup = flag_of (h scan_on_startup i);
  };
  mqtt = record {
    enabled = flag_of (h mqtt_enabled i);
    server = text_of (h mqtt_server i);
    user = text_of (h mqtt_user i);
    pass = text_of (h mqtt_pass i);
    root_topic = text_of (h root_topic i);
  };
  mqtt_ha = record { enabled = flag_of (h ha_enabled i); thing_name = text_of (h thing_name i) };
  http = record { headers = text_of (h http_headers i) };
}
