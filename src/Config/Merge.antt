-- ===== src/Config/Merge.antt =====
-- src/config/app_config.cpp: AppConfig::mergeFlatJson.
pub mod Frame
pub mod Sized
pub mod Posted
use esp_arduino_ebus.Base.{
  ℕ, zero, suc, ◌≤◌, ◌<◌, ◌≡◌, refl, Bool, true, false, not, ◌||◌, ◌++◌, List, [], ◌∷◌, Option,
  none, some, ltb, leb, if◌then◌else◌, ◌==◌, length, arith, ℤ, pos, negsuc,
}
use esp_arduino_ebus.Config.{
  FixedString, AppConfig, Key, is_known_flat_key, is_empty, other, wifi_ssid, wifi_password,
  wifi_bssid, ap_mode_password, static_ip_enabled, ip_address, gateway, netmask, dns1, dns2,
  sntp_enabled, sntp_server, sntp_timezone, pwm_value, ebus_address, bus_window, bus_offset,
  system_inquiry, system_response, scan_on_startup, mqtt_enabled, mqtt_server, mqtt_user, mqtt_pass,
  root_topic, ha_enabled, thing_name, http_headers,
}
use esp_arduino_ebus.Config.Texts.{strtol, c_str, is_true_text}

-- `parseFlatInt(value, out)`: the number that `out` gets; none if it returns false.
unfoldable pub parse_flat_int : List ℕ → Option ℤ
parse_flat_int value =
    if is_empty value || ltb 10 (length value) then none else strtol (c_str value)

abbrev within : ℕ → ℕ → Option ℤ → ℕ
within top dst (some (pos n)) = if leb n top then n else dst
within top dst _ = dst

-- `assignFlatU8(dst, value)` and `assignFlatU16(dst, value)`: what is in `dst` afterwards.
unfoldable pub assign_flat_u8 : ℕ → List ℕ → ℕ
unfolding parse_flat_int
assign_flat_u8 dst value = within 255 dst (parse_flat_int value)

unfoldable pub assign_flat_u16 : ℕ → List ℕ → ℕ
unfolding parse_flat_int
assign_flat_u16 dst value = within 65535 dst (parse_flat_int value)

-- `parseFlatBool(value)`.
unfoldable pub parse_flat_bool : List ℕ → Bool
parse_flat_bool value = is_true_text value

-- What the loop does with the value of a key.
unfoldable pub merge_field : FixedString → Key → List ℕ → AppConfig → AppConfig
unfolding parse_flat_bool assign_flat_u8 assign_flat_u16
merge_field f wifi_ssid value c = record c {
  network = record c.network { wifi_ssid = f.assign 32 value };
}
merge_field f wifi_password value c =
    if is_empty value
    then c
    else record c { network = record c.network { wifi_password = f.assign 64 value } }
merge_field f wifi_bssid value c = record c {
  network = record c.network { wifi_bssid = f.assign 18 value };
}
merge_field f ap_mode_password value c =
    if is_empty value
    then c
    else record c { network = record c.network { ap_password = f.assign 32 value } }
merge_field f static_ip_enabled value c = record c {
  network = record c.network { static_ip_enabled = parse_flat_bool value };
}
merge_field f ip_address value c = record c {
  network = record c.network { ip_address = f.assign 16 value };
}
merge_field f gateway value c = record c {
  network = record c.network { gateway = f.assign 16 value };
}
merge_field f netmask value c = record c {
  network = record c.network { netmask = f.assign 16 value };
}
merge_field f dns1 value c = record c { network = record c.network { dns1 = f.assign 16 value } }
merge_field f dns2 value c = record c { network = record c.network { dns2 = f.assign 16 value } }
merge_field f sntp_enabled value c = record c {
  sntp = record c.sntp { enabled = parse_flat_bool value };
}
merge_field f sntp_server value c = record c { sntp = record c.sntp { server = f.assign 64 value } }
merge_field f sntp_timezone value c = record c {
  sntp = record c.sntp { timezone = f.assign 32 value };
}
merge_field f pwm_value value c = record c {
  pwm = record c.pwm { value = assign_flat_u8 c.pwm.value value };
}
merge_field f ebus_address value c = record c { bus = record c.bus { address = f.assign 8 value } }
merge_field f bus_window value c = record c {
  bus = record c.bus { window_us = assign_flat_u16 c.bus.window_us value };
}
merge_field f bus_offset value c = record c {
  bus = record c.bus { offset_us = assign_flat_u16 c.bus.offset_us value };
}
merge_field f system_inquiry value c = record c {
  bus = record c.bus { system_inquiry = parse_flat_bool value };
}
merge_field f system_response value c = record c {
  bus = record c.bus { system_response = parse_flat_bool value };
}
merge_field f scan_on_startup value c = record c {
  bus = record c.bus { scan_on_startup = parse_flat_bool value };
}
merge_field f mqtt_enabled value c = record c {
  mqtt = record c.mqtt { enabled = parse_flat_bool value };
}
merge_field f mqtt_server value c = record c { mqtt = record c.mqtt { server = f.assign 64 value } }
merge_field f mqtt_user value c = record c { mqtt = record c.mqtt { user = f.assign 32 value } }
merge_field f mqtt_pass value c =
    if is_empty value then c else record c { mqtt = record c.mqtt { pass = f.assign 32 value } }
merge_field f root_topic value c = record c {
  mqtt = record c.mqtt { root_topic = f.assign 32 value };
}
merge_field f ha_enabled value c = record c {
  mqtt_ha = record c.mqtt_ha { enabled = parse_flat_bool value };
}
merge_field f thing_name value c = record c {
  mqtt_ha = record c.mqtt_ha { thing_name = f.assign 32 value };
}
merge_field f http_headers value c = record c {
  http = record c.http { headers = f.assign 512 value };
}
merge_field f (other name) value c = c

-- The tokens of the ebus library's JsonReader, up to the end of the text.
pub data Token : Type 0 where
  object_start object_end end : Token
  key : Key → Token
  string : List ℕ → Token
  other_token : Token

abbrev pub Pair : Type 0
Pair = Key × List ℕ

-- `unknowns->emplace_back(key, value)`, for a key that is none of the known ones.
abbrev pub unknown : Pair → List Pair → List Pair
unknown p unknowns = if is_known_flat_key p.0 then unknowns else unknowns ++ p ∷ []

-- The loop of `mergeFlatJson`: what it returns, the configuration and the unknown keys.
unfoldable pub merge_tokens :
    FixedString → List Token → AppConfig → List Pair → Bool × AppConfig × List Pair
unfolding merge_field is_known_flat_key
merge_tokens f [] c unknowns = (true, c, unknowns)
merge_tokens f (object_end ∷ ts) c unknowns = (true, c, unknowns)
merge_tokens f (end ∷ ts) c unknowns = (true, c, unknowns)
merge_tokens f (key k ∷ string value ∷ ts) c unknowns =
    merge_tokens f ts (merge_field f k value c) (unknown (k, value) unknowns)
merge_tokens f (key k ∷ ts) c unknowns = (false, c, unknowns)
merge_tokens f (t ∷ ts) c unknowns = merge_tokens f ts c unknowns

-- `mergeFlatJson(json, unknowns)`, of the tokens of the text.
unfoldable pub merge_flat_json : FixedString → List Token → AppConfig → Bool × AppConfig × List Pair
unfolding merge_tokens
merge_flat_json f (object_start ∷ ts) c = merge_tokens f ts c []
merge_flat_json f ts c = (false, c, [])
