-- ===== src/Config/Drift.antt =====
-- src/config/app_config.cpp: AppConfig::collectDrift.
pub mod Exact
use esp_arduino_ebus.Base.{
  ℕ, ◌≡◌, refl, Bool, true, false, not, ◌&&◌, List, [], ◌∷◌, if◌then◌else◌, ◌==◌, bytes_eq, arith,
}
use esp_arduino_ebus.Config.{
  AppConfig, Key, flat_keys, other, wifi_ssid, wifi_password, wifi_bssid, ap_mode_password,
  static_ip_enabled, ip_address, gateway, netmask, dns1, dns2, sntp_enabled, sntp_server,
  sntp_timezone, pwm_value, ebus_address, bus_window, bus_offset, system_inquiry, system_response,
  scan_on_startup, mqtt_enabled, mqtt_server, mqtt_user, mqtt_pass, root_topic, ha_enabled,
  thing_name, http_headers,
}

abbrev pub bool_eq : Bool → Bool → Bool
bool_eq true b = b
bool_eq false b = not b

-- `driftStr(a, b)`.
unfoldable pub drift_str : List ℕ → List ℕ → Bool
drift_str a b = not (bytes_eq a b)

-- The test for a key.
unfoldable pub drifted : Key → AppConfig → AppConfig → Bool
unfolding drift_str
drifted wifi_ssid live requested = drift_str live.network.wifi_ssid requested.network.wifi_ssid
drifted wifi_password live requested =
    drift_str live.network.wifi_password requested.network.wifi_password
drifted wifi_bssid live requested = drift_str live.network.wifi_bssid requested.network.wifi_bssid
drifted ap_mode_password live requested =
    drift_str live.network.ap_password requested.network.ap_password
drifted static_ip_enabled live requested =
    not (bool_eq live.network.static_ip_enabled requested.network.static_ip_enabled)
drifted ip_address live requested = drift_str live.network.ip_address requested.network.ip_address
drifted gateway live requested = drift_str live.network.gateway requested.network.gateway
drifted netmask live requested = drift_str live.network.netmask requested.network.netmask
drifted dns1 live requested = drift_str live.network.dns1 requested.network.dns1
drifted dns2 live requested = drift_str live.network.dns2 requested.network.dns2
drifted sntp_enabled live requested = not (bool_eq live.sntp.enabled requested.sntp.enabled)
drifted sntp_server live requested = drift_str live.sntp.server requested.sntp.server
drifted sntp_timezone live requested = drift_str live.sntp.timezone requested.sntp.timezone
drifted pwm_value live requested = not (live.pwm.value == requested.pwm.value)
drifted ebus_address live requested = drift_str live.bus.address requested.bus.address
drifted bus_window live requested = not (live.bus.window_us == requested.bus.window_us)
drifted bus_offset live requested = not (live.bus.offset_us == requested.bus.offset_us)
drifted system_inquiry live requested =
    not (bool_eq live.bus.system_inquiry requested.bus.system_inquiry)
drifted system_response live requested =
    not (bool_eq live.bus.system_response requested.bus.system_response)
drifted scan_on_startup live requested =
    not (bool_eq live.bus.scan_on_startup requested.bus.scan_on_startup)
drifted mqtt_enabled live requested = not (bool_eq live.mqtt.enabled requested.mqtt.enabled)
drifted mqtt_server live requested = drift_str live.mqtt.server requested.mqtt.server
drifted mqtt_user live requested = drift_str live.mqtt.user requested.mqtt.user
drifted mqtt_pass live requested = drift_str live.mqtt.pass requested.mqtt.pass
drifted root_topic live requested = drift_str live.mqtt.root_topic requested.mqtt.root_topic
drifted ha_enabled live requested = not (bool_eq live.mqtt_ha.enabled requested.mqtt_ha.enabled)
drifted thing_name live requested = drift_str live.mqtt_ha.thing_name requested.mqtt_ha.thing_name
drifted http_headers live requested = drift_str live.http.headers requested.http.headers
drifted (other name) live requested = false

-- The tests in order: the names of the keys whose values differ.
unfoldable pub drift_of : List Key → AppConfig → AppConfig → List Key
unfolding drifted
drift_of [] live requested = []
drift_of (k ∷ ks) live requested =
    let rest : List Key = drift_of ks live requested in
    if drifted k live requested then k ∷ rest else rest

-- `collectDrift(live, requested, keys)`, for an empty `keys`.
unfoldable pub collect_drift : AppConfig → AppConfig → List Key
unfolding drift_of
collect_drift live requested = drift_of flat_keys live requested
