-- ===== src/Config/Merge/Sized.antt =====
-- src/config/app_config.cpp: what a merge leaves is what the fields can hold.
use esp_arduino_ebus.Base.{
  ℕ, zero, suc, ◌≡◌, ◌<◌, ◌^◌, refl, ◌∙◌, ap, List, [], ◌∷◌, arith, Bool-cases, inl, inr, take,
}
use mathlib.Core.Path.{subst}
use esp_arduino_ebus.Config.{
  FixedString, IsFixedString, AppConfig, Key, key_eq, other, wifi_ssid, wifi_password, wifi_bssid,
  ap_mode_password, static_ip_enabled, ip_address, gateway, netmask, dns1, dns2, sntp_enabled,
  sntp_server, sntp_timezone, pwm_value, ebus_address, bus_window, bus_offset, system_inquiry,
  system_response, scan_on_startup, mqtt_enabled, mqtt_server, mqtt_user, mqtt_pass, root_topic,
  ha_enabled, thing_name, http_headers,
}
use esp_arduino_ebus.Config.Texts.{c_str, c_str-take}
use esp_arduino_ebus.Config.Fields.{field, Fits, IsSized, text, key_eq→eq}
use esp_arduino_ebus.Config.Merge.{merge_field, parse_flat_int, assign_flat_u8, assign_flat_u16}
use esp_arduino_ebus.Config.Merge.Frame.{field-merge_field}

take-take_self : {A : Type 0} (n : ℕ) (xs : List A) → take n (take n xs) ≡ take n xs
take-take_self zero xs = refl
take-take_self (suc n) [] = refl
take-take_self (suc n) (x ∷ xs) = ap (◌∷◌ x) (take-take_self n xs)

assign_flat_u8-lt : (dst : ℕ) (value : List ℕ) → dst < 2 ^ 8 → assign_flat_u8 dst value < 2 ^ 8
unfolding assign_flat_u8
assign_flat_u8-lt dst value h = ground (arith, parse_flat_int value)

assign_flat_u16-lt : (dst : ℕ) (value : List ℕ) → dst < 2 ^ 16 → assign_flat_u16 dst value < 2 ^ 16
unfolding assign_flat_u16
assign_flat_u16-lt dst value h = ground (arith, parse_flat_int value)

module _ (f : FixedString) (fs : IsFixedString f) where
  Fits-assign :
      (capacity : ℕ) (value : List ℕ)
      → c_str value ≡ value
      → Fits f (text capacity (f.assign capacity value))
  Fits-assign capacity value e =
      let r : ℕ = f.room capacity in
      rw (fs.truncates capacity value)
        (fs.truncates capacity (take r value) ∙ take-take_self r value, c_str-take r value e)

  Fits-merge_field :
      (k : Key) (value : List ℕ) (c : AppConfig)
      → c_str value ≡ value
      → Fits f (field k c)
      → Fits f (field k (merge_field f k value c))
  unfolding merge_field
  Fits-merge_field wifi_ssid value c e h = Fits-assign 32 value e
  Fits-merge_field wifi_password [] c e h = h
  Fits-merge_field wifi_password (x ∷ xs) c e h = Fits-assign 64 (x ∷ xs) e
  Fits-merge_field wifi_bssid value c e h = Fits-assign 18 value e
  Fits-merge_field ap_mode_password [] c e h = h
  Fits-merge_field ap_mode_password (x ∷ xs) c e h = Fits-assign 32 (x ∷ xs) e
  Fits-merge_field static_ip_enabled value c e h = tt
  Fits-merge_field ip_address value c e h = Fits-assign 16 value e
  Fits-merge_field gateway value c e h = Fits-assign 16 value e
  Fits-merge_field netmask value c e h = Fits-assign 16 value e
  Fits-merge_field dns1 value c e h = Fits-assign 16 value e
  Fits-merge_field dns2 value c e h = Fits-assign 16 value e
  Fits-merge_field sntp_enabled value c e h = tt
  Fits-merge_field sntp_server value c e h = Fits-assign 64 value e
  Fits-merge_field sntp_timezone value c e h = Fits-assign 32 value e
  Fits-merge_field pwm_value value c e h = assign_flat_u8-lt c.pwm.value value h
  Fits-merge_field ebus_address value c e h = Fits-assign 8 value e
  Fits-merge_field bus_window value c e h = assign_flat_u16-lt c.bus.window_us value h
  Fits-merge_field bus_offset value c e h = assign_flat_u16-lt c.bus.offset_us value h
  Fits-merge_field system_inquiry value c e h = tt
  Fits-merge_field system_response value c e h = tt
  Fits-merge_field scan_on_startup value c e h = tt
  Fits-merge_field mqtt_enabled value c e h = tt
  Fits-merge_field mqtt_server value c e h = Fits-assign 64 value e
  Fits-merge_field mqtt_user value c e h = Fits-assign 32 value e
  Fits-merge_field mqtt_pass [] c e h = h
  Fits-merge_field mqtt_pass (x ∷ xs) c e h = Fits-assign 32 (x ∷ xs) e
  Fits-merge_field root_topic value c e h = Fits-assign 32 value e
  Fits-merge_field ha_enabled value c e h = tt
  Fits-merge_field thing_name value c e h = Fits-assign 32 value e
  Fits-merge_field http_headers value c e h = Fits-assign 512 value e
  Fits-merge_field (other name) value c e h = h

  pub merge_field-IsSized :
      (k : Key) (value : List ℕ) (c : AppConfig)
      → c_str value ≡ value
      → IsSized f c
      → IsSized f (merge_field f k value c)
  merge_field-IsSized k value c e sized =
      let own : Fits f (field k (merge_field f k value c)) =
        Fits-merge_field k value c e (sized.fits k) in
      record {
        fits = λ j. elim (Bool-cases (key_eq k j)) [
          | inl h ↦ subst (λ i. Fits f (field i (merge_field f k value c))) (key_eq→eq k j h) own
          | inr h ↦ rw (field-merge_field f k j value c) (rw h (sized.fits j))
        ];
      }
