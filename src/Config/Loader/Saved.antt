-- ===== src/Config/Loader/Saved.antt =====
-- src/config/app_config_loader.cpp: what is in the flash after a save that succeeds.
use esp_arduino_ebus.Base.{
  ℕ, ◌≡◌, refl, ◌∙◌, ap, Bool, true, ◌&&◌, List, [], ◌∷◌, Option, some, if◌then◌else◌, arith,
  Bool-cases, inl, inr,
}
use esp_arduino_ebus.Config.{AppConfig, Key, key_eq, flat_keys}
use esp_arduino_ebus.Config.Texts.{c_str}
use esp_arduino_ebus.Config.Nvs.{Nvs, IsNvs, Session, write_string}
use esp_arduino_ebus.Config.Nvs.Stored.{IsOpen}
use esp_arduino_ebus.Config.Nvs.Written.{texts, written, IsWritten, write_string-IsWritten}
use esp_arduino_ebus.Config.Fields.{has, key_eq→eq}
use esp_arduino_ebus.Config.Loader.{saved_text, save_fields, save}

-- The texts under the keys after the values of `ks` were written.
abbrev pub after_save : AppConfig → List Key → (Key → Option (List ℕ)) → Key → Option (List ℕ)
after_save c ks before j = if has j ks then some (c_str (saved_text j c)) else before j

-- Writing the first key, and then the others.
after_save-cons :
    (c : AppConfig) (k : Key) (ks : List Key) (before : Key → Option (List ℕ)) (j : Key)
    → after_save c ks (written k (c_str (saved_text k c)) before) j ≡ after_save c (k ∷ ks) before j
after_save-cons c k ks before j = elim (Bool-cases (key_eq k j)) [
  | inl e ↦
      let same : c_str (saved_text k c) ≡ c_str (saved_text j c) =
        ap (λ i. c_str (saved_text i c)) (key_eq→eq k j e) in
      ground arith
  | inr e ↦ rw e refl
]

module _ (n : Nvs) (is : IsNvs n) (c : AppConfig) where
  pub save_fields-ok :
      (ks : List Key) (ok : Bool) (s : Session n) → (save_fields n ks c ok s).0 ≡ true → ok ≡ true
  unfolding save_fields
  save_fields-ok [] ok s e = e
  save_fields-ok (k ∷ ks) ok s e =
      let w : Bool × Session n = write_string n s k (saved_text k c) in
      ground (arith, save_fields-ok ks (ok && w.0) w.1)

  pub record IsSaved (ks : List Key) (s s' : Session n) : Type 0 where
    pub opened : IsOpen n s'
    pub stored : (j : Key) → texts n is s' j ≡ after_save c ks (texts n is s) j

  save_fields-IsSaved :
      (ks : List Key) (ok : Bool) (s : Session n)
      → IsOpen n s
      → (save_fields n ks c ok s).0 ≡ true
      → IsSaved ks s (save_fields n ks c ok s).1
  unfolding save_fields
  save_fields-IsSaved [] ok s o e = record { opened = o; stored = λ j. refl }
  save_fields-IsSaved (k ∷ ks) ok s o e =
      let w : Bool × Session n = write_string n s k (saved_text k c) in
      let both : (ok && w.0) ≡ true = save_fields-ok ks (ok && w.0) w.1 e in
      let now : IsWritten n is s k (c_str (saved_text k c)) w.1 =
        write_string-IsWritten n is s o k (saved_text k c) (ground arith) in
      let later : IsSaved ks w.1 (save_fields n ks c (ok && w.0) w.1).1 =
        save_fields-IsSaved ks (ok && w.0) w.1 now.opened e in
      record {
        opened = later.opened;
        stored = λ j.
            later.stored j
            ∙ ap (λ t. if has j ks then some (c_str (saved_text j c)) else t) (now.stored j)
            ∙ after_save-cons c k ks (texts n is s) j;
      }

  pub save-IsSaved :
      (s : Session n) → IsOpen n s → (save n c s).0 ≡ true → IsSaved flat_keys s (save n c s).1
  unfolding save
  save-IsSaved s o e = save_fields-IsSaved flat_keys true s o e
