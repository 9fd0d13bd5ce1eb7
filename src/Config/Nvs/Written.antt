-- ===== src/Config/Nvs/Written.antt =====
-- What is in the flash after a write that succeeds.
use esp_arduino_ebus.Base.{
  ℕ, ◌≡◌, refl, sym, ◌∙◌, ap, Bool, true, false, List, Option, some, if◌then◌else◌, arith,
  Bool-cases, inl, inr,
}
use esp_arduino_ebus.Config.{Key, key_eq}
use esp_arduino_ebus.Config.Texts.{c_str}
use esp_arduino_ebus.Config.Nvs.{Nvs, IsNvs, Session, write_string, commit_after}
use esp_arduino_ebus.Config.Nvs.Stored.{IsOpen}

-- The text that is stored under a key, after the text `t` was written under the key `k`.
abbrev pub written : Key → List ℕ → (Key → Option (List ℕ)) → Key → Option (List ℕ)
written k t texts j = if key_eq k j then some t else texts j

module _ (n : Nvs) (is : IsNvs n) where
  abbrev pub texts : Session n → Key → Option (List ℕ)
  texts s j = is.text_at s.flash j

  -- The text under `k` is `t`, all others are as in `s`, and the namespace can still be opened.
  pub record IsWritten (s : Session n) (k : Key) (t : List ℕ) (s' : Session n) : Type 0 where
    pub opened : IsOpen n s'
    pub stored : (j : Key) → texts s' j ≡ written k t (texts s) j

  commit_after-IsWritten :
      (s : Session n)
      → IsOpen n s
      → (k : Key) (t : List ℕ) (b : Bool) (flash : n.Flash) → n.set_str s.flash k t ≡ (b, flash)
      → (commit_after n (b, flash)).0 ≡ true
      → IsWritten s k t (commit_after n (b, flash)).1
  commit_after-IsWritten s o k t false flash e ok = cc
  commit_after-IsWritten s o k t true flash e ok =
      let set : (n.set_str s.flash k t).0 ≡ true = ap (λ p. p.0) e in
      let left : (n.set_str s.flash k t).1 ≡ flash = ap (λ p. p.1) e in
      record {
        opened = record {
          ready = refl;
          readable =
              is.commit-open_read flash
                (ap n.open_read (sym left) ∙ is.set_str-open_read s.flash k t o.readable);
        };
        stored = λ j.
            is.commit_lem flash j
            ∙ ap (λ f. is.text_at f j) (sym left)
            ∙ is.set_str_lem s.flash k t set j;
      }

  write_string-ready :
      (s : Session n)
      → s.nvs_ready ≡ true
      → (k : Key) (t : List ℕ)
      → write_string n s k t ≡ (
          if n.open_write s.flash
          then commit_after n (n.set_str s.flash k (c_str t))
          else (false, s))
  unfolding write_string
  write_string-ready s e k t = elim (Bool-cases (n.open_write s.flash)) [
    | inl w ↦ simp (e, w)
    | inr w ↦ simp (e, w)
  ]

  pub write_string-IsWritten :
      (s : Session n)
      → IsOpen n s
      → (k : Key) (t : List ℕ) → (write_string n s k t).0 ≡ true
      → IsWritten s k (c_str t) (write_string n s k t).1
  write_string-IsWritten s o k t ok = elim (Bool-cases (n.open_write s.flash)) [
    | inl w ↦
        let e : write_string n s k t ≡ commit_after n (n.set_str s.flash k (c_str t)) =
          write_string-ready s o.ready k t ∙ rw w refl in
        let (b, flash) = n.set_str s.flash k (c_str t) in
        rw e (commit_after-IsWritten s o k (c_str t) b flash refl (ap (λ r. r.0) (sym e) ∙ ok))
    | inr w ↦ absurd (ground (arith, write_string-ready s o.ready k t))
  ]
