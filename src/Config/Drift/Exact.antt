-- ===== src/Config/Drift/Exact.antt =====
-- src/config/app_config.cpp: the keys that collectDrift names are those whose values differ.
use esp_arduino_ebus.Base.{
  ◌≡◌, ◌↔◌, refl, sym, ◌∙◌, ap, Bool, true, false, not, ◌&&◌, List, [], ◌∷◌, arith, ◌==◌, bytes_eq,
  bytes_eq→eq, bytes_eq_refl, Bool-cases, inl, inr,
}
use esp_arduino_ebus.Config.{FixedString, AppConfig, Key, key_eq, flat_keys, other}
use esp_arduino_ebus.Config.Fields.{Value, text, flag, number, field, has, key_eq→eq, AppConfig-ext}
use esp_arduino_ebus.Config.Drift.{bool_eq, drifted, drift_of, collect_drift}
use esp_arduino_ebus.Config.Merge.{Token, merge_flat_json}
use esp_arduino_ebus.Config.Merge.Posted.{
  posted, sets_any, field-merge_pairs, merge_flat_json-pairs,
}

abbrev value_eq : Value → Value → Bool
value_eq (text m a) (text n b) = m == n && bytes_eq a b
value_eq (flag a) (flag b) = bool_eq a b
value_eq (number v a) (number w b) = v == w && a == b
value_eq _ _ = false

value_eq→eq : (a b : Value) → value_eq a b ≡ true → a ≡ b
value_eq→eq (text m a) (text n b) e = ground (arith, bytes_eq→eq a b)
value_eq→eq (flag true) (flag b) e = ground arith
value_eq→eq (flag false) (flag b) e = ground arith
value_eq→eq (number v a) (number w b) e = ground arith
value_eq→eq (text _ _) (flag _) e = cc
value_eq→eq (text _ _) (number _ _) e = cc
value_eq→eq (flag _) (text _ _) e = cc
value_eq→eq (flag _) (number _ _) e = cc
value_eq→eq (number _ _) (text _ _) e = cc
value_eq→eq (number _ _) (flag _) e = cc

value_eq_refl : (a : Value) → value_eq a a ≡ true
value_eq_refl (text n t) = ground (arith, bytes_eq_refl t)
value_eq_refl (flag true) = refl
value_eq_refl (flag false) = refl
value_eq_refl (number w v) = ground arith

drifted-value_eq :
    (k : Key) (a b : AppConfig) → drifted k a b ≡ not (value_eq (field k a) (field k b))
unfolding drifted
drifted-value_eq (other name) a b = refl
drifted-value_eq k a b = refl

-- The values under a key are equal if it does not drift.
drifted-field : (k : Key) (a b : AppConfig) → drifted k a b ≡ false → field k a ≡ field k b
drifted-field k a b e = value_eq→eq (field k a) (field k b) (ground (arith, drifted-value_eq k a b))

drifted_same : (k : Key) (a b : AppConfig) → field k a ≡ field k b → drifted k a b ≡ false
drifted_same k a b e = drifted-value_eq k a b ∙ rw e (rw (value_eq_refl (field k b)) refl)

has-drift_of :
    (j : Key) (ks : List Key) (a b : AppConfig)
    → has j (drift_of ks a b) ≡ (has j ks && drifted j a b)
unfolding drift_of
has-drift_of j [] a b = refl
has-drift_of j (k ∷ ks) a b = elim (Bool-cases (key_eq k j)) [
  | inl e ↦
      let same : drifted k a b ≡ drifted j a b = ap (λ i. drifted i a b) (key_eq→eq k j e) in
      ground (arith, has-drift_of j ks a b)
  | inr e ↦ ground (arith, has-drift_of j ks a b)
]

has-flat_keys : (j : Key) (a b : AppConfig) → (has j flat_keys && drifted j a b) ≡ drifted j a b
unfolding drifted
has-flat_keys (other name) a b = refl
has-flat_keys j a b = refl

has-collect_drift : (j : Key) (a b : AppConfig) → has j (collect_drift a b) ≡ drifted j a b
unfolding collect_drift
has-collect_drift j a b = has-drift_of j flat_keys a b ∙ has-flat_keys j a b

drift_of_same : (ks : List Key) (c : AppConfig) → drift_of ks c c ≡ []
unfolding drift_of
drift_of_same [] c = refl
drift_of_same (k ∷ ks) c = rw (drifted_same k c c refl) (drift_of_same ks c)

-- Nothing drifts exactly when the two configurations are equal.
collect_drift-nil : (a b : AppConfig) → (collect_drift a b ≡ []) ↔ (a ≡ b)
unfolding collect_drift
collect_drift-nil a b = (
  λ e. AppConfig-ext a b (λ k. drifted-field k a b (sym (has-collect_drift k a b) ∙ ap (has k) e)),
  λ e. rw e (drift_of_same flat_keys b),
)

-- After a merge, only the keys that a posted pair sets can drift; an empty password sets nothing.
pub collect_drift-merge_flat_json :
    (f : FixedString) (ts : List Token) (c : AppConfig) (j : Key)
    → has j (collect_drift c (merge_flat_json f ts c).1) ≡ true
    → sets_any j (posted ts) ≡ true
collect_drift-merge_flat_json f ts c j h = elim (Bool-cases (sets_any j (posted ts))) [
  | inl e ↦ e
  | inr e ↦
      let d : AppConfig = (merge_flat_json f ts c).1 in
      let same : field j c ≡ field j d =
        sym (field-merge_pairs f (posted ts) c j e)
        ∙ ap (λ r. field j r.1) (sym (merge_flat_json-pairs f ts c)) in
      let quiet : has j (collect_drift c d) ≡ false =
        has-collect_drift j c d ∙ drifted_same j c d same in
      absurd (ground arith)
]
