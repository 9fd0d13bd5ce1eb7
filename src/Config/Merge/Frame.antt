-- ===== src/Config/Merge/Frame.antt =====
-- src/config/app_config.cpp: the keys that a merge may change, and that a value fits its field after it.
use esp_arduino_ebus.Base.{ℕ, ◌≡◌, refl, List, [], ◌∷◌, if◌then◌else◌, Bool-cases, inl, inr}
use esp_arduino_ebus.Config.{FixedString, AppConfig, Key, key_eq, other}
use esp_arduino_ebus.Config.Fields.{field}
use esp_arduino_ebus.Config.Merge.{merge_field}

abbrev pub Frame : FixedString → Key → List ℕ → AppConfig → Key → Type 0
Frame f k value c j =
    field j (merge_field f k value c)
    ≡ (if key_eq k j then field j (merge_field f k value c) else field j c)

-- The value of one key changes nothing under another.
pub field-merge_field :
    (f : FixedString) (k j : Key) (value : List ℕ) (c : AppConfig) → Frame f k value c j
unfolding merge_field
field-merge_field f (other a) j value c = elim (Bool-cases (key_eq (other a) j)) [
  | inl e ↦ rw e refl
  | inr e ↦ rw e refl
]
field-merge_field f k j [] c = elim j as (Frame f k [] c) [ other b ↦ refl | _ ↦ refl ]
field-merge_field f k j (x ∷ xs) c = elim j as (Frame f k (x ∷ xs) c) [ other b ↦ refl | _ ↦ refl ]
