-- ===== src/App/Cron/Fields.antt =====
-- src/app/cron.cpp: a field of a schedule, parts with commas between them.
pub mod Joined
use esp_arduino_ebus.Base.{
  ℕ, ◌≤◌, ◌≡◌, ◌↔◌, ◌⊎◌, refl, Bool, true, false, ◌&&◌, List, [], ◌∷◌, ◌++◌, ◌==◌, if◌then◌else◌,
  arith,
}
use esp_arduino_ebus.App.Cron.{is_empty, match_single_part, validate_single_part}
use esp_arduino_ebus.App.Cron.Parts.{IsField, validate_single_part-match}

abbrev pub comma : ℕ
comma = 44

-- `push_back(parts, part)` stands for the method of the library's StaticVector.
module _ (push_back : List (List ℕ) → List ℕ → List (List ℕ)) where
  -- `split(input, sep)`: `part` is what was read of the part that begins at `start`.
  unfoldable pub split_from : ℕ → List (List ℕ) → List ℕ → List ℕ → List (List ℕ)
  split_from sep parts part [] = push_back parts part
  split_from sep parts part (x ∷ xs) =
      let next : List (List ℕ) = split_from sep (push_back parts part) [] xs in
      let more : List (List ℕ) = split_from sep parts (part ++ x ∷ []) xs in
      if x == sep then next else more

-- The loop of `matchField`.
unfoldable pub match_parts : List (List ℕ) → ℕ → ℕ → ℕ → Bool → Bool
match_parts [] value min_value max_value day_of_week = false
match_parts (part ∷ parts) value min_value max_value day_of_week =
    let rest : Bool = match_parts parts value min_value max_value day_of_week in
    if is_empty part
    then false
    else if match_single_part part value min_value max_value day_of_week
    then true
    else rest

abbrev all_valid : List (List ℕ) → ℕ → ℕ → Bool → Bool
all_valid [] min_value max_value day_of_week = true
all_valid (part ∷ parts) min_value max_value day_of_week =
    validate_single_part part min_value max_value day_of_week
    && all_valid parts min_value max_value day_of_week

unfoldable pub validate_parts : List (List ℕ) → ℕ → ℕ → Bool → Bool
validate_parts [] min_value max_value day_of_week = false
validate_parts (part ∷ parts) min_value max_value day_of_week =
    all_valid (part ∷ parts) min_value max_value day_of_week

module _ (push_back : List (List ℕ) → List ℕ → List (List ℕ)) where
  -- `matchField(expr, value, min_value, max_value, day_of_week)`.
  unfoldable pub match_field : List ℕ → ℕ → ℕ → ℕ → Bool → Bool
  match_field expr value min_value max_value day_of_week =
      match_parts (split_from push_back comma [] [] expr) value min_value max_value day_of_week

  -- `validateFieldExpression(expr, min_value, max_value, day_of_week)`.
  unfoldable pub validate_field_expression : List ℕ → ℕ → ℕ → Bool → Bool
  validate_field_expression expr min_value max_value day_of_week =
      validate_parts (split_from push_back comma [] [] expr) min_value max_value day_of_week

valid-not_empty :
    (part : List ℕ) (lo hi : ℕ) (dow : Bool)
    → validate_single_part part lo hi dow ≡ true
    → is_empty part ≡ false
unfolding validate_single_part
valid-not_empty [] lo hi dow h = absurd (ground arith)
valid-not_empty (x ∷ xs) lo hi dow h = refl

-- Some part is met by the value.
abbrev pub Any : List (List ℕ) → ℕ → ℕ → ℕ → Bool → Type 0
Any [] v lo hi dow = ⊥
Any (part ∷ parts) v lo hi dow = (match_single_part part v lo hi dow ≡ true) ⊎ Any parts v lo hi dow

match_parts-Any :
    (parts : List (List ℕ)) (v lo hi : ℕ) (dow : Bool)
    → all_valid parts lo hi dow ≡ true
    → (match_parts parts v lo hi dow ≡ true) ↔ Any parts v lo hi dow
unfolding match_parts
match_parts-Any [] v lo hi dow ok = ground arith
match_parts-Any (part ∷ parts) v lo hi dow ok =
    let first : validate_single_part part lo hi dow ≡ true = ground arith in
    let others : all_valid parts lo hi dow ≡ true = ground arith in
    ground (arith, valid-not_empty part lo hi dow first, match_parts-Any parts v lo hi dow others)

all_valid-validate :
    (parts : List (List ℕ)) (lo hi : ℕ) (dow : Bool)
    → validate_parts parts lo hi dow ≡ true
    → all_valid parts lo hi dow ≡ true
unfolding validate_parts
all_valid-validate [] lo hi dow h = refl
all_valid-validate (part ∷ parts) lo hi dow h = h

validate_parts-match :
    (parts : List (List ℕ)) (lo hi : ℕ) (dow : Bool)
    → IsField lo hi dow
    → validate_parts parts lo hi dow ≡ true
    → (v : ℕ) × (lo ≤ v) × (v ≤ hi) × (match_parts parts v lo hi dow ≡ true)
unfolding validate_parts match_parts
validate_parts-match [] lo hi dow f h = absurd (ground arith)
validate_parts-match (part ∷ parts) lo hi dow f h =
    let first : validate_single_part part lo hi dow ≡ true = ground arith in
    let (v, low, high, m) = validate_single_part-match part lo hi dow f first in
    (v, low, high, rw (valid-not_empty part lo hi dow first, m) refl)

module _ (push_back : List (List ℕ) → List ℕ → List (List ℕ)) (lo hi : ℕ) (dow : Bool) where
  -- `matchField` by the parts that the code finds.
  pub match_field-Any :
      (expr : List ℕ) (v : ℕ)
      → validate_field_expression push_back expr lo hi dow ≡ true
      → (match_field push_back expr v lo hi dow ≡ true)
        ↔ Any (split_from push_back comma [] [] expr) v lo hi dow
  unfolding match_field validate_field_expression
  match_field-Any expr v h =
      let parts : List (List ℕ) = split_from push_back comma [] [] expr in
      match_parts-Any parts v lo hi dow (all_valid-validate parts lo hi dow h)

  -- A field of a schedule that passes `validateFieldExpression` can be met, whatever `push_back` does:
  -- some value that the field can take passes `matchField`.
  pub validate_field_expression-match :
      (expr : List ℕ)
      → IsField lo hi dow
      → validate_field_expression push_back expr lo hi dow ≡ true
      → (v : ℕ) × (lo ≤ v) × (v ≤ hi) × (match_field push_back expr v lo hi dow ≡ true)
  unfolding match_field validate_field_expression
  validate_field_expression-match expr f h =
      validate_parts-match (split_from push_back comma [] [] expr) lo hi dow f h
