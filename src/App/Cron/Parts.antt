-- ===== src/App/Cron/Parts.antt =====
-- src/app/cron.cpp: matchSinglePart beside validateSinglePart.
use native.Mathlib.Nat.{zero-mod}
use esp_arduino_ebus.Base.{
  ℕ, zero, suc, ◌-◌, ◌%◌, ◌≤◌, ◌≡◌, ◌≢◌, ◌↔◌, ◌⊎◌, refl, Bool, true, false, List, [], ◌∷◌, Option,
  none, some, if◌then◌else◌, arith, ℤ, pos, negsuc,
}
use esp_arduino_ebus.App.Cron.{
  is_star, is_empty, with_step, push_front, after_cut, parse_int, step_of, ends, sunday, cut, slash,
  match_ends, match_range, match_base, match_single_part, validate_ends, validate_range,
  validate_base, validate_single_part,
}

-- The fields of a schedule: the days of the week run from 0 to 6.
abbrev pub IsField : ℕ → ℕ → Bool → Type 0
IsField min_value max_value day_of_week =
    (min_value ≤ max_value) × ((day_of_week ≡ false) ⊎ ((min_value ≡ 0) × (max_value ≡ 6)))

self_mod : (a k : ℕ) → (a - a) % k ≡ 0
self_mod a k = let z : a - a ≡ 0 = omega arith in rw z (zero-mod k)

-- Ends that pass the check are met by their first value.
validate_ends-match :
    (star : Bool) (start end : ℤ) (step min_value max_value : ℕ) (dow : Bool)
    → IsField min_value max_value dow
    → validate_ends start end min_value max_value dow ≡ true
    → (v : ℕ) × (min_value ≤ v)
      × (v ≤ max_value)
      × (match_ends star start end step v min_value max_value dow ≡ true)
unfolding validate_ends match_ends
validate_ends-match star (negsuc a) (negsuc b) step lo hi dow f h = absurd (ground arith)
validate_ends-match star (negsuc a) (pos b) step lo hi dow f h = absurd (ground arith)
validate_ends-match star (pos a) (negsuc b) step lo hi dow f h = absurd (ground arith)
validate_ends-match star (pos a) (pos b) step lo hi dow f h =
    (a, ground arith, ground arith, ground (arith, self_mod a step))

match_ends-validate :
    (start end : ℤ) (step v min_value max_value : ℕ) (dow : Bool)
    → match_ends false start end step v min_value max_value dow ≡ true
    → validate_ends start end min_value max_value dow ≡ true
unfolding validate_ends match_ends
match_ends-validate (negsuc a) (negsuc b) step v lo hi dow h = ground arith
match_ends-validate (negsuc a) (pos b) step v lo hi dow h = ground arith
match_ends-validate (pos a) (negsuc b) step v lo hi dow h = ground arith
match_ends-validate (pos a) (pos b) step v lo hi dow h = ground arith

-- The values that the field can take and the part names.
abbrev pub Met : List ℕ → ℕ → ℕ → Bool → Type 0
Met part min_value max_value dow =
    (v : ℕ) × (min_value ≤ v)
    × (v ≤ max_value)
    × (match_single_part part v min_value max_value dow ≡ true)

module _ (lo hi : ℕ) (dow : Bool) (f : IsField lo hi dow) where
  validate_range-match :
      (r : Option (ℤ × ℤ)) (star : Bool) (step : ℕ)
      → validate_range r lo hi dow ≡ true
      → (v : ℕ) × (lo ≤ v) × (v ≤ hi) × (match_range r star step v lo hi dow ≡ true)
  unfolding validate_range match_range
  validate_range-match none star step h = absurd (ground arith)
  validate_range-match (some (s, e)) star step h =
      validate_ends-match star (sunday dow s) (sunday dow e) step lo hi dow f h

  whole_range : validate_range (some (pos lo, pos hi)) lo hi dow ≡ true
  unfolding validate_range validate_ends
  whole_range = ground arith

  validate_star-match :
      (r : Option (ℤ × ℤ)) (star : Bool) (step : ℕ)
      → (if star then true else validate_range r lo hi dow) ≡ true
      → (v : ℕ) × (lo ≤ v)
        × (v ≤ hi)
        × (match_range (if star then some (pos lo, pos hi) else r) star step v lo hi dow ≡ true)
  validate_star-match r true step h =
      validate_range-match (some (pos lo, pos hi)) true step whole_range
  validate_star-match r false step h = validate_range-match r false step h

  validate_base-match :
      (b : Option (List ℕ × ℕ))
      → validate_base b lo hi dow ≡ true
      → (v : ℕ) × (lo ≤ v) × (v ≤ hi) × (match_base b v lo hi dow ≡ true)
  unfolding validate_base match_base
  validate_base-match none h = absurd (ground arith)
  validate_base-match (some ([], step)) h =
      validate_range-match (some (pos lo, pos hi)) false step whole_range
  validate_base-match (some (x ∷ xs, step)) h =
      validate_star-match (ends (x ∷ xs)) (is_star (x ∷ xs)) step h

match_range-validate :
    (r : Option (ℤ × ℤ)) (step v lo hi : ℕ) (dow : Bool)
    → match_range r false step v lo hi dow ≡ true
    → validate_range r lo hi dow ≡ true
unfolding validate_range match_range
match_range-validate none step v lo hi dow h = absurd (ground arith)
match_range-validate (some (s, e)) step v lo hi dow h =
    match_ends-validate (sunday dow s) (sunday dow e) step v lo hi dow h

match_star-validate :
    (r : Option (ℤ × ℤ)) (star : Bool) (step v lo hi : ℕ) (dow : Bool)
    → match_range (if star then some (pos lo, pos hi) else r) star step v lo hi dow ≡ true
    → (if star then true else validate_range r lo hi dow) ≡ true
match_star-validate r true step v lo hi dow h = refl
match_star-validate r false step v lo hi dow h = match_range-validate r step v lo hi dow h

-- No base, or one that is not empty.
abbrev HasBase : Option (List ℕ × ℕ) → Type 0
HasBase none = Unit {0}
HasBase (some (base, step)) = is_empty base ≡ false

match_base-validate :
    (b : Option (List ℕ × ℕ)) (v lo hi : ℕ) (dow : Bool)
    → HasBase b
    → match_base b v lo hi dow ≡ true
    → validate_base b lo hi dow ≡ true
unfolding validate_base match_base
match_base-validate none v lo hi dow n h = absurd (ground arith)
match_base-validate (some ([], step)) v lo hi dow n h = absurd (ground arith)
match_base-validate (some (x ∷ xs, step)) v lo hi dow n h =
    match_star-validate (ends (x ∷ xs)) (is_star (x ∷ xs)) step v lo hi dow h

with_step-HasBase :
    (base : List ℕ) (step : Option ℤ) → is_empty base ≡ false → HasBase (with_step base step)
with_step-HasBase base none e = tt
with_step-HasBase base (some (pos zero)) e = tt
with_step-HasBase base (some (pos (suc n))) e = e
with_step-HasBase base (some (negsuc n)) e = tt

after_cut-HasBase :
    (x : ℕ) (xs : List ℕ) (rest : Option (List ℕ × List ℕ))
    → HasBase (after_cut (x ∷ xs) (push_front x rest))
after_cut-HasBase x xs none = refl
after_cut-HasBase x xs (some (before, after)) =
    with_step-HasBase (x ∷ before) (parse_int after) refl

cut-later : (x : ℕ) (xs : List ℕ) → x ≢ slash → cut slash (x ∷ xs) ≡ push_front x (cut slash xs)
unfolding cut
cut-later x xs n = ground arith

step_of-HasBase : (x : ℕ) (xs : List ℕ) → x ≢ slash → HasBase (step_of (x ∷ xs))
unfolding step_of
step_of-HasBase x xs n = rw (cut-later x xs n) (after_cut-HasBase x xs (cut slash xs))

whole_part-match :
    (star : Bool) (b : Option (List ℕ × ℕ)) (lo hi : ℕ) (dow : Bool)
    → IsField lo hi dow
    → (if star then true else validate_base b lo hi dow) ≡ true
    → (v : ℕ) × (lo ≤ v) × (v ≤ hi) × ((if star then true else match_base b v lo hi dow) ≡ true)
whole_part-match true b lo hi dow f h = (lo, omega arith, f.0, refl)
whole_part-match false b lo hi dow f h = validate_base-match lo hi dow f b h

whole_part-validate :
    (star : Bool) (b : Option (List ℕ × ℕ)) (v lo hi : ℕ) (dow : Bool)
    → HasBase b
    → (if star then true else match_base b v lo hi dow) ≡ true
    → (if star then true else validate_base b lo hi dow) ≡ true
whole_part-validate true b v lo hi dow n h = refl
whole_part-validate false b v lo hi dow n h = match_base-validate b v lo hi dow n h

pub validate_single_part-match :
    (part : List ℕ) (min_value max_value : ℕ) (dow : Bool)
    → IsField min_value max_value dow
    → validate_single_part part min_value max_value dow ≡ true
    → Met part min_value max_value dow
unfolding validate_single_part match_single_part
validate_single_part-match [] lo hi dow f h = absurd (ground arith)
validate_single_part-match (x ∷ xs) lo hi dow f h =
    whole_part-match (is_star (x ∷ xs)) (step_of (x ∷ xs)) lo hi dow f h

-- For a part that does not begin with a slash, and a field of a schedule: `validateSinglePart` accepts
-- the part exactly when some value that the field can take passes `matchSinglePart` with it.
pub validate_single_part_iff :
    (x : ℕ) (xs : List ℕ) (min_value max_value : ℕ) (dow : Bool)
    → IsField min_value max_value dow
    → x ≢ slash
    → (validate_single_part (x ∷ xs) min_value max_value dow ≡ true)
      ↔ Met (x ∷ xs) min_value max_value dow
unfolding validate_single_part match_single_part
validate_single_part_iff x xs lo hi dow f n = (
  validate_single_part-match (x ∷ xs) lo hi dow f,
  λ (v, _, _, h).
      whole_part-validate (is_star (x ∷ xs)) (step_of (x ∷ xs)) v lo hi dow (step_of-HasBase x xs n)
        h,
)
