-- ===== src/App/Cron.antt =====
-- src/app/cron.cpp: one part of a field of a schedule, such as `5`, `1-5`, `*` or `0-30/10`.
pub mod Parts
pub mod Fields
pub mod Schedule
pub mod Rules
mod Tests
use esp_arduino_ebus.Base.{
  ℕ, zero, suc, ◌+◌, ◌-◌, ◌*◌, ◌%◌, ◌^◌, Bool, true, false, not, ◌&&◌, ◌||◌, List, [], ◌∷◌, Option,
  none, some, ◌==◌, ltb, leb, if◌then◌else◌, bytes_eq, ℤ, pos, negsuc, int_eq, int_leb,
}

-- A byte of a part: `*`, `-` and `/`.
abbrev pub star : ℕ
star = 42

abbrev pub dash : ℕ
dash = 45

abbrev pub slash : ℕ
slash = 47

abbrev pub is_star : List ℕ → Bool
is_star text = bytes_eq text (star ∷ [])

abbrev pub is_empty : List ℕ → Bool
is_empty [] = true
is_empty (x ∷ xs) = false

abbrev pub push_front : ℕ → Option (List ℕ × List ℕ) → Option (List ℕ × List ℕ)
push_front x none = none
push_front x (some (before, after)) = some (x ∷ before, after)

-- `find(sep)` and the two `substr` beside the place found.
unfoldable pub cut : ℕ → List ℕ → Option (List ℕ × List ℕ)
cut sep [] = none
cut sep (x ∷ xs) = let rest = cut sep xs in if x == sep then some ([], xs) else push_front x rest

-- Decimal digits up to the end of the text.
unfoldable pub digits : ℕ → List ℕ → Option ℕ
digits acc [] = some acc
digits acc (x ∷ xs) =
    let rest = digits (acc * 10 + (x - 48)) xs in if leb 48 x && leb x 57 then rest else none

unfoldable pub magnitude : List ℕ → Option ℕ
unfolding digits
magnitude [] = none
magnitude (x ∷ xs) = digits 0 (x ∷ xs)

abbrev positive_int : Option ℕ → Option ℤ
positive_int none = none
positive_int (some n) = if ltb n (2 ^ 31) then some (pos n) else none

abbrev negative_int : Option ℕ → Option ℤ
negative_int none = none
negative_int (some zero) = some (pos 0)
negative_int (some (suc n)) = if ltb n (2 ^ 31) then some (negsuc n) else none

-- `parseInt(text, out)`: `std::from_chars` must read the whole text.
unfoldable pub parse_int : List ℕ → Option ℤ
unfolding magnitude
parse_int [] = none
parse_int (x ∷ xs) =
    if x == dash then negative_int (magnitude xs) else positive_int (magnitude (x ∷ xs))

-- `inRange(value, min_value, max_value)`.
abbrev pub in_range : ℤ → ℕ → ℕ → Bool
in_range value min_value max_value = int_leb (pos min_value) value && int_leb value (pos max_value)

abbrev pub with_step : List ℕ → Option ℤ → Option (List ℕ × ℕ)
with_step base (some (pos (suc n))) = some (base, suc n)
with_step base _ = none

abbrev pub after_cut : List ℕ → Option (List ℕ × List ℕ) → Option (List ℕ × ℕ)
after_cut part none = some (part, 1)
after_cut part (some (base, step_part)) = with_step base (parse_int step_part)

-- The base and the step of a part; `none` when the step is not a number above 0.
unfoldable pub step_of : List ℕ → Option (List ℕ × ℕ)
unfolding parse_int
step_of part = after_cut part (cut slash part)

abbrev both : Option ℤ → Option ℤ → Option (ℤ × ℤ)
both (some a) (some b) = some (a, b)
both _ _ = none

-- The two ends of a base that is no `*`.
unfoldable pub ends : List ℕ → Option (ℤ × ℤ)
unfolding cut parse_int
ends base = elim (cut dash base) [
  | none ↦ both (parse_int base) (parse_int base)
  | some (first, last) ↦ both (parse_int first) (parse_int last)
]

-- `if (day_of_week) { if (start == 7) start = 0; … }`.
abbrev pub sunday : Bool → ℤ → ℤ
sunday day_of_week n = if day_of_week && int_eq n (pos 7) then pos 0 else n

-- The tests once the ends are known, with Sunday already counted as 0.
unfoldable pub match_ends : Bool → ℤ → ℤ → ℕ → ℕ → ℕ → ℕ → Bool → Bool
match_ends base_is_star start end step value min_value max_value day_of_week =
    let weekend : Bool = int_eq start (pos 6) && int_eq end (pos 0) in
    if day_of_week && not base_is_star && not (int_leb start end) && not weekend
    then false
    else if day_of_week && weekend
    then (value == 6 || value == 0) && ((value + 7 - 6) % 7 % step == 0)
    else if not (in_range start min_value max_value) || not (in_range end min_value max_value)
    then false
    else if not (int_leb start end)
    then false
    else if not (int_leb start (pos value)) || not (int_leb (pos value) end)
    then false
    else (distance start value % step == 0)
  where
    -- `value - start`, which is reached when `start` is at most `value` and no less than 0.
    distance : ℤ → ℕ → ℕ
    distance (pos s) v = v - s
    distance (negsuc s) v = v + suc s

unfoldable pub match_range : Option (ℤ × ℤ) → Bool → ℕ → ℕ → ℕ → ℕ → Bool → Bool
unfolding match_ends
match_range none base_is_star step value min_value max_value day_of_week = false
match_range (some (start, end)) base_is_star step value min_value max_value day_of_week =
    match_ends base_is_star (sunday day_of_week start) (sunday day_of_week end) step value min_value
      max_value day_of_week

unfoldable pub match_base : Option (List ℕ × ℕ) → ℕ → ℕ → ℕ → Bool → Bool
match_base none value min_value max_value day_of_week = false
match_base (some (base, step)) value min_value max_value day_of_week =
    match_range
      (if is_empty base || is_star base then some (pos min_value, pos max_value) else ends base)
      (is_star base) step value min_value max_value day_of_week

-- `matchSinglePart(part, value, min_value, max_value, day_of_week)`.
unfoldable pub match_single_part : List ℕ → ℕ → ℕ → ℕ → Bool → Bool
match_single_part part value min_value max_value day_of_week =
    if is_star part then true else match_base (step_of part) value min_value max_value day_of_week

unfoldable pub validate_ends : ℤ → ℤ → ℕ → ℕ → Bool → Bool
validate_ends start end min_value max_value day_of_week =
    if day_of_week && int_eq start (pos 6) && int_eq end (pos 0)
    then true
    else if not (in_range start min_value max_value) || not (in_range end min_value max_value)
    then false
    else int_leb start end

unfoldable pub validate_range : Option (ℤ × ℤ) → ℕ → ℕ → Bool → Bool
validate_range none min_value max_value day_of_week = false
validate_range (some (start, end)) min_value max_value day_of_week =
    validate_ends (sunday day_of_week start) (sunday day_of_week end) min_value max_value
      day_of_week

unfoldable pub validate_base : Option (List ℕ × ℕ) → ℕ → ℕ → Bool → Bool
validate_base none min_value max_value day_of_week = false
validate_base (some (base, step)) min_value max_value day_of_week =
    if is_star base then true else validate_range (ends base) min_value max_value day_of_week

-- `validateSinglePart(part, min_value, max_value, day_of_week)`.
unfoldable pub validate_single_part : List ℕ → ℕ → ℕ → Bool → Bool
validate_single_part part min_value max_value day_of_week =
    if is_empty part
    then false
    else if is_star part
    then true
    else validate_base (step_of part) min_value max_value day_of_week
