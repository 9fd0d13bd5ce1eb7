-- ===== src/App/Cron/Tests.antt =====
-- Parts of schedules.
use esp_arduino_ebus.Base.{
  map, ◌≤◌, ◌++◌, inl, ℕ, ◌≡◌, ◌↔◌, inr, refl, true, false, List, [], ◌∷◌, arith,
}
use esp_arduino_ebus.App.Cron.{
  cut, digits, magnitude, parse_int, step_of, ends, match_ends, match_range, match_base,
  match_single_part, validate_ends, validate_range, validate_base, validate_single_part,
}
use esp_arduino_ebus.App.Cron.Fields.{
  split_from, match_parts, validate_parts, match_field, validate_field_expression,
  validate_field_expression-match,
}
use esp_arduino_ebus.App.Cron.Schedule.{
  Tm, end_field, scan, match_fields, match_scanned, match_schedule, join, match_schedule-words,
}
use esp_arduino_ebus.App.Cron.Parts.{Met, validate_single_part_iff}

-- The text `6-7/2`.
abbrev weekend : List ℕ
weekend = 54 ∷ 45 ∷ 55 ∷ 47 ∷ 50 ∷ []

-- The text `0-7`, of which only Sunday is left.
abbrev whole_week : List ℕ
whole_week = 48 ∷ 45 ∷ 55 ∷ []

saturday : match_single_part weekend 6 0 6 true ≡ true
unfolding cut digits magnitude parse_int step_of ends match_ends match_range match_base
    match_single_part
saturday = refl

monday : match_single_part whole_week 1 0 6 true ≡ false
unfolding cut digits magnitude parse_int step_of ends match_ends match_range match_base
    match_single_part
monday = refl

validate_single_part_iff_example :
    (validate_single_part weekend 0 6 true ≡ true) ↔ Met weekend 0 6 true
validate_single_part_iff_example =
    validate_single_part_iff 54 (45 ∷ 55 ∷ 47 ∷ 50 ∷ []) 0 6 true (omega arith, inr (refl, refl))
      (omega arith)

-- A vector with room for all parts.
abbrev keep_all : List (List ℕ) → List ℕ → List (List ℕ)
keep_all parts part = parts ++ part ∷ []

-- The text `5,9`.
abbrev five_or_nine : List ℕ
five_or_nine = 53 ∷ 44 ∷ 57 ∷ []

five_or_nine-valid : validate_field_expression keep_all five_or_nine 0 59 false ≡ true
unfolding cut digits magnitude parse_int step_of ends validate_ends validate_range validate_base
    validate_single_part split_from validate_parts validate_field_expression
five_or_nine-valid = refl

validate_field_expression-match_example :
    (v : ℕ) × (0 ≤ v) × (v ≤ 59) × (match_field keep_all five_or_nine v 0 59 false ≡ true)
validate_field_expression-match_example =
    validate_field_expression-match keep_all 0 59 false five_or_nine (omega arith, inl refl)
      five_or_nine-valid

-- The texts `5,9`, `*`, `*`, `*` and `6-7/2`.
abbrev weekends : List (List ℕ)
weekends = five_or_nine ∷ (42 ∷ []) ∷ (42 ∷ []) ∷ (42 ∷ []) ∷ weekend ∷ []

abbrev saturday_nine : Tm
saturday_nine = record { tm_min = 9; tm_hour = 3; tm_mday = 30; tm_mon = 11; tm_wday = 6 }

match_schedule-words_example :
    match_schedule keep_all (λ text. text) (join weekends) saturday_nine
    ≡ match_fields keep_all (map (λ text. text) weekends) saturday_nine
match_schedule-words_example =
    match_schedule-words keep_all (λ text. text) weekends saturday_nine
      (
        refl,
        (refl, (refl, (refl, tt))),
        (
          refl,
          (refl, tt),
          (
            refl,
            (refl, tt),
            (refl, (refl, tt), (refl, (refl, (refl, (refl, (refl, (refl, tt))))), tt)),
          ),
        ),
      )
      (omega arith)

scheduled : match_schedule keep_all (λ text. text) (join weekends) saturday_nine ≡ true
unfolding cut digits magnitude parse_int step_of ends match_ends match_range match_base
    match_single_part split_from match_parts match_field end_field scan match_fields match_scanned
    match_schedule
scheduled = refl
