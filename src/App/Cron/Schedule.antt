-- ===== src/App/Cron/Schedule.antt =====
-- src/app/cron.cpp: matchSchedule, the five fields of a schedule against a time.
use esp_arduino_ebus.Base.{
  ℕ, ◌+◌, ◌≤◌, ◌<◌, ◌≡◌, refl, sym, ◌∙◌, ap, Bool, true, false, ◌&&◌, ◌||◌, List, [], ◌∷◌, ◌++◌,
  map, append-nil, append_assoc, Option, none, some, ◌==◌, leb, if◌then◌else◌, arith, length,
  length-append,
}
use esp_arduino_ebus.App.Cron.{is_empty}
use esp_arduino_ebus.App.Cron.Fields.{match_field}

-- A space or a tab.
abbrev pub is_blank : ℕ → Bool
is_blank x = x == 32 || x == 9

-- The fields of `tm` that are read.
pub record Tm : Type 0 where
  pub tm_min : ℕ
  pub tm_hour : ℕ
  pub tm_mday : ℕ
  pub tm_mon : ℕ
  pub tm_wday : ℕ

module _ (push_back : List (List ℕ) → List ℕ → List (List ℕ)) where
  -- The five calls of `matchField`; no other number of fields will do.
  unfoldable pub match_fields : List (List ℕ) → Tm → Bool
  match_fields (a ∷ b ∷ c ∷ d ∷ e ∷ []) t =
      match_field push_back a t.tm_min 0 59 false
      && match_field push_back b t.tm_hour 0 23 false
      && match_field push_back c t.tm_mday 1 31 false
      && match_field push_back d (t.tm_mon + 1) 1 12 false
      && match_field push_back e t.tm_wday 0 6 true
  match_fields _ t = false

-- `push_back` is that of the library's StaticVector, `assign` gives the text that a FixedString<64>
-- holds after `assign`.
module _ (push_back : List (List ℕ) → List ℕ → List (List ℕ)) (assign : List ℕ → List ℕ) where
  -- The end of a field, which counts when it is not empty; `none` is the answer false.
  unfoldable pub end_field : List (List ℕ) → List ℕ → Option (List (List ℕ))
  end_field fields text =
      if is_empty text
      then some fields
      else if leb 5 (length fields)
      then none
      else some (fields ++ assign text ∷ [])

  -- The loop over the schedule; `text` is what was read since `start`.
  unfoldable pub scan : List (List ℕ) → List ℕ → List ℕ → Option (List (List ℕ))
  scan fields text [] = end_field fields text
  scan fields text (x ∷ xs) =
      if is_blank x
      then elim (end_field fields text) [ none ↦ none | some fields' ↦ scan fields' [] xs ]
      else scan fields (text ++ x ∷ []) xs

  unfoldable pub match_scanned : Option (List (List ℕ)) → Tm → Bool
  match_scanned none t = false
  match_scanned (some fields) t = match_fields push_back fields t

  -- `matchSchedule(schedule, local_time)`.
  unfoldable pub match_schedule : List ℕ → Tm → Bool
  match_schedule schedule t = match_scanned (scan [] [] schedule) t

-- A text without blanks.
abbrev pub IsWord : List ℕ → Type 0
IsWord [] = Unit {0}
IsWord (x ∷ xs) = (is_blank x ≡ false) × IsWord xs

-- Words that are not empty, and a schedule made of them.
abbrev pub AreWords : List (List ℕ) → Type 0
AreWords [] = Unit {0}
AreWords (word ∷ words) = (is_empty word ≡ false) × IsWord word × AreWords words

abbrev pub join : List (List ℕ) → List ℕ
join [] = []
join (word ∷ []) = word
join (word ∷ next ∷ words) = word ++ 32 ∷ join (next ∷ words)

module _ (push_back : List (List ℕ) → List ℕ → List (List ℕ)) (assign : List ℕ → List ℕ) where
  scan-word :
      (fields : List (List ℕ)) (text word rest : List ℕ)
      → IsWord word
      → scan push_back assign fields text (word ++ rest)
        ≡ scan push_back assign fields (text ++ word) rest
  unfolding scan
  scan-word fields text [] rest w =
      ap (λ s. scan push_back assign fields s rest) (sym (append-nil text))
  scan-word fields text (x ∷ xs) rest (b, w) = rw b (
      scan-word fields (text ++ x ∷ []) xs rest w
      ∙ ap (λ s. scan push_back assign fields s rest) (append_assoc text (x ∷ []) xs))

  scan-blank :
      (fields : List (List ℕ)) (x : ℕ) (word rest : List ℕ)
      → length fields < 5
      → scan push_back assign fields (x ∷ word) (32 ∷ rest)
        ≡ scan push_back assign (fields ++ assign (x ∷ word) ∷ []) [] rest
  unfolding scan end_field
  scan-blank fields x word rest room =
      let few : leb 5 (length fields) ≡ false = ground arith in rw few refl

  scan-stop :
      (fields : List (List ℕ)) (x : ℕ) (word : List ℕ)
      → length fields < 5
      → scan push_back assign fields (x ∷ word) [] ≡ some (fields ++ assign (x ∷ word) ∷ [])
  unfolding scan end_field
  scan-stop fields x word room =
      let few : leb 5 (length fields) ≡ false = ground arith in rw few refl

  scan-field :
      (fields : List (List ℕ)) (x : ℕ) (word rest : List ℕ)
      → IsWord (x ∷ word)
      → length fields < 5
      → scan push_back assign fields [] ((x ∷ word) ++ 32 ∷ rest)
        ≡ scan push_back assign (fields ++ assign (x ∷ word) ∷ []) [] rest
  scan-field fields x word rest w room =
      scan-word fields [] (x ∷ word) (32 ∷ rest) w ∙ scan-blank fields x word rest room

  scan-end :
      (fields : List (List ℕ)) (x : ℕ) (word : List ℕ)
      → IsWord (x ∷ word)
      → length fields < 5
      → scan push_back assign fields [] (x ∷ word) ≡ some (fields ++ assign (x ∷ word) ∷ [])
  scan-end fields x word w room =
      ap (scan push_back assign fields []) (sym (append-nil (x ∷ word)))
      ∙ scan-word fields [] (x ∷ word) [] w
      ∙ scan-stop fields x word room

  scan-words :
      (fields words : List (List ℕ))
      → AreWords words
      → length fields + length words ≤ 5
      → scan push_back assign fields [] (join words) ≡ some (fields ++ map assign words)
  unfolding scan end_field
  scan-words fields [] w fit = ap some (sym (append-nil fields))
  scan-words fields ([] ∷ words) (n, _, _) fit = absurd (ground arith)
  scan-words fields ((x ∷ xs) ∷ []) (n, w, _) fit = scan-end fields x xs w (omega arith)
  scan-words fields ((x ∷ xs) ∷ word ∷ words) (n, w, ws) fit =
      scan-field fields x xs (join (word ∷ words)) w (omega arith)
      ∙ scan-words (fields ++ assign (x ∷ xs) ∷ []) (word ∷ words) ws
          (omega (arith, length-append fields (assign (x ∷ xs) ∷ [])))
      ∙ ap some (append_assoc fields (assign (x ∷ xs) ∷ []) (map assign (word ∷ words)))

  -- For at most five words without blanks, written with a space between any two: `matchSchedule` holds
  -- exactly when there are five and each, as the FixedString keeps it, is met by its part of the time.
  pub match_schedule-words :
      (words : List (List ℕ)) (t : Tm)
      → AreWords words
      → length words ≤ 5
      → match_schedule push_back assign (join words) t ≡ match_fields push_back (map assign words) t
  unfolding match_schedule match_scanned
  match_schedule-words words t w fit = rw (scan-words [] words w (omega arith)) refl
