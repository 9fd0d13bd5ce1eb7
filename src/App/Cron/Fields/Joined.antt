-- ===== src/App/Cron/Fields/Joined.antt =====
-- src/app/cron.cpp: matchField on parts that were joined with commas.
use esp_arduino_ebus.Base.{ℕ, ◌<◌, ◌≡◌, false, List, [], ◌∷◌, ◌++◌, ◌==◌, length}
use esp_arduino_ebus.App.Cron.Fields.{comma}

-- The room of the StaticVector of parts.
abbrev pub max_parts : ℕ
max_parts = 64

-- Documented behaviour of the StaticVector's push_back: while there is room, the part comes last.
abbrev pub IsPushBack : (List (List ℕ) → List ℕ → List (List ℕ)) → Type 0
IsPushBack push_back =
    (parts : List (List ℕ)) (part : List ℕ)
    → length parts < max_parts
    → push_back parts part ≡ parts ++ part ∷ []

-- A text without commas.
abbrev pub IsPart : List ℕ → Type 0
IsPart [] = Unit {0}
IsPart (x ∷ xs) = ((x == comma) ≡ false) × IsPart xs

abbrev pub AreParts : List (List ℕ) → Type 0
AreParts [] = Unit {0}
AreParts (part ∷ parts) = IsPart part × AreParts parts

-- The parts with a comma between each two.
abbrev pub joined : List ℕ → List (List ℕ) → List ℕ
joined part [] = part
joined part (next ∷ parts) = part ++ comma ∷ joined next parts
