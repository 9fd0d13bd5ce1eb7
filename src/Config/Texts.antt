-- ===== src/Config/Texts.antt =====
-- The functions of the C library on the texts of the configuration: c_str, std::to_string of an
-- unsigned number and std::strtol in base 10.
use esp_arduino_ebus.Base.{
  ℕ, zero, suc, ◌+◌, ◌-◌, ◌*◌, ◌/◌, ◌%◌, ◌^◌, ◌<◌, ◌≡◌, refl, ◌∙◌, Bool, true, false, ◌&&◌, ◌||◌,
  List, [], ◌∷◌, Option, none, some, ◌==◌, ltb, leb, if◌then◌else◌, min, ℤ, pos, negsuc, arith,
  bytes_eq, take, length, ◌≤◌, Bool-cases, inl, inr,
}
use esp_arduino_ebus.Config.{is_empty}

-- The bytes before the first zero.
unfoldable pub c_str : List ℕ → List ℕ
c_str [] = []
c_str (x ∷ xs) = if x == 0 then [] else x ∷ c_str xs

-- `std::to_string` of a number below 10 ^ fuel, before the text `rest`.
unfoldable pub decimal : ℕ → ℕ → List ℕ → List ℕ
decimal zero n rest = rest
decimal (suc fuel) n rest =
    let high : List ℕ = decimal fuel (n / 10) ((48 + n % 10) ∷ rest) in
    if ltb n 10 then (48 + n) ∷ rest else high

abbrev pub to_string : ℕ → List ℕ
to_string n = decimal 5 n []

abbrev pub is_digit : ℕ → Bool
is_digit c = leb 48 c && leb c 57

abbrev pub is_space : ℕ → Bool
is_space c = c == 32 || (leb 9 c && leb c 13)

-- The number that digits stand for, after `acc`; none if a byte is no digit.
unfoldable pub number_of : ℕ → List ℕ → Option ℕ
number_of acc [] = some acc
number_of acc (c ∷ cs) = if is_digit c then number_of (acc * 10 + (c - 48)) cs else none

abbrev pub skip_space : List ℕ → List ℕ
skip_space [] = []
skip_space (c ∷ cs) = if is_space c then skip_space cs else c ∷ cs

-- The result where the digits are all that is left: `long` has 32 bits, and strtol stops at its ends.
abbrev pub clamped : Bool → Option ℕ → Option ℤ
clamped neg none = none
clamped false (some n) = some (pos (min n (2 ^ 31 - 1)))
clamped true (some zero) = some (pos 0)
clamped true (some (suc n)) = some (negsuc (min n (2 ^ 31 - 1)))

abbrev pub magnitude : Bool → List ℕ → Option ℤ
magnitude neg [] = none
magnitude neg (c ∷ cs) = clamped neg (number_of 0 (c ∷ cs))

abbrev pub signed : List ℕ → Option ℤ
signed [] = none
signed (c ∷ cs) =
    if c == b'-'
    then magnitude true cs
    else if c == b'+'
    then magnitude false cs
    else magnitude false (c ∷ cs)

-- `strtol(text, &end, 10)`, and none unless `end` is behind a number and at the end of the text.
unfoldable pub strtol : List ℕ → Option ℤ
unfolding number_of
strtol t = signed (skip_space t)

abbrev pub selected : List ℕ
selected = b's' ∷ b'e' ∷ b'l' ∷ b'e' ∷ b'c' ∷ b't' ∷ b'e' ∷ b'd' ∷ []

abbrev pub true_text : List ℕ
true_text = b't' ∷ b'r' ∷ b'u' ∷ b'e' ∷ []

abbrev pub false_text : List ℕ
false_text = b'f' ∷ b'a' ∷ b'l' ∷ b's' ∷ b'e' ∷ []

abbrev pub bool_text : Bool → List ℕ
bool_text true = true_text
bool_text false = false_text

abbrev pub is_true_text : List ℕ → Bool
is_true_text value =
    bytes_eq value selected
    || bytes_eq value true_text
    || bytes_eq value (b'1' ∷ [])
    || bytes_eq value (b'o' ∷ b'n' ∷ [])

number_of-decimal :
    (fuel n : ℕ) (rest : List ℕ)
    → n < 10 ^ fuel
    → number_of 0 (decimal fuel n rest) ≡ number_of n rest
unfolding number_of decimal
number_of-decimal zero n rest h = let e : n ≡ 0 = omega arith in rw e refl
number_of-decimal (suc fuel) n rest h = elim (Bool-cases (ltb n 10)) [
  | inl e ↦ rw e (ground arith)
  | inr e ↦
      rw e (number_of-decimal fuel (n / 10) ((48 + n % 10) ∷ rest) (ground arith) ∙ ground arith)
]

-- A text of digits only is the number they stand for.
strtol-digits :
    (t : List ℕ) (n : ℕ)
    → is_empty t ≡ false
    → number_of 0 t ≡ some n
    → n < 2 ^ 31
    → strtol t ≡ some (pos n)
unfolding strtol
strtol-digits [] n h e lt = cc
strtol-digits (c ∷ cs) n h e lt = ground arith

is_empty-decimal : (fuel n c : ℕ) (cs : List ℕ) → is_empty (decimal fuel n (c ∷ cs)) ≡ false
unfolding decimal
is_empty-decimal zero n c cs = refl
is_empty-decimal (suc fuel) n c cs =
    ground (arith, is_empty-decimal fuel (n / 10) (48 + n % 10) (c ∷ cs))

pub is_empty-to_string : (n : ℕ) → is_empty (to_string n) ≡ false
unfolding decimal
is_empty-to_string n = ground (arith, is_empty-decimal 4 (n / 10) (48 + n % 10) [])

c_str-decimal :
    (fuel n : ℕ) (rest : List ℕ)
    → c_str rest ≡ rest
    → c_str (decimal fuel n rest) ≡ decimal fuel n rest
unfolding decimal c_str
c_str-decimal zero n rest e = e
c_str-decimal (suc fuel) n rest e =
    ground (arith, c_str-decimal fuel (n / 10) ((48 + n % 10) ∷ rest))

pub c_str-to_string : (n : ℕ) → c_str (to_string n) ≡ to_string n
unfolding c_str
c_str-to_string n = c_str-decimal 5 n [] refl

pub c_str-take : (n : ℕ) (t : List ℕ) → c_str t ≡ t → c_str (take n t) ≡ take n t
unfolding c_str
c_str-take zero t e = refl
c_str-take (suc n) [] e = refl
c_str-take (suc n) (x ∷ xs) e = ground (arith, c_str-take n xs)

-- A number of 16 bits comes back from its text.
pub strtol-to_string : (n : ℕ) → n < 2 ^ 16 → strtol (to_string n) ≡ some (pos n)
unfolding number_of
strtol-to_string n h =
    strtol-digits (to_string n) n (is_empty-to_string n) (number_of-decimal 5 n [] (omega arith))
      (omega arith)

length-decimal : (fuel n : ℕ) (rest : List ℕ) → length (decimal fuel n rest) ≤ fuel + length rest
unfolding decimal
length-decimal zero n rest = omega arith
length-decimal (suc fuel) n rest =
    ground (arith, length-decimal fuel (n / 10) ((48 + n % 10) ∷ rest))

pub length-to_string : (n : ℕ) → length (to_string n) ≤ 5
length-to_string n = omega (arith, length-decimal 5 n [])
