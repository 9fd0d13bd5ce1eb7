-- ===== src/Network/Hostname.antt =====
-- include/network/detail/wifi.hpp: the host name of the device, as a list of bytes.
pub mod Label
mod Tests
use esp_arduino_ebus.Base.{
  ℕ, ◌+◌, Bool, true, false, not, ◌&&◌, ◌||◌, List, [], ◌∷◌, ◌==◌, ltb, leb, if◌then◌else◌, length,
  take,
}

abbrev pub is_empty : List ℕ → Bool
is_empty [] = true
is_empty (x ∷ xs) = false

abbrev pub is_blank : ℕ → Bool
is_blank c = c == 32 || c == 9 || c == 13 || c == 10

-- `trimCopy(value)`, from the first byte that is not blank to the last one.
unfoldable pub trim_start : List ℕ → List ℕ
trim_start [] = []
trim_start (c ∷ cs) = let rest : List ℕ = trim_start cs in if is_blank c then rest else c ∷ cs

unfoldable pub trim_end : List ℕ → List ℕ
trim_end [] = []
trim_end (c ∷ cs) =
    let rest : List ℕ = trim_end cs in if is_blank c && is_empty rest then [] else c ∷ rest

unfoldable pub trim_copy : List ℕ → List ℕ
unfolding trim_start trim_end
trim_copy value = trim_end (trim_start value)

abbrev pub is_upper : ℕ → Bool
is_upper c = leb 65 c && leb c 90

-- A lower-case letter or a digit.
abbrev pub is_lower_alnum : ℕ → Bool
is_lower_alnum c = (leb 48 c && leb c 57) || (leb 97 c && leb c 122)

-- The loop over the bytes: letters and digits in lower case, and `-`, `_` and a space as `-`.
unfoldable pub sanitized : List ℕ → List ℕ
sanitized [] = []
sanitized (c ∷ cs) =
    let rest : List ℕ = sanitized cs in
    if is_upper c
    then (c + 32) ∷ rest
    else if is_lower_alnum c
    then c ∷ rest
    else if c == b'-' || c == b'_' || c == 32
    then b'-' ∷ rest
    else rest

-- The two loops that take off `-`.
unfoldable pub strip_front : List ℕ → List ℕ
strip_front [] = []
strip_front (c ∷ cs) = let rest : List ℕ = strip_front cs in if c == b'-' then rest else c ∷ cs

unfoldable pub strip_back : List ℕ → List ℕ
strip_back [] = []
strip_back (c ∷ cs) =
    let rest : List ℕ = strip_back cs in if c == b'-' && is_empty rest then [] else c ∷ rest

abbrev pub default_hostname : List ℕ
default_hostname = b'e' ∷ b's' ∷ b'p' ∷ b'-' ∷ b'e' ∷ b'b' ∷ b'u' ∷ b's' ∷ []

abbrev pub or_else : List ℕ → List ℕ → List ℕ
or_else s default = if is_empty s then default else s

-- `buildHostname(source, fallback)`.
unfoldable pub build_hostname : List ℕ → List ℕ → List ℕ
unfolding trim_copy sanitized strip_front strip_back
build_hostname source fallback =
    let name : List ℕ =
      or_else (strip_back (strip_front (sanitized (or_else (trim_copy source) fallback))))
        default_hostname in
    if ltb 63 (length name) then take 63 name else name
