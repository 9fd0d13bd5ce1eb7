-- ===== src/Network/Hostname/Label.antt =====
-- include/network/detail/wifi.hpp: a host name is a label of the domain name system.
use esp_arduino_ebus.Base.{
  ℕ, zero, suc, ◌≤◌, ◌<◌, ◌≡◌, ◌⊎◌, refl, inl, inr, Bool, true, false, ◌&&◌, ◌||◌, List, [], ◌∷◌,
  ◌==◌, ltb, if◌then◌else◌, length, take, length-take, arith, Bool-cases, ltb→lt,
}
use esp_arduino_ebus.Network.Hostname.{
  is_empty, is_lower_alnum, sanitized, strip_front, strip_back, or_else, default_hostname,
  build_hostname, trim_copy,
}

abbrev pub is_label_byte : ℕ → Bool
is_label_byte c = is_lower_alnum c || c == b'-'

abbrev pub all_label : List ℕ → Bool
all_label [] = true
all_label (c ∷ cs) = is_label_byte c && all_label cs

abbrev pub starts_with_dash : List ℕ → Bool
starts_with_dash [] = false
starts_with_dash (c ∷ cs) = c == b'-'

abbrev pub ends_with_dash : List ℕ → Bool
ends_with_dash [] = false
ends_with_dash (c ∷ []) = c == b'-'
ends_with_dash (c ∷ d ∷ cs) = ends_with_dash (d ∷ cs)

-- From 1 to 63 bytes, lower-case letters, digits and `-`, of which the first is no `-`, and the last is
-- none either unless there are 63.
pub record IsLabel (s : List ℕ) : Type 0 where
  pub some_byte : is_empty s ≡ false
  pub short : length s ≤ 63
  pub bytes : all_label s ≡ true
  pub front : starts_with_dash s ≡ false
  pub back : (length s ≡ 63) ⊎ (ends_with_dash s ≡ false)

all_label-sanitized : (s : List ℕ) → all_label (sanitized s) ≡ true
unfolding sanitized
all_label-sanitized [] = refl
all_label-sanitized (c ∷ cs) = ground (arith, all_label-sanitized cs)

all_label-strip_front : (s : List ℕ) → all_label s ≡ true → all_label (strip_front s) ≡ true
unfolding strip_front
all_label-strip_front [] h = refl
all_label-strip_front (c ∷ cs) h = ground (arith, all_label-strip_front cs)

starts_with_dash-strip_front : (s : List ℕ) → starts_with_dash (strip_front s) ≡ false
unfolding strip_front
starts_with_dash-strip_front [] = refl
starts_with_dash-strip_front (c ∷ cs) = ground (arith, starts_with_dash-strip_front cs)

all_label-strip_back : (s : List ℕ) → all_label s ≡ true → all_label (strip_back s) ≡ true
unfolding strip_back
all_label-strip_back [] h = refl
all_label-strip_back (c ∷ cs) h = ground (arith, all_label-strip_back cs)

starts_with_dash-strip_back :
    (s : List ℕ) → starts_with_dash s ≡ false → starts_with_dash (strip_back s) ≡ false
unfolding strip_back
starts_with_dash-strip_back [] h = refl
starts_with_dash-strip_back (c ∷ cs) h = ground arith

-- A byte before a text that does not end with `-`.
ends_with_dash-cons :
    (c : ℕ) (cs : List ℕ)
    → ends_with_dash cs ≡ false
    → (c == b'-' && is_empty cs) ≡ false
    → ends_with_dash (c ∷ cs) ≡ false
ends_with_dash-cons c [] e h = ground arith
ends_with_dash-cons c (d ∷ cs) e h = e

ends_with_dash-strip_back : (s : List ℕ) → ends_with_dash (strip_back s) ≡ false
unfolding strip_back
ends_with_dash-strip_back [] = refl
ends_with_dash-strip_back (c ∷ cs) = elim (Bool-cases (c == b'-' && is_empty (strip_back cs))) [
  | inl e ↦ rw e refl
  | inr e ↦ rw e (ends_with_dash-cons c (strip_back cs) (ends_with_dash-strip_back cs) e)
]

all_label-take : (n : ℕ) (s : List ℕ) → all_label s ≡ true → all_label (take n s) ≡ true
all_label-take zero s h = refl
all_label-take (suc n) [] h = refl
all_label-take (suc n) (c ∷ cs) h = ground (arith, all_label-take n cs)

-- A text as `buildHostname` has it before it is cut.
record IsName (s : List ℕ) : Type 0 where
  pub some_byte : is_empty s ≡ false
  pub bytes : all_label s ≡ true
  pub front : starts_with_dash s ≡ false
  pub back : ends_with_dash s ≡ false

IsName-or_else :
    (s : List ℕ)
    → all_label s ≡ true
    → starts_with_dash s ≡ false
    → ends_with_dash s ≡ false
    → IsName (or_else s default_hostname)
IsName-or_else [] h f b = record { some_byte = refl; bytes = refl; front = refl; back = refl }
IsName-or_else (c ∷ cs) h f b = record { some_byte = refl; bytes = h; front = f; back = b }

cut-IsLabel : (s : List ℕ) → IsName s → IsLabel (if ltb 63 (length s) then take 63 s else s)
cut-IsLabel [] n = absurd (ground (arith, n.some_byte))
cut-IsLabel (c ∷ cs) n = elim (Bool-cases (ltb 63 (length (c ∷ cs)))) [
  | inl long ↦
      let over : 63 < length (c ∷ cs) = ltb→lt 63 (length (c ∷ cs)) long in
      let full : length (c ∷ take 62 cs) ≡ 63 = omega (arith, length-take 62 cs) in
      rw long (record {
        some_byte = refl;
        short = omega arith;
        bytes = all_label-take 63 (c ∷ cs) n.bytes;
        front = n.front;
        back = inl full;
      })
  | inr short ↦ rw short (record {
    some_byte = refl;
    short = ground arith;
    bytes = n.bytes;
    front = n.front;
    back = inr n.back;
  })
]

-- Whatever the name of the device and the fallback are, `buildHostname` gives a label: from 1 to 63
-- bytes, lower-case letters, digits and `-`, which does not start with `-`, and ends with `-` at most
-- when it is 63 bytes long.
pub build_hostname-IsLabel : (source fallback : List ℕ) → IsLabel (build_hostname source fallback)
unfolding build_hostname
build_hostname-IsLabel source fallback =
    let s : List ℕ = sanitized (or_else (trim_copy source) fallback) in
    let front : List ℕ = strip_front s in
    cut-IsLabel (or_else (strip_back front) default_hostname) (
      IsName-or_else (strip_back front)
        (all_label-strip_back front
          (all_label-strip_front s (all_label-sanitized (or_else (trim_copy source) fallback))))
        (starts_with_dash-strip_back front (starts_with_dash-strip_front s))
        (ends_with_dash-strip_back front))
