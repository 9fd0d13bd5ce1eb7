-- ===== src/Device/StringPool/Interning.antt =====
-- include/system/string_pool.hpp: intern followed by lookup.
use native.Mathlib.Decide.{ℕ_discrete}
use esp_arduino_ebus.Base.{
  ℕ, zero, suc, ◌+◌, ◌-◌, ◌≤◌, ◌<◌, ◌≡◌, ◌⊎◌, inl, inr, refl, sym, ◌∙◌, ap, true, List, [], none,
  some, arith, length, bytes_eq→eq, slice, get_or, Bool-cases, Option-cases,
}
use esp_arduino_ebus.Device.StringPool.{
  StringPool, buffer_size, entry, is_entry, find_from, append, intern, lookup,
}
use esp_arduino_ebus.Device.StringPool.Layout.{
  IsValid, append-IsValid, entry-append_new, entry-append_old,
}

is_entry-entry : (p : StringPool) (str : List ℕ) (i : ℕ) → is_entry p str i ≡ true → entry p i ≡ str
unfolding is_entry
is_entry-entry p str i h =
    ground (arith, bytes_eq→eq (slice p.buffer (get_or p.offsets i 0) (length str)) str)

-- An entry that is found lies in the range and has the text that was looked for.
find_from-some :
    (p : StringPool) (str : List ℕ) (k i id : ℕ)
    → find_from p str k i ≡ some id
    → (i < id) × (id ≤ i + k) × (entry p (id - 1) ≡ str)
unfolding find_from
find_from-some p str zero i id h = cc
find_from-some p str (suc k) i id h = elim (Bool-cases (is_entry p str i)) [
  | inl e ↦
      let q : id ≡ i + 1 = ground arith in
      let at : id - 1 ≡ i = omega arith in
      (omega arith, omega arith, rw at (is_entry-entry p str i e))
  | inr e ↦
      let r : find_from p str k (i + 1) ≡ some id = ground arith in
      let (lo, hi, t) = find_from-some p str k (i + 1) id r in (omega arith, omega arith, t)
]

lookup-entry : (p : StringPool) (id : ℕ) → 0 < id → id ≤ p.count → lookup p id ≡ entry p (id - 1)
unfolding lookup
lookup-entry p id h l = ground arith

lookup-zero : (p : StringPool) → lookup p 0 ≡ []
unfolding lookup
lookup-zero p = refl

-- The ways in which `intern` can end.
abbrev Interned : StringPool → List ℕ → ℕ × StringPool → Type 0
Interned p str (id, q) =
    ((id ≡ 0) × (q ≡ p))
    ⊎ ((0 < id) × (id ≤ p.count) × (entry p (id - 1) ≡ str) × (q ≡ p))
    ⊎ ((find_from p str p.count 0 ≡ none)
        × (p.buffer_offset + length str + 1 ≤ buffer_size)
        × ((id, q) ≡ append p str))

intern-Interned : (p : StringPool) (str : List ℕ) → Interned p str (intern p str)
unfolding intern
intern-Interned p str = elim (Option-cases (find_from p str p.count 0)) [
  | inl e ↦ ground arith
  | inr (id, e) ↦ ground (arith, find_from-some p str p.count 0 id e)
]

module _ (p : StringPool) (str : List ℕ) (v : IsValid p) (short : length str < 256)
    (room : p.count < 255) (fits : p.buffer_offset + length str + 1 ≤ buffer_size) where
  append-number : (append p str).0 ≡ suc p.count
  unfolding append
  append-number = omega arith

  append-count : (append p str).1.count ≡ suc p.count
  unfolding append
  append-count = omega arith

  append-lookup : (0 < (append p str).0) × (lookup (append p str).1 (append p str).0 ≡ str)
  append-lookup = rw append-number (
    omega arith,
    lookup-entry (append p str).1 (suc p.count) (omega arith) (omega (arith, append-count))
        ∙ ap (entry (append p str).1) (omega arith)
        ∙ entry-append_new p str v short room fits,
  )

  lookup-append_old : (id : ℕ) → id ≤ p.count → lookup (append p str).1 id ≡ lookup p id
  lookup-append_old id h = elim (ℕ_discrete id 0) [
    | yes z ↦ rw z (lookup-zero (append p str).1 ∙ sym (lookup-zero p))
    | no nz ↦
        lookup-entry (append p str).1 id (omega arith) (omega (arith, append-count))
        ∙ entry-append_old p str v short room fits (id - 1) (omega arith)
        ∙ sym (lookup-entry p id (omega arith) h)
  ]

-- In a valid pool with less than 255 entries, `intern` of a text of less than 256 bytes leaves the text
-- of every number that has been given out.
lookup-intern_old :
    (p : StringPool) (str : List ℕ) (id : ℕ)
    → IsValid p
    → length str < 256
    → p.count < 255
    → id ≤ p.count
    → lookup (intern p str).1 id ≡ lookup p id
lookup-intern_old p str id v short room h = elim (intern-Interned p str) [
  | inl (z, e) ↦ rw e refl
  | inr (inl (lo, hi, t, e)) ↦ rw e refl
  | inr (inr (none_found, fits, e)) ↦ rw e (lookup-append_old p str v short room fits id h)
]

-- In a valid pool with less than 255 entries, a text of less than 256 bytes is either refused (the
-- answer is 0 and the pool stays as it was) or gets a number above 0 under which `lookup` gives just
-- that text; the pool stays valid, and every number that has been given out keeps its text.
pub intern-lookup :
    (p : StringPool) (str : List ℕ) (id : ℕ)
    → IsValid p
    → length str < 256
    → p.count < 255
    → id ≤ p.count
    → IsValid (intern p str).1
      × (((intern p str).0 ≡ 0) × ((intern p str).1 ≡ p)
          ⊎ (0 < (intern p str).0) × (lookup (intern p str).1 (intern p str).0 ≡ str))
      × (lookup (intern p str).1 id ≡ lookup p id)
intern-lookup p str id v short room h = elim (intern-Interned p str) [
  | inl (z, e) ↦ (rw e v, inl (z, e), lookup-intern_old p str id v short room h)
  | inr (inl (lo, hi, t, e)) ↦ (
    rw e v,
    inr (lo, rw e (lookup-entry p (intern p str).0 lo hi ∙ t)),
    lookup-intern_old p str id v short room h,
  )
  | inr (inr (none_found, fits, e)) ↦ rw e (
    append-IsValid p str v short room fits,
    inr (append-lookup p str v short room fits),
    lookup-append_old p str v short room fits id h,
  )
]

intern-append :
    (p : StringPool) (str : List ℕ)
    → 0 < length str
    → p.count < 256
    → find_from p str p.count 0 ≡ none
    → p.buffer_offset + length str + 1 ≤ buffer_size
    → intern p str ≡ append p str
unfolding intern
intern-append p str some_text room none_found fits = rw none_found (ground arith)

append-number_full : (p : StringPool) (str : List ℕ) → p.count ≡ 255 → (append p str).0 ≡ 0
unfolding append
append-number_full p str full = omega arith

append-count_full : (p : StringPool) (str : List ℕ) → p.count ≡ 255 → (append p str).1.count ≡ 0
unfolding append
append-count_full p str full = omega arith

lookup-none : (p : StringPool) (id : ℕ) → p.count ≡ 0 → lookup p id ≡ []
unfolding lookup
lookup-none p id z = ground arith

-- With 255 entries the next new text that fits wraps the count of the entries to 0: the answer is 0,
-- and from then on every number looks up as the empty text.
intern_wraps :
    (p : StringPool) (str : List ℕ) (id : ℕ)
    → p.count ≡ 255
    → 0 < length str
    → find_from p str p.count 0 ≡ none
    → p.buffer_offset + length str + 1 ≤ buffer_size
    → ((intern p str).0 ≡ 0) × (lookup (intern p str).1 id ≡ [])
intern_wraps p str id full some_text none_found fits =
    rw (intern-append p str some_text (omega arith) none_found fits) (
      append-number_full p str full,
      lookup-none (append p str).1 id (append-count_full p str full),
    )
