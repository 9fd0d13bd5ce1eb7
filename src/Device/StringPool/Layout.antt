-- ===== src/Device/StringPool/Layout.antt =====
-- How the entries of a pool lie in its buffer.
use native.Mathlib.Decide.{ℕ_discrete}
use native.Mathlib.Nat.{mod-eq_of_lt, le_refl}
use esp_arduino_ebus.Base.{
  ℕ, zero, suc, ◌+◌, ◌%◌, ◌^◌, ◌≤◌, ◌<◌, ◌≡◌, ◌∙◌, List, arith, length, get_or, set, length-set,
  get_or-set_self, get_or-set_ne, length-replicate, blit, length-blit, slice-blit_self,
  slice-blit_below, slice-set_above,
}
use esp_arduino_ebus.Device.StringPool.{StringPool, max_strings, buffer_size, init, entry, append}

-- The first `k` entries end before `limit`.
abbrev pub Laid : List ℕ → List ℕ → ℕ → ℕ → Type 0
Laid offsets lengths limit zero = Unit {0}
Laid offsets lengths limit (suc k) =
    (get_or offsets k 0 + get_or lengths k 0 < limit) × Laid offsets lengths limit k

pub record IsValid (p : StringPool) : Type 0 where
  pub buffer_full : length p.buffer ≡ buffer_size
  pub offsets_full : length p.offsets ≡ max_strings
  pub lengths_full : length p.lengths ≡ max_strings
  pub count_fits : p.count < max_strings
  pub within : p.buffer_offset ≤ buffer_size
  pub laid : Laid p.offsets p.lengths p.buffer_offset p.count

pub Laid-at :
    (offsets lengths : List ℕ) (limit k i : ℕ)
    → Laid offsets lengths limit k
    → i < k
    → get_or offsets i 0 + get_or lengths i 0 < limit
Laid-at offsets lengths limit zero i l h = absurd (omega arith)
Laid-at offsets lengths limit (suc k) i (here, l) h = elim (ℕ_discrete i k) [
  | yes e ↦ rw e here
  | no ne ↦ Laid-at offsets lengths limit k i l (omega arith)
]

Laid-set :
    (offsets lengths : List ℕ) (limit limit' k n o s : ℕ)
    → Laid offsets lengths limit k
    → k ≤ n
    → limit ≤ limit'
    → Laid (set offsets n o) (set lengths n s) limit' k
Laid-set offsets lengths limit limit' zero n o s l h m = tt
Laid-set offsets lengths limit limit' (suc k) n o s (here, l) h m = (
  omega (
    arith,
    get_or-set_ne offsets {i = n} {j = k} o 0 (omega arith),
    get_or-set_ne lengths {i = n} {j = k} s 0 (omega arith),
  ),
  Laid-set offsets lengths limit limit' k n o s l (omega arith) m,
)

module _ (p : StringPool) (str : List ℕ) (v : IsValid p) (short : length str < 256)
    (room : p.count < 255) (fits : p.buffer_offset + length str + 1 ≤ buffer_size) where
  pub entry-append_new : entry (append p str).1 p.count ≡ str
  unfolding append
  entry-append_new =
      rw
        (
          get_or-set_self p.offsets p.count p.buffer_offset 0 (rw v.offsets_full v.count_fits),
          get_or-set_self p.lengths p.count (length str % 256) 0 (rw v.lengths_full v.count_fits),
          mod-eq_of_lt short,
          slice-set_above (blit p.buffer p.buffer_offset str) p.buffer_offset (length str)
              (p.buffer_offset + length str) 0 (le_refl _),
        )
        (slice-blit_self p.buffer p.buffer_offset str (omega (arith, v.buffer_full)))

  pub entry-append_old : (i : ℕ) → i < p.count → entry (append p str).1 i ≡ entry p i
  unfolding append
  entry-append_old i h =
      let l : get_or p.offsets i 0 + get_or p.lengths i 0 < p.buffer_offset =
        Laid-at p.offsets p.lengths p.buffer_offset p.count i v.laid h in
      rw
        (
          get_or-set_ne p.offsets {i = p.count} {j = i} p.buffer_offset 0 (omega arith),
          get_or-set_ne p.lengths {i = p.count} {j = i} (length str % 256) 0 (omega arith),
          slice-set_above (blit p.buffer p.buffer_offset str) (get_or p.offsets i 0)
              (get_or p.lengths i 0) (p.buffer_offset + length str) 0 (omega arith),
        )
        (slice-blit_below p.buffer p.buffer_offset (get_or p.offsets i 0) (get_or p.lengths i 0) str
          (omega arith))

  Laid-append_new :
      get_or (set p.offsets p.count p.buffer_offset) p.count 0
        + get_or (set p.lengths p.count (length str % 256)) p.count 0
      < p.buffer_offset + length str + 1
  Laid-append_new =
      rw
        (
          get_or-set_self p.offsets p.count p.buffer_offset 0 (rw v.offsets_full v.count_fits),
          get_or-set_self p.lengths p.count (length str % 256) 0 (rw v.lengths_full v.count_fits),
        )
        (omega arith)

  Laid-append :
      (limit n : ℕ)
      → limit ≡ p.buffer_offset + length str + 1
      → n ≡ suc p.count
      → Laid
          (set p.offsets p.count p.buffer_offset)
          (set p.lengths p.count (length str % 256))
          limit
          n
  Laid-append limit n el en =
      rw (el, en)
        (
          Laid-append_new,
          Laid-set p.offsets p.lengths p.buffer_offset (p.buffer_offset + length str + 1) p.count
              p.count p.buffer_offset (length str % 256) v.laid (le_refl _) (omega arith),
        )

  pub append-IsValid : IsValid (append p str).1
  unfolding append
  append-IsValid =
      let one : (p.count + 1) % 256 ≡ suc p.count = omega arith in
      let end : (p.buffer_offset + length str + 1) % 2 ^ 16 ≡ p.buffer_offset + length str + 1 =
        omega arith in
      record {
        buffer_full =
            length-set (blit p.buffer p.buffer_offset str) (p.buffer_offset + length str) 0
            ∙ length-blit p.buffer p.buffer_offset str
            ∙ v.buffer_full;
        offsets_full = length-set p.offsets p.count p.buffer_offset ∙ v.offsets_full;
        lengths_full = length-set p.lengths p.count (length str % 256) ∙ v.lengths_full;
        count_fits = omega arith;
        within = omega arith;
        laid = Laid-append _ _ end one;
      }

pub init-IsValid : IsValid init
unfolding init
init-IsValid = record {
  buffer_full = length-replicate {A = ℕ} buffer_size 0;
  offsets_full = length-replicate {A = ℕ} max_strings 0;
  lengths_full = length-replicate {A = ℕ} max_strings 0;
  count_fits = omega arith;
  within = omega arith;
  laid = tt;
}
