-- ===== src/Base/Bytes.antt =====
-- Buffers of bytes: parts of a buffer, writes into it, and the comparison of two texts.
use Prim.Native.Nat.{ℕ, zero, suc, ◌+◌, ◌≤◌}
use mathlib.Core.Path.{◌≡◌, refl, ap}
use mathlib.Core.Bool.{Bool, true, false, ◌&&◌}
use mathlib.Core.List.{List, [], ◌∷◌, ◌++◌}
use native.Mathlib.Omega.{arith}
use esp_arduino_ebus.Base.Tests.{◌==◌}
use esp_arduino_ebus.Base.Lists.{length, take, set}

-- `std::string_view` comparison.
abbrev pub bytes_eq : List ℕ → List ℕ → Bool
bytes_eq [] [] = true
bytes_eq (x ∷ xs) (y ∷ ys) = x == y && bytes_eq xs ys
bytes_eq _ _ = false

pub bytes_eq→eq : (xs ys : List ℕ) → bytes_eq xs ys ≡ true → xs ≡ ys
bytes_eq→eq [] [] h = refl
bytes_eq→eq [] (y ∷ ys) h = cc
bytes_eq→eq (x ∷ xs) [] h = cc
bytes_eq→eq (x ∷ xs) (y ∷ ys) h = ground (arith, bytes_eq→eq xs ys)

pub bytes_eq_refl : (xs : List ℕ) → bytes_eq xs xs ≡ true
bytes_eq_refl [] = refl
bytes_eq_refl (x ∷ xs) = ground (arith, bytes_eq_refl xs)

pub bytes_eq_sym : (xs ys : List ℕ) → bytes_eq xs ys ≡ bytes_eq ys xs
bytes_eq_sym [] [] = refl
bytes_eq_sym [] (y ∷ ys) = refl
bytes_eq_sym (x ∷ xs) [] = refl
bytes_eq_sym (x ∷ xs) (y ∷ ys) = ground (arith, bytes_eq_sym xs ys)

-- The `n` bytes from `off` on.
unfoldable pub slice : List ℕ → ℕ → ℕ → List ℕ
slice buf zero n = take n buf
slice [] (suc off) n = []
slice (x ∷ buf) (suc off) n = slice buf off n

unfoldable pub overwrite : List ℕ → List ℕ → List ℕ
overwrite buf [] = buf
overwrite [] (y ∷ s) = []
overwrite (x ∷ buf) (y ∷ s) = y ∷ overwrite buf s

-- `memcpy(buf + off, s, …)`, which stays inside the buffer.
unfoldable pub blit : List ℕ → ℕ → List ℕ → List ℕ
unfolding overwrite
blit buf zero s = overwrite buf s
blit [] (suc off) s = []
blit (x ∷ buf) (suc off) s = x ∷ blit buf off s

length-overwrite : (buf s : List ℕ) → length (overwrite buf s) ≡ length buf
unfolding overwrite
length-overwrite buf [] = refl
length-overwrite [] (y ∷ s) = refl
length-overwrite (x ∷ buf) (y ∷ s) = ap suc (length-overwrite buf s)

pub length-blit : (buf : List ℕ) (off : ℕ) (s : List ℕ) → length (blit buf off s) ≡ length buf
unfolding blit
length-blit buf zero s = length-overwrite buf s
length-blit [] (suc off) s = refl
length-blit (x ∷ buf) (suc off) s = ap suc (length-blit buf off s)

take-overwrite : (buf s : List ℕ) → length s ≤ length buf → take (length s) (overwrite buf s) ≡ s
unfolding overwrite
take-overwrite buf [] h = refl
take-overwrite [] (y ∷ s) h = absurd (omega arith)
take-overwrite (x ∷ buf) (y ∷ s) h = ap (◌∷◌ y) (take-overwrite buf s (omega arith))

pub slice-blit_self :
    (buf : List ℕ) (off : ℕ) (s : List ℕ)
    → off + length s ≤ length buf
    → slice (blit buf off s) off (length s) ≡ s
unfolding slice blit
slice-blit_self buf zero s h = take-overwrite buf s (omega arith)
slice-blit_self [] (suc off) s h = absurd (omega arith)
slice-blit_self (x ∷ buf) (suc off) s h = slice-blit_self buf off s (omega arith)

take-blit : (buf : List ℕ) (off n : ℕ) (s : List ℕ) → n ≤ off → take n (blit buf off s) ≡ take n buf
unfolding blit
take-blit buf off zero s h = refl
take-blit buf zero (suc n) s h = absurd (omega arith)
take-blit [] (suc off) (suc n) s h = refl
take-blit (x ∷ buf) (suc off) (suc n) s h = ap (◌∷◌ x) (take-blit buf off n s (omega arith))

pub slice-blit_below :
    (buf : List ℕ) (off o n : ℕ) (s : List ℕ)
    → o + n ≤ off
    → slice (blit buf off s) o n ≡ slice buf o n
unfolding slice blit
slice-blit_below buf off zero n s h = take-blit buf off n s (omega arith)
slice-blit_below buf zero (suc o) n s h = absurd (omega arith)
slice-blit_below [] (suc off) (suc o) n s h = refl
slice-blit_below (x ∷ buf) (suc off) (suc o) n s h = slice-blit_below buf off o n s (omega arith)

take-set_above : (buf : List ℕ) (n i v : ℕ) → n ≤ i → take n (set buf i v) ≡ take n buf
take-set_above buf zero i v h = refl
take-set_above [] (suc n) i v h = refl
take-set_above (x ∷ buf) (suc n) zero v h = absurd (omega arith)
take-set_above (x ∷ buf) (suc n) (suc i) v h = ap (◌∷◌ x) (take-set_above buf n i v (omega arith))

pub slice-set_above :
    (buf : List ℕ) (o n i v : ℕ) → o + n ≤ i → slice (set buf i v) o n ≡ slice buf o n
unfolding slice
slice-set_above buf zero n i v h = take-set_above buf n i v (omega arith)
slice-set_above [] (suc o) n i v h = refl
slice-set_above (x ∷ buf) (suc o) n zero v h = absurd (omega arith)
slice-set_above (x ∷ buf) (suc o) n (suc i) v h = slice-set_above buf o n i v (omega arith)

-- Everything up to the end of a write: what stood before it, and what was written.
pub take-blit_end :
    (buf : List ℕ) (off n : ℕ) (s : List ℕ)
    → off + length s ≤ length buf
    → n ≡ off + length s
    → take n (blit buf off s) ≡ take off buf ++ s
unfolding blit
take-blit_end buf zero n s h e =
    let k : n ≡ length s = omega arith in rw k (take-overwrite buf s (omega arith))
take-blit_end [] (suc off) n s h e = absurd (omega arith)
take-blit_end (x ∷ buf) (suc off) zero s h e = absurd (omega arith)
take-blit_end (x ∷ buf) (suc off) (suc n) s h e =
    ap (◌∷◌ x) (take-blit_end buf off n s (omega arith) (omega arith))
