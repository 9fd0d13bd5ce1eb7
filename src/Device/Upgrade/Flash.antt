-- ===== src/Device/Upgrade/Flash.antt =====
-- What a sequence of effects leaves in the flash: the order in which esp_ota has to be called.
use esp_arduino_ebus.Base.{
  ℕ, ◌≡◌, ◌≢◌, refl, ap, ◌∙◌, Bool, true, false, not, ◌&&◌, Option, some, List, [], ◌∷◌, ◌++◌, ◌==◌,
  if◌then◌else◌, length, arith,
}
use esp_arduino_ebus.Device.Upgrade.{
  Effect, Status, hook, begin, wrote, write_failed, abort, end, end_failed, boot, boot_failed,
  reply, restart, successful, esp_image_magic,
}

-- A partition that is being written, or that is closed, holds the bytes written so far; `spoilt` is
-- one whose last write failed. `fault` is a call out of order, a partition left open or an answer
-- that is not true.
pub data Flash : Type 0 where
  idle : Flash
  writing : ℕ → List ℕ → Flash
  spoilt : Flash
  sealed : ℕ → List ℕ → Flash
  bootable : ℕ → List ℕ → Flash
  restarting : ℕ → List ℕ → Flash
  fault : Flash

abbrev pub after_reply : Flash → Status → Flash
after_reply (bootable p bs) successful = bootable p bs
after_reply s successful = fault
after_reply idle _ = idle
after_reply (sealed p bs) _ = sealed p bs
after_reply _ _ = fault

abbrev pub step : Flash → Effect → Flash
step idle hook = idle
step idle (begin p) = writing p []
step (writing p bs) (wrote c) = writing p (bs ++ c)
step (writing p bs) (write_failed c) = spoilt
step (writing p bs) abort = idle
step (writing p bs) end = sealed p bs
step (writing p bs) end_failed = idle
step spoilt abort = idle
step (sealed p bs) (boot q) = if p == q then bootable p bs else fault
step (sealed p bs) (boot_failed q) = sealed p bs
step (bootable p bs) restart = restarting p bs
step s (reply r) = after_reply s r
step _ _ = fault

abbrev pub replay : Flash → List Effect → Flash
replay s [] = s
replay s (e ∷ es) = replay (step s e) es

pub replay-append :
    (s : Flash) (es fs : List Effect) → replay s (es ++ fs) ≡ replay (replay s es) fs
replay-append s [] fs = refl
replay-append s (e ∷ es) fs = replay-append (step s e) es fs

-- The first byte was checked as soon as bytes were written, and not before.
abbrev pub Checked : Bool → List ℕ → Type 0
Checked true (x ∷ xs) = x ≡ esp_image_magic
Checked false [] = Unit {0}
Checked _ _ = ⊥

pub Checked-append :
    (b : Bool) (bs : List ℕ) (c : ℕ) (cs : List ℕ)
    → Checked b bs
    → (not b && not (c == esp_image_magic)) ≡ false
    → Checked true (bs ++ c ∷ cs)
Checked-append true [] c cs k e = absurd k
Checked-append true (x ∷ xs) c cs k e = k
Checked-append false [] c cs k e = ground arith
Checked-append false (x ∷ xs) c cs k e = absurd k

pub Checked-some : (b : Bool) (bs : List ℕ) → Checked b bs → length bs ≢ 0 → Checked true bs
Checked-some true bs k n = k
Checked-some false [] k n = absurd (n refl)
Checked-some false (x ∷ xs) k n = absurd k

pub replay_snoc :
    (es fs : List Effect) {s : Flash} → replay idle es ≡ s → replay idle (es ++ fs) ≡ replay s fs
replay_snoc es fs e = replay-append idle es fs ∙ ap (λ s. replay s fs) e

-- The flash between upgrades: nothing open, and a partition that was closed or made the next one to
-- boot is the one that was to be written and holds bytes with the property `P`.
abbrev pub Closed : Option ℕ → (List ℕ → Type 0) → Flash → Type 0
Closed next P idle = Unit {0}
Closed next P (sealed p bs) = (next ≡ some p) × P bs
Closed next P (restarting p bs) = (next ≡ some p) × P bs
Closed _ _ _ = ⊥
