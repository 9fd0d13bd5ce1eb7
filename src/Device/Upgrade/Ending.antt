-- ===== src/Device/Upgrade/Ending.antt =====
-- src/system/upgrade_manager.cpp: how many rounds the loop of handleUpload makes.
use esp_arduino_ebus.Base.{
  ℕ, suc, ◌+◌, ◌-◌, ◌*◌, ◌%◌, ◌^◌, ◌≤◌, ◌<◌, ◌≡◌, ◌≢◌, inl, inr, refl, ◌∙◌, min, Bool, true, false,
  List, [], ◌∷◌, Option, none, some, arith, ◌==◌, ltb, ltb→lt, Bool-cases, sub32, Returns, length,
  take, length-take,
}
use esp_arduino_ebus.Device.Upgrade.{
  UpgradeManager, Ota, Received, got, nothing, broken, Round, Transfer, Turn, continue, stop,
  Effect, WriteError, write_ota_chunk, after_write, turn, receive_all, after_loop, upload_with,
  upload_to, handle_upload, upload_stall_budget_ms, ota_buffer_size, no_error, invalid_magic,
  ota_write_failed,
}

abbrev pub to_nat : Bool → ℕ
to_nat true = 1
to_nat false = 0

to_nat_le : (b : Bool) → to_nat b ≤ 1
to_nat_le true = omega arith
to_nat_le false = omega arith

abbrev is_nothing : Received → Bool
is_nothing nothing = true
is_nothing _ = false

-- The timer of the rounds: each reading is the low 32 bits of a time in milliseconds that is not before
-- the last one, by less than 2^31. After a round in which nothing was received the code waits for
-- 100 ms, so that the time is later.
abbrev pub Advances : Bool → ℕ → List Round → Type 0
Advances waited since [] = Unit {0}
Advances waited since (r ∷ rs) =
    (now : ℕ) × (r.now_ms ≡ now % 2 ^ 32)
    × (since + to_nat waited ≤ now)
    × (now < since + 2 ^ 31)
    × Advances (is_nothing r.received) now rs

-- Rounds that are enough: for each byte a full stall, and two more.
abbrev pub bound : ℕ → ℕ
bound content_len = content_len * 120002 + 120001

-- Rounds left to make at most, from the bytes left, the time of the last byte and the present time. A
-- round that was not waited for may not see the timer move.
abbrev budget : Bool → ℕ → ℕ → ℕ → ℕ
budget waited remaining last now = remaining * 120002 + (last + 120001 - now) - to_nat waited

-- `last` is the time that `last_progress_ms` stands for.
abbrev IsTimed : Transfer → ℕ → ℕ → Type 0
IsTimed t last now = (t.last_progress_ms ≡ last % 2 ^ 32) × (last ≤ now) × (now < last + 120000)

abbrev Shrinks : Bool → ℕ → ℕ → Turn → Type 0
Shrinks waited old now (stop t) = Unit {0}
Shrinks waited old now (continue t) =
    (last : ℕ) × IsTimed t last now × (budget waited t.remaining last now < old)

write-remaining :
    (n : ℕ) (chunk : List ℕ) (ok : Bool) (t : Transfer)
    → let r = write_ota_chunk n chunk ok t in
      (r.1.remaining ≡ t.remaining) × (r.1.last_progress_ms ≡ t.last_progress_ms)
unfolding write_ota_chunk
write-remaining n [] ok t = (refl, refl)
write-remaining n (c ∷ cs) ok t = ground arith

after_write-Shrinks :
    (w : WriteError × Transfer) (old now : ℕ)
    → w.1.last_progress_ms ≡ now % 2 ^ 32
    → w.1.remaining * 120002 + 120001 < old
    → Shrinks false old now (after_write w)
unfolding after_write
after_write-Shrinks (no_error, t) old now e h = (now, (e, omega arith, omega arith), omega arith)
after_write-Shrinks (invalid_magic, t) old now e h = tt
after_write-Shrinks (ota_write_failed, t) old now e h = tt

turn-Shrinks :
    (n : ℕ) (r : Received) (ms : ℕ) (ok : Bool) (t : Transfer) (last since now : ℕ) (waited : Bool)
    → IsTimed t last since
    → ms ≡ now % 2 ^ 32
    → since + to_nat waited ≤ now
    → now < since + 2 ^ 31
    → t.remaining ≢ 0
    → Shrinks (is_nothing r) (budget waited t.remaining last since) now (turn n r ms ok t)
unfolding turn
turn-Shrinks n (got x xs) ms ok t last since now waited (l, lo, hi) e later soon more =
    let chunk : List ℕ = take (min t.remaining ota_buffer_size) (x ∷ xs) in
    let size : length chunk ≡ min (min t.remaining ota_buffer_size) (suc (length xs)) =
      length-take (min t.remaining ota_buffer_size) (x ∷ xs) in
    let t' : Transfer = record t {
      remaining = t.remaining - length chunk;
      last_progress_ms = ms;
    } in
    let (rem, read) = write-remaining n chunk ok t' in
    after_write-Shrinks (write_ota_chunk n chunk ok t') (budget waited t.remaining last since) now
      (read ∙ e) (omega (arith, rem, size, to_nat_le waited))
turn-Shrinks n nothing ms ok t last since now waited (l, lo, hi) e later soon more =
    elim (Bool-cases (ltb (sub32 ms t.last_progress_ms) upload_stall_budget_ms)) [
      | inl early ↦ rw early (
          let gap : (ms % 2 ^ 32 + 2 ^ 32 - t.last_progress_ms) % 2 ^ 32 < 120000 =
            ltb→lt _ _ early in
          let d : now < last + 120000 = omega (arith, gap) in
          (last, (l, omega arith, d), omega (arith, d)))
      | inr late ↦ rw late tt
    ]
turn-Shrinks n broken ms ok t last since now waited (l, lo, hi) e later soon more = tt

Shrinks-Returns :
    (x : Turn) (rest : Transfer → Option (Bool × Transfer)) (waited : Bool) (old now : ℕ)
    → Shrinks waited old now x
    → ((t : Transfer) (last : ℕ)
        → IsTimed t last now
        → budget waited t.remaining last now < old
        → Returns (rest t))
    → Returns (elim x [ continue t ↦ rest t | stop t ↦ some (false, t) ])
Shrinks-Returns (continue t) rest waited old now (last, timed, less) ih = ih t last timed less
Shrinks-Returns (stop t) rest waited old now s ih = ((false, t), refl)

receive_all-Returns :
    (n : ℕ) (rs : List Round) (t : Transfer) (last since : ℕ) (waited : Bool)
    → IsTimed t last since
    → Advances waited since rs
    → budget waited t.remaining last since ≤ length rs
    → Returns (receive_all n rs t)
unfolding receive_all
receive_all-Returns n [] t last since waited (l, lo, hi) a h =
    let z : (t.remaining == 0) ≡ true = ground arith in ((true, t), rw z refl)
receive_all-Returns n (r ∷ rs) t last since waited timed (now, e, later, soon, a) h =
    elim (Bool-cases (t.remaining == 0)) [
      | inl z ↦ ((true, t), rw z refl)
      | inr z ↦ rw z (
          Shrinks-Returns (turn n r.received r.now_ms r.write_ok t) (receive_all n rs)
            (is_nothing r.received) (budget waited t.remaining last since) now
            (turn-Shrinks n r.received r.now_ms r.write_ok t last since now waited timed e later
              soon (ground arith))
            (λ t' last' timed' less.
              receive_all-Returns n rs t' last' now (is_nothing r.received) timed' a (omega arith)))
    ]

after_loop-Returns :
    (ota : Ota) (p : ℕ) (o : Option (Bool × Transfer)) → Returns o → Returns (after_loop ota p o)
unfolding after_loop
after_loop-Returns ota p none (a, e) = absurd (ground arith)
after_loop-Returns ota p (some (true, t)) h = (_, refl)
after_loop-Returns ota p (some (false, t)) h = (_, refl)

module _ (ota : Ota) (content_len now : ℕ) (rounds : List Round) (a : Advances false now rounds)
    (enough : bound content_len ≤ length rounds) where
  upload_with-Returns :
      (p : ℕ) (handle : Option ℕ) (m : UpgradeManager) (es : List Effect)
      → Returns (upload_with ota p handle content_len (now % 2 ^ 32) rounds m es)
  unfolding upload_with
  upload_with-Returns p none m es = (_, refl)
  upload_with-Returns p (some handle) m es = after_loop-Returns ota p _ (
      receive_all-Returns content_len rounds _ now now false (refl, omega arith, omega arith) a
        (grind arith))

  upload_to-Returns :
      (next : Option ℕ) (m : UpgradeManager) (es : List Effect)
      → Returns (upload_to ota next content_len (now % 2 ^ 32) rounds m es)
  unfolding upload_to
  upload_to-Returns none m es = (_, refl)
  upload_to-Returns (some p) m es =
      upload_with-Returns p ota.begin_handle (record m { upload_partition = some p }) es

  -- `handleUpload` returns, whatever arrives and whatever esp_ota answers, within 120002 rounds for
  -- each byte announced and 120001 more, if the timer does not go back and moves on in the 100 ms that
  -- follow a round in which nothing was received.
  pub handle_upload-Returns :
      (m : UpgradeManager)
      → (r : UpgradeManager × List Effect) × (handle_upload ota content_len (now % 2 ^ 32) rounds m
          ≡ some r)
  unfolding handle_upload
  handle_upload-Returns m = elim (Bool-cases (content_len == 0)) [
    | inl none_sent ↦ rw none_sent (_, refl)
    | inr some_sent ↦ rw some_sent (upload_to-Returns ota.next_partition _ _)
  ]
