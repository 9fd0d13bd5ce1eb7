-- ===== src/Device/Upgrade/Upload.antt =====
-- src/system/upgrade_manager.cpp: the flash after handleUpload.
use mathlib.Core.Path.{subst}
use esp_arduino_ebus.Base.{
  ℕ, ◌+◌, ◌-◌, ◌≤◌, ◌<◌, ◌^◌, ◌≡◌, ◌≢◌, inl, inr, refl, min, Bool, true, false, not, ◌&&◌, List, [],
  ◌∷◌, ◌++◌, Option, none, some, arith, ◌==◌, ltb, if◌then◌else◌, Bool-cases, sub32, length,
  length-append, take, length-take,
}
use esp_arduino_ebus.Device.Upgrade.{
  UpgradeManager, Ota, Received, got, nothing, broken, Round, Transfer, Turn, continue, stop,
  Effect, begin, wrote, write_failed, abort, reply, length_required, bad_request, internal_error,
  progress, write_ota_chunk, no_error, ota_write_failed, after_write, abort_upload, turn,
  receive_all, seal, after_loop, upload_with, upload_to, handle_upload, esp_image_magic,
  upload_stall_budget_ms, ota_buffer_size, reset_upload_state, prepare_for_upgrade,
}
use esp_arduino_ebus.Device.Upgrade.Flash.{
  Flash, idle, writing, replay, replay_snoc, Checked, Checked-append, Checked-some, Closed,
}

-- The loop with `bs` written to partition `p`, for a request of `content_len` bytes.
pub record Loading (content_len p : ℕ) (t : Transfer) (bs : List ℕ) : Type 0 where
  pub state : replay idle t.effects ≡ writing p bs
  pub count : length bs + t.remaining ≡ content_len
  pub checked : Checked t.checked_magic bs
  pub counted : t.manager.upload_bytes_received ≡ length bs

abbrev Goes : ℕ → ℕ → Turn → Type 0
Goes content_len p (continue t) = (bs : List ℕ) × Loading content_len p t bs
Goes content_len p (stop t) = replay idle t.effects ≡ idle

progress-bytes :
    (n : ℕ) (m : UpgradeManager) → (progress n m).upload_bytes_received ≡ m.upload_bytes_received
unfolding progress
progress-bytes n m = refl

module _ (content_len p : ℕ) where
  -- A write of the bytes that were read; `remaining` is already less by their number.
  write-Goes :
      (chunk : List ℕ) (ok : Bool) (t : Transfer) (bs : List ℕ)
      → Loading (content_len - length chunk) p t bs
      → length chunk ≤ content_len
      → Goes content_len p (after_write (write_ota_chunk content_len chunk ok t))
  unfolding write_ota_chunk after_write abort_upload
  write-Goes [] ok t bs l h = (
    bs,
    record {
      state = l.state;
      count = omega (arith, l.count);
      checked = l.checked;
      counted = l.counted;
    },
  )
  write-Goes (c ∷ cs) ok t bs l h =
      elim (Bool-cases (not t.checked_magic && not (c == esp_image_magic))) [
        | inl wrong ↦ rw wrong (replay_snoc t.effects (abort ∷ reply bad_request ∷ []) l.state)
        | inr fine ↦ rw fine (fine_write ok fine)
      ]
    where
      m : UpgradeManager
      m = record t.manager {
        upload_bytes_received = t.manager.upload_bytes_received + length (c ∷ cs);
      }

      fine_write :
          (b : Bool)
          → (not t.checked_magic && not (c == esp_image_magic)) ≡ false
          → Goes content_len p (
              after_write (
                if b
                then (
                  no_error,
                  record t {
                    checked_magic = true;
                    manager = progress content_len m;
                    effects = t.effects ++ wrote (c ∷ cs) ∷ [];
                  },
                )
                else (
                  ota_write_failed,
                  record t {
                    checked_magic = true;
                    manager = m;
                    effects = t.effects ++ write_failed (c ∷ cs) ∷ [];
                  },
                )))
      fine_write true fine = (
        bs ++ c ∷ cs,
        record {
          state = replay_snoc t.effects (wrote (c ∷ cs) ∷ []) l.state;
          count = omega (arith, l.count, length-append bs (c ∷ cs));
          checked = Checked-append t.checked_magic bs c cs l.checked fine;
          counted =
              omega (arith, progress-bytes content_len m, l.counted, length-append bs (c ∷ cs));
        },
      )
      fine_write false fine =
          replay_snoc (t.effects ++ write_failed (c ∷ cs) ∷ []) (abort ∷ reply internal_error ∷ [])
            (replay_snoc t.effects (write_failed (c ∷ cs) ∷ []) l.state)

  turn-Goes :
      (r : Received) (now_ms : ℕ) (ok : Bool) (t : Transfer) (bs : List ℕ)
      → Loading content_len p t bs
      → t.remaining ≢ 0
      → Goes content_len p (turn content_len r now_ms ok t)
  unfolding turn abort_upload
  turn-Goes (got x xs) now_ms ok t bs l more =
      let chunk : List ℕ = take (min t.remaining ota_buffer_size) (x ∷ xs) in
      let short : length chunk ≤ t.remaining =
        omega (arith, length-take (min t.remaining ota_buffer_size) (x ∷ xs)) in
      write-Goes chunk ok
        (record t { remaining = t.remaining - length chunk; last_progress_ms = now_ms }) bs
        (record {
          state = l.state;
          count = omega (arith, l.count);
          checked = l.checked;
          counted = l.counted;
        })
        (omega (arith, l.count))
  turn-Goes nothing now_ms ok t bs l more =
      elim (Bool-cases (ltb (sub32 now_ms t.last_progress_ms) upload_stall_budget_ms)) [
        | inl early ↦ rw early (bs, l)
        | inr late ↦ rw late (replay_snoc t.effects (abort ∷ reply internal_error ∷ []) l.state)
      ]
  turn-Goes broken now_ms ok t bs l more =
      replay_snoc t.effects (abort ∷ reply internal_error ∷ []) l.state

  -- What the loop leaves, if it ends.
  abbrev Done : Option (Bool × Transfer) → Type 0
  Done none = Unit {0}
  Done (some (true, t)) = (bs : List ℕ) × Loading content_len p t bs × (t.remaining ≡ 0)
  Done (some (false, t)) = replay idle t.effects ≡ idle

  Goes-Done :
      (x : Turn) (rest : Transfer → Option (Bool × Transfer))
      → Goes content_len p x
      → ((t : Transfer) (bs : List ℕ) → Loading content_len p t bs → Done (rest t))
      → Done (elim x [ continue t ↦ rest t | stop t ↦ some (false, t) ])
  Goes-Done (continue t) rest (bs, l) next = next t bs l
  Goes-Done (stop t) rest e next = e

  receive_all-Done :
      (rs : List Round) (t : Transfer) (bs : List ℕ)
      → Loading content_len p t bs
      → Done (receive_all content_len rs t)
  unfolding receive_all
  receive_all-Done [] t bs l = elim (Bool-cases (t.remaining == 0)) [
    | inl z ↦ rw z (bs, l, ground arith)
    | inr z ↦ rw z tt
  ]
  receive_all-Done (r ∷ rs) t bs l = elim (Bool-cases (t.remaining == 0)) [
    | inl z ↦ rw z (bs, l, ground arith)
    | inr z ↦ rw z (
        Goes-Done (turn content_len r.received r.now_ms r.write_ok t) (receive_all content_len rs)
          (turn-Goes r.received r.now_ms r.write_ok t bs l (ground arith)) (receive_all-Done rs))
  ]

-- A whole image: as many bytes as were announced, the first of them the magic byte.
abbrev pub IsImage : ℕ → List ℕ → Type 0
IsImage content_len bs = (length bs ≡ content_len) × Checked true bs

abbrev pub Sound : Option ℕ → ℕ → Flash → Type 0
Sound next content_len s = Closed next (IsImage content_len) s

abbrev SoundIf : Option ℕ → ℕ → Option (UpgradeManager × List Effect) → Type 0
SoundIf next content_len none = Unit {0}
SoundIf next content_len (some (m, es)) = Sound next content_len (replay idle es)

Sound_from :
    (next : Option ℕ) (content_len : ℕ) (es fs : List Effect) (s : Flash)
    → replay idle es ≡ s
    → Sound next content_len (replay s fs)
    → Sound next content_len (replay idle (es ++ fs))
Sound_from next content_len es fs s e h = rw (replay_snoc es fs e) h

seal-Sound :
    (ota : Ota) (next : Option ℕ) (content_len p : ℕ) (bs : List ℕ)
    → next ≡ some p
    → IsImage content_len bs
    → Sound next content_len (replay (writing p bs) (seal ota p))
unfolding seal
seal-Sound ota next content_len p bs e i = elim (Bool-cases ota.end_ok) [
  | inl done ↦ elim (Bool-cases ota.boot_ok) [
    | inl booted ↦ rw (done, booted) (let same : (p == p) ≡ true = ground arith in rw same (e, i))
    | inr refused ↦ rw (done, refused) (e, i)
  ]
  | inr failed ↦ rw failed tt
]

Loading-IsImage :
    (content_len p : ℕ) (t : Transfer) (bs : List ℕ)
    → Loading content_len p t bs
    → t.remaining ≡ 0
    → content_len ≢ 0
    → IsImage content_len bs
Loading-IsImage content_len p t bs l z n =
    (omega (arith, l.count), Checked-some t.checked_magic bs l.checked (omega (arith, l.count)))

after_loop-Sound :
    (ota : Ota) (next : Option ℕ) (content_len p : ℕ) (o : Option (Bool × Transfer))
    → next ≡ some p
    → content_len ≢ 0
    → Done content_len p o
    → SoundIf next content_len (after_loop ota p o)
unfolding after_loop
after_loop-Sound ota next content_len p none e n d = tt
after_loop-Sound ota next content_len p (some (true, t)) e n (bs, l, z) =
    Sound_from next content_len t.effects (seal ota p) (writing p bs) l.state
      (seal-Sound ota next content_len p bs e (Loading-IsImage content_len p t bs l z n))
after_loop-Sound ota next content_len p (some (false, t)) e n d = rw d tt

module _ (ota : Ota) (content_len now_ms : ℕ) (rounds : List Round) (some_bytes : content_len ≢ 0)
    (in_int : content_len < 2 ^ 31) where
  upload_with-Sound :
      (p : ℕ) (h : Option ℕ) (m : UpgradeManager) (es : List Effect)
      → ota.next_partition ≡ some p
      → replay idle es ≡ idle
      → m.upload_bytes_received ≡ 0
      → SoundIf ota.next_partition content_len (upload_with ota p h content_len now_ms rounds m es)
  unfolding upload_with
  upload_with-Sound p none m es e i z = rw (replay_snoc es (reply internal_error ∷ []) i) tt
  upload_with-Sound p (some h) m es e i z =
      after_loop-Sound ota ota.next_partition content_len p _ e some_bytes (
        receive_all-Done content_len p rounds _ [] (record {
          state = replay_snoc es (begin p ∷ []) i;
          count = grind arith;
          checked = tt;
          counted = z;
        }))

  upload_to-Sound :
      (next : Option ℕ) (m : UpgradeManager) (es : List Effect)
      → ota.next_partition ≡ next
      → replay idle es ≡ idle
      → m.upload_bytes_received ≡ 0
      → SoundIf ota.next_partition content_len (upload_to ota next content_len now_ms rounds m es)
  unfolding upload_to
  upload_to-Sound none m es e i z = rw (replay_snoc es (reply internal_error ∷ []) i) tt
  upload_to-Sound (some p) m es e i z =
      upload_with-Sound p ota.begin_handle (record m { upload_partition = some p }) es e i z

prepared :
    (m : UpgradeManager)
    → let r = prepare_for_upgrade (reset_upload_state m) in
      (replay idle r.1 ≡ idle) × (r.0.upload_bytes_received ≡ 0)
unfolding prepare_for_upgrade reset_upload_state
prepared m = elim (Bool-cases m.pre_upgrade_hook) [
  | inl some_hook ↦ rw some_hook (refl, refl)
  | inr no_hook ↦ rw no_hook (refl, refl)
]

handle_upload-SoundIf :
    (ota : Ota) (content_len now_ms : ℕ) (rounds : List Round) (m : UpgradeManager)
    → content_len < 2 ^ 31
    → SoundIf ota.next_partition content_len (handle_upload ota content_len now_ms rounds m)
unfolding handle_upload
handle_upload-SoundIf ota content_len now_ms rounds m in_int =
    let (i, z) = prepared m in
    elim (Bool-cases (content_len == 0)) [
      | inl none_sent ↦ rw none_sent (
          rw
            (replay_snoc (prepare_for_upgrade (reset_upload_state m)).1 (reply length_required ∷ [])
              i)
            tt)
      | inr some_sent ↦ rw some_sent (
          upload_to-Sound ota content_len now_ms rounds (ground arith) in_int ota.next_partition _ _
            refl i z)
    ]

-- When `handleUpload` returns and fewer than 2^31 bytes were announced, esp_ota was called in order and nothing is left open. A partition is
-- made the next one to boot, success answered and the device restarted only when it is the one that
-- esp_ota chose and holds as many bytes as were announced, the first of them the magic byte.
pub handle_upload-Sound :
    (ota : Ota) (content_len now_ms : ℕ) (rounds : List Round) (m : UpgradeManager)
    (r : UpgradeManager × List Effect)
    → content_len < 2 ^ 31
    → handle_upload ota content_len now_ms rounds m ≡ some r
    → Sound ota.next_partition content_len (replay idle r.1)
handle_upload-Sound ota content_len now_ms rounds m r in_int h =
    subst (SoundIf ota.next_partition content_len) h
      (handle_upload-SoundIf ota content_len now_ms rounds m in_int)
