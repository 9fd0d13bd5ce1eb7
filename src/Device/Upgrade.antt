-- ===== src/Device/Upgrade.antt =====
-- src/system/upgrade_manager.cpp: a firmware image that is uploaded over HTTP goes to the flash.
pub mod Flash
pub mod Upload
pub mod Ending
pub mod Download
mod Tests
use esp_arduino_ebus.Base.{
  ℕ, zero, suc, ◌+◌, ◌-◌, ◌*◌, ◌/◌, ◌%◌, ◌^◌, min, Bool, true, false, not, ◌&&◌, List, [], ◌∷◌,
  ◌++◌, Option, none, some, ◌==◌, ltb, leb, if◌then◌else◌, length, take, sub32,
}

abbrev pub ota_buffer_size : ℕ
ota_buffer_size = 1024

abbrev pub esp_image_magic : ℕ
esp_image_magic = 0xE9

abbrev pub upload_stall_budget_ms : ℕ
upload_stall_budget_ms = 120000

-- The status line of an answer to the client.
pub data Status : Type 0 where
  length_required bad_request internal_error successful : Status

-- What is done to the flash and the client, in order; a partition is a number. Calls of
-- esp_ota that fail on an open partition are listed too.
pub data Effect : Type 0 where
  hook : Effect
  begin : ℕ → Effect
  wrote : List ℕ → Effect
  write_failed : List ℕ → Effect
  abort : Effect
  end : Effect
  end_failed : Effect
  boot : ℕ → Effect
  boot_failed : ℕ → Effect
  reply : Status → Effect
  restart : Effect

-- `pre_upgrade_hook` tells whether a hook is set.
pub record UpgradeManager : Type 0 where
  pub upload_partition : Option ℕ
  pub upload_handle : ℕ
  pub pre_upgrade_hook : Bool
  pub pre_upgrade_done : Bool
  pub upload_bytes_received : ℕ
  pub upload_next_progress_percent : ℕ

-- What esp_ota answers: the partition of `esp_ota_get_next_update_partition`, the handle of
-- `esp_ota_begin`, if it succeeds, and whether `esp_ota_end` and `esp_ota_set_boot_partition` do.
pub record Ota : Type 0 where
  pub next_partition : Option ℕ
  pub begin_handle : Option ℕ
  pub end_ok : Bool
  pub boot_ok : Bool

-- What waits at the socket when it is read: bytes, nothing (0, EAGAIN, EWOULDBLOCK, EINTR), or
-- another error.
pub data Received : Type 0 where
  got : ℕ → List ℕ → Received
  nothing broken : Received

-- One round of the loop: what waits, the milliseconds that the timer then shows, and whether
-- `esp_ota_write` succeeds if it is called.
pub record Round : Type 0 where
  pub received : Received
  pub now_ms : ℕ
  pub write_ok : Bool

-- `resetUploadState()`.
unfoldable pub reset_upload_state : UpgradeManager → UpgradeManager
reset_upload_state m = record m {
  upload_partition = none;
  upload_handle = 0;
  pre_upgrade_done = false;
  upload_bytes_received = 0;
  upload_next_progress_percent = 10;
}

-- `prepareForUpgrade()`.
unfoldable pub prepare_for_upgrade : UpgradeManager → UpgradeManager × List Effect
prepare_for_upgrade m =
    if not m.pre_upgrade_done && m.pre_upgrade_hook
    then (record m { pre_upgrade_done = true }, hook ∷ [])
    else (m, [])

-- `while (percent >= next && next < 100) next += 10;`, which ends within ten rounds.
unfoldable pub raise_percent : ℕ → ℕ → ℕ → ℕ
raise_percent zero percent next = next
raise_percent (suc k) percent next =
    let rest : ℕ = raise_percent k percent (next + 10) in
    if leb next percent && ltb next 100 then rest else next

-- The conversion to `int` of the low 32 bits of a number, as far as it is above 0; where it is
-- negative this is 0, which the code treats alike (`> 0`, `>=` a positive number).
abbrev pub positive_int : ℕ → ℕ
positive_int n = if ltb (n % 2 ^ 32) (2 ^ 31) then n % 2 ^ 32 else 0

-- The variables of `handleUpload` during its loop; `remaining` is what its `int` is above 0: the loop
-- ends as soon as it is not, and never takes off more than it is.
pub record Transfer : Type 0 where
  pub remaining : ℕ
  pub last_progress_ms : ℕ
  pub checked_magic : Bool
  pub manager : UpgradeManager
  pub effects : List Effect

-- The bookkeeping after a write; a request that gets here has a length above 0.
unfoldable pub progress : ℕ → UpgradeManager → UpgradeManager
unfolding raise_percent
progress content_len m =
    let percent : ℕ = m.upload_bytes_received * 100 % 2 ^ 32 / content_len in
    record m {
      upload_next_progress_percent =
          raise_percent 10 (positive_int percent) m.upload_next_progress_percent;
    }

pub data WriteError : Type 0 where
  no_error invalid_magic ota_write_failed : WriteError

-- `write_ota_chunk(data, len)`.
unfoldable pub write_ota_chunk : ℕ → List ℕ → Bool → Transfer → WriteError × Transfer
write_ota_chunk content_len [] write_ok t = (no_error, t)
write_ota_chunk content_len (x ∷ xs) write_ok t =
    if not t.checked_magic && not (x == esp_image_magic)
    then (invalid_magic, record t { checked_magic = true })
    else let m : UpgradeManager = record t.manager {
      upload_bytes_received = t.manager.upload_bytes_received + length (x ∷ xs);
    } in
      if write_ok
      then (
        no_error,
        record t {
          checked_magic = true;
          manager = progress content_len m;
          effects = t.effects ++ wrote (x ∷ xs) ∷ [];
        },
      )
      else (
        ota_write_failed,
        record t {
          checked_magic = true;
          manager = m;
          effects = t.effects ++ write_failed (x ∷ xs) ∷ [];
        },
      )

-- `abort_upload(status, …)`.
unfoldable pub abort_upload : Status → Transfer → Transfer
abort_upload status t = record t { effects = t.effects ++ abort ∷ reply status ∷ [] }

-- How a round ends: with the loop going on, or with the request answered.
pub data Turn : Type 0 where
  continue : Transfer → Turn
  stop : Transfer → Turn

unfoldable pub after_write : WriteError × Transfer → Turn
after_write (no_error, t) = continue t
after_write (invalid_magic, t) = stop (abort_upload bad_request t)
after_write (ota_write_failed, t) = stop (abort_upload internal_error t)

-- `received` is at most `to_read`: of what waits, the first bytes are read.
unfoldable pub turn : ℕ → Received → ℕ → Bool → Transfer → Turn
turn content_len (got x xs) now_ms write_ok t =
    let chunk : List ℕ = take (min t.remaining ota_buffer_size) (x ∷ xs) in
    after_write (
      write_ota_chunk content_len chunk write_ok
        (record t { remaining = t.remaining - length chunk; last_progress_ms = now_ms }))
turn content_len nothing now_ms write_ok t =
    if ltb (sub32 now_ms t.last_progress_ms) upload_stall_budget_ms
    then continue t
    else stop (abort_upload internal_error t)
turn content_len broken now_ms write_ok t = stop (abort_upload internal_error t)

-- The loop over the rounds: whether the upload is complete, and the variables then; `none` when
-- there are no rounds left.
unfoldable pub receive_all : ℕ → List Round → Transfer → Option (Bool × Transfer)
receive_all content_len [] t = if t.remaining == 0 then some (true, t) else none
receive_all content_len (r ∷ rs) t =
    if t.remaining == 0
    then some (true, t)
    else elim (turn content_len r.received r.now_ms r.write_ok t) [
      | continue t' ↦ receive_all content_len rs t'
      | stop t' ↦ some (false, t')
    ]

-- What follows the loop of a complete upload or download: `successful` also restarts.
unfoldable pub seal : Ota → ℕ → List Effect
seal ota p =
    if not ota.end_ok
    then end_failed ∷ reply internal_error ∷ []
    else if not ota.boot_ok
    then end ∷ boot_failed p ∷ reply internal_error ∷ []
    else end ∷ boot p ∷ reply successful ∷ restart ∷ []

unfoldable pub after_loop :
    Ota → ℕ → Option (Bool × Transfer) → Option (UpgradeManager × List Effect)
after_loop ota p none = none
after_loop ota p (some (true, t)) = some (t.manager, t.effects ++ seal ota p)
after_loop ota p (some (false, t)) = some (t.manager, t.effects)

-- From the call of `esp_ota_begin` on.
unfoldable pub upload_with :
    Ota
    → ℕ
    → Option ℕ
    → ℕ
    → ℕ
    → List Round
    → UpgradeManager
    → List Effect
    → Option (UpgradeManager × List Effect)
upload_with ota p none content_len now_ms rounds m es = some (m, es ++ reply internal_error ∷ [])
upload_with ota p (some handle) content_len now_ms rounds m es = after_loop ota p (
    receive_all content_len rounds (record {
      remaining = positive_int content_len;
      last_progress_ms = now_ms;
      checked_magic = false;
      manager = record m { upload_handle = handle };
      effects = es ++ begin p ∷ [];
    }))

-- From the choice of the partition on.
unfoldable pub upload_to :
    Ota
    → Option ℕ
    → ℕ
    → ℕ
    → List Round
    → UpgradeManager
    → List Effect
    → Option (UpgradeManager × List Effect)
unfolding upload_with
upload_to ota none content_len now_ms rounds m es = some (m, es ++ reply internal_error ∷ [])
upload_to ota (some p) content_len now_ms rounds m es =
    upload_with ota p ota.begin_handle content_len now_ms rounds
      (record m { upload_partition = some p }) es

-- `handleUpload(req)`; `now_ms` is the timer's reading before the loop.
unfoldable pub handle_upload :
    Ota → ℕ → ℕ → List Round → UpgradeManager → Option (UpgradeManager × List Effect)
unfolding reset_upload_state prepare_for_upgrade
handle_upload ota content_len now_ms rounds m =
    let (m', es) = prepare_for_upgrade (reset_upload_state m) in
    if content_len == 0
    then some (m', es ++ reply length_required ∷ [])
    else upload_to ota ota.next_partition content_len now_ms rounds m' es
