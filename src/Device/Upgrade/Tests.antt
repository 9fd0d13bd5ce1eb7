-- ===== src/Device/Upgrade/Tests.antt =====
-- Uploads of three bytes.
use esp_arduino_ebus.Base.{
  ℕ, zero, suc, ◌+◌, ◌%◌, ◌^◌, ◌≡◌, refl, ap, Bool, true, false, List, [], ◌∷◌, none, some, pos,
  arith, length,
}
use esp_arduino_ebus.Device.Upgrade.{
  UpgradeManager, Ota, Received, Round, Effect, Status, progress, write_ota_chunk, after_write,
  turn, receive_all, seal, after_loop, upload_to, handle_upload,
}
use esp_arduino_ebus.Device.Upgrade.Flash.{Flash, replay, Closed}
use esp_arduino_ebus.Device.Upgrade.Download.{
  Http, Read, announced, load_progress, written, read_all, after_reads, perform_http_upgrade,
  answer, handle_http_upgrade,
}
use esp_arduino_ebus.Device.Upgrade.Download.Whole.{IsDownload, handle_http_upgrade-Closed}
use esp_arduino_ebus.Device.Upgrade.Upload.{Sound, handle_upload-Sound}
use esp_arduino_ebus.Device.Upgrade.Ending.{Advances, bound, handle_upload-Returns}

abbrev fresh : UpgradeManager
fresh = record {
  upload_partition = none;
  upload_handle = 0;
  pre_upgrade_hook = true;
  pre_upgrade_done = false;
  upload_bytes_received = 0;
  upload_next_progress_percent = 10;
}

abbrev working : Ota
working = record { next_partition = some 1; begin_handle = some 7; end_ok = true; boot_ok = true }

abbrev bytes : ℕ → List ℕ → ℕ → Round
bytes x xs ms = record { received = Received.got x xs; now_ms = ms; write_ok = true }

-- Two bytes, a pause, and more than the one byte that is left.
abbrev rounds : List Round
rounds =
    bytes 0xE9 (1 ∷ []) 1000
    ∷ record { received = Received.nothing; now_ms = 1500; write_ok = true }
    ∷ bytes 2 (3 ∷ []) 2000
    ∷ []

abbrev outcome : UpgradeManager × List Effect
outcome = (
  record {
    upload_partition = some 1;
    upload_handle = 7;
    pre_upgrade_hook = true;
    pre_upgrade_done = true;
    upload_bytes_received = 3;
    upload_next_progress_percent = 100;
  },
  Effect.hook
      ∷ Effect.begin 1
      ∷ Effect.wrote (0xE9 ∷ 1 ∷ [])
      ∷ Effect.wrote (2 ∷ [])
      ∷ Effect.end
      ∷ Effect.boot 1
      ∷ Effect.reply Status.successful
      ∷ Effect.restart
      ∷ [],
)

uploaded : handle_upload working 3 900 rounds fresh ≡ some outcome
unfolding progress write_ota_chunk after_write turn receive_all seal after_loop upload_to
    handle_upload
uploaded = refl

handle_upload-Sound_example : Sound (some 1) 3 (replay Flash.idle outcome.1)
handle_upload-Sound_example =
    handle_upload-Sound working 3 900 rounds fresh outcome (omega arith) uploaded

-- Rounds in which nothing arrives, a millisecond apart.
waiting : ℕ → ℕ → List Round
waiting now zero = []
waiting now (suc k) =
    record { received = Received.nothing; now_ms = (now + 1) % 2 ^ 32; write_ok = true }
    ∷ waiting (now + 1) k

length-waiting : (now k : ℕ) → length (waiting now k) ≡ k
unfolding waiting
length-waiting now zero = refl
length-waiting now (suc k) = ap suc (length-waiting (now + 1) k)

waiting-Advances : (waited : Bool) (now k : ℕ) → Advances waited now (waiting now k)
unfolding waiting
waiting-Advances waited now zero = tt
waiting-Advances waited now (suc k) =
    (now + 1, refl, ground arith, omega arith, waiting-Advances true (now + 1) k)

handle_upload-Returns_example :
    (r : UpgradeManager × List Effect) × (handle_upload working 3
        (2 ^ 32 % 2 ^ 32)
        (waiting (2 ^ 32) (bound 3))
        fresh
      ≡ some r)
handle_upload-Returns_example =
    handle_upload-Returns working 3 (2 ^ 32) (waiting (2 ^ 32) (bound 3))
      (waiting-Advances false (2 ^ 32) (bound 3)) (omega (arith, length-waiting (2 ^ 32) (bound 3)))
      fresh

-- A server that sends three bytes, and announces them.
abbrev server : Http
server = record {
  init_ok = true;
  open_ok = true;
  status_code = 200;
  content_length = pos 3;
  complete = true;
}

abbrev reads : List Read
reads = Read.got 0xE9 (1 ∷ []) true ∷ Read.got 2 [] true ∷ []

downloaded :
    replay Flash.idle (handle_http_upgrade working server (some (104 ∷ [])) reads fresh).1
    ≡ Flash.restarting 1 (0xE9 ∷ 1 ∷ 2 ∷ [])
unfolding announced load_progress written read_all after_reads perform_http_upgrade answer
    handle_http_upgrade
downloaded = refl

handle_http_upgrade-Closed_example :
    Closed
      (some 1)
      (IsDownload server)
      (replay Flash.idle (handle_http_upgrade working server (some (104 ∷ [])) reads fresh).1)
handle_http_upgrade-Closed_example =
    handle_http_upgrade-Closed working server (some (104 ∷ [])) reads fresh
