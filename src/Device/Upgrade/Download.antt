-- ===== src/Device/Upgrade/Download.antt =====
-- src/system/upgrade_manager.cpp: a firmware image that the device downloads itself.
pub mod Whole
use esp_arduino_ebus.Base.{
  ℕ, zero, suc, ◌+◌, ◌-◌, ◌*◌, ◌/◌, ◌%◌, ◌^◌, Bool, true, false, not, ◌&&◌, List, [], ◌∷◌, ◌++◌,
  Option, ℤ, pos, negsuc, none, some, ◌==◌, ltb, leb, if◌then◌else◌, length, take,
}
use esp_arduino_ebus.Device.Upgrade.{
  UpgradeManager, Ota, Effect, begin, wrote, write_failed, abort, end, end_failed, boot,
  boot_failed, reply, restart, bad_request, internal_error, successful, esp_image_magic,
  ota_buffer_size, raise_percent, prepare_for_upgrade, positive_int,
}

abbrev pub progress_step_bytes : ℕ
progress_step_bytes = 64 * 1024

-- What esp_http_client answers: whether `init` and `open` succeed, the status, the length as its
-- 64-bit number, and whether all data were received.
pub record Http : Type 0 where
  pub init_ok : Bool
  pub open_ok : Bool
  pub status_code : ℕ
  pub content_length : ℤ
  pub complete : Bool

-- `int content_length = esp_http_client_get_content_length(client)`, as far as it is above 0; the low
-- 32 bits of -(n + 1) are those of 2^32 - 1 - n.
unfoldable pub announced : Http → ℕ
announced http = elim http.content_length [
  | pos n ↦ positive_int n
  | negsuc n ↦ positive_int (2 ^ 32 - 1 - n % 2 ^ 32)
]

-- One call of `esp_http_client_read`: the bytes that wait, of which it takes at most a buffer, and
-- whether `esp_ota_write` then succeeds; or an error.
pub data Read : Type 0 where
  got : ℕ → List ℕ → Bool → Read
  broken : Read

-- The variables of the loop.
pub record Load : Type 0 where
  pub total_written : ℕ
  pub checked_magic : Bool
  pub next_progress_percent : ℕ
  pub next_progress_bytes : ℕ
  pub effects : List Effect

-- `while (total_written >= next) next += progress_step_bytes;`, which ends within `total_written + 1`
-- rounds.
unfoldable pub raise_bytes : ℕ → ℕ → ℕ → ℕ
raise_bytes zero total next = next
raise_bytes (suc k) total next =
    let rest : ℕ = raise_bytes k total (next + progress_step_bytes) in
    if leb next total then rest else next

-- The bookkeeping after a write.
unfoldable pub load_progress : ℕ → Load → Load
unfolding raise_bytes
load_progress content_length l =
    if ltb 0 content_length
    then record l {
      next_progress_percent =
          raise_percent 10 (positive_int (l.total_written * 100 % 2 ^ 32 / content_length))
            l.next_progress_percent;
    }
    else record l {
      next_progress_bytes = raise_bytes (l.total_written + 1) l.total_written l.next_progress_bytes;
    }

unfoldable pub written : ℕ → List ℕ → Load → Load
written content_length chunk l = load_progress content_length (record l {
  total_written = (l.total_written + length chunk) % 2 ^ 32;
  checked_magic = true;
  effects = l.effects ++ wrote chunk ∷ [];
})

-- The loop over the reads, of which the end stands for a read of 0 bytes; the answer is `ok`.
unfoldable pub read_all : ℕ → List Read → Load → Bool × Load
read_all content_length [] l = (true, l)
read_all content_length (broken ∷ rs) l = (false, l)
read_all content_length (got x xs write_ok ∷ rs) l =
    let chunk : List ℕ = take ota_buffer_size (x ∷ xs) in
    let rest : Bool × Load = read_all content_length rs (written content_length chunk l) in
    if not l.checked_magic && not (x == esp_image_magic)
    then (false, record l { checked_magic = true })
    else if write_ok
    then rest
    else (false, record l { checked_magic = true; effects = l.effects ++ write_failed chunk ∷ [] })

-- What follows the checks: whether the new partition is the next one to boot.
unfoldable pub close : Ota → ℕ → Bool × List Effect
close ota p =
    if not ota.end_ok
    then (false, end_failed ∷ [])
    else if not ota.boot_ok
    then (false, end ∷ boot_failed p ∷ [])
    else (true, end ∷ boot p ∷ [])

-- The checks after the loop.
unfoldable pub is_whole : Http → Bool × Load → Bool
unfolding announced
is_whole http (ok, l) =
    ok
    && not (ltb 0 (announced http) && not (positive_int l.total_written == announced http))
    && http.complete
    && not (l.total_written == 0)

unfoldable pub after_reads : Ota → Http → ℕ → Bool × Load → Bool × List Effect
unfolding is_whole close
after_reads ota http p (ok, l) =
    if is_whole http (ok, l)
    then ((close ota p).0, l.effects ++ (close ota p).1)
    else (false, l.effects ++ abort ∷ [])

-- From `esp_ota_begin` on.
unfoldable pub download_with :
    Ota → Http → ℕ → Option ℕ → List Read → List Effect → Bool × List Effect
unfolding announced
download_with ota http p none reads es = (false, es)
download_with ota http p (some handle) reads es = after_reads ota http p (
    read_all (announced http) reads (record {
      total_written = 0;
      checked_magic = false;
      next_progress_percent = 10;
      next_progress_bytes = progress_step_bytes;
      effects = es ++ begin p ∷ [];
    }))

-- `performHttpUpgrade(url, error)` after the effects `es`.
unfoldable pub perform_http_upgrade :
    Ota → Http → Option ℕ → List Read → List Effect → Bool × List Effect
unfolding download_with
perform_http_upgrade ota http none reads es = (false, es)
perform_http_upgrade ota http (some p) reads es =
    if not http.init_ok
    then (false, es)
    else if not http.open_ok
    then (false, es)
    else if not (http.status_code == 200)
    then (false, es)
    else download_with ota http p ota.begin_handle reads es

unfoldable pub answer : Bool × List Effect → List Effect
answer (true, es) = es ++ reply successful ∷ restart ∷ []
answer (false, es) = es ++ reply internal_error ∷ []

-- `handleHttpUpgrade(req)`. `url` is what the JSON reader finds in the body: `none` when the body is
-- too large or cannot be read.
unfoldable pub handle_http_upgrade :
    Ota → Http → Option (List ℕ) → List Read → UpgradeManager → UpgradeManager × List Effect
unfolding prepare_for_upgrade
handle_http_upgrade ota http none reads m =
    (record m { pre_upgrade_done = false }, reply bad_request ∷ [])
handle_http_upgrade ota http (some []) reads m =
    (record m { pre_upgrade_done = false }, reply bad_request ∷ [])
handle_http_upgrade ota http (some (x ∷ xs)) reads m =
    let (m', es) = prepare_for_upgrade (record m { pre_upgrade_done = false }) in
    (m', answer (perform_http_upgrade ota http ota.next_partition reads es))
