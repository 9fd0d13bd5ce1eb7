-- ===== src/Device/Upgrade/Download/Whole.antt =====
-- src/system/upgrade_manager.cpp: the flash after handleHttpUpgrade.
use esp_arduino_ebus.Base.{
  ℕ, ◌+◌, ◌%◌, ◌^◌, ◌≡◌, ◌≢◌, ◌⊎◌, inl, inr, refl, ◌∙◌, ap, Bool, true, false, not, ◌&&◌, ltb, List,
  [], ◌∷◌, ◌++◌, Option, none, some, arith, ◌==◌, if◌then◌else◌, Bool-cases, length, length-append,
  take,
}
use esp_arduino_ebus.Device.Upgrade.{
  UpgradeManager, Ota, Effect, begin, wrote, write_failed, abort, end, end_failed, boot,
  boot_failed, reply, internal_error, successful, restart, esp_image_magic, ota_buffer_size,
  prepare_for_upgrade,
}
use esp_arduino_ebus.Device.Upgrade.Flash.{
  idle, writing, sealed, bootable, replay, replay_snoc, Checked, Checked-append, Checked-some,
  Closed,
}
use esp_arduino_ebus.Device.Upgrade.Download.{
  Http, Read, got, broken, Load, load_progress, written, read_all, close, is_whole, after_reads,
  download_with, perform_http_upgrade, answer, handle_http_upgrade, announced,
}

-- The loop with `bs` written to partition `p`.
record Loading (p : ℕ) (l : Load) (bs : List ℕ) : Type 0 where
  state : replay idle l.effects ≡ writing p bs
  checked : Checked l.checked_magic bs
  counted : l.total_written ≡ length bs % 2 ^ 32

-- What the loop leaves: an open partition, or one whose last write failed.
abbrev Left : ℕ → Bool × Load → Type 0
Left p (true, l) = (bs : List ℕ) × Loading p l bs
Left p (false, l) = replay idle (l.effects ++ abort ∷ []) ≡ idle

load_progress-keeps :
    (n : ℕ) (l : Load)
    → ((load_progress n l).effects ≡ l.effects)
      × ((load_progress n l).checked_magic ≡ l.checked_magic)
      × ((load_progress n l).total_written ≡ l.total_written)
unfolding load_progress
load_progress-keeps n l = elim (Bool-cases (ltb 0 n)) [
  | inl known ↦ rw known (refl, refl, refl)
  | inr open_ended ↦ rw open_ended (refl, refl, refl)
]

written-Loading :
    (n p x : ℕ) (xs bs : List ℕ) (l : Load)
    → Loading p l bs
    → (not l.checked_magic && not (x == esp_image_magic)) ≡ false
    → Loading p (written n (x ∷ xs) l) (bs ++ x ∷ xs)
unfolding written
written-Loading n p x xs bs l o fine =
    let (effects, checked, total) = load_progress-keeps n (record l {
      total_written = (l.total_written + length (x ∷ xs)) % 2 ^ 32;
      checked_magic = true;
      effects = l.effects ++ wrote (x ∷ xs) ∷ [];
    }) in
    record {
      state = ap (replay idle) effects ∙ replay_snoc l.effects (wrote (x ∷ xs) ∷ []) o.state;
      checked = rw checked (Checked-append l.checked_magic bs x xs o.checked fine);
      counted = omega (arith, total, o.counted, length-append bs (x ∷ xs));
    }

-- One read that passed the check of the magic byte.
accepted-Left :
    (p : ℕ) (chunk : List ℕ) (l : Load) (bs : List ℕ) (b : Bool) (rest : Bool × Load)
    → Loading p l bs
    → Left p rest
    → Left p (
        if b then rest else (
          false,
          record l { checked_magic = true; effects = l.effects ++ write_failed chunk ∷ [] },
        ))
accepted-Left p chunk l bs true rest o r = r
accepted-Left p chunk l bs false rest o r =
    replay_snoc (l.effects ++ write_failed chunk ∷ []) (abort ∷ [])
      (replay_snoc l.effects (write_failed chunk ∷ []) o.state)

read_all-Left :
    (n p : ℕ) (rs : List Read) (l : Load) (bs : List ℕ) → Loading p l bs → Left p (read_all n rs l)
unfolding read_all
read_all-Left n p [] l bs o = (bs, o)
read_all-Left n p (broken ∷ rs) l bs o = replay_snoc l.effects (abort ∷ []) o.state
read_all-Left n p (got x xs ok ∷ rs) l bs o =
    let chunk : List ℕ = take ota_buffer_size (x ∷ xs) in
    elim (Bool-cases (not l.checked_magic && not (x == esp_image_magic))) [
      | inl wrong ↦ rw wrong (replay_snoc l.effects (abort ∷ []) o.state)
      | inr fine ↦ rw fine (
          accepted-Left p chunk l bs ok _ o (
            read_all-Left n p rs (written n chunk l) (bs ++ chunk)
              (written-Loading n p x (take 1023 xs) bs l o fine)))
    ]

-- The length that the code takes as announced, if it is above 0, up to multiples of 2^32, and all data,
-- the first byte the magic byte.
abbrev pub IsDownload : Http → List ℕ → Type 0
IsDownload http bs =
    ((announced http ≡ 0) ⊎ (length bs % 2 ^ 32 ≡ announced http))
    × (http.complete ≡ true)
    × Checked true bs

is_whole-IsDownload :
    (http : Http) (p : ℕ) (l : Load) (bs : List ℕ)
    → Loading p l bs
    → is_whole http (true, l) ≡ true
    → IsDownload http bs
unfolding is_whole announced
is_whole-IsDownload http p l bs o h =
    let c : l.total_written ≢ 0 = ground arith in
    (
      ground (arith, o.counted),
      ground arith,
      Checked-some l.checked_magic bs o.checked (omega (arith, o.counted, c)),
    )

-- The flash after `performHttpUpgrade`: closed, and `true` only with a new partition to boot.
abbrev Performed : Option ℕ → Http → Bool × List Effect → Type 0
Performed next http r = Closed next (IsDownload http) (replay idle (answer r))

guard-Performed :
    (next : Option ℕ) (http : Http) (b : Bool) (early r : Bool × List Effect)
    → Performed next http early
    → Performed next http r
    → Performed next http (if not b then early else r)
guard-Performed next http true early r e l = l
guard-Performed next http false early r e l = e

module _ (ota : Ota) (http : Http) (next : Option ℕ) where
  failed-Performed : (es : List Effect) → replay idle es ≡ idle → Performed next http (false, es)
  unfolding answer
  failed-Performed es i = rw (replay_snoc es (reply internal_error ∷ []) i) tt

  close-Performed :
      (p : ℕ) (es : List Effect) (bs : List ℕ)
      → next ≡ some p
      → replay idle es ≡ writing p bs
      → IsDownload http bs
      → Performed next http ((close ota p).0, es ++ (close ota p).1)
  unfolding close answer
  close-Performed p es bs e w d = elim (Bool-cases ota.end_ok) [
    | inr failed ↦
        rw failed (failed-Performed (es ++ end_failed ∷ []) (replay_snoc es (end_failed ∷ []) w))
    | inl ended ↦ elim (Bool-cases ota.boot_ok) [
      | inr refused ↦
          let closed : replay idle (es ++ end ∷ boot_failed p ∷ []) ≡ sealed p bs =
            replay_snoc es (end ∷ boot_failed p ∷ []) w in
          rw (ended, refused)
            (rw (replay_snoc (es ++ end ∷ boot_failed p ∷ []) (reply internal_error ∷ []) closed)
              (e, d))
      | inl booted ↦
          let same : (p == p) ≡ true = ground arith in
          let set : replay idle (es ++ end ∷ boot p ∷ []) ≡ bootable p bs =
            replay_snoc es (end ∷ boot p ∷ []) w ∙ rw same refl in
          rw (ended, booted)
            (rw (replay_snoc (es ++ end ∷ boot p ∷ []) (reply successful ∷ restart ∷ []) set)
              (e, d))
    ]
  ]

  after_reads-Performed :
      (p : ℕ) (r : Bool × Load)
      → next ≡ some p
      → Left p r
      → Performed next http (after_reads ota http p r)
  unfolding after_reads
  after_reads-Performed p (true, l) e (bs, o) = elim (Bool-cases (is_whole http (true, l))) [
    | inl whole ↦
        rw whole
          (close-Performed p l.effects bs e o.state (is_whole-IsDownload http p l bs o whole))
    | inr partial ↦
        rw partial
          (failed-Performed (l.effects ++ abort ∷ []) (replay_snoc l.effects (abort ∷ []) o.state))
  ]
  after_reads-Performed p (false, l) e o = failed-Performed (l.effects ++ abort ∷ []) o

  download_with-Performed :
      (p : ℕ) (h : Option ℕ) (rs : List Read) (es : List Effect)
      → next ≡ some p
      → replay idle es ≡ idle
      → Performed next http (download_with ota http p h rs es)
  unfolding download_with announced
  download_with-Performed p none rs es e i = failed-Performed es i
  download_with-Performed p (some h) rs es e i = after_reads-Performed p _ e (
      read_all-Left (announced http) p rs _ []
        (record { state = replay_snoc es (begin p ∷ []) i; checked = tt; counted = refl }))

perform-Performed :
    (ota : Ota) (http : Http) (next : Option ℕ) (rs : List Read) (es : List Effect)
    → replay idle es ≡ idle
    → Performed next http (perform_http_upgrade ota http next rs es)
unfolding perform_http_upgrade
perform-Performed ota http none rs es i = failed-Performed ota http none es i
perform-Performed ota http (some p) rs es i =
    let failed : Performed (some p) http (false, es) = failed-Performed ota http (some p) es i in
    guard-Performed (some p) http http.init_ok _ _ failed (
      guard-Performed (some p) http http.open_ok _ _ failed (
        guard-Performed (some p) http (http.status_code == 200) _ _ failed
          (download_with-Performed ota http (some p) p ota.begin_handle rs es refl i)))

prepared : (m : UpgradeManager) → replay idle (prepare_for_upgrade m).1 ≡ idle
unfolding prepare_for_upgrade
prepared m = elim (Bool-cases (not m.pre_upgrade_done && m.pre_upgrade_hook)) [
  | inl due ↦ rw due refl
  | inr not_due ↦ rw not_due refl
]

-- After `handleHttpUpgrade`, whatever the server sends, esp_ota was called in order and nothing is
-- left open. A partition is made the next one to boot, success answered and the device restarted only
-- when it is the one that esp_ota chose, holds bytes of which the first is the magic byte, the client
-- has reported that all data were received, and the number of bytes is the announced one as an
-- `int`, up to multiples of 2^32, if that is above 0.
pub handle_http_upgrade-Closed :
    (ota : Ota) (http : Http) (url : Option (List ℕ)) (reads : List Read) (m : UpgradeManager)
    → Closed ota.next_partition
        (IsDownload http)
        (replay idle (handle_http_upgrade ota http url reads m).1)
unfolding handle_http_upgrade
handle_http_upgrade-Closed ota http none reads m = tt
handle_http_upgrade-Closed ota http (some []) reads m = tt
handle_http_upgrade-Closed ota http (some (x ∷ xs)) reads m =
    perform-Performed ota http ota.next_partition reads _
      (prepared (record m { pre_upgrade_done = false }))
