-- ===== src/Device/EspOta/Safe.antt =====
-- src/system/esp_ota_manager.cpp: how a transfer ends, and what it leaves in the flash.
use esp_arduino_ebus.Base.{
  ℕ, ◌+◌, ◌^◌, ◌≤◌, ◌<◌, ◌≡◌, refl, ◌∙◌, inl, inr, Bool, true, false, List, [], ◌∷◌, ◌++◌, Option,
  none, some, length, arith, Bool-cases,
}
use esp_arduino_ebus.Device.Upgrade.{Ota}
use esp_arduino_ebus.Device.Upgrade.Flash.{
  Flash, idle, writing, sealed, restarting, Checked, Checked-some,
}
use esp_arduino_ebus.Device.EspOta.{
  EspOtaManager, Effect, open_tcp, close_tcp, send_error, send_ok, begin, end, end_failed, boot,
  boot_failed, restart, Round, Transfer, Link, receive_all, close, after_loop, transfer_with,
  transfer_to, transfer_over, prepare_for_upgrade, closing, perform_transfer, deadline,
}
use esp_arduino_ebus.Device.EspOta.Effects.{replay, replay_snoc}
use esp_arduino_ebus.Device.EspOta.Rounds.{Loading, Ended, decisive, receive_all-Ended}

-- An image that was received: at least as many bytes as were announced, the first the magic one.
abbrev pub IsReceived : ℕ → List ℕ → Type 0
IsReceived expected_size bs = (expected_size ≤ length bs) × Checked true bs

-- How a transfer ends: with the device restarting from the partition that was to be written, or with
-- nothing open and that partition not made the one to boot.
abbrev pub Ends : Option ℕ → ℕ → Bool → Flash → Type 0
Ends next expected_size true (restarting p bs) = (next ≡ some p) × IsReceived expected_size bs
Ends next expected_size false idle = Unit {0}
Ends next expected_size false (sealed p bs) = (next ≡ some p) × IsReceived expected_size bs
Ends _ _ _ _ = ⊥

-- What is left after the loop, and whether the transfer was successful.
abbrev pub Result : Option ℕ → ℕ → Option (Bool × List Effect) → Type 0
Result next expected_size o =
    (r : Bool × List Effect) × (o ≡ some r) × Ends next expected_size r.0 (replay idle r.1)

module _ (ota : Ota) (sock expected_size p : ℕ) (positive : 0 < expected_size)
    (next : ota.next_partition ≡ some p) where
  IsReceived-Loading :
      (t : Transfer) (bs : List ℕ)
      → Loading p t bs
      → expected_size ≤ t.total_received
      → IsReceived expected_size bs
  IsReceived-Loading t bs l full = (
    omega (arith, l.count),
    Checked-some t.checked_magic bs l.checked (λ z. absurd (omega (arith, l.count))),
  )

  close-Ends :
      (t : Transfer) (bs : List ℕ)
      → Loading p t bs
      → IsReceived expected_size bs
      → Ends ota.next_partition expected_size
          (close ota sock p).0
          (replay idle (t.effects ++ (close ota sock p).1))
  unfolding close
  close-Ends t bs l whole = elim (Bool-cases ota.end_ok) [
    | inr e ↦
        rw e
          (rw (replay_snoc t.effects (end_failed ∷ send_error 6 ∷ close_tcp sock ∷ []) l.state) tt)
    | inl e ↦ elim (Bool-cases ota.boot_ok) [
      | inr b ↦
          rw (e, b)
            (rw
              (replay_snoc t.effects (end ∷ boot_failed p ∷ send_error 7 ∷ close_tcp sock ∷ [])
                l.state)
              (next, whole))
      | inl b ↦
          let booted : replay (writing p bs)
                (end ∷ boot p ∷ send_ok ∷ close_tcp sock ∷ restart ∷ [])
              ≡ restarting p bs =
            ground arith in
          rw (e, b)
            (rw
              (replay_snoc t.effects (end ∷ boot p ∷ send_ok ∷ close_tcp sock ∷ restart ∷ [])
                  l.state
                ∙ booted)
              (next, whole))
    ]
  ]

  after_loop-Result :
      (small : expected_size + 1024 ≤ 2 ^ 32) (o : Option (Bool × Transfer))
      → Ended sock expected_size p small o
      → Result ota.next_partition expected_size (after_loop ota sock p o)
  after_loop-Result small o ((true, t), e, (bs, l, full)) = rw e (
    ((close ota sock p).0, t.effects ++ (close ota sock p).1),
    refl,
    close-Ends t bs l (IsReceived-Loading t bs l full),
  )
  after_loop-Result small o ((false, t), e, d) = rw e ((false, t.effects), refl, rw d tt)

module _ (ota : Ota) (link : Link) (expected_size : ℕ) (positive : 0 < expected_size)
    (small : expected_size + 1024 ≤ 2 ^ 32) (rounds : List Round)
    (enough : expected_size ≤ decisive rounds) where
  -- Effects that leave the flash idle, and the result that comes with them.
  unsuccessful :
      (next : Option ℕ) (es fs : List Effect)
      → replay idle es ≡ idle
      → replay idle fs ≡ idle
      → Result next expected_size (some (false, es ++ fs))
  unsuccessful next es fs e f = ((false, es ++ fs), refl, rw (replay_snoc es fs e ∙ f) tt)

  transfer_with-Result :
      (sock p : ℕ) (handle : Option ℕ) (es : List Effect)
      → ota.next_partition ≡ some p
      → replay idle es ≡ idle
      → Result ota.next_partition expected_size
          (transfer_with ota link expected_size sock p handle rounds es)
  unfolding transfer_with
  transfer_with-Result sock p none es next e =
      unsuccessful ota.next_partition es (send_error 2 ∷ close_tcp sock ∷ []) e refl
  transfer_with-Result sock p (some handle) es next e =
      let t : Transfer = record {
        total_received = 0;
        checked_magic = false;
        next_progress_percent = 10;
        transfer_deadline = deadline link.start_ms;
        effects = es ++ begin p expected_size ∷ [];
      } in
      let l : Loading p t [] = record {
        state = replay_snoc es (begin p expected_size ∷ []) e;
        count = refl;
        checked = tt;
      } in
      after_loop-Result ota sock expected_size p positive next small
        (receive_all sock expected_size rounds t)
        (receive_all-Ended sock expected_size p small rounds t [] l (omega arith))

  transfer_to-Result :
      (sock : ℕ) (next : Option ℕ) (es : List Effect)
      → ota.next_partition ≡ next
      → replay idle es ≡ idle
      → Result ota.next_partition expected_size
          (transfer_to ota link expected_size sock next rounds es)
  unfolding transfer_to
  transfer_to-Result sock none es next e =
      unsuccessful ota.next_partition es (send_error 1 ∷ close_tcp sock ∷ []) e refl
  transfer_to-Result sock (some p) es next e =
      transfer_with-Result sock p ota.begin_handle es next e

  transfer_over-Result :
      (tcp_sock : Option ℕ) (es : List Effect)
      → replay idle es ≡ idle
      → Result ota.next_partition expected_size
          (transfer_over ota link expected_size tcp_sock rounds es)
  unfolding transfer_over
  transfer_over-Result none es e = ((false, es), refl, rw e tt)
  transfer_over-Result (some sock) es e = elim (Bool-cases link.connect_ok) [
    | inl c ↦ rw c (
        transfer_to-Result sock ota.next_partition (es ++ open_tcp sock ∷ []) refl
          (replay_snoc es (open_tcp sock ∷ []) e))
    | inr c ↦ rw c (unsuccessful ota.next_partition es (open_tcp sock ∷ close_tcp sock ∷ []) e refl)
  ]

prepared-idle :
    (m : EspOtaManager) (sock : Option ℕ)
    → replay idle ((prepare_for_upgrade m).1 ++ closing sock) ≡ idle
unfolding prepare_for_upgrade
prepared-idle m none = ground arith
prepared-idle m (some s) = ground arith

-- With as many rounds in which something comes or goes wrong as bytes were announced, at least one
-- and up to 2^32 - 1024, a transfer ends. It is successful just when the device restarts from the next
-- partition, which then holds at least the bytes announced, the first of them the magic byte;
-- otherwise no partition is left open and none is made the next to boot. On the way each
-- acknowledgement is the number of bytes written, and no message goes out while the partition is open.
-- The invitation socket is closed then.
pub perform_transfer-Ends :
    (ota : Ota) (link : Link) (expected_size : ℕ)
    → 0 < expected_size
    → expected_size + 1024 ≤ 2 ^ 32
    → (rounds : List Round) → expected_size ≤ decisive rounds
    → (m : EspOtaManager)
    → Result ota.next_partition expected_size (perform_transfer ota link expected_size rounds m).1
      × ((perform_transfer ota link expected_size rounds m).0.udp_sock ≡ none)
unfolding perform_transfer
perform_transfer-Ends ota link expected_size positive small rounds enough m = (
  transfer_over-Result ota link expected_size positive small rounds enough link.tcp_sock
      ((prepare_for_upgrade m).1 ++ closing (prepare_for_upgrade m).0.udp_sock)
      (prepared-idle m (prepare_for_upgrade m).0.udp_sock),
  refl,
)
