-- ===== src/Device/EspOta/Rounds.antt =====
-- src/system/esp_ota_manager.cpp: the loop of performTransfer.
use esp_arduino_ebus.Base.{
  ℕ, ◌+◌, ◌%◌, ◌^◌, ◌≤◌, ◌<◌, ◌≡◌, refl, ◌∙◌, inl, inr, Bool, true, false, not, ◌&&◌, List, [], ◌∷◌,
  ◌++◌, Option, some, ◌==◌, ltb, if◌then◌else◌, length, length-append, take, length-take, arith,
  Bool-cases,
}
use esp_arduino_ebus.Device.Upgrade.{esp_image_magic}
use esp_arduino_ebus.Device.Upgrade.Flash.{idle, writing, Checked, Checked-append}
use esp_arduino_ebus.Device.EspOta.{
  close_tcp, send_error, send_ack, wrote, write_failed, abort, Received, got, closed, nothing,
  broken, Round, Transfer, Turn, continue, stop, aborted, acknowledged, turn, receive_all,
}
use esp_arduino_ebus.Device.EspOta.Effects.{replay, replay_snoc}

-- The loop with `bs` written to partition `p`.
pub record Loading (p : ℕ) (t : Transfer) (bs : List ℕ) : Type 0 where
  pub state : replay idle t.effects ≡ writing p bs
  pub count : t.total_received ≡ length bs
  pub checked : Checked t.checked_magic bs

-- The rounds that do not only wait.
abbrev pub waits : Received → ℕ
waits nothing = 0
waits _ = 1

unfoldable pub decisive : List Round → ℕ
decisive [] = 0
decisive (r ∷ rs) = waits r.received + decisive rs

-- After a turn that goes on, at least `least` bytes were received in all.
abbrev Goes : ℕ → ℕ → Turn → Type 0
Goes p least (continue t) = (bs : List ℕ) × Loading p t bs × (least ≤ t.total_received)
Goes p least (stop t) = replay idle t.effects ≡ idle

module _ (sock expected_size p : ℕ) (small : expected_size + 1024 ≤ 2 ^ 32) where
  aborted-idle :
      (n : ℕ) (t : Transfer) (bs : List ℕ)
      → Loading p t bs
      → replay idle (aborted sock n [] t).effects ≡ idle
  aborted-idle n t bs l = replay_snoc t.effects (abort ∷ send_error n ∷ close_tcp sock ∷ []) l.state

  acknowledged-Loading :
      (c : ℕ) (cs : List ℕ) (now_ms : ℕ) (t : Transfer) (bs : List ℕ)
      → Loading p t bs
      → t.total_received < expected_size
      → length (c ∷ cs) ≤ 1024
      → (not t.checked_magic && not (c == esp_image_magic)) ≡ false
      → Loading p (acknowledged expected_size (c ∷ cs) now_ms t) (bs ++ c ∷ cs)
  unfolding acknowledged
  acknowledged-Loading c cs now_ms t bs l more short fine =
      let total : (t.total_received + length (c ∷ cs)) % 2 ^ 32 ≡ length (bs ++ c ∷ cs) =
        omega (arith, l.count, length-append bs (c ∷ cs)) in
      record {
        state =
            replay_snoc t.effects
              (wrote (c ∷ cs) ∷ send_ack ((t.total_received + length (c ∷ cs)) % 2 ^ 32) ∷ [])
              l.state
            ∙ rw total (ground arith);
        count = total;
        checked = Checked-append t.checked_magic bs c cs l.checked fine;
      }

  acknowledged-total :
      (c : ℕ) (cs : List ℕ) (now_ms : ℕ) (t : Transfer)
      → t.total_received < expected_size
      → length (c ∷ cs) ≤ 1024
      → t.total_received + 1 ≤ (acknowledged expected_size (c ∷ cs) now_ms t).total_received
  unfolding acknowledged
  acknowledged-total c cs now_ms t more short = omega arith

  turn-Goes :
      (r : Received) (now_ms : ℕ) (ok : Bool) (t : Transfer) (bs : List ℕ)
      → Loading p t bs
      → t.total_received < expected_size
      → Goes p (t.total_received + waits r) (turn sock expected_size r now_ms ok t)
  unfolding turn
  turn-Goes (got x xs) now_ms ok t bs l more =
      elim (Bool-cases (not t.checked_magic && not (x == esp_image_magic))) [
        | inl wrong ↦ rw wrong (aborted-idle 4 t bs l)
        | inr fine ↦ rw fine (written ok fine)
      ]
    where
      written :
          (b : Bool)
          → (not t.checked_magic && not (x == esp_image_magic)) ≡ false
          → Goes p (t.total_received + 1) (
              if b
              then continue (acknowledged expected_size (x ∷ take 1023 xs) now_ms t)
              else stop (aborted sock 5 (write_failed (x ∷ take 1023 xs) ∷ []) t))
      written true fine = (
        bs ++ x ∷ take 1023 xs,
        acknowledged-Loading x (take 1023 xs) now_ms t bs l more
            (omega (arith, length-take 1023 xs)) fine,
        acknowledged-total x (take 1023 xs) now_ms t more (omega (arith, length-take 1023 xs)),
      )
      written false fine =
          replay_snoc t.effects
            (write_failed (x ∷ take 1023 xs) ∷ abort ∷ send_error 5 ∷ close_tcp sock ∷ []) l.state
  turn-Goes closed now_ms ok t bs l more = aborted-idle 3 t bs l
  turn-Goes nothing now_ms ok t bs l more =
      elim (Bool-cases (ltb t.transfer_deadline (now_ms % 2 ^ 32))) [
        | inl late ↦ rw late (aborted-idle 3 t bs l)
        | inr early ↦ rw early (bs, l, omega arith)
      ]
  turn-Goes broken now_ms ok t bs l more = aborted-idle 3 t bs l

  abbrev pub Done : Bool × Transfer → Type 0
  Done (true, t) = (bs : List ℕ) × Loading p t bs × (expected_size ≤ t.total_received)
  Done (false, t) = replay idle t.effects ≡ idle

  abbrev pub Ended : Option (Bool × Transfer) → Type 0
  Ended o = (r : Bool × Transfer) × (o ≡ some r) × Done r

  turn-Ended :
      (n least : ℕ) (x : Turn) (rest : Transfer → Option (Bool × Transfer))
      → Goes p least x
      → expected_size ≤ least + n
      → ((t : Transfer) (bs : List ℕ)
          → Loading p t bs
          → expected_size ≤ t.total_received + n
          → Ended (rest t))
      → Ended (elim x [ continue t ↦ rest t | stop t ↦ some (false, t) ])
  turn-Ended n least (continue t) rest (bs, l, le) h next = next t bs l (omega arith)
  turn-Ended n least (stop t) rest e h next = ((false, t), refl, e)

  pub receive_all-Ended :
      (rs : List Round) (t : Transfer) (bs : List ℕ)
      → Loading p t bs
      → expected_size ≤ t.total_received + decisive rs
      → Ended (receive_all sock expected_size rs t)
  unfolding receive_all decisive
  receive_all-Ended [] t bs l h =
      let full : ltb t.total_received expected_size ≡ false = ground arith in
      rw full ((true, t), refl, (bs, l, omega arith))
  receive_all-Ended (r ∷ rs) t bs l h = elim (Bool-cases (ltb t.total_received expected_size)) [
    | inl more ↦ rw more (
        turn-Ended (decisive rs) (t.total_received + waits r.received)
          (turn sock expected_size r.received r.now_ms r.write_ok t)
          (receive_all sock expected_size rs)
          (turn-Goes r.received r.now_ms r.write_ok t bs l (ground arith)) (omega arith)
          (receive_all-Ended rs))
    | inr full ↦ rw full ((true, t), refl, (bs, l, ground arith))
  ]
