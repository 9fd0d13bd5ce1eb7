-- ===== src/Bridge/Arbitration/Timing.antt =====
-- When a bid begins, and at which time its address goes on the bus.
use Prim.Native.Nat.{max}
use esp_arduino_ebus.Base.{
  sub32, ℕ, ◌+◌, ◌^◌, ◌≤◌, ◌<◌, ◌≡◌, refl, ◌≢◌, ◌⊎◌, inl, inr, if◌then◌else◌, true, false, List, [],
  ◌∷◌, arith,
}
use esp_arduino_ebus.Bridge.BusState.{BusState, syn_byte}
use esp_arduino_ebus.Bridge.BusState as Bus
use esp_arduino_ebus.Bridge.Arbitration.{
  Arbitration, Result, started, not_started, late, Env, Effect, delay_us, write, start, on_data,
}

-- The microseconds spent waiting, and the symbols sent.
abbrev pub waited : List Effect → ℕ
waited [] = 0
waited (delay_us n ∷ es) = n + waited es
waited (write b ∷ es) = waited es

abbrev pub written : List Effect → List ℕ
written [] = []
written (delay_us n ∷ es) = written es
written (write b ∷ es) = b ∷ written es

-- The conditions under which a bid may begin, `t` microseconds after the start bit.
pub record CanStart (a : Arbitration) (b : BusState) (master t : ℕ) (env : Env) : Type 0 where
  pub idle : a.arbitrating ≡ false
  pub address : master ≢ syn_byte
  pub after_syn : b.state ≡ Bus.received_first_syn
  pub in_time : t ≤ 4456
  pub quiet : env.available ≡ 0

start_cases :
    (st : Bus.State) (a : Arbitration) (b : BusState) (master start_bit_time : ℕ) (env : Env)
    → b.state ≡ st
    → let r = start a b master start_bit_time env in
      r.0 ≡ started → CanStart a b master (sub32 env.now start_bit_time) env
unfolding start
start_cases Bus.received_first_syn a b master start_bit_time env e h = record {
  idle = ground arith;
  address = ground arith;
  after_syn = e;
  in_time = ground arith;
  quiet = ground arith;
}
start_cases _ a b master start_bit_time env e h = ground arith

start_refused :
    (st : Bus.State) (a : Arbitration) (b : BusState) (master start_bit_time : ℕ) (env : Env)
    → b.state ≡ st
    → let r = start a b master start_bit_time env in r.0 ≢ started → (r.1 ≡ a) × (r.2 ≡ [])
unfolding start
start_refused Bus.received_first_syn a b master t env e h = ground arith
start_refused _ a b master t env e h = ground arith

can_start :
    (a : Arbitration) (b : BusState) (master start_bit_time : ℕ) (env : Env)
    → CanStart a b master (sub32 env.now start_bit_time) env
    → (start a b master start_bit_time env).0 ≡ started
unfolding start
can_start a b master t env c = rw c.after_syn (ground arith)

started-cases : (r : Result) → (r ≡ started) ⊎ (r ≢ started)
started-cases started = inl refl
started-cases not_started = inr (λ e. cc)
started-cases late = inr (λ e. cc)

-- A bid that begins puts exactly its address on the bus. In the asynchronous build it goes there
-- 3600 microseconds after the start bit, or at once if these have passed, in the other build at
-- once: in both at most 4456 microseconds after the start bit.
start_timing :
    (a : Arbitration) (b : BusState) (master start_bit_time : ℕ) (env : Env)
    → let r = start a b master start_bit_time env in
      let t : ℕ = sub32 env.now start_bit_time in
      r.0 ≡ started
      → (r.1.arbitrating ≡ true)
        × (r.1.arbitration_address ≡ master)
        × (written r.2 ≡ master ∷ [])
        × (t + waited r.2 ≡ (if env.asynchronous then max t 3600 else t))
        × (t + waited r.2 ≤ 4456)
unfolding start
start_timing a b master s env h =
    let c : CanStart a b master (sub32 env.now s) env =
      start_cases b.state a b master s env refl h in
    rw (c.after_syn, c.idle, c.quiet) (ground (arith, c.in_time, c.address))

-- `start` begins a bid exactly when no bid is on, the address is not SYN, the bus has just seen its
-- first SYN, the start bit is at most 4456 microseconds old and no symbol waits; otherwise it leaves
-- the object as it was and does nothing to the bus. A bid that begins puts exactly its address on the
-- bus: in the asynchronous build 3600 microseconds after the start bit, or at once if these have
-- passed, in the other build at once, in both at most 4456 microseconds after the start bit.
pub start_iff :
    (a : Arbitration) (b : BusState) (master start_bit_time : ℕ) (env : Env)
    → let r = start a b master start_bit_time env in
      let t : ℕ = sub32 env.now start_bit_time in
      ((r.0 ≡ started)
        × CanStart a b master t env
        × (r.1.arbitrating ≡ true)
        × (r.1.arbitration_address ≡ master)
        × (written r.2 ≡ master ∷ [])
        × (t + waited r.2 ≡ (if env.asynchronous then max t 3600 else t))
        × (t + waited r.2 ≤ 4456))
      ⊎ ((r.0 ≢ started) × (¬ CanStart a b master t env) × (r.1 ≡ a) × (r.2 ≡ []))
start_iff a b master t env = elim (started-cases (start a b master t env).0) [
  | inl e ↦
      let (on, own, puts, at, soon) = start_timing a b master t env e in
      inl (e, start_cases b.state a b master t env refl e, on, own, puts, at, soon)
  | inr ne ↦
      let (same, quiet) = start_refused b.state a b master t env refl ne in
      inr (ne, (λ c. ne (can_start a b master t env c)), same, quiet)
]

-- At the second SYN a bidder of the winner's priority class puts its address on the bus again, with
-- the same wait, if no symbol waits and the start bit is less than 2 ^ 31 microseconds old.
second_bid_timing :
    (a : Arbitration) (b : BusState) (symbol start_bit_time : ℕ) (env : Env)
    → a.arbitrating ≡ true
    → b.state ≡ Bus.received_second_syn
    → env.available ≡ 0
    → a.participate_second ≡ true
    → sub32 env.now start_bit_time < 2 ^ 31
    → let o = on_data a b symbol start_bit_time env in
      let t : ℕ = sub32 env.now start_bit_time in
      (written o.effects ≡ a.arbitration_address ∷ [])
      × (t + waited o.effects ≡ (if env.asynchronous then max t 3600 else t))
unfolding on_data
second_bid_timing a b symbol t env h e q p s = rw (h, e, q, p) (ground arith)
