-- ===== src/Bridge/BusType/Phase.antt =====
-- How far a running bid has come, and what its end reports.
use esp_arduino_ebus.Base.{ℕ, ◌≡◌, ◌≢◌, ◌⊎◌, refl, true, false, arith, Bool-cases, inl, inr}
use esp_arduino_ebus.Bridge.BusState.{BusState, syn_byte}
use esp_arduino_ebus.Bridge.BusState as Bus
use esp_arduino_ebus.Bridge.Arbitration.{Arbitration, Env, Outcome}
use esp_arduino_ebus.Bridge.Arbitration as Arb
use esp_arduino_ebus.Bridge.Arbitration.Bounds.{Counts, on_data-Counts}
use esp_arduino_ebus.Bridge.BusType.{BusType, Readings, on_none, on_answer, receive, counted}
use esp_arduino_ebus.Bridge.BusType.Slot.{arbitration_requested}

-- The states of the bus in which a bid of `address` can run; once an address was seen in the round,
-- it was another one.
abbrev pub Phase : Bus.State → ℕ → ℕ → Type 0
Phase Bus.received_first_syn master address = Unit {0}
Phase Bus.received_address_after_first_syn master address = master ≢ address
Phase Bus.received_second_syn master address = master ≢ address
Phase Bus.received_address_after_second_syn master address = master ≢ address
Phase _ master address = ⊥

abbrev pub Running : BusState → Arbitration → Type 0
Running b a = Phase b.state b.master a.arbitration_address

-- What each answer says of the bus and of the bid.
abbrev pub Tells : Arb.State → BusState → Arbitration → ℕ → Type 0
Tells Arb.arbitrating b a symbol = Running b a
Tells Arb.won1 b a symbol = (b.master ≡ a.arbitration_address) × (symbol ≡ a.arbitration_address)
Tells Arb.won2 b a symbol = (b.master ≡ a.arbitration_address) × (symbol ≡ a.arbitration_address)
Tells Arb.lost1 b a symbol = b.master ≢ a.arbitration_address
Tells Arb.lost2 b a symbol = b.master ≢ a.arbitration_address
Tells Arb.none b a symbol = a.arbitrating ≡ false
Tells _ b a symbol = symbol ≡ syn_byte

bus_state-Tells :
    (st : Bus.State) (b : BusState) (a : Arbitration) (symbol now t : ℕ) (env : Env)
    → b.state ≡ st
    → a.arbitrating ≡ true
    → Phase st b.master a.arbitration_address
    → let b' = Bus.on_data b symbol now in
      let o = Arb.on_data a b' symbol t env in Tells o.state b' o.arbitration symbol
unfolding Bus.on_data Arb.on_data
bus_state-Tells Bus.received_first_syn b a symbol now t env e h p = rw (e, h) (ground arith)
bus_state-Tells Bus.received_address_after_first_syn b a symbol now t env e h p =
    rw (e, h) (ground arith)
bus_state-Tells Bus.received_second_syn b a symbol now t env e h p = rw (e, h) (ground arith)
bus_state-Tells Bus.received_address_after_second_syn b a symbol now t env e h p =
    rw (e, h) (ground arith)
bus_state-Tells _ b a symbol now t env e h p = absurd p

abbrev pub InPhase : BusType → Type 0
InPhase t = (t.arbitration.arbitrating ≡ false) ⊎ Running t.bus_state t.arbitration

start-Running :
    (st : Bus.State) (a : Arbitration) (b : BusState) (address t : ℕ) (env : Env)
    → b.state ≡ st
    → a.arbitrating ≡ false
    → let a' = (Arb.start a b address t env).1 in (a'.arbitrating ≡ false) ⊎ Running b a'
unfolding Arb.start
start-Running Bus.received_first_syn a b address t env e h = rw e (inr tt)
start-Running _ a b address t env e h = ground arith

on_none-bus_state :
    (t : BusType) (symbol sbt : ℕ) (env : Env) → (on_none t symbol sbt env).bus_state ≡ t.bus_state
unfolding on_none
on_none-bus_state t symbol sbt env = ground arith

on_none-arbitration :
    (t : BusType) (symbol sbt : ℕ) (env : Env)
    → ((on_none t symbol sbt env).arbitration ≡ t.arbitration)
      ⊎ ((on_none t symbol sbt env).arbitration
          ≡ (Arb.start t.arbitration t.bus_state (arbitration_requested t.slot).1 sbt env).1)
unfolding on_none
on_none-arbitration t symbol sbt env = ground arith

on_none-InPhase :
    (t : BusType) (symbol sbt : ℕ) (env : Env)
    → t.arbitration.arbitrating ≡ false
    → InPhase (on_none t symbol sbt env)
on_none-InPhase t symbol sbt env h = elim (on_none-arbitration t symbol sbt env) [
  | inl e ↦ rw (e, on_none-bus_state t symbol sbt env) (inl h)
  | inr e ↦
      rw (e, on_none-bus_state t symbol sbt env)
        (start-Running t.bus_state.state t.arbitration t.bus_state _ sbt env refl h)
]

on_answer-InPhase :
    (st : Arb.State) (t : BusType) (a : Arbitration) (symbol sbt : ℕ) (env : Env)
    → Counts st a t.arbitration
    → Tells st t.bus_state t.arbitration symbol
    → InPhase (on_answer st t symbol sbt env)
unfolding on_answer
on_answer-InPhase Arb.none t a symbol sbt env c p = on_none-InPhase t symbol sbt env p
on_answer-InPhase Arb.restart1 t a symbol sbt env c p =
    on_none-InPhase (counted Arb.restart1 t) symbol sbt env c.3
on_answer-InPhase Arb.restart2 t a symbol sbt env c p =
    on_none-InPhase (counted Arb.restart2 t) symbol sbt env c.3
on_answer-InPhase Arb.arbitrating t a symbol sbt env c p = inr p
on_answer-InPhase _ t a symbol sbt env c p = inl c.2

idle-Tells :
    (b : BusState) (a : Arbitration) (symbol sbt : ℕ) (env : Env)
    → a.arbitrating ≡ false
    → let o = Arb.on_data a b symbol sbt env in Tells o.state b o.arbitration symbol
unfolding Arb.on_data
idle-Tells b a symbol sbt env h = rw h refl

pub data-Tells :
    (t : BusType) (symbol now sbt : ℕ) (env : Env)
    → InPhase t
    → let b' = Bus.on_data t.bus_state symbol now in
      let o = Arb.on_data t.arbitration b' symbol sbt env in Tells o.state b' o.arbitration symbol
data-Tells t symbol now sbt env (inr v) = elim (Bool-cases t.arbitration.arbitrating) [
  | inl h ↦ bus_state-Tells t.bus_state.state t.bus_state t.arbitration symbol now sbt env refl h v
  | inr h ↦ idle-Tells (Bus.on_data t.bus_state symbol now) t.arbitration symbol sbt env h
]
data-Tells t symbol now sbt env (inl h) =
    idle-Tells (Bus.on_data t.bus_state symbol now) t.arbitration symbol sbt env h

-- Every received symbol keeps this: while a bid runs, the bus has just seen the SYN after which the
-- bid began, or an address of the first round, or the second SYN, or an address of the second
-- round; and the last address that was seen in the bid's rounds is not the bid's own.
pub receive-InPhase :
    (t : BusType) (symbol start_bit_time : ℕ) (readings : Readings)
    → InPhase t
    → InPhase (receive t symbol start_bit_time readings)
unfolding receive
receive-InPhase t symbol sbt readings v =
    on_answer-InPhase _ _ t.arbitration symbol sbt readings.start_env
      (on_data-Counts t.arbitration _ symbol sbt readings.data_env)
      (data-Tells t symbol readings.syn_now sbt readings.data_env v)
