-- ===== src/Bridge/BusType/Accounting.antt =====
-- src/bridge/bus_type.cpp: the counters of the bids and the clients that made them.
use esp_arduino_ebus.Base.{
  ℕ, ◌+◌, ◌≤◌, ◌≡◌, ◌⊎◌, inl, refl, true, false, List, arith, if◌then◌else◌, is_neg,
}
use esp_arduino_ebus.Bridge.BusState.{BusState}
use esp_arduino_ebus.Bridge.Arbitration.{Arbitration, Env, Outcome}
use esp_arduino_ebus.Bridge.Arbitration as Arb
use esp_arduino_ebus.Bridge.Arbitration.Bounds.{Counts, on_data-Counts}
use esp_arduino_ebus.Bridge.BusType.{
  BusType, Counters, Readings, init, on_none, on_answer, receive, counted,
}

-- The bids that have come to an end.
abbrev pub ended : Counters → ℕ
ended k =
    k.nbr_won_1 + k.nbr_won_2 + k.nbr_lost_1 + k.nbr_lost_2 + k.nbr_errors + k.nbr_restarts_1
    + k.nbr_restarts_2

abbrev pub running : Arbitration → ℕ
running a = if a.arbitrating then 1 else 0

pub record IsValid (t : BusType) : Type 0 where
  pub balanced : t.counters.nbr_arbitrations ≡ ended t.counters + running t.arbitration
  pub owned : (t.arbitration.arbitrating ≡ false) ⊎ (is_neg t.client_fd ≡ false)
  pub restarts : t.arbitration.restart_count ≤ 3

on_none-IsValid :
    (t : BusType) (symbol sbt : ℕ) (env : Env)
    → t.counters.nbr_arbitrations ≡ ended t.counters
    → t.arbitration.arbitrating ≡ false
    → t.arbitration.restart_count ≤ 3
    → IsValid (on_none t symbol sbt env)
unfolding on_none Arb.start
on_none-IsValid t symbol sbt env k i r = ground arith

-- What holds between the answer of the arbitration and what `receive` does with it.
abbrev Answered : Arb.State → BusType → Type 0
Answered Arb.none t =
    (t.counters.nbr_arbitrations ≡ ended t.counters)
    × (t.arbitration.arbitrating ≡ false)
    × (t.arbitration.restart_count ≤ 3)
Answered Arb.arbitrating t =
    (t.counters.nbr_arbitrations ≡ ended t.counters + 1)
    × (t.arbitration.arbitrating ≡ true)
    × (t.arbitration.restart_count ≤ 3)
    × (is_neg t.client_fd ≡ false)
Answered _ t =
    (t.counters.nbr_arbitrations ≡ ended t.counters + 1)
    × (t.arbitration.arbitrating ≡ false)
    × (t.arbitration.restart_count ≤ 3)

on_answer-IsValid :
    (st : Arb.State) (t : BusType) (symbol sbt : ℕ) (env : Env)
    → Answered st t
    → IsValid (on_answer st t symbol sbt env)
unfolding on_answer
on_answer-IsValid Arb.none t symbol sbt env (k, i, r) = on_none-IsValid t symbol sbt env k i r
on_answer-IsValid Arb.restart1 t symbol sbt env (k, i, r) =
    on_none-IsValid (counted Arb.restart1 t) symbol sbt env (omega arith) i r
on_answer-IsValid Arb.restart2 t symbol sbt env (k, i, r) =
    on_none-IsValid (counted Arb.restart2 t) symbol sbt env (omega arith) i r
on_answer-IsValid Arb.arbitrating t symbol sbt env (k, i, r, o) = ground arith
on_answer-IsValid _ t symbol sbt env h = ground arith

answered :
    (st : Arb.State) (t : BusType) (b : BusState) (a : Arbitration) (es : List Arb.Effect)
    → Counts st t.arbitration a
    → IsValid t
    → Answered st (record t { bus_state = b; arbitration = a; sent = es })
answered Arb.none t b a es c v = ground arith
answered _ t b a es c v = ground arith

-- Every received symbol keeps the invariant: the bids that were begun are those that were won, lost,
-- broken off by an error or restarted, and the one that is running, if any; a running bid has a
-- client; and the restart counter is at most 3.
pub receive-IsValid :
    (t : BusType) (symbol start_bit_time : ℕ) (readings : Readings)
    → IsValid t
    → IsValid (receive t symbol start_bit_time readings)
unfolding receive
receive-IsValid t symbol sbt readings v =
    on_answer-IsValid _ _ symbol sbt readings.start_env
      (answered _ t _ _ _ (on_data-Counts t.arbitration _ symbol sbt readings.data_env) v)

pub init-IsValid : IsValid init
init-IsValid = record { balanced = omega arith; owned = inl refl; restarts = omega arith }
