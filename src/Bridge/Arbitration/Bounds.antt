-- ===== src/Bridge/Arbitration/Bounds.antt =====
-- How often an arbitration is restarted.
use esp_arduino_ebus.Base.{ℕ, zero, suc, ◌+◌, ◌≤◌, ◌<◌, ◌≡◌, true, false, arith}
use esp_arduino_ebus.Bridge.BusState.{BusState}
use esp_arduino_ebus.Bridge.BusState as Bus
use esp_arduino_ebus.Bridge.Arbitration.{
  Arbitration, State, none, arbitrating, restart1, restart2, Env, on_state, on_data,
  on_unexpected_syn,
}

-- What an answer says of the counter before and after, and of whether the bid goes on.
abbrev pub Counts : State → Arbitration → Arbitration → Type 0
Counts none a a' = (a.arbitrating ≡ false) × (a' ≡ a)
Counts arbitrating a a' =
    (a.arbitrating ≡ true) × (a'.restart_count ≡ a.restart_count) × (a'.arbitrating ≡ true)
Counts restart1 a a' =
    (a.arbitrating ≡ true)
    × (a.restart_count < a'.restart_count)
    × (a'.restart_count ≤ 3)
    × (a'.arbitrating ≡ false)
Counts restart2 a a' =
    (a.arbitrating ≡ true)
    × (a.restart_count + 1 < a'.restart_count)
    × (a'.restart_count ≤ 3)
    × (a'.arbitrating ≡ false)
Counts _ a a' = (a.arbitrating ≡ true) × (a'.restart_count ≡ 0) × (a'.arbitrating ≡ false)

on_state-Counts :
    (st : Bus.State) (a : Arbitration) (previous : Bus.State) (symbol t : ℕ) (env : Env)
    → a.arbitrating ≡ true
    → let o = on_state st a previous symbol t env in Counts o.state a o.arbitration
unfolding on_state
on_state-Counts Bus.startup a previous symbol t env h = ground arith
on_state-Counts _ a previous symbol t env h = ground arith

-- Each answer of `data`: `none` is given when there is no bid, and leaves the object unchanged; all
-- others are given during a bid. While the bid goes on the restart counter stays; a restart ends it
-- and raises the counter (by at least two for `restart2`), to 3 at most; every other answer ends it
-- and sets the counter to 0.
pub on_data-Counts :
    (a : Arbitration) (b : BusState) (symbol t : ℕ) (env : Env)
    → let o = on_data a b symbol t env in Counts o.state a o.arbitration
unfolding on_data
on_data-Counts a b symbol t env =
    ground (arith, on_state-Counts b.state a b.previous_state symbol t env)

-- `n` bids in a row, each of which meets an unexpected SYN in the same place.
pub fail_times : Bus.State → ℕ → Arbitration → Arbitration
unfolding on_unexpected_syn
fail_times previous zero a = a
fail_times previous (suc n) a = (on_unexpected_syn (fail_times previous n a) previous).arbitration
