-- ===== src/Bridge/Arbitration.antt =====
-- include/bridge/arbitration.hpp and src/bridge/arbitration.cpp: bidding for the bus.
-- What the code reads from outside is an argument; what it does to the bus is a list of effects.
-- Log output is left out.
pub mod Bounds
pub mod Timing
use esp_arduino_ebus.Base.{
  sub32, ℕ, ◌+◌, ◌-◌, ◌%◌, ◌^◌, Bool, true, false, not, ◌&&◌, ◌||◌, List, [], ◌∷◌, ◌++◌, ◌==◌, ltb,
  if◌then◌else◌, ℤ, pos, negsuc,
}
use esp_arduino_ebus.Bridge.BusState.{BusState, syn_byte}
use esp_arduino_ebus.Bridge.BusState as Bus

pub data State : Type 0 where
  none arbitrating won1 won2 lost1 lost2 error restart1 restart2 : State

pub data Result : Type 0 where
  started not_started late : Result

pub record Arbitration : Type 0 where
  pub arbitrating : Bool
  pub participate_second : Bool
  pub arbitration_address : ℕ
  pub restart_count : ℕ

abbrev pub init : Arbitration
init = record {
  arbitrating = false;
  participate_second = false;
  arbitration_address = 0;
  restart_count = 0;
}

-- `esp_rom_delay_us(n)` and `bus.write(b)`.
pub data Effect : Type 0 where
  delay_us : ℕ → Effect
  write : ℕ → Effect

-- `asynchronous` is USE_ASYNCHRONOUS; `now` is the timer when the call reads it for the decision,
-- `available` the number of symbols that wait in the receive buffer.
pub record Env : Type 0 where
  pub asynchronous : Bool
  pub now : ℕ
  pub available : ℕ

-- A 32-bit pattern as an `int`.
abbrev pub int32 : ℕ → ℤ
int32 w = if ltb w (2 ^ 31) then pos w else negsuc (2 ^ 32 - w - 1)

-- `int delay = 4300 - time_since_start_bit - 700`, computed in 32-bit unsigned arithmetic.
abbrev pub delay : ℕ → ℤ
delay time_since_start_bit = int32 ((4300 + 2 ^ 32 - time_since_start_bit + 2 ^ 32 - 700) % 2 ^ 32)

abbrev pub delay_effects : ℤ → List Effect
delay_effects (pos n) = if ltb 0 n then delay_us n ∷ [] else []
delay_effects (negsuc n) = []

abbrev wait_to_send : Env → ℕ → List Effect
wait_to_send env t = if env.asynchronous then delay_effects (delay t) else []

abbrev pub is_received_first_syn : Bus.State → Bool
is_received_first_syn Bus.received_first_syn = true
is_received_first_syn _ = false

abbrev pub is_received_second_syn : Bus.State → Bool
is_received_second_syn Bus.received_second_syn = true
is_received_second_syn _ = false

-- `start(bus_state, master, start_bit_time)`.
unfoldable pub start : Arbitration → BusState → ℕ → ℕ → Env → Result × Arbitration × List Effect
start a bus_state master start_bit_time env =
    if a.arbitrating
    then (not_started, a, [])
    else if master == syn_byte
    then (not_started, a, [])
    else if not (is_received_first_syn bus_state.state)
    then (not_started, a, [])
    else let t : ℕ = sub32 env.now start_bit_time in
      if ltb 4456 t || not (env.available == 0) then (late, a, []) else (
        started,
        record a { arbitration_address = master; arbitrating = true; participate_second = false },
        wait_to_send env t ++ write master ∷ [],
      )

-- What `data` answers, the object after the call, and what was done to the bus.
pub record Outcome : Type 0 where
  pub state : State
  pub arbitration : Arbitration
  pub effects : List Effect

-- The case of the startup states and of `received_first_syn`. The counter goes up at each test,
-- whether or not the other half of the test holds.
unfoldable pub on_unexpected_syn : Arbitration → Bus.State → Outcome
on_unexpected_syn a previous =
    let c : ℕ = a.restart_count in
    if ltb c 3 && is_received_first_syn previous
    then answer restart1 (c + 1)
    else if ltb (c + 1) 3 && is_received_second_syn previous
    then answer restart2 (c + 2)
    else answer error 0
  where
    answer : State → ℕ → Outcome
    answer st count = record {
      state = st;
      arbitration = record a { arbitrating = false; restart_count = count };
      effects = [];
    }

-- The end of an arbitration that clears the restart counter.
abbrev finish : Arbitration → State → Outcome
finish a st = record {
  state = st;
  arbitration = record a { arbitrating = false; restart_count = 0 };
  effects = [];
}

abbrev carry_on : Arbitration → List Effect → Outcome
carry_on a es = record { state = arbitrating; arbitration = a; effects = es }

-- The case `received_address_after_first_syn`; `x & 0b00001111` is `x % 16`.
unfoldable pub on_first_address : Arbitration → ℕ → Outcome
on_first_address a symbol =
    if symbol == a.arbitration_address
    then finish a won1
    else if symbol % 16 == a.arbitration_address % 16
    then carry_on (record a { participate_second = true }) []
    else carry_on a []

-- The case `received_second_syn`.
unfoldable pub on_second_syn : Arbitration → ℕ → Env → Outcome
on_second_syn a start_bit_time env =
    if a.participate_second && env.available == 0
    then carry_on a
        (wait_to_send env (sub32 env.now start_bit_time) ++ write a.arbitration_address ∷ [])
    else carry_on a []

-- The case `received_address_after_second_syn`.
unfoldable pub on_second_address : Arbitration → ℕ → Outcome
on_second_address a symbol =
    if symbol == a.arbitration_address then finish a won2 else carry_on a []

-- The switch over the state of the bus.
unfoldable pub on_state : Bus.State → Arbitration → Bus.State → ℕ → ℕ → Env → Outcome
unfolding on_unexpected_syn on_first_address on_second_syn on_second_address
on_state Bus.startup a previous symbol t env = on_unexpected_syn a previous
on_state Bus.startup_first_syn a previous symbol t env = on_unexpected_syn a previous
on_state Bus.startup_symbol_after_first_syn a previous symbol t env = on_unexpected_syn a previous
on_state Bus.startup_second_syn a previous symbol t env = on_unexpected_syn a previous
on_state Bus.received_first_syn a previous symbol t env = on_unexpected_syn a previous
on_state Bus.received_address_after_first_syn a previous symbol t env = on_first_address a symbol
on_state Bus.received_second_syn a previous symbol t env = on_second_syn a t env
on_state Bus.received_address_after_second_syn a previous symbol t env = on_second_address a symbol
on_state Bus.busy a previous symbol t env = finish a (if a.participate_second then lost2 else lost1)

-- `data(bus_state, symbol, start_bit_time)`.
unfoldable pub on_data : Arbitration → BusState → ℕ → ℕ → Env → Outcome
unfolding on_state
on_data a bus_state symbol start_bit_time env =
    if not a.arbitrating
    then record { state = none; arbitration = a; effects = [] }
    else on_state bus_state.state a bus_state.previous_state symbol start_bit_time env
