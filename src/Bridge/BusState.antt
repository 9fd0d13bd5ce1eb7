-- ===== src/Bridge/BusState.antt =====
-- include/bridge/bus_state.hpp: the state of the bus, followed symbol by symbol.
-- A reading of the microsecond timer is an argument; log output is left out.
pub mod Trace
mod Tests
use esp_arduino_ebus.Base.{sub32, ℕ, ◌+◌, ◌-◌, ◌%◌, ◌^◌, ◌==◌, if◌then◌else◌}

abbrev pub syn_byte : ℕ
syn_byte = 0xAA

pub data State : Type 0 where
  startup startup_first_syn startup_symbol_after_first_syn startup_second_syn : State
  received_first_syn received_address_after_first_syn : State
  received_second_syn received_address_after_second_syn : State
  busy : State

pub record BusState : Type 0 where
  pub state : State
  pub previous_state : State
  pub master : ℕ
  pub symbol : ℕ
  pub syn_time : ℕ
  pub previous_syn_time : ℕ

-- The constructor, with the member initialisers.
abbrev pub init : BusState
init = record {
  state = startup;
  previous_state = startup;
  master = 0;
  symbol = 0;
  syn_time = 0;
  previous_syn_time = 0;
}

-- `state = syn(new_state)` at time `now`.
unfoldable pub syn : State → ℕ → BusState → BusState
syn new_state now b = record b {
  state = new_state;
  previous_syn_time = b.syn_time;
  syn_time = now % 2 ^ 32;
}

-- `state = error(state, new_state)`: as `syn`, with a log line in between.
unfoldable pub error : State → ℕ → BusState → BusState
error new_state now b = record b {
  state = new_state;
  previous_syn_time = b.syn_time;
  syn_time = now % 2 ^ 32;
}

-- The cases of `data`; `b` has `previous_state` set already. In two cases the source assigns
-- `symbol = symbol`, the parameter to itself, so the field keeps its value.
unfoldable pub on_state : State → BusState → ℕ → ℕ → BusState
unfolding syn error
on_state startup b s now =
    if s == syn_byte then syn startup_first_syn now b else record b { state = startup }
on_state startup_first_syn b s now =
    if s == syn_byte
    then syn received_first_syn now b
    else record b { state = startup_symbol_after_first_syn }
on_state startup_symbol_after_first_syn b s now =
    if s == syn_byte then syn startup_second_syn now b else record b { state = busy }
on_state startup_second_syn b s now =
    if s == syn_byte then syn received_first_syn now b else record b { state = busy }
on_state received_first_syn b s now =
    if s == syn_byte
    then record (syn received_first_syn now b) { master = s }
    else record b { state = received_address_after_first_syn; master = s }
on_state received_address_after_first_syn b s now =
    if s == syn_byte then syn received_second_syn now b else record b { state = busy }
on_state received_second_syn b s now =
    if s == syn_byte
    then record (error received_first_syn now b) { master = s }
    else record b { state = received_address_after_second_syn; master = s }
on_state received_address_after_second_syn b s now =
    if s == syn_byte then error received_first_syn now b else record b { state = busy }
on_state busy b s now =
    if s == syn_byte then syn received_first_syn now b else record b { state = busy }

-- `data(symbol)`.
unfoldable pub on_data : BusState → ℕ → ℕ → BusState
unfolding on_state
on_data b s now = on_state b.state (record b { previous_state = b.state }) s now

unfoldable pub reset : BusState → BusState
reset b = record b { state = startup }

unfoldable pub micros_since_last_syn : BusState → ℕ → ℕ
micros_since_last_syn b now = sub32 now b.syn_time

unfoldable pub micros_since_previous_syn : BusState → ℕ → ℕ
micros_since_previous_syn b now = sub32 now b.previous_syn_time
