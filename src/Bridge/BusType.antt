-- ===== src/Bridge/BusType.antt =====
-- include/bridge/bus_type.hpp and src/bridge/bus_type.cpp: a received symbol goes through the state
-- of the bus and the arbitration, and comes out as messages for the clients.
pub mod Slot
pub mod Accounting
pub mod Messages
pub mod Phase
use esp_arduino_ebus.Base.{
  ℕ, ◌+◌, Bool, true, false, List, [], ◌∷◌, ◌++◌, Option, none, some, if◌then◌else◌, ℤ, is_neg,
  minus_one,
}
use esp_arduino_ebus.Bridge.BusState.{BusState}
use esp_arduino_ebus.Bridge.BusState as Bus
use esp_arduino_ebus.Bridge.Arbitration.{Arbitration, Env, Effect}
use esp_arduino_ebus.Bridge.Arbitration as Arb
use Slot.{ArbitrationSlot, empty, arbitration_requested, arbitration_done}

-- `enum Responses` and `enum Errors`.
abbrev pub resetted : ℕ
resetted = 0x0

abbrev pub received : ℕ
received = 0x1

abbrev pub started : ℕ
started = 0x2

abbrev pub info : ℕ
info = 0x3

abbrev pub failed : ℕ
failed = 0xa

abbrev pub error_ebus : ℕ
error_ebus = 0xb

abbrev pub error_host : ℕ
error_host = 0xc

abbrev pub err_framing : ℕ
err_framing = 0x00

abbrev pub err_overrun : ℕ
err_overrun = 0x01

-- `BusType::Data`.
pub record Data : Type 0 where
  pub enhanced : Bool
  pub c : ℕ
  pub d : ℕ
  pub client_fd : ℤ
  pub log_to_client_fd : ℤ

-- The atomic counters, as numbers that do not wrap.
pub record Counters : Type 0 where
  pub nbr_restarts_1 : ℕ
  pub nbr_restarts_2 : ℕ
  pub nbr_arbitrations : ℕ
  pub nbr_lost_1 : ℕ
  pub nbr_lost_2 : ℕ
  pub nbr_won_1 : ℕ
  pub nbr_won_2 : ℕ
  pub nbr_errors : ℕ
  pub nbr_late : ℕ

-- The object `bus` with the globals of its file. `queue` is the front first; `sent` is what went to
-- the UART and how long was waited for it, oldest first.
pub record BusType : Type 0 where
  pub bus_state : BusState
  pub arbitration : Arbitration
  pub client_fd : ℤ
  pub counters : Counters
  pub queue : List Data
  pub slot : ArbitrationSlot
  pub sent : List Effect

abbrev pub init : BusType
init = record {
  bus_state = Bus.init;
  arbitration = Arb.init;
  client_fd = minus_one;
  counters = record {
    nbr_restarts_1 = 0;
    nbr_restarts_2 = 0;
    nbr_arbitrations = 0;
    nbr_lost_1 = 0;
    nbr_lost_2 = 0;
    nbr_won_1 = 0;
    nbr_won_2 = 0;
    nbr_errors = 0;
    nbr_late = 0;
  };
  queue = [];
  slot = empty;
  sent = [];
}

-- What one call of `receive` reads from outside: the timer in `BusState::syn`, and what
-- `Arbitration::data` and `Arbitration::start` read.
pub record Readings : Type 0 where
  pub syn_now : ℕ
  pub data_env : Env
  pub start_env : Env

abbrev pub push : Data → BusType → BusType
push d t = record t { queue = t.queue ++ d ∷ [] }

abbrev pub message : Bool → ℕ → ℕ → ℤ → ℤ → Data
message enhanced c d fd log_fd = record {
  enhanced = enhanced;
  c = c;
  d = d;
  client_fd = fd;
  log_to_client_fd = log_fd;
}

-- The switch over the answer of `arbitration_.start`.
abbrev count_start : Arb.Result → BusType → BusType
count_start Arb.started t = record t {
  counters = record t.counters { nbr_arbitrations = t.counters.nbr_arbitrations + 1 };
}
count_start Arb.late t = record t {
  counters = record t.counters { nbr_late = t.counters.nbr_late + 1 };
}
count_start Arb.not_started t = t

-- From the label NONE: ask for a client, begin its bid, and pass the symbol on to everybody.
unfoldable pub on_none : BusType → ℕ → ℕ → Env → BusType
unfolding arbitration_requested
on_none t symbol start_bit_time env =
    let (fd, address) = arbitration_requested t.slot in
    let t' : BusType = record t { client_fd = fd } in
    let (result, arbitration, effects) =
      Arb.start t.arbitration t.bus_state address start_bit_time env in
    let begun : BusType =
      count_start result (record t' { arbitration = arbitration; sent = t.sent ++ effects }) in
    push (message false received symbol minus_one fd) (if is_neg fd then t' else begun)

-- The end of a bid: `c` and `d` for its client, `symbol` for all but `others`, and no client any
-- more.
abbrev pub report : ℕ → ℕ → ℤ → BusType → ℕ → BusType
report c d others t symbol =
    record (push (message false received symbol others fd) (push (message true c d fd fd) t)) {
      client_fd = minus_one;
      slot = arbitration_done t.slot;
    }
  where
    fd : ℤ
    fd = t.client_fd

-- The counter that the switch over the answer of `arbitration_.data` raises.
abbrev pub tally : Arb.State → Counters → Counters
tally Arb.restart1 k = record k { nbr_restarts_1 = k.nbr_restarts_1 + 1 }
tally Arb.restart2 k = record k { nbr_restarts_2 = k.nbr_restarts_2 + 1 }
tally Arb.won1 k = record k { nbr_won_1 = k.nbr_won_1 + 1 }
tally Arb.won2 k = record k { nbr_won_2 = k.nbr_won_2 + 1 }
tally Arb.lost1 k = record k { nbr_lost_1 = k.nbr_lost_1 + 1 }
tally Arb.lost2 k = record k { nbr_lost_2 = k.nbr_lost_2 + 1 }
tally Arb.error k = record k { nbr_errors = k.nbr_errors + 1 }
tally Arb.none k = k
tally Arb.arbitrating k = k

abbrev pub counted : Arb.State → BusType → BusType
counted st t = record t { counters = tally st t.counters }

-- The labels WON and LOST, and the switch itself.
abbrev pub on_won : BusType → ℕ → BusType
on_won t symbol = report started t.bus_state.master t.client_fd t symbol

abbrev pub on_lost : BusType → ℕ → BusType
on_lost t symbol = report failed t.bus_state.master minus_one t symbol

unfoldable pub on_answer : Arb.State → BusType → ℕ → ℕ → Env → BusType
unfolding on_none arbitration_done
on_answer Arb.restart1 t symbol sbt env = on_none (counted Arb.restart1 t) symbol sbt env
on_answer Arb.restart2 t symbol sbt env = on_none (counted Arb.restart2 t) symbol sbt env
on_answer Arb.none t symbol sbt env = on_none t symbol sbt env
on_answer Arb.arbitrating t symbol sbt env =
    push (message false received symbol t.client_fd t.client_fd) t
on_answer Arb.won1 t symbol sbt env = on_won (counted Arb.won1 t) symbol
on_answer Arb.won2 t symbol sbt env = on_won (counted Arb.won2 t) symbol
on_answer Arb.lost1 t symbol sbt env = on_lost (counted Arb.lost1 t) symbol
on_answer Arb.lost2 t symbol sbt env = on_lost (counted Arb.lost2 t) symbol
on_answer Arb.error t symbol sbt env =
    report error_ebus err_framing minus_one (counted Arb.error t) symbol

-- `receive(symbol, start_bit_time)`.
unfoldable pub receive : BusType → ℕ → ℕ → Readings → BusType
receive t symbol start_bit_time readings =
    let bus_state : BusState = Bus.on_data t.bus_state symbol readings.syn_now in
    let o : Arb.Outcome =
      Arb.on_data t.arbitration bus_state symbol start_bit_time readings.data_env in
    on_answer o.state
      (record t { bus_state = bus_state; arbitration = o.arbitration; sent = t.sent ++ o.effects })
      symbol start_bit_time readings.start_env

-- The end of `read(d)` in the synchronous build: the front of the queue.
unfoldable pub read : BusType → Option Data × BusType
read t = elim t.queue [ [] ↦ (none, t) | d ∷ rest ↦ (some d, record t { queue = rest }) ]
