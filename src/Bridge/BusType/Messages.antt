-- ===== src/Bridge/BusType/Messages.antt =====
-- Which messages a received symbol gives rise to, and when the bidder's place becomes free.
use esp_arduino_ebus.Base.{
  ℕ, ◌≡◌, ◌≢◌, refl, true, false, List, [], ◌∷◌, ◌++◌, append_assoc, arith, ℤ, minus_one,
}
use esp_arduino_ebus.Bridge.BusState.{BusState, syn_byte}
use esp_arduino_ebus.Bridge.BusState as Bus
use esp_arduino_ebus.Bridge.Arbitration.{Arbitration, Env}
use esp_arduino_ebus.Bridge.Arbitration as Arb
use esp_arduino_ebus.Bridge.BusType.Slot.{empty}
use esp_arduino_ebus.Bridge.BusType.Phase.{InPhase, Tells, data-Tells}
use esp_arduino_ebus.Bridge.BusType.{
  BusType, Readings, Data, message, on_none, on_answer, receive, received, started, failed,
  error_ebus, err_framing, counted,
}

-- What client `fd`, whose bid of address `own` was on, is told.
abbrev pub Notice : Arb.State → ℤ → ℕ → List Data → Type 0
Notice Arb.won1 fd own ds = ds ≡ message true started own fd fd ∷ []
Notice Arb.won2 fd own ds = ds ≡ message true started own fd fd ∷ []
Notice Arb.lost1 fd own ds =
    (winner : ℕ) × (winner ≢ own) × (ds ≡ message true failed winner fd fd ∷ [])
Notice Arb.lost2 fd own ds =
    (winner : ℕ) × (winner ≢ own) × (ds ≡ message true failed winner fd fd ∷ [])
Notice Arb.error fd own ds = ds ≡ message true error_ebus err_framing fd fd ∷ []
Notice _ fd own ds = ds ≡ []

-- The client to which the symbol is not passed on.
abbrev pub left_out : Arb.State → ℤ → ℤ
left_out Arb.arbitrating fd = fd
left_out Arb.won1 fd = fd
left_out Arb.won2 fd = fd
left_out _ fd = minus_one

-- After the end of a bid nobody holds the bidder's place.
abbrev pub Released : Arb.State → BusType → Type 0
Released Arb.won1 t = (t.slot ≡ empty) × (t.client_fd ≡ minus_one)
Released Arb.won2 t = (t.slot ≡ empty) × (t.client_fd ≡ minus_one)
Released Arb.lost1 t = (t.slot ≡ empty) × (t.client_fd ≡ minus_one)
Released Arb.lost2 t = (t.slot ≡ empty) × (t.client_fd ≡ minus_one)
Released Arb.error t = (t.slot ≡ empty) × (t.client_fd ≡ minus_one)
Released _ t = Unit {0}

abbrev pub Delivers : Arb.State → ℕ → ℤ → ℕ → List Data → BusType → Type 0
Delivers st symbol fd own queue t =
    (ds : List Data) × (log_fd : ℤ) × (t.queue
      ≡ queue ++ (ds ++ message false received symbol (left_out st fd) log_fd ∷ []))
    × Notice st fd own ds
    × Released st t

on_none-Delivers :
    (t : BusType) (symbol sbt : ℕ) (env : Env)
    → (log_fd : ℤ) × ((on_none t symbol sbt env).queue
        ≡ t.queue ++ message false received symbol minus_one log_fd ∷ [])
unfolding on_none
on_none-Delivers t symbol sbt env = (t.slot.client, ground arith)

on_answer-Delivers :
    (st : Arb.State) (t : BusType) (symbol sbt : ℕ) (env : Env)
    → Tells st t.bus_state t.arbitration symbol
    → Delivers st symbol t.client_fd t.arbitration.arbitration_address t.queue
        (on_answer st t symbol sbt env)
unfolding on_answer
on_answer-Delivers Arb.none t symbol sbt env p =
    let (fd, e) = on_none-Delivers t symbol sbt env in ([], fd, e, refl, tt)
on_answer-Delivers Arb.restart1 t symbol sbt env p =
    let (fd, e) = on_none-Delivers (counted Arb.restart1 t) symbol sbt env in ([], fd, e, refl, tt)
on_answer-Delivers Arb.restart2 t symbol sbt env p =
    let (fd, e) = on_none-Delivers (counted Arb.restart2 t) symbol sbt env in ([], fd, e, refl, tt)
on_answer-Delivers Arb.arbitrating t symbol sbt env p = ([], t.client_fd, refl, refl, tt)
on_answer-Delivers Arb.won1 t symbol sbt env p = (
  message true started t.bus_state.master t.client_fd t.client_fd ∷ [],
  t.client_fd,
  append_assoc t.queue _ _,
  ground arith,
  (refl, refl),
)
on_answer-Delivers Arb.won2 t symbol sbt env p = (
  message true started t.bus_state.master t.client_fd t.client_fd ∷ [],
  t.client_fd,
  append_assoc t.queue _ _,
  ground arith,
  (refl, refl),
)
on_answer-Delivers Arb.lost1 t symbol sbt env p = (
  message true failed t.bus_state.master t.client_fd t.client_fd ∷ [],
  t.client_fd,
  append_assoc t.queue _ _,
  (t.bus_state.master, p, refl),
  (refl, refl),
)
on_answer-Delivers Arb.lost2 t symbol sbt env p = (
  message true failed t.bus_state.master t.client_fd t.client_fd ∷ [],
  t.client_fd,
  append_assoc t.queue _ _,
  (t.bus_state.master, p, refl),
  (refl, refl),
)
on_answer-Delivers Arb.error t symbol sbt env p = (
  message true error_ebus err_framing t.client_fd t.client_fd ∷ [],
  t.client_fd,
  append_assoc t.queue _ _,
  refl,
  (refl, refl),
)

-- Each received symbol is put into the queue once, behind the notice to the bidder if the bid ends
-- here: a bidder that has won is told its own address and one that has lost an address other than
-- its own; then nobody holds its place any more. The symbol is kept from the bidder exactly while the
-- bid runs and when it is won. (For an object that is in phase, as every reachable one is.)
pub receive_messages :
    (t : BusType) (symbol start_bit_time : ℕ) (readings : Readings)
    → InPhase t
    → let b = Bus.on_data t.bus_state symbol readings.syn_now in
      let o = Arb.on_data t.arbitration b symbol start_bit_time readings.data_env in
      Delivers o.state symbol t.client_fd o.arbitration.arbitration_address t.queue
        (receive t symbol start_bit_time readings)
unfolding receive
receive_messages t symbol sbt readings v =
    on_answer-Delivers _ _ symbol sbt readings.start_env
      (data-Tells t symbol readings.syn_now sbt readings.data_env v)
