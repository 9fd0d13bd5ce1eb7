-- ===== src/Bridge/Tests/Bidding.antt =====
-- A client bids for the bus and wins; another one fails.
use esp_arduino_ebus.Base.{ℕ, ◌+◌, ◌≤◌, ◌≡◌, ◌≢◌, refl, ◌⊎◌, inr, true, [], ◌∷◌, pos, map}
use esp_arduino_ebus.Bridge.BusState.{BusState}
use esp_arduino_ebus.Bridge.BusState as Bus
use esp_arduino_ebus.Bridge.Arbitration.{
  Arbitration, Env, Effect, delay_us, write, start, started, restart2,
}
use esp_arduino_ebus.Bridge.Arbitration as Arb
use esp_arduino_ebus.Bridge.Arbitration.Bounds.{Counts, on_data-Counts}
use esp_arduino_ebus.Bridge.Arbitration.Timing.{start_iff, waited, written, CanStart}
use esp_arduino_ebus.Bridge.BusType.{BusType, Readings, Data, init, receive, on_answer}
use esp_arduino_ebus.Bridge.BusType.Slot.{set_arbitration_client}
use esp_arduino_ebus.Bridge.BusType.Messages.{Delivers, receive_messages}
use esp_arduino_ebus.Bridge.System.{symbol, request, here, next, Sound, Reach-Sound}

abbrev quiet : ℕ → Env
quiet now = record { asynchronous = true; now = now; available = 0 }

-- The bus after its second SYN at time 1000.
abbrev after_syn : BusState
after_syn = record Bus.init { state = Bus.received_first_syn; syn_time = 1000 }

abbrev bidding : Arbitration
bidding = record Arb.init { arbitrating = true; arbitration_address = 0x31 }

start_iff_example :
    let r = start Arb.init after_syn 0x31 1000 (quiet 1200) in
    ((r.0 ≡ started)
      × CanStart Arb.init after_syn 0x31 200 (quiet 1200)
      × (r.1.arbitrating ≡ true)
      × (r.1.arbitration_address ≡ 0x31)
      × (written r.2 ≡ 0x31 ∷ [])
      × (200 + waited r.2 ≡ 3600)
      × (200 + waited r.2 ≤ 4456))
    ⊎ ((r.0 ≢ started)
        × (¬ CanStart Arb.init after_syn 0x31 200 (quiet 1200))
        × (r.1 ≡ Arb.init)
        × (r.2 ≡ []))
start_iff_example = start_iff Arb.init after_syn 0x31 1000 (quiet 1200)

start_waits : (start Arb.init after_syn 0x31 1000 (quiet 1200)).2 ≡ delay_us 3400 ∷ write 0x31 ∷ []
unfolding start
start_waits = refl

-- The bus after SYN 0x11 SYN, with a bidder that takes part in the second round.
abbrev second_syn : BusState
second_syn = record Bus.init { state = Bus.received_second_syn; master = 0x11 }

-- A second SYN in place of an address restarts the bid.
on_data-Counts_example :
    let o =
      Arb.on_data bidding
        (record after_syn { previous_state = Bus.received_first_syn })
        0xAA
        0
        (quiet 0) in
    Counts o.state bidding o.arbitration
on_data-Counts_example =
    on_data-Counts bidding (record after_syn { previous_state = Bus.received_first_syn }) 0xAA 0
      (quiet 0)

abbrev at : ℕ → Readings
at now = record { syn_now = now; data_env = quiet now; start_env = quiet now }

-- Client 5 asks for the bus with address 0x31; two SYN come in; it puts its address on the bus.
abbrev asked : BusType
asked = record init { slot = record { client = pos 5; address = pos 0x31 } }

abbrev bid : BusType
bid = receive (receive asked 0xAA 0 (at 100)) 0xAA 4000 (at 4200)

won : BusType
won = receive bid 0x31 8000 (at 8200)

won_messages : map (λ (d : Data). d.c) won.queue ≡ 1 ∷ 1 ∷ 2 ∷ 1 ∷ []
unfolding won receive on_answer Bus.on_data Arb.on_data start
won_messages = refl

-- Its own address comes back: it is told that it has won.
receive_messages_example :
    let b = Bus.on_data bid.bus_state 0x31 8200 in
    let o = Arb.on_data bid.arbitration b 0x31 8000 (quiet 8200) in
    Delivers o.state 0x31 bid.client_fd o.arbitration.arbitration_address bid.queue
      (receive bid 0x31 8000 (at 8200))
unfolding receive on_answer Bus.on_data Arb.on_data start
receive_messages_example = receive_messages bid 0x31 8000 (at 8200) (inr tt)

Reach-Sound_example : Sound (
    receive
      (record init { slot = (set_arbitration_client (pos 5) 0x31 init.slot).3 })
      0xAA
      0
      (at 100))
Reach-Sound_example =
    Reach-Sound (next (next here (request init 5 0x31)) (symbol _ 0xAA 0 (at 100)))
