-- ===== src/Bridge/BusState/Tests.antt =====
-- Runs of the state of the bus.
use esp_arduino_ebus.Base.{◌≡◌, refl, [], ◌∷◌}
use esp_arduino_ebus.Bridge.BusState.{received_address_after_second_syn, init, on_data}
use esp_arduino_ebus.Bridge.BusState.Trace.{History, run, symbols, Holds, run-Holds}

-- Two SYN to start with, then SYN 0x31 SYN 0x71, newest first.
abbrev two_rounds : History
two_rounds = (0x71, 60) ∷ (0xAA, 50) ∷ (0x31, 40) ∷ (0xAA, 30) ∷ (0xAA, 20) ∷ []

two_rounds_state : (run init two_rounds).state ≡ received_address_after_second_syn
unfolding run on_data
two_rounds_state = refl

two_rounds_master : (run init two_rounds).master ≡ 0x71
unfolding run on_data
two_rounds_master = refl

run-Holds_example : Holds (run init two_rounds) (symbols two_rounds)
run-Holds_example = run-Holds two_rounds
