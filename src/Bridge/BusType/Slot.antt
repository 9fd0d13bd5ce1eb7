-- ===== src/Bridge/BusType/Slot.antt =====
-- The globals `arbitration_client` and `arbitration_address` of src/bridge/bus_type.cpp: the one
-- client that bids for the bus. The mutex makes each function one step; the steps of the
-- different tasks are interleaved in `Bridge.System`.
use esp_arduino_ebus.Base.{
  ℕ, ◌-◌, ◌%◌, Bool, true, false, if◌then◌else◌, ℤ, pos, negsuc, is_neg, minus_one,
}

pub record ArbitrationSlot : Type 0 where
  pub client : ℤ
  pub address : ℤ

abbrev pub empty : ArbitrationSlot
empty = record { client = minus_one; address = minus_one }

-- `uint8_t address = arbitration_address`: an `int` cut to a byte.
abbrev pub to_byte : ℤ → ℕ
to_byte (pos n) = n % 256
to_byte (negsuc n) = 255 - n % 256

-- `getArbitrationClient(client_fd, address)`: what it writes to its two arguments.
unfoldable pub get_arbitration_client : ArbitrationSlot → ℤ × ℕ
get_arbitration_client s = (s.client, to_byte s.address)

unfoldable pub clear_arbitration_client : ArbitrationSlot → ArbitrationSlot
clear_arbitration_client s = record { client = minus_one; address = minus_one }

-- `setArbitrationClient(client_fd, address)`: the answer, the two arguments as it leaves them, and
-- the globals.
unfoldable pub set_arbitration_client : ℤ → ℕ → ArbitrationSlot → Bool × ℤ × ℕ × ArbitrationSlot
set_arbitration_client fd address s =
    if is_neg s.client
    then (true, fd, address, record { client = fd; address = pos address })
    else (false, s.client, to_byte s.address, s)

unfoldable pub arbitration_done : ArbitrationSlot → ArbitrationSlot
unfolding clear_arbitration_client
arbitration_done s = clear_arbitration_client s

-- `arbitrationRequested(address)`: the answer, and what it writes to its argument.
unfoldable pub arbitration_requested : ArbitrationSlot → ℤ × ℕ
unfolding get_arbitration_client
arbitration_requested s = get_arbitration_client s
