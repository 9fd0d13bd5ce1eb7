-- ===== src/Bridge/System.antt =====
-- The bus object between the tasks that use it: the task that receives symbols, and the task that
-- serves the clients, whose steps come in any order.
use esp_arduino_ebus.Base.{ℕ, inl, refl, pos, arith}
use esp_arduino_ebus.Bridge.BusType.{BusType, Readings, init, receive, read}
use esp_arduino_ebus.Bridge.BusType.Slot.{set_arbitration_client, clear_arbitration_client}
use esp_arduino_ebus.Bridge.BusType.Accounting.{IsValid, init-IsValid, receive-IsValid}
use esp_arduino_ebus.Bridge.BusType.Phase.{InPhase, receive-InPhase}

pub data Step : BusType → BusType → Type 0 where
  -- a symbol comes in from the UART
  symbol :
      (t : BusType) (s start_bit_time : ℕ) (readings : Readings)
      → Step t (receive t s start_bit_time readings)
  -- a client asks for the bus, or for its bid to be dropped
  request :
      (t : BusType) (fd address : ℕ)
      → Step t (record t { slot = (set_arbitration_client (pos fd) address t.slot).3 })
  clear : (t : BusType) → Step t (record t { slot = clear_arbitration_client t.slot })
  -- the client task takes a message
  take : (t : BusType) → Step t (read t).1

pub data Reach (s : BusType) : BusType → Type 0 where
  here : Reach s s
  next : {t u : BusType} → Reach s t → Step t u → Reach s u

pub record Sound (t : BusType) : Type 0 where
  pub valid : IsValid t
  pub phase : InPhase t

read-Sound : (t : BusType) → Sound t → Sound (read t).1
unfolding read
read-Sound t v = record {
  valid = record { balanced = ground arith; owned = ground arith; restarts = ground arith };
  phase = ground arith;
}

Step-Sound : {t u : BusType} → Step t u → Sound t → Sound u
Step-Sound (symbol t s sbt readings) v = record {
  valid = receive-IsValid t s sbt readings v.valid;
  phase = receive-InPhase t s sbt readings v.phase;
}
Step-Sound (request t fd address) v = record {
  valid = record {
    balanced = v.valid.balanced;
    owned = v.valid.owned;
    restarts = v.valid.restarts;
  };
  phase = v.phase;
}
Step-Sound (clear t) v = record {
  valid = record {
    balanced = v.valid.balanced;
    owned = v.valid.owned;
    restarts = v.valid.restarts;
  };
  phase = v.phase;
}
Step-Sound (take t) v = read-Sound t v

-- However the steps of the tasks are interleaved from power-up on, the bids are balanced with their
-- ends, a running bid has a client and the restart counter is at most 3; and while a bid runs the
-- bus is in a state of an arbitration in which the bid has not met its own address.
pub Reach-Sound : {t : BusType} → Reach init t → Sound t
Reach-Sound here = record { valid = init-IsValid; phase = inl refl }
Reach-Sound (next r st) = Step-Sound st (Reach-Sound r)
