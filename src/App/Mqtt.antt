-- ===== src/App/Mqtt.antt =====
-- src/app/mqtt.cpp and include/app/mqtt.hpp: the queue of outgoing actions.
pub mod History
pub mod Outgoing
mod Tests
use esp_arduino_ebus.Base.{
  ℕ, ◌+◌, ◌≤◌, ◌<◌, ◌≡◌, Bool, true, false, not, ◌&&◌, ◌||◌, List, [], ◌∷◌, ◌++◌, Option, none,
  some, length, if◌then◌else◌,
}

pub data OutgoingActionType : Type 0 where
  component : OutgoingActionType
  error : OutgoingActionType
  data_of : OutgoingActionType
  update : OutgoingActionType
  discovery : OutgoingActionType
  components : OutgoingActionType
  ha_enable : OutgoingActionType
  ha_disable : OutgoingActionType
  ha_connected : OutgoingActionType

-- `OutgoingAction`; the union is the text of its id or key.
pub record OutgoingAction : Type 0 where
  pub type : OutgoingActionType
  pub text : List ℕ
  pub master : List ℕ
  pub slave : List ℕ

-- What is used of a FreeRTOS queue: `xQueueSend` and `xQueueReceive` without a wait.
pub record Queue : Type 0 where
  pub capacity : ℕ
  pub send : List OutgoingAction → OutgoingAction → Bool × List OutgoingAction
  pub receive : List OutgoingAction → Option OutgoingAction × List OutgoingAction

-- Documented behaviour: items are copied in at the back and taken from the front, and a full queue
-- refuses.
pub record IsQueue (q : Queue) : Type 0 where
  pub not_empty : 0 < q.capacity
  pub send_room :
      (xs : List OutgoingAction) (a : OutgoingAction)
      → length xs < q.capacity
      → q.send xs a ≡ (true, xs ++ a ∷ [])
  pub send_full :
      (xs : List OutgoingAction) (a : OutgoingAction)
      → q.capacity ≤ length xs
      → q.send xs a ≡ (false, xs)
  pub receive_nil : q.receive [] ≡ (none, [])
  pub receive_cons :
      (x : OutgoingAction) (xs : List OutgoingAction) → q.receive (x ∷ xs) ≡ (some x, xs)

-- The members of `Mqtt` that the queue is about; `none` is the queue that is not created yet.
pub record Mqtt : Type 0 where
  pub enabled : Bool
  pub connected : Bool
  pub outgoing_queue : Option (List OutgoingAction)
  pub max_outgoing : ℕ
  pub queue_dropped : ℕ

-- Actions that are left out while the broker is not connected.
abbrev pub is_value : OutgoingActionType → Bool
is_value OutgoingActionType.error = true
is_value OutgoingActionType.data_of = true
is_value OutgoingActionType.update = true
is_value _ = false

-- Where a call of `enqueueOutgoing` that passed its guards stands: before the first `xQueueSend`, before
-- the `xQueueReceive`, before the second `xQueueSend`, before `queue_dropped_` is raised, before
-- `uxQueueMessagesWaiting`, and before `updateMaxAtomic` with its answer.
pub data Call : Type 0 where
  sending : OutgoingAction → Call
  making_room : OutgoingAction → Call
  sending_again : OutgoingAction → Call
  dropping measuring : Call
  recording : ℕ → Call

-- What a call of the queue did to it and to the action: the action went in, the oldest one was taken
-- out, the action was given up as there was none to take out, or as the queue was full again.
pub data Event : Type 0 where
  entered : OutgoingAction → Event
  evicted missed overtaken quiet : Event

-- The rest of the call if it goes on, what happened, and the members.
pub record Moved : Type 0 where
  pub rest : List Call
  pub event : Event
  pub mqtt : Mqtt

-- The guards of `enqueueOutgoing(action)`, and the call that goes on behind them.
unfoldable pub enqueue_outgoing : Mqtt → OutgoingAction → List Call
enqueue_outgoing m action = elim m.outgoing_queue [
  | none ↦ []
  | some waiting ↦
      if not m.enabled || (not m.connected && is_value action.type) then [] else sending action ∷ []
]

abbrev pub with_queue : Mqtt → List OutgoingAction → Mqtt
with_queue m waiting = record m { outgoing_queue = some waiting }

abbrev pub after_send : Mqtt → OutgoingAction → Bool × List OutgoingAction → Moved
after_send m a (true, waiting) = record {
  rest = measuring ∷ [];
  event = entered a;
  mqtt = with_queue m waiting;
}
after_send m a (false, waiting) = record {
  rest = making_room a ∷ [];
  event = quiet;
  mqtt = with_queue m waiting;
}

abbrev pub after_receive :
    Mqtt → OutgoingAction → Option OutgoingAction × List OutgoingAction → Moved
after_receive m a (some oldest, waiting) = record {
  rest = sending_again a ∷ [];
  event = evicted;
  mqtt = with_queue m waiting;
}
after_receive m a (none, waiting) = record {
  rest = dropping ∷ [];
  event = missed;
  mqtt = with_queue m waiting;
}

abbrev pub after_second : Mqtt → OutgoingAction → Bool × List OutgoingAction → Moved
after_second m a (true, waiting) = record {
  rest = dropping ∷ [];
  event = entered a;
  mqtt = with_queue m waiting;
}
after_second m a (false, waiting) = record {
  rest = dropping ∷ [];
  event = overtaken;
  mqtt = with_queue m waiting;
}

-- `update_max` is `ebus::updateMaxAtomic`.
module _ (q : Queue) (update_max : ℕ → ℕ → ℕ) where
  -- The next thing that a call of `enqueueOutgoing` does to what the tasks share.
  unfoldable pub advance : Call → List OutgoingAction → Mqtt → Moved
  advance (sending a) waiting m = after_send m a (q.send waiting a)
  advance (making_room a) waiting m = after_receive m a (q.receive waiting)
  advance (sending_again a) waiting m = after_second m a (q.send waiting a)
  advance dropping waiting m = record {
    rest = measuring ∷ [];
    event = quiet;
    mqtt = record m { queue_dropped = m.queue_dropped + 1 };
  }
  advance measuring waiting m = record {
    rest = recording (length waiting) ∷ [];
    event = quiet;
    mqtt = m;
  }
  advance (recording current) waiting m = record {
    rest = [];
    event = quiet;
    mqtt = record m { max_outgoing = update_max m.max_outgoing current };
  }

-- The `xQueueReceive` of the task.
unfoldable pub take_outgoing : Queue → List OutgoingAction → Mqtt → Option OutgoingAction × Mqtt
take_outgoing q waiting m = let (o, left) = q.receive waiting in (o, with_queue m left)
