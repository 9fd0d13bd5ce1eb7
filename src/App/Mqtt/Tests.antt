-- ===== src/App/Mqtt/Tests.antt =====
-- A queue with room for two actions.
use esp_arduino_ebus.Base.{
  ℕ, ◌≡◌, refl, true, false, List, [], ◌∷◌, ◌++◌, Option, none, some, leb, length, if◌then◌else◌,
}
use esp_arduino_ebus.App.Mqtt.{
  OutgoingActionType, OutgoingAction, Queue, Mqtt, dropping, measuring, enqueue_outgoing,
}
use esp_arduino_ebus.App.Mqtt.History.{History}

abbrev front : List OutgoingAction → Option OutgoingAction × List OutgoingAction
front [] = (none, [])
front (x ∷ xs) = (some x, xs)

abbrev two : Queue
two = record {
  capacity = 2;
  send = λ xs a. if leb 2 (length xs) then (false, xs) else (true, xs ++ a ∷ []);
  receive = front;
}

abbrev latest : ℕ → ℕ → ℕ
latest old new = if leb old new then new else old

abbrev action : OutgoingActionType → ℕ → OutgoingAction
action type c = record { type = type; text = c ∷ []; master = []; slave = [] }

abbrev created : Mqtt
created = record {
  enabled = true;
  connected = false;
  outgoing_queue = some [];
  max_outgoing = 0;
  queue_dropped = 0;
}

abbrev a2 : OutgoingAction
a2 = action OutgoingActionType.discovery 2

abbrev a3 : OutgoingAction
a3 = action OutgoingActionType.discovery 3

abbrev a4 : OutgoingAction
a4 = action OutgoingActionType.discovery 4

abbrev a5 : OutgoingAction
a5 = action OutgoingActionType.discovery 5

-- A value is left out before the connection.
update-refused : enqueue_outgoing created (action OutgoingActionType.update 1) ≡ []
unfolding enqueue_outgoing
update-refused = refl

-- Two actions fill the queue; the call for a third evicts the first, but before it sends again another
-- call takes the room, and the third action is given up.
abbrev overtaken_once : History
overtaken_once = record {
  mqtt = record created { outgoing_queue = some (a3 ∷ a5 ∷ []) };
  calls = measuring ∷ dropping ∷ measuring ∷ measuring ∷ [];
  sent = a2 ∷ a3 ∷ a5 ∷ [];
  accepted = 4;
  received = 0;
  evictions = 1;
  misses = 0;
  overtakings = 1;
}
