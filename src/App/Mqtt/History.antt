-- ===== src/App/Mqtt/History.antt =====
-- src/app/mqtt.cpp: the steps of the tasks that share the queue of outgoing actions.
use esp_arduino_ebus.Base.{
  ℕ, suc, ◌+◌, ◌≤◌, ◌<◌, ◌≡◌, sym, ◌∙◌, ap, Bool, List, [], ◌∷◌, ◌++◌, Option, none, some, length,
  length-append, drop, drop-append, drop-drop, length-drop, arith,
}
use esp_arduino_ebus.App.Mqtt.{
  OutgoingAction, Queue, Mqtt, Call, sending, making_room, sending_again, dropping, measuring,
  recording, Event, entered, evicted, missed, overtaken, quiet, Moved, enqueue_outgoing, advance,
  take_outgoing,
}

-- A history: the members, the calls of `enqueueOutgoing` that have not ended, the actions that went
-- into the queue, in order, and the numbers of the actions that passed the guards, that the task
-- received, and of the events.
pub record History : Type 0 where
  pub mqtt : Mqtt
  pub calls : List Call
  pub sent : List OutgoingAction
  pub accepted : ℕ
  pub received : ℕ
  pub evictions : ℕ
  pub misses : ℕ
  pub overtakings : ℕ

abbrev pub noted : Event → History → History
noted (entered a) h = record h { sent = h.sent ++ a ∷ [] }
noted evicted h = record h { evictions = h.evictions + 1 }
noted missed h = record h { misses = h.misses + 1 }
noted overtaken h = record h { overtakings = h.overtakings + 1 }
noted quiet h = h

abbrev pub moved : Moved → List Call → List Call → History → History
moved v xs ys h = noted v.event (record h { mqtt = v.mqtt; calls = xs ++ (v.rest ++ ys) })

abbrev pub one_more : Option OutgoingAction → ℕ → ℕ
one_more none n = n
one_more (some a) n = suc n

-- A task calls `enqueueOutgoing`, one of the calls goes on, the task of the queue receives, or the
-- connection changes.
pub data Step (q : Queue) (update_max : ℕ → ℕ → ℕ) : History → History → Type 0 where
  call :
      (h : History) (a : OutgoingAction)
      → Step q update_max h (record h {
        calls = enqueue_outgoing h.mqtt a ++ h.calls;
        accepted = h.accepted + length (enqueue_outgoing h.mqtt a);
      })
  go_on :
      (h : History) (xs ys : List Call) (c : Call) (waiting : List OutgoingAction)
      → h.calls ≡ xs ++ c ∷ ys
      → h.mqtt.outgoing_queue ≡ some waiting
      → Step q update_max h (moved (advance q update_max c waiting h.mqtt) xs ys h)
  receive :
      (h : History) (waiting : List OutgoingAction)
      → h.mqtt.outgoing_queue ≡ some waiting
      → Step q update_max h (record h {
        mqtt = (take_outgoing q waiting h.mqtt).1;
        received = one_more (take_outgoing q waiting h.mqtt).0 h.received;
      })
  connection :
      (h : History) (b : Bool)
      → Step q update_max h (record h { mqtt = record h.mqtt { connected = b } })

pub data Reach (q : Queue) (update_max : ℕ → ℕ → ℕ) (s : History) : History → Type 0 where
  here : Reach q update_max s s
  next : {t u : History} → Reach q update_max s t → Step q update_max t u → Reach q update_max s u

abbrev pub start : Mqtt → History
start m = record {
  mqtt = m;
  calls = [];
  sent = [];
  accepted = 0;
  received = 0;
  evictions = 0;
  misses = 0;
  overtakings = 0;
}

-- Calls whose action is neither in the queue nor given up, and calls that have yet to raise
-- `queue_dropped_`.
abbrev pub pending : List Call → ℕ
pending [] = 0
pending (sending a ∷ cs) = suc (pending cs)
pending (making_room a ∷ cs) = suc (pending cs)
pending (sending_again a ∷ cs) = suc (pending cs)
pending (_ ∷ cs) = pending cs

abbrev pub owed : List Call → ℕ
owed [] = 0
owed (sending_again a ∷ cs) = suc (owed cs)
owed (dropping ∷ cs) = suc (owed cs)
owed (_ ∷ cs) = owed cs

pub record IsFifo (q : Queue) (h : History) : Type 0 where
  pub gone : h.evictions + h.received ≤ length h.sent
  pub waiting : h.mqtt.outgoing_queue ≡ some (drop (h.evictions + h.received) h.sent)
  pub bounded : length h.sent ≤ h.evictions + h.received + q.capacity
  pub accounted : h.accepted ≡ length h.sent + h.misses + h.overtakings + pending h.calls
  pub counted : h.evictions + h.misses ≡ h.mqtt.queue_dropped + owed h.calls

pub pending-append : (xs ys : List Call) → pending (xs ++ ys) ≡ pending xs + pending ys
pending-append [] ys = omega arith
pending-append (sending a ∷ xs) ys = omega (arith, pending-append xs ys)
pending-append (making_room a ∷ xs) ys = omega (arith, pending-append xs ys)
pending-append (sending_again a ∷ xs) ys = omega (arith, pending-append xs ys)
pending-append (dropping ∷ xs) ys = pending-append xs ys
pending-append (measuring ∷ xs) ys = pending-append xs ys
pending-append (recording n ∷ xs) ys = pending-append xs ys

pub owed-append : (xs ys : List Call) → owed (xs ++ ys) ≡ owed xs + owed ys
owed-append [] ys = omega arith
owed-append (sending a ∷ xs) ys = owed-append xs ys
owed-append (making_room a ∷ xs) ys = owed-append xs ys
owed-append (sending_again a ∷ xs) ys = omega (arith, owed-append xs ys)
owed-append (dropping ∷ xs) ys = omega (arith, owed-append xs ys)
owed-append (measuring ∷ xs) ys = owed-append xs ys
owed-append (recording n ∷ xs) ys = owed-append xs ys

-- `w` is what is left of `sent` after `k` were taken out.
pub record IsLeft (cap : ℕ) (w sent : List OutgoingAction) (k : ℕ) : Type 0 where
  pub gone : k ≤ length sent
  pub left : w ≡ drop k sent
  pub bounded : length sent ≤ k + cap

module _ {cap : ℕ} {w sent : List OutgoingAction} {k : ℕ} (l : IsLeft cap w sent k) where
  length-left : k + length w ≡ length sent
  length-left = omega (arith, l.gone, ap length l.left, length-drop k sent)

  pub entered-IsLeft :
      (a : OutgoingAction) → length w < cap → IsLeft cap (w ++ a ∷ []) (sent ++ a ∷ []) k
  entered-IsLeft a room = record {
    gone = omega (arith, l.gone, length-append sent (a ∷ []));
    left = ap (λ u. u ++ a ∷ []) l.left ∙ sym (drop-append k sent (a ∷ []) l.gone);
    bounded = omega (arith, room, length-left, length-append sent (a ∷ []));
  }

pub taken-IsLeft :
    {cap k : ℕ} {w sent : List OutgoingAction} (x : OutgoingAction)
    → IsLeft cap (x ∷ w) sent k
    → IsLeft cap w sent (k + 1)
taken-IsLeft {k = k} {sent = sent} x l = record {
  gone = omega (arith, length-left l);
  left = ap (drop 1) l.left ∙ drop-drop 1 k sent;
  bounded = omega (arith, l.bounded);
}
