-- ===== src/Bridge/BusState/Trace.antt =====
-- What the state of the bus says about the symbols received so far.
use native.Mathlib.Decide.{ℕ_discrete}
use esp_arduino_ebus.Base.{ℕ, ◌%◌, ◌^◌, ◌≡◌, refl, ◌≢◌, ◌∙◌, List, [], ◌∷◌, map, false, arith, ◌==◌}
use esp_arduino_ebus.Bridge.BusState.{
  State, startup, startup_first_syn, startup_symbol_after_first_syn, startup_second_syn,
  received_first_syn, received_address_after_first_syn, received_second_syn,
  received_address_after_second_syn, busy, BusState, init, syn_byte, on_data,
}

-- The symbols and the times at which they came in, newest first.
abbrev pub History : Type 0
History = List (ℕ × ℕ)

unfoldable pub run : BusState → History → BusState
run b [] = b
run b ((s, now) ∷ h) = on_data (run b h) s now

abbrev pub symbols : History → List ℕ
symbols = map λ (e : ℕ × ℕ). e.0

-- The reading of the enumeration's names: `m` is the field `master`, `h` the symbols, newest first.
abbrev pub Seen : State → ℕ → List ℕ → Type 0
Seen startup m h = Unit {0}
Seen startup_first_syn m h = (r : List ℕ) × (h ≡ syn_byte ∷ r)
Seen startup_symbol_after_first_syn m h =
    (a : ℕ) × (r : List ℕ) × (a ≢ syn_byte) × (h ≡ a ∷ syn_byte ∷ r)
Seen startup_second_syn m h =
    (a : ℕ) × (r : List ℕ) × (a ≢ syn_byte) × (h ≡ syn_byte ∷ a ∷ syn_byte ∷ r)
Seen received_first_syn m h = (r : List ℕ) × (h ≡ syn_byte ∷ r)
Seen received_address_after_first_syn m h = (r : List ℕ) × (m ≢ syn_byte) × (h ≡ m ∷ syn_byte ∷ r)
Seen received_second_syn m h = (r : List ℕ) × (m ≢ syn_byte) × (h ≡ syn_byte ∷ m ∷ syn_byte ∷ r)
Seen received_address_after_second_syn m h =
    (a : ℕ) × (r : List ℕ) × (a ≢ syn_byte) × (m ≢ syn_byte) × (h ≡ m ∷ syn_byte ∷ a ∷ syn_byte ∷ r)
Seen busy m h = (x : ℕ) × (r : List ℕ) × (x ≢ syn_byte) × (h ≡ x ∷ r)

abbrev pub Holds : BusState → List ℕ → Type 0
Holds b h = Seen b.state b.master h

on_data-Seen-syn :
    (st : State) (b : BusState) (s now : ℕ) (h : List ℕ)
    → b.state ≡ st
    → Seen st b.master h
    → s ≡ syn_byte
    → Holds (on_data b s now) (s ∷ h)
unfolding on_data
on_data-Seen-syn startup b s now h e p q = rw (e, q) (h, refl)
on_data-Seen-syn startup_first_syn b s now h e p q = rw (e, q) (h, refl)
on_data-Seen-syn startup_symbol_after_first_syn b s now h e (a, r, ne, eh) q =
    rw (e, q) (a, r, ne, rw eh)
on_data-Seen-syn startup_second_syn b s now h e p q = rw (e, q) (h, refl)
on_data-Seen-syn received_first_syn b s now h e p q = rw (e, q) (h, refl)
on_data-Seen-syn received_address_after_first_syn b s now h e (r, ne, eh) q =
    rw (e, q) (r, ne, rw eh)
on_data-Seen-syn received_second_syn b s now h e p q = rw (e, q) (h, refl)
on_data-Seen-syn received_address_after_second_syn b s now h e p q = rw (e, q) (h, refl)
on_data-Seen-syn busy b s now h e p q = rw (e, q) (h, refl)

miss : (s : ℕ) → s ≢ syn_byte → (s == syn_byte) ≡ false
miss s ne = ground arith

on_data-Seen-address :
    (st : State) (b : BusState) (s now : ℕ) (h : List ℕ)
    → b.state ≡ st
    → Seen st b.master h
    → s ≢ syn_byte
    → Holds (on_data b s now) (s ∷ h)
unfolding on_data
on_data-Seen-address startup b s now h e p ne = rw (e, miss s ne) tt
on_data-Seen-address startup_first_syn b s now h e (r, eh) ne = rw (e, miss s ne) (s, r, ne, rw eh)
on_data-Seen-address startup_symbol_after_first_syn b s now h e p ne =
    rw (e, miss s ne) (s, h, ne, refl)
on_data-Seen-address startup_second_syn b s now h e p ne = rw (e, miss s ne) (s, h, ne, refl)
on_data-Seen-address received_first_syn b s now h e (r, eh) ne = rw (e, miss s ne) (r, ne, rw eh)
on_data-Seen-address received_address_after_first_syn b s now h e p ne =
    rw (e, miss s ne) (s, h, ne, refl)
on_data-Seen-address received_second_syn b s now h e (r, nm, eh) ne =
    rw (e, miss s ne) (b.master, r, nm, ne, rw eh)
on_data-Seen-address received_address_after_second_syn b s now h e p ne =
    rw (e, miss s ne) (s, h, ne, refl)
on_data-Seen-address busy b s now h e p ne = rw (e, miss s ne) (s, h, ne, refl)

pub on_data-Holds :
    (b : BusState) (s now : ℕ) (h : List ℕ) → Holds b h → Holds (on_data b s now) (s ∷ h)
on_data-Holds b s now h p = elim (ℕ_discrete s syn_byte) [
  | yes e ↦ on_data-Seen-syn b.state b s now h refl p e
  | no ne ↦ on_data-Seen-address b.state b s now h refl p ne
]

-- After any sequence of symbols from power-up, each state stands for the pattern of symbols that
-- its name spells (SYN, SYN ADDRESS, SYN ADDRESS SYN, SYN ADDRESS SYN ADDRESS, a non-SYN symbol for
-- `busy`), ending with the last symbol, and in the states after an address `master` is the last
-- address that was seen.
pub run-Holds : (h : History) → Holds (run init h) (symbols h)
unfolding run
run-Holds [] = tt
run-Holds ((s, now) ∷ h) = on_data-Holds (run init h) s now (symbols h) (run-Holds h)

resync_first :
    (st : State) (b : BusState) (t u : ℕ)
    → b.state ≡ st
    → (on_data (on_data b syn_byte t) syn_byte u).state ≡ received_first_syn
unfolding on_data
resync_first startup b t u e = rw e
resync_first startup_first_syn b t u e = rw e
resync_first startup_symbol_after_first_syn b t u e = rw e
resync_first startup_second_syn b t u e = rw e
resync_first received_first_syn b t u e = rw e
resync_first received_address_after_first_syn b t u e = rw e
resync_first received_second_syn b t u e = rw e
resync_first received_address_after_second_syn b t u e = rw e
resync_first busy b t u e = rw e

-- Whatever the state, two SYN symbols in a row lead to `received_first_syn`, and the two times
-- that are kept are those of these symbols.
resync :
    (b : BusState) (t u : ℕ)
    → let b' = on_data (on_data b syn_byte t) syn_byte u in
      (b'.state ≡ received_first_syn)
      × (b'.syn_time ≡ u % 2 ^ 32)
      × (b'.previous_syn_time ≡ t % 2 ^ 32)
unfolding on_data
resync b t u = (resync_first b.state b t u refl, ground arith, ground arith)

on_data-symbol : (b : BusState) (s now : ℕ) → (on_data b s now).symbol ≡ b.symbol
unfolding on_data
on_data-symbol b s now = ground arith

-- The field `symbol` is never written: after any sequence of symbols it has its old value.
run-symbol : (b : BusState) (h : History) → (run b h).symbol ≡ b.symbol
unfolding run
run-symbol b [] = refl
run-symbol b ((s, now) ∷ h) = on_data-symbol (run b h) s now ∙ run-symbol b h
