-- ===== src/App/CommandManager/Polling/Choice.antt =====
-- src/app/command_manager.cpp: the order in which commands are polled.
use mathlib.Core.List.{Memᴰ}
use esp_arduino_ebus.Base.{
  ℕ, ◌≡◌, ◌≢◌, ◌≤◌, ◌<◌, ◌⊎◌, ◌%◌, ◌^◌, inl, inr, refl, sym, Bool, true, false, List, [], ◌∷◌,
  Option, none, some, ◌==◌, ltb, arith, Bool-cases,
}
use esp_arduino_ebus.App.CommandManager.{Command, get_active}
use esp_arduino_ebus.App.CommandManager.Polling.{
  deadline, earlier, next_loop, due, next_active_command,
}

-- A command that is polled by the device itself.
abbrev pub Polled : Command → List Command → Type 0
Polled c cs = Memᴰ c cs × (get_active c ≡ true)

-- What the choice is to be: a command that was never read; else, the one whose deadline has passed
-- first; else none, since no deadline has passed.
pub data IsNext (cs : List Command) (now : ℕ) : Option Command → Type 0 where
  never_read : {c : Command} → Polled c cs → c.last ≡ 0 → IsNext cs now (some c)
  overdue :
      {c : Command}
      → Polled c cs
      → deadline c ≤ now
      → ((d : Command) → Polled d cs → (d.last ≢ 0) × (deadline c ≤ deadline d))
      → IsNext cs now (some c)
  idle : ((d : Command) → Polled d cs → (d.last ≢ 0) × (now < deadline d)) → IsNext cs now none

-- The loop's result over the commands that are left, from a command that was chosen before them.
record Best (next : Option Command) (cs : List Command) (b : Command) : Type 0 where
  origin : (next ≡ some b) ⊎ Polled b cs
  least : (d : Command) → Polled d cs → (d.last ≢ 0) × (deadline b ≤ deadline d)
  least_next : (a : Command) → next ≡ some a → deadline b ≤ deadline a

data Loop (next : Option Command) (cs : List Command) : Option Command × Bool → Type 0 where
  unread : {c : Command} → Polled c cs → c.last ≡ 0 → Loop next cs (some c, true)
  nothing : next ≡ none → ((d : Command) → ¬ Polled d cs) → Loop next cs (none, false)
  best : {b : Command} → Best next cs b → Loop next cs (some b, false)

Polled-tail : {c d : Command} {cs : List Command} → Polled d cs → Polled d (c ∷ cs)
Polled-tail (m, a) = (Memᴰ.tail m, a)

Polled-nil : {d : Command} → ¬ Polled d []
Polled-nil (m, a) = elim m [ ]

-- A fact of all polled commands of the rest and of the head, where that is polled.
Polled-all :
    (P : Command → Type 0) {c : Command} {cs : List Command}
    → (get_active c ≡ true → P c)
    → ((d : Command) → Polled d cs → P d)
    → (d : Command) → Polled d (c ∷ cs)
    → P d
Polled-all P h t d (Memᴰ.head e, a) = rw e (h (rw (sym e) a))
Polled-all P h t d (Memᴰ.tail m, a) = t d (m, a)

Loop-skip :
    {next : Option Command} (c : Command) {cs : List Command} {r : Option Command × Bool}
    → get_active c ≡ false
    → Loop next cs r
    → Loop next (c ∷ cs) r
Loop-skip c off (Loop.unread p z) = Loop.unread (Polled-tail p) z
Loop-skip c off (Loop.nothing e n) = Loop.nothing e (Polled-all (λ d. ⊥) (λ on. cc) n)
Loop-skip {next} c off (Loop.best {b} s) = Loop.best (record {
  origin = elim s.origin [ inl e ↦ inl e | inr p ↦ inr (Polled-tail p) ];
  least = Polled-all (λ d. (d.last ≢ 0) × (deadline b ≤ deadline d)) (λ on. absurd cc) s.least;
  least_next = s.least_next;
})

record Nearer (next : Option Command) (c a : Command) : Type 0 where
  is : earlier next c ≡ some a
  origin : (next ≡ some a) ⊎ (c ≡ a)
  le_new : deadline a ≤ deadline c
  le_next : (n : Command) → next ≡ some n → deadline a ≤ deadline n

earlier-Nearer : (next : Option Command) (c : Command) → (a : Command) × Nearer next c a
earlier-Nearer none c =
    (c, record { is = refl; origin = inr refl; le_new = omega arith; le_next = λ n e. absurd cc })
earlier-Nearer (some m) c = elim (Bool-cases (ltb (deadline c) (deadline m))) [
  | inl e ↦ (
    c,
    record {
      is = rw e refl;
      origin = inr refl;
      le_new = omega arith;
      le_next = λ n s. ground arith;
    },
  )
  | inr e ↦ (
    m,
    record {
      is = rw e refl;
      origin = inl refl;
      le_new = ground arith;
      le_next = λ n s. ground arith;
    },
  )
]

Loop-take :
    {next : Option Command} (c : Command) {cs : List Command} {r : Option Command × Bool}
    → get_active c ≡ true
    → c.last ≢ 0
    → Loop (earlier next c) cs r
    → Loop next (c ∷ cs) r
Loop-take c on read (Loop.unread p z) = Loop.unread (Polled-tail p) z
Loop-take {next} c on read (Loop.nothing e n) = let (a, x) = earlier-Nearer next c in absurd cc
Loop-take {next} c {cs} on read (Loop.best {b} s) =
    let (a, x) = earlier-Nearer next c in
    let below : deadline b ≤ deadline a = s.least_next a x.is in
    Loop.best {b = b} (record {
      origin = elim s.origin [
        | inl e ↦ elim x.origin [
          | inl f ↦ inl (cc)
          | inr f ↦ inr (let b_is_c : c ≡ b = cc in (Memᴰ.head (sym b_is_c), rw (sym b_is_c) on))
        ]
        | inr p ↦ inr (Polled-tail p)
      ];
      least =
          Polled-all (λ d. (d.last ≢ 0) × (deadline b ≤ deadline d))
            (λ on. (read, omega (arith, below, x.le_new))) s.least;
      least_next = λ n e. omega (arith, below, x.le_next n e);
    })

next_loop-Loop : (next : Option Command) (cs : List Command) → Loop next cs (next_loop next cs)
unfolding next_loop
next_loop-Loop none [] = Loop.nothing refl (λ d p. Polled-nil p)
next_loop-Loop (some n) [] = Loop.best (record {
  origin = inl refl;
  least = λ d p. absurd (Polled-nil p);
  least_next = λ a e. ground arith;
})
next_loop-Loop next (c ∷ cs) = elim (Bool-cases (get_active c)) [
  | inl on ↦ elim (Bool-cases (c.last == 0)) [
    | inl z ↦ rw (on, z) (Loop.unread (Memᴰ.head refl, on) (ground arith))
    | inr z ↦ rw (on, z) (Loop-take c on (ground arith) (next_loop-Loop (earlier next c) cs))
  ]
  | inr off ↦ rw off (Loop-skip c off (next_loop-Loop next cs))
]

due-IsNext :
    {cs : List Command} (now : ℕ) {r : Option Command × Bool}
    → Loop none cs r
    → IsNext cs now (due now r)
due-IsNext now (Loop.unread p z) = IsNext.never_read p z
due-IsNext now (Loop.nothing e n) = IsNext.idle (λ d p. absurd (n d p))
due-IsNext now (Loop.best {b} s) = elim (Bool-cases (ltb now (deadline b))) [
  | inl e ↦ rw e (IsNext.idle (λ d p. let (u, l) = s.least d p in (u, ground arith)))
  | inr e ↦
      rw e (IsNext.overdue (elim s.origin [ inl n ↦ absurd cc | inr p ↦ p ]) (ground arith) s.least)
]

-- Of the commands with an interval, the one to poll next is one that was never read; when all were
-- read, it is one whose deadline has passed and comes no later than any other's; none is polled when
-- all were read and no deadline has passed. Deadlines and the clock are taken modulo 2 ^ 32.
pub next_active_command-IsNext :
    (cs : List Command) (now_ms : ℕ) → IsNext cs (now_ms % 2 ^ 32) (next_active_command cs now_ms)
unfolding next_active_command
next_active_command-IsNext cs now_ms = due-IsNext (now_ms % 2 ^ 32) (next_loop-Loop none cs)
