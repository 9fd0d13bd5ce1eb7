-- ===== src/App/Cron/Rules/Minute.antt =====
-- src/app/cron.cpp: several ticks in one minute.
use esp_arduino_ebus.Base.{
  ℕ, ◌/◌, ◌≡◌, refl, ap, inl, inr, true, false, List, [], ◌∷◌, ◌++◌, ◌==◌, if◌then◌else◌, ℤ, pos,
  negsuc, arith, Bool-cases, append-nil, ◌<◌,
}
use esp_arduino_ebus.Device.StringPool.{StringPool}
use esp_arduino_ebus.App.CommandManager.{CommandManager}
use esp_arduino_ebus.App.CommandManager.Store.{find_command}
use esp_arduino_ebus.App.Cron.Schedule.{Tm}
use esp_arduino_ebus.App.Cron.Rules.{
  Rule, Host, skips, enqueued, tick_rule, tick_rules, with_rest, tick,
}

abbrev pub triggered : ℕ → Rule → Rule
triggered minute_stamp r = record r { last_triggered_minute = pos minute_stamp }

module _ (h : Host) where
  -- `n` and `now` are in one minute, and the clock shows the same fields.
  abbrev pub SameMinute : ℕ → ℤ → Type 0
  SameMinute n (pos k) = (k / 60 ≡ n / 60) × (h.local_time k ≡ h.local_time n)
  SameMinute n (negsuc k) = ⊥

  abbrev pub AllSameMinute : {F : Type 0} → ℕ → List (CommandManager F × ℤ) → Type 0
  AllSameMinute n [] = Unit {0}
  AllSameMinute n ((commands, now) ∷ ticks) = SameMinute n now × AllSameMinute n ticks

  skips-triggered : (m : ℕ) (t : Tm) (r : Rule) → skips h m t (triggered m r) ≡ true
  skips-triggered m t r = ground arith

module _ {F : Type 0} (h : Host) (pool : StringPool) where
  -- Ticks one after the other, each with the commands and the clock that it finds.
  abbrev pub tick_all : List (CommandManager F × ℤ) → List Rule → List Rule × List (List ℕ)
  tick_all [] rules = (rules, [])
  tick_all ((commands, now) ∷ ticks) rules =
      let (rules', sent) = tick h pool commands now rules in
      let (rules'', more) = tick_all ticks rules' in (rules'', sent ++ more)

  pub tick_rule-skip :
      (commands : CommandManager F) (n : ℕ) (r : Rule)
      → skips h (n / 60) (h.local_time n) r ≡ true
      → tick_rule h pool commands n r ≡ (r, [])
  unfolding tick_rule
  tick_rule-skip commands n r e = rw e refl

  pub tick_rule-trigger :
      (commands : CommandManager F) (n : ℕ) (r : Rule)
      → skips h (n / 60) (h.local_time n) r ≡ false
      → tick_rule h pool commands n r ≡ (
        triggered (n / 60) r,
        enqueued h commands r.value_json (find_command pool commands.commands r.command_key),
      )
  unfolding tick_rule
  tick_rule-trigger commands n r e = rw e refl

  tick_rule-again :
      (commands commands' : CommandManager F) (n k : ℕ) (r : Rule)
      → k / 60 ≡ n / 60
      → h.local_time k ≡ h.local_time n
      → tick_rule h pool commands' k (tick_rule h pool commands n r).0
        ≡ ((tick_rule h pool commands n r).0, [])
  tick_rule-again commands commands' n k r m l =
      elim (Bool-cases (skips h (n / 60) (h.local_time n) r)) [
        | inl e ↦ rw (tick_rule-skip commands n r e) (tick_rule-skip commands' k r (rw (m, l) e))
        | inr e ↦ rw (tick_rule-trigger commands n r e) (
            tick_rule-skip commands' k (triggered (n / 60) r)
              (rw m (skips-triggered h (n / 60) (h.local_time k) r)))
      ]

  tick_rules-nil :
      (commands : CommandManager F) (n : ℕ) → tick_rules h pool commands n [] ≡ ([], [])
  unfolding tick_rules
  tick_rules-nil commands n = refl

  tick_rules-cons :
      (commands : CommandManager F) (n : ℕ) (r : Rule) (rs : List Rule)
      → tick_rules h pool commands n (r ∷ rs)
        ≡ with_rest (tick_rule h pool commands n r) (tick_rules h pool commands n rs)
  unfolding tick_rules
  tick_rules-cons commands n r rs = refl

  tick_rules-again :
      (commands commands' : CommandManager F) (n k : ℕ) (rs : List Rule)
      → k / 60 ≡ n / 60
      → h.local_time k ≡ h.local_time n
      → tick_rules h pool commands' k (tick_rules h pool commands n rs).0
        ≡ ((tick_rules h pool commands n rs).0, [])
  tick_rules-again commands commands' n k [] m l =
      rw (tick_rules-nil commands n) (tick_rules-nil commands' k)
  tick_rules-again commands commands' n k (r ∷ rs) m l =
      rw
        (
          tick_rules-cons commands n r rs,
          tick_rules-cons commands' k (tick_rule h pool commands n r).0
              (tick_rules h pool commands n rs).0,
          tick_rule-again commands commands' n k r m l,
          tick_rules-again commands commands' n k rs m l,
        )
        refl

  tick-pos :
      (commands : CommandManager F) (n : ℕ) (rs : List Rule)
      → tick h pool commands (pos n) rs
        ≡ (if n == 0 then (rs, []) else tick_rules h pool commands n rs)
  unfolding tick
  tick-pos commands n rs = refl

  tick_all-again :
      (commands : CommandManager F) (n : ℕ) (rs : List Rule) (ticks : List (CommandManager F × ℤ))
      → AllSameMinute h n ticks
      → tick_all ticks (tick_rules h pool commands n rs).0
        ≡ ((tick_rules h pool commands n rs).0, [])
  tick_all-again commands n rs [] s = refl
  tick_all-again commands n rs ((commands', pos k) ∷ ticks) ((m, l), s) =
      elim (Bool-cases (k == 0)) [
        | inl z ↦
            rw (tick-pos commands' k (tick_rules h pool commands n rs).0, z)
              (rw (tick_all-again commands n rs ticks s) refl)
        | inr z ↦
            rw
              (
                tick-pos commands' k (tick_rules h pool commands n rs).0,
                z,
                tick_rules-again commands commands' n k rs m l,
                tick_all-again commands n rs ticks s,
              )
              refl
      ]
  tick_all-again commands n rs ((commands', negsuc k) ∷ ticks) (s, t) = absurd s

  -- After a tick, further ticks in the same minute trigger no rule and enqueue nothing, whatever
  -- happens to the commands between them, as long as the clock's fields stay the same.
  pub tick_all-SameMinute :
      (commands : CommandManager F) (n : ℕ) (rules : List Rule)
      (ticks : List (CommandManager F × ℤ))
      → 0 < n
      → AllSameMinute h n ticks
      → tick_all ((commands, pos n) ∷ ticks) rules ≡ tick h pool commands (pos n) rules
  tick_all-SameMinute commands n rules ticks p s =
      let z : (n == 0) ≡ false = ground arith in
      rw (tick-pos commands n rules, z, tick_all-again commands n rules ticks s)
        (ap (λ sent. ((tick_rules h pool commands n rules).0, sent))
          (append-nil (tick_rules h pool commands n rules).1))
