-- ===== src/App/Cron/Rules/Accepted.antt =====
-- src/app/cron.cpp: a rule that validateRule accepts, at a tick.
use esp_arduino_ebus.Base.{
  ℕ, ◌+◌, ◌-◌, ◌/◌, ◌≤◌, ◌≡◌, refl, ◌∙◌, ap, inl, inr, Bool, true, false, not, List, [], ◌∷◌,
  Option, none, some, if◌then◌else◌, pos, int_eq, arith,
}
use esp_arduino_ebus.Device.StringPool.{StringPool}
use esp_arduino_ebus.App.CommandManager.{Command, CommandManager, has_write_cmd}
use esp_arduino_ebus.App.CommandManager.Store.{find_command}
use esp_arduino_ebus.App.CommandManager.WriteCmds.{command_write_cmd}
use esp_arduino_ebus.App.Cron.{is_empty}
use esp_arduino_ebus.App.Cron.Fields.{
  match_field, validate_field_expression, validate_field_expression-match,
}
use esp_arduino_ebus.App.Cron.Schedule.{Tm, scan, match_fields, match_scanned, match_schedule}
use esp_arduino_ebus.App.Cron.Rules.{
  Rule, RuleError, Host, validate_command, validate_fields, validate_scanned, validate_rule, skips,
  enqueued, tick_rule,
}
use esp_arduino_ebus.App.Cron.Rules.Minute.{triggered, tick_rule-trigger}

-- A check that was passed, and what comes after it.
passed :
    (b : Bool) (e : RuleError) (rest : Option RuleError)
    → (if b then some e else rest) ≡ none
    → (b ≡ false) × (rest ≡ none)
passed true e rest h = absurd cc
passed false e rest h = (refl, h)

of_negation : (b : Bool) → not b ≡ false → b ≡ true
of_negation true h = refl
of_negation false h = absurd cc

-- Each field of a time within its own range; the five need not be a date of the calendar.
pub record IsInRange (t : Tm) : Type 0 where
  pub minute : t.tm_min ≤ 59
  pub hour : t.tm_hour ≤ 23
  pub day : (1 ≤ t.tm_mday) × (t.tm_mday ≤ 31)
  pub month : t.tm_mon ≤ 11
  pub week_day : t.tm_wday ≤ 6

module _ (h : Host) where
  match_fields-five :
      (a b c d e : List ℕ) (t : Tm)
      → match_field h.push_back a t.tm_min 0 59 false ≡ true
      → match_field h.push_back b t.tm_hour 0 23 false ≡ true
      → match_field h.push_back c t.tm_mday 1 31 false ≡ true
      → match_field h.push_back d (t.tm_mon + 1) 1 12 false ≡ true
      → match_field h.push_back e t.tm_wday 0 6 true ≡ true
      → match_fields h.push_back (a ∷ b ∷ c ∷ d ∷ e ∷ []) t ≡ true
  unfolding match_fields
  match_fields-five a b c d e t p q r s u = rw (p, q, r, s, u) refl

  -- Five valid fields are met at some time.
  validate_fields-match :
      (fields : List (List ℕ)) (rest : Option RuleError)
      → validate_fields h fields rest ≡ none
      → ((t : Tm) × IsInRange t × (match_fields h.push_back fields t ≡ true)) × (rest ≡ none)
  validate_fields-match [] rest v = absurd cc
  validate_fields-match (a ∷ []) rest v = absurd cc
  validate_fields-match (a ∷ b ∷ []) rest v = absurd cc
  validate_fields-match (a ∷ b ∷ c ∷ []) rest v = absurd cc
  validate_fields-match (a ∷ b ∷ c ∷ d ∷ []) rest v = absurd cc
  validate_fields-match (a ∷ b ∷ c ∷ d ∷ e ∷ f ∷ fs) rest v = absurd cc
  validate_fields-match (a ∷ b ∷ c ∷ d ∷ e ∷ []) rest v =
      let (va, v1) = passed (not (validate_field_expression h.push_back a 0 59 false)) _ _ v in
      let (vb, v2) = passed (not (validate_field_expression h.push_back b 0 23 false)) _ _ v1 in
      let (vc, v3) = passed (not (validate_field_expression h.push_back c 1 31 false)) _ _ v2 in
      let (vd, v4) = passed (not (validate_field_expression h.push_back d 1 12 false)) _ _ v3 in
      let (ve, v5) = passed (not (validate_field_expression h.push_back e 0 6 true)) _ _ v4 in
      let (min, x0, x1, ma) =
        validate_field_expression-match h.push_back 0 59 false a (omega arith, inl refl)
          (of_negation _ va) in
      let (hour, y0, y1, mb) =
        validate_field_expression-match h.push_back 0 23 false b (omega arith, inl refl)
          (of_negation _ vb) in
      let (mday, z0, z1, mc) =
        validate_field_expression-match h.push_back 1 31 false c (omega arith, inl refl)
          (of_negation _ vc) in
      let (mon, w0, w1, md) =
        validate_field_expression-match h.push_back 1 12 false d (omega arith, inl refl)
          (of_negation _ vd) in
      let (wday, u0, u1, me) =
        validate_field_expression-match h.push_back 0 6 true e (omega arith, inr (refl, refl))
          (of_negation _ ve) in
      let t : Tm = record {
        tm_min = min;
        tm_hour = hour;
        tm_mday = mday;
        tm_mon = mon - 1;
        tm_wday = wday;
      } in
      let back : mon - 1 + 1 ≡ mon = omega arith in
      let r : IsInRange t = record {
        minute = x1;
        hour = y1;
        day = (z0, z1);
        month = omega arith;
        week_day = u1;
      } in
      ((t, r, match_fields-five a b c d e t ma mb mc (rw back md) me), v5)

  validate_scanned-match :
      (fields : Option (List (List ℕ))) (rest : Option RuleError)
      → validate_scanned h fields rest ≡ none
      → ((t : Tm) × IsInRange t × (match_scanned h.push_back h.assign fields t ≡ true))
        × (rest ≡ none)
  unfolding match_scanned
  validate_scanned-match none rest v = absurd cc
  validate_scanned-match (some fields) rest v = validate_fields-match fields rest v

  -- The command of a valid rule can be written, and the value is not empty.
  validate_command-enqueued :
      {F : Type 0} (commands : CommandManager F) (value_json : List ℕ) (o : Option Command)
      → validate_command h value_json o ≡ none
      → (c : Command) × (o ≡ some c)
        × (enqueued h commands value_json o
            ≡ h.append
                (command_write_cmd commands.write_cmds c.write_cmd_idx)
                (h.get_vector_from_value c value_json)
              ∷ [])
        × (is_empty (h.get_vector_from_value c value_json) ≡ false)
  validate_command-enqueued commands value_json none v = absurd cc
  validate_command-enqueued commands value_json (some c) v =
      let (w, v1) = passed (not (has_write_cmd c)) _ _ v in
      let (x, v2) = passed (is_empty (h.get_vector_from_value c value_json)) _ _ v1 in
      (c, refl, rw (w, x) refl, x)

  validate_rule-match :
      {F : Type 0} (pool : StringPool) (commands : CommandManager F) (rule : Rule)
      → validate_rule h pool commands rule ≡ none
      → ((t : Tm) × IsInRange t × (match_schedule h.push_back h.assign rule.schedule t ≡ true))
        × (validate_command h rule.value_json (find_command pool commands.commands rule.command_key)
            ≡ none)
  unfolding validate_rule match_schedule
  validate_rule-match pool commands rule v =
      let (e1, v1) = passed (is_empty rule.id) _ _ v in
      let (e2, v2) = passed (is_empty rule.schedule) _ _ v1 in
      let (e3, v3) = passed (is_empty rule.command_key) _ _ v2 in
      let (e4, v4) = passed (is_empty rule.value_json) _ _ v3 in
      let (e5, v5) = passed _ _ _ v4 in
      validate_scanned-match (scan h.push_back h.assign [] [] rule.schedule) _ v5

  -- For a rule that `validateRule` accepts, enabled and not triggered in the minute of `n`, there are a
  -- minute, an hour, a day, a month and a weekday in their ranges such that, if the clock shows them at
  -- `n`, the rule is triggered and enqueues the write telegram of its command with the bytes of its
  -- value, which is not empty.
  pub validate_rule-tick_rule :
      {F : Type 0} (pool : StringPool) (commands : CommandManager F) (rule : Rule) (n : ℕ)
      → validate_rule h pool commands rule ≡ none
      → rule.enabled ≡ true
      → int_eq rule.last_triggered_minute (pos (n / 60)) ≡ false
      → (t : Tm) × IsInRange t
        × (c : Command) × (find_command pool commands.commands rule.command_key ≡ some c)
        × (tick_rule (record h { local_time = λ k. t }) pool commands n rule ≡ (
          triggered (n / 60) rule,
          h.append
                (command_write_cmd commands.write_cmds c.write_cmd_idx)
                (h.get_vector_from_value c rule.value_json)
              ∷ [],
        ))
        × (is_empty (h.get_vector_from_value c rule.value_json) ≡ false)
  validate_rule-tick_rule pool commands rule n v on fresh =
      let ((t, r, m), w) = validate_rule-match pool commands rule v in
      let (c, found, sent, some_bytes) =
        validate_command-enqueued commands rule.value_json
          (find_command pool commands.commands rule.command_key) w in
      let free : skips (record h { local_time = λ k. t }) (n / 60) t rule ≡ false =
        rw (on, fresh, m) refl in
      (
        t,
        r,
        c,
        found,
        tick_rule-trigger (record h { local_time = λ k. t }) pool commands n rule free
            ∙ ap (λ es. (triggered (n / 60) rule, es)) sent,
        some_bytes,
      )
