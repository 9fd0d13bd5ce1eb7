-- ===== src/Device/Logger/Ring.antt =====
-- One call of `log`: where the entries lie in the ring before and after it.
use native.Mathlib.Nat.{mod-lt, mod-eq_of_lt, mod-eq-sub-mod}
use esp_arduino_ebus.Base.{
  ℕ, ◌+◌, ◌-◌, ◌%◌, ◌^◌, ◌≤◌, ◌<◌, ◌≡◌, ◌≢◌, ◌⊎◌, inl, inr, refl, sym, ◌∙◌, arith, ltb, ltb→lt,
  Bool-cases, if◌then◌else◌, length, get_or, length-set, length-replicate, get_or-set_self,
  get_or-set_ne,
}
use esp_arduino_ebus.Device.Logger.{Logger, LogEntry, blank, clip, init, log, log_index, entry_at}

pub record IsValid (l : Logger) : Type 0 where
  pub holds : l.capacity ≤ length l.buffer
  pub small : l.capacity < 2 ^ 31
  pub index_fits : l.index < l.capacity
  pub entries_fit : l.entries ≤ l.capacity

-- A position that has passed the end of the ring at most once.
abbrev wrap : ℕ → ℕ → ℕ
wrap c s = if ltb s c then s else s - c

mod-wrap : (c s : ℕ) → s < c + c → s % c ≡ wrap c s
mod-wrap c s h = elim (Bool-cases (ltb s c)) [
  | inl e ↦ rw e (mod-eq_of_lt (ltb→lt s c e))
  | inr e ↦ rw e (mod-eq-sub-mod (ground arith) ∙ mod-eq_of_lt (ground arith))
]

log_index-wrap :
    (l : Logger) (i : ℕ)
    → IsValid l
    → i < l.entries
    → log_index l i ≡ wrap l.capacity (l.index + i + l.capacity - l.entries)
unfolding log_index
log_index-wrap l i v h =
    let e : (l.index + i + l.capacity + 2 ^ 32 - l.entries) % 2 ^ 32
        ≡ l.index + i + l.capacity - l.entries =
      omega (arith, v.small, v.index_fits, v.entries_fit) in
    rw e (
      mod-wrap l.capacity (l.index + i + l.capacity - l.entries)
        (omega (arith, v.index_fits, v.entries_fit)))

module _ (l : Logger) (v : IsValid l) where
  pub log-IsValid : (e : LogEntry) → IsValid (log l e)
  unfolding log
  log-IsValid e = record {
    holds = rw (length-set l.buffer l.index (clip e)) v.holds;
    small = v.small;
    index_fits = mod-lt _ (omega (arith, v.index_fits));
    entries_fit = ground (arith, v.entries_fit);
  }

  pub log-capacity : (e : LogEntry) → (log l e).capacity ≡ l.capacity
  unfolding log
  log-capacity e = refl

  log-index : (e : LogEntry) → (log l e).index ≡ wrap l.capacity (l.index + 1)
  unfolding log
  log-index e = mod-wrap l.capacity (l.index + 1) (omega (arith, v.index_fits))

  pub log-entries_room : (e : LogEntry) → l.entries < l.capacity → (log l e).entries ≡ l.entries + 1
  unfolding log
  log-entries_room e room = ground arith

  pub log-entries_full : (e : LogEntry) → l.entries ≡ l.capacity → (log l e).entries ≡ l.entries
  unfolding log
  log-entries_full e full = ground arith

  log-get_self : (e : LogEntry) → get_or (log l e).buffer l.index blank ≡ clip e
  unfolding log
  log-get_self e =
      get_or-set_self l.buffer l.index (clip e) blank (omega (arith, v.index_fits, v.holds))

  log-get_ne :
      (e : LogEntry) (j : ℕ)
      → l.index ≢ j
      → get_or (log l e).buffer j blank ≡ get_or l.buffer j blank
  unfolding log
  log-get_ne e j ne = get_or-set_ne l.buffer (clip e) blank ne

  log_index-ne :
      (i : ℕ) → l.entries ≢ l.capacity ⊎ (0 < i) → i < l.entries → l.index ≢ log_index l i
  log_index-ne i oldest h =
      rw (log_index-wrap l i v h) (ground (arith, v.index_fits, v.entries_fit))

  log_index-log_room :
      (e : LogEntry) (i : ℕ)
      → l.entries < l.capacity
      → i < l.entries
      → log_index (log l e) i ≡ log_index l i
  log_index-log_room e i room h =
      rw
        (
          log_index-wrap (log l e) i (log-IsValid e) (omega (arith, log-entries_room e room)),
          log_index-wrap l i v h,
          log-capacity e,
          log-index e,
          log-entries_room e room,
        )
        (ground (arith, v.index_fits, v.entries_fit))

  log_index-log_full :
      (e : LogEntry) (i : ℕ)
      → l.entries ≡ l.capacity
      → i + 1 < l.entries
      → log_index (log l e) i ≡ log_index l (i + 1)
  log_index-log_full e i full h =
      rw
        (
          log_index-wrap (log l e) i (log-IsValid e) (omega (arith, log-entries_full e full)),
          log_index-wrap l (i + 1) v h,
          log-capacity e,
          log-index e,
          log-entries_full e full,
        )
        (ground (arith, v.index_fits, v.entries_fit))

  log_index-log_new :
      (e : LogEntry) (i : ℕ) → i + 1 ≡ (log l e).entries → log_index (log l e) i ≡ l.index
  log_index-log_new e i last =
      rw
        (
          log_index-wrap (log l e) i (log-IsValid e) (omega arith),
          log-capacity e,
          log-index e,
          sym last,
        )
        (ground (arith, v.index_fits))

  -- The newest entry.
  pub entry_at-log_new :
      (e : LogEntry) (i : ℕ) → i + 1 ≡ (log l e).entries → entry_at (log l e) i ≡ clip e
  entry_at-log_new e i last = rw (log_index-log_new e i last) (log-get_self e)

  -- The other entries, in a ring with room and in a full one.
  pub entry_at-log_room :
      (e : LogEntry) (i : ℕ)
      → l.entries < l.capacity
      → i < l.entries
      → entry_at (log l e) i ≡ entry_at l i
  entry_at-log_room e i room h =
      rw (log_index-log_room e i room h)
        (log-get_ne e (log_index l i) (log_index-ne i (inl (omega arith)) h))

  pub entry_at-log_full :
      (e : LogEntry) (i : ℕ)
      → l.entries ≡ l.capacity
      → i + 1 < l.entries
      → entry_at (log l e) i ≡ entry_at l (i + 1)
  entry_at-log_full e i full h =
      rw (log_index-log_full e i full h)
        (log-get_ne e (log_index l (i + 1)) (log_index-ne (i + 1) (inr (omega arith)) h))

pub init-IsValid :
    (max_entries capacity : ℕ)
    → 0 < max_entries
    → max_entries < 2 ^ 31
    → IsValid (init max_entries capacity)
unfolding init
init-IsValid max_entries capacity some_room small = record {
  holds = rw (length-replicate max_entries blank) (ground arith);
  small = ground arith;
  index_fits = ground arith;
  entries_fit = ground arith;
}
