-- ===== src/Device/Logger/Retention.antt =====
-- src/system/logger.cpp: fetchLogs after a sequence of calls of log.
use esp_arduino_ebus.Base.{
  ℕ, zero, suc, ◌+◌, ◌-◌, ◌<◌, ◌^◌, ◌≡◌, inl, inr, refl, sym, ◌∙◌, ap, ap₂, List, [], ◌∷◌, ◌++◌,
  map, append-nil, append_assoc, arith, ltb, leb-cases, if◌then◌else◌, length, length-append, last,
  last_short, last_cons, last-append_last,
}
use esp_arduino_ebus.Device.Logger.{
  Logger, LogEntry, clip, init, log, entry_at, fetch_from, fetch_logs,
}
use esp_arduino_ebus.Device.Logger.Ring.{
  IsValid, init-IsValid, log-IsValid, log-capacity, log-entries_room, log-entries_full,
  entry_at-log_new, entry_at-log_room, entry_at-log_full,
}

-- The logger after a sequence of calls.
abbrev pub run : Logger → List LogEntry → Logger
run l [] = l
run l (m ∷ ms) = run (log l m) ms

-- The entries that are not older than `since_millis`.
abbrev pub recent : ℕ → List LogEntry → List LogEntry
recent since_millis [] = []
recent since_millis (e ∷ es) =
    if ltb e.timestamp since_millis then recent since_millis es else e ∷ recent since_millis es

-- The values of `f` at `i` and the `k - 1` numbers after it.
abbrev window : (ℕ → LogEntry) → ℕ → ℕ → List LogEntry
window f zero i = []
window f (suc k) i = f i ∷ window f k (i + 1)

length-window : (f : ℕ → LogEntry) (k i : ℕ) → length (window f k i) ≡ k
length-window f zero i = refl
length-window f (suc k) i = ap suc (length-window f k (i + 1))

window_snoc : (f : ℕ → LogEntry) (k i : ℕ) → window f (suc k) i ≡ window f k i ++ f (i + k) ∷ []
window_snoc f zero i = ap (λ j. f j ∷ []) (omega arith)
window_snoc f (suc k) i =
    ap (◌∷◌ (f i))
      (window_snoc f k (i + 1) ∙ ap (λ j. window f k (i + 1) ++ f j ∷ []) (omega arith))

window_ext :
    (f g : ℕ → LogEntry) (k i i' : ℕ)
    → ((j : ℕ) → j < k → f (i + j) ≡ g (i' + j))
    → window f k i ≡ window g k i'
window_ext f g zero i i' same = refl
window_ext f g (suc k) i i' same =
    ap₂ ◌∷◌ (ap f (omega arith) ∙ same 0 (omega arith) ∙ ap g (omega arith)) (
      window_ext f g k (i + 1) (i' + 1)
        (λ j h. ap f (omega arith) ∙ same (suc j) (omega arith) ∙ ap g (omega arith)))

fetch_from-recent :
    (l : Logger) (since_millis k i : ℕ)
    → fetch_from l since_millis k i ≡ recent since_millis (window (entry_at l) k i)
unfolding fetch_from
fetch_from-recent l since_millis zero i = refl
fetch_from-recent l since_millis (suc k) i = rw (fetch_from-recent l since_millis k (i + 1)) refl

-- The entries in the ring, the oldest first.
abbrev contents : Logger → List LogEntry
contents l = window (entry_at l) l.entries 0

fetch_logs-recent :
    (l : Logger) (since_millis : ℕ) → fetch_logs l since_millis ≡ recent since_millis (contents l)
unfolding fetch_logs
fetch_logs-recent l since_millis = fetch_from-recent l since_millis l.entries 0

module _ (l : Logger) (v : IsValid l) (e : LogEntry) where
  contents-log_room :
      l.entries < l.capacity → contents (log l e) ≡ last l.capacity (contents l ++ clip e ∷ [])
  contents-log_room room =
      ap (λ k. window (entry_at (log l e)) k 0) {y = suc l.entries}
        (omega (arith, log-entries_room l v e room))
      ∙ window_snoc (entry_at (log l e)) l.entries 0
      ∙ ap₂ (λ xs x. xs ++ x ∷ [])
          (window_ext (entry_at (log l e)) (entry_at l) l.entries 0 0
            (λ j h. entry_at-log_room l v e (0 + j) room (omega arith)))
          (entry_at-log_new l v e (0 + l.entries) (omega (arith, log-entries_room l v e room)))
      ∙ sym (
          last_short l.capacity (contents l ++ clip e ∷ []) (
            omega (
              arith,
              length-append (contents l) (clip e ∷ []),
              length-window (entry_at l) l.entries 0,
            )))

  contents-log_full :
      (k : ℕ)
      → l.entries ≡ l.capacity
      → l.entries ≡ suc k
      → contents (log l e) ≡ last l.capacity (contents l ++ clip e ∷ [])
  contents-log_full k full more =
      ap (λ n. window (entry_at (log l e)) n 0) (log-entries_full l v e full ∙ more)
      ∙ window_snoc (entry_at (log l e)) k 0
      ∙ ap₂ (λ xs x. xs ++ x ∷ [])
          (window_ext (entry_at (log l e)) (entry_at l) k 0 1 (λ j h.
            entry_at-log_full l v e (0 + j) full (omega arith) ∙ ap (entry_at l) (omega arith)))
          (entry_at-log_new l v e (0 + k) (omega (arith, log-entries_full l v e full)))
      ∙ sym (
          last_cons l.capacity (entry_at l 0) (window (entry_at l) k 1 ++ clip e ∷ []) (
            omega (
              arith,
              length-append (window (entry_at l) k 1) (clip e ∷ []),
              length-window (entry_at l) k 1,
            )))
      ∙ ap (λ n. last l.capacity (window (entry_at l) n 0 ++ clip e ∷ [])) (sym more)

  pub contents-log : contents (log l e) ≡ last l.capacity (contents l ++ clip e ∷ [])
  contents-log = elim (leb-cases l.capacity l.entries) [
    | inl full ↦
        contents-log_full (l.entries - 1) (omega (arith, v.entries_fit))
          (omega (arith, v.index_fits))
    | inr room ↦ contents-log_room room
  ]

contents-init : (max_entries capacity : ℕ) → contents (init max_entries capacity) ≡ []
unfolding init
contents-init max_entries capacity = refl

init-counts :
    (max_entries capacity : ℕ)
    → ((init max_entries capacity).entries ≡ 0) × ((init max_entries capacity).ring_overwrites ≡ 0)
unfolding init
init-counts max_entries capacity = (refl, refl)

log-overwrites :
    (l : Logger) (e : LogEntry)
    → IsValid l
    → ((log l e).ring_overwrites ≡ l.ring_overwrites + (l.entries + 1 - l.capacity))
      × ((log l e).entries + (l.entries + 1 - l.capacity) ≡ l.entries + 1)
unfolding log
log-overwrites l e v = ground (arith, v.entries_fit)

overwrites_from :
    (l : Logger) (ms : List LogEntry)
    → IsValid l
    → (run l ms).ring_overwrites ≡ l.ring_overwrites + (l.entries + length ms - l.capacity)
overwrites_from l [] v = omega (arith, v.entries_fit)
overwrites_from l (m ∷ ms) v = omega (
  arith,
  overwrites_from (log l m) ms (log-IsValid l v m),
  log-overwrites l m v,
  log-capacity l v m,
  v.entries_fit,
)

contents-run :
    (l : Logger) (ms : List LogEntry)
    → IsValid l
    → contents (run l ms) ≡ last l.capacity (contents l ++ map clip ms)
contents-run l [] v = rw (append-nil (contents l)) (
    sym (
      last_short l.capacity (contents l)
        (omega (arith, length-window (entry_at l) l.entries 0, v.entries_fit))))
contents-run l (m ∷ ms) v =
    contents-run (log l m) ms (log-IsValid l v m)
    ∙ rw (contents-log l v m, log-capacity l v m)
        (last-append_last l.capacity (contents l ++ clip m ∷ []) (map clip ms)
          ∙ ap (last l.capacity) (append_assoc (contents l) (clip m ∷ []) (map clip ms)))

-- The count of overwritten entries is the number of calls beyond the capacity.
overwrites-run :
    (max_entries capacity : ℕ) (ms : List LogEntry)
    → 0 < max_entries
    → max_entries < 2 ^ 31
    → (run (init max_entries capacity) ms).ring_overwrites
      ≡ length ms - (init max_entries capacity).capacity
overwrites-run max_entries capacity ms some_room small = omega (
  arith,
  overwrites_from (init max_entries capacity) ms
      (init-IsValid max_entries capacity some_room small),
  init-counts max_entries capacity,
)

-- From a fresh logger, whatever is logged and whatever capacity was asked for: `fetchLogs` gives, of
-- the last `capacity` calls (all of them when there were fewer), those not older than `since_millis`,
-- in the order of the calls, their texts cut to 383 bytes. The build's `max_entries` is positive and
-- below 2^31. The count of overwritten entries is the number of calls beyond the capacity.
pub fetch_logs-run :
    (max_entries capacity since_millis : ℕ) (ms : List LogEntry)
    → 0 < max_entries
    → max_entries < 2 ^ 31
    → (fetch_logs (run (init max_entries capacity) ms) since_millis
        ≡ recent since_millis (last (init max_entries capacity).capacity (map clip ms)))
      × ((run (init max_entries capacity) ms).ring_overwrites
          ≡ length ms - (init max_entries capacity).capacity)
fetch_logs-run max_entries capacity since_millis ms some_room small = (
  fetch_logs-recent (run (init max_entries capacity) ms) since_millis
      ∙ ap (recent since_millis) (
          contents-run (init max_entries capacity) ms
            (init-IsValid max_entries capacity some_room small)
          ∙ ap (λ es. last (init max_entries capacity).capacity (es ++ map clip ms))
              (contents-init max_entries capacity)),
  overwrites-run max_entries capacity ms some_room small,
)
