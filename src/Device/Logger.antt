-- ===== src/Device/Logger.antt =====
-- src/system/logger.cpp and include/system/logger.hpp: the ring of the last log entries.
pub mod Ring
pub mod Retention
mod Tests
use esp_arduino_ebus.Base.{
  ℕ, zero, suc, ◌+◌, ◌-◌, ◌%◌, ◌^◌, Bool, true, false, not, ◌&&◌, List, [], ◌∷◌, ltb, leb,
  if◌then◌else◌, get_or, set, replicate, take,
}

abbrev pub max_msg_length : ℕ
max_msg_length = 384

pub data LogLevel : Type 0 where
  debug : LogLevel
  info : LogLevel
  warn : LogLevel
  error : LogLevel

pub record LogEntry : Type 0 where
  pub timestamp : ℕ
  pub level : LogLevel
  pub message : List ℕ
  pub is_json_message : Bool
  pub session_id : ℕ
  pub poll_id : ℕ

-- An entry that was never written: the buffer starts as zeros.
abbrev pub blank : LogEntry
blank = record {
  timestamp = 0;
  level = LogLevel.debug;
  message = [];
  is_json_message = false;
  session_id = 0;
  poll_id = 0;
}

pub record Logger : Type 0 where
  pub buffer : List LogEntry
  pub index : ℕ
  pub entries : ℕ
  pub capacity : ℕ
  pub ring_overwrites : ℕ

-- `Logger(capacity)`; `max_entries` is set by the build.
unfoldable pub init : ℕ → ℕ → Logger
init max_entries capacity = record {
  buffer = replicate max_entries blank;
  index = 0;
  entries = 0;
  capacity = if ltb 0 capacity && leb capacity max_entries then capacity else max_entries;
  ring_overwrites = 0;
}

-- The entry that is written for what is handed to `log`: the text is cut to leave room for its end.
abbrev pub clip : LogEntry → LogEntry
clip e = record e { message = take (max_msg_length - 1) e.message }

-- `log(level, message, is_json, session_id, poll_id)` without the copy to the print queue. The
-- argument holds the time at the call and the parameters.
unfoldable pub log : Logger → LogEntry → Logger
log l e = record l {
  buffer = set l.buffer l.index (clip e);
  index = (l.index + 1) % l.capacity;
  entries = if ltb l.entries l.capacity then l.entries + 1 else l.entries;
  ring_overwrites = if ltb l.entries l.capacity then l.ring_overwrites else l.ring_overwrites + 1;
}

-- `(current_index - current_entries + i + capacity_) % capacity_` on 32-bit numbers.
unfoldable pub log_index : Logger → ℕ → ℕ
log_index l i = (l.index + i + l.capacity + 2 ^ 32 - l.entries) % 2 ^ 32 % l.capacity

abbrev pub entry_at : Logger → ℕ → LogEntry
entry_at l i = get_or l.buffer (log_index l i) blank

-- The loop of `fetchLogs` from `i` over the `k` entries that are left.
unfoldable pub fetch_from : Logger → ℕ → ℕ → ℕ → List LogEntry
fetch_from l since_millis zero i = []
fetch_from l since_millis (suc k) i =
    let rest : List LogEntry = fetch_from l since_millis k (i + 1) in
    let entry : LogEntry = entry_at l i in
    if ltb entry.timestamp since_millis then rest else entry ∷ rest

-- The entries that `fetchLogs(visitor, since_millis)` prints, when nothing is logged meanwhile.
unfoldable pub fetch_logs : Logger → ℕ → List LogEntry
fetch_logs l since_millis = fetch_from l since_millis l.entries 0
