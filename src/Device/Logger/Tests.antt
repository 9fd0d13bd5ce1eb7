-- ===== src/Device/Logger/Tests.antt =====
-- The ring on concrete entries.
use esp_arduino_ebus.Base.{ℕ, ◌-◌, ◌≡◌, refl, false, List, [], ◌∷◌, map, arith, length, last}
use esp_arduino_ebus.Device.Logger.{
  LogEntry, LogLevel, clip, init, log, log_index, fetch_from, fetch_logs,
}
use esp_arduino_ebus.Device.Logger.Retention.{run, recent, fetch_logs-run}

abbrev logged : ℕ → ℕ → LogEntry
logged time letter = record {
  timestamp = time;
  level = LogLevel.info;
  message = letter ∷ [];
  is_json_message = false;
  session_id = 0;
  poll_id = 0;
}

abbrev three : List LogEntry
three = logged 5 97 ∷ logged 6 98 ∷ logged 7 99 ∷ []

two_kept : fetch_logs (run (init 10 2) three) 0 ≡ logged 6 98 ∷ logged 7 99 ∷ []
unfolding init log log_index fetch_from fetch_logs
two_kept = refl

fetch_logs-run_example :
    (fetch_logs (run (init 10 2) three) 6 ≡ recent 6 (last (init 10 2).capacity (map clip three)))
    × ((run (init 10 2) three).ring_overwrites ≡ length three - (init 10 2).capacity)
fetch_logs-run_example = fetch_logs-run 10 2 6 three (omega arith) (omega arith)
