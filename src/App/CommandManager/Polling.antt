-- ===== src/App/CommandManager/Polling.antt =====
-- src/app/command_manager.cpp: which command is polled next.
pub mod Choice
use esp_arduino_ebus.Base.{
  ℕ, ◌+◌, ◌*◌, ◌%◌, ◌^◌, Bool, true, false, not, ◌&&◌, List, [], ◌∷◌, Option, none, some, ◌==◌, ltb,
  if◌then◌else◌,
}
use esp_arduino_ebus.App.CommandManager.{Command, get_active}

-- `getLast() + getInterval() * 1000`, in `uint32_t`.
unfoldable pub deadline : Command → ℕ
deadline c = (c.last + c.interval * 1000) % 2 ^ 32

-- The command with the earlier deadline; the former one when they are the same.
abbrev pub earlier : Option Command → Command → Option Command
earlier none cmd = some cmd
earlier (some next) cmd = if ltb (deadline cmd) (deadline next) then some cmd else some next

-- The loop of `nextActiveCommand` over the commands that are left, with `next` and `init`.
unfoldable pub next_loop : Option Command → List Command → Option Command × Bool
next_loop next [] = (next, false)
next_loop next (cmd ∷ cs) =
    let rest = next_loop (if get_active cmd then earlier next cmd else next) cs in
    if get_active cmd && cmd.last == 0 then (some cmd, true) else rest

abbrev pub due : ℕ → Option Command × Bool → Option Command
due now (none, init) = none
due now (some next, init) = if not init && ltb now (deadline next) then none else some next

-- `nextActiveCommand()`, with the milliseconds since the start.
unfoldable pub next_active_command : List Command → ℕ → Option Command
unfolding next_loop
next_active_command cs now_ms = due (now_ms % 2 ^ 32) (next_loop none cs)
