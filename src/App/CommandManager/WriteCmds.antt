-- ===== src/App/CommandManager/WriteCmds.antt =====
-- src/app/command_manager.cpp and Command::setWriteCmd of src/app/command.cpp: the write telegrams that
-- commands share.
pub mod Sharing
use esp_arduino_ebus.Base.{
  ℕ, zero, suc, ◌+◌, ◌-◌, ◌%◌, ◌≤◌, ◌<◌, ◌≡◌, inl, inr, refl, ap, ◌∙◌, sym, Bool, true, false, List,
  [], ◌∷◌, ◌++◌, Option, none, some, ◌==◌, ltb, leb, ◌||◌, if◌then◌else◌, arith, length,
  length-append, get_or, bytes_eq, bytes_eq→eq, Bool-cases, Option-cases, leb-cases,
}
use esp_arduino_ebus.App.CommandManager.Vector.{StaticVector, IsStaticVector}

-- `getWriteCmd(idx)` and `getWriteCmdCount()`; the empty telegram out of range.
unfoldable pub get_write_cmd : List (List ℕ) → ℕ → List ℕ
get_write_cmd write_cmds idx = if ltb idx (length write_cmds) then get_or write_cmds idx [] else []

abbrev pub get_write_cmd_count : List (List ℕ) → ℕ
get_write_cmd_count write_cmds = length write_cmds

-- `addWriteCmd(cmd)`.
unfoldable pub add_write_cmd : StaticVector (List ℕ) → List (List ℕ) → List ℕ → Bool × List (List ℕ)
add_write_cmd v write_cmds cmd =
    if leb v.capacity (length write_cmds)
    then (false, write_cmds)
    else (true, (v.push_back write_cmds cmd).1)

-- `Command::getWriteCmd`, for the command's `write_cmd_idx_`.
unfoldable pub command_write_cmd : List (List ℕ) → ℕ → List ℕ
unfolding get_write_cmd
command_write_cmd write_cmds write_cmd_idx =
    if write_cmd_idx == 0 then [] else get_write_cmd write_cmds (write_cmd_idx - 1)

-- The loop of `Command::setWriteCmd`, from the position `i` on.
unfoldable pub find_write_cmd : List (List ℕ) → ℕ → List ℕ → Option ℕ
find_write_cmd [] i cmd = none
find_write_cmd (w ∷ ws) i cmd =
    let rest = find_write_cmd ws (suc i) cmd in if bytes_eq w cmd then some i else rest

abbrev added : Bool × List (List ℕ) → ℕ × List (List ℕ)
added (true, after) = (get_write_cmd_count after % 256, after)
added (false, after) = (0, after)

abbrev found_or_added :
    StaticVector (List ℕ) → List (List ℕ) → List ℕ → Option ℕ → ℕ × List (List ℕ)
found_or_added v write_cmds cmd (some i) = ((i + 1) % 256, write_cmds)
found_or_added v write_cmds cmd none = added (add_write_cmd v write_cmds cmd)

-- `Command::setWriteCmd(cmd, command_manager)`: the new `write_cmd_idx_`, and the telegrams.
unfoldable pub set_write_cmd : StaticVector (List ℕ) → List (List ℕ) → List ℕ → ℕ × List (List ℕ)
unfolding add_write_cmd find_write_cmd
set_write_cmd v write_cmds [] = (0, write_cmds)
set_write_cmd v write_cmds (b ∷ bs) =
    found_or_added v write_cmds (b ∷ bs) (find_write_cmd write_cmds 0 (b ∷ bs))

-- The telegram is there, or there is room for it.
abbrev pub has_place : StaticVector (List ℕ) → List (List ℕ) → Option ℕ → Bool
has_place v write_cmds none = ltb (length write_cmds) v.capacity
has_place v write_cmds (some i) = true
