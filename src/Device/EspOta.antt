-- ===== src/Device/EspOta.antt =====
-- src/system/esp_ota_manager.cpp: a firmware image that is sent after an invitation over UDP.
pub mod Effects
pub mod Rounds
pub mod Safe
mod Tests
use esp_arduino_ebus.Base.{
  ℕ, zero, suc, ◌+◌, ◌*◌, ◌/◌, ◌%◌, ◌^◌, Bool, true, false, not, ◌&&◌, ◌||◌, List, [], ◌∷◌, ◌++◌,
  Option, none, some, ◌==◌, ltb, leb, if◌then◌else◌, length, take, ℤ, pos, int_eq,
}
use esp_arduino_ebus.Device.Upgrade.{Ota, esp_image_magic, ota_buffer_size, raise_percent}

abbrev pub esp_ota_transfer_timeout_ms : ℕ
esp_ota_transfer_timeout_ms = 60000

-- The answers to an invitation.
pub data Answer : Type 0 where
  invalid_invitation unsupported_command invalid_size accepted : Answer

-- What is done, in order: to the sockets, to the flash (a partition is a number; failed calls on an open
-- partition are listed too), and the messages to the host, of which `send_error n` is `ERROR[n]`.
pub data Effect : Type 0 where
  hook : Effect
  open_udp : ℕ → Effect
  close_udp : ℕ → Effect
  send_udp : Answer → Effect
  open_tcp : ℕ → Effect
  close_tcp : ℕ → Effect
  send_error : ℕ → Effect
  send_ack : ℕ → Effect
  send_ok : Effect
  create_task : Effect
  begin : ℕ → ℕ → Effect
  wrote : List ℕ → Effect
  write_failed : List ℕ → Effect
  abort : Effect
  end : Effect
  end_failed : Effect
  boot : ℕ → Effect
  boot_failed : ℕ → Effect
  restart : Effect

-- `pre_upgrade_hook` tells whether a hook is set, `has_task` whether `task_handle_` is.
pub record EspOtaManager : Type 0 where
  pub pre_upgrade_hook : Bool
  pub pre_upgrade_done : Bool
  pub udp_sock : Option ℕ
  pub port : ℕ
  pub has_task : Bool

-- What waits at the socket: bytes, the end of the stream, nothing for now, or an error.
pub data Received : Type 0 where
  got : ℕ → List ℕ → Received
  closed nothing broken : Received

-- One round of the loop: what waits, the milliseconds that the timer then shows, and whether
-- `esp_ota_write` succeeds if it is called.
pub record Round : Type 0 where
  pub received : Received
  pub now_ms : ℕ
  pub write_ok : Bool

-- The variables of the loop.
pub record Transfer : Type 0 where
  pub total_received : ℕ
  pub checked_magic : Bool
  pub next_progress_percent : ℕ
  pub transfer_deadline : ℕ
  pub effects : List Effect

pub data Turn : Type 0 where
  continue : Transfer → Turn
  stop : Transfer → Turn

abbrev pub deadline : ℕ → ℕ
deadline now_ms = (now_ms % 2 ^ 32 + esp_ota_transfer_timeout_ms) % 2 ^ 32

-- The progress in percent is an `int`.
unfoldable pub progress : ℕ → ℕ → ℕ → ℕ
unfolding raise_percent
progress expected_size total next =
    let percent : ℕ = total * 100 % 2 ^ 32 / expected_size in
    if ltb percent (2 ^ 31) then raise_percent 10 percent next else next

-- After a write that succeeded.
unfoldable pub acknowledged : ℕ → List ℕ → ℕ → Transfer → Transfer
unfolding progress
acknowledged expected_size chunk now_ms t =
    let total : ℕ = (t.total_received + length chunk) % 2 ^ 32 in
    record {
      total_received = total;
      checked_magic = true;
      next_progress_percent = progress expected_size total t.next_progress_percent;
      transfer_deadline = deadline now_ms;
      effects = t.effects ++ wrote chunk ∷ send_ack total ∷ [];
    }

-- `esp_ota_abort`, the message and the end of the connection, which `es` precedes.
abbrev pub aborted : ℕ → ℕ → List Effect → Transfer → Transfer
aborted sock n es t = record t {
  effects = t.effects ++ (es ++ abort ∷ send_error n ∷ close_tcp sock ∷ []);
}

unfoldable pub turn : ℕ → ℕ → Received → ℕ → Bool → Transfer → Turn
unfolding acknowledged
turn sock expected_size (got x xs) now_ms write_ok t =
    let chunk : List ℕ = take ota_buffer_size (x ∷ xs) in
    if not t.checked_magic && not (x == esp_image_magic)
    then stop (aborted sock 4 [] t)
    else if write_ok
    then continue (acknowledged expected_size chunk now_ms t)
    else stop (aborted sock 5 (write_failed chunk ∷ []) t)
turn sock expected_size closed now_ms write_ok t = stop (aborted sock 3 [] t)
turn sock expected_size nothing now_ms write_ok t =
    if ltb t.transfer_deadline (now_ms % 2 ^ 32) then stop (aborted sock 3 [] t) else continue t
turn sock expected_size broken now_ms write_ok t = stop (aborted sock 3 [] t)

-- The loop over the rounds: whether all was received, and the variables then; `none` when there are no
-- rounds left.
unfoldable pub receive_all : ℕ → ℕ → List Round → Transfer → Option (Bool × Transfer)
unfolding turn
receive_all sock expected_size [] t =
    if ltb t.total_received expected_size then none else some (true, t)
receive_all sock expected_size (r ∷ rs) t =
    let rest : Option (Bool × Transfer) =
      elim (turn sock expected_size r.received r.now_ms r.write_ok t) [
        | continue t' ↦ receive_all sock expected_size rs t'
        | stop t' ↦ some (false, t')
      ] in
    if ltb t.total_received expected_size then rest else some (true, t)

-- What follows the loop.
unfoldable pub close : Ota → ℕ → ℕ → Bool × List Effect
close ota sock p =
    if not ota.end_ok
    then (false, end_failed ∷ send_error 6 ∷ close_tcp sock ∷ [])
    else if not ota.boot_ok
    then (false, end ∷ boot_failed p ∷ send_error 7 ∷ close_tcp sock ∷ [])
    else (true, end ∷ boot p ∷ send_ok ∷ close_tcp sock ∷ restart ∷ [])

abbrev pub after_loop : Ota → ℕ → ℕ → Option (Bool × Transfer) → Option (Bool × List Effect)
after_loop ota sock p none = none
after_loop ota sock p (some (false, t)) = some (false, t.effects)
after_loop ota sock p (some (true, t)) =
    some ((close ota sock p).0, t.effects ++ (close ota sock p).1)

-- What the network answers: the TCP socket, whether it connects, and the timer before the loop.
pub record Link : Type 0 where
  pub tcp_sock : Option ℕ
  pub connect_ok : Bool
  pub start_ms : ℕ

-- From `esp_ota_begin` on, after the effects `es`.
unfoldable pub transfer_with :
    Ota → Link → ℕ → ℕ → ℕ → Option ℕ → List Round → List Effect → Option (Bool × List Effect)
unfolding receive_all close
transfer_with ota link expected_size sock p none rounds es =
    some (false, es ++ send_error 2 ∷ close_tcp sock ∷ [])
transfer_with ota link expected_size sock p (some handle) rounds es = after_loop ota sock p (
    receive_all sock expected_size rounds (record {
      total_received = 0;
      checked_magic = false;
      next_progress_percent = 10;
      transfer_deadline = deadline link.start_ms;
      effects = es ++ begin p expected_size ∷ [];
    }))

unfoldable pub transfer_to :
    Ota → Link → ℕ → ℕ → Option ℕ → List Round → List Effect → Option (Bool × List Effect)
unfolding transfer_with
transfer_to ota link expected_size sock none rounds es =
    some (false, es ++ send_error 1 ∷ close_tcp sock ∷ [])
transfer_to ota link expected_size sock (some p) rounds es =
    transfer_with ota link expected_size sock p ota.begin_handle rounds es

unfoldable pub transfer_over :
    Ota → Link → ℕ → Option ℕ → List Round → List Effect → Option (Bool × List Effect)
unfolding transfer_to
transfer_over ota link expected_size none rounds es = some (false, es)
transfer_over ota link expected_size (some sock) rounds es =
    if not link.connect_ok
    then some (false, es ++ open_tcp sock ∷ close_tcp sock ∷ [])
    else transfer_to ota link expected_size sock ota.next_partition rounds
        (es ++ open_tcp sock ∷ [])

-- `prepareForUpgrade()`.
unfoldable pub prepare_for_upgrade : EspOtaManager → EspOtaManager × List Effect
prepare_for_upgrade m =
    if not m.pre_upgrade_done && m.pre_upgrade_hook
    then (record m { pre_upgrade_done = true }, hook ∷ [])
    else (m, [])

abbrev pub closing : Option ℕ → List Effect
closing none = []
closing (some sock) = close_udp sock ∷ []

-- `performTransfer(host_addr, host_port, expected_size)`: the object, and unless the rounds run out,
-- the result and the effects.
unfoldable pub perform_transfer :
    Ota → Link → ℕ → List Round → EspOtaManager → EspOtaManager × Option (Bool × List Effect)
unfolding transfer_over prepare_for_upgrade
perform_transfer ota link expected_size rounds m =
    let (m', es) = prepare_for_upgrade m in
    (
      record m' { udp_sock = none },
      transfer_over ota link expected_size link.tcp_sock rounds (es ++ closing m'.udp_sock),
    )

-- A packet, as `sscanf` reads it: the number of fields, the command, and the size, which is written to
-- 32 bits.
pub record Packet : Type 0 where
  pub parsed : ℕ
  pub command : ℤ
  pub expected_size : ℕ

abbrev pub then_transfer : List Effect → Option (Bool × List Effect) → Option (Bool × List Effect)
then_transfer es none = none
then_transfer es (some (ok, fs)) = some (ok, es ++ fs)

-- `handleInvitation()`, where no packet is a read that gives none.
unfoldable pub handle_invitation :
    Ota
    → Link
    → Option Packet
    → List Round
    → EspOtaManager
    → EspOtaManager × Option (Bool × List Effect)
unfolding perform_transfer
handle_invitation ota link none rounds m = (m, some (false, []))
handle_invitation ota link (some packet) rounds m =
    if ltb packet.parsed 3
    then (m, some (false, send_udp invalid_invitation ∷ []))
    else if not (int_eq packet.command (pos 0))
    then (m, some (false, send_udp unsupported_command ∷ []))
    else if packet.expected_size == 0
    then (m, some (false, send_udp invalid_size ∷ []))
    else let (m', r) = perform_transfer ota link packet.expected_size rounds m in
      (m', then_transfer (send_udp accepted ∷ []) r)

-- What the system answers in `begin`: the UDP socket, whether it is bound, and whether the task starts.
pub record Setup : Type 0 where
  pub new_sock : Option ℕ
  pub bind_ok : Bool
  pub task_ok : Bool

abbrev pub with_task : Setup → EspOtaManager → List Effect → EspOtaManager × List Effect
with_task setup m es =
    if m.has_task
    then (m, es)
    else if setup.task_ok
    then (record m { has_task = true }, es ++ create_task ∷ [])
    else (m, es)

abbrev pub bound : Setup → Option ℕ → EspOtaManager → List Effect → EspOtaManager × List Effect
bound setup none m es = (m, es)
bound setup (some sock) m es =
    if setup.bind_ok
    then with_task setup (record m { udp_sock = some sock }) (es ++ open_udp sock ∷ [])
    else (m, es ++ open_udp sock ∷ close_udp sock ∷ [])

-- `begin(port)`.
unfoldable pub begin_port : Setup → ℕ → EspOtaManager → EspOtaManager × List Effect
begin_port setup port m =
    bound setup setup.new_sock (record m { port = port; udp_sock = none }) (closing m.udp_sock)

abbrev pub looped :
    Ota
    → Link
    → Setup
    → Option Packet
    → List Round
    → Option ℕ
    → EspOtaManager
    → EspOtaManager × Option (Bool × List Effect)
looped ota link setup packet rounds (some sock) m = handle_invitation ota link packet rounds m
looped ota link setup packet rounds none m =
    let (m', es) = begin_port setup m.port m in
    if ltb 0 m.port then (m', some (false, es)) else (m, some (false, []))

-- One turn of `taskLoop`.
unfoldable pub task_turn :
    Ota
    → Link
    → Setup
    → Option Packet
    → List Round
    → EspOtaManager
    → EspOtaManager × Option (Bool × List Effect)
unfolding handle_invitation begin_port
task_turn ota link setup packet rounds m = looped ota link setup packet rounds m.udp_sock m
