-- ===== src/Bridge/Client.antt =====
-- src/bridge/client.cpp: the network clients of the bridge. The sockets and the UART driver are
-- the parameter `Net`; tasks, the creation of the listening sockets and log output are left out.
pub mod Net
pub mod Codec
pub mod Input
pub mod Ending
pub mod Commands
pub mod Output
use Prim.Native.Nat.{bit_and}
use Prim.Native.Char.{code}
use Prim.Native.String.{String}
use esp_arduino_ebus.Base.{
  ℕ, zero, suc, ◌-◌, ◌<◌, Bool, true, false, not, ◌||◌, List, [], ◌∷◌, Option, none, some, ◌==◌,
  ltb, if◌then◌else◌, ℤ, pos, is_neg, int_eq, minus_one, get_or,
}
use esp_arduino_ebus.Bridge.BusState.{syn_byte}
use esp_arduino_ebus.Bridge.BusType.{Data, resetted, error_host, err_framing}
use esp_arduino_ebus.Bridge.BusType.Slot.{
  ArbitrationSlot, clear_arbitration_client, set_arbitration_client,
}
use Net.{Received, got, closed, would_block, failed}
use Net
use Codec.{encode, decode}

-- `enum Requests`.
abbrev pub cmd_init : ℕ
cmd_init = 0

abbrev pub cmd_send : ℕ
cmd_send = 1

abbrev pub cmd_start : ℕ
cmd_start = 2

abbrev pub cmd_info : ℕ
cmd_info = 3

-- The bytes of a string literal.
abbrev pub codes : String → List ℕ
codes String.[] = []
codes (String.◌∷◌ c s) = code c ∷ codes s

module _ (net : Net.Net) where
  open net use {World, peek, recv, pending, send, shut, accept, configure, uart_write, uart_space}

  unfoldable pub is_socket_connected : ℤ → World → Bool
  is_socket_connected fd w =
      if is_neg fd
      then false
      else elim (peek fd w) [ got b ↦ true | closed ↦ false | would_block ↦ true | failed ↦ false ]

  -- `closeSocket(fd)`: the descriptor as it is left, and the world.
  unfoldable pub close_socket : ℤ → World → ℤ × World
  close_socket fd w = if is_neg fd then (fd, w) else (minus_one, shut fd w)

  unfoldable pub socket_available : ℤ → World → ℕ
  socket_available fd w = if is_neg fd then 0 else elim (pending fd w) [ none ↦ 0 | some n ↦ n ]

  -- `none` is the answer -1.
  unfoldable pub socket_read_byte : ℤ → World → Option ℕ × World
  socket_read_byte fd w =
      if is_neg fd
      then (none, w)
      else let (r, w') = recv fd w in
        (elim r [ got b ↦ some b | closed ↦ none | would_block ↦ none | failed ↦ none ], w')

  unfoldable pub socket_write_bytes : ℤ → List ℕ → World → ℕ × World
  socket_write_bytes fd [] w = (0, w)
  socket_write_bytes fd (b ∷ bs) w =
      if is_neg fd
      then (0, w)
      else let (r, w') = send fd (b ∷ bs) w in (elim r [ none ↦ 0 | some n ↦ n ], w')

  unfoldable pub socket_write_string : ℤ → String → World → ℕ × World
  unfolding socket_write_bytes
  socket_write_string fd message w = socket_write_bytes fd (codes message) w

  unfoldable pub send_res : ℤ → ℕ → ℕ → World → World
  unfolding socket_write_bytes
  send_res fd c d w = let (b1, b2) = encode c d in (socket_write_bytes fd (b1 ∷ b2 ∷ []) w).1

  -- The world and the globals that `processCmd` reads and writes.
  pub record Host : Type 0 where
    pub world : World
    pub slot : ArbitrationSlot

  -- `processCmd(client_fd, c, d)`.
  unfoldable pub process_cmd : ℤ → ℕ → ℕ → Host → Host
  unfolding send_res clear_arbitration_client set_arbitration_client
  process_cmd fd c d h =
      if c == cmd_init
      then record h { world = send_res fd resetted 0x0 h.world }
      else if c == cmd_start
      then (if d == syn_byte
          then record h { slot = clear_arbitration_client h.slot }
          else let (taken, other, address, slot) = set_arbitration_client fd d h.slot in
            if taken
            then record h { slot = slot }
            else if not (int_eq fd other)
            then record h { slot = slot; world = send_res fd error_host err_framing h.world }
            else record h { slot = slot })
      else if c == cmd_send
      then record h { world = uart_write d h.world }
      else h

  -- The end of `readCmd` on a malformed command: a message, and the connection is closed.
  unfoldable pub refuse : ℤ → String → World → Option (ℕ × ℕ) × ℤ × World
  unfolding socket_write_string close_socket
  refuse fd message w =
      let (fd', w') = close_socket fd (socket_write_string fd message w).1 in (none, fd', w')

  -- `readCmd` once its second byte was read, and once its first byte was.
  unfoldable pub check_second : ℤ → ℕ → Option ℕ → World → Option (ℕ × ℕ) × ℤ × World
  check_second fd b none w = refuse fd "second command missing" w
  check_second fd b (some b2) w =
      if not (bit_and b2 0b11000000 == 0b10000000)
      then refuse fd "second command signature error" w
      else (some (decode b b2), fd, w)

  unfoldable pub check_first : ℤ → Option ℕ → World → Option (ℕ × ℕ) × ℤ × World
  check_first fd none w = (none, fd, w)
  check_first fd (some b) w =
      if ltb b 0b10000000
      then (some (cmd_send, b), fd, w)
      else if ltb b 0b11000000
      then refuse fd "first command signature error" w
      else let (second, w') = socket_read_byte fd w in check_second fd b second w'

  -- `readCmd(client_fd, data)`: the command, if one was read, the descriptor and the world.
  unfoldable pub read_cmd : ℤ → World → Option (ℕ × ℕ) × ℤ × World
  read_cmd fd w = let (first, w') = socket_read_byte fd w in check_first fd first w'

  -- One round of the loop of `handleClientEnhanced`: a command is carried out if one was read.
  unfoldable pub run_cmd : ℤ → Option (ℕ × ℕ) → Host → Host
  run_cmd fd none h = h
  run_cmd fd (some (c, d)) h = process_cmd fd c d h

  unfoldable pub serve_one : ℤ → Host → ℤ × Host
  serve_one fd h =
      let (cmd, fd', w) = read_cmd fd h.world in (fd', run_cmd fd' cmd (record h { world = w }))

  -- `handleClientEnhanced(client_fd)` with fuel; `none` means that the fuel ran out.
  unfoldable pub handle_client_enhanced : ℕ → ℤ → Host → Option (ℤ × Host)
  handle_client_enhanced zero fd h = none
  handle_client_enhanced (suc fuel) fd h =
      let (fd', h') = serve_one fd h in
      let rest : Option (ℤ × Host) = handle_client_enhanced fuel fd' h' in
      if socket_available fd h.world == 0 then some (fd, h) else rest

  -- `handleClient(client_fd)` with fuel.
  unfoldable pub handle_client : ℕ → ℤ → World → Option World
  handle_client zero fd w = none
  handle_client (suc fuel) fd w =
      let (value, w') = socket_read_byte fd w in
      let rest : ℕ → Option World = λ b. handle_client fuel fd (uart_write b w') in
      if socket_available fd w == 0 || not (ltb 0 (uart_space w))
      then some w
      else elim value [ none ↦ some w' | some b ↦ rest b ]

  unfoldable pub push_client : ℤ → ℕ → World → World
  push_client fd byte w =
      if is_socket_connected fd w then (socket_write_bytes fd (byte ∷ []) w).1 else w

  -- `pushClientEnhanced(client_fd, c, d, log)`; the log line is left out.
  unfoldable pub push_client_enhanced : ℤ → ℕ → ℕ → World → World
  push_client_enhanced fd c d w = if is_socket_connected fd w then send_res fd c d w else w

  -- One slot of each kind, the bodies of the two loops of `dataProcess`.
  pub record Slots : Type 0 where
    pub regular : ℤ
    pub read_only : ℤ
    pub enhanced : ℤ

  unfoldable pub push_data : Data → Slots → World → World
  push_data d s w =
      if d.enhanced
      then (if int_eq d.client_fd s.enhanced then push_client_enhanced s.enhanced d.c d.d w else w)
      else let w' : World = push_client s.read_only d.d (push_client s.regular d.d w) in
        if not (int_eq d.client_fd s.enhanced)
        then push_client_enhanced s.enhanced d.c d.d w'
        else w'

  -- The second loop of `dataProcess`.
  unfoldable pub push_all : Data → List Slots → World → World
  push_all d [] w = w
  push_all d (s ∷ rest) w = push_all d rest (push_data d s w)

  -- The loop of `handleNewClient` over the slots; the answer is the slots, and whether one was free.
  unfoldable pub place_client : ℤ → List ℤ → World → List ℤ × Bool × World
  place_client fd [] w = ([], false, w)
  place_client fd (c ∷ cs) w =
      let (cs', placed, w') = place_client fd cs w in
      if not (is_socket_connected c w)
      then (fd ∷ cs, true, configure fd (close_socket c w).1)
      else (c ∷ cs', placed, w')

  -- `handleNewClient` once `accept` has answered.
  unfoldable pub admit : List ℤ → Option ℕ → World → Bool × List ℤ × World
  admit clients none w = (false, clients, w)
  admit clients (some n) w =
      let (clients', placed, w') = place_client (pos n) clients w in
      if placed
      then (true, clients', w')
      else (true, clients', (close_socket (pos n) (socket_write_string (pos n) "busy\r\n" w').1).1)

  -- `handleNewClient(server_fd, clients)`.
  unfoldable pub handle_new_client : ℤ → List ℤ → World → Bool × List ℤ × World
  handle_new_client server_fd clients w =
      let (client, w') = accept server_fd w in admit clients client w'
