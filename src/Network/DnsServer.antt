-- ===== src/Network/DnsServer.antt =====
-- src/network/dns_server.cpp: the server that answers every name with the device's own address.
pub mod Response
pub mod Socket
mod Tests
use esp_arduino_ebus.Base.{
  ℕ, zero, suc, ◌+◌, ◌-◌, ◌*◌, ◌/◌, ◌%◌, ◌^◌, Bool, true, false, not, ◌||◌, List, [], ◌∷◌, ◌++◌,
  Option, none, some, ◌==◌, ltb, leb, if◌then◌else◌, get_or, set, take, blit,
}

abbrev pub dns_header_size : ℕ
dns_header_size = 12

abbrev pub max_packet_size : ℕ
max_packet_size = 512

abbrev pub answer_len : ℕ
answer_len = 16

-- What a request leads to.
pub data Reply : Type 0 where
  dropped : Reply
  sent : List ℕ → Reply

-- `while (idx < received && buffer[idx] != 0) idx += buffer[idx] + 1;` with fuel.
unfoldable pub skip_labels : ℕ → List ℕ → ℕ → ℕ → Option ℕ
skip_labels zero buffer received idx = none
skip_labels (suc fuel) buffer received idx =
    let rest : Option ℕ = skip_labels fuel buffer received (idx + (get_or buffer idx 0 + 1)) in
    if leb received idx || get_or buffer idx 0 == 0 then some idx else rest

-- The writes into the header.
unfoldable pub set_header : List ℕ → List ℕ
set_header b =
    set
      (set (set (set (set (set (set (set b 2 0x81) 3 0x80) 6 0x00) 7 0x01) 8 0x00) 9 0x00) 10 0x00)
      11 0x00

-- The answer record: a pointer to the name at 12, type A, class IN, no time to live, four bytes.
abbrev pub answer : List ℕ → List ℕ
answer ip =
    0xC0
    ∷ 0x0C
    ∷ 0x00
    ∷ 0x01
    ∷ 0x00
    ∷ 0x01
    ∷ 0x00
    ∷ 0x00
    ∷ 0x00
    ∷ 0x00
    ∷ 0x00
    ∷ 0x04
    ∷ get_or ip 0 0
    ∷ get_or ip 1 0
    ∷ get_or ip 2 0
    ∷ get_or ip 3 0
    ∷ []

-- What follows the walk over the labels, which ended at `idx`.
unfoldable pub respond : List ℕ → List ℕ → ℕ → ℕ → Reply
respond ip buffer received idx =
    if ltb received (idx + 5)
    then dropped
    else let question_len : ℕ = idx + 5 - dns_header_size in
      if ltb max_packet_size (dns_header_size + question_len + answer_len)
      then dropped
      else let response_len : ℕ = dns_header_size + question_len in
        sent (take (response_len + answer_len) (blit (set_header buffer) response_len (answer ip)))

unfoldable pub after_labels : List ℕ → List ℕ → ℕ → Option ℕ → Option Reply
after_labels ip buffer received none = none
after_labels ip buffer received (some idx) = some (respond ip buffer received idx)

-- `processNextRequest()` once `recvfrom` has put `received` bytes into the buffer; 0 stands for an
-- error too. `none` means that the fuel ran out.
unfoldable pub process_next_request : ℕ → List ℕ → List ℕ → ℕ → Option Reply
process_next_request fuel ip buffer received =
    if received == 0
    then some dropped
    else if ltb received dns_header_size
    then some dropped
    else if not (get_or buffer 2 0 / 128 % 2 == 0)
    then some dropped
    else if get_or buffer 4 0 * 256 + get_or buffer 5 0 == 0
    then some dropped
    else after_labels ip buffer received (skip_labels fuel buffer received dns_header_size)

-- The members of the class; `socket_fd` is -1 when it is `none`.
pub record DnsServer : Type 0 where
  pub socket_fd : Option ℕ
  pub port : ℕ
  pub resolved_ip : List ℕ
  pub running : Bool
  pub has_task : Bool

pub data Effect : Type 0 where
  opened : ℕ → Effect
  closed : ℕ → Effect

abbrev close_socket : Option ℕ → List Effect
close_socket none = []
close_socket (some fd) = closed fd ∷ []

-- `stop()`.
unfoldable pub stop : DnsServer → DnsServer × List Effect
stop s = if not s.running then (s, []) else (
  record s { running = false; socket_fd = none; has_task = false },
  close_socket s.socket_fd,
)

-- From the call of `socket` on: what `socket` and `bind` answer.
unfoldable pub open_socket : DnsServer → Option ℕ → Bool → Bool × DnsServer × List Effect
unfolding stop
open_socket s none bind_ok = (false, record s { socket_fd = none }, [])
open_socket s (some fd) bind_ok =
    let s' : DnsServer = record s { socket_fd = some fd } in
    if not bind_ok
    then (false, (stop s').0, opened fd ∷ (stop s').1)
    else if not s.has_task
    then (true, record s' { running = true; has_task = true }, opened fd ∷ [])
    else (true, s', opened fd ∷ [])

-- `start(port, domain_name, resolved_ip)`; the domain name is kept but never used.
unfoldable pub start : DnsServer → ℕ → List ℕ → Option ℕ → Bool → Bool × DnsServer × List Effect
unfolding open_socket
start s port ip socket bind_ok =
    let (s', es) = stop s in
    let (ok, s'', fs) = open_socket (record s' { port = port; resolved_ip = ip }) socket bind_ok in
    (ok, s'', es ++ fs)
