-- ===== src/Network/DnsServer/Socket.antt =====
-- src/network/dns_server.cpp: the socket of start and stop.
use esp_arduino_ebus.Base.{ℕ, ◌≡◌, Bool, true, false, List, [], ◌∷◌, none, some, arith}
use esp_arduino_ebus.Network.DnsServer.{DnsServer, opened, closed, stop, open_socket, start}

-- When `bind` fails in a server that is not running, its socket `a` is neither closed by that `start`
-- nor by the next one, which forgets it for its own socket `b`: `stop` does nothing unless the server
-- runs.
pub start-start_leak :
    (s : DnsServer) (port port' a b : ℕ) (ip ip' : List ℕ) (bind_ok : Bool)
    → s.running ≡ false
    → let first = start s port ip (some a) false in
      let second = start first.1 port' ip' (some b) bind_ok in
      (first.0 ≡ false)
      × (first.2 ≡ opened a ∷ [])
      × (second.2 ≡ opened b ∷ [])
      × (second.1.socket_fd ≡ some b)
unfolding start stop open_socket
start-start_leak s port port' a b ip ip' bind_ok h = ground arith

-- A server that is stopped and starts holds the new socket, and the next `stop` closes just that one.
pub start-stop :
    (s : DnsServer) (port a : ℕ) (ip : List ℕ)
    → s.running ≡ false
    → s.has_task ≡ false
    → let first = start s port ip (some a) true in
      (first.0 ≡ true)
      × ((stop first.1).1 ≡ closed a ∷ [])
      × ((stop first.1).0.socket_fd ≡ none)
      × ((stop first.1).0.running ≡ false)
unfolding start stop open_socket
start-stop s port a ip h t = ground arith
