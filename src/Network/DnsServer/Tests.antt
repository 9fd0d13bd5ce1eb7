-- ===== src/Network/DnsServer/Tests.antt =====
-- A query for the name `a`, with two questions announced, and a socket that cannot be bound.
use esp_arduino_ebus.Base.{
  ℕ, ◌≡◌, refl, false, true, List, [], ◌∷◌, none, some, arith, length, replicate, blit,
}
use esp_arduino_ebus.Network.DnsServer.{
  DnsServer, Effect, Reply, skip_labels, set_header, answer, respond, after_labels,
  process_next_request, start,
}
use esp_arduino_ebus.Network.DnsServer.Response.{IsReply, process_next_request-IsReply}
use esp_arduino_ebus.Network.DnsServer.Socket.{start-start_leak}

abbrev ip : List ℕ
ip = 192 ∷ 168 ∷ 4 ∷ 1 ∷ []

-- The label `a`, the end of the name, type A and class IN, and what was in the buffer before.
abbrev body : List ℕ
body = 1 ∷ 97 ∷ 0 ∷ 0 ∷ 1 ∷ 0 ∷ 1 ∷ replicate 493 0

full : length body ≡ 500
full = omega arith

abbrev query : List ℕ
query = 7 ∷ 8 ∷ 1 ∷ 0 ∷ 0 ∷ 2 ∷ 0 ∷ 0 ∷ 0 ∷ 0 ∷ 0 ∷ 0 ∷ body

abbrev response : List ℕ
response =
    7 ∷ 8 ∷ 0x81 ∷ 0x80 ∷ 0 ∷ 2 ∷ 0 ∷ 1 ∷ 0 ∷ 0 ∷ 0 ∷ 0 ∷ 1 ∷ 97 ∷ 0 ∷ 0 ∷ 1 ∷ 0 ∷ 1 ∷ answer ip

answered : process_next_request 20 ip query 19 ≡ some (Reply.sent response)
unfolding skip_labels set_header respond after_labels process_next_request blit
answered = refl

process_next_request-IsReply_example :
    (r : Reply) × (process_next_request 20 ip query 19 ≡ some r)
    × IsReply 7 8 1 0 0 2 0 0 0 0 0 0 body full ip 19 r
process_next_request-IsReply_example =
    process_next_request-IsReply 7 8 1 0 0 2 0 0 0 0 0 0 body full 20 ip 19 (omega arith)

abbrev stopped : DnsServer
stopped = record { socket_fd = none; port = 0; resolved_ip = []; running = false; has_task = false }

start-start_leak_example :
    let first = start stopped 53 ip (some 4) false in
    let second = start first.1 53 ip (some 5) true in
    (first.0 ≡ false)
    × (first.2 ≡ Effect.opened 4 ∷ [])
    × (second.2 ≡ Effect.opened 5 ∷ [])
    × (second.1.socket_fd ≡ some 5)
start-start_leak_example = start-start_leak stopped 53 53 4 5 ip ip true refl
