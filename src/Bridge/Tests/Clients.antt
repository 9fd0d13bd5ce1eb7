-- ===== src/Bridge/Tests/Clients.antt =====
-- The clients over a concrete network: one incoming stream, whatever the socket, and a log of what
-- was written. Socket 9 is closed.
use esp_arduino_ebus.Base.{
  ℕ, ◌≤◌, ◌<◌, ◌≡◌, refl, ◌⊎◌, true, false, suc, min, List, [], ◌∷◌, ◌++◌, Option, none, some, ℤ,
  pos, negsuc, arith, minus_one, length, ◌==◌, if◌then◌else◌,
}
use Prim.Native.Nat.{bit_and}
use esp_arduino_ebus.Bridge.BusType.{Data}
use esp_arduino_ebus.Bridge.BusType.Slot.{empty}
use esp_arduino_ebus.Bridge.Client.Net.{Net, IsStream, is_got, Received, got, closed, would_block}
use esp_arduino_ebus.Bridge.Client.Codec.{encode, decode, round_trips}
use esp_arduino_ebus.Bridge.Client.{
  Host, Slots, socket_available, handle_client_enhanced, push_all, handle_new_client,
}
use esp_arduino_ebus.Bridge.Client.Ending.{IsFinite, handle_client_enhanced-Ends}
use esp_arduino_ebus.Bridge.Client.Commands.{frames, serve_all, handle_client_enhanced-frames}
use esp_arduino_ebus.Bridge.Client.Output.{
  targets, send_each, push_all-targets, Admits, handle_new_client-Admits,
}

record Wire : Type 0 where
  incoming : List ℕ
  outgoing : List ℕ

abbrev take_byte : List ℕ → List ℕ → Received × Wire
take_byte [] out = (would_block, record { incoming = []; outgoing = out })
take_byte (b ∷ rest) out = (got b, record { incoming = rest; outgoing = out })

abbrev put : List ℕ → Wire → Wire
put bs w = record w { outgoing = w.outgoing ++ bs }

abbrev peek_at : ℤ → Received
peek_at (pos n) = if n == 9 then closed else would_block
peek_at (negsuc n) = closed

abbrev accepted : Option ℕ
accepted = some 4

abbrev wire : Net
wire = record {
  World = Wire;
  peek = λ fd w. peek_at fd;
  recv = λ fd w. take_byte w.incoming w.outgoing;
  pending = λ fd w. some (length w.incoming);
  send = λ fd bs w. (some (length bs), put bs w);
  shut = λ fd w. w;
  accept = λ fd w. (accepted, w);
  configure = λ fd w. w;
  uart_write = λ b w. put (b ∷ []) w;
  uart_space = λ w. 128;
}

wire_recv :
    (xs out : List ℕ) (b : ℕ) (rest : List ℕ)
    → xs ≡ b ∷ rest
    → (w : Wire) × (take_byte xs out ≡ (got b, w)) × (w.incoming ≡ rest)
wire_recv [] out b rest e = cc
wire_recv (x ∷ xs) out b rest e =
    (record { incoming = xs; outgoing = out }, ground arith, ground arith)

wire_empty :
    (xs out : List ℕ)
    → xs ≡ []
    → (is_got (take_byte xs out).0 ≡ false) × ((take_byte xs out).1.incoming ≡ [])
wire_empty [] out e = (refl, refl)
wire_empty (x ∷ xs) out e = cc

abbrev wire_stream : IsStream wire
wire_stream = record {
  input = λ fd w. w.incoming;
  pending_input = λ fd w. refl;
  recv_input = λ fd w b rest e. wire_recv w.incoming w.outgoing b rest e;
  recv_empty = λ fd w e. wire_empty w.incoming w.outgoing e;
  send_input = λ fd g bs w. refl;
  uart_input = λ fd b w. refl;
  send_peek = λ fd g bs w. refl;
}

abbrev host : List ℕ → Host wire
host bs = record { world = record { incoming = bs; outgoing = [] }; slot = empty }

round_trips_example :
    let (b1, b2) = encode 2 0x31 in
    let (c, d) = decode 200 177 in
    ((decode b1 b2 ≡ (2, 0x31)) × (192 ≤ b1) × (b1 < 256) × (bit_and b2 192 ≡ 128) × (b2 < 256))
    × ((encode c d ≡ (200, 177)) × (c < 16) × (d < 256))
round_trips_example =
    round_trips 2 0x31 8 49 (omega arith) (omega arith) (omega arith) (omega arith)

-- A connection on which the next byte comes in when the one before it was read.
abbrev trickle : Net
trickle = record wire { pending = λ fd w. some (min 1 (length w.incoming)) }

trickle_recv :
    (xs out : List ℕ)
    → is_got (take_byte xs out).0 ≡ true
    → suc (length (take_byte xs out).1.incoming) ≤ length xs
trickle_recv [] out g = cc
trickle_recv (x ∷ xs) out g = omega arith

trickle_none :
    (xs out : List ℕ)
    → is_got (take_byte xs out).0 ≡ false
    → length (take_byte xs out).1.incoming ≤ length xs
trickle_none [] out g = omega arith
trickle_none (x ∷ xs) out g = cc

trickle_pending :
    (xs out : List ℕ) (k : ℕ)
    → ◌≡◌ {A = Option ℕ} (some (min 1 (length xs))) (some (suc k))
    → is_got (take_byte xs out).0 ≡ true
trickle_pending [] out k e = ground arith
trickle_pending (x ∷ xs) out k e = refl

abbrev trickle_finite : IsFinite trickle
trickle_finite = record {
  ahead = λ fd w. length w.incoming;
  recv_ahead = λ fd w g. trickle_recv w.incoming w.outgoing g;
  recv_none = λ fd w g. trickle_none w.incoming w.outgoing g;
  recv_pending = λ fd w k e. trickle_pending w.incoming w.outgoing k e;
  send_ahead = λ fd g bs w. omega arith;
  uart_ahead = λ fd b w. omega arith;
}

abbrev trickling : List ℕ → Host trickle
trickling bs = record { world = record { incoming = bs; outgoing = [] }; slot = empty }

-- Two bytes of which the second has not come in at first.
handle_client_enhanced-Ends_example :
    (fd : ℤ) × (h : Host trickle) × (handle_client_enhanced trickle 5
        (pos 3)
        (trickling (0x41 ∷ 0x31 ∷ []))
      ≡ some (fd, h))
    × (socket_available trickle fd h.world ≡ 0)
handle_client_enhanced-Ends_example =
    handle_client_enhanced-Ends trickle trickle_finite 5 3 (trickling (0x41 ∷ 0x31 ∷ []))
      (omega arith)

-- INIT, then SEND 0x31.
abbrev two_commands : List (ℕ × ℕ)
two_commands = (0, 0) ∷ (1, 0x31) ∷ []

handle_client_enhanced-frames_example :
    handle_client_enhanced wire 3 (pos 3) (host (frames two_commands))
    ≡ some (pos 3, serve_all wire 3 two_commands (host (frames two_commands)))
handle_client_enhanced-frames_example =
    handle_client_enhanced-frames wire wire_stream 3 two_commands 3 (host (frames two_commands))
      (omega arith) refl (omega arith)

abbrev two_slots : List (Slots wire)
two_slots =
    record { regular = pos 3; read_only = minus_one; enhanced = pos 5 }
    ∷ record { regular = pos 9; read_only = pos 4; enhanced = pos 6 }
    ∷ []

abbrev symbol_for_all_but_5 : Data
symbol_for_all_but_5 = record {
  enhanced = false;
  c = 1;
  d = 0x10;
  client_fd = pos 5;
  log_to_client_fd = pos 5;
}

push_all-targets_example :
    push_all wire symbol_for_all_but_5 two_slots (host []).world
    ≡ send_each wire (targets wire symbol_for_all_but_5 two_slots (host []).world) (host []).world
push_all-targets_example =
    push_all-targets wire wire_stream symbol_for_all_but_5 two_slots (host []).world

handle_new_client-Admits_example :
    let r = handle_new_client wire (pos 0) (pos 3 ∷ pos 9 ∷ minus_one ∷ []) (host []).world in
    ((accepted ≡ none) × (r ≡ (false, pos 3 ∷ pos 9 ∷ minus_one ∷ [], (host []).world)))
    ⊎ ((n : ℕ) × (accepted ≡ some n)
        × Admits wire n (pos 3 ∷ pos 9 ∷ minus_one ∷ []) (host []).world r)
handle_new_client-Admits_example =
    handle_new_client-Admits wire (pos 0) (pos 3 ∷ pos 9 ∷ minus_one ∷ []) (host []).world
