-- ===== src/Bridge/Client/Ending.antt =====
-- src/bridge/client.cpp: the end of handleClientEnhanced, also while the client goes on sending.
use Prim.Native.String.{String}
use esp_arduino_ebus.Base.{
  ℕ, zero, suc, ◌<◌, ◌≤◌, ◌≡◌, ◌⊎◌, inl, inr, refl, ap, true, false, List, [], ◌∷◌, Option, none,
  some, arith, ℤ, pos, minus_one, Bool-cases,
}
use esp_arduino_ebus.Bridge.Client.Net.{Net, Received, got, closed, would_block, failed, is_got}
use esp_arduino_ebus.Bridge.Client.Codec.{encode}
use esp_arduino_ebus.Bridge.Client.{
  Host, socket_available, socket_read_byte, socket_write_bytes, send_res, process_cmd, refuse,
  check_second, check_first, read_cmd, run_cmd, serve_one, handle_client_enhanced,
}

-- `ahead` is the number of bytes that the peer sends and that are still to be read, whether they have
-- come in or not. Documented behaviour: a byte that is read is one less to read, other calls add none,
-- and while FIONREAD counts bytes `recv` gives one. More bytes can come in at each call.
pub record IsFinite (net : Net) : Type 0 where
  pub ahead : ℤ → net.World → ℕ
  pub recv_ahead :
      (fd : ℤ) (w : net.World)
      → is_got (net.recv fd w).0 ≡ true
      → suc (ahead fd (net.recv fd w).1) ≤ ahead fd w
  pub recv_none :
      (fd : ℤ) (w : net.World)
      → is_got (net.recv fd w).0 ≡ false
      → ahead fd (net.recv fd w).1 ≤ ahead fd w
  pub recv_pending :
      (fd : ℤ) (w : net.World) (k : ℕ)
      → net.pending fd w ≡ some (suc k)
      → is_got (net.recv fd w).0 ≡ true
  pub send_ahead :
      (fd g : ℤ) (bs : List ℕ) (w : net.World) → ahead fd (net.send g bs w).1 ≤ ahead fd w
  pub uart_ahead : (fd : ℤ) (b : ℕ) (w : net.World) → ahead fd (net.uart_write b w) ≤ ahead fd w

module _ (net : Net) (finite : IsFinite net) where
  open net use {World}
  open finite use {ahead, recv_ahead, recv_none, recv_pending, send_ahead, uart_ahead}

  socket_write_bytes-ahead :
      (fd g : ℤ) (bs : List ℕ) (w : World) → ahead fd (socket_write_bytes net g bs w).1 ≤ ahead fd w
  unfolding socket_write_bytes
  socket_write_bytes-ahead fd g [] w = omega arith
  socket_write_bytes-ahead fd g (b ∷ bs) w = ground (arith, send_ahead fd g (b ∷ bs) w)

  send_res-ahead : (fd g : ℤ) (c d : ℕ) (w : World) → ahead fd (send_res net g c d w) ≤ ahead fd w
  unfolding send_res
  send_res-ahead fd g c d w = socket_write_bytes-ahead fd g ((encode c d).0 ∷ (encode c d).1 ∷ []) w

  process_cmd-ahead :
      (fd g : ℤ) (c d : ℕ) (h : Host net)
      → ahead fd (process_cmd net g c d h).world ≤ ahead fd h.world
  unfolding process_cmd
  process_cmd-ahead fd g c d h = ground (
    arith,
    send_res-ahead fd g 0 0 h.world,
    send_res-ahead fd g 12 0 h.world,
    uart_ahead fd d h.world,
  )

  run_cmd-ahead :
      (fd g : ℤ) (cmd : Option (ℕ × ℕ)) (h : Host net)
      → ahead fd (run_cmd net g cmd h).world ≤ ahead fd h.world
  unfolding run_cmd
  run_cmd-ahead fd g none h = omega arith
  run_cmd-ahead fd g (some (c, d)) h = process_cmd-ahead fd g c d h

  -- A read never adds to what is ahead, and takes a byte off where some wait.
  read-ahead :
      (n : ℕ) (w : World) → ahead (pos n) (socket_read_byte net (pos n) w).1 ≤ ahead (pos n) w
  unfolding socket_read_byte
  read-ahead n w = elim (Bool-cases (is_got (net.recv (pos n) w).0)) [
    | inl g ↦ omega (arith, recv_ahead (pos n) w g)
    | inr g ↦ recv_none (pos n) w g
  ]

  byte_of : (r : Received) → is_got r ≡ true → (b : ℕ) × (r ≡ got b)
  byte_of (got b) g = (b, refl)
  byte_of closed g = cc
  byte_of would_block g = cc
  byte_of failed g = cc

  some_of : (o : Option ℕ) (k : ℕ) → (elim o [ none ↦ 0 | some n ↦ n ]) ≡ suc k → o ≡ some (suc k)
  some_of none k e = cc
  some_of (some n) k e = ap some e

  read_pending :
      (n : ℕ) (w : World) (k : ℕ)
      → socket_available net (pos n) w ≡ suc k
      → (b : ℕ) × ((socket_read_byte net (pos n) w).0 ≡ some b)
        × (ahead (pos n) (socket_read_byte net (pos n) w).1 < ahead (pos n) w)
  unfolding socket_available socket_read_byte
  read_pending n w k e =
      let p : net.pending (pos n) w ≡ some (suc k) = some_of (net.pending (pos n) w) k e in
      let g = recv_pending (pos n) w k p in
      let (b, r) = byte_of (net.recv (pos n) w).0 g in
      (b, rw r refl, omega (arith, recv_ahead (pos n) w g))

  refuse-fd : (n : ℕ) (m : String) (w : World) → (refuse net (pos n) m w).1 ≡ minus_one
  unfolding refuse
  refuse-fd n m w = refl

  -- What reading one command can come to: the connection is closed, or fewer than `size` bytes are
  -- ahead.
  abbrev Reads : ℕ → Option (ℕ × ℕ) × ℤ × World → ℕ → Type 0
  Reads n (cmd, fd, w) size = (fd ≡ minus_one) ⊎ ((fd ≡ pos n) × (ahead (pos n) w < size))

  check_second-Reads :
      (n b size : ℕ) (second : Option ℕ) (w : World)
      → ahead (pos n) w < size
      → Reads n (check_second net (pos n) b second w) size
  unfolding check_second
  check_second-Reads n b size none w h = inl (refuse-fd n "second command missing" w)
  check_second-Reads n b size (some b2) w h =
      ground (arith, refuse-fd n "second command signature error" w)

  check_first-Reads :
      (n b size : ℕ) (w : World)
      → ahead (pos n) w < size
      → Reads n (check_first net (pos n) (some b) w) size
  unfolding check_first
  check_first-Reads n b size w h =
      let r = socket_read_byte net (pos n) w in
      ground (
        arith,
        refuse-fd n "first command signature error" w,
        check_second-Reads n b size r.0 r.1 (omega (arith, h, read-ahead n w)),
      )

  -- One round of the loop takes at least one byte, or closes the connection.
  serve_one-ahead :
      (n : ℕ) (h : Host net) (k : ℕ)
      → socket_available net (pos n) h.world ≡ suc k
      → ((serve_one net (pos n) h).0 ≡ minus_one)
        ⊎ (((serve_one net (pos n) h).0 ≡ pos n)
            × (ahead (pos n) (serve_one net (pos n) h).1.world < ahead (pos n) h.world))
  unfolding serve_one read_cmd
  serve_one-ahead n h k e =
      let (b, r, less) = read_pending n h.world k e in
      let w' : World = (socket_read_byte net (pos n) h.world).1 in
      rw r (elim (check_first-Reads n b (ahead (pos n) h.world) w' less) [
        | inl c ↦ inl c
        | inr (c, l) ↦ inr (
          c,
          let (cmd, fd, w) = check_first net (pos n) (some b) w' in
              omega (arith, l, run_cmd-ahead (pos n) fd cmd (record h { world = w })),
        )
      ])

  abbrev Ends : Option (ℤ × Host net) → Type 0
  Ends r = (fd : ℤ) × (h : Host net) × (r ≡ some (fd, h)) × (socket_available net fd h.world ≡ 0)

  closed-Ends : (fuel : ℕ) (h : Host net) → Ends (handle_client_enhanced net (suc fuel) minus_one h)
  unfolding handle_client_enhanced socket_available
  closed-Ends fuel h = (minus_one, h, refl, refl)

  done-Ends :
      (fuel : ℕ) (fd : ℤ) (h : Host net)
      → socket_available net fd h.world ≡ 0
      → Ends (handle_client_enhanced net (suc fuel) fd h)
  unfolding handle_client_enhanced
  done-Ends fuel fd h e = (fd, h, rw e refl, e)

  more :
      (fuel k : ℕ) (fd : ℤ) (h : Host net)
      → socket_available net fd h.world ≡ suc k
      → handle_client_enhanced net (suc fuel) fd h
        ≡ handle_client_enhanced net fuel (serve_one net fd h).0 (serve_one net fd h).1
  unfolding handle_client_enhanced
  more fuel k fd h e = ground arith

  handle-Ends :
      (fuel n k : ℕ) (h : Host net)
      → socket_available net (pos n) h.world ≡ k
      → ahead (pos n) h.world < fuel
      → Ends (handle_client_enhanced net fuel (pos n) h)
  handle-Ends zero n k h e l = absurd (omega arith)
  handle-Ends (suc fuel) n zero h e l = done-Ends fuel (pos n) h e
  handle-Ends (suc zero) n (suc k) h e l =
      let (b, r, less) = read_pending n h.world k e in absurd (omega (arith, l, less))
  handle-Ends (suc (suc fuel)) n (suc k) h e l =
      rw (more (suc fuel) k (pos n) h e) (elim (serve_one-ahead n h k e) [
        | inl c ↦ rw c (closed-Ends fuel (serve_one net (pos n) h).1)
        | inr (c, s) ↦
            rw c (handle-Ends (suc fuel) n _ (serve_one net (pos n) h).1 refl (omega (arith, l, s)))
      ])

  -- If the client sends only so many more bytes, `handleClientEnhanced` ends, even if they come in
  -- while it runs: with more fuel than that it returns, and then the connection is closed or has no
  -- byte to read. A client that never stops sending can keep it going.
  pub handle_client_enhanced-Ends :
      (fuel n : ℕ) (h : Host net)
      → ahead (pos n) h.world < fuel
      → (fd : ℤ) × (h' : Host net) × (handle_client_enhanced net fuel (pos n) h ≡ some (fd, h'))
        × (socket_available net fd h'.world ≡ 0)
  handle_client_enhanced-Ends fuel n h l = handle-Ends fuel n _ h refl l
