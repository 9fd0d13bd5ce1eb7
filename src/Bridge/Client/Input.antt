-- ===== src/Bridge/Client/Input.antt =====
-- What becomes of the bytes that a client sends.
use esp_arduino_ebus.Base.{ℕ, suc, ◌≡◌, refl, List, [], ◌∷◌, some, arith, ℤ, pos, length}
use esp_arduino_ebus.Bridge.Client.Net.{Net, IsStream}
use esp_arduino_ebus.Bridge.Client.Codec.{encode}
use esp_arduino_ebus.Bridge.Client.{
  Host, socket_available, socket_read_byte, socket_write_bytes, send_res, process_cmd, serve_one,
  handle_client_enhanced,
}

module _ (net : Net) (stream : IsStream net) where
  open net use {World}
  open stream use {input, pending_input, recv_input, send_input, uart_input}

  socket_write_bytes-input :
      (fd g : ℤ) (bs : List ℕ) (w : World) → input fd (socket_write_bytes net g bs w).1 ≡ input fd w
  unfolding socket_write_bytes
  socket_write_bytes-input fd g [] w = refl
  socket_write_bytes-input fd g (b ∷ bs) w = ground (arith, send_input fd g (b ∷ bs) w)

  send_res-input : (fd g : ℤ) (c d : ℕ) (w : World) → input fd (send_res net g c d w) ≡ input fd w
  unfolding send_res
  send_res-input fd g c d w = socket_write_bytes-input fd g ((encode c d).0 ∷ (encode c d).1 ∷ []) w

  pub process_cmd-input :
      (fd g : ℤ) (c d : ℕ) (h : Host net)
      → input fd (process_cmd net g c d h).world ≡ input fd h.world
  unfolding process_cmd
  process_cmd-input fd g c d h = ground (
    arith,
    send_res-input fd g 0 0 h.world,
    send_res-input fd g 12 0 h.world,
    uart_input fd d h.world,
  )

  pub socket_read_byte-input :
      (n : ℕ) (w : World) (b : ℕ) (rest : List ℕ)
      → input (pos n) w ≡ b ∷ rest
      → (w' : World) × (socket_read_byte net (pos n) w ≡ (some b, w')) × (input (pos n) w' ≡ rest)
  unfolding socket_read_byte
  socket_read_byte-input n w b rest e =
      let (w', r, i) = recv_input (pos n) w b rest e in (w', rw r, i)

  pub socket_available-input :
      (n : ℕ) (w : World) → socket_available net (pos n) w ≡ length (input (pos n) w)
  unfolding socket_available
  socket_available-input n w = rw (pending_input (pos n) w)

  pub handle_more :
      (fuel k : ℕ) (fd : ℤ) (h : Host net)
      → socket_available net fd h.world ≡ suc k
      → handle_client_enhanced net (suc fuel) fd h
        ≡ handle_client_enhanced net fuel (serve_one net fd h).0 (serve_one net fd h).1
  unfolding handle_client_enhanced
  handle_more fuel k fd h e = ground arith
