-- ===== src/Bridge/Client/Net.antt =====
-- What src/bridge/client.cpp uses of lwIP and of the UART driver.
use esp_arduino_ebus.Base.{ℕ, ◌≡◌, Bool, true, false, List, [], ◌∷◌, Option, some, ℤ, length}

-- The outcome of `recv` of one byte: a byte, the end of the connection, nothing for now
-- (EWOULDBLOCK, EAGAIN), or another error.
pub data Received : Type 0 where
  got : ℕ → Received
  closed would_block failed : Received

pub record Net : Type 1 where
  pub World : Type 0
  -- `recv(fd, &byte, 1, MSG_PEEK | MSG_DONTWAIT)`
  pub peek : ℤ → World → Received
  -- `recv(fd, &byte, 1, MSG_DONTWAIT)`
  pub recv : ℤ → World → Received × World
  -- `lwip_ioctl(fd, FIONREAD, &pending)`; `none` when it fails
  pub pending : ℤ → World → Option ℕ
  -- `send(fd, data, size, 0)`; the number of bytes taken, or `none` for an error
  pub send : ℤ → List ℕ → World → Option ℕ × World
  -- `shutdown(fd, SHUT_RDWR)` and `close(fd)`
  pub shut : ℤ → World → World
  -- `accept(server_fd, …)`; `none` for a negative answer
  pub accept : ℤ → World → Option ℕ × World
  -- `setsockopt(fd, …, TCP_NODELAY, …)` and the two calls of `fcntl`
  pub configure : ℤ → World → World
  -- `bus_ser.write(symbol)` and `bus_ser.availableForWrite()`
  pub uart_write : ℕ → World → World
  pub uart_space : World → ℕ

abbrev pub is_got : Received → Bool
is_got (got b) = true
is_got _ = false

-- A connected stream socket while no further bytes come in: FIONREAD counts the bytes that have, `recv`
-- takes them in order and gives no byte when there is none; output, on a socket or the UART, changes
-- neither them nor what `recv` would answer. Bridge.Client.Ending does without this.
pub record IsStream (net : Net) : Type 0 where
  pub input : ℤ → net.World → List ℕ
  pub pending_input : (fd : ℤ) (w : net.World) → net.pending fd w ≡ some (length (input fd w))
  pub recv_input :
      (fd : ℤ) (w : net.World) (b : ℕ) (rest : List ℕ)
      → input fd w ≡ b ∷ rest
      → (w' : net.World) × (net.recv fd w ≡ (got b, w')) × (input fd w' ≡ rest)
  pub recv_empty :
      (fd : ℤ) (w : net.World)
      → input fd w ≡ []
      → (is_got (net.recv fd w).0 ≡ false) × (input fd (net.recv fd w).1 ≡ [])
  pub send_input :
      (fd g : ℤ) (bs : List ℕ) (w : net.World) → input fd (net.send g bs w).1 ≡ input fd w
  pub uart_input : (fd : ℤ) (b : ℕ) (w : net.World) → input fd (net.uart_write b w) ≡ input fd w
  pub send_peek :
      (fd g : ℤ) (bs : List ℕ) (w : net.World) → net.peek fd (net.send g bs w).1 ≡ net.peek fd w
