-- ===== src/Bridge/Client/Commands.antt =====
-- handleClientEnhanced of src/bridge/client.cpp on a list of well-formed commands.
use Prim.Native.Nat.{bit_and}
use esp_arduino_ebus.Base.{
  ℕ, zero, suc, ◌≤◌, ◌<◌, ◌≡◌, refl, ◌∙◌, ap, List, [], ◌∷◌, some, arith, pos, length,
}
use esp_arduino_ebus.Bridge.Client.Net.{Net, IsStream}
use esp_arduino_ebus.Bridge.Client.Codec.{encode, decode, decode-encode}
use esp_arduino_ebus.Bridge.Client.{
  Host, socket_read_byte, process_cmd, check_second, check_first, read_cmd, run_cmd, serve_one,
  handle_client_enhanced,
}
use esp_arduino_ebus.Bridge.Client.Input.{
  process_cmd-input, handle_more, socket_available-input, socket_read_byte-input,
}

-- The bytes that a client sends for a list of commands.
abbrev pub frames : List (ℕ × ℕ) → List ℕ
frames [] = []
frames ((c, d) ∷ r) = (encode c d).0 ∷ (encode c d).1 ∷ frames r

abbrev pub AreCommands : List (ℕ × ℕ) → Type 0
AreCommands [] = Unit {0}
AreCommands ((c, d) ∷ r) = (c < 16) × (d < 256) × AreCommands r

module _ (net : Net) (n : ℕ) where
  open net use {World}

  -- The world once two bytes were taken from the socket.
  abbrev pub after_frame : World → World
  after_frame w = (socket_read_byte net (pos n) (socket_read_byte net (pos n) w).1).1

  -- The commands carried out in turn, each after its two bytes were taken.
  pub serve_all : List (ℕ × ℕ) → Host net → Host net
  serve_all [] h = h
  serve_all ((c, d) ∷ r) h =
      serve_all r (process_cmd net (pos n) c d (record h { world = after_frame h.world }))

module _ (net : Net) (stream : IsStream net) (n : ℕ) where
  open net use {World}
  open stream use {input}

  check_second-decode :
      (b b2 : ℕ) (w : World)
      → bit_and b2 0b11000000 ≡ 0b10000000
      → check_second net (pos n) b (some b2) w ≡ (some (decode b b2), pos n, w)
  unfolding check_second
  check_second-decode b b2 w e = rw e

  check_first-long :
      (b : ℕ) (w : World)
      → 192 ≤ b
      → let r = socket_read_byte net (pos n) w in
        check_first net (pos n) (some b) w ≡ check_second net (pos n) b r.0 r.1
  unfolding check_first
  check_first-long b w h = ground arith

  read_cmd-frame :
      (c d : ℕ) (xs : List ℕ) (w : World)
      → c < 16
      → d < 256
      → input (pos n) w ≡ (encode c d).0 ∷ (encode c d).1 ∷ xs
      → (read_cmd net (pos n) w ≡ (some (c, d), pos n, after_frame net n w))
        × (input (pos n) (after_frame net n w) ≡ xs)
  unfolding read_cmd
  read_cmd-frame c d xs w hc hd e =
      let (w', r, i) = socket_read_byte-input net stream n w _ _ e in
      let (w'', r', i') = socket_read_byte-input net stream n w' _ _ i in
      let (de, lo, hi, sig, top) = decode-encode c d hc hd in
      let world : after_frame net n w ≡ w'' =
        ap (λ (v : World). (socket_read_byte net (pos n) v).1) (ap (λ p. p.1) r)
        ∙ ap (λ p. p.1) r' in
      rw (world, r, check_first-long _ w' lo, r', check_second-decode _ _ w'' sig, de) (refl, i')

  serve_one-frame :
      (c d : ℕ) (h : Host net)
      → read_cmd net (pos n) h.world ≡ (some (c, d), pos n, after_frame net n h.world)
      → serve_one net (pos n) h
        ≡ (pos n, process_cmd net (pos n) c d (record h { world = after_frame net n h.world }))
  unfolding serve_one run_cmd
  serve_one-frame c d h e = rw e

  handle_none :
      (fuel : ℕ) (h : Host net)
      → input (pos n) h.world ≡ []
      → handle_client_enhanced net (suc fuel) (pos n) h ≡ some (pos n, h)
  unfolding handle_client_enhanced
  handle_none fuel h e = rw (socket_available-input net stream n h.world) (rw e)

  -- A client that has sent a list of well-formed commands (each below 16, with a byte) and nothing
  -- else has exactly these carried out, in order, and its connection stays open, if the fuel is more
  -- than their number.
  pub handle_client_enhanced-frames :
      (cmds : List (ℕ × ℕ)) (fuel : ℕ) (h : Host net)
      → AreCommands cmds
      → input (pos n) h.world ≡ frames cmds
      → length cmds < fuel
      → handle_client_enhanced net fuel (pos n) h ≡ some (pos n, serve_all net n cmds h)
  unfolding serve_all
  handle_client_enhanced-frames cmds zero h ok e l = absurd (omega arith)
  handle_client_enhanced-frames [] (suc fuel) h ok e l = handle_none fuel h e
  handle_client_enhanced-frames ((c, d) ∷ r) (suc fuel) h (hc, hd, ok) e l =
      let (rd, rest) = read_cmd-frame c d (frames r) h.world hc hd e in
      handle_more net stream fuel _ (pos n) h
        (socket_available-input net stream n h.world ∙ ap (λ (l : List ℕ). length l) e)
      ∙ rw (serve_one-frame c d h rd) (
          handle_client_enhanced-frames r fuel _ ok
            (process_cmd-input net stream (pos n) (pos n) c d _ ∙ rest) (omega arith))
