-- ===== src/Bridge/Client/Output.antt =====
-- To which clients a message goes, and where a new client is put.
use esp_arduino_ebus.Base.{
  ℕ, ◌≡◌, ◌⊎◌, inl, inr, refl, ◌∙◌, ap, Bool, true, false, List, [], ◌∷◌, ◌++◌, none, some, arith,
  ℤ, pos, int_eq, if◌then◌else◌, Bool-cases, Option-cases,
}
use esp_arduino_ebus.Bridge.BusType.{Data}
use esp_arduino_ebus.Bridge.Client.Net.{Net, IsStream}
use esp_arduino_ebus.Bridge.Client.Codec.{encode}
use esp_arduino_ebus.Bridge.Client.{
  is_socket_connected, socket_write_bytes, socket_write_string, close_socket, send_res, push_client,
  push_client_enhanced, Slots, push_data, push_all, place_client, admit, handle_new_client,
}

module _ (net : Net) where
  open net use {World}

  abbrev when_connected : ℤ → List ℕ → World → List (ℤ × List ℕ)
  when_connected fd bs w = if is_socket_connected net fd w then (fd, bs) ∷ [] else []

  -- Who gets what of a message, judged by the connections as they are before anything is sent: an
  -- enhanced message goes to the enhanced client that it names, a symbol to all regular and
  -- read-only clients and to all enhanced ones but the one that it names.
  abbrev pub targets_of : Data → Slots net → World → List (ℤ × List ℕ)
  targets_of d s w =
      let frame : List ℕ = (encode d.c d.d).0 ∷ (encode d.c d.d).1 ∷ [] in
      if d.enhanced
      then (if int_eq d.client_fd s.enhanced then when_connected s.enhanced frame w else [])
      else when_connected s.regular (d.d ∷ []) w
        ++ (when_connected s.read_only (d.d ∷ []) w
            ++ (if int_eq d.client_fd s.enhanced then [] else when_connected s.enhanced frame w))

  pub targets : Data → List (Slots net) → World → List (ℤ × List ℕ)
  targets d [] w = []
  targets d (s ∷ rest) w = targets_of d s w ++ targets d rest w

  pub send_each : List (ℤ × List ℕ) → World → World
  send_each [] w = w
  send_each ((fd, bs) ∷ r) w = send_each r (socket_write_bytes net fd bs w).1

  send_each-append :
      (l m : List (ℤ × List ℕ)) (w : World) → send_each (l ++ m) w ≡ send_each m (send_each l w)
  unfolding send_each
  send_each-append [] m w = refl
  send_each-append ((fd, bs) ∷ r) m w = send_each-append r m (socket_write_bytes net fd bs w).1

module _ (net : Net) (stream : IsStream net) where
  open net use {World}

  connected-write :
      (g fd : ℤ) (bs : List ℕ) (w : World)
      → is_socket_connected net g (socket_write_bytes net fd bs w).1 ≡ is_socket_connected net g w
  unfolding is_socket_connected socket_write_bytes
  connected-write g fd [] w = refl
  connected-write g fd (b ∷ bs) w = ground (arith, stream.send_peek g fd (b ∷ bs) w)

  connected-send_each :
      (g : ℤ) (l : List (ℤ × List ℕ)) (w : World)
      → is_socket_connected net g (send_each net l w) ≡ is_socket_connected net g w
  unfolding send_each
  connected-send_each g [] w = refl
  connected-send_each g ((fd, bs) ∷ r) w =
      connected-send_each g r (socket_write_bytes net fd bs w).1 ∙ connected-write g fd bs w

  targets-send_each :
      (d : Data) (ss : List (Slots net)) (l : List (ℤ × List ℕ)) (w : World)
      → targets net d ss (send_each net l w) ≡ targets net d ss w
  unfolding targets
  targets-send_each d [] l w = refl
  targets-send_each d (s ∷ rest) l w = rw (
    connected-send_each s.regular l w,
    connected-send_each s.read_only l w,
    connected-send_each s.enhanced l w,
    targets-send_each d rest l w,
  )

  push_data-targets :
      (d : Data) (s : Slots net) (w : World)
      → push_data net d s w ≡ send_each net (targets_of net d s w) w
  unfolding push_data push_client push_client_enhanced send_res send_each
  push_data-targets d s w = ground (
    arith,
    connected-write s.read_only s.regular (d.d ∷ []) w,
    connected-write s.enhanced s.regular (d.d ∷ []) w,
    connected-write s.enhanced s.read_only (d.d ∷ []) w,
    connected-write s.enhanced s.read_only (d.d ∷ [])
        (socket_write_bytes net s.regular (d.d ∷ []) w).1,
  )

  -- The delivery loop of `dataProcess` sends each message exactly to the clients of `targets`, slot
  -- by slot and in a slot to the regular, the read-only and the enhanced client in this order.
  pub push_all-targets :
      (d : Data) (ss : List (Slots net)) (w : World)
      → push_all net d ss w ≡ send_each net (targets net d ss w) w
  unfolding push_all targets send_each
  push_all-targets d [] w = refl
  push_all-targets d (s ∷ rest) w = rw (
    send_each-append net (targets_of net d s w) (targets net d rest w) w,
    push_data-targets d s w,
    push_all-targets d rest,
    targets-send_each d rest (targets_of net d s w) w,
  )

module _ (net : Net) where
  open net use {World, configure, accept}

  abbrev pub AllConnected : List ℤ → World → Type 0
  AllConnected [] w = Unit {0}
  AllConnected (c ∷ cs) w = (is_socket_connected net c w ≡ true) × AllConnected cs w

  -- The two ways in which a new client can fare: every slot is connected, or the first slot that is
  -- not is given to it, after its old socket was closed.
  abbrev pub Places : ℤ → List ℤ → World → List ℤ × Bool × World → Type 0
  Places fd cs w r =
      (AllConnected cs w × (r ≡ (cs, false, w)))
      ⊎ ((pre : List ℤ) × (c : ℤ) × (post : List ℤ) × (cs ≡ pre ++ c ∷ post)
          × AllConnected pre w
          × (is_socket_connected net c w ≡ false)
          × (r ≡ (pre ++ fd ∷ post, true, configure fd (close_socket net c w).1)))

  place_more :
      (fd c : ℤ) (cs : List ℤ) (w : World)
      → is_socket_connected net c w ≡ true
      → Places fd cs w (place_client net fd cs w)
      → Places fd (c ∷ cs) w (place_client net fd (c ∷ cs) w)
  unfolding place_client
  place_more fd c cs w h (inl (all, e)) = inl ((h, all), rw (e, h))
  place_more fd c cs w h (inr (pre, x, post, es, all, free, e)) =
      inr (c ∷ pre, x, post, ap (◌∷◌ c) es, (h, all), free, rw (e, h))

  place_client-Places :
      (fd : ℤ) (cs : List ℤ) (w : World) → Places fd cs w (place_client net fd cs w)
  unfolding place_client
  place_client-Places fd [] w = inl (tt, refl)
  place_client-Places fd (c ∷ cs) w = elim (Bool-cases (is_socket_connected net c w)) [
    | inl h ↦ place_more fd c cs w h (place_client-Places fd cs w)
    | inr h ↦ inr ([], c, cs, refl, tt, h, rw h)
  ]

  abbrev pub Admits : ℕ → List ℤ → World → Bool × List ℤ × World → Type 0
  Admits n cs w r =
      (AllConnected cs w
        × (r ≡ (
          true,
          cs,
          (close_socket net (pos n) (socket_write_string net (pos n) "busy\r\n" w).1).1,
        )))
      ⊎ ((pre : List ℤ) × (c : ℤ) × (post : List ℤ) × (cs ≡ pre ++ c ∷ post)
          × AllConnected pre w
          × (is_socket_connected net c w ≡ false)
          × (r ≡ (true, pre ++ pos n ∷ post, configure (pos n) (close_socket net c w).1)))

  admit-Admits : (n : ℕ) (cs : List ℤ) (w : World) → Admits n cs w (admit net cs (some n) w)
  unfolding admit
  admit-Admits n cs w = elim (place_client-Places (pos n) cs w) [
    | inl (all, e) ↦ inl (all, rw e)
    | inr (pre, c, post, es, all, free, e) ↦ inr (pre, c, post, es, all, free, rw e)
  ]

  -- `handleNewClient`: when nobody is accepted the clients stay as they are. An accepted client gets
  -- the first slot that is not connected, whose old socket is closed, and no other slot changes; if
  -- all are connected it is told "busy" and closed, and all slots stay as they are.
  pub handle_new_client-Admits :
      (server_fd : ℤ) (cs : List ℤ) (w : World)
      → let r = handle_new_client net server_fd cs w in
        let (client, w') = accept server_fd w in
        ((client ≡ none) × (r ≡ (false, cs, w'))) ⊎ ((n : ℕ) × (client ≡ some n) × Admits n cs w' r)
  unfolding handle_new_client
  handle_new_client-Admits server_fd cs w = elim (Option-cases (accept server_fd w).0) [
    | inl e ↦ inl (e, rw e (unfold admit in refl))
    | inr (n, e) ↦ inr (n, e, rw e (admit-Admits n cs (accept server_fd w).1))
  ]
