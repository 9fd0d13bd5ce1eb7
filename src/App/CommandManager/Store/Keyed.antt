-- ===== src/App/CommandManager/Store/Keyed.antt =====
-- src/app/command_manager.cpp: what the insertion and the removal of a command do to the search by key.
use esp_arduino_ebus.Base.{
  ℕ, ◌≡◌, ◌≤◌, ◌<◌, inl, inr, refl, sym, ◌∙◌, ap, Bool, true, false, List, [], ◌∷◌, ◌++◌, Option,
  none, some, if◌then◌else◌, arith, Bool-cases, leb-cases, append-nil, ltb, length,
  get_elem?-append, set-append, bytes_eq, bytes_eq→eq, bytes_eq_refl,
}
use esp_arduino_ebus.Device.StringPool.{StringPool}
use esp_arduino_ebus.App.CommandManager.{Command, Event, get_key}
use esp_arduino_ebus.App.CommandManager.Vector.{StaticVector, IsStaticVector}
use esp_arduino_ebus.App.CommandManager.Store.{
  index_of, find_command, with_poll_id, pushed, inserted, insert_command,
}
use esp_arduino_ebus.App.CommandManager.Store.Lookup.{
  key_eq, first, find_command-first, Search, index_of-Search, first-middle,
}

-- What a search for the key of an inserted command gives: the command under the old poll id, a new
-- command, or nothing where the list was full.
abbrev pub kept_or_new : Option Command → Bool → Command → Option Command
kept_or_new (some old) room command = some (with_poll_id command old.poll_id)
kept_or_new none true command = some command
kept_or_new none false command = none

module _ (pool : StringPool) (v : StaticVector Command) (vec : IsStaticVector v) where
  pub inserted-full :
      (cs : List Command) (command : Command)
      → v.capacity ≤ length cs
      → inserted v cs command none ≡ (cs, [])
  inserted-full cs command full = ap (pushed cs command) (vec.push_full cs command full)

  pub inserted-room :
      (cs : List Command) (command : Command)
      → length cs < v.capacity
      → inserted v cs command none ≡ (cs ++ command ∷ [], Event.changed command ∷ [])
  inserted-room cs command room = ap (pushed cs command) (vec.push_room cs command room)

  pub inserted-present :
      (xs ys : List Command) (c command : Command)
      → inserted v (xs ++ c ∷ ys) command (some (length xs)) ≡ (
        xs ++ with_poll_id command c.poll_id ∷ ys,
        Event.changed (with_poll_id command c.poll_id) ∷ [],
      )
  inserted-present xs ys c command =
      rw (get_elem?-append xs ys c, set-append xs ys c (with_poll_id command c.poll_id)) refl

  first-replaced :
      (xs ys : List Command) (c command : Command) (q : List ℕ)
      → get_key pool c ≡ get_key pool command
      → first pool xs (get_key pool command) ≡ none
      → (room : Bool)
      → first pool (xs ++ with_poll_id command c.poll_id ∷ ys) q ≡ (
          if key_eq pool command q
          then kept_or_new (first pool (xs ++ c ∷ ys) (get_key pool command)) room command
          else first pool (xs ++ c ∷ ys) q)
  first-replaced xs ys c command q k unseen room =
      let unseen_c : first pool xs (get_key pool c) ≡ none = ap (first pool xs) k ∙ unseen in
      ground (
        arith,
        first-middle pool xs ys (with_poll_id command c.poll_id) q unseen,
        first-middle pool xs ys c q unseen_c,
        first-middle pool xs ys c (get_key pool command) unseen_c,
        ap (λ (t : List ℕ). bytes_eq t q) k,
        ap (λ (t : List ℕ). bytes_eq t (get_key pool command)) k,
        bytes_eq_refl (get_key pool command),
      )

  first-inserted :
      (cs : List Command) (command : Command) (q : List ℕ) {o : Option ℕ}
      → Search pool cs (get_key pool command) o
      → first pool (inserted v cs command o).0 q ≡ (
          if key_eq pool command q
          then kept_or_new
              (first pool cs (get_key pool command))
              (ltb (length cs) v.capacity)
              command
          else first pool cs q)
  first-inserted cs command q (Search.absent n) = elim (leb-cases v.capacity (length cs)) [
    | inl full ↦ rw (inserted-full cs command full) (elim (Bool-cases (key_eq pool command q)) [
      | inl e ↦
          ground (arith, e, n, full, ap (first pool cs) (bytes_eq→eq (get_key pool command) q e))
      | inr e ↦ rw e refl
    ])
    | inr room ↦
        rw (inserted-room cs command room, first-middle pool cs [] command q n, append-nil cs)
          (ground (arith, n, room))
  ]
  first-inserted cs command q (Search.present {i} s) =
      rw (s.whole, sym s.place, inserted-present s.before s.after s.here command)
        (first-replaced s.before s.after s.here command q s.key s.unseen
          (ltb (length (s.before ++ s.here ∷ s.after)) v.capacity))

  -- After an insertion, a search for the key of the command gives it, under the poll id of the
  -- command that it replaces, or nothing where it is new and the list was full; a search for
  -- another key gives what it gave before.
  pub find_command-insert_command :
      (cs : List Command) (command : Command) (q : List ℕ)
      → find_command pool (insert_command pool v cs command).0 q ≡ (
          if bytes_eq (get_key pool command) q
          then kept_or_new
              (find_command pool cs (get_key pool command))
              (ltb (length cs) v.capacity)
              command
          else find_command pool cs q)
  unfolding insert_command
  find_command-insert_command cs command q =
      rw
        (
          find_command-first pool cs q,
          find_command-first pool cs (get_key pool command),
          find_command-first pool
              (inserted v cs command (index_of pool cs (get_key pool command))).0 q,
        )
        (first-inserted cs command q (index_of-Search pool cs (get_key pool command)))
