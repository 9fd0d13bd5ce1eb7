-- ===== src/App/CommandManager/Store/Invariant.antt =====
-- src/app/command_manager.cpp: distinct keys and the capacity, over any sequence of changes.
use esp_arduino_ebus.Base.{
  ℕ, suc, ◌≡◌, ◌≤◌, inl, inr, refl, sym, ◌∙◌, ap, false, List, [], ◌∷◌, ◌++◌, Option, none, some,
  arith, leb-cases, append-nil, length, length-append, get_elem?-append, bytes_eq_sym,
}
use esp_arduino_ebus.Device.StringPool.{StringPool}
use esp_arduino_ebus.App.CommandManager.{Command, Event, FieldOverride, CommandManager, get_key}
use esp_arduino_ebus.App.CommandManager.Vector.{StaticVector, IsStaticVector}
use esp_arduino_ebus.App.CommandManager.Overrides.{remove_field_overrides}
use esp_arduino_ebus.App.CommandManager.Store.{
  with_poll_id, inserted, insert_command, removed_at, remove_command, remove_all, wipe_commands,
  Files,
}
use esp_arduino_ebus.App.CommandManager.Store.Lookup.{
  key_eq, first, Search, index_of-Search, first-skip,
}
use esp_arduino_ebus.App.CommandManager.Store.Keyed.{inserted-full, inserted-room, inserted-present}

module _ (pool : StringPool) where
  -- No two commands have the same key.
  abbrev pub Unique : List Command → Type 0
  Unique [] = Unit {0}
  Unique (c ∷ cs) = (first pool cs (get_key pool c) ≡ none) × Unique cs

  key_eq_sym : (c d : Command) → key_eq pool c (get_key pool d) ≡ key_eq pool d (get_key pool c)
  key_eq_sym c d = bytes_eq_sym (get_key pool c) (get_key pool d)

  first-middle_none :
      (xs ys : List Command) (c : Command) (q : List ℕ)
      → first pool (xs ++ c ∷ ys) q ≡ none
      → (key_eq pool c q ≡ false) × (first pool (xs ++ ys) q ≡ none)
  first-middle_none [] ys c q h = ground arith
  first-middle_none (x ∷ xs) ys c q h = ground (arith, first-middle_none xs ys c q)

  pub Unique-take_out :
      (xs ys : List Command) (c : Command)
      → Unique (xs ++ c ∷ ys)
      → (first pool (xs ++ ys) (get_key pool c) ≡ none) × Unique (xs ++ ys)
  Unique-take_out [] ys c u = u
  Unique-take_out (x ∷ xs) ys c (n, u) =
      let (a, w) = Unique-take_out xs ys c u in
      let (b, m) = first-middle_none xs ys c (get_key pool x) n in
      (ground (arith, a, b, key_eq_sym c x), (m, w))

  Unique-put_in :
      (xs ys : List Command) (c : Command)
      → first pool (xs ++ ys) (get_key pool c) ≡ none
      → Unique (xs ++ ys)
      → Unique (xs ++ c ∷ ys)
  Unique-put_in [] ys c n u = (n, u)
  Unique-put_in (x ∷ xs) ys c n (m, u) =
      let e : key_eq pool x (get_key pool c) ≡ false = ground arith in
      let n' : first pool (xs ++ ys) (get_key pool c) ≡ none = ground arith in
      (
        first-skip pool xs ys c (get_key pool x) (key_eq_sym c x ∙ e) ∙ m,
        Unique-put_in xs ys c n' u,
      )

-- The keys are distinct and there are at most `capacity` commands.
pub record IsKeyed (pool : StringPool) (v : StaticVector Command) (cs : List Command) : Type 0 where
  pub unique : Unique pool cs
  pub fits : length cs ≤ v.capacity

module _ (pool : StringPool) (v : StaticVector Command) (vec : IsStaticVector v) where
  length-middle :
      (xs ys : List Command) (c : Command) → length (xs ++ c ∷ ys) ≡ suc (length (xs ++ ys))
  length-middle xs ys c = omega (arith, length-append xs (c ∷ ys), length-append xs ys)

  IsKeyed-replace :
      (xs ys : List Command) (c d : Command)
      → get_key pool c ≡ get_key pool d
      → IsKeyed pool v (xs ++ c ∷ ys)
      → IsKeyed pool v (xs ++ d ∷ ys)
  IsKeyed-replace xs ys c d k inv =
      let (n, u) = Unique-take_out pool xs ys c inv.unique in
      record {
        unique = Unique-put_in pool xs ys d (ap (first pool (xs ++ ys)) (sym k) ∙ n) u;
        fits = omega (arith, inv.fits, length-middle xs ys c, length-middle xs ys d);
      }

  inserted-IsKeyed :
      (cs : List Command) (command : Command) {o : Option ℕ}
      → Search pool cs (get_key pool command) o
      → IsKeyed pool v cs
      → IsKeyed pool v (inserted v cs command o).0
  inserted-IsKeyed cs command (Search.absent n) inv = elim (leb-cases v.capacity (length cs)) [
    | inl full ↦ rw (inserted-full pool v vec cs command full) inv
    | inr room ↦ rw (inserted-room pool v vec cs command room) (record {
      unique =
          Unique-put_in pool cs [] command
            (ap (λ xs. first pool xs (get_key pool command)) (append-nil cs) ∙ n)
            (rw (append-nil cs) inv.unique);
      fits = omega (arith, room, length-append cs (command ∷ []));
    })
  ]
  inserted-IsKeyed cs command (Search.present {i} s) inv =
      let inv' : IsKeyed pool v (s.before ++ s.here ∷ s.after) = rw (sym s.whole) inv in
      rw (s.whole, sym s.place, inserted-present pool v vec s.before s.after s.here command)
        (IsKeyed-replace s.before s.after s.here (with_poll_id command s.here.poll_id) s.key inv')

  insert_command-IsKeyed :
      (cs : List Command) (command : Command)
      → IsKeyed pool v cs
      → IsKeyed pool v (insert_command pool v cs command).0
  unfolding insert_command
  insert_command-IsKeyed cs command inv =
      inserted-IsKeyed cs command (index_of-Search pool cs (get_key pool command)) inv

  module _ {F : Type 0} (w : StaticVector (FieldOverride F)) where
    pub removed_at-present :
        (m : CommandManager F) (xs ys : List Command) (c : Command)
        → m.commands ≡ xs ++ c ∷ ys
        → removed_at v w m (some (length xs)) ≡ (
          record m {
            commands = xs ++ ys;
            field_overrides = remove_field_overrides w c.key_id m.field_overrides;
          },
          Event.removed c ∷ [],
        )
    removed_at-present m xs ys c e =
        ap (λ cs. removed_at v w (record m { commands = cs }) (some (length xs))) e
        ∙ rw (get_elem?-append xs ys c, vec.erase_at xs ys c) refl

    removed_at-IsKeyed :
        (m : CommandManager F) (key : List ℕ) {o : Option ℕ}
        → Search pool m.commands key o
        → IsKeyed pool v m.commands
        → IsKeyed pool v (removed_at v w m o).0.commands
    removed_at-IsKeyed m key (Search.absent n) inv = inv
    removed_at-IsKeyed m key (Search.present {i} s) inv =
        let u : Unique pool (s.before ++ s.here ∷ s.after) = rw (sym s.whole) inv.unique in
        rw (sym s.place, removed_at-present m s.before s.after s.here s.whole)
          (record {
            unique = (Unique-take_out pool s.before s.after s.here u).1;
            fits =
                omega (arith, inv.fits, ap length s.whole, length-middle s.before s.after s.here);
          })

    remove_command-IsKeyed :
        (m : CommandManager F) (key : List ℕ)
        → IsKeyed pool v m.commands
        → IsKeyed pool v (remove_command v w pool m key).0.commands
    unfolding remove_command
    remove_command-IsKeyed m key inv =
        removed_at-IsKeyed m key (index_of-Search pool m.commands key) inv

-- The ways to change the commands.
pub data Change : Type 0 where
  insert : Command → Change
  remove : List ℕ → Change
  clear : Change
  wipe : Files → Change

module _ {F : Type 0} (pool : StringPool) (v : StaticVector Command)
    (w : StaticVector (FieldOverride F)) where
  abbrev pub change : CommandManager F → Change → CommandManager F
  change m (Change.insert c) = record m { commands = (insert_command pool v m.commands c).0 }
  change m (Change.remove key) = (remove_command v w pool m key).0
  change m Change.clear = (remove_all m).0
  change m (Change.wipe files) = (wipe_commands m files).0

  abbrev pub change_all : CommandManager F → List Change → CommandManager F
  change_all m [] = m
  change_all m (ch ∷ chs) = change_all (change m ch) chs

module _ {F : Type 0} (pool : StringPool) (v : StaticVector Command) (vec : IsStaticVector v)
    (w : StaticVector (FieldOverride F)) where
  change-IsKeyed :
      (m : CommandManager F) (ch : Change)
      → IsKeyed pool v m.commands
      → IsKeyed pool v (change pool v w m ch).commands
  unfolding remove_all wipe_commands
  change-IsKeyed m (Change.insert c) inv = insert_command-IsKeyed pool v vec m.commands c inv
  change-IsKeyed m (Change.remove key) inv = remove_command-IsKeyed pool v vec w m key inv
  change-IsKeyed m Change.clear inv = record { unique = tt; fits = omega arith }
  change-IsKeyed m (Change.wipe files) inv = record { unique = tt; fits = omega arith }

  change_all-IsKeyed :
      (m : CommandManager F) (chs : List Change)
      → IsKeyed pool v m.commands
      → IsKeyed pool v (change_all pool v w m chs).commands
  change_all-IsKeyed m [] inv = inv
  change_all-IsKeyed m (ch ∷ chs) inv =
      change_all-IsKeyed (change pool v w m ch) chs (change-IsKeyed m ch inv)

  -- Whatever is inserted, removed, cleared or wiped from an empty manager on, over one pool of texts,
  -- no two commands have the same key and no more commands are held than the vector has room for.
  pub empty_start-IsKeyed :
      (m : CommandManager F) (chs : List Change)
      → m.commands ≡ []
      → IsKeyed pool v (change_all pool v w m chs).commands
  empty_start-IsKeyed m chs e =
      change_all-IsKeyed m chs (rw e (record { unique = tt; fits = omega arith }))
