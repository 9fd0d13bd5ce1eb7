-- ===== src/App/CommandManager/Store/Removal.antt =====
-- src/app/command_manager.cpp: the commands and the limits after the removal of a command.
use esp_arduino_ebus.Base.{
  ℕ, ◌≡◌, inl, inr, refl, sym, ◌∙◌, ap, List, [], ◌∷◌, ◌++◌, Option, none, some, if◌then◌else◌,
  arith, Bool-cases, bytes_eq, bytes_eq→eq, bytes_eq_refl, ◌==◌,
}
use esp_arduino_ebus.Device.StringPool.{StringPool}
use esp_arduino_ebus.App.CommandManager.{Command, Event, FieldOverride, CommandManager}
use esp_arduino_ebus.App.CommandManager.Vector.{StaticVector, IsStaticVector}
use esp_arduino_ebus.App.CommandManager.Overrides.{
  remove_field_overrides, get_field_min_override, get_field_max_override,
}
use esp_arduino_ebus.App.CommandManager.Store.{index_of, find_command, removed_at, remove_command}
use esp_arduino_ebus.App.CommandManager.Store.Lookup.{
  first, find_command-first, Search, index_of-Search, first-middle,
}
use esp_arduino_ebus.App.CommandManager.Overrides.Reads.{
  get_field_min_override-remove_field_overrides,
}
use esp_arduino_ebus.App.CommandManager.Store.Invariant.{
  Unique, Unique-take_out, IsKeyed, removed_at-present,
}

module _ {F : Type 0} (nan : F) (pool : StringPool) (v : StaticVector Command)
    (vec : IsStaticVector v) (w : StaticVector (FieldOverride F)) (wec : IsStaticVector w) where
  find-removed_at :
      (m : CommandManager F) (key q : List ℕ) {o : Option ℕ}
      → Search pool m.commands key o
      → IsKeyed pool v m.commands
      → first pool (removed_at v w m o).0.commands q
        ≡ (if bytes_eq key q then none else first pool m.commands q)
  find-removed_at m key q (Search.absent n) inv = elim (Bool-cases (bytes_eq key q)) [
    | inl e ↦ rw e (ap (first pool m.commands) (sym (bytes_eq→eq key q e)) ∙ n)
    | inr e ↦ rw e refl
  ]
  find-removed_at m key q (Search.present {i} s) inv =
      let u : Unique pool (s.before ++ s.here ∷ s.after) = rw (sym s.whole) inv.unique in
      let (gone, rest) = Unique-take_out pool s.before s.after s.here u in
      let found : first pool m.commands q ≡ first pool (s.before ++ s.here ∷ s.after) q =
        ap (λ cs. first pool cs q) s.whole in
      rw (sym s.place, removed_at-present pool v vec w m s.before s.after s.here s.whole)
        (ground (
          arith,
          gone,
          found,
          bytes_eq→eq key q,
          ap (λ (t : List ℕ). bytes_eq t q) s.key,
          ap (first pool (s.before ++ s.after)) s.key,
          first-middle pool s.before s.after s.here q (ap (first pool s.before) s.key ∙ s.unseen),
        ))

  -- The command that a search by key gives is the one that a removal by that key takes out.
  removed_at-Forgets :
      (m : CommandManager F) (key : List ℕ) (c : Command) {o : Option ℕ}
      → Search pool m.commands key o
      → first pool m.commands key ≡ some c
      → ((removed_at v w m o).0.field_overrides
          ≡ remove_field_overrides w c.key_id m.field_overrides)
        × ((removed_at v w m o).1 ≡ Event.removed c ∷ [])
  removed_at-Forgets m key c (Search.absent n) f = cc
  removed_at-Forgets m key c (Search.present {i} s) f =
      let here_c : some s.here ≡ some c =
        sym (
          ap (λ cs. first pool cs key) s.whole
          ∙ first-middle pool s.before s.after s.here key
              (ap (first pool s.before) s.key ∙ s.unseen)
          ∙ rw (s.key, bytes_eq_refl key) refl)
        ∙ f in
      let e : s.here ≡ c = cc in
      rw (sym s.place, removed_at-present pool v vec w m s.before s.after s.here s.whole, e)
        (refl, refl)

  -- When a command is removed by its key, no search for that key finds a command any more, a search
  -- for another key gives what it gave, the callback is told the command, the limits of its fields
  -- read as NaN and those of other commands as before.
  pub remove_command-Forgets :
      (m : CommandManager F) (key : List ℕ) (c : Command)
      → IsKeyed pool v m.commands
      → find_command pool m.commands key ≡ some c
      → (q : List ℕ) (k j : ℕ)
      → let (after, events) = remove_command v w pool m key in
        (find_command pool after.commands q
          ≡ (if bytes_eq key q then none else find_command pool m.commands q))
        × (events ≡ Event.removed c ∷ [])
        × (get_field_min_override nan after.field_overrides k j
            ≡ (if k == c.key_id then nan else get_field_min_override nan m.field_overrides k j))
        × (get_field_max_override nan after.field_overrides k j
            ≡ (if k == c.key_id then nan else get_field_max_override nan m.field_overrides k j))
  unfolding remove_command
  remove_command-Forgets m key c inv f q k j =
      let s : Search pool m.commands key (index_of pool m.commands key) =
        index_of-Search pool m.commands key in
      let (limits, told) =
        removed_at-Forgets m key c s (sym (find_command-first pool m.commands key) ∙ f) in
      let (lo, hi) =
        get_field_min_override-remove_field_overrides nan w wec c.key_id m.field_overrides k j in
      (
        rw
            (
              find_command-first pool m.commands q,
              find_command-first pool (removed_at v w m (index_of pool m.commands key)).0.commands
                  q,
            )
            (find-removed_at m key q s inv),
        told,
        ap (λ os. get_field_min_override nan os k j) limits ∙ lo,
        ap (λ os. get_field_max_override nan os k j) limits ∙ hi,
      )
