-- ===== src/App/CommandManager/Overrides/Limits.antt =====
-- src/app/command_manager.cpp: the entries that a write and a removal leave.
use esp_arduino_ebus.Base.{
  ℕ, zero, suc, ◌≤◌, ◌<◌, ◌≡◌, inl, inr, refl, sym, ◌∙◌, ap, Bool, true, false, ◌&&◌, ◌||◌, List,
  [], ◌∷◌, ◌++◌, Option, none, some, append_assoc, append-nil, ◌==◌, ltb, if◌then◌else◌, arith,
  Bool-cases, Option-cases, leb-cases, length, get_elem?, get_elem?-append, snoc_of_length,
}
use esp_arduino_ebus.App.CommandManager.{FieldOverride}
use esp_arduino_ebus.App.CommandManager.Vector.{StaticVector, IsStaticVector}
use esp_arduino_ebus.App.CommandManager.Overrides.{
  find_override, write_override, new_override, set_override, has_key, remove_from,
}

module _ {F : Type 0} where
  abbrev is_some : Option (FieldOverride F) → Bool
  is_some none = false
  is_some (some o) = true

  -- The overrides of the other commands.
  abbrev pub without : ℕ → List (FieldOverride F) → List (FieldOverride F)
  without key [] = []
  without key (o ∷ os) = if o.key_id == key then without key os else o ∷ without key os

  without-append :
      (key : ℕ) (xs ys : List (FieldOverride F))
      → without key (xs ++ ys) ≡ without key xs ++ without key ys
  without-append key [] ys = refl
  without-append key (o ∷ xs) ys = elim (Bool-cases (o.key_id == key)) [
    | inl e ↦ rw e (without-append key xs ys)
    | inr e ↦ rw e (ap (◌∷◌ o) (without-append key xs ys))
  ]

  module _ (v : StaticVector (FieldOverride F)) (vec : IsStaticVector v) where
    abbrev put_back : ℕ → FieldOverride F → List (FieldOverride F) → List (FieldOverride F)
    put_back key x ys = if x.key_id == key then ys else x ∷ ys

    remove_from-suc :
        (key i : ℕ) (os : List (FieldOverride F))
        → remove_from v key (suc i) os
          ≡ remove_from v key i (if has_key key (get_elem? os i) then v.erase os i else os)
    unfolding remove_from
    remove_from-suc key i os = refl

    erase-put_back :
        (key : ℕ) (zs : List (FieldOverride F)) (x : FieldOverride F) (ys : List (FieldOverride F))
        → (if has_key key (get_elem? (zs ++ x ∷ ys) (length zs))
            then v.erase (zs ++ x ∷ ys) (length zs)
            else zs ++ x ∷ ys)
          ≡ zs ++ put_back key x ys
    erase-put_back key zs x ys = elim (Bool-cases (x.key_id == key)) [
      | inl e ↦ rw (get_elem?-append zs ys x, e, vec.erase_at zs ys x) refl
      | inr e ↦ rw (get_elem?-append zs ys x, e) refl
    ]

    remove_from-append :
        (key : ℕ) (zs : List (FieldOverride F)) (x : FieldOverride F) (ys : List (FieldOverride F))
        → remove_from v key (suc (length zs)) (zs ++ x ∷ ys)
          ≡ remove_from v key (length zs) (zs ++ put_back key x ys)
    remove_from-append key zs x ys =
        remove_from-suc key (length zs) (zs ++ x ∷ ys)
        ∙ ap (remove_from v key (length zs)) (erase-put_back key zs x ys)

    put_back-without :
        (key : ℕ) (zs : List (FieldOverride F)) (x : FieldOverride F) (ys : List (FieldOverride F))
        → without key zs ++ put_back key x ys ≡ without key (zs ++ x ∷ []) ++ ys
    put_back-without key zs x ys = elim (Bool-cases (x.key_id == key)) [
      | inl e ↦ rw (without-append key zs (x ∷ []), e) (rw (append-nil (without key zs)) refl)
      | inr e ↦
          rw (without-append key zs (x ∷ []), e) (sym (append_assoc (without key zs) (x ∷ []) ys))
    ]

    remove_from-zero : (key : ℕ) (ys : List (FieldOverride F)) → remove_from v key 0 ys ≡ ys
    unfolding remove_from
    remove_from-zero key ys = refl

    pub remove_from-without :
        (key n : ℕ) (xs ys : List (FieldOverride F))
        → length xs ≡ n
        → remove_from v key n (xs ++ ys) ≡ without key xs ++ ys
    remove_from-without key zero [] ys h = remove_from-zero key ys
    remove_from-without key zero (x ∷ xs) ys h = absurd (omega arith)
    remove_from-without key (suc n) xs ys h =
        let (zs, x, e, l) = snoc_of_length xs n h in
        ap (λ os. remove_from v key (suc n) (os ++ ys)) e
        ∙ ap (remove_from v key (suc n)) (append_assoc zs (x ∷ []) ys)
        ∙ ap (λ k. remove_from v key (suc k) (zs ++ x ∷ ys)) (sym l)
        ∙ remove_from-append key zs x ys
        ∙ ap (λ k. remove_from v key k (zs ++ put_back key x ys)) l
        ∙ remove_from-without key n zs (put_back key x ys) l
        ∙ put_back-without key zs x ys
        ∙ ap (λ os. without key os ++ ys) (sym e)

  pub find-without :
      (key : ℕ) (os : List (FieldOverride F)) (q j : ℕ)
      → find_override (without key os) q j ≡ (if q == key then none else find_override os q j)
  unfolding find_override
  find-without key [] q j = ground arith
  find-without key (o ∷ os) q j = ground (arith, find-without key os q j)

  find-write :
      (f : FieldOverride F → FieldOverride F)
      → ((o : FieldOverride F) → ((f o).key_id ≡ o.key_id) × ((f o).field_idx ≡ o.field_idx))
      → (os : List (FieldOverride F)) (k i : ℕ) (o : FieldOverride F) (q j : ℕ)
      → find_override os k i ≡ some o
      → find_override (write_override f os k i) q j
        ≡ (if q == k && j == i then some (f o) else find_override os q j)
  unfolding find_override write_override
  find-write f keeps [] k i o q j h = cc
  find-write f keeps (x ∷ os) k i o q j h = ground (arith, keeps x, find-write f keeps os k i o q j)

  find-snoc :
      (os : List (FieldOverride F)) (o : FieldOverride F) (q j : ℕ)
      → find_override os o.key_id o.field_idx ≡ none
      → find_override (os ++ o ∷ []) q j
        ≡ (if q == o.key_id && j == o.field_idx then some o else find_override os q j)
  unfolding find_override
  find-snoc [] o q j h = ground arith
  find-snoc (x ∷ os) o q j h = ground (arith, find-snoc os o q j)

-- There is an entry, or room for one.
abbrev pub storable :
    {F : Type 0} → StaticVector (FieldOverride F) → List (FieldOverride F) → ℕ → ℕ → Bool
storable v os key_id field_idx =
    is_some (find_override os key_id field_idx) || ltb (length os) v.capacity

module _ {F : Type 0} (nan : F) (v : StaticVector (FieldOverride F)) (vec : IsStaticVector v) where
  abbrev found_or_new : Option (FieldOverride F) → ℕ → ℕ → FieldOverride F
  found_or_new none k i = new_override nan k i
  found_or_new (some o) k i = o

  module _ (f : FieldOverride F → FieldOverride F) (os : List (FieldOverride F)) (k i : ℕ) where
    set-found :
        (o : FieldOverride F)
        → find_override os k i ≡ some o
        → set_override nan v f os k i ≡ write_override f os k i
    unfolding set_override
    set-found o e = ground arith

    set-full :
        find_override os k i ≡ none → v.capacity ≤ length os → set_override nan v f os k i ≡ os
    unfolding set_override
    set-full e full = ground arith

    set-room :
        find_override os k i ≡ none
        → length os < v.capacity
        → set_override nan v f os k i ≡ os ++ f (new_override nan k i) ∷ []
    unfolding set_override
    set-room e room = ground (arith, vec.push_room os (f (new_override nan k i)) room)

  pub find-set :
      (f : FieldOverride F → FieldOverride F)
      → ((o : FieldOverride F) → ((f o).key_id ≡ o.key_id) × ((f o).field_idx ≡ o.field_idx))
      → (os : List (FieldOverride F)) (k i q j : ℕ)
      → find_override (set_override nan v f os k i) q j ≡ (
          if storable v os k i && (q == k && j == i)
          then some (f (found_or_new (find_override os k i) k i))
          else find_override os q j)
  find-set f keeps os k i q j = elim (Option-cases (find_override os k i)) [
    | inl e ↦ elim (leb-cases v.capacity (length os)) [
      | inl full ↦ ground (arith, e, set-full f os k i e full)
      | inr room ↦ ground (
        arith,
        e,
        set-room f os k i e room,
        keeps (new_override nan k i),
        find-snoc os (f (new_override nan k i)) q j,
      )
    ]
    | inr (o, e) ↦ ground (arith, e, set-found f os k i o e, find-write f keeps os k i o q j e)
  ]
