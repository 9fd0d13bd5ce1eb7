-- ===== src/App/CommandManager/WriteCmds/Sharing.antt =====
-- src/app/command_manager.cpp and src/app/command.cpp: the telegrams that commands read after one is set.
use esp_arduino_ebus.Base.{
  ℕ, zero, suc, ◌+◌, ◌%◌, ◌≤◌, ◌<◌, ◌≡◌, inl, inr, refl, ◌∙◌, sym, List, [], ◌∷◌, ◌++◌, none, some,
  ◌==◌, if◌then◌else◌, arith, length, length-append, get_or, bytes_eq, bytes_eq→eq, Bool-cases,
  Option-cases, leb-cases,
}
use esp_arduino_ebus.App.CommandManager.Vector.{StaticVector, IsStaticVector}
use esp_arduino_ebus.App.CommandManager.WriteCmds.{
  get_write_cmd, add_write_cmd, command_write_cmd, find_write_cmd, set_write_cmd, has_place,
}

get_or-append :
    (ws : List (List ℕ)) (w : List ℕ) (j : ℕ)
    → get_or (ws ++ w ∷ []) j [] ≡ (if j == length ws then w else get_or ws j [])
get_or-append [] w zero = refl
get_or-append [] w (suc j) = ground arith
get_or-append (x ∷ ws) w zero = ground arith
get_or-append (x ∷ ws) w (suc j) = ground (arith, get_or-append ws w j)

find_write_cmd-nil : (i j : ℕ) (cmd : List ℕ) → ¬ (find_write_cmd [] i cmd ≡ some j)
unfolding find_write_cmd
find_write_cmd-nil i j cmd h = cc

find_write_cmd-cons :
    (w : List ℕ) (ws : List (List ℕ)) (i : ℕ) (cmd : List ℕ)
    → find_write_cmd (w ∷ ws) i cmd
      ≡ (if bytes_eq w cmd then some i else find_write_cmd ws (suc i) cmd)
unfolding find_write_cmd
find_write_cmd-cons w ws i cmd = refl

find_write_cmd-get_or :
    (ws : List (List ℕ)) (i j : ℕ) (cmd : List ℕ)
    → find_write_cmd ws i cmd ≡ some j
    → (k : ℕ) × (j ≡ i + k) × (k < length ws) × (get_or ws k [] ≡ cmd)
find_write_cmd-get_or [] i j cmd h = absurd (find_write_cmd-nil i j cmd h)
find_write_cmd-get_or (w ∷ ws) i j cmd h = elim (Bool-cases (bytes_eq w cmd)) [
  | inl e ↦
      let here : some i ≡ some j = sym (find_write_cmd-cons w ws i cmd ∙ rw e refl) ∙ h in
      (0, ground (arith, here), omega arith, bytes_eq→eq w cmd e)
  | inr e ↦
      let rest : find_write_cmd ws (suc i) cmd ≡ some j =
        sym (find_write_cmd-cons w ws i cmd ∙ rw e refl) ∙ h in
      let (k, at, lt, is) = find_write_cmd-get_or ws (suc i) j cmd rest in
      (suc k, omega (arith, at), omega (arith, lt), is)
]

command_write_cmd-zero : (ws : List (List ℕ)) → command_write_cmd ws 0 ≡ []
unfolding command_write_cmd
command_write_cmd-zero ws = refl

command_write_cmd-suc :
    (ws : List (List ℕ)) (k : ℕ) → k < length ws → command_write_cmd ws (suc k) ≡ get_or ws k []
unfolding command_write_cmd get_write_cmd
command_write_cmd-suc ws k h = ground (arith, h)

command_write_cmd-append :
    (ws : List (List ℕ)) (w : List ℕ) (j : ℕ)
    → j ≤ length ws
    → command_write_cmd (ws ++ w ∷ []) j ≡ command_write_cmd ws j
command_write_cmd-append ws w zero h =
    command_write_cmd-zero (ws ++ w ∷ []) ∙ sym (command_write_cmd-zero ws)
command_write_cmd-append ws w (suc j) h = ground (
  arith,
  length-append ws (w ∷ []),
  command_write_cmd-suc (ws ++ w ∷ []) j,
  command_write_cmd-suc ws j,
  get_or-append ws w j,
)

command_write_cmd-last :
    (ws : List (List ℕ)) (w : List ℕ) → command_write_cmd (ws ++ w ∷ []) (suc (length ws)) ≡ w
command_write_cmd-last ws w = ground (
  arith,
  length-append ws (w ∷ []),
  command_write_cmd-suc (ws ++ w ∷ []) (length ws),
  get_or-append ws w (length ws),
)

module _ (v : StaticVector (List ℕ)) (vec : IsStaticVector v) where
  set_write_cmd-nil : (ws : List (List ℕ)) → set_write_cmd v ws [] ≡ (0, ws)
  unfolding set_write_cmd
  set_write_cmd-nil ws = refl

  set_write_cmd-found :
      (ws : List (List ℕ)) (b : ℕ) (bs : List ℕ) (i : ℕ)
      → find_write_cmd ws 0 (b ∷ bs) ≡ some i
      → set_write_cmd v ws (b ∷ bs) ≡ ((i + 1) % 256, ws)
  unfolding set_write_cmd
  set_write_cmd-found ws b bs i e = rw e refl

  set_write_cmd-full :
      (ws : List (List ℕ)) (b : ℕ) (bs : List ℕ)
      → find_write_cmd ws 0 (b ∷ bs) ≡ none
      → v.capacity ≤ length ws
      → set_write_cmd v ws (b ∷ bs) ≡ (0, ws)
  unfolding set_write_cmd add_write_cmd
  set_write_cmd-full ws b bs e full = rw e (ground (arith, full))

  set_write_cmd-room :
      (ws : List (List ℕ)) (b : ℕ) (bs : List ℕ)
      → find_write_cmd ws 0 (b ∷ bs) ≡ none
      → length ws < v.capacity
      → v.capacity < 256
      → set_write_cmd v ws (b ∷ bs) ≡ (suc (length ws), ws ++ (b ∷ bs) ∷ [])
  unfolding set_write_cmd add_write_cmd
  set_write_cmd-room ws b bs e room small = rw e (
      ground (arith, vec.push_room ws (b ∷ bs) room, room, small, length-append ws ((b ∷ bs) ∷ [])))

  -- With room for fewer than 256 telegrams: a write telegram that a command is given is the one that
  -- the command then reads, unless it is new and there was no room, and then the command reads none;
  -- every index that another command can hold reads what it read, and there are still no more
  -- telegrams than there is room for.
  pub command_write_cmd-set_write_cmd :
      (ws : List (List ℕ)) (cmd : List ℕ)
      → v.capacity < 256
      → length ws ≤ v.capacity
      → let (idx, after) = set_write_cmd v ws cmd in
        (command_write_cmd after idx
          ≡ (if has_place v ws (find_write_cmd ws 0 cmd) then cmd else []))
        × ((j : ℕ) → j ≤ length ws → command_write_cmd after j ≡ command_write_cmd ws j)
        × (length after ≤ v.capacity)
  command_write_cmd-set_write_cmd ws [] small fits =
      rw (set_write_cmd-nil ws) (ground (arith, command_write_cmd-zero ws), λ j h. refl, fits)
  command_write_cmd-set_write_cmd ws (b ∷ bs) small fits =
      elim (Option-cases (find_write_cmd ws 0 (b ∷ bs))) [
        | inr (i, e) ↦
            let (k, at, lt, is) = find_write_cmd-get_or ws 0 i (b ∷ bs) e in
            let idx : (i + 1) % 256 ≡ suc k = omega (arith, at, lt) in
            rw (set_write_cmd-found ws b bs i e, e, idx)
              (command_write_cmd-suc ws k lt ∙ is, λ j h. refl, fits)
        | inl e ↦ elim (leb-cases v.capacity (length ws)) [
          | inl full ↦
              rw (set_write_cmd-full ws b bs e full, e)
                (ground (arith, full, command_write_cmd-zero ws), λ j h. refl, fits)
          | inr room ↦
              rw (set_write_cmd-room ws b bs e room small, e)
                (
                  command_write_cmd-last ws (b ∷ bs) ∙ ground (arith, room),
                  λ j h. command_write_cmd-append ws (b ∷ bs) j h,
                  omega (arith, room, length-append ws ((b ∷ bs) ∷ [])),
                )
        ]
      ]
