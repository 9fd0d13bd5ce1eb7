-- ===== src/App/CommandManager/Store/Lookup.antt =====
-- src/app/command_manager.cpp: the first command with a key, and what stands before and after it.
use esp_arduino_ebus.Base.{
  ℕ, suc, ◌≡◌, inl, inr, refl, sym, ◌∙◌, ap, Bool, true, false, List, [], ◌∷◌, ◌++◌, Option, none,
  some, if◌then◌else◌, arith, Bool-cases, length, bytes_eq, bytes_eq→eq,
}
use esp_arduino_ebus.Device.StringPool.{StringPool}
use esp_arduino_ebus.App.CommandManager.{Command, get_key}
use esp_arduino_ebus.App.CommandManager.Store.{index_of, next_index, at, find_command}

module _ (pool : StringPool) where
  abbrev pub key_eq : Command → List ℕ → Bool
  key_eq c q = bytes_eq (get_key pool c) q

  abbrev pub first : List Command → List ℕ → Option Command
  first [] q = none
  first (c ∷ cs) q = if key_eq c q then some c else first cs q

  index_of-nil : (q : List ℕ) → index_of pool [] q ≡ none
  unfolding index_of
  index_of-nil q = refl

  index_of-cons :
      (c : Command) (cs : List Command) (q : List ℕ)
      → index_of pool (c ∷ cs) q ≡ (if key_eq c q then some 0 else next_index (index_of pool cs q))
  unfolding index_of
  index_of-cons c cs q = refl

  at-next : (c : Command) (cs : List Command) (o : Option ℕ) → at (c ∷ cs) (next_index o) ≡ at cs o
  at-next c cs none = refl
  at-next c cs (some i) = refl

  -- The command that `findCommand` gives is the first one with the key.
  pub find_command-first : (cs : List Command) (q : List ℕ) → find_command pool cs q ≡ first cs q
  unfolding find_command
  find_command-first [] q = rw (index_of-nil q) refl
  find_command-first (c ∷ cs) q = elim (Bool-cases (key_eq c q)) [
    | inl e ↦ rw (index_of-cons c cs q, e) refl
    | inr e ↦
        rw (index_of-cons c cs q, e) (at-next c cs (index_of pool cs q) ∙ find_command-first cs q)
  ]

  -- A list, split at its first command with a key.
  pub record SplitAt (cs : List Command) (q : List ℕ) (i : ℕ) : Type 0 where
    pub before : List Command
    pub here : Command
    pub after : List Command
    pub whole : cs ≡ before ++ here ∷ after
    pub place : length before ≡ i
    pub key : get_key pool here ≡ q
    pub unseen : first before q ≡ none

  split_head :
      (c : Command) (cs : List Command) (q : List ℕ) → key_eq c q ≡ true → SplitAt (c ∷ cs) q 0
  split_head c cs q e = record {
    before = [];
    here = c;
    after = cs;
    whole = refl;
    place = refl;
    key = bytes_eq→eq (get_key pool c) q e;
    unseen = refl;
  }

  split_tail :
      (c : Command) (cs : List Command) (q : List ℕ) (i : ℕ)
      → key_eq c q ≡ false
      → SplitAt cs q i
      → SplitAt (c ∷ cs) q (suc i)
  split_tail c cs q i e s = record {
    before = c ∷ s.before;
    here = s.here;
    after = s.after;
    whole = ap (◌∷◌ c) s.whole;
    place = ap suc s.place;
    key = s.key;
    unseen = rw e s.unseen;
  }

  -- A search finds nothing, or splits the list.
  pub data Search (cs : List Command) (q : List ℕ) : Option ℕ → Type 0 where
    absent : first cs q ≡ none → Search cs q none
    present : {i : ℕ} → SplitAt cs q i → Search cs q (some i)

  Search-tail :
      (c : Command) (cs : List Command) (q : List ℕ) {o : Option ℕ}
      → key_eq c q ≡ false
      → Search cs q o
      → Search (c ∷ cs) q (next_index o)
  Search-tail c cs q e (Search.absent n) = Search.absent (rw e n)
  Search-tail c cs q e (Search.present {i} s) = Search.present (split_tail c cs q i e s)

  pub index_of-Search : (cs : List Command) (q : List ℕ) → Search cs q (index_of pool cs q)
  index_of-Search [] q = rw (index_of-nil q) (Search.absent refl)
  index_of-Search (c ∷ cs) q = elim (Bool-cases (key_eq c q)) [
    | inl e ↦ rw (index_of-cons c cs q, e) (Search.present (split_head c cs q e))
    | inr e ↦ rw (index_of-cons c cs q, e) (Search-tail c cs q e (index_of-Search cs q))
  ]

  first-append_unseen :
      (xs ys : List Command) (q : List ℕ) → first xs q ≡ none → first (xs ++ ys) q ≡ first ys q
  first-append_unseen [] ys q h = refl
  first-append_unseen (x ∷ xs) ys q h = ground (arith, first-append_unseen xs ys q)

  pub first-skip :
      (xs ys : List Command) (c : Command) (q : List ℕ)
      → key_eq c q ≡ false
      → first (xs ++ c ∷ ys) q ≡ first (xs ++ ys) q
  first-skip [] ys c q e = rw e refl
  first-skip (x ∷ xs) ys c q e = ap (λ r. if key_eq x q then some x else r) (first-skip xs ys c q e)

  -- A command whose key does not stand before it is found by its key, and hides nothing else.
  pub first-middle :
      (xs ys : List Command) (c : Command) (q : List ℕ)
      → first xs (get_key pool c) ≡ none
      → first (xs ++ c ∷ ys) q ≡ (if key_eq c q then some c else first (xs ++ ys) q)
  first-middle xs ys c q h = elim (Bool-cases (key_eq c q)) [
    | inl e ↦ rw e (
        first-append_unseen xs (c ∷ ys) q
          (ap (first xs) (sym (bytes_eq→eq (get_key pool c) q e)) ∙ h)
        ∙ rw e refl)
    | inr e ↦ rw e (first-skip xs ys c q e)
  ]
