-- ===== src/App/CommandManager/Updates/Passive.antt =====
-- src/app/command_manager.cpp: which commands a telegram of another device updates.
use esp_arduino_ebus.Base.{
  ℕ, zero, suc, ◌+◌, ◌≡◌, inl, inr, refl, sym, ◌∙◌, ap, Bool, not, ◌&&◌, List, [], ◌∷◌, ◌++◌,
  if◌then◌else◌, arith, length, length-append, get_elem?, get_elem?-append, set-append,
  append_assoc, append-nil, Bool-cases,
}
use esp_arduino_ebus.Device.StringPool.{StringPool}
use esp_arduino_ebus.App.CommandManager.{Command, Event, get_active}
use esp_arduino_ebus.App.CommandManager.Vector.{StaticVector, IsStaticVector}
use esp_arduino_ebus.App.CommandManager.Updates.{
  ProtocolInfo, Telegrams, matches, find_passive_from, find_passive_commands, updated,
  update_events, put, before, update_at,
}

module _ (ebus : Telegrams) where
  abbrev pub listens : List ℕ → Command → Bool
  listens master c = not (get_active c) && matches ebus c master

  -- The commands, of which the first `room` that listen to the telegram are updated.
  abbrev pub passive_updates : ProtocolInfo → ℕ → ℕ → List Command → List Command
  passive_updates info now_ms room [] = []
  passive_updates info now_ms room (c ∷ cs) =
      if listens info.master_view c
      then elim room [
        | zero ↦ c ∷ cs
        | suc r ↦ updated ebus c info now_ms ∷ passive_updates info now_ms r cs
      ]
      else c ∷ passive_updates info now_ms room cs

  abbrev pub passive_events : StringPool → ProtocolInfo → ℕ → List Command → List Event
  passive_events pool info room [] = []
  passive_events pool info room (c ∷ cs) =
      if listens info.master_view c
      then elim room [
        | zero ↦ []
        | suc r ↦ update_events ebus pool c info ++ passive_events pool info r cs
      ]
      else passive_events pool info room cs

  abbrev hits : List ℕ → ℕ → ℕ → List Command → List ℕ
  hits master room i [] = []
  hits master room i (c ∷ cs) =
      if listens master c
      then elim room [ zero ↦ [] | suc r ↦ i ∷ hits master r (suc i) cs ]
      else hits master room (suc i) cs

  find_passive_from-cons :
      (r : StaticVector ℕ) (c : Command) (cs : List Command) (i : ℕ) (result master : List ℕ)
      → find_passive_from ebus r (c ∷ cs) i result master ≡ (
          if listens master c && not (r.push_back result i).0
          then (r.push_back result i).1
          else find_passive_from ebus r cs
              (suc i)
              (if listens master c then (r.push_back result i).1 else result)
              master)
  unfolding find_passive_from
  find_passive_from-cons r c cs i result master = refl

  find_passive_from-nil :
      (r : StaticVector ℕ) (i : ℕ) (result master : List ℕ)
      → find_passive_from ebus r [] i result master ≡ result
  unfolding find_passive_from
  find_passive_from-nil r i result master = refl

  find_passive_from-hits :
      (r : StaticVector ℕ) (vec : IsStaticVector r) (cs : List Command) (i room : ℕ)
      (result master : List ℕ)
      → length result + room ≡ r.capacity
      → find_passive_from ebus r cs i result master ≡ result ++ hits master room i cs
  find_passive_from-hits r vec [] i room result master h =
      find_passive_from-nil r i result master ∙ sym (append-nil result)
  find_passive_from-hits r vec (c ∷ cs) i zero result master h =
      elim (Bool-cases (listens master c)) [
        | inr e ↦
            rw (find_passive_from-cons r c cs i result master, e)
              (find_passive_from-hits r vec cs (suc i) zero result master h)
        | inl e ↦
            rw
              (
                find_passive_from-cons r c cs i result master,
                e,
                vec.push_full result i (omega (arith, h)),
              )
              (sym (append-nil result))
      ]
  find_passive_from-hits r vec (c ∷ cs) i (suc room) result master h =
      elim (Bool-cases (listens master c)) [
        | inr e ↦
            rw (find_passive_from-cons r c cs i result master, e)
              (find_passive_from-hits r vec cs (suc i) (suc room) result master h)
        | inl e ↦
            rw
              (
                find_passive_from-cons r c cs i result master,
                e,
                vec.push_room result i (omega (arith, h)),
              )
              (find_passive_from-hits r vec cs (suc i) room (result ++ i ∷ []) master
                  (omega (arith, h, length-append result (i ∷ [])))
                ∙ append_assoc result (i ∷ []) (hits master room (suc i) cs))
      ]

  module _ (pool : StringPool) (info : ProtocolInfo) (now_ms : ℕ) where
    pub update_at-nil : (cs : List Command) → update_at ebus pool info now_ms cs [] ≡ (cs, [])
    unfolding update_at
    update_at-nil cs = refl

    update_at-cons :
        (cs : List Command) (i : ℕ) (is : List ℕ)
        → update_at ebus pool info now_ms cs (i ∷ is)
          ≡ before (put ebus pool info now_ms cs i (get_elem? cs i)).1 (
              update_at ebus pool info now_ms
                (put ebus pool info now_ms cs i (get_elem? cs i)).0
                is)
    unfolding update_at
    update_at-cons cs i is = refl

    pub update_at-present :
        (pre cs : List Command) (c : Command) (is : List ℕ)
        → update_at ebus pool info now_ms (pre ++ c ∷ cs) (length pre ∷ is)
          ≡ before
              (update_events ebus pool c info)
              (update_at ebus pool info now_ms (pre ++ updated ebus c info now_ms ∷ cs) is)
    update_at-present pre cs c is =
        update_at-cons (pre ++ c ∷ cs) (length pre) is
        ∙ rw (get_elem?-append pre cs c, set-append pre cs c (updated ebus c info now_ms)) refl

    -- A command that is done with goes to the part before.
    update_at-shift :
        (pre cs : List Command) (x : Command) (room : ℕ)
        → update_at ebus pool info now_ms
            ((pre ++ x ∷ []) ++ cs)
            (hits info.master_view room (length (pre ++ x ∷ [])) cs)
          ≡ (
            (pre ++ x ∷ []) ++ passive_updates info now_ms room cs,
            passive_events pool info room cs,
          )
        → update_at ebus pool info now_ms
            (pre ++ x ∷ cs)
            (hits info.master_view room (suc (length pre)) cs)
          ≡ (pre ++ x ∷ passive_updates info now_ms room cs, passive_events pool info room cs)
    update_at-shift pre cs x room ih =
        let place : suc (length pre) ≡ length (pre ++ x ∷ []) =
          omega (arith, length-append pre (x ∷ [])) in
        ap
          (λ zs.
            update_at ebus pool info now_ms zs (hits info.master_view room (suc (length pre)) cs))
          (sym (append_assoc pre (x ∷ []) cs))
        ∙ ap
            (λ k.
              update_at ebus pool info now_ms ((pre ++ x ∷ []) ++ cs)
                (hits info.master_view room k cs))
            place
        ∙ ih
        ∙ ap (λ zs. (zs, passive_events pool info room cs))
            (append_assoc pre (x ∷ []) (passive_updates info now_ms room cs))

    update_at-hits :
        (cs : List Command) (room : ℕ) (pre : List Command)
        → update_at ebus pool info now_ms (pre ++ cs) (hits info.master_view room (length pre) cs)
          ≡ (pre ++ passive_updates info now_ms room cs, passive_events pool info room cs)
    update_at-hits [] room pre = update_at-nil (pre ++ [])
    update_at-hits (c ∷ cs) zero pre = elim (Bool-cases (listens info.master_view c)) [
      | inl e ↦ rw e (update_at-nil (pre ++ c ∷ cs))
      | inr e ↦ rw e (update_at-shift pre cs c zero (update_at-hits cs zero (pre ++ c ∷ [])))
    ]
    update_at-hits (c ∷ cs) (suc room) pre = elim (Bool-cases (listens info.master_view c)) [
      | inl e ↦
          let u : Command = updated ebus c info now_ms in
          rw e (
            update_at-present pre cs c (hits info.master_view room (suc (length pre)) cs)
            ∙ ap (before (update_events ebus pool c info))
                (update_at-shift pre cs u room (update_at-hits cs room (pre ++ u ∷ []))))
      | inr e ↦
          rw e (update_at-shift pre cs c (suc room) (update_at-hits cs (suc room) (pre ++ c ∷ [])))
    ]

    pub passive_lem :
        (r : StaticVector ℕ) (vec : IsStaticVector r) (cs : List Command)
        → update_at ebus pool info now_ms cs (find_passive_commands ebus r cs info.master_view)
          ≡ (passive_updates info now_ms r.capacity cs, passive_events pool info r.capacity cs)
    unfolding find_passive_commands
    passive_lem r vec cs =
        rw (find_passive_from-hits r vec cs 0 r.capacity [] info.master_view (omega arith))
          (update_at-hits cs r.capacity [])
