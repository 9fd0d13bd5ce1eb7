-- ===== src/Network/DnsServer/Response.antt =====
-- src/network/dns_server.cpp: the answers of processNextRequest.
use mathlib.Core.Path.{subst}
use esp_arduino_ebus.Base.{
  ℕ, zero, suc, ◌+◌, ◌-◌, ◌*◌, ◌/◌, ◌%◌, ◌≤◌, ◌<◌, ◌≡◌, ◌≢◌, ◌⊎◌, inl, inr, refl, sym, ◌∙◌, ap,
  true, not, ◌||◌, List, [], ◌∷◌, ◌++◌, some, arith, ◌==◌, ltb, leb, Returns, if-Returns,
  Bool-cases, leb-cases, Option-cases, length, get_or, take, blit, take-blit_end, length-append,
  length-take,
}
use esp_arduino_ebus.Network.DnsServer.{
  Reply, dropped, sent, skip_labels, set_header, answer, respond, after_labels,
  process_next_request,
}

-- The labels of a name from `i` on, each behind its length; at `j` stands the 0 that ends them.
pub data Labels (buffer : List ℕ) : ℕ → ℕ → Type 0 where
  root : {i : ℕ} → get_or buffer i 0 ≡ 0 → Labels buffer i i
  label :
      {i j : ℕ}
      → get_or buffer i 0 ≢ 0
      → Labels buffer (i + (get_or buffer i 0 + 1)) j
      → Labels buffer i j

label_from :
    (buffer : List ℕ) (received i j : ℕ)
    → get_or buffer i 0 ≢ 0
    → (received ≤ j) ⊎ Labels buffer (i + (get_or buffer i 0 + 1)) j
    → (received ≤ j) ⊎ Labels buffer i j
label_from buffer received i j n (inl past) = inl past
label_from buffer received i j n (inr l) = inr (label n l)

label_end :
    (buffer : List ℕ) (received i j : ℕ)
    → (leb received i || get_or buffer i 0 == 0) ≡ true
    → i ≡ j
    → (i ≤ j) × ((received ≤ j) ⊎ Labels buffer i j)
label_end buffer received i j stop e = elim (leb-cases received i) [
  | inl past ↦ (omega arith, inl (omega arith))
  | inr before ↦
      let z : get_or buffer i 0 ≡ 0 = ground arith in
      (omega arith, inr (subst (Labels buffer i) e (root z)))
]

skip_labels-Labels :
    (fuel : ℕ) (buffer : List ℕ) (received i j : ℕ)
    → skip_labels fuel buffer received i ≡ some j
    → (i ≤ j) × ((received ≤ j) ⊎ Labels buffer i j)
unfolding skip_labels
skip_labels-Labels zero buffer received i j h = cc
skip_labels-Labels (suc fuel) buffer received i j h =
    elim (Bool-cases (leb received i || get_or buffer i 0 == 0)) [
      | inl stop ↦ label_end buffer received i j stop (ground arith)
      | inr go ↦
          let (le, past) =
            skip_labels-Labels fuel buffer received (i + (get_or buffer i 0 + 1)) j
              (ground arith) in
          (omega arith, label_from buffer received i j (ground arith) past)
    ]

skip_labels-Returns :
    (fuel : ℕ) (buffer : List ℕ) (received i : ℕ)
    → received - i < fuel
    → (j : ℕ) × (skip_labels fuel buffer received i ≡ some j)
unfolding skip_labels
skip_labels-Returns zero buffer received i h = absurd (omega arith)
skip_labels-Returns (suc fuel) buffer received i h =
    elim (Bool-cases (leb received i || get_or buffer i 0 == 0)) [
      | inl stop ↦ (i, rw stop refl)
      | inr go ↦
          rw go
            (skip_labels-Returns fuel buffer received (i + (get_or buffer i 0 + 1)) (ground arith))
    ]

-- The bytes of a packet, the first twelve of them by name.
module _ (b0 b1 b2 b3 b4 b5 b6 b7 b8 b9 b10 b11 : ℕ) (body : List ℕ)
    (full : length body ≡ 500) where
  abbrev buffer : List ℕ
  buffer = b0 ∷ b1 ∷ b2 ∷ b3 ∷ b4 ∷ b5 ∷ b6 ∷ b7 ∷ b8 ∷ b9 ∷ b10 ∷ b11 ∷ body

  abbrev header : List ℕ
  header = b0 ∷ b1 ∷ 0x81 ∷ 0x80 ∷ b4 ∷ b5 ∷ 0 ∷ 1 ∷ 0 ∷ 0 ∷ 0 ∷ 0 ∷ []

  take-header : (n k : ℕ) → k ≡ 12 + n → take k (set_header buffer) ≡ header ++ take n body
  unfolding set_header
  take-header n k e =
      let twelve : k ≡ suc (suc (suc (suc (suc (suc (suc (suc (suc (suc (suc (suc n))))))))))) =
        omega arith in
      rw twelve refl

  length-header : length (set_header buffer) ≡ 512
  unfolding set_header
  length-header = omega arith

  -- What a request of `received` bytes is answered with.
  abbrev pub IsAnswered : List ℕ → ℕ → List ℕ → Type 0
  IsAnswered ip received r =
      (n : ℕ) × (r ≡ header ++ take n body ++ answer ip)
      × (length r ≤ 512)
      × (n + 12 ≤ received)
      × (5 ≤ n)
      × Labels buffer 12 (n + 7)

  ended :
      (received idx n : ℕ)
      → (received ≤ idx) ⊎ Labels buffer 12 idx
      → (idx + 5 ≤ received) × (idx ≡ n + 7)
      → Labels buffer 12 (n + 7)
  ended received idx n (inl past) (whole, e) = absurd (omega arith)
  ended received idx n (inr l) (whole, e) = subst (Labels buffer 12) e l

  respond-IsAnswered :
      (ip r : List ℕ) (received idx : ℕ)
      → respond ip buffer received idx ≡ sent r
      → 12 ≤ idx
      → (received ≤ idx) ⊎ Labels buffer 12 idx
      → IsAnswered ip received r
  unfolding respond
  respond-IsAnswered ip r received idx h lo walk =
      let n : ℕ = idx + 5 - 12 in
      let whole : idx + 5 ≤ received = ground arith in
      let fits : 12 + n + 16 ≤ 512 = ground arith in
      let shown : take (12 + n + 16) (blit (set_header buffer) (12 + n) (answer ip)) ≡ r =
        ground arith in
      let e : r ≡ header ++ take n body ++ answer ip =
        sym shown
        ∙ take-blit_end (set_header buffer) (12 + n) (12 + n + 16) (answer ip)
            (omega (arith, length-header)) refl
        ∙ ap (λ xs. xs ++ answer ip) (take-header n (12 + n) refl) in
      (
        n,
        e,
        omega (
          arith,
          ap (λ (xs : List ℕ). length xs) e,
          length-append (header ++ take n body) (answer ip),
          length-append header (take n body),
          length-take n body,
        ),
        omega arith,
        omega arith,
        ended received idx n walk (omega arith, omega arith),
      )

  process_next_request-IsAnswered :
      (fuel : ℕ) (ip r : List ℕ) (received : ℕ)
      → process_next_request fuel ip buffer received ≡ some (sent r)
      → (b2 / 128 % 2 ≡ 0) × (b4 * 256 + b5 ≢ 0) × IsAnswered ip received r
  unfolding process_next_request after_labels
  process_next_request-IsAnswered fuel ip r received h =
      elim (Option-cases (skip_labels fuel buffer received 12)) [
        | inl e ↦ absurd (ground arith)
        | inr (idx, e) ↦
            let (lo, walk) = skip_labels-Labels fuel buffer received 12 idx e in
            (
              ground arith,
              ground arith,
              respond-IsAnswered ip r received idx (ground arith) lo walk,
            )
      ]

  -- `processNextRequest` ends: fuel for one round per byte received, and one more, is enough.
  process_next_request-Returns :
      (fuel : ℕ) (ip : List ℕ) (received : ℕ)
      → received < fuel
      → (r : Reply) × (process_next_request fuel ip buffer received ≡ some r)
  unfolding process_next_request after_labels
  process_next_request-Returns fuel ip received h =
      let (idx, e) = skip_labels-Returns fuel buffer received 12 (omega arith) in
      let walked : Returns (after_labels ip buffer received (skip_labels fuel buffer received 12)) =
        rw e (_, refl) in
      if-Returns (received == 0) (dropped, refl)
        (if-Returns (ltb received 12) (dropped, refl)
          (if-Returns (not (b2 / 128 % 2 == 0)) (dropped, refl)
            (if-Returns (b4 * 256 + b5 == 0) (dropped, refl) walked)))

  abbrev pub IsReply : List ℕ → ℕ → Reply → Type 0
  IsReply ip received (sent r) = (b2 / 128 % 2 ≡ 0) × (b4 * 256 + b5 ≢ 0) × IsAnswered ip received r
  IsReply ip received dropped = Unit {0}

  process_next_request-reply :
      (fuel : ℕ) (ip : List ℕ) (received : ℕ) (r : Reply)
      → process_next_request fuel ip buffer received ≡ some r
      → IsReply ip received r
  process_next_request-reply fuel ip received dropped e = tt
  process_next_request-reply fuel ip received (sent r) e =
      process_next_request-IsAnswered fuel ip r received e

  -- `processNextRequest` ends, with fuel for one round per byte received and one more. An answer goes out only for a query that announces a question, whose name lies in what was received, and is
  -- then at most 512 bytes long: the header with the flags and the counts of an answer, the question
  -- as it was received, and one record for the device's address. `body` is the buffer behind the
  -- header, the rest of its 512 bytes.
  pub process_next_request-IsReply :
      (fuel : ℕ) (ip : List ℕ) (received : ℕ)
      → received < fuel
      → (r : Reply) × (process_next_request fuel ip buffer received ≡ some r)
        × IsReply ip received r
  process_next_request-IsReply fuel ip received h =
      let (r, e) = process_next_request-Returns fuel ip received h in
      (r, e, process_next_request-reply fuel ip received r e)
