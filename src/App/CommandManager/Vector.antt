-- ===== src/App/CommandManager/Vector.antt =====
-- What src/app/command_manager.cpp uses of the ebus library's StaticVector.
use esp_arduino_ebus.Base.{ℕ, ◌≤◌, ◌<◌, ◌≡◌, Bool, true, false, List, [], ◌∷◌, ◌++◌, length}

-- `push_back` tells whether there was room; `erase` takes out the element at a position.
pub record StaticVector (A : Type 0) : Type 0 where
  pub capacity : ℕ
  pub push_back : List A → A → Bool × List A
  pub erase : List A → ℕ → List A

-- Documented behaviour: a vector holds up to `capacity` elements, in order.
pub record IsStaticVector {A : Type 0} (v : StaticVector A) : Type 0 where
  pub push_room :
      (xs : List A) (x : A) → length xs < v.capacity → v.push_back xs x ≡ (true, xs ++ x ∷ [])
  pub push_full : (xs : List A) (x : A) → v.capacity ≤ length xs → v.push_back xs x ≡ (false, xs)
  pub erase_at : (xs ys : List A) (x : A) → v.erase (xs ++ x ∷ ys) (length xs) ≡ xs ++ ys
