-- ===== src/App/CommandManager/Overrides.antt =====
-- src/app/command_manager.cpp: the limits of fields that differ from their profile.
pub mod Limits
pub mod Reads
use esp_arduino_ebus.Base.{
  ℕ, zero, suc, ◌+◌, ◌%◌, ◌≤◌, ◌<◌, ◌≡◌, ◌≢◌, ◌⊎◌, inl, inr, refl, sym, ◌∙◌, ap, Bool, true, false,
  not, ◌&&◌, List, [], ◌∷◌, ◌++◌, Option, none, some, ◌==◌, ltb, leb, if◌then◌else◌, arith,
  Bool-cases, Option-cases, leb-cases, length, get_elem?,
}
use esp_arduino_ebus.App.CommandManager.{FieldOverride}
use esp_arduino_ebus.App.CommandManager.Vector.{StaticVector, IsStaticVector}

abbrev is_for : {F : Type 0} → ℕ → ℕ → FieldOverride F → Bool
is_for key_id field_idx o = o.key_id == key_id && o.field_idx == field_idx

-- `findOverride(pool, key_id, field_idx)`, the element that the pointer is for.
unfoldable pub find_override :
    {F : Type 0} → List (FieldOverride F) → ℕ → ℕ → Option (FieldOverride F)
find_override [] key_id field_idx = none
find_override (o ∷ os) key_id field_idx =
    let rest = find_override os key_id field_idx in
    if is_for key_id field_idx o then some o else rest

-- A write through the pointer that `findOverride` gives.
unfoldable pub write_override :
    {F : Type 0}
    → (FieldOverride F → FieldOverride F)
    → List (FieldOverride F)
    → ℕ
    → ℕ
    → List (FieldOverride F)
write_override f [] key_id field_idx = []
write_override f (o ∷ os) key_id field_idx =
    let rest = write_override f os key_id field_idx in
    if is_for key_id field_idx o then f o ∷ os else o ∷ rest

module _ {F : Type 0} (nan : F) where
  abbrev min_of : Option (FieldOverride F) → F
  min_of none = nan
  min_of (some o) = o.min_override

  abbrev max_of : Option (FieldOverride F) → F
  max_of none = nan
  max_of (some o) = o.max_override

  -- `getFieldMinOverride(key_id, field_idx)` and `getFieldMaxOverride(key_id, field_idx)`.
  unfoldable pub get_field_min_override : List (FieldOverride F) → ℕ → ℕ → F
  get_field_min_override os key_id field_idx = min_of (find_override os key_id (field_idx % 256))

  unfoldable pub get_field_max_override : List (FieldOverride F) → ℕ → ℕ → F
  get_field_max_override os key_id field_idx = max_of (find_override os key_id (field_idx % 256))

  abbrev pub new_override : ℕ → ℕ → FieldOverride F
  new_override key_id field_idx = record {
    key_id = key_id;
    field_idx = field_idx;
    min_override = nan;
    max_override = nan;
  }

  -- The part that the two setters share: a write to the entry, or a new entry if there is room.
  unfoldable pub set_override :
      StaticVector (FieldOverride F)
      → (FieldOverride F → FieldOverride F)
      → List (FieldOverride F)
      → ℕ
      → ℕ
      → List (FieldOverride F)
  set_override v f os key_id field_idx = elim (find_override os key_id field_idx) [
    | some o ↦ write_override f os key_id field_idx
    | none ↦
        if leb v.capacity (length os)
        then os
        else (v.push_back os (f (new_override key_id field_idx))).1
  ]

  -- `setFieldMinOverride(key_id, field_idx, min_val)` and `setFieldMaxOverride(…, max_val)`.
  unfoldable pub set_field_min_override :
      StaticVector (FieldOverride F) → List (FieldOverride F) → ℕ → ℕ → F → List (FieldOverride F)
  unfolding set_override
  set_field_min_override v os key_id field_idx min_val =
      set_override v (λ o. record o { min_override = min_val }) os key_id (field_idx % 256)

  unfoldable pub set_field_max_override :
      StaticVector (FieldOverride F) → List (FieldOverride F) → ℕ → ℕ → F → List (FieldOverride F)
  unfolding set_override
  set_field_max_override v os key_id field_idx max_val =
      set_override v (λ o. record o { max_override = max_val }) os key_id (field_idx % 256)

abbrev has_key : {F : Type 0} → ℕ → Option (FieldOverride F) → Bool
has_key key_id none = false
has_key key_id (some o) = o.key_id == key_id

-- The loop of `removeFieldOverrides` over the positions below `n`, from the last one down.
unfoldable pub remove_from :
    {F : Type 0}
    → StaticVector (FieldOverride F)
    → ℕ
    → ℕ
    → List (FieldOverride F)
    → List (FieldOverride F)
remove_from v key_id zero os = os
remove_from v key_id (suc i) os =
    remove_from v key_id i (if has_key key_id (get_elem? os i) then v.erase os i else os)

-- `removeFieldOverrides(key_id)`.
unfoldable pub remove_field_overrides :
    {F : Type 0}
    → StaticVector (FieldOverride F)
    → ℕ
    → List (FieldOverride F)
    → List (FieldOverride F)
unfolding remove_from
remove_field_overrides v key_id os = remove_from v key_id (length os) os
