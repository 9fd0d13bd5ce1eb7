-- ===== src/App/CommandManager/Overrides/Reads.antt =====
-- src/app/command_manager.cpp: the limits of all fields after a write and after a removal.
use esp_arduino_ebus.Base.{
  ℕ, ◌%◌, ◌≡◌, ap, ◌∙◌, refl, sym, ◌&&◌, List, [], append-nil, ◌==◌, if◌then◌else◌, arith, length,
}
use esp_arduino_ebus.App.CommandManager.{FieldOverride}
use esp_arduino_ebus.App.CommandManager.Vector.{StaticVector, IsStaticVector}
use esp_arduino_ebus.App.CommandManager.Overrides.{
  get_field_min_override, get_field_max_override, set_field_min_override, set_field_max_override,
  remove_from, remove_field_overrides,
}
use esp_arduino_ebus.App.CommandManager.Overrides.Limits.{
  storable, find-set, without, remove_from-without, find-without,
}

module _ {F : Type 0} (nan : F) (v : StaticVector (FieldOverride F)) (vec : IsStaticVector v) where
  -- After a new minimum for a field, every field reads its old limits, except that the minimum of
  -- that field is the new one when it had an entry or there was room for one. The numbers of fields
  -- are compared modulo 256.
  get_field_min_override-set_field_min_override :
      (os : List (FieldOverride F)) (k i : ℕ) (min_val : F) (q j : ℕ)
      → let after : List (FieldOverride F) = set_field_min_override nan v os k i min_val in
        (get_field_min_override nan after q j ≡ (
          if storable v os k (i % 256) && (q == k && j % 256 == i % 256)
          then min_val
          else get_field_min_override nan os q j))
        × (get_field_max_override nan after q j ≡ get_field_max_override nan os q j)
  unfolding set_field_min_override get_field_min_override get_field_max_override
  get_field_min_override-set_field_min_override os k i min_val q j = ground (
    arith,
    find-set nan v vec (λ (o : FieldOverride F). record o { min_override = min_val })
        (λ (o : FieldOverride F). (refl, refl)) os k (i % 256) q (j % 256),
  )

  -- After a new maximum for a field, every field reads its old limits, except for the maximum of
  -- that field when it had an entry or there was room for one.
  pub get_field_max_override-set_field_max_override :
      (os : List (FieldOverride F)) (k i : ℕ) (max_val : F) (q j : ℕ)
      → let after : List (FieldOverride F) = set_field_max_override nan v os k i max_val in
        (get_field_max_override nan after q j ≡ (
          if storable v os k (i % 256) && (q == k && j % 256 == i % 256)
          then max_val
          else get_field_max_override nan os q j))
        × (get_field_min_override nan after q j ≡ get_field_min_override nan os q j)
  unfolding set_field_max_override get_field_min_override get_field_max_override
  get_field_max_override-set_field_max_override os k i max_val q j = ground (
    arith,
    find-set nan v vec (λ (o : FieldOverride F). record o { max_override = max_val })
        (λ (o : FieldOverride F). (refl, refl)) os k (i % 256) q (j % 256),
  )

  remove_field_overrides-without :
      (key : ℕ) (os : List (FieldOverride F)) → remove_field_overrides v key os ≡ without key os
  unfolding remove_field_overrides
  remove_field_overrides-without key os =
      ap (remove_from v key (length os)) (sym (append-nil os))
      ∙ remove_from-without v vec key (length os) os [] refl
      ∙ append-nil (without key os)

  -- After the removal of a command's overrides, each of its fields reads no limits (NaN), and the
  -- fields of the other commands read theirs.
  pub get_field_min_override-remove_field_overrides :
      (key : ℕ) (os : List (FieldOverride F)) (q j : ℕ)
      → let after : List (FieldOverride F) = remove_field_overrides v key os in
        (get_field_min_override nan after q j
          ≡ (if q == key then nan else get_field_min_override nan os q j))
        × (get_field_max_override nan after q j
            ≡ (if q == key then nan else get_field_max_override nan os q j))
  unfolding get_field_min_override get_field_max_override
  get_field_min_override-remove_field_overrides key os q j =
      ground (arith, remove_field_overrides-without key os, find-without key os q (j % 256))
