-- ===== src/Device/StringPool/Tests.antt =====
-- The pool on concrete texts.
use esp_arduino_ebus.Base.{ℕ, ◌<◌, ◌≡◌, ◌⊎◌, refl, List, [], ◌∷◌, arith, slice, blit}
use esp_arduino_ebus.Device.StringPool.{
  StringPool, init, is_entry, find_from, append, intern, lookup,
}
use esp_arduino_ebus.Device.StringPool.Layout.{IsValid, init-IsValid, append-IsValid}
use esp_arduino_ebus.Device.StringPool.Interning.{intern-lookup}

abbrev text : List ℕ
text = 97 ∷ 98 ∷ []

abbrev other : List ℕ
other = 99 ∷ []

again : (intern (intern init text).1 text).0 ≡ 1
unfolding init is_entry find_from append intern slice blit
again = refl

intern-lookup_example :
    let p : StringPool = (append init text).1 in
    IsValid (intern p other).1
    × (((intern p other).0 ≡ 0) × ((intern p other).1 ≡ p)
        ⊎ (0 < (intern p other).0) × (lookup (intern p other).1 (intern p other).0 ≡ other))
    × (lookup (intern p other).1 1 ≡ lookup p 1)
unfolding init append
intern-lookup_example =
    intern-lookup (append init text).1 other 1
      (append-IsValid init text init-IsValid (omega arith) (omega arith) (omega arith))
      (omega arith) (omega arith) (omega arith)
