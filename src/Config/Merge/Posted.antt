-- ===== src/Config/Merge/Posted.antt =====
-- src/config/app_config.cpp: a merge, by the pairs of keys and values that were posted.
use esp_arduino_ebus.Base.{
  ℕ, ◌≡◌, refl, ◌∙◌, ap, Bool, true, false, not, ◌&&◌, ◌||◌, List, [], ◌∷◌, ◌++◌, append-nil,
  append_assoc, if◌then◌else◌, arith, Bool-cases, inl, inr,
}
use esp_arduino_ebus.Config.{
  FixedString, IsFixedString, AppConfig, Key, key_eq, is_known_flat_key, is_empty, wifi_password,
  ap_mode_password, mqtt_pass,
}
use esp_arduino_ebus.Config.Texts.{c_str}
use esp_arduino_ebus.Config.Fields.{field, IsSized}
use esp_arduino_ebus.Config.Merge.{
  Token, Pair, unknown, merge_field, merge_tokens, merge_flat_json, object_start, object_end, end,
  key, string,
}
use esp_arduino_ebus.Config.Merge.Frame.{field-merge_field}
use esp_arduino_ebus.Config.Merge.Sized.{merge_field-IsSized}

-- The tokens before the end of the object, or of the text.
pub before_end : List Token → List Token
before_end [] = []
before_end (object_end ∷ ts) = []
before_end (end ∷ ts) = []
before_end (t ∷ ts) = t ∷ before_end ts

abbrev starts_with_text : List Token → Bool
starts_with_text (string value ∷ ts) = true
starts_with_text ts = false

-- Whether each key has a text right behind it.
pub all_keyed : List Token → Bool
all_keyed [] = true
all_keyed (key k ∷ ts) = starts_with_text ts && all_keyed ts
all_keyed (t ∷ ts) = all_keyed ts

abbrev is_flat : List Token → Bool
is_flat ts = all_keyed (before_end ts)

-- The pairs before the end of the object or the first key with no text.
unfoldable pub pairs : List Token → List Pair
pairs [] = []
pairs (object_end ∷ ts) = []
pairs (end ∷ ts) = []
pairs (key k ∷ string value ∷ ts) = (k, value) ∷ pairs ts
pairs (key k ∷ ts) = []
pairs (t ∷ ts) = pairs ts

-- The text starts with an object, which need not end, and each key in it has a text.
abbrev pub opens_flat_object : List Token → Bool
opens_flat_object (object_start ∷ ts) = all_keyed (before_end ts)
opens_flat_object ts = false

unfoldable pub posted : List Token → List Pair
unfolding pairs
posted (object_start ∷ ts) = pairs ts
posted ts = []

pub merge_pairs : FixedString → List Pair → AppConfig → AppConfig
merge_pairs f [] c = c
merge_pairs f ((k, value) ∷ ps) c = merge_pairs f ps (merge_field f k value c)

-- The pairs whose keys are none of the configuration's.
pub unknown_pairs : List Pair → List Pair
unknown_pairs [] = []
unknown_pairs (p ∷ ps) = if is_known_flat_key p.0 then unknown_pairs ps else p ∷ unknown_pairs ps

abbrev pub AreUnknown : List Pair → Type 0
AreUnknown [] = Unit {0}
AreUnknown (p ∷ ps) = (is_known_flat_key p.0 ≡ false) × AreUnknown ps

pub unknown_pairs-AreUnknown : (ps : List Pair) → AreUnknown (unknown_pairs ps)
unfolding unknown_pairs
unknown_pairs-AreUnknown [] = tt
unknown_pairs-AreUnknown (p ∷ ps) = elim (Bool-cases (is_known_flat_key p.0)) [
  | inl e ↦ rw e (unknown_pairs-AreUnknown ps)
  | inr e ↦ rw e (e, unknown_pairs-AreUnknown ps)
]

unknown_pairs-cons :
    (p : Pair) (ps us : List Pair) → unknown p us ++ unknown_pairs ps ≡ us ++ unknown_pairs (p ∷ ps)
unfolding unknown_pairs
unknown_pairs-cons p ps us = elim (Bool-cases (is_known_flat_key p.0)) [
  | inl e ↦ rw e refl
  | inr e ↦ rw e (append_assoc us (p ∷ []) (unknown_pairs ps))
]

abbrev Merged : FixedString → List Token → AppConfig → List Pair → Type 0
Merged f ts c us =
    merge_tokens f ts c us
    ≡ (is_flat ts, merge_pairs f (pairs ts) c, us ++ unknown_pairs (pairs ts))

merge_tokens-end :
    (b : Bool) (c : AppConfig) (us : List Pair)
    → ◌≡◌ {A = Bool × AppConfig × List Pair} (b, c, us) (b, c, us ++ [])
merge_tokens-end b c us = rw (append-nil us) refl

merge_tokens-pairs :
    (f : FixedString) (ts : List Token) (c : AppConfig) (us : List Pair) → Merged f ts c us
unfolding merge_tokens before_end all_keyed pairs merge_pairs unknown_pairs
merge_tokens-pairs f [] c us = merge_tokens-end true c us
merge_tokens-pairs f (object_end ∷ ts) c us = merge_tokens-end true c us
merge_tokens-pairs f (end ∷ ts) c us = merge_tokens-end true c us
merge_tokens-pairs f (key k ∷ string value ∷ ts) c us =
    merge_tokens-pairs f ts (merge_field f k value c) (unknown (k, value) us)
    ∙ ap (λ w. (is_flat ts, merge_pairs f (pairs ts) (merge_field f k value c), w))
        (unknown_pairs-cons (k, value) (pairs ts) us)
merge_tokens-pairs f (key k ∷ []) c us = merge_tokens-end false c us
merge_tokens-pairs f (key k ∷ _ ∷ ts) c us = merge_tokens-end false c us
merge_tokens-pairs f (t ∷ ts) c us = merge_tokens-pairs f ts c us

pub merge_flat_json-pairs :
    (f : FixedString) (ts : List Token) (c : AppConfig)
    → merge_flat_json f ts c
      ≡ (opens_flat_object ts, merge_pairs f (posted ts) c, unknown_pairs (posted ts))
unfolding merge_flat_json before_end all_keyed posted merge_pairs unknown_pairs
merge_flat_json-pairs f [] c = refl
merge_flat_json-pairs f (object_start ∷ ts) c = merge_tokens-pairs f ts c []
merge_flat_json-pairs f (_ ∷ ts) c = refl

abbrev pub is_secret : Key → Bool
is_secret wifi_password = true
is_secret ap_mode_password = true
is_secret mqtt_pass = true
is_secret _ = false

-- Whether a pair sets the value of `j`: an empty text does not set a password.
abbrev pub sets : Key → Pair → Bool
sets j (k, value) = key_eq k j && not (is_secret k && is_empty value)

pub sets_any : Key → List Pair → Bool
sets_any j [] = false
sets_any j (p ∷ ps) = sets j p || sets_any j ps

merge_field-empty :
    (f : FixedString) (k : Key) (value : List ℕ) (c : AppConfig)
    → (is_secret k && is_empty value) ≡ true
    → merge_field f k value c ≡ c
unfolding merge_field
merge_field-empty f wifi_password [] c e = refl
merge_field-empty f ap_mode_password [] c e = refl
merge_field-empty f mqtt_pass [] c e = refl
merge_field-empty f k value c e = cc

-- A value that no pair sets is kept.
pub field-merge_pairs :
    (f : FixedString) (ps : List Pair) (c : AppConfig) (j : Key)
    → sets_any j ps ≡ false
    → field j (merge_pairs f ps c) ≡ field j c
unfolding merge_pairs sets_any
field-merge_pairs f [] c j e = refl
field-merge_pairs f ((k, value) ∷ ps) c j e =
    field-merge_pairs f ps (merge_field f k value c) j (ground arith)
    ∙ elim (Bool-cases (key_eq k j)) [
      | inl h ↦ ap (field j) (merge_field-empty f k value c (ground arith))
      | inr h ↦ field-merge_field f k j value c ∙ rw h refl
    ]

-- The posted texts hold no zero byte.
abbrev pub AreTexts : List Pair → Type 0
AreTexts [] = Unit {0}
AreTexts (p ∷ ps) = (c_str p.1 ≡ p.1) × AreTexts ps

pub merge_pairs-IsSized :
    (f : FixedString)
    → IsFixedString f
    → (ps : List Pair) (c : AppConfig) → AreTexts ps
    → IsSized f c
    → IsSized f (merge_pairs f ps c)
unfolding merge_pairs
merge_pairs-IsSized f fs [] c h sized = sized
merge_pairs-IsSized f fs ((k, value) ∷ ps) c h sized =
    merge_pairs-IsSized f fs ps (merge_field f k value c) h.1
      (merge_field-IsSized f fs k value c h.0 sized)
