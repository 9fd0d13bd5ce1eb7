-- ===== src/Config/Nvs/Stored.antt =====
-- What a read gives after a write, where the namespace can be opened.
use esp_arduino_ebus.Base.{
  ℕ, suc, ◌<◌, ◌≤◌, ◌≡◌, refl, ◌∙◌, Bool, true, false, List, [], none, some, pos, arith, length,
  ◌^◌,
}
use esp_arduino_ebus.Config.{Key}
use esp_arduino_ebus.Config.Texts.{
  bool_text, true_text, false_text, to_string, length-to_string, is_empty-to_string,
  strtol-to_string,
}
use esp_arduino_ebus.Config.Nvs.{
  Nvs, IsNvs, Session, ensure_nvs_ready, read_handle, read_string, read_int, read_bool,
}

-- The nvs library is initialised and its namespace can be opened for reading.
pub record IsOpen (n : Nvs) (s : Session n) : Type 0 where
  pub ready : s.nvs_ready ≡ true
  pub readable : n.open_read s.flash ≡ true

pub ensure_nvs_ready-ready :
    (n : Nvs) (s : Session n) → s.nvs_ready ≡ true → ensure_nvs_ready n s ≡ s
unfolding ensure_nvs_ready
ensure_nvs_ready-ready n s e = simp e

module _ (n : Nvs) (is : IsNvs n) where
  pub read_handle-text :
      (s : n.Flash) (k : Key) (t fallback : List ℕ)
      → is.text_at s k ≡ some t
      → length t < 512
      → read_handle n s k fallback ≡ t
  unfolding read_handle
  read_handle-text s k t fallback e lt =
      ground (arith, is.str_size_lem s k, is.get_str_lem s k (suc (length t)))

  pub read_handle-long :
      (s : n.Flash) (k : Key) (t fallback : List ℕ)
      → is.text_at s k ≡ some t
      → 512 ≤ length t
      → read_handle n s k fallback ≡ fallback
  unfolding read_handle
  read_handle-long s k t fallback e le = ground (arith, is.str_size_lem s k, is.get_str_lem s k 511)

  pub read_handle-missing :
      (s : n.Flash) (k : Key) (fallback : List ℕ)
      → is.text_at s k ≡ none
      → read_handle n s k fallback ≡ fallback
  unfolding read_handle
  read_handle-missing s k fallback e = ground (arith, is.str_size_lem s k)

module _ (n : Nvs) (is : IsNvs n) (s : Session n) (opened : IsOpen n s) (k : Key) where
  read_string-open :
      (fallback : List ℕ) → read_string n s k fallback ≡ read_handle n s.flash k fallback
  unfolding read_string
  read_string-open fallback = simp (opened.ready, opened.readable)

  pub read_string-text :
      (t fallback : List ℕ)
      → is.text_at s.flash k ≡ some t
      → length t < 512
      → read_string n s k fallback ≡ t
  read_string-text t fallback e lt =
      read_string-open fallback ∙ read_handle-text n is s.flash k t fallback e lt

  pub read_string-long :
      (t fallback : List ℕ)
      → is.text_at s.flash k ≡ some t
      → 512 ≤ length t
      → read_string n s k fallback ≡ fallback
  read_string-long t fallback e le =
      read_string-open fallback ∙ read_handle-long n is s.flash k t fallback e le

  pub read_int-to_string :
      (v : ℕ) → is.text_at s.flash k ≡ some (to_string v) → v < 2 ^ 16 → read_int n s k ≡ pos v
  unfolding read_int
  read_int-to_string v e lt = simp (
    opened.ready,
    opened.readable,
    is.get_i32_text s.flash k (to_string v) e,
    read_handle-text n is s.flash k (to_string v) [] e (omega (arith, length-to_string v)),
    is_empty-to_string v,
    strtol-to_string v lt,
  )

  pub read_bool-bool_text :
      (b : Bool) → is.text_at s.flash k ≡ some (bool_text b) → read_bool n s k false ≡ b
  unfolding read_bool
  read_bool-bool_text true e = rw (read_string-text true_text [] e (omega arith)) refl
  read_bool-bool_text false e = rw (read_string-text false_text [] e (omega arith)) refl

  pub read_string-missing :
      (fallback : List ℕ) → is.text_at s.flash k ≡ none → read_string n s k fallback ≡ fallback
  read_string-missing fallback e =
      read_string-open fallback ∙ read_handle-missing n is s.flash k fallback e

  pub read_int-missing :
      is.text_at s.flash k ≡ none → n.get_i32 s.flash k ≡ none → read_int n s k ≡ pos 0
  unfolding read_int
  read_int-missing e i =
      simp (opened.ready, opened.readable, i, read_handle-missing n is s.flash k [] e)

  pub read_bool-missing : is.text_at s.flash k ≡ none → read_bool n s k false ≡ false
  unfolding read_bool
  read_bool-missing e = rw (read_string-missing [] e) refl
