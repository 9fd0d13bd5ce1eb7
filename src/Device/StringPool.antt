-- ===== src/Device/StringPool.antt =====
-- include/system/string_pool.hpp: texts in a buffer, known by small numbers.
pub mod Layout
pub mod Interning
mod Tests
use esp_arduino_ebus.Base.{
  ℕ, zero, suc, ◌+◌, ◌-◌, ◌%◌, ◌^◌, Bool, true, false, not, ◌&&◌, ◌||◌, List, [], ◌∷◌, Option, none,
  some, ◌==◌, ltb, leb, if◌then◌else◌, length, get_or, set, replicate, bytes_eq, slice, blit,
}

abbrev pub max_strings : ℕ
max_strings = 256

abbrev pub buffer_size : ℕ
buffer_size = 2048

pub record StringPool : Type 0 where
  pub buffer : List ℕ
  pub offsets : List ℕ
  pub lengths : List ℕ
  pub count : ℕ
  pub buffer_offset : ℕ

unfoldable pub init : StringPool
init = record {
  buffer = replicate buffer_size 0;
  offsets = replicate max_strings 0;
  lengths = replicate max_strings 0;
  count = 0;
  buffer_offset = 0;
}

-- The text of entry `i`.
abbrev pub entry : StringPool → ℕ → List ℕ
entry p i = slice p.buffer (get_or p.offsets i 0) (get_or p.lengths i 0)

-- `lengths_[i] == str.size()`, and `memcmp` over that size.
unfoldable pub is_entry : StringPool → List ℕ → ℕ → Bool
is_entry p str i =
    get_or p.lengths i 0 == length str
    && bytes_eq (slice p.buffer (get_or p.offsets i 0) (length str)) str

-- The loop from `i` over the `k` entries that are left; the answer is `i + 1` of the entry found.
unfoldable pub find_from : StringPool → List ℕ → ℕ → ℕ → Option ℕ
find_from p str zero i = none
find_from p str (suc k) i =
    let rest : Option ℕ = find_from p str k (i + 1) in
    if is_entry p str i then some (i + 1) else rest

-- The new entry behind the others. `lengths_` and `count_` are bytes, `offsets_` 16-bit numbers, and
-- the answer is cut to a byte.
unfoldable pub append : StringPool → List ℕ → ℕ × StringPool
append p str = (
  (p.count + 1) % 256,
  record {
    buffer = set (blit p.buffer p.buffer_offset str) (p.buffer_offset + length str) 0;
    offsets = set p.offsets p.count p.buffer_offset;
    lengths = set p.lengths p.count (length str % 256);
    count = (p.count + 1) % 256;
    buffer_offset = (p.buffer_offset + length str + 1) % 2 ^ 16;
  },
)

-- `intern(str)`.
unfoldable pub intern : StringPool → List ℕ → ℕ × StringPool
intern p str =
    if length str == 0 || leb max_strings p.count
    then (0, p)
    else elim (find_from p str p.count 0) [
      | some id ↦ (id, p)
      | none ↦ if ltb buffer_size (p.buffer_offset + length str + 1) then (0, p) else append p str
    ]

-- `lookup(id)`; the empty text for an unknown number.
unfoldable pub lookup : StringPool → ℕ → List ℕ
lookup p id = if id == 0 || ltb p.count id then [] else entry p (id - 1)
