-- ===== src/Bridge/Client/Codec.antt =====
-- `encode` and `decode` of src/bridge/client.cpp: a command and its data byte in two bytes.
use Prim.Native.Nat.{bit_and, bit_or}
use esp_arduino_ebus.Base.{
  ℕ, ◌+◌, ◌*◌, ◌/◌, ◌%◌, ◌<◌, ◌≤◌, ◌≡◌, refl, Bool, true, ◌&&◌, ◌==◌, ltb, arith, all_below,
  all_below_sound,
}

abbrev m1 : ℕ
m1 = 0b11000000

abbrev m2 : ℕ
m2 = 0b10000000

-- `decode(b1, b2, data)`; a shift to the left that ends in a `uint8_t` is cut to a byte.
unfoldable pub decode : ℕ → ℕ → ℕ × ℕ
decode b1 b2 =
    (bit_and (b1 / 4) 0b1111 % 256, bit_or (bit_and b1 0b11 * 64) (bit_and b2 0b00111111) % 256)

-- `encode(c, d, data)`: `M1 | c << 2 | d >> 6`, and `M2 | (d & 0b00111111)`.
unfoldable pub encode : ℕ → ℕ → ℕ × ℕ
encode c d = (bit_or (bit_or m1 (c * 4)) (d / 64) % 256, bit_or m2 (bit_and d 0b00111111) % 256)

-- What is checked of each pair: the bytes are of the two kinds that `readCmd` accepts, and decode to
-- the pair.
pair_law : ℕ → ℕ → Bool
unfolding encode decode
pair_law c d =
    let (b1, b2) = encode c d in
    let (c', d') = decode b1 b2 in
    c' == c
    && d' == d
    && ltb 191 b1
    && ltb b1 256
    && bit_and b2 0b11000000 == 0b10000000
    && ltb b2 256

pair_table : all_below 16 (λ c. all_below 256 (pair_law c)) ≡ true
unfolding pair_law
pair_table = refl

pair_law_all : (c d : ℕ) → c < 16 → d < 256 → pair_law c d ≡ true
pair_law_all c d hc hd =
    all_below_sound 256 (pair_law c) d
      (all_below_sound 16 (λ c. all_below 256 (pair_law c)) c pair_table hc) hd

-- A command below 16 with its data byte survives encoding and decoding, and the two bytes are of the
-- kinds by which the reader knows them: 11xxxxxx and 10xxxxxx.
pub decode-encode :
    (c d : ℕ)
    → c < 16
    → d < 256
    → let (b1, b2) = encode c d in
      (decode b1 b2 ≡ (c, d))
      × (192 ≤ b1)
      × (b1 < 256)
      × (bit_and b2 0b11000000 ≡ 0b10000000)
      × (b2 < 256)
unfolding pair_law
decode-encode c d hc hd = ground (arith, pair_law_all c d hc hd)

byte_law : ℕ → ℕ → Bool
unfolding encode decode
byte_law i j =
    let (c, d) = decode (192 + i) (128 + j) in
    let (b1, b2) = encode c d in b1 == 192 + i && b2 == 128 + j && ltb c 16 && ltb d 256

byte_table : all_below 64 (λ i. all_below 64 (byte_law i)) ≡ true
unfolding byte_law
byte_table = refl

byte_law_all : (i j : ℕ) → i < 64 → j < 64 → byte_law i j ≡ true
byte_law_all i j hi hj =
    all_below_sound 64 (byte_law i) j
      (all_below_sound 64 (λ i. all_below 64 (byte_law i)) i byte_table hi) hj

-- Two bytes 11xxxxxx and 10xxxxxx are the encoding of what they decode to: each pair of such bytes
-- stands for one command below 16 with one data byte.
encode-decode :
    (i j : ℕ)
    → i < 64
    → j < 64
    → let (c, d) = decode (192 + i) (128 + j) in
      (encode c d ≡ (192 + i, 128 + j)) × (c < 16) × (d < 256)
unfolding byte_law
encode-decode i j hi hj = ground (arith, byte_law_all i j hi hj)

-- A command below 16 with its data byte survives encoding and decoding, and the two bytes are of the
-- kinds by which the reader knows them, 11xxxxxx and 10xxxxxx. Any two bytes of these kinds are in
-- turn the encoding of what they decode to, one command below 16 with one data byte.
pub round_trips :
    (c d i j : ℕ)
    → c < 16
    → d < 256
    → i < 64
    → j < 64
    → let (b1, b2) = encode c d in
      let (c', d') = decode (192 + i) (128 + j) in
      ((decode b1 b2 ≡ (c, d))
        × (192 ≤ b1)
        × (b1 < 256)
        × (bit_and b2 0b11000000 ≡ 0b10000000)
        × (b2 < 256))
      × ((encode c' d' ≡ (192 + i, 128 + j)) × (c' < 16) × (d' < 256))
round_trips c d i j hc hd hi hj = (decode-encode c d hc hd, encode-decode i j hi hj)
