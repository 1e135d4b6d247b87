-- ===== src/Asap/Ulid/Encoding.antt =====
-- src/asap/ulid.c: what the 26 characters stand for.
use Prim.Native.Nat.{bit_or}
use shellclaw.Common.{
  every_below, every_below-at, ℕ, zero, suc, ◌+◌, ◌-◌, ◌*◌, ◌/◌, ◌%◌, ◌^◌, ◌≤◌, ◌<◌, true, ◌&&◌, [],
  ◌∷◌, ◌≡◌, refl, ◌∙◌, ap, arith, ltb, ◌==◌, ==_iff, if◌then◌else◌, get_or, length, Bytes,
}
use native.Mathlib.Nat.{add-zero, pow-suc}
use native.Mathlib.Numerals.{add-one}
use shellclaw.Asap.Ulid.{c32, c32_char, stream_bit, encode_digit, encode_from, encode_bytes}

-- A number below 32 for a character of the alphabet, by its place in it.
unfoldable pub c32_index : ℕ → Bytes → ℕ
c32_index ch [] = 0
c32_index ch (x ∷ xs) = if x == ch then 0 else c32_index ch xs + 1

-- The number that a text denotes in base 32.
unfoldable pub c32_value : ℕ → Bytes → ℕ
c32_value acc [] = acc
c32_value acc (ch ∷ rest) = c32_value (acc * 32 + c32_index ch c32) rest

-- The number that bytes denote, the highest first.
abbrev pub bytes_value_from : ℕ → Bytes → ℕ
bytes_value_from acc [] = acc
bytes_value_from acc (b ∷ bs) = bytes_value_from (acc * 256 + b) bs

abbrev pub bytes_value : Bytes → ℕ
bytes_value bs = bytes_value_from 0 bs

abbrev pub AllBytes : Bytes → Type 0
AllBytes [] = Unit
AllBytes (b ∷ bs) = (b < 256) × AllBytes bs

digit_table : every_below (λ v. c32_index (c32_char v) c32 == v) 32 ≡ true
unfolding every_below c32_index c32_char
digit_table = refl

c32_index-digit : (v : ℕ) → v < 32 → c32_index (c32_char v) c32 ≡ v
c32_index-digit v h = (==_iff _ v).0 (every_below-at _ 32 v h digit_table)

shift_table :
    every_below (λ v. (bit_or (v * 2) 0 == v * 2) && (bit_or (v * 2) 1 == v * 2 + 1)) 16 ≡ true
unfolding every_below
shift_table = refl

bit_or-shift : (v b : ℕ) → v < 16 → b < 2 → bit_or (v * 2) b ≡ v * 2 + b
bit_or-shift v zero h l = ground (arith, every_below-at _ 16 v h shift_table)
bit_or-shift v (suc zero) h l = ground (arith, every_below-at _ 16 v h shift_table)
bit_or-shift v (suc (suc b)) h l = absurd (omega arith)

-- the number that the first bits of the stream denote
stream_value : Bytes → ℕ → ℕ
stream_value bs zero = 0
stream_value bs (suc n) = stream_value bs n * 2 + stream_bit bs n

stream_value-step :
    (bs : Bytes) (n : ℕ) → stream_value bs (n + 1) ≡ stream_value bs n * 2 + stream_bit bs n
unfolding stream_value
stream_value-step bs n = rw add-one

stream_bit-lt : (bs : Bytes) (n : ℕ) → stream_bit bs n < 2
unfolding stream_bit
stream_bit-lt bs n = ground arith

-- one round of the inner loop
shift_in :
    (bs : Bytes) (v bit : ℕ)
    → v < 16
    → bit_or (v * 2) (stream_bit bs bit) ≡ v * 2 + stream_bit bs bit
shift_in bs v bit h = bit_or-shift v (stream_bit bs bit) h (stream_bit-lt bs bit)

room_to_shift : (v lim p : ℕ) → v < lim → lim * (p * 2) ≤ 32 → 1 ≤ p → v < 16
room_to_shift v lim p h l k = let m : lim * 1 ≤ lim * p = grind arith in omega arith

one-le-pow : (n : ℕ) → 1 ≤ 2 ^ n
one-le-pow zero = omega arith
one-le-pow (suc n) = rw pow-suc (omega (arith, one-le-pow n))

encode_digit-value :
    (rounds : ℕ) (bs : Bytes) (bit v lim : ℕ)
    → v < lim
    → lim * 2 ^ rounds ≤ 32
    → (encode_digit rounds bs bit v + stream_value bs bit * 2 ^ rounds
        ≡ stream_value bs (bit + rounds) + v * 2 ^ rounds)
      × (encode_digit rounds bs bit v < 32)
unfolding encode_digit
encode_digit-value zero bs bit v lim h l = (rw add-zero (omega arith), omega arith)
encode_digit-value (suc rounds) bs bit v lim h l =
    let l' : lim * (2 ^ rounds * 2) ≤ 32 = rw pow-suc at l in
    let b = stream_bit bs bit in
    let ih =
      encode_digit-value rounds bs (bit + 1) (v * 2 + b) (lim * 2)
        (omega (arith, stream_bit-lt bs bit)) (omega arith) in
    let more : bit + suc rounds ≡ bit + 1 + rounds = omega arith in
    let sum : encode_digit rounds bs (bit + 1) (v * 2 + b)
          + (stream_value bs bit * 2 + b) * 2 ^ rounds
        ≡ stream_value bs (bit + 1 + rounds) + (v * 2 + b) * 2 ^ rounds =
      rw (← stream_value-step bs bit) ih.0 in
    rw
      (shift_in bs v bit (room_to_shift v lim (2 ^ rounds) h l' (one-le-pow rounds)), pow-suc, more)
      (omega (arith, sum), ih.1)

c32_value-cons :
    (acc ch : ℕ) (rest : Bytes)
    → c32_value acc (ch ∷ rest) ≡ c32_value (acc * 32 + c32_index ch c32) rest
unfolding c32_value
c32_value-cons acc ch rest = refl

encode_from-suc :
    (rounds c : ℕ) (bs : Bytes)
    → encode_from (suc rounds) c bs
      ≡ c32_char (encode_digit 5 bs (c * 5) 0) ∷ encode_from rounds (c + 1) bs
unfolding encode_from
encode_from-suc rounds c bs = refl

-- the characters of `encode_from` carry on the number of the bits before them
c32_value-encode_from :
    (rounds c : ℕ) (bs : Bytes)
    → c32_value (stream_value bs (c * 5)) (encode_from rounds c bs)
      ≡ stream_value bs ((c + rounds) * 5)
c32_value-encode_from zero c bs = rw add-zero (unfold c32_value encode_from in refl)
c32_value-encode_from (suc rounds) c bs =
    let (sum, small) = encode_digit-value 5 bs (c * 5) 0 1 (omega arith) (omega arith) in
    let at : c * 5 + 5 ≡ (c + 1) * 5 = omega arith in
    let next : stream_value bs (c * 5) * 32 + encode_digit 5 bs (c * 5) 0
        ≡ stream_value bs ((c + 1) * 5) =
      omega (arith, sum, ap (stream_value bs) at) in
    let more : c + suc rounds ≡ c + 1 + rounds = omega arith in
    rw
      (
        encode_from-suc,
        c32_value-cons,
        c32_index-digit (encode_digit 5 bs (c * 5) 0) small,
        next,
        more,
      )
      (c32_value-encode_from rounds (c + 1) bs)

byte_table :
    every_below
      (λ b.
        (((((((b / 2 ^ 7 % 2 * 2 + b / 2 ^ 6 % 2) * 2 + b / 2 ^ 5 % 2) * 2 + b / 2 ^ 4 % 2) * 2
                      + b / 2 ^ 3 % 2)
                    * 2
                  + b / 2 ^ 2 % 2)
                * 2
              + b / 2 ^ 1 % 2)
            * 2
          + b / 2 ^ 0 % 2)
        == b)
      256
    ≡ true
unfolding every_below
byte_table = refl

stream_bit-at :
    (bs : Bytes) (k j : ℕ)
    → k < 16
    → j < 8
    → stream_bit bs (8 * k + j) ≡ get_or bs k 0 / 2 ^ (7 - j) % 2
unfolding stream_bit
stream_bit-at bs k j h l =
    let t : ltb (8 * k + j) 128 ≡ true = ground arith in
    let q : (8 * k + j) / 8 ≡ k = omega arith in
    let r : (8 * k + j) % 8 ≡ j = omega arith in rw (t, q, r)

stream_value-bit :
    (bs : Bytes) (k j : ℕ)
    → k < 16
    → j < 8
    → stream_value bs (8 * k + suc j)
      ≡ stream_value bs (8 * k + j) * 2 + get_or bs k 0 / 2 ^ (7 - j) % 2
stream_value-bit bs k j h l =
    let e : 8 * k + suc j ≡ 8 * k + j + 1 = omega arith in
    rw (e, ← stream_bit-at bs k j h l) (stream_value-step bs (8 * k + j))

-- eight bits of the stream are a byte
stream_value-byte :
    (bs : Bytes) (k : ℕ)
    → k < 16
    → get_or bs k 0 < 256
    → stream_value bs (8 * suc k) ≡ stream_value bs (8 * k) * 256 + get_or bs k 0
stream_value-byte bs k h l =
    let b = get_or bs k 0 in
    let table = (==_iff _ b).0 (every_below-at _ 256 b l byte_table) in
    let first : 8 * k ≡ 8 * k + 0 = omega arith in
    let last : 8 * suc k ≡ 8 * k + 8 = omega arith in
    let bit = λ (j : ℕ) (m : j < 8). stream_value-bit bs k j h m in
    omega (
      arith,
      table,
      ap (stream_value bs) first,
      ap (stream_value bs) last,
      bit 0 (omega arith),
      bit 1 (omega arith),
      bit 2 (omega arith),
      bit 3 (omega arith),
      bit 4 (omega arith),
      bit 5 (omega arith),
      bit 6 (omega arith),
      bit 7 (omega arith),
    )

get_or-byte : (bs : Bytes) (k : ℕ) → AllBytes bs → get_or bs k 0 < 256
get_or-byte [] k h = omega arith
get_or-byte (b ∷ bs) zero h = h.0
get_or-byte (b ∷ bs) (suc k) h = get_or-byte bs k h.1

-- the number of the first bytes, by their places
prefix_value : ℕ → Bytes → ℕ → ℕ
prefix_value acc bs zero = acc
prefix_value acc bs (suc k) = prefix_value acc bs k * 256 + get_or bs k 0

prefix_value-cons :
    (acc b : ℕ) (bs : Bytes) (k : ℕ)
    → prefix_value acc (b ∷ bs) (suc k) ≡ prefix_value (acc * 256 + b) bs k
unfolding prefix_value
prefix_value-cons acc b bs zero = refl
prefix_value-cons acc b bs (suc k) =
    ap (λ (v : ℕ). v * 256 + get_or bs k 0) (prefix_value-cons acc b bs k)

prefix_value-all :
    (acc : ℕ) (bs : Bytes) → prefix_value acc bs (length bs) ≡ bytes_value_from acc bs
prefix_value-all acc [] = unfold prefix_value in refl
prefix_value-all acc (b ∷ bs) =
    prefix_value-cons acc b bs (length bs) ∙ prefix_value-all (acc * 256 + b) bs

stream_value-prefix :
    (bs : Bytes) (k : ℕ) → AllBytes bs → k ≤ 16 → stream_value bs (8 * k) ≡ prefix_value 0 bs k
unfolding prefix_value
stream_value-prefix bs zero h l = unfold stream_value in refl
stream_value-prefix bs (suc k) h l = omega (
  arith,
  stream_value-prefix bs k h (omega arith),
  stream_value-byte bs k (omega arith) (get_or-byte bs k h),
)

padding : (bs : Bytes) → stream_value bs 130 ≡ stream_value bs 128 * 4
padding bs =
    let z : (n : ℕ) → 128 ≤ n → stream_bit bs n ≡ 0 = λ n l. (unfold stream_bit in ground arith) in
    omega (
      arith,
      stream_value-step bs 128,
      stream_value-step bs 129,
      z 128 (omega arith),
      z 129 (omega arith),
    )

-- The 26 characters denote, in base 32 over the alphabet of the code, four times the number that the
-- 16 bytes denote: the encoding keeps every bit, and the order of the bytes.
pub encode_bytes-value :
    (bs : Bytes) → length bs ≡ 16 → AllBytes bs → c32_value 0 (encode_bytes bs) ≡ bytes_value bs * 4
unfolding encode_bytes
encode_bytes-value bs z h =
    let start : stream_value bs (0 * 5) ≡ 0 = unfold stream_value in refl in
    let all = prefix_value-all 0 bs in
    let chars = c32_value-encode_from 26 0 bs in
    let bytes = stream_value-prefix bs 16 h (omega arith) in
    omega (arith, rw start at chars, rw z at all, bytes, padding bs)
