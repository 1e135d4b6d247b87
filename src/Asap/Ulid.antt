-- ===== src/Asap/Ulid.antt =====
-- src/asap/ulid.c: identifiers of 26 characters. The clock and the random device are the lists of
-- what their calls return, in order. A failing clock call is `none`; a failing read of random bytes
-- may have overwritten a part of the buffer. The mutex makes a call one step, and its lock is taken
-- to succeed.
pub mod Encoding
pub mod Increment
pub mod Order
mod Tests
use Prim.Native.Nat.{bit_or, bit_and}
use shellclaw.Common.{
  ℕ, zero, suc, ◌+◌, ◌-◌, ◌*◌, ◌/◌, ◌%◌, ◌^◌, Bool, true, false, Option, none, some, List, [], ◌∷◌,
  ◌++◌, ltb, leb, ◌==◌, if◌then◌else◌, get_or, length, drop, Bytes, codes,
}

abbrev pub c32 : Bytes
c32 = codes "0123456789ABCDEFGHJKMNPQRSTVWXYZ"

-- what `clock_gettime` fills in: seconds and nanoseconds
abbrev pub Clock : Type 0
Clock = List (Option (ℕ × ℕ))

-- `crypto_read_urandom` on the buffer of ten bytes: filled, or failed after some bytes
pub data Fill : Type 0 where
  filled short : Bytes → Fill

abbrev pub Random : Type 0
Random = List Fill

-- the static variables `g_last_ms` and `g_rand`
pub record UlidState : Type 0 where
  pub last_ms : ℕ
  pub rand : Bytes

pub data Outcome : Type 0 where
  -- 0, with the characters written
  generated : Bytes → UlidState → Outcome
  -- -1, with what the call has changed
  failed : UlidState → Outcome
  -- the loop still waits when the readings given are used up
  waiting : UlidState → Outcome

unfoldable pub get_epoch_ms_u48 : Option (ℕ × ℕ) → Option ℕ
get_epoch_ms_u48 none = none
get_epoch_ms_u48 (some (sec, nsec)) = some ((sec * 1000 + nsec / 1000000) % 2 ^ 64 % 2 ^ 48)

-- from the last byte to the first; the flag says that the byte behind wrapped to zero
unfoldable pub u80_inc : Bytes → Bytes × Bool
u80_inc [] = ([], true)
u80_inc (b ∷ bs) =
    let (rest, carry) = u80_inc bs in
    if carry then (((b + 1) % 256) ∷ rest, (b + 1) % 256 == 0) else (b ∷ rest, false)

unfoldable pub time_byte : ℕ → ℕ → ℕ
time_byte t48 i = t48 / 2 ^ (40 - 8 * i) % 256

unfoldable pub time_to_bytes : ℕ → Bytes
unfolding time_byte
time_to_bytes t48 =
    time_byte t48 0
    ∷ time_byte t48 1
    ∷ time_byte t48 2
    ∷ time_byte t48 3
    ∷ time_byte t48 4
    ∷ time_byte t48 5
    ∷ []

-- the bit that `encode_bytes` reads: bit 0 is the highest bit of the first byte
unfoldable pub stream_bit : Bytes → ℕ → ℕ
stream_bit bytes bit = if ltb bit 128 then get_or bytes (bit / 8) 0 / 2 ^ (7 - bit % 8) % 2 else 0

-- the inner loop, on the number of bits left
unfoldable pub encode_digit : ℕ → Bytes → ℕ → ℕ → ℕ
encode_digit zero bytes bit v = v
encode_digit (suc rounds) bytes bit v =
    encode_digit rounds bytes (bit + 1) (bit_or (v * 2) (stream_bit bytes bit))

-- the alphabet at the low five bits
unfoldable pub c32_char : ℕ → ℕ
c32_char v = get_or c32 (bit_and v 0x1f) 0

-- the outer loop, on the number of characters left
unfoldable pub encode_from : ℕ → ℕ → Bytes → Bytes
encode_from zero c bytes = []
encode_from (suc rounds) c bytes =
    c32_char (encode_digit 5 bytes (c * 5) 0) ∷ encode_from rounds (c + 1) bytes

unfoldable pub encode_bytes : Bytes → Bytes
encode_bytes bytes = encode_from 26 0 bytes

-- the `do` loop: readings are taken until one is past `g_last_ms`
unfoldable pub wait_past : ℕ → Clock → Option (Option ℕ)
wait_past last [] = none
wait_past last (r ∷ rs) =
    let rest = wait_past last rs in
    elim (get_epoch_ms_u48 r) [
      | none ↦ some none
      | some ms ↦ if leb ms last then rest else some (some ms)
    ]

-- `g_last_ms = ms` and the read of /dev/urandom; `true` says that it failed
unfoldable pub reseed : UlidState → ℕ → Random → UlidState × Bool
reseed s ms [] = (record s { last_ms = ms }, true)
reseed s ms (short r ∷ _) = (record { last_ms = ms; rand = r ++ drop (length r) s.rand }, true)
reseed s ms (filled r ∷ _) = (record { last_ms = ms; rand = r }, false)

unfoldable pub raw_bytes : UlidState → Bytes
raw_bytes s = time_to_bytes s.last_ms ++ s.rand

unfoldable pub emit : UlidState × Bool → Outcome
emit (s, true) = failed s
emit (s, false) = generated (encode_bytes (raw_bytes s)) s

-- the branch where the increment overflowed
unfoldable pub generate_waited : UlidState → Option (Option ℕ) → Random → Outcome
unfolding emit reseed
generate_waited s none rnd = waiting s
generate_waited s (some none) rnd = failed s
generate_waited s (some (some ms)) rnd = emit (reseed s ms rnd)

-- the branch where the clock shows the millisecond of the last call
unfoldable pub generate_same : UlidState → Bytes × Bool → Clock → Random → Outcome
unfolding generate_waited
generate_same s (rand, false) clock rnd = emit (record s { rand = rand }, false)
generate_same s (rand, true) clock rnd =
    generate_waited (record s { rand = rand }) (wait_past s.last_ms clock) rnd

unfoldable pub generate_at : UlidState → ℕ → Clock → Random → Outcome
unfolding generate_same
generate_at s ms clock rnd =
    if ltb ms s.last_ms
    then emit (reseed s ms rnd)
    else if ltb s.last_ms ms
    then emit (reseed s ms rnd)
    else generate_same s (u80_inc s.rand) clock rnd

unfoldable pub generate_read : UlidState → Option ℕ → Clock → Random → Outcome
unfolding generate_at
generate_read s none clock rnd = failed s
generate_read s (some ms) clock rnd = generate_at s ms clock rnd

-- `out` is not null; a buffer too small for the characters and the final zero is refused
unfoldable pub ulid_generate : UlidState → ℕ → Clock → Random → Outcome
unfolding generate_read
ulid_generate s out_size [] rnd = if ltb out_size 27 then failed s else waiting s
ulid_generate s out_size (r ∷ clock) rnd =
    if ltb out_size 27 then failed s else generate_read s (get_epoch_ms_u48 r) clock rnd
