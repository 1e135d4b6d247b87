-- ===== src/Channels/Chunks.antt =====
-- src/channels/channel_common.c: the table of channels, and the sending of a long text in pieces. The
-- callback that posts a piece is an argument: it sees the pieces before and the piece, and says whether
-- the platform took it.
pub mod Posted
mod Tests
use Prim.Native.Nat.{bit_and}
use shellclaw.Common.{
  ℕ, zero, suc, ◌+◌, ◌-◌, Bool, true, false, ◌&&◌, ◌||◌, not, Option, none, some, List, [], ◌∷◌,
  ◌++◌, ◌==◌, ltb, leb, if◌then◌else◌, Bytes, str_equal, length, take, drop, get_or,
}

abbrev pub max_registered : ℕ
max_registered = 8

-- the names with the channels, which are pointers
abbrev pub Registered : Type 0
Registered = List (Bytes × ℕ)

-- the name and the channel are not null
abbrev pub channel_register : Registered → Bytes → ℕ → Registered
channel_register r name ch = if leb max_registered (length r) then r else r ++ (name, ch) ∷ []

unfoldable pub get_by_name : Registered → Bytes → Option ℕ
get_by_name [] name = none
get_by_name ((n, ch) ∷ r) name =
    let rest = get_by_name r name in if str_equal n name then some ch else rest

-- a byte that goes on with a UTF-8 sequence
abbrev pub is_continuation : ℕ → Bool
is_continuation c = bit_and c 0xC0 == 0x80

unfoldable pub walk_back : Bytes → ℕ → ℕ
walk_back text zero = zero
walk_back text (suc n) =
    let rest = walk_back text n in if is_continuation (get_or text (suc n) 0) then rest else suc n

unfoldable pub outbound_chunk_len : Bytes → ℕ → ℕ
outbound_chunk_len text max_bytes =
    if max_bytes == 0
    then 0
    else if leb (length text) max_bytes
    then length text
    else let n = walk_back text max_bytes in if ltb 0 n then n else max_bytes

abbrev pub Post : Type 0
Post = List Bytes → Bytes → Bool

pub data Outcome : Type 0 where
  -- 0, with the pieces posted
  delivered : List Bytes → Outcome
  -- -1, with the index and the offset of the piece that was not posted, and the pieces before
  stopped : ℕ → ℕ → List Bytes → Outcome
  -- the rounds are used up
  unfinished : Outcome

-- the loop, with the text that is left, the index, the offset, and the pieces posted
unfoldable pub send_from : Post → ℕ → ℕ → Bytes → ℕ → ℕ → List Bytes → Outcome
send_from post max_bytes rounds [] index offset sent = delivered sent
send_from post max_bytes zero (c ∷ cs) index offset sent = unfinished
send_from post max_bytes (suc rounds) (c ∷ cs) index offset sent =
    let n = outbound_chunk_len (c ∷ cs) max_bytes in
    let piece = take n (c ∷ cs) in
    let next =
      send_from post max_bytes rounds (drop n (c ∷ cs)) (index + 1) (offset + n)
        (sent ++ piece ∷ []) in
    if n == 0 || ltb max_bytes n
    then stopped index offset sent
    else if post sent piece
    then next
    else stopped index offset sent

-- the text and the callback are not null; a piece takes a byte, so the text's length bounds the rounds
unfoldable pub send_chunked : Post → Bytes → ℕ → Outcome
send_chunked post text max_bytes =
    if max_bytes == 0 then stopped 0 0 [] else send_from post max_bytes (length text) text 0 0 []
