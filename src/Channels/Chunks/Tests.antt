-- ===== src/Channels/Chunks/Tests.antt =====
-- src/channels/channel_common.c: a text of three pieces, with a character of two bytes at a cut.
use shellclaw.Common.{
  ℕ, ◌<◌, ◌≤◌, Bool, true, false, List, [], ◌∷◌, ◌≡◌, refl, arith, Bytes, codes, length, ◌++◌, ◌==◌,
  not, take, some, none, Option,
}
use shellclaw.Channels.Chunks.{
  Post, delivered, stopped, outbound_chunk_len, send_chunked, channel_register, get_by_name,
}
use shellclaw.Channels.Chunks.Posted.{Posted, send_chunked-Posted}

-- the platform takes two pieces
abbrev takes_two : Post
takes_two sent piece = not (length sent == 2)

-- "abc", e with an acute accent, "defgh"
abbrev accented : Bytes
accented = 97 ∷ 98 ∷ 99 ∷ 195 ∷ 169 ∷ 100 ∷ 101 ∷ 102 ∷ 103 ∷ 104 ∷ []

two_taken :
    send_chunked takes_two accented 4
    ≡ stopped 2 7 ((97 ∷ 98 ∷ 99 ∷ []) ∷ (195 ∷ 169 ∷ 100 ∷ 101 ∷ []) ∷ [])
unfolding send_chunked shellclaw.Channels.Chunks.send_from outbound_chunk_len
    shellclaw.Channels.Chunks.walk_back
two_taken = refl

found_second :
    get_by_name
      (channel_register (channel_register [] (codes "cli") 1) (codes "telegram") 2)
      (codes "telegram")
    ≡ some 2
unfolding get_by_name shellclaw.Common.str_equal
found_second = refl

send_chunked-Posted_example : Posted takes_two accented 4 (send_chunked takes_two accented 4)
send_chunked-Posted_example = send_chunked-Posted takes_two accented 4 (omega arith)
