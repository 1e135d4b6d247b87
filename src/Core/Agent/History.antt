-- ===== src/Core/Agent/History.antt =====
-- src/core/agent.c: the messages that a session is read into.
use shellclaw.Common.{
  ℕ, ◌+◌, ◌-◌, ◌*◌, ◌≤◌, ◌<◌, true, false, ◌||◌, some, List, [], ◌∷◌, ◌≡◌, refl, ap, arith, ltb,
  leb, map, length, drop, Bytes, pos, negsuc, ℤ,
}
use shellclaw.Core.Session.{
  Item, SessionJson, Message, plain, role_of, content_of, history_of, session_messages,
  is_array_text, history_content_max, max_history_messages, role_len,
}
use shellclaw.Core.Agent.{max_ctx_of}

-- objects whose roles fit a field of 16 bytes
abbrev pub AllReadable : List Item → Type 0
AllReadable [] = Unit
AllReadable (x ∷ xs) = (x.is_object ≡ true) × (length (role_of x) < role_len) × AllReadable xs

-- the bytes that the contents take, each with its zero
abbrev pub content_bytes : List Item → ℕ
content_bytes [] = 0
content_bytes (x ∷ xs) = length (content_of x) + 1 + content_bytes xs

abbrev pub message_of : Item → Message
message_of x = plain (role_of x) (content_of x)

-- the items of a session that are read whole
pub record IsReadable (json : SessionJson) (session : Bytes) (max_messages : ℕ) (items : List Item)
    : Type 0 where
  pub is_array : is_array_text session ≡ true
  pub parsed : json.parse session ≡ some items
  pub readable : AllReadable items
  pub few : length items ≤ max_messages
  pub fit : content_bytes items ≤ history_content_max

history_of-readable :
    (max_messages count used : ℕ) (items : List Item)
    → AllReadable items
    → max_messages ≤ max_history_messages
    → count + length items ≤ max_messages
    → used + content_bytes items ≤ history_content_max
    → history_of max_messages count used items ≡ map message_of items
unfolding history_of
history_of-readable m count used [] h b l f = refl
history_of-readable m count used (x ∷ xs) h b l f =
    let later =
      history_of-readable m (count + 1) (used + length (content_of x) + 1) xs h.2 b (omega arith)
        (omega arith) in
    let room : leb m count ≡ false = ground arith in
    let place : (leb role_len (length (role_of x))
          || ltb (max_history_messages * role_len) (count * role_len + role_len))
        ≡ false =
      ground (arith, h.1) in
    let space : ltb history_content_max (used + length (content_of x) + 1) ≡ false = ground arith in
    rw (room, h.0, place, space) (ap (λ (ms : List Message). message_of x ∷ ms) later)

max_ctx_of_le : (z : ℤ) → max_ctx_of z ≤ max_history_messages
max_ctx_of_le (negsuc n) = omega arith
max_ctx_of_le (pos n) = ground arith

drop_none : (n m : ℕ) (items : List Item) → n ≤ m → drop (n - m) items ≡ items
drop_none n m items l = let z : n - m ≡ 0 = omega arith in rw z refl

-- A session whose items are read whole gives one message for each.
pub session_messages-readable :
    (json : SessionJson) (session : Bytes) (z : ℤ) (items : List Item)
    → IsReadable json session (max_ctx_of z) items
    → session_messages json session (max_ctx_of z) ≡ map message_of items
unfolding session_messages
session_messages-readable json session z items r =
    rw (r.is_array, r.parsed, drop_none (length items) (max_ctx_of z) items r.few)
      (history_of-readable (max_ctx_of z) 0 0 items r.readable (max_ctx_of_le z)
        (omega (arith, r.few)) (omega (arith, r.fit)))
