-- ===== src/Channels/Discord.antt =====
-- src/channels/discord_helpers.c: which messages of Discord are answered and in which session, the
-- backoff of a request, and the buffer of the gateway's frames. A tree of cJSON is that of Crypto/Jcs;
-- memory is taken to suffice, and a double is what its test and its cast tell of it.
pub mod Routed
pub mod Received
mod Tests
use shellclaw.Common.{
  ℕ, zero, suc, ◌+◌, ◌-◌, ◌*◌, ◌%◌, ◌^◌, Bool, true, false, ◌&&◌, ◌||◌, not, Option, none, some,
  List, [], ◌∷◌, ◌++◌, ◌==◌, ltb, leb, if◌then◌else◌, Bytes, codes, str_equal, is_empty, length,
}
use shellclaw.Providers.Model.{case_equal}
use shellclaw.Crypto.Jcs.{
  Json, true_node, text, array, object, Nodes, no_nodes, node, Members, no_members, member,
}

pub data Lifecycle : Type 0 where
  disabled disconnected connecting connected reconnecting : Lifecycle

unfoldable pub lifecycle_str : Lifecycle → Bytes
lifecycle_str disabled = codes "disabled"
lifecycle_str disconnected = codes "disconnected"
lifecycle_str connecting = codes "connecting"
lifecycle_str connected = codes "connected"
lifecycle_str reconnecting = codes "reconnecting"

abbrev pub allow_entry_equals : Bytes → Bytes → Bool
allow_entry_equals allow_entry author_id =
    if is_empty allow_entry || is_empty author_id then false else str_equal allow_entry author_id

unfoldable pub user_in_allowlist : List Bytes → Bytes → Bool
user_in_allowlist [] author_id = false
user_in_allowlist (a ∷ allowed) author_id =
    allow_entry_equals a author_id || user_in_allowlist allowed author_id

abbrev pub session_prefix : Bytes
session_prefix = codes "discord:c:"

abbrev pub session_id_from_channel : Bytes → ℕ → Option Bytes
session_id_from_channel channel_id outsiz =
    if is_empty channel_id || outsiz == 0
    then none
    else if ltb outsiz (length session_prefix + length channel_id + 1)
    then none
    else some (session_prefix ++ channel_id)

-- cJSON_GetObjectItem, which does not tell capitals from small letters
unfoldable pub item_of_name : Members → Bytes → Option Json
item_of_name no_members key = none
item_of_name (member none x ms) key = item_of_name ms key
item_of_name (member (some k) x ms) key =
    let rest = item_of_name ms key in if case_equal key k then some x else rest

abbrev pub object_item : Json → Bytes → Option Json
object_item (object ms) key = item_of_name ms key
object_item _ key = none

abbrev pub text_of : Option Json → Option Bytes
text_of (some (text s)) = s
text_of _ = none

-- the text of a node that is a string and not empty
abbrev pub nonempty_text : Option Bytes → Option Bytes
nonempty_text none = none
nonempty_text (some s) = if is_empty s then none else some s

abbrev pub same_text : Option Bytes → Bytes → Bool
same_text none t = false
same_text (some s) t = str_equal s t

abbrev pub is_user_of : Json → Bytes → Bool
is_user_of (object ms) bot_id = same_text (text_of (item_of_name ms (codes "id"))) bot_id
is_user_of _ bot_id = false

unfoldable pub any_mentions : Nodes → Bytes → Bool
any_mentions no_nodes bot_id = false
any_mentions (node user nodes) bot_id = is_user_of user bot_id || any_mentions nodes bot_id

abbrev pub mentions_include_bot : Option Json → Bytes → Bool
mentions_include_bot (some (array nodes)) bot_id =
    if is_empty bot_id then false else any_mentions nodes bot_id
mentions_include_bot _ bot_id = false

abbrev pub is_true_node : Option Json → Bool
is_true_node (some true_node) = true
is_true_node _ = false

abbrev pub is_mentioned : Json → Option Bytes → Bool
is_mentioned payload none = false
is_mentioned payload (some bot_id) =
    mentions_include_bot (object_item payload (codes "mentions")) bot_id

-- whether the message is in a server
abbrev pub is_guild : Option Bytes → Bool
is_guild none = false
is_guild (some g) = true

abbrev pub session_of : Option Bytes → ℕ → Option Bytes
session_of none outsiz = none
session_of (some channel) outsiz = session_id_from_channel channel outsiz

abbrev pub route_author : Json → List Bytes → Option Bytes → ℕ → Option Bytes → Option Bytes
route_author payload allowed bot_user_id outsiz none = none
route_author payload allowed bot_user_id outsiz (some author_id) =
    if not (user_in_allowlist allowed author_id)
    then none
    else if is_guild (nonempty_text (text_of (object_item payload (codes "guild_id"))))
        && not (is_mentioned payload (nonempty_text bot_user_id))
    then none
    else session_of (nonempty_text (text_of (object_item payload (codes "channel_id")))) outsiz

abbrev pub route_from : Json → List Bytes → Option Bytes → ℕ → Option Json → Option Bytes
route_from payload allowed bot_user_id outsiz (some (object author)) =
    if is_true_node (item_of_name author (codes "bot"))
    then none
    else route_author payload allowed bot_user_id outsiz
        (nonempty_text (text_of (item_of_name author (codes "id"))))
route_from payload allowed bot_user_id outsiz _ = none

-- 1 with the session, or 0; the payload is an object and the session has a buffer
unfoldable pub route_message_create : Json → List Bytes → Option Bytes → ℕ → Option Bytes
route_message_create payload allowed bot_user_id outsiz =
    route_from payload allowed bot_user_id outsiz (object_item payload (codes "author"))

abbrev pub at_least : ℕ → ℕ → ℕ
at_least low n = if ltb n low then low else n

abbrev pub at_most : ℕ → ℕ → ℕ
at_most high n = if ltb high n then high else n

-- `retry_after_ms` is the cast of the product, where the number of seconds is positive
abbrev pub raw_backoff : ℕ → Option ℕ → ℕ → ℕ → ℕ
raw_backoff attempt (some retry_after_ms) jitter_raw base_ms = retry_after_ms + jitter_raw % 50
raw_backoff attempt none jitter_raw base_ms = 2 ^ attempt * base_ms + jitter_raw

-- the numbers are not negative, and small enough not to overflow an int
unfoldable pub send_backoff_ms : ℕ → Option ℕ → ℕ → ℕ → ℕ → ℕ
send_backoff_ms attempt retry_after_ms jitter_raw base_ms cap_ms =
    at_most cap_ms (at_least 100 (raw_backoff attempt retry_after_ms jitter_raw base_ms))

-- the loop that doubles the capacity, on as many rounds
unfoldable pub grown : ℕ → ℕ → ℕ → ℕ
grown zero ncap need = ncap
grown (suc rounds) ncap need =
    let next = grown rounds (ncap * 2) need in if ltb ncap need then next else ncap

pub record Rx : Type 0 where
  pub buf : Bytes
  pub cap : ℕ

abbrev pub new_cap : ℕ → ℕ → ℕ → ℕ
new_cap cap need max_cap = at_most max_cap (grown need (if cap == 0 then 4096 else cap * 2) need)

-- the buffer with the chunk, or -1
unfoldable pub rx_append : Rx → Bytes → ℕ → Option Rx
rx_append rx chunk max_cap =
    let need = length rx.buf + length chunk + 1 in
    if max_cap == 0
    then none
    else if ltb max_cap (length chunk) || ltb (max_cap - length chunk) (length rx.buf)
    then none
    else if ltb max_cap need
    then none
    else if leb need rx.cap
    then some (record { buf = rx.buf ++ chunk; cap = rx.cap })
    else if ltb (new_cap rx.cap need max_cap) need
    then none
    else some (record { buf = rx.buf ++ chunk; cap = new_cap rx.cap need max_cap })
