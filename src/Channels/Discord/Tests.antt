-- ===== src/Channels/Discord/Tests.antt =====
-- src/channels/discord_helpers.c: a message in a server, and the theorems at it.
use shellclaw.Common.{
  ℕ, ◌<◌, ◌≤◌, ◌+◌, Bool, true, false, Option, none, some, List, [], ◌∷◌, ◌≡◌, ◌⊎◌, refl, arith,
  Bytes, codes, length,
}
use shellclaw.Crypto.Jcs.{Json, text, array, object, no_nodes, node, Members, no_members, member}
use shellclaw.Channels.Discord.{
  lifecycle_str, reconnecting, route_message_create, send_backoff_ms, Rx, rx_append,
}
use shellclaw.Channels.Discord.Routed.{Routed, route_message_create-Routed}
use shellclaw.Channels.Discord.Received.{Appended, rx_append-Appended}

abbrev string_member : Bytes → Bytes → Members → Members
string_member key s rest = member (some key) (text (some s)) rest

abbrev message : Members → Json
message mentioned = object (
    member (some (codes "author")) (object (string_member (codes "id") (codes "7") no_members)) (
      string_member (codes "guild_id") (codes "1") (
        string_member (codes "channel_id") (codes "22") (
          member (some (codes "mentions")) (array (node (object mentioned) no_nodes)) no_members))))

abbrev to_bot : Json
to_bot = message (string_member (codes "id") (codes "99") no_members)

routed :
    route_message_create to_bot (codes "7" ∷ []) (some (codes "99")) 64
    ≡ some (codes "discord:c:22")
unfolding route_message_create shellclaw.Channels.Discord.item_of_name
    shellclaw.Providers.Model.case_equal shellclaw.Channels.Discord.user_in_allowlist
    shellclaw.Common.str_equal shellclaw.Channels.Discord.any_mentions
routed = refl

not_mentioned :
    route_message_create (message no_members) (codes "7" ∷ []) (some (codes "99")) 64 ≡ none
unfolding route_message_create shellclaw.Channels.Discord.item_of_name
    shellclaw.Providers.Model.case_equal shellclaw.Channels.Discord.user_in_allowlist
    shellclaw.Common.str_equal shellclaw.Channels.Discord.any_mentions
not_mentioned = refl

not_allowed : route_message_create to_bot (codes "8" ∷ []) (some (codes "99")) 64 ≡ none
unfolding route_message_create shellclaw.Channels.Discord.item_of_name
    shellclaw.Providers.Model.case_equal shellclaw.Channels.Discord.user_in_allowlist
    shellclaw.Common.str_equal
not_allowed = refl

third_try : send_backoff_ms 3 none 10 250 60000 ≡ 2010
unfolding send_backoff_ms
third_try = refl

told_to_wait : send_backoff_ms 0 (some 1500) 120 250 1000 ≡ 1000
unfolding send_backoff_ms
told_to_wait = refl

shown : lifecycle_str reconnecting ≡ codes "reconnecting"
unfolding lifecycle_str
shown = refl

abbrev rx : Rx
rx = record { buf = codes "abc"; cap = 4 }

doubled : rx_append rx (codes "de") 10 ≡ some (record { buf = codes "abcde"; cap = 8 })
unfolding rx_append shellclaw.Channels.Discord.grown
doubled = refl

route_message_create-Routed_example :
    Routed to_bot (codes "7" ∷ []) (some (codes "99")) 64 (codes "discord:c:22")
route_message_create-Routed_example =
    route_message_create-Routed to_bot (codes "7" ∷ []) (some (codes "99")) 64
      (codes "discord:c:22") routed

rx_append-Appended_example :
    ((length (codes "abc") + length (codes "de") < 10)
      × Appended rx (codes "de") 10 (rx_append rx (codes "de") 10))
    ⊎ ((10 ≤ length (codes "abc") + length (codes "de")) × (rx_append rx (codes "de") 10 ≡ none))
rx_append-Appended_example = rx_append-Appended rx (codes "de") 10 (omega arith)
