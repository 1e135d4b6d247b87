-- ===== src/Channels/Discord/Routed.antt =====
-- src/channels/discord_helpers.c: the messages that are answered.
use mathlib.Core.Option.{some-injective}
use shellclaw.Common.{
  ℕ, ◌+◌, Bool, true, false, ◌&&◌, ◌||◌, not, Option, none, some, List, [], ◌∷◌, ◌++◌, ◌==◌, ◌≡◌,
  ◌≢◌, ◌⊎◌, inl, inr, refl, sym, ap, str_equal, str_equal_iff, ltb, Bool-cases, Option-cases, Bytes,
  codes, is_empty, length,
}
use shellclaw.Crypto.Jcs.{Json, true_node, array, object, Nodes, no_nodes, node, Members}
use shellclaw.Channels.Discord.{
  user_in_allowlist, same_text, is_user_of, any_mentions, mentions_include_bot, session_prefix,
  session_id_from_channel, item_of_name, object_item, text_of, nonempty_text, is_true_node,
  is_mentioned, is_guild, route_from, route_message_create,
}

-- a text that stands in a list
pub record Listed (allowed : List Bytes) (author_id : Bytes) : Type 0 where
  pub before : List Bytes
  pub after : List Bytes
  pub stands : allowed ≡ before ++ author_id ∷ after

-- one of the nodes is an object whose id is the text
pub data Mentions (bot_id : Bytes) : Nodes → Type 0 where
  here :
      (user : Members) (nodes : Nodes)
      → text_of (item_of_name user (codes "id")) ≡ some bot_id
      → Mentions bot_id (node (object user) nodes)
  behind : (user : Json) (nodes : Nodes) → Mentions bot_id nodes → Mentions bot_id (node user nodes)

-- the bot has an id, and the mentions of the message have it
pub record IsCalled (payload : Json) (bot_user_id : Option Bytes) : Type 0 where
  pub bot_id : Bytes
  pub bot : bot_user_id ≡ some bot_id
  pub nodes : Nodes
  pub listed : object_item payload (codes "mentions") ≡ some (array nodes)
  pub mentioned : Mentions bot_id nodes

pub record Routed (payload : Json) (allowed : List Bytes) (bot_user_id : Option Bytes) (outsiz : ℕ)
    (session : Bytes) : Type 0 where
  pub author : Members
  pub written_by : object_item payload (codes "author") ≡ some (object author)
  pub no_bot : item_of_name author (codes "bot") ≢ some true_node
  pub author_id : Bytes
  pub named : text_of (item_of_name author (codes "id")) ≡ some author_id
  pub has_name : author_id ≢ []
  pub is_allowed : Listed allowed author_id
  -- in a server only with a mention of the bot
  pub addressed :
      ((guild : Bytes) → text_of (object_item payload (codes "guild_id")) ≡ some guild → guild ≡ [])
      ⊎ IsCalled payload bot_user_id
  pub channel : Bytes
  pub posted_in : text_of (object_item payload (codes "channel_id")) ≡ some channel
  pub is : session ≡ session_prefix ++ channel

user_in_allowlist-Listed :
    (allowed : List Bytes) (author_id : Bytes)
    → user_in_allowlist allowed author_id ≡ true
    → Listed allowed author_id
unfolding user_in_allowlist
user_in_allowlist-Listed [] author_id h = cc
user_in_allowlist-Listed (a ∷ allowed) author_id h =
    elim (Bool-cases (is_empty a || is_empty author_id)) [
      | inl t ↦ later (user_in_allowlist-Listed allowed author_id (rw t at h))
      | inr f ↦ elim (Bool-cases (str_equal a author_id)) [
        | inl same ↦ record {
          before = [];
          after = allowed;
          stands = ap (λ (x : Bytes). x ∷ allowed) ((str_equal_iff a author_id).0 same);
        }
        | inr other ↦ later (user_in_allowlist-Listed allowed author_id (rw (f, other) at h))
      ]
    ]
  where
    later : Listed allowed author_id → Listed (a ∷ allowed) author_id
    later l = record {
      before = a ∷ l.before;
      after = l.after;
      stands = ap (λ (xs : List Bytes). a ∷ xs) l.stands;
    }

same_text-is : (t : Option Bytes) (s : Bytes) → same_text t s ≡ true → t ≡ some s
same_text-is none s h = cc
same_text-is (some t) s h = ap some ((str_equal_iff t s).0 h)

any_mentions-Mentions :
    (nodes : Nodes) (bot_id : Bytes) → any_mentions nodes bot_id ≡ true → Mentions bot_id nodes
unfolding any_mentions
any_mentions-Mentions no_nodes bot_id h = cc
any_mentions-Mentions (node user nodes) bot_id h =
    by_user (any_mentions-Mentions nodes bot_id) user h
  where
    by_user :
        (any_mentions nodes bot_id ≡ true → Mentions bot_id nodes)
        → (u : Json) → (is_user_of u bot_id || any_mentions nodes bot_id) ≡ true
        → Mentions bot_id (node u nodes)
    by_user later (object ms) r =
        elim (Bool-cases (same_text (text_of (item_of_name ms (codes "id"))) bot_id)) [
          | inl t ↦ here ms nodes (same_text-is (text_of (item_of_name ms (codes "id"))) bot_id t)
          | inr f ↦ behind (object ms) nodes (later (rw f at r))
        ]
    by_user later u r = behind u nodes (later r)

is_mentioned-IsCalled :
    (payload : Json) (bot_user_id : Option Bytes)
    → is_mentioned payload (nonempty_text bot_user_id) ≡ true
    → IsCalled payload bot_user_id
is_mentioned-IsCalled payload none h = cc
is_mentioned-IsCalled payload (some bot_id) h = elim (Bool-cases (is_empty bot_id)) [
  | inl t ↦ cc (rw t at h)
  | inr f ↦ by_node (object_item payload (codes "mentions")) refl (rw f at h)
]
  where
    by_node :
        (m : Option Json)
        → object_item payload (codes "mentions") ≡ m
        → mentions_include_bot m bot_id ≡ true
        → IsCalled payload (some bot_id)
    by_node (some (array nodes)) e r = elim (Bool-cases (is_empty bot_id)) [
      | inl t ↦ cc (rw t at r)
      | inr f ↦ record {
        bot_id = bot_id;
        bot = refl;
        nodes = nodes;
        listed = e;
        mentioned = any_mentions-Mentions nodes bot_id (rw f at r);
      }
    ]
    by_node m e r = cc

nonempty_text-some :
    (o : Option Bytes) (t : Bytes) → nonempty_text o ≡ some t → (o ≡ some t) × (t ≢ [])
nonempty_text-some none t h = cc
nonempty_text-some (some []) t h = cc
nonempty_text-some (some (c ∷ cs)) t h = (h, λ e. cc (h, e))

no_guild :
    (o : Option Bytes)
    → is_guild (nonempty_text o) ≡ false
    → (guild : Bytes) → o ≡ some guild
    → guild ≡ []
no_guild none h g e = cc
no_guild (some []) h g e = sym (some-injective [] g e)
no_guild (some (c ∷ cs)) h g e = cc

not_bot : (o : Option Json) → is_true_node o ≡ false → o ≢ some true_node
not_bot o h e = cc (rw e at h)

session_id-is :
    (channel session : Bytes) (outsiz : ℕ)
    → session_id_from_channel channel outsiz ≡ some session
    → session ≡ session_prefix ++ channel
session_id-is channel session outsiz h = elim (Bool-cases (is_empty channel || outsiz == 0)) [
  | inl t ↦ cc (rw t at h)
  | inr f ↦ elim (Bool-cases (ltb outsiz (length session_prefix + length channel + 1))) [
    | inl t ↦ cc (rw (f, t) at h)
    | inr g ↦ sym (some-injective (session_prefix ++ channel) session (rw (f, g) at h))
  ]
]

-- whether a message in a server mentions the bot, or is in none
addressed_of : (g m : Bool) → g && not m ≡ false → (g ≡ false) ⊎ (m ≡ true)
addressed_of false m h = inl refl
addressed_of true true h = inr refl
addressed_of true false h = cc

-- A message is answered only if its author is no bot and has an id that stands in the list of those who
-- may write, and, in a server, only if one of its mentions has the id of the bot; the session is the one
-- of the channel that it is posted in.
pub route_message_create-Routed :
    (payload : Json) (allowed : List Bytes) (bot_user_id : Option Bytes) (outsiz : ℕ)
    (session : Bytes)
    → route_message_create payload allowed bot_user_id outsiz ≡ some session
    → Routed payload allowed bot_user_id outsiz session
unfolding route_message_create
route_message_create-Routed payload allowed bot_user_id outsiz session h =
    by_author (object_item payload (codes "author")) refl h
  where
    guild : Bool
    guild = is_guild (nonempty_text (text_of (object_item payload (codes "guild_id"))))

    addressed_either :
        (guild && not (is_mentioned payload (nonempty_text bot_user_id))) ≡ false
        → ((g : Bytes) → text_of (object_item payload (codes "guild_id")) ≡ some g → g ≡ [])
          ⊎ IsCalled payload bot_user_id
    addressed_either h =
        elim (addressed_of guild (is_mentioned payload (nonempty_text bot_user_id)) h) [
          | inl outside ↦ inl (no_guild (text_of (object_item payload (codes "guild_id"))) outside)
          | inr called ↦ inr (is_mentioned-IsCalled payload bot_user_id called)
        ]

    by_author :
        (a : Option Json)
        → object_item payload (codes "author") ≡ a
        → route_from payload allowed bot_user_id outsiz a ≡ some session
        → Routed payload allowed bot_user_id outsiz session
    by_author (some (object author)) e r =
        elim (Bool-cases (is_true_node (item_of_name author (codes "bot")))) [
          | inl t ↦ cc (rw t at r)
          | inr no_bot ↦
              elim (Option-cases (nonempty_text (text_of (item_of_name author (codes "id"))))) [
                | inl n ↦ cc (rw (no_bot, n) at r)
                | inr (author_id, n) ↦ elim (Bool-cases (user_in_allowlist allowed author_id)) [
                  | inr f ↦ cc (rw (no_bot, n, f) at r)
                  | inl allowed_one ↦
                      elim (Bool-cases
                        (guild && not (is_mentioned payload (nonempty_text bot_user_id)))) [
                          | inl t ↦ cc (rw (no_bot, n, allowed_one, t) at r)
                          | inr talked_to ↦
                              elim (Option-cases (
                                nonempty_text
                                  (text_of (object_item payload (codes "channel_id"))))) [
                                    | inl none_given ↦
                                        cc (rw (no_bot, n, allowed_one, talked_to, none_given) at r)
                                    | inr (channel, p) ↦ record {
                                      author = author;
                                      written_by = e;
                                      no_bot = not_bot (item_of_name author (codes "bot")) no_bot;
                                      author_id = author_id;
                                      named =
                                          (nonempty_text-some
                                            (text_of (item_of_name author (codes "id"))) author_id
                                            n).0;
                                      has_name =
                                          (nonempty_text-some
                                            (text_of (item_of_name author (codes "id"))) author_id
                                            n).1;
                                      is_allowed =
                                          user_in_allowlist-Listed allowed author_id allowed_one;
                                      addressed = addressed_either talked_to;
                                      channel = channel;
                                      posted_in =
                                          (nonempty_text-some
                                            (text_of (object_item payload (codes "channel_id")))
                                            channel p).0;
                                      is =
                                          session_id-is channel session outsiz
                                            (rw (no_bot, n, allowed_one, talked_to, p) at r);
                                    }
                                  ]
                        ]
                ]
              ]
        ]
    by_author _ e r = cc
