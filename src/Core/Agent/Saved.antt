-- ===== src/Core/Agent/Saved.antt =====
-- src/core/agent.c: the session that a turn works on, and the one that it stores.
use shellclaw.Common.{
  ℕ, ◌≤◌, true, false, ◌||◌, Option, none, some, List, [], ◌∷◌, ◌++◌, ◌≡◌, ◌⊎◌, inl, inr, refl,
  arith, ltb, leb, length, if◌then◌else◌, Bytes, codes, Bool-cases, Option-cases,
}
use shellclaw.Core.Session.{
  Item, SessionJson, append_exchange, is_array_text, items_or_none, session_json_max, compact_items,
  compact_session, compact_parsed, printed_items, value_or,
}
use shellclaw.Core.Agent.{AgentWorld, prepared_session, max_ctx_of}

-- The session that a turn works on: the one that was loaded while it is within the limit; and else that
-- one too where it is not shortened, or a shorter one that is printed and fits.
pub record Prepared (w : AgentWorld) (session : Bytes) : Type 0 where
  pub short :
      length (items_or_none (w.json.parse w.session_load.0)) ≤ max_ctx_of w.max_context_messages
      → session ≡ w.session_load.0
  pub compacted :
      (session ≡ w.session_load.0)
      ⊎ ((items : List Item) × (new : List Item) × (w.json.parse w.session_load.0 ≡ some items)
          × (compact_items w.chat items (length items) (max_ctx_of w.max_context_messages)
              ≡ some new)
          × (session ≡ w.json.print new))

-- the messages that a session is read as
pub data ReadAs (json : SessionJson) (session : Bytes) : List Item → Type 0 where
  items_of :
      (items : List Item)
      → is_array_text session ≡ true
      → json.parse session ≡ some items
      → ReadAs json session items
  nothing_read :
      (is_array_text session ≡ false) ⊎ (json.parse session ≡ none) → ReadAs json session []

-- what is stored after a turn: all that was there, then the message of the user and the answer, if it fits
pub record Stored (json : SessionJson) (session user_message answer : Bytes) (saved : Option Bytes)
    : Type 0 where
  pub before : List Item
  pub read : ReadAs json session before
  pub text : Bytes
  pub printed :
      text
      ≡ json.print (
          before
          ++ record {
            is_object = true;
            role = some (codes "user");
            content = some user_message;
            others = [];
          }
            ∷ record {
              is_object = true;
              role = some (codes "assistant");
              content = some answer;
              others = [];
            }
            ∷ [])
  pub is : saved ≡ (if leb session_json_max (length text) then none else some text)

pub prepared_session-Prepared : (w : AgentWorld) → Prepared w (prepared_session w)
unfolding prepared_session compact_session
prepared_session-Prepared w =
    let max_ctx = max_ctx_of w.max_context_messages in
    let count = length (items_or_none (w.json.parse w.session_load.0)) in
    elim (Bool-cases (ltb max_ctx count)) [
      | inr within ↦ rw within (record { short = λ l. refl; compacted = inl refl })
      | inl over ↦ rw over (record {
        short = λ l. absurd (not_short count max_ctx over l);
        compacted = elim (Bool-cases (leb count max_ctx || ltb max_ctx 2)) [
          | inl none_done ↦ rw none_done (inl refl)
          | inr done ↦ rw done (parsed_session (w.json.parse w.session_load.0) refl)
        ];
      })
    ]
  where
    not_short : (n m : ℕ) → ltb m n ≡ true → n ≤ m → ⊥
    not_short n m h l = ground arith

    printed_or :
        (items : List Item) (o : Option (List Item))
        → w.json.parse w.session_load.0 ≡ some items
        → compact_items w.chat items (length items) (max_ctx_of w.max_context_messages) ≡ o
        → (value_or w.session_load.0 (printed_items w.json o) ≡ w.session_load.0)
          ⊎ ((items : List Item) × (new : List Item) × (w.json.parse w.session_load.0 ≡ some items)
              × (compact_items w.chat items (length items) (max_ctx_of w.max_context_messages)
                  ≡ some new)
              × (value_or w.session_load.0 (printed_items w.json o) ≡ w.json.print new))
    printed_or items none e c = inl refl
    printed_or items (some new) e c =
        elim (Bool-cases (leb session_json_max (length (w.json.print new)))) [
          | inl long ↦ inl (rw long refl)
          | inr fits ↦ inr (items, new, e, c, rw fits refl)
        ]

    parsed_session :
        (o : Option (List Item))
        → w.json.parse w.session_load.0 ≡ o
        → (value_or w.session_load.0 (
              compact_parsed w.json w.chat
                (length (items_or_none o))
                (max_ctx_of w.max_context_messages)
                o)
            ≡ w.session_load.0)
          ⊎ ((items : List Item) × (new : List Item) × (w.json.parse w.session_load.0 ≡ some items)
              × (compact_items w.chat items (length items) (max_ctx_of w.max_context_messages)
                  ≡ some new)
              × (value_or w.session_load.0 (
                    compact_parsed w.json w.chat
                      (length (items_or_none o))
                      (max_ctx_of w.max_context_messages)
                      o)
                  ≡ w.json.print new))
    parsed_session none e = inl refl
    parsed_session (some items) e = printed_or items _ e refl

pub append_exchange-Stored :
    (json : SessionJson) (session user_message answer : Bytes)
    → Stored json session user_message answer (append_exchange json session user_message answer)
unfolding append_exchange
append_exchange-Stored json session user_message answer =
    elim (Bool-cases (is_array_text session)) [
      | inr f ↦
          rw f (record {
            before = [];
            read = nothing_read (inl f);
            text = _;
            printed = refl;
            is = refl;
          })
      | inl t ↦ elim (Option-cases (json.parse session)) [
        | inl n ↦
            rw (t, n)
              (record {
                before = [];
                read = nothing_read (inr n);
                text = _;
                printed = refl;
                is = refl;
              })
        | inr (items, e) ↦
            rw (t, e)
              (record {
                before = items;
                read = items_of items t e;
                text = _;
                printed = refl;
                is = refl;
              })
      ]
    ]
