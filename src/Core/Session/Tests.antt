-- ===== src/Core/Session/Tests.antt =====
-- src/core/agent.c: sessions at some values, and the theorem at one of them.
use shellclaw.Common.{
  Bytes, ◌-◌, take, false, some, List, [], ◌∷◌, ◌≡◌, refl, arith, codes, pos, str_equal,
}
use shellclaw.Core.Session.{
  plain, summarize_system, summary_result_max, Item, SessionJson, Chat, plain, item_of,
  summary_user, fold_summary, compact_items, session_messages, append_exchange, summarize,
  summarize_system, history_of, summary_source_append_truncated, take_line,
}
use shellclaw.Core.Session.Compacted.{IsCompacted, compact_items-IsCompacted}

abbrev asked : Item
asked = item_of (codes "user") (codes "hi")

abbrev told : Item
told = item_of (codes "assistant") (codes "hello")

abbrev three_items : List Item
three_items = asked ∷ told ∷ asked ∷ []

abbrev greets : Chat
greets m = (pos 0, record { error = false; content = some (codes "greetings"); tool_calls = [] })

summary_before_the_answer :
    compact_items greets (asked ∷ asked ∷ told ∷ []) 3 2
    ≡ some (summary_user (codes "greetings") ∷ told ∷ [])
unfolding compact_items summarize take_line shellclaw.Core.Session.summary_source_append str_equal
summary_before_the_answer = refl

summary_in_the_question :
    compact_items greets three_items 3 2 ≡ some (fold_summary asked (codes "greetings") ∷ [])
unfolding compact_items summarize take_line shellclaw.Core.Session.summary_source_append str_equal
summary_in_the_question = refl

-- a line that cannot fit into 30 bytes is cut before its marker
cut_line :
    summary_source_append_truncated 30 [] (codes "user") (codes "a text that is far too long")
    ≡ some (codes "user: a text that[truncated]\n")
unfolding summary_source_append_truncated
cut_line = refl

abbrev three_json : SessionJson
three_json = record { parse = λ text. some three_items; print = λ items. codes "[]" }

latest :
    session_messages three_json (codes "[]") 2
    ≡ plain (codes "assistant") (codes "hello") ∷ plain (codes "user") (codes "hi") ∷ []
unfolding session_messages history_of
latest = refl

stored : append_exchange three_json [] (codes "a") (codes "b") ≡ some (codes "[]")
unfolding append_exchange
stored = refl

compact_items-IsCompacted_example :
    (source : Bytes) × (answer : Bytes) × ((greets
        (plain (codes "system") summarize_system ∷ plain (codes "user") source ∷ [])).1.content
      ≡ some answer)
    × IsCompacted three_items
        (fold_summary asked (codes "greetings") ∷ [])
        (take (summary_result_max - 1) answer)
compact_items-IsCompacted_example =
    compact_items-IsCompacted greets three_items (fold_summary asked (codes "greetings") ∷ []) 2
      (refl, (refl, (refl, tt))) (omega arith) (omega arith) summary_in_the_question
