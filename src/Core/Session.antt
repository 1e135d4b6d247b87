-- ===== src/Core/Session.antt =====
-- src/core/agent.c: the session, which is a JSON array of messages, and its compaction. cJSON is the
-- parameter `SessionJson`: an item is what cJSON_GetObjectItem and cJSON_IsString tell of a node, with
-- what else the node holds. Memory is taken to suffice.
pub mod Compacted
mod Tests
use shellclaw.Common.{
  ℕ, zero, suc, ◌+◌, ◌-◌, ◌*◌, Bool, true, false, ◌&&◌, ◌||◌, not, Option, none, some, List, [],
  ◌∷◌, ◌++◌, ◌==◌, ltb, leb, if◌then◌else◌, min, Bytes, codes, is_empty, str_equal, length, take,
  drop, ℤ,
}
use shellclaw.Channels.Chunks.{walk_back}
use shellclaw.Providers.Response.{Response, ToolCall}
use shellclaw.Providers.Router.{is_success, or_empty}

abbrev pub session_json_max : ℕ
session_json_max = 128 * 1024

abbrev pub summary_source_max : ℕ
summary_source_max = 64 * 1024

abbrev pub summary_result_max : ℕ
summary_result_max = 4096

abbrev pub history_content_max : ℕ
history_content_max = 128 * 1024

abbrev pub max_history_messages : ℕ
max_history_messages = 40

abbrev pub role_len : ℕ
role_len = 16

pub record Item : Type 0 where
  pub is_object : Bool
  pub role : Option Bytes
  pub content : Option Bytes
  pub others : Bytes

pub record SessionJson : Type 0 where
  -- cJSON_Parse; `none` where it fails or gives no array
  pub parse : Bytes → Option (List Item)
  -- cJSON_PrintUnformatted of an array
  pub print : List Item → Bytes

-- what a chat is given; the tools are those of the agent, or none
pub record Message : Type 0 where
  pub role : Bytes
  pub content : Bytes
  pub tool_calls : List ToolCall
  pub tool_use_id : Option Bytes

abbrev pub plain : Bytes → Bytes → Message
plain role content = record { role = role; content = content; tool_calls = []; tool_use_id = none }

-- copy_printed_session_json: the text, if it fits
abbrev pub printed_session : ℕ → Bytes → Option Bytes
printed_session dst_size text = if leb dst_size (length text) then none else some text

abbrev pub summary_line : Bytes → Bytes → Bytes
summary_line role content = role ++ (codes ": " ++ (content ++ codes "\n"))

-- the text behind `buf` if the whole line fits
unfoldable pub summary_source_append : ℕ → Bytes → Bytes → Bytes → Option Bytes
summary_source_append cap buf role content =
    if leb (cap - 1) (length buf)
    then none
    else if leb (cap - length buf) (length (summary_line role content))
    then none
    else some (buf ++ summary_line role content)

abbrev pub summary_line_never_fits : Bytes → Bytes → Bool
summary_line_never_fits role content = leb summary_source_max (length role + 2 + length content + 1)

abbrev pub trunc_marker : Bytes
trunc_marker = codes "[truncated]"

abbrev pub cut_of : ℕ → Bytes → ℕ
cut_of room content = walk_back content (min room (length content))

unfoldable pub summary_source_append_truncated : ℕ → Bytes → Bytes → Bytes → Option Bytes
unfolding walk_back
summary_source_append_truncated cap buf role content =
    let remain = cap - length buf in
    let fixed = length role + 2 + length trunc_marker + 1 + 1 in
    let line = summary_line role (take (cut_of (remain - fixed) content) content ++ trunc_marker) in
    if leb cap (length buf + 1)
    then none
    else if leb remain fixed
    then none
    else if leb remain (length line)
    then none
    else some (buf ++ line)

-- `role` and `content` of an object in the loop of the compaction
abbrev pub role_of : Item → Bytes
role_of item = elim item.role [ none ↦ codes "user" | some r ↦ r ]

abbrev pub content_of : Item → Bytes
content_of item = or_empty item.content

abbrev pub first_of : Option Bytes → Option Bytes → Option Bytes
first_of (some a) b = some a
first_of none b = b

-- The source with the line of an object, or `none` where the pass stops.
unfoldable pub take_line : Bytes → Bytes → Bytes → Option Bytes
take_line buf role content = first_of (summary_source_append summary_source_max buf role content) (
    if length buf == 0 && summary_line_never_fits role content
    then summary_source_append_truncated summary_source_max buf role content
    else none)

-- the source, the index where the pass stopped if it did, and `fold_into_oversized`
pub record Pass : Type 0 where
  pub source : Bytes
  pub stopped_at : Option ℕ
  pub fold : Bool

abbrev pub value_or : Bytes → Option Bytes → Bytes
value_or d none = d
value_or d (some v) = v

abbrev pub pass_step : Bytes → ℕ → Bytes → Option Bytes → Pass → Pass
pass_step buf i role (some b) next = next
pass_step buf i role none next = record {
  source = buf;
  stopped_at = some i;
  fold = i == 1 && not (str_equal role (codes "user"));
}

unfoldable pub summarize : ℕ → Bytes → List Item → Pass
summarize i buf [] = record { source = buf; stopped_at = none; fold = false }
summarize i buf (item ∷ items) =
    let line =
      if item.is_object then take_line buf (role_of item) (content_of item) else some buf in
    pass_step buf i (role_of item) line (summarize (i + 1) (value_or buf line) items)

-- cJSON_IsString (role) and "user"
abbrev pub is_user : Option Bytes → Bool
is_user none = false
is_user (some r) = str_equal r (codes "user")

abbrev pub starts_with_user : List Item → Bool
starts_with_user [] = false
starts_with_user (item ∷ _) = item.is_object && is_user item.role

abbrev pub fold_summary : Item → Bytes → Item
fold_summary item summary = record item {
  content = some (summary ++ (codes "\n\n" ++ content_of item));
}

abbrev pub summary_user : Bytes → Item
summary_user summary = record {
  is_object = true;
  role = some (codes "user");
  content = some summary;
  others = [];
}

-- the messages after the compaction, from those that are kept
abbrev pub with_summary : Bool → Bytes → List Item → Option (List Item)
with_summary false summary kept = some (summary_user summary ∷ kept)
with_summary true summary [] = none
with_summary true summary (item ∷ kept) = some (fold_summary item summary ∷ kept)

abbrev pub stop_or : ℕ → Option ℕ → ℕ
stop_or d none = d
stop_or d (some i) = i

-- with the summary, cut to its buffer
abbrev pub compacted_items : List Item → ℕ → ℕ → Pass → Bytes → Option (List Item)
compacted_items items msg_count max_ctx pass summary =
    let start = stop_or (msg_count - (max_ctx - 1)) pass.stopped_at in
    let kept = take (msg_count - start) (drop start items) in
    with_summary (starts_with_user (drop start items) || pass.fold)
      (take (summary_result_max - 1) summary) kept

abbrev pub summarized_as : List Item → ℕ → ℕ → Pass → Option Bytes → Option (List Item)
summarized_as items msg_count max_ctx pass none = none
summarized_as items msg_count max_ctx pass (some summary) =
    compacted_items items msg_count max_ctx pass summary

abbrev pub summarized : List Item → ℕ → ℕ → Pass → ℤ × Response → Option (List Item)
summarized items msg_count max_ctx pass (err, response) =
    if not (is_success err)
    then none
    else summarized_as items msg_count max_ctx pass response.content

abbrev pub summarize_system : Bytes
summarize_system =
    codes
      "Summarize the following conversation in one short paragraph. Output only the summary, no preamble."

abbrev pub Chat : Type 0
Chat = List Message → ℤ × Response

-- the messages after a compaction that succeeds
unfoldable pub compact_items : Chat → List Item → ℕ → ℕ → Option (List Item)
compact_items chat items msg_count max_ctx =
    let pass = summarize 0 [] (take (msg_count - max_ctx + 1) items) in
    if is_empty pass.source
    then none
    else summarized items msg_count max_ctx pass
        (chat (plain (codes "system") summarize_system ∷ plain (codes "user") pass.source ∷ []))

abbrev pub printed_items : SessionJson → Option (List Item) → Option Bytes
printed_items json none = none
printed_items json (some items) = printed_session session_json_max (json.print items)

abbrev pub compact_parsed : SessionJson → Chat → ℕ → ℕ → Option (List Item) → Option Bytes
compact_parsed json chat msg_count max_ctx none = none
compact_parsed json chat msg_count max_ctx (some items) =
    printed_items json (compact_items chat items msg_count max_ctx)

-- the session buffer after the call: what it was where nothing is to be done or something fails
unfoldable pub compact_session : SessionJson → Chat → Bytes → ℕ → ℕ → Bytes
compact_session json chat session_buf msg_count max_ctx =
    if leb msg_count max_ctx || ltb max_ctx 2
    then session_buf
    else value_or session_buf (compact_parsed json chat msg_count max_ctx (json.parse session_buf))

-- the messages of a session, from the number of those before and the bytes that they take
unfoldable pub history_of : ℕ → ℕ → ℕ → List Item → List Message
history_of max_messages count used [] = []
history_of max_messages count used (item ∷ items) =
    let role = role_of item in
    let content = content_of item in
    let next =
      history_of max_messages (if item.is_object then count + 1 else count)
        (if item.is_object then used + length content + 1 else used) items in
    if leb max_messages count
    then []
    else if not item.is_object
    then next
    else if leb role_len (length role)
        || ltb (max_history_messages * role_len) (count * role_len + role_len)
    then []
    else if ltb history_content_max (used + length content + 1)
    then []
    else plain role content ∷ next

abbrev pub recent : ℕ → Option (List Item) → List Message
recent max_messages none = []
recent max_messages (some items) =
    history_of max_messages 0 0 (drop (length items - max_messages) items)

abbrev pub is_array_text : Bytes → Bool
is_array_text [] = false
is_array_text (c ∷ _) = c == b'['

unfoldable pub session_messages : SessionJson → Bytes → ℕ → List Message
session_messages json session_json max_messages =
    if is_array_text session_json then recent max_messages (json.parse session_json) else []

abbrev pub items_or_none : Option (List Item) → List Item
items_or_none none = []
items_or_none (some items) = items

abbrev pub item_of : Bytes → Bytes → Item
item_of role content = record {
  is_object = true;
  role = some role;
  content = some content;
  others = [];
}

-- the session with the turn of the user and the answer
unfoldable pub append_exchange : SessionJson → Bytes → Bytes → Bytes → Option Bytes
append_exchange json existing_json user_message assistant_content =
    let items =
      if is_array_text existing_json then items_or_none (json.parse existing_json) else [] in
    printed_session session_json_max (
      json.print (
        items
        ++ item_of (codes "user") user_message
          ∷ item_of (codes "assistant") assistant_content
          ∷ []))
