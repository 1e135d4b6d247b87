-- ===== src/Core/Agent.antt =====
-- src/core/agent.c: one turn of the agent. The provider, the tools, the memory and the sessions are
-- parameters: a chat is a function of the messages, which grow from call to call, and a tool one of its
-- arguments, with the text that it leaves in its buffer.
pub mod Rounds
mod Saved
mod History
pub mod Turn
mod Tests
use shellclaw.Common.{
  ℕ, zero, suc, ◌+◌, ◌-◌, ◌*◌, Bool, true, false, ◌&&◌, ◌||◌, not, Option, none, some, List, [],
  ◌∷◌, ◌++◌, ◌==◌, ltb, leb, if◌then◌else◌, map, Bytes, codes, is_empty, str_equal, length, take,
  drop, ℤ, pos, negsuc,
}
use shellclaw.Providers.Response.{Response, ToolCall}
use shellclaw.Providers.Router.{is_success, or_empty}
use shellclaw.Providers.Model.{case_equal}
use shellclaw.Core.Session.{
  Message, plain, SessionJson, Chat, value_or, max_history_messages, compact_session,
  session_messages, append_exchange, items_or_none, Item,
}

abbrev pub max_tool_calls : ℕ
max_tool_calls = 16

abbrev pub tool_result_size : ℕ
tool_result_size = 4096

abbrev pub system_prompt_max : ℕ
system_prompt_max = 65536

pub record AgentTool : Type 0 where
  pub name : Option Bytes
  pub execute : Option (Bytes → Bytes)

-- what lies outside of the turn
pub record AgentWorld : Type 0 where
  pub json : SessionJson
  pub chat : Chat
  pub tools : List AgentTool
  -- skill_build_system_prompt_base with the skills loaded; `none` where it fails
  pub prompt_base : Option Bytes
  pub memory_recall : Bytes → Bytes
  -- the name of the active backend, in 96 bytes
  pub active_backend : Bytes
  -- session_load: the text left in the buffer, and whether the stored session is too large
  pub session_load : Bytes × Bool
  pub max_context_messages : ℤ
  pub max_tool_iterations : ℤ

abbrev pub copy_response : ℕ → Option Bytes → Bytes
copy_response response_size content = take (response_size - 1) (or_empty content)

abbrev pub memories_prefix : Bytes
memories_prefix = codes "\n\nRelevant memories:\n\n"

unfoldable pub append_memories : ℕ → Bytes → Bytes → Bytes
append_memories buf_size system recall =
    let len = length system in
    let prefix_len = length memories_prefix in
    let shown = take (buf_size - len - prefix_len - 1) recall in
    if len == 0 || is_empty recall
    then system
    else if leb buf_size len || ltb (buf_size - len) (prefix_len + 2)
    then system
    else if is_empty shown
    then system
    else system ++ (memories_prefix ++ shown)

abbrev pub offline_note : Bytes
offline_note =
    codes "\n\n[Operating mode: local/offline inference]\n"
    ++ (codes
          "You are served by a local model; capabilities may be reduced compared to larger cloud models. "
        ++ codes
            "When relevant, acknowledge limits, avoid claiming access or tools you do not have, and prefer concise, accurate answers.")

abbrev pub is_local_name : Bytes → Bool
is_local_name name = not (is_empty name) && case_equal name (codes "local")

unfoldable pub append_offline_note : ℕ → Bytes → Bytes → Bytes
append_offline_note buf_size backend system =
    if not (is_local_name backend)
    then system
    else if leb buf_size (length system)
    then system
    else system ++ take (buf_size - length system - 1) offline_note

abbrev pub fallback_prompt : Bytes
fallback_prompt = codes "You are a helpful assistant."

abbrev pub base_prompt : Option Bytes → Bytes
base_prompt none = fallback_prompt
base_prompt (some base) = base

unfoldable pub system_prompt : AgentWorld → Bytes → Bytes
system_prompt w user_message =
    append_offline_note system_prompt_max w.active_backend
      (append_memories system_prompt_max (base_prompt w.prompt_base) (w.memory_recall user_message))

abbrev pub max_ctx_of : ℤ → ℕ
max_ctx_of (negsuc n) = max_history_messages
max_ctx_of (pos n) = if n == 0 || ltb max_history_messages n then max_history_messages else n

abbrev pub max_iter_of : ℤ → ℕ
max_iter_of (negsuc n) = 20
max_iter_of (pos n) = if n == 0 then 20 else n

-- the session buffer after it is loaded and, where it is over the limit, compacted
unfoldable pub prepared_session : AgentWorld → Bytes
prepared_session w =
    let buf = w.session_load.0 in
    let max_ctx = max_ctx_of w.max_context_messages in
    let msg_count = length (items_or_none (w.json.parse buf)) in
    if ltb max_ctx msg_count then compact_session w.json w.chat buf msg_count max_ctx else buf

unfoldable pub build_messages : AgentWorld → Bytes → Bytes → List Message
build_messages w session_buf user_message =
    plain (codes "system") (system_prompt w user_message)
      ∷ session_messages w.json session_buf (max_ctx_of w.max_context_messages)
    ++ plain (codes "user") user_message ∷ []

abbrev pub is_tool : Option Bytes → AgentTool → Bool
is_tool none tool = false
is_tool (some name) tool = elim tool.name [ none ↦ false | some n ↦ str_equal n name ]

unfoldable pub find_tool : List AgentTool → Option Bytes → Option AgentTool
find_tool [] name = none
find_tool (t ∷ ts) name = let rest = find_tool ts name in if is_tool name t then some t else rest

abbrev pub unknown_tool : Option Bytes → Bytes
unknown_tool name = codes "error: unknown tool \"" ++ (or_empty name ++ codes "\"")

abbrev pub arguments_of : Option Bytes → Bytes
arguments_of none = codes "{}"
arguments_of (some a) = a

-- on the tool found
abbrev pub tool_output : ToolCall → Option AgentTool → Bytes
tool_output call none = unknown_tool call.name
tool_output call (some tool) = elim tool.execute [
  | none ↦ unknown_tool call.name
  | some execute ↦ execute (arguments_of call.arguments)
]

-- the message with the result of a call, in its buffer of TOOL_RESULT_SIZE bytes
abbrev pub tool_message : List AgentTool → ToolCall → Message
tool_message tools call = record {
  role = codes "user";
  content = take (tool_result_size - 1) (tool_output call (find_tool tools call.name));
  tool_calls = [];
  tool_use_id = call.id;
}

-- what one round adds to the messages
abbrev pub turn_messages : List AgentTool → Response → List Message
turn_messages tools response =
    let calls = take max_tool_calls response.tool_calls in
    record {
      role = codes "assistant";
      content = or_empty response.content;
      tool_calls = calls;
      tool_use_id = none;
    }
    ∷ map (tool_message tools) calls

pub data Reply : Type 0 where
  -- 0, and -1, with the response and the messages of the last chat
  answered errored : Option Bytes → List Message → Reply

abbrev pub after_chat : List Message → ℤ × Response → Bool → Reply → Reply
after_chat messages (err, response) is_last next =
    if not (is_success err)
    then errored response.content messages
    else if is_empty response.tool_calls || is_last
    then answered response.content messages
    else next

-- the loop, on the number of iterations that are left
unfoldable pub react_loop : Chat → List AgentTool → ℕ → List Message → Reply
react_loop chat tools zero messages =
    after_chat messages (chat messages) true (answered none messages)
react_loop chat tools (suc left) messages =
    after_chat messages (chat messages) false
      (react_loop chat tools left (messages ++ turn_messages tools (chat messages).1))

pub record TurnResult : Type 0 where
  pub ret : ℤ
  pub response : Bytes
  -- what session_save is given, if it is called
  pub saved : Option Bytes

abbrev pub finish_turn : AgentWorld → Bytes → Bytes → ℕ → Reply → TurnResult
finish_turn w session_buf user_message response_size (errored content messages) = record {
  ret = negsuc 0;
  response = copy_response response_size content;
  saved = none;
}
finish_turn w session_buf user_message response_size (answered content messages) =
    let response = copy_response response_size content in
    record {
      ret = pos 0;
      response = response;
      saved =
          if w.session_load.1
          then none
          else append_exchange w.json session_buf user_message response;
    }

-- the arguments are not null, and the buffer has a byte
unfoldable pub agent_run : AgentWorld → Bytes → ℕ → TurnResult
agent_run w user_message response_size =
    let session_buf = prepared_session w in
    finish_turn w session_buf user_message response_size (
      react_loop w.chat w.tools (max_iter_of w.max_tool_iterations)
        (build_messages w session_buf user_message))
