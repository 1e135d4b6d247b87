-- ===== src/Core/Agent/Tests.antt =====
-- src/core/agent.c: turns of an agent with one tool, and the theorems at them.
use shellclaw.Common.{false, none, some, [], ◌∷◌, ◌≡◌, refl, codes, length, pos, if◌then◌else◌, ltb}
use shellclaw.Providers.Response.{ToolCall}
use shellclaw.Core.Session.{Message, SessionJson, Chat, item_of, plain, append_exchange}
use shellclaw.Core.Agent.{
  AgentTool, AgentWorld, TurnResult, Reply, answered, react_loop, agent_run, append_memories,
  append_offline_note, find_tool, system_prompt,
}
use shellclaw.Core.Agent.Rounds.{Ran, react_loop-Ran}
use shellclaw.Core.Agent.Turn.{Turned, agent_run-Turned}

abbrev clock : AgentTool
clock = record { name = some (codes "clock"); execute = some (λ arguments. codes "noon") }

abbrev ask_clock : ToolCall
ask_clock = record { id = some (codes "1"); name = some (codes "clock"); arguments = none }

-- asks for the time, then answers
abbrev one_call : Chat
one_call m =
    if ltb (length m) 4
    then (pos 0, record { error = false; content = none; tool_calls = ask_clock ∷ [] })
    else (pos 0, record { error = false; content = some (codes "it is noon"); tool_calls = [] })

abbrev w : AgentWorld
w = record {
  json = record { parse = λ text. none; print = λ items. codes "[..]" };
  chat = one_call;
  tools = clock ∷ [];
  prompt_base = some (codes "Be brief.");
  memory_recall = λ text. codes "likes tea";
  active_backend = codes "local";
  session_load = ([], false);
  max_context_messages = pos 0;
  max_tool_iterations = pos 3;
}

noon :
    agent_run w (codes "time?") 8
    ≡ record { ret = pos 0; response = codes "it is n"; saved = some (codes "[..]") }
unfolding agent_run react_loop shellclaw.Core.Agent.build_messages
    shellclaw.Core.Session.session_messages shellclaw.Core.Agent.prepared_session append_exchange
noon = refl

reminded :
    append_memories 100 (codes "Be brief.") (codes "tea")
    ≡ codes "Be brief.\n\nRelevant memories:\n\ntea"
unfolding append_memories
reminded = refl

-- 15 bytes leave room for five of the note
noted : append_offline_note 15 (codes "LOCAL") (codes "Be brief.") ≡ codes "Be brief.\n\n[Op"
unfolding append_offline_note shellclaw.Providers.Model.case_equal
noted = refl

react_loop-Ran_example :
    Ran one_call
      (clock ∷ [])
      3
      (plain (codes "user") (codes "time?") ∷ [])
      (react_loop one_call (clock ∷ []) 3 (plain (codes "user") (codes "time?") ∷ []))
react_loop-Ran_example =
    react_loop-Ran one_call (clock ∷ []) 3 (plain (codes "user") (codes "time?") ∷ [])

agent_run-Turned_example : Turned w (codes "time?") 8 (agent_run w (codes "time?") 8)
agent_run-Turned_example = agent_run-Turned w (codes "time?") 8
