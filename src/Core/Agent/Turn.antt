-- ===== src/Core/Agent/Turn.antt =====
-- src/core/agent.c: what a whole turn leaves.
use shellclaw.Common.{
  map, ap, ℕ, ◌-◌, ◌≤◌, true, false, none, List, [], ◌∷◌, ◌++◌, ◌≡◌, ◌⊎◌, inl, inr, refl, take,
  is_empty, if◌then◌else◌, Bytes, codes, Bool-cases, pos, negsuc,
}
use shellclaw.Providers.Router.{is_success, or_empty}
use shellclaw.Core.Session.{Item, Message, plain, session_messages}
use shellclaw.Core.Agent.{
  AgentWorld, TurnResult, Reply, agent_run, finish_turn, copy_response, react_loop, build_messages,
  prepared_session, max_iter_of, max_ctx_of, system_prompt,
}
use shellclaw.Core.Agent.History.{IsReadable, message_of, session_messages-readable}
use shellclaw.Core.Agent.Rounds.{Rounds, Ran, react_loop-Ran}
use shellclaw.Core.Agent.Saved.{Prepared, Stored, prepared_session-Prepared, append_exchange-Stored}

-- what a turn promises its caller
pub record Turned (w : AgentWorld) (user_message : Bytes) (response_size : ℕ) (r : TurnResult)
    : Type 0 where
  pub session : Bytes
  pub prepared : Prepared w session
  -- the system prompt, the messages of the session, and that of the user
  pub opening : List Message
  pub opened :
      opening
      ≡ plain (codes "system") (system_prompt w user_message)
        ∷ (session_messages w.json session (max_ctx_of w.max_context_messages)
            ++ plain (codes "user") user_message ∷ [])
  -- one message for each item of a session that is read whole
  pub read_whole :
      (items : List Item)
      → IsReadable w.json session (max_ctx_of w.max_context_messages) items
      → opening
        ≡ plain (codes "system") (system_prompt w user_message)
          ∷ (map message_of items ++ plain (codes "user") user_message ∷ [])
  pub rounds : ℕ
  pub last : List Message
  -- the messages that the last chat is asked, after the rounds with the tools
  pub asked : Rounds w.chat w.tools rounds opening last
  pub within : rounds ≤ max_iter_of w.max_tool_iterations
  -- the last chat fails, or asks for no tool, or the rounds are used up
  pub ended :
      (is_success (w.chat last).0 ≡ false)
      ⊎ ((is_empty (w.chat last).1.tool_calls ≡ true)
          ⊎ (rounds ≡ max_iter_of w.max_tool_iterations))
  pub answer : r.response ≡ take (response_size - 1) (or_empty (w.chat last).1.content)
  pub ret : r.ret ≡ (if is_success (w.chat last).0 then pos 0 else negsuc 0)
  -- nothing is stored after a turn that fails, or if the session was not loaded whole
  pub unsaved : (is_success (w.chat last).0 ≡ false) ⊎ (w.session_load.1 ≡ true) → r.saved ≡ none
  pub saved :
      is_success (w.chat last).0 ≡ true
      → w.session_load.1 ≡ false
      → Stored w.json session user_message r.response r.saved

finished-Turned :
    (w : AgentWorld) (user_message : Bytes) (response_size : ℕ) (reply : Reply)
    → Ran w.chat w.tools
        (max_iter_of w.max_tool_iterations)
        (build_messages w (prepared_session w) user_message)
        reply
    → Turned w user_message response_size
        (finish_turn w (prepared_session w) user_message response_size reply)
unfolding build_messages prepared_session
finished-Turned w user_message response_size reply r =
    rw r.is (elim (Bool-cases (is_success (w.chat r.last).0)) [
      | inl fine ↦ rw fine (record {
        session = prepared_session w;
        prepared = prepared_session-Prepared w;
        opening = _;
        opened = refl;
        read_whole = λ items i.
            ap
              (λ (ms : List Message).
                plain (codes "system") (system_prompt w user_message)
                ∷ (ms ++ plain (codes "user") user_message ∷ []))
              (session_messages-readable w.json (prepared_session w) w.max_context_messages items
                i);
        rounds = r.rounds;
        last = r.last;
        asked = r.ran;
        within = r.within;
        ended = r.ended;
        answer = refl;
        ret = rw fine refl;
        unsaved = λ why. elim why [ inl failed ↦ cc (fine, failed) | inr large ↦ rw large refl ];
        saved = λ _ whole. rw whole (
            append_exchange-Stored w.json (prepared_session w) user_message
              (copy_response response_size (w.chat r.last).1.content));
      })
      | inr failed ↦ rw failed (record {
        session = prepared_session w;
        prepared = prepared_session-Prepared w;
        opening = _;
        opened = refl;
        read_whole = λ items i.
            ap
              (λ (ms : List Message).
                plain (codes "system") (system_prompt w user_message)
                ∷ (ms ++ plain (codes "user") user_message ∷ []))
              (session_messages-readable w.json (prepared_session w) w.max_context_messages items
                i);
        rounds = r.rounds;
        last = r.last;
        asked = r.ran;
        within = r.within;
        ended = r.ended;
        answer = refl;
        ret = rw failed refl;
        unsaved = λ why. refl;
        saved = λ fine _. cc (fine, failed);
      })
    ])

-- A turn asks the model on the system prompt, the messages of its session and that of the user, where a
-- session whose items are readable and within the limits gives a message for each; then after each round
-- of tools again, until a chat fails or asks for no tool, at most as often as it is configured and once
-- more. Its caller gets the last answer, cut to the buffer, and 0 or -1 as that chat succeeds or not. Only
-- a turn that succeeds on a session that was loaded whole is stored: all messages that the session is read
-- as, that of the user, and the answer as the caller got it, if the text of them fits.
pub agent_run-Turned :
    (w : AgentWorld) (user_message : Bytes) (response_size : ℕ)
    → Turned w user_message response_size (agent_run w user_message response_size)
unfolding agent_run
agent_run-Turned w user_message response_size =
    finished-Turned w user_message response_size
      (react_loop w.chat w.tools (max_iter_of w.max_tool_iterations)
        (build_messages w (prepared_session w) user_message))
      (react_loop-Ran w.chat w.tools (max_iter_of w.max_tool_iterations)
        (build_messages w (prepared_session w) user_message))
