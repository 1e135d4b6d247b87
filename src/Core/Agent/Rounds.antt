-- ===== src/Core/Agent/Rounds.antt =====
-- src/core/agent.c: the rounds of the loop between the model and the tools.
use shellclaw.Common.{
  ℕ, zero, suc, ◌+◌, ◌*◌, ◌≤◌, Bool, true, false, ◌||◌, if◌then◌else◌, none, List, [], ◌∷◌, ◌++◌,
  ◌≡◌, ◌⊎◌, inl, inr, refl, arith, Bool-cases, map, is_empty, length, take, length-append,
}
use shellclaw.Providers.Response.{Response, ToolCall}
use shellclaw.Providers.Router.{is_success}
use shellclaw.Core.Session.{Message, Chat}
use shellclaw.Core.Agent.{
  AgentTool, Reply, answered, errored, after_chat, react_loop, turn_messages, tool_message,
}

-- `k` rounds, in each of which the chat succeeds and asks for tools, take the messages from the one list
-- to the other
pub data Rounds (chat : Chat) (tools : List AgentTool)
    : ℕ → List Message → List Message → Type 0 where
  done : (m : List Message) → Rounds chat tools zero m m
  round :
      (k : ℕ) (m last : List Message)
      → is_success (chat m).0 ≡ true
      → is_empty (chat m).1.tool_calls ≡ false
      → Rounds chat tools k (m ++ turn_messages tools (chat m).1) last
      → Rounds chat tools (suc k) m last

-- the reply to the chat on the last messages
abbrev pub reply_of : Chat → List Message → Reply
reply_of chat last =
    if is_success (chat last).0
    then answered (chat last).1.content last
    else errored (chat last).1.content last

-- What a loop with `left` iterations at hand comes to.
pub record Ran (chat : Chat) (tools : List AgentTool) (left : ℕ) (messages : List Message)
    (reply : Reply) : Type 0 where
  pub rounds : ℕ
  pub last : List Message
  pub ran : Rounds chat tools rounds messages last
  pub is : reply ≡ reply_of chat last
  -- no more chats than the iterations and one
  pub within : rounds ≤ left
  -- it ends at an error, at a response without a call, or with its iterations used up
  pub ended :
      (is_success (chat last).0 ≡ false)
      ⊎ ((is_empty (chat last).1.tool_calls ≡ true) ⊎ (rounds ≡ left))
  -- a message of the assistant and the results of up to 16 calls a round
  pub grows : length last ≤ length messages + 17 * rounds

length-map-take :
    (tools : List AgentTool) (n : ℕ) (calls : List ToolCall)
    → length (map (tool_message tools) (take n calls)) ≤ n
length-map-take tools zero calls = omega arith
length-map-take tools (suc n) [] = omega arith
length-map-take tools (suc n) (c ∷ calls) = omega (arith, length-map-take tools n calls)

length-turn_messages : (tools : List AgentTool) (r : Response) → length (turn_messages tools r) ≤ 17
length-turn_messages tools r = omega (arith, length-map-take tools 16 r.tool_calls)

-- a loop that ends at once
stopped :
    (chat : Chat) (tools : List AgentTool) (left : ℕ) (messages : List Message) (is_last : Bool)
    (next : Reply)
    → (is_last ≡ true → 0 ≡ left)
    → ((is_success (chat messages).0 ≡ false)
        ⊎ ((is_empty (chat messages).1.tool_calls || is_last) ≡ true))
    → Ran chat tools left messages (after_chat messages (chat messages) is_last next)
stopped chat tools left messages is_last next z why =
    elim (Bool-cases (is_success (chat messages).0)) [
      | inr failed ↦ record {
        rounds = 0;
        last = messages;
        ran = done messages;
        is = rw failed refl;
        within = omega arith;
        ended = inl failed;
        grows = omega arith;
      }
      | inl fine ↦
          let over : (is_empty (chat messages).1.tool_calls || is_last) ≡ true = elim why [
            | inl failed ↦ cc
            | inr o ↦ o
          ] in
          record {
            rounds = 0;
            last = messages;
            ran = done messages;
            is = rw (fine, over) refl;
            within = omega arith;
            ended = inr (elim (Bool-cases (is_empty (chat messages).1.tool_calls)) [
              | inl none_left ↦ inl none_left
              | inr some_left ↦ inr (z (rw some_left at over))
            ]);
            grows = omega arith;
          }
    ]

-- The loop of a turn ends, within the iterations that it has: it comes to the reply of the chat on the
-- messages that some number of rounds leave, and does not stop before an error, a response without a
-- call or the last iteration.
pub react_loop-Ran :
    (chat : Chat) (tools : List AgentTool) (left : ℕ) (messages : List Message)
    → Ran chat tools left messages (react_loop chat tools left messages)
unfolding react_loop
react_loop-Ran chat tools zero messages =
    stopped chat tools 0 messages true (answered none messages) (λ t. refl)
      (inr (elim (Bool-cases (is_empty (chat messages).1.tool_calls)) [
        | inl e ↦ rw e refl
        | inr e ↦ rw e refl
      ]))
react_loop-Ran chat tools (suc left) messages =
    let more = messages ++ turn_messages tools (chat messages).1 in
    let next = react_loop chat tools left more in
    let r = react_loop-Ran chat tools left more in
    elim (Bool-cases (is_success (chat messages).0)) [
      | inr failed ↦ stopped chat tools (suc left) messages false next (λ t. cc) (inl failed)
      | inl fine ↦ elim (Bool-cases (is_empty (chat messages).1.tool_calls)) [
        | inl over ↦
            stopped chat tools (suc left) messages false next (λ t. cc) (inr (rw over refl))
        | inr calls ↦ record {
          rounds = suc r.rounds;
          last = r.last;
          ran = round r.rounds messages r.last fine calls r.ran;
          is = rw (fine, calls) r.is;
          within = omega (arith, r.within);
          ended = elim r.ended [
            | inl failed ↦ inl failed
            | inr (inl none_left) ↦ inr (inl none_left)
            | inr (inr used) ↦ inr (inr (omega (arith, used)))
          ];
          grows = omega (
            arith,
            r.grows,
            length-append messages (turn_messages tools (chat messages).1),
            length-turn_messages tools (chat messages).1,
          );
        }
      ]
    ]
