-- ===== src/Core/Dispatch/Tests.antt =====
-- src/core/dispatch.c: messages of the scheduler, and the theorem at one of them.
use shellclaw.Common.{
  ℕ, Bool, true, false, Option, none, some, List, [], ◌∷◌, ◌++◌, ◌≡◌, refl, Bytes, codes, ℤ, pos,
  negsuc,
}
use shellclaw.Core.Agent.{AgentWorld}
use shellclaw.Core.Jobs.{JobRow}
use shellclaw.Tools.Cron.Offers.{offers_start}
use shellclaw.Core.Dispatch.{Channel, ChannelMessage, Schedule, handle_message}
use shellclaw.Core.Dispatch.Delivered.{Delivered, succeeds, handle_message-Delivered}

abbrev once : JobRow
once = record {
  id = codes "b";
  schedule = codes "at:20";
  message = codes "tidy up";
  channel = [];
  recipient = [];
  next_run = pos 20;
  enabled = true;
}

abbrev s : Schedule
s = record { rows = once ∷ []; offers = offers_start; now = 30; localtime = λ t. none }

abbrev sends : Bytes → Bytes → ℤ
sends to text = pos 0

abbrev cron : Channel
cron = record { name = some (codes "cron"); send = some sends }

abbrev msg : ChannelMessage
msg = record {
  session_id = codes "cli:42";
  user_id = some (codes "b");
  text = some (codes "tidy up");
}

-- a model that answers, or fails
abbrev answers : ℤ → Bytes → AgentWorld
answers err session_id = record {
  json = record { parse = λ text. none; print = λ items. codes "[..]" };
  chat = λ m. (err, record { error = false; content = some (codes "done"); tool_calls = [] });
  tools = [];
  prompt_base = none;
  memory_recall = λ text. [];
  active_backend = [];
  session_load = ([], false);
  max_context_messages = pos 0;
  max_tool_iterations = pos 0;
}

done_once : (handle_message (answers (pos 0)) cron msg s).schedule.rows ≡ []
unfolding handle_message shellclaw.Common.str_equal shellclaw.Core.Agent.agent_run
    shellclaw.Core.Agent.react_loop shellclaw.Core.Dispatch.maybe_ack_cron
    shellclaw.Tools.Cron.Delivery.cron_ack_delivery shellclaw.Core.Jobs.get_by_id
    shellclaw.Core.Jobs.row_of shellclaw.Core.Jobs.fill_row shellclaw.Tools.Cron.is_one_shot
    shellclaw.Common.has_prefix shellclaw.Core.Jobs.job_delete shellclaw.Core.Jobs.remove_rows
done_once = refl

kept_after_failure : (handle_message (answers (negsuc 0)) cron msg s).schedule.rows ≡ once ∷ []
unfolding handle_message shellclaw.Common.str_equal shellclaw.Core.Agent.agent_run
    shellclaw.Core.Agent.react_loop
kept_after_failure = refl

reset :
    (handle_message (answers (pos 0)) cron (record msg { text = some (codes "/reset") }) s).deleted
    ≡ some (codes "cli:42")
unfolding handle_message shellclaw.Common.str_equal
reset = refl

handle_message-Delivered_example :
    Delivered cron sends msg
      (codes "b")
      s
      (succeeds (answers (pos 0)) msg)
      (handle_message (answers (pos 0)) cron msg s)
handle_message-Delivered_example =
    handle_message-Delivered (answers (pos 0)) cron sends msg (codes "b") s refl refl
