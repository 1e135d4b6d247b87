-- ===== src/Core/Dispatch.antt =====
-- src/core/dispatch.c: what a message of a channel leads to: a command, or a turn of the agent, the reply,
-- and the acknowledgement of a scheduled job. The sections under the mutex of the agent are steps.
pub mod Delivered
mod Tests
use shellclaw.Common.{
  ℕ, ◌*◌, Bool, true, false, ◌&&◌, not, Option, none, some, ◌++◌, if◌then◌else◌, Bytes, codes,
  str_equal, is_empty, decimal, ◌+◌, List, ◌∷◌, ℤ, pos, negsuc,
}
use shellclaw.Providers.Router.{is_success}
use shellclaw.Core.Agent.{AgentWorld, TurnResult, agent_run}
use shellclaw.Core.Jobs.{JobRow}
use shellclaw.Tools.Cron.{Localtime}
use shellclaw.Tools.Cron.Offers.{Offer}
use shellclaw.Tools.Cron.Delivery.{Acked, cron_ack_delivery}

abbrev pub response_buf_size : ℕ
response_buf_size = 32 * 1024

pub record Channel : Type 0 where
  pub name : Option Bytes
  -- with the session and the text
  pub send : Option (Bytes → Bytes → ℤ)

pub record ChannelMessage : Type 0 where
  pub session_id : Bytes
  pub user_id : Option Bytes
  pub text : Option Bytes

-- the scheduled jobs, their offers, and the clock that an acknowledgement reads
pub record Schedule : Type 0 where
  pub rows : List JobRow
  pub offers : List Offer
  pub now : ℕ
  pub localtime : Localtime

pub record Dispatched : Type 0 where
  pub ret : ℤ
  pub schedule : Schedule
  -- the text that `send` is given
  pub reply : Option Bytes
  -- the session that is deleted
  pub deleted : Option Bytes

abbrev pub acked_schedule : Schedule → Acked → Schedule
acked_schedule s a = record s { rows = a.rows; offers = a.offers }

abbrev pub is_cron : Option Bytes → Bool
is_cron none = false
is_cron (some name) = str_equal name (codes "cron")

abbrev pub ack_job : Schedule → Option Bytes → ℤ × Schedule
ack_job s none = (pos 0, s)
ack_job s (some job_id) =
    let a = cron_ack_delivery s.localtime s.rows s.offers s.now job_id in
    (if a.ok then pos 0 else negsuc 0, acked_schedule s a)

unfoldable pub maybe_ack_cron : Channel → ChannelMessage → Schedule → ℤ × Schedule
maybe_ack_cron ch msg s = if is_cron ch.name then ack_job s msg.user_id else (pos 0, s)

abbrev pub after_send :
    Channel → ChannelMessage → Schedule → Bytes → ℤ → ℤ → Option Bytes → Dispatched
after_send ch msg s text agent_err send_err deleted =
    if not (is_success send_err)
    then record { ret = send_err; schedule = s; reply = some text; deleted = deleted }
    else if not (is_success agent_err)
    then record { ret = pos 0; schedule = s; reply = some text; deleted = deleted }
    else let r = maybe_ack_cron ch msg s in
      record { ret = r.0; schedule = r.1; reply = some text; deleted = deleted }

abbrev pub send_with :
    Channel
    → ChannelMessage
    → Schedule
    → Bytes
    → ℤ
    → Option Bytes
    → Option (Bytes → Bytes → ℤ)
    → Dispatched
send_with ch msg s text agent_err deleted none = record {
  ret = negsuc 0;
  schedule = s;
  reply = none;
  deleted = deleted;
}
send_with ch msg s text agent_err deleted (some send) =
    after_send ch msg s text agent_err (send msg.session_id text) deleted

abbrev pub send_then_maybe_ack_cron :
    Channel → ChannelMessage → Schedule → Bytes → ℤ → Option Bytes → Dispatched
send_then_maybe_ack_cron ch msg s text agent_err deleted =
    send_with ch msg s text agent_err deleted ch.send

abbrev pub message_text : Option Bytes → Bytes
message_text none = codes ""
message_text (some t) = t

abbrev pub signed_text : ℤ → Bytes
signed_text (pos n) = decimal n
signed_text (negsuc n) = b'-' ∷ decimal (n + 1)

abbrev pub reply_text : TurnResult → Bytes
reply_text t =
    if not (is_success t.ret) && is_empty t.response
    then codes "Error: agent failed (code " ++ (signed_text t.ret ++ codes ")")
    else t.response

-- the line of /status, with a dash in UTF-8
abbrev pub status_text : Bytes
status_text = codes "ShellClaw 1.0.0 " ++ (0xE2 ∷ 0x80 ∷ 0x94 ∷ codes " agent ready.")

-- what a turn in a session finds is a parameter
unfoldable pub handle_message :
    (Bytes → AgentWorld) → Channel → ChannelMessage → Schedule → Dispatched
handle_message world ch msg s =
    let text = message_text msg.text in
    let turn = agent_run (world msg.session_id) text response_buf_size in
    if str_equal text (codes "/reset")
    then send_then_maybe_ack_cron ch msg s (codes "Session cleared.") (pos 0) (some msg.session_id)
    else if str_equal text (codes "/status")
    then send_then_maybe_ack_cron ch msg s status_text (pos 0) none
    else send_then_maybe_ack_cron ch msg s (reply_text turn) turn.ret none
