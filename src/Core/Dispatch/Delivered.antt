-- ===== src/Core/Dispatch/Delivered.antt =====
-- src/core/dispatch.c: when a scheduled job is acknowledged.
use mathlib.Core.Path.{subst}
use shellclaw.Common.{
  sym, ◌∙◌, ap, Bool, ◌&&◌, ◌||◌, Option, none, some, ◌≡◌, inl, inr, refl, if◌then◌else◌,
  Bool-cases, Bytes, codes, str_equal, ℤ, pos,
}
use shellclaw.Providers.Router.{is_success}
use shellclaw.Core.Agent.{AgentWorld, agent_run}
use shellclaw.Tools.Cron.Delivery.{cron_ack_delivery}
use shellclaw.Core.Dispatch.{
  Channel, ChannelMessage, Schedule, Dispatched, acked_schedule, is_cron, ack_job, maybe_ack_cron,
  after_send, send_then_maybe_ack_cron, send_with, message_text, reply_text, status_text,
  handle_message, response_buf_size,
}

-- whether the message is a command, or a turn that succeeds
abbrev pub succeeds : (Bytes → AgentWorld) → ChannelMessage → Bool
succeeds world msg =
    str_equal (message_text msg.text) (codes "/reset")
    || str_equal (message_text msg.text) (codes "/status")
    || is_success (agent_run (world msg.session_id) (message_text msg.text) response_buf_size).ret

-- what is left of the schedule when a reply was sent without an error, or was not
pub record Delivered (ch : Channel) (send : Bytes → Bytes → ℤ) (msg : ChannelMessage)
    (job_id : Bytes) (s : Schedule) (success : Bool) (d : Dispatched) : Type 0 where
  pub text : Bytes
  pub reply : d.reply ≡ some text
  pub schedule : d.schedule ≡ (
      if is_success (send msg.session_id text) && (success && is_cron ch.name)
      then acked_schedule s (cron_ack_delivery s.localtime s.rows s.offers s.now job_id)
      else s)

module _ (ch : Channel) (send : Bytes → Bytes → ℤ) (msg : ChannelMessage) (job_id : Bytes)
    (s : Schedule) where
  after_send-Delivered :
      (text : Bytes) (agent_err : ℤ) (deleted : Option Bytes)
      → msg.user_id ≡ some job_id
      → Delivered ch send msg job_id s
          (is_success agent_err)
          (after_send ch msg s text agent_err (send msg.session_id text) deleted)
  unfolding maybe_ack_cron
  after_send-Delivered text agent_err deleted u =
      elim (Bool-cases (is_success (send msg.session_id text))) [
        | inr f ↦ rw f (record { text = text; reply = refl; schedule = rw f refl })
        | inl t ↦ elim (Bool-cases (is_success agent_err)) [
          | inr f ↦ rw (t, f) (record { text = text; reply = refl; schedule = rw t refl })
          | inl g ↦ elim (Bool-cases (is_cron ch.name)) [
            | inr n ↦ rw (t, g, n) (record { text = text; reply = refl; schedule = rw (t, n) refl })
            | inl y ↦
                rw (t, g, y)
                  (record {
                    text = text;
                    reply = refl;
                    schedule = ap (λ (o : Option Bytes). (ack_job s o).1) u ∙ rw (t, y) refl;
                  })
          ]
        ]
      ]

  sent-Delivered :
      (text : Bytes) (agent_err : ℤ) (deleted : Option Bytes)
      → ch.send ≡ some send
      → msg.user_id ≡ some job_id
      → Delivered ch send msg job_id s
          (is_success agent_err)
          (send_then_maybe_ack_cron ch msg s text agent_err deleted)
  sent-Delivered text agent_err deleted c u =
      subst
        (λ o.
          Delivered ch send msg job_id s (is_success agent_err)
            (send_with ch msg s text agent_err deleted o))
        (sym c) (after_send-Delivered text agent_err deleted u)

-- A reply is sent to every message of a channel that can send, and the job that a message of the
-- scheduler is about is acknowledged exactly if the reply was sent and the message was a command or a
-- turn that succeeds; else the jobs and the offers stay, so that the job is offered again.
pub handle_message-Delivered :
    (world : Bytes → AgentWorld) (ch : Channel) (send : Bytes → Bytes → ℤ) (msg : ChannelMessage)
    (job_id : Bytes) (s : Schedule)
    → ch.send ≡ some send
    → msg.user_id ≡ some job_id
    → Delivered ch send msg job_id s (succeeds world msg) (handle_message world ch msg s)
unfolding handle_message
handle_message-Delivered world ch send msg job_id s c u =
    let turn = agent_run (world msg.session_id) (message_text msg.text) response_buf_size in
    elim (Bool-cases (str_equal (message_text msg.text) (codes "/reset"))) [
      | inl t ↦ rw t (
          sent-Delivered ch send msg job_id s (codes "Session cleared.") (pos 0)
            (some msg.session_id) c u)
      | inr f ↦ elim (Bool-cases (str_equal (message_text msg.text) (codes "/status"))) [
        | inl t ↦ rw (f, t) (sent-Delivered ch send msg job_id s status_text (pos 0) none c u)
        | inr g ↦
            rw (f, g) (sent-Delivered ch send msg job_id s (reply_text turn) turn.ret none c u)
      ]
    ]
