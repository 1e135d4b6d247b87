-- ===== src/Tools/Cron/Delivery/Tests.antt =====
-- src/tools/cron.c: deliveries of two jobs, and the theorems at them.
use shellclaw.Common.{
  ℕ, ◌<◌, ◌≤◌, ◌^◌, ◌-◌, Bool, true, false, Option, none, some, List, [], ◌∷◌, ◌≡◌, ◌⊎◌, refl,
  arith, Bytes, codes, ℤ, pos, length, ◌==◌,
}
use shellclaw.Core.Jobs.{JobRow}
use shellclaw.Core.Jobs.Calls.{IsStored}
use shellclaw.Tools.Cron.{Localtime}
use shellclaw.Tools.Cron.Offers.{Offer, offers_start, mark_offered}
use shellclaw.Tools.Cron.Delivery.{cron_poll, cron_ack_delivery, cron_send, cron_create_job}
use shellclaw.Tools.Cron.Delivery.Poll.{IsOffered, due_keys, cron_poll-IsOffered}
use shellclaw.Tools.Cron.Delivery.Ack.{IsAcknowledged, cron_ack_delivery-IsAcknowledged}
use shellclaw.Tools.Cron.Delivery.Tool.{ToolArgs, ToolHost, cron_tool_execute}

abbrev job : Bytes → Bytes → ℕ → JobRow
job id schedule next_run = record {
  id = id;
  schedule = schedule;
  message = codes "tidy up";
  channel = [];
  recipient = codes "42";
  next_run = pos next_run;
  enabled = true;
}

abbrev two_jobs : List JobRow
two_jobs = job (codes "a") (codes "interval:60") 10 ∷ job (codes "b") (codes "at:20") 20 ∷ []

two_jobs-IsStored : IsStored two_jobs
unfolding shellclaw.Core.Jobs.has_row shellclaw.Common.str_equal
two_jobs-IsStored = record {
  keys = (refl, (refl, tt));
  fit =
      ((omega arith, (omega arith, omega arith)), ((omega arith, (omega arith, omega arith)), tt));
}

abbrev offered_a : List Offer
offered_a = mark_offered offers_start (codes "a") 5000 (7, 0)

abbrev no_times : Localtime
no_times t = none

-- the first job was offered a second ago
second_job_first :
    (cron_poll two_jobs offered_a 30 5000 (8, 0) (8, 0) (8, 0)).message
    ≡ some (record { session_id = codes "cli:42"; user_id = codes "b"; text = codes "tidy up" })
unfolding cron_poll shellclaw.Tools.Cron.Delivery.pick_due_row
    shellclaw.Tools.Cron.Delivery.first_returnable shellclaw.Core.Jobs.job_list_due
    shellclaw.Core.Jobs.ordered shellclaw.Core.Jobs.selected shellclaw.Core.Jobs.insert_row
    shellclaw.Tools.Cron.Offers.offer_age_ms mark_offered shellclaw.Tools.Cron.Offers.mark_slot
    shellclaw.Common.str_equal shellclaw.Tools.Cron.Offers.offer_has_room
    shellclaw.Core.Jobs.get_by_id shellclaw.Core.Jobs.row_of shellclaw.Core.Jobs.fill_row
second_job_first = refl

waits_out :
    (cron_poll
      (job (codes "a") (codes "at:5") 5 ∷ [])
      offered_a
      30
      5000
      (8, 0)
      (9, 0)
      (12, 0)).slept_ms
    ≡ 3000
unfolding cron_poll shellclaw.Tools.Cron.Delivery.pick_due_row
    shellclaw.Tools.Cron.Delivery.first_returnable shellclaw.Core.Jobs.job_list_due
    shellclaw.Core.Jobs.ordered shellclaw.Core.Jobs.selected shellclaw.Core.Jobs.insert_row
    shellclaw.Tools.Cron.Offers.offer_age_ms mark_offered shellclaw.Tools.Cron.Offers.mark_slot
    shellclaw.Common.str_equal shellclaw.Core.Jobs.get_by_id shellclaw.Core.Jobs.row_of
    shellclaw.Core.Jobs.fill_row
waits_out = refl

ran_once :
    (cron_ack_delivery no_times two_jobs offers_start 30 (codes "b")).rows
    ≡ job (codes "a") (codes "interval:60") 10 ∷ []
unfolding cron_ack_delivery shellclaw.Core.Jobs.get_by_id shellclaw.Core.Jobs.row_of
    shellclaw.Common.str_equal shellclaw.Core.Jobs.fill_row shellclaw.Tools.Cron.is_one_shot
    shellclaw.Common.has_prefix shellclaw.Core.Jobs.job_delete shellclaw.Core.Jobs.remove_rows
ran_once = refl

runs_again : (cron_ack_delivery no_times two_jobs offers_start 30 (codes "a")).ok ≡ true
unfolding cron_ack_delivery shellclaw.Core.Jobs.get_by_id shellclaw.Core.Jobs.row_of
    shellclaw.Common.str_equal shellclaw.Core.Jobs.fill_row shellclaw.Tools.Cron.is_one_shot
    shellclaw.Common.has_prefix shellclaw.Core.Jobs.job_update_next_run
runs_again = refl

sent : cron_send ((codes "cli", 3) ∷ []) (λ ch. true) (codes "cli:42") ≡ some (3, codes "42")
unfolding cron_send shellclaw.Common.strchr shellclaw.Channels.Chunks.get_by_name
    shellclaw.Common.str_equal
sent = refl

created :
    (cron_create_job no_times [] 30
      (some (1, 171))
      (codes "interval:60")
      (codes "hi")
      none
      none
      []
      128).0
    ≡ some (codes "cron_30_01ab")
unfolding cron_create_job shellclaw.Tools.Cron.parse_next_run shellclaw.Common.has_prefix
    shellclaw.Tools.Cron.interval_next_run shellclaw.Common.strtol shellclaw.Common.read_digits
    shellclaw.Core.Jobs.job_create shellclaw.Common.decimal shellclaw.Common.decimal_fuel
    shellclaw.Gateway.Auth.hex_of shellclaw.Core.Jobs.has_row
created = refl

abbrev host : ToolHost
host = record { localtime = no_times; now = 30; random = none; print = λ rows. some (codes "[]") }

abbrev toggle_b : ToolArgs
toggle_b = record {
  operation = some (codes "toggle");
  schedule = none;
  message = none;
  id = some (codes "b");
  channel = none;
  recipient = none;
}

toggled_b : (cron_tool_execute host two_jobs (some toggle_b) 64).text ≡ codes "{\"ok\":true}"
unfolding cron_tool_execute shellclaw.Common.str_equal shellclaw.Core.Jobs.job_toggle
    shellclaw.Core.Jobs.has_row
toggled_b = refl

cron_poll-IsOffered_example :
    ((due_keys two_jobs 30 ≡ [])
      × (cron_poll two_jobs offered_a 30 5000 (8, 0) (8, 0) (8, 0)
          ≡ record { message = none; offers = offered_a; slept_ms = 0 }))
    ⊎ IsOffered two_jobs offered_a 30 5000
        (8, 0)
        (8, 0)
        (8, 0)
        (cron_poll two_jobs offered_a 30 5000 (8, 0) (8, 0) (8, 0))
cron_poll-IsOffered_example =
    cron_poll-IsOffered two_jobs offered_a 30 5000 (8, 0) (8, 0) (8, 0) two_jobs-IsStored

cron_ack_delivery-IsAcknowledged_example :
    IsAcknowledged two_jobs offers_start 30
      (codes "a")
      (cron_ack_delivery no_times two_jobs offers_start 30 (codes "a"))
cron_ack_delivery-IsAcknowledged_example =
    cron_ack_delivery-IsAcknowledged no_times two_jobs offers_start 30 (codes "a") two_jobs-IsStored
      (omega arith) runs_again
