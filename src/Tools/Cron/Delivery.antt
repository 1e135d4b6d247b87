-- ===== src/Tools/Cron/Delivery.antt =====
-- src/tools/cron.c: the delivery of the jobs that are due, the channel that does it, and the tool that
-- manages the jobs. The table of jobs is that of core/memory.c. A reading of the monotonic clock is an
-- argument, and a sleep is its milliseconds; memory is taken to suffice. cJSON is a parameter: the
-- arguments of the tool are its members that are strings. `true` is 0, `false` is -1.
pub mod Poll
mod Freed
pub mod Ack
pub mod Tool
mod Tests
use shellclaw.Common.{
  ℕ, ◌+◌, ◌-◌, ◌*◌, Bool, true, false, not, Option, none, some, List, [], ◌∷◌, ◌++◌, ◌==◌, leb,
  if◌then◌else◌, Bytes, codes, str_equal, is_empty, length, take, drop, strchr, decimal, ℤ, pos,
}
use shellclaw.Core.Jobs.{
  JobRow, DueKey, Found, row, missing, unread, get_by_id, job_list_due, job_list, job_create,
  job_delete, job_toggle, job_update_next_run,
}
use shellclaw.Tools.Cron.{Localtime, parse_next_run, is_one_shot}
use shellclaw.Tools.Cron.Offers.{
  Offer, Instant, offer_age_ms, due_is_returnable, mark_offered, offer_release, offers_start,
}
use shellclaw.Channels.Chunks.{Registered, get_by_name}
use shellclaw.Gateway.Auth.{hex_of}

abbrev pub due_scan_max : ℕ
due_scan_max = 64

abbrev pub loaded : Found → Option JobRow
loaded (row r) = some r
loaded missing = none
loaded unread = none

abbrev pub row_or : Option JobRow → Option JobRow → Option JobRow
row_or none next = next
row_or (some r) next = some r

-- the first job that may be offered now and that loads
unfoldable pub first_returnable :
    List JobRow → List Offer → ℕ → Instant → List DueKey → Option JobRow
first_returnable rows offers timeout_ms mono [] = none
first_returnable rows offers timeout_ms mono (k ∷ keys) =
    row_or
      (if due_is_returnable offers k.id timeout_ms mono then loaded (get_by_id rows k.id) else none)
      (first_returnable rows offers timeout_ms mono keys)

-- the row picked, and whether it has to wait for its window first
pub data Picked : Type 0 where
  nothing : Picked
  ready waits : JobRow → Picked

abbrev pub waiting : Option JobRow → Picked
waiting none = nothing
waiting (some r) = waits r

abbrev pub first_key : List JobRow → List DueKey → Picked
first_key rows [] = nothing
first_key rows (k ∷ keys) = waiting (loaded (get_by_id rows k.id))

abbrev pub ready_or : Option JobRow → Picked → Picked
ready_or none next = next
ready_or (some r) next = ready r

unfoldable pub pick_due_row : List JobRow → List Offer → ℕ → ℕ → Instant → Picked
pick_due_row rows offers now timeout_ms mono =
    let keys = job_list_due rows now due_scan_max in
    ready_or (first_returnable rows offers timeout_ms mono keys) (first_key rows keys)

-- what is left of the window at its age, which is looked up again
abbrev pub remaining : ℕ → Option ℕ → ℕ
remaining timeout_ms none = 0
remaining timeout_ms (some age) = if leb timeout_ms age then 0 else timeout_ms - age

-- cron_wait_remaining and cron_sleep_ms: the sleep, by the age at the pick and the age after it
abbrev pub wait_ms : ℕ → Option ℕ → Option ℕ → ℕ
wait_ms timeout_ms none later = timeout_ms
wait_ms timeout_ms (some age) later = if timeout_ms == 0 then 0 else remaining timeout_ms later

pub record Incoming : Type 0 where
  pub session_id : Bytes
  pub user_id : Bytes
  pub text : Bytes

pub record Polled : Type 0 where
  -- 1 with the message, or 0
  pub message : Option Incoming
  pub offers : List Offer
  pub slept_ms : ℕ

abbrev pub or_default : Bytes → Bytes → Bytes
or_default d t = if is_empty t then d else t

abbrev pub incoming_of : JobRow → Incoming
incoming_of r = record {
  session_id =
      take 255
        (or_default (codes "cli") r.channel ++ b':' ∷ or_default (codes "default") r.recipient);
  user_id = r.id;
  text = r.message;
}

abbrev pub offered : List Offer → ℕ → Instant → ℕ → JobRow → Polled
offered offers timeout_ms mark slept_ms r = record {
  message = some (incoming_of r);
  offers = mark_offered offers r.id timeout_ms mark;
  slept_ms = slept_ms;
}

-- on what was picked at `mono`; `wait` and `mark` are the readings of the clock after it
abbrev pub poll_picked : List Offer → ℕ → Instant → Instant → Instant → Picked → Polled
poll_picked offers timeout_ms mono wait mark nothing = record {
  message = none;
  offers = offers;
  slept_ms = 0;
}
poll_picked offers timeout_ms mono wait mark (ready r) = offered offers timeout_ms mark 0 r
poll_picked offers timeout_ms mono wait mark (waits r) =
    offered offers timeout_ms mark
      (wait_ms timeout_ms (offer_age_ms offers r.id mono) (offer_age_ms offers r.id wait)) r

unfoldable pub cron_poll : List JobRow → List Offer → ℕ → ℕ → Instant → Instant → Instant → Polled
cron_poll rows offers now timeout_ms mono wait mark =
    poll_picked offers timeout_ms mono wait mark (pick_due_row rows offers now timeout_ms mono)

pub record Acked : Type 0 where
  pub ok : Bool
  pub rows : List JobRow
  pub offers : List Offer

-- the slot is freed if the statement succeeds
abbrev pub release_if : List Offer → Bytes → Bool × List JobRow → Acked
release_if offers job_id (ok, rows) = record {
  ok = ok;
  rows = rows;
  offers = if ok then offer_release offers job_id else offers;
}

abbrev pub snooze_secs : ℕ
snooze_secs = 365 * 24 * 3600

abbrev pub next_or_snooze : ℕ → Option ℤ → ℤ
next_or_snooze now none = pos (now + snooze_secs)
next_or_snooze now (some next) = next

abbrev pub ack_row : Localtime → List JobRow → List Offer → ℕ → Bytes → Option JobRow → Acked
ack_row lt rows offers now job_id none = record { ok = false; rows = rows; offers = offers }
ack_row lt rows offers now job_id (some r) = release_if offers job_id (
    if is_one_shot r.schedule
    then job_delete rows r.id
    else job_update_next_run rows job_id (next_or_snooze now (parse_next_run lt r.schedule now)))

unfoldable pub cron_ack_delivery : Localtime → List JobRow → List Offer → ℕ → Bytes → Acked
cron_ack_delivery lt rows offers now job_id =
    if is_empty job_id
    then record { ok = false; rows = rows; offers = offers }
    else ack_row lt rows offers now job_id (loaded (get_by_id rows job_id))

abbrev pub sends_by : (ℕ → Bool) → Bytes → Option ℕ → Option (ℕ × Bytes)
sends_by has_send to none = none
sends_by has_send to (some ch) = if has_send ch then some (ch, to) else none

abbrev pub send_after : Registered → (ℕ → Bool) → Bytes → Option Bytes → Option (ℕ × Bytes)
send_after channels has_send recipient none = none
send_after channels has_send recipient (some colon) =
    let n = length recipient - length colon in
    if leb 64 n
    then none
    else sends_by has_send (drop 1 colon) (get_by_name channels (take n recipient))

-- the channel whose `send` is called, with the recipient that it gets, or -1
unfoldable pub cron_send : Registered → (ℕ → Bool) → Bytes → Option (ℕ × Bytes)
cron_send channels has_send recipient =
    send_after channels has_send recipient (strchr recipient b':')

abbrev pub cron_cleanup : List Offer → List Offer
cron_cleanup offers = offers_start

abbrev pub given_or : Bytes → Option Bytes → Bytes
given_or d none = d
given_or d (some t) = t

-- the id that is given, or one of the time and two bytes of the random device
abbrev pub job_id_of : Bytes → ℕ → ℕ → Option (ℕ × ℕ) → Option Bytes
job_id_of (c ∷ id) id_size now rnd = some (c ∷ id)
job_id_of [] id_size now none = none
job_id_of [] id_size now (some (r, s)) =
    some (take (id_size - 1) (codes "cron_" ++ (decimal now ++ b'_' ∷ hex_of (r ∷ s ∷ []))))

abbrev pub created_at :
    List JobRow
    → Bytes
    → Bytes
    → Bytes
    → Option Bytes
    → Option Bytes
    → Option ℤ
    → Bool × List JobRow
created_at rows id schedule message channel recipient none = (false, rows)
created_at rows id schedule message channel recipient (some next) =
    job_create rows id schedule message (some (given_or (codes "cli") channel))
      (some (given_or (codes "default") recipient)) next true

abbrev pub create_with :
    Localtime
    → List JobRow
    → ℕ
    → Bytes
    → Bytes
    → Option Bytes
    → Option Bytes
    → Option Bytes
    → Option Bytes × List JobRow
create_with lt rows now schedule message channel recipient none = (none, rows)
create_with lt rows now schedule message channel recipient (some id) =
    let made =
      created_at rows id schedule message channel recipient (parse_next_run lt schedule now) in
    (if made.0 then some id else none, made.1)

-- the id of the job created, or `none` for -1
unfoldable pub cron_create_job :
    Localtime
    → List JobRow
    → ℕ
    → Option (ℕ × ℕ)
    → Bytes
    → Bytes
    → Option Bytes
    → Option Bytes
    → Bytes
    → ℕ
    → Option Bytes × List JobRow
cron_create_job lt rows now rnd schedule message channel recipient id id_size =
    create_with lt rows now schedule message channel recipient (job_id_of id id_size now rnd)
