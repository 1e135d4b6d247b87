-- ===== src/Tools/Cron/Offers.antt =====
-- src/tools/cron.c: the table of the jobs that were offered to the agent and are not acknowledged. A
-- time is that of the monotonic clock, in seconds and nanoseconds, and the later one is not before the
-- earlier. A timeout that is not positive is 0. The sixteen slots of `s_offers` are a list.
pub mod Hot
mod Tests
use shellclaw.Common.{
  ℕ, zero, suc, ◌+◌, ◌-◌, ◌*◌, ◌/◌, Bool, true, false, ◌&&◌, ◌||◌, not, Option, none, some, List,
  [], ◌∷◌, ltb, leb, ◌==◌, if◌then◌else◌, Bytes, is_empty, str_equal, set, take, replicate,
}

abbrev pub Instant : Type 0
Instant = ℕ × ℕ

pub record Offer : Type 0 where
  pub id : Bytes
  pub mono : Instant
  pub timeout_ms : ℕ

abbrev pub no_offer : Offer
no_offer = record { id = []; mono = (0, 0); timeout_ms = 0 }

abbrev pub offers_start : List Offer
offers_start = replicate 16 no_offer

-- The quotient of a negative difference of nanoseconds is rounded towards zero, as in C.
abbrev pub elapsed_ms : Instant → Instant → ℕ
elapsed_ms (sec, nsec) (now_sec, now_nsec) =
    (now_sec - sec) * 1000 + (now_nsec - nsec) / 1000000 - (nsec - now_nsec) / 1000000

unfoldable pub offer_age_ms : List Offer → Bytes → Instant → Option ℕ
offer_age_ms [] job_id now = none
offer_age_ms (o ∷ os) job_id now =
    let rest = offer_age_ms os job_id now in
    if is_empty o.id || not (str_equal o.id job_id) then rest else some (elapsed_ms o.mono now)

abbrev pub slot_reusable : Offer → Instant → Bool
slot_reusable o now =
    is_empty o.id || (not (o.timeout_ms == 0) && leb o.timeout_ms (elapsed_ms o.mono now))

unfoldable pub offer_has_room : List Offer → Instant → Bool
offer_has_room [] now = false
offer_has_room (o ∷ os) now = slot_reusable o now || offer_has_room os now

abbrev pub younger : ℕ → Option ℕ → Bool
younger timeout_ms none = false
younger timeout_ms (some age) = ltb age timeout_ms

abbrev pub offer_is_hot : List Offer → Bytes → ℕ → Instant → Bool
offer_is_hot os job_id timeout_ms now =
    if timeout_ms == 0 then false else younger timeout_ms (offer_age_ms os job_id now)

abbrev pub is_tracked : Option ℕ → Bool
is_tracked none = false
is_tracked (some age) = true

abbrev pub due_is_returnable : List Offer → Bytes → ℕ → Instant → Bool
due_is_returnable os job_id timeout_ms now =
    not (offer_is_hot os job_id timeout_ms now)
    && (is_tracked (offer_age_ms os job_id now) || offer_has_room os now)

-- the slot seen before, or this one if none was and it can be taken
abbrev pub first_reusable : Option ℕ → ℕ → Offer → Instant → Option ℕ
first_reusable none i o now = if slot_reusable o now then some i else none
first_reusable (some s) i o now = some s

-- the slot that the loop of `cron_mark_offered` ends with: that of the job, or the first reusable one
unfoldable pub mark_slot : ℕ → Option ℕ → List Offer → Bytes → Instant → Option ℕ
mark_slot i free [] job_id now = free
mark_slot i free (o ∷ os) job_id now =
    let next = mark_slot (i + 1) (first_reusable free i o now) os job_id now in
    if str_equal o.id job_id then some i else next

abbrev pub mark_at : List Offer → Bytes → ℕ → Instant → Option ℕ → List Offer
mark_at os job_id timeout_ms now none = os
mark_at os job_id timeout_ms now (some s) =
    set os s (record { id = take 127 job_id; mono = now; timeout_ms = timeout_ms })

-- The slot of the job has its id already, so writing it again changes nothing.
unfoldable pub mark_offered : List Offer → Bytes → ℕ → Instant → List Offer
mark_offered os job_id timeout_ms now =
    if is_empty job_id
    then os
    else mark_at os job_id timeout_ms now (mark_slot 0 none os job_id now)

unfoldable pub release_first : List Offer → Bytes → List Offer
release_first [] job_id = []
release_first (o ∷ os) job_id =
    let rest = release_first os job_id in if str_equal o.id job_id then no_offer ∷ os else o ∷ rest

abbrev pub offer_release : List Offer → Bytes → List Offer
offer_release os job_id = if is_empty job_id then os else release_first os job_id
