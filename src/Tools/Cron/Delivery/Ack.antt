-- ===== src/Tools/Cron/Delivery/Ack.antt =====
-- src/tools/cron.c: a job that is acknowledged.
use shellclaw.Common.{
  ℕ, ◌+◌, ◌-◌, ◌<◌, ◌≤◌, true, false, ◌&&◌, none, some, leb, pos, List, [], ◌∷◌, ◌≡◌, inl, inr,
  refl, arith, if◌then◌else◌, Bytes, codes, str_equal, has_prefix, is_empty, take, take-all, drop,
  length, map, Bool-cases, Option-cases, ℤ,
}
use shellclaw.Core.Jobs.{
  JobRow, row_of, has_row, has_come, is_due, key_of, job_list_due, job_delete, remove_rows,
  job_update_next_run, on_row, moved_to, get_by_id,
}
use shellclaw.Core.Jobs.Calls.{IsStored, AllFit}
use shellclaw.Core.Jobs.Selected.{
  Every, Every-weaken, job_list_due-Every, get_by_id-stored, read_of, row_of-found,
}
use shellclaw.Tools.Cron.{
  Localtime, parse_next_run, is_one_shot, interval_next_run, next_from_expr, llong_max,
}
use shellclaw.Tools.Cron.Next.{interval_next_run-later, next_from_expr-IsFirstMatch}
use shellclaw.Tools.Cron.Offers.{Offer, release_first}
use shellclaw.Tools.Cron.Delivery.{Acked, cron_ack_delivery, ack_row, next_or_snooze, snooze_secs}
use shellclaw.Tools.Cron.Delivery.Freed.{
  release_first-others, release_first-slots, row_of-moved, row_of-moved_to, row_of-removed,
  row_of-removed_gone, slots_of,
}

-- a time behind the given one
pub record IsLater (now : ℕ) (next : ℤ) : Type 0 where
  pub seconds : ℕ
  pub is_time : next ≡ pos seconds
  pub behind : now < seconds

IsLater-to_come : (now : ℕ) (next : ℤ) → IsLater now next → has_come next now ≡ false
IsLater-to_come now next l = rw l.is_time (not_yet l.seconds l.behind)
  where
    not_yet : (n : ℕ) → now < n → leb n now ≡ false
    not_yet n b = ground arith

-- the next time of a job that stays is still to come
next_run-IsLater :
    (lt : Localtime) (schedule : Bytes) (now : ℕ)
    → now ≤ llong_max
    → is_one_shot schedule ≡ false
    → IsLater now (next_or_snooze now (parse_next_run lt schedule now))
unfolding parse_next_run is_one_shot
next_run-IsLater lt schedule now l once =
    elim (Bool-cases (has_prefix schedule (codes "interval:"))) [
      | inl t ↦ elim (Option-cases (interval_next_run (drop 9 schedule) now)) [
        | inl e ↦ rw (t, e) snoozed
        | inr (z, e) ↦
            let n = interval_next_run-later (drop 9 schedule) now z l e in
            rw (t, e) (record { seconds = n.0; is_time = n.1; behind = omega (arith, n.2) })
      ]
      | inr f ↦
          let part = if has_prefix schedule (codes "cron:") then drop 5 schedule else schedule in
          elim (Option-cases (next_from_expr lt part now)) [
            | inl e ↦ rw (f, once, e) snoozed
            | inr (n, e) ↦
                let m = next_from_expr-IsFirstMatch lt part now n e in
                rw (f, once, e)
                  (record { seconds = n; is_time = refl; behind = omega (arith, m.2) })
          ]
    ]
  where
    snoozed : IsLater now (pos (now + snooze_secs))
    snoozed = record { seconds = now + snooze_secs; is_time = refl; behind = omega arith }

-- no row of the job is due
abbrev NotDue : Bytes → ℕ → JobRow → Type 0
NotDue job_id now r = (str_equal r.id job_id && is_due now r ≡ false) × (length r.id < 128)

moved-NotDue :
    (job_id : Bytes) (now : ℕ) (next : ℤ) (rows : List JobRow)
    → has_come next now ≡ false
    → AllFit rows
    → Every (NotDue job_id now) (map (on_row (moved_to next) job_id) rows)
moved-NotDue job_id now next [] h a = tt
moved-NotDue job_id now next (r ∷ rows) h a =
    let rest = moved-NotDue job_id now next rows h a.1 in
    elim (Bool-cases (str_equal r.id job_id)) [
      | inl t ↦ (rw (t, t, h) (refl, a.0.0), rest)
      | inr f ↦ (rw (f, f) (refl, a.0.0), rest)
    ]

removed-NotDue :
    (job_id : Bytes) (now : ℕ) (rows : List JobRow)
    → AllFit rows
    → Every (NotDue job_id now) (remove_rows rows job_id)
unfolding remove_rows
removed-NotDue job_id now [] a = tt
removed-NotDue job_id now (r ∷ rows) a =
    let rest = removed-NotDue job_id now rows a.1 in
    elim (Bool-cases (str_equal r.id job_id)) [
      | inl t ↦ rw t rest
      | inr f ↦ rw f ((rw f refl, a.0.0), rest)
    ]

pub record IsAcknowledged (rows : List JobRow) (offers : List Offer) (now : ℕ) (job_id : Bytes)
    (a : Acked) : Type 0 where
  pub job : JobRow
  pub stored : row_of rows job_id ≡ some job
  -- it is gone if it was to run once, and else only its time changes, to a later one
  pub gone : has_prefix job.schedule (codes "at:") ≡ true → row_of a.rows job_id ≡ none
  pub stays :
      has_prefix job.schedule (codes "at:") ≡ false
      → (next : ℤ) × IsLater now next
        × (row_of a.rows job_id ≡ some (record job { next_run = next }))
  -- none of the jobs that are due now is this one
  pub not_due :
      (max_count : ℕ)
      → Every (λ k. str_equal k.id job_id ≡ false) (job_list_due a.rows now max_count)
  -- the other jobs stay
  pub others : (id : Bytes) → str_equal job_id id ≡ false → row_of a.rows id ≡ row_of rows id
  -- a slot of the job is free again, and no other is
  pub released : slots_of job_id a.offers ≡ slots_of job_id offers - 1
  pub kept :
      (id : Bytes)
      → is_empty id ≡ false
      → str_equal job_id id ≡ false
      → slots_of id a.offers ≡ slots_of id offers

none_due :
    (job_id : Bytes) (rows : List JobRow) (now max_count : ℕ)
    → Every (NotDue job_id now) rows
    → Every (λ k. str_equal k.id job_id ≡ false) (job_list_due rows now max_count)
none_due job_id rows now max_count h =
    Every-weaken
      (λ k. (r : JobRow) × (NotDue job_id now r × (is_due now r ≡ true)) × (k ≡ key_of r))
      (λ k. str_equal k.id job_id ≡ false) (job_list_due rows now max_count)
      (λ k (r, p, e).
        let other : str_equal r.id job_id ≡ false = elim (Bool-cases (str_equal r.id job_id)) [
          | inr f ↦ f
          | inl t ↦ cc (rw (t, p.1) at p.0.0)
        ] in
        let whole : take 127 r.id ≡ r.id = take-all 127 r.id (omega (arith, p.0.1)) in
        rw e (rw whole other))
      (job_list_due-Every (NotDue job_id now) rows now max_count h)

module _ (lt : Localtime) (rows : List JobRow) (offers : List Offer) (now : ℕ) (job_id : Bytes)
    (r : JobRow) (named : is_empty job_id ≡ false) (l : now ≤ llong_max) (a : AllFit rows)
    (e : row_of rows job_id ≡ some r) (same : r.id ≡ job_id) where
  once-IsAcknowledged :
      has_prefix r.schedule (codes "at:") ≡ true
      → IsAcknowledged rows offers now job_id (record {
        ok = true;
        rows = remove_rows rows job_id;
        offers = release_first offers job_id;
      })
  once-IsAcknowledged once = record {
    job = r;
    stored = e;
    gone = λ _. row_of-removed_gone job_id rows;
    stays = λ f. cc (once, f);
    not_due = λ max_count.
        none_due job_id (remove_rows rows job_id) now max_count (removed-NotDue job_id now rows a);
    others = λ id d. row_of-removed job_id id rows d;
    released = release_first-slots job_id offers named;
    kept = λ id h d. release_first-others job_id id offers h d;
  }

  moved-IsAcknowledged :
      (next : ℤ)
      → has_prefix r.schedule (codes "at:") ≡ false
      → IsLater now next
      → IsAcknowledged rows offers now job_id (record {
        ok = true;
        rows = map (on_row (moved_to next) job_id) rows;
        offers = release_first offers job_id;
      })
  moved-IsAcknowledged next often later = record {
    job = r;
    stored = e;
    gone = λ t. cc (often, t);
    stays = λ _. (next, later, row_of-moved_to next job_id rows r e);
    not_due = λ max_count.
        none_due job_id (map (on_row (moved_to next) job_id) rows) now max_count
          (moved-NotDue job_id now next rows (IsLater-to_come now next later) a);
    others = λ id d. row_of-moved (moved_to next) job_id id rows (λ r. refl) d;
    released = release_first-slots job_id offers named;
    kept = λ id h d. release_first-others job_id id offers h d;
  }

  ack_row-IsAcknowledged :
      (ack_row lt rows offers now job_id (some (read_of r))).ok ≡ true
      → IsAcknowledged rows offers now job_id (ack_row lt rows offers now job_id (some (read_of r)))
  unfolding job_delete job_update_next_run is_one_shot
  ack_row-IsAcknowledged ok = elim (Bool-cases (has_prefix r.schedule (codes "at:"))) [
    | inl once ↦
        let there : has_row rows job_id ≡ true = rw (once, same) at ok in
        rw (once, same, there, named) (once-IsAcknowledged once)
    | inr often ↦
        rw (often, named)
          (moved-IsAcknowledged (next_or_snooze now (parse_next_run lt r.schedule now)) often
            (next_run-IsLater lt r.schedule now l (unfold is_one_shot in often)))
  ]

-- After a job is acknowledged with success it is not due at that time: it is gone if it was to run once,
-- and else only the time of its row changes, to a later one. The other jobs are as they were. Of the
-- slots with an offer of the job one, if there is any, is free again, and none of another job.
pub cron_ack_delivery-IsAcknowledged :
    (lt : Localtime) (rows : List JobRow) (offers : List Offer) (now : ℕ) (job_id : Bytes)
    → IsStored rows
    → now ≤ llong_max
    → (cron_ack_delivery lt rows offers now job_id).ok ≡ true
    → IsAcknowledged rows offers now job_id (cron_ack_delivery lt rows offers now job_id)
unfolding cron_ack_delivery get_by_id
cron_ack_delivery-IsAcknowledged lt rows offers now job_id s l ok =
    elim (Bool-cases (is_empty job_id)) [
      | inl empty ↦ cc (rw empty at ok)
      | inr named ↦ elim (Option-cases (row_of rows job_id)) [
        | inl missing ↦ cc (rw (named, missing) at ok)
        | inr (r, e) ↦
            let found = row_of-found rows job_id r s.fit e in
            let read = get_by_id-stored rows job_id r e found.0 in
            rw (named, read)
              (ack_row-IsAcknowledged lt rows offers now job_id r named l s.fit e found.1
                (rw (named, read) at ok))
      ]
    ]
