-- ===== src/Tools/Cron/Delivery/Poll.antt =====
-- src/tools/cron.c: the job that a poll offers.
use shellclaw.Common.{
  ℕ, ◌-◌, true, false, Option, none, some, List, [], ◌∷◌, ◌++◌, if◌then◌else◌, ◌≡◌, ◌⊎◌, inl, inr,
  refl, sym, ◌∙◌, ap, arith, leb, ◌==◌, take-all, Bool-cases, Bytes,
}
use shellclaw.Core.Jobs.{JobRow, DueKey, row_of, is_due, key_of, job_list_due, get_by_id}
use shellclaw.Core.Jobs.Calls.{IsStored}
use shellclaw.Core.Jobs.Selected.{
  Every, job_list_due-Every, IsRowOf, stored-IsRowOf, get_by_id-stored, read_of,
}
use shellclaw.Tools.Cron.Offers.{Offer, Instant, offer_age_ms, due_is_returnable, mark_offered}
use shellclaw.Tools.Cron.Delivery.{
  Polled, cron_poll, pick_due_row, first_returnable, wait_ms, incoming_of, loaded, due_scan_max,
}

-- the first 64 jobs that are due
abbrev pub due_keys : List JobRow → ℕ → List DueKey
due_keys rows now = job_list_due rows now due_scan_max

-- the key of the job stands in the list, behind none but those that are passed over
pub record IsNext (Passed : DueKey → Type 0) (id : Bytes) (keys : List DueKey) : Type 0 where
  pub before : List DueKey
  pub key : DueKey
  pub after : List DueKey
  pub split : keys ≡ before ++ key ∷ after
  pub same : key.id ≡ id
  pub passed : Every Passed before

-- The whole window of a job that has no offer, and what is left of it at the age of one that has.
pub record Slept (timeout_ms : ℕ) (first later : Option ℕ) (slept_ms : ℕ) : Type 0 where
  pub untracked : first ≡ none → slept_ms ≡ timeout_ms
  pub tracked : (a age : ℕ) → first ≡ some a → later ≡ some age → slept_ms ≡ timeout_ms - age

pub record IsOffered (rows : List JobRow) (offers : List Offer) (now timeout_ms : ℕ)
    (mono wait mark : Instant) (p : Polled) : Type 0 where
  -- a job of the table that is due
  pub job : JobRow
  pub stored : row_of rows job.id ≡ some job
  pub due : is_due now job ≡ true
  pub message : p.message ≡ some (incoming_of (read_of job))
  pub marked : p.offers ≡ mark_offered offers job.id timeout_ms mark
  -- at once as the first that may be offered, or as the first of all, after its window, if no job may
  pub fair :
      ((due_is_returnable offers job.id timeout_ms mono ≡ true)
        × IsNext
            (λ k. due_is_returnable offers k.id timeout_ms mono ≡ false)
            job.id
            (due_keys rows now)
        × (p.slept_ms ≡ 0))
      ⊎ (Every (λ k. due_is_returnable offers k.id timeout_ms mono ≡ false) (due_keys rows now)
          × IsNext (λ k. true ≡ false) job.id (due_keys rows now)
          × Slept timeout_ms
              (offer_age_ms offers job.id mono)
              (offer_age_ms offers job.id wait)
              p.slept_ms)

-- the row behind a key
abbrev Behind : List JobRow → ℕ → DueKey → Type 0
Behind rows now k = (r : JobRow) × (IsRowOf rows r × (is_due now r ≡ true)) × (k ≡ key_of r)

Behind-id : (rows : List JobRow) (now : ℕ) (k : DueKey) (b : Behind rows now k) → k.id ≡ b.0.id
Behind-id rows now k (r, p, e) =
    ap (λ (x : DueKey). x.id) e ∙ take-all 127 r.id (omega (arith, p.0.1.0))

Behind-loaded :
    (rows : List JobRow) (now : ℕ) (k : DueKey) (b : Behind rows now k)
    → loaded (get_by_id rows k.id) ≡ some (read_of b.0)
Behind-loaded rows now k b =
    rw (Behind-id rows now k b) (rw (get_by_id-stored rows b.0.id b.0 b.1.0.0 b.1.0.1) refl)

-- what the search for a job that may be offered comes to
abbrev Searched : List JobRow → List Offer → ℕ → ℕ → Instant → List DueKey → Type 0
Searched rows offers now timeout_ms mono keys =
    (Every (λ k. due_is_returnable offers k.id timeout_ms mono ≡ false) keys
      × (first_returnable rows offers timeout_ms mono keys ≡ none))
    ⊎ ((r : JobRow) × (row_of rows r.id ≡ some r)
        × (is_due now r ≡ true)
        × (due_is_returnable offers r.id timeout_ms mono ≡ true)
        × IsNext (λ k. due_is_returnable offers k.id timeout_ms mono ≡ false) r.id keys
        × (first_returnable rows offers timeout_ms mono keys ≡ some (read_of r)))

first_returnable-Searched :
    (rows : List JobRow) (offers : List Offer) (now timeout_ms : ℕ) (mono : Instant)
    (keys : List DueKey)
    → Every (Behind rows now) keys
    → Searched rows offers now timeout_ms mono keys
unfolding first_returnable
first_returnable-Searched rows offers now timeout_ms mono [] h = inl (tt, refl)
first_returnable-Searched rows offers now timeout_ms mono (k ∷ keys) (b, h) =
    let id = Behind-id rows now k b in
    let read = Behind-loaded rows now k b in
    elim (Bool-cases (due_is_returnable offers k.id timeout_ms mono)) [
      | inl may ↦ inr (
        b.0,
        b.1.0.0,
        b.1.1,
        sym (ap (λ (x : Bytes). due_is_returnable offers x timeout_ms mono) id) ∙ may,
        record { before = []; key = k; after = keys; split = refl; same = id; passed = tt },
        rw (may, read) refl,
      )
      | inr held ↦ elim (first_returnable-Searched rows offers now timeout_ms mono keys h) [
        | inl (all, e) ↦ inl ((held, all), rw held e)
        | inr (r, s, d, may, next, e) ↦ inr (
          r,
          s,
          d,
          may,
          record {
            before = k ∷ next.before;
            key = next.key;
            after = next.after;
            split = ap (λ (ks : List DueKey). k ∷ ks) next.split;
            same = next.same;
            passed = (held, next.passed);
          },
          rw held e,
        )
      ]
    ]

wait_ms-Slept :
    (timeout_ms : ℕ) (first later : Option ℕ)
    → Slept timeout_ms first later (wait_ms timeout_ms first later)
wait_ms-Slept timeout_ms none later = record { untracked = λ e. refl; tracked = λ a age e f. cc }
wait_ms-Slept timeout_ms (some a) later = record {
  untracked = λ e. cc;
  tracked = λ b age e f. rw f (left_of age);
}
  where
    left_of :
        (age : ℕ)
        → (if timeout_ms == 0 then 0 else if leb timeout_ms age then 0 else timeout_ms - age)
          ≡ timeout_ms - age
    left_of age = ground arith

-- A poll offers a job whenever one is due: one of the table that is due, with its message, whose offer it
-- notes. Among the first 64 that are due it is the first that may be offered, at once; if there is none,
-- it is the first of all, after a sleep of the whole window if it has no offer, and else of what is left
-- of the window.
pub cron_poll-IsOffered :
    (rows : List JobRow) (offers : List Offer) (now timeout_ms : ℕ) (mono wait mark : Instant)
    → IsStored rows
    → ((due_keys rows now ≡ [])
        × (cron_poll rows offers now timeout_ms mono wait mark
            ≡ record { message = none; offers = offers; slept_ms = 0 }))
      ⊎ IsOffered rows offers now timeout_ms mono wait mark
          (cron_poll rows offers now timeout_ms mono wait mark)
unfolding cron_poll pick_due_row first_returnable
cron_poll-IsOffered rows offers now timeout_ms mono wait mark s =
    by_keys (due_keys rows now) refl
      (job_list_due-Every (IsRowOf rows) rows now due_scan_max (stored-IsRowOf rows s.keys s.fit))
  where
    by_keys :
        (keys : List DueKey)
        → due_keys rows now ≡ keys
        → Every (Behind rows now) (due_keys rows now)
        → ((due_keys rows now ≡ [])
            × (cron_poll rows offers now timeout_ms mono wait mark
                ≡ record { message = none; offers = offers; slept_ms = 0 }))
          ⊎ IsOffered rows offers now timeout_ms mono wait mark
              (cron_poll rows offers now timeout_ms mono wait mark)
    by_keys [] e h = inl (e, rw e refl)
    by_keys (k ∷ keys) e h =
        inr
          (elim (first_returnable-Searched rows offers now timeout_ms mono (due_keys rows now) h) [
            | inr (r, st, d, may, next, f) ↦ rw f (record {
              job = r;
              stored = st;
              due = d;
              message = refl;
              marked = refl;
              fair = inl (may, next, refl);
            })
            | inl (all, f) ↦
                let b = (rw e at h).0 in
                rw (f, e, Behind-loaded rows now k b)
                  (record {
                    job = b.0;
                    stored = b.1.0.0;
                    due = b.1.1;
                    message = refl;
                    marked = refl;
                    fair = inr (
                      all,
                      record {
                        before = [];
                        key = k;
                        after = keys;
                        split = e;
                        same = Behind-id rows now k b;
                        passed = tt;
                      },
                      wait_ms-Slept timeout_ms (offer_age_ms offers b.0.id mono)
                          (offer_age_ms offers b.0.id wait),
                    );
                  })
          ])
