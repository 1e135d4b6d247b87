-- ===== src/Tools/Cron/Delivery/Freed.antt =====
-- src/tools/cron.c: the other rows and the slots of the offers, when a job is moved or removed.
use mathlib.Core.Option.{some-injective}
use shellclaw.Common.{
  ℕ, ◌+◌, ◌-◌, false, none, some, ap, List, [], ◌∷◌, ◌≡◌, inl, inr, refl, arith, if◌then◌else◌,
  Bytes, str_equal, str_equal_iff, is_empty, map, Bool-cases, ℤ,
}
use shellclaw.Core.Jobs.{JobRow, row_of, remove_rows, on_row, moved_to}
use shellclaw.Tools.Cron.Offers.{Offer, release_first}

pub row_of-moved :
    (f : JobRow → JobRow) (job_id id : Bytes) (rows : List JobRow)
    → ((r : JobRow) → (f r).id ≡ r.id)
    → str_equal job_id id ≡ false
    → row_of (map (on_row f job_id) rows) id ≡ row_of rows id
unfolding row_of
row_of-moved f job_id id [] keeps d = refl
row_of-moved f job_id id (r ∷ rows) keeps d =
    let rest = row_of-moved f job_id id rows keeps d in
    elim (Bool-cases (str_equal r.id job_id)) [
      | inl t ↦
          let same : r.id ≡ job_id = (str_equal_iff r.id job_id).0 t in
          rw (t, keeps r, same, d) rest
      | inr n ↦ rw (n, rest) refl
    ]

pub row_of-removed :
    (job_id id : Bytes) (rows : List JobRow)
    → str_equal job_id id ≡ false
    → row_of (remove_rows rows job_id) id ≡ row_of rows id
unfolding row_of remove_rows
row_of-removed job_id id [] d = refl
row_of-removed job_id id (r ∷ rows) d =
    let rest = row_of-removed job_id id rows d in
    elim (Bool-cases (str_equal r.id job_id)) [
      | inl t ↦ let same : r.id ≡ job_id = (str_equal_iff r.id job_id).0 t in rw (t, same, d) rest
      | inr n ↦ rw (n, rest) refl
    ]

pub row_of-removed_gone :
    (job_id : Bytes) (rows : List JobRow) → row_of (remove_rows rows job_id) job_id ≡ none
unfolding row_of remove_rows
row_of-removed_gone job_id [] = refl
row_of-removed_gone job_id (r ∷ rows) =
    let rest = row_of-removed_gone job_id rows in
    elim (Bool-cases (str_equal r.id job_id)) [ inl t ↦ rw t rest | inr n ↦ rw (n, n) rest ]

pub row_of-moved_to :
    (next : ℤ) (job_id : Bytes) (rows : List JobRow) (r : JobRow)
    → row_of rows job_id ≡ some r
    → row_of (map (on_row (moved_to next) job_id) rows) job_id ≡ some (record r { next_run = next })
unfolding row_of
row_of-moved_to next job_id [] r h = cc
row_of-moved_to next job_id (s ∷ rows) r h = elim (Bool-cases (str_equal s.id job_id)) [
  | inl t ↦
      let same = some-injective s r (rw t at h) in
      rw (t, t) (ap (λ (x : JobRow). some (moved_to next x)) same)
  | inr f ↦ rw (f, f) (row_of-moved_to next job_id rows r (rw f at h))
]

-- the slots that have an id
abbrev pub slots_of : Bytes → List Offer → ℕ
slots_of id [] = 0
slots_of id (o ∷ os) = (if str_equal o.id id then 1 else 0) + slots_of id os

named_slot : (id : Bytes) → is_empty id ≡ false → str_equal [] id ≡ false
unfolding str_equal
named_slot [] e = cc
named_slot (c ∷ cs) e = refl

pub release_first-slots :
    (job_id : Bytes) (os : List Offer)
    → is_empty job_id ≡ false
    → slots_of job_id (release_first os job_id) ≡ slots_of job_id os - 1
unfolding release_first
release_first-slots job_id [] h = refl
release_first-slots job_id (o ∷ os) h =
    let rest = release_first-slots job_id os h in
    elim (Bool-cases (str_equal o.id job_id)) [
      | inl t ↦ rw (t, named_slot job_id h) (omega arith)
      | inr f ↦ rw (f, f) (omega (arith, rest))
    ]

pub release_first-others :
    (job_id id : Bytes) (os : List Offer)
    → is_empty id ≡ false
    → str_equal job_id id ≡ false
    → slots_of id (release_first os job_id) ≡ slots_of id os
unfolding release_first
release_first-others job_id id [] h d = refl
release_first-others job_id id (o ∷ os) h d =
    let rest = release_first-others job_id id os h d in
    elim (Bool-cases (str_equal o.id job_id)) [
      | inl t ↦
          let same : o.id ≡ job_id = (str_equal_iff o.id job_id).0 t in
          rw (t, same, d, named_slot id h) refl
      | inr f ↦ rw (f, rest) refl
    ]
