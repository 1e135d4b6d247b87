-- ===== src/Tools/Cron/Offers/Hot.antt =====
-- src/tools/cron.c: how long a job that was offered is held back.
use mathlib.Core.Option.{some-injective}
use shellclaw.Common.{
  ℕ, suc, ◌+◌, ◌<◌, false, Option, none, some, List, [], ◌∷◌, ◌≡◌, ◌⊎◌, inl, inr, refl, ◌∙◌, arith,
  ltb, ◌==◌, Bytes, Bool-cases, is_empty, str_equal, str_equal_refl, set, take, take-all, length,
}
use shellclaw.Tools.Cron.Offers.{
  Instant, Offer, elapsed_ms, offer_age_ms, slot_reusable, offer_is_hot, first_reusable, mark_slot,
  mark_offered,
}

module _ (job_id : Bytes) (e : Offer) (now later : Instant) (named : is_empty job_id ≡ false)
    (same : e.id ≡ job_id) where
  age-here : (os : List Offer) → offer_age_ms (e ∷ os) job_id later ≡ some (elapsed_ms e.mono later)
  unfolding offer_age_ms
  age-here os = rw (same, named, str_equal_refl job_id) refl

  age-skip :
      (o : Offer) (os : List Offer)
      → str_equal o.id job_id ≡ false
      → offer_age_ms (o ∷ os) job_id later ≡ offer_age_ms os job_id later
  unfolding offer_age_ms
  age-skip o os other = elim (Bool-cases (is_empty o.id)) [
    | inl empty ↦ rw (other, empty) refl
    | inr filled ↦ rw (other, filled) refl
  ]

  -- the slot that is written is the first with the id
  abbrev Marks : Option ℕ → ℕ → ℕ → List Offer → Type 0
  Marks free i s os =
      ((k : ℕ) × (s ≡ i + k)
        × (offer_age_ms (set os k e) job_id later ≡ some (elapsed_ms e.mono later)))
      ⊎ (free ≡ some s)

  taken-Marks :
      (free : Option ℕ) (i s : ℕ) (o : Offer) (os : List Offer)
      → first_reusable free i o now ≡ some s
      → Marks free i s (o ∷ os)
  taken-Marks (some g) i s o os h = inr h
  taken-Marks none i s o os h = elim (Bool-cases (slot_reusable o now)) [
    | inl cold ↦ inl (0, omega (arith, some-injective i s (rw cold at h)), age-here os)
    | inr kept ↦ cc (rw kept at h)
  ]

  mark_slot-Marks :
      (i s : ℕ) (free : Option ℕ) (os : List Offer)
      → mark_slot i free os job_id now ≡ some s
      → Marks free i s os
  unfolding mark_slot
  mark_slot-Marks i s free [] h = inr h
  mark_slot-Marks i s free (o ∷ os) h = elim (Bool-cases (str_equal o.id job_id)) [
    | inl found ↦ inl (0, omega (arith, some-injective i s (rw found at h)), age-here os)
    | inr other ↦
        elim (mark_slot-Marks (i + 1) s (first_reusable free i o now) os (rw other at h)) [
          | inl (k, at, age) ↦ inl (suc k, omega (arith, at), age-skip o (set os k e) other ∙ age)
          | inr f ↦ taken-Marks free i s o os f
        ]
  ]

-- A job that is offered and finds a slot, its own or one that can be taken, is held back from then on
-- exactly as long as its timeout.
pub mark_offered-hot :
    (os : List Offer) (job_id : Bytes) (timeout_ms s : ℕ) (now later : Instant)
    → is_empty job_id ≡ false
    → length job_id < 128
    → mark_slot 0 none os job_id now ≡ some s
    → offer_is_hot (mark_offered os job_id timeout_ms now) job_id timeout_ms later
      ≡ ltb (elapsed_ms now later) timeout_ms
unfolding mark_offered
mark_offered-hot os job_id timeout_ms s now later named short slot =
    let e : Offer = record { id = take 127 job_id; mono = now; timeout_ms = timeout_ms } in
    elim (mark_slot-Marks job_id e now later named (take-all 127 job_id (omega (arith, short))) 0 s
      none os slot) [
        | inr none_free ↦ cc
        | inl (k, at, age) ↦
            let here : s ≡ k = omega (arith, at) in
            rw (named, slot)
              (rw here (
                rw age (elim (Bool-cases (timeout_ms == 0)) [
                  | inl z ↦ rw z (ground arith)
                  | inr z ↦ rw z refl
                ])))
      ]
