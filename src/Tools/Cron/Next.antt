-- ===== src/Tools/Cron/Next.antt =====
-- src/tools/cron.c: the time that the search over the minutes finds.
use mathlib.Core.Option.{some-injective}
use shellclaw.Common.{
  ℕ, zero, suc, ◌+◌, ◌-◌, ◌*◌, ◌≤◌, ◌<◌, Bool, true, false, not, ◌||◌, Option, none, some, ◌≡◌, inl,
  inr, refl, sym, arith, Bytes, Bool-cases, Option-cases, ltb, ◌==◌, is_empty, ℤ, pos, negsuc,
  strtol,
}
use shellclaw.Tools.Cron.{
  Localtime, Tm, CronFields, expr_matches, search, next_from_expr, parse_cron_expr, next_minute,
  max_iter_minutes, interval_value, interval_next_run, llong_max,
}

-- whether the expression matches on the test of the local time
abbrev pub matches_tm : CronFields → Option Tm → Bool
matches_tm f none = false
matches_tm f (some tm) = expr_matches f tm

abbrev pub is_some : {A : Type 0} → Option A → Bool
is_some none = false
is_some (some a) = true

-- The first of the minutes from `t` on at which the expression matches.
pub record IsFirstMatch (lt : Localtime) (f : CronFields) (rounds t n : ℕ) : Type 0 where
  pub minutes : ℕ
  pub within : minutes < rounds
  pub at : n ≡ t + 60 * minutes
  pub matches : matches_tm f (lt n) ≡ true
  pub first : (j : ℕ) → j < minutes → matches_tm f (lt (t + 60 * j)) ≡ false

IsFirstMatch-here :
    (lt : Localtime) (f : CronFields) (rounds t : ℕ)
    → matches_tm f (lt t) ≡ true
    → IsFirstMatch lt f (suc rounds) t t
IsFirstMatch-here lt f rounds t m = record {
  minutes = 0;
  within = omega arith;
  at = omega arith;
  matches = m;
  first = λ j l. absurd (omega arith);
}

IsFirstMatch-later :
    (lt : Localtime) (f : CronFields) (rounds t n : ℕ)
    → matches_tm f (lt t) ≡ false
    → IsFirstMatch lt f rounds (t + 60) n
    → IsFirstMatch lt f (suc rounds) t n
IsFirstMatch-later lt f rounds t n m h = record {
  minutes = suc h.minutes;
  within = omega (arith, h.within);
  at = omega (arith, h.at);
  matches = h.matches;
  first = earlier;
}
  where
    earlier : (j : ℕ) → j < suc h.minutes → matches_tm f (lt (t + 60 * j)) ≡ false
    earlier zero l = let e : t + 60 * 0 ≡ t = omega arith in rw e m
    earlier (suc j) l =
        let e : t + 60 * suc j ≡ t + 60 + 60 * j = omega arith in rw e (h.first j (omega arith))

search-IsFirstMatch :
    (lt : Localtime) (f : CronFields) (rounds t n : ℕ)
    → search lt f rounds t (lt t) ≡ some n
    → IsFirstMatch lt f rounds t n
unfolding search
search-IsFirstMatch lt f zero t n h = cc
search-IsFirstMatch lt f (suc rounds) t n h = elim (Option-cases (lt t)) [
  | inl e ↦ cc (rw e at h)
  | inr (tm, e) ↦ elim (Bool-cases (expr_matches f tm)) [
    | inl m ↦
        let same = some-injective t n (rw (e, m) at h) in
        rw (sym same) (IsFirstMatch-here lt f rounds t (rw e m))
    | inr m ↦
        IsFirstMatch-later lt f rounds t n (rw e m)
          (search-IsFirstMatch lt f rounds (t + 60) n (rw (e, m) at h))
  ]
]

search_found :
    (lt : Localtime) (f : CronFields) (k rounds t : ℕ)
    → k < rounds
    → ((j : ℕ) → j ≤ k → is_some (lt (t + 60 * j)) ≡ true)
    → matches_tm f (lt (t + 60 * k)) ≡ true
    → is_some (search lt f rounds t (lt t)) ≡ true
unfolding search
search_found lt f k zero t l known m = absurd (omega arith)
search_found lt f zero (suc rounds) t l known m =
    let e : t + 60 * 0 ≡ t = omega arith in
    elim (Option-cases (lt t)) [
      | inl u ↦ cc (rw (e, u) at m)
      | inr (tm, u) ↦ rw u (let m' : expr_matches f tm ≡ true = rw (e, u) at m in rw m' refl)
    ]
search_found lt f (suc k) (suc rounds) t l known m = elim (Option-cases (lt t)) [
  | inl u ↦
      let e : t + 60 * 0 ≡ t = omega arith in
      let here : is_some (lt t) ≡ true = rw e at (known 0 (omega arith)) in cc (rw u at here)
  | inr (tm, u) ↦ elim (Bool-cases (expr_matches f tm)) [
    | inl now ↦ rw (u, now) refl
    | inr not_now ↦
        rw (u, not_now) (search_found lt f k rounds (t + 60) (omega arith) later (rw next at m))
  ]
]
  where
    next : t + 60 * suc k ≡ t + 60 + 60 * k
    next = omega arith

    later : (j : ℕ) → j ≤ k → is_some (lt (t + 60 + 60 * j)) ≡ true
    later j b =
        let e : t + 60 * suc j ≡ t + 60 + 60 * j = omega arith in
        rw e at (known (suc j) (omega arith))

-- A time that a cron expression gives is after now, a whole number of minutes and at most 366 days
-- past the next minute, and the first from there on whose local time the expression matches.
pub next_from_expr-IsFirstMatch :
    (lt : Localtime) (s : Bytes) (now n : ℕ)
    → next_from_expr lt s now ≡ some n
    → (f : CronFields) × (parse_cron_expr s ≡ some f)
      × (now < n)
      × IsFirstMatch lt f max_iter_minutes (next_minute now) n
unfolding next_from_expr
next_from_expr-IsFirstMatch lt s now n h = elim (Option-cases (parse_cron_expr s)) [
  | inl e ↦ cc (rw e at h)
  | inr (f, e) ↦
      let found = search-IsFirstMatch lt f max_iter_minutes (next_minute now) n (rw e at h) in
      (f, e, omega (arith, found.at), found)
]

-- Where the expression matches some minute of the 366 days after now, and the local time is known up
-- to it, a time is found.
pub next_from_expr_found :
    (lt : Localtime) (s : Bytes) (now k : ℕ) (f : CronFields)
    → parse_cron_expr s ≡ some f
    → k < max_iter_minutes
    → ((j : ℕ) → j ≤ k → is_some (lt (next_minute now + 60 * j)) ≡ true)
    → matches_tm f (lt (next_minute now + 60 * k)) ≡ true
    → is_some (next_from_expr lt s now) ≡ true
unfolding next_from_expr
next_from_expr_found lt s now k f e l known m =
    rw e (search_found lt f k max_iter_minutes (next_minute now) l known m)

interval_value-later :
    (v : ℤ) (now : ℕ) (z : ℤ)
    → now ≤ llong_max
    → interval_value v now ≡ some z
    → (n : ℕ) × (z ≡ pos n) × (now < n) × (n ≤ llong_max)
interval_value-later (negsuc m) now z l h = cc
interval_value-later (pos sec) now z l h =
    elim (Bool-cases (sec == 0 || ltb (llong_max - now) sec)) [
      | inl e ↦ cc (rw e at h)
      | inr e ↦
          let same = some-injective (pos (now + sec)) z (rw e at h) in
          let some_time : 0 < sec = ground (arith, e) in
          let fits : sec ≤ llong_max - now = ground (arith, e) in
          (now + sec, sym same, omega arith, omega (arith, fits))
    ]

-- An interval gives a time that is after now and fits in 64 bits.
pub interval_next_run-later :
    (num : Bytes) (now : ℕ) (z : ℤ)
    → now ≤ llong_max
    → interval_next_run num now ≡ some z
    → (n : ℕ) × (z ≡ pos n) × (now < n) × (n ≤ llong_max)
unfolding interval_next_run
interval_next_run-later num now z l h = elim (Option-cases (strtol num)) [
  | inl e ↦ cc (rw e at h)
  | inr (c, e) ↦ elim (Bool-cases (not (is_empty c.rest) || c.range_error)) [
    | inl bad ↦ cc (rw (e, bad) at h)
    | inr good ↦ interval_value-later c.value now z l (rw (e, good) at h)
  ]
]
