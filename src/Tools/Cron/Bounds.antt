-- ===== src/Tools/Cron/Bounds.antt =====
-- src/tools/cron.c: the values that the fields of an expression can have.
use mathlib.Core.Path.{subst}
use shellclaw.Common.{
  ℕ, ◌-◌, ◌<◌, Bool, true, false, ◌&&◌, ◌||◌, Option, none, some, ◌≡◌, inl, inr, refl, arith, Bytes,
  codes, Bool-cases, leb, ◌==◌, is_empty, ℤ, pos, Converted, strtol, strchr, str_equal, length,
  take, drop,
}
use shellclaw.Tools.Cron.{
  eq_int, leb_int, any, Range, field_value, parse_field, both_ends, single, range_at, parse_range,
  field_matches, weekdays,
}

-- -1, which stands for any value, or a number within the bounds
abbrev pub in_field : ℕ → ℕ → ℤ → Bool
in_field min_val max_val v = eq_int v any || (leb_int (pos min_val) v && leb_int v (pos max_val))

abbrev InField : ℕ → ℕ → Option ℤ → Type 0
InField min_val max_val none = Unit
InField min_val max_val (some v) = in_field min_val max_val v ≡ true

field_value-InField : (o : Option Converted) (a b : ℕ) → InField a b (field_value o a b)
field_value-InField none a b = tt
field_value-InField (some c) a b =
    elim (Bool-cases (is_empty c.rest && leb_int (pos a) c.value && leb_int c.value (pos b))) [
      | inl e ↦ rw e (ground (arith, e))
      | inr e ↦ rw e tt
    ]

parse_field-InField : (s : Bytes) (a b : ℕ) → InField a b (parse_field s a b)
unfolding parse_field
parse_field-InField s a b = elim (Bool-cases (str_equal s (codes "*"))) [
  | inl e ↦ rw e refl
  | inr e ↦ rw e (field_value-InField (strtol s) a b)
]

abbrev InRange : ℕ → ℕ → Option Range → Type 0
InRange a b none = Unit
InRange a b (some r) = (in_field a b r.lo ≡ true) × (in_field a b r.hi ≡ true)

both_ends-InRange :
    (a b : ℕ) (lo hi : Option ℤ) → InField a b lo → InField a b hi → InRange a b (both_ends lo hi)
both_ends-InRange a b none hi l h = tt
both_ends-InRange a b (some lo) none l h = tt
both_ends-InRange a b (some lo) (some hi) l h =
    (l, elim (Bool-cases (eq_int hi any)) [ inl e ↦ rw e l | inr e ↦ rw e h ])

single-InRange : (a b : ℕ) (lo : Option ℤ) → InField a b lo → InRange a b (single lo)
single-InRange a b none l = tt
single-InRange a b (some lo) l = (l, refl)

range_at-InRange : (s : Bytes) (dash : Option Bytes) (a b : ℕ) → InRange a b (range_at s dash a b)
range_at-InRange s none a b = single-InRange a b (parse_field s a b) (parse_field-InField s a b)
range_at-InRange s (some dash) a b = elim (Bool-cases (leb 32 (length s - length dash))) [
  | inl e ↦ rw e tt
  | inr e ↦ rw e (
      both_ends-InRange a b _ _ (parse_field-InField (take (length s - length dash) s) a b)
        (parse_field-InField (drop 1 dash) a b))
]

-- Both ends of a range that is read are within the bounds of the field, or stand for any value.
pub parse_range-in_field :
    (s : Bytes) (min_val max_val : ℕ) (r : Range)
    → parse_range s min_val max_val ≡ some r
    → (in_field min_val max_val r.lo ≡ true) × (in_field min_val max_val r.hi ≡ true)
unfolding parse_range
parse_range-in_field s a b r h = subst (InRange a b) h (range_at-InRange s (strchr s b'-') a b)

-- A range of weekdays that ends in 7 and begins after 0 matches no day: the 7 becomes a 0, and no day
-- is between.
pub field_matches-weekdays :
    (lo day : ℕ)
    → 0 < lo
    → lo < 7
    → field_matches day (weekdays (record { lo = pos lo; hi = pos 7 })) ≡ false
field_matches-weekdays lo day z l =
    let less : (lo == 7) ≡ false = ground arith in
    let none_between : (leb lo day && leb day 0) ≡ false = ground arith in rw less none_between
