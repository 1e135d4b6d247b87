-- ===== src/Tools/Cron.antt =====
-- src/tools/cron.c: the schedule of a job, and when it runs next. A time is in seconds since the epoch
-- and not before it; the result can be, where "at:" gives a negative number. -1 is the error of most
-- functions, and is `none` here; in a field of an expression -1 means any value, and stays.
-- `localtime_r` is a parameter.
pub mod Next
pub mod Bounds
pub mod Offers
pub mod Delivery
mod Tests
use shellclaw.Common.{
  ℕ, zero, suc, ◌+◌, ◌-◌, ◌*◌, ◌%◌, ◌^◌, Bool, true, false, ◌&&◌, ◌||◌, not, Option, none, some,
  List, [], ◌∷◌, ◌++◌, ◌==◌, ltb, leb, if◌then◌else◌, Bytes, codes, str_equal, has_prefix, is_empty,
  length, take, drop, ℤ, pos, negsuc, Converted, strtol, strchr, strtok_all,
}

abbrev pub eq_int : ℤ → ℤ → Bool
eq_int (pos m) (pos n) = m == n
eq_int (negsuc m) (negsuc n) = m == n
eq_int _ _ = false

abbrev pub leb_int : ℤ → ℤ → Bool
leb_int (pos m) (pos n) = leb m n
leb_int (pos m) (negsuc n) = false
leb_int (negsuc m) (pos n) = true
leb_int (negsuc m) (negsuc n) = leb n m

abbrev pub any : ℤ
any = negsuc 0

-- `366 * 24 * 60`
abbrev pub max_iter_minutes : ℕ
max_iter_minutes = 366 * 24 * 60

-- on what strtol returns
abbrev pub field_value : Option Converted → ℕ → ℕ → Option ℤ
field_value none min_val max_val = none
field_value (some c) min_val max_val =
    if is_empty c.rest && leb_int (pos min_val) c.value && leb_int c.value (pos max_val)
    then some c.value
    else none

unfoldable pub parse_field : Bytes → ℕ → ℕ → Option ℤ
parse_field s min_val max_val =
    if str_equal s (codes "*") then some any else field_value (strtol s) min_val max_val

pub record Range : Type 0 where
  pub lo : ℤ
  pub hi : ℤ

-- the range from the fields before and after the dash
abbrev pub both_ends : Option ℤ → Option ℤ → Option Range
both_ends none hi = none
both_ends (some lo) none = none
both_ends (some lo) (some hi) = some (record { lo = lo; hi = if eq_int hi any then lo else hi })

abbrev pub single : Option ℤ → Option Range
single none = none
single (some lo) = some (record { lo = lo; hi = any })

-- on what strchr returns
abbrev pub range_at : Bytes → Option Bytes → ℕ → ℕ → Option Range
range_at s none min_val max_val = single (parse_field s min_val max_val)
range_at s (some dash) min_val max_val =
    let n = length s - length dash in
    if leb 32 n
    then none
    else both_ends (parse_field (take n s) min_val max_val)
        (parse_field (drop 1 dash) min_val max_val)

unfoldable pub parse_range : Bytes → ℕ → ℕ → Option Range
parse_range s min_val max_val = range_at s (strchr s b'-') min_val max_val

abbrev pub field_matches : ℕ → Range → Bool
field_matches val r =
    if eq_int r.lo any
    then true
    else if eq_int r.hi any
    then eq_int (pos val) r.lo
    else leb_int r.lo (pos val) && leb_int (pos val) r.hi

pub record CronFields : Type 0 where
  pub minute : Range
  pub hour : Range
  pub mday : Range
  pub month : Range
  pub wday : Range

-- the fields of `struct tm` that are read, the month from 1
pub record Tm : Type 0 where
  pub minute : ℕ
  pub hour : ℕ
  pub mday : ℕ
  pub month : ℕ
  pub wday : ℕ

abbrev pub expr_matches : CronFields → Tm → Bool
expr_matches f tm =
    field_matches tm.minute f.minute
    && field_matches tm.hour f.hour
    && field_matches tm.mday f.mday
    && field_matches tm.month f.month
    && field_matches tm.wday f.wday

abbrev pub seven_is_zero : ℤ → ℤ
seven_is_zero v = if eq_int v (pos 7) then pos 0 else v

abbrev pub weekdays : Range → Range
weekdays r = record { lo = seven_is_zero r.lo; hi = seven_is_zero r.hi }

abbrev pub fields_of :
    Option Range → Option Range → Option Range → Option Range → Option Range → Option CronFields
fields_of (some minute) (some hour) (some mday) (some month) (some wday) =
    some (record { minute = minute; hour = hour; mday = mday; month = month; wday = weekdays wday })
fields_of _ _ _ _ _ = none

-- what follows the fifth token is not read
abbrev pub expr_of : List Bytes → Option CronFields
expr_of (a ∷ b ∷ c ∷ d ∷ e ∷ _) =
    fields_of (parse_range a 0 59) (parse_range b 0 23) (parse_range c 1 31) (parse_range d 1 12)
      (parse_range e 0 7)
expr_of _ = none

unfoldable pub parse_cron_expr : Bytes → Option CronFields
parse_cron_expr s = if leb 256 (length s) then none else expr_of (strtok_all (codes " \t") [] s)

abbrev pub Localtime : Type 0
Localtime = ℕ → Option Tm

-- the loop over the minutes from `t`, whose local time is given
unfoldable pub search : Localtime → CronFields → ℕ → ℕ → Option Tm → Option ℕ
search lt f zero t o = none
search lt f (suc rounds) t none = none
search lt f (suc rounds) t (some tm) =
    let later = search lt f rounds (t + 60) (lt (t + 60)) in
    if expr_matches f tm then some t else later

abbrev pub next_minute : ℕ → ℕ
next_minute now = now - now % 60 + 60

abbrev pub search_fields : Localtime → ℕ → Option CronFields → Option ℕ
search_fields lt now none = none
search_fields lt now (some f) =
    search lt f max_iter_minutes (next_minute now) (lt (next_minute now))

unfoldable pub next_from_expr : Localtime → Bytes → ℕ → Option ℕ
next_from_expr lt cron_part now = search_fields lt now (parse_cron_expr cron_part)

abbrev pub llong_max : ℕ
llong_max = 2 ^ 63 - 1

-- on the number of seconds; a clock past `LLONG_MAX` cannot be
abbrev pub interval_value : ℤ → ℕ → Option ℤ
interval_value (negsuc n) now = none
interval_value (pos sec) now =
    if sec == 0 || ltb (llong_max - now) sec then none else some (pos (now + sec))

-- on what strtoll returns
abbrev pub interval_of : Option Converted → ℕ → Option ℤ
interval_of none now = none
interval_of (some c) now =
    if not (is_empty c.rest) || c.range_error then none else interval_value c.value now

unfoldable pub interval_next_run : Bytes → ℕ → Option ℤ
interval_next_run num now = interval_of (strtol num) now

-- a number out of range is not refused here
abbrev pub at_of : Option Converted → Option ℤ
at_of none = none
at_of (some c) = if is_empty c.rest then some c.value else none

abbrev pub as_int : Option ℕ → Option ℤ
as_int none = none
as_int (some n) = some (pos n)

unfoldable pub parse_next_run : Localtime → Bytes → ℕ → Option ℤ
parse_next_run lt schedule now =
    if has_prefix schedule (codes "interval:")
    then interval_next_run (drop 9 schedule) now
    else if has_prefix schedule (codes "at:")
    then at_of (strtol (drop 3 schedule))
    else as_int (
        next_from_expr lt
          (if has_prefix schedule (codes "cron:") then drop 5 schedule else schedule) now)

unfoldable pub is_one_shot : Bytes → Bool
is_one_shot schedule = has_prefix schedule (codes "at:")
