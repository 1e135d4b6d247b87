-- ===== src/Tools/Cron/Tests.antt =====
-- src/tools/cron.c: schedules, and the theorems at a clock that shows the same time every day.
use shellclaw.Common.{
  ℕ, ◌+◌, ◌*◌, ◌/◌, ◌%◌, ◌-◌, ◌<◌, ◌≤◌, Bool, true, false, Option, none, some, [], ◌∷◌, ◌≡◌, refl,
  arith, Bytes, codes, ℤ, pos, negsuc,
}
use shellclaw.Tools.Cron.{
  Localtime, Tm, CronFields, Range, any, next_from_expr, parse_cron_expr, next_minute,
  max_iter_minutes, interval_next_run, llong_max, parse_range, field_matches, weekdays,
  parse_next_run,
}
use shellclaw.Tools.Cron.Next.{
  IsFirstMatch, is_some, next_from_expr-IsFirstMatch, next_from_expr_found,
}
use shellclaw.Tools.Cron.Bounds.{field_matches-weekdays}

-- the time of the day of UTC, on a Sunday the first of January
abbrev daily : Localtime
daily t =
    some (record { minute = t / 60 % 60; hour = t / 3600 % 24; mday = 1; month = 1; wday = 0 })

at_two : next_from_expr daily (codes "2 0 * * 0-3") 30 ≡ some 120
unfolding next_from_expr parse_cron_expr parse_range shellclaw.Common.strchr
    shellclaw.Tools.Cron.parse_field shellclaw.Common.str_equal shellclaw.Common.strtol
    shellclaw.Common.read_digits shellclaw.Tools.Cron.search shellclaw.Common.strtok_all
    shellclaw.Common.is_byte_of
at_two = refl

interval_minute : parse_next_run daily (codes "interval:60") 1000 ≡ some (pos 1060)
unfolding parse_next_run shellclaw.Common.has_prefix interval_next_run shellclaw.Common.strtol
    shellclaw.Common.read_digits
interval_minute = refl

interval_junk : parse_next_run daily (codes "interval:60abc") 1000 ≡ none
unfolding parse_next_run shellclaw.Common.has_prefix interval_next_run shellclaw.Common.strtol
    shellclaw.Common.read_digits
interval_junk = refl

next_from_expr-IsFirstMatch_example :
    (f : CronFields) × (parse_cron_expr (codes "2 0 * * 0-3") ≡ some f)
    × (30 < 120)
    × IsFirstMatch daily f max_iter_minutes (next_minute 30) 120
next_from_expr-IsFirstMatch_example =
    next_from_expr-IsFirstMatch daily (codes "2 0 * * 0-3") 30 120 at_two

abbrev always : CronFields
always =
    let all : Range = record { lo = any; hi = any } in
    record { minute = all; hour = all; mday = all; month = all; wday = all }

all_stars : parse_cron_expr (codes "* * * * *") ≡ some always
unfolding parse_cron_expr parse_range shellclaw.Common.strchr shellclaw.Tools.Cron.parse_field
    shellclaw.Common.str_equal shellclaw.Common.strtok_all shellclaw.Common.is_byte_of
all_stars = refl

next_from_expr_found_example : is_some (next_from_expr daily (codes "* * * * *") 30) ≡ true
next_from_expr_found_example =
    next_from_expr_found daily (codes "* * * * *") 30 0 always all_stars (omega arith) (λ j l. refl)
      refl

minute_interval : interval_next_run (codes "60") 1000 ≡ some (pos 1060)
unfolding interval_next_run shellclaw.Common.strtol shellclaw.Common.read_digits
minute_interval = refl

abbrev workdays : Range
workdays = record { lo = pos 1; hi = pos 5 }

read_workdays : parse_range (codes "1-5") 0 7 ≡ some workdays
unfolding parse_range shellclaw.Common.strchr shellclaw.Tools.Cron.parse_field
    shellclaw.Common.str_equal shellclaw.Common.strtol shellclaw.Common.read_digits
read_workdays = refl

field_matches-weekdays_example :
    field_matches 6 (weekdays (record { lo = pos 5; hi = pos 7 })) ≡ false
field_matches-weekdays_example = field_matches-weekdays 5 6 (omega arith) (omega arith)
