-- ===== src/Gateway/RateLimit/Tests.antt =====
-- src/gateway/rate_limit.c: runs of the limiter, and the theorems at one address.
use shellclaw.Common.{
  ℕ, zero, suc, ◌+◌, ◌<◌, ◌≤◌, Bool, true, false, some, List, [], ◌∷◌, ◌≡◌, ◌≢◌, refl, sym, ◌∙◌, ap,
  arith, Bytes, codes, length, replicate, get_or, is_empty, min,
}
use shellclaw.Gateway.RateLimit.{
  Table, RateEntry, blank, slot_at, table_size, rate_limit_rpm, rate_limit_asap, rate_limit_reset,
  find_or_create, ip_hash, rate_entry_reset,
}
use shellclaw.Gateway.RateLimit.Claim.{IsAbsent}
use shellclaw.Gateway.RateLimit.Live.{IsAddress, Live, first_call}
use shellclaw.Gateway.RateLimit.Budget.{Schedule, passed, Within, window_budget}

abbrev home : Bytes
home = codes "10.0.0.1"

abbrev away : Bytes
away = codes "10.0.0.2"

home_slot : ip_hash home ≡ 1637995899
unfolding ip_hash
home_slot = refl

first_passes : (rate_limit_asap rate_limit_reset (some home) 100).0 ≡ false
unfolding rate_limit_asap find_or_create shellclaw.Gateway.RateLimit.probe ip_hash
first_passes = refl

abbrev later : Schedule
later = (home, 101) ∷ (away, 102) ∷ (home, 159) ∷ []

home-IsAddress : IsAddress home
home-IsAddress = record { some_byte = λ e. cc; fits = omega arith }

away-IsAddress : IsAddress away
away-IsAddress = record { some_byte = λ e. cc; fits = omega arith }

later-Within : Within (100 + 60) later
later-Within =
    (home-IsAddress, omega arith, (away-IsAddress, omega arith, (home-IsAddress, omega arith, tt)))

blank_slot : (n j : ℕ) → (get_or (replicate n blank) j blank).ip ≡ []
blank_slot zero j = refl
blank_slot (suc n) zero = refl
blank_slot (suc n) (suc j) = blank_slot n j

reset-IsAbsent : IsAbsent rate_limit_reset home
reset-IsAbsent j b e = home-IsAddress.some_byte (sym e ∙ blank_slot 64 j)

window_budget_example : passed home rate_limit_reset ((home, 100) ∷ later) ≡ 3
unfolding shellclaw.Common.str_equal
window_budget_example =
    window_budget rate_limit_reset home 100 later home-IsAddress refl reset-IsAbsent first_passes
      later-Within

abbrev after_first : Table
after_first = (rate_limit_asap rate_limit_reset (some home) 100).1

opened : (s : ℕ) × Live after_first home s 100 1
opened = first_call rate_limit_reset home 100 home-IsAddress refl reset-IsAbsent first_passes
