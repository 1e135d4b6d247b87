-- ===== src/Tools/Cron/Offers/Tests.antt =====
-- src/tools/cron.c: one job that is offered to an empty table.
use shellclaw.Common.{
  ℕ, ◌<◌, Bool, true, false, Option, some, none, List, [], ◌∷◌, ◌≡◌, refl, arith, Bytes, codes,
  length, ltb,
}
use shellclaw.Tools.Cron.Offers.{offers_start, elapsed_ms, offer_is_hot, mark_slot, mark_offered}
use shellclaw.Tools.Cron.Offers.Hot.{mark_offered-hot}

first_slot : mark_slot 0 none offers_start (codes "cron_1") (5, 900000000) ≡ some 0
unfolding mark_slot shellclaw.Common.str_equal
first_slot = refl

elapsed_over_second : elapsed_ms (5, 900000000) (7, 100000000) ≡ 1200
elapsed_over_second = refl

mark_offered-hot_example :
    offer_is_hot
      (mark_offered offers_start (codes "cron_1") 1000 (5, 900000000))
      (codes "cron_1")
      1000
      (7, 100000000)
    ≡ false
mark_offered-hot_example =
    mark_offered-hot offers_start (codes "cron_1") 1000 0 (5, 900000000) (7, 100000000) refl
      (omega arith) first_slot
