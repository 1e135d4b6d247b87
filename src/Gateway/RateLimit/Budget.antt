-- ===== src/Gateway/RateLimit/Budget.antt =====
-- src/gateway/rate_limit.c: how many calls of one address pass within a window, whatever the other
-- addresses do meanwhile.
use shellclaw.Common.{
  ℕ, ◌+◌, ◌-◌, ◌≤◌, ◌<◌, false, min, List, [], ◌∷◌, some, ◌≡◌, ◌≢◌, inl, inr, arith, Bytes, leb,
  leb→le, if◌then◌else◌, length, not, ◌&&◌, Bool-cases, str_equal, str_equal_iff, str_equal_refl,
}
use shellclaw.Gateway.RateLimit.{
  Table, table_size, rate_limit_rpm, rate_window_secs, rate_limit_asap,
}
use shellclaw.Gateway.RateLimit.Live.{IsAddress, Live, Live-call, first_call, other_call}
use shellclaw.Gateway.RateLimit.Claim.{IsAbsent}

-- a schedule of calls, each an address and the time of the call
abbrev pub Schedule : Type 0
Schedule = List (Bytes × ℕ)

-- the calls of one address in a schedule, and those of them that pass
abbrev pub calls : Bytes → Schedule → ℕ
calls x [] = 0
calls x ((ip, now) ∷ rest) = (if str_equal ip x then 1 else 0) + calls x rest

abbrev pub passed : Bytes → Table → Schedule → ℕ
passed x t [] = 0
passed x t ((ip, now) ∷ rest) =
    (if str_equal ip x && not (rate_limit_asap t (some ip) now).0 then 1 else 0)
    + passed x (rate_limit_asap t (some ip) now).1 rest

abbrev pub Within : ℕ → Schedule → Type 0
Within end [] = Unit
Within end ((ip, now) ∷ rest) = IsAddress ip × (now < end) × Within end rest

-- Whatever addresses call in whatever order while the window of `x` is open with `c` calls counted,
-- the calls of `x` that pass are all of them, or `rate_limit_rpm - c` if they are more.
pub passed_exact :
    (t : Table) (x : Bytes) (s w c : ℕ) (rest : Schedule)
    → IsAddress x
    → c ≤ rate_limit_rpm
    → Live t x s w c
    → Within (w + rate_window_secs) rest
    → passed x t rest ≡ min (calls x rest) (rate_limit_rpm - c)
passed_exact t x s w c [] a f l h = omega arith
passed_exact t x s w c ((ip, now) ∷ rest) a f l (b, within, h) =
    elim (Bool-cases (str_equal ip x)) [
      | inl same ↦
          let e = (str_equal_iff ip x).0 same in
          let (r, l') = Live-call t x s w c now a l within in
          rw (e, str_equal_refl x, r)
            (elim (Bool-cases (leb rate_limit_rpm c)) [
              | inl full ↦
                  let ih =
                    passed_exact (rate_limit_asap t (some x) now).1 x s w c rest a f (rw full at l')
                      h in
                  rw full (omega (arith, ih, leb→le rate_limit_rpm c full))
              | inr room ↦
                  let more : c + 1 ≤ rate_limit_rpm = ground arith in
                  let ih =
                    passed_exact (rate_limit_asap t (some x) now).1 x s w (c + 1) rest a more
                      (rw room at l') h in
                  rw room (omega (arith, ih))
            ])
      | inr differs ↦
          let d : ip ≢ x = λ e. cc ((str_equal_iff ip x).1 e) in
          let ih =
            passed_exact (rate_limit_asap t (some ip) now).1 x s w c rest a f
              (other_call t ip x s now w c b a d within l) h in
          rw differs (omega (arith, ih))
    ]

-- From a table with no entry for `x`, where a call of `x` at time `w` passes, the calls of `x` that
-- pass from it on within the window are all of them, or `rate_limit_rpm` if they are more, whatever
-- the other addresses do.
pub window_budget :
    (t : Table) (x : Bytes) (w : ℕ) (rest : Schedule)
    → IsAddress x
    → length t ≡ table_size
    → IsAbsent t x
    → (rate_limit_asap t (some x) w).0 ≡ false
    → Within (w + rate_window_secs) rest
    → passed x t ((x, w) ∷ rest) ≡ min (calls x ((x, w) ∷ rest)) rate_limit_rpm
window_budget t x w rest a z n h within =
    let (s, l) = first_call t x w a z n h in
    let later =
      passed_exact (rate_limit_asap t (some x) w).1 x s w 1 rest a (omega arith) l within in
    rw (str_equal_refl x, h) (omega (arith, later))
