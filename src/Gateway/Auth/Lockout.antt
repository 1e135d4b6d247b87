-- ===== src/Gateway/Auth/Lockout.antt =====
-- src/gateway/auth.c: when an address is locked out.
use shellclaw.Common.{
  ℕ, zero, suc, ◌+◌, ◌<◌, Bool, ◌&&◌, Option, none, [], ◌∷◌, ◌≡◌, inl, inr, refl, ◌∙◌, ap, arith,
  Bytes, Bool-cases, if◌then◌else◌, ltb, leb, length, set, get_or, length-set, get_or-set_self,
}
use shellclaw.Gateway.RateLimit.{safe_ip}
use shellclaw.Gateway.Auth.{
  Lockouts, LockoutEntry, held, no_lockout, max_fails, lockout_window_secs, first_vacant,
  lockout_find, lockout_place, lockout_find_or_create, lockout_at, check_entry, pair_check_lockout,
  failed_entry, fail_at, pair_record_failure,
}

-- The loop finds the address in slot `s`.
pub record IsHeld (t : Lockouts) (ip : Option Bytes) (s : ℕ) : Type 0 where
  pub inside : s < length t
  pub finds : lockout_find 0 none t (safe_ip ip) ≡ held s

lockout_find-set :
    (i s : ℕ) (free : Option ℕ) (t : Lockouts) (e : LockoutEntry) (ip : Bytes)
    → e.ip ≡ (get_or t s no_lockout).ip
    → lockout_find i free (set t s e) ip ≡ lockout_find i free t ip
unfolding lockout_find
lockout_find-set i s free [] e ip h = refl
lockout_find-set i zero free (x ∷ t) e ip h = rw h refl
lockout_find-set i (suc s) free (x ∷ t) e ip h =
    rw
      (
        lockout_find-set (i + 1) s (first_vacant free i) t e ip h,
        lockout_find-set (i + 1) s free t e ip h,
      )
      refl

set-IsHeld :
    (t : Lockouts) (ip : Option Bytes) (s : ℕ) (e : LockoutEntry)
    → IsHeld t ip s
    → e.ip ≡ (lockout_at t s).ip
    → IsHeld (set t s e) ip s
set-IsHeld t ip s e h p = record {
  inside = rw (length-set t s e) h.inside;
  finds = lockout_find-set 0 s none t e (safe_ip ip) p ∙ h.finds;
}

find_or_create-held :
    (t : Lockouts) (ip : Option Bytes) (s : ℕ)
    → IsHeld t ip s
    → lockout_find_or_create t (safe_ip ip) ≡ (s, t)
unfolding lockout_find_or_create
find_or_create-held t ip s h = ap (lockout_place t (safe_ip ip)) h.finds

-- whether a slot keeps its address out at a time
abbrev pub is_locked : LockoutEntry → ℕ → Bool
is_locked e now = ltb 0 e.locked_until && ltb now e.locked_until

check_entry-locked :
    (s : ℕ) (t : Lockouts) (now : ℕ) → (check_entry (s, t) now).0 ≡ is_locked (lockout_at t s) now
check_entry-locked s t now = elim (Bool-cases (is_locked (lockout_at t s) now)) [
  | inl e ↦ rw e refl
  | inr e ↦
      rw e
        (elim (Bool-cases
          (ltb 0 (lockout_at t s).locked_until && leb (lockout_at t s).locked_until now)) [
            | inl p ↦ rw p refl
            | inr p ↦ rw p refl
          ])
]

check-held :
    (t : Lockouts) (ip : Option Bytes) (s now : ℕ)
    → IsHeld t ip s
    → (pair_check_lockout t ip now).0 ≡ is_locked (lockout_at t s) now
unfolding pair_check_lockout
check-held t ip s now h =
    ap (λ (x : ℕ × Lockouts). (check_entry x now).0) (find_or_create-held t ip s h)
    ∙ check_entry-locked s t now

failure-held :
    (t : Lockouts) (ip : Option Bytes) (s now : ℕ)
    → IsHeld t ip s
    → pair_record_failure t ip now ≡ set t s (failed_entry (lockout_at t s) now)
unfolding pair_record_failure
failure-held t ip s now h = ap (λ (x : ℕ × Lockouts). fail_at x now) (find_or_create-held t ip s h)

-- A failure of an address that has a slot keeps the slot, and from the fifth on the address is locked
-- out for 300 seconds from the failure; before it, the address is locked out as it was.
pub record_failure-check :
    (t : Lockouts) (ip : Option Bytes) (s at now : ℕ)
    → IsHeld t ip s
    → IsHeld (pair_record_failure t ip at) ip s
      × ((lockout_at (pair_record_failure t ip at) s).fail_count ≡ (lockout_at t s).fail_count + 1)
      × ((pair_check_lockout (pair_record_failure t ip at) ip now).0 ≡ (
          if leb max_fails ((lockout_at t s).fail_count + 1)
          then ltb now (at + lockout_window_secs)
          else is_locked (lockout_at t s) now))
record_failure-check t ip s at now h =
    let e = failed_entry (lockout_at t s) at in
    let h' : IsHeld (set t s e) ip s = set-IsHeld t ip s e h refl in
    let self : lockout_at (set t s e) s ≡ e = get_or-set_self t s e no_lockout h.inside in
    rw (failure-held t ip s at h) (
      h',
      ap (λ (x : LockoutEntry). x.fail_count) self,
      check-held (set t s e) ip s now h'
          ∙ ap (λ (x : LockoutEntry). is_locked x now) self
          ∙ locked_by (lockout_at t s) at now,
    )
  where
    locked_by :
        (e : LockoutEntry) (at now : ℕ)
        → is_locked (failed_entry e at) now ≡ (
            if leb max_fails (e.fail_count + 1)
            then ltb now (at + lockout_window_secs)
            else is_locked e now)
    locked_by e at now = elim (Bool-cases (leb max_fails (e.fail_count + 1))) [
      | inl f ↦ rw f (ground arith)
      | inr f ↦ rw f refl
    ]
