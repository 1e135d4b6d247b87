-- ===== src/Gateway/RateLimit.antt =====
-- src/gateway/rate_limit.c: the per-address limiter of POST /asap. The table is the list of the
-- 64 slots of `s_table`; `time_t` values are seconds since the epoch, so they are natural numbers,
-- and `now - e->window_start >= 60` is false where the clock has gone back, as in C. The mutex
-- makes each call one step.
pub mod Slots
pub mod Claim
pub mod Live
pub mod Budget
mod Tests
use Prim.Native.Nat.{bit_xor}
use shellclaw.Common.{
  ℕ, zero, suc, ◌+◌, ◌-◌, ◌*◌, ◌%◌, ◌^◌, Bool, true, false, Option, none, some, List, [], ◌∷◌, leb,
  if◌then◌else◌, get_or, set, take, replicate, Bytes, str_equal, is_empty, codes,
}

abbrev pub table_size : ℕ
table_size = 64

abbrev pub ip_buf_size : ℕ
ip_buf_size = 64

-- ASAP_RATE_LIMIT_RPM and ASAP_RATE_WINDOW_SECS of rate_limit.h
abbrev pub rate_limit_rpm : ℕ
rate_limit_rpm = 10

abbrev pub rate_window_secs : ℕ
rate_window_secs = 60

pub record RateEntry : Type 0 where
  pub ip : Bytes
  pub window_start : ℕ
  pub count : ℕ

abbrev pub Table : Type 0
Table = List RateEntry

abbrev pub blank : RateEntry
blank = record { ip = []; window_start = 0; count = 0 }

abbrev pub slot_at : Table → ℕ → RateEntry
slot_at t i = get_or t i blank

ip_hash_from : ℕ → Bytes → ℕ
ip_hash_from h [] = h
ip_hash_from h (c ∷ cs) = ip_hash_from (bit_xor ((h * 2 ^ 5 % 2 ^ 32 + h) % 2 ^ 32) c) cs

unfoldable pub ip_hash : Bytes → ℕ
unfolding ip_hash_from
ip_hash ip = ip_hash_from 5381 ip

abbrev pub rate_entry_reset : Bytes → ℕ → RateEntry
rate_entry_reset ip now = record { ip = take (ip_buf_size - 1) ip; window_start = now; count = 0 }

-- `now - e->window_start >= ASAP_RATE_WINDOW_SECS`
abbrev pub expired : RateEntry → ℕ → Bool
expired e now = leb rate_window_secs (now - e.window_start)

-- `i` counts up to the table's size; the first argument is the number of rounds left
unfoldable pub find_expired_slot : ℕ → ℕ → Table → ℕ → Option ℕ
find_expired_slot zero i t now = none
find_expired_slot (suc rounds) i t now =
    let rest = find_expired_slot rounds (i + 1) t now in
    if is_empty (slot_at t i).ip then rest else if expired (slot_at t i) now then some i else rest

-- what the probe loop of `find_or_create` leaves: the slot of the address, or the first free slot
pub data Probe : Type 0 where
  found : ℕ → Probe
  missing : Option ℕ → Probe

abbrev first_free : Option ℕ → ℕ → Option ℕ
first_free none slot = some slot
first_free (some s) slot = some s

unfoldable pub probe : ℕ → ℕ → ℕ → Option ℕ → Table → Bytes → Probe
probe zero i idx free t ip = missing free
probe (suc rounds) i idx free t ip =
    let slot = (idx + i) % table_size in
    let next = probe rounds (i + 1) idx (first_free free slot) t ip in
    let skip = probe rounds (i + 1) idx free t ip in
    if is_empty (slot_at t slot).ip
    then next
    else if str_equal (slot_at t slot).ip ip
    then found slot
    else skip

-- the slot that `find_or_create` returns a pointer to, with the table it leaves
abbrev pub claim : Table → Option ℕ → Bytes → ℕ → Option (ℕ × Table)
claim t none ip now = none
claim t (some s) ip now = some (s, set t s (rate_entry_reset ip now))

abbrev pub place : Table → Probe → Bytes → ℕ → Option (ℕ × Table)
place t (found s) ip now = some (s, t)
place t (missing (some s)) ip now = claim t (some s) ip now
place t (missing none) ip now = claim t (find_expired_slot table_size 0 t now) ip now

unfoldable pub find_or_create : Table → Bytes → ℕ → Option (ℕ × Table)
find_or_create t ip now = place t (probe table_size 0 (ip_hash ip % table_size) none t ip) ip now

-- a null address is `none`
abbrev pub safe_ip : Option Bytes → Bytes
safe_ip none = codes "unknown"
safe_ip (some ip) = if is_empty ip then codes "unknown" else ip

abbrev pub roll : RateEntry → ℕ → RateEntry
roll e now = if expired e now then record e { window_start = now; count = 0 } else e

-- the rest of the call on the entry found: the test of the count, and its increment
abbrev pub charge : RateEntry → Bool × RateEntry
charge e =
    if leb rate_limit_rpm e.count then (true, e) else (false, record e { count = e.count + 1 })

abbrev pub finish : Table → Option (ℕ × Table) → ℕ → Bool × Table
finish t none now = (true, t)
finish t (some (s, t')) now =
    let (limited, e) = charge (roll (slot_at t' s) now) in (limited, set t' s e)

-- `true` is the C result 1, limited
unfoldable pub rate_limit_asap : Table → Option Bytes → ℕ → Bool × Table
rate_limit_asap t ip now = finish t (find_or_create t (safe_ip ip) now) now

abbrev pub rate_limit_reset : Table
rate_limit_reset = replicate table_size blank
