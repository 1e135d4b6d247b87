-- ===== src/Gateway/RateLimit/Claim.antt =====
-- src/gateway/rate_limit.c: what `find_or_create` does to the table.
use shellclaw.Common.{
  ℕ, ◌%◌, ◌<◌, true, Option, none, some, [], ◌≡◌, ◌≢◌, ◌⊎◌, inl, inr, refl, arith, Bytes, sym, set,
  length, length-set, get_or-set_self, get_or-set_ne, Option-cases,
}
use mathlib.Core.Path.{subst}
use mathlib.Core.Option.{some-injective}
use shellclaw.Gateway.RateLimit.{
  Table, RateEntry, blank, slot_at, table_size, Probe, found, missing, probe, find_expired_slot,
  expired, place, claim, find_or_create, ip_hash, rate_entry_reset,
}
use shellclaw.Gateway.RateLimit.Slots.{Lands, probe-Lands, probe-missing, find_expired_slot-expired}

-- `find_or_create` may overwrite only an empty slot or one whose window is over.
abbrev pub IsReusable : RateEntry → ℕ → Type 0
IsReusable e now = (e.ip ≡ []) ⊎ (expired e now ≡ true)

abbrev pub IsAbsent : Table → Bytes → Type 0
IsAbsent t ip = (j : ℕ) → j < table_size → (slot_at t j).ip ≢ ip

-- the slot taken by a new address
pub record Opened (t t' : Table) (ip : Bytes) (now s : ℕ) : Type 0 where
  pub was : IsReusable (slot_at t s) now
  pub fresh : slot_at t' s ≡ rate_entry_reset ip now
  pub absent : IsAbsent t ip

pub record Claimed (t t' : Table) (ip : Bytes) (now s : ℕ) : Type 0 where
  pub inside : s < table_size
  pub sized : length t' ≡ table_size
  pub others : (j : ℕ) → j ≢ s → slot_at t' j ≡ slot_at t j
  pub how : (((slot_at t s).ip ≡ ip) × (t' ≡ t)) ⊎ Opened t t' ip now s

Claimed-reset :
    (t : Table) (ip : Bytes) (now s : ℕ)
    → length t ≡ table_size
    → s < table_size
    → IsReusable (slot_at t s) now
    → IsAbsent t ip
    → Claimed t (set t s (rate_entry_reset ip now)) ip now s
Claimed-reset t ip now s z b r a = record {
  inside = b;
  sized = omega (arith, length-set t s (rate_entry_reset ip now));
  others = λ j n. get_or-set_ne t s j _ blank (λ e. n (sym e));
  how = inr (record { was = r; fresh = get_or-set_self t s _ blank (omega arith); absent = a });
}

Claimed-same :
    (t : Table) (ip : Bytes) (now s : ℕ)
    → length t ≡ table_size
    → s < table_size
    → (slot_at t s).ip ≡ ip
    → Claimed t t ip now s
Claimed-same t ip now s z b e = record {
  inside = b;
  sized = z;
  others = λ j n. refl;
  how = inl (e, refl);
}

Claimed-eq :
    (t u t' : Table) (ip : Bytes) (now s' s : ℕ)
    → Claimed t u ip now s'
    → ◌≡◌ {A = Option (ℕ × Table)} (some (s', u)) (some (s, t'))
    → Claimed t t' ip now s
Claimed-eq t u t' ip now s' s c h =
    subst (λ (q : ℕ × Table). Claimed t q.1 ip now q.0) (some-injective (s', u) (s, t') h) c

claim-Claimed :
    (t t' : Table) (s' : ℕ) (ip : Bytes) (now s : ℕ)
    → length t ≡ table_size
    → s' < table_size
    → IsReusable (slot_at t s') now
    → IsAbsent t ip
    → claim t (some s') ip now ≡ some (s, t')
    → Claimed t t' ip now s
claim-Claimed t t' s' ip now s z b r a h =
    Claimed-eq t (set t s' (rate_entry_reset ip now)) t' ip now s' s
      (Claimed-reset t ip now s' z b r a) h

place-Claimed :
    (t t' : Table) (p : Probe) (ip : Bytes) (now s : ℕ)
    → length t ≡ table_size
    → Lands t ip p
    → ((free : Option ℕ) → p ≡ missing free → IsAbsent t ip)
    → place t p ip now ≡ some (s, t')
    → Claimed t t' ip now s
place-Claimed t t' (found s') ip now s z l a h =
    Claimed-eq t t t' ip now s' s (Claimed-same t ip now s' z l.0 l.1) h
place-Claimed t t' (missing (some s')) ip now s z l a h =
    claim-Claimed t t' s' ip now s z l.0 (inl l.1) (a (some s') refl) h
place-Claimed t t' (missing none) ip now s z l a h =
    elim (Option-cases (find_expired_slot table_size 0 t now)) [
      | inl e ↦ cc (rw e at h)
      | inr (s', e) ↦
          let (b, old) = find_expired_slot-expired table_size 0 t now s' (omega arith) e in
          claim-Claimed t t' s' ip now s z b (inr old) (a none refl) (rw e at h)
    ]

-- Whatever slot is returned, the other slots are as they were, and the slot either held the address
-- already or was empty or expired.
pub find_or_create-Claimed :
    (t t' : Table) (ip : Bytes) (now s : ℕ)
    → length t ≡ table_size
    → ip ≢ []
    → find_or_create t ip now ≡ some (s, t')
    → Claimed t t' ip now s
unfolding find_or_create
find_or_create-Claimed t t' ip now s z ne h =
    let idx = ip_hash ip % table_size in
    place-Claimed t t' (probe table_size 0 idx none t ip) ip now s z
      (probe-Lands table_size 0 idx none t ip tt)
      (λ free e j b.
        probe-missing table_size 0 idx none free t ip j ne (omega arith) b (omega arith)
          (omega arith) e)
      h
