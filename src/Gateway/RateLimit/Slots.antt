-- ===== src/Gateway/RateLimit/Slots.antt =====
-- src/gateway/rate_limit.c: which slot `find_or_create` settles on.
use shellclaw.Common.{
  ℕ, zero, suc, ◌+◌, ◌-◌, ◌%◌, ◌≤◌, ◌<◌, true, Option, none, some, [], ◌∷◌, ◌≡◌, ◌≢◌, ◌⊎◌, inl, inr,
  refl, sym, arith, Bytes, str_equal, str_equal_iff, is_empty, Bool-cases, ◌==◌, ==-ne, ==_iff,
  if◌then◌else◌,
}
use shellclaw.Gateway.RateLimit.{
  Table, slot_at, table_size, Probe, found, missing, first_free, probe, find_expired_slot, expired,
}

-- Slot `s`, and no other, holds the address.
pub record Holds (t : Table) (ip : Bytes) (s : ℕ) : Type 0 where
  pub inside : s < table_size
  pub here : (slot_at t s).ip ≡ ip
  pub only : (j : ℕ) → j < table_size → (slot_at t j).ip ≡ ip → j ≡ s

pub is_empty-ne : (a b : Bytes) → is_empty a ≡ true → b ≢ [] → a ≢ b
is_empty-ne [] b e ne p = ne (sym p)
is_empty-ne (x ∷ a) b e ne p = cc

-- the round at which the probe loop from `idx` meets slot `s`
abbrev round_of : ℕ → ℕ → ℕ
round_of idx s = (s + table_size - idx) % table_size

later :
    (idx i s : ℕ)
    → (idx + i) % table_size ≢ s
    → idx < table_size
    → i < table_size
    → s < table_size
    → i ≤ round_of idx s
    → i + 1 ≤ round_of idx s
later idx i s n a b c le = omega arith

probe_here :
    (t : Table) (ip : Bytes) (s : ℕ) (next skip : Probe)
    → Holds t ip s
    → ip ≢ []
    → (if is_empty (slot_at t s).ip
        then next
        else if str_equal (slot_at t s).ip ip
        then found s
        else skip)
      ≡ found s
probe_here t ip s next skip h ne =
    ground (arith, is_empty-ne (slot_at t s).ip ip, str_equal_iff (slot_at t s).ip ip, h.here)

probe_away :
    (t : Table) (ip : Bytes) (s slot : ℕ)
    → Holds t ip s
    → slot < table_size
    → slot ≢ s
    → (if is_empty (slot_at t slot).ip
        then found s
        else if str_equal (slot_at t slot).ip ip
        then found slot
        else found s)
      ≡ found s
probe_away t ip s slot h b n = ground (arith, str_equal_iff (slot_at t slot).ip ip, h.only slot b)

pub probe-found :
    (rounds i idx : ℕ) (free : Option ℕ) (t : Table) (ip : Bytes) (s : ℕ)
    → Holds t ip s
    → ip ≢ []
    → idx < table_size
    → i + rounds ≡ table_size
    → i ≤ round_of idx s
    → probe rounds i idx free t ip ≡ found s
unfolding probe
probe-found zero i idx free t ip s h ne b e le = absurd (omega (arith, h.inside))
probe-found (suc rounds) i idx free t ip s h ne b e le =
    elim (Bool-cases ((idx + i) % table_size == s)) [
      | inl same ↦ rw ((==_iff _ s).0 same) (probe_here t ip s _ _ h ne)
      | inr differs ↦
          let le' : i + 1 ≤ round_of idx s =
            later idx i s (==-ne _ s differs) b (omega arith) h.inside le in
          let next =
            probe-found rounds (i + 1) idx (first_free free ((idx + i) % table_size)) t ip s h ne b
              (omega arith) le' in
          let skip = probe-found rounds (i + 1) idx free t ip s h ne b (omega arith) le' in
          rw (next, skip) (probe_away t ip s _ h (omega arith) (==-ne _ s differs))
    ]

abbrev IsFree : Table → Option ℕ → Type 0
IsFree t none = Unit
IsFree t (some s) = (s < table_size) × ((slot_at t s).ip ≡ [])

-- where the probe loop can end
abbrev pub Lands : Table → Bytes → Probe → Type 0
Lands t ip (found s) = (s < table_size) × ((slot_at t s).ip ≡ ip)
Lands t ip (missing free) = IsFree t free

is_empty-nil : (a : Bytes) → is_empty a ≡ true → a ≡ []
is_empty-nil [] h = refl
is_empty-nil (x ∷ a) h = cc

IsFree-first_free :
    (t : Table) (free : Option ℕ) (slot : ℕ)
    → IsFree t free
    → slot < table_size
    → is_empty (slot_at t slot).ip ≡ true
    → IsFree t (first_free free slot)
IsFree-first_free t none slot f b h = (b, is_empty-nil (slot_at t slot).ip h)
IsFree-first_free t (some s) slot f b h = f

pub probe-Lands :
    (rounds i idx : ℕ) (free : Option ℕ) (t : Table) (ip : Bytes)
    → IsFree t free
    → Lands t ip (probe rounds i idx free t ip)
unfolding probe
probe-Lands zero i idx free t ip f = f
probe-Lands (suc rounds) i idx free t ip f =
    let slot = (idx + i) % table_size in
    elim (Bool-cases (is_empty (slot_at t slot).ip)) [
      | inl vacant ↦ rw vacant (
          probe-Lands rounds (i + 1) idx (first_free free slot) t ip
            (IsFree-first_free t free slot f (omega arith) vacant))
      | inr taken ↦ elim (Bool-cases (str_equal (slot_at t slot).ip ip)) [
        | inl same ↦ rw (taken, same) (omega arith, (str_equal_iff (slot_at t slot).ip ip).0 same)
        | inr differs ↦ rw (taken, differs) (probe-Lands rounds (i + 1) idx free t ip f)
      ]
    ]

pub find_expired_slot-expired :
    (rounds i : ℕ) (t : Table) (now s : ℕ)
    → i + rounds ≡ table_size
    → find_expired_slot rounds i t now ≡ some s
    → (s < table_size) × (expired (slot_at t s) now ≡ true)
unfolding find_expired_slot
find_expired_slot-expired zero i t now s b h = cc
find_expired_slot-expired (suc rounds) i t now s b h =
    ground (arith, find_expired_slot-expired rounds (i + 1) t now s)

probe_missed :
    (a ip : Bytes) (slot : ℕ) (next skip : Probe) (free : Option ℕ)
    → (if is_empty a then next else if str_equal a ip then found slot else skip) ≡ missing free
    → ((is_empty a ≡ true) × (next ≡ missing free)) ⊎ ((a ≢ ip) × (skip ≡ missing free))
probe_missed a ip slot next skip free h = elim (Bool-cases (is_empty a)) [
  | inl vacant ↦ inl (vacant, rw vacant at h)
  | inr taken ↦ elim (Bool-cases (str_equal a ip)) [
    | inl same ↦ absurd (ground arith)
    | inr differs ↦ inr (λ p. cc ((str_equal_iff a ip).1 p), ground arith)
  ]
]

-- an address that the probe misses stands in no slot that the loop has still to visit
pub probe-missing :
    (rounds i idx : ℕ) (free free' : Option ℕ) (t : Table) (ip : Bytes) (j : ℕ)
    → ip ≢ []
    → idx < table_size
    → j < table_size
    → i + rounds ≡ table_size
    → i ≤ round_of idx j
    → probe rounds i idx free t ip ≡ missing free'
    → (slot_at t j).ip ≢ ip
unfolding probe
probe-missing zero i idx free free' t ip j ne b c e le h p = absurd (omega arith)
probe-missing (suc rounds) i idx free free' t ip j ne b c e le h p =
    let slot = (idx + i) % table_size in
    let missed = probe_missed (slot_at t slot).ip ip slot _ _ free' h in
    elim (Bool-cases (slot == j)) [
      | inl same ↦
          let q : (slot_at t slot).ip ≡ ip = rw ((==_iff slot j).0 same) p in
          elim missed [ inl (vacant, _) ↦ is_empty-ne _ ip vacant ne q | inr (n, _) ↦ n q ]
      | inr differs ↦
          let le' : i + 1 ≤ round_of idx j =
            later idx i j (==-ne slot j differs) b (omega arith) c le in
          elim missed [
            | inl (_, h') ↦
                probe-missing rounds (i + 1) idx (first_free free slot) free' t ip j ne b c
                  (omega arith) le' h' p
            | inr (_, h') ↦
                probe-missing rounds (i + 1) idx free free' t ip j ne b c (omega arith) le' h' p
          ]
    ]
