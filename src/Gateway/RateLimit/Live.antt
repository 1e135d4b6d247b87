-- ===== src/Gateway/RateLimit/Live.antt =====
-- src/gateway/rate_limit.c: what one call does to an open window, that of its own address or another.
use shellclaw.Common.{
  ℕ, ◌+◌, ◌-◌, ◌%◌, ◌≤◌, ◌<◌, false, [], ◌∷◌, none, some, ◌≡◌, ◌≢◌, inl, inr, refl, sym, ap, ◌∙◌,
  arith, Bytes, leb, ◌==◌, ==-ne, ==_iff, if◌then◌else◌, length, length-set, get_or-set_self,
  get_or-set_ne, Option-cases, Bool-cases, take-all,
}
use shellclaw.Gateway.RateLimit.{
  Table, RateEntry, blank, slot_at, table_size, ip_buf_size, rate_limit_rpm, rate_window_secs,
  safe_ip, roll, charge, finish, find_or_create, ip_hash, rate_entry_reset, rate_limit_asap,
}
use shellclaw.Gateway.RateLimit.Slots.{Holds, probe-found}
use shellclaw.Gateway.RateLimit.Claim.{Claimed, IsReusable, IsAbsent, find_or_create-Claimed}

-- An address that the table can store whole.
pub record IsAddress (ip : Bytes) : Type 0 where
  pub some_byte : ip ≢ []
  pub fits : length ip < ip_buf_size

-- Slot `s` holds the address, with a window that began at `w` and `c` calls counted in it.
pub record Live (t : Table) (ip : Bytes) (s w c : ℕ) : Type 0 where
  pub sized : length t ≡ table_size
  pub holds : Holds t ip s
  pub start : (slot_at t s).window_start ≡ w
  pub counted : (slot_at t s).count ≡ c

abbrev SameElsewhere : Table → Table → ℕ → Type 0
SameElsewhere t t' s = (j : ℕ) → j ≢ s → slot_at t' j ≡ slot_at t j

module _ (t t' : Table) (ip : Bytes) (s : ℕ) where
  Holds-self : Holds t ip s → SameElsewhere t t' s → (slot_at t' s).ip ≡ ip → Holds t' ip s
  Holds-self h o p = record {
    inside = h.inside;
    here = p;
    only = λ j b q. elim (Bool-cases (j == s)) [
      | inl e ↦ (==_iff j s).0 e
      | inr e ↦ h.only j b (rw (o j (==-ne j s e)) at q)
    ];
  }

  Holds-new :
      IsAbsent t ip → s < table_size → SameElsewhere t t' s → (slot_at t' s).ip ≡ ip → Holds t' ip s
  Holds-new a i o p = record {
    inside = i;
    here = p;
    only = λ j b q. elim (Bool-cases (j == s)) [
      | inl e ↦ (==_iff j s).0 e
      | inr e ↦ absurd (a j b (rw (o j (==-ne j s e)) at q))
    ];
  }

  Holds-ne :
      (s' : ℕ)
      → Holds t ip s
      → SameElsewhere t t' s'
      → s ≢ s'
      → (slot_at t' s').ip ≢ ip
      → Holds t' ip s
  Holds-ne s' h o n d = record {
    inside = h.inside;
    here = rw (o s n) h.here;
    only = λ j b q. elim (Bool-cases (j == s')) [
      | inl e ↦ absurd (d (rw ((==_iff j s').0 e) at q))
      | inr e ↦ h.only j b (rw (o j (==-ne j s' e)) at q)
    ];
  }

find_or_create-found :
    (t : Table) (ip : Bytes) (now s : ℕ)
    → Holds t ip s
    → ip ≢ []
    → find_or_create t ip now ≡ some (s, t)
unfolding find_or_create
find_or_create-found t ip now s h ne = rw (
    probe-found table_size 0 (ip_hash ip % table_size) none t ip s h ne (omega arith) (omega arith)
      (omega arith))

safe_ip-some : (ip : Bytes) → ip ≢ [] → safe_ip (some ip) ≡ ip
safe_ip-some [] ne = absurd (ne refl)
safe_ip-some (x ∷ ip) ne = refl

-- the entry that a call of its own address leaves
abbrev charged : RateEntry → ℕ → RateEntry
charged e now = (charge (roll e now)).1

charged-ip : (e : RateEntry) (now : ℕ) → (charged e now).ip ≡ e.ip
charged-ip e now = ground arith

finish-others : (t t' : Table) (s now : ℕ) → SameElsewhere t' (finish t (some (s, t')) now).1 s
finish-others t t' s now j n = get_or-set_ne t' s j _ blank (λ e. n (sym e))

finish-here :
    (t t' : Table) (s now : ℕ)
    → s < length t'
    → slot_at (finish t (some (s, t')) now).1 s ≡ charged (slot_at t' s) now
finish-here t t' s now b = get_or-set_self t' s _ blank b

finish-length : (t t' : Table) (s now : ℕ) → length (finish t (some (s, t')) now).1 ≡ length t'
finish-length t t' s now = length-set t' s _

finish-Live :
    (t t' : Table) (ip : Bytes) (s now w c : ℕ)
    → length t' ≡ table_size
    → Holds t' ip s
    → (charged (slot_at t' s) now).window_start ≡ w
    → (charged (slot_at t' s) now).count ≡ c
    → Live (finish t (some (s, t')) now).1 ip s w c
finish-Live t t' ip s now w c z h p q =
    let e : slot_at (finish t (some (s, t')) now).1 s ≡ charged (slot_at t' s) now =
      finish-here t t' s now (rw z h.inside) in
    record {
      sized = finish-length t t' s now ∙ z;
      holds =
          Holds-self t' _ ip s h (finish-others t t' s now)
            (ap (λ (x : RateEntry). x.ip) e ∙ charged-ip (slot_at t' s) now ∙ h.here);
      start = ap (λ (x : RateEntry). x.window_start) e ∙ p;
      counted = ap (λ (x : RateEntry). x.count) e ∙ q;
    }

charged-open :
    (e : RateEntry) (w c now : ℕ)
    → e.window_start ≡ w
    → e.count ≡ c
    → now < w + rate_window_secs
    → ((charge (roll e now)).0 ≡ leb rate_limit_rpm c)
      × ((charged e now).window_start ≡ w)
      × ((charged e now).count ≡ (if leb rate_limit_rpm c then c else c + 1))
charged-open e w c now p q b = ground arith

charged-over :
    (e : RateEntry) (now : ℕ)
    → e.window_start + rate_window_secs ≤ now
    → ((charge (roll e now)).0 ≡ false)
      × ((charged e now).window_start ≡ now)
      × ((charged e now).count ≡ 1)
charged-over e now b = ground arith

module _ (t : Table) (ip : Bytes) (s w c now : ℕ) (a : IsAddress ip) (l : Live t ip s w c) where
  live_step : rate_limit_asap t (some ip) now ≡ finish t (some (s, t)) now
  unfolding rate_limit_asap
  live_step = rw (safe_ip-some ip a.some_byte, find_or_create-found t ip now s l.holds a.some_byte)

  -- A call of the address itself while its window is open is refused exactly when the count is full,
  -- and is counted otherwise.
  pub Live-call :
      now < w + rate_window_secs
      → ((rate_limit_asap t (some ip) now).0 ≡ leb rate_limit_rpm c)
        × Live
            (rate_limit_asap t (some ip) now).1
            ip
            s
            w
            (if leb rate_limit_rpm c then c else c + 1)
  Live-call b =
      let (r, p, q) = charged-open (slot_at t s) w c now l.start l.counted b in
      rw live_step (r, finish-Live t t ip s now w _ l.sized l.holds p q)

  -- Once the window is over, the next call passes and opens a new one.
  pub Live-renewed :
      w + rate_window_secs ≤ now
      → ((rate_limit_asap t (some ip) now).0 ≡ false)
        × Live (rate_limit_asap t (some ip) now).1 ip s now 1
  Live-renewed b =
      let (r, p, q) = charged-over (slot_at t s) now (rw l.start b) in
      rw live_step (r, finish-Live t t ip s now now 1 l.sized l.holds p q)

reset-ip : (ip : Bytes) (now : ℕ) → IsAddress ip → (rate_entry_reset ip now).ip ≡ ip
reset-ip ip now a = take-all (ip_buf_size - 1) ip (omega (arith, a.fits))

opened_Live :
    (t t' : Table) (ip : Bytes) (s now : ℕ)
    → IsAddress ip
    → IsAbsent t ip
    → Claimed t t' ip now s
    → Live (finish t (some (s, t')) now).1 ip s now 1
opened_Live t t' ip s now a n k = elim k.how [
  | inl (here, _) ↦ absurd (n s k.inside here)
  | inr o ↦
      let h =
        Holds-new t t' ip s n k.inside k.others
          (ap (λ (e : RateEntry). e.ip) o.fresh ∙ reset-ip ip now a) in
      let (r, p, q) =
        charged-open (slot_at t' s) now 0 now (ap (λ (e : RateEntry). e.window_start) o.fresh)
          (ap (λ (e : RateEntry). e.count) o.fresh) (omega arith) in
      finish-Live t t' ip s now now 1 k.sized h p q
]

-- The first call of an address that passes leaves a window with one call counted.
pub first_call :
    (t : Table) (ip : Bytes) (now : ℕ)
    → IsAddress ip
    → length t ≡ table_size
    → IsAbsent t ip
    → (rate_limit_asap t (some ip) now).0 ≡ false
    → (s : ℕ) × Live (rate_limit_asap t (some ip) now).1 ip s now 1
unfolding rate_limit_asap
first_call t ip now a z n h =
    let h' : (finish t (find_or_create t ip now) now).0 ≡ false =
      rw (safe_ip-some ip a.some_byte) at h in
    elim (Option-cases (find_or_create t ip now)) [
      | inl e ↦ absurd (ground arith)
      | inr ((s, t'), e) ↦ (
        s,
        rw (safe_ip-some ip a.some_byte, e)
            (opened_Live t t' ip s now a n (find_or_create-Claimed t t' ip now s z a.some_byte e)),
      )
    ]

not-IsReusable :
    (e : RateEntry) (x : Bytes) (w now : ℕ)
    → e.ip ≡ x
    → x ≢ []
    → e.window_start ≡ w
    → now < w + rate_window_secs
    → ¬ IsReusable e now
not-IsReusable e x w now here ne p b (inl q) = ne (sym here ∙ q)
not-IsReusable e x w now here ne p b (inr q) = absurd (ground arith)

-- the table after a call that found a slot
module _ (t t' : Table) (ip x : Bytes) (s s' now w c : ℕ) where
  keep_Live :
      Live t x s w c
      → s ≢ s'
      → s' < table_size
      → length t' ≡ table_size
      → SameElsewhere t t' s'
      → (slot_at t' s').ip ≢ x
      → Live (finish t (some (s', t')) now).1 x s w c
  keep_Live l n i z o d =
      let o' : SameElsewhere t (finish t (some (s', t')) now).1 s' =
        λ j m. finish-others t t' s' now j m ∙ o j m in
      record {
        sized = finish-length t t' s' now ∙ z;
        holds = Holds-ne t _ x s s' l.holds o' n (λ p. d (
            sym (charged-ip (slot_at t' s') now)
            ∙ ap (λ (e : RateEntry). e.ip) (sym (finish-here t t' s' now (rw z i)))
            ∙ p));
        start = ap (λ (e : RateEntry). e.window_start) (o' s n) ∙ l.start;
        counted = ap (λ (e : RateEntry). e.count) (o' s n) ∙ l.counted;
      }

  Claimed-keeps :
      IsAddress ip
      → IsAddress x
      → ip ≢ x
      → now < w + rate_window_secs
      → Live t x s w c
      → Claimed t t' ip now s'
      → (s ≢ s') × ((slot_at t' s').ip ≡ ip)
  Claimed-keeps a b d within l k = elim k.how [
    | inl (here, same) ↦ (
      (λ e. d (sym here ∙ ap (λ (j : ℕ). (slot_at t j).ip) (sym e) ∙ l.holds.here)),
      rw same here,
    )
    | inr o ↦ (
      (λ e.
          not-IsReusable (slot_at t s) x w now l.holds.here b.some_byte l.start within
            (rw e o.was)),
      ap (λ (e : RateEntry). e.ip) o.fresh ∙ reset-ip ip now a,
    )
  ]

-- A call of another address leaves an open window as it is.
pub other_call :
    (t : Table) (ip x : Bytes) (s now w c : ℕ)
    → IsAddress ip
    → IsAddress x
    → ip ≢ x
    → now < w + rate_window_secs
    → Live t x s w c
    → Live (rate_limit_asap t (some ip) now).1 x s w c
unfolding rate_limit_asap
other_call t ip x s now w c a b d within l =
    rw (safe_ip-some ip a.some_byte) (elim (Option-cases (find_or_create t ip now)) [
      | inl e ↦ rw e l
      | inr ((s', t'), e) ↦
          let k = find_or_create-Claimed t t' ip now s' l.sized a.some_byte e in
          let (n, q) = Claimed-keeps t t' ip x s s' now w c a b d within l k in
          rw e (keep_Live t t' ip x s s' now w c l n k.inside k.sized k.others (λ p. d (sym q ∙ p)))
    ])
