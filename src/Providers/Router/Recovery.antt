-- ===== src/Providers/Router/Recovery.antt =====
-- src/providers/router.c: the periodic attempt to go back to an earlier backend.
use shellclaw.Common.{
  ℕ, zero, suc, ◌+◌, ◌≤◌, ◌<◌, true, false, Option, none, some, List, [], ◌∷◌, ◌≡◌, inl, inr, refl,
  sym, ◌∙◌, ap, arith, Bool-cases, Option-cases, length, get_elem?, ltb, ltb→lt, ◌==◌,
}
use mathlib.Core.Path.{subst}
use mathlib.Core.Option.{some-injective}
use shellclaw.Providers.Router.{
  Backend, World, Router, RouterConfig, probe_backend, first_reachable, recovery_is_early,
  switch_back, tick_with, recovery_tick,
}
use shellclaw.Providers.Router.Walk.{IsConsistent, answered}

-- The backend at a place before the active one answers its probe, and none before it does.
pub record IsFirstReachable (w : World) (cfg : RouterConfig) (bs : List Backend) (active j : ℕ)
    (b : Backend) : Type 0 where
  pub earlier : j < active
  pub stands : get_elem? bs j ≡ some b
  pub answers : probe_backend w cfg b ≡ true
  pub first :
      (i : ℕ) (c : Backend) → i < j → get_elem? bs i ≡ some c → probe_backend w cfg c ≡ false

-- No backend at a place before the active one answers its probe.
abbrev pub NoneReachable : World → RouterConfig → List Backend → ℕ → Type 0
NoneReachable w cfg bs active =
    (i : ℕ) (c : Backend) → i < active → get_elem? bs i ≡ some c → probe_backend w cfg c ≡ false

earlier_too :
    (w : World) (cfg : RouterConfig) (x : Backend) (bs : List Backend) (i : ℕ)
    → probe_backend w cfg x ≡ false
    → ((m : ℕ) (c : Backend) → m < i → get_elem? bs m ≡ some c → probe_backend w cfg c ≡ false)
    → (m : ℕ) (c : Backend) → m < suc i
    → get_elem? (x ∷ bs) m ≡ some c
    → probe_backend w cfg c ≡ false
earlier_too w cfg x bs i p n zero c l g = rw (← some-injective x c g) p
earlier_too w cfg x bs i p n (suc m) c l g = n m c (omega arith) g

module _ (w : World) (cfg : RouterConfig) where
  first_reachable-some :
      (bs : List Backend) (j active k : ℕ) (b : Backend)
      → first_reachable w cfg j active bs ≡ some (k, b)
      → (i : ℕ) × (k ≡ j + i)
        × (k < active)
        × (get_elem? bs i ≡ some b)
        × (probe_backend w cfg b ≡ true)
        × ((m : ℕ) (c : Backend) → m < i → get_elem? bs m ≡ some c → probe_backend w cfg c ≡ false)
  unfolding first_reachable
  first_reachable-some [] j active k b h = cc
  first_reachable-some (x ∷ bs) j active k b h = elim (Bool-cases (ltb j active)) [
    | inr late ↦ cc (rw late at h)
    | inl early ↦ elim (Bool-cases (probe_backend w cfg x)) [
      | inl p ↦
          let e : ◌≡◌ {A = Option (ℕ × Backend)} (some (j, x)) (some (k, b)) = rw (early, p) at h in
          let q = some-injective (j, x) (k, b) e in
          let at : j ≡ k = ap (λ (y : ℕ × Backend). y.0) q in
          let same : x ≡ b = ap (λ (y : ℕ × Backend). y.1) q in
          (
            0,
            omega arith,
            omega (arith, ltb→lt j active early),
            ap some same,
            rw (← same) p,
            λ m c l g. absurd (omega arith),
          )
      | inr p ↦
          let (i, e, l, g, q, n) =
            first_reachable-some bs (j + 1) active k b (rw (early, p) at h) in
          (suc i, omega arith, l, g, q, earlier_too w cfg x bs i p n)
    ]
  ]

  first_reachable-none :
      (bs : List Backend) (j active : ℕ)
      → first_reachable w cfg j active bs ≡ none
      → (i : ℕ) (c : Backend) → j + i < active
      → get_elem? bs i ≡ some c
      → probe_backend w cfg c ≡ false
  unfolding first_reachable
  first_reachable-none [] j active h i c l g = cc
  first_reachable-none (x ∷ bs) j active h zero c l g = ground arith
  first_reachable-none (x ∷ bs) j active h (suc i) c l g =
      let early : ltb j active ≡ true = ground arith in
      elim (Bool-cases (probe_backend w cfg x)) [
        | inl p ↦ cc (rw (early, p) at h)
        | inr p ↦ first_reachable-none bs (j + 1) active (rw (early, p) at h) i c (omega arith) g
      ]

-- What a tick does once it looks at the backends.
pub data Recovered (w : World) (cfg : RouterConfig) (r r' : Router) : Type 0 where
  stays : NoneReachable w cfg r.backends r.snap_chain_ix → r' ≡ r → Recovered w cfg r r'
  switches :
      (j : ℕ) (b : Backend)
      → IsFirstReachable w cfg r.backends r.snap_chain_ix j b
      → r' ≡ answered w r b j
      → Recovered w cfg r r'

switch_back-Recovered :
    (w : World) (cfg : RouterConfig) (r : Router)
    → Recovered w cfg r (switch_back w r (first_reachable w cfg 0 r.snap_chain_ix r.backends))
switch_back-Recovered w cfg r =
    elim (Option-cases (first_reachable w cfg 0 r.snap_chain_ix r.backends)) [
      | inl e ↦ rw e (
          stays
            (λ i c l g.
              first_reachable-none w cfg r.backends 0 r.snap_chain_ix e i c (omega arith) g)
            refl)
      | inr ((k, b), e) ↦
          let (i, at, l, g, q, n) = first_reachable-some w cfg r.backends 0 r.snap_chain_ix k b e in
          let same : i ≡ k = omega arith in
          rw e (
            switches k b
              (record {
                earlier = l;
                stands = rw (← same) g;
                answers = q;
                first = λ m c s. n m c (omega arith);
              })
              refl)
    ]

-- A tick that is due, with a second backend and a fallback active, makes the first backend before the
-- active one that answers its probe the active one, and changes nothing but the time if none does.
pub tick-Recovered :
    (w : World) (cfg : RouterConfig) (r : Router) (now : ℕ)
    → r.cfg ≡ some cfg
    → 2 ≤ length r.backends
    → 0 < r.snap_chain_ix
    → recovery_is_early r now ≡ false
    → Recovered w cfg (record r { recovery_last_wall = now }) (recovery_tick w r now)
unfolding recovery_tick
tick-Recovered w cfg r now c two active due =
    let n : ltb (length r.backends) 2 ≡ false = ground arith in
    let a : (r.snap_chain_ix == 0) ≡ false = ground arith in
    let step : tick_with w r now (some cfg)
        ≡ switch_back w (record r { recovery_last_wall = now })
            (first_reachable w cfg 0 r.snap_chain_ix r.backends) =
      rw (n, a, due) refl in
    subst (λ (r' : Router). Recovered w cfg (record r { recovery_last_wall = now }) r')
      (sym (ap (tick_with w r now) c ∙ step))
      (switch_back-Recovered w cfg (record r { recovery_last_wall = now }))

-- A tick keeps the status consistent, and never moves the active backend down the chain.
pub tick-IsConsistent :
    (w : World) (r : Router) (now : ℕ)
    → IsConsistent w r
    → IsConsistent w (recovery_tick w r now)
      × ((recovery_tick w r now).snap_chain_ix ≤ r.snap_chain_ix)
unfolding recovery_tick
tick-IsConsistent w r now h = with_cfg r.cfg
  where
    idle : IsConsistent w (record r { recovery_last_wall = now })
    idle = record { active = h.active }

    switched :
        (cfg : RouterConfig) (r' : Router)
        → Recovered w cfg (record r { recovery_last_wall = now }) r'
        → IsConsistent w r' × (r'.snap_chain_ix ≤ r.snap_chain_ix)
    switched cfg r' (stays n e) = rw e (idle, omega arith)
    switched cfg r' (switches j b f e) =
        rw e (record { active = inr (b, f.stands, refl) }, omega (arith, f.earlier))

    with_cfg :
        (c : Option RouterConfig)
        → IsConsistent w (tick_with w r now c)
          × ((tick_with w r now c).snap_chain_ix ≤ r.snap_chain_ix)
    with_cfg none = (h, omega arith)
    with_cfg (some cfg) = elim (Bool-cases (ltb (length r.backends) 2)) [
      | inl n ↦ rw n (h, omega arith)
      | inr n ↦ elim (Bool-cases (r.snap_chain_ix == 0)) [
        | inl a ↦ rw (n, a) (h, omega arith)
        | inr a ↦ elim (Bool-cases (recovery_is_early r now)) [
          | inl d ↦ rw (n, a, d) (h, omega arith)
          | inr d ↦
              rw (n, a, d)
                (switched cfg _
                  (switch_back-Recovered w cfg (record r { recovery_last_wall = now })))
        ]
      ]
    ]
