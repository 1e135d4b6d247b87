-- ===== src/Providers/Router/Init.antt =====
-- src/providers/router.c: the list of backends that the initialisation collects.
use shellclaw.Common.{
  ℕ, ◌+◌, ◌≤◌, Bool, true, false, ◌&&◌, ◌||◌, not, Option, none, some, List, [], ◌∷◌, ◌++◌, ◌≡◌,
  inl, inr, refl, arith, Bool-cases, Option-cases, Bytes, length, take, is_empty, leb, ◌-◌,
  if◌then◌else◌,
}
use shellclaw.Providers.Router.{
  Backend, stub, stub_b, anthropic, openai, local, same_backend, World, Router, RouterConfig,
  lookup_backend, backends_contains, router_backend_max, is_success, snap_clear_all,
  clear_backends_list, collect_backends, init_finish, composite_init, snap_act_sz, or_empty,
}

abbrev pub occurrences : Backend → List Backend → ℕ
occurrences p [] = 0
occurrences p (b ∷ bs) = (if same_backend b p then 1 else 0) + occurrences p bs

-- Some entry of the chain names the backend.
abbrev pub is_named : Backend → List (Option Bytes) → Bool
is_named p [] = false
is_named p (none ∷ chain) = is_named p chain
is_named p (some nm ∷ chain) =
    elim (lookup_backend nm) [ none ↦ false | some b ↦ same_backend b p ] || is_named p chain

same_backend_refl : (p : Backend) → same_backend p p ≡ true
same_backend_refl stub = refl
same_backend_refl _ = refl

same_backend-eq : (a b : Backend) → same_backend a b ≡ true → a ≡ b
same_backend-eq a b h = ground arith

contains-append :
    (xs : List Backend) (q p : Backend)
    → backends_contains (xs ++ q ∷ []) p ≡ (backends_contains xs p || same_backend q p)
unfolding backends_contains
contains-append [] q p = ground arith
contains-append (x ∷ xs) q p = ground (arith, contains-append xs q p)

occurrences-append :
    (xs : List Backend) (q p : Backend)
    → occurrences p (xs ++ q ∷ []) ≡ occurrences p xs + (if same_backend q p then 1 else 0)
occurrences-append [] q p = omega arith
occurrences-append (x ∷ xs) q p = omega (arith, occurrences-append xs q p)

occurrences-absent :
    (xs : List Backend) (p : Backend) → backends_contains xs p ≡ false → occurrences p xs ≡ 0
unfolding backends_contains
occurrences-absent [] p h = refl
occurrences-absent (x ∷ xs) p h = ground (arith, occurrences-absent xs p)

length-occurrences :
    (xs : List Backend)
    → length xs
      ≡ occurrences stub xs
        + occurrences stub_b xs
        + occurrences anthropic xs
        + occurrences openai xs
        + occurrences local xs
length-occurrences [] = omega arith
length-occurrences (stub ∷ xs) = omega (arith, length-occurrences xs)
length-occurrences (stub_b ∷ xs) = omega (arith, length-occurrences xs)
length-occurrences (anthropic ∷ xs) = omega (arith, length-occurrences xs)
length-occurrences (openai ∷ xs) = omega (arith, length-occurrences xs)
length-occurrences (local ∷ xs) = omega (arith, length-occurrences xs)

abbrev pub IsDistinct : List Backend → Type 0
IsDistinct bs = (p : Backend) → occurrences p bs ≤ 1

IsDistinct-append :
    (xs : List Backend) (q : Backend)
    → IsDistinct xs
    → backends_contains xs q ≡ false
    → IsDistinct (xs ++ q ∷ [])
IsDistinct-append xs q h n p = elim (Bool-cases (same_backend q p)) [
  | inl same ↦
      let e = same_backend-eq q p same in
      rw (occurrences-append xs q p, same, ← e, occurrences-absent xs q n) (omega arith)
  | inr other ↦ rw (occurrences-append xs q p, other) (omega (arith, h p))
]

-- five backends never fill the list
room : (xs : List Backend) → IsDistinct xs → leb router_backend_max (length xs) ≡ false
room xs h =
    let l = length-occurrences xs in
    let b : length xs ≤ 5 = omega (arith, h stub, h stub_b, h anthropic, h openai, h local) in
    ground arith

module _ (w : World) where
  collect-IsDistinct :
      (chain : List (Option Bytes)) (acc : List Backend)
      → IsDistinct acc
      → IsDistinct (collect_backends w chain acc)
  unfolding collect_backends
  collect-IsDistinct [] acc h = h
  collect-IsDistinct (none ∷ chain) acc h = collect-IsDistinct chain acc h
  collect-IsDistinct (some nm ∷ chain) acc h = elim (Option-cases (lookup_backend nm)) [
    | inl e ↦ rw (e, collect_backends) (collect-IsDistinct chain acc h)
    | inr (p, e) ↦
        rw (e, collect_backends)
          (elim (Bool-cases (backends_contains acc p)) [
            | inl c ↦ rw c (collect-IsDistinct chain acc h)
            | inr c ↦ elim (Bool-cases (w.init p)) [
              | inl i ↦
                  rw (c, i, room acc h)
                    (collect-IsDistinct chain (acc ++ p ∷ []) (IsDistinct-append acc p h c))
              | inr i ↦ rw (c, i) (collect-IsDistinct chain acc h)
            ]
          ])
  ]

  collect-contains :
      (chain : List (Option Bytes)) (acc : List Backend) (p : Backend)
      → IsDistinct acc
      → backends_contains (collect_backends w chain acc) p
        ≡ (backends_contains acc p || (is_named p chain && w.init p))
  unfolding collect_backends
  collect-contains [] acc p h = ground arith
  collect-contains (none ∷ chain) acc p h = collect-contains chain acc p h
  collect-contains (some nm ∷ chain) acc p h = elim (Option-cases (lookup_backend nm)) [
    | inl e ↦ rw (e, collect_backends) (collect-contains chain acc p h)
    | inr (q, e) ↦
        rw (e, collect_backends)
          (elim (Bool-cases (backends_contains acc q)) [
            | inl c ↦ rw c (ground (arith, collect-contains chain acc p h, same_backend-eq q p))
            | inr c ↦ elim (Bool-cases (w.init q)) [
              | inl i ↦
                  let h' = IsDistinct-append acc q h c in
                  rw (c, i, room acc h)
                    (ground (
                      arith,
                      collect-contains chain (acc ++ q ∷ []) p h',
                      contains-append acc q p,
                      same_backend-eq q p,
                    ))
              | inr i ↦
                  rw (c, i) (ground (arith, collect-contains chain acc p h, same_backend-eq q p))
            ]
          ])
  ]

-- What a configuration makes of the list of backends.
pub record IsCollected (w : World) (cfg : RouterConfig) (bs : List Backend) : Type 0 where
  pub distinct : IsDistinct bs
  pub complete :
      (p : Backend) → backends_contains bs p ≡ (is_named p cfg.fallback_chain && w.init p)

collect-IsCollected :
    (w : World) (cfg : RouterConfig) → IsCollected w cfg (collect_backends w cfg.fallback_chain [])
unfolding backends_contains
collect-IsCollected w cfg = record {
  distinct = collect-IsDistinct w cfg.fallback_chain [] (λ p. omega arith);
  complete = λ p. collect-contains w cfg.fallback_chain [] p (λ q. omega arith);
}

is_named-empty :
    (p : Backend) (chain : List (Option Bytes)) → is_empty chain ≡ true → is_named p chain ≡ false
is_named-empty p [] e = refl
is_named-empty p (c ∷ chain) e = cc

empty-IsCollected :
    (w : World) (cfg : RouterConfig) → is_empty cfg.fallback_chain ≡ true → IsCollected w cfg []
unfolding backends_contains
empty-IsCollected w cfg e = record {
  distinct = λ p. omega arith;
  complete = λ p. rw (is_named-empty p cfg.fallback_chain e) refl;
}

-- nothing is collected, or the status names the first that is
pub data NamesFirst (w : World) (r : Router) : Type 0 where
  no_backend : r.backends ≡ [] → NamesFirst w r
  names :
      (b : Backend) (bs : List Backend)
      → r.backends ≡ b ∷ bs
      → r.snap_chain_ix ≡ 0
      → r.snap_act ≡ take (snap_act_sz - 1) (or_empty (w.name b))
      → NamesFirst w r

finish-IsCollected :
    (w : World) (r : Router) (cfg : RouterConfig) (now : ℕ) (bs : List Backend)
    → IsCollected w cfg bs
    → IsCollected w cfg (init_finish w r now bs).1.backends
      × (is_success (init_finish w r now bs).0 ≡ not (is_empty (init_finish w r now bs).1.backends))
      × NamesFirst w (init_finish w r now bs).1
finish-IsCollected w r cfg now [] h = (h, refl, no_backend refl)
finish-IsCollected w r cfg now (b ∷ bs) h = (h, refl, names b bs refl refl refl)

-- The initialisation keeps exactly the backends that the chain names, under any case of the letters,
-- and whose own initialisation succeeds, each once; it succeeds exactly if there is one, and then the
-- status names the first of them.
pub init-IsCollected :
    (w : World) (r : Router) (cfg : RouterConfig) (now : ℕ)
    → IsCollected w cfg (composite_init w r (some cfg) now).1.backends
      × (is_success (composite_init w r (some cfg) now).0
          ≡ not (is_empty (composite_init w r (some cfg) now).1.backends))
      × NamesFirst w (composite_init w r (some cfg) now).1
unfolding composite_init
init-IsCollected w r cfg now = elim (Bool-cases (is_empty cfg.fallback_chain)) [
  | inl e ↦ rw e (empty-IsCollected w cfg e, refl, no_backend refl)
  | inr e ↦ rw e (
      finish-IsCollected w (record (snap_clear_all (clear_backends_list r)) { cfg = some cfg }) cfg
        now (collect_backends w cfg.fallback_chain []) (collect-IsCollected w cfg))
]
