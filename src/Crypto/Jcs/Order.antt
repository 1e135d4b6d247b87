-- ===== src/Crypto/Jcs/Order.antt =====
-- src/crypto/jcs.c: the order of the members of an object.
use shellclaw.Common.{
  true, false, Option, some, List, [], ◌∷◌, ◌≡◌, inl, inr, refl, ap, arith, Bool-cases, Bytes,
  str_equal,
}
use shellclaw.Crypto.Jcs.{
  Json, array, object, Nodes, no_nodes, node, Members, no_members, member, key_before, insert_key,
}

-- Trees that differ in the order of members with different names, at any depth.
mutual
  pub data Same : Json → Json → Type 0 where
    same : (j : Json) → Same j j
    arrays : (a b : Nodes) → SameNodes a b → Same (array a) (array b)
    objects : (a b : Members) → SameMembers a b → Same (object a) (object b)

  pub data SameNodes : Nodes → Nodes → Type 0 where
    no_more : SameNodes no_nodes no_nodes
    each : (x y : Json) (a b : Nodes) → Same x y → SameNodes a b → SameNodes (node x a) (node y b)

  pub data SameMembers : Members → Members → Type 0 where
    none_left : SameMembers no_members no_members
    keep :
        (key : Option Bytes) (x y : Json) (a b : Members)
        → Same x y
        → SameMembers a b
        → SameMembers (member key x a) (member key y b)
    swap :
        (k l : Bytes) (x y : Json) (a : Members)
        → str_equal k l ≡ false
        → SameMembers
            (member (some k) x (member (some l) y a))
            (member (some l) y (member (some k) x a))
    after : (a b c : Members) → SameMembers a b → SameMembers b c → SameMembers a c

key_before-le_lt :
    (l m k : Bytes) → key_before m l ≡ false → key_before m k ≡ true → key_before l k ≡ true
unfolding key_before
key_before-le_lt l m [] h g = cc
key_before-le_lt [] m (e ∷ k) h g = refl
key_before-le_lt (c ∷ l) [] (e ∷ k) h g = cc
key_before-le_lt (c ∷ l) (d ∷ m) (e ∷ k) h g = ground (arith, key_before-le_lt l m k)

key_before-asym : (k l : Bytes) → key_before k l ≡ true → key_before l k ≡ false
unfolding key_before
key_before-asym k [] h = cc
key_before-asym [] (d ∷ l) h = refl
key_before-asym (c ∷ k) (d ∷ l) h = ground (arith, key_before-asym k l)

key_before-total :
    (k l : Bytes) → str_equal k l ≡ false → key_before k l ≡ false → key_before l k ≡ true
unfolding key_before str_equal
key_before-total [] [] d h = cc
key_before-total [] (e ∷ l) d h = cc
key_before-total (c ∷ k) [] d h = refl
key_before-total (c ∷ k) (e ∷ l) d h = ground (arith, key_before-total k l)

pub insert_key_comm :
    (k l : Bytes) (keys : List Bytes)
    → str_equal k l ≡ false
    → insert_key k (insert_key l keys) ≡ insert_key l (insert_key k keys)
unfolding insert_key
insert_key_comm k l [] d = elim (Bool-cases (key_before k l)) [
  | inl t ↦ rw (t, key_before-asym k l t) refl
  | inr f ↦ rw (f, key_before-total k l d f) refl
]
insert_key_comm k l (m ∷ keys) d = elim (Bool-cases (key_before m k)) [
  | inl a ↦ elim (Bool-cases (key_before m l)) [
    | inl b ↦ rw (a, b, a) (ap (λ (s : List Bytes). m ∷ s) (insert_key_comm k l keys d))
    | inr b ↦ let c = key_before-le_lt l m k b a in rw (a, b, c, a) refl
  ]
  | inr a ↦ elim (Bool-cases (key_before m l)) [
    | inl b ↦ let c = key_before-le_lt k m l a b in rw (a, b, c, a) refl
    | inr b ↦ elim (Bool-cases (key_before k l)) [
      | inl t ↦ let u = key_before-asym k l t in rw (a, b, t, u) refl
      | inr f ↦ let u = key_before-total k l d f in rw (a, b, f, u, a) refl
    ]
  ]
]
