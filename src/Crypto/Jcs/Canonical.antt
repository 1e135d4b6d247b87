-- ===== src/Crypto/Jcs/Canonical.antt =====
-- src/crypto/jcs.c: the canonical text and the order of members.
use shellclaw.Common.{
  false, Option, none, some, List, [], ◌∷◌, ◌≡◌, inl, inr, refl, ◌∙◌, ap, Bool-cases, Bytes,
  str_equal, str_equal_iff, str_equal_refl,
}
use shellclaw.Crypto.Jcs.{
  Json, Nodes, Members, insert_key, sort_keys, Rendered, value_of, keys_of, members_from,
  sorted_members, object_text, text_of_members, with_member, serialize, serialize_array, nodes_from,
  rendered_members, canonicalize,
}
use shellclaw.Crypto.Jcs.Order.{
  Same, same, arrays, objects, SameNodes, no_more, each, SameMembers, none_left, keep, swap, after,
  insert_key_comm,
}

-- the same keys and the same text for each of them
record Alike (r s : Rendered) : Type 0 where
  keys : sort_keys (keys_of r) ≡ sort_keys (keys_of s)
  values : (key : Bytes) → value_of r key ≡ value_of s key

BothAlike : Option Rendered → Option Rendered → Type 0
BothAlike none none = Unit
BothAlike none (some s) = none ≡ some s
BothAlike (some r) none = some r ≡ none
BothAlike (some r) (some s) = Alike r s

members_from-Alike :
    (r s : Rendered) (keys : List Bytes)
    → ((key : Bytes) → value_of r key ≡ value_of s key)
    → members_from r keys ≡ members_from s keys
unfolding members_from
members_from-Alike r s [] v = refl
members_from-Alike r s (k ∷ keys) v = rw (v k, members_from-Alike r s keys v) refl

sorted_members-Alike :
    (r s : Rendered) (keys : List Bytes)
    → ((key : Bytes) → value_of r key ≡ value_of s key)
    → sorted_members r keys ≡ sorted_members s keys
sorted_members-Alike r s [] v = refl
sorted_members-Alike r s (k ∷ keys) v = rw (v k, members_from-Alike r s keys v) refl

text_of_members-Alike :
    (r s : Option Rendered) → BothAlike r s → text_of_members r ≡ text_of_members s
unfolding BothAlike object_text
text_of_members-Alike none none a = refl
text_of_members-Alike none (some s) a = cc
text_of_members-Alike (some r) none a = cc
text_of_members-Alike (some r) (some s) a =
    ap (sorted_members r) a.keys ∙ sorted_members-Alike r s (sort_keys (keys_of s)) a.values

with_member-Alike :
    (key value : Option Bytes) (r s : Option Rendered)
    → BothAlike r s
    → BothAlike (with_member key value r) (with_member key value s)
unfolding BothAlike sort_keys value_of
with_member-Alike none value r s a = tt
with_member-Alike (some key) value none none a = tt
with_member-Alike (some key) value none (some s) a = cc
with_member-Alike (some key) value (some r) none a = cc
with_member-Alike (some key) value (some r) (some s) a = record {
  keys = ap (insert_key key) a.keys;
  values = λ k. rw (a.values k) refl;
}

swapped-Alike :
    (k l : Bytes) (x y : Option Bytes) (r : Option Rendered)
    → str_equal k l ≡ false
    → BothAlike
        (with_member (some k) x (with_member (some l) y r))
        (with_member (some l) y (with_member (some k) x r))
unfolding BothAlike sort_keys value_of
swapped-Alike k l x y none d = tt
swapped-Alike k l x y (some r) d = record {
  keys = insert_key_comm k l (sort_keys (keys_of r)) d;
  values = λ key. elim (Bool-cases (str_equal k key)) [
    | inr f ↦ rw f refl
    | inl t ↦
        let is : k ≡ key = (str_equal_iff k key).0 t in
        elim (Bool-cases (str_equal l key)) [
          | inr g ↦ rw (t, g) refl
          | inl u ↦
              let at : l ≡ key = (str_equal_iff l key).0 u in
              cc (rw (is, at) at d, str_equal_refl key)
        ]
  ];
}

BothAlike-trans : (a b c : Option Rendered) → BothAlike a b → BothAlike b c → BothAlike a c
unfolding BothAlike
BothAlike-trans none none c p q = q
BothAlike-trans none (some s) c p q = cc
BothAlike-trans (some r) none c p q = cc
BothAlike-trans (some r) (some s) none p q = cc
BothAlike-trans (some r) (some s) (some t) p q = record {
  keys = p.keys ∙ q.keys;
  values = λ k. p.values k ∙ q.values k;
}

mutual
  unfolding serialize serialize_array nodes_from rendered_members BothAlike

  serialize-Same : (j k : Json) → Same j k → serialize j ≡ serialize k
  serialize-Same j k (same i) = refl
  serialize-Same j k (arrays a b s) = array-Same a b s
  serialize-Same j k (objects a b s) =
      text_of_members-Alike (rendered_members a) (rendered_members b) (members-Same a b s)

  array-Same : (a b : Nodes) → SameNodes a b → serialize_array a ≡ serialize_array b
  array-Same a b no_more = refl
  array-Same a b (each x y c d s t) = rw (serialize-Same x y s, nodes-Same c d t) refl

  nodes-Same : (a b : Nodes) → SameNodes a b → nodes_from a ≡ nodes_from b
  nodes-Same a b no_more = refl
  nodes-Same a b (each x y c d s t) = rw (serialize-Same x y s, nodes-Same c d t) refl

  members-Same :
      (a b : Members) → SameMembers a b → BothAlike (rendered_members a) (rendered_members b)
  members-Same a b none_left = record { keys = refl; values = λ k. refl }
  members-Same a b (keep key x y c d s t) = rw (serialize-Same x y s) (
      with_member-Alike key (serialize y) (rendered_members c) (rendered_members d)
        (members-Same c d t))
  members-Same a b (swap k l x y c d) =
      swapped-Alike k l (serialize x) (serialize y) (rendered_members c) d
  members-Same a b (after c d e s t) =
      BothAlike-trans (rendered_members c) (rendered_members d) (rendered_members e)
        (members-Same c d s) (members-Same d e t)

-- Two trees that differ only in the order of members with different names, at any depth, have the same
-- canonical text, or both have none.
pub canonicalize-Same : (j k : Json) → Same j k → canonicalize j ≡ canonicalize k
canonicalize-Same j k s = serialize-Same j k s
