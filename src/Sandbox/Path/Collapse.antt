-- ===== src/Sandbox/Path/Collapse.antt =====
-- src/sandbox/allowlist_path.c: the segments that are left of a collapsed path.
use mathlib.Core.Option.{some-injective}
use mathlib.Core.Path.{subst}
use shellclaw.Common.{
  ℕ, Bool, false, ◌||◌, some, List, [], ◌∷◌, ◌++◌, ◌≡◌, inl, inr, arith, Bytes, codes, Bool-cases,
  leb, ◌==◌, is_empty, length, str_equal,
}
use shellclaw.Sandbox.Path.{FileSystem, segments, drop_last, stacked_is_link, collapse_segments}

abbrev pub NoSlash : Bytes → Type 0
NoSlash [] = Unit
NoSlash (c ∷ cs) = ((c == b'/') ≡ false) × NoSlash cs

-- a name that stays where it is: not empty, not "." or "..", and without a slash
pub record IsName (seg : Bytes) : Type 0 where
  pub filled : is_empty seg ≡ false
  pub no_dot : str_equal seg (codes ".") ≡ false
  pub no_dots : str_equal seg (codes "..") ≡ false
  pub no_slash : NoSlash seg

abbrev pub AllNames : List Bytes → Type 0
AllNames [] = Unit
AllNames (x ∷ xs) = IsName x × AllNames xs

abbrev AllWhole : List Bytes → Type 0
AllWhole [] = Unit
AllWhole (x ∷ xs) = NoSlash x × AllWhole xs

NoSlash-append : (s : Bytes) (c : ℕ) → NoSlash s → (c == b'/') ≡ false → NoSlash (s ++ c ∷ [])
NoSlash-append [] c h l = (l, tt)
NoSlash-append (x ∷ s) c h l = (h.0, NoSlash-append s c h.1 l)

segments-AllWhole : (seg s : Bytes) → NoSlash seg → AllWhole (segments seg s)
unfolding segments
segments-AllWhole seg [] h = (h, tt)
segments-AllWhole seg (c ∷ cs) h = elim (Bool-cases (c == b'/')) [
  | inl e ↦ rw e (h, segments-AllWhole [] cs tt)
  | inr e ↦ rw e (segments-AllWhole (seg ++ c ∷ []) cs (NoSlash-append seg c h e))
]

AllNames-append : (xs : List Bytes) (x : Bytes) → AllNames xs → IsName x → AllNames (xs ++ x ∷ [])
AllNames-append [] x h n = (n, tt)
AllNames-append (y ∷ xs) x h n = (h.0, AllNames-append xs x h.1 n)

drop_last-AllNames : (xs : List Bytes) → AllNames xs → AllNames (drop_last xs)
unfolding drop_last
drop_last-AllNames [] h = tt
drop_last-AllNames (x ∷ []) h = tt
drop_last-AllNames (x ∷ y ∷ ys) h = (h.0, drop_last-AllNames (y ∷ ys) h.1)

collapse_from-AllNames :
    (fs : FileSystem) (absolute : Bool) (parts segs out : List Bytes)
    → AllNames parts
    → AllWhole segs
    → collapse_segments fs absolute parts segs ≡ some out
    → AllNames out
unfolding collapse_segments
collapse_from-AllNames fs a parts [] out n w h = subst AllNames (some-injective parts out h) n
collapse_from-AllNames fs a parts (seg ∷ segs) out n w h =
    elim (Bool-cases (is_empty seg || str_equal seg (codes "."))) [
      | inl skip ↦ collapse_from-AllNames fs a parts segs out n w.1 (rw skip at h)
      | inr keep ↦ elim (Bool-cases (str_equal seg (codes ".."))) [
        | inl dots ↦ elim (Bool-cases (is_empty parts)) [
          | inl top ↦ collapse_from-AllNames fs a parts segs out n w.1 (rw (keep, dots, top) at h)
          | inr deep ↦ elim (Bool-cases (stacked_is_link fs parts a)) [
            | inl link ↦ cc (rw (keep, dots, deep, link) at h)
            | inr no_link ↦
                collapse_from-AllNames fs a (drop_last parts) segs out (drop_last-AllNames parts n)
                  w.1 (rw (keep, dots, deep, no_link) at h)
          ]
        ]
        | inr name ↦ elim (Bool-cases (leb 2048 (length parts))) [
          | inl full ↦ cc (rw (keep, name, full) at h)
          | inr room ↦
              let is_name : IsName seg = record {
                filled = ground (arith, keep);
                no_dot = ground (arith, keep);
                no_dots = name;
                no_slash = w.0;
              } in
              collapse_from-AllNames fs a (parts ++ seg ∷ []) segs out
                (AllNames-append parts seg n is_name) w.1 (rw (keep, name, room) at h)
        ]
      ]
    ]

-- Where a path is collapsed, no empty segment, no "." and no ".." is left, and no segment has a slash.
pub collapse_segments-AllNames :
    (fs : FileSystem) (absolute : Bool) (path : Bytes) (out : List Bytes)
    → collapse_segments fs absolute [] (segments [] path) ≡ some out
    → AllNames out
collapse_segments-AllNames fs absolute path out h =
    collapse_from-AllNames fs absolute [] (segments [] path) out tt (segments-AllWhole [] path tt) h
