-- ===== src/Providers/Model/Vendor.antt =====
-- src/providers/provider_common.c: a model id with a vendor in front of it.
use shellclaw.Common.{
  suc, ◌-◌, Bool, true, false, ◌&&◌, ◌||◌, not, Option, none, some, [], ◌∷◌, ◌++◌, ◌≡◌, ◌≢◌, refl,
  sym, ◌∙◌, ap, arith, inl, inr, ◌==◌, ==_iff, ==-ne, if◌then◌else◌, Bytes, is_empty, length,
  length-append, take, strchr, Bool-cases,
}
use shellclaw.Providers.Model.{
  case_equal, vendor_matches_backend, vendor_model, model_id_for_backend,
}

abbrev pub has_slash : Bytes → Bool
has_slash [] = false
has_slash (c ∷ cs) = c == b'/' || has_slash cs

-- What a model id with a vendor should give: the rest, if it is well formed and its vendor is the
-- backend under any case of the letters.
abbrev pub resolved : Bytes → Bytes → Bytes → Option Bytes
resolved vendor rest backend =
    if not (is_empty vendor)
      && not (is_empty rest)
      && not (has_slash rest)
      && case_equal vendor backend
    then some rest
    else none

not_empty : (s : Bytes) → s ≢ [] → is_empty s ≡ false
not_empty [] ne = absurd (ne refl)
not_empty (c ∷ s) ne = refl

append_not_empty : (s rest : Bytes) → is_empty (s ++ (b'/' ∷ rest)) ≡ false
append_not_empty [] rest = refl
append_not_empty (c ∷ s) rest = refl

strchr-slash :
    (vendor rest : Bytes)
    → has_slash vendor ≡ false
    → strchr (vendor ++ (b'/' ∷ rest)) b'/' ≡ some (b'/' ∷ rest)
unfolding strchr
strchr-slash [] rest h = refl
strchr-slash (c ∷ vendor) rest h = ground (arith, strchr-slash vendor rest)

strchr-none : (s : Bytes) → has_slash s ≡ false → strchr s b'/' ≡ none
unfolding strchr
strchr-none [] h = refl
strchr-none (c ∷ s) h = ground (arith, strchr-none s)

strchr-some : (s : Bytes) → has_slash s ≡ true → (p : Bytes) × (strchr s b'/' ≡ some p)
unfolding strchr
strchr-some (c ∷ s) h = elim (Bool-cases (c == b'/')) [
  | inl e ↦ (c ∷ s, rw e)
  | inr e ↦ let (p, q) = strchr-some s (rw e at h) in (p, rw e q)
]
strchr-some [] h = cc

take-append : (xs ys : Bytes) → take (length xs) (xs ++ ys) ≡ xs
take-append [] ys = refl
take-append (x ∷ xs) ys = ap (◌∷◌ x) (take-append xs ys)

case_equal-length : (a b : Bytes) → case_equal a b ≡ true → length a ≡ length b
unfolding case_equal
case_equal-length [] [] h = refl
case_equal-length (x ∷ a) (y ∷ b) h = ap suc (case_equal-length a b (ground arith))
case_equal-length _ _ h = cc

vendor_matches :
    (vendor rest backend : Bytes)
    → vendor_matches_backend (vendor ++ rest) (length vendor) backend ≡ case_equal vendor backend
unfolding vendor_matches_backend
vendor_matches vendor rest backend = elim (Bool-cases (length vendor == length backend)) [
  | inl e ↦
      let l : length backend ≡ length vendor =
        sym ((==_iff (length vendor) (length backend)).0 e) in
      rw e (rw l (ap (λ (v : Bytes). case_equal v backend) (take-append vendor rest)))
  | inr e ↦ elim (Bool-cases (case_equal vendor backend)) [
    | inl c ↦ absurd (==-ne (length vendor) (length backend) e (case_equal-length vendor backend c))
    | inr c ↦ rw (e, c)
  ]
]

splits_at :
    (vendor rest backend : Bytes)
    → has_slash vendor ≡ false
    → backend ≢ []
    → model_id_for_backend (vendor ++ (b'/' ∷ rest)) backend
      ≡ vendor_model (vendor ++ (b'/' ∷ rest)) (length vendor) rest backend
unfolding model_id_for_backend
splits_at vendor rest backend h ne =
    let at = strchr-slash vendor rest h in
    let len : length (vendor ++ (b'/' ∷ rest)) - length (b'/' ∷ rest) ≡ length vendor =
      omega (arith, length-append vendor (b'/' ∷ rest)) in
    let filled = append_not_empty vendor rest in
    let named = not_empty backend ne in
    rw (filled, named) (rw (at, model_id_for_backend) (rw len refl))

is_empty-length : (s : Bytes) → (length s == 0) ≡ is_empty s
is_empty-length [] = refl
is_empty-length (c ∷ s) = ground arith

vendor_model-resolved :
    (vendor rest tail backend : Bytes)
    → vendor_model (vendor ++ tail) (length vendor) rest backend ≡ resolved vendor rest backend
unfolding vendor_model
vendor_model-resolved vendor rest tail backend =
    rw (is_empty-length vendor, vendor_matches vendor tail backend)
      (elim (Bool-cases (has_slash rest)) [
        | inl s ↦ let (p, e) = strchr-some rest s in rw (s, e) (ground arith)
        | inr s ↦ rw (s, strchr-none rest s) (ground arith)
      ])

-- For every model id with a slash, split at its first one: the rest is sent if the vendor and the
-- rest are not empty, the rest has no further slash, and the vendor is the backend's name under any
-- case of the letters; otherwise the backend is skipped.
pub model_id-resolved :
    (vendor rest backend : Bytes)
    → has_slash vendor ≡ false
    → backend ≢ []
    → model_id_for_backend (vendor ++ (b'/' ∷ rest)) backend ≡ resolved vendor rest backend
model_id-resolved vendor rest backend h ne =
    splits_at vendor rest backend h ne ∙ vendor_model-resolved vendor rest (b'/' ∷ rest) backend
