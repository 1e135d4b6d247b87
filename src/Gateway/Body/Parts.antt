-- ===== src/Gateway/Body/Parts.antt =====
-- src/gateway/asap_http_body.c: the body after any number of parts.
use mathlib.Core.List.{append_assoc, append-nil}
use mathlib.Core.Path.{subst}
use shellclaw.Common.{
  ℕ, zero, suc, ◌+◌, ◌-◌, ◌≤◌, Bool, true, false, ◌||◌, Option, none, some, List, [], ◌∷◌, ◌++◌,
  ◌≡◌, refl, sym, ◌∙◌, ap, arith, ltb, if◌then◌else◌, Bytes, length, length-append, length-take,
  take, min, decimal, read_digits,
}
use shellclaw.Gateway.Ws.Routing.{
  decimal_fuel-Starts, read_digits-decimal, small_signed, strtol-digit,
}
use shellclaw.Gateway.Body.{
  Body, append_dyn, append_static, append_part, asap_body_max, parse_content_length, with_capacity,
  init_from_request,
}

abbrev pub append_all : ℕ → Body → List Bytes → Body
append_all buf_size body [] = body
append_all buf_size body (p ∷ ps) = append_all buf_size (append_part buf_size body p) ps

abbrev pub whole : List Bytes → Bytes
whole [] = []
whole (p ∷ ps) = p ++ whole ps

-- what has arrived, cut to the capacity, and whether something was cut
pub record Holds (b : Body) (room : ℕ) (arrived : Bytes) : Type 0 where
  pub dynamic : b.use_dyn_body ≡ true
  pub capacity : b.body_dyn_cap ≡ room
  pub kept : b.body_dyn ≡ take room arrived
  pub cut : b.body_too_large ≡ ltb room (length arrived)

take-append :
    (n : ℕ) (xs ys : Bytes) → take n (xs ++ ys) ≡ take n xs ++ take (n - length (take n xs)) ys
take-append zero xs ys = refl
take-append (suc n) [] ys = let e : suc n ≡ suc n - 0 = omega arith in ap (λ (k : ℕ). take k ys) e
take-append (suc n) (x ∷ xs) ys =
    let e : n - length (take n xs) ≡ suc n - suc (length (take n xs)) = omega arith in
    ap (◌∷◌ x) (take-append n xs ys ∙ ap (λ (k : ℕ). take n xs ++ take k ys) e)

cut_either :
    (room l d p t : ℕ) → d ≡ min room l → t ≡ l + p → (ltb room l || ltb (room - d) p) ≡ ltb room t
cut_either room l d p t e f = ground arith

append-Holds :
    (buf_size room : ℕ) (b : Body) (arrived part : Bytes)
    → Holds b room arrived
    → Holds (append_part buf_size b part) room (arrived ++ part)
unfolding append_part
append-Holds buf_size room b arrived part h =
    let added : Holds (append_dyn b part) room (arrived ++ part) = record {
      dynamic = h.dynamic;
      capacity = h.capacity;
      kept = rw (h.kept, h.capacity) (sym (take-append room arrived part));
      cut =
          rw (h.cut, h.capacity, h.kept)
            (cut_either room (length arrived) (length (take room arrived)) (length part)
              (length (arrived ++ part)) (length-take room arrived) (length-append arrived part));
    } in
    subst
      (λ (x : Bool).
        Holds (if x then append_dyn b part else append_static buf_size b part) room
          (arrived ++ part))
      (sym h.dynamic) added

append_all-Holds :
    (buf_size room : ℕ) (b : Body) (arrived : Bytes) (parts : List Bytes)
    → Holds b room arrived
    → Holds (append_all buf_size b parts) room (arrived ++ whole parts)
append_all-Holds buf_size room b arrived [] h = rw (append-nil arrived) h
append_all-Holds buf_size room b arrived (p ∷ ps) h =
    subst (Holds (append_all buf_size (append_part buf_size b p) ps) room)
      (append_assoc arrived p (whole ps))
      (append_all-Holds buf_size room (append_part buf_size b p) (arrived ++ p) ps
        (append-Holds buf_size room b arrived p h))

take-nil : (n : ℕ) → take {A = ℕ} n [] ≡ []
take-nil zero = refl
take-nil (suc n) = refl

-- a capacity that a request may have
abbrev room_of : ℕ → ℕ
room_of cl = if ltb 0 cl then cl else asap_body_max

opened-Holds : (b : Body) (cl : ℕ) → Holds (with_capacity b cl) (room_of cl) []
opened-Holds b cl = record {
  dynamic = refl;
  capacity = refl;
  kept = sym (take-nil (room_of cl));
  cut = none_cut (room_of cl);
}
  where
    none_cut : (n : ℕ) → false ≡ ltb n 0
    none_cut n = ground arith

-- the header of a request that gives a length, in decimal digits, or none
abbrev pub header_of : Option ℕ → Option Bytes
header_of none = none
header_of (some n) = some (decimal n)

abbrev pub IsAllowed : Option ℕ → Type 0
IsAllowed none = Unit
IsAllowed (some n) = n ≤ asap_body_max

-- the room for the body: the length that is given, and 1 MiB without one or with 0
abbrev pub room_for : Option ℕ → ℕ
room_for none = asap_body_max
room_for (some zero) = asap_body_max
room_for (some (suc n)) = suc n

parse_content_length-decimal :
    (n : ℕ) → n ≤ asap_body_max → parse_content_length (decimal n) ≡ some n
unfolding parse_content_length decimal
parse_content_length-decimal n l =
    let d = decimal_fuel-Starts (suc n) n (omega arith) in
    let r : read_digits 0 (d.first ∷ d.others) ≡ (n, []) =
      let whole_number : read_digits 0 (decimal n) ≡ (n, []) = read_digits-decimal n in
      rw d.is_first at whole_number in
    rw
      (
        d.is_first,
        strtol-digit d.first d.others d.digit,
        r,
        small_signed n (omega (arith, l)),
        in_range n l,
      )
      refl
  where
    in_range : (k : ℕ) → k ≤ asap_body_max → ltb asap_body_max k ≡ false
    in_range k h = ground arith

room_of-suc : (n : ℕ) → room_of (suc n) ≡ suc n
room_of-suc n = ground arith

-- Where a POST of /asap gives a length of at most 1 MiB in digits, or none, it is let in, and the body
-- after any parts is what has arrived, cut to that length, or to 1 MiB without one or where it is 0; it is
-- marked too large exactly if something was cut.
pub init_from_request-Holds :
    (buf_size : ℕ) (body : Body) (given : Option ℕ) (parts : List Bytes)
    → IsAllowed given
    → ((init_from_request body true (header_of given)).0 ≡ true)
      × Holds
          (append_all buf_size (init_from_request body true (header_of given)).1 parts)
          (room_for given)
          (whole parts)
unfolding init_from_request
init_from_request-Holds buf_size body none parts h = (
  refl,
  append_all-Holds buf_size asap_body_max (with_capacity body 0) [] parts (opened-Holds body 0),
)
init_from_request-Holds buf_size body (some zero) parts h = rw (parse_content_length-decimal 0 h) (
  refl,
  append_all-Holds buf_size asap_body_max (with_capacity body 0) [] parts (opened-Holds body 0),
)
init_from_request-Holds buf_size body (some (suc n)) parts h =
    rw (parse_content_length-decimal (suc n) h) (
      refl,
      append_all-Holds buf_size (suc n) (with_capacity body (suc n)) [] parts (
          subst (λ (k : ℕ). Holds (with_capacity body (suc n)) k []) (room_of-suc n)
            (opened-Holds body (suc n))),
    )
