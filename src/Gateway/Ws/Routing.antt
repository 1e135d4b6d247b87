-- ===== src/Gateway/Ws/Routing.antt =====
-- src/gateway/ws.c: the session id that the agent gets with a message leads its reply back.
use shellclaw.Common.{
  ℕ, zero, suc, ◌+◌, ◌*◌, ◌/◌, ◌%◌, ◌^◌, ◌≤◌, ◌<◌, Bool, true, false, none, some, List, [], ◌∷◌,
  ◌++◌, ◌≡◌, inl, inr, refl, sym, ◌∙◌, ap, arith, ltb, if◌then◌else◌, ◌||◌, Bytes, pos, is_digit,
  read_digits, decimal, decimal_fuel, strtol, skip_spaces, convert_signed, convert_digits, atoi_of,
  to_signed, to_int, Converted, Bool-cases, length, take, take-all, is_space, ◌==◌, ◌-◌, has_prefix,
}
use mathlib.Core.List.{append_assoc, append-nil}
use shellclaw.Gateway.Ws.{Ws, Msg, session_prefix, parse_conn_id, pop_incoming}

read_digits-cons :
    (acc c : ℕ) (cs : Bytes)
    → is_digit c ≡ true
    → read_digits acc (c ∷ cs) ≡ read_digits (acc * 10 + (c - b'0')) cs
unfolding read_digits
read_digits-cons acc c cs d = rw d refl

digit-is_digit : (d : ℕ) → d < 10 → is_digit (b'0' + d) ≡ true
digit-is_digit d h = ground arith

read_digits-decimal_fuel :
    (f n : ℕ) (rest : Bytes) → n < f → read_digits 0 (decimal_fuel f n ++ rest) ≡ read_digits n rest
unfolding decimal_fuel
read_digits-decimal_fuel zero n rest h = absurd (omega arith)
read_digits-decimal_fuel (suc f) n rest h = elim (Bool-cases (ltb n 10)) [
  | inl e ↦ rw e (
      read_digits-cons 0 (b'0' + n) rest (digit-is_digit n (ground arith))
      ∙ ap (λ (x : ℕ). read_digits x rest) (omega arith))
  | inr e ↦
      let big : 10 ≤ n = ground arith in
      rw e (
        rw (append_assoc (decimal_fuel f (n / 10)) ((b'0' + n % 10) ∷ []) rest) (
          read_digits-decimal_fuel f (n / 10) ((b'0' + n % 10) ∷ rest) (omega arith)
          ∙ read_digits-cons (n / 10) (b'0' + n % 10) rest (digit-is_digit (n % 10) (omega arith))
          ∙ ap (λ (x : ℕ). read_digits x rest) (omega arith)))
]

-- a text that starts with a digit
pub record Starts (s : Bytes) : Type 0 where
  pub first : ℕ
  pub others : Bytes
  pub is_first : s ≡ first ∷ others
  pub digit : is_digit first ≡ true

Starts-append : (s t : Bytes) → Starts s → Starts (s ++ t)
Starts-append s t h = record {
  first = h.first;
  others = h.others ++ t;
  is_first = rw h.is_first refl;
  digit = h.digit;
}

pub decimal_fuel-Starts : (f n : ℕ) → n < f → Starts (decimal_fuel f n)
unfolding decimal_fuel
decimal_fuel-Starts zero n h = absurd (omega arith)
decimal_fuel-Starts (suc f) n h = elim (Bool-cases (ltb n 10)) [
  | inl e ↦ rw e (record {
    first = b'0' + n;
    others = [];
    is_first = refl;
    digit = digit-is_digit n (ground arith);
  })
  | inr e ↦
      let big : 10 ≤ n = ground arith in
      rw e
        (Starts-append (decimal_fuel f (n / 10)) _ (decimal_fuel-Starts f (n / 10) (omega arith)))
]

small-int : (n : ℕ) → n < 2 ^ 31 → to_int (pos n) ≡ pos n
small-int n h = let m : n % 2 ^ 32 ≡ n = omega arith in rw m (rw (is_small n h) refl)
  where
    is_small : (k : ℕ) → k < 2 ^ 31 → ltb k (2 ^ 31) ≡ true
    is_small k h = ground arith

not_space : (c : ℕ) → is_digit c ≡ true → is_space c ≡ false
not_space c h = ground arith

not_minus : (c : ℕ) → is_digit c ≡ true → (c == b'-') ≡ false
not_minus c h = ground arith

not_plus : (c : ℕ) → is_digit c ≡ true → (c == b'+') ≡ false
not_plus c h = ground arith

pub small_signed :
    (n : ℕ)
    → n < 2 ^ 31
    → to_signed false (n, []) ≡ record { value = pos n; range_error = false; rest = [] }
small_signed n h = rw (in_range n h) refl
  where
    in_range : (k : ℕ) → k < 2 ^ 31 → ltb k (2 ^ 63) ≡ true
    in_range k h = ground arith

convert_digits-digit :
    (c : ℕ) (cs : Bytes)
    → is_digit c ≡ true
    → convert_digits false (c ∷ cs) ≡ some (to_signed false (read_digits 0 (c ∷ cs)))
unfolding convert_digits
convert_digits-digit c cs d =
    ap (λ (b : Bool). if b then some (to_signed false (read_digits 0 (c ∷ cs))) else none) d

pub strtol-digit :
    (c : ℕ) (cs : Bytes)
    → is_digit c ≡ true
    → strtol (c ∷ cs) ≡ some (to_signed false (read_digits 0 (c ∷ cs)))
unfolding strtol skip_spaces convert_signed
strtol-digit c cs d =
    rw (not_space c d) (rw (not_minus c d, not_plus c d) (convert_digits-digit c cs d))

strtol-digits :
    (c : ℕ) (cs : Bytes) (n : ℕ)
    → is_digit c ≡ true
    → read_digits 0 (c ∷ cs) ≡ (n, [])
    → n < 2 ^ 31
    → atoi_of (strtol (c ∷ cs)) ≡ pos n
strtol-digits c cs n d r l =
    ap atoi_of (strtol-digit c cs d)
    ∙ ap (λ (x : ℕ × Bytes). to_int (to_signed false x).value) r
    ∙ ap (λ (x : Converted). to_int x.value) (small_signed n l)
    ∙ small-int n l

pub read_digits-decimal : (n : ℕ) → read_digits 0 (decimal n) ≡ (n, [])
unfolding decimal read_digits
read_digits-decimal n =
    ap (read_digits 0) (sym (append-nil (decimal_fuel (suc n) n)))
    ∙ read_digits-decimal_fuel (suc n) n [] (omega arith)

parse_conn_id-decimal : (n : ℕ) → n < 2 ^ 31 → parse_conn_id (session_prefix ++ decimal n) ≡ pos n
unfolding parse_conn_id decimal has_prefix
parse_conn_id-decimal n h =
    let d = decimal_fuel-Starts (suc n) n (omega arith) in
    let r : read_digits 0 (d.first ∷ d.others) ≡ (n, []) =
      rw d.is_first at (read_digits-decimal n) in
    ap (λ (x : Bytes). atoi_of (strtol x)) d.is_first ∙ strtol-digits d.first d.others n d.digit r h

-- What the agent takes from a queue with a message at its front, into a buffer that has room for the
-- session id and one for the text that has a byte, is the id of that message's connection and the text
-- cut to its buffer, and a reply to the id is for that connection.
pub pop-parse_conn_id :
    (s : Ws) (m : Msg) (ms : List Msg) (session_size text_size : ℕ)
    → s.shutdown ≡ false
    → s.incoming ≡ m ∷ ms
    → m.conn_id < 2 ^ 31
    → length (session_prefix ++ decimal m.conn_id) < session_size
    → 0 < text_size
    → ((pop_incoming s session_size text_size).0
        ≡ some (session_prefix ++ decimal m.conn_id, take (text_size - 1) m.text))
      × (parse_conn_id (session_prefix ++ decimal m.conn_id) ≡ pos m.conn_id)
      × ((pop_incoming s session_size text_size).1.incoming ≡ ms)
unfolding pop_incoming
pop-parse_conn_id s m ms a b down e l fits room =
    let z : (a == 0 || b == 0) ≡ false = ground (arith, fits) in
    (
      rw (z, down, e)
          (ap (λ (x : Bytes). some (x, take (b - 1) m.text))
            (take-all (a - 1) (session_prefix ++ decimal m.conn_id) (omega (arith, fits)))),
      parse_conn_id-decimal m.conn_id l,
      rw (z, down, e) refl,
    )
