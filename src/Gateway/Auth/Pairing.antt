-- ===== src/Gateway/Auth/Pairing.antt =====
-- src/gateway/auth.c: what a code and a token are good for.
use Prim.Native.Nat.{bit_xor}
use shellclaw.Common.{
  ℕ, zero, suc, ◌+◌, ◌-◌, ◌*◌, ◌/◌, ◌%◌, ◌≤◌, ◌<◌, true, false, none, some, List, [], ◌∷◌, ◌++◌,
  ◌≡◌, refl, ◌∙◌, ◌||◌, Bool, ap, arith, Bytes, ◌==◌, ==_iff, is_empty, length, length-append, take,
  take-all, is_digit, every_below, every_below-at, min,
}
use shellclaw.Crypto.Jcs.{Json, text}
use shellclaw.Gateway.Auth.{
  AuthState, pairing_code, is_code, is_valid_6digit, hex_digit, hex_of, differ_from, cap_tokens,
  existing, pair, has_item, is_item, TokensJson, read_tokens, read_max, with_token, validate_token,
  pairing_code_len, token_len,
}

self_table : every_below (λ x. bit_xor x x == 0) 256 ≡ true
unfolding every_below
self_table = refl

abbrev pub AllSmall : Bytes → Type 0
AllSmall [] = Unit
AllSmall (b ∷ bs) = (b < 256) × AllSmall bs

differ_from_self : (n : ℕ) (a : Bytes) → AllSmall a → differ_from 0 n a a ≡ 0
unfolding differ_from
differ_from_self zero a h = refl
differ_from_self (suc n) [] h = refl
differ_from_self (suc n) (x ∷ a) h =
    let e = (==_iff (bit_xor x x) 0).0 (every_below-at _ 256 x h.0 self_table) in
    rw e (differ_from_self n a h.1)

hex_of-AllSmall : (raw : Bytes) → AllSmall raw → AllSmall (hex_of raw)
unfolding hex_of
hex_of-AllSmall [] h = tt
hex_of-AllSmall (r ∷ raw) h =
    (small (r / 16) (omega (arith, h.0)), (small (r % 16) (omega arith), hex_of-AllSmall raw h.1))
  where
    small : (v : ℕ) → v < 16 → hex_digit v < 256
    small v l = ground arith

length-hex_of : (raw : Bytes) → length (hex_of raw) ≡ 2 * length raw
unfolding hex_of
length-hex_of [] = refl
length-hex_of (r ∷ raw) = omega (arith, length-hex_of raw)

has_item-last :
    (token : Bytes) (items : List Json)
    → AllSmall token
    → has_item token (items ++ text (some token) ∷ []) ≡ true
unfolding has_item
has_item-last token [] h =
    rw (differ_from_self (length token) token h)
      (ground (arith, (==_iff (length token) (length token)).1 refl))
has_item-last token (x ∷ items) h = rw (has_item-last token items h) (or_true (is_item token x))
  where
    or_true : (b : Bool) → (b || true) ≡ true
    or_true true = refl
    or_true false = refl

length-cap_tokens : (items : List Json) → length (cap_tokens items) < 16
unfolding cap_tokens
length-cap_tokens [] = omega arith
length-cap_tokens (x ∷ xs) = ground (arith, length-cap_tokens xs)

-- The code that is made of six random bytes has six digits, so that `pair` accepts its form.
pub pairing_code_valid :
    (a b c d e f : ℕ) → is_valid_6digit (pairing_code (a ∷ b ∷ c ∷ d ∷ e ∷ f ∷ [])) ≡ true
unfolding is_code pairing_code
pairing_code_valid a b c d e f = rw (digit a, digit b, digit c, digit d, digit e, digit f) refl
  where
    below : (r : ℕ) → r < 10 → is_digit (b'0' + r) ≡ true
    below r l = ground arith

    digit : (r : ℕ) → is_digit (b'0' + r % 10) ≡ true
    digit r = below (r % 10) (omega arith)

-- A client that gives the code that waits, with a buffer for the whole token, where the random bytes
-- are read and the file is written, gets a token that is valid by the file as it is then. It holds where
-- the file fits the buffer that it is read into, and what was printed to it is parsed as it was; the file
-- then has at most 16 tokens, and the code is used up.
pub pair-validate_token :
    (json : TokensJson) (s : AuthState) (code raw : Bytes) (token_size : ℕ)
    → is_valid_6digit code ≡ true
    → AllSmall code
    → s.pending ≡ some code
    → length raw ≡ 16
    → AllSmall raw
    → token_len < token_size
    → length (json.print (with_token json s.tokens (hex_of raw))) ≤ read_max
    → json.parse (json.print (with_token json s.tokens (hex_of raw)))
      ≡ some (with_token json s.tokens (hex_of raw))
    → ((pair json s code token_size true (some raw)).0 ≡ some (hex_of raw))
      × (validate_token json (pair json s code token_size true (some raw)).1.tokens (hex_of raw)
          ≡ true)
      × (length (existing (read_tokens json (pair json s code token_size true (some raw)).1.tokens))
          ≤ 16)
      × ((pair json s code token_size true (some raw)).1.pending ≡ none)
unfolding pair validate_token
pair-validate_token json s code raw token_size v ca p z ra fits short back =
    let given : (token_size == 0) ≡ false = ground (arith, fits) in
    let file = json.print (with_token json s.tokens (hex_of raw)) in
    let read : json.parse (take read_max file) ≡ some (with_token json s.tokens (hex_of raw)) =
      ap json.parse (take-all read_max file short) ∙ back in
    rw (given, v, p, differ_from_self pairing_code_len code ca, read)
      (
        ap some (
            take-all (min token_len (token_size - 1)) (hex_of raw)
              (omega (arith, fits, z, length-hex_of raw))),
        rw (filled (hex_of raw) (omega (arith, z, length-hex_of raw))) (
            has_item-last (hex_of raw) (cap_tokens (existing (read_tokens json s.tokens)))
              (hex_of-AllSmall raw ra)),
        omega (
          arith,
          length-append (cap_tokens (existing (read_tokens json s.tokens)))
              (text (some (hex_of raw)) ∷ []),
          length-cap_tokens (existing (read_tokens json s.tokens)),
        ),
        refl,
      )
  where
    filled : (t : Bytes) → 0 < length t → is_empty t ≡ false
    filled [] l = elim l [ ]
    filled (c ∷ t) l = refl
