-- ===== src/Sandbox/Allowlist/Decoding.antt =====
-- src/sandbox/allowlist.c: the percent decoding of a file URL against an encoder.
use mathlib.Core.List.{append_assoc, append-nil}
use shellclaw.Common.{
  ℕ, ◌+◌, ◌-◌, ◌/◌, ◌%◌, ◌<◌, Bool, true, false, ◌||◌, Option, none, some, [], ◌∷◌, ◌++◌, ◌==◌,
  ==_iff, ◌≡◌, inl, inr, refl, sym, ◌∙◌, ap, arith, ltb, if◌then◌else◌, Bool-cases, Bytes,
  every_below, every_below-at,
}
use shellclaw.Sandbox.Scanners.{hex_nibble, hex_byte, decoded_byte, percent_decode}

-- a digit of a byte, in small letters
abbrev pub hex_char : ℕ → ℕ
hex_char v = if ltb v 10 then b'0' + v else b'a' + v - 10

-- a percent sign and two digits for the bytes that the test names and for the percent sign itself
abbrev pub percent_encode : (ℕ → Bool) → Bytes → Bytes
percent_encode reserved [] = []
percent_encode reserved (c ∷ cs) =
    if reserved c || c == b'%'
    then b'%' ∷ hex_char (c / 16) ∷ hex_char (c % 16) ∷ percent_encode reserved cs
    else c ∷ percent_encode reserved cs

abbrev pub AllBelow : Bytes → Type 0
AllBelow [] = Unit
AllBelow (b ∷ bs) = (b < 256) × AllBelow bs

abbrev same : Option ℕ → ℕ → Bool
same none c = false
same (some b) c = b == c

same-eq : (o : Option ℕ) (c : ℕ) → same o c ≡ true → o ≡ some c
same-eq none c h = cc
same-eq (some b) c h = ap some ((==_iff b c).0 h)

hex_table :
    every_below
      (λ c. same (hex_byte (hex_nibble (hex_char (c / 16))) (hex_nibble (hex_char (c % 16)))) c)
      256
    ≡ true
unfolding every_below hex_nibble
hex_table = refl

hex_byte-char :
    (c : ℕ)
    → c < 256
    → hex_byte (hex_nibble (hex_char (c / 16))) (hex_nibble (hex_char (c % 16))) ≡ some c
hex_byte-char c l = same-eq _ c (every_below-at _ 256 c l hex_table)

-- Decoding gives back every text that is encoded, whatever bytes the encoder writes as digits.
pub percent_decode-encode :
    (reserved : ℕ → Bool) (written cs : Bytes)
    → AllBelow cs
    → percent_decode 0 written (percent_encode reserved cs) ≡ (true, written ++ cs)
unfolding percent_decode decoded_byte
percent_decode-encode reserved written [] h =
    ap (λ (x : Bytes). (true, x)) (sym (append-nil written))
percent_decode-encode reserved written (c ∷ cs) (l, h) =
    elim (Bool-cases (reserved c || c == b'%')) [
      | inl e ↦
          rw (e, hex_byte-char c l)
            (percent_decode-encode reserved (written ++ c ∷ []) cs h
              ∙ ap (λ (x : Bytes). (true, x)) (append_assoc written (c ∷ []) cs))
      | inr e ↦
          let plain : (c == b'%') ≡ false = ground (arith, e) in
          rw (e, plain)
            (percent_decode-encode reserved (written ++ c ∷ []) cs h
              ∙ ap (λ (x : Bytes). (true, x)) (append_assoc written (c ∷ []) cs))
    ]
