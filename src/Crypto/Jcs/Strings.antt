-- ===== src/Crypto/Jcs/Strings.antt =====
-- src/crypto/jcs.c: the text of a string, and what a reader of JSON makes of it.
use mathlib.Core.List.{append_assoc}
use shellclaw.Common.{
  ℕ, zero, suc, ◌+◌, ◌-◌, ◌*◌, ◌/◌, ◌%◌, ◌<◌, Option, none, some, [], ◌∷◌, ◌++◌, ◌≡◌, inl, inr,
  refl, ◌∙◌, ap, arith, ltb, leb, ◌==◌, ==_iff, if◌then◌else◌, Bool-cases, Bytes,
}
use shellclaw.Crypto.Jcs.{hex_char, unicode_escape, escaped, escape_all}

-- where a reader of a JSON string is: between characters, behind a "\", or in a "\u" with the digits that
-- are to come and their value so far
pub data Mode : Type 0 where
  between behind : Mode
  digits : ℕ → ℕ → Mode

abbrev pub with_char : ℕ → Option (Bytes × Bytes) → Option (Bytes × Bytes)
with_char c none = none
with_char c (some (s, rest)) = some (c ∷ s, rest)

abbrev pub digit_value : ℕ → ℕ
digit_value c = if leb c b'9' then c - b'0' else c - b'a' + 10

-- the character that a letter behind a "\" stands for
abbrev pub short_escape : ℕ → ℕ
short_escape c =
    if c == b'b'
    then 8
    else if c == b'f'
    then 12
    else if c == b'n'
    then 10
    else if c == b'r'
    then 13
    else if c == b't'
    then 9
    else c

-- the string up to its closing quote, and what is behind it
unfoldable pub read_string : Mode → Bytes → Option (Bytes × Bytes)
read_string mode [] = none
read_string between (c ∷ s) =
    let string = with_char c (read_string between s) in
    let escape = read_string behind s in
    if c == b'"' then some ([], s) else if c == b'\\' then escape else string
read_string behind (c ∷ s) =
    let unicode = read_string (digits 3 0) s in
    let string = with_char (short_escape c) (read_string between s) in
    if c == b'u' then unicode else string
read_string (digits zero value) (c ∷ s) =
    with_char (value * 16 + digit_value c) (read_string between s)
read_string (digits (suc left) value) (c ∷ s) =
    read_string (digits left (value * 16 + digit_value c)) s

digit_value-hex_char : (v : ℕ) → v < 16 → digit_value (hex_char v) ≡ v
digit_value-hex_char v l = ground arith

read-unicode_escape :
    (c : ℕ) (tail : Bytes)
    → c < 256
    → read_string between (unicode_escape c ++ tail) ≡ with_char c (read_string between tail)
unfolding read_string
read-unicode_escape c tail l =
    let high = digit_value-hex_char (c / 16 % 16) (omega arith) in
    let low = digit_value-hex_char (c % 16) (omega arith) in
    let sum : (0 + c / 16 % 16) * 16 + c % 16 ≡ c = omega arith in rw (high, low) (rw sum refl)

read-escaped :
    (c : ℕ) (tail : Bytes)
    → read_string between (escaped c ++ tail) ≡ with_char c (read_string between tail)
unfolding read_string escaped
read-escaped c tail = elim (Bool-cases (c == b'"')) [
  | inl t ↦ let e : c ≡ b'"' = (==_iff c b'"').0 t in rw e refl
  | inr quote ↦ elim (Bool-cases (c == b'\\')) [
    | inl t ↦ let e : c ≡ b'\\' = (==_iff c b'\\').0 t in rw e refl
    | inr slash ↦ elim (Bool-cases (c == 8)) [
      | inl t ↦ let e : c ≡ 8 = (==_iff c 8).0 t in rw e refl
      | inr bell ↦ elim (Bool-cases (c == 12)) [
        | inl t ↦ let e : c ≡ 12 = (==_iff c 12).0 t in rw e refl
        | inr feed ↦ elim (Bool-cases (c == 10)) [
          | inl t ↦ let e : c ≡ 10 = (==_iff c 10).0 t in rw e refl
          | inr line ↦ elim (Bool-cases (c == 13)) [
            | inl t ↦ let e : c ≡ 13 = (==_iff c 13).0 t in rw e refl
            | inr carriage ↦ elim (Bool-cases (c == 9)) [
              | inl t ↦ let e : c ≡ 9 = (==_iff c 9).0 t in rw e refl
              | inr tab ↦ elim (Bool-cases (ltb c 0x20)) [
                | inl low ↦
                    rw (quote, slash, bell, feed, line, carriage, tab, low)
                      (read-unicode_escape c tail (ground (arith, low)))
                | inr high ↦
                    rw (quote, slash, bell, feed, line, carriage, tab, high)
                      (rw (quote, slash) refl)
              ]
            ]
          ]
        ]
      ]
    ]
  ]
]

-- The text of a string is read back as that string up to the quote that closes it, whatever the bytes of
-- the string are: none of them ends the string early or is taken for another.
pub escape_all-read :
    (s rest : Bytes) → read_string between (escape_all s ++ b'"' ∷ rest) ≡ some (s, rest)
unfolding escape_all read_string
escape_all-read [] rest = refl
escape_all-read (c ∷ s) rest =
    ap (read_string between) (append_assoc (escaped c) (escape_all s) (b'"' ∷ rest))
    ∙ (read-escaped c (escape_all s ++ b'"' ∷ rest) ∙ rw (escape_all-read s rest) refl)
