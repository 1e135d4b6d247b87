-- ===== src/Common/Libc.antt =====
-- What the program uses of the C library on strings. A pointer into a string is the suffix that
-- starts there; `none` is the null pointer.
use Prim.Native.Nat.{ℕ, zero, suc, ◌+◌, ◌-◌, ◌*◌, ◌/◌, ◌%◌, ◌^◌}
use mathlib.Core.Bool.{Bool, true, false, ◌&&◌, ◌||◌, not}
use mathlib.Core.Option.{Option, none, some}
use mathlib.Core.List.{List, [], ◌∷◌, ◌++◌}
use shellclaw.Common.Tests.{ltb, leb, ◌==◌, if◌then◌else◌}
use shellclaw.Common.Text.{Bytes, has_prefix, is_empty}

-- `negsuc n` is -(n + 1).
pub data ℤ : Type 0 where
  pos negsuc : ℕ → ℤ

abbrev pub is_digit : ℕ → Bool
is_digit c = leb b'0' c && leb c b'9'

abbrev pub is_space : ℕ → Bool
is_space c = c == 32 || (leb 9 c && leb c 13)

abbrev pub tolower : ℕ → ℕ
tolower c = if leb b'A' c && leb c b'Z' then c + 32 else c

-- whether the byte is one of the list
unfoldable pub is_byte_of : ℕ → Bytes → Bool
is_byte_of c [] = false
is_byte_of c (x ∷ xs) = c == x || is_byte_of c xs

-- strchr
unfoldable pub strchr : Bytes → ℕ → Option Bytes
strchr [] c = none
strchr (x ∷ xs) c = let rest = strchr xs c in if x == c then some (x ∷ xs) else rest

-- strstr
unfoldable pub strstr : Bytes → Bytes → Option Bytes
strstr [] needle = if is_empty needle then some [] else none
strstr (x ∷ xs) needle =
    let rest = strstr xs needle in if has_prefix (x ∷ xs) needle then some (x ∷ xs) else rest

-- The result of strtol and strtoll in base 10: the value, whether it was out of the range of 64 bits
-- and so was clamped, and where the number ends.
pub record Converted : Type 0 where
  pub value : ℤ
  pub range_error : Bool
  pub rest : Bytes

unfoldable pub skip_spaces : Bytes → Bytes
skip_spaces [] = []
skip_spaces (c ∷ cs) = let rest = skip_spaces cs in if is_space c then rest else c ∷ cs

-- the value of the leading digits behind an accumulator, and what follows them
unfoldable pub read_digits : ℕ → Bytes → ℕ × Bytes
read_digits acc [] = (acc, [])
read_digits acc (c ∷ cs) =
    let rest = read_digits (acc * 10 + (c - b'0')) cs in if is_digit c then rest else (acc, c ∷ cs)

abbrev pub to_signed : Bool → ℕ × Bytes → Converted
to_signed false (n, rest) =
    if ltb n (2 ^ 63)
    then record { value = pos n; range_error = false; rest = rest }
    else record { value = pos (2 ^ 63 - 1); range_error = true; rest = rest }
to_signed true (zero, rest) = record { value = pos 0; range_error = false; rest = rest }
to_signed true (suc n, rest) =
    if ltb n (2 ^ 63)
    then record { value = negsuc n; range_error = false; rest = rest }
    else record { value = negsuc (2 ^ 63 - 1); range_error = true; rest = rest }

unfoldable pub convert_digits : Bool → Bytes → Option Converted
convert_digits negative [] = none
convert_digits negative (c ∷ cs) =
    if is_digit c then some (to_signed negative (read_digits 0 (c ∷ cs))) else none

unfoldable pub convert_signed : Bytes → Option Converted
unfolding convert_digits
convert_signed [] = none
convert_signed (c ∷ cs) =
    if c == b'-'
    then convert_digits true cs
    else if c == b'+'
    then convert_digits false cs
    else convert_digits false (c ∷ cs)

-- `none` where no digits stand, and the end pointer is the start
unfoldable pub strtol : Bytes → Option Converted
unfolding skip_spaces convert_signed
strtol s = convert_signed (skip_spaces s)

-- the cast of a long to an int
abbrev pub wrap32 : ℕ → ℤ
wrap32 m = if ltb m (2 ^ 31) then pos m else negsuc (2 ^ 32 - m - 1)

abbrev pub to_int : ℤ → ℤ
to_int (pos n) = wrap32 (n % 2 ^ 32)
to_int (negsuc n) = wrap32 ((2 ^ 32 - (n + 1) % 2 ^ 32) % 2 ^ 32)

-- atoi, which is strtol cast to an int, and 0 where no digits stand
abbrev pub atoi_of : Option Converted → ℤ
atoi_of none = pos 0
atoi_of (some c) = to_int c.value

-- the digits that "%d" writes for a number that is not negative; the first argument bounds how many
unfoldable pub decimal_fuel : ℕ → ℕ → Bytes
decimal_fuel zero n = []
decimal_fuel (suc f) n =
    let front = decimal_fuel f (n / 10) in
    if ltb n 10 then (b'0' + n) ∷ [] else front ++ (b'0' + n % 10) ∷ []

unfoldable pub decimal : ℕ → Bytes
decimal n = decimal_fuel (suc n) n

-- strtok_r from the start to the end of a string: the tokens between bytes of the first argument. The
-- second argument is the token read so far.
unfoldable pub strtok_all : Bytes → Bytes → Bytes → List Bytes
strtok_all delims word [] = if is_empty word then [] else word ∷ []
strtok_all delims word (c ∷ cs) =
    let delim = is_byte_of c delims in
    let rest = strtok_all delims (if delim then [] else word ++ c ∷ []) cs in
    if delim && not (is_empty word) then word ∷ rest else rest
