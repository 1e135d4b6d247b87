-- ===== src/Sandbox/Scanners.antt =====
-- src/sandbox/allowlist.c: the scans over the text of a command. A pointer into the text is the bytes
-- before it, the last first, and the bytes from it on. A loop that moves on by several bytes skips
-- them one by one: the number is the first argument.
use Prim.Native.Nat.{bit_or}
use shellclaw.Common.{
  ℕ, zero, suc, ◌+◌, ◌-◌, ◌*◌, Bool, true, false, ◌&&◌, ◌||◌, not, Option, none, some, [], ◌∷◌,
  ◌++◌, ◌==◌, leb, if◌then◌else◌, Bytes, codes, is_empty, is_digit, has_prefix, length, take, drop,
  tolower, is_byte_of,
}
use shellclaw.Sandbox.Words.{
  Shell, escapes, unresolved, Verdict, or_else, byte_at, fits, is_path_body_char, is_ident_cont,
  is_quote, check_under, check_joined_or_abs, with_home,
}

abbrev pub ends_url : ℕ → Bool
ends_url c = is_byte_of c (codes " \t\n;|&<>\"'")

unfoldable pub is_inside_url : Bytes → Bool
is_inside_url [] = false
is_inside_url (c ∷ before) =
    let rest = is_inside_url before in
    if ends_url c
    then false
    else if c == b'/' && byte_at before 0 == b'/' && byte_at before 1 == b':'
    then true
    else rest

-- "${HOME}" or "${PWD}" stands before, read backwards
abbrev pub slash_follows_home_or_pwd_brace : Bytes → Bool
slash_follows_home_or_pwd_brace before =
    has_prefix before (codes "}EMOH{$") || has_prefix before (codes "}DWP{$")

-- on the byte before, where the path begins with a dot
abbrev pub after_word : Bytes → Bool
after_word [] = false
after_word (prev ∷ _) = is_path_body_char prev && not (prev == b'/')

abbrev pub is_dot_path : Bytes → Bool
is_dot_path p =
    byte_at p 1 == b'/'
    || (byte_at p 1 == b'.'
        && (byte_at p 2 == b'/'
            || byte_at p 2 == 0
            || is_quote (byte_at p 2)
            || not (is_path_body_char (byte_at p 2))))

abbrev pub is_slash_start : ℕ → Bytes → Bool
is_slash_start c [] = true
is_slash_start c (prev ∷ before) =
    if c == b'/' && prev == b':'
    then false
    else if c == b'/' && prev == b'/' && byte_at before 0 == b':'
    then false
    else if is_path_body_char prev && not (prev == b'/')
    then false
    else not (prev == b'}' && slash_follows_home_or_pwd_brace (prev ∷ before))

unfoldable pub is_fs_absolute_path_start : Bytes → Bytes → Bool
is_fs_absolute_path_start before p =
    if byte_at p 0 == b'.'
    then is_dot_path p
      && not (is_inside_url before && not (byte_at p 1 == b'.'))
      && not (after_word before)
    else (byte_at p 0 == b'/' || byte_at p 0 == b'~') && is_slash_start (byte_at p 0) before

-- the characters of a path that follow
unfoldable pub body_run : Bytes → Bytes
body_run [] = []
body_run (c ∷ cs) = let rest = body_run cs in if is_path_body_char c then c ∷ rest else []

abbrev pub expand_tilde_fragment : Shell → Bytes → Option Bytes
expand_tilde_fragment sh fragment =
    if byte_at fragment 0 == b'~'
    then with_home (sh.getenv (codes "HOME")) (drop 1 fragment)
    else fits fragment

abbrev pub check_expanded : Shell → Bytes → Bytes → Option Bytes → Verdict
check_expanded sh ws fragment none = some (escapes fragment)
check_expanded sh ws fragment (some path) = check_joined_or_abs sh ws path

unfoldable pub embedded_paths : Shell → Bytes → ℕ → Bytes → Bytes → Verdict
embedded_paths sh ws skip before [] = none
embedded_paths sh ws (suc skip) before (c ∷ cs) = embedded_paths sh ws skip (c ∷ before) cs
embedded_paths sh ws zero before (c ∷ cs) =
    let start = is_fs_absolute_path_start before (c ∷ cs) in
    let fragment = c ∷ take 4094 (body_run cs) in
    let rest = embedded_paths sh ws (if start then length fragment - 1 else 0) (c ∷ before) cs in
    if start
    then or_else (check_expanded sh ws fragment (expand_tilde_fragment sh fragment)) rest
    else rest

abbrev pub path_suffix : Bytes → Bytes
path_suffix p = if byte_at p 0 == b'/' then body_run p else []

abbrev pub block_expanded_fits : Shell → Bytes → Bytes → Option Bytes → Verdict
block_expanded_fits sh ws raw none = some (unresolved raw)
block_expanded_fits sh ws raw (some path) = check_under sh ws path

abbrev pub block_expanded_env_path : Shell → Bytes → Option Bytes → Bytes → Bytes → Verdict
block_expanded_env_path sh ws none suffix raw = some (unresolved raw)
block_expanded_env_path sh ws (some value) suffix raw =
    block_expanded_fits sh ws raw (fits (value ++ suffix))

-- a variable of `n` bytes at `p`: what is found, and how many bytes after the dollar sign are done
abbrev pub variable : Shell → Bytes → Option Bytes → ℕ → Bytes → Verdict × ℕ
variable sh ws value n p =
    let suffix = path_suffix (drop n p) in
    (block_expanded_env_path sh ws value suffix p, n - 1 + length suffix)

unfoldable pub dollar_at : Shell → Bytes → Bytes → Verdict × ℕ
dollar_at sh ws p =
    let home = sh.getenv (codes "HOME") in
    let cwd = sh.getenv (codes "PWD") in
    if is_quote (byte_at p 1) || byte_at p 1 == b'('
    then (some (unresolved p), 0)
    else if has_prefix p (codes "${HOME}")
    then variable sh ws home 7 p
    else if has_prefix p (codes "${PWD}")
    then variable sh ws cwd 6 p
    else if byte_at p 1 == b'{'
    then (some (unresolved p), 0)
    else if has_prefix p (codes "$HOME") && not (is_ident_cont (byte_at p 5))
    then variable sh ws home 5 p
    else if has_prefix p (codes "$PWD") && not (is_ident_cont (byte_at p 4))
    then variable sh ws cwd 4 p
    else (some (unresolved p), 0)

unfoldable pub dollar_expansions : Shell → Bytes → ℕ → Bytes → Verdict
dollar_expansions sh ws skip [] = none
dollar_expansions sh ws (suc skip) (c ∷ cs) = dollar_expansions sh ws skip cs
dollar_expansions sh ws zero (c ∷ cs) =
    let here = dollar_at sh ws (c ∷ cs) in
    let rest = dollar_expansions sh ws (if c == b'$' then here.1 else 0) cs in
    if c == b'$' then or_else here.0 rest else rest

-- under any case of the letters
unfoldable pub prefix_ci_eq : Bytes → Bytes → Bool
prefix_ci_eq p [] = true
prefix_ci_eq [] (x ∷ xs) = false
prefix_ci_eq (c ∷ p) (x ∷ xs) = tolower c == tolower x && prefix_ci_eq p xs

unfoldable pub hex_nibble : ℕ → Option ℕ
hex_nibble c =
    if is_digit c
    then some (c - b'0')
    else if leb b'a' c && leb c b'f'
    then some (c - b'a' + 10)
    else if leb b'A' c && leb c b'F'
    then some (c - b'A' + 10)
    else none

-- the byte that two digits stand for
abbrev pub hex_byte : Option ℕ → Option ℕ → Option ℕ
hex_byte (some hi) (some lo) = some (bit_or (hi * 16) lo)
hex_byte _ _ = none

-- the byte that is written at a position, with the bytes behind it
unfoldable pub decoded_byte : ℕ → Bytes → Option ℕ
decoded_byte c cs =
    if c == b'%' then hex_byte (hex_nibble (byte_at cs 0)) (hex_nibble (byte_at cs 1)) else some c

abbrev pub decode_step : Bytes → Option ℕ → Bool × Bytes → Bool × Bytes
decode_step written none rest = (false, written)
decode_step written (some b) rest = rest

abbrev pub value_or_zero : Option ℕ → ℕ
value_or_zero none = 0
value_or_zero (some b) = b

-- whether all is decoded, and what is written
unfoldable pub percent_decode : ℕ → Bytes → Bytes → Bool × Bytes
percent_decode skip written [] = (true, written)
percent_decode (suc skip) written (c ∷ cs) = percent_decode skip written cs
percent_decode zero written (c ∷ cs) =
    let b = decoded_byte c cs in
    decode_step written b
      (percent_decode (if c == b'%' then 2 else 0) (written ++ value_or_zero b ∷ []) cs)

-- a zero byte ends the string
unfoldable pub c_string : Bytes → Bytes
c_string [] = []
c_string (c ∷ cs) = let rest = c_string cs in if c == 0 then [] else c ∷ rest

-- The buffer after the decoding: what is written stands over its beginning.
abbrev pub check_decoded : Shell → Bytes → Bytes → Bool × Bytes → Verdict
check_decoded sh ws path (true, written) = check_under sh ws (c_string written)
check_decoded sh ws path (false, written) =
    some (escapes (c_string (written ++ drop (length written) path)))

unfoldable pub drop_slashes : Bytes → Bytes
drop_slashes [] = []
drop_slashes (c ∷ cs) = let rest = drop_slashes cs in if c == b'/' then rest else c ∷ cs

abbrev pub is_host : Bytes → Bool
is_host s =
    (prefix_ci_eq s (codes "localhost") || has_prefix s (codes "127.0.0.1"))
    && (byte_at s 9 == b'/' || byte_at s 9 == 0 || is_quote (byte_at s 9))

-- what follows "file:" and a host of this machine
unfoldable pub url_rest : Bytes → Bytes
url_rest p = let s = drop_slashes (drop 5 p) in drop_slashes (if is_host s then drop 9 s else s)

unfoldable pub file_url_at : Shell → Bytes → Bytes → Verdict
file_url_at sh ws p =
    let s = url_rest p in
    let path = b'/' ∷ take 4094 (body_run s) in
    if is_empty s || is_quote (byte_at s 0)
    then none
    else check_decoded sh ws path (percent_decode 0 [] path)

unfoldable pub file_urls : Shell → Bytes → Bytes → Bytes → Verdict
file_urls sh ws before [] = none
file_urls sh ws before (c ∷ cs) =
    let rest = file_urls sh ws (c ∷ before) cs in
    if prefix_ci_eq (c ∷ cs) (codes "file:") && not (after_word before)
    then or_else (file_url_at sh ws (c ∷ cs)) rest
    else rest

abbrev pub at_word_start : Bytes → Bool
at_word_start [] = true
at_word_start (prev ∷ _) = not (is_ident_cont prev)

abbrev pub is_name : Bytes → Bytes → Bool
is_name q name = has_prefix q name && not (is_ident_cont (byte_at q (length name)))

abbrev pub name_is_home_or_pwd : Bytes → Bool
name_is_home_or_pwd q = is_name q (codes "HOME") || is_name q (codes "PWD")

unfoldable pub skip_blanks : Bytes → Bytes
skip_blanks [] = []
skip_blanks (c ∷ cs) = let rest = skip_blanks cs in if c == 32 || c == 9 then rest else c ∷ cs

abbrev pub names_after : Bytes → Bytes → Bool
names_after p word = is_name p word && name_is_home_or_pwd (skip_blanks (drop (length word) p))

unfoldable pub mutates_home_or_pwd : Bytes → Bytes → Bool
mutates_home_or_pwd before [] = false
mutates_home_or_pwd before (c ∷ cs) =
    (at_word_start before
      && (has_prefix (c ∷ cs) (codes "HOME=")
          || has_prefix (c ∷ cs) (codes "PWD=")
          || names_after (c ∷ cs) (codes "unset")
          || names_after (c ∷ cs) (codes "export")))
    || mutates_home_or_pwd (c ∷ before) cs
