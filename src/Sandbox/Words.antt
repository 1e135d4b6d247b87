-- ===== src/Sandbox/Words.antt =====
-- src/sandbox/allowlist.c: the characters and the words of a command, and the paths that they stand
-- for. A byte past the end of a string is its final zero. getenv, access and the file system are the
-- parameter `Shell`. A buffer of PATH_MAX bytes refuses what does not fit.
use shellclaw.Common.{
  ℕ, ◌-◌, Bool, true, false, ◌&&◌, ◌||◌, not, Option, none, some, [], ◌∷◌, ◌++◌, ◌==◌, leb,
  if◌then◌else◌, Bytes, codes, is_empty, is_digit, has_prefix, length, take, drop, get_or,
}
use shellclaw.Sandbox.Path.{FileSystem, path_max, path_is_under_workspace}

pub record Shell : Type 0 where
  pub files : FileSystem
  pub getenv : Bytes → Option Bytes
  -- access(path, F_OK) == 0
  pub access : Bytes → Bool

-- why a command is blocked, with the text that is shown
pub data Denial : Type 0 where
  contains escapes unresolved state_file : Bytes → Denial
  assigns_home null_command : Denial

-- `none` is 0, allowed
abbrev pub Verdict : Type 0
Verdict = Option Denial

abbrev pub or_else : Verdict → Verdict → Verdict
or_else none v = v
or_else (some d) v = some d

abbrev pub byte_at : Bytes → ℕ → ℕ
byte_at s i = get_or s i 0

-- whether the text fits in a buffer of PATH_MAX bytes
abbrev pub fits : Bytes → Option Bytes
fits s = if leb path_max (length s) then none else some s

unfoldable pub has_path_chars : Bytes → Bool
has_path_chars [] = false
has_path_chars (c ∷ cs) = c == b'/' || c == b'~' || c == b'.' || c == b'$'

abbrev pub is_option_token : Bytes → Bool
is_option_token tok =
    byte_at tok 0 == b'-' && not (byte_at tok 1 == 0) && not (is_digit (byte_at tok 1))

abbrev pub is_letter : ℕ → Bool
is_letter c = (leb b'a' c && leb c b'z') || (leb b'A' c && leb c b'Z')

unfoldable pub is_path_body_char : ℕ → Bool
is_path_body_char c =
    is_letter c
    || is_digit c
    || c == b'/'
    || c == b'.'
    || c == b'_'
    || c == b'-'
    || c == b'+'
    || c == b'%'
    || c == b'@'

unfoldable pub is_ident_cont : ℕ → Bool
is_ident_cont c = is_letter c || is_digit c || c == b'_'

abbrev pub is_quote : ℕ → Bool
is_quote c = c == b'\'' || c == b'"'

unfoldable pub join_under_workspace : Bytes → Bytes → Option Bytes
join_under_workspace workspace_root rel = fits (workspace_root ++ b'/' ∷ rel)

abbrev pub check_under : Shell → Bytes → Bytes → Verdict
check_under sh ws path =
    if path_is_under_workspace sh.files path ws then none else some (escapes path)

-- on the path joined, if it fits
abbrev pub check_joined : Shell → Bytes → Bytes → Option Bytes → Verdict
check_joined sh ws candidate none = some (escapes candidate)
check_joined sh ws candidate (some joined) = check_under sh ws joined

unfoldable pub check_joined_or_abs : Shell → Bytes → Bytes → Verdict
check_joined_or_abs sh ws candidate =
    if is_empty candidate
    then none
    else if byte_at candidate 0 == b'/'
    then check_under sh ws candidate
    else check_joined sh ws candidate (join_under_workspace ws candidate)

abbrev pub relative_joined : Shell → Bytes → Bytes → Option Bytes → Verdict
relative_joined sh ws tok none = some (escapes tok)
relative_joined sh ws tok (some joined) =
    if sh.access joined then check_under sh ws joined else none

unfoldable pub relative_token : Shell → Bytes → Bytes → Verdict
relative_token sh ws tok =
    if is_empty tok || is_empty ws || has_path_chars tok || is_option_token tok
    then none
    else relative_joined sh ws tok (join_under_workspace ws tok)

unfoldable pub strip_surrounding_quotes : Bytes → Bytes
strip_surrounding_quotes tok =
    let n = length tok in
    if leb 2 n && is_quote (byte_at tok 0) && byte_at tok (n - 1) == byte_at tok 0
    then drop 1 (take (n - 1) tok)
    else tok

-- 1, -1 and 0 of expand_env_prefix
pub data Expansion : Type 0 where
  other failed : Expansion
  expanded : Bytes → Expansion

abbrev pub expansion_of : Option Bytes → Expansion
expansion_of none = failed
expansion_of (some s) = expanded s

abbrev pub with_suffix : Option Bytes → Bytes → Expansion
with_suffix none suffix = failed
with_suffix (some value) suffix = expansion_of (fits (value ++ suffix))

unfoldable pub expand_env_prefix : Bytes → Bytes → Bool → Option Bytes → Expansion
expand_env_prefix tok prefix require_slash_or_end value =
    let suffix = drop (length prefix) tok in
    if not (has_prefix tok prefix)
    then other
    else if require_slash_or_end && not (is_empty suffix) && not (byte_at suffix 0 == b'/')
    then other
    else with_suffix value suffix

-- the first of the attempts that is meant for the token
abbrev pub first_meant : Expansion → Option Bytes → Option Bytes
first_meant other next = next
first_meant failed next = none
first_meant (expanded s) next = some s

abbrev pub with_home : Option Bytes → Bytes → Option Bytes
with_home none rest = none
with_home (some home) rest = if is_empty home then none else fits (home ++ rest)

unfoldable pub expand_shell_path_token : Shell → Bytes → Option Bytes
expand_shell_path_token sh tok =
    let home = sh.getenv (codes "HOME") in
    let cwd = sh.getenv (codes "PWD") in
    if byte_at tok 0 == b'~'
    then with_home home (drop 1 tok)
    else if not (byte_at tok 0 == b'$')
    then fits tok
    else if is_quote (byte_at tok 1) || byte_at tok 1 == b'('
    then none
    else first_meant (expand_env_prefix tok (codes "${HOME}") false home) (
        first_meant (expand_env_prefix tok (codes "$HOME") true home) (
          first_meant (expand_env_prefix tok (codes "${PWD}") false cwd)
            (first_meant (expand_env_prefix tok (codes "$PWD") true cwd) none)))
