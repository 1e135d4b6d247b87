-- ===== src/Sandbox/Allowlist/Passed.antt =====
-- src/sandbox/allowlist.c: what a command that is let through cannot contain.
use mathlib.Core.Path.{subst}
use shellclaw.Common.{
  ◌-◌, ◌≢◌, ==_iff, ==-ne, true, false, ◌||◌, none, some, List, [], ◌∷◌, ◌++◌, ◌==◌, ◌≡◌, ◌⊎◌, inl,
  inr, refl, arith, leb, Bool-cases, Option-cases, Bytes, is_empty, length, take, strstr,
  strtok_all,
}
use shellclaw.Sandbox.Path.{path_max, path_is_under_workspace, actual_workspace}
use shellclaw.Sandbox.Path.Under.{Confined, path_is_under_workspace-Confined}
use shellclaw.Sandbox.Words.{
  Shell, Verdict, or_else, fits, byte_at, has_path_chars, is_option_token, join_under_workspace,
  check_under, check_joined_or_abs, relative_joined, relative_token, strip_surrounding_quotes,
  expand_shell_path_token,
}
use shellclaw.Sandbox.Allowlist.StateWords.{IsNoState, state_token-none}
use shellclaw.Sandbox.Allowlist.{
  block_substrings, blocklist_hit, AllowConfig, workspace_token, check_tokens, configured, scanned,
  delimiters, check_shell_command, resolved_or,
}

-- A path that resolves within the workspace: itself if it is absolute, or joined to the workspace; or no
-- path at all.
pub data IsInside (sh : Shell) (ws path : Bytes) : Type 0 where
  nowhere : path ≡ [] → IsInside sh ws path
  absolute :
      byte_at path 0 ≡ b'/'
      → Confined sh.files path (actual_workspace ws (sh.files.realpath ws))
      → IsInside sh ws path
  joined :
      byte_at path 0 ≢ b'/'
      → Confined sh.files (ws ++ b'/' ∷ path) (actual_workspace ws (sh.files.realpath ws))
      → IsInside sh ws path

-- a word that does not begin as a path does
pub record IsPlain (tok : Bytes) : Type 0 where
  pub no_slash : byte_at tok 0 ≢ b'/'
  pub no_tilde : byte_at tok 0 ≢ b'~'
  pub no_dot : byte_at tok 0 ≢ b'.'
  pub no_dollar : byte_at tok 0 ≢ b'$'

-- A word that names nothing outside the workspace: one that is inside as what it is expanded to, which is
-- itself unless it begins with a tilde or a dollar sign; or, of those that do not begin as a path does,
-- one that is empty, an option, or the name of nothing there, or one that is inside.
pub data IsHeld (sh : Shell) (ws tok : Bytes) : Type 0 where
  path_like :
      (path : Bytes)
      → expand_shell_path_token sh tok ≡ some path
      → (byte_at tok 0 ≢ b'~' → byte_at tok 0 ≢ b'$' → path ≡ tok)
      → IsInside sh ws path
      → IsHeld sh ws tok
  no_word :
      IsPlain tok → (is_empty tok || is_empty ws || is_option_token tok) ≡ true → IsHeld sh ws tok
  absent : IsPlain tok → sh.access (ws ++ b'/' ∷ tok) ≡ false → IsHeld sh ws tok
  present : IsPlain tok → IsInside sh ws tok → IsHeld sh ws tok

-- no word is a state file of the program, and each is held to the workspace
abbrev pub AllHeld : Shell → Bytes → List Bytes → Type 0
AllHeld sh ws [] = Unit
AllHeld sh ws (t ∷ ts) =
    ((is_empty (strip_surrounding_quotes t) ≡ true) ⊎ IsNoState sh ws (strip_surrounding_quotes t))
    × IsHeld sh ws (strip_surrounding_quotes t)
    × AllHeld sh ws ts

-- the command has none of the substrings
abbrev pub AllAbsent : Bytes → List Bytes → Type 0
AllAbsent cmd [] = Unit
AllAbsent cmd (p ∷ ps) = (strstr cmd p ≡ none) × AllAbsent cmd ps

or_else-none : (a b : Verdict) → or_else a b ≡ none → (a ≡ none) × (b ≡ none)
or_else-none none b h = (refl, h)
or_else-none (some d) b h = cc

fits-some : (s t : Bytes) → fits s ≡ some t → t ≡ s
fits-some s t h = elim (Bool-cases (leb path_max (length s))) [
  | inl long ↦ cc (rw long at h)
  | inr short ↦ cc (rw short at h)
]

check_under-Confined :
    (sh : Shell) (ws path : Bytes)
    → check_under sh ws path ≡ none
    → Confined sh.files path (actual_workspace ws (sh.files.realpath ws))
check_under-Confined sh ws path h = elim (Bool-cases (path_is_under_workspace sh.files path ws)) [
  | inl e ↦ path_is_under_workspace-Confined sh.files path ws e
  | inr e ↦ cc (rw e at h)
]

joined-Confined :
    (sh : Shell) (ws rel j : Bytes)
    → join_under_workspace ws rel ≡ some j
    → check_under sh ws j ≡ none
    → Confined sh.files (ws ++ b'/' ∷ rel) (actual_workspace ws (sh.files.realpath ws))
unfolding join_under_workspace
joined-Confined sh ws rel j e h =
    subst (λ (x : Bytes). Confined sh.files x (actual_workspace ws (sh.files.realpath ws)))
      (fits-some (ws ++ b'/' ∷ rel) j e) (check_under-Confined sh ws j h)

check_joined_or_abs-IsInside :
    (sh : Shell) (ws path : Bytes) → check_joined_or_abs sh ws path ≡ none → IsInside sh ws path
unfolding check_joined_or_abs
check_joined_or_abs-IsInside sh ws [] h = nowhere refl
check_joined_or_abs-IsInside sh ws (c ∷ path) h = elim (Bool-cases (c == b'/')) [
  | inl e ↦ absolute ((==_iff c b'/').0 e) (check_under-Confined sh ws (c ∷ path) (rw e at h))
  | inr e ↦ elim (Option-cases (join_under_workspace ws (c ∷ path))) [
    | inl u ↦ cc (rw (e, u) at h)
    | inr (j, u) ↦ joined (==-ne c b'/' e) (joined-Confined sh ws (c ∷ path) j u (rw (e, u) at h))
  ]
]

chars-IsPlain : (tok : Bytes) → has_path_chars tok ≡ false → IsPlain tok
unfolding has_path_chars
chars-IsPlain [] h = record {
  no_slash = λ e. omega (arith, e);
  no_tilde = λ e. omega (arith, e);
  no_dot = λ e. omega (arith, e);
  no_dollar = λ e. omega (arith, e);
}
chars-IsPlain (c ∷ cs) h = record {
  no_slash = ==-ne c b'/' (ground (arith, h));
  no_tilde = ==-ne c b'~' (ground (arith, h));
  no_dot = ==-ne c b'.' (ground (arith, h));
  no_dollar = ==-ne c b'$' (ground (arith, h));
}

expand-itself :
    (sh : Shell) (tok path : Bytes)
    → expand_shell_path_token sh tok ≡ some path
    → byte_at tok 0 ≢ b'~'
    → byte_at tok 0 ≢ b'$'
    → path ≡ tok
unfolding expand_shell_path_token
expand-itself sh tok path h a b =
    let t : (byte_at tok 0 == b'~') ≡ false = ground arith in
    let d : (byte_at tok 0 == b'$') ≡ false = ground arith in fits-some tok path (rw (t, d) at h)

relative_token-IsHeld :
    (sh : Shell) (ws tok : Bytes)
    → has_path_chars tok ≡ false
    → relative_token sh ws tok ≡ none
    → IsHeld sh ws tok
unfolding relative_token join_under_workspace
relative_token-IsHeld sh ws tok p h =
    elim (Bool-cases (is_empty tok || is_empty ws || is_option_token tok)) [
      | inl e ↦ no_word (chars-IsPlain tok p) e
      | inr e ↦
          let skip : (is_empty tok || is_empty ws || has_path_chars tok || is_option_token tok)
              ≡ false =
            ground (arith, e, p) in
          elim (Option-cases (join_under_workspace ws tok)) [
            | inl u ↦ cc (rw (skip, u) at h)
            | inr (j, u) ↦ found j u (rw (skip, u) at h)
          ]
    ]
  where
    found :
        (j : Bytes)
        → join_under_workspace ws tok ≡ some j
        → relative_joined sh ws tok (some j) ≡ none
        → IsHeld sh ws tok
    found j u r = elim (Bool-cases (sh.access j)) [
      | inl there ↦
          present (chars-IsPlain tok p)
            (joined (chars-IsPlain tok p).no_slash (joined-Confined sh ws tok j u (rw there at r)))
      | inr missing ↦
          absent (chars-IsPlain tok p)
            (subst (λ (x : Bytes). sh.access x ≡ false) (fits-some (ws ++ b'/' ∷ tok) j u) missing)
    ]

workspace_token-IsHeld :
    (sh : Shell) (ws tok : Bytes) → workspace_token sh ws tok ≡ none → IsHeld sh ws tok
unfolding workspace_token
workspace_token-IsHeld sh ws tok h = elim (Bool-cases (has_path_chars tok)) [
  | inr p ↦ relative_token-IsHeld sh ws tok p (rw p at h)
  | inl p ↦ elim (Option-cases (expand_shell_path_token sh tok)) [
    | inl u ↦ cc (rw (p, u) at h)
    | inr (path, u) ↦
        path_like path u (expand-itself sh tok path u)
          (check_joined_or_abs-IsInside sh ws path (rw (p, u) at h))
  ]
]

check_tokens-AllHeld :
    (sh : Shell) (ws : Bytes) (ts : List Bytes)
    → check_tokens sh (some ws) (some ws) ts ≡ none
    → AllHeld sh ws ts
unfolding check_tokens
check_tokens-AllHeld sh ws [] h = tt
check_tokens-AllHeld sh ws (t ∷ ts) h =
    let (a, b) = or_else-none _ _ h in
    let (c, d) = or_else-none _ _ b in
    (
      state_token-none sh ws (strip_surrounding_quotes t) a,
      workspace_token-IsHeld sh ws (strip_surrounding_quotes t) c,
      check_tokens-AllHeld sh ws ts d,
    )

blocklist_hit-AllAbsent :
    (cmd : Bytes) (ps : List Bytes) → blocklist_hit cmd ps ≡ none → AllAbsent cmd ps
unfolding blocklist_hit
blocklist_hit-AllAbsent cmd [] h = tt
blocklist_hit-AllAbsent cmd (p ∷ ps) h = elim (Option-cases (strstr cmd p)) [
  | inl e ↦ (e, blocklist_hit-AllAbsent cmd ps (rw e at h))
  | inr (s, e) ↦ cc (rw e at h)
]

-- A command that is let through while the commands are held to a workspace has no substring of the
-- blocklist. No word of it, without the quotes around it, stands for a state file of the program, by
-- itself or joined to the workspace where that has room: the tokens, the pid or the log by their names,
-- and the configuration and the database in a directory named `.shellclaw`. Each word is held to the
-- workspace: one that begins as a path does expands to nothing or resolves within it, and any other is
-- empty, an option, the name of nothing there, or resolves within it.
pub check_shell_command-AllHeld :
    (sh : Shell) (cfg : AllowConfig) (cmd path : Bytes)
    → cfg.workspace_only ≡ true
    → configured (some cfg) ≡ some path
    → check_shell_command sh (some cfg) (some cmd) ≡ none
    → AllAbsent cmd block_substrings
      × AllHeld sh
          (resolved_or (take (path_max - 1) path) (sh.files.realpath path))
          (strtok_all delimiters [] cmd)
unfolding check_shell_command
check_shell_command-AllHeld sh cfg cmd path only e h =
    let ws = resolved_or (take (path_max - 1) path) (sh.files.realpath path) in
    let (a, b) = or_else-none (blocklist_hit cmd block_substrings) _ (rw (e, only) at h) in
    let (c, d) = or_else-none (scanned sh (some ws) cmd) _ b in
    (
      blocklist_hit-AllAbsent cmd block_substrings a,
      check_tokens-AllHeld sh ws (strtok_all delimiters [] cmd) d,
    )
