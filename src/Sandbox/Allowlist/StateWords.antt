-- ===== src/Sandbox/Allowlist/StateWords.antt =====
-- src/sandbox/allowlist.c: a word that stands for no state file of the program.
use shellclaw.Common.{
  ℕ, ◌<◌, ◌≢◌, true, false, ◌||◌, none, some, [], ◌∷◌, ◌++◌, ◌==◌, ◌≡◌, ◌⊎◌, inl, inr, refl, arith,
  leb, Bool-cases, Bytes, is_empty, length,
}
use shellclaw.Sandbox.Path.{path_max}
use shellclaw.Sandbox.Words.{Shell, fits, byte_at, join_under_workspace, expand_shell_path_token}
use shellclaw.Sandbox.Allowlist.StateFiles.{IsNoStateFile, is_runtime_state_file-none}
use shellclaw.Sandbox.Allowlist.{is_runtime_state_file, state_path_of, state_token, state_below}

-- The path that a word stands for: the word itself, unless it begins with a tilde or a dollar sign and
-- can be expanded.
pub data StandsFor (sh : Shell) (tok : Bytes) : Bytes → Type 0 where
  literal : byte_at tok 0 ≢ b'~' → byte_at tok 0 ≢ b'$' → StandsFor sh tok tok
  expanded :
      (path : Bytes)
      → (byte_at tok 0 ≡ b'~') ⊎ (byte_at tok 0 ≡ b'$')
      → expand_shell_path_token sh tok ≡ some path
      → StandsFor sh tok path
  unexpanded :
      (byte_at tok 0 ≡ b'~') ⊎ (byte_at tok 0 ≡ b'$')
      → expand_shell_path_token sh tok ≡ none
      → StandsFor sh tok tok

-- What a word stands for is no state file of the program, by itself and, where it is relative and has
-- room, joined to the workspace.
pub record IsNoState (sh : Shell) (ws tok : Bytes) : Type 0 where
  pub itself : (path : Bytes) → StandsFor sh tok path → path ≢ [] → IsNoStateFile sh path
  pub below :
      (path : Bytes)
      → StandsFor sh tok path
      → is_empty ws ≡ false
      → byte_at path 0 ≢ b'/'
      → length (ws ++ b'/' ∷ path) < path_max
      → IsNoStateFile sh (ws ++ b'/' ∷ path)

marked : (c : ℕ) → (c ≡ b'~') ⊎ (c ≡ b'$') → (c == b'~' || c == b'$') ≡ true
marked c (inl e) = ground arith
marked c (inr e) = ground arith

StandsFor-state_path_of :
    (sh : Shell) (tok path : Bytes) → StandsFor sh tok path → state_path_of sh tok ≡ path
unfolding state_path_of
StandsFor-state_path_of sh tok path (literal a b) =
    let plain : (byte_at tok 0 == b'~' || byte_at tok 0 == b'$') ≡ false = ground arith in
    rw plain refl
StandsFor-state_path_of sh tok path (expanded _ either e) =
    rw (marked (byte_at tok 0) either, e) refl
StandsFor-state_path_of sh tok path (unexpanded either e) =
    rw (marked (byte_at tok 0) either, e) refl

not_empty : (ws path : Bytes) → (ws ++ b'/' ∷ path) ≢ []
not_empty [] path = λ e. cc
not_empty (c ∷ ws) path = λ e. cc

fits-of : (s : Bytes) → length s < path_max → fits s ≡ some s
fits-of s l = let short : leb path_max (length s) ≡ false = ground arith in rw short refl

pub state_token-none :
    (sh : Shell) (ws tok : Bytes)
    → state_token sh (some ws) tok ≡ none
    → (is_empty tok ≡ true) ⊎ IsNoState sh ws tok
unfolding state_token join_under_workspace
state_token-none sh ws tok h = elim (Bool-cases (is_empty tok)) [
  | inl e ↦ inl e
  | inr e ↦
      let path = state_path_of sh tok in
      elim (Bool-cases (is_runtime_state_file sh path)) [
        | inl s ↦ cc (rw (e, s) at h)
        | inr s ↦ inr (record {
          itself = λ p is n.
              is_runtime_state_file-none sh p n (rw (StandsFor-state_path_of sh tok p is) at s);
          below = λ p is filled relative l.
              is_runtime_state_file-none sh (ws ++ b'/' ∷ p) (not_empty ws p) (
                joined_too p (rw (StandsFor-state_path_of sh tok p is) at (rw (e, s) at h)) filled
                  relative l);
        })
      ]
]
  where
    joined_too :
        (path : Bytes)
        → state_below sh (some ws) path ≡ none
        → is_empty ws ≡ false
        → byte_at path 0 ≢ b'/'
        → length (ws ++ b'/' ∷ path) < path_max
        → is_runtime_state_file sh (ws ++ b'/' ∷ path) ≡ false
    joined_too path r filled relative l =
        let skip : (is_empty ws || byte_at path 0 == b'/') ≡ false = ground (arith, filled) in
        elim (Bool-cases (is_runtime_state_file sh (ws ++ b'/' ∷ path))) [
          | inr f ↦ f
          | inl t ↦ cc (rw (skip, fits-of (ws ++ b'/' ∷ path) l, t) at r)
        ]
