-- ===== src/Sandbox/Allowlist/StateFiles.antt =====
-- src/sandbox/allowlist.c: which paths are the state files of the program.
use shellclaw.Common.{
  ℕ, ◌<◌, ◌≡◌, ◌≢◌, inl, inr, Bool, true, false, ◌||◌, none, some, [], ◌∷◌, ◌++◌, ◌==◌, refl, arith,
  ltb, Bytes, codes, is_empty, length, Bool-cases, has_prefix, str_equal,
}
use shellclaw.Sandbox.Path.{path_max}
use shellclaw.Sandbox.Words.{Shell}
use shellclaw.Sandbox.Allowlist.{
  last_slash, base_of, is_runtime_name, is_home_name, is_state_path, is_runtime_state_file,
}

abbrev pub has_slash : Bytes → Bool
has_slash [] = false
has_slash (c ∷ cs) = c == b'/' || has_slash cs

-- the files that are state in any directory
pub data RuntimeName : Bytes → Type 0 where
  tokens_file : RuntimeName (codes "auth_tokens.json")
  pid_file : RuntimeName (codes "shellclaw.pid")
  log_file : RuntimeName (codes "shellclaw.log")

-- and those that are so in a directory named `.shellclaw`
pub data HomeName : Bytes → Type 0 where
  config_file : HomeName (codes "config.toml")
  database : HomeName (codes "memory.db")
  beside_database : (rest : Bytes) → has_slash rest ≡ false → HomeName (codes "memory.db-" ++ rest)

-- the last name of a path
pub data IsLast (name : Bytes) : Bytes → Type 0 where
  alone : IsLast name name
  behind : (front : Bytes) → IsLast name (front ++ b'/' ∷ name)

pub data IsStatePath : Bytes → Type 0 where
  runtime : (name path : Bytes) → RuntimeName name → IsLast name path → IsStatePath path
  at_home :
      (name dir : Bytes)
      → HomeName name
      → IsLast (codes ".shellclaw") dir
      → length dir < path_max
      → IsStatePath (dir ++ b'/' ∷ name)

last_slash-none : (n : Bytes) → has_slash n ≡ false → last_slash n ≡ none
unfolding last_slash
last_slash-none [] h = refl
last_slash-none (c ∷ cs) h = elim (Bool-cases (c == b'/')) [
  | inl t ↦ cc (rw t at h)
  | inr f ↦ rw (last_slash-none cs (rw f at h), f) refl
]

last_slash-join :
    (front n : Bytes) → has_slash n ≡ false → last_slash (front ++ b'/' ∷ n) ≡ some (front, n)
unfolding last_slash
last_slash-join [] n h = rw (last_slash-none n h) refl
last_slash-join (c ∷ cs) n h = rw (last_slash-join cs n h) refl

base_of-last :
    (name path : Bytes)
    → has_slash name ≡ false
    → IsLast name path
    → base_of path (last_slash path) ≡ name
base_of-last name path h alone = rw (last_slash-none name h) refl
base_of-last name path h (behind front) = rw (last_slash-join front name h) refl

runtime_name : (n : Bytes) → RuntimeName n → (is_runtime_name n ≡ true) × (has_slash n ≡ false)
unfolding str_equal
runtime_name n tokens_file = (refl, refl)
runtime_name n pid_file = (refl, refl)
runtime_name n log_file = (refl, refl)

home_name : (n : Bytes) → HomeName n → (is_home_name n ≡ true) × (has_slash n ≡ false)
unfolding str_equal has_prefix
home_name n config_file = (refl, refl)
home_name n database = (refl, refl)
home_name n (beside_database rest h) = (refl, h)

last_not_empty : (c : ℕ) (n path : Bytes) → IsLast (c ∷ n) path → is_empty path ≡ false
last_not_empty c n path alone = refl
last_not_empty c n path (behind []) = refl
last_not_empty c n path (behind (d ∷ front)) = refl

or_of : (a b : Bool) → a ≡ true → (a || b) ≡ true
or_of a b h = rw h refl

IsStatePath-is_state_path : (path : Bytes) → IsStatePath path → is_state_path path ≡ true
unfolding is_state_path str_equal
IsStatePath-is_state_path path (runtime name _ r l) =
    let n = runtime_name name r in
    rw (base_of-last name path n.1 l) (or_of (is_runtime_name name) _ n.0)
IsStatePath-is_state_path path (at_home name dir r l short) =
    let n = home_name name r in
    let fits : ltb (length dir) path_max ≡ true = ground arith in
    rw (last_slash-join dir name n.1) (elim (Bool-cases (is_runtime_name name)) [
      | inl t ↦ rw t refl
      | inr f ↦
          rw
            (
              f,
              n.0,
              last_not_empty b'.' (codes "shellclaw") dir l,
              fits,
              base_of-last (codes ".shellclaw") dir refl l,
            )
            refl
    ])

-- What a path resolves to is no state file, and neither is the path itself where it does not resolve.
pub record IsNoStateFile (sh : Shell) (path : Bytes) : Type 0 where
  pub resolved : (r : Bytes) → sh.files.realpath path ≡ some r → ¬ IsStatePath r
  pub unresolved : sh.files.realpath path ≡ none → ¬ IsStatePath path

pub is_runtime_state_file-none :
    (sh : Shell) (path : Bytes)
    → path ≢ []
    → is_runtime_state_file sh path ≡ false
    → IsNoStateFile sh path
unfolding is_runtime_state_file
is_runtime_state_file-none sh [] n h = absurd (n refl)
is_runtime_state_file-none sh (c ∷ path) n h = record {
  resolved = λ r e s. cc (rw e at h, IsStatePath-is_state_path r s);
  unresolved = λ e s. cc (rw e at h, IsStatePath-is_state_path (c ∷ path) s);
}
