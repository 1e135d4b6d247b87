-- ===== src/Sandbox/Allowlist.antt =====
-- src/sandbox/allowlist.c: the state files of the program, and the check of a shell command. What is
-- written to stderr is left out. The reason is `reason_of` a denial, cut to the caller's buffer.
mod StateFiles
mod StateWords
pub mod Passed
pub mod Decoding
mod Tests
use shellclaw.Common.{
  ℕ, zero, suc, ◌+◌, ◌-◌, Bool, true, false, ◌&&◌, ◌||◌, not, Option, none, some, List, [], ◌∷◌,
  ◌++◌, ◌==◌, ltb, leb, if◌then◌else◌, Bytes, codes, is_empty, has_prefix, str_equal, length, take,
  drop, strstr, strtok_all,
}
use shellclaw.Sandbox.Path.{path_max}
use shellclaw.Sandbox.Words.{
  Shell, Denial, contains, escapes, unresolved, state_file, assigns_home, null_command, Verdict,
  or_else, byte_at, has_path_chars, join_under_workspace, check_joined_or_abs, relative_token,
  strip_surrounding_quotes, expand_shell_path_token,
}
use shellclaw.Sandbox.Scanners.{embedded_paths, dollar_expansions, file_urls, mutates_home_or_pwd}

abbrev pub block_substrings : List Bytes
block_substrings =
    codes "rm -rf /"
    ∷ codes "rm -rf /*"
    ∷ codes "rm -rf / "
    ∷ codes "rm -fr /"
    ∷ codes "mkfs"
    ∷ codes "fdisk"
    ∷ codes "parted"
    ∷ codes "> /dev/sd"
    ∷ codes "dd if="
    ∷ codes "dd of=/dev"
    ∷ codes "shutdown"
    ∷ codes "reboot"
    ∷ codes "halt"
    ∷ codes "poweroff"
    ∷ codes "init 0"
    ∷ codes "init 6"
    ∷ codes "systemctl poweroff"
    ∷ codes "systemctl reboot"
    ∷ codes "systemctl halt"
    ∷ codes ":(){ :|:& };:"
    ∷ codes "fork()"
    ∷ codes ":(){:|:&};:"
    ∷ codes "chmod 777 /"
    ∷ codes "chmod -R 777 /"
    ∷ codes "chown root"
    ∷ codes "sudo rm -rf"
    ∷ codes "/etc/shadow"
    ∷ codes "/etc/gshadow"
    ∷ codes "~/.ssh/id_"
    ∷ codes "id_rsa"
    ∷ codes "id_ed25519"
    ∷ codes "/dev/nvhost"
    ∷ codes "/dev/nvgpu"
    ∷ codes "/dev/nvmap"
    ∷ codes "/tmp/argus_socket"
    ∷ codes "auth_tokens.json"
    ∷ codes "shellclaw.pid"
    ∷ codes "shellclaw.log"
    ∷ []

-- on what strstr returns
abbrev pub hit_at : Bytes → Option Bytes → Verdict → Verdict
hit_at p none next = next
hit_at p (some _) next = some (contains p)

unfoldable pub blocklist_hit : Bytes → List Bytes → Verdict
blocklist_hit cmd [] = none
blocklist_hit cmd (p ∷ ps) = hit_at p (strstr cmd p) (blocklist_hit cmd ps)

-- what stands before the last slash, and after it
abbrev pub last_slash_at : ℕ → Bytes → Option (Bytes × Bytes) → Option (Bytes × Bytes)
last_slash_at c cs (some (front, base)) = some (c ∷ front, base)
last_slash_at c cs none = if c == b'/' then some ([], cs) else none

unfoldable pub last_slash : Bytes → Option (Bytes × Bytes)
last_slash [] = none
last_slash (c ∷ cs) = last_slash_at c cs (last_slash cs)

abbrev pub base_of : Bytes → Option (Bytes × Bytes) → Bytes
base_of path none = path
base_of path (some (front, base)) = base

abbrev pub is_runtime_name : Bytes → Bool
is_runtime_name base =
    str_equal base (codes "auth_tokens.json")
    || str_equal base (codes "shellclaw.pid")
    || str_equal base (codes "shellclaw.log")

abbrev pub is_home_name : Bytes → Bool
is_home_name base =
    str_equal base (codes "config.toml")
    || str_equal base (codes "memory.db")
    || has_prefix base (codes "memory.db-")

-- on what stands before the last slash
abbrev pub in_shellclaw_dir : Option (Bytes × Bytes) → Bool
in_shellclaw_dir none = false
in_shellclaw_dir (some (parent, base)) =
    not (is_empty parent)
    && ltb (length parent) path_max
    && str_equal (base_of parent (last_slash parent)) (codes ".shellclaw")

unfoldable pub is_state_path : Bytes → Bool
is_state_path use_path =
    let base = base_of use_path (last_slash use_path) in
    is_runtime_name base || (is_home_name base && in_shellclaw_dir (last_slash use_path))

abbrev pub resolved_or : Bytes → Option Bytes → Bytes
resolved_or path none = path
resolved_or path (some resolved) = resolved

unfoldable pub is_runtime_state_file : Shell → Bytes → Bool
is_runtime_state_file sh path =
    if is_empty path then false else is_state_path (resolved_or path (sh.files.realpath path))

-- on the path joined, if it fits
abbrev pub state_joined : Shell → Option Bytes → Verdict
state_joined sh none = none
state_joined sh (some joined) =
    if is_runtime_state_file sh joined then some (state_file joined) else none

abbrev pub state_below : Shell → Option Bytes → Bytes → Verdict
state_below sh none check = none
state_below sh (some ws) check =
    if is_empty ws || byte_at check 0 == b'/'
    then none
    else state_joined sh (join_under_workspace ws check)

abbrev pub state_checked : Shell → Option Bytes → Bytes → Verdict
state_checked sh ws check =
    if is_runtime_state_file sh check then some (state_file check) else state_below sh ws check

-- the path that a token stands for here
unfoldable pub state_path_of : Shell → Bytes → Bytes
state_path_of sh tok =
    if byte_at tok 0 == b'~' || byte_at tok 0 == b'$'
    then resolved_or tok (expand_shell_path_token sh tok)
    else tok

unfoldable pub state_token : Shell → Option Bytes → Bytes → Verdict
state_token sh ws tok = if is_empty tok then none else state_checked sh ws (state_path_of sh tok)

unfoldable pub workspace_scanners : Shell → Bytes → Bytes → Verdict
workspace_scanners sh ws cmd =
    if mutates_home_or_pwd [] cmd
    then some assigns_home
    else or_else (file_urls sh ws [] cmd)
        (or_else (dollar_expansions sh ws 0 cmd) (embedded_paths sh ws 0 [] cmd))

pub record AllowConfig : Type 0 where
  pub workspace_only : Bool
  pub workspace_path : Option Bytes

-- on the expansion of a token that looks like a path
abbrev pub expanded_token : Shell → Bytes → Bytes → Option Bytes → Verdict
expanded_token sh ws tok none = some (unresolved tok)
expanded_token sh ws tok (some path) = check_joined_or_abs sh ws path

unfoldable pub workspace_token : Shell → Bytes → Bytes → Verdict
workspace_token sh ws tok =
    if has_path_chars tok
    then expanded_token sh ws tok (expand_shell_path_token sh tok)
    else relative_token sh ws tok

-- the workspace that the tokens are held to, if `workspace_only` is set
abbrev pub held_token : Shell → Option Bytes → Bytes → Verdict
held_token sh none tok = none
held_token sh (some ws) tok = workspace_token sh ws tok

-- the loop over the tokens; the second workspace is the one that is only set with `workspace_only`
unfoldable pub check_tokens : Shell → Option Bytes → Option Bytes → List Bytes → Verdict
check_tokens sh root only [] = none
check_tokens sh root only (t ∷ ts) =
    let tok = strip_surrounding_quotes t in
    or_else (state_token sh root tok)
      (or_else (held_token sh only tok) (check_tokens sh root only ts))

abbrev pub filled_path : Option Bytes → Option Bytes
filled_path none = none
filled_path (some path) = if is_empty path then none else some path

-- the path of the workspace, if one is configured
abbrev pub configured : Option AllowConfig → Option Bytes
configured none = none
configured (some cfg) = filled_path cfg.workspace_path

abbrev pub is_only : Option AllowConfig → Bool
is_only none = false
is_only (some cfg) = cfg.workspace_only

abbrev pub workspace_root : Shell → Option Bytes → Option Bytes
workspace_root sh none = none
workspace_root sh (some path) =
    some (resolved_or (take (path_max - 1) path) (sh.files.realpath path))

abbrev pub scanned : Shell → Option Bytes → Bytes → Verdict
scanned sh none cmd = none
scanned sh (some ws) cmd = workspace_scanners sh ws cmd

abbrev pub delimiters : Bytes
delimiters = codes " \t\n;|&><"

abbrev pub check_in : Shell → Option Bytes → Option Bytes → Bytes → Verdict
check_in sh root only cmd =
    or_else (blocklist_hit cmd block_substrings)
      (or_else (scanned sh only cmd) (check_tokens sh root only (strtok_all delimiters [] cmd)))

-- the command is `none` where it is null
unfoldable pub check_shell_command : Shell → Option AllowConfig → Option Bytes → Verdict
check_shell_command sh cfg none = some null_command
check_shell_command sh cfg (some cmd) =
    let root = workspace_root sh (configured cfg) in
    check_in sh root (if is_only cfg then root else none) cmd

abbrev pub set_reason : ℕ → Bytes → Bytes → Bytes
set_reason cap prefix detail = take (cap - 1) (prefix ++ detail)

-- the text in a reason buffer of `cap` bytes
unfoldable pub reason_of : ℕ → Denial → Bytes
reason_of cap null_command = set_reason cap (codes "null command") []
reason_of cap assigns_home =
    set_reason cap (codes "command blocked: HOME/PWD assignment in command") []
reason_of cap (escapes shown) =
    set_reason cap (codes "command blocked: path escapes workspace: ") shown
reason_of cap (unresolved shown) =
    set_reason cap (codes "command blocked: unresolved shell path expansion: ") shown
reason_of cap (state_file shown) =
    set_reason cap (codes "command blocked: runtime state file: ") shown
reason_of cap (contains pattern) =
    let reason = set_reason cap (codes "command blocked: contains forbidden pattern '") pattern in
    if ltb (length reason + 2) cap then reason ++ b'\'' ∷ [] else reason
