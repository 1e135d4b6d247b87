-- ===== src/Sandbox/Path.antt =====
-- src/sandbox/allowlist_path.c: whether a path of a shell command stays below the workspace. A buffer
-- of PATH_MAX bytes refuses what does not fit. realpath, lstat and dirname are the parameter
-- `FileSystem`.
pub mod Under
pub mod Collapse
mod Tests
use shellclaw.Common.{
  ℕ, zero, suc, ◌+◌, ◌-◌, Bool, true, false, ◌&&◌, ◌||◌, not, Option, none, some, List, [], ◌∷◌,
  ◌++◌, ◌==◌, ltb, leb, if◌then◌else◌, Bytes, codes, str_equal, has_prefix, is_empty, length, drop,
}

abbrev pub path_max : ℕ
path_max = 4096

pub record FileSystem : Type 0 where
  pub realpath : Bytes → Option Bytes
  -- `lstat(path, &st) == 0 && S_ISLNK(st.st_mode)`
  pub is_link : Bytes → Bool
  pub dirname : Bytes → Bytes

-- the end of the string, or a slash
abbrev pub ends_segment : Bytes → Bool
ends_segment [] = true
ends_segment (c ∷ cs) = c == b'/'

unfoldable pub is_under : Bytes → Bytes → Bool
is_under resolved ws =
    if is_empty ws
    then false
    else has_prefix resolved ws && ends_segment (drop (length ws) resolved)

-- on what realpath returns for the parent; the first argument is the answer of the next hops
abbrev pub hop : Bool → Bytes → Bytes → Option Bytes → Bool
hop next dir ws (some resolved) = is_under resolved ws
hop next dir ws none =
    if str_equal dir (codes ".") || str_equal dir (codes "/") then false else next

unfoldable pub ancestor_from : FileSystem → ℕ → Bytes → Bytes → Bool
ancestor_from fs zero path ws = false
ancestor_from fs (suc hops) path ws =
    let dir = fs.dirname path in
    let next = ancestor_from fs hops dir ws in
    if is_empty dir || leb path_max (length dir) then false else hop next dir ws (fs.realpath dir)

abbrev pub existing_ancestor_is_under : FileSystem → Bytes → Bytes → Bool
existing_ancestor_is_under fs path ws =
    if is_empty path || leb path_max (length path) then false else ancestor_from fs path_max path ws

abbrev pub append_bytes : ℕ → Bytes → Bytes → Option Bytes
append_bytes cap buf seg = if ltb cap (length buf + length seg + 1) then none else some (buf ++ seg)

abbrev pub append_path_seg : ℕ → Bytes → Bytes → Bool → Option Bytes
append_path_seg cap buf seg add_slash =
    if add_slash
    then (if leb cap (length buf + 1) then none else append_bytes cap (buf ++ b'/' ∷ []) seg)
    else append_bytes cap buf seg

-- The two loops that write the segments, from index `i`. `slash` decides on a slash by the index and
-- the length so far.
unfoldable pub join_from : (ℕ → ℕ → Bool) → ℕ → ℕ → Option Bytes → List Bytes → Option Bytes
join_from slash cap i none segs = none
join_from slash cap i (some buf) [] = some buf
join_from slash cap i (some buf) (seg ∷ segs) =
    join_from slash cap (i + 1) (append_path_seg cap buf seg (slash i (length buf))) segs

abbrev pub root_of : Bool → Bytes
root_of absolute = if absolute then codes "/" else []

abbrev pub probe_slash : Bool → ℕ → ℕ → Bool
probe_slash absolute i len = if absolute && i == 0 then false else ltb 0 len

abbrev pub out_slash : Bool → ℕ → ℕ → Bool
out_slash absolute i len =
    if not absolute && i == 0 then false else ltb (if absolute then 1 else 0) len

-- a path that does not fit counts as a link
abbrev pub probed : FileSystem → Option Bytes → Bool
probed fs none = true
probed fs (some probe) = fs.is_link probe

unfoldable pub stacked_is_link : FileSystem → List Bytes → Bool → Bool
stacked_is_link fs parts absolute =
    probed fs (join_from (probe_slash absolute) path_max 0 (some (root_of absolute)) parts)

-- the segments between the slashes; the first argument is the segment read so far
unfoldable pub segments : Bytes → Bytes → List Bytes
segments seg [] = seg ∷ []
segments seg (c ∷ cs) =
    let more = segments (seg ++ c ∷ []) cs in
    let next = segments [] cs in if c == b'/' then seg ∷ next else more

-- `nparts--`
unfoldable pub drop_last : List Bytes → List Bytes
drop_last [] = []
drop_last (x ∷ []) = []
drop_last (x ∷ y ∷ ys) = x ∷ drop_last (y ∷ ys)

-- the loop over the segments, on the stack `parts`
unfoldable pub collapse_segments : FileSystem → Bool → List Bytes → List Bytes → Option (List Bytes)
collapse_segments fs absolute parts [] = some parts
collapse_segments fs absolute parts (seg ∷ segs) =
    let skipped = collapse_segments fs absolute parts segs in
    let popped = collapse_segments fs absolute (drop_last parts) segs in
    let pushed = collapse_segments fs absolute (parts ++ seg ∷ []) segs in
    if is_empty seg || str_equal seg (codes ".")
    then skipped
    else if str_equal seg (codes "..")
    then (if is_empty parts
        then skipped
        else if stacked_is_link fs parts absolute
        then none
        else popped)
    else if leb 2048 (length parts)
    then none
    else pushed

abbrev pub write_out : Bool → ℕ → Option (List Bytes) → Option Bytes
write_out absolute out_cap none = none
write_out false out_cap (some []) = if ltb out_cap 2 then none else some (codes ".")
write_out absolute out_cap (some parts) =
    if absolute && ltb out_cap 2
    then none
    else join_from (out_slash absolute) out_cap 0 (some (root_of absolute)) parts

abbrev pub is_absolute : Bytes → Bool
is_absolute path = has_prefix path (codes "/")

-- `out` is not null and has a byte
unfoldable pub lexical_collapse_path : FileSystem → Bytes → ℕ → Option Bytes
lexical_collapse_path fs path out_cap =
    if is_empty path || leb path_max (length path)
    then none
    else write_out (is_absolute path) out_cap (
        collapse_segments fs (is_absolute path) []
          (segments [] (if is_absolute path then drop 1 path else path)))

-- on what realpath returns for the collapsed path, and for the path itself
abbrev pub collapsed_is_under : FileSystem → Bytes → Bytes → Option Bytes → Bool
collapsed_is_under fs collapsed ws (some resolved) = is_under resolved ws
collapsed_is_under fs collapsed ws none = existing_ancestor_is_under fs collapsed ws

abbrev pub missing_is_under : FileSystem → Bytes → Option Bytes → Bool
missing_is_under fs ws none = false
missing_is_under fs ws (some collapsed) = collapsed_is_under fs collapsed ws (fs.realpath collapsed)

abbrev pub path_is_under : FileSystem → Bytes → Bytes → Option Bytes → Bool
path_is_under fs path ws (some resolved) = is_under resolved ws
path_is_under fs path ws none = missing_is_under fs ws (lexical_collapse_path fs path path_max)

abbrev pub actual_workspace : Bytes → Option Bytes → Bytes
actual_workspace root none = root
actual_workspace root (some resolved) = resolved

unfoldable pub path_is_under_workspace : FileSystem → Bytes → Bytes → Bool
path_is_under_workspace fs path workspace_root =
    if is_empty workspace_root
    then false
    else path_is_under fs path (actual_workspace workspace_root (fs.realpath workspace_root))
        (fs.realpath path)
