-- ===== src/Sandbox/Path/Tests.antt =====
-- src/sandbox/allowlist_path.c: a missing file in the workspace, and a way out of it.
use shellclaw.Common.{
  true, false, none, some, [], ◌∷◌, ◌≡◌, refl, codes, str_equal, if◌then◌else◌, has_prefix,
  str_equal,
}
use shellclaw.Sandbox.Path.{
  FileSystem, actual_workspace, path_is_under_workspace, collapse_segments, segments,
  lexical_collapse_path,
}
use shellclaw.Sandbox.Path.Under.{Confined, path_is_under_workspace-Confined}
use shellclaw.Sandbox.Path.Collapse.{AllNames, collapse_segments-AllNames}

-- "/ws" and "/tmp" are there, and nothing is a link
abbrev two_directories : FileSystem
two_directories = record {
  realpath = λ p.
      if str_equal p (codes "/ws")
      then some p
      else if str_equal p (codes "/tmp")
      then some p
      else none;
  is_link = λ p. false;
  dirname = λ p. if has_prefix p (codes "/ws/") then codes "/ws" else codes "/tmp";
}

inside : path_is_under_workspace two_directories (codes "/ws/new") (codes "/ws") ≡ true
unfolding path_is_under_workspace str_equal lexical_collapse_path collapse_segments segments
    has_prefix shellclaw.Sandbox.Path.join_from shellclaw.Sandbox.Path.ancestor_from
    shellclaw.Sandbox.Path.is_under
inside = refl

outside :
    path_is_under_workspace two_directories (codes "/ws/nope/../../tmp/x") (codes "/ws") ≡ false
unfolding path_is_under_workspace str_equal lexical_collapse_path collapse_segments segments
    has_prefix shellclaw.Sandbox.Path.stacked_is_link shellclaw.Sandbox.Path.join_from
    shellclaw.Sandbox.Path.drop_last shellclaw.Sandbox.Path.ancestor_from
    shellclaw.Sandbox.Path.is_under
outside = refl

path_is_under_workspace-Confined_example :
    Confined two_directories (codes "/ws/new") (actual_workspace (codes "/ws") (some (codes "/ws")))
unfolding str_equal
path_is_under_workspace-Confined_example =
    path_is_under_workspace-Confined two_directories (codes "/ws/new") (codes "/ws") inside

names_left :
    collapse_segments two_directories true [] (segments [] (codes "ws/./a/../new"))
    ≡ some (codes "ws" ∷ codes "new" ∷ [])
unfolding collapse_segments segments str_equal shellclaw.Sandbox.Path.stacked_is_link
    shellclaw.Sandbox.Path.join_from shellclaw.Sandbox.Path.drop_last
names_left = refl

collapse_segments-AllNames_example : AllNames (codes "ws" ∷ codes "new" ∷ [])
collapse_segments-AllNames_example =
    collapse_segments-AllNames two_directories true (codes "ws/./a/../new")
      (codes "ws" ∷ codes "new" ∷ []) names_left
