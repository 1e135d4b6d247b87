-- ===== src/Sandbox/Allowlist/Tests.antt =====
-- src/sandbox/allowlist.c: commands in a workspace, and the theorems at one of them.
use shellclaw.Common.{
  ℕ, ◌-◌, ◌<◌, Bool, true, false, Option, none, some, List, [], ◌∷◌, ◌≡◌, refl, arith, Bytes, codes,
  str_equal, has_prefix, if◌then◌else◌, take, strtok_all, ◌==◌,
}
use shellclaw.Sandbox.Path.{path_max}
use shellclaw.Sandbox.Words.{Shell, escapes, unresolved, state_file, contains, assigns_home}
use shellclaw.Sandbox.Scanners.{percent_decode}
use shellclaw.Sandbox.Allowlist.{
  AllowConfig, block_substrings, check_shell_command, delimiters, resolved_or, reason_of,
}
use shellclaw.Sandbox.Allowlist.Passed.{AllAbsent, AllHeld, check_shell_command-AllHeld}
use shellclaw.Sandbox.Allowlist.Decoding.{AllBelow, percent_decode-encode}

-- "/ws" and "/ws/notes" are there, and nothing is a link
abbrev host : Shell
host = record {
  files = record {
    realpath = λ p.
        if str_equal p (codes "/ws")
        then some p
        else if str_equal p (codes "/ws/notes")
        then some p
        else none;
    is_link = λ p. false;
    dirname = λ p. if has_prefix p (codes "/ws/") then codes "/ws" else codes "/";
  };
  getenv = λ name. if str_equal name (codes "HOME") then some (codes "/home/u") else none;
  access = λ p. str_equal p (codes "/ws/notes");
}

abbrev in_ws : AllowConfig
in_ws = record { workspace_only = true; workspace_path = some (codes "/ws") }

reads_notes : check_shell_command host (some in_ws) (some (codes "cat ./notes -n")) ≡ none
unfolding check_shell_command shellclaw.Sandbox.Allowlist.blocklist_hit shellclaw.Common.strstr
    has_prefix shellclaw.Sandbox.Allowlist.workspace_scanners
    shellclaw.Sandbox.Scanners.mutates_home_or_pwd shellclaw.Sandbox.Words.is_ident_cont
    shellclaw.Sandbox.Scanners.file_urls shellclaw.Sandbox.Scanners.prefix_ci_eq
    shellclaw.Sandbox.Scanners.dollar_expansions shellclaw.Sandbox.Scanners.embedded_paths
    shellclaw.Sandbox.Scanners.is_fs_absolute_path_start shellclaw.Sandbox.Scanners.is_inside_url
    shellclaw.Common.is_byte_of shellclaw.Sandbox.Words.is_path_body_char
    shellclaw.Sandbox.Scanners.body_run shellclaw.Sandbox.Words.check_joined_or_abs
    shellclaw.Sandbox.Words.join_under_workspace strtok_all str_equal
    shellclaw.Sandbox.Allowlist.check_tokens shellclaw.Sandbox.Allowlist.is_runtime_state_file
    shellclaw.Sandbox.Allowlist.is_state_path shellclaw.Sandbox.Allowlist.last_slash
    shellclaw.Sandbox.Allowlist.state_path_of shellclaw.Sandbox.Allowlist.state_token
    shellclaw.Sandbox.Allowlist.workspace_token shellclaw.Sandbox.Path.ancestor_from
    shellclaw.Sandbox.Path.collapse_segments shellclaw.Sandbox.Path.drop_last
    shellclaw.Sandbox.Path.is_under shellclaw.Sandbox.Path.join_from
    shellclaw.Sandbox.Path.lexical_collapse_path shellclaw.Sandbox.Path.path_is_under_workspace
    shellclaw.Sandbox.Path.segments shellclaw.Sandbox.Path.stacked_is_link
    shellclaw.Sandbox.Scanners.c_string shellclaw.Sandbox.Scanners.decoded_byte
    shellclaw.Sandbox.Scanners.dollar_at shellclaw.Sandbox.Scanners.drop_slashes
    shellclaw.Sandbox.Scanners.file_url_at shellclaw.Sandbox.Scanners.hex_nibble percent_decode
    shellclaw.Sandbox.Scanners.skip_blanks shellclaw.Sandbox.Scanners.url_rest
    shellclaw.Sandbox.Words.expand_env_prefix shellclaw.Sandbox.Words.expand_shell_path_token
    shellclaw.Sandbox.Words.has_path_chars shellclaw.Sandbox.Words.relative_token
    shellclaw.Sandbox.Words.strip_surrounding_quotes
reads_notes = refl

leaves :
    check_shell_command host (some in_ws) (some (codes "cat /etc/passwd"))
    ≡ some (escapes (codes "/etc/passwd"))
unfolding check_shell_command shellclaw.Sandbox.Allowlist.blocklist_hit shellclaw.Common.strstr
    has_prefix shellclaw.Sandbox.Allowlist.workspace_scanners
    shellclaw.Sandbox.Scanners.mutates_home_or_pwd shellclaw.Sandbox.Words.is_ident_cont
    shellclaw.Sandbox.Scanners.file_urls shellclaw.Sandbox.Scanners.prefix_ci_eq
    shellclaw.Sandbox.Scanners.dollar_expansions shellclaw.Sandbox.Scanners.embedded_paths
    shellclaw.Sandbox.Scanners.is_fs_absolute_path_start shellclaw.Sandbox.Words.is_path_body_char
    shellclaw.Sandbox.Scanners.body_run shellclaw.Sandbox.Words.check_joined_or_abs
    shellclaw.Sandbox.Path.path_is_under_workspace str_equal
    shellclaw.Sandbox.Path.lexical_collapse_path shellclaw.Common.is_byte_of strtok_all
    shellclaw.Sandbox.Allowlist.check_tokens shellclaw.Sandbox.Allowlist.is_runtime_state_file
    shellclaw.Sandbox.Allowlist.is_state_path shellclaw.Sandbox.Allowlist.last_slash
    shellclaw.Sandbox.Allowlist.state_path_of shellclaw.Sandbox.Allowlist.state_token
    shellclaw.Sandbox.Allowlist.workspace_token shellclaw.Sandbox.Path.ancestor_from
    shellclaw.Sandbox.Path.collapse_segments shellclaw.Sandbox.Path.drop_last
    shellclaw.Sandbox.Path.is_under shellclaw.Sandbox.Path.join_from shellclaw.Sandbox.Path.segments
    shellclaw.Sandbox.Path.stacked_is_link shellclaw.Sandbox.Scanners.c_string
    shellclaw.Sandbox.Scanners.decoded_byte shellclaw.Sandbox.Scanners.dollar_at
    shellclaw.Sandbox.Scanners.drop_slashes shellclaw.Sandbox.Scanners.file_url_at
    shellclaw.Sandbox.Scanners.hex_nibble shellclaw.Sandbox.Scanners.is_inside_url percent_decode
    shellclaw.Sandbox.Scanners.skip_blanks shellclaw.Sandbox.Scanners.url_rest
    shellclaw.Sandbox.Words.expand_env_prefix shellclaw.Sandbox.Words.expand_shell_path_token
    shellclaw.Sandbox.Words.has_path_chars shellclaw.Sandbox.Words.join_under_workspace
    shellclaw.Sandbox.Words.relative_token shellclaw.Sandbox.Words.strip_surrounding_quotes
leaves = refl

expands :
    check_shell_command host (some in_ws) (some (codes "echo $USER"))
    ≡ some (unresolved (codes "$USER"))
unfolding check_shell_command shellclaw.Sandbox.Allowlist.blocklist_hit shellclaw.Common.strstr
    has_prefix shellclaw.Sandbox.Allowlist.workspace_scanners
    shellclaw.Sandbox.Scanners.mutates_home_or_pwd shellclaw.Sandbox.Words.is_ident_cont
    shellclaw.Sandbox.Scanners.file_urls shellclaw.Sandbox.Scanners.prefix_ci_eq
    shellclaw.Sandbox.Scanners.dollar_expansions shellclaw.Sandbox.Scanners.dollar_at
expands = refl

sets_home : check_shell_command host (some in_ws) (some (codes "HOME=/ ls")) ≡ some assigns_home
unfolding check_shell_command shellclaw.Sandbox.Allowlist.blocklist_hit shellclaw.Common.strstr
    has_prefix shellclaw.Sandbox.Allowlist.workspace_scanners
    shellclaw.Sandbox.Scanners.mutates_home_or_pwd
sets_home = refl

reads_url :
    check_shell_command host (some in_ws) (some (codes "curl file:///etc/%70"))
    ≡ some (escapes (codes "/etc/p"))
unfolding check_shell_command shellclaw.Sandbox.Allowlist.blocklist_hit shellclaw.Common.strstr
    has_prefix shellclaw.Sandbox.Allowlist.workspace_scanners
    shellclaw.Sandbox.Scanners.mutates_home_or_pwd shellclaw.Sandbox.Words.is_ident_cont
    shellclaw.Sandbox.Scanners.file_urls shellclaw.Sandbox.Scanners.prefix_ci_eq
    shellclaw.Sandbox.Scanners.dollar_expansions shellclaw.Sandbox.Scanners.embedded_paths
    shellclaw.Sandbox.Scanners.is_fs_absolute_path_start shellclaw.Sandbox.Scanners.is_inside_url
    shellclaw.Common.is_byte_of shellclaw.Sandbox.Words.is_path_body_char
    shellclaw.Sandbox.Scanners.body_run shellclaw.Sandbox.Words.check_joined_or_abs
    shellclaw.Sandbox.Words.join_under_workspace strtok_all str_equal
    shellclaw.Sandbox.Allowlist.check_tokens shellclaw.Sandbox.Allowlist.is_runtime_state_file
    shellclaw.Sandbox.Allowlist.is_state_path shellclaw.Sandbox.Allowlist.last_slash
    shellclaw.Sandbox.Allowlist.state_path_of shellclaw.Sandbox.Allowlist.state_token
    shellclaw.Sandbox.Allowlist.workspace_token shellclaw.Sandbox.Path.ancestor_from
    shellclaw.Sandbox.Path.collapse_segments shellclaw.Sandbox.Path.drop_last
    shellclaw.Sandbox.Path.is_under shellclaw.Sandbox.Path.join_from
    shellclaw.Sandbox.Path.lexical_collapse_path shellclaw.Sandbox.Path.path_is_under_workspace
    shellclaw.Sandbox.Path.segments shellclaw.Sandbox.Path.stacked_is_link
    shellclaw.Sandbox.Scanners.c_string shellclaw.Sandbox.Scanners.decoded_byte
    shellclaw.Sandbox.Scanners.dollar_at shellclaw.Sandbox.Scanners.drop_slashes
    shellclaw.Sandbox.Scanners.file_url_at shellclaw.Sandbox.Scanners.hex_nibble percent_decode
    shellclaw.Sandbox.Scanners.skip_blanks shellclaw.Sandbox.Scanners.url_rest
    shellclaw.Sandbox.Words.expand_env_prefix shellclaw.Sandbox.Words.expand_shell_path_token
    shellclaw.Sandbox.Words.has_path_chars shellclaw.Sandbox.Words.relative_token
    shellclaw.Sandbox.Words.strip_surrounding_quotes
reads_url = refl

reads_state :
    check_shell_command host none (some (codes "cat ~/.shellclaw/config.toml"))
    ≡ some (state_file (codes "/home/u/.shellclaw/config.toml"))
unfolding check_shell_command shellclaw.Sandbox.Allowlist.blocklist_hit shellclaw.Common.strstr
    has_prefix shellclaw.Sandbox.Allowlist.check_tokens strtok_all shellclaw.Common.is_byte_of
    shellclaw.Sandbox.Allowlist.state_token shellclaw.Sandbox.Words.strip_surrounding_quotes
    shellclaw.Sandbox.Allowlist.is_runtime_state_file shellclaw.Sandbox.Allowlist.state_path_of
    shellclaw.Sandbox.Allowlist.is_state_path str_equal shellclaw.Sandbox.Allowlist.last_slash
    shellclaw.Sandbox.Words.expand_shell_path_token
reads_state = refl

check_shell_command-AllHeld_example :
    AllAbsent (codes "cat ./notes -n") block_substrings
    × AllHeld host
        (resolved_or (take (path_max - 1) (codes "/ws")) (host.files.realpath (codes "/ws")))
        (strtok_all delimiters [] (codes "cat ./notes -n"))
check_shell_command-AllHeld_example =
    check_shell_command-AllHeld host in_ws (codes "cat ./notes -n") (codes "/ws") refl refl
      reads_notes

abbrev spaced : Bytes
spaced = codes "/a b%"

spaced-AllBelow : AllBelow spaced
spaced-AllBelow = (omega arith, (omega arith, (omega arith, (omega arith, (omega arith, tt)))))

percent_decode-encode_example : percent_decode 0 [] (codes "/a%20b%25") ≡ (true, spaced)
percent_decode-encode_example = percent_decode-encode (λ c. c == 32) [] spaced spaced-AllBelow
