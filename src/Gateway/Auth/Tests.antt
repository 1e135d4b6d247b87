-- ===== src/Gateway/Auth/Tests.antt =====
-- src/gateway/auth.c: the theorems at one address and one code.
use shellclaw.Common.{
  ℕ, zero, suc, ◌+◌, ◌*◌, ◌<◌, ◌≤◌, Bool, true, false, Option, none, some, [], ◌∷◌, ◌≡◌, refl,
  arith, Bytes, codes, if◌then◌else◌, ltb, leb, length, replicate, List, str_equal,
}
use shellclaw.Crypto.Jcs.{text}
use shellclaw.Gateway.Auth.{
  Lockouts, LockoutEntry, held, lockouts_init, lockout_find, lockout_at, max_fails,
  pair_check_lockout, pair_record_failure, AuthState, pair, validate_token, existing, hex_of,
  TokensJson, read_tokens, with_token, is_valid_6digit, pairing_code,
}
use shellclaw.Gateway.Auth.Lockout.{IsHeld, record_failure-check}
use shellclaw.Gateway.Auth.Pairing.{AllSmall, pair-validate_token}

abbrev client : Option Bytes
client = some (codes "10.0.0.9")

abbrev four_failures : LockoutEntry
four_failures = record { ip = codes "10.0.0.9"; fail_count = 4; locked_until = 0 }

abbrev nearly_locked : Lockouts
nearly_locked = four_failures ∷ replicate 31 (record { ip = []; fail_count = 0; locked_until = 0 })

client-IsHeld : IsHeld nearly_locked client 0
unfolding lockout_find shellclaw.Common.str_equal
client-IsHeld = record { inside = omega arith; finds = refl }

record_failure-check_example :
    IsHeld (pair_record_failure nearly_locked client 1000) client 0
    × ((lockout_at (pair_record_failure nearly_locked client 1000) 0).fail_count ≡ 5)
    × ((pair_check_lockout (pair_record_failure nearly_locked client 1000) client 1299).0 ≡ true)
record_failure-check_example = record_failure-check nearly_locked client 0 1000 1299 client-IsHeld

abbrev raw_sixteen : Bytes
raw_sixteen = replicate 16 171

abbrev waiting_code : AuthState
waiting_code = record { pending = some (codes "012345"); tokens = none }

valid_code : is_valid_6digit (codes "012345") ≡ true
unfolding shellclaw.Gateway.Auth.is_code
valid_code = refl

small_code : AllSmall (codes "012345")
small_code =
    (omega arith, (omega arith, (omega arith, (omega arith, (omega arith, (omega arith, tt))))))

small_replicate : (n : ℕ) → AllSmall (replicate n 171)
small_replicate zero = tt
small_replicate (suc n) = (omega arith, small_replicate n)

abbrev token_text : Bytes
token_text = codes "abababababababababababababababab"

-- it reads one text, that of an array with the token
abbrev one_token : TokensJson
one_token = record {
  parse = λ file.
      if str_equal file (codes "[\"abababababababababababababababab\"]")
      then some (text (some token_text) ∷ [])
      else none;
  print = λ items. codes "[\"abababababababababababababababab\"]";
}

reads_back :
    one_token.parse (one_token.print (with_token one_token none (hex_of raw_sixteen)))
    ≡ some (with_token one_token none (hex_of raw_sixteen))
unfolding shellclaw.Common.str_equal hex_of shellclaw.Gateway.Auth.cap_tokens
reads_back = refl

pair-validate_token_example :
    ((pair one_token waiting_code (codes "012345") 33 true (some raw_sixteen)).0
      ≡ some (hex_of raw_sixteen))
    × (validate_token one_token
          (pair one_token waiting_code (codes "012345") 33 true (some raw_sixteen)).1.tokens
          (hex_of raw_sixteen)
        ≡ true)
    × (length (
          existing (
            read_tokens one_token
              (pair one_token waiting_code (codes "012345") 33 true (some raw_sixteen)).1.tokens))
        ≤ 16)
    × ((pair one_token waiting_code (codes "012345") 33 true (some raw_sixteen)).1.pending ≡ none)
pair-validate_token_example =
    pair-validate_token one_token waiting_code (codes "012345") raw_sixteen 33 valid_code small_code
      refl refl (small_replicate 16) (omega arith) (omega arith) reads_back
