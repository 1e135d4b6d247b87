-- ===== src/Gateway/Body/Tests.antt =====
-- src/gateway/asap_http_body.c: a body that is longer than its header says.
use shellclaw.Common.{
  ℕ, ◌≤◌, Bool, true, false, Option, some, none, List, [], ◌∷◌, ◌≡◌, refl, arith, Bytes, codes,
  decimal,
}
use shellclaw.Gateway.Body.{body_free, init_from_request, parse_content_length}
use shellclaw.Gateway.Body.Parts.{append_all, whole, Holds, init_from_request-Holds}

abbrev parts : List Bytes
parts = codes "{\"a" ∷ codes "\":1}" ∷ []

let_in : (init_from_request body_free true (some (codes "5"))).0 ≡ true
unfolding init_from_request parse_content_length shellclaw.Common.strtol
    shellclaw.Common.read_digits
let_in = refl

junk_length : parse_content_length (codes "5x") ≡ none
unfolding parse_content_length shellclaw.Common.strtol shellclaw.Common.read_digits
junk_length = refl

init_from_request-Holds_example :
    ((init_from_request body_free true (some (decimal 5))).0 ≡ true)
    × Holds
        (append_all 65536 (init_from_request body_free true (some (decimal 5))).1 parts)
        5
        (whole parts)
init_from_request-Holds_example =
    init_from_request-Holds 65536 body_free (some 5) parts (omega arith)
