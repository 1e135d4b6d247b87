-- ===== src/Gateway/Auth.antt =====
-- src/gateway/auth.c: the pairing of a client by a code of six digits, the tokens it gets, and the
-- lockout of an address after failures. The tokens' file is its bytes, if there is one that can be read;
-- cJSON is the parameter `TokensJson`, on the trees of Crypto/Jcs. Whether writing the file succeeds, and
-- the random bytes, are arguments. Times are seconds since the epoch, and memory is taken to suffice.
pub mod Lockout
pub mod Pairing
mod Tests
use Prim.Native.Nat.{bit_or, bit_xor}
use shellclaw.Common.{
  ℕ, zero, suc, ◌+◌, ◌-◌, ◌*◌, ◌/◌, ◌%◌, Bool, true, false, ◌&&◌, ◌||◌, not, Option, none, some,
  List, [], ◌∷◌, ◌++◌, ◌==◌, ltb, leb, if◌then◌else◌, min, Bytes, str_equal, is_empty, is_digit,
  length, take, set, get_or, replicate,
}
use shellclaw.Gateway.RateLimit.{safe_ip}
use shellclaw.Crypto.Jcs.{Json, text}

abbrev pub pairing_code_len : ℕ
pairing_code_len = 6

abbrev pub token_len : ℕ
token_len = 32

abbrev pub lockout_ip_size : ℕ
lockout_ip_size = 48

-- PAIR_LOCKOUT_MAX_FAILS and PAIR_LOCKOUT_WINDOW_SECS of auth.h
abbrev pub max_fails : ℕ
max_fails = 5

abbrev pub lockout_window_secs : ℕ
lockout_window_secs = 300

pub record LockoutEntry : Type 0 where
  pub ip : Bytes
  pub fail_count : ℕ
  pub locked_until : ℕ

abbrev pub Lockouts : Type 0
Lockouts = List LockoutEntry

abbrev pub no_lockout : LockoutEntry
no_lockout = record { ip = []; fail_count = 0; locked_until = 0 }

-- the table of a new context
abbrev pub lockouts_init : Lockouts
lockouts_init = replicate 32 no_lockout

pub data LockoutSlot : Type 0 where
  held : ℕ → LockoutSlot
  vacant : Option ℕ → LockoutSlot

abbrev pub first_vacant : Option ℕ → ℕ → Option ℕ
first_vacant none i = some i
first_vacant (some s) i = some s

-- strncmp (stored, ip, LOCKOUT_IP_SIZE - 1) == 0
abbrev pub same_address : Bytes → Bytes → Bool
same_address stored ip =
    str_equal (take (lockout_ip_size - 1) stored) (take (lockout_ip_size - 1) ip)

-- the loop over the table, from index `i`
unfoldable pub lockout_find : ℕ → Option ℕ → Lockouts → Bytes → LockoutSlot
lockout_find i free [] ip = vacant free
lockout_find i free (e ∷ es) ip =
    let next = lockout_find (i + 1) (first_vacant free i) es ip in
    let skip = lockout_find (i + 1) free es ip in
    if is_empty e.ip then next else if same_address e.ip ip then held i else skip

abbrev pub lockout_reset : Lockouts → ℕ → Bytes → Lockouts
lockout_reset t s ip =
    set t s (record { ip = take (lockout_ip_size - 1) ip; fail_count = 0; locked_until = 0 })

-- a full table gives up its first slot
abbrev pub lockout_place : Lockouts → Bytes → LockoutSlot → ℕ × Lockouts
lockout_place t ip (held s) = (s, t)
lockout_place t ip (vacant (some s)) = (s, lockout_reset t s ip)
lockout_place t ip (vacant none) = (0, lockout_reset t 0 ip)

unfoldable pub lockout_find_or_create : Lockouts → Bytes → ℕ × Lockouts
lockout_find_or_create t ip = lockout_place t ip (lockout_find 0 none t ip)

abbrev pub lockout_at : Lockouts → ℕ → LockoutEntry
lockout_at t s = get_or t s no_lockout

abbrev pub check_entry : ℕ × Lockouts → ℕ → Bool × Lockouts
check_entry (s, t) now =
    let e = lockout_at t s in
    if ltb 0 e.locked_until && ltb now e.locked_until
    then (true, t)
    else if ltb 0 e.locked_until && leb e.locked_until now
    then (false, set t s (record e { fail_count = 0; locked_until = 0 }))
    else (false, t)

-- `true` is the C result 1, locked out
unfoldable pub pair_check_lockout : Lockouts → Option Bytes → ℕ → Bool × Lockouts
pair_check_lockout t ip now = check_entry (lockout_find_or_create t (safe_ip ip)) now

abbrev pub failed_entry : LockoutEntry → ℕ → LockoutEntry
failed_entry e now = record e {
  fail_count = e.fail_count + 1;
  locked_until =
      if leb max_fails (e.fail_count + 1) then now + lockout_window_secs else e.locked_until;
}

abbrev pub fail_at : ℕ × Lockouts → ℕ → Lockouts
fail_at (s, t) now = set t s (failed_entry (lockout_at t s) now)

unfoldable pub pair_record_failure : Lockouts → Option Bytes → ℕ → Lockouts
pair_record_failure t ip now = fail_at (lockout_find_or_create t (safe_ip ip)) now

abbrev pub clear_at : ℕ × Lockouts → Lockouts
clear_at (s, t) = set t s (record (lockout_at t s) { fail_count = 0; locked_until = 0 })

unfoldable pub pair_clear_ip : Lockouts → Option Bytes → Lockouts
pair_clear_ip t ip = clear_at (lockout_find_or_create t (safe_ip ip))

-- the loop over the digits, and the test of the final zero
unfoldable pub is_code : ℕ → Bytes → Bool
is_code zero code = is_empty code
is_code (suc n) [] = false
is_code (suc n) (c ∷ cs) = is_digit c && is_code n cs

abbrev pub is_valid_6digit : Bytes → Bool
is_valid_6digit code = is_code pairing_code_len code

-- on two texts that have the length
unfoldable pub differ_from : ℕ → ℕ → Bytes → Bytes → ℕ
differ_from result (suc n) (x ∷ a) (y ∷ b) = differ_from (bit_or result (bit_xor x y)) n a b
differ_from result _ _ _ = result

abbrev pub constant_time_cmp : Bytes → Bytes → ℕ → Bool
constant_time_cmp a b len = differ_from 0 len a b == 0

unfoldable pub pairing_code : Bytes → Bytes
pairing_code [] = []
pairing_code (r ∷ raw) = (b'0' + r % 10) ∷ pairing_code raw

-- on the six random bytes, if they are read; the buffer has room
abbrev pub generate_pairing_code : Option Bytes → Option Bytes
generate_pairing_code none = none
generate_pairing_code (some raw) = some (pairing_code raw)

abbrev pub hex_digit : ℕ → ℕ
hex_digit v = if ltb v 10 then b'0' + v else b'a' + v - 10

unfoldable pub hex_of : Bytes → Bytes
hex_of [] = []
hex_of (r ∷ raw) = hex_digit (r / 16) ∷ hex_digit (r % 16) ∷ hex_of raw

-- on the sixteen random bytes, if they are read
abbrev pub generate_random_hex : Option Bytes → Option Bytes
generate_random_hex none = none
generate_random_hex (some raw) = some (hex_of raw)

-- the bytes of the tokens' file, if it can be opened
abbrev pub Tokens : Type 0
Tokens = Option Bytes

pub record TokensJson : Type 0 where
  -- cJSON_Parse; `none` where it fails or gives no array
  pub parse : Bytes → Option (List Json)
  -- cJSON_PrintUnformatted of an array
  pub print : List Json → Bytes

-- what fread leaves in the buffer of 8192 bytes, less the final zero
abbrev pub read_max : ℕ
read_max = 8191

abbrev pub read_tokens : TokensJson → Tokens → Option (List Json)
read_tokens json none = none
read_tokens json (some file) = json.parse (take read_max file)

-- the code that waits, and the tokens' file
pub record AuthState : Type 0 where
  pub pending : Option Bytes
  pub tokens : Tokens

-- the code that is shown, where there are no tokens: `empty` is what the test of the file says
abbrev pub get_or_create_pairing_code : AuthState → Bool → Option Bytes → Option Bytes × AuthState
get_or_create_pairing_code s empty raw =
    if not empty
    then (none, s)
    else (generate_pairing_code raw, record s { pending = generate_pairing_code raw })

-- the loop that deletes the first while there are 16
unfoldable pub cap_tokens : List Json → List Json
cap_tokens [] = []
cap_tokens (x ∷ xs) = let rest = cap_tokens xs in if leb 16 (length (x ∷ xs)) then rest else x ∷ xs

abbrev pub existing : Option (List Json) → List Json
existing none = []
existing (some items) = items

-- the items that are written with a new token
abbrev pub with_token : TokensJson → Tokens → Bytes → List Json
with_token json tokens token =
    cap_tokens (existing (read_tokens json tokens)) ++ text (some token) ∷ []

abbrev pub issue : TokensJson → AuthState → ℕ → Bool → Option Bytes → Option Bytes × AuthState
issue json s token_size written none = (none, s)
issue json s token_size false (some token) = (none, s)
issue json s token_size true (some token) = (
  some (take (min token_len (token_size - 1)) token),
  record { pending = none; tokens = some (json.print (with_token json s.tokens token)) },
)

abbrev pub pair_pending :
    TokensJson
    → AuthState
    → Bytes
    → ℕ
    → Bool
    → Option Bytes
    → Option Bytes
    → Option Bytes × AuthState
pair_pending json s code token_size written raw none = (none, s)
pair_pending json s code token_size written raw (some pending) =
    if not (constant_time_cmp code pending pairing_code_len)
    then (none, s)
    else issue json s token_size written (generate_random_hex raw)

-- the token written to the buffer
unfoldable pub pair :
    TokensJson → AuthState → Bytes → ℕ → Bool → Option Bytes → Option Bytes × AuthState
pair json s code token_size written raw =
    if token_size == 0 || not (is_valid_6digit code)
    then (none, s)
    else pair_pending json s code token_size written raw s.pending

abbrev pub is_item : Bytes → Json → Bool
is_item token (text (some item)) =
    length item == length token && constant_time_cmp item token (length token)
is_item token _ = false

unfoldable pub has_item : Bytes → List Json → Bool
has_item token [] = false
has_item token (x ∷ xs) = is_item token x || has_item token xs

unfoldable pub validate_token : TokensJson → Tokens → Bytes → Bool
validate_token json tokens token =
    if is_empty token then false else has_item token (existing (read_tokens json tokens))
