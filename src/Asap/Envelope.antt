-- ===== src/Asap/Envelope.antt =====
-- src/asap/envelope.c: the envelopes that agents send each other in JSON-RPC. A tree of cJSON is that of
-- Crypto/Jcs; a name is looked up as cJSON does it, and an error object is its three values. Memory is
-- taken to suffice, and every place for a result is given.
pub mod Rpc
pub mod Written
mod Tests
use shellclaw.Common.{
  ℕ, Bool, true, false, ◌&&◌, ◌||◌, not, Option, none, some, List, [], ◌∷◌, ◌++◌, if◌then◌else◌,
  Bytes, codes, str_equal, is_empty, take, ℤ, negsuc,
}
use shellclaw.Providers.Model.{case_equal}
use shellclaw.Crypto.Jcs.{Json, null, text, array, object, Members, no_members, member}

pub record Envelope : Type 0 where
  pub id : Option Bytes
  pub asap_version : Option Bytes
  pub sender : Option Bytes
  pub recipient : Option Bytes
  pub payload_type : Option Bytes
  pub payload : Option Json
  pub correlation_id : Option Bytes
  pub trace_id : Option Bytes
  pub timestamp : Option Bytes
  pub jsonrpc_request_id : Option Json

-- asap_envelope_init, and asap_envelope_clear
abbrev pub envelope_init : Envelope
envelope_init = record {
  id = none;
  asap_version = none;
  sender = none;
  recipient = none;
  payload_type = none;
  payload = none;
  correlation_id = none;
  trace_id = none;
  timestamp = none;
  jsonrpc_request_id = none;
}

-- cJSON_GetObjectItemCaseSensitive on the members
unfoldable pub get_item : Members → Bytes → Option Json
get_item no_members key = none
get_item (member none x ms) key = none
get_item (member (some k) x ms) key =
    let rest = get_item ms key in if str_equal key k then some x else rest

-- cJSON_HasObjectItem, which does not tell capitals from small letters
unfoldable pub has_member : Members → Bytes → Bool
has_member no_members key = false
has_member (member none x ms) key = has_member ms key
has_member (member (some k) x ms) key = case_equal key k || has_member ms key

abbrev pub members_of : Json → Members
members_of (object ms) = ms
members_of _ = no_members

abbrev pub is_null : Json → Bool
is_null null = true
is_null _ = false

-- the text of a node that is a string
abbrev pub string_of : Option Json → Option Bytes
string_of (some (text s)) = s
string_of _ = none

pub record RpcError : Type 0 where
  pub code : ℤ
  pub message : Bytes
  pub id : Json

-- asap_jsonrpc_error; no id is null
abbrev pub jsonrpc_error : ℤ → Bytes → Option Json → RpcError
jsonrpc_error code message none = record { code = code; message = message; id = null }
jsonrpc_error code message (some id) = record { code = code; message = message; id = id }

-- 0 with the envelope, -1 with an error object, and -1 without
pub data Parsed : Type 0 where
  parsed : Envelope → Parsed
  refused : RpcError → Parsed
  rejected : Parsed

abbrev pub allowed_types : List Bytes
allowed_types =
    codes "task.request"
    ∷ codes "task.response"
    ∷ codes "task.cancel"
    ∷ codes "state.query"
    ∷ codes "mcp.tool_call"
    ∷ codes "mcp.tool_result"
    ∷ []

unfoldable pub is_one_of : List Bytes → Bytes → Bool
is_one_of [] t = false
is_one_of (a ∷ types) t = str_equal t a || is_one_of types t

abbrev pub payload_type_is_allowed : Bytes → Bool
payload_type_is_allowed t = is_one_of allowed_types t

-- -32602
abbrev pub invalid_params : ℤ
invalid_params = negsuc 32601

abbrev pub parse_fail : Json → Bytes → Parsed
parse_fail rpc_id msg = refused (jsonrpc_error invalid_params msg (some rpc_id))

abbrev pub bad_param : Bytes → Bytes
bad_param key =
    take 119 (codes "Invalid params: missing or bad type for '" ++ (take 48 key ++ codes "'"))

abbrev pub given : Json → Bytes → Option Bytes → (Bytes → Parsed) → Parsed
given rpc_id key none next = parse_fail rpc_id (bad_param key)
given rpc_id key (some s) next = next s

-- require_str_in_params, before what follows
abbrev pub required : Json → Members → Bytes → (Bytes → Parsed) → Parsed
required rpc_id params key next = given rpc_id key (string_of (get_item params key)) next

abbrev pub well_typed : Json → Option Bytes → (Option Bytes → Parsed) → Parsed
well_typed rpc_id none next =
    parse_fail rpc_id (codes "Invalid params: optional field has wrong type")
well_typed rpc_id (some s) next = next (some s)

-- optional_str_in_params, before what follows
abbrev pub optional : Json → Members → Bytes → (Option Bytes → Parsed) → Parsed
optional rpc_id params key next =
    if not (has_member params key)
    then next none
    else well_typed rpc_id (string_of (get_item params key)) next

abbrev pub payload_of : Json → Option Json → (Json → Parsed) → Parsed
payload_of rpc_id none next = parse_fail rpc_id (codes "Invalid params: missing or null 'payload'")
payload_of rpc_id (some p) next =
    if is_null p
    then parse_fail rpc_id (codes "Invalid params: missing or null 'payload'")
    else next p

abbrev pub type_allowed : Json → Bytes → Parsed → Parsed
type_allowed rpc_id t next =
    if not (payload_type_is_allowed t)
    then parse_fail rpc_id (codes "Invalid params: unknown payload_type")
    else next

unfoldable pub from_members : Json → Members → Parsed
from_members rpc_id r = required rpc_id r (codes "id") λ id.
    required rpc_id r (codes "asap_version") λ asap_version.
      required rpc_id r (codes "sender") λ sender.
        required rpc_id r (codes "recipient") λ recipient.
          required rpc_id r (codes "payload_type") λ payload_type.
            type_allowed rpc_id payload_type (
              payload_of rpc_id (get_item r (codes "payload")) λ payload.
                optional rpc_id r (codes "correlation_id") λ correlation_id.
                  optional rpc_id r (codes "trace_id") λ trace_id.
                    optional rpc_id r (codes "timestamp") λ timestamp. parsed (record {
                      id = some id;
                      asap_version = some asap_version;
                      sender = some sender;
                      recipient = some recipient;
                      payload_type = some payload_type;
                      payload = some payload;
                      correlation_id = correlation_id;
                      trace_id = trace_id;
                      timestamp = timestamp;
                      jsonrpc_request_id = none;
                    }))

abbrev pub id_or_null : Option Json → Json
id_or_null none = null
id_or_null (some id) = id

abbrev pub from_object : Option Json → Json → Parsed
from_object rpc_id (object ms) = from_members (id_or_null rpc_id) ms
from_object rpc_id _ = rejected
