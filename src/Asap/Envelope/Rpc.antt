-- ===== src/Asap/Envelope/Rpc.antt =====
-- src/asap/envelope.c: envelopes in the requests and responses of JSON-RPC, written and read.
use shellclaw.Common.{
  Bool, false, ◌||◌, not, Option, none, some, if◌then◌else◌, Bytes, codes, str_equal, is_empty,
  negsuc,
}
use shellclaw.Crypto.Jcs.{Json, null, text, object, Members, no_members, member}
use shellclaw.Asap.Envelope.{
  Envelope, get_item, has_member, members_of, is_null, string_of, jsonrpc_error, Parsed,
  payload_type_is_allowed, parse_fail, from_members, id_or_null, parsed, refused, rejected,
}

abbrev pub add_string : Bytes → Option Bytes → Members → Members
add_string key none rest = rest
add_string key (some s) rest = member (some key) (text (some s)) rest

-- the last three members
abbrev pub optional_fields : Envelope → Members
optional_fields env = add_string (codes "correlation_id") env.correlation_id (
    add_string (codes "trace_id") env.trace_id
      (add_string (codes "timestamp") env.timestamp no_members))

abbrev pub named : Bytes → Bytes → Members → Members
named key s rest = member (some key) (text (some s)) rest

abbrev pub written : Envelope → Bytes → Bytes → Bytes → Bytes → Bytes → Option Json → Option Members
written env id asap_version sender recipient payload_type none = none
written env id asap_version sender recipient payload_type (some p) =
    if is_null p || not (payload_type_is_allowed payload_type)
    then none
    else some (
        named (codes "id") id (
          named (codes "asap_version") asap_version (
            named (codes "sender") sender (
              named (codes "recipient") recipient (
                named (codes "payload_type") payload_type
                  (member (some (codes "payload")) p (optional_fields env)))))))

abbrev pub all_five :
    Option Bytes
    → Option Bytes
    → Option Bytes
    → Option Bytes
    → Option Bytes
    → (Bytes → Bytes → Bytes → Bytes → Bytes → Option Members)
    → Option Members
all_five (some a) (some b) (some c) (some d) (some e) next = next a b c d e
all_five _ _ _ _ _ next = none

-- the members of the object, or null
unfoldable pub envelope_fields : Envelope → Option Members
envelope_fields env =
    all_five env.id env.asap_version env.sender env.recipient env.payload_type
      (λ id asap_version sender recipient payload_type.
        written env id asap_version sender recipient payload_type env.payload)

abbrev pub first_json : Option Json → Option Json → Option Json
first_json none next = next
first_json (some j) next = some j

abbrev pub id_member : Envelope → Option Json → Members
id_member env jsonrpc_id =
    member (some (codes "id")) (id_or_null (first_json jsonrpc_id env.jsonrpc_request_id))
      no_members

abbrev pub response_of : Envelope → Option Json → Option Members → Option Json
response_of env jsonrpc_id none = none
response_of env jsonrpc_id (some result) = some (
    object (
      named (codes "jsonrpc") (codes "2.0")
        (member (some (codes "result")) (object result) (id_member env jsonrpc_id))))

abbrev pub to_jsonrpc : Envelope → Option Json → Option Json
to_jsonrpc env jsonrpc_id = response_of env jsonrpc_id (envelope_fields env)

abbrev pub method_or : Option Bytes → Bytes
method_or none = codes "asap.send"
method_or (some m) = if is_empty m then codes "asap.send" else m

abbrev pub request_of : Envelope → Option Json → Bytes → Option Members → Option Json
request_of env jsonrpc_id m none = none
request_of env jsonrpc_id m (some params) = some (
    object (
      named (codes "jsonrpc") (codes "2.0") (
        named (codes "method") m
          (member (some (codes "params")) (object params) (id_member env jsonrpc_id)))))

abbrev pub to_jsonrpc_request : Envelope → Option Json → Option Bytes → Option Json
to_jsonrpc_request env jsonrpc_id method =
    request_of env jsonrpc_id (method_or method) (envelope_fields env)

-- the id, or `none` where its copy fails
abbrev pub dup_request_id : Members → Option Json
dup_request_id root = if has_member root (codes "id") then get_item root (codes "id") else some null

abbrev pub is_version : Option Bytes → Bool
is_version none = false
is_version (some v) = str_equal v (codes "2.0")

abbrev pub is_filled : Option Bytes → Bool
is_filled none = false
is_filled (some m) = not (is_empty m)

abbrev pub with_id : Json → Parsed → Parsed
with_id rpc_id (parsed env) = parsed (record env { jsonrpc_request_id = some rpc_id })
with_id rpc_id (refused e) = refused e
with_id rpc_id rejected = rejected

abbrev pub object_or : Option Json → Parsed → (Members → Parsed) → Parsed
object_or (some (object ms)) fail next = next ms
object_or _ fail next = fail

abbrev pub parse_with : Members → Option Json → Parsed
parse_with root none = rejected
parse_with root (some rpc_id) =
    if not (is_version (string_of (get_item root (codes "jsonrpc"))))
    then parse_fail rpc_id (codes "Invalid Request: jsonrpc must be \"2.0\"")
    else if not (is_filled (string_of (get_item root (codes "method"))))
    then parse_fail rpc_id (codes "Invalid Request: method must be a non-empty string")
    else object_or (get_item root (codes "params"))
        (parse_fail rpc_id (codes "Invalid Request: params must be an object"))
        (λ params. with_id rpc_id (from_members rpc_id params))

-- cJSON
pub record EnvelopeJson : Type 0 where
  -- cJSON_Parse; `none` where it fails
  pub parse : Bytes → Option Json
  -- cJSON_PrintUnformatted
  pub print : Json → Bytes

abbrev pub printed : EnvelopeJson → Option Json → Option Bytes
printed json none = none
printed json (some root) = some (json.print root)

unfoldable pub to_jsonrpc_string : EnvelopeJson → Envelope → Option Json → Option Bytes
to_jsonrpc_string json env jsonrpc_id = printed json (to_jsonrpc env jsonrpc_id)

unfoldable pub to_jsonrpc_request_string :
    EnvelopeJson → Envelope → Option Json → Option Bytes → Option Bytes
to_jsonrpc_request_string json env jsonrpc_id method =
    printed json (to_jsonrpc_request env jsonrpc_id method)

abbrev pub parse_root : Option Json → Parsed
parse_root none = refused (jsonrpc_error (negsuc 32699) (codes "Parse error") (some null))
parse_root (some root) = parse_with (members_of root) (dup_request_id (members_of root))

unfoldable pub envelope_parse : EnvelopeJson → Bytes → Parsed
envelope_parse json input = parse_root (json.parse input)

-- 0 with the envelope, or -1 with the text
pub data Answer : Type 0 where
  answer : Envelope → Answer
  failed : Bytes → Answer

abbrev pub message_or : Option Bytes → Bytes
message_or none = codes "JSON-RPC error"
message_or (some m) = m

abbrev pub answer_of : Json → Parsed → Answer
answer_of rpc_id (parsed env) = answer (record env { jsonrpc_request_id = some rpc_id })
answer_of rpc_id (refused e) = failed e.message
answer_of rpc_id rejected = failed (codes "Invalid result envelope")

abbrev pub result_with : Members → Option Json → Answer
result_with result none = failed (codes "Out of memory")
result_with result (some rpc_id) = answer_of rpc_id (from_members rpc_id result)

abbrev pub result_in : Members → Option Json → Answer
result_in root (some (object result)) = result_with result (dup_request_id root)
result_in root _ = failed (codes "Invalid response: missing result")

abbrev pub error_in : Members → Option Json → Answer
error_in root (some (object e)) = failed (message_or (string_of (get_item e (codes "message"))))
error_in root _ = result_in root (get_item root (codes "result"))

abbrev pub response_root : Option Json → Answer
response_root none = failed (codes "Invalid JSON in response")
response_root (some root) =
    if not (is_version (string_of (get_item (members_of root) (codes "jsonrpc"))))
    then failed (codes "Invalid response: jsonrpc")
    else error_in (members_of root) (get_item (members_of root) (codes "error"))

-- the text of an error is cut to the buffer of the caller there
unfoldable pub parse_jsonrpc_response : EnvelopeJson → Bytes → Answer
parse_jsonrpc_response json input = response_root (json.parse input)
