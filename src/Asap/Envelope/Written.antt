-- ===== src/Asap/Envelope/Written.antt =====
-- src/asap/envelope.c: an envelope that is written and read.
use shellclaw.Common.{
  true, false, Option, none, some, ◌≡◌, inl, inr, refl, sym, ◌∙◌, ap, Bool-cases, Bytes, codes,
  is_empty, str_equal,
}
use shellclaw.Crypto.Jcs.{Json, Members, member}
use shellclaw.Providers.Model.{case_equal}
use shellclaw.Asap.Envelope.{
  Envelope, parsed, get_item, has_member, from_members, is_null, payload_type_is_allowed,
  id_or_null,
}
use shellclaw.Asap.Envelope.Rpc.{
  answer, envelope_fields, first_json, to_jsonrpc, to_jsonrpc_request, envelope_parse,
  parse_jsonrpc_response, parse_root, response_root, printed, to_jsonrpc_string, request_of,
  response_of, to_jsonrpc_request_string, EnvelopeJson, method_or, optional_fields, named, with_id,
  answer_of,
}

abbrev pub answered : Envelope → Option Json → Envelope
answered env jsonrpc_id = record env {
  jsonrpc_request_id = some (id_or_null (first_json jsonrpc_id env.jsonrpc_request_id));
}

-- an envelope that is not null in what it must have
abbrev whole :
    Bytes
    → Bytes
    → Bytes
    → Bytes
    → Bytes
    → Json
    → Option Bytes
    → Option Bytes
    → Option Bytes
    → Option Json
    → Envelope
whole a b c d e p x y z own = record {
  id = some a;
  asap_version = some b;
  sender = some c;
  recipient = some d;
  payload_type = some e;
  payload = some p;
  correlation_id = x;
  trace_id = y;
  timestamp = z;
  jsonrpc_request_id = own;
}

abbrev fields : Bytes → Bytes → Bytes → Bytes → Bytes → Json → Members → Members
fields a b c d e p rest = named (codes "id") a (
    named (codes "asap_version") b (
      named (codes "sender") c (
        named (codes "recipient") d
          (named (codes "payload_type") e (member (some (codes "payload")) p rest)))))

module _ (a b c d e : Bytes) (p : Json) (rpc_id : Json) (n : is_null p ≡ false)
    (t : payload_type_is_allowed e ≡ true) where
  from_fields :
      (x y z : Option Bytes) (own : Option Json)
      → from_members rpc_id (fields a b c d e p (optional_fields (whole a b c d e p x y z own)))
        ≡ parsed (whole a b c d e p x y z none)
  unfolding from_members get_item has_member case_equal str_equal
  from_fields none none none own = rw (t, n) refl
  from_fields (some x) none none own = rw (t, n) refl
  from_fields none (some y) none own = rw (t, n) refl
  from_fields none none (some z) own = rw (t, n) refl
  from_fields (some x) (some y) none own = rw (t, n) refl
  from_fields (some x) none (some z) own = rw (t, n) refl
  from_fields none (some y) (some z) own = rw (t, n) refl
  from_fields (some x) (some y) (some z) own = rw (t, n) refl

method_filled : (method : Option Bytes) → is_empty (method_or method) ≡ false
method_filled none = refl
method_filled (some m) = elim (Bool-cases (is_empty m)) [
  | inl t ↦ rw t refl
  | inr f ↦ rw (f, f) refl
]

-- what becomes of an envelope in a request, and in a response
ReadBack : Envelope → Option Json → Option Bytes → Type 0
ReadBack env jsonrpc_id method =
    (parse_root (to_jsonrpc_request env jsonrpc_id method) ≡ parsed (answered env jsonrpc_id))
    × (response_root (to_jsonrpc env jsonrpc_id) ≡ answer (answered env jsonrpc_id))

whole-ReadBack :
    (a b c d e : Bytes) (p : Json) (x y z : Option Bytes) (own jsonrpc_id : Option Json)
    (method : Option Bytes)
    → is_null p ≡ false
    → payload_type_is_allowed e ≡ true
    → ReadBack (whole a b c d e p x y z own) jsonrpc_id method
unfolding ReadBack envelope_fields get_item has_member case_equal str_equal
whole-ReadBack a b c d e p x y z own jsonrpc_id method n t =
    let rpc_id = id_or_null (first_json jsonrpc_id own) in
    let read = from_fields a b c d e p rpc_id n t x y z own in
    (
      rw (n, t, method_filled method) (ap (with_id rpc_id) read),
      rw (n, t) (ap (answer_of rpc_id) read),
    )

fields-ReadBack :
    (a b c d e : Option Bytes) (p : Option Json) (x y z : Option Bytes)
    (own jsonrpc_id : Option Json) (method : Option Bytes) (ms : Members)
    → envelope_fields (record {
      id = a;
      asap_version = b;
      sender = c;
      recipient = d;
      payload_type = e;
      payload = p;
      correlation_id = x;
      trace_id = y;
      timestamp = z;
      jsonrpc_request_id = own;
    })
      ≡ some ms
    → ReadBack
        (record {
          id = a;
          asap_version = b;
          sender = c;
          recipient = d;
          payload_type = e;
          payload = p;
          correlation_id = x;
          trace_id = y;
          timestamp = z;
          jsonrpc_request_id = own;
        })
        jsonrpc_id
        method
unfolding envelope_fields
fields-ReadBack none b c d e p x y z own jsonrpc_id method ms h = cc
fields-ReadBack (some a) none c d e p x y z own jsonrpc_id method ms h = cc
fields-ReadBack (some a) (some b) none d e p x y z own jsonrpc_id method ms h = cc
fields-ReadBack (some a) (some b) (some c) none e p x y z own jsonrpc_id method ms h = cc
fields-ReadBack (some a) (some b) (some c) (some d) none p x y z own jsonrpc_id method ms h = cc
fields-ReadBack (some a) (some b) (some c) (some d) (some e) none x y z own jsonrpc_id method ms h =
    cc
fields-ReadBack (some a) (some b) (some c) (some d) (some e) (some p) x y z own jsonrpc_id method ms
      h =
    elim (Bool-cases (is_null p)) [
      | inl t ↦ cc (rw t at h)
      | inr n ↦ elim (Bool-cases (payload_type_is_allowed e)) [
        | inr f ↦ cc (rw (n, f) at h)
        | inl t ↦ whole-ReadBack a b c d e p x y z own jsonrpc_id method n t
      ]
    ]

-- the tree of the fields is written where there are any
request_of-some :
    (env : Envelope) (jsonrpc_id : Option Json) (m : Bytes) (ms : Members)
    → envelope_fields env ≡ some ms
    → (root : Json) × (request_of env jsonrpc_id m (envelope_fields env) ≡ some root)
request_of-some env jsonrpc_id m ms h = rw h (_, refl)

response_of-some :
    (env : Envelope) (jsonrpc_id : Option Json) (ms : Members)
    → envelope_fields env ≡ some ms
    → (root : Json) × (response_of env jsonrpc_id (envelope_fields env) ≡ some root)
response_of-some env jsonrpc_id ms h = rw h (_, refl)

-- A tree is parsed as it was printed, which holds where no number in it is infinite or none.
abbrev pub IsReadBack : EnvelopeJson → Option Json → Type 0
IsReadBack json o = (root : Json) → o ≡ some root → json.parse (json.print root) ≡ some root

-- An envelope that can be written is printed as a request and as a response, and each of the two texts is
-- read back as the envelope was, with the id of the call as the id of the request, where the trees that
-- are printed are parsed as they were.
pub envelope_parse-to_jsonrpc :
    (json : EnvelopeJson) (env : Envelope) (jsonrpc_id : Option Json) (method : Option Bytes)
    (ms : Members)
    → envelope_fields env ≡ some ms
    → IsReadBack json (to_jsonrpc_request env jsonrpc_id method)
    → IsReadBack json (to_jsonrpc env jsonrpc_id)
    → ((request : Bytes) × (to_jsonrpc_request_string json env jsonrpc_id method ≡ some request)
        × (envelope_parse json request ≡ parsed (answered env jsonrpc_id)))
      × ((response : Bytes) × (to_jsonrpc_string json env jsonrpc_id ≡ some response)
          × (parse_jsonrpc_response json response ≡ answer (answered env jsonrpc_id)))
unfolding ReadBack to_jsonrpc_request_string to_jsonrpc_string envelope_parse parse_jsonrpc_response
envelope_parse-to_jsonrpc json env jsonrpc_id method ms h q p =
    let (request, e) = request_of-some env jsonrpc_id (method_or method) ms h in
    let (response, d) = response_of-some env jsonrpc_id ms h in
    let read =
      fields-ReadBack env.id env.asap_version env.sender env.recipient env.payload_type env.payload
        env.correlation_id env.trace_id env.timestamp env.jsonrpc_request_id jsonrpc_id method ms
        h in
    (
      (
        json.print request,
        ap (printed json) e,
        ap parse_root (q request e) ∙ (ap parse_root (sym e) ∙ read.0),
      ),
      (
        json.print response,
        ap (printed json) d,
        ap response_root (p response d) ∙ (ap response_root (sym d) ∙ read.1),
      ),
    )
