-- ===== src/Asap/Envelope/Tests.antt =====
-- src/asap/envelope.c: messages that are refused, and the theorem at an envelope.
use mathlib.Core.Option.{some-injective}
use shellclaw.Common.{
  if◌then◌else◌, str_equal, ap, sym, ◌∙◌, ℕ, Bool, true, Option, none, some, List, [], ◌∷◌, ◌≡◌,
  refl, Bytes, codes, ℤ,
}
use shellclaw.Crypto.Jcs.{Json, null, text, object, Members, no_members, member}
use shellclaw.Asap.Envelope.{
  get_item, members_of, Envelope, Parsed, parsed, refused, rejected, envelope_init, jsonrpc_error,
  invalid_params,
}
use shellclaw.Asap.Envelope.Rpc.{
  answer, failed, named, envelope_fields, to_jsonrpc, to_jsonrpc_request, envelope_parse,
  parse_jsonrpc_response, parse_root, response_root, EnvelopeJson, to_jsonrpc_string,
  to_jsonrpc_request_string,
}
use shellclaw.Asap.Envelope.Written.{answered, IsReadBack, envelope_parse-to_jsonrpc}

abbrev cancel : Envelope
cancel = record {
  id = some (codes "1");
  asap_version = some (codes "2.1");
  sender = some (codes "urn:a");
  recipient = some (codes "urn:b");
  payload_type = some (codes "task.cancel");
  payload = some (text (some (codes "7")));
  correlation_id = none;
  trace_id = some (codes "t");
  timestamp = none;
  jsonrpc_request_id = none;
}

abbrev cancel_fields : Members
cancel_fields = named (codes "id") (codes "1") (
    named (codes "asap_version") (codes "2.1") (
      named (codes "sender") (codes "urn:a") (
        named (codes "recipient") (codes "urn:b") (
          named (codes "payload_type") (codes "task.cancel") (
            member (some (codes "payload")) (text (some (codes "7")))
              (named (codes "trace_id") (codes "t") no_members))))))

writable : envelope_fields cancel ≡ some cancel_fields
unfolding envelope_fields shellclaw.Asap.Envelope.is_one_of shellclaw.Common.str_equal
writable = refl

no_payload : envelope_fields (record cancel { payload = some null }) ≡ none
unfolding envelope_fields
no_payload = refl

-- a call of which the name of the id is in capitals is refused without an error object
capital_id : parse_root (some (object (named (codes "ID") (codes "1") no_members))) ≡ rejected
unfolding shellclaw.Asap.Envelope.has_member shellclaw.Providers.Model.case_equal
    shellclaw.Asap.Envelope.get_item shellclaw.Common.str_equal
capital_id = refl

wrong_version :
    parse_root (some (object (named (codes "jsonrpc") (codes "1.0") no_members)))
    ≡ refused (jsonrpc_error invalid_params (codes "Invalid Request: jsonrpc must be \"2.0\"") none)
unfolding shellclaw.Asap.Envelope.has_member shellclaw.Providers.Model.case_equal
    shellclaw.Asap.Envelope.get_item shellclaw.Common.str_equal
wrong_version = refl

no_result :
    response_root (some (object (named (codes "jsonrpc") (codes "2.0") no_members)))
    ≡ failed (codes "Invalid response: missing result")
unfolding shellclaw.Asap.Envelope.get_item shellclaw.Common.str_equal
no_result = refl

abbrev nine : Option Json
nine = some (text (some (codes "9")))

abbrev tree_or : Option Json → Json
tree_or none = null
tree_or (some root) = root

-- it prints a request as "q" and a response as "r", and reads those of `cancel`
abbrev two_texts : EnvelopeJson
two_texts = record {
  parse = λ input.
      if str_equal input (codes "q")
      then to_jsonrpc_request cancel nine none
      else to_jsonrpc cancel nine;
  print = λ root. elim (get_item (members_of root) (codes "method")) [
    | none ↦ codes "r"
    | some _ ↦ codes "q"
  ];
}

reads_request : IsReadBack two_texts (to_jsonrpc_request cancel nine none)
unfolding get_item shellclaw.Common.str_equal envelope_fields shellclaw.Asap.Envelope.is_one_of
reads_request root e =
    ap (λ (x : Json). two_texts.parse (two_texts.print x)) (some-injective _ _ (sym e)) ∙ e

reads_response : IsReadBack two_texts (to_jsonrpc cancel nine)
unfolding get_item shellclaw.Common.str_equal envelope_fields shellclaw.Asap.Envelope.is_one_of
reads_response root e =
    ap (λ (x : Json). two_texts.parse (two_texts.print x)) (some-injective _ _ (sym e)) ∙ e

envelope_parse-to_jsonrpc_example :
    ((request : Bytes) × (to_jsonrpc_request_string two_texts cancel nine none ≡ some request)
      × (envelope_parse two_texts request ≡ parsed (answered cancel nine)))
    × ((response : Bytes) × (to_jsonrpc_string two_texts cancel nine ≡ some response)
        × (parse_jsonrpc_response two_texts response ≡ answer (answered cancel nine)))
envelope_parse-to_jsonrpc_example =
    envelope_parse-to_jsonrpc two_texts cancel nine none cancel_fields writable reads_request
      reads_response
