-- ===== src/Gateway/Body.antt =====
-- src/gateway/asap_http_body.c: the body of POST /asap as its parts arrive. The two buffers are the
-- bytes in them; `lws_hdr_copy` and the test of the URI give the arguments of `init_from_request`.
pub mod Parts
mod Tests
use shellclaw.Common.{
  ℕ, zero, suc, ◌+◌, ◌-◌, ◌*◌, Bool, true, false, ◌&&◌, ◌||◌, not, Option, none, some, List, [],
  ◌∷◌, ◌++◌, ◌==◌, ltb, leb, if◌then◌else◌, Bytes, is_empty, length, take, ℤ, pos, negsuc,
  Converted, strtol,
}

abbrev pub asap_body_max : ℕ
asap_body_max = 1024 * 1024

pub record Body : Type 0 where
  pub body : Bytes
  pub body_dyn : Bytes
  pub body_dyn_cap : ℕ
  pub use_dyn_body : Bool
  pub body_too_large : Bool

abbrev pub in_body_range : ℤ → Option ℕ
in_body_range (negsuc n) = none
in_body_range (pos n) = if ltb asap_body_max n then none else some n

-- on what strtol returns
abbrev pub content_length_of : Option Converted → Option ℕ
content_length_of none = none
content_length_of (some c) =
    if c.range_error || not (is_empty c.rest) then none else in_body_range c.value

unfoldable pub parse_content_length : Bytes → Option ℕ
parse_content_length cl_buf = if is_empty cl_buf then none else content_length_of (strtol cl_buf)

abbrev pub exceeds_static_cap : ℕ → Body → ℕ → Bool
exceeds_static_cap buf_size body content_length =
    if body.use_dyn_body then false else ltb buf_size content_length

abbrev pub with_capacity : Body → ℕ → Body
with_capacity body cl = record body {
  body_dyn = [];
  body_dyn_cap = if ltb 0 cl then cl else asap_body_max;
  use_dyn_body = true;
  body_too_large = false;
}

abbrev pub init_length : Body → Option ℕ → Bool × Body
init_length body none = (false, body)
init_length body (some cl) = (true, with_capacity body cl)

abbrev pub init_header : Body → Option Bytes → Bool × Body
init_header body none = (true, with_capacity body 0)
init_header body (some cl_buf) = init_length body (parse_content_length cl_buf)

-- Whether it is a POST of /asap, and the Content-Length header if there is one. `false` is the C
-- result -1.
unfoldable pub init_from_request : Body → Bool → Option Bytes → Bool × Body
init_from_request body asap_post header =
    if not asap_post then (true, body) else init_header body header

abbrev pub append_dyn : Body → Bytes → Body
append_dyn body part =
    let remain = body.body_dyn_cap - length body.body_dyn in
    record body {
      body_dyn = body.body_dyn ++ take remain part;
      body_too_large = body.body_too_large || ltb remain (length part);
    }

abbrev pub append_static : ℕ → Body → Bytes → Body
append_static buf_size body part =
    let remain = buf_size - length body.body - 1 in
    record body {
      body = body.body ++ take remain part;
      body_too_large = body.body_too_large || ltb remain (length part);
    }

unfoldable pub append_part : ℕ → Body → Bytes → Body
append_part buf_size body part =
    if body.use_dyn_body then append_dyn body part else append_static buf_size body part

abbrev pub body_free : Body
body_free = record {
  body = [];
  body_dyn = [];
  body_dyn_cap = 0;
  use_dyn_body = false;
  body_too_large = false;
}
