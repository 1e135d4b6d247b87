-- ===== src/Providers/Response.antt =====
-- src/providers/provider.h and provider_common.c: the response of a backend, and which errors let the
-- router go on to the next backend. The heap blocks are values.
pub mod Retry
use shellclaw.Common.{
  Bool, true, false, ◌&&◌, not, Option, none, some, List, [], leb, if◌then◌else◌, Bytes, is_empty,
  codes, ℤ, pos, negsuc, Converted, strstr, strtol, drop,
}

pub record ToolCall : Type 0 where
  pub id : Option Bytes
  pub name : Option Bytes
  pub arguments : Option Bytes

pub record Response : Type 0 where
  pub content : Option Bytes
  pub error : Bool
  pub tool_calls : List ToolCall

-- provider_response_clear
abbrev pub cleared : Response
cleared = record { content = none; error = false; tool_calls = [] }

-- provider_set_error, where the copy of the message is made
abbrev pub set_error : Response → Option Bytes → Response
set_error r msg = record r { error = true; content = msg }

-- code >= 400 && code <= 499
abbrev pub is_client_error : ℤ → Bool
is_client_error (pos n) = leb 400 n && leb n 499
is_client_error (negsuc n) = false

abbrev retry_code : Option Converted → Bool
retry_code none = true
retry_code (some c) = not (is_client_error c.value)

abbrev retry_status : Option Bytes → Bool
retry_status none = true
retry_status (some h) = retry_code (strtol (drop 5 h))

unfoldable pub allows_fallback_retry : Option Bytes → Bool
unfolding strstr strtol
allows_fallback_retry none = true
allows_fallback_retry (some msg) =
    if is_empty msg then true else retry_status (strstr msg (codes "HTTP "))
