-- ===== src/Providers/Model.antt =====
-- src/providers/provider_common.c: which model id a backend sends.
pub mod Vendor
use shellclaw.Common.{
  ℕ, ◌-◌, Bool, true, false, ◌&&◌, ◌||◌, Option, none, some, [], ◌∷◌, ◌==◌, if◌then◌else◌, Bytes,
  is_empty, codes, str_equal, has_prefix, length, take, drop, strchr, tolower,
}

-- strncasecmp (model, backend, strlen (backend)) == 0, on the part of `model` before the slash
unfoldable pub case_equal : Bytes → Bytes → Bool
case_equal [] [] = true
case_equal (x ∷ xs) (y ∷ ys) = tolower x == tolower y && case_equal xs ys
case_equal _ _ = false

unfoldable pub vendor_matches_backend : Bytes → ℕ → Bytes → Bool
unfolding case_equal
vendor_matches_backend model vendor_len backend =
    vendor_len == length backend && case_equal (take (length backend) model) backend

unfoldable pub bare_id_is_openai_family : Bytes → Bool
unfolding has_prefix
bare_id_is_openai_family model =
    has_prefix model (codes "gpt-")
    || has_prefix model (codes "chatgpt-")
    || has_prefix model (codes "o1")
    || has_prefix model (codes "o3")
    || has_prefix model (codes "o4")

unfoldable pub bare_model_for_backend : Bytes → Bytes → Option Bytes
unfolding bare_id_is_openai_family has_prefix
bare_model_for_backend model backend =
    if str_equal backend (codes "openai") && has_prefix model (codes "claude")
    then none
    else if str_equal backend (codes "anthropic") && bare_id_is_openai_family model
    then none
    else some model

-- on `strchr(slash + 1, '/')` and on whether the vendor is the backend's name
abbrev pub sent_model : Option Bytes → Bool → Bytes → Option Bytes
sent_model (some _) matches rest = none
sent_model none matches rest = if matches then some rest else none

-- `rest` is what follows the first slash
unfoldable pub vendor_model : Bytes → ℕ → Bytes → Bytes → Option Bytes
unfolding vendor_matches_backend
vendor_model model vendor_len rest backend =
    if vendor_len == 0
    then none
    else if is_empty rest
    then none
    else sent_model (strchr rest b'/') (vendor_matches_backend model vendor_len backend) rest

-- `model` and `backend` are not null
unfoldable pub model_id_for_backend : Bytes → Bytes → Option Bytes
unfolding strchr
model_id_for_backend model backend =
    if is_empty model || is_empty backend then some model else elim (strchr model b'/') [
      | none ↦ bare_model_for_backend model backend
      | some slash ↦ vendor_model model (length model - length slash) (drop 1 slash) backend
    ]
