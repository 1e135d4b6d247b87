-- ===== src/Asap/Registry.antt =====
-- src/asap/registry.c: the registry of agents, its cache, the revocation list and the resolution of a
-- URN. The GET of a URL by curl, with what cJSON makes of the body, is a parameter; a tree is that of
-- Crypto/Jcs. A time is in seconds of the monotonic clock. Memory is taken to suffice.
pub mod Cache
pub mod Resolved
mod Tests
use shellclaw.Common.{
  ℕ, ◌-◌, Bool, true, false, ◌&&◌, ◌||◌, not, Option, none, some, List, [], ◌∷◌, ◌++◌, ◌==◌, leb,
  if◌then◌else◌, Bytes, codes, str_equal, is_empty, ℤ, pos, negsuc,
}
use shellclaw.Crypto.Jcs.{Json, null, text, array, object, Nodes, no_nodes, node, Members}
use shellclaw.Asap.Envelope.{get_item}

pub record RegistryAgent : Type 0 where
  pub urn : Bytes
  pub base_url : Bytes
  pub capabilities : List Bytes

-- 0 with a result, or -1 with the text of the error
pub data Read {ℓ} (A : Type ℓ) : Type ℓ where
  got : A → Read A
  wrong : Bytes → Read A

pub record Http : Type 0 where
  -- the tree of the body of a response with status 200, `none` if it is not JSON; or an error
  pub get : Bytes → Read (Option Json)

-- a string that is not empty
abbrev pub filled_string : Option Json → Option Bytes
filled_string (some (text (some s))) = if is_empty s then none else some s
filled_string _ = none

abbrev pub json_string_cstr : Members → Bytes → Option Bytes
json_string_cstr obj key = filled_string (get_item obj key)

abbrev pub first_string : Option Bytes → Option Bytes → Option Bytes
first_string none next = next
first_string (some s) next = some s

unfoldable pub pick_urn : Members → Option Bytes
pick_urn obj = first_string (json_string_cstr obj (codes "urn")) (json_string_cstr obj (codes "id"))

unfoldable pub pick_base_url : Members → Option Bytes
pick_base_url obj = first_string (json_string_cstr obj (codes "base_url")) (
    first_string (json_string_cstr obj (codes "baseUrl")) (json_string_cstr obj (codes "endpoint")))

abbrev pub with_string : Json → Read (List Bytes) → Read (List Bytes)
with_string (text (some s)) (got rest) = got (s ∷ rest)
with_string (text (some s)) (wrong e) = wrong e
with_string _ rest = wrong (codes "capabilities entries must be strings")

unfoldable pub strings_of : Nodes → Read (List Bytes)
strings_of no_nodes = got []
strings_of (node x nodes) = with_string x (strings_of nodes)

abbrev pub parse_capabilities : Option Json → Read (List Bytes)
parse_capabilities none = got []
parse_capabilities (some null) = got []
parse_capabilities (some (array nodes)) = strings_of nodes
parse_capabilities (some _) = wrong (codes "capabilities must be a JSON array")

abbrev pub push_agent :
    Bytes → Bytes → Read (List Bytes) → Read (List RegistryAgent) → Read (List RegistryAgent)
push_agent urn base (wrong e) rest = wrong e
push_agent urn base (got caps) (wrong e) = wrong e
push_agent urn base (got caps) (got agents) =
    got (record { urn = urn; base_url = base; capabilities = caps } ∷ agents)

abbrev pub agent_with :
    Members → Option Bytes → Option Bytes → Read (List RegistryAgent) → Read (List RegistryAgent)
agent_with item (some urn) (some base) rest =
    push_agent urn base (parse_capabilities (get_item item (codes "capabilities"))) rest
agent_with item _ _ rest = rest

-- an item that is no object, or has no URN or URL, is left out
abbrev pub with_item : Json → Read (List RegistryAgent) → Read (List RegistryAgent)
with_item (object item) rest = agent_with item (pick_urn item) (pick_base_url item) rest
with_item _ rest = rest

unfoldable pub agents_of : Nodes → Read (List RegistryAgent)
agents_of no_nodes = got []
agents_of (node x nodes) = with_item x (agents_of nodes)

abbrev pub agents_in : Option Json → Read (List RegistryAgent)
agents_in (some (array nodes)) = agents_of nodes
agents_in _ = wrong (codes "missing agents array")

unfoldable pub index_from_json : Option Json → Read (List RegistryAgent)
index_from_json none = wrong (codes "invalid JSON")
index_from_json (some (array nodes)) = agents_of nodes
index_from_json (some (object root)) = agents_in (get_item root (codes "agents"))
index_from_json (some _) = wrong (codes "registry root must be object or array")

abbrev pub index_of_body : Read (Option Json) → Read (List RegistryAgent)
index_of_body (wrong e) = wrong e
index_of_body (got body) = index_from_json body

unfoldable pub registry_fetch : Http → Bytes → Read (List RegistryAgent)
registry_fetch http url = index_of_body (http.get url)

abbrev pub array_or : Option Json → Option Nodes → Option Nodes
array_or (some (array nodes)) next = some nodes
array_or _ next = next

unfoldable pub revocation_pick_array : Json → Option Nodes
revocation_pick_array (array nodes) = some nodes
revocation_pick_array (object root) = array_or (get_item root (codes "revoked")) (
    array_or (get_item root (codes "revoked_agents"))
      (array_or (get_item root (codes "revokedAgents")) none))
revocation_pick_array _ = none

abbrev pub is_text : Option Bytes → Bytes → Bool
is_text none urn = false
is_text (some s) urn = str_equal s urn

abbrev pub names_urn : Json → Bytes → Bool
names_urn (text s) urn = is_text s urn
names_urn (object item) urn = is_text (pick_urn item) urn
names_urn _ urn = false

unfoldable pub any_names : Nodes → Bytes → Bool
any_names no_nodes urn = false
any_names (node x nodes) urn = names_urn x urn || any_names nodes urn

abbrev pub listed_in : Option Nodes → Bytes → Read Bool
listed_in none urn = wrong (codes "revocation list must be array or object with revoked array")
listed_in (some nodes) urn = got (any_names nodes urn)

abbrev pub json_contains_urn : Option Json → Bytes → Read Bool
json_contains_urn none urn = wrong (codes "invalid JSON")
json_contains_urn (some root) urn = listed_in (revocation_pick_array root) urn

abbrev pub body_contains_urn : Read (Option Json) → Bytes → Read Bool
body_contains_urn (wrong e) urn = wrong e
body_contains_urn (got body) urn = json_contains_urn body urn

abbrev pub list_contains : Http → Option Bytes → Bytes → Read Bool
list_contains http none urn = got false
list_contains http (some url) urn =
    if is_empty url
    then got false
    else if is_empty urn
    then wrong (codes "invalid argument")
    else body_contains_urn (http.get url) urn
