-- ===== src/Asap/Registry/Tests.antt =====
-- src/asap/registry.c: a registry of one agent, and the theorem at its URN.
use shellclaw.Common.{none, some, [], ◌∷◌, ◌≡◌, refl, codes, str_equal, if◌then◌else◌, negsuc}
use shellclaw.Crypto.Jcs.{Json, text, array, object, no_nodes, node, no_members, member}
use shellclaw.Asap.Envelope.Rpc.{named}
use shellclaw.Asap.Registry.{RegistryAgent, Read, got, wrong, Http, index_from_json}
use shellclaw.Asap.Registry.Cache.{
  RegistryCache, ResolveCtx, cache_init, cache_set_ttl, resolve, stored, default_ttl_sec, refresh,
}
use shellclaw.Asap.Registry.Resolved.{Resolved, resolve-Resolved}

abbrev entry : Json
entry =
    object
      (named (codes "id") (codes "urn:a") (named (codes "endpoint") (codes "http://a") no_members))

abbrev agent_a : RegistryAgent
agent_a = record { urn = codes "urn:a"; base_url = codes "http://a"; capabilities = [] }

abbrev listing : Json
listing = object (member (some (codes "agents")) (array (node entry no_nodes)) no_members)

read_listing : index_from_json (some listing) ≡ got (agent_a ∷ [])
unfolding index_from_json shellclaw.Asap.Envelope.get_item str_equal
    shellclaw.Asap.Registry.agents_of shellclaw.Asap.Registry.pick_urn
    shellclaw.Asap.Registry.pick_base_url
read_listing = refl

-- the registry is at "r", an empty revocation list at "v", one with the agent at "w"
abbrev web : Http
web = record {
  get = λ url.
      if str_equal url (codes "r")
      then got (some listing)
      else if str_equal url (codes "v")
      then got (some (array no_nodes))
      else if str_equal url (codes "w")
      then got (some (array (node (text (some (codes "urn:a"))) no_nodes)))
      else wrong (codes "HTTP 404");
}

abbrev ctx : ResolveCtx
ctx = record { registry_url = some (codes "r"); revocation_list_url = some (codes "v") }

revoked :
    (resolve web
      (record ctx { revocation_list_url = some (codes "w") })
      cache_init
      (codes "urn:a")
      5
      6).0
    ≡ wrong (codes "agent URN is revoked")
unfolding resolve str_equal shellclaw.Asap.Registry.revocation_pick_array
    shellclaw.Asap.Registry.any_names
revoked = refl

-- the registry is gone, and the cache over its time
abbrev old : RegistryCache
old = stored cache_init (codes "x") 5 (agent_a ∷ [])

stale_one :
    (resolve web
      (record { registry_url = some (codes "x"); revocation_list_url = none })
      old
      (codes "urn:a")
      400
      401).0
    ≡ got agent_a
unfolding resolve shellclaw.Asap.Registry.Cache.cache_get str_equal
    shellclaw.Asap.Registry.registry_fetch shellclaw.Asap.Registry.Cache.find_urn
stale_one = refl

default_restored : (cache_set_ttl old (negsuc 4)).ttl_sec ≡ default_ttl_sec
default_restored = refl

refreshed : (refresh web ctx cache_init 9).1 ≡ stored cache_init (codes "r") 9 (agent_a ∷ [])
unfolding refresh shellclaw.Asap.Registry.registry_fetch str_equal index_from_json
    shellclaw.Asap.Envelope.get_item shellclaw.Asap.Registry.agents_of
    shellclaw.Asap.Registry.pick_urn shellclaw.Asap.Registry.pick_base_url
refreshed = refl

resolved_a : (resolve web ctx cache_init (codes "urn:a") 5 6).0 ≡ got agent_a
unfolding resolve str_equal shellclaw.Asap.Registry.revocation_pick_array
    shellclaw.Asap.Registry.any_names shellclaw.Asap.Registry.Cache.cache_get
    shellclaw.Asap.Registry.registry_fetch index_from_json shellclaw.Asap.Envelope.get_item
    shellclaw.Asap.Registry.agents_of shellclaw.Asap.Registry.pick_urn
    shellclaw.Asap.Registry.pick_base_url shellclaw.Asap.Registry.Cache.find_urn
resolved_a = refl

resolve-Resolved_example :
    Resolved web ctx cache_init
      (codes "urn:a")
      5
      6
      agent_a
      (resolve web ctx cache_init (codes "urn:a") 5 6).1
resolve-Resolved_example =
    resolve-Resolved web ctx cache_init (codes "urn:a") 5 6 agent_a resolved_a
