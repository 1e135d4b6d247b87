-- ===== src/Asap/Registry/Cache.antt =====
-- src/asap/registry.c: the cache of the registry, and the resolution of a URN by it.
use shellclaw.Common.{
  ℕ, ◌-◌, Bool, true, false, ◌&&◌, ◌||◌, not, Option, none, some, List, [], ◌∷◌, ◌==◌, leb,
  if◌then◌else◌, Bytes, codes, str_equal, is_empty, ℤ, pos, negsuc,
}
use shellclaw.Asap.Registry.{
  RegistryAgent, Read, Http, registry_fetch, is_text, list_contains, got, wrong,
}

abbrev pub default_ttl_sec : ℤ
default_ttl_sec = pos 300

pub record RegistryCache : Type 0 where
  pub index : List RegistryAgent
  pub url : Option Bytes
  pub fetched_at : ℕ
  pub ttl_sec : ℤ
  pub has_data : Bool

abbrev pub cache_init : RegistryCache
cache_init = record {
  index = [];
  url = none;
  fetched_at = 0;
  ttl_sec = default_ttl_sec;
  has_data = false;
}

abbrev pub cache_clear : RegistryCache → RegistryCache
cache_clear c = record c { index = []; url = none; has_data = false }

abbrev pub is_positive : ℤ → Bool
is_positive (pos n) = not (n == 0)
is_positive (negsuc n) = false

abbrev pub cache_set_ttl : RegistryCache → ℤ → RegistryCache
cache_set_ttl c ttl_sec = record c {
  ttl_sec = if is_positive ttl_sec then ttl_sec else default_ttl_sec;
}

abbrev pub is_over : ℤ → ℕ → Bool
is_over (negsuc n) age = true
is_over (pos n) age = n == 0 || leb n age

abbrev pub cache_stale : RegistryCache → ℕ → Bool
cache_stale c now = not c.has_data || is_over c.ttl_sec (now - c.fetched_at)

-- whether the cache holds the registry of a URL
abbrev pub holds : RegistryCache → Bytes → Bool
holds c url = c.has_data && is_text c.url url

abbrev pub stored : RegistryCache → Bytes → ℕ → List RegistryAgent → RegistryCache
stored c url later fresh = record c {
  index = fresh;
  url = some url;
  fetched_at = later;
  has_data = true;
}

-- on what was fetched; `later` is the clock after it
abbrev pub cache_after :
    RegistryCache
    → Bytes
    → ℕ
    → Read (List RegistryAgent)
    → Read (List RegistryAgent) × RegistryCache
cache_after c url later (got fresh) = (got fresh, stored c url later fresh)
cache_after c url later (wrong e) = (if holds c url then got c.index else wrong e, c)

unfoldable pub cache_get :
    Http → RegistryCache → Bytes → ℕ → ℕ → Read (List RegistryAgent) × RegistryCache
cache_get http c url now later =
    if holds c url && not (cache_stale c now)
    then (got c.index, c)
    else cache_after c url later (registry_fetch http url)

unfoldable pub find_urn : List RegistryAgent → Bytes → Option RegistryAgent
find_urn [] urn = none
find_urn (a ∷ agents) urn =
    let rest = find_urn agents urn in if str_equal a.urn urn then some a else rest

pub record ResolveCtx : Type 0 where
  pub registry_url : Option Bytes
  pub revocation_list_url : Option Bytes

abbrev pub found_or : Option RegistryAgent → Read RegistryAgent
found_or none = wrong (codes "URN not found in registry")
found_or (some a) = got a

abbrev pub find_in :
    Bytes → Read (List RegistryAgent) × RegistryCache → Read RegistryAgent × RegistryCache
find_in urn (wrong e, c) = (wrong e, c)
find_in urn (got index, c) = (found_or (find_urn index urn), c)

-- on whether the agent is revoked
abbrev pub resolve_if :
    Read Bool
    → RegistryCache
    → Read RegistryAgent × RegistryCache
    → Read RegistryAgent × RegistryCache
resolve_if (wrong e) c next = (wrong e, c)
resolve_if (got true) c next = (wrong (codes "agent URN is revoked"), c)
resolve_if (got false) c next = next

abbrev pub resolve_at :
    Http
    → ResolveCtx
    → RegistryCache
    → Option Bytes
    → Bytes
    → ℕ
    → ℕ
    → Read RegistryAgent × RegistryCache
resolve_at http ctx c none urn now later = (wrong (codes "invalid argument"), c)
resolve_at http ctx c (some url) urn now later =
    if is_empty url || is_empty urn
    then (wrong (codes "invalid argument"), c)
    else resolve_if (list_contains http ctx.revocation_list_url urn) c
        (find_in urn (cache_get http c url now later))

unfoldable pub resolve :
    Http → ResolveCtx → RegistryCache → Bytes → ℕ → ℕ → Read RegistryAgent × RegistryCache
resolve http ctx c urn now later = resolve_at http ctx c ctx.registry_url urn now later

abbrev pub refresh_after :
    RegistryCache → Bytes → ℕ → Read (List RegistryAgent) → Bool × RegistryCache
refresh_after c url later (wrong e) = (false, c)
refresh_after c url later (got fresh) = (true, stored c url later fresh)

abbrev pub refresh_at : Http → RegistryCache → Option Bytes → ℕ → Bool × RegistryCache
refresh_at http c none later = (false, c)
refresh_at http c (some url) later =
    if is_empty url then (false, c) else refresh_after c url later (registry_fetch http url)

-- `true` is 0
unfoldable pub refresh : Http → ResolveCtx → RegistryCache → ℕ → Bool × RegistryCache
refresh http ctx c later = refresh_at http c ctx.registry_url later
