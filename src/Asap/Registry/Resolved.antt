-- ===== src/Asap/Registry/Resolved.antt =====
-- src/asap/registry.c: the agent that a URN resolves to.
use mathlib.Core.Option.{some-injective}
use mathlib.Core.Path.{subst}
use shellclaw.Common.{
  sym, ◌∙◌, ap, ℕ, true, false, ◌&&◌, ◌||◌, not, Option, none, some, List, [], ◌∷◌, ◌≡◌, ◌⊎◌, inl,
  inr, refl, Bool-cases, Option-cases, Bytes, codes, is_empty, str_equal, str_equal_iff,
  str_equal_refl,
}
use shellclaw.Crypto.Jcs.{Json, text, array, object, Nodes, no_nodes, node, Members}
use shellclaw.Asap.Envelope.{get_item}
use shellclaw.Asap.Registry.{
  RegistryAgent, Read, got, wrong, Http, registry_fetch, revocation_pick_array, any_names,
  list_contains, filled_string, is_text, pick_urn, names_urn, array_or,
}
use shellclaw.Asap.Registry.Cache.{
  RegistryCache, ResolveCtx, holds, cache_stale, cache_get, find_urn, resolve, stored,
}

-- the first name of an object that is given, which is its URN
pub data HasName (item : Members) (urn : Bytes) : Type 0 where
  urn_is : get_item item (codes "urn") ≡ some (text (some urn)) → HasName item urn
  -- without a URN that is a string of some bytes, the id
  id_is :
      ((s : Bytes) → get_item item (codes "urn") ≡ some (text (some s)) → s ≡ [])
      → get_item item (codes "id") ≡ some (text (some urn))
      → HasName item urn

-- an entry of the list that is the URN, or an object that has it as its name
pub data Names (urn : Bytes) : Json → Type 0 where
  is_text_of : Names urn (text (some urn))
  is_named : (item : Members) → HasName item urn → Names urn (object item)

abbrev pub NoneNames : Bytes → Nodes → Type 0
NoneNames urn no_nodes = Unit
NoneNames urn (node x nodes) = (¬ Names urn x) × NoneNames urn nodes

-- the array with the revoked agents in the body of the list
pub data RevokedIn (nodes : Nodes) : Json → Type 0 where
  whole : RevokedIn nodes (array nodes)
  below :
      (root : Members) (key : Bytes)
      → (key ≡ codes "revoked") ⊎ ((key ≡ codes "revoked_agents") ⊎ (key ≡ codes "revokedAgents"))
      → get_item root key ≡ some (array nodes)
      → RevokedIn nodes (object root)

-- no revocation list is configured, or the one that is names the agent nowhere
pub data NotRevoked (http : Http) (urn : Bytes) : Option Bytes → Type 0 where
  no_list : NotRevoked http urn none
  empty_list : (url : Bytes) → is_empty url ≡ true → NotRevoked http urn (some url)
  unlisted :
      (url : Bytes) (root : Json) (nodes : Nodes)
      → http.get url ≡ got (some root)
      → RevokedIn nodes root
      → NoneNames urn nodes
      → NotRevoked http urn (some url)

-- where the index comes from, and the cache after it
pub data Source (http : Http) (c : RegistryCache) (url : Bytes) (now later : ℕ)
    : List RegistryAgent → RegistryCache → Type 0 where
  cached : holds c url && not (cache_stale c now) ≡ true → Source http c url now later c.index c
  fetched :
      (index : List RegistryAgent)
      → registry_fetch http url ≡ got index
      → Source http c url now later index (stored c url later index)
  stale :
      (e : Bytes)
      → registry_fetch http url ≡ wrong e
      → holds c url ≡ true
      → Source http c url now later c.index c

pub record Resolved (http : Http) (ctx : ResolveCtx) (c : RegistryCache) (urn : Bytes)
    (now later : ℕ) (a : RegistryAgent) (after : RegistryCache) : Type 0 where
  pub url : Bytes
  pub at : ctx.registry_url ≡ some url
  pub named : a.urn ≡ urn
  pub not_revoked : NotRevoked http urn ctx.revocation_list_url
  pub index : List RegistryAgent
  pub found : find_urn index urn ≡ some a
  pub source : Source http c url now later index after

Read-cases {ℓ} : {A : Type ℓ} (r : Read A) → ((e : Bytes) × (r ≡ wrong e)) ⊎ ((a : A) × (r ≡ got a))
Read-cases (wrong e) = inl (e, refl)
Read-cases (got a) = inr (a, refl)

find_urn-named :
    (index : List RegistryAgent) (urn : Bytes) (a : RegistryAgent)
    → find_urn index urn ≡ some a
    → a.urn ≡ urn
unfolding find_urn
find_urn-named [] urn a h = cc
find_urn-named (b ∷ index) urn a h = elim (Bool-cases (str_equal b.urn urn)) [
  | inr f ↦ find_urn-named index urn a (rw f at h)
  | inl t ↦
      ap (λ (x : RegistryAgent). x.urn) (sym (some-injective b a (rw t at h)))
      ∙ (str_equal_iff b.urn urn).0 t
]

filled-text :
    (urn : Bytes) → is_empty urn ≡ false → filled_string (some (text (some urn))) ≡ some urn
filled-text urn h = rw h refl

filled_string-none :
    (o : Option Json) → ((s : Bytes) → o ≡ some (text (some s)) → s ≡ []) → filled_string o ≡ none
filled_string-none (some (text (some s))) h = rw (h s refl) refl
filled_string-none o h = refl

HasName-pick :
    (item : Members) (urn : Bytes)
    → is_empty urn ≡ false
    → HasName item urn
    → is_text (pick_urn item) urn ≡ true
unfolding pick_urn
HasName-pick item urn h (urn_is e) = rw (e, h) (str_equal_refl urn)
HasName-pick item urn h (id_is n e) =
    rw (filled_string-none (get_item item (codes "urn")) n, e, h) (str_equal_refl urn)

Names-names_urn :
    (urn : Bytes) (x : Json) → is_empty urn ≡ false → Names urn x → names_urn x urn ≡ true
Names-names_urn urn x h is_text_of = str_equal_refl urn
Names-names_urn urn x h (is_named item n) = HasName-pick item urn h n

any_names-NoneNames :
    (urn : Bytes) (nodes : Nodes)
    → is_empty urn ≡ false
    → any_names nodes urn ≡ false
    → NoneNames urn nodes
unfolding any_names
any_names-NoneNames urn no_nodes h e = tt
any_names-NoneNames urn (node x nodes) h e = elim (Bool-cases (names_urn x urn)) [
  | inl t ↦ cc (rw t at e)
  | inr f ↦ (λ n. cc (f, Names-names_urn urn x h n), any_names-NoneNames urn nodes h (rw f at e))
]

Array-cases :
    (o : Option Json) (next : Option Nodes) (nodes : Nodes)
    → array_or o next ≡ some nodes
    → (o ≡ some (array nodes)) ⊎ (next ≡ some nodes)
Array-cases (some (array ns)) next nodes h =
    inl (ap (λ (x : Nodes). some (array x)) (some-injective ns nodes h))
Array-cases o next nodes h = inr h

revocation_pick_array-RevokedIn :
    (root : Json) (nodes : Nodes) → revocation_pick_array root ≡ some nodes → RevokedIn nodes root
unfolding revocation_pick_array
revocation_pick_array-RevokedIn (array ns) nodes h =
    subst (λ (x : Nodes). RevokedIn nodes (array x)) (sym (some-injective ns nodes h)) whole
revocation_pick_array-RevokedIn (object root) nodes h =
    elim (Array-cases (get_item root (codes "revoked")) _ nodes h) [
      | inl e ↦ below root (codes "revoked") (inl refl) e
      | inr h2 ↦ elim (Array-cases (get_item root (codes "revoked_agents")) _ nodes h2) [
        | inl e ↦ below root (codes "revoked_agents") (inr (inl refl)) e
        | inr h3 ↦ elim (Array-cases (get_item root (codes "revokedAgents")) none nodes h3) [
          | inl e ↦ below root (codes "revokedAgents") (inr (inr refl)) e
          | inr h4 ↦ cc
        ]
      ]
    ]
revocation_pick_array-RevokedIn root nodes h = cc

list_contains-NotRevoked :
    (http : Http) (url : Option Bytes) (urn : Bytes)
    → list_contains http url urn ≡ got false
    → NotRevoked http urn url
list_contains-NotRevoked http none urn h = no_list
list_contains-NotRevoked http (some url) urn h = elim (Bool-cases (is_empty url)) [
  | inl t ↦ empty_list url t
  | inr f ↦ elim (Bool-cases (is_empty urn)) [
    | inl t ↦ cc (rw (f, t) at h)
    | inr g ↦ elim (Read-cases (http.get url)) [
      | inl (e, w) ↦ cc (rw (f, g, w) at h)
      | inr (none, w) ↦ cc (rw (f, g, w) at h)
      | inr (some root, w) ↦ elim (Option-cases (revocation_pick_array root)) [
        | inl n ↦ cc (rw (f, g, w, n) at h)
        | inr (nodes, n) ↦ elim (Bool-cases (any_names nodes urn)) [
          | inl t ↦ cc (rw (f, g, w, n, t) at h)
          | inr unnamed ↦
              unlisted url root nodes w (revocation_pick_array-RevokedIn root nodes n)
                (any_names-NoneNames urn nodes g unnamed)
        ]
      ]
    ]
  ]
]

value_of_read : {A : Type 0} → A → Read A → A
value_of_read d (wrong e) = d
value_of_read d (got a) = a

got-injective : {A : Type 0} (a b : A) → got a ≡ got b → a ≡ b
unfolding value_of_read
got-injective a b h = ap (value_of_read a) h

-- an index, with its source, or an error
Got : Http → RegistryCache → Bytes → ℕ → ℕ → Read (List RegistryAgent) × RegistryCache → Type 0
Got http c url now later r =
    ((e : Bytes) × (after : RegistryCache) × (r ≡ (wrong e, after)))
    ⊎ ((index : List RegistryAgent) × (after : RegistryCache) × (r ≡ (got index, after))
        × Source http c url now later index after)

cache_get-Got :
    (http : Http) (c : RegistryCache) (url : Bytes) (now later : ℕ)
    → Got http c url now later (cache_get http c url now later)
unfolding cache_get Got
cache_get-Got http c url now later = elim (Bool-cases (holds c url && not (cache_stale c now))) [
  | inl t ↦ inr (c.index, c, rw t refl, cached t)
  | inr f ↦ elim (Read-cases (registry_fetch http url)) [
    | inr (index, r) ↦ inr (index, stored c url later index, rw (f, r) refl, fetched index r)
    | inl (e, r) ↦ elim (Bool-cases (holds c url)) [
      | inl t ↦ inr (c.index, c, rw (f, r, t) refl, stale e r t)
      | inr n ↦ inl (e, c, rw (f, r, n) refl)
    ]
  ]
]

-- An agent that a URN resolves to has that URN, and if the URL of a revocation list is configured, it was read and
-- no entry of its array is that URN or an object with it as its urn, or as its id without one. It is
-- the first of that URN in an index that the cache holds and that is not over its time, that was fetched
-- now and is in the cache after it, or that the cache holds while the fetch fails.
pub resolve-Resolved :
    (http : Http) (ctx : ResolveCtx) (c : RegistryCache) (urn : Bytes) (now later : ℕ)
    (a : RegistryAgent)
    → (resolve http ctx c urn now later).0 ≡ got a
    → Resolved http ctx c urn now later a (resolve http ctx c urn now later).1
unfolding resolve Got
resolve-Resolved http ctx c urn now later a h = elim (Option-cases ctx.registry_url) [
  | inl n ↦ cc (rw n at h)
  | inr (url, u) ↦ elim (Bool-cases (is_empty url || is_empty urn)) [
    | inl t ↦ cc (rw (u, t) at h)
    | inr f ↦ elim (Read-cases (list_contains http ctx.revocation_list_url urn)) [
      | inl (e, r) ↦ cc (rw (u, f, r) at h)
      | inr (true, r) ↦ cc (rw (u, f, r) at h)
      | inr (false, r) ↦ elim (cache_get-Got http c url now later) [
        | inl (e, after, g) ↦ cc (rw (u, f, r, g) at h)
        | inr (index, after, g, source) ↦ elim (Option-cases (find_urn index urn)) [
          | inl none_found ↦ cc (rw (u, f, r, g, none_found) at h)
          | inr (b, found) ↦
              let same : b ≡ a = got-injective b a (rw (u, f, r, g, found) at h) in
              let here : find_urn index urn ≡ some a = rw same at found in
              rw (u, f, r, g)
                (record {
                  url = url;
                  at = refl;
                  named = find_urn-named index urn a here;
                  not_revoked = list_contains-NotRevoked http ctx.revocation_list_url urn r;
                  index = index;
                  found = here;
                  source = source;
                })
        ]
      ]
    ]
  ]
]
