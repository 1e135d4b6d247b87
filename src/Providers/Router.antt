-- ===== src/Providers/Router.antt =====
-- src/providers/router.c: the composite provider that walks `providers.fallback_chain`. The static
-- variables are the fields of `Router`; each section under the mutex is one step. The backends
-- themselves, with what they keep of a probe that succeeded, the environment variables and the HTTP
-- probes are the parameter `World`.
pub mod Walk
pub mod Init
pub mod Recovery
mod Tests
use shellclaw.Common.{
  ℕ, zero, suc, ◌+◌, ◌-◌, ◌<◌, Bool, true, false, ◌&&◌, ◌||◌, not, Option, none, some, List, [],
  ◌∷◌, ◌++◌, ◌==◌, ltb, leb, if◌then◌else◌, Bytes, is_empty, codes, str_equal, length, take, ℤ, pos,
  negsuc, strstr,
}
use mathlib.Core.List.{reverse}
use shellclaw.Providers.Response.{Response, cleared, set_error, allows_fallback_retry}
use shellclaw.Providers.Model.{case_equal}

-- the provider objects, compared by address in the source
pub data Backend : Type 0 where
  stub stub_b anthropic openai local : Backend

abbrev pub same_backend : Backend → Backend → Bool
same_backend stub stub = true
same_backend stub_b stub_b = true
same_backend anthropic anthropic = true
same_backend openai openai = true
same_backend local local = true
same_backend _ _ = false

-- the parts of `config_t` that the router reads
pub record RouterConfig : Type 0 where
  pub fallback_chain : List (Option Bytes)
  pub local_endpoint : Option Bytes
  pub openai_api_key_env : Option Bytes
  pub openai_endpoint : Option Bytes
  pub anthropic_api_key_env : Option Bytes

-- what lies outside the router: the backends' `name`, `init` and `chat`, getenv, the GET probes
pub record World : Type 0 where
  pub name : Backend → Option Bytes
  pub init : Backend → Bool
  -- the value returned, 0 for success, and the response
  pub chat : Backend → ℤ × Response
  pub getenv : Bytes → Option Bytes
  -- the URL and the header lines of a GET that answers
  pub curl_get_discard : Bytes → List Bytes → Bool
  pub local_reachable : Bytes → Bool

pub record Router : Type 0 where
  pub snap_act : Bytes
  pub snap_err : Bytes
  pub snap_chain_ix : ℕ
  pub backends : List Backend
  pub cfg : Option RouterConfig
  pub recovery_interval_sec : ℕ
  pub recovery_last_wall : ℕ
  -- whether a status callback is set, and how often it was called
  pub callback : Bool
  pub notified : ℕ

abbrev pub snap_act_sz : ℕ
snap_act_sz = 96

abbrev pub snap_err_sz : ℕ
snap_err_sz = 768

abbrev pub router_backend_max : ℕ
router_backend_max = 32

abbrev pub recovery_interval_default : ℕ
recovery_interval_default = 300

-- `name ? name : ""`
abbrev pub or_empty : Option Bytes → Bytes
or_empty none = []
or_empty (some s) = s

unfoldable pub lookup_backend : Bytes → Option Backend
unfolding case_equal
lookup_backend name =
    if is_empty name
    then none
    else if case_equal name (codes "stub")
    then some stub
    else if case_equal name (codes "stub-b")
    then some stub_b
    else if case_equal name (codes "anthropic")
    then some anthropic
    else if case_equal name (codes "openai")
    then some openai
    else if case_equal name (codes "local")
    then some local
    else none

unfoldable pub backends_contains : List Backend → Backend → Bool
backends_contains [] p = false
backends_contains (b ∷ bs) p = same_backend b p || backends_contains bs p

abbrev pub snap_clear_all : Router → Router
snap_clear_all r = record r { snap_act = []; snap_err = []; snap_chain_ix = 0 }

abbrev pub snap_set_active : Router → Bytes → ℕ → Router
snap_set_active r name ix =
    let act = take (snap_act_sz - 1) name in
    let changed = not (r.snap_chain_ix == ix) || not (str_equal r.snap_act act) in
    record r {
      snap_act = act;
      snap_chain_ix = ix;
      notified = if changed && r.callback then r.notified + 1 else r.notified;
    }

abbrev pub snapshot_set_last_err : Router → Bytes → Router
snapshot_set_last_err r msg = record r { snap_err = take (snap_err_sz - 1) msg }

-- what the caller's buffer of `dst_sz` bytes holds; nothing is written if it has no byte
abbrev pub active_backend_snapshot : Router → ℕ → Bytes
active_backend_snapshot r dst_sz = take (dst_sz - 1) r.snap_act

abbrev pub last_error_snapshot : Router → ℕ → Bytes
last_error_snapshot r dst_sz = take (dst_sz - 1) r.snap_err

abbrev pub clear_backends_list : Router → Router
clear_backends_list r = record r { backends = []; cfg = none }

-- the text before "/models": up to the second slash of the first "/v1/"
unfoldable pub build_openai_models_url : Option Bytes → ℕ → Option Bytes
unfolding strstr
build_openai_models_url endpoint bufsz =
    let fallback = codes "https://api.openai.com/v1/chat/completions" in
    let given = or_empty endpoint in
    let ep = if is_empty given then fallback else given in
    elim (strstr ep (codes "/v1/")) [
      | none ↦ none
      | some v1 ↦
          let prefix = length ep - length v1 + 3 in
          if leb bufsz (prefix + 8) then none else some (take prefix ep ++ codes "/models")
    ]

-- `(envn && envn[0]) ? getenv(envn) : NULL`, and then `!key || !key[0]`: the key, or empty
abbrev pub api_key : World → Option Bytes → Bytes
api_key w none = []
api_key w (some envn) = if is_empty envn then [] else or_empty (w.getenv envn)

abbrev probe_openai : World → Bytes → Option Bytes → Bool
probe_openai w key none = false
probe_openai w key (some url) =
    w.curl_get_discard url ((codes "Authorization: Bearer " ++ key) ∷ [])

unfoldable pub probe_backend : World → RouterConfig → Backend → Bool
unfolding build_openai_models_url
probe_backend w cfg stub = true
probe_backend w cfg stub_b = true
probe_backend w cfg local =
    let ep = or_empty cfg.local_endpoint in not (is_empty ep) && w.local_reachable ep
probe_backend w cfg openai =
    let key = api_key w cfg.openai_api_key_env in
    if is_empty key
    then false
    else probe_openai w key (build_openai_models_url cfg.openai_endpoint 512)
probe_backend w cfg anthropic =
    let key = api_key w cfg.anthropic_api_key_env in
    if is_empty key
    then false
    else w.curl_get_discard (codes "https://api.anthropic.com/v1/models")
        (codes "anthropic-version: 2023-06-01" ∷ (codes "x-api-key: " ++ key) ∷ [])

abbrev pub set_interval_seconds : Router → ℕ → Router
set_interval_seconds r sec = record r {
  recovery_interval_sec = if sec == 0 then recovery_interval_default else sec;
}

abbrev pub reset_timer : Router → Router
reset_timer r = record r { recovery_last_wall = 0 }

-- the loop of the tick: the first backend before the active one that answers
unfoldable pub first_reachable : World → RouterConfig → ℕ → ℕ → List Backend → Option (ℕ × Backend)
first_reachable w cfg j active [] = none
first_reachable w cfg j active (b ∷ bs) =
    let rest = first_reachable w cfg (j + 1) active bs in
    if ltb j active then (if probe_backend w cfg b then some (j, b) else rest) else none

abbrev pub switch_back : World → Router → Option (ℕ × Backend) → Router
switch_back w r none = r
switch_back w r (some (j, b)) = snapshot_set_last_err (snap_set_active r (or_empty (w.name b)) j) []

-- `now_wall - last` is cast to an unsigned long, so a clock that has gone back counts as past
abbrev pub recovery_is_early : Router → ℕ → Bool
recovery_is_early r now =
    not (r.recovery_last_wall == 0)
    && leb r.recovery_last_wall now
    && ltb (now - r.recovery_last_wall) r.recovery_interval_sec

-- on `g_router_cfg`
abbrev pub tick_with : World → Router → ℕ → Option RouterConfig → Router
tick_with w r now none = r
tick_with w r now (some cfg) =
    if ltb (length r.backends) 2
    then r
    else if r.snap_chain_ix == 0
    then r
    else if recovery_is_early r now
    then r
    else switch_back w (record r { recovery_last_wall = now })
        (first_reachable w cfg 0 r.snap_chain_ix r.backends)

unfoldable pub recovery_tick : World → Router → ℕ → Router
recovery_tick w r now = tick_with w r now r.cfg

-- the loop over the entries of the chain; the list is `g_backends`
unfoldable pub collect_backends : World → List (Option Bytes) → List Backend → List Backend
collect_backends w [] acc = acc
collect_backends w (none ∷ chain) acc = collect_backends w chain acc
collect_backends w (some nm ∷ chain) acc = elim (lookup_backend nm) [
  | none ↦ collect_backends w chain acc
  | some p ↦
      let skipped = collect_backends w chain acc in
      let added = collect_backends w chain (acc ++ p ∷ []) in
      if backends_contains acc p
      then skipped
      else if not (w.init p)
      then skipped
      else if leb router_backend_max (length acc)
      then acc
      else added
]

-- after the loop; `now` is what time(NULL) returns
abbrev pub init_finish : World → Router → ℕ → List Backend → ℤ × Router
init_finish w r now [] = (negsuc 0, clear_backends_list r)
init_finish w r now (b ∷ bs) = (
  pos 0,
  record (snapshot_set_last_err
      (snap_set_active (record r { backends = b ∷ bs }) (or_empty (w.name b)) 0) []) {
        recovery_last_wall = now;
      },
)

unfoldable pub composite_init : World → Router → Option RouterConfig → ℕ → ℤ × Router
composite_init w r none now = (negsuc 0, snap_clear_all (clear_backends_list r))
composite_init w r (some cfg) now =
    let r' = record (snap_clear_all (clear_backends_list r)) { cfg = some cfg } in
    if is_empty cfg.fallback_chain
    then (negsuc 0, r')
    else init_finish w r' now (collect_backends w cfg.fallback_chain [])

-- the backends whose `cleanup` is called, in order, and the router after it
abbrev pub composite_cleanup : Router → List Backend × Router
composite_cleanup r =
    (reverse r.backends, record (clear_backends_list (snap_clear_all r)) { recovery_last_wall = 0 })

-- `ret == 0`
abbrev pub is_success : ℤ → Bool
is_success (pos zero) = true
is_success _ = false

-- the loop of the chat from index `ix`: the value returned, the response, and the router
unfoldable pub chat_walk : World → Router → ℕ → List Backend → ℤ × Response × Router
chat_walk w r ix [] = (negsuc 0, cleared, r)
chat_walk w r ix (b ∷ bs) =
    let (ret, response) = w.chat b in
    let erred = snapshot_set_last_err r (or_empty response.content) in
    let rest = chat_walk w erred (ix + 1) bs in
    if is_success ret
    then (pos 0, response, snapshot_set_last_err (snap_set_active r (or_empty (w.name b)) ix) [])
    else if not (allows_fallback_retry response.content)
    then (ret, response, erred)
    else rest

-- on the test `!g_router_cfg || g_backend_count == 0U`
abbrev pub chat_guarded :
    World → Router → Response → Option RouterConfig → Bool → ℤ × Response × Router
chat_guarded w r response (some cfg) false = chat_walk w r 0 r.backends
chat_guarded w r response _ _ =
    (negsuc 0, set_error response (some (codes "Fallback router has no backends")), r)

unfoldable pub composite_chat : World → Router → Response → ℤ × Response × Router
composite_chat w r response = chat_guarded w r response r.cfg (is_empty r.backends)

abbrev pub set_live_config : Router → Option RouterConfig → Router
set_live_config r none = r
set_live_config r (some cfg) = if is_empty r.backends then r else record r { cfg = some cfg }

-- the role and the reachability that /api/status shows for the backend at `i`
abbrev pub status_of : ℕ → ℕ → Bool × Bytes
status_of i active =
    if ltb i active
    then (false, codes "unavailable")
    else if i == active
    then (true, if i == 0 then codes "primary" else codes "fallback")
    else (true, codes "standby")

unfoldable pub api_status_providers : World → ℕ → ℕ → List Backend → List (Bytes × Bool × Bytes)
api_status_providers w active i [] = []
api_status_providers w active i (b ∷ bs) =
    (or_empty (w.name b), (status_of i active).0, (status_of i active).1)
    ∷ api_status_providers w active (i + 1) bs
