-- ===== src/Providers/Router/Tests.antt =====
-- src/providers/router.c: the theorems at a chain whose first backend fails.
use shellclaw.Common.{
  ℕ, ◌+◌, ◌<◌, ◌≤◌, Bool, true, false, not, Option, none, some, List, [], ◌∷◌, ◌++◌, ◌≡◌, inl, inr,
  refl, arith, Bytes, codes, length, is_empty, ℤ, pos, negsuc, take,
}
use shellclaw.Providers.Response.{Response, cleared, allows_fallback_retry}
use shellclaw.Providers.Router.{
  Backend, stub, stub_b, anthropic, openai, local, World, Router, RouterConfig, composite_chat,
  composite_init, recovery_tick, recovery_is_early, snapshot_set_last_err, or_empty, is_success,
  lookup_backend,
}
use shellclaw.Providers.Router.Walk.{
  AllRetryable, answered, IsConsistent, chat-answered, chat-refused, chat-IsConsistent,
}
use shellclaw.Providers.Router.Init.{NamesFirst, IsCollected, init-IsCollected}
use shellclaw.Providers.Router.Recovery.{Recovered, tick-Recovered, tick-IsConsistent}

abbrev chain_config : RouterConfig
chain_config = record {
  fallback_chain = some (codes "OpenAI") ∷ none ∷ some (codes "local") ∷ some (codes "openai") ∷ [];
  local_endpoint = some (codes "http://127.0.0.1:11434");
  openai_api_key_env = some (codes "KEY");
  openai_endpoint = none;
  anthropic_api_key_env = none;
}

abbrev names : Backend → Option Bytes
names stub = some (codes "stub")
names stub_b = some (codes "stub-b")
names anthropic = some (codes "anthropic")
names openai = some (codes "openai")
names local = some (codes "local")

-- openai is down, anthropic refuses the key, and the others answer
abbrev replies : Backend → ℤ × Response
replies openai =
    (negsuc 0, record { content = some (codes "HTTP 503"); error = true; tool_calls = [] })
replies anthropic =
    (negsuc 0, record { content = some (codes "HTTP 401"); error = true; tool_calls = [] })
replies _ = (pos 0, record { content = some (codes "hello"); error = false; tool_calls = [] })

abbrev outside : World
outside = record {
  name = names;
  init = λ b. true;
  chat = replies;
  getenv = λ n. some (codes "secret");
  curl_get_discard = λ url headers. true;
  local_reachable = λ endpoint. true;
}

abbrev at_openai : List Backend → Router
at_openai backends = record {
  snap_act = codes "openai";
  snap_err = [];
  snap_chain_ix = 0;
  backends = backends;
  cfg = some chain_config;
  recovery_interval_sec = 300;
  recovery_last_wall = 0;
  callback = true;
  notified = 0;
}

openai_retryable : AllRetryable outside (openai ∷ [])
unfolding allows_fallback_retry shellclaw.Common.has_prefix shellclaw.Common.read_digits
openai_retryable = ((refl, refl), tt)

collected_once :
    (composite_init outside (at_openai []) (some chain_config) 7).1.backends ≡ openai ∷ local ∷ []
unfolding composite_init shellclaw.Providers.Router.collect_backends lookup_backend
    shellclaw.Providers.Router.backends_contains
collected_once = refl

chat-answered_example :
    composite_chat outside (at_openai (openai ∷ local ∷ stub ∷ [])) cleared
    ≡ (pos 0, (replies local).1, answered outside (at_openai (openai ∷ local ∷ stub ∷ [])) local 1)
chat-answered_example =
    chat-answered outside (at_openai (openai ∷ local ∷ stub ∷ [])) chain_config cleared refl
      (openai ∷ []) (stub ∷ []) local refl openai_retryable refl

refuses : allows_fallback_retry (replies anthropic).1.content ≡ false
unfolding allows_fallback_retry shellclaw.Common.has_prefix shellclaw.Common.read_digits
refuses = refl

chat-refused_example :
    composite_chat outside (at_openai (openai ∷ anthropic ∷ stub ∷ [])) cleared ≡ (
      negsuc 0,
      (replies anthropic).1,
      snapshot_set_last_err (at_openai (openai ∷ anthropic ∷ stub ∷ [])) (codes "HTTP 401"),
    )
chat-refused_example =
    chat-refused outside (at_openai (openai ∷ anthropic ∷ stub ∷ [])) chain_config cleared refl
      (openai ∷ []) (stub ∷ []) anthropic refl openai_retryable refl refuses

openai-IsConsistent : IsConsistent outside (at_openai (openai ∷ local ∷ []))
openai-IsConsistent = record { active = inr (openai, refl, refl) }

chat-IsConsistent_example :
    IsConsistent outside (composite_chat outside (at_openai (openai ∷ local ∷ [])) cleared).2
chat-IsConsistent_example =
    chat-IsConsistent outside (at_openai (openai ∷ local ∷ [])) cleared openai-IsConsistent

init-IsCollected_example :
    IsCollected outside chain_config
      (composite_init outside (at_openai []) (some chain_config) 7).1.backends
    × (is_success (composite_init outside (at_openai []) (some chain_config) 7).0
        ≡ not (is_empty (composite_init outside (at_openai []) (some chain_config) 7).1.backends))
    × NamesFirst outside (composite_init outside (at_openai []) (some chain_config) 7).1
init-IsCollected_example = init-IsCollected outside (at_openai []) chain_config 7

-- the router while the second backend is active
abbrev fallen_back : Router
fallen_back = record (at_openai (openai ∷ local ∷ [])) {
  snap_act = codes "local";
  snap_chain_ix = 1;
}

tick-Recovered_example :
    Recovered outside chain_config
      (record fallen_back { recovery_last_wall = 1000 })
      (recovery_tick outside fallen_back 1000)
tick-Recovered_example =
    tick-Recovered outside chain_config fallen_back 1000 refl (omega arith) (omega arith) refl

fallen_back-IsConsistent : IsConsistent outside fallen_back
fallen_back-IsConsistent = record { active = inr (local, refl, refl) }

tick-IsConsistent_example :
    IsConsistent outside (recovery_tick outside fallen_back 1000)
    × ((recovery_tick outside fallen_back 1000).snap_chain_ix ≤ 1)
tick-IsConsistent_example = tick-IsConsistent outside fallen_back 1000 fallen_back-IsConsistent
