-- ===== src/Providers/Tests.antt =====
-- src/providers/provider_common.c: the theorems at one error text and at one model id.
use shellclaw.Common.{
  ℕ, Bool, true, not, Option, none, [], ◌∷◌, ◌++◌, ◌≡◌, ◌≢◌, refl, Bytes, codes, ◌==◌,
}
use shellclaw.Providers.Model.{model_id_for_backend, bare_model_for_backend}
use shellclaw.Providers.Model.Vendor.{model_id-resolved, resolved}

bare_claude : bare_model_for_backend (codes "claude-3") (codes "openai") ≡ none
unfolding bare_model_for_backend shellclaw.Common.str_equal
bare_claude = refl

model_id-resolved_example :
    model_id_for_backend (codes "OpenAI/gpt-4o") (codes "openai")
    ≡ resolved (codes "OpenAI") (codes "gpt-4o") (codes "openai")
model_id-resolved_example =
    model_id-resolved (codes "OpenAI") (codes "gpt-4o") (codes "openai") refl (λ e. cc)
