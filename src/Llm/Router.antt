-- ===== src/Llm/Router.antt =====
-- `Router.Complete` of backend/internal/llm/router.go. What a client answers, and what its factory
-- returns, come from outside.
use expensor.Prelude.{String, Option, none, some, List, [], ◌∷◌}
use expensor.Prelude.Text.{append}
use expensor.Errors.{Err}
use expensor.Errors.Build.{e, kind, text, user, error}
use expensor.Result.{Result, ok, fail, ◌>>=◌}
use expensor.Llm.{
  Libs, Provider, Registry, kind_no_provider_configured, get_provider, require_capabilities,
  about_provider,
}

-- `LLMProviderRuntime`: the tenant's active provider and what its client is built from.
pub record Runtime : Type 0 where
  pub provider : String
  pub config : String
  pub credentials : String

abbrev pub ClientConfig : Type 0
ClientConfig = String × String

-- A factory of clients that answer requests of the type `Q` with values of the type `A`.
abbrev pub Factory : Type 0 → Type 0 → Type 0
Factory Q A = ClientConfig → Result (Q → Result A)

abbrev pub op : String
op = "llm.Router.Complete"

abbrev pub wrapped {ℓ} : {A : Type ℓ} → Result A → Result A
wrapped (ok a) = ok a
wrapped (fail err) = fail (e (text op ∷ error err ∷ []))

abbrev pub no_provider : Err
no_provider = e (
    text op
    ∷ kind kind_no_provider_configured
    ∷ user "No LLM provider is configured."
    ∷ text "no llm provider configured"
    ∷ [])

abbrev pub require_found {ℓ} : {A : Type ℓ} → Option A → Result A
require_found none = fail no_provider
require_found (some a) = ok a

-- `NewClient`, which a registered provider has; calling a nil function panics in the source, and
-- fails with the empty error here.
abbrev pub build_client :
    {Q A : Type 0} → Libs → String → Option (Factory Q A) → ClientConfig → Result (Q → Result A)
build_client libs name none config = fail (e [])
build_client libs name (some factory) config = elim (factory config) [
  | ok client ↦ ok client
  | fail err ↦ fail (
      e (text op ∷ text (append "creating " (about_provider libs name " client")) ∷ error err ∷ []))
]

-- A request with the capabilities that it needs.
pub record Request (Q : Type 0) : Type 0 where
  pub required_capabilities : List String
  pub body : Q

-- `Complete` behind the choice of the provider.
unfoldable pub ask : {Q A : Type 0} → Libs → Runtime → Request Q → Provider (Factory Q A) → Result A
unfolding require_capabilities append
ask libs runtime request p = do
  able ← wrapped (require_capabilities p request.required_capabilities)
  client ← build_client libs runtime.provider p.new_client (runtime.config, runtime.credentials)
  client request.body

-- `Complete`, by what the store returned for the tenant; without a store it is as if one had found
-- nothing.
unfoldable pub complete :
    {Q A : Type 0} → Libs → Registry (Factory Q A) → Result (Option Runtime) → Request Q → Result A
unfolding get_provider ask
complete libs registry stored request = do
  maybe_runtime ← wrapped stored
  runtime ← require_found maybe_runtime
  p ← wrapped (get_provider libs runtime.provider registry)
  ask libs runtime request p
