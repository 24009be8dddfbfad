-- ===== src/Llm/Routing.antt =====
-- `Router.Complete` of backend/internal/llm/router.go: when it answers, a capable provider did.
use expensor.Prelude.{
  String, ◌≡◌, refl, true, Option, none, some, List, [], ◌∷◌, arith, contains, All, Option-cases,
  inl, inr,
}
use expensor.Result.{Result, ok, fail, Result-cases}
use expensor.Llm.{Libs, Provider, Registry, first_missing, require_capabilities, get_provider}
use expensor.Llm.Router.{Runtime, Factory, Request, build_client, ask, complete}

first_missing-none :
    (available required : List String)
    → first_missing available required ≡ none
    → All (λ c. contains c available ≡ true) required
unfolding first_missing
first_missing-none available [] h = tt
first_missing-none available (c ∷ required) h =
    ground (arith, first_missing-none available required)

-- The active provider of the tenant is registered, has all capabilities of the request, and its
-- client gave the answer.
abbrev pub IsRouted :
    {Q A : Type 0}
    → Libs
    → Registry (Factory Q A)
    → Result (Option Runtime)
    → Request Q
    → A
    → Type 0
IsRouted {Q} {A} libs registry stored request answer =
    (runtime : Runtime) × (p : Provider (Factory Q A)) × (client : Q → Result A) × (stored
      ≡ ok (some runtime))
    × (get_provider libs runtime.provider registry ≡ ok p)
    × All (λ c. contains c p.metadata.capabilities ≡ true) request.required_capabilities
    × (build_client libs runtime.provider p.new_client (runtime.config, runtime.credentials)
        ≡ ok client)
    × (client request.body ≡ ok answer)

ask-capable :
    {Q A : Type 0} (libs : Libs) (runtime : Runtime) (request : Request Q)
    (p : Provider (Factory Q A)) (answer : A)
    → ask libs runtime request p ≡ ok answer
    → All (λ c. contains c p.metadata.capabilities ≡ true) request.required_capabilities
      × ((client : Q → Result A) × (build_client libs runtime.provider p.new_client
              (runtime.config, runtime.credentials)
            ≡ ok client)
          × (client request.body ≡ ok answer))
unfolding ask require_capabilities
ask-capable libs runtime request p answer =
    elim (Option-cases (first_missing p.metadata.capabilities request.required_capabilities)) [
      | inr (c, e) ↦ rw e (λ h. cc)
      | inl e ↦
          rw e
            (elim (Result-cases (
              build_client libs runtime.provider p.new_client
                (runtime.config, runtime.credentials))) [
                  | inr (err, f) ↦ rw f (λ h. cc)
                  | inl (client, f) ↦ rw f (λ h.
                      (first_missing-none _ request.required_capabilities e, (client, refl, h)))
                ])
    ]

-- When `Complete` answers a request, the tenant has an active provider, it is registered and has
-- every capability that the request needs, and the answer is that of the client which its factory
-- built from the tenant's stored configuration.
pub complete-IsRouted :
    {Q A : Type 0} (libs : Libs) (registry : Registry (Factory Q A))
    (stored : Result (Option Runtime)) (request : Request Q) (answer : A)
    → complete libs registry stored request ≡ ok answer
    → IsRouted libs registry stored request answer
unfolding complete
complete-IsRouted libs registry (fail err) request answer = λ h. cc
complete-IsRouted libs registry (ok none) request answer = λ h. cc
complete-IsRouted libs registry (ok (some runtime)) request answer =
    elim (Result-cases (get_provider libs runtime.provider registry)) [
      | inr (err, e) ↦ rw e (λ h. cc)
      | inl (p, e) ↦ simp (e) (λ h.
          let (able, (client, built, answered)) = ask-capable libs runtime request p answer h in
          (runtime, p, client, refl, e, able, built, answered))
    ]
