-- ===== src/Llm/Samples.antt =====
-- Runs of the LLM registry, its policy and its router, and the results on the router at a small
-- registry.
use expensor.Prelude.{
  String, ◌≡◌, refl, true, false, ◌||◌, ◌&&◌, Option, some, List, [], ◌∷◌, is_empty,
}
use expensor.Prelude.Int.{pos}
use expensor.Result.{Result, ok, fail}
use expensor.Llm.{
  Libs, Provider, none_needed, unsupported, register_provider, list_providers, named,
}
use expensor.Llm.Policy.{
  MutationPolicy, MutationRequest, enforce_result_limits, validate_mutation_safety,
}
use expensor.Llm.Router.{Runtime, Factory, Request, wrapped, complete}
use expensor.Llm.Safety.{is_ok, permits_all, validate_mutation_safety_lem}
use expensor.Llm.Routing.{IsRouted, complete-IsRouted}

abbrev libs : Libs
libs = record { is_valid_json = λ s. true; quote = λ s. s }

-- Its client answers a text with the text.
abbrev echo : Provider (Factory String String)
echo = record {
  metadata = record {
    name = "echo";
    display_name = "";
    description = "";
    auth = record { type = none_needed; required = false; required_scopes = [] };
    config_schema = "";
    capabilities = "text" ∷ "json" ∷ [];
    model_options = [];
  };
  new_client = some (λ config. ok (λ body. ok body));
}

abbrev stored : Result (Option Runtime)
stored = ok (some (record { provider = "echo"; config = ""; credentials = "" }))

abbrev request : Request String
request = record { required_capabilities = "json" ∷ []; body = "hello" }

registered : register_provider libs (named " echo" echo) [] ≡ ok (echo ∷ [])
unfolding register_provider
registered = refl

abbrev second : Provider (Factory String String)
second = named "an" echo

sorted : list_providers (echo ∷ second ∷ []) ≡ second ∷ echo ∷ []
unfolding list_providers
sorted = refl

answered : complete libs (echo ∷ []) stored request ≡ ok "hello"
unfolding complete
answered = refl

complete-IsRouted_example : IsRouted libs (echo ∷ []) stored request "hello"
complete-IsRouted_example = complete-IsRouted libs (echo ∷ []) stored request "hello" answered

not_capable :
    complete libs (echo ∷ []) stored (record request { required_capabilities = "vision" ∷ [] })
    ≡ wrapped (fail (unsupported "vision"))
unfolding complete
not_capable = refl

large :
    is_ok (enforce_result_limits (λ n. "n") 11 (record { max_bytes = pos 10; max_items = pos 0 }))
    ≡ false
unfolding enforce_result_limits
large = refl

abbrev policy : MutationPolicy
policy = record {
  allow_mutations = true;
  allowed_resources = " rules " ∷ [];
  allowed_operations = [];
}

abbrev proposed : List MutationRequest
proposed = record { resource = "rules"; operation = "create" } ∷ []

allowed : is_ok (validate_mutation_safety (λ s. s) policy proposed) ≡ true
unfolding validate_mutation_safety
allowed = refl

validate_mutation_safety_lem_example :
    is_ok (validate_mutation_safety (λ s. s) policy proposed)
    ≡ (is_empty proposed || (policy.allow_mutations && permits_all policy proposed))
validate_mutation_safety_lem_example = validate_mutation_safety_lem (λ s. s) policy proposed
