-- ===== src/Plugins/Scopes.antt =====
-- `GetAllScopes` of backend/internal/plugins/registry.go returns a set.
use expensor.Prelude.{String, ◌≡◌, refl, List, [], ◌∷◌, arith, eq_iff, contains, Distinct}
use expensor.Result.{ok}
use expensor.Plugins.{Provider, Registry, Libs, get_provider, scope_set, get_all_scopes}

scope_set-contains :
    (j : String) (scopes : List String) → contains j (scope_set scopes) ≡ contains j scopes
unfolding scope_set contains
scope_set-contains j [] = refl
scope_set-contains j (s ∷ scopes) =
    ground (arith, scope_set-contains j scopes, scope_set-contains s scopes, eq_iff s j)

scope_set-Distinct : (scopes : List String) → Distinct (scope_set scopes)
unfolding scope_set
scope_set-Distinct [] = tt
scope_set-Distinct (s ∷ scopes) = ground (arith, scope_set-Distinct scopes)

-- The scopes of a registered provider are those it requires, each once.
pub get_all_scopes_lem :
    {F G : Type 0} (libs : Libs) (providers : Registry F G) (name : String) (p : Provider F G)
    → get_provider libs name providers ≡ ok p
    → (scopes : List String) × (get_all_scopes libs name providers ≡ ok scopes)
      × Distinct scopes
      × ((j : String) → contains j scopes ≡ contains j p.metadata.auth.required_scopes)
unfolding get_all_scopes
get_all_scopes_lem libs providers name p h = (
  scope_set p.metadata.auth.required_scopes,
  rw h refl,
  scope_set-Distinct p.metadata.auth.required_scopes,
  λ j. scope_set-contains j p.metadata.auth.required_scopes,
)
