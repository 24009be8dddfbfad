-- ===== src/Llm.antt =====
-- backend/internal/llm/registry.go: the registry of LLM providers. The map of providers is a list,
-- one provider to a name. The limits on what a model may do, and the router, are in the modules
-- below.
pub mod Policy
pub mod Router
pub mod Safety
pub mod Routing
pub mod Samples
use expensor.Prelude.{
  String, Bool, true, false, not, ◌||◌, Option, none, some, List, [], ◌∷◌, ◌++◌, contains, str_eq,
  if◌then◌else◌,
}
use expensor.Prelude.Text.{append, is_blank, trim_space, text_le}
use expensor.ErrorKind
use expensor.ErrorKind.{Kind}
use expensor.Errors.{Err}
use expensor.Errors.Build.{e, kind, text, user}
use expensor.Result.{Result, ok, fail, ◌>>=◌}

-- `KindCapabilityUnsupported` and `KindNoProviderConfigured` of backend/internal/llm/kinds.go.
abbrev pub kind_capability_unsupported : Kind
kind_capability_unsupported = record { code = "llm_capability_unsupported"; status = 409 }

abbrev pub kind_no_provider_configured : Kind
kind_no_provider_configured = record { code = "llm_no_provider_configured"; status = 409 }

pub data AuthType : Type 0 where
  none_needed api_key oauth : AuthType

pub record AuthSpec : Type 0 where
  pub type : AuthType
  pub required : Bool
  pub required_scopes : List String

pub record ModelOption : Type 0 where
  pub id : String
  pub display_name : String
  pub quality : String
  pub cost : String
  pub description : String
  pub recommended : Bool

pub record ProviderMetadata : Type 0 where
  pub name : String
  pub display_name : String
  pub description : String
  pub auth : AuthSpec
  pub config_schema : String
  pub capabilities : List String
  pub model_options : List ModelOption

-- The factory, of the type `F`; a nil function is `none`.
pub record Provider (F : Type 0) : Type 0 where
  pub metadata : ProviderMetadata
  pub new_client : Option F

abbrev pub Registry : Type 0 → Type 0
Registry F = List (Provider F)

-- `json.Valid`, and `strconv.Quote` for `%q`.
pub record Libs : Type 0 where
  pub is_valid_json : String → Bool
  pub quote : String → String

-- The loop of `RequireCapabilities`: the first capability that is not available.
unfoldable pub first_missing : List String → List String → Option String
unfolding contains
first_missing available [] = none
first_missing available (c ∷ required) =
    let rest = first_missing available required in if contains c available then rest else some c

abbrev pub unsupported : String → Err
unsupported capability = e (
    text "llm.Provider.RequireCapabilities"
    ∷ kind kind_capability_unsupported
    ∷ user "The active LLM provider does not support the requested operation."
    ∷ text (append "llm capability unsupported: " capability)
    ∷ [])

abbrev pub none_missing : Option String → Result (Unit {0})
none_missing none = ok tt
none_missing (some c) = fail (unsupported c)

-- `RequireCapabilities`.
unfoldable pub require_capabilities : {F : Type 0} → Provider F → List String → Result (Unit {0})
unfolding first_missing append
require_capabilities p required = none_missing (first_missing p.metadata.capabilities required)

-- `r.providers[name]`.
unfoldable pub find_provider : {F : Type 0} → String → Registry F → Option (Provider F)
find_provider name [] = none
find_provider name (p ∷ providers) =
    let rest = find_provider name providers in if str_eq p.metadata.name name then some p else rest

abbrev pub rejected : String → Kind → String → Err
rejected op k message = e (text op ∷ kind k ∷ text message ∷ [])

abbrev pub require : Bool → Err → Result Bool
require true err = ok true
require false err = fail err

abbrev pub about_provider : Libs → String → String → String
about_provider libs name rest = append "llm provider " (append (libs.quote name) rest)

unfoldable pub has_blank_id : List ModelOption → Bool
unfolding trim_space
has_blank_id [] = false
has_blank_id (o ∷ options) = is_blank (trim_space o.id) || has_blank_id options

abbrev pub is_free {ℓ} : {A : Type ℓ} → Option A → Bool
is_free none = true
is_free (some a) = false

abbrev register_op : String
register_op = "llm.Registry.RegisterProvider"

-- The provider under its trimmed name.
abbrev pub named : {F : Type 0} → String → Provider F → Provider F
named name p = record p { metadata = record p.metadata { name = name } }

-- `RegisterProvider`.
unfoldable pub register_provider :
    {F : Type 0} → Libs → Provider F → Registry F → Result (Registry F)
unfolding trim_space append find_provider has_blank_id
register_provider libs p providers = do
  let name = trim_space p.metadata.name
  filled ←
      require (not (is_blank name))
        (rejected register_op ErrorKind.invalid_input "llm provider name is required")
  client ← require (not (is_free p.new_client)) (
      rejected register_op ErrorKind.invalid_input
        (about_provider libs name " client factory is required"))
  schema ←
      require (is_blank p.metadata.config_schema || libs.is_valid_json p.metadata.config_schema) (
        rejected register_op ErrorKind.invalid_input
          (about_provider libs name " config schema must be valid JSON"))
  options ← require (not (has_blank_id p.metadata.model_options)) (
      rejected register_op ErrorKind.invalid_input
        (about_provider libs name " model option id is required"))
  free ←
      require (is_free (find_provider name providers))
        (rejected register_op ErrorKind.conflict (about_provider libs name " already registered"))
  ok (providers ++ named name p ∷ [])

abbrev pub provider_or {ℓ} : {A : Type ℓ} → Err → Option A → Result A
provider_or err none = fail err
provider_or err (some p) = ok p

-- `GetProvider`.
unfoldable pub get_provider : {F : Type 0} → Libs → String → Registry F → Result (Provider F)
unfolding find_provider append
get_provider libs name providers =
    provider_or
      (rejected "llm.Registry.GetProvider" ErrorKind.not_found
        (about_provider libs name " not found"))
      (find_provider name providers)

unfoldable pub insert_provider : {F : Type 0} → Provider F → Registry F → Registry F
insert_provider p [] = p ∷ []
insert_provider p (q ∷ providers) =
    let rest = insert_provider p providers in
    if text_le p.metadata.name q.metadata.name then p ∷ q ∷ providers else q ∷ rest

-- `ListProviders`, sorted by name.
unfoldable pub list_providers : {F : Type 0} → Registry F → Registry F
unfolding insert_provider
list_providers [] = []
list_providers (p ∷ providers) = insert_provider p (list_providers providers)
