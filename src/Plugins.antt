-- ===== src/Plugins.antt =====
-- backend/internal/plugins/registry.go: the registry of email providers. The map of providers is a
-- list; the order that Go's maps leave open is the order of registration here.
pub mod Registration
pub mod Scopes
pub mod Samples
use expensor.Prelude.{
  String, Bool, true, false, not, ◌&&◌, ◌||◌, Option, none, some, List, [], ◌∷◌, ◌++◌, contains,
  str_eq, if◌then◌else◌,
}
use expensor.Prelude.Text.{append, is_blank, trim_space}
use expensor.ErrorKind
use expensor.ErrorKind.{Kind}
use expensor.Errors.{Err}
use expensor.Errors.Build.{e, kind, text, user}
use expensor.Result.{Result, ok, fail, ◌>>=◌}

pub data AuthType : Type 0 where
  oauth config : AuthType

pub record ConfigField : Type 0 where
  pub key : String
  pub label : String
  pub type : String
  pub required : Bool
  pub help : String
  pub depends_on : String

pub record AuthSpec : Type 0 where
  pub type : AuthType
  pub required_scopes : List String
  pub requires_credentials_upload : Bool

pub record ProviderMetadata : Type 0 where
  pub name : String
  pub description : String
  pub auth : AuthSpec
  pub config_schema : List ConfigField
  pub setup_guide : String

-- The two factories, of the types `F` and `G`; a nil function is `none`.
pub record Provider (F G : Type 0) : Type 0 where
  pub metadata : ProviderMetadata
  pub new_reader : Option F
  pub new_email_searcher : Option G

abbrev pub Registry : Type 0 → Type 0 → Type 0
Registry F G = List (Provider F G)

-- `json.Valid`, and `strconv.Quote` for `%q`.
pub record Libs : Type 0 where
  pub is_valid_json : String → Bool
  pub quote : String → String

-- `r.providers[name]`.
unfoldable pub find_provider : {F G : Type 0} → String → Registry F G → Option (Provider F G)
find_provider name [] = none
find_provider name (p ∷ providers) =
    let rest = find_provider name providers in if str_eq p.metadata.name name then some p else rest

abbrev pub rejected : Kind → String → Err
rejected k message = e (kind k ∷ text message ∷ [])

abbrev pub about_provider : Libs → String → String → String
about_provider libs name rest = append "provider " (append (libs.quote name) rest)

abbrev pub require_factory {ℓ} : {A : Type ℓ} → Option A → String → Result A
require_factory none message = fail (rejected ErrorKind.invalid_input message)
require_factory (some f) message = ok f

abbrev pub require_valid : Bool → Kind → String → Result Bool
require_valid true k message = ok true
require_valid false k message = fail (rejected k message)

abbrev pub is_free {ℓ} : {A : Type ℓ} → Option A → Bool
is_free none = true
is_free (some a) = false

-- `RegisterProvider`.
unfoldable pub register_provider :
    {F G : Type 0} → Libs → Provider F G → Registry F G → Result (Registry F G)
unfolding trim_space append find_provider
register_provider libs p providers = do
  named ←
      require_valid (not (is_blank (trim_space p.metadata.name))) ErrorKind.invalid_input
        "provider name is required"
  reader ←
      require_factory p.new_reader
        (about_provider libs p.metadata.name " reader factory is required")
  searcher ←
      require_factory p.new_email_searcher
        (about_provider libs p.metadata.name " email searcher factory is required")
  guide ←
      require_valid (is_blank p.metadata.setup_guide || libs.is_valid_json p.metadata.setup_guide)
        ErrorKind.invalid_input
        (about_provider libs p.metadata.name " setup guide must be valid JSON")
  free ←
      require_valid (is_free (find_provider p.metadata.name providers)) ErrorKind.conflict
        (about_provider libs p.metadata.name " already registered")
  ok (providers ++ p ∷ [])

abbrev pub provider_or {ℓ} : {A : Type ℓ} → String → Option A → Result A
provider_or message none = fail (e (kind ErrorKind.not_found ∷ user message ∷ text message ∷ []))
provider_or message (some p) = ok p

-- `GetProvider`.
unfoldable pub get_provider : {F G : Type 0} → Libs → String → Registry F G → Result (Provider F G)
unfolding find_provider append
get_provider libs name providers =
    provider_or (about_provider libs name " not found") (find_provider name providers)

-- `ListProviders`.
unfoldable pub list_providers : {F G : Type 0} → Registry F G → List (Provider F G)
list_providers [] = []
list_providers (p ∷ providers) = p ∷ list_providers providers

-- The keys of the set that the texts are put into.
unfoldable pub scope_set : List String → List String
unfolding contains
scope_set [] = []
scope_set (s ∷ scopes) = let rest = scope_set scopes in if contains s rest then rest else s ∷ rest

-- `GetAllScopes`.
unfoldable pub get_all_scopes : {F G : Type 0} → Libs → String → Registry F G → Result (List String)
unfolding get_provider scope_set
get_all_scopes libs name providers = do
  p ← get_provider libs name providers
  ok (scope_set p.metadata.auth.required_scopes)
