-- ===== src/Daemon/Scan.antt =====
-- ScanService of backend/internal/daemon/scan.go: the checks before a scan, its configuration, and
-- the errors it returns. What the store and the OAuth library answer comes from outside.
use expensor.Prelude.{
  ℕ, String, Bool, true, false, not, ◌&&◌, ◌||◌, Option, none, some, List, [], ◌∷◌, is_empty,
  if◌then◌else◌,
}
use expensor.Prelude.Int.{ℤ, positive}
use expensor.Prelude.Text.{append, is_blank, trim_space}
use expensor.Errors.{Err}
use expensor.Errors.Build.{e, kind, text, error}
use expensor.Result.{Result, ok, fail, ◌>>=◌}
use expensor.Oauth
use expensor.Plugins.{
  AuthType, oauth, config, ConfigField, ProviderMetadata, Registry, Libs, get_provider,
  get_all_scopes,
}
use expensor.Rules
use expensor.Rules.{Rule}
use expensor.Rules.Store.{RuleRow, merge_rules, load_persisted}
use expensor.Scheduler.Failure.{kind_reader_not_configured}
use expensor.Daemon.Controller.{ScanMode, scan_continuous, scan_scheduled, scan_rescan}

-- A value of the reader's stored configuration.
pub data ConfigValue : Type 0 where
  text_value : String → ConfigValue
  other_value : ConfigValue

abbrev pub has_value : Option ConfigValue → Bool
has_value none = false
has_value (some (text_value s)) = not (is_blank (trim_space s))
has_value (some other_value) = true

-- The loop of `readerConfigHasRequiredFields`, by what the stored object holds at a key.
unfoldable pub has_required_fields : (String → Option ConfigValue) → List ConfigField → Bool
unfolding trim_space
has_required_fields lookup [] = true
has_required_fields lookup (f ∷ schema) =
    (not f.required || has_value (lookup f.key)) && has_required_fields lookup schema

-- `readerConfigHasRequiredFields`: text that is no JSON object has no configuration.
abbrev pub reader_config_has_required_fields :
    Option (String → Option ConfigValue) → List ConfigField → Bool
reader_config_has_required_fields none schema = false
reader_config_has_required_fields (some lookup) schema = has_required_fields lookup schema

abbrev pub needs_config : AuthType → Bool
needs_config oauth = false
needs_config config = true

-- What the store returned for a reader's configuration: an error, no row, or the row as JSON reads
-- it.
abbrev pub StoredConfig : Type 0
StoredConfig = Result (Option (Option (String → Option ConfigValue)))

abbrev pub is_complete : Option (Option (String → Option ConfigValue)) → List ConfigField → Bool
is_complete none schema = false
is_complete (some body) schema = reader_config_has_required_fields body schema

abbrev pub incomplete : Libs → String → Err
incomplete libs name = e (
    text "daemon.scan.reader_ready"
    ∷ kind kind_reader_not_configured
    ∷ text (append "reader " (append (libs.quote name) " config is incomplete"))
    ∷ [])

abbrev check_config : Libs → ProviderMetadata → StoredConfig → Result (Unit {0})
check_config libs m (fail err) = fail (e (text "daemon.scan.reader_ready" ∷ error err ∷ []))
check_config libs m (ok row) =
    if is_complete row m.config_schema then ok tt else fail (incomplete libs m.name)

-- `ensureReaderReady`.
unfoldable pub ensure_reader_ready : Libs → ProviderMetadata → StoredConfig → Result (Unit {0})
unfolding has_required_fields append
ensure_reader_ready libs m stored =
    if not (needs_config m.auth.type) || is_empty m.config_schema
    then ok tt
    else check_config libs m stored

-- The answers that a scan gets from the store and from the OAuth library. `C` is its HTTP client.
pub record Stored (C : Type 0) : Type 0 where
  pub reader_config : StoredConfig
  pub secret : Result (Option String)
  pub new_client : String → List String → Result C
  pub rules : Result (List RuleRow)

abbrev pub scopes_of : Result (List String) → Result (List String)
scopes_of (ok scopes) = ok scopes
scopes_of (fail err) = fail (
    e (
      text "daemon.scan.oauth_client"
      ∷ kind kind_reader_not_configured
      ∷ text "resolving reader scopes"
      ∷ error err
      ∷ []))

abbrev pub in_oauth_client {ℓ} : {A : Type ℓ} → Result A → Result A
in_oauth_client (ok a) = ok a
in_oauth_client (fail err) = fail (e (text "daemon.scan.oauth_client" ∷ error err ∷ []))

abbrev pub missing_secret : Err
missing_secret = e (
    text "daemon.scan.oauth_client"
    ∷ kind Oauth.credentials_missing
    ∷ text "reader credentials missing"
    ∷ [])

abbrev pub require_secret : Option String → Result String
require_secret none = fail missing_secret
require_secret (some secret) = ok secret

-- `oauthClient` for a reader that requires scopes.
unfoldable pub client_for : {C : Type 0} → Stored C → List String → Result (Option C)
client_for stored [] = ok none
client_for stored (s ∷ scopes) = do
  found ← in_oauth_client stored.secret
  secret ← require_secret found
  client ← in_oauth_client (stored.new_client secret (s ∷ scopes))
  ok (some client)

-- `oauthClient`.
unfoldable pub oauth_client :
    {F G C : Type 0} → Libs → Registry F G → Stored C → String → Result (Option C)
unfolding get_all_scopes client_for
oauth_client libs registry stored reader = do
  scopes ← scopes_of (get_all_scopes libs reader registry)
  client_for stored scopes

-- The fields of `config.App` that a scan sets.
pub record App : Type 0 where
  pub scan_interval : ℕ
  pub lookback_days : ℕ
  pub run_once : Bool
  pub force_full_scan : Bool
  pub last_scan_at : Option ℕ

-- The tenant's stored settings: what `GetAppConfig` and then `strconv.Atoi` or `time.Parse` returned.
pub record Overrides : Type 0 where
  pub scan_interval : Option ℤ
  pub lookback_days : Option ℤ
  pub last_scan_at : Option ℕ

abbrev pub override : Option ℤ → ℕ → ℕ
override none old = old
override (some n) old = elim (positive n) [ none ↦ old | some m ↦ m ]

-- `applyScanOverrides`.
unfoldable pub apply_scan_overrides : App → Overrides → App
apply_scan_overrides app o = record app {
  scan_interval = override o.scan_interval app.scan_interval;
  lookback_days = override o.lookback_days app.lookback_days;
}

-- `scanConfig`, without the callback that stores the checkpoint.
unfoldable pub scan_config : App → Overrides → ScanMode → App
unfolding apply_scan_overrides
scan_config app o scan_scheduled = record (apply_scan_overrides app o) {
  run_once = true;
  last_scan_at = o.last_scan_at;
}
scan_config app o scan_rescan = record (apply_scan_overrides app o) { force_full_scan = true }
scan_config app o scan_continuous = record (apply_scan_overrides app o) {
  last_scan_at = o.last_scan_at;
}

abbrev pub registered {ℓ} : {A : Type ℓ} → Result A → Result A
registered (ok p) = ok p
registered (fail err) = fail (
    e (
      text "daemon.scan.run"
      ∷ kind kind_reader_not_configured
      ∷ text "reader is not registered"
      ∷ error err
      ∷ []))

abbrev pub in_run : Result (Unit {0}) → Result (Unit {0})
in_run (ok u) = ok u
in_run (fail err) = fail (e (text "daemon.scan.run" ∷ error err ∷ []))

-- The fields of ScanService that a scan reads.
pub record ScanService (F G R : Type 0) : Type 0 where
  pub libs : Libs
  pub registry : Registry F G
  pub config : App
  pub rule_libs : Rules.Libs R
  pub system_rules : List (Rule R)

-- What the reader's run is given: its client, configuration and rules, and whether processed messages
-- are looked up.
pub record RunConfig (C R : Type 0) : Type 0 where
  pub client : Option C
  pub app : App
  pub rules : List (Rule R)
  pub has_state_manager : Bool

abbrev pub is_rescan : ScanMode → Bool
is_rescan scan_rescan = true
is_rescan scan_scheduled = false
is_rescan scan_continuous = false

-- The configuration that `Run` hands to the reader's run.
unfoldable pub run_config :
    {F G R C : Type 0}
    → ScanService F G R
    → Stored C
    → Overrides
    → ScanMode
    → Option C
    → RunConfig C R
unfolding scan_config merge_rules load_persisted
run_config service stored overrides mode client = record {
  client = client;
  app = scan_config service.config overrides mode;
  rules = merge_rules service.system_rules (load_persisted service.rule_libs stored.rules);
  has_state_manager = not (is_rescan mode);
}

-- `Run`, by what the reader's run returns for a configuration.
unfoldable pub run :
    {F G R C : Type 0}
    → ScanService F G R
    → Stored C
    → (RunConfig C R → Result (Unit {0}))
    → Overrides
    → String
    → ScanMode
    → Result (Unit {0})
unfolding get_provider ensure_reader_ready oauth_client run_config
run service stored read overrides reader mode = do
  p ← registered (get_provider service.libs reader service.registry)
  ready ← ensure_reader_ready service.libs p.metadata stored.reader_config
  client ← oauth_client service.libs service.registry stored reader
  in_run (read (run_config service stored overrides mode client))
