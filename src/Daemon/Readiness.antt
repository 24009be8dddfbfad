-- ===== src/Daemon/Readiness.antt =====
-- backend/internal/daemon/scan.go and scheduler/scheduler.go together: a reader that is not set up
-- stops the tenant's scanning with the state that asks the user for what is missing.
use expensor.Prelude.{ℕ, String, ◌≡◌, refl, true, false, Option, none, List, ◌∷◌, is_empty}
use expensor.Errors.{Err}
use expensor.Result.{Result, ok, fail}
use expensor.Plugins.{Provider, Registry, Libs, get_provider, get_all_scopes}
use expensor.Scheduler.{Settings}
use expensor.Scheduler.Failure.{scan_error, failure_state_update}
use expensor.Scheduler.Classes.{
  FailureClass, no_reader, no_credentials, classify, update_of, failure_state_update-scan_error,
}
use expensor.Daemon.Controller.{ScanMode}
use expensor.Daemon.Scan.{
  ConfigValue, Stored, ScanService, RunConfig, Overrides, needs_config, is_complete, incomplete,
  ensure_reader_ready, oauth_client, client_for, missing_secret, run,
}

-- The result is a failure for which the scheduler writes the update of this class, with no time to
-- retry at.
abbrev pub StopsAs : Settings → ℕ → ℕ → FailureClass → Result (Unit {0}) → Type 0
StopsAs s n now class (ok u) = ⊥
StopsAs s n now class (fail err) =
    failure_state_update s (scan_error err) n now ≡ update_of s class n now

of_class :
    (s : Settings) (n now : ℕ) (class : FailureClass) (err : Err)
    → classify err ≡ class
    → failure_state_update s (scan_error err) n now ≡ update_of s class n now
of_class s n now class err h = rw (failure_state_update-scan_error s err n now, h) refl

missing_secret-classify : classify missing_secret ≡ no_credentials
unfolding classify expensor.Errors.Classify.what_kind expensor.Errors.Build.e
missing_secret-classify = refl

no_secret-oauth_client :
    {F G C : Type 0} (libs : Libs) (registry : Registry F G) (stored : Stored C)
    (reader scope : String) (scopes : List String)
    → get_all_scopes libs reader registry ≡ ok (scope ∷ scopes)
    → stored.secret ≡ ok none
    → oauth_client libs registry stored reader ≡ fail missing_secret
unfolding oauth_client client_for
no_secret-oauth_client libs registry stored reader scope scopes required secret =
    simp (required) (simp (secret) refl)

module _ {F G R C : Type 0} (service : ScanService F G R) (stored : Stored C)
    (read : RunConfig C R → Result (Unit {0})) (overrides : Overrides) (reader : String)
    (mode : ScanMode) (p : Provider F G)
    (found : get_provider service.libs reader service.registry ≡ ok p) (s : Settings)
    (n now : ℕ) where
  -- For a registered reader that takes a configuration, and whose stored one is missing or lacks a
  -- required field, the scan fails whatever the reader itself would return, and the scheduler's update
  -- for the failure is that of a reader that is not configured, without a time to retry at.
  pub run-incomplete :
      (row : Option (Option (String → Option ConfigValue)))
      → needs_config p.metadata.auth.type ≡ true
      → is_empty p.metadata.config_schema ≡ false
      → stored.reader_config ≡ ok row
      → is_complete row p.metadata.config_schema ≡ false
      → StopsAs s n now no_reader (run service stored read overrides reader mode)
  unfolding run ensure_reader_ready expensor.Errors.Classify.what_kind expensor.Errors.Build.e
  run-incomplete row config schema stored_row lacks =
      simp (found, config, schema, stored_row, lacks)
        (of_class s n now no_reader (incomplete service.libs p.metadata.name)
          (unfold classify in refl))

  -- For a registered reader that is configured and requires scopes, and for which no credentials are
  -- stored, the scan fails whatever the reader itself would return, and the scheduler's update for the
  -- failure is that of missing credentials, without a time to retry at.
  pub run-no_secret :
      (scope : String) (scopes : List String)
      → ensure_reader_ready service.libs p.metadata stored.reader_config ≡ ok tt
      → get_all_scopes service.libs reader service.registry ≡ ok (scope ∷ scopes)
      → stored.secret ≡ ok none
      → StopsAs s n now no_credentials (run service stored read overrides reader mode)
  unfolding run
  run-no_secret scope scopes ready required secret =
      simp
        (no_secret-oauth_client service.libs service.registry stored reader scope scopes required
          secret)
        (simp (found, ready)
          (of_class s n now no_credentials missing_secret missing_secret-classify))
