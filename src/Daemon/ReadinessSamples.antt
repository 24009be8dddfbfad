-- ===== src/Daemon/ReadinessSamples.antt =====
-- Scans of readers that are not set up.
use expensor.Prelude.{str_eq, ℕ, String, ◌≡◌, refl, true, false, Option, none, some, List, [], ◌∷◌}
use expensor.Prelude.Int.{pos, negsuc}
use expensor.Result.{Result, ok}
use expensor.Plugins.{
  Provider, Registry, Libs, config, oauth, AuthType, get_provider, get_all_scopes,
}
use expensor.Rules
use expensor.Scheduler.{Settings}
use expensor.Scheduler.Classes.{no_reader, no_credentials}
use expensor.Daemon.Controller.{scan_scheduled}
use expensor.Daemon.Scan.{
  ConfigValue, text_value, Stored, App, ScanService, RunConfig, Overrides, is_complete,
  ensure_reader_ready, scan_config, run,
}
use expensor.Daemon.Readiness.{StopsAs, run-incomplete, run-no_secret}

abbrev libs : Libs
libs = record { is_valid_json = λ s. true; quote = λ s. s }

abbrev settings : Settings
settings = record { poll_interval = 1; base_retry_delay = 60; max_retry_delay = 3600 }

abbrev reader : AuthType → String → List String → Provider ℕ ℕ
reader type name scopes = record {
  metadata = record {
    name = name;
    description = "";
    auth = record { type = type; required_scopes = scopes; requires_credentials_upload = false };
    config_schema =
        record {
          key = "profile";
          label = "Profile";
          type = "path";
          required = true;
          help = "";
          depends_on = "";
        }
        ∷ [];
    setup_guide = "";
  };
  new_reader = some 0;
  new_email_searcher = some 0;
}

abbrev thunderbird : Provider ℕ ℕ
thunderbird = reader config "thunderbird" []

abbrev gmail : Provider ℕ ℕ
gmail = reader oauth "gmail" ("read" ∷ [])

abbrev registry : Registry ℕ ℕ
registry = thunderbird ∷ gmail ∷ []

-- The stored profile is blank, and no secret is stored.
abbrev blank_profile : Option (Option (String → Option ConfigValue))
blank_profile = some (some (λ key. some (text_value " ")))

abbrev stored : Stored ℕ
stored = record {
  reader_config = ok blank_profile;
  secret = ok none;
  new_client = λ secret scopes. ok 0;
  rules = ok [];
}

abbrev app : App
app = record {
  scan_interval = 60;
  lookback_days = 180;
  run_once = false;
  force_full_scan = false;
  last_scan_at = none;
}

abbrev rule_libs : Rules.Libs String
rule_libs = record {
  to_lower = λ c. c;
  equal_fold = str_eq;
  parse_address = λ text. none;
  quote = λ text. text;
  compile = λ text. ok text;
  pattern = λ text. text;
}

abbrev service : ScanService ℕ ℕ String
service = record {
  libs = libs;
  registry = registry;
  config = app;
  rule_libs = rule_libs;
  system_rules = [];
}

abbrev read : RunConfig ℕ String → Result (Unit {0})
read run_config = ok tt

abbrev overrides : Overrides
overrides = record {
  scan_interval = some (pos 300);
  lookback_days = some (negsuc 4);
  last_scan_at = some 1000;
}

scheduled_config :
    scan_config app overrides scan_scheduled
    ≡ record app { scan_interval = 300; run_once = true; last_scan_at = some 1000 }
unfolding scan_config
scheduled_config = refl

found_thunderbird : get_provider libs "thunderbird" registry ≡ ok thunderbird
unfolding get_provider
found_thunderbird = refl

found_gmail : get_provider libs "gmail" registry ≡ ok gmail
unfolding get_provider
found_gmail = refl

lacks_profile : is_complete blank_profile thunderbird.metadata.config_schema ≡ false
unfolding expensor.Daemon.Scan.has_required_fields
lacks_profile = refl

gmail_ready : ensure_reader_ready libs gmail.metadata stored.reader_config ≡ ok tt
unfolding ensure_reader_ready
gmail_ready = refl

gmail_scopes : get_all_scopes libs "gmail" registry ≡ ok ("read" ∷ [])
unfolding get_all_scopes
gmail_scopes = refl

run-incomplete_example :
    StopsAs settings 2 5000 no_reader
      (run service stored read overrides "thunderbird" scan_scheduled)
run-incomplete_example =
    run-incomplete service stored read overrides "thunderbird" scan_scheduled thunderbird
      found_thunderbird settings 2 5000 blank_profile refl refl refl lacks_profile

run-no_secret_example :
    StopsAs settings 2 5000 no_credentials
      (run service stored read overrides "gmail" scan_scheduled)
run-no_secret_example =
    run-no_secret service stored read overrides "gmail" scan_scheduled gmail found_gmail settings 2
      5000 "read" [] gmail_ready gmail_scopes refl
