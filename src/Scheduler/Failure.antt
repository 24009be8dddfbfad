-- ===== src/Scheduler/Failure.antt =====
-- What becomes of a failed scan: `Run` of backend/internal/daemon/scheduler/scan_runner.go, which
-- adds the message for the user, and `failureStateUpdate` of scheduler.go, which chooses the
-- tenant's next state.
use expensor.Prelude.{ℕ, ◌+◌, String, none, some, [], ◌∷◌, if◌then◌else◌}
use expensor.Prelude.Text.{is_blank}
use expensor.ErrorKind
use expensor.ErrorKind.{Kind, kind_eq}
use expensor.Errors.{Err}
use expensor.Errors.Build.{e, text, kind, user, error}
use expensor.Errors.Classify.{what_kind, user_msg}
use expensor.Oauth
use expensor.Oauth.{is_invalid_grant}
use expensor.Scanning.{
  ScanningStateUpdate, needs_auth, reader_not_configured, backing_off, missing_credentials,
  missing_token, invalid_grant, not_configured, temporary_failure,
}
use expensor.Scheduler.{Settings, retry_delay}

-- `KindReaderNotConfigured` of backend/internal/daemon/scan.go.
abbrev pub kind_reader_not_configured : Kind
kind_reader_not_configured = record { code = "reader_not_configured"; status = 0 }

abbrev pub op : String
op = "scheduler.scan_runner.run"

-- The error that ScanRunner.Run returns for the scanner's error.
unfoldable pub scan_error : Err → Err
unfolding kind_eq
scan_error err =
    let k = what_kind err in
    if kind_eq k kind_reader_not_configured
    then e (text op ∷ user "Complete reader setup to continue scanning." ∷ error err ∷ [])
    else if kind_eq k Oauth.credentials_missing
    then e (text op ∷ user "Upload reader credentials to continue scanning." ∷ error err ∷ [])
    else if kind_eq k Oauth.token_missing
    then e (text op ∷ user "Connect your reader account to continue scanning." ∷ error err ∷ [])
    else if is_invalid_grant err
    then e (
        text op
        ∷ kind ErrorKind.failed_precondition
        ∷ user "Reconnect your reader account to continue scanning."
        ∷ error err
        ∷ [])
    else err

unfoldable pub safe_message : String → String → String
safe_message message fallback = if is_blank message then fallback else message

-- `failureStateUpdate`.
unfoldable pub failure_state_update : Settings → Err → ℕ → ℕ → ScanningStateUpdate
unfolding kind_eq safe_message
failure_state_update s err current_retry now =
    let message = user_msg err in
    let k = what_kind err in
    let next_retry_count = current_retry + 1 in
    if kind_eq k Oauth.credentials_missing
    then record {
      state = needs_auth;
      reason_code = missing_credentials;
      public_message = safe_message message "Upload reader credentials to continue scanning.";
      last_started_at = none;
      last_stopped_at = none;
      last_failed_at = some now;
      next_retry_at = none;
      retry_count = some 0;
    }
    else if kind_eq k Oauth.token_missing
    then record {
      state = needs_auth;
      reason_code = missing_token;
      public_message = safe_message message "Connect your reader account to continue scanning.";
      last_started_at = none;
      last_stopped_at = none;
      last_failed_at = some now;
      next_retry_at = none;
      retry_count = some 0;
    }
    else if kind_eq k kind_reader_not_configured
    then record {
      state = reader_not_configured;
      reason_code = not_configured;
      public_message = safe_message message "Complete reader setup to continue scanning.";
      last_started_at = none;
      last_stopped_at = none;
      last_failed_at = some now;
      next_retry_at = none;
      retry_count = some 0;
    }
    else if is_invalid_grant err
    then record {
      state = needs_auth;
      reason_code = invalid_grant;
      public_message = safe_message message "Reconnect your reader account to continue scanning.";
      last_started_at = none;
      last_stopped_at = none;
      last_failed_at = some now;
      next_retry_at = none;
      retry_count = some 0;
    }
    else record {
      state = backing_off;
      reason_code = temporary_failure;
      public_message = "Scanning hit a temporary problem. We will retry automatically.";
      last_started_at = none;
      last_stopped_at = none;
      last_failed_at = some now;
      next_retry_at = some (now + retry_delay s next_retry_count);
      retry_count = some next_retry_count;
    }
