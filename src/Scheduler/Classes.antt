-- ===== src/Scheduler/Classes.antt =====
-- The two files that treat a failed scan agree: the state that a tenant gets, and the message that
-- its user reads, are those of the scanner's own error, with no doubt left by the wrapper.
use expensor.Prelude.{
  ℕ, ◌+◌, String, ◌≡◌, refl, true, false, none, some, [], ◌∷◌, if◌then◌else◌, Bool-cases, inl, inr,
}
use expensor.ErrorKind
use expensor.ErrorKind.{Kind, kind_eq}
use expensor.ErrorKind.Statuses.{kind_eq_iff}
use expensor.Errors.{Err, Fields, app, no_cause, is_error, canceled, deadline_exceeded}
use expensor.Errors.Build.{text, kind, user, error, set_args, promote, no_fields}
use expensor.Errors.Classify.{what_kind}
use expensor.Errors.Wrapping.{wrap-user, single, e-eq-app, user_msg-own, what_kind-own}
use expensor.Oauth
use expensor.Oauth.{is_invalid_grant}
use expensor.Oauth.Grants.{is_invalid_grant-single}
use expensor.Scanning.{
  ScanningState, ReasonCode, ScanningStateUpdate, needs_auth, reader_not_configured, backing_off,
  missing_credentials, missing_token, invalid_grant, not_configured, temporary_failure,
}
use expensor.Scheduler.{Settings, retry_delay}
use expensor.Scheduler.Failure.{scan_error, failure_state_update, kind_reader_not_configured, op}

-- What can be wrong with a scan, in the user's terms.
pub data FailureClass : Type 0 where
  no_credentials no_token no_reader withdrawn temporary : FailureClass

unfoldable pub classify : Err → FailureClass
unfolding kind_eq
classify err =
    let k = what_kind err in
    if kind_eq k kind_reader_not_configured
    then no_reader
    else if kind_eq k Oauth.credentials_missing
    then no_credentials
    else if kind_eq k Oauth.token_missing
    then no_token
    else if is_invalid_grant err
    then withdrawn
    else temporary

abbrev waits_for_user : ScanningState → ReasonCode → String → ℕ → ScanningStateUpdate
waits_for_user state reason message now = record {
  state = state;
  reason_code = reason;
  public_message = message;
  last_started_at = none;
  last_stopped_at = none;
  last_failed_at = some now;
  next_retry_at = none;
  retry_count = some 0;
}

-- The update that each class is given.
unfoldable pub update_of : Settings → FailureClass → ℕ → ℕ → ScanningStateUpdate
update_of s no_credentials n now =
    waits_for_user needs_auth missing_credentials "Upload reader credentials to continue scanning."
      now
update_of s no_token n now =
    waits_for_user needs_auth missing_token "Connect your reader account to continue scanning." now
update_of s no_reader n now =
    waits_for_user reader_not_configured not_configured
      "Complete reader setup to continue scanning." now
update_of s withdrawn n now =
    waits_for_user needs_auth invalid_grant "Reconnect your reader account to continue scanning."
      now
update_of s temporary n now = record {
  state = backing_off;
  reason_code = temporary_failure;
  public_message = "Scanning hit a temporary problem. We will retry automatically.";
  last_started_at = none;
  last_stopped_at = none;
  last_failed_at = some now;
  next_retry_at = some (now + retry_delay s (n + 1));
  retry_count = some (n + 1);
}

abbrev grant_message : String
grant_message = "Reconnect your reader account to continue scanning."

abbrev grant_fields : Fields
grant_fields = record no_fields {
  op = op;
  kind = ErrorKind.failed_precondition;
  user_msg = grant_message;
}

grant_args :
    (err : Err)
    → set_args no_fields no_cause
        (text op ∷ kind ErrorKind.failed_precondition ∷ user grant_message ∷ error err ∷ [])
      ≡ (grant_fields, single err)
unfolding set_args
grant_args err = refl

-- No kind that `what_kind` gives a wrapped grant is one of the three that wait for setup.
abbrev IsOther : Kind → Type 0
IsOther k =
    (kind_eq k Oauth.credentials_missing ≡ false)
    × (kind_eq k Oauth.token_missing ≡ false)
    × (kind_eq k kind_reader_not_configured ≡ false)

grant_kind-IsOther :
    (err : Err) → IsOther (what_kind (app (promote grant_fields (single err)) (single err)))
unfolding kind_eq
grant_kind-IsOther err =
    rw (what_kind-own grant_fields err (unfold kind_eq in refl))
      (elim (Bool-cases (is_error canceled err)) [
        | inl c ↦ rw c (refl, refl, refl)
        | inr c ↦ elim (Bool-cases (is_error deadline_exceeded err)) [
          | inl d ↦ rw (c, d) (refl, refl, refl)
          | inr d ↦ rw (c, d) (refl, refl, refl)
        ]
      ])

module _ (s : Settings) (err : Err) (n now : ℕ) where
  abbrev Agree : Type 0
  Agree = failure_state_update s (scan_error err) n now ≡ update_of s (classify err) n now

  reader-Agree : what_kind err ≡ kind_reader_not_configured → Agree
  unfolding failure_state_update scan_error classify update_of
  reader-Agree h =
      let (k, m) = wrap-user op "Complete reader setup to continue scanning." err refl in
      rw h (rw (k, h, m))

  credentials-Agree : what_kind err ≡ Oauth.credentials_missing → Agree
  unfolding failure_state_update scan_error classify update_of
  credentials-Agree h =
      let (k, m) = wrap-user op "Upload reader credentials to continue scanning." err refl in
      rw h (rw (k, h, m))

  token-Agree : what_kind err ≡ Oauth.token_missing → Agree
  unfolding failure_state_update scan_error classify update_of
  token-Agree h =
      let (k, m) = wrap-user op "Connect your reader account to continue scanning." err refl in
      rw h (rw (k, h, m))

  grant-Agree : IsOther (what_kind err) → is_invalid_grant err ≡ true → Agree
  unfolding failure_state_update scan_error classify update_of
  grant-Agree (c, t, r) g =
      let (c', t', r') = grant_kind-IsOther err in
      rw (r, c, t, g)
        (rw (e-eq-app _ grant_fields (single err) (grant_args err))
          (rw (c', t', r', is_invalid_grant-single _ err g, user_msg-own grant_fields err refl)))

  temporary-Agree : IsOther (what_kind err) → is_invalid_grant err ≡ false → Agree
  unfolding failure_state_update scan_error classify update_of
  temporary-Agree (c, t, r) g = rw (r, c, t, g) (rw (c, t, r, g))

-- The update for a failed scan, after the runner has wrapped the scanner's error, is the one of the
-- class of the scanner's own error, for every error, retry count and time.
pub failure_state_update-scan_error :
    (s : Settings) (err : Err) (n now : ℕ)
    → failure_state_update s (scan_error err) n now ≡ update_of s (classify err) n now
failure_state_update-scan_error s err n now =
    elim (Bool-cases (kind_eq (what_kind err) kind_reader_not_configured)) [
      | inl r ↦ reader-Agree s err n now ((kind_eq_iff _ _).0 r)
      | inr r ↦ elim (Bool-cases (kind_eq (what_kind err) Oauth.credentials_missing)) [
        | inl c ↦ credentials-Agree s err n now ((kind_eq_iff _ _).0 c)
        | inr c ↦ elim (Bool-cases (kind_eq (what_kind err) Oauth.token_missing)) [
          | inl t ↦ token-Agree s err n now ((kind_eq_iff _ _).0 t)
          | inr t ↦ elim (Bool-cases (is_invalid_grant err)) [
            | inl g ↦ grant-Agree s err n now (c, t, r) g
            | inr g ↦ temporary-Agree s err n now (c, t, r) g
          ]
        ]
      ]
    ]
