-- ===== src/Oauth.antt =====
-- backend/internal/oauth/oauth.go: the kinds of a missing credential or token, and the test for a
-- grant that the provider has withdrawn.
pub mod Grants
use expensor.Prelude.{String, Bool, true, false, ◌||◌, Option, none, some, str_eq}
use expensor.Prelude.Text.{contains_text}
use expensor.ErrorKind.{Kind}
use expensor.Errors.{Err, as_foreign}
use expensor.Errors.Text.{error_text}

abbrev pub credentials_missing : Kind
credentials_missing = record { code = "oauth_credentials_missing"; status = 412 }

abbrev pub token_missing : Kind
token_missing = record { code = "oauth_token_missing"; status = 412 }

unfoldable pub is_grant_code : Option String → Bool
is_grant_code none = false
is_grant_code (some c) = str_eq c "invalid_grant"

-- `IsInvalidGrant`: by the code of the first `*oauth2.RetrieveError`, or by the text.
unfoldable pub is_invalid_grant : Err → Bool
unfolding is_grant_code
is_invalid_grant err =
    is_grant_code (as_foreign (λ f. f.oauth_code) err)
    || contains_text (error_text err) "invalid_grant"
