-- ===== src/Auth/Sessions.antt =====
-- The handlers of backend/internal/httpapi/handlers_auth.go that need no account: Bootstrap, Login,
-- Logout, GetAccountSetup and CompleteAccountSetup. Their bodies are decoded and validated. A handler
-- gives the tables that it leaves, and what it answers: an error, or the principal and the value of the
-- session cookie.
use expensor.Prelude.{ℕ, ◌+◌, ◌*◌, ltb, String, Bool, true, not, ◌||◌, Option, if◌then◌else◌}
use expensor.Prelude.Text.{is_blank, trim_space}
use expensor.ErrorKind
use expensor.ErrorKind.{Kind, kind_eq}
use expensor.Errors.{Err}
use expensor.Errors.Classify.{what_kind}
use expensor.Result.{Result, ok, fail, ◌>>=◌}
use expensor.Auth.{User, Session, AuthDb, Faults, unauthenticated, is_set}
use expensor.Auth.Accounts.{
  CreateBootstrapAdminInput, create_bootstrap_admin, find_user_by_email, find_user_by_id,
}
use expensor.Auth.Tokens.{new_opaque_token, create_session, find_session_by_hash, revoke_session}
use expensor.Auth.Setup.{
  CompleteAccountSetupInput, complete_account_setup, find_account_setup_token_by_hash,
}
use expensor.Auth.Middleware.{cookie_value}

-- What the handlers use of bcrypt, SHA-256, the random source, Postgres and `strings`: the random text
-- and the id that the next new session gets, among others.
pub record Env : Type 0 where
  pub hash : String → String
  pub hash_password : String → Result String
  pub verify_password : String → String → Bool
  pub lower : String → String
  pub to_lower : String → String
  pub random : Result String
  pub new_id : String
  pub new_user_id : String
  pub violation : Err
  pub no_rows : Err

-- In nanoseconds.
abbrev pub session_ttl : ℕ
session_ttl = 30 * 24 * 3600000000000

abbrev pub setup_token_ttl : ℕ
setup_token_ttl = 24 * 3600000000000

pub record Answer : Type 0 where
  pub account : User
  pub cookie : String

abbrev pub Handled : Type 0
Handled = AuthDb × Result Answer

abbrev pub is_not_found : Err → Bool
is_not_found err = kind_eq (what_kind err) ErrorKind.not_found

module _ (env : Env) where
  abbrev answered : AuthDb → User → String → Result AuthDb → Handled
  answered db u raw (ok db') = (db', ok (record { account = u; cookie = raw }))
  answered db u raw (fail err) = (db, fail err)

  abbrev with_cookie : Option Err → ℕ → User → AuthDb → Result (String × String) → Handled
  with_cookie fault now u db (fail err) = (db, fail err)
  with_cookie fault now u db (ok (raw, hashed)) =
      answered db u raw (create_session fault env.new_id now u.id hashed (now + session_ttl) db)

  -- `createSessionCookie`, and what its callers answer with.
  unfoldable pub create_session_cookie : Option Err → ℕ → User → AuthDb → Handled
  unfolding create_session new_opaque_token
  create_session_cookie fault now u db =
      with_cookie fault now u db (new_opaque_token env.hash env.random "expensor_session")

  abbrev pub invalid_login : Err
  invalid_login = unauthenticated "invalid email or password"

  abbrev with_password_of : Faults → ℕ → String → AuthDb → Result User → Handled
  with_password_of faults now password db (fail err) = (db, fail invalid_login)
  with_password_of faults now password db (ok u) =
      if is_set u.disabled_at || not (env.verify_password u.password_hash password)
      then (db, fail invalid_login)
      else create_session_cookie (faults 1) now u db

  -- `Login`.
  unfoldable pub login : Faults → ℕ → String → String → AuthDb → Handled
  unfolding create_session_cookie find_user_by_email trim_space
  login faults now email password db =
      with_password_of faults now password db
        (find_user_by_email env.lower (faults 0) (env.to_lower (trim_space email)) db)

  abbrev avatar_or_default : String → String
  avatar_or_default key = if is_blank key then "default" else key

  -- `normalizeAvatarKey`.
  unfoldable pub normalize_avatar_key : String → String
  unfolding trim_space
  normalize_avatar_key key = avatar_or_default (trim_space key)

  abbrev signed_in : Option Err → ℕ → AuthDb → Result (AuthDb × User) → Handled
  signed_in fault now db (fail err) = (db, fail err)
  signed_in fault now db (ok (db', u)) = create_session_cookie fault now u db'

  abbrev bootstrap_input : String → String → String → String → CreateBootstrapAdminInput
  bootstrap_input email hashed display_name avatar_key = record {
    email = env.to_lower (trim_space email);
    display_name = trim_space display_name;
    password_hash = hashed;
    avatar_key = normalize_avatar_key avatar_key;
  }

  abbrev bootstrapped : Faults → ℕ → String → String → String → AuthDb → Result String → Handled
  bootstrapped faults now email display_name avatar_key db (fail err) = (db, fail err)
  bootstrapped faults now email display_name avatar_key db (ok hashed) =
      signed_in (faults 4) now db (
        create_bootstrap_admin env.lower env.to_lower env.violation faults env.new_user_id now
          (bootstrap_input email hashed display_name avatar_key) db)

  -- `Bootstrap`: an account that was created stays even if its session cannot be.
  unfoldable pub bootstrap : Faults → ℕ → String → String → String → String → AuthDb → Handled
  unfolding create_session_cookie create_bootstrap_admin normalize_avatar_key trim_space
  bootstrap faults now email password display_name avatar_key db =
      bootstrapped faults now email display_name avatar_key db (env.hash_password password)

  -- The tables after `Logout` has looked for the cookie's session; an error of the search is passed over.
  abbrev revoke_found : Faults → ℕ → AuthDb → Result Session → Result AuthDb
  revoke_found faults now db (fail err) = ok db
  revoke_found faults now db (ok s) = revoke_session (faults 1) now s.id db

  abbrev unless_not_found : AuthDb → Result AuthDb → AuthDb × Result Bool
  unless_not_found db (ok db') = (db', ok true)
  unless_not_found db (fail err) = if is_not_found err then (db, ok true) else (db, fail err)

  -- `Logout`, which answers by clearing the cookie.
  unfoldable pub logout : Faults → ℕ → Option String → AuthDb → AuthDb × Result Bool
  unfolding find_session_by_hash revoke_session kind_eq what_kind
  logout faults now cookie db =
      if is_blank (cookie_value cookie)
      then (db, ok true)
      else unless_not_found db (
          revoke_found faults now db
            (find_session_by_hash (faults 0) (env.hash (cookie_value cookie)) db))

  abbrev pub invalid_setup : Err
  invalid_setup = unauthenticated "invalid or expired setup token"

  abbrev or_invalid_setup {ℓ} : {A : Type ℓ} → Result A → Result A
  or_invalid_setup (ok a) = ok a
  or_invalid_setup (fail err) = if is_not_found err then fail invalid_setup else fail err

  -- `accountSetupUserFromToken`.
  unfoldable pub account_setup_user_from_token : Faults → ℕ → String → AuthDb → Result User
  unfolding find_account_setup_token_by_hash find_user_by_id trim_space kind_eq what_kind
  account_setup_user_from_token faults now token db =
      if is_blank (trim_space token) then fail invalid_setup else do
        t ←
            or_invalid_setup
              (find_account_setup_token_by_hash (faults 0) (env.hash (trim_space token)) db)
        live ← if is_set t.used_at || not (ltb now t.expires_at) then fail invalid_setup else ok t
        u ← or_invalid_setup (find_user_by_id (faults 1) live.user_id db)
        if not (is_blank (trim_space u.password_hash)) then fail invalid_setup else ok u

  abbrev setup_input : String → String → String → String → CompleteAccountSetupInput
  setup_input token hashed display_name avatar_key = record {
    token_hash = env.hash (trim_space token);
    password_hash = hashed;
    display_name = trim_space display_name;
    avatar_key = normalize_avatar_key avatar_key;
  }

  abbrev completed : Faults → ℕ → String → String → String → AuthDb → Result String → Handled
  completed faults now token display_name avatar_key db (fail err) = (db, fail err)
  completed faults now token display_name avatar_key db (ok hashed) = signed_in (faults 5) now db (
      or_invalid_setup (
        complete_account_setup env.no_rows faults now
          (setup_input token hashed display_name avatar_key) db))

  -- `CompleteAccountSetup`.
  unfoldable pub complete_setup : Faults → ℕ → String → String → String → String → AuthDb → Handled
  unfolding create_session_cookie complete_account_setup normalize_avatar_key trim_space kind_eq
      what_kind
  complete_setup faults now token password display_name avatar_key db =
      completed faults now token display_name avatar_key db (env.hash_password password)
