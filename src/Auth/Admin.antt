-- ===== src/Auth/Admin.antt =====
-- The handlers of backend/internal/httpapi/handlers_auth.go for an account that is signed in: its
-- profile, its password and its access tokens, and the users that an administrator manages. Their
-- bodies are decoded and validated.
use expensor.Prelude.{
  ℕ, ◌+◌, String, Bool, true, false, ◌&&◌, ◌||◌, Option, none, some, List, [], ◌∷◌, ◌++◌, contains,
  str_eq, if◌then◌else◌,
}
use expensor.Prelude.Text.{is_blank, trim_space}
use expensor.ErrorKind
use expensor.ErrorKind.{kind_eq}
use expensor.Errors.{Err}
use expensor.Errors.Build.{e, kind, user}
use expensor.Errors.Classify.{what_kind}
use expensor.Result.{Result, ok, fail, ◌>>=◌}
use expensor.Auth.{
  User, AuthDb, Faults, Principal, role_admin, role_user, unauthenticated, permission_denied,
}
use expensor.Auth.Accounts.{
  CreateUserInput, UpdateUserInput, create_user, update_user, update_user_password, delete_user,
  find_user_by_id,
}
use expensor.Auth.Tokens.{new_opaque_token, create_access_token, revoke_access_token}
use expensor.Auth.Setup.{create_account_setup_token}
use expensor.Auth.Middleware.{authentication_required}
use expensor.Auth.Sessions.{Env, is_not_found, setup_token_ttl}

-- `requireAdmin`, for a request with a principal.
abbrev pub require_admin : Principal → Result Principal
require_admin p =
    if str_eq p.role role_admin then ok p else fail (permission_denied "admin role required")

-- The fields that a validation error names.
pub data Field : Type 0 where
  display_name_field avatar_key_field role_field : Field

abbrev pub avatar_keys : List String
avatar_keys = "default" ∷ "ledger" ∷ "wallet" ∷ []

-- `ValidAvatarKey`.
unfoldable pub valid_avatar_key : String → Bool
unfolding trim_space contains
valid_avatar_key key = contains (trim_space key) avatar_keys

abbrev pub trimmed : Option String → Option String
trimmed none = none
trimmed (some s) = some (trim_space s)

abbrev pub name_errors : Option String → List Field
name_errors none = []
name_errors (some s) = if is_blank (trim_space s) then display_name_field ∷ [] else []

abbrev pub avatar_errors : Option String → List Field
avatar_errors none = []
avatar_errors (some s) = if valid_avatar_key (trim_space s) then [] else avatar_key_field ∷ []

abbrev pub role_errors : Option String → List Field
role_errors none = []
role_errors (some s) =
    if str_eq (trim_space s) role_admin || str_eq (trim_space s) role_user
    then []
    else role_field ∷ []

-- A body of UpdateUser; UpdateProfile has the first and the third field.
pub record UpdateUserRequest : Type 0 where
  pub display_name : Option String
  pub role : Option String
  pub avatar_key : Option String
  pub disabled : Option Bool

-- `updateUserInputFromAdmin` with `applyProfileUserUpdates`: the fields with errors, and the input if
-- there are none. `updateUserInputFromProfile` is the case of a body without role and `disabled`.
unfoldable pub update_user_errors : UpdateUserRequest → List Field
unfolding trim_space valid_avatar_key
update_user_errors r =
    name_errors r.display_name ++ avatar_errors r.avatar_key ++ role_errors r.role

unfoldable pub update_user_input : UpdateUserRequest → UpdateUserInput
unfolding trim_space
update_user_input r = record {
  display_name = trimmed r.display_name;
  role = trimmed r.role;
  avatar_key = trimmed r.avatar_key;
  disabled = r.disabled;
}

-- What a handler answers with: its value, the fields of a body that is refused, or an error.
pub data Reply (A : Type 0) : Type 0 where
  done : A → Reply A
  invalid : List Field → Reply A
  refused : Err → Reply A

abbrev pub asks_to_disable : Option Bool → Bool
asks_to_disable none = false
asks_to_disable (some b) = b

abbrev pub has_value : Option String → Bool
has_value none = false
has_value (some s) = true

-- The guards of UpdateUser against an administrator's changes to the own account.
abbrev pub guard_own : String → Principal → UpdateUserInput → Result Bool
guard_own id p input =
    if has_value input.role && str_eq id p.user_id
    then fail (permission_denied "cannot change your own role")
    else if asks_to_disable input.disabled && str_eq id p.user_id
    then fail (permission_denied "cannot disable your own account")
    else ok true

abbrev pub replied : {A : Type 0} → AuthDb → Result (AuthDb × A) → AuthDb × Reply A
replied db (ok (db', a)) = (db', done a)
replied db (fail err) = (db, refused err)

abbrev pub updated_by :
    Option Err → ℕ → String → UpdateUserInput → AuthDb → Result Bool → AuthDb × Reply User
updated_by fault now id input db (fail err) = (db, refused err)
updated_by fault now id input db (ok b) = replied db (update_user fault now id input db)

abbrev pub if_admin : {A : Type 0} → AuthDb → Result Principal → AuthDb × Reply A → AuthDb × Reply A
if_admin db (fail err) reply = (db, refused err)
if_admin db (ok p) reply = reply

abbrev pub if_valid : {A : Type 0} → AuthDb → List Field → AuthDb × Reply A → AuthDb × Reply A
if_valid db [] reply = reply
if_valid db (f ∷ fields) reply = (db, invalid (f ∷ fields))

-- `UpdateUser`.
unfoldable pub admin_update_user :
    Faults → ℕ → Principal → String → UpdateUserRequest → AuthDb → AuthDb × Reply User
unfolding update_user update_user_errors update_user_input
admin_update_user faults now p id r db = if_admin db (require_admin p) (
    if_valid db (update_user_errors r) (
      updated_by (faults 0) now id (update_user_input r) db (guard_own id p (update_user_input r))))

-- The database after a call that returns only an error.
abbrev pub settled : AuthDb → Result AuthDb → AuthDb × Reply Bool
settled db (ok db') = (db', done true)
settled db (fail err) = (db, refused err)

-- `DeleteUser`.
unfoldable pub admin_delete_user : Faults → Principal → String → AuthDb → AuthDb × Reply Bool
unfolding delete_user
admin_delete_user faults p id db = if_admin db (require_admin p) (
    if str_eq id p.user_id
    then (db, refused (permission_denied "cannot delete your own account"))
    else settled db (delete_user (faults 0) id db))

-- `UpdateProfile`.
abbrev pub profile_request : Option String → Option String → UpdateUserRequest
profile_request display_name avatar_key = record {
  display_name = display_name;
  role = none;
  avatar_key = avatar_key;
  disabled = none;
}

abbrev or_signed_out : {A : Type 0} → Result A → Result A
or_signed_out (ok a) = ok a
or_signed_out (fail err) = if is_not_found err then fail authentication_required else fail err

unfoldable pub update_profile :
    Faults → ℕ → Principal → Option String → Option String → AuthDb → AuthDb × Reply User
unfolding update_user update_user_errors update_user_input kind_eq what_kind
update_profile faults now p display_name avatar_key db =
    if_valid db (update_user_errors (profile_request display_name avatar_key)) (
      replied db (
        or_signed_out (
          update_user (faults 0) now p.user_id
            (update_user_input (profile_request display_name avatar_key)) db)))

module _ (env : Env) where
  -- `currentUser`.
  unfoldable pub current_user : Option Err → Principal → AuthDb → Result User
  unfolding find_user_by_id kind_eq what_kind
  current_user fault p db = or_signed_out (find_user_by_id fault p.user_id db)

  abbrev wrong_password : Err
  wrong_password = unauthenticated "current password is incorrect"

  -- `UpdatePassword`.
  unfoldable pub update_password :
      Faults → ℕ → Principal → String → String → AuthDb → AuthDb × Reply Bool
  unfolding current_user update_user_password kind_eq what_kind
  update_password faults now p current new db = settled db (do
    u ← current_user (faults 0) p db
    checked ← if env.verify_password u.password_hash current then ok u else fail wrong_password
    hashed ← env.hash_password new
    or_signed_out (update_user_password (faults 1) now checked.id hashed db))

  -- `CreateAccessToken`, which answers with the raw token.
  unfoldable pub create_token : Faults → ℕ → Principal → String → AuthDb → AuthDb × Reply String
  unfolding new_opaque_token create_access_token trim_space
  create_token faults now p name db = replied db (do
    token ← new_opaque_token env.hash env.random "expensor_pat"
    db' ←
        create_access_token env.violation (faults 0) env.new_id now p.user_id (trim_space name)
          token.1 none db
    ok (db', token.0))

  -- `CreateUser`.
  abbrev user_input : String → String → CreateUserInput
  user_input email role = record {
    email = env.to_lower (trim_space email);
    display_name = "";
    role = if is_blank role then role_user else role;
    avatar_key = "default";
    password_hash = "";
  }

  unfoldable pub admin_create_user :
      Faults → ℕ → Principal → String → String → AuthDb → AuthDb × Reply User
  unfolding create_user trim_space
  admin_create_user faults now p email role db = if_admin db (require_admin p) (
      replied db (
        create_user env.lower env.to_lower env.violation faults env.new_user_id now
          (user_input email role) db))

  -- `CreateSetupToken`, which answers with the raw token.
  unfoldable pub create_setup_token :
      Faults → ℕ → Principal → String → AuthDb → AuthDb × Reply String
  unfolding find_user_by_id new_opaque_token create_account_setup_token trim_space
  create_setup_token faults now p id db = if_admin db (require_admin p) (
      replied db (do
        u ← find_user_by_id (faults 0) id db
        pending ←
            if is_blank (trim_space u.password_hash)
            then ok u
            else fail (e (kind ErrorKind.conflict ∷ user "account already set up" ∷ []))
        token ← new_opaque_token env.hash env.random "expensor_setup"
        db' ←
            create_account_setup_token (faults 1) env.new_id now id token.1 (now + setup_token_ttl)
              db
        ok (db', token.0)))

-- `RevokeAccessToken`.
unfoldable pub revoke_token : Faults → ℕ → Principal → String → AuthDb → AuthDb × Reply Bool
unfolding revoke_access_token
revoke_token faults now p id db = settled db (revoke_access_token (faults 0) now id p.user_id db)
