-- ===== src/Auth/Samples.antt =====
-- A database with one account and its session, and the theorems on the handlers of
-- backend/internal/httpapi at it.
use expensor.Prelude.{
  ◌+◌, ◌≤◌, String, true, false, none, some, [], ◌∷◌, is_empty, str_eq, ◌≡◌, ◌≢◌, ◌⊎◌, refl, arith,
}
use expensor.Prelude.Text.{append, trim_space, has_prefix}
use expensor.Prelude.Tables.{exists_where, first_where}
use expensor.Prelude.Counts.{count_where}
use expensor.Errors.{Err}
use expensor.Result.{ok, fail}
use expensor.Scanning.{exec}
use expensor.Auth.{User, Session, AccountSetupToken, AuthDb, Principal, missing, role_admin}
use expensor.Auth.Accounts.{
  create_bootstrap_admin, insert_user, new_user, find_user_by_id, find_user_by_email,
  CreateBootstrapAdminInput,
}
use expensor.Auth.Tokens.{new_opaque_token, create_session, find_session_by_hash, raw_token}
use expensor.Auth.Setup.{
  setup_has_hash, CompleteAccountSetupInput, complete_account_setup, complete_with, set_up,
}
use expensor.Auth.Middleware.{
  HttpRequest, is_public_route, authenticated_user, authenticate_request, authenticate_session,
  auth_middleware, authentication_required, principal_for_user,
}
use expensor.Auth.Sessions.{Env, Answer, session_ttl, login, logout, create_session_cookie}
use expensor.Auth.Admin.{UpdateUserRequest, admin_update_user, admin_delete_user}
use expensor.Auth.Authentic.{is_account_of, by_request, auth_middleware-IsAuthentic}
use expensor.Auth.Signing.{authenticate_session-login, authenticate_session-logout}
use expensor.Auth.Once.{complete_account_setup-once, create_bootstrap_admin-once}
use expensor.Auth.Administrators.{is_administrator, administrator_stays}

abbrev hash_text : String → String
hash_text s = append "h" s

abbrev some_err : Err
some_err = missing "driver"

abbrev env : Env
env = record {
  hash = hash_text;
  hash_password = λ s. ok s;
  verify_password = str_eq;
  lower = λ s. s;
  to_lower = λ s. s;
  random = ok "xyz";
  new_id = "s2";
  new_user_id = "u2";
  violation = some_err;
  no_rows = some_err;
}

abbrev ann : User
ann = record {
  id = "u1";
  tenant_id = "u1";
  email = "ann@x";
  password_hash = "pw";
  display_name = "Ann";
  role = "admin";
  avatar_key = "default";
  disabled_at = none;
  created_at = 1;
  updated_at = 1;
}

abbrev session : Session
session = record {
  id = "s1";
  user_id = "u1";
  token_hash = "hraw";
  created_at = 1;
  expires_at = 50;
  last_used_at = none;
  revoked_at = none;
}

abbrev setup : AccountSetupToken
setup = record {
  id = "k1";
  user_id = "u1";
  token_hash = "hset";
  created_at = 1;
  expires_at = 50;
  used_at = none;
}

abbrev accounts : AuthDb
accounts = record {
  users = ann ∷ [];
  sessions = session ∷ [];
  access_tokens = [];
  setup_tokens = setup ∷ [];
}

abbrev get_rules : HttpRequest
get_rules = record {
  method = "GET";
  path = "/api/rules";
  session_cookie = some "raw";
  authorization = "";
}

abbrev as_ann : Principal
as_ann = principal_for_user ann "session"

auth_middleware-IsAuthentic_example :
    ((is_public_route get_rules ≡ true) × (some as_ann ≡ none))
    ⊎ ((is_public_route get_rules ≡ false)
        × ((p : Principal) × (some as_ann ≡ some p)
            × (exists_where (is_account_of p) accounts.users ≡ true)
            × (by_request str_eq hash_text 9 get_rules accounts p.user_id ≡ true)))
unfolding auth_middleware authenticate_request authenticate_session authenticated_user
    find_session_by_hash find_user_by_id is_public_route has_prefix append exec first_where
auth_middleware-IsAuthentic_example =
    auth_middleware-IsAuthentic str_eq hash_text 9 (λ n. none) get_rules accounts (some as_ann) refl

abbrev answer : Answer
answer = record { account = ann; cookie = "expensor_session_xyz" }

abbrev signed_in : AuthDb
signed_in = record accounts {
  sessions =
      session
      ∷ record {
        id = "s2";
        user_id = "u1";
        token_hash = "hexpensor_session_xyz";
        created_at = 9;
        expires_at = 9 + session_ttl;
        last_used_at = none;
        revoked_at = none;
      }
      ∷ [];
}

authenticate_session-login_example :
    authenticate_session str_eq env.hash (λ n. none) 10 answer.cookie signed_in
    ≡ ok (principal_for_user answer.account "session")
unfolding login find_user_by_email create_session_cookie create_session new_opaque_token raw_token
    append trim_space exec first_where exists_where
authenticate_session-login_example =
    authenticate_session-login str_eq env 9 10 " ann@x" "pw" accounts signed_in answer refl refl
      refl refl

authenticate_session-logout_example :
    authenticate_session str_eq env.hash
      (λ n. none)
      10
      "raw"
      (logout env (λ n. none) 9 (some "raw") accounts).0
    ≡ fail authentication_required
authenticate_session-logout_example =
    authenticate_session-logout str_eq env 9 10 "raw" accounts refl

abbrev new_password : CompleteAccountSetupInput
new_password = record {
  token_hash = "hset";
  password_hash = "pw2";
  display_name = "Ann";
  avatar_key = "default";
}

one_setup : count_where (setup_has_hash "hset") accounts.setup_tokens ≤ 1
unfolding count_where
one_setup = ground arith

complete_account_setup-once_example :
    ((r : AuthDb × User)
      → complete_account_setup some_err
          (λ n. some some_err)
          10
          new_password
          (complete_with 9 new_password setup accounts)
        ≢ ok r)
    × (complete_account_setup some_err
          (λ n. none)
          10
          new_password
          (complete_with 9 new_password setup accounts)
        ≡ fail (missing "store.auth.complete_account_setup"))
unfolding complete_account_setup exec first_where
complete_account_setup-once_example =
    complete_account_setup-once some_err (λ n. none) (λ n. some some_err) 9 10 new_password
      new_password accounts (complete_with 9 new_password setup accounts)
      (set_up 9 new_password ann) one_setup refl refl

abbrev no_accounts : AuthDb
no_accounts = record { users = []; sessions = []; access_tokens = []; setup_tokens = [] }

abbrev first_admin : CreateBootstrapAdminInput
first_admin = record {
  email = "ann@x";
  display_name = "Ann";
  password_hash = "pw";
  avatar_key = "";
}

abbrev first_user : User
first_user = record ann { created_at = 9; updated_at = 9 }

create_bootstrap_admin-once_example :
    (is_empty no_accounts.users ≡ true)
    × ((record no_accounts { users = first_user ∷ [] }).users ≡ first_user ∷ [])
    × (first_user.role ≡ role_admin)
    × ((r : AuthDb × User)
        → create_bootstrap_admin
            (λ s. s)
            (λ s. s)
            some_err
            (λ n. none)
            "u2"
            10
            first_admin
            (record no_accounts { users = first_user ∷ [] })
          ≢ ok r)
unfolding create_bootstrap_admin insert_user new_user exec exists_where trim_space
create_bootstrap_admin-once_example =
    create_bootstrap_admin-once (λ s. s) (λ s. s) some_err (λ n. none) (λ n. none) "u1" "u2" 9 10
      first_admin first_admin no_accounts (record no_accounts { users = first_user ∷ [] })
      first_user refl

abbrev demote : UpdateUserRequest
demote = record { display_name = none; role = some "user"; avatar_key = none; disabled = some true }

administrator_stays_example :
    (exists_where
        (is_administrator "u1")
        (admin_update_user (λ n. none) 9 as_ann "u1" demote accounts).0.users
      ≡ true)
    × (exists_where
          (is_administrator "u1")
          (admin_delete_user (λ n. none) as_ann "u1" accounts).0.users
        ≡ true)
unfolding exists_where
administrator_stays_example = administrator_stays (λ n. none) 9 as_ann "u1" demote accounts refl
