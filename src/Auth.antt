-- ===== src/Auth.antt =====
-- Accounts, sessions and tokens: backend/internal/auth, the auth repository of
-- backend/internal/store/postgres/auth_repository.go and the handlers of
-- backend/internal/httpapi/auth_middleware.go and handlers_auth.go. The records are those of
-- backend/internal/store/models.go, and the tables those of the migrations, with their keys and cascades.
pub mod Accounts
pub mod Tokens
pub mod Setup
pub mod Middleware
pub mod Sessions
pub mod Admin
pub mod Authentic
pub mod Signing
pub mod Once
pub mod Administrators
mod Samples
use expensor.Prelude.{ℕ, String, Bool, true, false, Option, none, some, List, [], ◌∷◌, str_eq, ltb}
use expensor.ErrorKind
use expensor.Errors.{Err}
use expensor.Errors.Build.{e, kind, user, text}
use expensor.Result.{Result, ok, fail}

pub record User : Type 0 where
  pub id : String
  pub tenant_id : String
  pub email : String
  pub password_hash : String
  pub display_name : String
  pub role : String
  pub avatar_key : String
  pub disabled_at : Option ℕ
  pub created_at : ℕ
  pub updated_at : ℕ

abbrev pub role_admin : String
role_admin = "admin"

abbrev pub role_user : String
role_user = "user"

pub record Session : Type 0 where
  pub id : String
  pub user_id : String
  pub token_hash : String
  pub created_at : ℕ
  pub expires_at : ℕ
  pub last_used_at : Option ℕ
  pub revoked_at : Option ℕ

pub record AccessToken : Type 0 where
  pub id : String
  pub user_id : String
  pub name : String
  pub token_hash : String
  pub created_at : ℕ
  pub expires_at : Option ℕ
  pub last_used_at : Option ℕ
  pub revoked_at : Option ℕ

pub record AccountSetupToken : Type 0 where
  pub id : String
  pub user_id : String
  pub token_hash : String
  pub created_at : ℕ
  pub expires_at : ℕ
  pub used_at : Option ℕ

pub record AuthDb : Type 0 where
  pub users : List User
  pub sessions : List Session
  pub access_tokens : List AccessToken
  pub setup_tokens : List AccountSetupToken

-- The error of each call that a handler makes to the database, in order from 0.
abbrev pub Faults : Type 0
Faults = ℕ → Option Err

-- Who a request comes from.
pub record Principal : Type 0 where
  pub user_id : String
  pub tenant_id : String
  pub role : String
  pub auth_method : String

abbrev pub missing : String → Err
missing op = e (text op ∷ kind ErrorKind.not_found ∷ [])

abbrev pub user_missing : String → Err
user_missing op = e (text op ∷ kind ErrorKind.not_found ∷ user "user not found" ∷ [])

-- The error of a request that no one stands behind, by the message for its user.
abbrev pub unauthenticated : String → Err
unauthenticated message = e (kind ErrorKind.unauthenticated ∷ user message ∷ [])

abbrev pub permission_denied : String → Err
permission_denied message = e (kind ErrorKind.permission_denied ∷ user message ∷ [])

-- `pgx.ErrNoRows`: no row is the given error.
abbrev pub require_row {ℓ} : {A : Type ℓ} → Err → Option A → Result A
require_row err none = fail err
require_row err (some a) = ok a

abbrev pub is_set {ℓ} : {A : Type ℓ} → Option A → Bool
is_set none = false
is_set (some a) = true
