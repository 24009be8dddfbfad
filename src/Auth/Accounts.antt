-- ===== src/Auth/Accounts.antt =====
-- The users of backend/internal/store/postgres/auth_repository.go.
use expensor.Prelude.{
  ℕ, String, Bool, true, false, Option, none, some, [], ◌∷◌, ◌++◌, is_empty, str_eq, if◌then◌else◌,
}
use expensor.Prelude.Tables.{change_where, delete_where, exists_where, first_where}
use expensor.Prelude.Text.{is_blank, trim_space, append}
use expensor.ErrorKind
use expensor.Errors.{Err}
use expensor.Errors.Build.{e, kind, user, text, error}
use expensor.Result.{Result, ok, fail, ◌>>=◌}
use expensor.Scanning.{exec, coalesce_or}
use expensor.Auth.{
  User, role_admin, role_user, Session, AccessToken, AccountSetupToken, AuthDb, Faults,
  user_missing, require_row,
}

pub record CreateUserInput : Type 0 where
  pub email : String
  pub display_name : String
  pub role : String
  pub avatar_key : String
  pub password_hash : String

pub record CreateBootstrapAdminInput : Type 0 where
  pub email : String
  pub display_name : String
  pub password_hash : String
  pub avatar_key : String

pub record UpdateUserInput : Type 0 where
  pub display_name : Option String
  pub role : Option String
  pub avatar_key : Option String
  pub disabled : Option Bool

abbrev pub has_id : String → User → Bool
has_id id u = str_eq u.id id

-- `BootstrapRequired`.
unfoldable pub bootstrap_required : Faults → AuthDb → Result Bool
unfolding exec
bootstrap_required faults db =
    exec (faults 0) "postgres.auth.bootstrap_required" "checking bootstrap status"
      (is_empty db.users)

abbrev default_if_blank : String → String → String
default_if_blank default s = if is_blank s then default else s

-- `lower` is the database's lower(), and `quiet` is strings.ToLower.
module _ (lower quiet : String → String) where
  -- The row of `insertUser`; `id` and `now` are what the database sets.
  unfoldable pub new_user : String → ℕ → CreateUserInput → User
  unfolding trim_space
  new_user id now input = record {
    id = id;
    tenant_id = id;
    email = lower input.email;
    password_hash = input.password_hash;
    display_name = input.display_name;
    role = default_if_blank role_user input.role;
    avatar_key = default_if_blank "default" (trim_space input.avatar_key);
    disabled_at = none;
    created_at = now;
    updated_at = now;
  }

  -- The conflict of `insertUser`, by the error of the driver.
  abbrev pub user_conflict : Err → String → Err
  user_conflict violation email = e (
      text "store.auth.create_user"
      ∷ kind ErrorKind.conflict
      ∷ user (append "User " (append (quiet (trim_space email)) " already exists."))
      ∷ text "user email conflict"
      ∷ error violation
      ∷ [])

  abbrev pub has_email : String → User → Bool
  has_email email u = str_eq u.email (lower email)

  -- `insertUser`: the table holds an email once.
  unfoldable pub insert_user :
      Err → Option Err → String → ℕ → CreateUserInput → AuthDb → Result (AuthDb × User)
  unfolding exec exists_where new_user append trim_space
  insert_user violation fault id now input db =
      if exists_where (has_email input.email) db.users
      then fail (user_conflict violation input.email)
      else exec fault "postgres.auth.insert_user" "creating user"
          (record db { users = db.users ++ new_user id now input ∷ [] }, new_user id now input)

  abbrev bootstrap_unavailable : Err
  bootstrap_unavailable = e (
      text "store.auth.create_bootstrap_admin"
      ∷ kind ErrorKind.conflict
      ∷ user "bootstrap unavailable"
      ∷ [])

  abbrev pub admin_input : CreateBootstrapAdminInput → CreateUserInput
  admin_input input = record {
    email = input.email;
    display_name = input.display_name;
    role = role_admin;
    avatar_key = input.avatar_key;
    password_hash = input.password_hash;
  }

  -- `CreateBootstrapAdmin`.
  unfoldable pub create_bootstrap_admin :
      Err → Faults → String → ℕ → CreateBootstrapAdminInput → AuthDb → Result (AuthDb × User)
  unfolding exec insert_user
  create_bootstrap_admin violation faults id now input db = do
    begun ←
        exec (faults 0) "postgres.auth.create_bootstrap_admin"
          "beginning bootstrap admin transaction" db
    counted ←
        exec (faults 1) "postgres.auth.create_bootstrap_admin" "counting users for bootstrap" begun
    open_db ← if is_empty counted.users then ok counted else fail bootstrap_unavailable
    inserted ← insert_user violation (faults 2) id now (admin_input input) open_db
    exec (faults 3) "postgres.auth.create_bootstrap_admin" "committing bootstrap admin transaction"
        inserted

  -- `CreateUser`.
  unfoldable pub create_user :
      Err → Faults → String → ℕ → CreateUserInput → AuthDb → Result (AuthDb × User)
  unfolding exec insert_user
  create_user violation faults id now input db = do
    begun ← exec (faults 0) "postgres.auth.create_user" "beginning create user transaction" db
    inserted ← insert_user violation (faults 1) id now input begun
    exec (faults 2) "postgres.auth.create_user" "committing create user transaction" inserted

-- `FindUserByEmail`; `lower` is the database's lower().
unfoldable pub find_user_by_email : (String → String) → Option Err → String → AuthDb → Result User
unfolding exec first_where
find_user_by_email lower fault email db = do
  row ←
      exec fault "postgres.auth.find_user_by_email" "finding user by email"
        (first_where (λ (u : User). str_eq (lower u.email) (lower email)) db.users)
  require_row (user_missing "store.auth.find_user_by_email") row

-- `FindUserByID`.
unfoldable pub find_user_by_id : Option Err → String → AuthDb → Result User
unfolding exec first_where
find_user_by_id fault id db = do
  row ←
      exec fault "postgres.auth.find_user_by_id" "finding user by id"
        (first_where (has_id id) db.users)
  require_row (user_missing "store.auth.find_user_by_id") row

-- `disabled_at` after an update.
abbrev pub disabled_after : ℕ → Option Bool → Option ℕ → Option ℕ
disabled_after now none old = old
disabled_after now (some true) none = some now
disabled_after now (some true) (some t) = some t
disabled_after now (some false) old = none

abbrev pub updated : ℕ → UpdateUserInput → User → User
updated now input u = record u {
  display_name = coalesce_or input.display_name u.display_name;
  role = coalesce_or input.role u.role;
  avatar_key = coalesce_or input.avatar_key u.avatar_key;
  disabled_at = disabled_after now input.disabled u.disabled_at;
  updated_at = now;
}

-- `UpdateUser`.
unfoldable pub update_user :
    Option Err → ℕ → String → UpdateUserInput → AuthDb → Result (AuthDb × User)
unfolding exec change_where first_where
update_user fault now id input db = do
  row ← exec fault "postgres.auth.update_user" "updating user" (first_where (has_id id) db.users)
  u ← require_row (user_missing "store.auth.update_user") row
  ok (
    record db { users = change_where (has_id id) (updated now input) db.users },
    updated now input u,
  )

abbrev pub with_password : ℕ → String → User → User
with_password now hash u = record u { password_hash = hash; updated_at = now }

-- `UpdateUserPassword`.
unfoldable pub update_user_password : Option Err → ℕ → String → String → AuthDb → Result AuthDb
unfolding exec change_where exists_where
update_user_password fault now id hash db = do
  db' ←
      exec fault "postgres.auth.update_user_password" "updating user password"
        (record db { users = change_where (has_id id) (with_password now hash) db.users })
  if exists_where (has_id id) db.users
      then ok db'
      else fail (user_missing "store.auth.update_user_password")

-- The user's row and, by ON DELETE CASCADE, those of its sessions and tokens.
unfoldable pub without_user : String → AuthDb → AuthDb
unfolding delete_where
without_user id db = record {
  users = delete_where (has_id id) db.users;
  sessions = delete_where (λ (s : Session). str_eq s.user_id id) db.sessions;
  access_tokens = delete_where (λ (t : AccessToken). str_eq t.user_id id) db.access_tokens;
  setup_tokens = delete_where (λ (t : AccountSetupToken). str_eq t.user_id id) db.setup_tokens;
}

-- `DeleteUser`.
unfoldable pub delete_user : Option Err → String → AuthDb → Result AuthDb
unfolding exec exists_where without_user
delete_user fault id db = do
  db' ← exec fault "postgres.auth.delete_user" "deleting user" (without_user id db)
  if exists_where (has_id id) db.users then ok db' else fail (user_missing "store.auth.delete_user")
