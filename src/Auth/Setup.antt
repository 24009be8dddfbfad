-- ===== src/Auth/Setup.antt =====
-- The setup tokens of backend/internal/store/postgres/auth_repository.go.
use expensor.Prelude.{
  ℕ, ltb, String, Bool, not, ◌&&◌, Option, none, some, [], ◌∷◌, ◌++◌, str_eq, if◌then◌else◌,
}
use expensor.Prelude.Tables.{change_where, exists_where, first_where}
use expensor.Errors.{Err}
use expensor.Errors.Build.{e, text, error}
use expensor.Result.{Result, ok, fail, ◌>>=◌}
use expensor.Scanning.{exec}
use expensor.Auth.{User, AccountSetupToken, AuthDb, Faults, missing, require_row, is_set}
use expensor.Auth.Accounts.{has_id}

abbrev pub new_setup_token : String → ℕ → String → String → ℕ → AccountSetupToken
new_setup_token id now user_id hash expires_at = record {
  id = id;
  user_id = user_id;
  token_hash = hash;
  created_at = now;
  expires_at = expires_at;
  used_at = none;
}

-- `CreateAccountSetupToken`.
unfoldable pub create_account_setup_token :
    Option Err → String → ℕ → String → String → ℕ → AuthDb → Result AuthDb
unfolding exec
create_account_setup_token fault id now user_id hash expires_at db =
    exec fault "postgres.auth.create_account_setup_token" "creating account setup token"
      (record db {
        setup_tokens = db.setup_tokens ++ new_setup_token id now user_id hash expires_at ∷ [];
      })

abbrev pub setup_has_hash : String → AccountSetupToken → Bool
setup_has_hash hash t = str_eq t.token_hash hash

-- `FindAccountSetupTokenByHash`.
unfoldable pub find_account_setup_token_by_hash :
    Option Err → String → AuthDb → Result AccountSetupToken
unfolding exec first_where
find_account_setup_token_by_hash fault hash db = do
  row ←
      exec fault "postgres.auth.find_account_setup_token_by_hash"
        "finding account setup token by hash" (first_where (setup_has_hash hash) db.setup_tokens)
  require_row (missing "store.auth.find_account_setup_token_by_hash") row

abbrev pub is_setup : String → AccountSetupToken → Bool
is_setup id t = str_eq t.id id

abbrev pub used : ℕ → AccountSetupToken → AccountSetupToken
used now t = record t { used_at = some now }

-- `MarkAccountSetupTokenUsed`.
unfoldable pub mark_account_setup_token_used : Option Err → ℕ → String → AuthDb → Result AuthDb
unfolding exec change_where exists_where
mark_account_setup_token_used fault now id db = do
  db' ←
      exec fault "postgres.auth.mark_account_setup_token_used" "marking account setup token used"
        (record db { setup_tokens = change_where (is_setup id) (used now) db.setup_tokens })
  if exists_where (is_setup id) db.setup_tokens
      then ok db'
      else fail (missing "store.auth.mark_account_setup_token_used")

pub record CompleteAccountSetupInput : Type 0 where
  pub token_hash : String
  pub password_hash : String
  pub display_name : String
  pub avatar_key : String

-- `token_hash = ... AND used_at IS NULL AND expires_at > NOW()`
abbrev pub is_active : ℕ → String → AccountSetupToken → Bool
is_active now hash t = setup_has_hash hash t && not (is_set t.used_at) && ltb now t.expires_at

abbrev pub set_up : ℕ → CompleteAccountSetupInput → User → User
set_up now input u = record u {
  password_hash = input.password_hash;
  display_name = input.display_name;
  avatar_key = input.avatar_key;
  updated_at = now;
}

-- The two updates of `CompleteAccountSetup`.
unfoldable pub complete_with : ℕ → CompleteAccountSetupInput → AccountSetupToken → AuthDb → AuthDb
unfolding change_where
complete_with now input t db = record db {
  users = change_where (has_id t.user_id) (set_up now input) db.users;
  setup_tokens = change_where (is_setup t.id) (used now) db.setup_tokens;
}

-- `CompleteAccountSetup`. The token's user exists, by the table's foreign key; were there none, the
-- driver's error `no_rows` would be wrapped.
unfoldable pub complete_account_setup :
    Err → Faults → ℕ → CompleteAccountSetupInput → AuthDb → Result (AuthDb × User)
unfolding exec first_where complete_with
complete_account_setup no_rows faults now input db = do
  begun ←
      exec (faults 0) "postgres.auth.complete_account_setup" "beginning account setup transaction"
        db
  row ←
      exec (faults 1) "postgres.auth.complete_account_setup" "finding active account setup token"
        (first_where (is_active now input.token_hash) begun.setup_tokens)
  token ← require_row (missing "store.auth.complete_account_setup") row
  found ←
      exec (faults 2) "postgres.auth.complete_account_setup" "updating setup password"
        (first_where (has_id token.user_id) begun.users)
  u ←
      require_row
        (e (
          text "postgres.auth.complete_account_setup"
          ∷ text "updating setup password"
          ∷ error no_rows
          ∷ []))
        found
  marked ←
      exec (faults 3) "postgres.auth.complete_account_setup" "marking account setup token used"
        (complete_with now input token begun)
  exec (faults 4) "postgres.auth.complete_account_setup" "committing account setup transaction"
      (marked, set_up now input u)
