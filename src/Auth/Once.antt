-- ===== src/Auth/Once.antt =====
-- What works only once: the setup tokens and the bootstrap of
-- backend/internal/store/postgres/auth_repository.go.
use mathlib.Core.Path.{subst}
use expensor.Prelude.{
  ℕ, ◌≤◌, String, true, false, Option, none, some, List, [], ◌∷◌, ◌++◌, is_empty, if◌then◌else◌,
  ◌≡◌, ◌≢◌, refl, arith, sym, ◌∙◌, ap, eq_refl, Bool-cases, Option-cases, inl, inr,
}
use expensor.Prelude.Tables.{first_where, change_where}
use expensor.Prelude.Rows.{first_where-satisfies, first_where-found}
use expensor.Prelude.Counts.{count_where, count_where-some}
use expensor.Errors.{Err}
use expensor.Result.{ok, fail}
use expensor.Scanning.{exec}
use expensor.Auth.{User, AccountSetupToken, AuthDb, Faults, missing, role_admin}
use expensor.Auth.Accounts.{
  has_id, CreateBootstrapAdminInput, create_bootstrap_admin, insert_user, new_user,
}
use expensor.Auth.Setup.{
  setup_has_hash, is_setup, used, is_active, CompleteAccountSetupInput, complete_with,
  complete_account_setup,
}

-- A change that leaves the hash leaves a token of another hash out.
other_hash :
    (now later : ℕ) (hash k : String) (t : AccountSetupToken)
    → setup_has_hash hash t ≡ false
    → is_active later hash (if is_setup k t then used now t else t) ≡ false
other_hash now later hash k t h = ground arith

no_active :
    (now later : ℕ) (hash k : String) (ts : List AccountSetupToken)
    → count_where (setup_has_hash hash) ts ≤ 0
    → first_where (is_active later hash) (change_where (is_setup k) (used now) ts) ≡ none
unfolding first_where change_where count_where
no_active now later hash k [] h = refl
no_active now later hash k (t ∷ ts) h = elim (Bool-cases (setup_has_hash hash t)) [
  | inl f ↦ ground arith
  | inr f ↦ rw (other_hash now later hash k t f) (no_active now later hash k ts (ground arith))
]

used_off :
    (now later : ℕ) (hash : String) (t : AccountSetupToken)
    → is_active later hash (if is_setup t.id t then used now t else t) ≡ false
used_off now later hash t = ground (arith, eq_refl t.id)

active_counts :
    (now : ℕ) (hash : String) (t : AccountSetupToken) (ts : List AccountSetupToken)
    → first_where (is_active now hash) ts ≡ some t
    → 1 ≤ count_where (setup_has_hash hash) ts
active_counts now hash t ts e =
    let is_it = first_where-satisfies (is_active now hash) t ts e in
    count_where-some (setup_has_hash hash) ts
      (first_where-found (is_active now hash) (setup_has_hash hash) t ts e (ground arith))

-- Of the tokens with one hash the used one is not active any more.
used_is_inactive :
    (now later : ℕ) (hash : String) (t : AccountSetupToken) (ts : List AccountSetupToken)
    → count_where (setup_has_hash hash) ts ≤ 1
    → first_where (is_active now hash) ts ≡ some t
    → first_where (is_active later hash) (change_where (is_setup t.id) (used now) ts) ≡ none
unfolding first_where change_where count_where
used_is_inactive now later hash t [] h e = ground arith
used_is_inactive now later hash t (u ∷ ts) h e = elim (Bool-cases (setup_has_hash hash u)) [
  | inr f ↦
      rw (other_hash now later hash t.id u f)
        (used_is_inactive now later hash t ts (ground arith) (ground arith))
  | inl f ↦ elim (Bool-cases (is_active now hash u)) [
    | inl g ↦
        let it : u ≡ t = ground arith in
        let off : is_active later hash (if is_setup t.id u then used now u else u) ≡ false =
          subst (λ v. is_active later hash (if is_setup t.id v then used now v else v) ≡ false)
            (sym it) (used_off now later hash t) in
        rw off (no_active now later hash t.id ts (ground arith))
    | inr g ↦
        let among : first_where (is_active now hash) ts ≡ some t = ground arith in
        ground (arith, active_counts now hash t ts among)
  ]
]

nothing_in : (us : List User) → is_empty us ≡ true → us ≡ []
nothing_in [] h = refl
nothing_in (u ∷ us) h = ground arith

setup_result :
    (no_rows : Err) (faults : Faults) (now : ℕ) (input : CompleteAccountSetupInput)
    (db db' : AuthDb) (u : User) (row : Option AccountSetupToken)
    → first_where (is_active now input.token_hash) db.setup_tokens ≡ row
    → complete_account_setup no_rows faults now input db ≡ ok (db', u)
    → (t : AccountSetupToken) × (row ≡ some t)
      × (db'.setup_tokens ≡ change_where (is_setup t.id) (used now) db.setup_tokens)
unfolding complete_account_setup complete_with exec
setup_result no_rows faults now input db db' u none e h = ground arith
setup_result no_rows faults now input db db' u (some t) e h =
    elim (Option-cases (first_where (has_id t.user_id) db.users)) [
      | inl f ↦ ground arith
      | inr (v, f) ↦ (t, refl, ground arith)
    ]

unknown :
    (no_rows : Err) (now : ℕ) (input : CompleteAccountSetupInput) (db : AuthDb)
    → first_where (is_active now input.token_hash) db.setup_tokens ≡ none
    → complete_account_setup no_rows (λ n. none) now input db
      ≡ fail (missing "store.auth.complete_account_setup")
unfolding complete_account_setup exec
unknown no_rows now input db e = rw e refl

unknown_fails :
    (no_rows : Err) (faults : Faults) (now : ℕ) (input : CompleteAccountSetupInput) (db : AuthDb)
    (r : AuthDb × User)
    → first_where (is_active now input.token_hash) db.setup_tokens ≡ none
    → complete_account_setup no_rows faults now input db ≢ ok r
unfolding complete_account_setup exec
unknown_fails no_rows faults now input db r e h = ground arith

-- A setup token sets a password once, if no other token has its hash: on the tables that a call leaves
-- which succeeds, no call with the same token succeeds, at whatever time, with whatever password and
-- under whatever faults; without faults it is answered as one with an unknown token.
pub complete_account_setup-once :
    (no_rows : Err) (faults more : Faults) (now later : ℕ) (input again : CompleteAccountSetupInput)
    (db db' : AuthDb) (u : User)
    → count_where (setup_has_hash input.token_hash) db.setup_tokens ≤ 1
    → complete_account_setup no_rows faults now input db ≡ ok (db', u)
    → again.token_hash ≡ input.token_hash
    → ((r : AuthDb × User) → complete_account_setup no_rows more later again db' ≢ ok r)
      × (complete_account_setup no_rows (λ n. none) later again db'
          ≡ fail (missing "store.auth.complete_account_setup"))
complete_account_setup-once no_rows faults more now later input again db db' u one h same =
    let (t, found, tokens) =
      setup_result no_rows faults now input db db' u
        (first_where (is_active now input.token_hash) db.setup_tokens) refl h in
    let gone : first_where (is_active later again.token_hash) db'.setup_tokens ≡ none =
      rw (same, tokens) (used_is_inactive now later input.token_hash t db.setup_tokens one found) in
    (
      λ r g. unknown_fails no_rows more later again db' r gone g,
      unknown no_rows later again db' gone,
    )

-- A bootstrap that succeeds finds no account and makes the first one, an administrator; after that none
-- succeeds, whatever faults it meets.
pub create_bootstrap_admin-once :
    (lower quiet : String → String) (violation : Err) (faults again : Faults) (id k : String)
    (now later : ℕ) (input other : CreateBootstrapAdminInput) (db db' : AuthDb) (u : User)
    → create_bootstrap_admin lower quiet violation faults id now input db ≡ ok (db', u)
    → (is_empty db.users ≡ true)
      × (db'.users ≡ u ∷ [])
      × (u.role ≡ role_admin)
      × ((r : AuthDb × User)
          → create_bootstrap_admin lower quiet violation again k later other db' ≢ ok r)
unfolding create_bootstrap_admin insert_user exec new_user
create_bootstrap_admin-once lower quiet violation faults again id k now later input other db db' u
      h =
    let none_yet : is_empty db.users ≡ true = ground arith in
    let no_users : db.users ≡ [] = nothing_in db.users none_yet in
    let added : db'.users ≡ db.users ++ u ∷ [] = ground arith in
    let only : db'.users ≡ u ∷ [] = added ∙ ap (λ us. us ++ u ∷ []) no_users in
    let one : is_empty db'.users ≡ false = ap is_empty only in
    (none_yet, only, ground arith, λ r g. ground arith)
