-- ===== src/Auth/Administrators.antt =====
-- The guards of backend/internal/httpapi/handlers_auth.go that keep an administrator.
use expensor.Prelude.{
  ℕ, String, Bool, true, false, not, ◌&&◌, ◌||◌, Option, none, some, List, [], ◌∷◌, str_eq,
  if◌then◌else◌, ◌≡◌, refl, arith, eq_iff, Bool-cases, Option-cases, inl, inr,
}
use expensor.Prelude.Tables.{exists_where, first_where, change_where}
use expensor.Prelude.Rows.{exists_where-delete_where}
use expensor.Errors.{Err}
use expensor.Result.{Result, ok, fail}
use expensor.Scanning.{exec}
use expensor.Auth.{User, AuthDb, Faults, Principal, is_set, role_admin}
use expensor.Auth.Accounts.{
  has_id, UpdateUserInput, updated, update_user, delete_user, without_user,
}
use expensor.Auth.Admin.{
  UpdateUserRequest, require_admin, update_user_errors, update_user_input, guard_own,
  admin_update_user, admin_delete_user, asks_to_disable, has_value, Field, Reply, replied,
  updated_by, if_admin, if_valid, settled,
}

-- An administrator who is not disabled.
abbrev pub is_administrator : String → User → Bool
is_administrator id u = str_eq u.id id && str_eq u.role role_admin && not (is_set u.disabled_at)

or_true : (b : Bool) → (b || true) ≡ true
or_true b = ground arith

-- A change that spares the own role and does not disable the own account.
updated_administrator :
    (now : ℕ) (input : UpdateUserInput) (id : String) (u : User)
    → has_value input.role ≡ false
    → asks_to_disable input.disabled ≡ false
    → is_administrator id u ≡ true
    → is_administrator id (updated now input u) ≡ true
updated_administrator now input id u r d h = ground arith

kept_one :
    (now : ℕ) (input : UpdateUserInput) (id own : String) (u : User)
    → (has_value input.role && str_eq id own) ≡ false
    → (asks_to_disable input.disabled && str_eq id own) ≡ false
    → is_administrator own u ≡ true
    → is_administrator own (if has_id id u then updated now input u else u) ≡ true
kept_one now input id own u r d h = elim (Bool-cases (has_id id u)) [
  | inr e ↦ rw e h
  | inl e ↦
      let same : str_eq id own ≡ true =
        ground (arith, eq_iff u.id id, eq_iff u.id own, eq_iff id own) in
      let no_role : has_value input.role ≡ false = ground arith in
      let no_end : asks_to_disable input.disabled ≡ false = ground arith in
      rw e (updated_administrator now input own u no_role no_end h)
]

kept_administrator :
    (now : ℕ) (input : UpdateUserInput) (id own : String) (us : List User)
    → (has_value input.role && str_eq id own) ≡ false
    → (asks_to_disable input.disabled && str_eq id own) ≡ false
    → exists_where (is_administrator own) us ≡ true
    → exists_where (is_administrator own) (change_where (has_id id) (updated now input) us) ≡ true
unfolding exists_where change_where
kept_administrator now input id own [] r d h = ground arith
kept_administrator now input id own (u ∷ us) r d h = elim (Bool-cases (is_administrator own u)) [
  | inl e ↦ rw (kept_one now input id own u r d e) refl
  | inr e ↦
      let rest : exists_where (is_administrator own) us ≡ true = ground arith in
      rw (kept_administrator now input id own us r d rest) (or_true _)
]

-- The own account among the administrators.
abbrev HasOwn : Principal → AuthDb → Type 0
HasOwn p db = exists_where (is_administrator p.user_id) db.users ≡ true

if_admin-HasOwn :
    {A : Type 0} (p : Principal) (db : AuthDb) (r : Result Principal) (reply : AuthDb × Reply A)
    → HasOwn p db
    → HasOwn p reply.0
    → HasOwn p (if_admin db r reply).0
if_admin-HasOwn p db (ok q) reply h hr = hr
if_admin-HasOwn p db (fail err) reply h hr = h

if_valid-HasOwn :
    {A : Type 0} (p : Principal) (db : AuthDb) (fields : List Field) (reply : AuthDb × Reply A)
    → HasOwn p db
    → HasOwn p reply.0
    → HasOwn p (if_valid db fields reply).0
if_valid-HasOwn p db [] reply h hr = hr
if_valid-HasOwn p db (f ∷ fields) reply h hr = h

update_user-HasOwn :
    (fault : Option Err) (now : ℕ) (p : Principal) (id : String) (input : UpdateUserInput)
    (db : AuthDb)
    → guard_own id p input ≡ ok true
    → HasOwn p db
    → HasOwn p (replied db (update_user fault now id input db)).0
unfolding update_user exec
update_user-HasOwn (some err) now p id input db g h = h
update_user-HasOwn none now p id input db g h =
    elim (Option-cases (first_where (has_id id) db.users)) [
      | inl e ↦ rw e h
      | inr (u, e) ↦
          rw e (kept_administrator now input id p.user_id db.users (ground arith) (ground arith) h)
    ]

updated_by-HasOwn :
    (fault : Option Err) (now : ℕ) (p : Principal) (id : String) (input : UpdateUserInput)
    (db : AuthDb) (r : Result Bool)
    → guard_own id p input ≡ r
    → HasOwn p db
    → HasOwn p (updated_by fault now id input db r).0
updated_by-HasOwn fault now p id input db (fail err) g h = h
updated_by-HasOwn fault now p id input db (ok true) g h =
    update_user-HasOwn fault now p id input db g h
updated_by-HasOwn fault now p id input db (ok false) g h = ground arith

-- Other accounts are deleted without the own one.
delete_user-HasOwn :
    (fault : Option Err) (p : Principal) (id : String) (db : AuthDb)
    → str_eq id p.user_id ≡ false
    → HasOwn p db
    → HasOwn p (settled db (delete_user fault id db)).0
unfolding delete_user without_user exec
delete_user-HasOwn (some err) p id db other h = h
delete_user-HasOwn none p id db other h = elim (Bool-cases (exists_where (has_id id) db.users)) [
  | inr e ↦ rw e h
  | inl e ↦
      rw
        (
          e,
          exists_where-delete_where (is_administrator p.user_id) (has_id id) false
              (λ u a. ground (arith, eq_iff u.id p.user_id, eq_iff u.id id, eq_iff id p.user_id))
              db.users,
          h,
        )
        refl
]

-- No administrator can lock the last administrator out: whatever an enabled administrator asks of
-- UpdateUser and DeleteUser, and whatever faults they meet, the own account is still there, enabled and
-- an administrator's.
pub administrator_stays :
    (faults : Faults) (now : ℕ) (p : Principal) (id : String) (r : UpdateUserRequest) (db : AuthDb)
    → exists_where (is_administrator p.user_id) db.users ≡ true
    → (exists_where (is_administrator p.user_id) (admin_update_user faults now p id r db).0.users
        ≡ true)
      × (exists_where (is_administrator p.user_id) (admin_delete_user faults p id db).0.users
          ≡ true)
unfolding admin_update_user admin_delete_user
administrator_stays faults now p id r db h = (
  if_admin-HasOwn p db (require_admin p) _ h (
      if_valid-HasOwn p db (update_user_errors r) _ h (
        updated_by-HasOwn (faults 0) now p id (update_user_input r) db
          (guard_own id p (update_user_input r)) refl h)),
  if_admin-HasOwn p db (require_admin p) _ h (elim (Bool-cases (str_eq id p.user_id)) [
    | inl e ↦ rw e h
    | inr e ↦ rw e (delete_user-HasOwn (faults 0) p id db e h)
  ]),
)
