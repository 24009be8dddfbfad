-- ===== src/Rules/Store.antt =====
-- backend/internal/rules/rules.go and persisted.go: a tenant's stored rules are compiled, and
-- merged with the system's.
use expensor.Prelude.{
  String, Bool, true, false, Option, none, some, List, [], ◌∷◌, ◌++◌, str_eq, if◌then◌else◌,
}
use expensor.Prelude.Text.{is_blank}
use expensor.ErrorKind
use expensor.Errors.Build.{e, kind, text, error}
use expensor.Result.{Result, ok, fail, ◌>>=◌}
use expensor.Rules.{Libs, Rule}

-- `seen[name]`.
unfoldable pub is_named : {R : Type 0} → String → List (Rule R) → Bool
is_named name [] = false
is_named name (r ∷ rules) =
    let rest = is_named name rules in if str_eq r.name name then true else rest

abbrev pub or_this {ℓ} : {A : Type ℓ} → A → Option A → Option A
or_this a none = some a
or_this a (some b) = some b

-- `userByName[name]`: of two rules with a name, the later one.
unfoldable pub last_named : {R : Type 0} → String → List (Rule R) → Option (Rule R)
last_named name [] = none
last_named name (r ∷ rules) =
    let rest = last_named name rules in if str_eq r.name name then or_this r rest else rest

abbrev pub or_itself {ℓ} : {A : Type ℓ} → A → Option A → A
or_itself a none = a
or_itself a (some b) = b

-- The loop over the system's rules.
unfoldable pub override : {R : Type 0} → List (Rule R) → List (Rule R) → List (Rule R)
unfolding last_named
override user [] = []
override user (r ∷ system) = or_itself r (last_named r.name user) ∷ override user system

-- The loop over the user's rules.
unfoldable pub only_user : {R : Type 0} → List (Rule R) → List (Rule R) → List (Rule R)
unfolding is_named
only_user system [] = []
only_user system (r ∷ user) =
    let rest = only_user system user in if is_named r.name system then rest else r ∷ rest

-- `MergeRules`.
unfoldable pub merge_rules : {R : Type 0} → List (Rule R) → List (Rule R) → List (Rule R)
unfolding override only_user
merge_rules system user = override user system ++ only_user system user

-- `RuleRow` of backend/internal/store/models.go, without the fields that are not read here.
pub record RuleRow : Type 0 where
  pub id : String
  pub name : String
  pub sender_email : String
  pub sender_emails : List String
  pub subject_contains : String
  pub amount_regex : String
  pub merchant_regex : String
  pub currency_regex : String
  pub source_type : String
  pub source_label : String
  pub bank : String
  pub predefined : Bool

abbrev pub in_field {ℓ} : {A : Type ℓ} → String → Result A → Result A
in_field field (ok a) = ok a
in_field field (fail err) = fail (
    e (text "rules.compile_persisted" ∷ kind ErrorKind.invalid_input ∷ text field ∷ error err ∷ []))

abbrev pub optional {ℓ} : {A : Type ℓ} → Bool → Result A → Result (Option A)
optional true r = ok none
optional false (ok a) = ok (some a)
optional false (fail err) = fail err

-- `compilePersisted`.
unfoldable pub compile_persisted : {R : Type 0} → Libs R → RuleRow → Result (Rule R)
compile_persisted libs row = do
  amount ← in_field "amount_regex" (libs.compile row.amount_regex)
  merchant ← in_field "merchant_regex" (libs.compile row.merchant_regex)
  currency ←
      optional (is_blank row.currency_regex)
        (in_field "currency_regex" (libs.compile row.currency_regex))
  ok (record {
    id = row.id;
    name = row.name;
    sender_email = row.sender_email;
    sender_emails = row.sender_emails;
    subject_contains = row.subject_contains;
    amount = some amount;
    merchant_info = some merchant;
    currency = currency;
    source = record { type = row.source_type; label = row.source_label; bank = row.bank };
  })

abbrev pub skip_invalid {ℓ} : {A : Type ℓ} → Result A → List A → List A
skip_invalid (ok rule) rest = rule ∷ rest
skip_invalid (fail err) rest = rest

-- The loop of `LoadPersisted`.
unfoldable pub compile_rows : {R : Type 0} → Libs R → List RuleRow → List (Rule R)
unfolding compile_persisted
compile_rows libs [] = []
compile_rows libs (row ∷ rows) =
    let rest = compile_rows libs rows in
    if row.predefined then rest else skip_invalid (compile_persisted libs row) rest

-- `LoadPersisted`, by what `ListRules` returned.
unfoldable pub load_persisted : {R : Type 0} → Libs R → Result (List RuleRow) → List (Rule R)
unfolding compile_rows
load_persisted libs (ok rows) = compile_rows libs rows
load_persisted libs (fail err) = []
