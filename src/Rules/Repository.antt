-- ===== src/Rules/Repository.antt =====
-- The stored rules of backend/internal/store/postgres/rules_repository.go.
use expensor.Prelude.{
  ℕ, String, Bool, true, false, not, ◌&&◌, ◌||◌, Option, none, some, List, [], ◌∷◌, ◌++◌, is_empty,
  str_eq, if◌then◌else◌,
}
use expensor.Prelude.Text.{append, is_blank}
use expensor.Prelude.Tables.{change_where, delete_where, exists_where, first_where, upsert_where}
use expensor.ErrorKind
use expensor.Errors.{Err}
use expensor.Errors.Build.{e, kind, user, text, error}
use expensor.Result.{Result, ok, fail, ◌>>=◌}
use expensor.Scanning.{exec}
use expensor.Rules.Store.{RuleRow}

-- A row of the table; `none` for the tenant of a predefined rule.
pub record StoredRule : Type 0 where
  pub tenant_id : Option String
  pub transaction_source : String
  pub rule : RuleRow
  pub updated_at : ℕ

-- What a caller writes: the rule and its transaction source.
pub record RuleInput : Type 0 where
  pub transaction_source : String
  pub rule : RuleRow

abbrev first_of : List String → String
first_of [] = ""
first_of (s ∷ senders) = s

-- `primarySender`, `normalizedRuleSenders` and `ruleSourceLabel`.
abbrev pub primary_sender : RuleRow → String
primary_sender r = if is_blank r.sender_email then first_of r.sender_emails else r.sender_email

abbrev pub normalized_rule_senders : RuleRow → List String
normalized_rule_senders r =
    if not (is_empty r.sender_emails)
    then r.sender_emails
    else if not (is_blank r.sender_email)
    then r.sender_email ∷ []
    else []

abbrev pub rule_source_label : RuleInput → String
rule_source_label i =
    if is_blank i.rule.source_label then i.transaction_source else i.rule.source_label

-- The columns as they are written, in a row with this id.
unfoldable pub stored_row : String → Bool → RuleInput → RuleRow
stored_row id predefined i = record i.rule {
  id = id;
  sender_email = primary_sender i.rule;
  sender_emails = normalized_rule_senders i.rule;
  source_label = rule_source_label i;
  predefined = predefined;
}

abbrev pub is_of_tenant : String → StoredRule → Bool
is_of_tenant tenant s = elim s.tenant_id [ none ↦ false | some t ↦ str_eq t tenant ]

-- A rule of the tenant's own, by its id and by its name.
abbrev pub is_own_rule : String → String → StoredRule → Bool
is_own_rule tenant id s = str_eq s.rule.id id && not s.rule.predefined && is_of_tenant tenant s

abbrev pub is_named_rule : String → String → StoredRule → Bool
is_named_rule tenant name s =
    str_eq s.rule.name name && not s.rule.predefined && is_of_tenant tenant s

abbrev pub is_predefined_named : String → StoredRule → Bool
is_predefined_named name s = str_eq s.rule.name name && s.rule.predefined && not (has_tenant s)
  where
    has_tenant : StoredRule → Bool
    has_tenant s = elim s.tenant_id [ none ↦ false | some t ↦ true ]

unfoldable pub new_rule : Option String → ℕ → String → Bool → RuleInput → StoredRule
unfolding stored_row
new_rule tenant now id predefined i = record {
  tenant_id = tenant;
  transaction_source = rule_source_label i;
  rule = stored_row id predefined i;
  updated_at = now;
}

unfoldable pub rewritten : ℕ → RuleInput → StoredRule → StoredRule
unfolding stored_row
rewritten now i s = record s {
  transaction_source = rule_source_label i;
  rule = stored_row s.rule.id s.rule.predefined i;
  updated_at = now;
}

abbrev pub rule_not_found : String → Err
rule_not_found op = e (text op ∷ kind ErrorKind.not_found ∷ user "rule not found" ∷ [])

abbrev pub rule_conflict : String → Err → Err
rule_conflict op violation = e (
    text op
    ∷ kind ErrorKind.conflict
    ∷ user "rule name already exists"
    ∷ text "rule name conflict"
    ∷ error violation
    ∷ [])

-- `violation` is the driver's error on a name that is taken.
module _ (violation : Err) where
  -- `CreateRule`.
  unfoldable pub create_rule :
      Option Err → ℕ → String → String → RuleInput → List StoredRule → Result (List StoredRule)
  unfolding exec exists_where new_rule
  create_rule fault now tenant id i rows =
      if exists_where (is_named_rule tenant i.rule.name) rows
      then fail (rule_conflict "store.rules.create" violation)
      else exec fault "postgres.rules.create_rule" "creating rule"
          (rows ++ new_rule (some tenant) now id false i ∷ [])

  -- Another rule of the tenant has the name.
  abbrev pub takes_name : String → String → String → StoredRule → Bool
  takes_name tenant id name s = is_named_rule tenant name s && not (str_eq s.rule.id id)

  -- `UpdateRule`.
  unfoldable pub update_rule :
      Option Err → ℕ → String → String → RuleInput → List StoredRule → Result (List StoredRule)
  unfolding exec exists_where change_where rewritten
  update_rule fault now tenant id i rows =
      if exists_where (is_own_rule tenant id) rows
        && exists_where (takes_name tenant id i.rule.name) rows
      then fail (rule_conflict "store.rules.update" violation)
      else do
        rows' ←
            exec fault "postgres.rules.update_rule" "updating rule"
              (change_where (is_own_rule tenant id) (rewritten now i) rows)
        if exists_where (is_own_rule tenant id) rows
            then ok rows'
            else fail (rule_not_found "store.rules.update")

-- `DeleteRule`.
unfoldable pub delete_rule :
    Option Err → String → String → List StoredRule → Result (List StoredRule)
unfolding exec exists_where delete_where
delete_rule fault tenant id rows = do
  rows' ←
      exec fault "postgres.rules.delete_rule" "deleting rule"
        (delete_where (is_own_rule tenant id) rows)
  if exists_where (is_own_rule tenant id) rows
      then ok rows'
      else fail (rule_not_found "store.rules.delete")

-- `GetRule`.
abbrev pub is_visible : String → String → StoredRule → Bool
is_visible tenant id s = str_eq s.rule.id id && (s.rule.predefined || is_of_tenant tenant s)

abbrev found_rule : Option StoredRule → Result StoredRule
found_rule none = fail (rule_not_found "store.rules.get")
found_rule (some s) = ok s

unfoldable pub get_rule : Option Err → String → String → List StoredRule → Result StoredRule
unfolding exec first_where
get_rule fault tenant id rows = do
  row ←
      exec fault "postgres.rules.get_rule" "fetching rule" (first_where (is_visible tenant id) rows)
  found_rule row

-- An input with the id that the database generates, and the fault of its statement.
pub record RuleWrite : Type 0 where
  pub id : String
  pub fault : Option Err
  pub input : RuleInput

module _ (quote : String → String) where
  -- `SeedPredefinedRules`: what was seeded before an error stays.
  unfoldable pub seed_predefined_rules :
      ℕ → List RuleWrite → List StoredRule → List StoredRule × Result Bool
  unfolding exec exists_where new_rule append
  seed_predefined_rules now [] rows = (rows, ok true)
  seed_predefined_rules now (w ∷ writes) rows =
      let seeded =
        if exists_where (is_predefined_named w.input.rule.name) rows
        then rows
        else rows ++ new_rule none now w.id true w.input ∷ [] in
      let rest = seed_predefined_rules now writes seeded in
      elim (exec w.fault "postgres.rules.seed_predefined_rules"
        (append "seeding predefined rule " (quote w.input.rule.name)) true) [
          | ok b ↦ rest
          | fail err ↦ (rows, fail err)
        ]

  -- The loop of `ImportUserRules`.
  unfoldable pub import_rules :
      ℕ → String → List RuleWrite → List StoredRule → Result (List StoredRule)
  unfolding exec upsert_where new_rule rewritten append
  import_rules now tenant [] rows = ok rows
  import_rules now tenant (w ∷ writes) rows =
      let imported =
        upsert_where (is_named_rule tenant w.input.rule.name) (rewritten now w.input)
          (new_rule (some tenant) now w.id false w.input) rows in
      let rest = import_rules now tenant writes imported in
      exec w.fault "postgres.rules.import_user_rules"
        (append "importing rule " (quote w.input.rule.name)) true
      >>= (λ b. rest)

  abbrev pub committed : Option Err → List StoredRule → Result (List StoredRule)
  committed none rows = ok rows
  committed (some err) rows = fail err

  -- `ImportUserRules`, with the faults of its begin and its commit.
  unfoldable pub import_user_rules :
      Option Err
      → Option Err
      → ℕ
      → String
      → List RuleWrite
      → List StoredRule
      → Result (List StoredRule)
  unfolding exec import_rules
  import_user_rules begin_fault commit_fault now tenant writes rows = do
    begun ← exec begin_fault "postgres.rules.import_user_rules" "beginning import transaction" rows
    imported ← import_rules now tenant writes begun
    committed commit_fault imported
