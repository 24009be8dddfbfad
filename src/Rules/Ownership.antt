-- ===== src/Rules/Ownership.antt =====
-- Whose rules a tenant's requests reach in backend/internal/store/postgres/rules_repository.go.
use mathlib.Core.Path.{subst}
use expensor.Prelude.{
  ℕ, String, Bool, true, false, not, ◌&&◌, ◌||◌, Option, none, some, List, [], ◌∷◌, ◌++◌,
  if◌then◌else◌, ◌≡◌, refl, arith, ◌∙◌, eq_refl, Bool-cases, inl, inr,
}
use expensor.Prelude.Tables.{
  select_where, exists_where, change_where, delete_where, upsert_where, select_where-change_where,
  select_where-delete_where, select_where-snoc,
}
use expensor.Errors.{Err}
use expensor.Result.{Result, ok, fail, ◌>>=◌, OnOk, Result-cases}
use expensor.Scanning.{exec}
use expensor.Rules.Repository.{
  StoredRule, RuleInput, RuleWrite, is_of_tenant, is_own_rule, is_named_rule, new_rule, rewritten,
  create_rule, update_rule, delete_rule, import_rules, import_user_rules, stored_row, takes_name,
  rule_not_found, committed,
}

-- A rule that the tenant may not change: predefined, or of someone else.
abbrev pub is_foreign : String → StoredRule → Bool
is_foreign tenant s = s.rule.predefined || not (is_of_tenant tenant s)

abbrev pub KeepsForeign : String → List StoredRule → List StoredRule → Type 0
KeepsForeign tenant rows rows' =
    select_where (is_foreign tenant) rows' ≡ select_where (is_foreign tenant) rows

rewritten-stays :
    (tenant : String) (now : ℕ) (i : RuleInput) (s : StoredRule)
    → is_foreign tenant (rewritten now i s) ≡ is_foreign tenant s
unfolding rewritten stored_row
rewritten-stays tenant now i s = refl

new_is_own :
    (tenant id : String) (now : ℕ) (i : RuleInput)
    → is_foreign tenant (new_rule (some tenant) now id false i) ≡ false
unfolding new_rule stored_row
new_is_own tenant id now i = ground (arith, eq_refl tenant)

own_is_not_foreign :
    (tenant id : String) (s : StoredRule)
    → is_own_rule tenant id s ≡ true
    → is_foreign tenant s ≡ false
own_is_not_foreign tenant id s h = ground arith

named_is_not_foreign :
    (tenant name : String) (s : StoredRule)
    → is_named_rule tenant name s ≡ true
    → is_foreign tenant s ≡ false
named_is_not_foreign tenant name s h = ground arith

exec-KeepsForeign :
    (tenant : String) (rows rows' : List StoredRule) (fault : Option Err) (op message : String)
    → KeepsForeign tenant rows rows'
    → OnOk (KeepsForeign tenant rows) (exec fault op message rows')
unfolding exec
exec-KeepsForeign tenant rows rows' none op message h = h
exec-KeepsForeign tenant rows rows' (some err) op message h = tt

create_rule-KeepsForeign :
    (violation : Err) (fault : Option Err) (now : ℕ) (tenant id : String) (i : RuleInput)
    (rows : List StoredRule)
    → OnOk (KeepsForeign tenant rows) (create_rule violation fault now tenant id i rows)
unfolding create_rule
create_rule-KeepsForeign violation fault now tenant id i rows =
    elim (Bool-cases (exists_where (is_named_rule tenant i.rule.name) rows)) [
      | inl e ↦ rw e tt
      | inr e ↦ rw e (
          exec-KeepsForeign tenant rows (rows ++ new_rule (some tenant) now id false i ∷ []) fault
            "postgres.rules.create_rule" "creating rule"
            (select_where-snoc (is_foreign tenant) (new_rule (some tenant) now id false i) rows
              (new_is_own tenant id now i)))
    ]

-- A change that is answered by an error if no row was the tenant's own.
require_own :
    (tenant id op message : String) (fault : Option Err) (err : Err) (rows rows' : List StoredRule)
    → KeepsForeign tenant rows rows'
    → OnOk (KeepsForeign tenant rows) (
        exec fault op message rows' >>= λ (r : List StoredRule).
        if exists_where (is_own_rule tenant id) rows then ok r else fail err)
unfolding exec
require_own tenant id op message (some f) err rows rows' h = tt
require_own tenant id op message none err rows rows' h =
    elim (Bool-cases (exists_where (is_own_rule tenant id) rows)) [
      | inl e ↦ rw e h
      | inr e ↦ rw e tt
    ]

update_rule-KeepsForeign :
    (violation : Err) (fault : Option Err) (now : ℕ) (tenant id : String) (i : RuleInput)
    (rows : List StoredRule)
    → OnOk (KeepsForeign tenant rows) (update_rule violation fault now tenant id i rows)
unfolding update_rule
update_rule-KeepsForeign violation fault now tenant id i rows =
    elim (Bool-cases (
      exists_where (is_own_rule tenant id) rows
      && exists_where (takes_name violation tenant id i.rule.name) rows)) [
        | inl e ↦ rw e tt
        | inr e ↦ rw e (
            require_own tenant id "postgres.rules.update_rule" "updating rule" fault
              (rule_not_found "store.rules.update") rows
              (change_where (is_own_rule tenant id) (rewritten now i) rows)
              (select_where-change_where (is_foreign tenant) (is_own_rule tenant id)
                (rewritten now i) (own_is_not_foreign tenant id) (rewritten-stays tenant now i)
                rows))
      ]

delete_rule-KeepsForeign :
    (fault : Option Err) (tenant id : String) (rows : List StoredRule)
    → OnOk (KeepsForeign tenant rows) (delete_rule fault tenant id rows)
unfolding delete_rule
delete_rule-KeepsForeign fault tenant id rows =
    require_own tenant id "postgres.rules.delete_rule" "deleting rule" fault
      (rule_not_found "store.rules.delete") rows (delete_where (is_own_rule tenant id) rows)
      (select_where-delete_where (is_foreign tenant) (is_own_rule tenant id)
        (own_is_not_foreign tenant id) rows)

imported_rule :
    (now : ℕ) (tenant : String) (w : RuleWrite) (rows : List StoredRule)
    → KeepsForeign tenant rows (
        upsert_where
          (is_named_rule tenant w.input.rule.name)
          (rewritten now w.input)
          (new_rule (some tenant) now w.id false w.input)
          rows)
unfolding upsert_where
imported_rule now tenant w rows =
    elim (Bool-cases (exists_where (is_named_rule tenant w.input.rule.name) rows)) [
      | inl e ↦ rw e (
          select_where-change_where (is_foreign tenant) (is_named_rule tenant w.input.rule.name)
            (rewritten now w.input) (named_is_not_foreign tenant w.input.rule.name)
            (rewritten-stays tenant now w.input) rows)
      | inr e ↦ rw e (
          select_where-snoc (is_foreign tenant) (new_rule (some tenant) now w.id false w.input) rows
            (new_is_own tenant w.id now w.input))
    ]

OnOk-trans :
    (tenant : String) (rows mid : List StoredRule) (r : Result (List StoredRule))
    → KeepsForeign tenant rows mid
    → OnOk (KeepsForeign tenant mid) r
    → OnOk (KeepsForeign tenant rows) r
OnOk-trans tenant rows mid (ok out) h k = k ∙ h
OnOk-trans tenant rows mid (fail err) h k = tt

after_fault :
    (tenant op message : String) (fault : Option Err) (rows : List StoredRule)
    (r : Result (List StoredRule))
    → OnOk (KeepsForeign tenant rows) r
    → OnOk (KeepsForeign tenant rows) (exec fault op message true >>= λ (b : Bool). r)
unfolding exec
after_fault tenant op message none rows r h = h
after_fault tenant op message (some err) rows r h = tt

import_rules-KeepsForeign :
    (quote : String → String) (now : ℕ) (tenant : String) (writes : List RuleWrite)
    (rows : List StoredRule)
    → OnOk (KeepsForeign tenant rows) (import_rules quote now tenant writes rows)
unfolding import_rules
import_rules-KeepsForeign quote now tenant [] rows = refl
import_rules-KeepsForeign quote now tenant (w ∷ writes) rows =
    let imported =
      upsert_where (is_named_rule tenant w.input.rule.name) (rewritten now w.input)
        (new_rule (some tenant) now w.id false w.input) rows in
    after_fault tenant "postgres.rules.import_user_rules" _ w.fault rows
      (import_rules quote now tenant writes imported)
      (OnOk-trans tenant rows imported (import_rules quote now tenant writes imported)
        (imported_rule now tenant w rows)
        (import_rules-KeepsForeign quote now tenant writes imported))

import_user_rules-KeepsForeign :
    (quote : String → String) (begin_fault commit_fault : Option Err) (now : ℕ) (tenant : String)
    (writes : List RuleWrite) (rows : List StoredRule)
    → OnOk
        (KeepsForeign tenant rows)
        (import_user_rules quote begin_fault commit_fault now tenant writes rows)
unfolding import_user_rules exec
import_user_rules-KeepsForeign quote (some err) commit_fault now tenant writes rows = tt
import_user_rules-KeepsForeign quote none commit_fault now tenant writes rows =
    elim (Result-cases (import_rules quote now tenant writes rows)) [
      | inr (err, f) ↦ rw f tt
      | inl (out, f) ↦ rw f (
          settled commit_fault out (
            subst (OnOk (KeepsForeign tenant rows)) f
              (import_rules-KeepsForeign quote now tenant writes rows)))
    ]
  where
    settled :
        (commit_fault : Option Err) (out : List StoredRule)
        → KeepsForeign tenant rows out
        → OnOk (KeepsForeign tenant rows) (committed quote commit_fault out)
    settled none out h = h
    settled (some err) out h = tt

-- Whatever a tenant creates, updates, deletes and imports, and whatever faults that meets, the
-- predefined rules and the rules of everyone else stay as they are, in their order.
pub foreign_rules_stay :
    (quote : String → String) (violation : Err) (fault begin_fault commit_fault : Option Err)
    (now : ℕ) (tenant id : String) (i : RuleInput) (writes : List RuleWrite)
    (rows : List StoredRule)
    → OnOk (KeepsForeign tenant rows) (create_rule violation fault now tenant id i rows)
      × OnOk (KeepsForeign tenant rows) (update_rule violation fault now tenant id i rows)
      × OnOk (KeepsForeign tenant rows) (delete_rule fault tenant id rows)
      × OnOk
          (KeepsForeign tenant rows)
          (import_user_rules quote begin_fault commit_fault now tenant writes rows)
foreign_rules_stay quote violation fault begin_fault commit_fault now tenant id i writes rows = (
  create_rule-KeepsForeign violation fault now tenant id i rows,
  update_rule-KeepsForeign violation fault now tenant id i rows,
  delete_rule-KeepsForeign fault tenant id rows,
  import_user_rules-KeepsForeign quote begin_fault commit_fault now tenant writes rows,
)
