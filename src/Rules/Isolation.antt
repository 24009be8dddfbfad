-- ===== src/Rules/Isolation.antt =====
-- `LoadPersisted` of backend/internal/rules/persisted.go: a stored rule that does not compile costs
-- the tenant that rule and no other.
use expensor.Prelude.{◌≡◌, ◌⊎◌, refl, true, List, [], ◌∷◌, ◌++◌, arith, Bool-cases, inl, inr}
use expensor.Errors.{Err}
use expensor.Result.{ok, fail, Result-cases}
use expensor.Rules.{Libs}
use expensor.Rules.Store.{RuleRow, compile_persisted, compile_rows, load_persisted}

-- The row is the system's own, or one of its expressions does not compile.
abbrev pub IsSkipped : {R : Type 0} → Libs R → RuleRow → Type 0
IsSkipped libs row =
    (row.predefined ≡ true) ⊎ ((err : Err) × (compile_persisted libs row ≡ fail err))

pub compile_rows-append :
    {R : Type 0} (libs : Libs R) (rows more : List RuleRow)
    → compile_rows libs (rows ++ more) ≡ compile_rows libs rows ++ compile_rows libs more
unfolding compile_rows
compile_rows-append libs [] more = refl
compile_rows-append libs (row ∷ rows) more = elim (Result-cases (compile_persisted libs row)) [
  | inl (rule, e) ↦ ground (arith, compile_rows-append libs rows more, e)
  | inr (err, e) ↦ ground (arith, compile_rows-append libs rows more, e)
]

compile_rows-skipped :
    {R : Type 0} (libs : Libs R) (row : RuleRow) (rows : List RuleRow)
    → IsSkipped libs row
    → compile_rows libs (row ∷ rows) ≡ compile_rows libs rows
unfolding compile_rows
compile_rows-skipped libs row rows (inl p) = rw p refl
compile_rows-skipped libs row rows (inr (err, e)) = elim (Bool-cases row.predefined) [
  | inl p ↦ rw p refl
  | inr p ↦ rw p (rw e refl)
]

-- Wherever a skipped row stands among the stored rows, the rules that are loaded are those of the
-- other rows, in their order.
pub load_persisted-skipped :
    {R : Type 0} (libs : Libs R) (before behind : List RuleRow) (row : RuleRow)
    → IsSkipped libs row
    → load_persisted libs (ok (before ++ row ∷ behind))
      ≡ load_persisted libs (ok before) ++ load_persisted libs (ok behind)
unfolding load_persisted
load_persisted-skipped libs before behind row skipped =
    cc
      (compile_rows-append libs before (row ∷ behind), compile_rows-skipped libs row behind skipped)
