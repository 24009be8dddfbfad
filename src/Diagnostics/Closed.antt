-- ===== src/Diagnostics/Closed.antt =====
-- What recording and answering a diagnostic leave alone, for
-- backend/internal/store/postgres/diagnostics_repository.go.
use expensor.Prelude.{
  ℕ, String, true, false, not, Option, none, some, List, if◌then◌else◌, ◌≡◌, refl, arith, eq_refl,
  Bool-cases, inl, inr, ap, eq_iff,
}
use expensor.Prelude.Text.{is_blank}
use expensor.Prelude.Tables.{
  select_where, exists_where, change_where, upsert_where, select_where-change_where,
  select_where-snoc,
}
use expensor.Errors.{Err}
use expensor.Result.{fail, OnOk, OnOk-bind}
use expensor.Scanning.{exec}
use expensor.Diagnostics.{
  ExtractionDiagnostic, StoredDiagnostic, is_own, is_recorded, new_diagnostic, recorded_again,
  record_extraction_diagnostic, update_extraction_diagnostic_status, nullable_string, with_status,
  validate_update_status, reopens_taken, settle_status, conflict,
}
use expensor.Diagnostics.Shown.{
  text_of, is_apart, is_other, Shows, Some, Some-change_where, Some-snoc, nullable-text,
  has_message-text, recorded_again-Shows, new-Shows,
}

recorded-apart :
    (tenant : String) (d : ExtractionDiagnostic) (s : StoredDiagnostic)
    → is_recorded tenant d s ≡ true
    → is_apart tenant d s ≡ false
recorded-apart tenant d s h = ground (
  arith,
  has_message-text d.message_id s.message_id (ground arith),
  eq_iff (text_of s.message_id) d.message_id,
)

new-apart :
    (tenant id : String) (now : ℕ) (d : ExtractionDiagnostic)
    → is_apart tenant d (new_diagnostic tenant now id d) ≡ false
unfolding new_diagnostic
new-apart tenant id now d = ground (
  arith,
  eq_refl tenant,
  eq_refl d.reader,
  eq_refl d.rule_name,
  nullable-text d.message_id,
  eq_iff (text_of (nullable_string d.message_id)) d.message_id,
)

again-apart :
    (tenant : String) (now : ℕ) (d : ExtractionDiagnostic) (s : StoredDiagnostic)
    → is_apart tenant d (recorded_again now d s) ≡ is_apart tenant d s
unfolding recorded_again
again-apart tenant now d s = refl

-- The table keeps the rows apart, and has one that shows what was recorded.
abbrev pub IsRecorded :
    String → ExtractionDiagnostic → List StoredDiagnostic → List StoredDiagnostic → Type 0
IsRecorded tenant d rows rows' =
    (select_where (is_apart tenant d) rows' ≡ select_where (is_apart tenant d) rows)
    × Some (Shows tenant d) rows'

upserted-IsRecorded :
    (tenant id : String) (now : ℕ) (d : ExtractionDiagnostic) (rows : List StoredDiagnostic)
    → IsRecorded tenant d rows (
        upsert_where
          (is_recorded tenant d)
          (recorded_again now d)
          (new_diagnostic tenant now id d)
          rows)
unfolding upsert_where
upserted-IsRecorded tenant id now d rows =
    elim (Bool-cases (exists_where (is_recorded tenant d) rows)) [
      | inl e ↦ rw e (
        select_where-change_where (is_apart tenant d) (is_recorded tenant d) (recorded_again now d)
            (recorded-apart tenant d) (again-apart tenant now d) rows,
        Some-change_where (Shows tenant d) (is_recorded tenant d) (recorded_again now d)
            (recorded_again-Shows now tenant d) rows e,
      )
      | inr e ↦ rw e (
        select_where-snoc (is_apart tenant d) (new_diagnostic tenant now id d) rows
            (new-apart tenant id now d),
        Some-snoc (Shows tenant d) (new_diagnostic tenant now id d) (new-Shows tenant id now d)
            rows,
      )
    ]

record_extraction_diagnostic-IsRecorded :
    (fault : Option Err) (now : ℕ) (tenant id : String) (d : ExtractionDiagnostic)
    (rows : List StoredDiagnostic)
    → OnOk (IsRecorded tenant d rows) (record_extraction_diagnostic fault now tenant id d rows)
unfolding record_extraction_diagnostic exec
record_extraction_diagnostic-IsRecorded (some err) now tenant id d rows =
    elim (Bool-cases (is_blank tenant)) [ inl e ↦ rw e tt | inr e ↦ rw e tt ]
record_extraction_diagnostic-IsRecorded none now tenant id d rows =
    elim (Bool-cases (is_blank tenant)) [
      | inl e ↦ rw e tt
      | inr e ↦ rw e (upserted-IsRecorded tenant id now d rows)
    ]

abbrev pub KeepsOthers : String → String → List StoredDiagnostic → List StoredDiagnostic → Type 0
KeepsOthers tenant id rows rows' =
    select_where (is_other tenant id) rows' ≡ select_where (is_other tenant id) rows

status-stays :
    (tenant id : String) (now : ℕ) (status : String) (s : StoredDiagnostic)
    → is_other tenant id (with_status now status s) ≡ is_other tenant id s
unfolding with_status
status-stays tenant id now status s = refl

status-KeepsOthers :
    (now : ℕ) (tenant id status : String) (rows : List StoredDiagnostic)
    → KeepsOthers tenant id rows (change_where (is_own tenant id) (with_status now status) rows)
status-KeepsOthers now tenant id status rows =
    select_where-change_where (is_other tenant id) (is_own tenant id) (with_status now status)
      (λ s h. ap not h) (status-stays tenant id now status) rows

settle_status-KeepsOthers :
    (fault : Option Err) (tenant id : String) (rows rows' : List StoredDiagnostic)
    → KeepsOthers tenant id rows rows'
    → OnOk (KeepsOthers tenant id rows) (settle_status fault tenant id rows rows')
unfolding settle_status exec
settle_status-KeepsOthers (some err) tenant id rows rows' h = tt
settle_status-KeepsOthers none tenant id rows rows' h =
    elim (Bool-cases (exists_where (is_own tenant id) rows)) [ inl e ↦ rw e h | inr e ↦ rw e tt ]

update_extraction_diagnostic_status-KeepsOthers :
    (violation : Err) (fault : Option Err) (now : ℕ) (tenant id status : String)
    (rows : List StoredDiagnostic)
    → OnOk
        (KeepsOthers tenant id rows)
        (update_extraction_diagnostic_status violation fault now tenant id status rows)
unfolding update_extraction_diagnostic_status
update_extraction_diagnostic_status-KeepsOthers violation fault now tenant id status rows =
    OnOk-bind (KeepsOthers tenant id rows) (validate_update_status status) _
      (λ valid h. answered valid)
  where
    answered :
        (valid : String)
        → OnOk (KeepsOthers tenant id rows) (
            if reopens_taken tenant id valid rows
            then fail (conflict violation)
            else settle_status fault tenant id rows
                (change_where (is_own tenant id) (with_status now valid) rows))
    answered valid = elim (Bool-cases (reopens_taken tenant id valid rows)) [
      | inl e ↦ rw e tt
      | inr e ↦ rw e (
          settle_status-KeepsOthers fault tenant id rows
            (change_where (is_own tenant id) (with_status now valid) rows)
            (status-KeepsOthers now tenant id valid rows))
    ]

-- A recording that returns no error leaves an open row of the tenant that holds the message's id and
-- all else of the diagnostic, and every row that is closed, of another tenant, or of another message,
-- reader or rule is as it was, in its order; answering a diagnostic changes no row but the tenant's own
-- of that id.
pub diagnostics_stay :
    (violation : Err) (fault : Option Err) (now : ℕ) (tenant id status : String)
    (d : ExtractionDiagnostic) (rows : List StoredDiagnostic)
    → OnOk (IsRecorded tenant d rows) (record_extraction_diagnostic fault now tenant id d rows)
      × OnOk
          (KeepsOthers tenant id rows)
          (update_extraction_diagnostic_status violation fault now tenant id status rows)
diagnostics_stay violation fault now tenant id status d rows = (
  record_extraction_diagnostic-IsRecorded fault now tenant id d rows,
  update_extraction_diagnostic_status-KeepsOthers violation fault now tenant id status rows,
)
