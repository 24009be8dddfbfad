-- ===== src/Diagnostics/Shown.antt =====
-- What a stored diagnostic shows of what was recorded, for
-- backend/internal/store/postgres/diagnostics_repository.go.
use expensor.Prelude.{
  ℕ, String, Bool, true, not, ◌&&◌, Option, none, some, List, [], ◌∷◌, ◌++◌, str_eq, if◌then◌else◌,
  ◌≡◌, refl, arith, eq_refl, Bool-cases, inl, inr, eq_iff, ◌⊎◌,
}
use expensor.Prelude.Text.{is_blank, blank_is_empty}
use expensor.Prelude.Tables.{exists_where, change_where}
use expensor.Diagnostics.{
  ExtractionDiagnostic, StoredDiagnostic, is_of_tenant, is_open, is_own, is_recorded,
  new_diagnostic, recorded_again, has_message, nullable_string, open_status,
}

-- The text of a message's id, as GetExtractionDiagnostic reads it.
abbrev pub text_of : Option String → String
text_of none = ""
text_of (some m) = m

-- The rows that are not the tenant's open ones for the message, reader and rule of the diagnostic, and
-- those that are not its row of this id.
abbrev pub is_apart : String → ExtractionDiagnostic → StoredDiagnostic → Bool
is_apart tenant d s = not (
    is_of_tenant tenant s
    && is_open s
    && str_eq (text_of s.message_id) d.message_id
    && str_eq s.reader d.reader
    && str_eq s.rule_name d.rule_name)

abbrev pub is_other : String → String → StoredDiagnostic → Bool
is_other tenant id s = not (is_own tenant id s)

-- An open row of the tenant that holds all of the diagnostic. The sender falls back on its address, and
-- a rule without an id has none.
abbrev pub Shows : String → ExtractionDiagnostic → StoredDiagnostic → Type 0
Shows tenant d s =
    (is_of_tenant tenant s ≡ true)
    × (s.status ≡ "open")
    × (text_of s.message_id ≡ d.message_id)
    × (s.reader ≡ d.reader)
    × (s.rule_name ≡ d.rule_name)
    × (s.source ≡ d.source)
    × (s.sender ≡ (if is_blank d.sender then d.sender_email else d.sender))
    × (s.sender_email ≡ d.sender_email)
    × (s.subject ≡ d.subject)
    × (s.email_body ≡ d.email_body)
    × (s.received_at ≡ d.received_at)
    × (s.snippet ≡ d.snippet)
    × (text_of s.rule_id ≡ d.rule_id)
    × (s.amount_regex ≡ d.amount_regex)
    × (s.merchant_regex ≡ d.merchant_regex)
    × (s.currency_regex ≡ d.currency_regex)
    × (s.failure_reasons ≡ d.failure_reasons)

abbrev pub Some : (StoredDiagnostic → Type 0) → List StoredDiagnostic → Type 0
Some P [] = ⊥
Some P (s ∷ rows) = P s ⊎ Some P rows

pub Some-change_where :
    (P : StoredDiagnostic → Type 0) (p : StoredDiagnostic → Bool)
    (f : StoredDiagnostic → StoredDiagnostic)
    → ((s : StoredDiagnostic) → p s ≡ true → P (f s))
    → (rows : List StoredDiagnostic) → exists_where p rows ≡ true
    → Some P (change_where p f rows)
unfolding exists_where change_where
Some-change_where P p f then_P [] h = ground arith
Some-change_where P p f then_P (s ∷ rows) h = elim (Bool-cases (p s)) [
  | inl e ↦ rw e (inl (then_P s e))
  | inr e ↦ inr (Some-change_where P p f then_P rows (ground arith))
]

pub Some-snoc :
    (P : StoredDiagnostic → Type 0) (s : StoredDiagnostic)
    → P s
    → (rows : List StoredDiagnostic) → Some P (rows ++ s ∷ [])
Some-snoc P s h [] = inl h
Some-snoc P s h (r ∷ rows) = inr (Some-snoc P s h rows)

pub nullable-text : (s : String) → text_of (nullable_string s) ≡ s
nullable-text s = elim (Bool-cases (is_blank s)) [
  | inl e ↦ rw e (blank_is_empty s e)
  | inr e ↦ rw e refl
]

pub has_message-text :
    (message : String) (m : Option String) → has_message message m ≡ true → text_of m ≡ message
has_message-text message none h = ground arith
has_message-text message (some m) h = ground (arith, eq_iff m message)

pub recorded_again-Shows :
    (now : ℕ) (tenant : String) (d : ExtractionDiagnostic) (s : StoredDiagnostic)
    → is_recorded tenant d s ≡ true
    → Shows tenant d (recorded_again now d s)
unfolding recorded_again
recorded_again-Shows now tenant d s h = (
  ground arith,
  ground (arith, eq_iff s.status open_status),
  has_message-text d.message_id s.message_id (ground arith),
  ground (arith, eq_iff s.reader d.reader),
  ground (arith, eq_iff s.rule_name d.rule_name),
  refl,
  refl,
  refl,
  refl,
  refl,
  refl,
  refl,
  nullable-text d.rule_id,
  refl,
  refl,
  refl,
  refl,
)

pub new-Shows :
    (tenant id : String) (now : ℕ) (d : ExtractionDiagnostic)
    → Shows tenant d (new_diagnostic tenant now id d)
unfolding new_diagnostic
new-Shows tenant id now d = (
  eq_refl tenant,
  refl,
  nullable-text d.message_id,
  refl,
  refl,
  refl,
  refl,
  refl,
  refl,
  refl,
  refl,
  refl,
  nullable-text d.rule_id,
  refl,
  refl,
  refl,
  refl,
)
