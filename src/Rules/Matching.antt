-- ===== src/Rules/Matching.antt =====
-- `MatchesEmail` of backend/pkg/api/api.go: the emails that a rule with senders reads.
use expensor.Prelude.{
  String, ◌≡◌, refl, true, false, List, [], ◌∷◌, arith, contains, is_empty, eq_iff,
}
use expensor.Prelude.Text.{is_blank}
use expensor.Rules.{
  Libs, Rule, keep_new, normalize_email_address, normalized_senders, email_in_list, sender_matches,
}
use expensor.Rules.Senders.{reads, keep_new-contains}

email_in_list-contains :
    {R : Type 0} (libs : Libs R)
    → ((s : String) → libs.equal_fold s s ≡ true)
    → (email : String) (senders : List String) → contains email senders ≡ true
    → email_in_list libs email senders ≡ true
unfolding email_in_list contains
email_in_list-contains libs folds email [] h = cc
email_in_list-contains libs folds email (s ∷ senders) h =
    ground (arith, email_in_list-contains libs folds email senders, eq_iff s email, folds email)

nonempty : (x : String) (xs : List String) → contains x xs ≡ true → is_empty xs ≡ false
unfolding contains
nonempty x [] h = cc
nonempty x (y ∷ ys) h = refl

-- An address that the rule lists, under any spelling with the same normal form as the header's, is
-- a sender that the rule reads, provided that a text is equal to itself without regard to case.
pub sender_matches-listed :
    {R : Type 0} (libs : Libs R) (r : Rule R) (from_header : String)
    → ((s : String) → libs.equal_fold s s ≡ true)
    → is_empty r.sender_emails ≡ false
    → is_blank (normalize_email_address libs from_header) ≡ false
    → reads
        (normalize_email_address libs)
        (normalize_email_address libs from_header)
        r.sender_emails
      ≡ true
    → sender_matches libs (normalized_senders libs r) from_header ≡ true
unfolding sender_matches normalized_senders contains
sender_matches-listed libs r from_header folds listed filled read = ground (
  arith,
  email_in_list-contains libs folds (normalize_email_address libs from_header)
      (keep_new (normalize_email_address libs) [] r.sender_emails),
  nonempty (normalize_email_address libs from_header)
      (keep_new (normalize_email_address libs) [] r.sender_emails),
  keep_new-contains (normalize_email_address libs) [] r.sender_emails
      (normalize_email_address libs from_header) filled,
)
