-- ===== src/Thunderbird/Origin.antt =====
-- backend/pkg/reader/thunderbird/thunderbird.go: where a sent transaction comes from, and that an
-- acknowledged one is not sent again.
use mathlib.Core.Path.{subst}
use expensor.Prelude.{
  String, ◌≡◌, ◌⊎◌, refl, sym, Bool, true, false, ◌||◌, Option, none, some, List, [], ◌∷◌, All,
  if◌then◌else◌, inl, inr, contains,
}
use expensor.Errors.{Err}
use expensor.Result.{ok, Result-cases}
use expensor.Rules.{Rule, matches_email}
use expensor.Thunderbird.{
  Libs, Message, Transaction, Processed, is_processed, Reader, Turn, context_done, unreadable,
  message, generate_key, is_before_checkpoint, matches_rule, by_rule, known, process_message, send,
  scan_mailbox,
}

abbrev pub Among : {A : Type 0} → A → List A → Type 0
Among x [] = ⊥
Among x (y ∷ ys) = (x ≡ y) ⊎ Among x ys

-- The predicate holds of the value, if there is one.
abbrev pub OnSome {ℓ κ} : {A : Type ℓ} → (A → Type κ) → Option A → Type κ
OnSome P none = Unit
OnSome P (some a) = P a

pub OnSome-map {ℓ κ μ} :
    {A : Type ℓ} {P : A → Type κ} {Q : A → Type μ}
    → ((a : A) → P a → Q a)
    → (o : Option A) → OnSome P o
    → OnSome Q o
OnSome-map f none h = tt
OnSome-map f (some a) h = f a h

-- The rule is one of the reader's and matches the message, which is not behind the checkpoint; the
-- transaction is what the rule extracts from it, and carries its key.
abbrev pub ComesFrom :
    {R T : Type 0} → Libs R T → Reader R → String → Message → Transaction T → Type 0
ComesFrom {R} libs r path msg t =
    (rule : Rule R) × Among rule r.rules
    × (matches_email libs.rules rule msg.from_header msg.subject ≡ true)
    × (is_before_checkpoint libs r msg.date ≡ false)
    × (libs.extract msg rule ≡ ok t.details)
    × (t.message_id ≡ generate_key libs path msg.message_id msg.date)

abbrev IsMatch : {R T : Type 0} → Libs R T → Message → List (Rule R) → Rule R → Type 0
IsMatch libs msg rules rule =
    Among rule rules × (matches_email libs.rules rule msg.from_header msg.subject ≡ true)

matches_rule-OnSome :
    {R T : Type 0} (libs : Libs R T) (rules : List (Rule R)) (msg : Message)
    → OnSome (IsMatch libs msg rules) (matches_rule libs rules msg)
unfolding matches_rule
matches_rule-OnSome libs [] msg = tt
matches_rule-OnSome libs (r ∷ rules) msg =
    by_test (matches_email libs.rules r msg.from_header msg.subject) refl
      (matches_rule-OnSome libs rules msg)
  where
    by_test :
        (b : Bool)
        → matches_email libs.rules r msg.from_header msg.subject ≡ b
        → OnSome (IsMatch libs msg rules) (matches_rule libs rules msg)
        → OnSome (IsMatch libs msg (r ∷ rules)) (if b then some r else matches_rule libs rules msg)
    by_test true e later = (inl refl, e)
    by_test false e later =
        OnSome-map (λ rule (h : IsMatch libs msg rules rule). (inr h.0, h.1))
          (matches_rule libs rules msg) later

-- What `process_message` sends of a message that is not skipped.
by_rule-ComesFrom :
    {R T : Type 0} (libs : Libs R T) (r : Reader R) (path : String) (msg : Message)
    → is_before_checkpoint libs r msg.date ≡ false
    → (o : Option (Rule R)) → OnSome (IsMatch libs msg r.rules) o
    → OnSome
        (ComesFrom libs r path msg)
        (by_rule libs (generate_key libs path msg.message_id msg.date) msg o)
by_rule-ComesFrom libs r path msg new none h = tt
by_rule-ComesFrom libs r path msg new (some rule) h = elim (Result-cases (libs.extract msg rule)) [
  | inr (err, e) ↦ rw e tt
  | inl (t, e) ↦ rw e (rule, h.0, h.1, new, e, refl)
]

-- A store that there is does not hold the key.
abbrev pub IsNotHeld : Option (Option Processed) → String → Type 0
IsNotHeld none k = Unit
IsNotHeld (some none) k = Unit
IsNotHeld (some (some processed)) k = contains k processed ≡ false

-- The store failed to answer, or it does not hold the key.
abbrev pub IsNew : Option (Option Processed) → Option Err → String → Type 0
IsNew st none k = IsNotHeld st k
IsNew st (some err) k = Unit

known-IsNew :
    (st : Option (Option Processed)) (fault : Option Err) (k : String)
    → known st fault k ≡ false
    → IsNew st fault k
unfolding is_processed
known-IsNew none none k h = tt
known-IsNew (some none) none k h = tt
known-IsNew (some (some processed)) none k h = h
known-IsNew st (some err) k h = tt

process_message-OnSome :
    {R T : Type 0} (libs : Libs R T) (r : Reader R) (path : String) (fault : Option Err)
    (msg : Message)
    → OnSome
        (λ t. ComesFrom libs r path msg t × IsNew r.state fault t.message_id)
        (process_message libs r path fault msg)
unfolding process_message
process_message-OnSome libs r path fault msg =
    by_tests (known r.state fault (generate_key libs path msg.message_id msg.date)) refl
      (is_before_checkpoint libs r msg.date) refl
  where
    by_tests :
        (k : Bool)
        → known r.state fault (generate_key libs path msg.message_id msg.date) ≡ k
        → (b : Bool) → is_before_checkpoint libs r msg.date ≡ b
        → OnSome
            (λ t. ComesFrom libs r path msg t × IsNew r.state fault t.message_id)
            (if k || b
              then none
              else by_rule libs
                  (generate_key libs path msg.message_id msg.date)
                  msg
                  (matches_rule libs r.rules msg))
    by_tests true e b f = tt
    by_tests false e true f = tt
    by_tests false e false f =
        OnSome-map
          (λ t (h : ComesFrom libs r path msg t).
            (h, subst (IsNew r.state fault) (sym h.5) (known-IsNew r.state fault _ e)))
          (by_rule libs (generate_key libs path msg.message_id msg.date) msg
            (matches_rule libs r.rules msg))
          (by_rule-ComesFrom libs r path msg f (matches_rule libs r.rules msg)
            (matches_rule-OnSome libs r.rules msg))

-- One of the turns held the message that the transaction comes from, and the store did not hold its key
-- or failed to answer.
abbrev pub SentFrom :
    {R T : Type 0} → Libs R T → Reader R → String → List Turn → Transaction T → Type 0
SentFrom libs r path [] t = ⊥
SentFrom libs r path (context_done err ∷ turns) t = ⊥
SentFrom libs r path (unreadable ∷ turns) t = SentFrom libs r path turns t
SentFrom libs r path (message fault canceled msg ∷ turns) t =
    (ComesFrom libs r path msg t × IsNew r.state fault t.message_id) ⊎ SentFrom libs r path turns t

pub All-map :
    {A : Type 0} {P Q : A → Type 0} → ((a : A) → P a → Q a) → (xs : List A) → All P xs → All Q xs
All-map f [] h = tt
All-map f (x ∷ xs) h = (f x h.0, All-map f xs h.1)

send-All :
    {T : Type 0} (P : Transaction T → Type 0) (o : Option (Transaction T)) (canceled : Option Err)
    (rest : List (Transaction T) × Option Err)
    → OnSome P o
    → All P rest.0
    → All P (send o canceled rest).0
send-All P none canceled rest h k = k
send-All P (some t) none (sent, err) h k = (h, k)
send-All P (some t) (some err) rest h k = tt

-- Every transaction that the scan of a mailbox sends comes from a message of it that is not behind the
-- checkpoint, and whose key the store of processed keys does not hold, unless that store is missing or
-- failed to answer for this message; one of the reader's rules matches the message and extracts the
-- transaction, which carries the message's key.
pub scan_mailbox-SentFrom :
    {R T : Type 0} (libs : Libs R T) (r : Reader R) (path : String) (turns : List Turn)
    → All (SentFrom libs r path turns) (scan_mailbox libs r path turns).0
unfolding scan_mailbox
scan_mailbox-SentFrom libs r path [] = tt
scan_mailbox-SentFrom libs r path (context_done err ∷ turns) = tt
scan_mailbox-SentFrom libs r path (unreadable ∷ turns) = scan_mailbox-SentFrom libs r path turns
scan_mailbox-SentFrom libs r path (message fault canceled msg ∷ turns) =
    send-All _ (process_message libs r path fault msg) canceled (scan_mailbox libs r path turns)
      (OnSome-map (λ t h. inl h) (process_message libs r path fault msg)
        (process_message-OnSome libs r path fault msg))
      (All-map (λ t h. inr h) (scan_mailbox libs r path turns).0
        (scan_mailbox-SentFrom libs r path turns))
