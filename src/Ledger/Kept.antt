-- ===== src/Ledger/Kept.antt =====
-- What a batch of backend/internal/store/postgres/ingestion.go leaves of the transactions that are
-- stored already.
use mathlib.Core.Path.{subst}
use expensor.Prelude.{
  ℕ, String, Bool, Option, none, some, List, [], ◌∷◌, ◌++◌, ◌≡◌, refl, arith, ◌∙◌, ap, Bool-cases,
  inl, inr,
}
use expensor.Prelude.Text.{is_blank}
use expensor.Prelude.Tables.{change_where, exists_where, first_where}
use expensor.Ledger.{Transaction, MutedMerchant, Db, Like, Faults, not_found}
use expensor.Ledger.Upserts.{
  Incoming, is_message, new_row, refreshed, unless_blank, upsert_transaction, upsert_all,
  insert_batch_labels,
}
use expensor.Ledger.Mappings.{
  apply_merchant_labels, apply_merchant_categories, apply_muted_merchants, in_batch, categorized,
  best_match, muted_with, is_muted_by, Match,
}
use expensor.Ledger.Ingestion.{write, write_rows}
use expensor.Ledger.Operations.{ingest, after}
use expensor.Ledger.Effects.{effect, serve_one-keeps}
use expensor.Ledger.Isolation.{batch_labels-rows}

unless_blank_self : (s : String) → unless_blank s s ≡ s
unless_blank_self s = ground arith

unless_blank_trans :
    (a b c : String) → unless_blank a b ≡ b → unless_blank b c ≡ c → unless_blank a c ≡ c
unless_blank_trans a b c h k = elim (Bool-cases (is_blank a)) [
  | inl e ↦ rw e refl
  | inr e ↦ let same : a ≡ b = ground arith in ap (λ s. unless_blank s c) same ∙ k
]

unless_blank-old :
    (old new : String) → unless_blank old (unless_blank old new) ≡ unless_blank old new
unless_blank-old old new = ground arith

module _ {M : Type 0} where
  -- The second row is the first one, with what its user wrote: its description, and its category and
  -- its bucket unless they were blank.
  abbrev pub KeepsEdits : Transaction M → Transaction M → Type 0
  KeepsEdits t t' =
      (t'.id ≡ t.id)
      × (t'.tenant_id ≡ t.tenant_id)
      × (t'.message_id ≡ t.message_id)
      × (t'.description ≡ t.description)
      × (unless_blank t.category t'.category ≡ t'.category)
      × (unless_blank t.bucket t'.bucket ≡ t'.bucket)

  -- Row by row; there may be new rows behind.
  unfoldable pub AreKept : List (Transaction M) → List (Transaction M) → Type 0
  AreKept [] ts' = Unit
  AreKept (t ∷ ts) [] = ⊥
  AreKept (t ∷ ts) (t' ∷ ts') = KeepsEdits t t' × AreKept ts ts'

  KeepsEdits-refl : (t : Transaction M) → KeepsEdits t t
  KeepsEdits-refl t =
      (refl, refl, refl, refl, unless_blank_self t.category, unless_blank_self t.bucket)

  KeepsEdits-trans : (t u v : Transaction M) → KeepsEdits t u → KeepsEdits u v → KeepsEdits t v
  KeepsEdits-trans t u v (a, b, c, d, e, f) (a', b', c', d', e', f') = (
    a' ∙ a,
    b' ∙ b,
    c' ∙ c,
    d' ∙ d,
    unless_blank_trans t.category u.category v.category e e',
    unless_blank_trans t.bucket u.bucket v.bucket f f',
  )

  AreKept-refl : (ts : List (Transaction M)) → AreKept ts ts
  unfolding AreKept
  AreKept-refl [] = tt
  AreKept-refl (t ∷ ts) = (KeepsEdits-refl t, AreKept-refl ts)

  AreKept-trans : (ts us vs : List (Transaction M)) → AreKept ts us → AreKept us vs → AreKept ts vs
  unfolding AreKept
  AreKept-trans [] us vs h k = tt
  AreKept-trans (t ∷ ts) [] vs h k = elim h [ ]
  AreKept-trans (t ∷ ts) (u ∷ us) [] h k = elim k [ ]
  AreKept-trans (t ∷ ts) (u ∷ us) (v ∷ vs) (h, hs) (k, ks) =
      (KeepsEdits-trans t u v h k, AreKept-trans ts us vs hs ks)

  AreKept-append : (ts new : List (Transaction M)) → AreKept ts (ts ++ new)
  unfolding AreKept
  AreKept-append [] new = tt
  AreKept-append (t ∷ ts) new = (KeepsEdits-refl t, AreKept-append ts new)

  change_where-AreKept :
      (p : Transaction M → Bool) (f : Transaction M → Transaction M)
      → ((t : Transaction M) → KeepsEdits t (f t))
      → (ts : List (Transaction M)) → AreKept ts (change_where p f ts)
  unfolding AreKept change_where
  change_where-AreKept p f keeps [] = tt
  change_where-AreKept p f keeps (t ∷ ts) = elim (Bool-cases (p t)) [
    | inl e ↦ rw e (keeps t, change_where-AreKept p f keeps ts)
    | inr e ↦ rw e (KeepsEdits-refl t, change_where-AreKept p f keeps ts)
  ]

  upsert_transaction-AreKept :
      (now : ℕ) (tenant : String) (i : Incoming M) (ts : List (Transaction M))
      → AreKept ts (upsert_transaction now tenant i ts)
  unfolding upsert_transaction
  upsert_transaction-AreKept now tenant i ts =
      elim (Bool-cases (exists_where (is_message tenant i.message_id) ts)) [
        | inl e ↦ rw e (
            change_where-AreKept (is_message tenant i.message_id) (refreshed now i)
              (λ t. (
                refl,
                refl,
                refl,
                refl,
                unless_blank-old t.category i.category,
                unless_blank-old t.bucket i.bucket,
              ))
              ts)
        | inr e ↦ rw e (AreKept-append ts (new_row now tenant i ∷ []))
      ]

  upsert_all-AreKept :
      (now : ℕ) (tenant : String) (batch : List (Incoming M)) (ts : List (Transaction M))
      → AreKept ts (upsert_all now tenant batch ts).0
  unfolding upsert_all
  upsert_all-AreKept now tenant [] ts = AreKept-refl ts
  upsert_all-AreKept now tenant (i ∷ batch) ts =
      AreKept-trans ts (upsert_transaction now tenant i ts) _
        (upsert_transaction-AreKept now tenant i ts)
        (upsert_all-AreKept now tenant batch (upsert_transaction now tenant i ts))

  categorized-KeepsEdits :
      (now : ℕ) (m : Option Match) (t : Transaction M) → KeepsEdits t (categorized now m t)
  categorized-KeepsEdits now none t = KeepsEdits-refl t
  categorized-KeepsEdits now (some m) t = (
    refl,
    refl,
    refl,
    refl,
    unless_blank-old t.category m.category,
    unless_blank-old t.bucket m.bucket,
  )

  muted_with-KeepsEdits :
      (now : ℕ) (m : Option MutedMerchant) (t : Transaction M) → KeepsEdits t (muted_with now m t)
  muted_with-KeepsEdits now none t = KeepsEdits-refl t
  muted_with-KeepsEdits now (some m) t = KeepsEdits-refl t

  write_rows-AreKept :
      (like : Like) (now : ℕ) (tenant : String) (batch : List (Incoming M)) (db : Db M)
      → AreKept db.transactions (write_rows like now tenant batch db).transactions
  unfolding write_rows apply_merchant_labels apply_merchant_categories apply_muted_merchants
  write_rows-AreKept like now tenant batch db =
      let ids = (upsert_all now tenant batch db.transactions).1 in
      let upserted : Db M = record db {
        transactions = (upsert_all now tenant batch db.transactions).0;
      } in
      let mapped = apply_merchant_labels like ids (insert_batch_labels batch ids upserted) in
      let filed = apply_merchant_categories like now ids mapped in
      AreKept-trans db.transactions upserted.transactions _
        (upsert_all-AreKept now tenant batch db.transactions)
        (subst (λ ts. AreKept ts (apply_muted_merchants like now ids filed).transactions)
          (batch_labels-rows batch ids upserted)
          (AreKept-trans mapped.transactions filed.transactions _
            (change_where-AreKept (in_batch ids) _
              (λ t.
                categorized-KeepsEdits now
                  (best_match like mapped.mcc_codes mapped.merchant_categories t) t)
              mapped.transactions)
            (change_where-AreKept (in_batch ids) _
              (λ t.
                muted_with-KeepsEdits now (first_where (is_muted_by like t) filed.muted_merchants)
                  t)
              filed.transactions)))

  effect-AreKept :
      (like : Like) (now : ℕ) (tenant : String) (batch : List (Incoming M)) (db : Db M)
      → AreKept db.transactions (effect like now tenant (ingest batch) db).transactions
  unfolding effect
  effect-AreKept like now tenant [] db = AreKept-refl db.transactions
  effect-AreKept like now tenant (i ∷ batch) db = write_rows-AreKept like now tenant (i ∷ batch) db

  -- Whatever a batch says and whatever faults its write meets, every stored transaction is still there,
  -- in its place, with its id, its tenant, its message and its description, and with its category and
  -- its bucket unless they were blank.
  pub write-AreKept :
      (like : Like) (faults : Faults) (now : ℕ) (tenant : String) (batch : List (Incoming M))
      (db : Db M)
      → AreKept db.transactions (after db (write like faults now tenant batch db)).transactions
  write-AreKept like faults now tenant batch db =
      serve_one-keeps like (λ s. s) (not_found "" "")
        (λ (d : Db M). AreKept db.transactions d.transactions)
        (record { tenant = tenant; now = now; faults = faults; op = ingest batch }) db
        (AreKept-refl db.transactions) (effect-AreKept like now tenant batch db)
