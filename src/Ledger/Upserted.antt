-- ===== src/Ledger/Upserted.antt =====
-- The ids of a batch of backend/internal/store/postgres/ingestion.go: whose transactions its
-- statements write.
use expensor.Prelude.{
  ℕ, String, Bool, true, false, not, ◌&&◌, ◌||◌, some, List, [], ◌∷◌, str_eq, contains, ◌≡◌, refl,
  arith, ◌∙◌, eq_iff, eq_refl, Option-cases, inl, inr,
}
use expensor.Prelude.Tables.{
  exists_where, first_where, exists_where-append, select_where, select_where-change_where,
  select_where-snoc,
}
use expensor.Prelude.Rows.{exists_where-change_where, exists_where-implies, first_where-exists}
use expensor.Ledger.{Transaction, is_own, owns}
use expensor.Ledger.Upserts.{
  Incoming, is_message, new_row, refreshed, id_of, upsert_transaction, upsert_all,
}

module _ {M : Type 0} where
  -- No transaction of one tenant has the id of one of the other.
  abbrev pub AreApart : String → String → List (Transaction M) → Type 0
  AreApart tenant other ts = (k : String) → owns tenant ts k ≡ true → owns other ts k ≡ false

  -- The ids that the database generates for the batch are none of the other tenant's.
  unfoldable pub fresh_for : String → List (Transaction M) → List (Incoming M) → Bool
  fresh_for other ts [] = true
  fresh_for other ts (i ∷ batch) = not (owns other ts i.fresh_id) && fresh_for other ts batch

  -- The rows of a tenant.
  abbrev pub is_row_of : String → Transaction M → Bool
  is_row_of tenant t = str_eq t.tenant_id tenant

  module _ (now : ℕ) (tenant other : String) (differ : str_eq tenant other ≡ false) where
    owns-upsert_transaction :
        (i : Incoming M) (ts : List (Transaction M)) (k : String)
        → owns other (upsert_transaction now tenant i ts) k ≡ owns other ts k
    unfolding upsert_transaction owns exists_where
    owns-upsert_transaction i ts k = ground (
      arith,
      exists_where-change_where (is_own other k) (is_message tenant i.message_id) (refreshed now i)
          (λ t. refl) ts,
      exists_where-append (is_own other k) ts (new_row now tenant i ∷ []),
    )

    own-upsert_transaction :
        (i : Incoming M) (ts : List (Transaction M)) (k : String)
        → owns tenant (upsert_transaction now tenant i ts) k ≡ true
        → (owns tenant ts k || str_eq i.fresh_id k) ≡ true
    unfolding upsert_transaction owns exists_where
    own-upsert_transaction i ts k h = ground (
      arith,
      exists_where-change_where (is_own tenant k) (is_message tenant i.message_id) (refreshed now i)
          (λ t. refl) ts,
      exists_where-append (is_own tenant k) ts (new_row now tenant i ∷ []),
    )

    upsert_transaction-AreApart :
        (i : Incoming M) (ts : List (Transaction M))
        → owns other ts i.fresh_id ≡ false
        → AreApart tenant other ts
        → AreApart tenant other (upsert_transaction now tenant i ts)
    upsert_transaction-AreApart i ts fresh apart k h = ground (
      arith,
      apart k,
      eq_iff i.fresh_id k,
      owns-upsert_transaction i ts k,
      own-upsert_transaction i ts k h,
    )

    fresh_for-upsert_transaction :
        (i : Incoming M) (ts : List (Transaction M)) (batch : List (Incoming M))
        → fresh_for other (upsert_transaction now tenant i ts) batch ≡ fresh_for other ts batch
    unfolding fresh_for
    fresh_for-upsert_transaction i ts [] = refl
    fresh_for-upsert_transaction i ts (j ∷ batch) =
        rw (owns-upsert_transaction i ts j.fresh_id, fresh_for-upsert_transaction i ts batch) refl

    found :
        (i : Incoming M) (ts : List (Transaction M)) (t : Transaction M)
        → first_where (is_message tenant i.message_id) ts ≡ some t
        → owns tenant ts t.id ≡ true
    unfolding owns
    found i ts t e =
        exists_where-implies
          (λ (u : Transaction M). is_message tenant i.message_id u && str_eq u.id t.id)
          (is_own tenant t.id) (λ u h. ground arith) ts
          (first_where-exists (is_message tenant i.message_id)
            (λ (u : Transaction M). str_eq u.id t.id) t ts e (eq_refl t.id))

    -- The id that a statement returns.
    id_of-apart :
        (i : Incoming M) (ts : List (Transaction M))
        → owns other ts i.fresh_id ≡ false
        → AreApart tenant other ts
        → owns other ts (id_of i.fresh_id (first_where (is_message tenant i.message_id) ts)) ≡ false
    id_of-apart i ts fresh apart =
        elim (Option-cases (first_where (is_message tenant i.message_id) ts)) [
          | inl e ↦ rw e fresh
          | inr (t, e) ↦ rw e (apart t.id (found i ts t e))
        ]

    -- After a batch the other tenant's rows are the same, and none of the returned ids is theirs.
    pub upsert_all-owns :
        (batch : List (Incoming M)) (ts : List (Transaction M)) (k : String)
        → owns other (upsert_all now tenant batch ts).0 k ≡ owns other ts k
    unfolding upsert_all
    upsert_all-owns [] ts k = refl
    upsert_all-owns (i ∷ batch) ts k =
        upsert_all-owns batch (upsert_transaction now tenant i ts) k
        ∙ owns-upsert_transaction i ts k

    pub upsert_all-apart :
        (batch : List (Incoming M)) (ts : List (Transaction M))
        → AreApart tenant other ts
        → fresh_for other ts batch ≡ true
        → (k : String) → contains k (upsert_all now tenant batch ts).1 ≡ true
        → owns other ts k ≡ false
    unfolding upsert_all contains fresh_for
    upsert_all-apart [] ts apart fresh k h = ground arith
    upsert_all-apart (i ∷ batch) ts apart fresh k h =
        let new : owns other ts i.fresh_id ≡ false = ground arith in
        let id = id_of i.fresh_id (first_where (is_message tenant i.message_id) ts) in
        ground (
          arith,
          eq_iff id k,
          id_of-apart i ts new apart,
          owns-upsert_transaction i ts k,
          upsert_all-apart batch (upsert_transaction now tenant i ts)
              (upsert_transaction-AreApart i ts new apart)
              (fresh_for-upsert_transaction i ts batch ∙ ground arith) k,
        )

    pub select_where-upsert_all :
        (batch : List (Incoming M)) (ts : List (Transaction M))
        → select_where (is_row_of other) (upsert_all now tenant batch ts).0
          ≡ select_where (is_row_of other) ts
    unfolding upsert_all upsert_transaction
    select_where-upsert_all [] ts = refl
    select_where-upsert_all (i ∷ batch) ts =
        select_where-upsert_all batch (upsert_transaction now tenant i ts)
        ∙ ground (
          arith,
          select_where-snoc (is_row_of other) (new_row now tenant i) ts,
          select_where-change_where (is_row_of other) (is_message tenant i.message_id)
              (refreshed now i)
              (λ t h.
                ground
                  (arith, eq_iff t.tenant_id tenant, eq_iff t.tenant_id other, eq_iff tenant other))
              (λ t. refl) ts,
        )
