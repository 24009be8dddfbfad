-- ===== src/Ledger/Mutes.antt =====
-- The muting of transactions and merchants in
-- backend/internal/store/postgres/transactions_repository.go.
use expensor.Prelude.{
  ℕ, String, Bool, true, false, ◌&&◌, Option, none, some, List, [], ◌∷◌, ◌++◌, str_eq,
  if◌then◌else◌,
}
use expensor.Prelude.Tables.{change_where, delete_where, exists_where, first_where}
use expensor.Errors.{Err}
use expensor.Result.{Result, ok, fail, ◌>>=◌}
use expensor.Scanning.{exec}
use expensor.Ledger.{
  Transaction, MutedMerchant, Db, Like, Faults, is_own, owns, not_found, require_affected,
}

module _ {M : Type 0} where
  abbrev pub muted_by_hand : ℕ → String → Transaction M → Transaction M
  muted_by_hand now reason t = record t {
    muted = true;
    muted_by_merchant = false;
    mute_reason = reason;
    updated_at = now;
  }

  abbrev pub unmuted : ℕ → Transaction M → Transaction M
  unmuted now t = record t {
    muted = false;
    muted_by_merchant = false;
    mute_reason = "";
    updated_at = now;
  }

  abbrev pub muted_as : ℕ → String → Transaction M → Transaction M
  muted_as now reason t = record t {
    muted = true;
    muted_by_merchant = true;
    mute_reason = reason;
    updated_at = now;
  }

  abbrev pub mute_change : ℕ → Bool → String → Transaction M → Transaction M
  mute_change now true reason = muted_by_hand now reason
  mute_change now false reason = unmuted now

  -- `MuteTransaction`.
  unfoldable pub mute_transaction :
      Faults → ℕ → String → String → Bool → String → Db M → Result (Db M)
  unfolding exec change_where owns
  mute_transaction faults now tenant id muted reason db = do
    db' ← exec (faults 0) "postgres.transactions.mute_transaction" "muting transaction" (record db {
      transactions = change_where (is_own tenant id) (mute_change now muted reason) db.transactions;
    })
    require_affected (owns tenant db.transactions id)
        (not_found "store.transactions.mute" "transaction not found") db'

  abbrev pub is_own_muted : String → String → Transaction M → Bool
  is_own_muted tenant id t = is_own tenant id t && t.muted

  abbrev pub with_reason : ℕ → String → Transaction M → Transaction M
  with_reason now reason t = record t { mute_reason = reason; updated_at = now }

  -- `UpdateMuteReason`: a transaction that is not muted is not found.
  unfoldable pub update_mute_reason : Faults → ℕ → String → String → String → Db M → Result (Db M)
  unfolding exec change_where exists_where
  update_mute_reason faults now tenant id reason db = do
    db' ←
        exec (faults 0) "postgres.transactions.update_mute_reason" "updating mute reason"
          (record db {
            transactions =
                change_where (is_own_muted tenant id) (with_reason now reason) db.transactions;
          })
    require_affected (exists_where (is_own_muted tenant id) db.transactions)
        (not_found "store.transactions.update_mute_reason" "transaction not found") db'

  -- `merchant_info ILIKE '%pattern%' AND tenant_id = ...`
  abbrev pub is_matched : Like → String → String → Transaction M → Bool
  is_matched like tenant pattern t =
      str_eq t.tenant_id tenant && like t.details.merchant_info pattern

abbrev pub is_merchant_of : String → String → MutedMerchant → Bool
is_merchant_of tenant id m = str_eq m.id id && str_eq m.tenant_id tenant

abbrev pub is_pattern_of : String → String → MutedMerchant → Bool
is_pattern_of tenant pattern m = str_eq m.pattern pattern && str_eq m.tenant_id tenant

-- The upsert of a muted merchant; `id` is what the database generates for a new row.
unfoldable pub upsert_muted :
    String → String → String → String → List MutedMerchant → List MutedMerchant
unfolding change_where exists_where
upsert_muted id tenant pattern reason ms =
    if exists_where (is_pattern_of tenant pattern) ms
    then change_where (is_pattern_of tenant pattern)
        (λ (m : MutedMerchant). record m { reason = reason }) ms
    else ms ++ record { id = id; tenant_id = tenant; pattern = pattern; reason = reason } ∷ []

abbrev pub require_merchant : Option MutedMerchant → Result MutedMerchant
require_merchant none =
    fail
      (not_found "store.transactions.delete_muted_merchant_and_unmute" "muted merchant not found")
require_merchant (some m) = ok m

abbrev pub commit {ℓ} : {A : Type ℓ} → Option Err → A → Result A
commit none a = ok a
commit (some err) a = fail err

module _ {M : Type 0} where
  -- `UpdateMerchantReason`.
  unfoldable pub update_merchant_reason : Faults → String → String → String → Db M → Result (Db M)
  unfolding exec change_where exists_where
  update_merchant_reason faults tenant id reason db = do
    db' ←
        exec (faults 0) "postgres.transactions.update_merchant_reason" "updating merchant reason"
          (record db {
            muted_merchants =
                change_where (is_merchant_of tenant id)
                  (λ (m : MutedMerchant). record m { reason = reason }) db.muted_merchants;
          })
    require_affected (exists_where (is_merchant_of tenant id) db.muted_merchants)
        (not_found "store.transactions.update_merchant_reason" "muted merchant not found") db'

  -- `MuteByMerchant`: the commit's error is passed on as it is.
  unfoldable pub mute_by_merchant :
      Like → Faults → ℕ → String → String → String → String → Db M → Result (Db M)
  unfolding exec change_where upsert_muted
  mute_by_merchant like faults now id tenant pattern reason db = do
    begun ←
        exec (faults 0) "postgres.transactions.mute_by_merchant"
          "beginning mute-by-merchant transaction" db
    stored ←
        exec (faults 1) "postgres.transactions.mute_by_merchant" "storing muted merchant pattern"
          (record begun {
            muted_merchants = upsert_muted id tenant pattern reason begun.muted_merchants;
          })
    muted ←
        exec (faults 2) "postgres.transactions.mute_by_merchant" "muting transactions by merchant"
          (record stored {
            transactions =
                change_where (is_matched like tenant pattern) (muted_as now reason)
                  stored.transactions;
          })
    commit (faults 3) muted

  -- `DeleteMutedMerchant`.
  unfoldable pub delete_muted_merchant : Faults → String → String → Db M → Result (Db M)
  unfolding exec delete_where exists_where
  delete_muted_merchant faults tenant id db = do
    db' ←
        exec (faults 0) "postgres.transactions.delete_muted_merchant" "deleting muted merchant"
          (record db {
            muted_merchants = delete_where (is_merchant_of tenant id) db.muted_merchants;
          })
    require_affected (exists_where (is_merchant_of tenant id) db.muted_merchants)
        (not_found "store.transactions.delete_muted_merchant" "muted merchant not found") db'

  -- The update that unmutes the tenant's transactions of a pattern.
  unfoldable pub unmute_matched : Like → ℕ → String → String → Db M → Db M
  unfolding change_where
  unmute_matched like now tenant pattern db = record db {
    transactions = change_where (is_matched like tenant pattern) (unmuted now) db.transactions;
  }

  -- `UnmuteByPattern`.
  unfoldable pub unmute_by_pattern : Like → Faults → ℕ → String → String → Db M → Result (Db M)
  unfolding exec unmute_matched
  unmute_by_pattern like faults now tenant pattern db =
      exec (faults 0) "postgres.transactions.unmute_by_pattern" "unmuting by pattern"
        (unmute_matched like now tenant pattern db)

  -- `DeleteMutedMerchantAndUnmute`.
  unfoldable pub delete_muted_merchant_and_unmute :
      Like → Faults → ℕ → String → String → Db M → Result (Db M)
  unfolding exec delete_where first_where unmute_matched
  delete_muted_merchant_and_unmute like faults now tenant id db = do
    begun ←
        exec (faults 0) "postgres.transactions.delete_muted_merchant_and_unmute"
          "beginning transaction" db
    deleted ←
        exec (faults 1) "postgres.transactions.delete_muted_merchant_and_unmute"
          "deleting muted merchant"
          (record begun {
            muted_merchants = delete_where (is_merchant_of tenant id) begun.muted_merchants;
          })
    m ← require_merchant (first_where (is_merchant_of tenant id) begun.muted_merchants)
    unmuted_db ←
        exec (faults 2) "postgres.transactions.delete_muted_merchant_and_unmute"
          "unmuting transactions" (unmute_matched like now tenant m.pattern deleted)
    commit (faults 3) unmuted_db
