-- ===== src/Ledger/Muting.antt =====
-- MuteByMerchant and then DeleteMutedMerchantAndUnmute of
-- backend/internal/store/postgres/transactions_repository.go.
