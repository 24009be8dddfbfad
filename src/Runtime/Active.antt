-- ===== src/Runtime/Active.antt =====
-- The active LLM provider of backend/internal/store/postgres/runtime_repository.go.
use expensor.Prelude.{
  String, Bool, true, false, not, ◌&&◌, none, List, [], ◌∷◌, str_eq, ◌≡◌, refl, arith, eq_refl,
  Bool-cases, inl, inr,
}
use expensor.Prelude.Tables.{exists_where, change_where, upsert_where, exists_where-append}
use expensor.Result.{ok}
use expensor.Scanning.{exec}
use expensor.Runtime.{Bytes, ProviderRuntime}
use expensor.Runtime.Providers.{
  is_provider, is_active_of, activated, all_deactivated, activate, empty_provider,
  set_active_llm_provider,
}

abbrev pub is_active : String → String → ProviderRuntime → Bool
is_active tenant provider r = is_active_of tenant r && str_eq r.provider provider

abbrev pub is_other_active : String → String → ProviderRuntime → Bool
is_other_active tenant provider r = is_active_of tenant r && not (str_eq r.provider provider)

none_active :
    (tenant : String) (rows : List ProviderRuntime)
    → exists_where (is_active_of tenant) (all_deactivated tenant rows) ≡ false
unfolding exists_where all_deactivated change_where
none_active tenant [] = refl
none_active tenant (r ∷ rows) = elim (Bool-cases (is_active_of tenant r)) [
  | inl e ↦ ground (arith, none_active tenant rows)
  | inr e ↦ ground (arith, none_active tenant rows)
]

module _ (tenant provider : String) where
  one_activated :
      (rows : List ProviderRuntime)
      → exists_where (is_provider tenant provider) rows ≡ true
      → exists_where
          (is_active tenant provider)
          (change_where (is_provider tenant provider) activated rows)
        ≡ true
  unfolding exists_where change_where
  one_activated [] h = ground arith
  one_activated (r ∷ rows) h = elim (Bool-cases (is_provider tenant provider r)) [
    | inl e ↦ ground arith
    | inr e ↦ ground (arith, one_activated rows)
  ]

  no_other :
      (rows : List ProviderRuntime)
      → exists_where (is_active_of tenant) rows ≡ false
      → exists_where
          (is_other_active tenant provider)
          (change_where (is_provider tenant provider) activated rows)
        ≡ false
  unfolding exists_where change_where
  no_other [] h = refl
  no_other (r ∷ rows) h = elim (Bool-cases (is_provider tenant provider r)) [
    | inl e ↦ ground (arith, no_other rows)
    | inr e ↦ ground (arith, no_other rows)
  ]

  others_inactive :
      (rows : List ProviderRuntime)
      → exists_where (is_active_of tenant) rows ≡ false
      → exists_where (is_other_active tenant provider) rows ≡ false
  unfolding exists_where
  others_inactive [] h = refl
  others_inactive (r ∷ rows) h = ground (arith, others_inactive rows)

  activate-only :
      (rows : List ProviderRuntime)
      → exists_where (is_active_of tenant) rows ≡ false
      → (exists_where (is_active tenant provider) (activate tenant provider rows) ≡ true)
        × (exists_where (is_other_active tenant provider) (activate tenant provider rows) ≡ false)
  unfolding activate upsert_where exists_where
  activate-only rows h = elim (Bool-cases (exists_where (is_provider tenant provider) rows)) [
    | inl e ↦ rw e (one_activated rows e, no_other rows h)
    | inr e ↦
        rw
          (
            e,
            exists_where-append (is_active tenant provider) rows
                (activated (empty_provider tenant provider) ∷ []),
            exists_where-append (is_other_active tenant provider) rows
                (activated (empty_provider tenant provider) ∷ []),
          )
          (
            ground (arith, eq_refl tenant, eq_refl provider),
            ground (arith, eq_refl provider, others_inactive rows h),
          )
  ]

-- Activating a provider without a fault succeeds, whether or not it has a row, and makes it the tenant's
-- only active one, whatever was active before.
pub set_active_llm_provider-only :
    (quote : String → String) (valid : Bytes → Bool) (tenant provider : String)
    (rows : List ProviderRuntime)
    → (rows' : List ProviderRuntime) × (set_active_llm_provider quote valid
          (λ n. none)
          tenant
          provider
          rows
        ≡ ok rows')
      × (exists_where (is_active tenant provider) rows' ≡ true)
      × (exists_where (is_other_active tenant provider) rows' ≡ false)
unfolding set_active_llm_provider exec
set_active_llm_provider-only quote valid tenant provider rows =
    let (on, off) =
      activate-only tenant provider (all_deactivated tenant rows) (none_active tenant rows) in
    (activate tenant provider (all_deactivated tenant rows), refl, on, off)
