-- ===== src/Ledger/Deletion.antt =====
-- DeleteCategory and DeleteBucket of backend/internal/store/postgres/label_repository.go.
use mathlib.Core.Path.{subst}
use expensor.Prelude.{
  ℕ, String, Bool, true, false, not, ◌&&◌, Option, none, some, List, [], ◌∷◌, str_eq, ◌≡◌, refl,
  arith, sym, ap, eq_iff, Bool-cases, Option-cases, inl, inr,
}
use expensor.Prelude.Text.{is_blank}
use expensor.Prelude.Tables.{change_where, delete_where, exists_where, first_where}
use expensor.Prelude.Rows.{first_where-exists}
use expensor.Errors.{Err}
use expensor.Result.{ok}
use expensor.Scanning.{exec}
use expensor.Ledger.{Transaction, TaxonomyItem, Db, Faults}
use expensor.Ledger.Taxonomy.{
  Kind, category, bucket, is_item, maps_to, maps_only_to, without, items, has_value, cleared,
  delete_item, delete_named_taxonomy,
}

module _ {A : Type 0} (p : A → Bool) where
  deleted_all : (xs : List A) → exists_where p (delete_where p xs) ≡ false
  unfolding exists_where delete_where
  deleted_all [] = refl
  deleted_all (x ∷ xs) = ground (arith, deleted_all xs)

  changed_all :
      (f : A → A)
      → ((x : A) → p (f x) ≡ false)
      → (xs : List A) → exists_where p (change_where p f xs) ≡ false
  unfolding exists_where change_where
  changed_all f off [] = refl
  changed_all f off (x ∷ xs) = ground (arith, off x, changed_all f off xs)

abbrev pub is_removable : String → String → TaxonomyItem → Bool
is_removable tenant name i = is_item tenant name i && not i.is_default

not_blank : (name : String) → is_blank name ≡ false → str_eq "" name ≡ false
not_blank name h = elim (Bool-cases (str_eq "" name)) [
  | inl e ↦
      let same : "" ≡ name = ground (arith, eq_iff "" name) in
      let blank : true ≡ is_blank name = ap is_blank same in ground arith
  | inr e ↦ e
]

module _ {M : Type 0} where
  -- The tenant has no item of this name, none of its mappings names it, and none of its transactions if
  -- it was to be removed from them.
  abbrev pub IsGone : Kind → String → String → Bool → Db M → Type 0
  IsGone k tenant name remove db =
      (exists_where (is_item tenant name) (items k db) ≡ false)
      × (exists_where (maps_to k tenant name) db.merchant_categories ≡ false)
      × ((remove && exists_where (has_value k tenant name) db.transactions) ≡ false)

  cleared-value :
      (k : Kind) (now : ℕ) (tenant name : String) (t : Transaction M)
      → is_blank name ≡ false
      → has_value k tenant name (cleared k now t) ≡ false
  cleared-value category now tenant name t h = rw (not_blank name h) refl
  cleared-value bucket now tenant name t h = rw (not_blank name h) refl

  delete_item-IsGone :
      (k : Kind) (now : ℕ) (tenant name : String) (remove : Bool) (db : Db M)
      → is_blank name ≡ false
      → IsGone k tenant name remove (delete_item k now tenant name remove db)
  unfolding delete_item
  delete_item-IsGone category now tenant name true db h = (
    deleted_all (is_item tenant name) db.categories,
    changed_all (maps_to category tenant name) (without category) (λ m. refl)
        (delete_where (maps_only_to category tenant name) db.merchant_categories),
    changed_all (has_value category tenant name) (cleared category now)
        (λ t. cleared-value category now tenant name t h) db.transactions,
  )
  delete_item-IsGone category now tenant name false db h = (
    deleted_all (is_item tenant name) db.categories,
    changed_all (maps_to category tenant name) (without category) (λ m. refl)
        (delete_where (maps_only_to category tenant name) db.merchant_categories),
    refl,
  )
  delete_item-IsGone bucket now tenant name true db h = (
    deleted_all (is_item tenant name) db.buckets,
    changed_all (maps_to bucket tenant name) (without bucket) (λ m. refl)
        (delete_where (maps_only_to bucket tenant name) db.merchant_categories),
    changed_all (has_value bucket tenant name) (cleared bucket now)
        (λ t. cleared-value bucket now tenant name t h) db.transactions,
  )
  delete_item-IsGone bucket now tenant name false db h = (
    deleted_all (is_item tenant name) db.buckets,
    changed_all (maps_to bucket tenant name) (without bucket) (λ m. refl)
        (delete_where (maps_only_to bucket tenant name) db.merchant_categories),
    refl,
  )

  -- What a deletion returns that succeeds, by the item that was found.
  deletion_result :
      (k : Kind) (quote : String → String) (no_rows : Err) (faults : Faults) (now : ℕ)
      (tenant name : String) (remove : Bool) (db db' : Db M) (found : Option TaxonomyItem)
      → first_where (is_item tenant name) (items k db) ≡ found
      → delete_named_taxonomy k quote no_rows faults now tenant name remove db ≡ ok db'
      → (exists_where (is_removable tenant name) (items k db) ≡ true)
        × (db' ≡ delete_item k now tenant name remove db)
  unfolding delete_named_taxonomy exec
  deletion_result k quote no_rows faults now tenant name remove db db' none e h =
      elim (Option-cases (faults 1)) [ inl f ↦ ground arith | inr (err, f) ↦ ground arith ]
  deletion_result k quote no_rows faults now tenant name remove db db' (some i) e h =
      elim (Option-cases (faults 1)) [
        | inl f ↦ (
          ground (
            arith,
            first_where-exists (is_item tenant name) (λ (j : TaxonomyItem). not j.is_default) i
                (items k db) e,
          ),
          ground arith,
        )
        | inr (err, f) ↦ ground arith
      ]

  -- A category or bucket that a call deletes was one of the tenant's own and no default, and it is gone
  -- thereafter: the tenant has no item of that name, none of its mappings names it, and none of its
  -- transactions does if it was to be removed from them. The name is not blank.
  pub delete_named_taxonomy-IsGone :
      (k : Kind) (quote : String → String) (no_rows : Err) (faults : Faults) (now : ℕ)
      (tenant name : String) (remove : Bool) (db db' : Db M)
      → is_blank name ≡ false
      → delete_named_taxonomy k quote no_rows faults now tenant name remove db ≡ ok db'
      → (exists_where (is_removable tenant name) (items k db) ≡ true)
        × IsGone k tenant name remove db'
  delete_named_taxonomy-IsGone k quote no_rows faults now tenant name remove db db' blank h =
      let (removable, result) =
        deletion_result k quote no_rows faults now tenant name remove db db'
          (first_where (is_item tenant name) (items k db)) refl h in
      (
        removable,
        subst (IsGone k tenant name remove) (sym result)
            (delete_item-IsGone k now tenant name remove db blank),
      )
