-- ===== src/Runtime/Keyed.antt =====
-- What an upsert does to the rows of a table that backend/internal/store/postgres reads by their key.
use expensor.Prelude.{
  Bool, true, false, Option, none, some, List, [], ◌∷◌, ◌++◌, ◌≡◌, refl, arith, Bool-cases, inl,
  inr,
}
use expensor.Prelude.Tables.{exists_where, first_where, change_where, upsert_where}

-- The row after an upsert, by the row before.
abbrev pub upserted : {A : Type 0} → (A → A) → A → Option A → Option A
upserted f new none = some new
upserted f new (some old) = some (f old)

module _ {A : Type 0} (p : A → Bool) (f : A → A) (new : A) where
  first_where-changed :
      (xs : List A)
      → ((x : A) → p (f x) ≡ p x)
      → exists_where p xs ≡ true
      → first_where p (change_where p f xs) ≡ upserted f new (first_where p xs)
  unfolding first_where change_where exists_where
  first_where-changed [] stays h = ground arith
  first_where-changed (x ∷ xs) stays h = elim (Bool-cases (p x)) [
    | inl e ↦ rw (e, stays x, e) refl
    | inr e ↦ rw (e, e) (first_where-changed xs stays (ground arith))
  ]

  first_where-added :
      (xs : List A)
      → p new ≡ true
      → exists_where p xs ≡ false
      → first_where p (xs ++ new ∷ []) ≡ upserted f new (first_where p xs)
  unfolding first_where exists_where
  first_where-added [] is_new h = ground arith
  first_where-added (x ∷ xs) is_new h = elim (Bool-cases (p x)) [
    | inl e ↦ ground arith
    | inr e ↦ rw e (first_where-added xs is_new (ground arith))
  ]

  pub first_where-upsert_where :
      (xs : List A)
      → ((x : A) → p (f x) ≡ p x)
      → p new ≡ true
      → first_where p (upsert_where p f new xs) ≡ upserted f new (first_where p xs)
  unfolding upsert_where
  first_where-upsert_where xs stays is_new = elim (Bool-cases (exists_where p xs)) [
    | inl e ↦ rw e (first_where-changed xs stays e)
    | inr e ↦ rw e (first_where-added xs is_new e)
  ]

  -- Rows of other keys are read as before.
  module _ (q : A → Bool) (apart : (x : A) → p x ≡ true → q x ≡ false)
      (stays : (x : A) → q (f x) ≡ q x) where
    first_where-kept : (xs : List A) → first_where q (change_where p f xs) ≡ first_where q xs
    unfolding first_where change_where
    first_where-kept [] = refl
    first_where-kept (x ∷ xs) = ground (arith, apart x, stays x, first_where-kept xs)

    first_where-behind :
        (xs : List A) → p new ≡ true → first_where q (xs ++ new ∷ []) ≡ first_where q xs
    unfolding first_where
    first_where-behind [] is_new = ground (arith, apart new)
    first_where-behind (x ∷ xs) is_new = ground (arith, first_where-behind xs)

    pub first_where-upsert_other :
        (xs : List A) → p new ≡ true → first_where q (upsert_where p f new xs) ≡ first_where q xs
    unfolding upsert_where
    first_where-upsert_other xs is_new =
        ground (arith, first_where-kept xs, first_where-behind xs is_new)
