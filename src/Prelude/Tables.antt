-- ===== src/Prelude/Tables.antt =====
-- SQL tables as lists of rows: the statements that the repositories run, and what a statement leaves
-- alone.
use mathlib.Core.Path.{◌≡◌, refl, ap}
use mathlib.Core.Bool.{Bool, true, false, ◌||◌}
use mathlib.Core.List.{List, [], ◌∷◌, ◌++◌}
use mathlib.Core.Option.{Option, none, some}
use native.Mathlib.Omega.{arith}
use expensor.Prelude.Tests.{if◌then◌else◌}

module _ {A : Type 0} where
  -- `SELECT ... WHERE`
  unfoldable pub select_where : (A → Bool) → List A → List A
  select_where p [] = []
  select_where p (x ∷ xs) = let rest = select_where p xs in if p x then x ∷ rest else rest

  -- `UPDATE ... SET ... WHERE`
  unfoldable pub change_where : (A → Bool) → (A → A) → List A → List A
  change_where p f [] = []
  change_where p f (x ∷ xs) = (if p x then f x else x) ∷ change_where p f xs

  -- `DELETE ... WHERE`
  unfoldable pub delete_where : (A → Bool) → List A → List A
  delete_where p [] = []
  delete_where p (x ∷ xs) = let rest = delete_where p xs in if p x then rest else x ∷ rest

  -- Some row satisfies the condition: `RowsAffected() > 0`.
  unfoldable pub exists_where : (A → Bool) → List A → Bool
  exists_where p [] = false
  exists_where p (x ∷ xs) = p x || exists_where p xs

  -- The first row that satisfies the condition.
  unfoldable pub first_where : (A → Bool) → List A → Option A
  first_where p [] = none
  first_where p (x ∷ xs) = let rest = first_where p xs in if p x then some x else rest

  -- `INSERT ... ON CONFLICT DO NOTHING`, where `same` is the conflict.
  unfoldable pub insert_unless : (A → A → Bool) → A → List A → List A
  unfolding exists_where
  insert_unless same x xs = if exists_where (same x) xs then xs else xs ++ x ∷ []

  unfoldable pub insert_all_unless : (A → A → Bool) → List A → List A → List A
  unfolding insert_unless
  insert_all_unless same [] xs = xs
  insert_all_unless same (y ∷ ys) xs = insert_all_unless same ys (insert_unless same y xs)

  pub exists_where-append :
      (p : A → Bool) (xs ys : List A)
      → exists_where p (xs ++ ys) ≡ (exists_where p xs || exists_where p ys)
  unfolding exists_where
  exists_where-append p [] ys = refl
  exists_where-append p (x ∷ xs) ys = ground (arith, exists_where-append p xs ys)

  pub select_where-append :
      (p : A → Bool) (xs ys : List A)
      → select_where p (xs ++ ys) ≡ select_where p xs ++ select_where p ys
  unfolding select_where
  select_where-append p [] ys = refl
  select_where-append p (x ∷ xs) ys = ground (arith, select_where-append p xs ys)

  append-nil : (xs : List A) → xs ++ [] ≡ xs
  append-nil [] = refl
  append-nil (x ∷ xs) = ap (◌∷◌ x) (append-nil xs)

  -- Rows that a selection does not hold may be changed, deleted and inserted unseen.
  module _ (keep : A → Bool) where
    pub select_where-change_where :
        (p : A → Bool) (f : A → A)
        → ((x : A) → p x ≡ true → keep x ≡ false)
        → ((x : A) → keep (f x) ≡ keep x)
        → (xs : List A) → select_where keep (change_where p f xs) ≡ select_where keep xs
    unfolding select_where change_where
    select_where-change_where p f apart stays [] = refl
    select_where-change_where p f apart stays (x ∷ xs) =
        ground (arith, apart x, stays x, select_where-change_where p f apart stays xs)

    pub select_where-delete_where :
        (p : A → Bool)
        → ((x : A) → p x ≡ true → keep x ≡ false)
        → (xs : List A) → select_where keep (delete_where p xs) ≡ select_where keep xs
    unfolding select_where delete_where
    select_where-delete_where p apart [] = refl
    select_where-delete_where p apart (x ∷ xs) =
        ground (arith, apart x, select_where-delete_where p apart xs)

    pub select_where-snoc :
        (x : A) (xs : List A)
        → keep x ≡ false
        → select_where keep (xs ++ x ∷ []) ≡ select_where keep xs
    unfolding select_where
    select_where-snoc x xs h =
        rw (select_where-append keep xs (x ∷ []), h) (append-nil (select_where keep xs))

    pub select_where-insert_unless :
        (same : A → A → Bool) (x : A) (xs : List A)
        → keep x ≡ false
        → select_where keep (insert_unless same x xs) ≡ select_where keep xs
    unfolding insert_unless
    select_where-insert_unless same x xs h = ground (arith, select_where-snoc x xs h)

    pub select_where-insert_all_unless :
        (same : A → A → Bool) (ys xs : List A)
        → exists_where keep ys ≡ false
        → select_where keep (insert_all_unless same ys xs) ≡ select_where keep xs
    unfolding insert_all_unless exists_where
    select_where-insert_all_unless same [] xs h = refl
    select_where-insert_all_unless same (y ∷ ys) xs h = ground (
      arith,
      select_where-insert_all_unless same ys (insert_unless same y xs),
      select_where-insert_unless same y xs,
    )

module _ {A : Type 0} where
  -- `INSERT ... ON CONFLICT ... DO UPDATE SET`, where `p` is the conflict.
  unfoldable pub upsert_where : (A → Bool) → (A → A) → A → List A → List A
  unfolding exists_where change_where
  upsert_where p f new xs = if exists_where p xs then change_where p f xs else xs ++ new ∷ []
