-- ===== src/Prelude/Rows.antt =====
-- Which rows a statement leaves in a table that satisfy a condition.
use mathlib.Core.Path.{◌≡◌, refl, sym, ◌∙◌, ap}
use mathlib.Core.Bool.{Bool, true, false, not, ◌||◌, ◌&&◌}
use mathlib.Core.List.{List, [], ◌∷◌}
use native.Mathlib.Omega.{arith}
use mathlib.Core.Logic.{inl, inr}
use mathlib.Core.Option.{some}
use expensor.Prelude.Tests.{Bool-cases}
use expensor.Prelude.Tables.{
  select_where, first_where, delete_where, exists_where, insert_unless, insert_all_unless,
  exists_where-append, change_where,
}

module _ {A : Type 0} (p : A → Bool) where
  pub exists_where-implies :
      (q : A → Bool)
      → ((x : A) → p x ≡ true → q x ≡ true)
      → (xs : List A) → exists_where p xs ≡ true
      → exists_where q xs ≡ true
  unfolding exists_where
  exists_where-implies q within [] h = ground arith
  exists_where-implies q within (x ∷ xs) h =
      ground (arith, within x, exists_where-implies q within xs)

  pub exists_where-change_where :
      (q : A → Bool) (f : A → A)
      → ((x : A) → p (f x) ≡ p x)
      → (xs : List A) → exists_where p (change_where q f xs) ≡ exists_where p xs
  unfolding exists_where change_where
  exists_where-change_where q f stays [] = refl
  exists_where-change_where q f stays (x ∷ xs) =
      ground (arith, stays x, exists_where-change_where q f stays xs)

  -- A row equal to one that is inserted satisfies the condition with it.
  module _ (same : A → A → Bool) (alike : (x y : A) → same x y ≡ true → p y ≡ p x) where
    same_exists :
        (x : A) (xs : List A)
        → exists_where (same x) xs ≡ true
        → p x ≡ true
        → exists_where p xs ≡ true
    unfolding exists_where
    same_exists x [] h t = ground arith
    same_exists x (y ∷ xs) h t = ground (arith, alike x y, same_exists x xs)

    pub exists_where-insert_unless :
        (x : A) (xs : List A)
        → exists_where p (insert_unless same x xs) ≡ (p x || exists_where p xs)
    unfolding insert_unless exists_where
    exists_where-insert_unless x xs =
        ground (arith, same_exists x xs, exists_where-append p xs (x ∷ []))

    pub exists_where-insert_all_unless :
        (ys xs : List A)
        → exists_where p (insert_all_unless same ys xs) ≡ (exists_where p ys || exists_where p xs)
    unfolding insert_all_unless exists_where
    exists_where-insert_all_unless [] xs = refl
    exists_where-insert_all_unless (y ∷ ys) xs = ground (
      arith,
      exists_where-insert_all_unless ys (insert_unless same y xs),
      exists_where-insert_unless y xs,
    )

  -- A deletion that takes all or none of the rows of the condition.
  pub exists_where-delete_where :
      (q : A → Bool) (c : Bool)
      → ((x : A) → p x ≡ true → q x ≡ c)
      → (xs : List A) → exists_where p (delete_where q xs) ≡ (exists_where p xs && not c)
  unfolding exists_where delete_where
  exists_where-delete_where q c fixed [] = refl
  exists_where-delete_where q c fixed (x ∷ xs) =
      ground (arith, fixed x, exists_where-delete_where q c fixed xs)

  pub exists_where-delete_where-implies :
      (q : A → Bool) (xs : List A)
      → exists_where p (delete_where q xs) ≡ true
      → exists_where p xs ≡ true
  unfolding exists_where delete_where
  exists_where-delete_where-implies q [] h = h
  exists_where-delete_where-implies q (x ∷ xs) h =
      ground (arith, exists_where-delete_where-implies q xs)

  -- A row of the condition that a deletion took.
  pub exists_where-deleted :
      (q r : A → Bool)
      → ((x : A) → p x ≡ true → q x ≡ true → r x ≡ true)
      → (xs : List A) → exists_where p xs ≡ true
      → exists_where p (delete_where q xs) ≡ false
      → exists_where r xs ≡ true
  unfolding exists_where delete_where
  exists_where-deleted q r taken [] h n = ground arith
  exists_where-deleted q r taken (x ∷ xs) h n =
      ground (arith, taken x, exists_where-deleted q r taken xs)

module _ {A : Type 0} (keep : A → Bool) where
  -- The changed rows of this table are none that the selection holds.
  pub select_where-changed_others :
      (p : A → Bool) (f : A → A)
      → ((x : A) → keep (f x) ≡ keep x)
      → (xs : List A) → exists_where (λ x. p x && keep x) xs ≡ false
      → select_where keep (change_where p f xs) ≡ select_where keep xs
  unfolding select_where change_where exists_where
  select_where-changed_others p f stays [] h = refl
  select_where-changed_others p f stays (x ∷ xs) h =
      ground (arith, stays x, select_where-changed_others p f stays xs)

module _ {A : Type 0} where
  -- The row that was found is one of the table, and is one that was looked for.
  pub first_where-exists :
      (p q : A → Bool) (x : A) (xs : List A)
      → first_where p xs ≡ some x
      → q x ≡ true
      → exists_where (λ y. p y && q y) xs ≡ true
  unfolding first_where exists_where
  first_where-exists p q x [] h t = ground arith
  first_where-exists p q x (y ∷ xs) h t = elim (Bool-cases (p y)) [
    | inl e ↦ let same : y ≡ x = ground arith in rw (e, same, t) refl
    | inr e ↦ ground (arith, first_where-exists p q x xs)
  ]

  pub first_where-satisfies :
      (p : A → Bool) (x : A) (xs : List A) → first_where p xs ≡ some x → p x ≡ true
  unfolding first_where
  first_where-satisfies p x [] h = ground arith
  first_where-satisfies p x (y ∷ xs) h = elim (Bool-cases (p y)) [
    | inl e ↦ let same : y ≡ x = ground arith in ap p (sym same) ∙ e
    | inr e ↦ ground (arith, first_where-satisfies p x xs)
  ]

  pub first_where-found :
      (p q : A → Bool) (x : A) (xs : List A)
      → first_where p xs ≡ some x
      → q x ≡ true
      → exists_where q xs ≡ true
  unfolding first_where exists_where
  first_where-found p q x [] h t = ground arith
  first_where-found p q x (y ∷ xs) h t = elim (Bool-cases (p y)) [
    | inl e ↦ let same : y ≡ x = ground arith in rw (same, t) refl
    | inr e ↦ ground (arith, first_where-found p q x xs)
  ]
