-- ===== src/Prelude/Snoc.antt =====
-- Statements on a table whose last row is new, and two changes of the same rows.
use mathlib.Core.Path.{◌≡◌, refl}
use mathlib.Core.Bool.{Bool, true, false}
use mathlib.Core.Option.{some}
use mathlib.Core.List.{List, [], ◌∷◌, ◌++◌}
use native.Mathlib.Omega.{arith}
use expensor.Prelude.Tables.{change_where, delete_where, exists_where, first_where}

module _ {A : Type 0} where
  pub delete_where-snoc :
      (p : A → Bool) (x : A) (xs : List A)
      → exists_where p xs ≡ false
      → p x ≡ true
      → delete_where p (xs ++ x ∷ []) ≡ xs
  unfolding delete_where exists_where
  delete_where-snoc p x [] h t = ground arith
  delete_where-snoc p x (y ∷ xs) h t = ground (arith, delete_where-snoc p x xs)

  pub first_where-snoc :
      (p : A → Bool) (x : A) (xs : List A)
      → exists_where p xs ≡ false
      → p x ≡ true
      → first_where p (xs ++ x ∷ []) ≡ some x
  unfolding first_where exists_where
  first_where-snoc p x [] h t = ground arith
  first_where-snoc p x (y ∷ xs) h t = ground (arith, first_where-snoc p x xs)

  -- Of two changes of the same rows, the second one stands.
  pub change_where-twice :
      (p : A → Bool) (f g : A → A)
      → ((x : A) → p (f x) ≡ p x)
      → ((x : A) → g (f x) ≡ g x)
      → (xs : List A) → change_where p g (change_where p f xs) ≡ change_where p g xs
  unfolding change_where
  change_where-twice p f g stays over [] = refl
  change_where-twice p f g stays over (x ∷ xs) =
      ground (arith, stays x, over x, change_where-twice p f g stays over xs)
