-- ===== src/Prelude/Counts.antt =====
-- How many rows of a table satisfy a condition.
use Prim.Native.Nat.{ℕ, suc, ◌+◌, ◌≤◌}
use mathlib.Core.Path.{◌≡◌, refl}
use mathlib.Core.Bool.{Bool, true, false}
use mathlib.Core.List.{List, [], ◌∷◌, ◌++◌}
use native.Mathlib.Omega.{arith}
use expensor.Prelude.Tests.{if◌then◌else◌}
use expensor.Prelude.Tables.{change_where, exists_where}

module _ {A : Type 0} (p : A → Bool) where
  unfoldable pub count_where : List A → ℕ
  count_where [] = 0
  count_where (x ∷ xs) = let rest = count_where xs in if p x then suc rest else rest

  pub count_where-append :
      (xs ys : List A) → count_where (xs ++ ys) ≡ count_where xs + count_where ys
  unfolding count_where
  count_where-append [] ys = omega arith
  count_where-append (x ∷ xs) ys = ground (arith, count_where-append xs ys)

  pub count_where-change_where :
      (q : A → Bool) (f : A → A)
      → ((x : A) → p (f x) ≡ p x)
      → (xs : List A) → count_where (change_where q f xs) ≡ count_where xs
  unfolding count_where change_where
  count_where-change_where q f stays [] = refl
  count_where-change_where q f stays (x ∷ xs) =
      ground (arith, stays x, count_where-change_where q f stays xs)

  pub count_where-none : (xs : List A) → exists_where p xs ≡ false → count_where xs ≡ 0
  unfolding count_where exists_where
  count_where-none [] h = refl
  count_where-none (x ∷ xs) h = ground (arith, count_where-none xs)

  pub count_where-some : (xs : List A) → exists_where p xs ≡ true → 1 ≤ count_where xs
  unfolding count_where exists_where
  count_where-some [] h = ground arith
  count_where-some (x ∷ xs) h = ground (arith, count_where-some xs)
