-- ===== src/Prelude/Lists.antt =====
-- Lists measured by native numbers, predicates over lists, and lists of texts read as sets.
use Prim.Native.Nat.{ℕ, suc, ◌+◌, ◌≤◌}
use Prim.Native.String.{String}
use mathlib.Core.Path.{◌≡◌, refl}
use mathlib.Core.Bool.{Bool, true, false, ◌||◌}
use mathlib.Core.List.{List, [], ◌∷◌, ◌++◌}
use native.Mathlib.Omega.{arith}
use text.Mathlib.TextEquality.{eq_iff}
use expensor.Prelude.Tests.{str_eq, if◌then◌else◌}

module _ {ℓ} {A : Type ℓ} where
  abbrev pub length : List A → ℕ
  length [] = 0
  length (x ∷ xs) = suc (length xs)

  abbrev pub is_empty : List A → Bool
  is_empty [] = true
  is_empty (x ∷ xs) = false

  pub length-append : (xs ys : List A) → length (xs ++ ys) ≡ length xs + length ys
  length-append [] ys = omega arith
  length-append (x ∷ xs) ys = omega (arith, length-append xs ys)

-- A predicate by recursion computes to tuples, which the tactics read and build.
abbrev pub All {ℓ κ} : {A : Type ℓ} → (A → Type κ) → List A → Type κ
All P [] = Unit
All P (x ∷ xs) = P x × All P xs

pub All-append {ℓ κ} :
    {A : Type ℓ} (P : A → Type κ) (xs ys : List A) → All P xs → All P ys → All P (xs ++ ys)
All-append P [] ys hx hy = hy
All-append P (x ∷ xs) ys hx hy = (hx.0, All-append P xs ys hx.1 hy)

-- `_, ok := set[k]` on a map that is used as a set of texts.
unfoldable pub contains : String → List String → Bool
contains k [] = false
contains k (x ∷ xs) = str_eq x k || contains k xs

-- No text stands twice.
abbrev pub Distinct : List String → Type 0
Distinct [] = Unit
Distinct (x ∷ xs) = (contains x xs ≡ false) × Distinct xs

-- `delete(set, k)`.
unfoldable pub erase : String → List String → List String
erase k [] = []
erase k (x ∷ xs) = let rest = erase k xs in if str_eq x k then rest else x ∷ rest

pub contains-erase :
    (k j : String) (xs : List String)
    → contains j (erase k xs) ≡ (if str_eq k j then false else contains j xs)
unfolding contains erase
contains-erase k j [] = ground arith
contains-erase k j (x ∷ xs) =
    ground (arith, contains-erase k j xs, eq_iff x k, eq_iff x j, eq_iff k j)

pub length-erase : (k : String) (xs : List String) → length (erase k xs) ≤ length xs
unfolding erase
length-erase k [] = omega arith
length-erase k (x ∷ xs) = ground (arith, length-erase k xs)

pub erase-Distinct : (k : String) (xs : List String) → Distinct xs → Distinct (erase k xs)
unfolding erase
erase-Distinct k [] d = d
erase-Distinct k (x ∷ xs) d = ground (arith, erase-Distinct k xs d.1, contains-erase k x xs)

pub contains-append :
    (k : String) (xs ys : List String) → contains k (xs ++ ys) ≡ (contains k xs || contains k ys)
unfolding contains
contains-append k [] ys = refl
contains-append k (x ∷ xs) ys = ground (arith, contains-append k xs ys)

pub Distinct-snoc :
    (xs : List String) (k : String) → Distinct xs → contains k xs ≡ false → Distinct (xs ++ k ∷ [])
unfolding contains
Distinct-snoc [] k d h = ground arith
Distinct-snoc (x ∷ xs) k d h =
    ground (arith, Distinct-snoc xs k d.1, contains-append x xs (k ∷ []), eq_iff x k, eq_iff k x)
