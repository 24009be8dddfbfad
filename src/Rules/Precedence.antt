-- ===== src/Rules/Precedence.antt =====
-- `MergeRules` of backend/internal/rules/rules.go: which rule a name stands for after the merge,
-- and in which order the rules come.
use mathlib.Core.List.{append-nil}
use expensor.Prelude.{
  String, ◌≡◌, refl, sym, ap, not, is_empty, Bool-cases, none, false, Option, some, List, [], ◌∷◌,
  ◌++◌, arith, str_eq, eq_iff, if◌then◌else◌, Option-cases, inl, inr,
}
use expensor.Rules.{Rule}
use expensor.Rules.Store.{
  is_named, or_this, or_itself, last_named, override, only_user, merge_rules,
}

-- All rules of a name, in order.
unfoldable pub named : {R : Type 0} → String → List (Rule R) → List (Rule R)
named name [] = []
named name (r ∷ rules) =
    let rest = named name rules in if str_eq r.name name then r ∷ rest else rest

-- Each rule replaced by the one rule `o` holds, if it holds one.
abbrev pub replaced : {R : Type 0} → Option (Rule R) → List (Rule R) → List (Rule R)
replaced none rules = rules
replaced (some s) [] = []
replaced (some s) (r ∷ rules) = s ∷ replaced (some s) rules

-- The last of a list.
abbrev pub last {ℓ} : {A : Type ℓ} → List A → Option A
last [] = none
last (x ∷ []) = some x
last (x ∷ y ∷ ys) = last (y ∷ ys)

abbrev overridden : {R : Type 0} → Option (Rule R) → List (Rule R) → List (Rule R)
overridden o [] = []
overridden o (r ∷ rules) = or_itself r o ∷ overridden o rules

overridden-replaced :
    {R : Type 0} (o : Option (Rule R)) (rules : List (Rule R))
    → overridden o rules ≡ replaced o rules
overridden-replaced none [] = refl
overridden-replaced none (r ∷ rules) = ap (◌∷◌ r) (overridden-replaced none rules)
overridden-replaced (some s) [] = refl
overridden-replaced (some s) (r ∷ rules) = ap (◌∷◌ s) (overridden-replaced (some s) rules)

last_is_some {ℓ} :
    {A : Type ℓ} (y : A) (ys : List A) (x : A) → last (y ∷ ys) ≡ or_this x (last (y ∷ ys))
last_is_some y [] x = refl
last_is_some y (z ∷ zs) x = last_is_some z zs x

-- Behind the head, the last of a list is the last of the rest, if there is one.
last-cons {ℓ} : {A : Type ℓ} (x : A) (xs : List A) → last (x ∷ xs) ≡ or_this x (last xs)
last-cons x [] = refl
last-cons x (y ∷ []) = refl
last-cons x (y ∷ z ∷ zs) = last_is_some y (z ∷ zs) x

last_named-last :
    {R : Type 0} (name : String) (rules : List (Rule R))
    → last_named name rules ≡ last (named name rules)
unfolding last_named named
last_named-last name [] = refl
last_named-last name (r ∷ rules) = elim (Bool-cases (str_eq r.name name)) [
  | inl e ↦ rw (e, last_named-last name rules) (sym (last-cons r (named name rules)))
  | inr e ↦ rw e (last_named-last name rules)
]

is_named-is_empty :
    {R : Type 0} (name : String) (rules : List (Rule R))
    → is_named name rules ≡ not (is_empty (named name rules))
unfolding is_named named
is_named-is_empty name [] = refl
is_named-is_empty name (r ∷ rules) = ground (arith, is_named-is_empty name rules)

named-append :
    {R : Type 0} (name : String) (rs ss : List (Rule R))
    → named name (rs ++ ss) ≡ named name rs ++ named name ss
unfolding named
named-append name [] ss = refl
named-append name (r ∷ rs) ss = ground (arith, named-append name rs ss)

last_named-name :
    {R : Type 0} (name : String) (rules : List (Rule R)) (r : Rule R)
    → last_named name rules ≡ some r
    → r.name ≡ name
unfolding last_named
last_named-name name [] r h = cc
last_named-name name (s ∷ rules) r h = elim (Option-cases (last_named name rules)) [
  | inl e ↦ ground (arith, eq_iff s.name name)
  | inr (t, e) ↦ ground (arith, eq_iff s.name name, last_named-name name rules t e)
]

or_itself-name :
    {R : Type 0} (r : Rule R) (user : List (Rule R))
    → (or_itself r (last_named r.name user)).name ≡ r.name
or_itself-name r user = elim (Option-cases (last_named r.name user)) [
  | inl e ↦ rw e refl
  | inr (t, e) ↦ rw e (last_named-name r.name user t e)
]

named-override :
    {R : Type 0} (name : String) (user system : List (Rule R))
    → named name (override user system) ≡ overridden (last_named name user) (named name system)
unfolding named override
named-override name user [] = refl
named-override name user (r ∷ system) =
    ground (arith, or_itself-name r user, eq_iff r.name name, named-override name user system)

named-only_user :
    {R : Type 0} (name : String) (system user : List (Rule R))
    → named name (only_user system user) ≡ (if is_named name system then [] else named name user)
unfolding named only_user
named-only_user name system [] = ground arith
named-only_user name system (r ∷ user) =
    ground (arith, named-only_user name system user, eq_iff r.name name)

named_none :
    {R : Type 0} (name : String) (system : List (Rule R))
    → is_named name system ≡ false
    → named name system ≡ []
unfolding named is_named
named_none name [] h = refl
named_none name (r ∷ system) h = ground (arith, named_none name system)

merge_rules-overridden :
    {R : Type 0} (name : String) (system user : List (Rule R))
    → named name (merge_rules system user) ≡ (
        if is_named name system
        then overridden (last_named name user) (named name system)
        else named name user)
unfolding merge_rules
merge_rules-overridden name system user = ground (
  arith,
  named-append name (override user system) (only_user system user),
  named-override name user system,
  named-only_user name system user,
  named_none name system,
  append-nil (overridden (last_named name user) (named name system)),
)

-- After the merge a name of a system rule stands for the last of the user's rules of that name, in each
-- place where the system has one, and for the system's own rules where the user has none; any other
-- name stands for the user's rules, in their order.
pub merge_rules-named :
    {R : Type 0} (name : String) (system user : List (Rule R))
    → named name (merge_rules system user) ≡ (
        if is_empty (named name system)
        then named name user
        else replaced (last (named name user)) (named name system))
merge_rules-named name system user = ground (
  arith,
  merge_rules-overridden name system user,
  is_named-is_empty name system,
  last_named-last name user,
  overridden-replaced (last_named name user) (named name system),
)
