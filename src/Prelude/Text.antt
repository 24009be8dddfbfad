-- ===== src/Prelude/Text.antt =====
-- The functions of Go's `strings` package that the program calls. A Go string is read as its
-- sequence of characters; a string that is no valid UTF-8 is not modelled.
use Prim.Native.Nat.{ℕ}
use Prim.Native.Char.{Char, code}
use Prim.Native.String.{String, [], ◌∷◌, compare}
use text.Mathlib.Text.{is_le}
use mathlib.Core.Path.{◌≡◌, refl}
use mathlib.Core.Bool.{Bool, true, false, ◌&&◌, ◌||◌}
use mathlib.Core.Logic.{inl, inr}
use mathlib.Core.List.{List}
use native.Mathlib.Omega.{arith}
use expensor.Prelude.Tests.{leb, ◌==◌, if◌then◌else◌, Bool-cases}

-- A function by clauses, so that no proof goes through the native `++`.
unfoldable pub append : String → String → String
append [] t = t
append (c ∷ s) t = c ∷ append s t

abbrev pub is_blank : String → Bool
is_blank [] = true
is_blank (c ∷ s) = false

pub blank_is_empty : (s : String) → is_blank s ≡ true → "" ≡ s
blank_is_empty [] h = refl
blank_is_empty (c ∷ s) h = ground arith

-- unicode.IsSpace
unfoldable pub is_space : ℕ → Bool
is_space c =
    (leb 0x09 c && leb c 0x0d)
    || c == 0x20
    || c == 0x85
    || c == 0xa0
    || c == 0x1680
    || (leb 0x2000 c && leb c 0x200a)
    || c == 0x2028
    || c == 0x2029
    || c == 0x202f
    || c == 0x205f
    || c == 0x3000

trim_left : String → String
trim_left [] = []
trim_left (c ∷ s) = let rest = trim_left s in if is_space (code c) then rest else c ∷ s

-- Puts a character before a text that is trimmed at its right end.
before_trimmed : Char → String → String
before_trimmed c [] = if is_space (code c) then [] else c ∷ []
before_trimmed c (d ∷ s) = c ∷ d ∷ s

trim_right : String → String
unfolding before_trimmed
trim_right [] = []
trim_right (c ∷ s) = before_trimmed c (trim_right s)

-- strings.TrimSpace
unfoldable pub trim_space : String → String
unfolding trim_left trim_right is_space
trim_space s = trim_right (trim_left s)

-- strings.HasPrefix
unfoldable pub has_prefix : String → String → Bool
has_prefix s [] = true
has_prefix [] (d ∷ p) = false
has_prefix (c ∷ s) (d ∷ p) = code c == code d && has_prefix s p

-- strings.Contains
unfoldable pub contains_text : String → String → Bool
unfolding has_prefix
contains_text [] sub = has_prefix [] sub
contains_text (c ∷ s) sub = has_prefix (c ∷ s) sub || contains_text s sub

-- strings.Join
unfoldable pub join : List String → String → String
unfolding append
join List.[] sep = []
join (List.◌∷◌ p List.[]) sep = p
join (List.◌∷◌ p (List.◌∷◌ q ps)) sep = append p (append sep (join (List.◌∷◌ q ps) sep))

trim_test : trim_space "  a b\n" ≡ "a b"
unfolding trim_space
trim_test = refl

join_test : join (List.◌∷◌ "a" (List.◌∷◌ "b" List.[])) ": " ≡ "a: b"
unfolding join
join_test = refl

has_prefix-append :
    (s p : String) → has_prefix s p ≡ true → (t : String) → has_prefix (append s t) p ≡ true
unfolding has_prefix append
has_prefix-append [] [] h t = has_prefix_nil t
  where
    has_prefix_nil : (t : String) → has_prefix t [] ≡ true
    has_prefix_nil [] = refl
    has_prefix_nil (c ∷ t) = refl
has_prefix-append [] (d ∷ p) h t = cc
has_prefix-append (c ∷ s) [] h t = refl
has_prefix-append (c ∷ s) (d ∷ p) h t =
    ground (arith, λ (h' : has_prefix s p ≡ true). has_prefix-append s p h' t)

-- A text that holds `sub` still holds it with more text behind it, or before it.
pub contains_text-append :
    (s sub t : String) → contains_text s sub ≡ true → contains_text (append s t) sub ≡ true
unfolding contains_text append
contains_text-append [] [] [] h = refl
contains_text-append [] [] (c ∷ t) h = refl
contains_text-append [] (d ∷ p) t h = cc
contains_text-append (c ∷ s) sub t h = elim (Bool-cases (has_prefix (c ∷ s) sub)) [
  | inl e ↦ rw (has_prefix-append (c ∷ s) sub e t)
  | inr e ↦ ground (arith, contains_text-append s sub t)
]

pub contains_text-append_right :
    (p s sub : String) → contains_text s sub ≡ true → contains_text (append p s) sub ≡ true
unfolding contains_text append
contains_text-append_right [] s sub h = h
contains_text-append_right (c ∷ p) s sub h = ground (arith, contains_text-append_right p s sub h)

-- The order of texts by their characters, which is SQL's `<=` on identifiers.
abbrev pub text_le : String → String → Bool
text_le s t = is_le (compare s t)
