-- ===== src/Prelude/Words.antt =====
-- Texts taken apart and folded: `strings.Split` and `strings.ToLower`.
use Prim.Native.Nat.{ℕ, zero, suc, ◌-◌}
use Prim.Native.Char.{Char, code}
use mathlib.Core.Option.{Option, none, some}
use Prim.Native.String.{String, [], ◌∷◌}
use mathlib.Core.Path.{◌≡◌, refl}
use mathlib.Core.List.{List}
use expensor.Prelude.Tests.{◌==◌, if◌then◌else◌}
use expensor.Prelude.Text.{has_prefix}

-- strings.ToLower, by what unicode.ToLower does to a character.
unfoldable pub lower : (Char → Char) → String → String
lower to_lower [] = []
lower to_lower (c ∷ s) = to_lower c ∷ lower to_lower s

abbrev pub text_length : String → ℕ
text_length [] = 0
text_length (c ∷ s) = suc (text_length s)

-- Puts a character before the first part.
unfoldable pub onto_first : Char → List String → List String
onto_first c List.[] = List.◌∷◌ (c ∷ []) List.[]
onto_first c (List.◌∷◌ p ps) = List.◌∷◌ (c ∷ p) ps

-- The parts of a text from where `skip` characters of a separator are still to be passed.
unfoldable pub split_from : ℕ → String → String → List String
unfolding has_prefix onto_first
split_from skip [] sep = List.◌∷◌ [] List.[]
split_from (suc skip) (c ∷ s) sep = split_from skip s sep
split_from zero (c ∷ s) sep =
    let hit = has_prefix (c ∷ s) sep in
    let rest = split_from (if hit then text_length sep - 1 else 0) s sep in
    if hit then List.◌∷◌ [] rest else onto_first c rest

-- strings.Split with a separator that is not empty.
unfoldable pub split : String → String → List String
unfolding split_from
split s sep = split_from 0 s sep

split_test : split "Card - HDFC" " - " ≡ List.◌∷◌ "Card" (List.◌∷◌ "HDFC" List.[])
unfolding split
split_test = refl

-- Puts a character before the first of two parts.
abbrev onto_cut : Char → Option (String × String) → Option (String × String)
onto_cut c none = none
onto_cut c (some (before, after)) = some (c ∷ before, after)

-- strings.Cut at the first character of this code; `none` if there is none.
unfoldable pub cut : ℕ → String → Option (String × String)
cut sep [] = none
cut sep (c ∷ s) = let rest = cut sep s in if code c == sep then some ([], s) else onto_cut c rest
