-- ===== src/Rules/Senders.antt =====
-- The list of senders that a rule is given by backend/internal/rules/document.go and
-- backend/pkg/api/api.go: no text twice, none empty, and none lost.
use expensor.Prelude.{
  String, ◌≡◌, Bool, false, not, ◌&&◌, ◌||◌, List, [], ◌∷◌, arith, All, All-append, Distinct,
  Distinct-snoc, contains, contains-append, str_eq, eq_iff, Bool-cases, inl, inr,
}
use expensor.Prelude.Text.{is_blank}
use expensor.Rules.{add_new, keep_new}

abbrev pub IsFilled : String → Type 0
IsFilled s = is_blank s ≡ false

add_new-Distinct : (v : String) (out : List String) → Distinct out → Distinct (add_new v out)
unfolding add_new
add_new-Distinct v out d = ground (arith, Distinct-snoc out v d)

add_new-IsFilled :
    (v : String) (out : List String) → All IsFilled out → All IsFilled (add_new v out)
unfolding add_new
add_new-IsFilled v out h = elim (Bool-cases (is_blank v)) [
  | inl b ↦ simp (b) h
  | inr b ↦ elim (Bool-cases (contains v out)) [
    | inl c ↦ simp (b, c) h
    | inr c ↦ simp (b, c) (All-append IsFilled out (v ∷ []) h (b, tt))
  ]
]

pub keep_new-Distinct :
    (f : String → String) (out vs : List String) → Distinct out → Distinct (keep_new f out vs)
unfolding keep_new
keep_new-Distinct f out [] d = d
keep_new-Distinct f out (v ∷ vs) d =
    keep_new-Distinct f (add_new (f v) out) vs (add_new-Distinct (f v) out d)

pub keep_new-IsFilled :
    (f : String → String) (out vs : List String)
    → All IsFilled out
    → All IsFilled (keep_new f out vs)
unfolding keep_new
keep_new-IsFilled f out [] h = h
keep_new-IsFilled f out (v ∷ vs) h =
    keep_new-IsFilled f (add_new (f v) out) vs (add_new-IsFilled (f v) out h)

-- Some text of the list is read as `j`.
unfoldable pub reads : (String → String) → String → List String → Bool
reads f j [] = false
reads f j (v ∷ vs) = str_eq (f v) j || reads f j vs

add_new-contains :
    (j v : String) (out : List String)
    → contains j (add_new v out) ≡ (contains j out || (not (is_blank v) && str_eq v j))
unfolding add_new contains
add_new-contains j v out = ground (arith, contains-append j out (v ∷ []), eq_iff v j)

pub keep_new-contains :
    (f : String → String) (out vs : List String) (j : String)
    → is_blank j ≡ false
    → contains j (keep_new f out vs) ≡ (contains j out || reads f j vs)
unfolding keep_new reads
keep_new-contains f out [] j h = ground arith
keep_new-contains f out (v ∷ vs) j h = ground (
  arith,
  keep_new-contains f (add_new (f v) out) vs j h,
  add_new-contains j (f v) out,
  eq_iff (f v) j,
)
