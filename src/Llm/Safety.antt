-- ===== src/Llm/Safety.antt =====
-- `ValidateMutationSafety` of backend/internal/llm/policy.go: which writes a policy lets through.
use expensor.Prelude.{
  String, ◌≡◌, refl, Bool, true, false, not, ◌&&◌, ◌||◌, List, [], ◌∷◌, arith, contains, is_empty,
  str_eq, eq_iff, Bool-cases, inl, inr,
}
use expensor.Prelude.Text.{is_blank, trim_space}
use expensor.Result.{Result, ok, fail, ◌>>=◌}
use expensor.Llm.Policy.{
  MutationRequest, MutationPolicy, string_set, check_mutation, check_mutations,
  validate_mutation_safety,
}

abbrev pub is_ok {ℓ} : {A : Type ℓ} → Result A → Bool
is_ok (ok a) = true
is_ok (fail err) = false

-- A list of allowed names restricts something when one of them is not blank.
unfoldable pub restricts : List String → Bool
restricts [] = false
restricts (v ∷ values) = not (is_blank (trim_space v)) || restricts values

-- One of the names that are not blank is the given one, spaces at the ends apart.
unfoldable pub lists : String → List String → Bool
lists name [] = false
lists name (v ∷ values) =
    (not (is_blank (trim_space v)) && str_eq (trim_space v) (trim_space name)) || lists name values

abbrev pub permits : List String → String → Bool
permits allowed name = not (restricts allowed) || lists name allowed

unfoldable pub permits_all : MutationPolicy → List MutationRequest → Bool
unfolding restricts lists
permits_all policy [] = true
permits_all policy (m ∷ mutations) =
    permits policy.allowed_resources m.resource
    && permits policy.allowed_operations m.operation
    && permits_all policy mutations

nonempty : (v : String) (set : List String) → contains v set ≡ true → is_empty set ≡ false
unfolding contains
nonempty v [] h = cc
nonempty v (x ∷ set) h = refl

string_set-restricts :
    (values : List String) → is_empty (string_set values) ≡ not (restricts values)
unfolding string_set restricts
string_set-restricts [] = refl
string_set-restricts (v ∷ values) =
    ground (arith, string_set-restricts values, nonempty (trim_space v) (string_set values))

string_set-lists :
    (name : String) (values : List String)
    → contains (trim_space name) (string_set values) ≡ lists name values
unfolding string_set lists contains
string_set-lists name [] = refl
string_set-lists name (v ∷ values) =
    ground (arith, string_set-lists name values, eq_iff (trim_space v) (trim_space name))

check_mutation-permits :
    (quote : String → String) (policy : MutationPolicy) (m : MutationRequest)
    → is_ok (
        check_mutation quote
          (string_set policy.allowed_resources)
          (string_set policy.allowed_operations)
          m)
      ≡ (permits policy.allowed_resources m.resource
          && permits policy.allowed_operations m.operation)
unfolding check_mutation
check_mutation-permits quote policy m = ground (
  arith,
  string_set-restricts policy.allowed_resources,
  string_set-restricts policy.allowed_operations,
  string_set-lists m.resource policy.allowed_resources,
  string_set-lists m.operation policy.allowed_operations,
)

is_ok-bind :
    {A B : Type 0} (r : Result A) (s : Result B) → is_ok (r >>= λ a. s) ≡ (is_ok r && is_ok s)
is_ok-bind (ok a) s = refl
is_ok-bind (fail err) s = refl

check_mutations-permits :
    (quote : String → String) (policy : MutationPolicy) (mutations : List MutationRequest)
    → is_ok (
        check_mutations quote
          (string_set policy.allowed_resources)
          (string_set policy.allowed_operations)
          mutations)
      ≡ permits_all policy mutations
unfolding check_mutations permits_all
check_mutations-permits quote policy [] = refl
check_mutations-permits quote policy (m ∷ mutations) =
    rw
      (is_ok-bind
        (check_mutation quote (string_set policy.allowed_resources)
          (string_set policy.allowed_operations) m)
        (check_mutations quote (string_set policy.allowed_resources)
          (string_set policy.allowed_operations) mutations))
      (ground (
        arith,
        check_mutation-permits quote policy m,
        check_mutations-permits quote policy mutations,
      ))

-- `ValidateMutationSafety` lets a proposal through exactly when it proposes no write, or writes are
-- allowed and each proposed one names, spaces at the ends apart, a resource and an operation that
-- the policy lists; a list without a name that is not blank restricts nothing.
pub validate_mutation_safety_lem :
    (quote : String → String) (policy : MutationPolicy) (mutations : List MutationRequest)
    → is_ok (validate_mutation_safety quote policy mutations)
      ≡ (is_empty mutations || (policy.allow_mutations && permits_all policy mutations))
unfolding validate_mutation_safety
validate_mutation_safety_lem quote policy [] = refl
validate_mutation_safety_lem quote policy (m ∷ mutations) =
    elim (Bool-cases policy.allow_mutations) [
      | inl e ↦ simp (e) (check_mutations-permits quote policy (m ∷ mutations))
      | inr e ↦ rw e refl
    ]
