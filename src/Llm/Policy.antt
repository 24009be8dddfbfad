-- ===== src/Llm/Policy.antt =====
-- backend/internal/llm/policy.go: the size of a model's result and the writes that it may propose.
-- The redaction of prompts stands on two regular expressions and is not modelled.
use expensor.Prelude.{
  ℕ, String, Bool, ◌||◌, Option, none, some, List, [], ◌∷◌, contains, is_empty, ltb, if◌then◌else◌,
}
use expensor.Prelude.Int.{ℤ, positive}
use expensor.Prelude.Text.{append, is_blank, trim_space}
use expensor.ErrorKind
use expensor.Errors.{Err}
use expensor.Errors.Build.{e, kind, text}
use expensor.Result.{Result, ok, fail, ◌>>=◌}

pub record ResultLimits : Type 0 where
  pub max_bytes : ℤ
  pub max_items : ℤ

abbrev too_large : (ℕ → String) → ℕ → ℕ → Err
too_large digits size limit = e (
    text "llm.EnforceResultLimits"
    ∷ kind ErrorKind.invalid_input
    ∷ text (
        append "llm result too large: "
          (append (digits size) (append " bytes exceeds " (digits limit))))
    ∷ [])

abbrev enforce_limit : (ℕ → String) → ℕ → Option ℕ → Result (Unit {0})
enforce_limit digits size none = ok tt
enforce_limit digits size (some limit) =
    if ltb limit size then fail (too_large digits size limit) else ok tt

-- `EnforceResultLimits`, by the size of the payload; `digits` prints a number.
unfoldable pub enforce_result_limits : (ℕ → String) → ℕ → ResultLimits → Result (Unit {0})
unfolding append
enforce_result_limits digits size limits = enforce_limit digits size (positive limits.max_bytes)

pub record MutationRequest : Type 0 where
  pub resource : String
  pub operation : String

pub record MutationPolicy : Type 0 where
  pub allow_mutations : Bool
  pub allowed_resources : List String
  pub allowed_operations : List String

-- `stringSet`.
unfoldable pub string_set : List String → List String
unfolding trim_space contains
string_set [] = []
string_set (v ∷ values) =
    let rest = string_set values in
    let value = trim_space v in if is_blank value || contains value rest then rest else value ∷ rest

abbrev pub not_allowed : String → Err
not_allowed what = e (
    text "llm.ValidateMutationSafety"
    ∷ kind ErrorKind.invalid_input
    ∷ text (append "llm mutation is not allowed: " what)
    ∷ [])

abbrev pub require_listed : List String → String → Err → Result (Unit {0})
require_listed set value err = if is_empty set || contains value set then ok tt else fail err

-- The checks of one mutation.
unfoldable pub check_mutation :
    (String → String) → List String → List String → MutationRequest → Result (Unit {0})
unfolding trim_space append contains
check_mutation quote resources operations m = do
  resource ←
      require_listed resources (trim_space m.resource)
        (not_allowed (append "resource " (quote m.resource)))
  require_listed operations (trim_space m.operation)
      (not_allowed (append "operation " (quote m.operation)))

unfoldable pub check_mutations :
    (String → String) → List String → List String → List MutationRequest → Result (Unit {0})
unfolding check_mutation
check_mutations quote resources operations [] = ok tt
check_mutations quote resources operations (m ∷ mutations) = do
  checked ← check_mutation quote resources operations m
  check_mutations quote resources operations mutations

-- `ValidateMutationSafety`; `quote` is `strconv.Quote`.
unfoldable pub validate_mutation_safety :
    (String → String) → MutationPolicy → List MutationRequest → Result (Unit {0})
unfolding check_mutations string_set append
validate_mutation_safety quote policy mutations =
    if is_empty mutations
    then ok tt
    else if policy.allow_mutations
    then check_mutations quote (string_set policy.allowed_resources)
        (string_set policy.allowed_operations) mutations
    else fail (not_allowed "mutations are disabled")
