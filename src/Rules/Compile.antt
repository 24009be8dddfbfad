-- ===== src/Rules/Compile.antt =====
-- backend/internal/rules/document.go: what holds of every rule that a document's compilation lets
-- through.
use mathlib.Core.Path.{subst}
use expensor.Prelude.{
  String, Option, some, ◌⊎◌, ◌≡◌, refl, List, [], ◌∷◌, ◌++◌, arith, All, Distinct, Bool-cases, inl,
  inr,
}
use expensor.Prelude.Text.{is_blank, blank_is_empty, trim_space}
use expensor.Result.{ok, Result-cases, OnOk}
use expensor.Rules.{Libs, Rule}
use expensor.Rules.Raw.{RawRule, Json, parse_source, first_non_empty}
use expensor.Rules.Document.{
  raw_senders, add_sender, normalize_sender_list, require_name, require_sender, compile_rule,
  compile_rules, build_rule, compile_named_regex, compile_optional_regex, under, rule_text,
}
use expensor.Rules.Senders.{IsFilled, keep_new-Distinct, keep_new-IsFilled}

abbrev pub IsSenderList : List String → Type 0
IsSenderList senders = Distinct senders × All IsFilled senders

add_sender-IsSenderList :
    {R : Type 0} (libs : Libs R) (senders : List String) (s : String)
    → IsSenderList senders
    → IsSenderList (add_sender libs senders s)
unfolding add_sender normalize_sender_list
add_sender-IsSenderList libs senders s h = elim (Bool-cases (is_blank (trim_space s))) [
  | inl b ↦ rw b h
  | inr b ↦
      rw b (
        keep_new-Distinct _ [] (senders ++ s ∷ []) tt,
        keep_new-IsFilled _ [] (senders ++ s ∷ []) tt,
      )
]

pub raw_senders-IsSenderList :
    {R : Type 0} (libs : Libs R) (raw : RawRule) → IsSenderList (raw_senders libs raw)
unfolding raw_senders normalize_sender_list
raw_senders-IsSenderList libs raw = add_sender-IsSenderList libs _ raw.sender_email_snake (
    add_sender-IsSenderList libs _ raw.sender_email
      (keep_new-Distinct _ [] raw.sender_emails tt, keep_new-IsFilled _ [] raw.sender_emails tt))

-- The single sender is the first of the list.
abbrev pub IsFirst : String → List String → Type 0
IsFirst s [] = ⊥
IsFirst s (t ∷ ts) = s ≡ t

-- A required expression: what one of two spellings of its pattern compiles to, which is not blank, not
-- even when trimmed.
abbrev pub IsExpression : {R : Type 0} → Libs R → String → String → Option R → Type 0
IsExpression {R} libs a b o =
    (pattern : String) × (re : R) × ((pattern ≡ trim_space a) ⊎ (pattern ≡ trim_space b))
    × IsFilled (trim_space pattern)
    × (libs.compile pattern ≡ ok re)
    × (o ≡ some re)

-- What the readers count on in a compiled rule.
abbrev pub IsCompiled : {R : Type 0} → Libs R → RawRule → Rule R → Type 0
IsCompiled libs raw r =
    IsFilled r.name
    × (r.name ≡ trim_space raw.name)
    × IsSenderList r.sender_emails
    × IsFirst r.sender_email r.sender_emails
    × IsExpression libs raw.amount_regex raw.amount_snake r.amount
    × IsExpression libs raw.merchant_regex raw.merchant_snake r.merchant_info

-- The rules are compiled from the raw ones, one from each, in their order.
abbrev pub AreCompiled : {R : Type 0} → Libs R → List RawRule → List (Rule R) → Type 0
AreCompiled libs [] [] = Unit
AreCompiled libs [] (r ∷ rules) = ⊥
AreCompiled libs (raw ∷ raws) [] = ⊥
AreCompiled libs (raw ∷ raws) (r ∷ rules) = IsCompiled libs raw r × AreCompiled libs raws rules

first_non_empty-one :
    (a b : String)
    → (first_non_empty (a ∷ b ∷ []) ≡ trim_space a) ⊎ (first_non_empty (a ∷ b ∷ []) ≡ trim_space b)
unfolding first_non_empty
first_non_empty-one a b = elim (Bool-cases (is_blank (trim_space a))) [
  | inr e ↦ inl (rw e refl)
  | inl e ↦ inr (
      rw e (elim (Bool-cases (is_blank (trim_space b))) [
        | inl f ↦ rw f (blank_is_empty (trim_space b) f)
        | inr f ↦ rw f refl
      ]))
]

compile_named_regex-ok :
    {R : Type 0} (libs : Libs R) (name field a b : String) (re : R)
    → compile_named_regex libs name field (first_non_empty (a ∷ b ∷ [])) ≡ ok re
    → IsExpression libs a b (some re)
unfolding compile_named_regex
compile_named_regex-ok libs name field a b re h =
    let pattern = first_non_empty (a ∷ b ∷ []) in
    elim (Bool-cases (is_blank (trim_space pattern))) [
      | inl e ↦ ground arith
      | inr e ↦ elim (Result-cases (libs.compile pattern)) [
        | inl (found, f) ↦ (pattern, found, first_non_empty-one a b, ground arith, f, ground arith)
        | inr (err, f) ↦ ground arith
      ]
    ]

require_name-ok : (name n : String) → require_name name ≡ ok n → IsFilled n × (n ≡ name)
require_name-ok name n h = (ground arith, ground arith)

require_sender-ok :
    {R : Type 0} (libs : Libs R) (name s : String) (senders : List String)
    → require_sender libs name senders ≡ ok s
    → IsFirst s senders
require_sender-ok libs name s [] h = cc
require_sender-ok libs name s (t ∷ ts) h = cc

-- What `compileRule` does behind its two guards.
built-OnOk :
    {R : Type 0} (libs : Libs R) (json : Json) (raw : RawRule) (name first : String)
    → IsFilled name
    → name ≡ trim_space raw.name
    → IsFirst first (raw_senders libs raw)
    → OnOk (IsCompiled libs raw) (build_rule libs json raw name first)
unfolding build_rule
built-OnOk libs json raw name first filled trimmed is_first =
    elim (Result-cases (
      compile_named_regex libs name "amount_regex"
        (first_non_empty (raw.amount_regex ∷ raw.amount_snake ∷ [])))) [
          | inr (err, e) ↦ rw e tt
          | inl (amount, e) ↦
              rw e
                (elim (Result-cases (
                  compile_named_regex libs name "merchant_regex"
                    (first_non_empty (raw.merchant_regex ∷ raw.merchant_snake ∷ [])))) [
                      | inr (err, f) ↦ rw f tt
                      | inl (merchant, f) ↦
                          rw f
                            (elim (Result-cases (
                              compile_optional_regex libs name "currency_regex"
                                (first_non_empty (raw.currency_regex ∷ raw.currency_snake ∷ [])))) [
                                  | inr (err, g) ↦ rw g tt
                                  | inl (currency, g) ↦
                                      rw g
                                        (elim (Result-cases (
                                          under "rules.document.compile_rule"
                                            (rule_text libs name " invalid source")
                                            (parse_source json raw.source))) [
                                              | inr (err, h) ↦ rw h tt
                                              | inl (source, h) ↦ rw h (
                                                filled,
                                                trimmed,
                                                raw_senders-IsSenderList libs raw,
                                                is_first,
                                                compile_named_regex-ok libs name _ _ _ amount e,
                                                compile_named_regex-ok libs name _ _ _ merchant f,
                                              )
                                            ])
                                ])
                    ])
        ]

compile_rule-OnOk :
    {R : Type 0} (libs : Libs R) (json : Json) (raw : RawRule)
    → OnOk (IsCompiled libs raw) (compile_rule libs json raw)
unfolding compile_rule
compile_rule-OnOk libs json raw = elim (Result-cases (require_name (trim_space raw.name))) [
  | inr (err, e) ↦ rw e tt
  | inl (name, name_ok) ↦
      rw name_ok (elim (Result-cases (require_sender libs name (raw_senders libs raw))) [
        | inr (err, e) ↦ rw e tt
        | inl (first, first_ok) ↦ rw first_ok (
            built-OnOk libs json raw name first (require_name-ok _ name name_ok).0
              (require_name-ok _ name name_ok).1 (require_sender-ok libs name first _ first_ok))
      ])
]

-- A rule that `compileRule` lets through has a name, at least one sender, its single sender first
-- in the list, no sender empty or twice, and for amount and merchant what the library compiled from a pattern that
-- is not blank.
pub compile_rule-IsCompiled :
    {R : Type 0} (libs : Libs R) (json : Json) (raw : RawRule) (r : Rule R)
    → compile_rule libs json raw ≡ ok r
    → IsCompiled libs raw r
compile_rule-IsCompiled libs json raw r h =
    subst (OnOk (IsCompiled libs raw)) h (compile_rule-OnOk libs json raw)

compile_rules-OnOk :
    {R : Type 0} (libs : Libs R) (json : Json) (raws : List RawRule)
    → OnOk (AreCompiled libs raws) (compile_rules libs json raws)
unfolding compile_rules
compile_rules-OnOk libs json [] = tt
compile_rules-OnOk libs json (raw ∷ raws) = elim (Result-cases (compile_rule libs json raw)) [
  | inr (err, e) ↦ rw e tt
  | inl (rule, e) ↦ rw e (elim (Result-cases (compile_rules libs json raws)) [
    | inr (err, f) ↦ rw f tt
    | inl (rest, f) ↦ rw f (
      compile_rule-IsCompiled libs json raw rule e,
      subst (OnOk (AreCompiled libs raws)) f (compile_rules-OnOk libs json raws),
    )
  ])
]

-- When `compileRules` returns rules, it returns one for each of the document's, in their order, and it
-- has the document's name, trimmed and not empty, at least one sender, its single sender first in the
-- list, no sender empty or twice, and for amount and merchant what the library compiled from one of the
-- two spellings of the document's pattern, trimmed and not blank.
pub compile_rules-IsCompiled :
    {R : Type 0} (libs : Libs R) (json : Json) (raws : List RawRule) (rules : List (Rule R))
    → compile_rules libs json raws ≡ ok rules
    → AreCompiled libs raws rules
compile_rules-IsCompiled libs json raws rules h =
    subst (OnOk (AreCompiled libs raws)) h (compile_rules-OnOk libs json raws)
