-- ===== src/Plugins/Registration.antt =====
-- `RegisterProvider` and `GetProvider` of backend/internal/plugins/registry.go.
use mathlib.Core.Path.{subst, ap}
use expensor.Prelude.{
  String, ◌≡◌, ◌≢◌, refl, Bool, true, false, not, ◌||◌, Option, none, some, [], ◌∷◌, ◌++◌, arith,
  eq_iff, eq_refl, is_some, Bool-cases, Option-cases, inl, inr,
}
use expensor.Prelude.Text.{is_blank, trim_space}
use expensor.ErrorKind
use expensor.Result.{ok, OnOk, ◌>>=◌}
use expensor.Plugins.{
  Provider, Registry, Libs, find_provider, require_valid, register_provider, get_provider, is_free,
  about_provider,
}

abbrev first_of {ℓ} : {A : Type ℓ} → Option A → Option A → Option A
first_of none o = o
first_of (some a) o = some a

find_provider-append :
    {F G : Type 0} (name : String) (ps qs : Registry F G)
    → find_provider name (ps ++ qs) ≡ first_of (find_provider name ps) (find_provider name qs)
unfolding find_provider
find_provider-append name [] qs = refl
find_provider-append name (p ∷ ps) qs = ground (arith, find_provider-append name ps qs)

-- The provider stands in the registry under its name, its factories are set, and every other name
-- finds what it found before.
abbrev pub IsAdded : {F G : Type 0} → Libs → Provider F G → Registry F G → Registry F G → Type 0
IsAdded libs p before after =
    (find_provider p.metadata.name before ≡ none)
    × (get_provider libs p.metadata.name after ≡ ok p)
    × (is_some p.new_reader ≡ true)
    × (is_some p.new_email_searcher ≡ true)
    × ((name : String)
        → name ≢ p.metadata.name
        → get_provider libs name after ≡ get_provider libs name before)

is_free-none : {A : Type 0} (o : Option A) → is_free o ≡ true → o ≡ none
is_free-none none h = refl
is_free-none (some a) h = cc

appended :
    {F G : Type 0} (libs : Libs) (p : Provider F G) (before : Registry F G)
    → find_provider p.metadata.name before ≡ none
    → get_provider libs p.metadata.name (before ++ p ∷ []) ≡ ok p
unfolding get_provider find_provider
appended libs p before h =
    rw (find_provider-append p.metadata.name before (p ∷ []), h, eq_refl p.metadata.name) refl

others :
    {F G : Type 0} (libs : Libs) (p : Provider F G) (before : Registry F G) (name : String)
    → name ≢ p.metadata.name
    → get_provider libs name (before ++ p ∷ []) ≡ get_provider libs name before
unfolding get_provider find_provider
others libs p before name other = elim (Option-cases (find_provider name before)) [
  | inl e ↦
      rw (find_provider-append name before (p ∷ []), e)
        (ground (arith, eq_iff p.metadata.name name))
  | inr (q, e) ↦ rw (find_provider-append name before (p ∷ []), e) refl
]

-- Behind the guards on the name and the factories.
checked_rest :
    {F G : Type 0} (libs : Libs) (p : Provider F G) (before : Registry F G)
    → is_some p.new_reader ≡ true
    → is_some p.new_email_searcher ≡ true
    → (valid : Bool)
    → OnOk (IsAdded libs p before) (do
      guide ←
          require_valid valid ErrorKind.invalid_input
            (about_provider libs p.metadata.name " setup guide must be valid JSON")
      free ←
          require_valid
            (is_free (find_provider p.metadata.name before))
            ErrorKind.conflict
            (about_provider libs p.metadata.name " already registered")
      ok (before ++ p ∷ []))
checked_rest libs p before r s false = tt
checked_rest libs p before r s true =
    elim (Bool-cases (is_free (find_provider p.metadata.name before))) [
      | inr e ↦ rw e tt
      | inl e ↦
          let free = is_free-none (find_provider p.metadata.name before) e in
          rw e (free, appended libs p before free, r, s, others libs p before)
    ]

register_provider-OnOk :
    {F G : Type 0} (libs : Libs) (p : Provider F G) (before : Registry F G)
    → OnOk (IsAdded libs p before) (register_provider libs p before)
unfolding register_provider
register_provider-OnOk libs p before =
    elim (Bool-cases (not (is_blank (trim_space p.metadata.name)))) [
      | inr e ↦ rw e tt
      | inl e ↦ rw e (elim (Option-cases p.new_reader) [
        | inl f ↦ simp (f) tt
        | inr (reader, f) ↦ simp (f) (elim (Option-cases p.new_email_searcher) [
          | inl g ↦ simp (g) tt
          | inr (searcher, g) ↦ simp (g) (
              checked_rest libs p before (ap is_some f) (ap is_some g)
                (is_blank p.metadata.setup_guide || libs.is_valid_json p.metadata.setup_guide))
        ])
      ])
    ]

-- When `RegisterProvider` accepts a provider, its name was free and both its factories are set,
-- `GetProvider` finds it under its name from then on, and finds under every other name what it found
-- before.
pub register_provider-get_provider :
    {F G : Type 0} (libs : Libs) (p : Provider F G) (before after : Registry F G)
    → register_provider libs p before ≡ ok after
    → (find_provider p.metadata.name before ≡ none)
      × (get_provider libs p.metadata.name after ≡ ok p)
      × (is_some p.new_reader ≡ true)
      × (is_some p.new_email_searcher ≡ true)
      × ((name : String)
          → name ≢ p.metadata.name
          → get_provider libs name after ≡ get_provider libs name before)
register_provider-get_provider libs p before after h =
    subst (OnOk (IsAdded libs p before)) h (register_provider-OnOk libs p before)
