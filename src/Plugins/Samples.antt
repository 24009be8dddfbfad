-- ===== src/Plugins/Samples.antt =====
-- Runs of the registry of email providers, and its results at a small registry.
use expensor.Prelude.{
  ℕ, String, ◌≡◌, ◌≢◌, refl, true, none, some, List, [], ◌∷◌, contains, Distinct, is_some,
}
use expensor.ErrorKind
use expensor.Result.{ok, fail}
use expensor.Plugins.{
  Provider, Libs, oauth, rejected, find_provider, get_provider, register_provider, get_all_scopes,
}
use expensor.Plugins.Registration.{register_provider-get_provider}
use expensor.Plugins.Scopes.{get_all_scopes_lem}

abbrev pub libs : Libs
libs = record { is_valid_json = λ s. true; quote = λ s. s }

abbrev pub gmail : Provider ℕ ℕ
gmail = record {
  metadata = record {
    name = "gmail";
    description = "";
    auth = record {
      type = oauth;
      required_scopes = "read" ∷ "modify" ∷ "read" ∷ [];
      requires_credentials_upload = true;
    };
    config_schema = [];
    setup_guide = "";
  };
  new_reader = some 0;
  new_email_searcher = some 1;
}

added : register_provider libs gmail [] ≡ ok (gmail ∷ [])
unfolding register_provider
added = refl

added_twice :
    register_provider libs gmail (gmail ∷ [])
    ≡ fail (rejected ErrorKind.conflict "provider gmail already registered")
unfolding register_provider
added_twice = refl

register_provider-get_provider_example :
    (find_provider {F = ℕ} {G = ℕ} "gmail" [] ≡ none)
    × (get_provider libs "gmail" (gmail ∷ []) ≡ ok gmail)
    × (is_some gmail.new_reader ≡ true)
    × (is_some gmail.new_email_searcher ≡ true)
    × ((name : String)
        → name ≢ "gmail"
        → get_provider libs name (gmail ∷ []) ≡ get_provider {F = ℕ} {G = ℕ} libs name [])
register_provider-get_provider_example =
    register_provider-get_provider libs gmail [] (gmail ∷ []) added

found : get_provider libs "gmail" (gmail ∷ []) ≡ ok gmail
unfolding get_provider
found = refl

get_all_scopes_lem_example :
    (scopes : List String) × (get_all_scopes libs "gmail" (gmail ∷ []) ≡ ok scopes)
    × Distinct scopes
    × ((j : String) → contains j scopes ≡ contains j ("read" ∷ "modify" ∷ "read" ∷ []))
get_all_scopes_lem_example = get_all_scopes_lem libs (gmail ∷ []) "gmail" gmail found
