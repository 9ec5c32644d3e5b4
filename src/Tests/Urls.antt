-- ===== src/Tests/Urls.antt =====
-- harness/runtime/url_validation.py on a network with one public host.
use marcus.Prelude.{◌==◌, ℕ, String, ◌≡◌, refl, ◌⊎◌, none, some, List, [], ◌∷◌, nat_eq, string_eq}
use marcus.Urls.{validate_public_url, Network, ParsedUrl}
use marcus.Urls.Public.{IsOnePublic, passed_is_public}

abbrev parsed_example : ParsedUrl
parsed_example = record { scheme = "https"; hostname = some "example.com"; port = none }

abbrev small_network : Network
small_network = record {
  urlparse = λ url. parsed_example;
  getaddrinfo = λ host port. some ("93.184.215.14" ∷ "93.184.215.14" ∷ []);
  is_global = λ address. address == "93.184.215.14";
}

example_passes : validate_public_url small_network "https://example.com" ≡ none
unfolding validate_public_url
example_passes = refl

passed_is_public_example :
    ((parsed_example.scheme ≡ "http") ⊎ (parsed_example.scheme ≡ "https"))
    × ((host : String) × (parsed_example.hostname ≡ some host)
        × ((port : ℕ) × (infos : List String) × (small_network.getaddrinfo host port ≡ some infos)
            × IsOnePublic small_network infos))
passed_is_public_example = passed_is_public small_network "https://example.com" example_passes
