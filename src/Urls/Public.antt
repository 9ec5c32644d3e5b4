-- ===== src/Urls/Public.antt =====
-- A URL that passes harness/runtime/url_validation.py leads to one public address.
use mathlib.Core.Path.{subst}
use marcus.Prelude.{
  Bool-cases, any, All, ◌==◌, ℕ, String, ◌≡◌, refl, ◌⊎◌, inl, inr, true, none, some, List, [], ◌∷◌,
  arith, nat_eq, string_eq, Option-cases, if◌then◌else◌, ==-true, sym, false, ◌||◌, Option, ap,
}
use marcus.Prelude.Texts.{or_text, set_of}
use marcus.Urls.{validate_public_url, Network, check_host, port_or, check_addresses}

set_of-nil : (l : List String) → set_of l ≡ [] → l ≡ []
set_of-nil [] h = refl
set_of-nil (x ∷ xs) h = elim (Bool-cases (any (λ y. y == x) (set_of xs))) [
  | inl hit ↦ ground (arith, hit, set_of-nil xs)
  | inr miss ↦ ground (arith, miss)
]

set_of-single : (a : String) (l : List String) → set_of l ≡ a ∷ [] → All (λ x. x ≡ a) l
set_of-single a [] h = ground arith
set_of-single a (x ∷ xs) h = elim (Bool-cases (any (λ y. y == x) (set_of xs))) [
  | inl hit ↦
      let same : set_of xs ≡ a ∷ [] = ground (arith, hit) in
      let seen : any (λ y. y == x) (a ∷ []) ≡ true =
        subst (λ s. any (λ y. y == x) s ≡ true) same hit in
      (sym (==-true a x (ground (arith, seen))), set_of-single a xs same)
  | inr miss ↦
      let e : xs ≡ [] = set_of-nil xs (ground (arith, miss)) in (ground (arith, miss), rw e tt)
]

module _ (network : Network) where
  open network use {urlparse, getaddrinfo, is_global}

  -- Addresses that are all one and the same, which is public.
  abbrev pub IsOnePublic : List String → Type 0
  IsOnePublic infos = (address : String) × (is_global address ≡ true) × All (λ x. x ≡ address) infos

  single_public :
      (s : List String)
      → check_addresses network s ≡ none
      → (a : String) × (s ≡ a ∷ []) × (is_global a ≡ true)
  single_public [] h = absurd (ground (arith, h))
  single_public (a ∷ []) h = (a, refl, ground (arith, h))
  single_public (a ∷ b ∷ s) h = absurd (ground (arith, h))

  resolved :
      (scheme host : String) (port : Option ℕ)
      → check_host network scheme host port ≡ none
      → (p : ℕ) × (infos : List String) × (getaddrinfo host p ≡ some infos) × IsOnePublic infos
  resolved scheme host port h =
      let p : ℕ = port_or port (if scheme == "https" then 443 else 80) in
      elim (Option-cases (getaddrinfo host p)) [
        | inl missing ↦ absurd (ground (arith, missing, h))
        | inr (infos, found) ↦
            let ok : check_addresses network (set_of infos) ≡ none = ground (arith, found, h) in
            let (a, alone, public) = single_public (set_of infos) ok in
            (p, infos, found, (a, public, set_of-single a infos alone))
      ]

  given_host :
      (hostname : Option String)
      → (or_text hostname "" == "") ≡ false
      → hostname ≡ some (or_text hostname "")
  given_host none h = absurd (ground (arith, h))
  given_host (some host) h = elim (Bool-cases (host == "")) [
    | inl hit ↦ rw hit (ap some (==-true host "" hit))
    | inr miss ↦ rw miss refl
  ]

  passed_tests :
      (url : String)
      → validate_public_url network url ≡ none
      → let parsed = urlparse url in
        let host = or_text parsed.hostname "" in
        ((parsed.scheme == "http" || parsed.scheme == "https") ≡ true)
        × ((host == "") ≡ false)
        × (check_host network parsed.scheme host parsed.port ≡ none)
  unfolding validate_public_url
  passed_tests url h = ground (arith, h)

  http_scheme :
      (scheme : String)
      → (scheme == "http" || scheme == "https") ≡ true
      → (scheme ≡ "http") ⊎ (scheme ≡ "https")
  http_scheme scheme h = elim (Bool-cases (scheme == "http")) [
    | inl hit ↦ inl (==-true scheme "http" hit)
    | inr miss ↦ inr (==-true scheme "https" (ground (arith, h, miss)))
  ]

  -- If a URL passes, it is http or https, and its host resolves to addresses that are all one and
  -- the same, which is globally routable.
  pub passed_is_public :
      (url : String)
      → validate_public_url network url ≡ none
      → let parsed = urlparse url in
        ((parsed.scheme ≡ "http") ⊎ (parsed.scheme ≡ "https"))
        × ((host : String) × (parsed.hostname ≡ some host)
            × ((port : ℕ) × (infos : List String) × (getaddrinfo host port ≡ some infos)
                × IsOnePublic infos))
  passed_is_public url h =
      let (http, given, ok) = passed_tests url h in
      let parsed = urlparse url in
      let host = or_text parsed.hostname "" in
      (
        http_scheme parsed.scheme http,
        (host, given_host parsed.hostname given, resolved parsed.scheme host parsed.port ok),
      )
