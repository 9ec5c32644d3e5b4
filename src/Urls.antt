-- ===== src/Urls.antt =====
-- harness/runtime/url_validation.py: which URLs a tool may fetch. `urlparse`, `getaddrinfo` and
-- `ipaddress` are Python's, and parameters.
pub mod Public
use marcus.Prelude.{
  if◌then◌else◌, length, all, ◌==◌, ℕ, String, Bool, not, ◌||◌, Option, none, some, List, nat_eq,
  string_eq,
}
use marcus.Prelude.Texts.{or_text, set_of}

pub record ParsedUrl : Type 0 where
  pub scheme : String
  pub hostname : Option String
  pub port : Option ℕ

-- `getaddrinfo` is `none` where it raises OSError, and else the addresses in its answer.
pub record Network : Type 0 where
  pub urlparse : String → ParsedUrl
  pub getaddrinfo : String → ℕ → Option (List String)
  pub is_global : String → Bool

-- The `ValueError`s.
pub data UrlError : Type 0 where
  not_http unresolved no_addresses multiple_addresses not_public : UrlError

abbrev pub port_or : Option ℕ → ℕ → ℕ
port_or none default = default
port_or (some n) default = if n == 0 then default else n

module _ (network : Network) where
  open network use {urlparse, getaddrinfo, is_global}

  -- The tests on the set of addresses.
  abbrev pub check_addresses : List String → Option UrlError
  check_addresses addresses =
      if length addresses == 0
      then some no_addresses
      else if not (length addresses == 1)
      then some multiple_addresses
      else if all is_global addresses
      then none
      else some not_public

  abbrev pub check_host : String → String → Option ℕ → Option UrlError
  check_host scheme host port =
      elim (getaddrinfo host (port_or port (if scheme == "https" then 443 else 80))) [
        | none ↦ some unresolved
        | some infos ↦ check_addresses (set_of infos)
      ]

  -- `none` is a URL that passes.
  unfoldable pub validate_public_url : String → Option UrlError
  validate_public_url url =
      let parsed = urlparse url in
      let host = or_text parsed.hostname "" in
      if not (parsed.scheme == "http" || parsed.scheme == "https") || host == ""
      then some not_http
      else check_host parsed.scheme host parsed.port
