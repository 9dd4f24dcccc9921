-- ===== src/Resolving/Builtins.antt =====
-- src/services/resolvers/resolver.ts and src/services/resolvers/builtins.ts: the five built-in
-- strategies. A request and the configuration are records of what the resolvers read; texts are
-- lists of code units.
pub mod Hosts
pub mod Paths
mod Tests
use adonisjs_lasagna_multite.Prelude.{
  ℕ, ◌-◌, Bool, true, false, ◌&&◌, not, Option, none, some, List, [], ◌∷◌, ◌++◌, length, take, any,
  if◌then◌else◌, ltb, ◌==◌, list_eq, Text, codes, starts_with, ends_with, split, first,
  find_nonempty,
}

-- A value of a query string or a body: a text, or another JSON value.
pub data Input : Type 0 where
  text : Text → Input
  other : Input

-- What the resolvers ask of `HttpRequest`.
pub record Request : Type 0 where
  pub hostname : Option Text
  pub header : Text → Option Text
  pub url : Text
  pub qs : Text → Option Input
  pub input : Text → Option Input

pub record Config : Type 0 where
  pub tenant_header_key : Text
  pub base_domain : Text
  pub ignore_paths : List Text
  pub query_key : Option Text
  pub body_key : Option Text

-- A hit; a miss is `none`.
pub data Hit : Type 0 where
  id domain : Text → Hit

-- The empty text is falsy.
abbrev pub id_unless_empty : Text → Option Hit
id_unless_empty [] = none
id_unless_empty (c ∷ s) = some (id (c ∷ s))

abbrev pub or_empty : Option Text → Text
or_empty none = []
or_empty (some s) = s

unfoldable pub hostname_of : Request → Text
hostname_of request = first (split b':' (or_empty request.hostname))

unfoldable pub resolve_header : Config → Request → Option Hit
resolve_header config request = id_unless_empty (or_empty (request.header config.tenant_header_key))

abbrev pub suffix_of : Text → Text
suffix_of base = if starts_with base (b'.' ∷ []) then base else b'.' ∷ base

-- `host.slice(0, host.length - suffix.length)`
abbrev pub without_suffix : Text → Text → Text
without_suffix host suffix = take (length host - length suffix) host

-- `labels.length > 1 ? id(labels[0]) : miss()`
abbrev pub leftmost_label : List Text → Option Hit
leftmost_label [] = none
leftmost_label (w ∷ []) = none
leftmost_label (w ∷ v ∷ ws) = some (id w)

unfoldable pub subdomain_of_host : Text → Text → Option Hit
subdomain_of_host base host =
    if host == []
    then none
    else if host == base
    then none
    else if ends_with host (suffix_of base)
    then id_unless_empty (without_suffix host (suffix_of base))
    else leftmost_label (split b'.' host)

unfoldable pub resolve_subdomain : Config → Request → Option Hit
resolve_subdomain config request = subdomain_of_host config.base_domain (hostname_of request)

unfoldable pub resolve_path : Config → Request → Option Hit
resolve_path config request =
    if any (λ p. starts_with request.url p) config.ignore_paths
    then none
    else elim (find_nonempty (split b'/' request.url)) [
      | none ↦ none
      | some segment ↦ some (id segment)
    ]

-- the rest of the strategy where the subdomain gives no hit
abbrev pub or_custom_domain : Text → Text → Option Hit → Option Hit
or_custom_domain base host (some hit) = some hit
or_custom_domain base host none = if not (host == base) then some (domain host) else none

-- A subdomain, where there is one; else the host as a custom domain, unless it is the base domain.
unfoldable pub domain_or_subdomain_of_host : Text → Text → Option Hit
domain_or_subdomain_of_host base host =
    if host == []
    then none
    else or_custom_domain base host (
        if not (host == base) && ends_with host (suffix_of base)
        then id_unless_empty (without_suffix host (suffix_of base))
        else none)

unfoldable pub resolve_domain_or_subdomain : Config → Request → Option Hit
resolve_domain_or_subdomain config request =
    domain_or_subdomain_of_host config.base_domain (hostname_of request)

abbrev pub key_or_default : Option Text → Text
key_or_default none = codes "tenant_id"
key_or_default (some k) = k

-- `typeof v === 'string' && v.length > 0`
abbrev pub text_hit : Option Input → Option Hit
text_hit none = none
text_hit (some other) = none
text_hit (some (text s)) = id_unless_empty s

-- The first source that gives a hit.
abbrev pub or_else : Option Hit → Option Hit → Option Hit
or_else (some hit) later = some hit
or_else none later = later

unfoldable pub resolve_request_data : Config → Request → Option Hit
resolve_request_data config request =
    or_else (text_hit (request.qs (key_or_default config.query_key)))
      (text_hit (request.input (key_or_default config.body_key)))
