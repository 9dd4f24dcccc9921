-- ===== src/Access/Redirects.antt =====
-- src/services/cross_domain_redirect_service.ts: absolute URLs to the hosts of tenants and to the
-- central one. A port is a natural number; texts are lists of code units.
pub mod Authority
pub mod Ports
pub mod Safety
pub mod Resolution
mod Tests
use adonisjs_lasagna_multite.Prelude.{
  ℕ, zero, suc, ◌+◌, ◌-◌, ◌/◌, ◌%◌, Bool, true, false, ◌&&◌, ◌||◌, not, Option, none, some, List,
  [], ◌∷◌, ◌++◌, length, all, any, leb, ltb, nat_beq, is_alphanumeric, if◌then◌else◌, Text, codes,
  split, starts_with,
}
use adonisjs_lasagna_multite.Prelude.Effects.{Outcome, returned, thrown}

pub data Protocol : Type 0 where
  http https : Protocol

-- `BuildUrlOptions`
pub record Options : Type 0 where
  pub preserve_query : Bool
  pub protocol : Option Protocol
  pub port : Option ℕ

pub data UrlError : Type 0 where
  unsafe_host unsafe_slug : Text → UrlError
  invalid_port : ℕ → UrlError
  path_has_line_break protocol_relative_path : UrlError

-- the tenant as far as the service reads it
pub record Tenant : Type 0 where
  pub id : Text
  pub custom_domain : Option Text

-- what `fromRequest` reads of a request
pub record Request : Type 0 where
  pub protocol : Protocol
  pub query : Option Text

pub data Target : Type 0 where
  to_tenant_at : Tenant → Text → Target
  to_central_at : Text → Target

-- `([a-z0-9-]{0,61}[a-z0-9])?` behind the first code unit
abbrev pub label_rest : Text → Bool
label_rest [] = true
label_rest (c ∷ []) = is_alphanumeric c
label_rest (c ∷ d ∷ s) = (is_alphanumeric c || nat_beq c b'-') && label_rest (d ∷ s)

-- `HOST_LABEL_RE.test(label)`
pub is_host_label : Text → Bool
is_host_label [] = false
is_host_label (c ∷ s) = is_alphanumeric c && leb (length s) 62 && label_rest s

-- `HOST_RE.test(host)`: labels with dots between them
pub is_host : Text → Bool
unfolding is_host_label
is_host host = all is_host_label (split b'.' host)

-- `assertSafeHost`
pub assert_safe_host : Text → Outcome UrlError (Unit {0})
unfolding is_host
assert_safe_host host =
    if nat_beq (length host) 0 || ltb 253 (length host) || not (is_host host)
    then thrown (unsafe_host host)
    else returned tt

-- the digits of a number, at most `fuel` of them
abbrev pub decimal : ℕ → ℕ → Text
decimal zero n = []
decimal (suc fuel) n =
    let tens = decimal fuel (n / 10) in
    if ltb n 10 then (48 + n) ∷ [] else tens ++ (48 + n % 10) ∷ []

-- `` opts.port ? `:${assertSafePort(opts.port)}` : '' ``; five digits are enough for a port
abbrev pub port_suffix : Option ℕ → Outcome UrlError Text
port_suffix none = returned []
port_suffix (some zero) = returned []
port_suffix (some (suc n)) =
    if ltb 65535 (suc n) then thrown (invalid_port (suc n)) else returned (b':' ∷ decimal 5 (suc n))

abbrev is_line_break : ℕ → Bool
is_line_break c = nat_beq c b'\r' || nat_beq c b'\n'

abbrev pub with_slash : Text → Text
with_slash path = if starts_with path (b'/' ∷ []) then path else b'/' ∷ path

-- `normalizeRedirectPath`
pub normalize_redirect_path : Text → Outcome UrlError Text
normalize_redirect_path path =
    if any is_line_break path
    then thrown path_has_line_break
    else if starts_with (with_slash path) (b'/' ∷ b'/' ∷ [])
    then thrown protocol_relative_path
    else returned (with_slash path)

abbrev pub scheme : Option Protocol → Text
scheme none = codes "https"
scheme (some https) = codes "https"
scheme (some http) = codes "http"

abbrev pub join_url :
    Text → Text → Outcome UrlError Text → Outcome UrlError Text → Outcome UrlError Text
join_url protocol host (thrown e) path = thrown e
join_url protocol host (returned port) (thrown e) = thrown e
join_url protocol host (returned port) (returned path) =
    returned (protocol ++ (codes "://" ++ (host ++ (port ++ path))))

abbrev pub join_checked :
    Outcome UrlError (Unit {0}) → Outcome UrlError Text → Outcome UrlError Text
join_checked (thrown e) url = thrown e
join_checked (returned _) url = url

-- `#assemble`: the host is tested first, then the port, then the path
pub assemble : Text → Text → Options → Outcome UrlError Text
unfolding assert_safe_host normalize_redirect_path
assemble host path opts =
    join_checked (assert_safe_host host)
      (join_url (scheme opts.protocol) host (port_suffix opts.port) (normalize_redirect_path path))

abbrev pub assemble_at : Text → Options → Outcome UrlError Text → Outcome UrlError Text
assemble_at path opts (thrown e) = thrown e
assemble_at path opts (returned host) = assemble host path opts

module _ (base_domain : Text) where
  -- `toTenantSubdomainHost`
  pub to_tenant_subdomain_host : Text → Outcome UrlError Text
  unfolding is_host_label
  to_tenant_subdomain_host slug =
      if is_host_label slug
      then returned (slug ++ b'.' ∷ base_domain)
      else thrown (unsafe_slug slug)

  abbrev host_of : Tenant → Option Text → Outcome UrlError Text
  host_of tenant none = to_tenant_subdomain_host tenant.id
  host_of tenant (some host) = returned host

  -- `toTenant`
  pub to_tenant : Tenant → Text → Options → Outcome UrlError Text
  unfolding to_tenant_subdomain_host assemble
  to_tenant tenant path opts = assemble_at path opts (host_of tenant tenant.custom_domain)

  -- `toCentral`
  pub to_central : Text → Options → Outcome UrlError Text
  unfolding assemble
  to_central path opts = assemble base_domain path opts

  -- `toTenantSubdomain`
  pub to_tenant_subdomain : Text → Text → Options → Outcome UrlError Text
  unfolding to_tenant_subdomain_host assemble
  to_tenant_subdomain slug path opts = assemble_at path opts (to_tenant_subdomain_host slug)

  -- the source's query behind the path, where it is to be preserved and there is one
  abbrev pub with_query : Bool → Option Text → Text → Text
  with_query false query path = path
  with_query true none path = path
  with_query true (some []) path = path
  with_query true (some (c ∷ qs)) path =
      path ++ (if any (λ d. nat_beq d b'?') path then b'&' else b'?') ∷ c ∷ qs

  abbrev pub or_request : Option Protocol → Protocol → Option Protocol
  or_request none p = some p
  or_request (some p) q = some p

  -- `fromRequest`
  pub from_request : Request → Target → Options → Outcome UrlError Text
  unfolding to_tenant to_central
  from_request request (to_tenant_at tenant path) opts =
      to_tenant tenant (with_query opts.preserve_query request.query path)
        (record opts { protocol = or_request opts.protocol request.protocol })
  from_request request (to_central_at path) opts =
      to_central (with_query opts.preserve_query request.query path)
        (record opts { protocol = or_request opts.protocol request.protocol })
