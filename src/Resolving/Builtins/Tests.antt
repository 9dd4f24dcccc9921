-- ===== src/Resolving/Builtins/Tests.antt =====
-- The built-in resolvers on concrete requests, and witnesses.
use adonisjs_lasagna_multite.Prelude.{
  ◌≡◌, refl, none, some, [], ◌∷◌, arith, codes, if◌then◌else◌, ◌==◌, list_eq,
}
use adonisjs_lasagna_multite.Resolving.Builtins.{
  Request, Config, text, other, id, domain, hostname_of, subdomain_of_host,
  domain_or_subdomain_of_host, resolve_header, resolve_subdomain, resolve_path,
  resolve_domain_or_subdomain, resolve_request_data,
}
use adonisjs_lasagna_multite.Resolving.Builtins.Hosts.{
  Names, domain_or_subdomain-Names, resolve-subdomain_host,
}

abbrev config : Config
config = record {
  tenant_header_key = codes "x-tenant-id";
  base_domain = codes "example.com";
  ignore_paths = codes "/health" ∷ [];
  query_key = none;
  body_key = none;
}

abbrev request : Request
request = record {
  hostname = some (codes "acme.example.com:3333");
  header = λ k. if k == codes "x-tenant-id" then some (codes "t1") else none;
  url = codes "//t2/posts";
  qs = λ _. some other;
  input = λ k. if k == codes "tenant_id" then some (text (codes "t3")) else none;
}

resolver_tests :
    (resolve_header config request ≡ some (id (codes "t1")))
    × (resolve_subdomain config request ≡ some (id (codes "acme")))
    × (resolve_path config request ≡ some (id (codes "t2")))
    × (resolve_domain_or_subdomain config request ≡ some (id (codes "acme")))
    × (resolve_request_data config request ≡ some (id (codes "t3")))
    × (domain_or_subdomain_of_host (codes "example.com") (codes "acme.org")
        ≡ some (domain (codes "acme.org")))
unfolding resolve_header resolve_subdomain resolve_path resolve_domain_or_subdomain
    resolve_request_data hostname_of subdomain_of_host domain_or_subdomain_of_host
resolver_tests = (refl, refl, refl, refl, refl, refl)

-- A host that begins with a dot gives the strategy `subdomain` an empty id.
blank_label : subdomain_of_host (codes "example.com") (codes ".org") ≡ some (id [])
unfolding subdomain_of_host
blank_label = refl

domain_or_subdomain-Names_example :
    Names
      (codes "example.com")
      (codes "acme.org")
      (domain_or_subdomain_of_host (codes "example.com") (codes "acme.org"))
domain_or_subdomain-Names_example =
    domain_or_subdomain-Names (codes "example.com") (codes "acme.org")

resolve-subdomain_host_example :
    (resolve_subdomain config request ≡ some (id (codes "acme")))
    × (resolve_domain_or_subdomain config request ≡ some (id (codes "acme")))
resolve-subdomain_host_example =
    resolve-subdomain_host config request b'a' (codes "cme") (codes ":3333") (omega arith) refl refl
