-- ===== src/Access/Redirects/Tests.antt =====
-- Tests and witnesses for src/services/cross_domain_redirect_service.ts.
use adonisjs_lasagna_multite.Prelude.{◌≡◌, refl, true, none, some, [], Text, codes}
use adonisjs_lasagna_multite.Prelude.Effects.{returned, thrown}
use adonisjs_lasagna_multite.Resolving.Builtins.{
  Config, Hit, id, resolve_subdomain, resolve_domain_or_subdomain,
}
use adonisjs_lasagna_multite.Access.Redirects.{
  http, Options, to_tenant_at, unsafe_host, unsafe_slug, invalid_port, protocol_relative_path,
  path_has_line_break, assemble, to_tenant, to_central, to_tenant_subdomain, from_request,
}
use adonisjs_lasagna_multite.Access.Redirects.Safety.{Leads, assemble-Leads}
use adonisjs_lasagna_multite.Access.Redirects.Resolution.{to_tenant_subdomain-resolve}

abbrev options : Options
options = record { preserve_query = true; protocol = none; port = some 3333 }

abbrev base : Text
base = codes "example.com"

redirect_tests :
    (to_tenant_subdomain base (codes "acme") (codes "billing") options
      ≡ returned (codes "https://acme.example.com:3333/billing"))
    × (to_central base (codes "//evil.org") options ≡ thrown protocol_relative_path)
    × (to_central base (codes "/a\r\nSet-Cookie: b") options ≡ thrown path_has_line_break)
    × (to_tenant_subdomain base (codes "a.b") [] options ≡ thrown (unsafe_slug (codes "a.b")))
    × (to_tenant base
          (record { id = codes "t1"; custom_domain = some (codes "evil.org/@shop.org") })
          []
          options
        ≡ thrown (unsafe_host (codes "evil.org/@shop.org")))
    × (from_request base
          (record { protocol = http; query = some (codes "a=1") })
          (to_tenant_at
            (record { id = codes "t1"; custom_domain = some (codes "shop.org") })
            (codes "/cart?b=2"))
          (record options { port = none })
        ≡ returned (codes "http://shop.org/cart?b=2&a=1"))
    × (to_central base [] (record options { port = some 65536 }) ≡ thrown (invalid_port 65536))
unfolding to_tenant_subdomain to_central from_request
redirect_tests = (refl, refl, refl, refl, refl, refl, refl)

assemble-Leads_example :
    Leads
      (codes "shop.org")
      (codes "cart")
      options
      (assemble (codes "shop.org") (codes "cart") options)
assemble-Leads_example = assemble-Leads (codes "shop.org") (codes "cart") options

abbrev config : Config
config = record {
  tenant_header_key = codes "x-tenant-id";
  base_domain = base;
  ignore_paths = [];
  query_key = none;
  body_key = none;
}

abbrev request : adonisjs_lasagna_multite.Resolving.Builtins.Request
request = record {
  hostname = some (codes "acme.example.com:3333");
  header = λ k. none;
  url = codes "/billing";
  qs = λ k. none;
  input = λ k. none;
}

to_tenant_subdomain-resolve_example :
    (resolve_subdomain config request ≡ some (id (codes "acme")))
    × (resolve_domain_or_subdomain config request ≡ some (id (codes "acme")))
unfolding to_tenant_subdomain
to_tenant_subdomain-resolve_example =
    to_tenant_subdomain-resolve config request (codes "acme") (codes "billing")
      (codes "https://acme.example.com:3333/billing") options refl refl refl
