-- ===== src/Resolving/Legacy/Tests.antt =====
-- The fallback on a concrete request, and a witness.
use adonisjs_lasagna_multite.Prelude.{◌≡◌, refl, none, some, [], ◌∷◌, codes, list_eq}
use adonisjs_lasagna_multite.Resolving.Builtins.{
  Request, Config, text, hostname_of, resolve_header, resolve_subdomain, resolve_path,
  resolve_request_data, resolve_domain_or_subdomain,
}
use adonisjs_lasagna_multite.Resolving.Legacy.{
  header, subdomain, domain_or_subdomain, path, request_data, legacy_resolve_tenant_id, legacy_hit,
}
use adonisjs_lasagna_multite.Resolving.Legacy.Agreement.{
  without_empty, by_first_label, legacy_resolve-agrees,
}

abbrev config : Config
config = record {
  tenant_header_key = codes "x-tenant-id";
  base_domain = codes "example.com";
  ignore_paths = codes "/health" ∷ [];
  query_key = none;
  body_key = none;
}

abbrev request : Request
request = record {
  hostname = some (codes "acme.example.com:80");
  header = λ k. none;
  url = codes "/t2/posts";
  qs = λ k. none;
  input = λ k. some (text (codes "t3"));
}

legacy_tests :
    (legacy_resolve_tenant_id subdomain config request ≡ some (codes "acme"))
    × (legacy_resolve_tenant_id path config request ≡ some (codes "t2"))
    × (legacy_resolve_tenant_id request_data config request ≡ some (codes "t3"))
    × (legacy_resolve_tenant_id header config request ≡ none)
unfolding legacy_resolve_tenant_id hostname_of
legacy_tests = (refl, refl, refl, refl)

legacy_resolve-agrees_example :
    (legacy_hit (legacy_resolve_tenant_id header config request) ≡ resolve_header config request)
    × (legacy_hit (legacy_resolve_tenant_id subdomain config request)
        ≡ without_empty (resolve_subdomain config request))
    × (legacy_hit (legacy_resolve_tenant_id domain_or_subdomain config request)
        ≡ by_first_label (resolve_domain_or_subdomain config request))
    × (legacy_hit (legacy_resolve_tenant_id path config request)
        ≡ resolve_path (record config { ignore_paths = [] }) request)
    × (legacy_hit (legacy_resolve_tenant_id request_data config request)
        ≡ resolve_request_data (record config { query_key = none; body_key = none }) request)
legacy_resolve-agrees_example = legacy_resolve-agrees config request
