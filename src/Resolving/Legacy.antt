-- ===== src/Resolving/Legacy.antt =====
-- src/extensions/request.ts: `resolveTenant`, and the strategy switch `legacyResolveTenantId` that
-- it falls back to where no chain of resolvers is set.
pub mod Agreement
mod Tests
use adonisjs_lasagna_multite.Prelude.{
  String, Bool, true, false, Option, none, some, List, [], ◌∷◌, if◌then◌else◌, ◌==◌, list_eq, Text,
  codes, ends_with, split, find_nonempty,
}
use adonisjs_lasagna_multite.Prelude.Effects.{Effect, pure}
use adonisjs_lasagna_multite.Resolving.Builtins.{
  Input, text, other, Request, Config, Hit, id, id_unless_empty, or_empty, hostname_of, suffix_of,
  without_suffix,
}
use adonisjs_lasagna_multite.Resolving.Registry.{Registry, resolve}

-- `resolverStrategy`; any other text counts as `header`
pub data Strategy : Type 0 where
  header subdomain domain_or_subdomain path request_data : Strategy

-- `labels.length > 1 ? labels[0] : undefined`
abbrev pub first_of_many : List Text → Option Text
first_of_many [] = none
first_of_many (w ∷ []) = none
first_of_many (w ∷ v ∷ ws) = some w

-- `sub || undefined`
abbrev pub nonempty : Text → Option Text
nonempty [] = none
nonempty (c ∷ s) = some (c ∷ s)

pub legacy_host : Text → Text → Option Text
legacy_host base host =
    if ends_with host (suffix_of base)
    then nonempty (without_suffix host (suffix_of base))
    else if host == base
    then none
    else first_of_many (split b'.' host)

-- `typeof v === 'string' && v.length > 0`, else what follows
abbrev pub input_or : Option Input → Option Text → Option Text
input_or none later = later
input_or (some other) later = later
input_or (some (text [])) later = later
input_or (some (text (c ∷ s))) later = some (c ∷ s)

pub legacy_resolve_tenant_id : Strategy → Config → Request → Option Text
unfolding legacy_host
legacy_resolve_tenant_id subdomain config request =
    legacy_host config.base_domain (hostname_of request)
legacy_resolve_tenant_id domain_or_subdomain config request =
    legacy_host config.base_domain (hostname_of request)
legacy_resolve_tenant_id path config request = find_nonempty (split b'/' request.url)
legacy_resolve_tenant_id request_data config request =
    input_or (request.qs (codes "tenant_id")) (input_or (request.input (codes "tenant_id")) none)
legacy_resolve_tenant_id header config request = request.header config.tenant_header_key

-- `id ? { type: 'id', tenantId: id } : undefined`
abbrev pub legacy_hit : Option Text → Option Hit
legacy_hit none = none
legacy_hit (some s) = id_unless_empty s

module _ {W E : Type 0} where
  abbrev pub by_chain :
      Registry W E Request Hit → List String → Request → Option Hit → Effect W E (Option Hit)
  by_chain registry [] request legacy = pure legacy
  by_chain registry (name ∷ names) request legacy = resolve registry request

  -- `resolveTenant`: the chain, where there is one
  pub resolve_tenant :
      Option (Registry W E Request Hit) → Strategy → Config → Request → Effect W E (Option Hit)
  unfolding legacy_resolve_tenant_id
  resolve_tenant none strategy config request =
      pure (legacy_hit (legacy_resolve_tenant_id strategy config request))
  resolve_tenant (some registry) strategy config request =
      by_chain registry registry.chain request
        (legacy_hit (legacy_resolve_tenant_id strategy config request))
