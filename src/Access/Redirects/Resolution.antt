-- ===== src/Access/Redirects/Resolution.antt =====
-- The URLs of src/services/cross_domain_redirect_service.ts, read back by the resolvers of
-- src/services/resolvers/builtins.ts.
use adonisjs_lasagna_multite.Prelude.{
  ℕ, zero, suc, ◌≡◌, refl, sym, ap, ◌∙◌, subst, true, false, Option, none, some, [], ◌∷◌, ◌++◌,
  arith, not, nat_beq, Bool-cases, ◌⊎◌, inl, inr, Text, starts_with,
}
use adonisjs_lasagna_multite.Prelude.Effects.{returned, thrown}
use adonisjs_lasagna_multite.Prelude.Texts.Laws.{Lacks, all-Lacks}
use adonisjs_lasagna_multite.Resolving.Builtins.{
  Request, Config, id, suffix_of, resolve_subdomain, resolve_domain_or_subdomain,
}
use adonisjs_lasagna_multite.Resolving.Builtins.Hosts.{IsPort, resolve-subdomain_host}
use adonisjs_lasagna_multite.Access.Redirects.{
  Options, unsafe_slug, is_host_label, is_host, assemble, assemble_at, to_tenant_subdomain_host,
  to_tenant_subdomain,
}
use adonisjs_lasagna_multite.Access.Redirects.Safety.{Leads, assemble-Leads}
use adonisjs_lasagna_multite.Access.Redirects.Ports.{IsPortSuffix}
use adonisjs_lasagna_multite.Access.Redirects.Authority.{authority_of, all-host}

host-Lacks : (host : Text) → is_host host ≡ true → Lacks b':' host
host-Lacks host h =
    all-Lacks b':' host (all-host (λ c. not (nat_beq c b':')) (λ c legal. ground arith) host refl h)

IsPortSuffix-IsPort : (port : Option ℕ) (p : Text) → IsPortSuffix port p → IsPort p
IsPortSuffix-IsPort none p h = subst IsPort (sym h) tt
IsPortSuffix-IsPort (some zero) p h = subst IsPort (sym h) tt
IsPortSuffix-IsPort (some (suc n)) p (digits, text, _, _) = subst IsPort (sym text) refl

-- What the resolvers of subdomains give for a request.
abbrev Resolves : Config → Request → Text → Type 0
Resolves config request slug =
    (resolve_subdomain config request ≡ some (id slug))
    × (resolve_domain_or_subdomain config request ≡ some (id slug))

assembled-Resolves :
    (config : Config) (request : Request) (c : ℕ) (s path url : Text) (opts : Options)
    → starts_with config.base_domain (b'.' ∷ []) ≡ false
    → assemble ((c ∷ s) ++ b'.' ∷ config.base_domain) path opts ≡ returned url
    → request.hostname ≡ some (authority_of url)
    → Resolves config request (c ∷ s)
assembled-Resolves config request c s path url opts plain e at =
    let host = (c ∷ s) ++ b'.' ∷ config.base_domain in
    let (legal, (port, digits, _, authority), _) =
      subst (Leads host path opts) e (assemble-Leads host path opts) in
    let suffix : suffix_of config.base_domain ≡ b'.' ∷ config.base_domain = rw plain refl in
    resolve-subdomain_host config request c s port
      (subst (λ t. Lacks b':' ((c ∷ s) ++ t)) (sym suffix) (host-Lacks host legal))
      (IsPortSuffix-IsPort opts.port port digits)
      (at ∙ ap some authority ∙ ap (λ t. some (((c ∷ s) ++ t) ++ port)) (sym suffix))

subdomain_host-made :
    (base slug : Text)
    → (to_tenant_subdomain_host base slug ≡ returned (slug ++ b'.' ∷ base))
      ⊎ (to_tenant_subdomain_host base slug ≡ thrown (unsafe_slug slug))
unfolding to_tenant_subdomain_host
subdomain_host-made base slug = elim (Bool-cases (is_host_label slug)) [
  | inl legal ↦ inl (rw legal refl)
  | inr other ↦ inr (rw other refl)
]

-- A URL to the subdomain of a tenant, opened by a browser that sends its authority as the host,
-- reaches that tenant again under both strategies that read subdomains, whatever the path, the port
-- and the protocol; the base domain is one without a dot in front.
pub to_tenant_subdomain-resolve :
    (config : Config) (request : Request) (slug path url : Text) (opts : Options)
    → starts_with config.base_domain (b'.' ∷ []) ≡ false
    → to_tenant_subdomain config.base_domain slug path opts ≡ returned url
    → request.hostname ≡ some (authority_of url)
    → (resolve_subdomain config request ≡ some (id slug))
      × (resolve_domain_or_subdomain config request ≡ some (id slug))
unfolding to_tenant_subdomain
to_tenant_subdomain-resolve config request [] path url opts plain e at = absurd cc
to_tenant_subdomain-resolve config request (c ∷ s) path url opts plain e at =
    elim (subdomain_host-made config.base_domain (c ∷ s)) [
      | inl made ↦
          assembled-Resolves config request c s path url opts plain
            (ap (assemble_at path opts) (sym made) ∙ e) at
      | inr refused ↦ absurd (cc (ap (assemble_at path opts) (sym refused) ∙ e))
    ]
