-- ===== src/Resolving/Legacy/Agreement.antt =====
-- Where the strategy switch of src/extensions/request.ts agrees with the built-in resolvers of
-- src/services/resolvers/builtins.ts.
use adonisjs_lasagna_multite.Prelude.{
  ◌≡◌, refl, subst, beq_refl, ◌-◌, suc, sym, ap, ◌∙◌, true, false, Option, none, some, List, [],
  ◌∷◌, ◌++◌, arith, Bool-cases, inl, inr, length, length-append, ◌==◌, list_eq, list_beq_iff, Text,
  codes, ends_with, starts_with, split, find_nonempty,
}
use adonisjs_lasagna_multite.Prelude.Texts.Laws.{append_of_ends_with}
use adonisjs_lasagna_multite.Resolving.Builtins.{
  Input, text, other, Request, Config, Hit, id, domain, id_unless_empty, or_empty, hostname_of,
  suffix_of, without_suffix, leftmost_label, subdomain_of_host, resolve_header, resolve_subdomain,
  resolve_path, resolve_request_data, text_hit, or_else, or_custom_domain,
  domain_or_subdomain_of_host, resolve_domain_or_subdomain,
}
use adonisjs_lasagna_multite.Resolving.Builtins.Hosts.{without_suffix_lem}
use adonisjs_lasagna_multite.Resolving.Legacy.{
  header, subdomain, domain_or_subdomain, path, request_data, first_of_many, nonempty, legacy_host,
  input_or, legacy_resolve_tenant_id, legacy_hit,
}

-- A hit without an empty id.
abbrev pub without_empty : Option Hit → Option Hit
without_empty none = none
without_empty (some (id s)) = id_unless_empty s
without_empty (some (domain d)) = some (domain d)

header-agrees : (o : Option Text) → legacy_hit o ≡ id_unless_empty (or_empty o)
header-agrees none = refl
header-agrees (some s) = refl

last_input-agrees : (b : Option Input) → legacy_hit (input_or b none) ≡ text_hit b
last_input-agrees none = refl
last_input-agrees (some other) = refl
last_input-agrees (some (text [])) = refl
last_input-agrees (some (text (c ∷ s))) = refl

input-agrees :
    (a b : Option Input)
    → legacy_hit (input_or a (input_or b none)) ≡ or_else (text_hit a) (text_hit b)
input-agrees none b = last_input-agrees b
input-agrees (some other) b = last_input-agrees b
input-agrees (some (text [])) b = last_input-agrees b
input-agrees (some (text (c ∷ s))) b = refl

segment-agrees :
    (ws : List Text)
    → legacy_hit (find_nonempty ws)
      ≡ elim (find_nonempty ws) [ none ↦ none | some segment ↦ some (id segment) ]
segment-agrees [] = refl
segment-agrees ([] ∷ ws) = segment-agrees ws
segment-agrees ((c ∷ w) ∷ ws) = refl

labels-agree : (ws : List Text) → legacy_hit (first_of_many ws) ≡ without_empty (leftmost_label ws)
labels-agree [] = refl
labels-agree (w ∷ []) = refl
labels-agree (w ∷ v ∷ ws) = refl

nonempty-agrees : (s : Text) → legacy_hit (nonempty s) ≡ without_empty (id_unless_empty s)
nonempty-agrees [] = refl
nonempty-agrees (c ∷ s) = refl

-- A host that is the base domain itself has no subdomain.
own_suffix :
    (host : Text)
    → ends_with host (suffix_of host) ≡ true
    → nonempty (without_suffix host (suffix_of host)) ≡ none
own_suffix host ends = elim (Bool-cases (starts_with host (b'.' ∷ []))) [
  | inl dotted ↦
      let nothing : length host - length host ≡ 0 = omega arith in rw (dotted, nothing) refl
  | inr plain ↦
      let longer : length (suffix_of host) ≡ suc (length host) = rw plain refl in
      let (r, e) = append_of_ends_with host (suffix_of host) ends in
      absurd (omega (arith, ap length e, length-append r (suffix_of host), longer))
]

own_host : (host : Text) → legacy_host host host ≡ none
unfolding legacy_host
own_host host = elim (Bool-cases (ends_with host (suffix_of host))) [
  | inl ends ↦ rw ends (own_suffix host ends)
  | inr apart ↦ rw (apart, beq_refl host) refl
]

own_subdomain : (base host : Text) → (host == base) ≡ true → subdomain_of_host base host ≡ none
unfolding subdomain_of_host
own_subdomain base host same = elim (Bool-cases (host == [])) [
  | inl blank ↦ rw blank refl
  | inr named ↦ rw (named, same) refl
]

no_host : (base : Text) → legacy_host base [] ≡ none
unfolding legacy_host
no_host base =
    let nothing : 0 - length (suffix_of base) ≡ 0 = omega arith in
    elim (Bool-cases (ends_with [] (suffix_of base))) [
      | inl ends ↦ rw (ends, nothing) refl
      | inr apart ↦ elim (Bool-cases ([] == base)) [
        | inl same ↦ rw (apart, same) refl
        | inr differ ↦ rw (apart, differ) refl
      ]
    ]

host-agrees :
    (base host : Text)
    → legacy_hit (legacy_host base host) ≡ without_empty (subdomain_of_host base host)
unfolding legacy_host subdomain_of_host
host-agrees base [] = ap legacy_hit (no_host base)
host-agrees base (c ∷ host) = elim (Bool-cases ((c ∷ host) == base)) [
  | inl same ↦
      let own : (c ∷ host) ≡ base = (list_beq_iff (c ∷ host) base).0 same in
      ap legacy_hit (subst (λ b. legacy_host b (c ∷ host) ≡ none) own (own_host (c ∷ host)))
      ∙ sym (ap without_empty (own_subdomain base (c ∷ host) same))
  | inr differ ↦ elim (Bool-cases (ends_with (c ∷ host) (suffix_of base))) [
    | inl ends ↦ rw (differ, ends) (nonempty-agrees (without_suffix (c ∷ host) (suffix_of base)))
    | inr apart ↦ rw (differ, apart) (labels-agree (split b'.' (c ∷ host)))
  ]
]

-- What the fallback makes of a hit that names a custom domain: the id before its first dot.
abbrev pub by_first_label : Option Hit → Option Hit
by_first_label none = none
by_first_label (some (id s)) = some (id s)
by_first_label (some (domain d)) = legacy_hit (first_of_many (split b'.' d))

blank_label : (ws : List Text) → legacy_hit (first_of_many ([] ∷ ws)) ≡ none
blank_label [] = refl
blank_label (w ∷ ws) = refl

-- The suffix alone has a blank first label.
bare_suffix :
    (base : Text)
    → (suffix_of base == base) ≡ false
    → legacy_hit (first_of_many (split b'.' (suffix_of base))) ≡ none
bare_suffix base differ = elim (Bool-cases (starts_with base (b'.' ∷ []))) [
  | inl dotted ↦
      let whole : suffix_of base ≡ base = rw dotted refl in
      cc (differ, ap (λ t. t == base) whole, beq_refl base)
  | inr plain ↦ rw plain (blank_label (split b'.' base))
]

under_suffix :
    (base host rest : Text)
    → host ≡ rest ++ suffix_of base
    → (host == base) ≡ false
    → legacy_hit (nonempty rest)
      ≡ by_first_label (or_custom_domain base host (id_unless_empty rest))
under_suffix base host [] e differ = rw differ (
    sym (bare_suffix base (ap (λ h. h == base) (sym e) ∙ differ))
    ∙ ap (λ h. legacy_hit (first_of_many (split b'.' h))) (sym e))
under_suffix base host (c ∷ rest) e differ = refl

own_domain :
    (base host : Text) → (host == base) ≡ true → domain_or_subdomain_of_host base host ≡ none
unfolding domain_or_subdomain_of_host
own_domain base host same = elim (Bool-cases (host == [])) [
  | inl blank ↦ rw blank refl
  | inr named ↦ rw (named, same, same) refl
]

custom-agrees :
    (base host : Text)
    → legacy_hit (legacy_host base host) ≡ by_first_label (domain_or_subdomain_of_host base host)
unfolding legacy_host domain_or_subdomain_of_host
custom-agrees base [] = ap legacy_hit (no_host base)
custom-agrees base (c ∷ host) = elim (Bool-cases ((c ∷ host) == base)) [
  | inl same ↦
      let own : (c ∷ host) ≡ base = (list_beq_iff (c ∷ host) base).0 same in
      ap legacy_hit (subst (λ b. legacy_host b (c ∷ host) ≡ none) own (own_host (c ∷ host)))
      ∙ sym (ap by_first_label (own_domain base (c ∷ host) same))
  | inr differ ↦ elim (Bool-cases (ends_with (c ∷ host) (suffix_of base))) [
    | inl ends ↦
        let (r, e) = append_of_ends_with (c ∷ host) (suffix_of base) ends in
        rw (differ, ends, without_suffix_lem (c ∷ host) r (suffix_of base) e)
          (under_suffix base (c ∷ host) r e differ)
    | inr apart ↦ rw (differ, apart, differ) refl
  ]
]

-- Where no chain is set, the fallback against the built-in resolver of the strategy, for every
-- request and configuration. For headers they find the same. For subdomains they do, but for an
-- empty first label, which is no tenant here. For domain or subdomain they find the same id or
-- nothing, but where the resolver gives a custom domain, the fallback takes what is before its first
-- dot, where there is one, as an id. For paths and request data the fallback finds what the resolver
-- finds without ignored paths and with the keys that are not configured.
pub legacy_resolve-agrees :
    (config : Config) (request : Request)
    → (legacy_hit (legacy_resolve_tenant_id header config request) ≡ resolve_header config request)
      × (legacy_hit (legacy_resolve_tenant_id subdomain config request)
          ≡ without_empty (resolve_subdomain config request))
      × (legacy_hit (legacy_resolve_tenant_id domain_or_subdomain config request)
          ≡ by_first_label (resolve_domain_or_subdomain config request))
      × (legacy_hit (legacy_resolve_tenant_id path config request)
          ≡ resolve_path (record config { ignore_paths = [] }) request)
      × (legacy_hit (legacy_resolve_tenant_id request_data config request)
          ≡ resolve_request_data (record config { query_key = none; body_key = none }) request)
unfolding legacy_resolve_tenant_id resolve_header resolve_subdomain resolve_path
    resolve_request_data resolve_domain_or_subdomain
legacy_resolve-agrees config request = (
  header-agrees (request.header config.tenant_header_key),
  host-agrees config.base_domain (hostname_of request),
  custom-agrees config.base_domain (hostname_of request),
  segment-agrees (split b'/' request.url),
  input-agrees (request.qs (codes "tenant_id")) (request.input (codes "tenant_id")),
)
