-- ===== src/Resolving/Builtins/Hosts.antt =====
-- Which tenant a host names (src/services/resolvers/builtins.ts).
use adonisjs_lasagna_multite.Prelude.{
  ℕ, ◌≤◌, ◌≡◌, ◌≢◌, ◌⊎◌, inl, inr, refl, sym, ◌∙◌, ap, subst, false, Option, none, some, [], ◌∷◌,
  ◌++◌, arith, length, length-append, ◌==◌, list_eq, list_beq_iff, Bool-cases, beq_ne, Text,
  starts_with, ends_with, split, first,
}
use mathlib.Core.List.{append-nil}
use adonisjs_lasagna_multite.Prelude.Texts.Laws.{
  Lacks, ends_with-append, append_of_ends_with, take-suffix, nil_of_append, first-split,
  first-split_all,
}
use adonisjs_lasagna_multite.Resolving.Builtins.{
  Request, Config, Hit, id, domain, id_unless_empty, or_empty, hostname_of, suffix_of,
  without_suffix, or_custom_domain, subdomain_of_host, domain_or_subdomain_of_host,
  resolve_subdomain, resolve_domain_or_subdomain,
}

-- What a host may give: nothing for the empty host and the base domain; the text before the suffix
-- where that is not empty; else the whole host as a custom domain.
abbrev pub Names : Text → Text → Option Hit → Type 0
Names base host none = (host ≡ []) ⊎ (host ≡ base)
Names base host (some (id s)) = (s ≢ []) × (host ≢ base) × (host ≡ s ++ suffix_of base)
Names base host (some (domain h)) =
    (h ≡ host) × (host ≢ []) × (host ≢ base) × ((s : Text) → host ≡ s ++ suffix_of base → s ≡ [])

ne_of_beq : {a b : Text} → (a == b) ≡ false → a ≢ b
ne_of_beq {a} {b} h = λ same. cc (h, (list_beq_iff a b).1 same)

pub without_suffix_lem :
    (host r suffix : Text) → host ≡ r ++ suffix → without_suffix host suffix ≡ r
without_suffix_lem host r suffix e =
    subst (λ h. without_suffix h suffix ≡ r) (sym e) (take-suffix r suffix)

under-Names :
    (base host r : Text)
    → host ≡ r ++ suffix_of base
    → host ≢ []
    → (host == base) ≡ false
    → Names base host (or_custom_domain base host (id_unless_empty r))
under-Names base host [] e full outer =
    rw outer (refl, full, ne_of_beq outer, λ s e'. nil_of_append s (suffix_of base) (sym e ∙ e'))
under-Names base host (c ∷ r) e full outer = ((λ blank. cc), ne_of_beq outer, e)

custom-Names :
    (base host : Text)
    → ends_with host (suffix_of base) ≡ false
    → (s : Text) → host ≡ s ++ suffix_of base
    → s ≡ []
custom-Names base host custom s e =
    cc (custom, ap (λ h. ends_with h (suffix_of base)) e, ends_with-append s (suffix_of base))

-- The strategy `domain-or-subdomain`, on every host: nothing for the empty host and the base
-- domain; the id before the suffix where the host is a subdomain and that id is not empty; and
-- otherwise, and only then, the whole host as a custom domain. The subdomain goes first: no host
-- below the base domain is looked up as a custom domain, unless nothing stands before the suffix.
pub domain_or_subdomain-Names :
    (base host : Text) → Names base host (domain_or_subdomain_of_host base host)
unfolding domain_or_subdomain_of_host
domain_or_subdomain-Names base host = elim (Bool-cases (host == [])) [
  | inl blank ↦ rw blank (inl ((list_beq_iff host []).0 blank))
  | inr full ↦ elim (Bool-cases (host == base)) [
    | inl apex ↦ rw (full, apex, apex) (inr ((list_beq_iff host base).0 apex))
    | inr outer ↦ elim (Bool-cases (ends_with host (suffix_of base))) [
      | inl under ↦
          let (r, e) = append_of_ends_with host (suffix_of base) under in
          rw (full, outer, under, without_suffix_lem host r (suffix_of base) e)
            (under-Names base host r e (ne_of_beq full) outer)
      | inr custom ↦
          rw (full, outer, custom, outer)
            (refl, ne_of_beq full, ne_of_beq outer, custom-Names base host custom)
    ]
  ]
]

-- What may follow a host in the `Host` header.
abbrev pub IsPort : Text → Type 0
IsPort [] = Unit
IsPort (c ∷ port) = c ≡ b':'

hostname_of_lem :
    (request : Request) (host port : Text)
    → Lacks b':' host
    → IsPort port
    → request.hostname ≡ some (host ++ port)
    → hostname_of request ≡ host
unfolding hostname_of
hostname_of_lem request host [] no_colon p e =
    ap (λ h. first (split b':' (or_empty h))) (e ∙ ap some (append-nil host))
    ∙ first-split_all b':' host no_colon
hostname_of_lem request host (c ∷ port) no_colon p e =
    ap (λ h. first (split b':' (or_empty h))) (e ∙ ap (λ d. some (host ++ d ∷ port)) p)
    ∙ first-split b':' host port no_colon

length-suffix_of : (base : Text) → length base ≤ length (suffix_of base)
length-suffix_of base = elim (Bool-cases (starts_with base (b'.' ∷ []))) [
  | inl dotted ↦ rw dotted (omega arith)
  | inr plain ↦ rw plain (omega arith)
]

subdomain-ne_base : (base s : Text) (c : ℕ) → (c ∷ s) ++ suffix_of base ≢ base
subdomain-ne_base base s c same =
    omega (arith, ap length same, length-append (c ∷ s) (suffix_of base), length-suffix_of base)

of_subdomain :
    (base s : Text) (c : ℕ)
    → (subdomain_of_host base ((c ∷ s) ++ suffix_of base) ≡ some (id (c ∷ s)))
      × (domain_or_subdomain_of_host base ((c ∷ s) ++ suffix_of base) ≡ some (id (c ∷ s)))
unfolding subdomain_of_host domain_or_subdomain_of_host
of_subdomain base s c =
    let outer : (((c ∷ s) ++ suffix_of base) == base) ≡ false =
      beq_ne (subdomain-ne_base base s c) in
    let under = ends_with-append (c ∷ s) (suffix_of base) in
    let before = take-suffix (c ∷ s) (suffix_of base) in
    (rw (outer, under, before), rw (outer, under, before))

-- A request to a subdomain, with or without a port, names the tenant by the text before the base
-- domain, under both strategies that read subdomains.
pub resolve-subdomain_host :
    (config : Config) (request : Request) (c : ℕ) (s port : Text)
    → Lacks b':' ((c ∷ s) ++ suffix_of config.base_domain)
    → IsPort port
    → request.hostname ≡ some (((c ∷ s) ++ suffix_of config.base_domain) ++ port)
    → (resolve_subdomain config request ≡ some (id (c ∷ s)))
      × (resolve_domain_or_subdomain config request ≡ some (id (c ∷ s)))
unfolding resolve_subdomain resolve_domain_or_subdomain
resolve-subdomain_host config request c s port no_colon p e =
    let host = hostname_of_lem request _ port no_colon p e in
    let named = of_subdomain config.base_domain s c in
    (
      ap (subdomain_of_host config.base_domain) host ∙ named.0,
      ap (domain_or_subdomain_of_host config.base_domain) host ∙ named.1,
    )
