-- ===== src/Resolving/Builtins/Paths.antt =====
-- The tenant that a path names, and ids that are never empty (src/services/resolvers/builtins.ts).
use adonisjs_lasagna_multite.Prelude.{
  ℕ, ◌≡◌, ◌≢◌, inl, inr, refl, sym, ◌∙◌, ap, false, Option, none, some, List, [], ◌∷◌, ◌++◌, arith,
  All, any, Bool-cases, Text, starts_with, split, first, push_first, find_nonempty, nat_beq,
}
use adonisjs_lasagna_multite.Prelude.Texts.Laws.{Lacks, first-push_first}
use adonisjs_lasagna_multite.Resolving.Builtins.{
  Request, Config, Input, text, other, Hit, id, domain, id_unless_empty, key_or_default, text_hit,
  or_else, resolve_header, resolve_path, resolve_domain_or_subdomain, resolve_request_data,
  hostname_of,
}
use adonisjs_lasagna_multite.Resolving.Builtins.Hosts.{Names, domain_or_subdomain-Names}

-- What follows a segment: nothing, or a slash.
abbrev pub IsTail : Text → Type 0
IsTail [] = Unit
IsTail (c ∷ s) = c ≡ b'/'

-- The url is slashes, then the segment up to the next slash.
abbrev pub StartsAt : Text → Text → Type 0
StartsAt segment url =
    (slashes rest : Text) × (url ≡ slashes ++ segment ++ rest)
    × All (λ c. c ≡ b'/') slashes
    × Lacks b'/' segment
    × IsTail rest

-- What a url may give: nothing if it is all slashes, else its first segment, which is not empty.
abbrev pub Leads : Text → Option Hit → Type 0
Leads url none = All (λ c. c ≡ b'/') url
Leads url (some (id segment)) = (segment ≢ []) × StartsAt segment url
Leads url (some (domain h)) = ⊥

split-first :
    (s : Text)
    → (rest : Text) × (s ≡ first (split b'/' s) ++ rest)
      × Lacks b'/' (first (split b'/' s))
      × IsTail rest
split-first [] = ([], refl, tt, tt)
split-first (c ∷ s) = elim (Bool-cases (nat_beq c b'/')) [
  | inl slash ↦ rw slash (c ∷ s, refl, tt, ground arith)
  | inr letter ↦
      let (rest, e, lacks, tail) = split-first s in
      let same = first-push_first c (split b'/' s) in
      rw (letter, same) (rest, ap (λ t. c ∷ t) e, (ground arith, lacks), tail)
]

abbrev segment_hit : List Text → Option Hit
segment_hit ws = elim (find_nonempty ws) [ none ↦ none | some segment ↦ some (id segment) ]

Leads-slash : (c : ℕ) (s : Text) (o : Option Hit) → c ≡ b'/' → Leads s o → Leads (c ∷ s) o
Leads-slash c s none slash h = (slash, h)
Leads-slash c s (some (id segment)) slash (full, (slashes, rest, e, all_slashes, lacks, tail)) =
    (full, (c ∷ slashes, rest, ap (λ t. c ∷ t) e, (slash, all_slashes), lacks, tail))
Leads-slash c s (some (domain h)) slash bad = bad

push_first-cons :
    (c : ℕ) (ws : List Text) → segment_hit (push_first c ws) ≡ some (id (c ∷ first ws))
push_first-cons c [] = refl
push_first-cons c (w ∷ ws) = refl

split-Leads : (url : Text) → Leads url (segment_hit (split b'/' url))
split-Leads [] = tt
split-Leads (c ∷ s) = elim (Bool-cases (nat_beq c b'/')) [
  | inl slash ↦
      rw slash (Leads-slash c s (segment_hit (split b'/' s)) (ground arith) (split-Leads s))
  | inr letter ↦
      let (rest, e, lacks, tail) = split-first s in
      rw (letter, push_first-cons c (split b'/' s))
        ((λ blank. cc), ([], rest, ap (λ t. c ∷ t) e, tt, (ground arith, lacks), tail))
]

-- The strategy `path`: under an ignored prefix nothing; else the first segment of the url that is
-- not empty, and nothing only for a url of slashes.
pub resolve_path-Leads :
    (config : Config) (request : Request)
    → any (λ p. starts_with request.url p) config.ignore_paths ≡ false
    → Leads request.url (resolve_path config request)
unfolding resolve_path
resolve_path-Leads config request kept = rw kept (split-Leads request.url)

-- A hit whose text is not empty.
abbrev pub NotBlank : Option Hit → Type 0
NotBlank none = Unit
NotBlank (some (id s)) = s ≢ []
NotBlank (some (domain h)) = h ≢ []

id_unless_empty-NotBlank : (s : Text) → NotBlank (id_unless_empty s)
id_unless_empty-NotBlank [] = tt
id_unless_empty-NotBlank (c ∷ s) = λ blank. cc

text_hit-NotBlank : (o : Option Input) → NotBlank (text_hit o)
text_hit-NotBlank none = tt
text_hit-NotBlank (some other) = tt
text_hit-NotBlank (some (text s)) = id_unless_empty-NotBlank s

Names-NotBlank : (base host : Text) (o : Option Hit) → Names base host o → NotBlank o
Names-NotBlank base host none h = tt
Names-NotBlank base host (some (id s)) h = h.0
Names-NotBlank base host (some (domain h)) n = λ blank. n.1 (sym n.0 ∙ blank)

Leads-NotBlank : (url : Text) (o : Option Hit) → Leads url o → NotBlank o
Leads-NotBlank url none h = tt
Leads-NotBlank url (some (id s)) h = h.0
Leads-NotBlank url (some (domain h)) bad = absurd bad

path-NotBlank : (config : Config) (request : Request) → NotBlank (resolve_path config request)
unfolding resolve_path
path-NotBlank config request =
    elim (Bool-cases (any (λ p. starts_with request.url p) config.ignore_paths)) [
      | inl ignored ↦ rw ignored tt
      | inr kept ↦ Leads-NotBlank request.url _ (resolve_path-Leads config request kept)
    ]

or_else-NotBlank : (a b : Option Hit) → NotBlank a → NotBlank b → NotBlank (or_else a b)
or_else-NotBlank none b ha hb = hb
or_else-NotBlank (some h) b ha hb = ha

data-NotBlank :
    (config : Config) (request : Request) → NotBlank (resolve_request_data config request)
unfolding resolve_request_data
data-NotBlank config request =
    let query = request.qs (key_or_default config.query_key) in
    let body = request.input (key_or_default config.body_key) in
    or_else-NotBlank (text_hit query) (text_hit body) (text_hit-NotBlank query)
      (text_hit-NotBlank body)

-- On every request the strategies `header`, `path`, `domain-or-subdomain` and `request-data` miss
-- or give an id or a domain that is not empty.
pub resolve-NotBlank :
    (config : Config) (request : Request)
    → NotBlank (resolve_header config request)
      × NotBlank (resolve_path config request)
      × NotBlank (resolve_domain_or_subdomain config request)
      × NotBlank (resolve_request_data config request)
unfolding resolve_header resolve_domain_or_subdomain
resolve-NotBlank config request = (
  id_unless_empty-NotBlank _,
  path-NotBlank config request,
  Names-NotBlank config.base_domain (hostname_of request) _ (domain_or_subdomain-Names _ _),
  data-NotBlank config request,
)
