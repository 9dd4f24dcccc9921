-- ===== src/Access/Redirects/Safety.antt =====
-- Where the URLs of src/services/cross_domain_redirect_service.ts lead.
use adonisjs_lasagna_multite.Prelude.{
  ◌<◌, ◌≡◌, refl, sym, ap, ◌∙◌, subst, Bool, true, false, ◌||◌, not, Option, some, [], ◌∷◌, ◌++◌,
  arith, length, any, ltb, nat_beq, if◌then◌else◌, Bool-cases, ◌⊎◌, inl, inr, Text, codes,
  starts_with,
}
use mathlib.Core.List.{append_assoc}
use adonisjs_lasagna_multite.Prelude.Effects.{Outcome, returned, thrown}
use adonisjs_lasagna_multite.Access.Redirects.{
  Protocol, Options, UrlError, unsafe_host, unsafe_slug, invalid_port, path_has_line_break,
  protocol_relative_path, is_host, assert_safe_host, port_suffix, is_line_break, with_slash,
  normalize_redirect_path, scheme, join_url, join_checked, assemble,
}
use adonisjs_lasagna_multite.Access.Redirects.Authority.{
  is_authority_char, is_authority, authority_of, all-append, is_host-is_authority,
  before_end-append, behind_slashes-scheme, authority-no_break, any-append, scheme-no_break,
}
use adonisjs_lasagna_multite.Access.Redirects.Ports.{
  IsPortSuffix, PortGives, port_suffix-PortGives, IsPortSuffix-is_authority,
}

-- A path from the root of the host, and not the start of another authority.
abbrev pub IsLocalPath : Text → Type 0
IsLocalPath [] = ⊥
IsLocalPath (c ∷ path) =
    (c ≡ b'/') × (starts_with path (b'/' ∷ []) ≡ false) × (any is_line_break (c ∷ path) ≡ false)

abbrev PathGives : Text → Outcome UrlError Text → Type 0
PathGives path (returned q) = (q ≡ with_slash path) × IsLocalPath q
PathGives path (thrown path_has_line_break) = any is_line_break path ≡ true
PathGives path (thrown protocol_relative_path) =
    starts_with (with_slash path) (b'/' ∷ b'/' ∷ []) ≡ true
PathGives path (thrown _) = ⊥

with_slash-IsLocalPath :
    (path : Text)
    → any is_line_break path ≡ false
    → starts_with (with_slash path) (b'/' ∷ b'/' ∷ []) ≡ false
    → IsLocalPath (with_slash path)
with_slash-IsLocalPath [] clean local = (refl, refl, refl)
with_slash-IsLocalPath (c ∷ path) clean local = local_of (nat_beq c b'/') refl
  where
    local_of : (b : Bool) → nat_beq c b'/' ≡ b → IsLocalPath (with_slash (c ∷ path))
    local_of true slash = rw slash (ground arith, ground (arith, slash, local), clean)
    local_of false other = rw other (refl, rw other refl, clean)

normalize-PathGives : (path : Text) → PathGives path (normalize_redirect_path path)
unfolding normalize_redirect_path
normalize-PathGives path = elim (Bool-cases (any is_line_break path)) [
  | inl broken ↦ rw broken broken
  | inr clean ↦ elim (Bool-cases (starts_with (with_slash path) (b'/' ∷ b'/' ∷ []))) [
    | inl away ↦ rw (clean, away) away
    | inr local ↦ rw (clean, local) (refl, with_slash-IsLocalPath path clean local)
  ]
]

-- What `assemble` gives: a URL to the path on the host and port that were asked for, with exactly
-- them as its authority, and without a line break; or the reason of the refusal.
abbrev pub Leads : Text → Text → Options → Outcome UrlError Text → Type 0
Leads host path opts (returned url) =
    (is_host host ≡ true)
    × ((port : Text) × IsPortSuffix opts.port port
        × (url ≡ scheme opts.protocol ++ (codes "://" ++ (host ++ (port ++ with_slash path))))
        × (authority_of url ≡ host ++ port))
    × (any is_line_break url ≡ false)
Leads host path opts (thrown (unsafe_host h)) =
    (h ≡ host) × ((is_host host ≡ false) ⊎ (253 < length host))
Leads host path opts (thrown (unsafe_slug slug)) = ⊥
Leads host path opts (thrown (invalid_port n)) = (opts.port ≡ some n) × (65535 < n)
Leads host path opts (thrown path_has_line_break) = any is_line_break path ≡ true
Leads host path opts (thrown protocol_relative_path) =
    starts_with (with_slash path) (b'/' ∷ b'/' ∷ []) ≡ true

url-authority :
    (protocol : Option Protocol) (authority q : Text)
    → is_authority authority ≡ true
    → IsLocalPath q
    → authority_of (scheme protocol ++ (codes "://" ++ (authority ++ q))) ≡ authority
url-authority protocol authority [] good none_left = elim none_left [ ]
url-authority protocol authority (c ∷ q) good (slash, _, _) =
    rw (behind_slashes-scheme protocol (authority ++ c ∷ q), slash)
      (before_end-append authority q good)

IsLocalPath-no_break : (q : Text) → IsLocalPath q → any is_line_break q ≡ false
IsLocalPath-no_break [] none_left = elim none_left [ ]
IsLocalPath-no_break (c ∷ q) (_, _, clean) = clean

url-Leads :
    (host port path : Text) (opts : Options)
    → is_host host ≡ true
    → IsPortSuffix opts.port port
    → IsLocalPath (with_slash path)
    → Leads host path opts
        (returned (scheme opts.protocol ++ (codes "://" ++ (host ++ (port ++ with_slash path)))))
url-Leads host port path opts safe digits local =
    let q = with_slash path in
    let good : is_authority (host ++ port) ≡ true =
      all-append is_authority_char host port (is_host-is_authority host safe)
        (IsPortSuffix-is_authority opts.port port digits) in
    let clean : any is_line_break (host ++ port ++ q) ≡ false =
      any-append is_line_break (host ++ port) q (authority-no_break (host ++ port) good)
        (IsLocalPath-no_break q local) in
    let whole : host ++ (port ++ q) ≡ host ++ port ++ q = sym (append_assoc host port q) in
    (
      safe,
      (
        port,
        digits,
        refl,
        ap (λ s. authority_of (scheme opts.protocol ++ (codes "://" ++ s))) whole
            ∙ url-authority opts.protocol (host ++ port) q good local,
      ),
      scheme-no_break opts.protocol (host ++ (port ++ q)) (ap (any is_line_break) whole ∙ clean),
    )

joined-Leads :
    (host path : Text) (opts : Options) (port local : Outcome UrlError Text)
    → is_host host ≡ true
    → PortGives opts.port port
    → PathGives path local
    → Leads host path opts (join_url (scheme opts.protocol) host port local)
joined-Leads host path opts (thrown (invalid_port n)) local safe p q = p
joined-Leads host path opts (returned port) (thrown path_has_line_break) safe p q = q
joined-Leads host path opts (returned port) (thrown protocol_relative_path) safe p q = q
joined-Leads host path opts (returned port) (returned local) safe p (e, q) =
    subst
      (λ l.
        Leads host path opts (join_url (scheme opts.protocol) host (returned port) (returned l)))
      (sym e) (url-Leads host port path opts safe p (subst IsLocalPath e q))
joined-Leads host path opts (returned port) (thrown (unsafe_host _)) safe p q = elim q [ ]
joined-Leads host path opts (returned port) (thrown (unsafe_slug _)) safe p q = elim q [ ]
joined-Leads host path opts (returned port) (thrown (invalid_port _)) safe p q = elim q [ ]
joined-Leads host path opts (thrown (unsafe_host _)) local safe p q = elim p [ ]
joined-Leads host path opts (thrown (unsafe_slug _)) local safe p q = elim p [ ]
joined-Leads host path opts (thrown path_has_line_break) local safe p q = elim p [ ]
joined-Leads host path opts (thrown protocol_relative_path) local safe p q = elim p [ ]

-- What the test of the host gives.
abbrev HostGives : Text → Outcome UrlError (Unit {0}) → Type 0
HostGives host (returned _) = is_host host ≡ true
HostGives host (thrown (unsafe_host h)) =
    (h ≡ host) × ((is_host host ≡ false) ⊎ (253 < length host))
HostGives host (thrown _) = ⊥

assert_safe_host-HostGives : (host : Text) → HostGives host (assert_safe_host host)
unfolding assert_safe_host
assert_safe_host-HostGives [] = (refl, inl refl)
assert_safe_host-HostGives (c ∷ s) =
    tested (nat_beq (length (c ∷ s)) 0) (ltb 253 (length (c ∷ s))) (is_host (c ∷ s)) (ground arith)
      refl refl
  where
    tested :
        (empty long legal : Bool)
        → empty ≡ false
        → ltb 253 (length (c ∷ s)) ≡ long
        → is_host (c ∷ s) ≡ legal
        → HostGives
            (c ∷ s)
            (if empty || long || not legal then thrown (unsafe_host (c ∷ s)) else returned tt)
    tested true long legal e l h = cc
    tested false true legal e l h = (refl, inr (ground arith))
    tested false false false e l h = (refl, inl h)
    tested false false true e l h = h

checked-Leads :
    (host path : Text) (opts : Options) (checked : Outcome UrlError (Unit {0}))
    (url : Outcome UrlError Text)
    → HostGives host checked
    → (is_host host ≡ true → Leads host path opts url)
    → Leads host path opts (join_checked checked url)
checked-Leads host path opts (returned _) url legal leads = leads legal
checked-Leads host path opts (thrown (unsafe_host _)) url reason leads = reason
checked-Leads host path opts (thrown (unsafe_slug _)) url none_left leads = elim none_left [ ]
checked-Leads host path opts (thrown (invalid_port _)) url none_left leads = elim none_left [ ]
checked-Leads host path opts (thrown path_has_line_break) url none_left leads = elim none_left [ ]
checked-Leads host path opts (thrown protocol_relative_path) url none_left leads =
    elim none_left [ ]

-- Every URL that is put together leads to the host and port that were asked for: the host is legal,
-- the decimal digits of the port, behind a colon, read as its number, no port and port 0 give no
-- text, and the two are all of the authority as a browser reads it; and no line break can split a
-- header that the URL is put in. A refusal names its reason, which is there.
pub assemble-Leads :
    (host path : Text) (opts : Options) → Leads host path opts (assemble host path opts)
unfolding assemble
assemble-Leads host path opts =
    checked-Leads host path opts (assert_safe_host host)
      (join_url (scheme opts.protocol) host (port_suffix opts.port) (normalize_redirect_path path))
      (assert_safe_host-HostGives host)
      (λ legal.
        joined-Leads host path opts (port_suffix opts.port) (normalize_redirect_path path) legal
          (port_suffix-PortGives opts.port) (normalize-PathGives path))
