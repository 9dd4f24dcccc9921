-- ===== src/Access/Redirects/Authority.antt =====
-- The authority of a URL, and the characters of hosts and ports (the regular expressions of
-- src/services/cross_domain_redirect_service.ts).
use adonisjs_lasagna_multite.Prelude.{
  ℕ, zero, suc, ◌+◌, ◌/◌, ◌%◌, ◌<◌, ◌≡◌, refl, Bool, true, false, ◌&&◌, ◌||◌, Option, none, some,
  List, [], ◌∷◌, ◌++◌, arith, all, any, ltb, nat_beq, is_alphanumeric, if◌then◌else◌, Bool-cases,
  inl, inr, Text, codes, split, push_first,
}
use adonisjs_lasagna_multite.Access.Redirects.{
  Protocol, http, https, label_rest, is_host_label, is_host, decimal, is_line_break, scheme,
}

-- A code unit of a host or a port.
abbrev pub is_authority_char : ℕ → Bool
is_authority_char c = is_alphanumeric c || nat_beq c b'-' || nat_beq c b'.' || nat_beq c b':'

abbrev pub is_authority : Text → Bool
is_authority s = all is_authority_char s

abbrev ends_authority : ℕ → Bool
ends_authority c = nat_beq c b'/' || nat_beq c b'?' || nat_beq c b'#' || nat_beq c b'\\'

abbrev before_end : Text → Text
before_end [] = []
before_end (c ∷ s) = let rest = before_end s in if ends_authority c then [] else c ∷ rest

abbrev behind_slashes : Text → Text
behind_slashes [] = []
behind_slashes (c ∷ []) = []
behind_slashes (c ∷ d ∷ s) =
    let rest = behind_slashes (d ∷ s) in if nat_beq c b'/' && nat_beq d b'/' then s else rest

-- The authority that a browser reads in a URL: from behind `//` to the first `/`, `?`, `#` or `\`.
abbrev pub authority_of : Text → Text
authority_of url = before_end (behind_slashes url)

pub all-append :
    (p : ℕ → Bool) (s t : Text) → all p s ≡ true → all p t ≡ true → all p (s ++ t) ≡ true
all-append p [] t hs ht = ht
all-append p (c ∷ s) t hs ht = ground (arith, all-append p s t)

all-push_first :
    (p : ℕ → Bool) (c : ℕ) (ws : List Text)
    → all (λ w. all p w) (push_first c ws) ≡ true
    → (p c ≡ true) × (all (λ w. all p w) ws ≡ true)
all-push_first p c [] h = (ground arith, refl)
all-push_first p c (w ∷ ws) h = (ground arith, ground arith)

-- What holds of all parts and of the separator holds of the whole.
all-split :
    (p : ℕ → Bool) (d : ℕ) (s : Text)
    → p d ≡ true
    → all (λ w. all p w) (split d s) ≡ true
    → all p s ≡ true
all-split p d [] hd h = refl
all-split p d (c ∷ s) hd h = elim (Bool-cases (nat_beq c d)) as (λ _. all p (c ∷ s) ≡ true) [
  | inl same ↦ ground (arith, all-split p d s, same, h, hd)
  | inr other ↦ ground (arith, all-split p d s, all-push_first p c (split d s), other, h)
]

abbrev pub is_label_char : ℕ → Bool
is_label_char c = is_alphanumeric c || nat_beq c b'-'

module _ (p : ℕ → Bool) (holds : (c : ℕ) → is_label_char c ≡ true → p c ≡ true) where
  all-label_rest : (s : Text) → label_rest s ≡ true → all p s ≡ true
  all-label_rest [] h = refl
  all-label_rest (c ∷ []) h = ground (arith, holds c)
  all-label_rest (c ∷ d ∷ s) h = ground (arith, holds c, all-label_rest (d ∷ s))

  all-label : (s : Text) → is_host_label s ≡ true → all p s ≡ true
  unfolding is_host_label
  all-label [] h = refl
  all-label (c ∷ s) h = ground (arith, holds c, all-label_rest s)

  all-labels : (ws : List Text) → all is_host_label ws ≡ true → all (λ w. all p w) ws ≡ true
  all-labels [] h = refl
  all-labels (w ∷ ws) h = ground (arith, all-label w, all-labels ws)

  -- What holds of the characters of labels and of the dot holds of the characters of hosts.
  pub all-host : (host : Text) → p b'.' ≡ true → is_host host ≡ true → all p host ≡ true
  unfolding is_host
  all-host host dot h = all-split p b'.' host dot (all-labels (split b'.' host) h)

pub is_host-is_authority : (host : Text) → is_host host ≡ true → is_authority host ≡ true
is_host-is_authority host h = all-host is_authority_char (λ c legal. ground arith) host refl h

digit-is_authority : (n : ℕ) → n < 10 → is_authority_char (48 + n) ≡ true
digit-is_authority n h = ground arith

decimal-is_authority : (fuel n : ℕ) → is_authority (decimal fuel n) ≡ true
decimal-is_authority zero n = refl
decimal-is_authority (suc fuel) n = elim (Bool-cases (ltb n 10)) [
  | inl small ↦ let digit = digit-is_authority n (ground arith) in rw (small, digit) refl
  | inr large ↦
      let digit = digit-is_authority (n % 10) (omega arith) in
      rw large (
        all-append is_authority_char (decimal fuel (n / 10)) ((48 + n % 10) ∷ [])
          (decimal-is_authority fuel (n / 10)) (rw digit refl))
]

pub before_end-append : (s t : Text) → is_authority s ≡ true → before_end (s ++ b'/' ∷ t) ≡ s
before_end-append [] t h = refl
before_end-append (c ∷ s) t h =
    let inside : ends_authority c ≡ false = ground arith in
    let rest : is_authority s ≡ true = ground arith in rw (inside, before_end-append s t rest) refl

pub behind_slashes-scheme :
    (protocol : Option Protocol) (s : Text)
    → behind_slashes (scheme protocol ++ (codes "://" ++ s)) ≡ s
behind_slashes-scheme none s = refl
behind_slashes-scheme (some http) s = refl
behind_slashes-scheme (some https) s = refl

pub authority-no_break : (s : Text) → is_authority s ≡ true → any is_line_break s ≡ false
authority-no_break [] h = refl
authority-no_break (c ∷ s) h = ground (arith, authority-no_break s)

pub any-append :
    (p : ℕ → Bool) (s t : Text) → any p s ≡ false → any p t ≡ false → any p (s ++ t) ≡ false
any-append p [] t hs ht = ht
any-append p (c ∷ s) t hs ht = ground (arith, any-append p s t)

pub scheme-no_break :
    (protocol : Option Protocol) (s : Text)
    → any is_line_break s ≡ false
    → any is_line_break (scheme protocol ++ (codes "://" ++ s)) ≡ false
scheme-no_break none s h = h
scheme-no_break (some http) s h = h
scheme-no_break (some https) s h = h
