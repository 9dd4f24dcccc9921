-- ===== src/Access/Impersonation/Tokens.antt =====
-- The wire tokens of src/services/impersonation_service.ts.
use adonisjs_lasagna_multite.Prelude.{
  ℕ, ◌≤◌, ◌≡◌, ◌≢◌, refl, ap, ◌∙◌, subst, true, false, Option, none, some, List, [], ◌∷◌, ◌++◌,
  arith, length, length-append, Bool-cases, inl, inr, ltb, nat_beq, list_eq, list_beq_iff, beq_refl,
  Text,
}
use adonisjs_lasagna_multite.Prelude.Texts.Laws.{Lacks}
use adonisjs_lasagna_multite.Prelude.Effects.{Outcome, returned, thrown}
use adonisjs_lasagna_multite.Access.Impersonation.{
  Outside, Config, ImpersonationError, secret_of, split_at_dot, one_later, sign, same_bytes,
  checked, parts_checked, extract_session_id,
}

split_at_dot-append :
    (id presented : Text)
    → Lacks b'.' id
    → split_at_dot (id ++ b'.' ∷ presented) ≡ some (id, presented)
unfolding split_at_dot
split_at_dot-append [] presented h = refl
split_at_dot-append (c ∷ id) presented (ne, h) =
    let other : nat_beq c b'.' ≡ false = ground arith in
    rw (other, split_at_dot-append id presented h)

abbrev Splits : Text → Option (Text × Text) → Type 0
Splits s none = Unit
Splits s (some (id, presented)) = s ≡ id ++ b'.' ∷ presented

one_later-Splits :
    (c : ℕ) (s : Text) (o : Option (Text × Text)) → Splits s o → Splits (c ∷ s) (one_later c o)
one_later-Splits c s none h = tt
one_later-Splits c s (some (id, presented)) h = ap (λ t. c ∷ t) h

split_at_dot-Splits : (s : Text) → Splits s (split_at_dot s)
unfolding split_at_dot
split_at_dot-Splits [] = tt
split_at_dot-Splits (c ∷ s) = elim (Bool-cases (nat_beq c b'.')) [
  | inl dot ↦ let same : c ≡ b'.' = ground arith in rw dot (ap (λ d. d ∷ s) same)
  | inr other ↦ rw other (one_later-Splits c s (split_at_dot s) (split_at_dot-Splits s))
]

module _ {L : Type 0} (out : Outside L) where
  -- The text is an id, a dot and a signature whose bytes are those of the id's HMAC.
  abbrev pub Signed : Text → Text → Text → Type 0
  Signed secret token id =
      (presented : Text) × (token ≡ id ++ b'.' ∷ presented)
      × (out.from_hex presented ≡ out.from_hex (out.hmac_hex secret id))

  -- What the extraction gives: nothing, an error where the secret is not fit, or a signed id.
  abbrev Extracted :
      Text → Outcome ImpersonationError Text → Outcome ImpersonationError (Option Text) → Type 0
  Extracted token secret (thrown e) = secret ≡ thrown e
  Extracted token secret (returned none) = Unit
  Extracted token secret (returned (some id)) =
      (key : Text) × (secret ≡ returned key) × Signed key token id

  same_bytes-equal : (a b : List ℕ) → same_bytes out a b ≡ true → a ≡ b
  same_bytes-equal [] b e = absurd (cc)
  same_bytes-equal (n ∷ a) b e = (list_beq_iff (n ∷ a) b).0 e

  checked-Extracted :
      (id presented token : Text) (secret : Outcome ImpersonationError Text)
      → token ≡ id ++ b'.' ∷ presented
      → Extracted token secret (checked out id presented secret)
  checked-Extracted id presented token (thrown e) p = refl
  checked-Extracted id presented token (returned key) p =
      elim (Bool-cases
        (same_bytes out (out.from_hex presented) (out.from_hex (out.hmac_hex key id)))) [
          | inl same ↦ rw same (key, refl, (presented, p, same_bytes-equal _ _ same))
          | inr differ ↦ rw differ tt
        ]

  parts_checked-Extracted :
      (token : Text) (secret : Outcome ImpersonationError Text) (o : Option (Text × Text))
      → Splits token o
      → Extracted token secret (parts_checked out secret o)
  parts_checked-Extracted token secret none h = tt
  parts_checked-Extracted token secret (some ([], presented)) h = tt
  parts_checked-Extracted token secret (some (c ∷ id, [])) h = tt
  parts_checked-Extracted token secret (some (c ∷ id, d ∷ presented)) h =
      checked-Extracted (c ∷ id) (d ∷ presented) token secret h

  extract-Extracted :
      (config : Config) (token : Text)
      → Extracted token (secret_of config) (extract_session_id out config token)
  unfolding extract_session_id
  extract-Extracted config token = elim (Bool-cases (ltb (length token) 33)) [
    | inl short ↦ rw short tt
    | inr long ↦ rw long (
        parts_checked-Extracted token (secret_of config) (split_at_dot token)
          (split_at_dot-Splits token))
  ]

  pub extracted-Signed :
      (config : Config) (token id : Text)
      → extract_session_id out config token ≡ returned (some id)
      → (key : Text) × (secret_of config ≡ returned key) × Signed key token id
  extracted-Signed config token id e =
      subst (Extracted token (secret_of config)) e (extract-Extracted config token)

  -- A signature that is worth checking: its hex text and its bytes are not empty, and with the dot
  -- and the id the token is long enough.
  abbrev pub IsStrong : Text → Text → Type 0
  IsStrong key id =
      (32 ≤ length id)
      × Lacks b'.' id
      × (out.hmac_hex key id ≢ [])
      × (out.from_hex (out.hmac_hex key id) ≢ [])

  same_bytes_refl : (a : List ℕ) → a ≢ [] → same_bytes out a a ≡ true
  same_bytes_refl [] h = absurd (h refl)
  same_bytes_refl (n ∷ a) h = beq_refl (n ∷ a)

  parts_checked-signed :
      (key id presented : Text)
      → id ≢ []
      → presented ≢ []
      → same_bytes out (out.from_hex presented) (out.from_hex (out.hmac_hex key id)) ≡ true
      → parts_checked out (returned key) (some (id, presented)) ≡ returned (some id)
  parts_checked-signed key [] presented hi hp same = absurd (hi refl)
  parts_checked-signed key (c ∷ id) [] hi hp same = absurd (hp refl)
  parts_checked-signed key (c ∷ id) (d ∷ presented) hi hp same = rw same refl

  extract_long :
      (config : Config) (token : Text)
      → ltb (length token) 33 ≡ false
      → extract_session_id out config token
        ≡ parts_checked out (secret_of config) (split_at_dot token)
  unfolding extract_session_id
  extract_long config token long = rw long refl

  pub extract-sign :
      (config : Config) (key id : Text)
      → secret_of config ≡ returned key
      → IsStrong key id
      → extract_session_id out config (sign out key id) ≡ returned (some id)
  unfolding sign
  extract-sign config key id secret (long, lacks, some_hex, some_bytes) =
      let signature = out.hmac_hex key id in
      let size : ltb (length (id ++ b'.' ∷ signature)) 33 ≡ false =
        ground (arith, length-append id (b'.' ∷ signature)) in
      extract_long config (id ++ b'.' ∷ signature) size
      ∙ ap (λ o. parts_checked out (secret_of config) o) (split_at_dot-append id signature lacks)
      ∙ ap (λ k. parts_checked out k (some (id, signature))) secret
      ∙ parts_checked-signed key id signature (λ e. absurd (omega (arith, ap length e))) some_hex
          (same_bytes_refl (out.from_hex signature) some_bytes)
