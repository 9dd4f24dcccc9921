-- ===== src/Satellites/Webhooks/Settling.antt =====
-- How the deliveries of src/services/webhook_service.ts end.
use adonisjs_lasagna_multite.Prelude.{
  ℕ, ◌+◌, ◌≤◌, ◌<◌, ◌≡◌, ◌⊎◌, refl, sym, subst, ap, ◌∙◌, inl, inr, Bool, true, false, ◌||◌, List,
  [], ◌∷◌, ◌++◌, length, any, ltb, if◌then◌else◌, arith, Bool-cases, Text,
}
use adonisjs_lasagna_multite.Satellites.Webhooks.{
  success, failed, retrying, Delivery, Answer, response, network_error, Heard, settle_answer,
  answered, new_delivery, is_open, attempts,
}

-- A response that is ok.
abbrev pub is_ok : Heard → Bool
is_ok heard = elim heard.answer [ response status ok body ↦ ok | network_error message ↦ false ]

-- How an open delivery stands behind one more answer.
abbrev AnsweredAs : Bool → Delivery → Delivery → Type 0
AnsweredAs true d d' = (d'.status ≡ success) × (d'.attempt ≡ d.attempt)
AnsweredAs false d d' =
    ((d'.status ≡ retrying) × (d'.attempt ≡ d.attempt + 1) × (d.attempt < 5))
    ⊎ ((d'.status ≡ failed) × (d'.attempt ≡ d.attempt) × (5 ≤ d.attempt))

settle_answer-AnsweredAs :
    (answer : Answer) (now random : ℕ) (d : Delivery)
    → AnsweredAs
        (elim answer as (λ _. Bool) [
          | response status ok body ↦ ok
          | network_error message ↦ false
        ])
        d
        (settle_answer answer now random d)
settle_answer-AnsweredAs (response status true body) now random d = (refl, refl)
settle_answer-AnsweredAs (response status false body) now random d =
    elim (Bool-cases (ltb d.attempt 5)) [
      | inl early ↦ rw early (inl (refl, refl, ground arith))
      | inr late ↦ rw late (inr (refl, refl, ground arith))
    ]
settle_answer-AnsweredAs (network_error message) now random d =
    elim (Bool-cases (ltb d.attempt 5)) [
      | inl early ↦ rw early (inl (refl, refl, ground arith))
      | inr late ↦ rw late (inr (refl, refl, ground arith))
    ]

attempts_closed : (hs : List Heard) (d : Delivery) → is_open d.status ≡ false → attempts hs d ≡ d
unfolding attempts
attempts_closed [] d h = refl
attempts_closed (x ∷ hs) d h = rw h refl

attempts_open :
    (x : Heard) (hs : List Heard) (d : Delivery)
    → is_open d.status ≡ true
    → attempts (x ∷ hs) d ≡ attempts hs (answered x d)
unfolding attempts
attempts_open x hs d h = rw h refl

-- Where a delivery is once it has had all its answers.
abbrev pub Settled : List Heard → Delivery → Type 0
Settled hs d = (d.status ≡ (if any is_ok hs then success else failed)) × (d.attempt ≤ 5)

none_ok : (hs : List Heard) → length hs ≡ 0 → any is_ok hs ≡ false
none_ok [] h = refl
none_ok (x ∷ hs) h = absurd (omega arith)

attempts_done :
    (x : Heard) (hs : List Heard) (d : Delivery)
    → is_open d.status ≡ true
    → is_open (answered x d).status ≡ false
    → attempts (x ∷ hs) d ≡ answered x d
attempts_done x hs d open_now closed =
    attempts_open x hs d open_now ∙ attempts_closed hs (answered x d) closed

attempts-Settled :
    (hs rest : List Heard) (d : Delivery)
    → is_open d.status ≡ true
    → length hs + d.attempt ≡ 6
    → d.attempt ≤ 5
    → Settled hs (attempts (hs ++ rest) d)
unfolding answered
attempts-Settled [] rest d open_now total bound = absurd (omega arith)
attempts-Settled (x ∷ hs) rest d open_now total bound =
    step (is_ok x) refl (attempts-Settled hs rest (answered x d))
      (settle_answer-AnsweredAs x.answer x.now x.random d)
  where
    step :
        (b : Bool)
        → is_ok x ≡ b
        → (is_open (answered x d).status ≡ true
            → length hs + (answered x d).attempt ≡ 6
            → (answered x d).attempt ≤ 5
            → Settled hs (attempts (hs ++ rest) (answered x d)))
        → AnsweredAs b d (answered x d)
        → Settled (x ∷ hs) (attempts ((x ∷ hs) ++ rest) d)
    step true e ih (done, same) =
        let here : (answered x d).status ≡ (if is_ok x || any is_ok hs then success else failed) =
          rw e done in
        subst (Settled (x ∷ hs)) (sym (attempts_done x (hs ++ rest) d open_now (ap is_open done)))
          (here, omega (arith, same, bound))
    step false e ih (inl (again, next, early)) =
        let later =
          ih (ap is_open again) (omega (arith, next, total)) (omega (arith, next, early)) in
        subst (Settled (x ∷ hs)) (sym (attempts_open x (hs ++ rest) d open_now))
          (rw e later.0, later.1)
    step false e ih (inr (over, same, late)) =
        let nothing : any is_ok hs ≡ false = none_ok hs (omega (arith, total, late)) in
        let here : (answered x d).status ≡ (if is_ok x || any is_ok hs then success else failed) =
          rw (e, nothing) over in
        subst (Settled (x ∷ hs)) (sym (attempts_done x (hs ++ rest) d open_now (ap is_open over)))
          (here, omega (arith, same, bound))

-- A delivery that is created and sent as long as it is open comes to rest with its fifth answer at
-- the latest: it succeeds where one of the first five answers is an ok response, and fails where
-- none is, whatever would be answered later, and it never counts more than five attempts.
pub attempts-settles :
    (id event payload : Text) (first rest : List Heard)
    → length first ≡ 5
    → ((attempts (first ++ rest) (new_delivery id event payload)).status
        ≡ (if any is_ok first then success else failed))
      × ((attempts (first ++ rest) (new_delivery id event payload)).attempt ≤ 5)
attempts-settles id event payload first rest five =
    attempts-Settled first rest (new_delivery id event payload) refl (omega arith) (omega arith)
