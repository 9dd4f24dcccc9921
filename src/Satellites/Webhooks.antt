-- ===== src/Satellites/Webhooks.antt =====
-- src/services/webhook_service.ts: one delivery of a webhook and its retries. The decryption of the
-- secret, the HMAC, `fetch` and the table of deliveries are parameters; times are seconds, and
-- `Math.random()` is a number of 2 ^ 53rds.
pub mod Settling
mod Tests
use adonisjs_lasagna_multite.Prelude.{
  ℕ, zero, suc, ◌+◌, ◌-◌, ◌*◌, ◌/◌, Bool, true, false, ◌&&◌, not, Option, none, some, List, [], ◌∷◌,
  get_elem?, ltb, if◌then◌else◌, Text,
}
use adonisjs_lasagna_multite.Prelude.Effects.{Outcome, returned, thrown, Effect, pure, ◌>>=◌, ◌>>◌}

pub data Status : Type 0 where
  pending success failed retrying : Status

-- `TenantWebhookDelivery`, its payload as the text that is sent
pub record Delivery : Type 0 where
  pub id : Text
  pub event : Text
  pub payload : Text
  pub status : Status
  pub attempt : ℕ
  pub status_code : Option ℕ
  pub response_body : Option Text
  pub next_retry_at : Option ℕ

-- `TenantWebhook`, as far as `send` reads it
pub record Webhook : Type 0 where
  pub url : Text
  pub secret : Option Text

pub record Headers : Type 0 where
  pub webhook_event : Text
  pub delivery_id : Text
  pub webhook_signature : Option Text

-- What `fetch` gives: the response with its code, its `ok` and its text, or an error.
pub data Answer : Type 0 where
  response : (status : ℕ) (ok : Bool) (body : Option Text) → Answer
  network_error : Text → Answer

-- An answer, with the time and the random number that are read when it is there.
pub record Heard : Type 0 where
  pub answer : Answer
  pub now : ℕ
  pub random : ℕ

abbrev pub max_attempts : ℕ
max_attempts = 5

abbrev backoff_base_seconds : List ℕ
backoff_base_seconds = 10 ∷ 60 ∷ 300 ∷ 1800 ∷ 7200 ∷ []

abbrev or_last : Option ℕ → ℕ
or_last none = 7200
or_last (some seconds) = seconds

-- `Math.round(base + base * 0.2 * (r * 2 - 1))`, with `r` the random number: in tenths of the base
-- eight and four times `r`
pub backoff_with_jitter : ℕ → ℕ → ℕ
backoff_with_jitter attempt random =
    let base = or_last (get_elem? backoff_base_seconds (attempt - 1)) in
    (base * (8 * 9007199254740992 + 4 * random) + 5 * 9007199254740992) / (10 * 9007199254740992)

-- the retry that both ways of failing plan
abbrev pub retry_later : ℕ → ℕ → Delivery → Delivery
retry_later now random d = record d {
  status = retrying;
  next_retry_at = some (now + backoff_with_jitter d.attempt random);
  attempt = d.attempt + 1;
}

-- `res.ok ? 'success' : 'failed'`
abbrev pub outcome_of : Bool → Status
outcome_of true = success
outcome_of false = failed

-- What `send` writes into the delivery.
abbrev pub settle_answer : Answer → ℕ → ℕ → Delivery → Delivery
settle_answer (response status ok body) now random d =
    let heard = record d {
      status_code = some status;
      response_body = body;
      status = outcome_of ok;
    } in
    if not ok && ltb d.attempt max_attempts then retry_later now random heard else heard
settle_answer (network_error message) now random d =
    let lost = record d { status_code = none; response_body = some message; status = failed } in
    if ltb d.attempt max_attempts then retry_later now random lost else lost

pub answered : Heard → Delivery → Delivery
unfolding backoff_with_jitter
answered heard d = settle_answer heard.answer heard.now heard.random d

pub record Outside (W E : Type 0) : Type 0 where
  pub decrypt : Text → Outcome E Text
  pub hmac_hex : Text → Text → Text
  pub fetch : Text → Headers → Text → W → Heard × W
  pub save : Delivery → Effect W E (Unit {0})

module _ {W E : Type 0} (out : Outside W E) where
  abbrev signature_under : Text → Outcome E Text → Outcome E (Option Text)
  signature_under body (returned secret) = returned (some (out.hmac_hex secret body))
  signature_under body (thrown e) = thrown e

  -- an empty secret counts as none
  abbrev pub signature_of : Text → Option Text → Outcome E (Option Text)
  signature_of body none = returned none
  signature_of body (some []) = returned none
  signature_of body (some (c ∷ secret)) = signature_under body (out.decrypt (c ∷ secret))

  abbrev pub send_signed : Webhook → Delivery → Outcome E (Option Text) → Effect W E Delivery
  send_signed hook d (thrown e) w = (thrown e, w)
  send_signed hook d (returned signature) w =
      let (heard, w') =
        out.fetch hook.url
          (record { webhook_event = d.event; delivery_id = d.id; webhook_signature = signature })
          d.payload w in
      (out.save (answered heard d) >> pure (answered heard d)) w'

  -- `send`; the delivery that it changes is given back
  pub send : Webhook → Delivery → Effect W E Delivery
  unfolding answered
  send hook d = send_signed hook d (signature_of d.payload hook.secret)

-- the row that `deliver` creates
abbrev pub new_delivery : Text → Text → Text → Delivery
new_delivery id event payload = record {
  id = id;
  event = event;
  payload = payload;
  status = pending;
  attempt = 1;
  status_code = none;
  response_body = none;
  next_retry_at = none;
}

-- The statuses behind which `send` is called: by `deliver`, and by `processRetries`.
abbrev pub is_open : Status → Bool
is_open pending = true
is_open retrying = true
is_open success = false
is_open failed = false

-- A delivery over its answers: it is sent for as long as it is open.
pub attempts : List Heard → Delivery → Delivery
unfolding answered
attempts [] d = d
attempts (heard ∷ rest) d =
    let next = attempts rest (answered heard d) in if is_open d.status then next else d
