-- ===== src/Access/Impersonation.antt =====
-- src/services/impersonation_service.ts: sessions in the cache and the tokens that name them. The
-- cache, the HMAC in hex, the decoding of hex and the audit log are parameters. An audit entry is
-- handed to a function of the log that never throws, as the service swallows its errors; a cache
-- call does not throw here. Times are milliseconds.
pub mod Tokens
pub mod Sessions
pub mod Races
mod Tests
use adonisjs_lasagna_multite.Prelude.{not}
use adonisjs_lasagna_multite.Prelude.{
  ℕ, suc, ◌+◌, ◌-◌, ◌*◌, ◌≡◌, Bool, true, false, ◌&&◌, ◌||◌, Option, none, some, List, [], ◌∷◌,
  ◌++◌, length, leb, ltb, nat_beq, all, is_alphanumeric, if◌then◌else◌, ◌==◌, list_eq, Text, codes,
}
use adonisjs_lasagna_multite.Prelude.Effects.{Outcome, returned, thrown}

pub data AdminType : Type 0 where
  admin system : AdminType

pub record Session : Type 0 where
  pub id : Text
  pub tenant_id : Text
  pub target_user_id : Text
  pub admin_id : Text
  pub admin_type : AdminType
  pub reason : Option Text
  pub started_at : Text
  pub expires_at : ℕ
  pub ip_address : Option Text
  pub first_verify_at : Option Text

-- `ImpersonationContext`
pub record Context : Type 0 where
  pub session_id : Text
  pub tenant_id : Text
  pub user_id : Text
  pub admin_id : Text
  pub admin_type : AdminType
  pub started_at : Text

pub record StartOptions : Type 0 where
  pub tenant_id : Text
  pub target_user_id : Text
  pub admin_id : Text
  pub admin_type : Option AdminType
  pub reason : Option Text
  pub duration_seconds : Option ℕ
  pub ip_address : Option Text

pub record StartResult : Type 0 where
  pub token : Text
  pub session_id : Text
  pub expires_at : ℕ

-- `getConfig().impersonation`
pub record Config : Type 0 where
  pub secret : Option Text
  pub default_duration : Option ℕ
  pub max_duration : Option ℕ

pub data ImpersonationError : Type 0 where
  secret_not_configured : ImpersonationError
  unsafe_target_user_id unsafe_admin_id : Text → ImpersonationError

pub data Action : Type 0 where
  start_action stop_action first_use_action : Action

pub record Audit : Type 0 where
  pub action : Action
  pub tenant_id : Text
  pub actor_id : Text
  pub session_id : Text
  pub target_user_id : Text

-- The namespace of the cache: `get key now`, `set key value ttl now` and `delete key`.
pub record CacheOps (C : Type 0) : Type 0 where
  pub get : Text → ℕ → C → Option Session
  pub set : Text → Session → ℕ → ℕ → C → C
  pub delete : Text → C → C

-- A value is found under its key until its time is over, and never once it is deleted.
pub record CacheLaws {C : Type 0} (o : CacheOps C) : Type 0 where
  pub get-set :
      (k j : Text) (s : Session) (ttl now later : ℕ) (c : C)
      → o.get j later (o.set k s ttl now c)
        ≡ (if k == j then if ltb later (now + ttl) then some s else none else o.get j later c)
  pub get-delete :
      (k j : Text) (now : ℕ) (c : C)
      → o.get j now (o.delete k c) ≡ (if k == j then none else o.get j now c)

-- What the service asks of `node:crypto`, `Buffer`, the clock and the audit log.
pub record Outside (L : Type 0) : Type 0 where
  pub hmac_hex : Text → Text → Text
  pub from_hex : Text → List ℕ
  pub iso : ℕ → Text
  pub log : Audit → L → L

pub record World (C L : Type 0) : Type 0 where
  pub cache : C
  pub audits : L

-- `[a-zA-Z0-9._:@-]`
abbrev is_id_char : ℕ → Bool
is_id_char c =
    is_alphanumeric c
    || nat_beq c b'.'
    || nat_beq c b'_'
    || nat_beq c b':'
    || nat_beq c b'@'
    || nat_beq c b'-'

-- `TARGET_USER_ID_RE.test(value)`
pub is_clean_id : Text → Bool
is_clean_id value = leb 1 (length value) && leb (length value) 128 && all is_id_char value

abbrev or_given : Option ℕ → ℕ → ℕ
or_given none n = n
or_given (some m) n = m

-- `Math.min(Math.max(requested, 60), max)`
abbrev pub clamp : ℕ → ℕ → ℕ
clamp requested max =
    let raised = if leb requested 60 then 60 else requested in
    if leb raised max then raised else max

pub duration_of : Config → StartOptions → ℕ
duration_of config opts =
    clamp (or_given opts.duration_seconds (or_given config.default_duration (15 * 60)))
      (or_given config.max_duration (24 * 60 * 60))

abbrev secret_in : Option Text → Outcome ImpersonationError Text
secret_in none = thrown secret_not_configured
secret_in (some s) = if ltb (length s) 32 then thrown secret_not_configured else returned s

-- `#secret`
pub secret_of : Config → Outcome ImpersonationError Text
secret_of config = secret_in config.secret

abbrev pub one_later : ℕ → Option (Text × Text) → Option (Text × Text)
one_later c none = none
one_later c (some (id, presented)) = some (c ∷ id, presented)

-- the text before the first dot, and the text behind it
pub split_at_dot : Text → Option (Text × Text)
split_at_dot [] = none
split_at_dot (c ∷ s) =
    let rest = split_at_dot s in if nat_beq c b'.' then some ([], s) else one_later c rest

module _ {L : Type 0} (out : Outside L) where
  -- `#sign`
  pub sign : Text → Text → Text
  sign secret id = id ++ b'.' ∷ out.hmac_hex secret id

  -- `a.length !== b.length || a.length === 0`, then `timingSafeEqual`
  abbrev pub same_bytes : List ℕ → List ℕ → Bool
  same_bytes [] b = false
  same_bytes (n ∷ a) b = (n ∷ a) == b

  abbrev pub checked :
      Text → Text → Outcome ImpersonationError Text → Outcome ImpersonationError (Option Text)
  checked id presented (thrown e) = thrown e
  checked id presented (returned secret) = returned (
      if same_bytes (out.from_hex presented) (out.from_hex (out.hmac_hex secret id))
      then some id
      else none)

  -- no id before the dot, or nothing behind it, is refused before the secret is read
  abbrev pub parts_checked :
      Outcome ImpersonationError Text
      → Option (Text × Text)
      → Outcome ImpersonationError (Option Text)
  parts_checked secret none = returned none
  parts_checked secret (some ([], presented)) = returned none
  parts_checked secret (some (c ∷ id, [])) = returned none
  parts_checked secret (some (c ∷ id, d ∷ presented)) = checked (c ∷ id) (d ∷ presented) secret

  -- `#extractSessionId`
  pub extract_session_id : Config → Text → Outcome ImpersonationError (Option Text)
  unfolding split_at_dot secret_of
  extract_session_id config token =
      if ltb (length token) 33
      then returned none
      else parts_checked (secret_of config) (split_at_dot token)

abbrev pub session_of : Text → Text → ℕ → StartOptions → ℕ → Session
session_of id started_at now opts duration = record {
  id = id;
  tenant_id = opts.tenant_id;
  target_user_id = opts.target_user_id;
  admin_id = opts.admin_id;
  admin_type = elim opts.admin_type [ none ↦ admin | some t ↦ t ];
  reason = opts.reason;
  started_at = started_at;
  expires_at = now + duration * 1000;
  ip_address = opts.ip_address;
  first_verify_at = none;
}

abbrev audit_of : Action → Session → Audit
audit_of action s = record {
  action = action;
  tenant_id = s.tenant_id;
  actor_id = s.admin_id;
  session_id = s.id;
  target_user_id = s.target_user_id;
}

abbrev pub context_of : Session → Context
context_of s = record {
  session_id = s.id;
  tenant_id = s.tenant_id;
  user_id = s.target_user_id;
  admin_id = s.admin_id;
  admin_type = s.admin_type;
  started_at = s.started_at;
}

module _ {C L : Type 0} (cache : CacheOps C) (out : Outside L) (config : Config) where
  -- `start` behind its tests
  abbrev pub begin_session : Text → ℕ → StartOptions → World C L → Text → StartResult × World C L
  begin_session id now opts w secret =
      let duration = duration_of config opts in
      let session = session_of id (out.iso now) now opts duration in
      (
        record { token = sign out secret id; session_id = id; expires_at = now + duration * 1000 },
        record {
          cache = cache.set id session (duration * 1000) now w.cache;
          audits = out.log (audit_of start_action session) w.audits;
        },
      )

  abbrev pub started :
      Text
      → ℕ
      → StartOptions
      → World C L
      → Outcome ImpersonationError Text
      → Outcome ImpersonationError StartResult × World C L
  started id now opts w (thrown e) = (thrown e, w)
  started id now opts w (returned secret) =
      let (result, w') = begin_session id now opts w secret in
      if not (is_clean_id opts.target_user_id)
      then (thrown (unsafe_target_user_id opts.target_user_id), w)
      else if not (is_clean_id opts.admin_id)
      then (thrown (unsafe_admin_id opts.admin_id), w)
      else (returned result, w')

  -- `start`, with the random session id and the time
  pub start :
      Text → ℕ → StartOptions → World C L → Outcome ImpersonationError StartResult × World C L
  unfolding secret_of is_clean_id duration_of sign
  start id now opts w = started id now opts w (secret_of config)

  abbrev pub stopped : Text → Option Session → World C L → Bool × World C L
  stopped id none w = (false, w)
  stopped id (some s) w = (
    true,
    record { cache = cache.delete id w.cache; audits = out.log (audit_of stop_action s) w.audits },
  )

  abbrev pub stop_extracted :
      ℕ
      → World C L
      → Outcome ImpersonationError (Option Text)
      → Outcome ImpersonationError Bool × World C L
  stop_extracted now w (thrown e) = (thrown e, w)
  stop_extracted now w (returned none) = (returned false, w)
  stop_extracted now w (returned (some id)) =
      let (existed, w') = stopped id (cache.get id now w.cache) w in (returned existed, w')

  -- `stop`
  pub stop : ℕ → Text → World C L → Outcome ImpersonationError Bool × World C L
  unfolding extract_session_id
  stop now token w = stop_extracted now w (extract_session_id out config token)

  abbrev pub revoked : Text → Option Session → World C L → Bool × World C L
  revoked id none w = (false, w)
  revoked id (some s) w = (true, record w { cache = cache.delete id w.cache })

  -- `revokeById`
  pub revoke_by_id : ℕ → Text → World C L → Bool × World C L
  revoke_by_id now id w = revoked id (cache.get id now w.cache) w

  -- the first use is written into the session and the audit log
  abbrev pub mark_first_use : ℕ → Text → Session → Option Text → World C L → World C L
  mark_first_use now id s (some t) w = w
  mark_first_use now id s none w =
      let remaining = if leb (s.expires_at - now) 1000 then 1000 else s.expires_at - now in
      let used = record s { first_verify_at = some (out.iso now) } in
      record {
        cache = cache.set id used remaining now w.cache;
        audits = out.log (audit_of first_use_action used) w.audits;
      }

  -- `verify` behind the cache's answer
  pub verify_found : ℕ → Text → Option Session → World C L → Option Context × World C L
  verify_found now id none w = (none, w)
  verify_found now id (some s) w =
      if leb s.expires_at now
      then (none, record w { cache = cache.delete id w.cache })
      else (some (context_of s), mark_first_use now id s s.first_verify_at w)

  abbrev pub verify_extracted :
      ℕ
      → World C L
      → Outcome ImpersonationError (Option Text)
      → Outcome ImpersonationError (Option Context) × World C L
  verify_extracted now w (thrown e) = (thrown e, w)
  verify_extracted now w (returned none) = (returned none, w)
  verify_extracted now w (returned (some id)) =
      let (context, w') = verify_found now id (cache.get id now w.cache) w in (returned context, w')

  -- `verify`
  pub verify : ℕ → Text → World C L → Outcome ImpersonationError (Option Context) × World C L
  unfolding extract_session_id verify_found
  verify now token w = verify_extracted now w (extract_session_id out config token)
