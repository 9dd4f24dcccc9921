-- ===== src/Access/Impersonation/Tests.antt =====
-- Impersonation with a cache of values and deadlines, and witnesses.
use adonisjs_lasagna_multite.Prelude.{
  ℕ, ◌+◌, ◌≡◌, refl, ap, ◌∙◌, Bool, true, false, Option, none, some, [], ◌++◌, arith, ltb,
  if◌then◌else◌, ◌==◌, list_eq, Text, codes, ◌*◌,
}
use adonisjs_lasagna_multite.Prelude.Maps.{
  JsMap, lookup, insert, erase, lookup-insert, lookup-erase,
}
use adonisjs_lasagna_multite.Prelude.Texts.Laws.{all-Lacks}
use adonisjs_lasagna_multite.Prelude.Effects.{returned}
use adonisjs_lasagna_multite.Access.Impersonation.{
  Session, StartOptions, StartResult, CacheOps, CacheLaws, Outside, World, Config, secret_of,
  is_clean_id, duration_of, extract_session_id, session_of, context_of, begin_session, start, stop,
  verify_found, verify,
}
use adonisjs_lasagna_multite.Access.Impersonation.Tokens.{IsStrong}
use adonisjs_lasagna_multite.Access.Impersonation.Sessions.{Verified, verify-Verified, verify-start}
use adonisjs_lasagna_multite.Access.Impersonation.Races.{verify-stop_raced}

abbrev Entries : Type 0
Entries = JsMap Text (Session × ℕ)

abbrev in_time : ℕ → Option (Session × ℕ) → Option Session
in_time now none = none
in_time now (some (s, deadline)) = if ltb now deadline then some s else none

abbrev cache : CacheOps Entries
cache = record {
  get = λ k now c. in_time now (lookup k c);
  set = λ k s ttl now c. insert k (s, now + ttl) c;
  delete = erase;
}

in_time-if :
    (b : Bool) (now : ℕ) (o p : Option (Session × ℕ))
    → in_time now (if b then o else p) ≡ (if b then in_time now o else in_time now p)
in_time-if true now o p = refl
in_time-if false now o p = refl

laws : CacheLaws cache
laws = record {
  get-set = λ k j s ttl now later c.
      ap (in_time later) (lookup-insert k j (s, now + ttl) c)
      ∙ in_time-if (k == j) later (some (s, now + ttl)) (lookup j c);
  get-delete = λ k j now c.
      ap (in_time now) (lookup-erase k j c) ∙ in_time-if (k == j) now none (lookup j c);
}

abbrev outside : Outside (Unit {0})
outside = record {
  hmac_hex = λ key id. codes "ab";
  from_hex = λ s. s;
  iso = λ now. [];
  log = λ entry l. l;
}

abbrev key : Text
key = codes "0123456789abcdef0123456789abcdef"

abbrev session_id : Text
session_id = codes "00112233445566778899aabbccddeeff"

abbrev config : Config
config = record { secret = some key; default_duration = none; max_duration = none }

abbrev opts : StartOptions
opts = record {
  tenant_id = codes "t1";
  target_user_id = codes "user-1";
  admin_id = codes "root";
  admin_type = none;
  reason = none;
  duration_seconds = some 5;
  ip_address = none;
}

abbrev nobody : World Entries (Unit {0})
nobody = record { cache = []; audits = tt }

abbrev begun : World Entries (Unit {0})
begun = (begin_session cache outside config session_id 0 opts nobody key).1

abbrev token : Text
token = session_id ++ codes ".ab"

strong : IsStrong outside key session_id
strong = (omega arith, all-Lacks b'.' session_id refl, (λ e. cc), (λ e. cc))

impersonation_tests :
    (duration_of config opts ≡ 60)
    × (is_clean_id (codes "a/b") ≡ false)
    × ((verify cache outside config 60000 token begun).0 ≡ returned none)
    × ((verify cache outside config 59999 (session_id ++ codes ".ac") begun).0 ≡ returned none)
unfolding duration_of is_clean_id verify
impersonation_tests = (refl, refl, refl, refl)

verify-Verified_example :
    Verified cache laws outside config token 7 begun
      (some (context_of (session_of session_id [] 0 opts 60)))
unfolding verify duration_of
verify-Verified_example = verify-Verified cache laws outside config token 7 begun refl

verify-start_example :
    (result : StartResult) × (w' : World Entries (Unit {0})) × (start cache outside config
        session_id 0 opts nobody
      ≡ (returned result, w'))
    × ((later : ℕ)
        → (verify cache outside config later result.token w').0
          ≡ returned (
              if ltb later (0 + duration_of config opts * 1000)
              then some (context_of (session_of session_id [] 0 opts (duration_of config opts)))
              else none))
unfolding secret_of is_clean_id
verify-start_example =
    verify-start cache laws outside config session_id key 0 opts nobody refl strong refl refl

abbrev stopped : World Entries (Unit {0})
stopped = record { cache = []; audits = tt }

verify-stop_raced_example :
    ((verify cache outside config 8 token stopped).0 ≡ returned none)
    × ((verify cache outside config 8 token
          (verify_found cache outside config 7 session_id
            (cache.get session_id 7 begun.cache)
            stopped).1).0
        ≡ returned (some (context_of (session_of session_id [] 0 opts 60))))
unfolding stop duration_of extract_session_id
verify-stop_raced_example =
    verify-stop_raced cache laws outside config token session_id 7 8
      (session_of session_id [] 0 opts 60) begun stopped refl refl refl (omega arith) (omega arith)
      refl
