-- ===== src/Usage/Quota.antt =====
-- src/services/quota_service.ts: plans, limits and usage. Redis is a parameter: a state with `get`,
-- `set` and `incrby` on counters, and laws for what its documentation says of them; `none` in its
-- place is a process without Redis. Amounts are natural numbers.
pub mod Consumption
mod Tests
use adonisjs_lasagna_multite.Prelude.{
  ℕ, ◌+◌, ◌≡◌, Bool, true, false, Option, none, some, List, ◌∷◌, ◌++◌, [], if◌then◌else◌, leb, ◌==◌,
  list_eq, Text, codes,
}
use adonisjs_lasagna_multite.Prelude.Effects.{Outcome, returned, thrown}

-- Counters by key; `get` gives `none` for `null` and the number of the text otherwise.
pub record RedisOps (R : Type 0) : Type 0 where
  pub get : Text → R → Option ℕ
  pub set : Text → ℕ → R → R
  pub incr_by : Text → ℕ → R → ℕ × R

abbrev pub count_or {ℓ} : {A : Type ℓ} → A → Option A → A
count_or a none = a
count_or a (some b) = b

-- A write is seen under its key only, and `incrby` gives the counter that it leaves.
pub record RedisLaws {R : Type 0} (o : RedisOps R) : Type 0 where
  pub get-set :
      (k j : Text) (n : ℕ) (r : R) → o.get j (o.set k n r) ≡ (if k == j then some n else o.get j r)
  pub get-incr_by :
      (k j : Text) (n : ℕ) (r : R)
      → o.get j (o.incr_by k n r).1
        ≡ (if k == j then some (count_or 0 (o.get k r) + n) else o.get j r)
  pub incr_by_lem : (k : Text) (n : ℕ) (r : R) → (o.incr_by k n r).0 ≡ count_or 0 (o.get k r) + n

-- A declared limit: a finite number, or another value.
pub data LimitValue : Type 0 where
  finite : ℕ → LimitValue
  other : LimitValue

pub record Plan : Type 0 where
  pub limits : Text → Option LimitValue

-- `getPlan` of the configuration applied to the tenant, the default plan and the definitions
pub record PlansConfig : Type 0 where
  pub plan_of_tenant : Option Text
  pub default_plan : Text
  pub definitions : Text → Option Plan

pub data QuotaError : Type 0 where
  plan_not_declared : Text → QuotaError
  quota_exceeded : (limit current attempted : ℕ) → QuotaError

pub record CheckResult : Type 0 where
  pub allowed : Bool
  pub current : ℕ
  pub limit : Option ℕ
  pub attempted : ℕ

abbrev declared : Text → Option Plan → Outcome QuotaError (Text × Plan)
declared name none = thrown (plan_not_declared name)
declared name (some plan) = returned (name, plan)

-- `getPlanFor`
pub get_plan_for : PlansConfig → Outcome QuotaError (Text × Plan)
get_plan_for config =
    let name = count_or config.default_plan config.plan_of_tenant in
    declared name (config.definitions name)

-- the limit of a declared value, `none` for `Infinity`
abbrev pub limit_of : Option LimitValue → Option ℕ
limit_of none = none
limit_of (some (finite n)) = some n
limit_of (some other) = none

abbrev limit_in : Text → Outcome QuotaError (Text × Plan) → Outcome QuotaError (Option ℕ)
limit_in quota (returned (name, plan)) = returned (limit_of (plan.limits quota))
limit_in quota (thrown e) = thrown e

-- `getLimit`
pub get_limit : PlansConfig → Text → Outcome QuotaError (Option ℕ)
unfolding get_plan_for
get_limit config quota = limit_in quota (get_plan_for config)

-- `#rollingKey`
pub rolling_key : Text → Text → Text → Text
rolling_key period tenant quota = codes "quota:" ++ (tenant ++ (b':' ∷ (period ++ (b':' ∷ quota))))

-- `#snapshotKey`
pub snapshot_key : Text → Text → Text
snapshot_key tenant quota = codes "quota:" ++ (tenant ++ (codes ":snap:" ++ quota))

-- `current + amount <= limit`
abbrev pub within : Option ℕ → ℕ → Bool
within none total = true
within (some limit) total = leb total limit

module _ {R : Type 0} (redis : Option (RedisOps R)) (period tenant : Text) where
  abbrev pub count_at : Option ℕ → ℕ → ℕ
  count_at none later = later
  count_at (some n) later = n

  abbrev pub usage_in : Option (RedisOps R) → Text → R → ℕ
  usage_in none quota r = 0
  usage_in (some o) quota r =
      count_at (o.get (rolling_key period tenant quota) r)
        (count_or 0 (o.get (snapshot_key tenant quota) r))

  -- `getUsage`: the rolling counter, where there is one, else the snapshot
  pub get_usage : Text → R → ℕ
  unfolding rolling_key snapshot_key
  get_usage quota r = usage_in redis quota r

  abbrev track_in : Option (RedisOps R) → Text → ℕ → R → ℕ × R
  track_in none quota amount r = (0, r)
  track_in (some o) quota amount r = o.incr_by (rolling_key period tenant quota) amount r

  -- `track`; the expiry after 48 hours is left out
  pub track : Text → ℕ → R → ℕ × R
  unfolding rolling_key
  track quota amount r = track_in redis quota amount r

  abbrev set_in : Option (RedisOps R) → Text → ℕ → R → R
  set_in none quota value r = r
  set_in (some o) quota value r = o.set (snapshot_key tenant quota) value r

  -- `setUsage` of a natural number
  pub set_usage : Text → ℕ → R → R
  unfolding snapshot_key
  set_usage quota value r = set_in redis quota value r

  abbrev pub check_limit :
      Text → ℕ → R → Outcome QuotaError (Option ℕ) → Outcome QuotaError CheckResult
  check_limit quota amount r (thrown e) = thrown e
  check_limit quota amount r (returned limit) =
      let current = get_usage quota r in
      returned (record {
        allowed = within limit (current + amount);
        current = current;
        limit = limit;
        attempted = amount;
      })

  -- `check`
  pub check : PlansConfig → Text → ℕ → R → Outcome QuotaError CheckResult
  unfolding get_usage get_limit
  check config quota amount r = check_limit quota amount r (get_limit config quota)

  abbrev pub consume_checked :
      Text → ℕ → R → Outcome QuotaError CheckResult → Outcome QuotaError ℕ × R
  consume_checked quota amount r (thrown e) = (thrown e, r)
  consume_checked quota amount r (returned result) =
      let (next, r') = track quota amount r in
      if result.allowed
      then (returned next, r')
      else (thrown (quota_exceeded (count_or 0 result.limit) result.current amount), r)

  -- `consume`; the dispatch of `TenantQuotaExceeded` is left out
  unfoldable pub consume : PlansConfig → Text → ℕ → R → Outcome QuotaError ℕ × R
  unfolding check track
  consume config quota amount r = consume_checked quota amount r (check config quota amount r)
