-- ===== src/Usage/Quota/Tests.antt =====
-- Quotas over counters in an ordered map, and a witness.
use adonisjs_lasagna_multite.Prelude.{
  ℕ, ◌+◌, ◌≡◌, refl, Option, none, some, [], ◌∷◌, ◌++◌, Text, codes, list_eq,
}
use adonisjs_lasagna_multite.Prelude.Maps.{JsMap, lookup, insert, lookup-insert}
use adonisjs_lasagna_multite.Prelude.Effects.{returned, thrown}
use adonisjs_lasagna_multite.Usage.Quota.{
  RedisOps, RedisLaws, count_or, PlansConfig, QuotaError, finite, get_limit, consume,
  quota_exceeded,
}
use adonisjs_lasagna_multite.Usage.Quota.Consumption.{Consumed, consume-Consumed}

abbrev Counters : Type 0
Counters = JsMap Text ℕ

abbrev redis : RedisOps Counters
redis = record {
  get = lookup;
  set = insert;
  incr_by = λ k n r. (count_or 0 (lookup k r) + n, insert k (count_or 0 (lookup k r) + n) r);
}

laws : RedisLaws redis
laws = record {
  get-set = λ k j n r. lookup-insert k j n r;
  get-incr_by = λ k j n r. lookup-insert k j (count_or 0 (lookup k r) + n) r;
  incr_by_lem = λ k n r. refl;
}

abbrev plans : PlansConfig
plans = record {
  plan_of_tenant = none;
  default_plan = codes "free";
  definitions = λ name. some (record { limits = λ quota. some (finite 10) });
}

abbrev with_snapshot : Counters
with_snapshot = (codes "quota:t:snap:seats", 8) ∷ []

-- two seats of ten, eight of which the snapshot counts
consume_tests :
    (consume (some redis) (codes "2026-01-01") (codes "t") plans (codes "seats") 2 with_snapshot
      ≡ (returned 2, with_snapshot ++ (codes "quota:t:2026-01-01:seats", 2) ∷ []))
    × (consume (some redis) (codes "2026-01-01") (codes "t") plans (codes "seats") 3 with_snapshot
        ≡ (thrown (quota_exceeded 10 8 3), with_snapshot))
unfolding consume
consume_tests = (refl, refl)

consume-Consumed_example :
    ((l : Option ℕ)
      → get_limit plans (codes "seats") ≡ returned l
      → Consumed redis laws
          (codes "d")
          (codes "t")
          (codes "seats")
          l
          2
          with_snapshot
          (consume (some redis) (codes "d") (codes "t") plans (codes "seats") 2 with_snapshot))
    × ((e : QuotaError)
        → get_limit plans (codes "seats") ≡ thrown e
        → consume (some redis) (codes "d") (codes "t") plans (codes "seats") 2 with_snapshot
          ≡ (thrown e, with_snapshot))
consume-Consumed_example =
    consume-Consumed redis laws (codes "d") (codes "t") (codes "seats") plans 2 with_snapshot
