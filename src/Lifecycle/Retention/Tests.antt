-- ===== src/Lifecycle/Retention/Tests.antt =====
-- Retention on concrete backups, and witnesses.
use adonisjs_lasagna_multite.Prelude.{
  ℕ, ◌*◌, ◌≡◌, ◌↔◌, refl, Bool, true, false, none, some, List, [], ◌∷◌, codes, length,
}
use adonisjs_lasagna_multite.Prelude.Effects.{returned, thrown}
use adonisjs_lasagna_multite.Lifecycle.Retention.{
  Backup, Tier, Config, Plan, TierNotDeclared, Parse, get_tier_for, should_backup, plan_retention,
  apply_retention,
}
use adonisjs_lasagna_multite.Lifecycle.Retention.Planning.{Planned, plan_retention-Planned}
use adonisjs_lasagna_multite.Lifecycle.Retention.Dueness.{AllOld, should_backup_iff}

-- a timestamp with as many marks as hours
abbrev parse : Parse
parse [] = none
parse (c ∷ s) = some (length s * 3600000)

abbrev config : Config
config = record {
  default_tier = codes "daily";
  tier_of_tenant = none;
  tiers = λ name. some (record { interval_hours = 24; keep_last = 2 });
}

abbrev old : Backup
old = record { file = codes "old"; timestamp = codes "|" }

abbrev middle : Backup
middle = record { file = codes "middle"; timestamp = codes "||" }

abbrev recent : Backup
recent = record { file = codes "recent"; timestamp = codes "|||" }

abbrev listed : List Backup
listed = middle ∷ old ∷ recent ∷ []

abbrev unreadable : Backup
unreadable = record { file = codes "unreadable"; timestamp = [] }

-- Around a timestamp that cannot be read, nothing is sorted: the newest backup is purged.
unsorted_test :
    plan_retention parse (some config) (old ∷ unreadable ∷ recent ∷ [])
    ≡ returned (record { kept = old ∷ unreadable ∷ []; purged = recent ∷ [] })
unfolding plan_retention get_tier_for
unsorted_test = refl

retention_tests :
    (plan_retention parse (some config) listed
      ≡ returned (record { kept = recent ∷ middle ∷ []; purged = old ∷ [] }))
    × (should_backup parse none listed 93600000 ≡ returned true)
    × (should_backup parse none listed 93599999 ≡ returned false)
    × ((apply_retention {E = ℕ} (λ file w. (thrown 0, file ∷ w)) parse (some config) listed []).1
        ≡ codes "old" ∷ [])
unfolding plan_retention should_backup apply_retention get_tier_for
retention_tests = (refl, refl, refl, refl)

plan_retention-Planned_example :
    ((tier : Tier)
      → get_tier_for (some config) ≡ returned tier
      → (plan : Plan) × (plan_retention parse (some config) listed ≡ returned plan)
        × Planned parse tier listed plan)
    × ((e : TierNotDeclared)
        → get_tier_for (some config) ≡ thrown e
        → plan_retention parse (some config) listed ≡ thrown e)
plan_retention-Planned_example = plan_retention-Planned parse (some config) listed

should_backup_iff_example :
    (due : Bool) × (should_backup parse (some config) listed 93600000 ≡ returned due)
    × ((due ≡ true) ↔ AllOld parse (24 * 3600000) 93600000 listed)
unfolding get_tier_for
should_backup_iff_example =
    should_backup_iff parse (some config) listed 93600000
      (record { interval_hours = 24; keep_last = 2 }) refl
