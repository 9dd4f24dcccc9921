-- ===== src/Lifecycle/Retention.antt =====
-- src/services/backup_retention_service.ts: when a backup is due, and which backups are kept. The
-- backups of a tenant, the reading of their timestamps and the deletion of an archive are
-- parameters. Times are milliseconds. The sort is an insertion sort by the code's comparator; with a
-- timestamp that cannot be read the comparator is not consistent, and the order is the engine's
-- choice.
pub mod Planning
pub mod Dueness
mod Tests
use adonisjs_lasagna_multite.Prelude.{
  ℕ, ◌+◌, ◌*◌, Bool, true, false, Option, none, some, List, [], ◌∷◌, take, drop, leb, if◌then◌else◌,
  or_default, ◌==◌, list_eq, Text, codes,
}
use adonisjs_lasagna_multite.Prelude.Effects.{Outcome, returned, thrown, Effect}

-- `BackupMetadata`, as far as retention reads it
pub record Backup : Type 0 where
  pub file : Text
  pub timestamp : Text

-- `BackupRetentionTier`
pub record Tier : Type 0 where
  pub interval_hours : ℕ
  pub keep_last : ℕ

-- `BackupRetentionConfig`, with what `getTier` gives for the tenant
pub record Config : Type 0 where
  pub default_tier : Text
  pub tier_of_tenant : Option Text
  pub tiers : Text → Option Tier

pub record Plan : Type 0 where
  pub kept : List Backup
  pub purged : List Backup

pub record TierNotDeclared : Type 0 where
  pub tier : Text

-- `DEFAULT_RETENTION`
abbrev pub default_retention : Config
default_retention = record {
  default_tier = codes "standard";
  tier_of_tenant = none;
  tiers = λ name.
      if name == codes "standard"
      then some (record { interval_hours = 24; keep_last = 7 })
      else none;
}

abbrev pub declared : Text → Option Tier → Outcome TierNotDeclared Tier
declared name none = thrown (record { tier = name })
declared name (some tier) = returned tier

-- `getTierFor`
pub get_tier_for : Option Config → Outcome TierNotDeclared Tier
get_tier_for config =
    let c = or_default config default_retention in
    let resolved = or_default c.tier_of_tenant c.default_tier in
    declared resolved (c.tiers resolved)

-- `Date.parse`, `none` for `NaN`
abbrev pub Parse : Type 0
Parse = Text → Option ℕ

-- The timestamps that are finite.
abbrev pub with_time : Option ℕ → List ℕ → List ℕ
with_time none ts = ts
with_time (some t) ts = t ∷ ts

abbrev pub times : Parse → List Backup → List ℕ
times parse [] = []
times parse (b ∷ bs) = with_time (parse b.timestamp) (times parse bs)

-- `Math.max(t, ...ts)`
abbrev pub latest : ℕ → List ℕ → ℕ
latest t [] = t
latest t (u ∷ ts) = latest (if leb t u then u else t) ts

-- the test on the age, `now - latest >= tier.intervalHours * 3600_000`; no finite timestamp is due
abbrev pub is_due : Tier → ℕ → List ℕ → Bool
is_due tier now [] = true
is_due tier now (t ∷ ts) = leb (latest t ts + tier.interval_hours * 3600000) now

abbrev pub due_in :
    Parse → List Backup → ℕ → Outcome TierNotDeclared Tier → Outcome TierNotDeclared Bool
due_in parse backups now (thrown e) = thrown e
due_in parse backups now (returned tier) = returned (is_due tier now (times parse backups))

-- `shouldBackup`
pub should_backup : Parse → Option Config → List Backup → ℕ → Outcome TierNotDeclared Bool
unfolding get_tier_for
should_backup parse config backups now = due_in parse backups now (get_tier_for config)

-- Whether `Date.parse(b) - Date.parse(a)` leaves `a` in front of `b`: it is not positive, or it is
-- `NaN`, which a sort reads as 0.
abbrev pub stays : Option ℕ → Option ℕ → Bool
stays none b = true
stays (some t) none = true
stays (some t) (some u) = leb u t

-- A stable sort by the comparator, the newest first where the timestamps can be read.
abbrev pub insert_backup : Parse → Backup → List Backup → List Backup
insert_backup parse b [] = b ∷ []
insert_backup parse b (c ∷ bs) =
    let rest = insert_backup parse b bs in
    if stays (parse b.timestamp) (parse c.timestamp) then b ∷ c ∷ bs else c ∷ rest

abbrev pub sort_backups : Parse → List Backup → List Backup
sort_backups parse [] = []
sort_backups parse (b ∷ bs) = insert_backup parse b (sort_backups parse bs)

abbrev pub plan_in :
    Parse → List Backup → Outcome TierNotDeclared Tier → Outcome TierNotDeclared Plan
plan_in parse backups (thrown e) = thrown e
plan_in parse backups (returned tier) = returned (record {
  kept = take tier.keep_last (sort_backups parse backups);
  purged = drop tier.keep_last (sort_backups parse backups);
})

-- `planRetention`
pub plan_retention : Parse → Option Config → List Backup → Outcome TierNotDeclared Plan
unfolding get_tier_for
plan_retention parse config backups = plan_in parse backups (get_tier_for config)

module _ {W E : Type 0} (delete_backup : Text → Effect W E (Unit {0})) where
  -- the loop of `applyRetention`; errors are swallowed
  abbrev pub sweep : List Backup → W → W
  sweep [] w = w
  sweep (b ∷ bs) w = sweep bs (delete_backup b.file w).1

  abbrev pub sweep_planned : Outcome TierNotDeclared Plan → W → Outcome TierNotDeclared Plan × W
  sweep_planned (thrown e) w = (thrown e, w)
  sweep_planned (returned plan) w = (returned plan, sweep plan.purged w)

  -- `applyRetention`
  pub apply_retention : Parse → Option Config → List Backup → W → Outcome TierNotDeclared Plan × W
  unfolding plan_retention
  apply_retention parse config backups w = sweep_planned (plan_retention parse config backups) w
