-- ===== src/Usage/Replica.antt =====
-- src/services/read_replica_service.ts: the choice of a read replica. The random number and the
-- hash of an id are parameters; the cursor is an unsigned 32-bit number.
pub mod Rotation
mod Tests
use adonisjs_lasagna_multite.Prelude.{
  ℕ, suc, ◌+◌, ◌%◌, ◌^◌, Option, none, some, List, [], ◌∷◌, ◌++◌, length, get_elem?, Text, codes,
}

pub data Strategy : Type 0 where
  round_robin random sticky : Strategy

-- `tenantReadReplicas`
pub record ReplicasConfig (H : Type 0) : Type 0 where
  pub hosts : List H
  pub strategy : Option Strategy

-- with so many hosts, at least one: the index, and the new cursor
abbrev pub pick_by : (ℕ → ℕ) → (Text → ℕ) → Option Strategy → ℕ → Text → ℕ → ℕ × ℕ
pick_by random_index hash none n tenant cursor = (cursor % n, (cursor + 1) % 2 ^ 32)
pick_by random_index hash (some round_robin) n tenant cursor = (cursor % n, (cursor + 1) % 2 ^ 32)
pick_by random_index hash (some random) n tenant cursor = (random_index n, cursor)
pick_by random_index hash (some sticky) n tenant cursor = (hash tenant % n, cursor)

module _ {H : Type 0} (random_index : ℕ → ℕ) (hash : Text → ℕ) where
  abbrev pub pick_among : List H → Option Strategy → Text → ℕ → Option ℕ × ℕ
  pick_among [] strategy tenant cursor = (none, cursor)
  pick_among (h ∷ hosts) strategy tenant cursor =
      let (index, cursor') =
        pick_by random_index hash strategy (length (h ∷ hosts)) tenant cursor in
      (some index, cursor')

  -- `pickIndex`
  pub pick_index : Option (ReplicasConfig H) → Text → ℕ → Option ℕ × ℕ
  pick_index none tenant cursor = (none, cursor)
  pick_index (some config) tenant cursor = pick_among config.hosts config.strategy tenant cursor

  abbrev pub host_at : Option (ReplicasConfig H) → Option ℕ → Option H
  host_at config none = none
  host_at none (some i) = none
  host_at (some config) (some i) = get_elem? config.hosts i

  -- `pickHost`
  pub pick_host : Option (ReplicasConfig H) → Text → ℕ → Option H × ℕ
  unfolding pick_index
  pick_host config tenant cursor =
      let (index, cursor') = pick_index config tenant cursor in (host_at config index, cursor')
