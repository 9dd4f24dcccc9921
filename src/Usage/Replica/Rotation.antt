-- ===== src/Usage/Replica/Rotation.antt =====
-- The hosts that `ReadReplicaService` (src/services/read_replica_service.ts) gives.
use adonisjs_lasagna_multite.Prelude.{
  ℕ, zero, suc, ◌^◌, ap, ◌+◌, ◌%◌, ◌<◌, ◌≡◌, ◌≢◌, refl, Option, none, some, List, [], ◌∷◌, arith,
  length, get_elem?, Text,
}
use native.Mathlib.Nat.{mod-lt}
use adonisjs_lasagna_multite.Usage.Replica.{
  Strategy, round_robin, random, sticky, ReplicasConfig, pick_by, pick_index, pick_host,
}

get_elem?-below :
    {A : Type 0} (xs : List A) (i : ℕ) → i < length xs → (x : A) × (get_elem? xs i ≡ some x)
get_elem?-below [] i h = absurd (omega arith)
get_elem?-below (x ∷ xs) zero h = (x, refl)
get_elem?-below (x ∷ xs) (suc i) h = get_elem?-below xs i (omega arith)

pick_by-below :
    (random_index : ℕ → ℕ) (hash : Text → ℕ) (strategy : Option Strategy) (n : ℕ) (tenant : Text)
    (cursor : ℕ)
    → ((m : ℕ) → 0 < m → random_index m < m)
    → 0 < n
    → (pick_by random_index hash strategy n tenant cursor).0 < n
pick_by-below random_index hash none n tenant cursor below h = mod-lt cursor h
pick_by-below random_index hash (some round_robin) n tenant cursor below h = mod-lt cursor h
pick_by-below random_index hash (some random) n tenant cursor below h = below n h
pick_by-below random_index hash (some sticky) n tenant cursor below h = mod-lt (hash tenant) h

module _ {H : Type 0} (random_index : ℕ → ℕ) (hash : Text → ℕ) where
  -- Where replicas are configured, every strategy gives one of them, if a random index is below
  -- the number that it is asked for: `pickHost` never gives `undefined`.
  pub pick_host-some :
      (hosts : List H) (strategy : Option Strategy) (tenant : Text) (cursor : ℕ)
      → ((m : ℕ) → 0 < m → random_index m < m)
      → hosts ≢ []
      → (h : H) × ((pick_host random_index hash
            (some (record { hosts = hosts; strategy = strategy }))
            tenant
            cursor).0
          ≡ some h)
  unfolding pick_host
  pick_host-some [] strategy tenant cursor below ne = absurd (ne refl)
  pick_host-some (h ∷ hosts) strategy tenant cursor below ne =
      get_elem?-below (h ∷ hosts)
        (pick_by random_index hash strategy (length (h ∷ hosts)) tenant cursor).0
        (pick_by-below random_index hash strategy (length (h ∷ hosts)) tenant cursor below
          (omega arith))

  -- The cursor after so many choices.
  abbrev pub cursor_after : ReplicasConfig H → Text → ℕ → ℕ → ℕ
  cursor_after config tenant zero cursor = cursor
  cursor_after config tenant (suc i) cursor =
      (pick_index random_index hash (some config) tenant (cursor_after config tenant i cursor)).1

  cursor_after-add :
      (h : H) (hosts : List H) (tenant : Text) (i cursor : ℕ)
      → cursor + i < 2 ^ 32
      → cursor_after (record { hosts = h ∷ hosts; strategy = some round_robin }) tenant i cursor
        ≡ cursor + i
  unfolding pick_index
  cursor_after-add h hosts tenant zero cursor small = omega arith
  cursor_after-add h hosts tenant (suc i) cursor small =
      let before = cursor_after-add h hosts tenant i cursor (omega arith) in omega (arith, before)

  -- Round robin takes the hosts in turn: until the 32-bit cursor wraps round, the choice after i
  -- others has the index (cursor + i) modulo the number of hosts.
  pub pick_index-rotates :
      (h : H) (hosts : List H) (tenant : Text) (i cursor : ℕ)
      → cursor + i < 2 ^ 32
      → (pick_index random_index hash
          (some (record { hosts = h ∷ hosts; strategy = some round_robin }))
          tenant
          (cursor_after
            (record { hosts = h ∷ hosts; strategy = some round_robin })
            tenant
            i
            cursor)).0
        ≡ some ((cursor + i) % length (h ∷ hosts))
  unfolding pick_index
  pick_index-rotates h hosts tenant i cursor small =
      ap (λ c. some (c % length (h ∷ hosts))) (cursor_after-add h hosts tenant i cursor small)
