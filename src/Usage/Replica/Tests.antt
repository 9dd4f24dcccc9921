-- ===== src/Usage/Replica/Tests.antt =====
-- The choice among three replicas, and witnesses.
use adonisjs_lasagna_multite.Prelude.{ℕ, ◌≡◌, some, [], ◌∷◌, List, Text, arith}
use adonisjs_lasagna_multite.Usage.Replica.{round_robin, pick_index}
use adonisjs_lasagna_multite.Usage.Replica.Rotation.{cursor_after, pick_index-rotates}

abbrev first_index : ℕ → ℕ
first_index n = 0

abbrev no_hash : Text → ℕ
no_hash tenant = 5

abbrev replicas : List ℕ
replicas = 10 ∷ 11 ∷ 12 ∷ []

pick_index-rotates_example :
    (pick_index first_index no_hash
      (some (record { hosts = replicas; strategy = some round_robin }))
      []
      (cursor_after first_index no_hash
        (record { hosts = replicas; strategy = some round_robin })
        []
        4
        0)).0
    ≡ some 1
pick_index-rotates_example =
    pick_index-rotates first_index no_hash 10 (11 ∷ 12 ∷ []) [] 4 0 (omega arith)
