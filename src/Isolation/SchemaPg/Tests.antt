-- ===== src/Isolation/SchemaPg/Tests.antt =====
-- `SchemaPgDriver` with a manager that is an ordered map from names to schemas, and a witness.
use adonisjs_lasagna_multite.Prelude.{
  ◌≡◌, Bool, true, ◌==◌, arith, beq_refl, refl, false, some, [], ◌∷◌, Text, codes, list_eq,
}
use adonisjs_lasagna_multite.Prelude.Maps.{JsMap, has_key, insert, erase}
use adonisjs_lasagna_multite.Prelude.Maps.Laws.{has_key-insert, has_key-erase}
use adonisjs_lasagna_multite.Prelude.Effects.{Outcome, returned, thrown}
use adonisjs_lasagna_multite.Isolation.Identifier.{
  schema_name, assert_safe_identifier, is_safe_ident, is_ident_char,
}
use adonisjs_lasagna_multite.Isolation.SchemaPg.{
  ManagerOps, ManagerLaws, Config, Pool, max_tenant_connections, connection_name, schema_name_of,
  touch, evict_if_needed, connect, disconnect,
}
use adonisjs_lasagna_multite.Isolation.SchemaPg.Connections.{IsBounded}
use adonisjs_lasagna_multite.Isolation.SchemaPg.Reachable.{
  Reached, fresh, connected, disconnected, Reached-IsBounded,
}

abbrev Connections : Type 0
Connections = JsMap Text Text

-- an awaited release, which throws and leaves the connection, or closes it
abbrev release_by : Bool → Text → Connections → Outcome (Unit {0}) (Unit {0}) × Connections
release_by true name m = (thrown tt, m)
release_by false name m = (returned tt, erase name m)

release_by-has :
    (b : Bool) (k j : Text) (m : Connections)
    → has_key j (release_by b k m).1 ≡ true
    → has_key j m ≡ true
release_by-has true k j m known = known
release_by-has false k j m known = ground (arith, has_key-erase k j m, known)

release_by-closes :
    (b : Bool) (k : Text) (m : Connections)
    → (release_by b k m).0 ≡ returned tt
    → has_key k (release_by b k m).1 ≡ false
release_by-closes true k m returns = cc
release_by-closes false k m returns = ground (arith, has_key-erase k k m, beq_refl k)

-- The release of the connection of `b` fails.
abbrev manager_ops : ManagerOps Connections (Unit {0}) (Unit {0})
manager_ops = record {
  has = has_key;
  config = λ name m. some tt;
  add = λ name c schema m. insert name schema m;
  release = λ name m. release_by (name == codes "tenant_b") name m;
  start_release = erase;
  query = λ sql m. (returned tt, m);
}

manager_laws : ManagerLaws manager_ops
manager_laws = record {
  has-add = λ k j c schema m. has_key-insert k j schema m;
  has-release = λ k j m known. release_by-has (k == codes "tenant_b") k j m known;
  release-closes = λ k m returns. release_by-closes (k == codes "tenant_b") k m returns;
  has-start_release = λ k j m known. ground (arith, has_key-erase k j m, known);
  has-query = λ j sql m known. known;
}

abbrev config : Config
config = record {
  tenant_connection_name_prefix = codes "tenant_";
  tenant_schema_prefix = codes "schema_";
  template_connection_name = codes "tenant";
}

abbrev nothing_open : Pool Connections
nothing_open = record { lru = []; manager = []; let_go = []; revived = 0 }

abbrev two_open : Pool Connections
two_open =
    (connect manager_ops config 2 (codes "b")
      (connect manager_ops config 1 (codes "a") nothing_open).1).1

-- The release of `b` throws, and `connect` then finds its connection known and not listed.
abbrev b_revived : Pool Connections
b_revived =
    (connect manager_ops config 3 (codes "b")
      (disconnect manager_ops config (codes "b") two_open).1).1

b_revived_test :
    (b_revived.revived ≡ 1)
    × (b_revived.let_go ≡ codes "tenant_b" ∷ [])
    × ((disconnect manager_ops config (codes "a") two_open).0 ≡ returned tt)
    × (has_key (codes "tenant_a") (disconnect manager_ops config (codes "a") two_open).1.manager
        ≡ false)
unfolding connect connection_name schema_name_of touch evict_if_needed disconnect schema_name
    assert_safe_identifier is_safe_ident is_ident_char
b_revived_test = (refl, refl, refl, refl)

b_revived-Reached : Reached manager_ops manager_laws config b_revived
b_revived-Reached = connected 3 (codes "b") _ (
    disconnected (codes "b") _
      (connected 2 (codes "b") _ (connected 1 (codes "a") _ (fresh [] (λ j tenant. refl)))))

Reached-IsBounded_example :
    IsBounded manager_ops manager_laws config max_tenant_connections b_revived
Reached-IsBounded_example =
    Reached-IsBounded manager_ops manager_laws config b_revived b_revived-Reached
