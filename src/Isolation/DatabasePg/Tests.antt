-- ===== src/Isolation/DatabasePg/Tests.antt =====
-- `DatabasePgDriver` with a manager that is an ordered map from names to databases, and a witness.
use adonisjs_lasagna_multite.Prelude.{
  ◌≡◌, Bool, true, ◌==◌, arith, beq_refl, refl, false, none, some, [], Text, codes, list_eq,
}
use adonisjs_lasagna_multite.Prelude.Maps.{JsMap, has_key, insert, erase}
use adonisjs_lasagna_multite.Prelude.Maps.Laws.{has_key-insert, has_key-erase}
use adonisjs_lasagna_multite.Prelude.Effects.{Outcome, returned, thrown}
use adonisjs_lasagna_multite.Isolation.SchemaPg.{
  ManagerOps, ManagerLaws, Config, Pool, max_tenant_connections,
}
use adonisjs_lasagna_multite.Isolation.SchemaPg.Connections.{IsBounded}
use adonisjs_lasagna_multite.Isolation.DatabasePg.{
  Catalog, CatalogLaws, config_of, provision, destroy,
}
use adonisjs_lasagna_multite.Isolation.DatabasePg.Reachable.{
  Reached, fresh, provisioned, destroyed, Reached-pool,
}

abbrev Connections : Type 0
Connections = JsMap Text Text

-- an awaited release, which throws and leaves the connection, or closes it
abbrev release_by : Bool → Text → Connections → Outcome (Unit {0}) (Unit {0}) × Connections
release_by true name m = (thrown tt, m)
release_by false name m = (returned tt, erase name m)

release_by-has :
    (b : Bool) (k j : Text) (m : Connections)
    → has_key j (release_by b k m).1 ≡ true
    → has_key j m ≡ true
release_by-has true k j m known = known
release_by-has false k j m known = ground (arith, has_key-erase k j m, known)

release_by-closes :
    (b : Bool) (k : Text) (m : Connections)
    → (release_by b k m).0 ≡ returned tt
    → has_key k (release_by b k m).1 ≡ false
release_by-closes true k m returns = cc
release_by-closes false k m returns = ground (arith, has_key-erase k k m, beq_refl k)

-- The release of the connection of `b` fails.
abbrev manager_ops : ManagerOps Connections (Unit {0}) (Unit {0})
manager_ops = record {
  has = has_key;
  config = λ name m. some tt;
  add = λ name c database m. insert name database m;
  release = λ name m. release_by (name == codes "tenant_b") name m;
  start_release = erase;
  query = λ sql m. (returned tt, m);
}

manager_laws : ManagerLaws manager_ops
manager_laws = record {
  has-add = λ k j c database m. has_key-insert k j database m;
  has-release = λ k j m known. release_by-has (k == codes "tenant_b") k j m known;
  release-closes = λ k m returns. release_by-closes (k == codes "tenant_b") k m returns;
  has-start_release = λ k j m known. ground (arith, has_key-erase k j m, known);
  has-query = λ j sql m known. known;
}

abbrev catalog : Catalog Connections (Unit {0})
catalog = record { exists = λ name m. (returned false, m) }

catalog_laws : CatalogLaws manager_ops catalog
catalog_laws = record { has-exists = λ j name m known. known }

abbrev config : Config
config =
    config_of (record { template_connection_name = none; database_prefix = some (codes "db_") })
      (record {
        tenant_connection_name_prefix = codes "tenant_";
        tenant_schema_prefix = codes "schema_";
        template_connection_name = codes "ignored";
      })

abbrev nothing_open : Pool Connections
nothing_open = record { lru = []; manager = []; let_go = []; revived = 0 }

abbrev one_left : Pool Connections
one_left =
    (destroy manager_ops catalog config (codes "a") false
      (provision manager_ops catalog config 2 (codes "b")
        (provision manager_ops catalog config 1 (codes "a") nothing_open).1).1).1

one_left-Reached : Reached manager_ops manager_laws catalog catalog_laws config one_left
one_left-Reached =
    destroyed (codes "a") false _
      (provisioned 2 (codes "b") _ (provisioned 1 (codes "a") _ (fresh [] (λ j tenant. refl))))

Reached-pool_example : IsBounded manager_ops manager_laws config max_tenant_connections one_left
Reached-pool_example =
    Reached-pool manager_ops manager_laws catalog catalog_laws config one_left one_left-Reached
