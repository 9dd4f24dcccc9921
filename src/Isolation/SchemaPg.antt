-- ===== src/Isolation/SchemaPg.antt =====
-- src/services/isolation/schema_pg_driver.ts: a PostgreSQL schema and a named connection for each
-- tenant, with a bound on the connections that are open. Lucid's connection manager is a
-- parameter: a state with operations, and laws for what its documentation says of them. Operations
-- run one after another, but a release that is not awaited may close its connection at any call
-- behind it, or fail.
pub mod Connections
pub mod Reachable
mod Tests
use adonisjs_lasagna_multite.Prelude.{
  ℕ, ◌+◌, Bool, true, false, Option, none, some, List, [], ◌∷◌, ◌++◌, length, leb, if◌then◌else◌,
  ◌==◌, list_eq, ◌≡◌, Text, codes,
}
use adonisjs_lasagna_multite.Prelude.Maps.{JsMap, has_key, insert, erase, keys}
use adonisjs_lasagna_multite.Prelude.Effects.{
  Outcome, returned, thrown, Effect, ◌>>=◌, ◌>>◌, throw, pure,
}
use adonisjs_lasagna_multite.Isolation.Identifier.{
  IdentifierError, assert_safe_identifier, schema_name,
}

-- `db.manager` and `db.rawQuery`, with the connections' configurations and the queries' errors.
pub record ManagerOps (M C E : Type 0) : Type 0 where
  pub has : Text → M → Bool
  pub config : Text → M → Option C
  pub add : Text → C → Text → M → M
  -- `await release(name)`
  pub release : Text → M → Outcome E (Unit {0}) × M
  -- `release(name).catch(() => {})`, which is not awaited
  pub start_release : Text → M → M
  pub query : Text → M → Outcome E (Unit {0}) × M

-- No call but `add` makes a connection known, and an awaited release that returns has made it
-- unknown.
pub record ManagerLaws {M C E : Type 0} (o : ManagerOps M C E) : Type 0 where
  pub has-add :
      (k j : Text) (c : C) (schema : Text) (m : M)
      → o.has j (o.add k c schema m) ≡ (if k == j then true else o.has j m)
  pub has-release : (k j : Text) (m : M) → o.has j (o.release k m).1 ≡ true → o.has j m ≡ true
  pub release-closes :
      (k : Text) (m : M) → (o.release k m).0 ≡ returned tt → o.has k (o.release k m).1 ≡ false
  pub has-start_release :
      (k j : Text) (m : M) → o.has j (o.start_release k m) ≡ true → o.has j m ≡ true
  pub has-query : (j sql : Text) (m : M) → o.has j (o.query sql m).1 ≡ true → o.has j m ≡ true

pub data DriverError (E : Type 0) : Type 0 where
  invalid_id : IdentifierError → DriverError E
  template_missing : Text → DriverError E
  query_failed release_failed : E → DriverError E

-- the configuration, and the template of the constructor
pub record Config : Type 0 where
  pub tenant_connection_name_prefix : Text
  pub tenant_schema_prefix : Text
  pub template_connection_name : Text

-- The driver's map of connection names, in the order of their last use, and the manager. Two fields
-- are history, which no operation reads: the names whose release was not awaited or threw, and how
-- often `connect` found a connection known that was not listed.
pub record Pool (M : Type 0) : Type 0 where
  pub lru : JsMap Text ℕ
  pub manager : M
  pub let_go : List Text
  pub revived : ℕ

abbrev pub max_tenant_connections : ℕ
max_tenant_connections = 50

module _ {M C E : Type 0} (o : ManagerOps M C E) (config : Config) where
  abbrev Run : Type 0 → Type 0
  Run A = Effect (Pool M) (DriverError E) A

  abbrev pub or_invalid : {A : Type 0} → Outcome IdentifierError A → Run A
  or_invalid (returned a) p = (returned a, p)
  or_invalid (thrown e) p = (thrown (invalid_id e), p)

  pub connection_name : Text → Run Text
  connection_name id = or_invalid (schema_name config.tenant_connection_name_prefix id)

  pub schema_name_of : Text → Run Text
  schema_name_of id = or_invalid (schema_name config.tenant_schema_prefix id)

  pub touch : ℕ → Text → Pool M → Pool M
  touch now name p = record p { lru = insert name now (erase name p.lru) }

  -- `keys().next().value`; an empty name counts as none
  abbrev pub evict_oldest : List Text → Pool M → Pool M
  evict_oldest [] p = p
  evict_oldest ([] ∷ _) p = p
  evict_oldest ((c ∷ name) ∷ _) p = record p {
    lru = erase (c ∷ name) p.lru;
    manager = o.start_release (c ∷ name) p.manager;
    let_go = (c ∷ name) ∷ p.let_go;
  }

  pub evict_if_needed : Pool M → Pool M
  evict_if_needed p =
      if leb (length p.lru) max_tenant_connections then p else evict_oldest (keys p.lru) p

  abbrev pub add_connection : ℕ → Text → Text → Option C → Run Text
  add_connection now id name none = throw (template_missing config.template_connection_name)
  add_connection now id name (some template) = schema_name_of id >>= λ schema. λ p. (
    returned name,
    evict_if_needed (touch now name (record p { manager = o.add name template schema p.manager })),
  )

  -- the history of a connection that is known
  abbrev pub found_known : Text → Pool M → Pool M
  found_known name p = record p {
    revived = if has_key name p.lru then p.revived else p.revived + 1;
  }

  abbrev pub connect_named : ℕ → Text → Text → Run Text
  connect_named now id name p =
      if o.has name p.manager
      then (returned name, touch now name (found_known name p))
      else add_connection now id name (o.config config.template_connection_name p.manager) p

  -- The connection is given by its name.
  pub connect : ℕ → Text → Run Text
  unfolding connection_name schema_name_of touch evict_if_needed
  connect now id = connection_name id >>= connect_named now id

  abbrev pub released :
      Text → Pool M → Outcome E (Unit {0}) × M → Outcome (DriverError E) (Unit {0}) × Pool M
  released name p (returned _, m) = (returned tt, record p { manager = m })
  released name p (thrown e, m) =
      (thrown (release_failed e), record p { manager = m; let_go = name ∷ p.let_go })

  abbrev pub disconnect_named : Text → Run (Unit {0})
  disconnect_named name p =
      let unlisted = record p { lru = erase name p.lru } in
      if o.has name p.manager
      then released name unlisted (o.release name p.manager)
      else (returned tt, unlisted)

  pub disconnect : Text → Run (Unit {0})
  unfolding connection_name
  disconnect id = connection_name id >>= disconnect_named

  abbrev pub queried :
      Pool M → Outcome E (Unit {0}) × M → Outcome (DriverError E) (Unit {0}) × Pool M
  queried p (returned _, m) = (returned tt, record p { manager = m })
  queried p (thrown e, m) = (thrown (query_failed e), record p { manager = m })

  -- `db.rawQuery`, with the schema's name in quotes between two texts
  pub raw_query : Text → Text → Text → Run (Unit {0})
  raw_query before schema after p =
      queried p (o.query (before ++ (b'"' ∷ schema) ++ (b'"' ∷ after)) p.manager)

  pub provision : ℕ → Text → Run (Unit {0})
  unfolding schema_name_of raw_query connect
  provision now id = schema_name_of id >>= λ schema.
      raw_query (codes "CREATE SCHEMA IF NOT EXISTS ") schema [] >> connect now id >> pure tt

  pub destroy : Text → Bool → Run (Unit {0})
  unfolding schema_name_of raw_query disconnect
  destroy id keep_data = schema_name_of id >>= λ schema.
      disconnect id
      >> (if keep_data
          then pure tt
          else raw_query (codes "DROP SCHEMA IF EXISTS ") schema (codes " CASCADE"))

  pub reset : ℕ → Text → Run (Unit {0})
  unfolding schema_name_of raw_query connect disconnect
  reset now id = schema_name_of id >>= λ schema.
      disconnect id
      >> raw_query (codes "DROP SCHEMA IF EXISTS ") schema (codes " CASCADE")
      >> raw_query (codes "CREATE SCHEMA ") schema []
      >> connect now id
      >> pure tt
