-- ===== src/Isolation/SchemaPg/Connections.antt =====
-- The bound on the tenants' connections of `SchemaPgDriver` (src/services/isolation/schema_pg_driver.ts).
use adonisjs_lasagna_multite.Prelude.Maps.Laws.{length-erase_key}
use adonisjs_lasagna_multite.Prelude.{
  ℕ, ◌+◌, ap, any, Bool, ◌||◌, List, suc, ◌≤◌, ◌<◌, ◌≡◌, ◌≢◌, refl, true, false, Option, none, some,
  [], ◌∷◌, arith, length, leb, Bool-cases, inl, inr, ◌==◌, list_eq, list_beq_iff, beq_refl, Text,
}
use adonisjs_lasagna_multite.Prelude.Maps.{JsMap, has_key, erase, keys, Unique}
use adonisjs_lasagna_multite.Prelude.Maps.Laws.{
  Unique-erase, Unique-insert, Fresh-erase_same, has_key-insert, has_key-erase, length-erase,
  length-insert,
}
use adonisjs_lasagna_multite.Prelude.Effects.{Outcome, returned, thrown, Effect, ◌>>=◌}
use adonisjs_lasagna_multite.Isolation.Identifier.{IdentifierError, schema_name}
use adonisjs_lasagna_multite.Isolation.Identifier.Laws.{schema_name-nonempty}
use adonisjs_lasagna_multite.Isolation.SchemaPg.{
  ManagerOps, ManagerLaws, DriverError, Config, Pool, max_tenant_connections, or_invalid,
  connection_name, schema_name_of, touch, evict_oldest, evict_if_needed, add_connection,
  found_known, released, connect_named, connect, disconnect_named, disconnect, queried,
}

module _ {M C E : Type 0} (o : ManagerOps M C E) (laws : ManagerLaws o) (config : Config) where
  -- A name that the driver gives to a tenant's connection.
  abbrev pub IsTenantName : Text → Type 0
  IsTenantName j = (id : Text) × (schema_name config.tenant_connection_name_prefix id ≡ returned j)

  -- The connection is listed, or its release was not awaited or threw.
  abbrev pub is_accounted : Text → Pool M → Bool
  is_accounted j p = has_key j p.lru || any (λ name. name == j) p.let_go

  abbrev pub IsListed : Pool M → Type 0
  IsListed p = (j : Text) → IsTenantName j → o.has j p.manager ≡ true → is_accounted j p ≡ true

  -- At most so many connections, and those that were revived; none listed twice, none nameless; all
  -- of tenants that are open are listed or have been let go.
  abbrev pub IsBounded : ℕ → Pool M → Type 0
  IsBounded bound p =
      (length p.lru ≤ bound + p.revived)
      × Unique (keys p.lru)
      × (has_key [] p.lru ≡ false)
      × IsListed p

  accounted_evict :
      (name j : Text) (lru : JsMap Text ℕ) (let_go : List Text)
      → (has_key j lru || any (λ n. n == j) let_go) ≡ true
      → (has_key j (erase name lru) || (name == j || any (λ n. n == j) let_go)) ≡ true
  accounted_evict name j lru let_go h = ground (arith, has_key-erase name j lru, h)

  evict_oldest-IsBounded :
      (lru : JsMap Text ℕ) (p : Pool M)
      → IsBounded (suc max_tenant_connections) (record p { lru = lru })
      → IsBounded max_tenant_connections (evict_oldest o config (keys lru) (record p { lru = lru }))
  evict_oldest-IsBounded [] p (size, unique, named, opened) = (omega arith, tt, refl, opened)
  evict_oldest-IsBounded (([], t) ∷ lru) p (size, unique, named, opened) = absurd (ground arith)
  evict_oldest-IsBounded ((c ∷ name, t) ∷ lru) p (size, unique, named, opened) =
      let all = (c ∷ name, t) ∷ lru in
      let same : ((c ∷ name) == (c ∷ name)) ≡ true = beq_refl (c ∷ name) in
      let shorter : length (erase (c ∷ name) all) ≤ length lru =
        rw same (length-erase (c ∷ name) lru) in
      (
        omega (arith, shorter, size),
        Unique-erase (c ∷ name) all unique,
        ground (arith, has_key-erase (c ∷ name) [] all, named),
        (λ j tenant known.
            let before = opened j tenant (laws.has-start_release (c ∷ name) j p.manager known) in
            accounted_evict (c ∷ name) j all p.let_go before),
      )

  evict_if_needed-IsBounded :
      (p : Pool M)
      → IsBounded (suc max_tenant_connections) p
      → IsBounded max_tenant_connections (evict_if_needed o config p)
  unfolding evict_if_needed
  evict_if_needed-IsBounded p (size, unique, named, opened) =
      elim (Bool-cases (leb (length p.lru) max_tenant_connections)) [
        | inl within ↦ rw within (ground arith, unique, named, opened)
        | inr beyond ↦ rw beyond (evict_oldest-IsBounded p.lru p (size, unique, named, opened))
      ]

  touch-IsBounded :
      (now : ℕ) (name : Text) (p : Pool M) (bound : ℕ)
      → name ≢ []
      → length (erase name p.lru) < bound + p.revived
      → Unique (keys p.lru)
      → has_key [] p.lru ≡ false
      → ((j : Text)
          → IsTenantName j
          → o.has j p.manager ≡ true
          → ((name == j) || is_accounted j p) ≡ true)
      → IsBounded bound (touch o config now name p)
  unfolding touch
  touch-IsBounded now name p bound solid room unique named opened =
      let rest = erase name p.lru in
      (
        omega (arith, length-insert name now rest, room),
        Unique-insert name now rest (Unique-erase name p.lru unique) (Fresh-erase_same name p.lru),
        ground (
          arith,
          has_key-insert name [] now rest,
          has_key-erase name [] p.lru,
          list_beq_iff name [],
          named,
        ),
        (λ j tenant known. ground (
          arith,
          has_key-insert name j now rest,
          has_key-erase name j p.lru,
          opened j tenant known,
        )),
      )

  pub or_invalid-keeps :
      {A B : Type 0} (P : Pool M → Type 0) (out : Outcome IdentifierError A)
      (f : A → Effect (Pool M) (DriverError E) B) (p : Pool M)
      → P p
      → ((a : A) → out ≡ returned a → P (f a p).1)
      → P ((or_invalid o config out >>= f) p).1
  or_invalid-keeps P (returned a) f p h k = k a refl
  or_invalid-keeps P (thrown e) f p h k = h

  add_connection-IsBounded :
      (now : ℕ) (id name : Text) (template : Option C) (p : Pool M)
      → name ≢ []
      → o.has name p.manager ≡ false
      → IsBounded max_tenant_connections p
      → IsBounded max_tenant_connections (add_connection o config now id name template p).1
  unfolding schema_name_of
  add_connection-IsBounded now id name none p solid fresh h = h
  add_connection-IsBounded now id name (some template) p solid fresh h =
      or_invalid-keeps (IsBounded max_tenant_connections)
        (schema_name config.tenant_schema_prefix id)
        (λ schema. λ q. (
          returned name,
          evict_if_needed o config (
              touch o config now name
                (record q { manager = o.add name template schema q.manager })),
        ))
        p h
        (λ schema e.
          let added = record p { manager = o.add name template schema p.manager } in
          evict_if_needed-IsBounded (touch o config now name added) (
            touch-IsBounded now name added (suc max_tenant_connections) solid
              (omega (arith, length-erase name p.lru, h.0)) h.1 h.2
              (λ j tenant known.
                ground
                  (arith, laws.has-add name j template schema p.manager, known, h.3 j tenant))))

  found_known-IsBounded :
      (now : ℕ) (name : Text) (p : Pool M)
      → name ≢ []
      → is_accounted name p ≡ true
      → IsBounded max_tenant_connections p
      → IsBounded max_tenant_connections (touch o config now name (found_known o config name p))
  found_known-IsBounded now name p solid accounted h = elim (Bool-cases (has_key name p.lru)) [
    | inl listed ↦ rw listed (
        touch-IsBounded now name p max_tenant_connections solid
          (omega (arith, h.0, length-erase_key name p.lru listed)) h.1 h.2
          (λ j tenant known. ground (arith, h.3 j tenant known)))
    | inr unlisted ↦ rw unlisted (
        touch-IsBounded now name (record p { revived = p.revived + 1 }) max_tenant_connections solid
          (omega (arith, h.0, length-erase name p.lru)) h.1 h.2
          (λ j tenant known. ground (arith, h.3 j tenant known)))
  ]

  connect_named-IsBounded :
      (now : ℕ) (id name : Text) (p : Pool M)
      → name ≢ []
      → IsTenantName name
      → IsBounded max_tenant_connections p
      → IsBounded max_tenant_connections (connect_named o config now id name p).1
  connect_named-IsBounded now id name p solid tenant h = elim (Bool-cases (o.has name p.manager)) [
    | inl known ↦ rw known (found_known-IsBounded now name p solid (h.3 name tenant known) h)
    | inr fresh ↦ rw fresh (
        add_connection-IsBounded now id name (o.config config.template_connection_name p.manager) p
          solid fresh h)
  ]

  -- An operation that leaves the connections bounded, also where it throws.
  abbrev pub Preserves : {A : Type 0} → Effect (Pool M) (DriverError E) A → Type 0
  Preserves run =
      (p : Pool M) → IsBounded max_tenant_connections p → IsBounded max_tenant_connections (run p).1

  continue-keeps :
      {A B : Type 0} (f : A → Effect (Pool M) (DriverError E) B) (r : Outcome (DriverError E) A)
      (q : Pool M)
      → IsBounded max_tenant_connections q
      → ((a : A) → Preserves (f a))
      → IsBounded max_tenant_connections (((λ _. (r, q)) >>= f) q).1
  continue-keeps f (returned a) q h hf = hf a q h
  continue-keeps f (thrown e) q h hf = h

  pub bind-Preserves :
      {A B : Type 0} (m : Effect (Pool M) (DriverError E) A)
      (f : A → Effect (Pool M) (DriverError E) B)
      → Preserves m
      → ((a : A) → Preserves (f a))
      → Preserves (m >>= f)
  bind-Preserves m f hm hf p h = continue-keeps f (m p).0 (m p).1 (hm p h) hf

  pub connect-Preserves : (now : ℕ) (id : Text) → Preserves (connect o config now id)
  unfolding connect connection_name
  connect-Preserves now id p h =
      or_invalid-keeps (IsBounded max_tenant_connections)
        (schema_name config.tenant_connection_name_prefix id) (connect_named o config now id) p h
        (λ name e.
          connect_named-IsBounded now id name p
            (schema_name-nonempty config.tenant_connection_name_prefix id name e) (id, e) h)

  released-IsBounded :
      (name : Text) (p : Pool M) (r : Outcome E (Unit {0}) × M)
      → IsBounded max_tenant_connections p
      → ((j : Text) → o.has j r.1 ≡ true → o.has j p.manager ≡ true)
      → (r.0 ≡ returned tt → o.has name r.1 ≡ false)
      → IsBounded max_tenant_connections
          (released o config name (record p { lru = erase name p.lru }) r).1
  released-IsBounded name p (returned u, m) h kept closed = (
    omega (arith, length-erase name p.lru, h.0),
    Unique-erase name p.lru h.1,
    ground (arith, has_key-erase name [] p.lru, h.2),
    (λ j tenant known. elim (Bool-cases (name == j)) [
      | inl same ↦ cc (known, closed refl, ap (λ n. o.has n m) ((list_beq_iff name j).0 same))
      | inr other ↦ ground (arith, has_key-erase name j p.lru, other, h.3 j tenant (kept j known))
    ]),
  )
  released-IsBounded name p (thrown e, m) h kept closed = (
    omega (arith, length-erase name p.lru, h.0),
    Unique-erase name p.lru h.1,
    ground (arith, has_key-erase name [] p.lru, h.2),
    (λ j tenant known. accounted_evict name j p.lru p.let_go (h.3 j tenant (kept j known))),
  )

  disconnect_named-IsBounded :
      (name : Text) (p : Pool M)
      → IsBounded max_tenant_connections p
      → IsBounded max_tenant_connections (disconnect_named o config name p).1
  disconnect_named-IsBounded name p h = elim (Bool-cases (o.has name p.manager)) [
    | inl known ↦ rw known (
        released-IsBounded name p (o.release name p.manager) h
          (λ j. laws.has-release name j p.manager) (laws.release-closes name p.manager))
    | inr gone ↦ rw gone (
      omega (arith, length-erase name p.lru, h.0),
      Unique-erase name p.lru h.1,
      ground (arith, has_key-erase name [] p.lru, h.2),
      (λ j tenant known. elim (Bool-cases (name == j)) [
        | inl same ↦ cc (known, gone, ap (λ n. o.has n p.manager) ((list_beq_iff name j).0 same))
        | inr other ↦ ground (arith, has_key-erase name j p.lru, other, h.3 j tenant known)
      ]),
    )
  ]

  pub disconnect-Preserves : (id : Text) → Preserves (disconnect o config id)
  unfolding disconnect connection_name
  disconnect-Preserves id p h =
      or_invalid-keeps (IsBounded max_tenant_connections)
        (schema_name config.tenant_connection_name_prefix id) (disconnect_named o config) p h
        (λ name e. disconnect_named-IsBounded name p h)

  pub queried-keeps :
      (p : Pool M) (r : Outcome E (Unit {0}) × M)
      → IsBounded max_tenant_connections p
      → ((j : Text) → o.has j r.1 ≡ true → o.has j p.manager ≡ true)
      → IsBounded max_tenant_connections (queried o config p r).1
  queried-keeps p (returned u, m) h same =
      (h.0, h.1, h.2, (λ j tenant known. h.3 j tenant (same j known)))
  queried-keeps p (thrown e, m) h same =
      (h.0, h.1, h.2, (λ j tenant known. h.3 j tenant (same j known)))

  pub queried-IsBounded :
      (p : Pool M) (sql : Text)
      → IsBounded max_tenant_connections p
      → IsBounded max_tenant_connections (queried o config p (o.query sql p.manager)).1
  queried-IsBounded p sql h =
      queried-keeps p (o.query sql p.manager) h (λ j. laws.has-query j sql p.manager)
