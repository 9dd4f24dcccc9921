-- ===== src/Isolation/RowScope/Deletion.antt =====
-- What `RowScopePgDriver` (src/services/isolation/rowscope_pg_driver.ts) deletes.
use adonisjs_lasagna_multite.Prelude.{
  ◌≡◌, ◌⊎◌, ◌↔◌, refl, sym, ap, subst, ◌∙◌, inl, inr, Bool, true, false, not, Option, none, some,
  List, [], ◌∷◌, Listed, Listed-filter, filter, if◌then◌else◌, ◌==◌, list_eq, list_beq_iff,
  Bool-cases, Text,
}
use adonisjs_lasagna_multite.Prelude.Effects.{Outcome, returned, thrown, ◌>>◌}
use adonisjs_lasagna_multite.Isolation.Identifier.{IdentifierError, assert_safe_identifier}
use adonisjs_lasagna_multite.Isolation.RowScope.{
  Driver, TableOps, TableLaws, RowScopeError, holds, relay, delete_from, destroy_checked,
  destroy_in, destroy,
}

module _ {D R E : Type 0} (o : TableOps D R E) (laws : TableLaws o) (driver : Driver)
    (id : Text) where
  -- The row belongs to the tenant.
  abbrev pub IsOwn : R → Type 0
  IsOwn r = o.value driver.scope_column r ≡ some id

  -- No row is added, and every row that is gone was the tenant's, in a table of the list.
  abbrev pub Spares : List Text → D → D → Type 0
  Spares tables d d' =
      (t : Text) (r : R)
      → (Listed r (o.rows t d') → Listed r (o.rows t d))
        × (Listed r (o.rows t d) → Listed r (o.rows t d') ⊎ (IsOwn r × Listed t tables))

  -- None of the tenant's rows is left in these tables.
  abbrev pub Cleared : List Text → D → Type 0
  Cleared tables d = (t : Text) (r : R) → Listed t tables → Listed r (o.rows t d) → ¬ IsOwn r

  Spares-refl :
      (tables : List Text) (d d' : D) → ((t : Text) → o.rows t d' ≡ o.rows t d) → Spares tables d d'
  Spares-refl tables d d' same t r =
      ((λ h. subst (Listed r) (same t) h), (λ h. inl (subst (Listed r) (sym (same t)) h)))

  kept_iff : (r : R) → (not (holds (o.value driver.scope_column r) id) ≡ true) ↔ (¬ IsOwn r)
  kept_iff r = by_value (o.value driver.scope_column r)
    where
      by_value : (v : Option Text) → (not (holds v id) ≡ true) ↔ (¬ (v ≡ some id))
      by_value none = ((λ h e. cc), (λ h. refl))
      by_value (some v) = by_test (v == id) refl
        where
          by_test : (b : Bool) → (v == id) ≡ b → (not b ≡ true) ↔ (¬ (some v ≡ some id))
          by_test true e = ((λ h. absurd cc), (λ h. absurd (h (ap some ((list_beq_iff v id).0 e)))))
          by_test false e = (
            (λ h same. cc (e, (list_beq_iff v id).1 (let v_id : v ≡ id = cc same in v_id))),
            (λ h. refl),
          )

  holds-IsOwn : (r : R) → not (holds (o.value driver.scope_column r) id) ≡ false → IsOwn r
  holds-IsOwn r = by_value (o.value driver.scope_column r)
    where
      by_value : (v : Option Text) → not (holds v id) ≡ false → v ≡ some id
      by_value none h = absurd cc
      by_value (some v) h = by_test (v == id) refl h
        where
          by_test : (b : Bool) → (v == id) ≡ b → not b ≡ false → some v ≡ some id
          by_test true e h = ap some ((list_beq_iff v id).0 e)
          by_test false e h = absurd cc

  -- What is left of a table behind the filter.
  filtered-either :
      (rs : List R) (r : R)
      → Listed r rs
      → Listed r (filter (λ x. not (holds (o.value driver.scope_column x) id)) rs) ⊎ IsOwn r
  filtered-either rs r h = elim (Bool-cases (not (holds (o.value driver.scope_column r) id))) [
    | inl kept ↦
        inl ((Listed-filter (λ x. not (holds (o.value driver.scope_column x) id)) r rs).1 (h, kept))
    | inr dropped ↦ inr (holds-IsOwn r dropped)
  ]

  deleted_rows-Spares :
      (table t : Text) (r : R) (rs rs' : List R)
      → rs' ≡ (
          if table == t
          then filter (λ x. not (holds (o.value driver.scope_column x) id)) rs
          else rs)
      → (Listed r rs' → Listed r rs)
        × (Listed r rs → Listed r rs' ⊎ (IsOwn r × Listed t (table ∷ [])))
  deleted_rows-Spares table t r rs rs' e = by_table (table == t) refl e
    where
      by_table :
          (b : Bool)
          → (table == t) ≡ b
          → rs'
            ≡ (if b then filter (λ x. not (holds (o.value driver.scope_column x) id)) rs else rs)
          → (Listed r rs' → Listed r rs)
            × (Listed r rs → Listed r rs' ⊎ (IsOwn r × Listed t (table ∷ [])))
      by_table true same e = (
        (λ h.
            ((Listed-filter (λ x. not (holds (o.value driver.scope_column x) id)) r rs).0
              (subst (Listed r) e h)).0),
        (λ h. elim (filtered-either rs r h) [
          | inl kept ↦ inl (subst (Listed r) (sym e) kept)
          | inr own ↦ inr (own, inl ((list_beq_iff table t).0 same))
        ]),
      )
      by_table false other e =
          ((λ h. subst (Listed r) e h), (λ h. inl (subst (Listed r) (sym e) h)))

  one-Spares :
      (table : Text) (d d' : D)
      → o.delete_where table driver.scope_column id d ≡ (returned tt, d')
      → Spares (table ∷ []) d d'
  one-Spares table d d' e t r =
      deleted_rows-Spares table t r (o.rows t d) (o.rows t d')
        (laws.rows-delete_where table driver.scope_column id d d' e t)

  one-Cleared :
      (table : Text) (d d' : D) (r : R)
      → o.delete_where table driver.scope_column id d ≡ (returned tt, d')
      → Listed r (o.rows table d')
      → ¬ IsOwn r
  one-Cleared table d d' r e h =
      let same : (table == table) ≡ true = (list_beq_iff table table).1 refl in
      let left : o.rows table d'
          ≡ filter (λ x. not (holds (o.value driver.scope_column x) id)) (o.rows table d) =
        laws.rows-delete_where table driver.scope_column id d d' e table ∙ rw same refl in
      (kept_iff r).0
        ((Listed-filter (λ x. not (holds (o.value driver.scope_column x) id)) r (o.rows table d)).0
          (subst (Listed r) left h)).1

  Spares-then :
      (table : Text) (tables : List Text) (d d₁ d₂ : D)
      → Spares (table ∷ []) d d₁
      → Spares tables d₁ d₂
      → Spares (table ∷ tables) d d₂
  Spares-then table tables d d₁ d₂ first rest t r = (
    (λ h. (first t r).0 ((rest t r).0 h)),
    (λ h. elim ((first t r).1 h) [
      | inl kept ↦ elim ((rest t r).1 kept) [
        | inl still ↦ inl still
        | inr (own, later) ↦ inr (own, inr later)
      ]
      | inr (own, here) ↦
          inr (own, elim here [ inl same ↦ inl same | inr none_left ↦ elim none_left [ ] ])
    ]),
  )

  Spares-stop :
      (table : Text) (tables : List Text) (d d₁ : D)
      → Spares (table ∷ []) d d₁
      → Spares (table ∷ tables) d d₁
  Spares-stop table tables d d₁ first =
      Spares-then table tables d d₁ d₁ first (Spares-refl tables d₁ d₁ (λ t. refl))

  -- How a deletion of the tenant ends.
  abbrev pub Deleted : List Text → D → Outcome (RowScopeError E) (Unit {0}) × D → Type 0
  Deleted tables d (returned _, d') = Spares tables d d' × Cleared tables d'
  Deleted tables d (thrown e, d') = Spares tables d d'

  and_then-Deleted :
      (table : Text) (tables : List Text) (d d₁ : D)
      (result : Outcome (RowScopeError E) (Unit {0}) × D)
      → o.delete_where table driver.scope_column id d ≡ (returned tt, d₁)
      → Deleted tables d₁ result
      → Deleted (table ∷ tables) d result
  and_then-Deleted table tables d d₁ (thrown e, d') done rest =
      Spares-then table tables d d₁ d' (one-Spares table d d₁ done) rest
  and_then-Deleted table tables d d₁ (returned _, d') done (rest, cleared) = (
    Spares-then table tables d d₁ d' (one-Spares table d d₁ done) rest,
    (λ t r at h. elim at [
      | inl same ↦
          one-Cleared table d d₁ r done
            (subst (λ x. Listed r (o.rows x d₁)) (sym same) ((rest t r).0 h))
      | inr later ↦ cleared t r later h
    ]),
  )

  delete_from-Deleted :
      (tables : List Text) (d : D) → Deleted tables d (delete_from o driver tables id d)
  delete_from-Deleted [] d = (Spares-refl [] d d (λ t. refl), (λ t r none_left. elim none_left [ ]))
  delete_from-Deleted (table ∷ tables) d =
      step (o.delete_where table driver.scope_column id d) refl (delete_from-Deleted tables)
    where
      step :
          (r : Outcome E (Unit {0}) × D)
          → o.delete_where table driver.scope_column id d ≡ r
          → ((d₁ : D) → Deleted tables d₁ (delete_from o driver tables id d₁))
          → Deleted
              (table ∷ tables)
              d
              (((λ (_ : D). relay o driver r) >> delete_from o driver tables id) d)
      step (returned _, d₁) e ih =
          and_then-Deleted table tables d d₁ (delete_from o driver tables id d₁) e (ih d₁)
      step (thrown x, d₁) e ih =
          Spares-refl (table ∷ tables) d d₁
            (laws.failed_delete table driver.scope_column id d d₁ x e)

  destroy_checked-Deleted :
      (checked : Outcome IdentifierError (Unit {0})) (d : D)
      → Deleted driver.scoped_tables d (destroy_checked o driver id checked d)
  destroy_checked-Deleted (returned _) d = delete_from-Deleted driver.scoped_tables d
  destroy_checked-Deleted (thrown e) d = Spares-refl driver.scoped_tables d d (λ t. refl)

  destroy_in-Deleted :
      (tables : List Text) (d : D)
      → driver.scoped_tables ≡ tables
      → Deleted tables d (destroy_in o driver tables id d)
  destroy_in-Deleted [] d e =
      (Spares-refl [] d d (λ t. refl), (λ t r none_left. elim none_left [ ]))
  destroy_in-Deleted (table ∷ tables) d e =
      subst (λ ts. Deleted ts d (destroy_checked o driver id (assert_safe_identifier id) d)) e
        (destroy_checked-Deleted (assert_safe_identifier id) d)

  -- The deletion of a tenant, whether it returns or throws at some table, adds no row and takes none
  -- but rows of that tenant in the scoped tables; where it returns, none of them is left there. With
  -- the data kept it does nothing.
  pub destroy-Deleted :
      (d : D)
      → Deleted driver.scoped_tables d (destroy o driver id false d)
        × (destroy o driver id true d ≡ (returned tt, d))
  unfolding destroy
  destroy-Deleted d = (destroy_in-Deleted driver.scoped_tables d refl, refl)
