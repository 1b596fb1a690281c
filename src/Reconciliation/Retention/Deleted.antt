-- ===== src/Reconciliation/Retention/Deleted.antt =====
-- The rows that the loop over the entities deletes.
use mathlib.Core.List.Memᴰ
use infra_twin.Prelude.{
  ℕ, ◌<◌, ◌≡◌, ◌↔◌, inl, inr, ⊎_elim, Bool, true, false, not, List, [], ◌∷◌, Memᴰ, Memᴰ-cons,
  mem-select, mem-map, map, foldl, ◌==◌, ==_iff, ◌&&◌, arith, refl, sym, subst, Bool-cases,
  mem-keys, ap, ◌∙◌,
}
use infra_twin.Prelude.Sort.{mem-sort}
use infra_twin.Db.{is_open, any_of}
use infra_twin.Db.Policies.{HistoryAggregate}
use infra_twin.Db.Rows.{any_of-mem}
use infra_twin.Query.Bfs.Keys.{first_of_key-has}
use infra_twin.Reconciliation.Retention.{
  VersionRow, Columns, Sweep, closed_versions, is_expired, collapsible, fetched, entity_versions,
  row_order, delete_versions, collapse, sweep_entity, sweep_kind, entity_ids,
}
use infra_twin.Reconciliation.Retention.Boundary.{mem-collapsible, mem-closed_versions}

mem_of_any_of : (ids : List ℕ) (x : ℕ) → any_of ids x ≡ true → Memᴰ x ids
unfolding any_of
mem_of_any_of [] x h = cc
mem_of_any_of (i ∷ ids) x h = ground (arith, mem_of_any_of ids x, Memᴰ-cons x i ids)

closed_of_expired :
    (horizon : ℕ) (v : VersionRow) → is_expired horizon v ≡ true → is_open v.valid_to ≡ false
unfolding is_expired
closed_of_expired horizon v h = ground arith

module _ {A : Type 0} (cols : Columns A) (tenant_id : ℕ) where
  -- The database's primary key `(id, valid_from)`.
  abbrev pub IsKeyed : List A → Type 0
  IsKeyed table =
      (r s : A)
      → Memᴰ r table
      → Memᴰ s table
      → (cols.detail r).id ≡ (cols.detail s).id
      → (cols.detail r).valid_from ≡ (cols.detail s).valid_from
      → r ≡ s

  -- A row of the tenant that was closed before the horizon and is not the last closed one of its
  -- entity.
  abbrev pub Superseded : ℕ → List A → A → Type 0
  Superseded horizon table r =
      (cols.owner r ≡ tenant_id)
      × (is_expired horizon (cols.detail r) ≡ true)
      × ((c : A) × Memᴰ c table
          × (cols.owner c ≡ tenant_id)
          × ((cols.detail c).id ≡ (cols.detail r).id)
          × (is_open (cols.detail c).valid_to ≡ false)
          × ((cols.detail r).valid_from < (cols.detail c).valid_from))

  abbrev is_hit : ℕ → List ℕ → A → Bool
  is_hit entity_id valid_froms r =
      cols.owner r == tenant_id
      && (cols.detail r).id == entity_id
      && not (is_open (cols.detail r).valid_to)
      && any_of valid_froms (cols.detail r).valid_from

  mem-delete_versions :
      (entity_id : ℕ) (froms : List ℕ) (table : List A) (r : A)
      → Memᴰ r (delete_versions cols tenant_id entity_id froms table)
        ↔ (Memᴰ r table × (is_hit entity_id froms r ≡ false))
  unfolding delete_versions
  mem-delete_versions entity_id froms table r =
      let m = mem-select (λ r. not (is_hit entity_id froms r)) table r in
      (λ i. let (j, p) = m.0 i in (j, flip _ p), λ h. m.1 (h.0, ap not h.1))
    where
      flip : (b : Bool) → not b ≡ true → b ≡ false
      flip b h = ground arith

  mem-collapse :
      (entity_id : ℕ) (vs : List VersionRow) (s : Sweep A) (r : A)
      → Memᴰ r (collapse cols tenant_id entity_id vs s).table
        ↔ (Memᴰ r s.table × (is_hit entity_id (map (λ w. w.valid_from) vs) r ≡ false))
  unfolding collapse any_of
  mem-collapse entity_id [] s r = (λ m. (m, ground arith), λ m. m.0)
  mem-collapse entity_id (v ∷ vs) s r = mem-delete_versions entity_id _ s.table r

  module _ (horizon : ℕ) (rows : List VersionRow) where
    abbrev pub doomed : ℕ → List ℕ
    doomed entity_id =
        map (λ w. w.valid_from)
          (collapsible horizon (closed_versions (entity_versions rows entity_id)))

    mem-sweep_entity :
        (s : Sweep A) (entity_id : ℕ) (r : A)
        → Memᴰ r (sweep_entity cols tenant_id horizon rows s entity_id).table
          ↔ (Memᴰ r s.table × (is_hit entity_id (doomed entity_id) r ≡ false))
    unfolding sweep_entity
    mem-sweep_entity s entity_id r = mem-collapse entity_id _ _ r

    mem-swept :
        (ids : List ℕ) (s : Sweep A) (r : A)
        → Memᴰ r (foldl (sweep_entity cols tenant_id horizon rows) s ids).table
          ↔ (Memᴰ r s.table × ((e : ℕ) → Memᴰ e ids → is_hit e (doomed e) r ≡ false))
    mem-swept [] s r = (λ m. (m, λ e i. absurd (Memᴰ.not-nil i)), λ m. m.0)
    mem-swept (e ∷ ids) s r =
        let later = mem-swept ids (sweep_entity cols tenant_id horizon rows s e) r in
        let now = mem-sweep_entity s e r in
        (
          λ m.
              let (m1, rest) = later.0 m in
              let (m2, first) = now.0 m1 in
              (
                m2,
                λ k i.
                    ⊎_elim (λ p. subst (λ (k : ℕ). is_hit k (doomed k) r ≡ false) (sym p) first)
                      (rest k) (Memᴰ.cases_cons i),
              ),
          λ m. later.1 (now.1 (m.0, m.1 e (Memᴰ.head refl)), λ k i. m.1 k (Memᴰ.tail i)),
        )

  module _ (horizon : ℕ) (table : List A) where
    -- What is deleted for an entity is what the horizon and a later version make superfluous.
    hit-Superseded :
        IsKeyed table
        → (e : ℕ) (r : A) → Memᴰ r table
        → is_hit e (doomed horizon (fetched cols tenant_id table) e) r ≡ true
        → Superseded horizon table r
    hit-Superseded key e r m h =
        let own : cols.owner r ≡ tenant_id = ground arith in
        let same : (cols.detail r).id ≡ e = ground arith in
        let listed : any_of (doomed horizon (fetched cols tenant_id table) e)
              (cols.detail r).valid_from
            ≡ true =
          ground arith in
        let (w, i, from) = (mem-map _ _ _).0 (mem_of_any_of _ _ listed) in
        let (j, expired, (c, k, lt)) = (mem-collapsible horizon _ w).0 i in
        let (a, m1, own1, ew, ew_id, _) = (mem-closed_versions cols tenant_id table e w).0 j in
        let (b, m2, own2, ec, ec_id, closed) = (mem-closed_versions cols tenant_id table e c).0 k in
        let row = key r a m m1 (grind arith) (grind arith) in
        (
          own,
          subst (λ (w : VersionRow). is_expired horizon w ≡ true) (ew ∙ ap cols.detail (sym row))
              expired,
          (
            b,
            m2,
            own2,
            grind arith,
            subst (λ (c : VersionRow). is_open c.valid_to ≡ false) ec closed,
            grind arith,
          ),
        )

    hit_of_Superseded :
        (r : A)
        → Memᴰ r table
        → Superseded horizon table r
        → is_hit
            (cols.detail r).id
            (doomed horizon (fetched cols tenant_id table) (cols.detail r).id)
            r
          ≡ true
    hit_of_Superseded r m h =
        let (own, expired, (c, i, own2, same, closed, lt)) = h in
        let v = cols.detail r in
        let e = v.id in
        let shut = closed_of_expired horizon v expired in
        let here = (mem-closed_versions cols tenant_id table e v).1 (r, m, own, refl, refl, shut) in
        let there =
          (mem-closed_versions cols tenant_id table e (cols.detail c)).1
            (c, i, own2, refl, same, closed) in
        let behind = (mem-collapsible horizon _ v).1 (here, expired, (cols.detail c, there, lt)) in
        let listed =
          any_of-mem _ _ ((mem-map (λ w. w.valid_from) _ v.valid_from).1 (v, behind, refl)) in
        ground arith

    entity_ids-mem :
        (r : A)
        → Memᴰ r table
        → cols.owner r ≡ tenant_id
        → Memᴰ (cols.detail r).id (entity_ids (fetched cols tenant_id table))
    unfolding entity_ids fetched
    entity_ids-mem r m own =
        let m1 = (mem-select (λ r. cols.owner r == tenant_id) table r).1 (m, (==_iff _ _).1 own) in
        let m2 =
          (mem-sort row_order (cols.detail r) _).1 ((mem-map cols.detail _ _).1 (r, m1, refl)) in
        let m3 =
          (mem-map (λ v. (v.id, tt {0})) _ ((cols.detail r).id, tt)).1 (cols.detail r, m2, refl) in
        (mem-keys (cols.detail r).id _).1 (first_of_key-has _ (cols.detail r).id tt m3)

    -- Under the primary key, the sweep of a table leaves exactly the rows that are not superseded.
    pub sweep_kind_exact :
        IsKeyed table
        → (aggregates : List HistoryAggregate) (r : A)
        → Memᴰ r (sweep_kind cols tenant_id horizon table aggregates).table
          ↔ (Memᴰ r table × ¬ Superseded horizon table r)
    unfolding sweep_kind
    sweep_kind_exact key aggregates r =
        let rows = fetched cols tenant_id table in
        let swept = mem-swept horizon rows (entity_ids rows) _ r in
        (
          λ m.
              let (i, none_hit) = swept.0 m in
              (
                i,
                λ h.
                    let hit = hit_of_Superseded r i h in
                    let miss = none_hit (cols.detail r).id (entity_ids-mem r i h.0) in cc,
              ),
          λ h. swept.1 (
            h.0,
            λ e _. elim (Bool-cases (is_hit e (doomed horizon rows e) r)) [
              | inl hit ↦ absurd (h.1 (hit-Superseded key e r h.0 hit))
              | inr miss ↦ miss
            ],
          ),
        )
