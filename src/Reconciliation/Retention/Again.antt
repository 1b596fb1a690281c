-- ===== src/Reconciliation/Retention/Again.antt =====
-- A sweep after a sweep.
use infra_twin.Prelude.{
  ℕ, ◌≡◌, ◌∙◌, inl, inr, true, false, List, [], ◌∷◌, List-cases, Memᴰ, foldl, arith, refl, sym,
  subst,
}
use infra_twin.Db.{is_open}
use infra_twin.Db.Policies.{HistoryAggregate}
use infra_twin.Reconciliation.Retention.{
  VersionRow, Columns, Sweep, closed_versions, collapsible, fetched, entity_versions, count_entity,
  collapse, sweep_entity, sweep_kind, entity_ids, is_expired, RetentionKindReport,
}
use infra_twin.Reconciliation.Retention.Boundary.{mem-collapsible, mem-closed_versions}
use infra_twin.Reconciliation.Retention.Deleted.{IsKeyed, Superseded, sweep_kind_exact}

-- The counters leave what was collapsed and written alone.
pub count_entity-keeps :
    (horizon : ℕ) (versions : List VersionRow) (report : RetentionKindReport)
    → ((count_entity horizon versions report).versions_collapsed ≡ report.versions_collapsed)
      × ((count_entity horizon versions report).aggregates_written ≡ report.aggregates_written)
unfolding count_entity
count_entity-keeps horizon versions report = elim (List-cases (closed_versions versions)) [
  | inl e ↦ rw (e, count_entity) (refl, refl)
  | inr (c, cs, e) ↦ rw (e, count_entity) (refl, refl)
]

module _ {A : Type 0} (cols : Columns A) (tenant_id horizon : ℕ) where
  -- Two states that agree on all but the counters of what is retained.
  abbrev IsQuiet : Sweep A → Sweep A → Type 0
  IsQuiet s t =
      (s.table ≡ t.table)
      × (s.aggregates ≡ t.aggregates)
      × (s.report.versions_collapsed ≡ t.report.versions_collapsed)
      × (s.report.aggregates_written ≡ t.report.aggregates_written)

  abbrev behind : List VersionRow → ℕ → List VersionRow
  behind rows e = collapsible horizon (closed_versions (entity_versions rows e))

  sweep_entity-IsQuiet :
      (rows : List VersionRow) (s : Sweep A) (e : ℕ)
      → behind rows e ≡ []
      → IsQuiet (sweep_entity cols tenant_id horizon rows s e) s
  unfolding sweep_entity collapse
  sweep_entity-IsQuiet rows s e none_behind =
      let (p, q) = count_entity-keeps horizon (entity_versions rows e) s.report in
      rw (none_behind, sweep_entity, collapse) (refl, refl, p, q)

  fold-IsQuiet :
      (rows : List VersionRow)
      → ((e : ℕ) → behind rows e ≡ [])
      → (ids : List ℕ) (s : Sweep A)
      → IsQuiet (foldl (sweep_entity cols tenant_id horizon rows) s ids) s
  fold-IsQuiet rows none_behind [] s = (refl, refl, refl, refl)
  fold-IsQuiet rows none_behind (e ∷ ids) s =
      let step = sweep_entity cols tenant_id horizon rows s e in
      let (a, b, c, d) = fold-IsQuiet rows none_behind ids step in
      let (a', b', c', d') = sweep_entity-IsQuiet rows s e (none_behind e) in
      (a ∙ a', b ∙ b', c ∙ c', d ∙ d')

  nothing_behind :
      (table : List A)
      → ((r : A) → Memᴰ r table → ¬ Superseded cols tenant_id horizon table r)
      → (e : ℕ) → behind (fetched cols tenant_id table) e ≡ []
  nothing_behind table kept e = elim (List-cases (behind (fetched cols tenant_id table) e)) [
    | inl p ↦ p
    | inr (w, ws, p) ↦
        let i : Memᴰ w (behind (fetched cols tenant_id table) e) =
          subst (Memᴰ w) (sym p) (Memᴰ.head refl) in
        let (j, expired, (c, k, lt)) = (mem-collapsible horizon _ w).0 i in
        let (a, m1, own1, ew, ew_id, _) = (mem-closed_versions cols tenant_id table e w).0 j in
        let (b, m2, own2, ec, ec_id, closed) = (mem-closed_versions cols tenant_id table e c).0 k in
        absurd (
          kept a m1 (
            own1,
            subst (λ (w : VersionRow). is_expired horizon w ≡ true) ew expired,
            (
              b,
              m2,
              own2,
              grind arith,
              subst (λ (c : VersionRow). is_open c.valid_to ≡ false) ec closed,
              grind arith,
            ),
          ))
  ]

  -- Under the primary key, a second sweep with the same horizon changes nothing: it deletes no row,
  -- writes no aggregate and counts none.
  pub sweep_kind_again :
      (table : List A) (aggregates : List HistoryAggregate)
      → IsKeyed cols tenant_id table
      → let first = sweep_kind cols tenant_id horizon table aggregates in
        let again = sweep_kind cols tenant_id horizon first.table first.aggregates in
        (again.table ≡ first.table)
        × (again.aggregates ≡ first.aggregates)
        × (again.report.versions_collapsed ≡ 0)
        × (again.report.aggregates_written ≡ 0)
  unfolding sweep_kind
  sweep_kind_again table aggregates key =
      let first = sweep_kind cols tenant_id horizon table aggregates in
      let exact = sweep_kind_exact cols tenant_id horizon table key aggregates in
      fold-IsQuiet (fetched cols tenant_id first.table)
        (nothing_behind first.table (λ r m h.
          let (own, expired, (c, i, own2, same, closed, lt)) = h in
          let (m1, kept) = (exact r).0 m in
          kept (own, expired, (c, ((exact c).0 i).0, own2, same, closed, lt))))
        (entity_ids (fetched cols tenant_id first.table)) _
