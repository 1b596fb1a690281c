-- ===== src/Reconciliation/Retention/Swept.antt =====
-- What a whole sweep leaves in the tables, and what its counters say.
use infra_twin.Prelude.{
  ℕ, ◌+◌, ◌-◌, ◌*◌, ◌≡◌, ◌↔◌, true, false, some, List, [], ◌∷◌, ◌++◌, Memᴰ, foldl, length,
  length-append, ltb, arith, refl, sym, ◌∙◌, subst, Option-cases, Bool, select, mem-select, inl,
  inr, Bool-cases,
}
use infra_twin.Model.{Ci, Edge}
use infra_twin.Db.{is_open}
use infra_twin.Db.Policies.{RetentionPolicy, HistoryAggregate, get_policy}
use infra_twin.Confidence.{day}
use infra_twin.Reconciliation.Retention.{
  VersionRow, Columns, Sweep, fetched, entity_versions, is_expired, collapse, sweep_entity,
  sweep_kind, entity_ids, Store, RetentionReport, not_swept, sweep_tables, sweep_history,
  ci_columns, edge_columns, rollup,
}
use infra_twin.Reconciliation.Retention.Deleted.{IsKeyed, Superseded, sweep_kind_exact}
use infra_twin.Reconciliation.Retention.Again.{count_entity-keeps}

-- The number of versions that aggregates stand for.
abbrev pub total_count : List HistoryAggregate → ℕ
total_count [] = 0
total_count (a ∷ as_) = a.version_count + total_count as_

total_count-append :
    (as_ bs : List HistoryAggregate) → total_count (as_ ++ bs) ≡ total_count as_ + total_count bs
total_count-append [] bs = omega arith
total_count-append (a ∷ as_) bs = omega (arith, total_count-append as_ bs)

module _ {A : Type 0} (cols : Columns A) (tenant_id horizon : ℕ) where
  -- The counters of a state account for the aggregates it has beyond those of the start.
  abbrev IsCounted : List HistoryAggregate → Sweep A → Type 0
  IsCounted before s =
      (total_count s.aggregates ≡ total_count before + s.report.versions_collapsed)
      × (length s.aggregates ≡ length before + s.report.aggregates_written)

  collapse-IsCounted :
      (before : List HistoryAggregate) (e : ℕ) (vs : List VersionRow) (s : Sweep A)
      → IsCounted before s
      → IsCounted before (collapse cols tenant_id e vs s)
  unfolding collapse rollup
  collapse-IsCounted before e [] s h = h
  collapse-IsCounted before e (v ∷ vs) s h =
      let a = rollup tenant_id cols.kind e v vs in
      (
        omega (arith, h.0, total_count-append s.aggregates (a ∷ [])),
        omega (arith, h.1, length-append s.aggregates (a ∷ [])),
      )

  sweep_entity-IsCounted :
      (before : List HistoryAggregate) (rows : List VersionRow) (s : Sweep A) (e : ℕ)
      → IsCounted before s
      → IsCounted before (sweep_entity cols tenant_id horizon rows s e)
  unfolding sweep_entity
  sweep_entity-IsCounted before rows s e h =
      let (p, q) = count_entity-keeps horizon (entity_versions rows e) s.report in
      collapse-IsCounted before e _ _ (omega (arith, h.0, p), omega (arith, h.1, q))

  fold-IsCounted :
      (before : List HistoryAggregate) (rows : List VersionRow) (ids : List ℕ) (s : Sweep A)
      → IsCounted before s
      → IsCounted before (foldl (sweep_entity cols tenant_id horizon rows) s ids)
  fold-IsCounted before rows [] s h = h
  fold-IsCounted before rows (e ∷ ids) s h =
      fold-IsCounted before rows ids _ (sweep_entity-IsCounted before rows s e h)

  -- The counters of a sweep are the number of aggregates it appends and the number of versions for
  -- which these stand.
  pub sweep_kind_counts :
      (table : List A) (aggregates : List HistoryAggregate)
      → let s = sweep_kind cols tenant_id horizon table aggregates in
        (total_count s.aggregates ≡ total_count aggregates + s.report.versions_collapsed)
        × (length s.aggregates ≡ length aggregates + s.report.aggregates_written)
  unfolding sweep_kind
  sweep_kind_counts table aggregates =
      let rows = fetched cols tenant_id table in
      fold-IsCounted aggregates rows (entity_ids rows) _ (omega arith, omega arith)

open_not_expired :
    (horizon : ℕ) (v : VersionRow) → is_open v.valid_to ≡ true → ¬ (is_expired horizon v ≡ true)
unfolding is_expired
open_not_expired horizon v e h = ground arith

-- The open rows of a table, where exactly the superseded ones were removed.
open_rows :
    {A : Type 0} (cols : Columns A) (tenant_id horizon : ℕ) (test : A → Bool) (table after : List A)
    → ((r : A) → Memᴰ r after ↔ (Memᴰ r table × ¬ Superseded cols tenant_id horizon table r))
    → ((r : A) → test r ≡ true → is_open (cols.detail r).valid_to ≡ true)
    → (r : A) → Memᴰ r (select test after) ↔ Memᴰ r (select test table)
open_rows cols tenant_id horizon test table after exact opens r = (
  λ m.
      let (i, t) = (mem-select test after r).0 m in
      (mem-select test table r).1 (((exact r).0 i).0, t),
  λ m.
      let (i, t) = (mem-select test table r).0 m in
      (mem-select test after r).1
        ((exact r).1 (i, λ h. open_not_expired _ (cols.detail r) (opens r t) h.1), t),
)

-- the rows that are current
abbrev pub open_cis : {W J : Type 0} → List (Ci W J) → List (Ci W J)
open_cis cis = select (λ c. is_open c.valid_to) cis

abbrev pub open_edges : {W : Type 0} → List (Edge W) → List (Edge W)
open_edges edges = select (λ e. is_open e.valid_to) edges

module _ {W J : Type 0} (tenant_id now fresh started : ℕ) (store : Store W J) where
  -- With an enabled policy and a horizon that is a date, the sweep succeeds, and under the primary
  -- keys it leaves exactly the CI and edge rows that are not superseded at the horizon.
  pub sweep_history_exact :
      (p : RetentionPolicy)
      → get_policy tenant_id store.policies ≡ some p
      → p.enabled ≡ true
      → ltb now (p.retain_closed_days * day) ≡ false
      → IsKeyed ci_columns tenant_id store.cis
      → IsKeyed edge_columns tenant_id store.edges
      → (report : RetentionReport) × (after : Store W J) × (sweep_history tenant_id now fresh
            started store
          ≡ some (report, after))
        × ((r : Ci W J)
            → Memᴰ r after.cis ↔ (
                Memᴰ r store.cis
                × ¬ Superseded ci_columns tenant_id (now - p.retain_closed_days * day) store.cis r))
        × ((r : Edge W)
            → Memᴰ r after.edges ↔ (
                Memᴰ r store.edges
                × ¬ Superseded edge_columns tenant_id
                    (now - p.retain_closed_days * day)
                    store.edges
                    r))
  unfolding sweep_history sweep_tables
  sweep_history_exact p found on late key_cis key_edges =
      let horizon = now - p.retain_closed_days * day in
      let result = sweep_tables tenant_id horizon fresh started store in
      (
        result.0,
        result.1,
        rw (found, on, late, sweep_history) refl,
        sweep_kind_exact ci_columns tenant_id horizon store.cis key_cis store.aggregates,
        sweep_kind_exact edge_columns tenant_id horizon store.edges key_edges _,
      )

  -- Under the primary keys, a sweep that succeeds leaves the open CI rows as they were, and the open
  -- edge rows: none is removed and none is new.
  pub sweep_history_safe :
      (report : RetentionReport) (after : Store W J)
      → sweep_history tenant_id now fresh started store ≡ some (report, after)
      → IsKeyed ci_columns tenant_id store.cis
      → IsKeyed edge_columns tenant_id store.edges
      → ((c : Ci W J) → Memᴰ c (open_cis after.cis) ↔ Memᴰ c (open_cis store.cis))
        × ((e : Edge W) → Memᴰ e (open_edges after.edges) ↔ Memᴰ e (open_edges store.edges))
  unfolding sweep_history
  sweep_history_safe report after done key_cis key_edges =
      elim (Option-cases (get_policy tenant_id store.policies)) [
        | inl none_found ↦
            unswept (out (not_swept tenant_id, store) (rw (none_found, sweep_history) at done))
        | inr (p, found) ↦ elim (Bool-cases p.enabled) [
          | inr off ↦
              unswept (out (not_swept tenant_id, store) (rw (found, off, sweep_history) at done))
          | inl on ↦ elim (Bool-cases (ltb now (p.retain_closed_days * day))) [
            | inl early ↦ let never = rw (found, on, early, sweep_history) at done in absurd cc
            | inr late ↦
                let (report2, after2, ran, cis, edges) =
                  sweep_history_exact p found on late key_cis key_edges in
                let same = out (report2, after2) (sym ran ∙ done) in
                (
                  λ c.
                      open_rows ci_columns tenant_id (now - p.retain_closed_days * day) _ store.cis
                        after.cis
                        (subst
                          (λ (t : Store W J).
                            (r : Ci W J)
                            → Memᴰ r t.cis ↔ (
                                Memᴰ r store.cis
                                × ¬ Superseded ci_columns tenant_id
                                    (now - p.retain_closed_days * day) store.cis r))
                          same cis)
                        (λ r t. t) c,
                  λ e.
                      open_rows edge_columns tenant_id (now - p.retain_closed_days * day) _
                        store.edges after.edges
                        (subst
                          (λ (t : Store W J).
                            (r : Edge W)
                            → Memᴰ r t.edges ↔ (
                                Memᴰ r store.edges
                                × ¬ Superseded edge_columns tenant_id
                                    (now - p.retain_closed_days * day) store.edges r))
                          same edges)
                        (λ r t. t) e,
                )
          ]
        ]
      ]
    where
      out : (q : RetentionReport × Store W J) → some q ≡ some (report, after) → q.1 ≡ after
      out q h = ground arith

      unswept :
          store ≡ after
          → ((c : Ci W J) → Memᴰ c (open_cis after.cis) ↔ Memᴰ c (open_cis store.cis))
            × ((e : Edge W) → Memᴰ e (open_edges after.edges) ↔ Memᴰ e (open_edges store.edges))
      unswept same = (
        λ c. (
          subst (λ (t : Store W J). Memᴰ c (open_cis t.cis)) (sym same),
          subst (λ (t : Store W J). Memᴰ c (open_cis t.cis)) same,
        ),
        λ e. (
          subst (λ (t : Store W J). Memᴰ e (open_edges t.edges)) (sym same),
          subst (λ (t : Store W J). Memᴰ e (open_edges t.edges)) same,
        ),
      )
