-- ===== src/Reconciliation/Tests.antt =====
-- A sweep of three versions of one CI, and the theorems at it.
mod Batches
mod Merges
use mathlib.Core.List.Memᴰ
use infra_twin.Prelude.{
  ℕ, ◌+◌, ◌-◌, ◌*◌, ◌≡◌, ◌≢◌, ◌↔◌, refl, true, false, Option, none, some, List, [], ◌∷◌, Memᴰ,
  length, arith, sym, String, ap, ◌∙◌, inl, inr,
}
use infra_twin.Model.{Ci, vpc, Edge, contains, declared, inferred}
use infra_twin.Float.Fixed.{Fixed, fixed_float, unit}
use infra_twin.Confidence.{day}
use infra_twin.Db.Policies.{RetentionPolicy, HistoryAggregate, get_policy}
use infra_twin.Db.EdgeRepository.{get_current_edges}
use infra_twin.Reconciliation.Aging.{Aging, age_inferred_edges}
use infra_twin.Reconciliation.Aging.Kept.{inferred_count, age_inferred_edges_counts}
use infra_twin.Reconciliation.Retention.{
  Columns, ci_columns, edge_columns, sweep_kind, Store, RetentionReport, sweep_history, not_swept,
}
use infra_twin.Reconciliation.Retention.Deleted.{IsKeyed, Superseded, sweep_kind_exact}
use infra_twin.Reconciliation.Retention.Again.{sweep_kind_again}
use infra_twin.Reconciliation.Retention.Swept.{
  total_count, sweep_kind_counts, sweep_history_exact, sweep_history_safe, open_cis, open_edges,
}

machinery : Unit {0}
unfolding infra_twin.Prelude.select infra_twin.Prelude.get infra_twin.Prelude.has
    infra_twin.Prelude.Sort.insert infra_twin.Prelude.Sort.sort infra_twin.Model.ci_type_value
    infra_twin.Model.edge_type_value infra_twin.Db.any_of infra_twin.Db.Runs.start_run
    infra_twin.Db.Runs.finish_ok infra_twin.Db.Policies.get_policy infra_twin.Query.Bfs.first_of_key
    infra_twin.Query.Bfs.note infra_twin.Reconciliation.Retention.row_order
    infra_twin.Reconciliation.Retention.closed_versions
    infra_twin.Reconciliation.Retention.boundary_row infra_twin.Reconciliation.Retention.is_expired
    infra_twin.Reconciliation.Retention.collapsible infra_twin.Reconciliation.Retention.insert_text
    infra_twin.Reconciliation.Retention.distinct_texts infra_twin.Reconciliation.Retention.rollup
    infra_twin.Reconciliation.Retention.fetched infra_twin.Reconciliation.Retention.entity_versions
    infra_twin.Reconciliation.Retention.delete_versions infra_twin.Reconciliation.Retention.collapse
    infra_twin.Reconciliation.Retention.count_entity
    infra_twin.Reconciliation.Retention.sweep_entity infra_twin.Reconciliation.Retention.entity_ids
    infra_twin.Reconciliation.Retention.sweep_kind infra_twin.Reconciliation.Retention.sweep_tables
    infra_twin.Reconciliation.Retention.sweep_history infra_twin.Confidence.fmin
    infra_twin.Confidence.fmax infra_twin.Confidence.decay_past
    infra_twin.Confidence.decayed_confidence infra_twin.Prelude.Ints.diff
    infra_twin.Db.CiRepository.has_key infra_twin.Db.EdgeRepository.last_observed_at_of
    infra_twin.Db.EdgeRepository.get_current_edges infra_twin.Db.EdgeRepository.is_current_edge
    infra_twin.Db.EdgeRepository.close_edge_row infra_twin.Db.EdgeRepository.close_edge
    infra_twin.Db.EdgeRepository.write_decayed_version
    infra_twin.Reconciliation.Aging.is_already_decayed
    infra_twin.Reconciliation.Aging.count_untouched infra_twin.Reconciliation.Aging.close_expired
    infra_twin.Reconciliation.Aging.record_decay infra_twin.Reconciliation.Aging.write_decay
    infra_twin.Reconciliation.Aging.decay_edge infra_twin.Reconciliation.Aging.age_by
    infra_twin.Reconciliation.Aging.age_edge infra_twin.Reconciliation.Aging.age_edges
    infra_twin.Reconciliation.Aging.age_inferred_edges
machinery = tt

abbrev version : ℕ → Option ℕ → Ci Fixed (Unit {0})
version from until = record {
  id = 1;
  tenant_id = 7;
  type = vpc;
  external_id = "x";
  name = none;
  attributes = tt;
  confidence = unit;
  first_seen = 10;
  last_seen = from;
  valid_from = from;
  valid_to = until;
}

abbrev edge_row : Edge Fixed
edge_row = record {
  id = 5;
  tenant_id = 7;
  type = contains;
  from_id = 1;
  to_id = 2;
  edge_key = "";
  source = declared;
  confidence = unit;
  evidence = [];
  valid_from = 10;
  valid_to = none;
}

abbrev versions : List (Ci Fixed (Unit {0}))
versions = version 10 (some 20) ∷ version 20 (some 30) ∷ version 30 none ∷ []

abbrev policy : RetentionPolicy
policy = record {
  id = 3;
  tenant_id = 7;
  retain_closed_days = 1;
  enabled = true;
  created_at = 0;
  updated_at = 0;
}

abbrev store : List RetentionPolicy → Store Fixed (Unit {0})
store policies = record {
  cis = versions;
  edges = edge_row ∷ [];
  policies = policies;
  aggregates = [];
  runs = [];
}

module _ {A : Type 0} (cols : Columns A) where
  IsKeyed-cons :
      (tenant : ℕ) (x : A) (table : List A)
      → ((s : A) → Memᴰ s table → (cols.detail x).valid_from ≢ (cols.detail s).valid_from)
      → IsKeyed cols tenant table
      → IsKeyed cols tenant (x ∷ table)
  IsKeyed-cons tenant x table fresh key r s i j p q = elim (Memᴰ.cases_cons i) [
    | inl a ↦ elim (Memᴰ.cases_cons j) [
      | inl b ↦ a ∙ sym b
      | inr k ↦ absurd (fresh s k (ap (λ r. (cols.detail r).valid_from) (sym a) ∙ q))
    ]
    | inr k ↦ elim (Memᴰ.cases_cons j) [
      | inl b ↦ absurd (fresh r k (ap (λ r. (cols.detail r).valid_from) (sym b) ∙ sym q))
      | inr l ↦ key r s k l p q
    ]
  ]

versions-IsKeyed : IsKeyed ci_columns 7 versions
versions-IsKeyed =
    IsKeyed-cons ci_columns 7 (version 10 (some 20)) (version 20 (some 30) ∷ version 30 none ∷ [])
      (λ s m h. elim (Memᴰ.cases_cons m) [
        | inl e ↦ ground arith
        | inr m1 ↦ elim (Memᴰ.cases_cons m1) [ inl e ↦ ground arith | inr m2 ↦ Memᴰ.not-nil m2 ]
      ])
      (IsKeyed-cons ci_columns 7 (version 20 (some 30)) (version 30 none ∷ [])
        (λ s m h. elim (Memᴰ.cases_cons m) [ inl e ↦ ground arith | inr m2 ↦ Memᴰ.not-nil m2 ])
        (IsKeyed-cons ci_columns 7 (version 30 none) [] (λ s m h. Memᴰ.not-nil m)
          (λ r s i. absurd (Memᴰ.not-nil i))))

edges-IsKeyed : IsKeyed edge_columns 7 (edge_row ∷ [])
edges-IsKeyed =
    IsKeyed-cons edge_columns 7 edge_row [] (λ s m h. Memᴰ.not-nil m)
      (λ r s i. absurd (Memᴰ.not-nil i))

-- The first version goes, the last closed one and the open one stay, and one aggregate is written.
swept_versions :
    (sweep_kind ci_columns 7 1000 versions []).table ≡ version 20 (some 30) ∷ version 30 none ∷ []
unfolding machinery
swept_versions = refl

swept_counts :
    ((sweep_kind ci_columns 7 1000 versions []).report.versions_collapsed ≡ 1)
    × ((sweep_kind ci_columns 7 1000 versions []).report.eligible ≡ 2)
    × ((sweep_kind ci_columns 7 1000 versions []).report.retained_current ≡ 1)
unfolding machinery
swept_counts = (refl, refl, refl)

sweep_kind_exact_example :
    Memᴰ (version 10 (some 20)) (sweep_kind ci_columns 7 1000 versions []).table ↔ (
      Memᴰ (version 10 (some 20)) versions
      × ¬ Superseded ci_columns 7 1000 versions (version 10 (some 20)))
sweep_kind_exact_example =
    sweep_kind_exact ci_columns 7 1000 versions versions-IsKeyed [] (version 10 (some 20))

sweep_kind_again_example :
    let first = sweep_kind ci_columns 7 1000 versions [] in
    let again = sweep_kind ci_columns 7 1000 first.table first.aggregates in
    (again.table ≡ first.table)
    × (again.aggregates ≡ first.aggregates)
    × (again.report.versions_collapsed ≡ 0)
    × (again.report.aggregates_written ≡ 0)
sweep_kind_again_example = sweep_kind_again ci_columns 7 1000 versions [] versions-IsKeyed

sweep_kind_counts_example :
    let s = sweep_kind ci_columns 7 1000 versions [] in
    (total_count s.aggregates ≡ 0 + s.report.versions_collapsed)
    × (length s.aggregates ≡ 0 + s.report.aggregates_written)
sweep_kind_counts_example = sweep_kind_counts ci_columns 7 1000 versions []

no_policy : (p : RetentionPolicy) → get_policy 7 (store []).policies ≡ some p → p.enabled ≡ false
unfolding machinery
no_policy p e = cc

policy_found : get_policy 7 (store (policy ∷ [])).policies ≡ some policy
unfolding machinery
policy_found = refl

sweep_history_exact_example :
    (report : RetentionReport) × (after : Store Fixed (Unit {0})) × (sweep_history 7
        (10 * day)
        40
        50
        (store (policy ∷ []))
      ≡ some (report, after))
    × ((r : Ci Fixed (Unit {0}))
        → Memᴰ r after.cis
          ↔ (Memᴰ r versions × ¬ Superseded ci_columns 7 (10 * day - 1 * day) versions r))
    × ((r : Edge Fixed)
        → Memᴰ r after.edges ↔ (
            Memᴰ r (edge_row ∷ [])
            × ¬ Superseded edge_columns 7 (10 * day - 1 * day) (edge_row ∷ []) r))
sweep_history_exact_example =
    sweep_history_exact 7 (10 * day) 40 50 (store (policy ∷ [])) policy policy_found refl refl
      versions-IsKeyed edges-IsKeyed

swept_store :
    (report : RetentionReport) × (after : Store Fixed (Unit {0})) × (sweep_history 7
        (10 * day)
        40
        50
        (store (policy ∷ []))
      ≡ some (report, after))
unfolding machinery
swept_store = (_, _, refl)

sweep_history_safe_example :
    ((c : Ci Fixed (Unit {0})) → Memᴰ c (open_cis swept_store.1.cis) ↔ Memᴰ c (open_cis versions))
    × ((e : Edge Fixed)
        → Memᴰ e (open_edges swept_store.1.edges) ↔ Memᴰ e (open_edges (edge_row ∷ [])))
sweep_history_safe_example =
    sweep_history_safe 7 (10 * day) 40 50 (store (policy ∷ [])) swept_store.0 swept_store.1
      swept_store.2 versions-IsKeyed edges-IsKeyed

-- An edge that was seen once, eight days ago.
abbrev stale : Edge Fixed
stale = record edge_row {
  source = inferred;
  confidence = 600000000000000;
  evidence = record { source = "aws-flowlogs-count"; observed_at = 0; detail = some "1" } ∷ [];
}

abbrev no_sentence : Fixed → Fixed → ℕ → String
no_sentence _ _ _ = ""

aged :
    (s : Aging Fixed) × (age_inferred_edges no_sentence 7 50 (8 * day) (edge_row ∷ stale ∷ [])
      ≡ some s)
unfolding machinery
aged = (_, refl)

aged_once : (aged.0.result.decayed ≡ 1) × (aged.0.result.untouched ≡ 0)
unfolding machinery aged
aged_once = (refl, refl)

age_inferred_edges_counts_example :
    (aged.0.result.decayed + aged.0.result.closed + aged.0.result.untouched
      ≡ inferred_count (get_current_edges 7 none (edge_row ∷ stale ∷ [])))
    × (length aged.0.decayed_edges ≡ aged.0.result.decayed)
    × (length aged.0.closed_edges ≡ aged.0.result.closed)
age_inferred_edges_counts_example =
    age_inferred_edges_counts no_sentence 7 50 (8 * day) (edge_row ∷ stale ∷ []) aged.0 aged.1
