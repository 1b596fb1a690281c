-- ===== src/Reconciliation/Kept.antt =====
-- What `reconcile` and `apply_delta` leave of the past, of other tenants and of the stored rows.
use infra_twin.Prelude.{ℕ, ◌<◌, ◌≡◌, Bool, Option, String, List}
use infra_twin.Float.{Float}
use infra_twin.Model.{CiType, EdgeType}
use infra_twin.Db.Tx.{done}
use infra_twin.Reconciliation.Events.{DiscoveryEvent, ConnectorDelta}
use infra_twin.Reconciliation.Tables.{Tables}
use infra_twin.Reconciliation.Reconcile.{ReconcileResult, reconcile}
use infra_twin.Reconciliation.Delta.{DeltaResult, apply_delta}
use infra_twin.Reconciliation.Laws.Reconciles.{reconcile-Steps}
use infra_twin.Reconciliation.Laws.AppliesDelta.{apply_delta-Steps}
use infra_twin.Reconciliation.Unmerge.{UnmergeOutcome, unmerge}
use infra_twin.Reconciliation.Laws.Merges.{unmerge-Steps}
use infra_twin.Reconciliation.Laws.Past.{
  SamePast, SamePast-TableLaws, SamePast-RunLaws, SamePast-MergeLaws,
}
use infra_twin.Reconciliation.Laws.Isolation.{
  Isolated, Isolated-TableLaws, Isolated-RunLaws, Isolated-MergeLaws,
}
use infra_twin.Reconciliation.Laws.Growth.{Grown, Grown-TableLaws, Grown-RunLaws, Grown-MergeLaws}

module _ {W J : Type 0} ⦃f : Float W⦄ (same_json : J → J → Bool) (draw : ℕ → ℕ) (tenant now : ℕ)
    (events : List (DiscoveryEvent W J)) (source : String) (ci_types : List CiType)
    (edge_types : List EdgeType) (s t : Tables W J) (result : ReconcileResult)
    (success : reconcile same_json draw tenant now events source ci_types edge_types s
      ≡ done result t) where
  -- A `reconcile` that succeeds leaves what a time before the transaction sees of the tenant's CIs,
  -- of any type, and edges, but for the columns `valid_to` and `last_seen`.
  pub reconcile_past : (ts : ℕ) (type : Option CiType) → ts < now → SamePast tenant ts type s t
  reconcile_past ts type past =
      (reconcile-Steps same_json draw tenant now _
          (SamePast-TableLaws tenant now ts type past same_json draw) events source ci_types
          edge_types).between
        s result t success

  -- A `reconcile` that succeeds leaves the rows of other tenants in the tables of CIs, edges, source
  -- keys, alias keys and merges.
  pub reconcile_isolated : Isolated tenant s t
  reconcile_isolated =
      (reconcile-Steps same_json draw tenant now _ (Isolated-TableLaws tenant now same_json draw)
          events source ci_types edge_types).between
        s result t success

  -- A `reconcile` that succeeds loses no row of the CIs and the edges, rewrites none but in the
  -- columns `valid_to` and `last_seen`, leaves every closed row as it was, and only appends merges.
  pub reconcile_grows : Grown s t
  reconcile_grows =
      (reconcile-Steps same_json draw tenant now _ (Grown-TableLaws tenant now same_json draw)
          events source ci_types edge_types).between
        s result t success

-- An `apply_delta` that succeeds leaves what a time before the transaction sees of the tenant, but
-- for the columns `valid_to` and `last_seen`, leaves the rows of other tenants in the tables of
-- CIs, edges, source keys, alias keys and merges, and loses no row of the CIs and the edges and
-- rewrites none, but for these columns of open rows; the merges are only appended to.
pub apply_delta_kept :
    {W J : Type 0} ⦃f : Float W⦄ (same_json : J → J → Bool) (draw : ℕ → ℕ) (tenant now ts : ℕ)
    (type : Option CiType) (connector_id : ℕ) (delta : ConnectorDelta W J) (observed_at : ℕ)
    (s t : Tables W J) (result : DeltaResult)
    → ts < now
    → apply_delta same_json draw tenant now connector_id delta observed_at s ≡ done result t
    → SamePast tenant ts type s t × Isolated tenant s t × Grown s t
apply_delta_kept same_json draw tenant now ts type connector_id delta observed_at s t result past
      e =
    (
      (apply_delta-Steps same_json draw tenant now _
            (SamePast-TableLaws tenant now ts type past same_json draw)
            (SamePast-RunLaws tenant ts type) connector_id delta observed_at).between
          s result t e,
      (apply_delta-Steps same_json draw tenant now _ (Isolated-TableLaws tenant now same_json draw)
            (Isolated-RunLaws tenant) connector_id delta observed_at).between
          s result t e,
      (apply_delta-Steps same_json draw tenant now _ (Grown-TableLaws tenant now same_json draw)
            Grown-RunLaws connector_id delta observed_at).between
          s result t e,
    )

-- An `unmerge` that succeeds leaves what a time before the transaction sees of the tenant, but for
-- the columns `valid_to` and `last_seen`, leaves the rows of other tenants in the tables of CIs,
-- edges, source keys, alias keys and merges, and loses no row of the CIs and the edges and rewrites
-- none, but for these columns of open rows; the merges are only appended to.
pub unmerge_kept :
    {W J : Type 0} ⦃f : Float W⦄ (same_json : J → J → Bool) (draw clock : ℕ → ℕ) (tenant now ts : ℕ)
    (type : Option CiType) (empty : J) (merge_id : ℕ) (s t : Tables W J) (outcome : UnmergeOutcome)
    → ts < now
    → unmerge same_json draw clock tenant now empty merge_id s ≡ done outcome t
    → SamePast tenant ts type s t × Isolated tenant s t × Grown s t
unmerge_kept same_json draw clock tenant now ts type empty merge_id s t outcome past e = (
  (unmerge-Steps same_json draw clock tenant now _
        (SamePast-TableLaws tenant now ts type past same_json draw)
        (SamePast-MergeLaws tenant now ts type) empty merge_id).between
      s outcome t e,
  (unmerge-Steps same_json draw clock tenant now _ (Isolated-TableLaws tenant now same_json draw)
        (Isolated-MergeLaws tenant now) empty merge_id).between
      s outcome t e,
  (unmerge-Steps same_json draw clock tenant now _ (Grown-TableLaws tenant now same_json draw)
        (Grown-MergeLaws tenant now) empty merge_id).between
      s outcome t e,
)
