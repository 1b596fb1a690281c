-- ===== src/Reconciliation/Laws/Reconciles.antt =====
-- `reconcile` keeps every relation that has the laws.
use infra_twin.Prelude.{ℕ, Bool, Option, none, some, String, List, gather}
use infra_twin.Float.{Float}
use infra_twin.Model.{Ci, CiType, EdgeType}
use infra_twin.Db.Tx.Steps.{
  Steps, Steps-pure, Steps-raise, Steps-gets, Steps-if, Steps-option, Steps-bind, Steps-fold,
}
use infra_twin.Reconciliation.Events.{as_ci, DiscoveryEvent, DiscoveredCi, DiscoveredEdge}
use infra_twin.Reconciliation.Tables.{Tables}
use infra_twin.Reconciliation.Resolve.{Keyed}
use infra_twin.Reconciliation.Observe.{
  CiBatch, store_ci, observe_known, observe_merged, observe_new, observe_unknown, observe_found,
  observe_ci, observe_cis,
}
use infra_twin.Reconciliation.Reconcile.{
  close_unseen, close_type, close_cis, store_edge, EdgeBatch, EdgeKey, observe_between,
  observe_edge, close_unseen_edge, close_edges, reconcile,
}
use infra_twin.Reconciliation.Laws.{TableLaws}

pub ruleset step_rules =
    (Steps-pure, Steps-raise, Steps-gets, Steps-if, Steps-option, Steps-bind, Steps-fold)

module _ {W J : Type 0} ⦃f : Float W⦄ (same_json : J → J → Bool) (draw : ℕ → ℕ) (tenant now : ℕ)
    (R : Tables W J → Tables W J → Type 0) (laws : TableLaws same_json draw tenant now R)
    (source : String) where
  store_ci-Steps :
      (ci : Ci W J) (dci : DiscoveredCi J)
      → Steps R (store_ci same_json draw tenant now source ci dci)
  unfolding store_ci
  store_ci-Steps ci dci =
      search (step_rules, laws.preorder, laws.writes_ci, laws.binds, laws.registers)

  observe_known-Steps :
      (b : CiBatch W J) (dci : DiscoveredCi J) (existing : Ci W J)
      → Steps R (observe_known same_json draw tenant now source b dci existing)
  unfolding observe_known
  observe_known-Steps b dci existing =
      Steps-bind laws.preorder _ _ laws.draws λ id.
        Steps-bind laws.preorder _ _ (store_ci-Steps _ dci) λ stored. Steps-pure laws.preorder _

  observe_merged-Steps :
      (b : CiBatch W J) (dci : DiscoveredCi J) (canonical : Ci W J) (key : String)
      → Steps R (observe_merged same_json draw tenant now source b dci canonical key)
  unfolding observe_merged
  observe_merged-Steps b dci canonical key =
      search (step_rules, laws.preorder, laws.writes_ci, laws.binds, laws.registers, laws.merges)

  observe_new-Steps :
      (b : CiBatch W J) (dci : DiscoveredCi J)
      → Steps R (observe_new same_json draw tenant now source b dci)
  unfolding observe_new
  observe_new-Steps b dci =
      Steps-bind laws.preorder _ _ laws.draws λ id.
        Steps-bind laws.preorder _ _ (store_ci-Steps _ dci) λ stored. Steps-pure laws.preorder _

  observe_unknown-Steps :
      (b : CiBatch W J) (dci : DiscoveredCi J) (o : Option (Ci W J × String))
      → Steps R (observe_unknown same_json draw tenant now source b dci o)
  unfolding observe_unknown
  observe_unknown-Steps b dci none = observe_new-Steps b dci
  observe_unknown-Steps b dci (some (canonical, key)) = observe_merged-Steps b dci canonical key

  observe_found-Steps :
      (b : CiBatch W J) (dci : DiscoveredCi J) (o : Option (Ci W J))
      → Steps R (observe_found same_json draw tenant now source b dci o)
  unfolding observe_found
  observe_found-Steps b dci (some existing) = observe_known-Steps b dci existing
  observe_found-Steps b dci none = search (step_rules, laws.preorder, observe_unknown-Steps)

  pub observe_cis-Steps :
      (cis : List (DiscoveredCi J)) → Steps R (observe_cis same_json draw tenant now source cis)
  unfolding observe_cis observe_ci
  observe_cis-Steps cis = search (step_rules, laws.preorder, observe_found-Steps)

module _ {W J : Type 0} ⦃f : Float W⦄ (same_json : J → J → Bool) (draw : ℕ → ℕ) (tenant now : ℕ)
    (R : Tables W J → Tables W J → Type 0) (laws : TableLaws same_json draw tenant now R) where
  pub close_cis-Steps :
      (seen : List (CiType × String)) (owned : List ℕ) (ci_types : List CiType)
      → Steps R (close_cis tenant now seen owned ci_types)
  unfolding close_cis close_type close_unseen
  close_cis-Steps seen owned ci_types = search (step_rules, laws.preorder, laws.ends_ci) depth 12

  pub store_edge-Steps :
      (de : DiscoveredEdge W) (from_id to_id : ℕ)
      → Steps R (store_edge draw tenant now de from_id to_id)
  unfolding store_edge
  store_edge-Steps de from_id to_id =
      search (step_rules, laws.preorder, laws.draws, laws.writes_edge)

  observe_between-Steps :
      (b : EdgeBatch W) (de : DiscoveredEdge W) (o : Option (ℕ × ℕ))
      → Steps R (observe_between draw tenant now b de o)
  unfolding observe_between
  observe_between-Steps b de none = search (step_rules, laws.preorder)
  observe_between-Steps b de (some (from_id, to_id)) =
      search (step_rules, laws.preorder, store_edge-Steps)

  observe_edge-Steps :
      (m : Keyed) (b : EdgeBatch W) (de : DiscoveredEdge W)
      → Steps R (observe_edge draw tenant now m b de)
  unfolding observe_edge
  observe_edge-Steps m b de = search (step_rules, laws.preorder, observe_between-Steps)

  close_edges-Steps :
      (edge_types : List EdgeType) (seen : List EdgeKey)
      → Steps R (close_edges tenant now edge_types seen)
  unfolding close_edges close_unseen_edge
  close_edges-Steps edge_types seen = search (step_rules, laws.preorder, laws.ends_edge)

  -- Every relation that the statements keep holds between the tables before and after a `reconcile`
  -- that succeeds.
  pub reconcile-Steps :
      (events : List (DiscoveryEvent W J)) (source : String) (ci_types : List CiType)
      (edge_types : List EdgeType)
      → Steps R (reconcile same_json draw tenant now events source ci_types edge_types)
  unfolding reconcile
  reconcile-Steps events source ci_types edge_types =
      Steps-bind laws.preorder _ _
        (observe_cis-Steps same_json draw tenant now R laws source (gather as_ci events))
        λ b. Steps-bind laws.preorder _ _ (Steps-gets laws.preorder _) λ owned.
          Steps-bind laws.preorder _ _ (close_cis-Steps _ owned ci_types) λ closed_cis.
            Steps-bind laws.preorder _ _
              (Steps-fold laws.preorder _ (observe_edge-Steps b.id_by_key) _ _)
              λ e.
                Steps-bind laws.preorder _ _ (close_edges-Steps edge_types _)
                  λ closed_edges. search (step_rules, laws.preorder, laws.projects)
