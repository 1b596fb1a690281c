-- ===== src/Reconciliation/Laws/AppliesDelta.antt =====
-- `apply_delta` keeps every relation that has the laws.
use infra_twin.Prelude.{ℕ, Bool, Option, none, some, List}
use infra_twin.Float.{Float}
use infra_twin.Model.{Ci, Edge, EdgeType}
use infra_twin.Db.Connectors.{Connector}
use infra_twin.Db.Tx.Steps.{Steps, Steps-pure, Steps-gets, Steps-bind, Steps-fold}
use infra_twin.Reconciliation.Events.{ConnectorDelta, DiscoveredEdge, CiRef, EdgeEndpointRef}
use infra_twin.Reconciliation.Tables.{Tables}
use infra_twin.Reconciliation.Resolve.{Keyed}
use infra_twin.Reconciliation.Delta.{
  apply_between, apply_edge, remove_ci, remove_between, remove_edge, apply_for, apply_delta,
}
use infra_twin.Reconciliation.Laws.{TableLaws, RunLaws}
use infra_twin.Reconciliation.Laws.Reconciles.{step_rules, observe_cis-Steps, store_edge-Steps}

module _ {W J : Type 0} ⦃f : Float W⦄ (same_json : J → J → Bool) (draw : ℕ → ℕ) (tenant now : ℕ)
    (R : Tables W J → Tables W J → Type 0) (laws : TableLaws same_json draw tenant now R) where
  apply_between-Steps :
      (edges : List (Edge W)) (de : DiscoveredEdge W) (o : Option (ℕ × ℕ))
      → Steps R (apply_between draw tenant now edges de o)
  unfolding apply_between
  apply_between-Steps edges de none = search step_rules
  apply_between-Steps edges de (some (from_id, to_id)) =
      search (step_rules, laws.preorder, store_edge-Steps same_json draw tenant now R laws)

  apply_edge-Steps :
      (m : Keyed) (edges : List (Edge W)) (de : DiscoveredEdge W)
      → Steps R (apply_edge draw tenant now m edges de)
  unfolding apply_edge
  apply_edge-Steps m edges de = search (step_rules, laws.preorder, apply_between-Steps)

  remove_ci-Steps :
      (closed : List (Ci W J)) (ref : CiRef) → Steps R (remove_ci tenant now closed ref)
  unfolding remove_ci
  remove_ci-Steps closed ref = search (step_rules, laws.preorder, laws.ends_ci)

  remove_between-Steps :
      (closed : List (Edge W)) (type : EdgeType) (o : Option (ℕ × ℕ))
      → Steps R (remove_between tenant now closed type o)
  unfolding remove_between
  remove_between-Steps closed type none = search (step_rules, laws.preorder)
  remove_between-Steps closed type (some (from_id, to_id)) =
      search (step_rules, laws.preorder, laws.ends_edge)

  remove_edge-Steps :
      (m : Keyed) (closed : List (Edge W)) (ref : EdgeEndpointRef)
      → Steps R (remove_edge tenant now m closed ref)
  unfolding remove_edge
  remove_edge-Steps m closed ref = search (step_rules, laws.preorder, remove_between-Steps)

module _ {W J : Type 0} ⦃f : Float W⦄ (same_json : J → J → Bool) (draw : ℕ → ℕ) (tenant now : ℕ)
    (R : Tables W J → Tables W J → Type 0) (laws : TableLaws same_json draw tenant now R)
    (run_laws : RunLaws R) where
  apply_for-Steps :
      (connector_id : ℕ) (delta : ConnectorDelta W J) (observed_at : ℕ) (o : Option (Connector J))
      → Steps R (apply_for same_json draw tenant now connector_id delta observed_at o)
  unfolding apply_for
  apply_for-Steps connector_id delta observed_at none = search step_rules
  apply_for-Steps connector_id delta observed_at (some registered) =
      let p = laws.preorder in
      Steps-bind p _ _ laws.draws λ run_id. Steps-bind p _ _ (run_laws.runs _) λ _.
        Steps-bind p _ _ (run_laws.facts _) λ _.
          Steps-bind p _ _ (observe_cis-Steps same_json draw tenant now R laws registered.type _)
            λ b.
              Steps-bind p _ _
                (Steps-fold p _ (apply_edge-Steps same_json draw tenant now R laws b.id_by_key) _ _)
                λ edges.
                  Steps-bind p _ _
                    (Steps-fold p _ (remove_ci-Steps same_json draw tenant now R laws) _ _)
                    λ closed_cis.
                      Steps-bind p _ _
                        (Steps-fold p _
                          (remove_edge-Steps same_json draw tenant now R laws b.id_by_key) _ _)
                        λ closed_edges.
                          Steps-bind p _ _ (run_laws.runs _)
                            λ _. Steps-bind p _ _ (laws.projects _ _ _ _) λ _. Steps-pure p _

  -- Every relation that the statements keep holds between the tables before and after an
  -- `apply_delta` that succeeds.
  pub apply_delta-Steps :
      (connector_id : ℕ) (delta : ConnectorDelta W J) (observed_at : ℕ)
      → Steps R (apply_delta same_json draw tenant now connector_id delta observed_at)
  unfolding apply_delta
  apply_delta-Steps connector_id delta observed_at =
      Steps-bind laws.preorder _ _ (Steps-gets laws.preorder _)
        (apply_for-Steps connector_id delta observed_at)
