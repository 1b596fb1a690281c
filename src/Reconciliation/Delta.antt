-- ===== src/Reconciliation/Delta.antt =====
-- reconciliation/reconcile.py: `apply_delta`, one transaction of the tenant.
use infra_twin.Prelude.{
  ℕ, Bool, true, false, Option, none, some, List, [], ◌∷◌, ◌++◌, map, select, gather, length, ◌==◌,
  ◌&&◌,
}
use infra_twin.Float.{Float}
use infra_twin.Model.{Ci, Edge, EdgeType, same_edge_type}
use infra_twin.Db.Policies.{first_row}
use infra_twin.Db.Runs.{start_run, finish_ok, record_facts}
use infra_twin.Db.Connectors.{Connector, get_connector}
use infra_twin.Db.CiRepository.{get_current}
use infra_twin.Db.EdgeRepository.{get_current_edges}
use infra_twin.Db.Tx.{value_error, Tx, pure, raise, gets, ◌>>=◌, ◌>>◌, fold_tx}
use infra_twin.Reconciliation.Events.{
  ConnectorDelta, DiscoveredEdge, CiRef, EdgeEndpointRef, Payload, removed_ci_fact,
  removed_edge_fact, as_ci, as_edge, event_fact,
}
use infra_twin.Reconciliation.Tables.{
  Tables, draw_id, end_ci, end_edge, write_graph, write_runs, write_facts,
}
use infra_twin.Reconciliation.Resolve.{Keyed, resolve_ref}
use infra_twin.Reconciliation.Observe.{observe_cis}
use infra_twin.Reconciliation.Reconcile.{both, store_edge}

pub record DeltaResult : Type 0 where
  pub cis_created : ℕ
  pub cis_updated : ℕ
  pub cis_unchanged : ℕ
  pub cis_closed : ℕ
  pub edges_written : ℕ
  pub edges_closed : ℕ
  pub connector_run_id : Option ℕ

-- the payloads of step 4
unfoldable pub delta_facts : {W J : Type 0} → ConnectorDelta W J → List (Payload W J)
delta_facts delta =
    map event_fact delta.upserts
    ++ map removed_ci_fact delta.removed_cis
    ++ map removed_edge_fact delta.removed_edges

module _ {W J : Type 0} ⦃f : Float W⦄ (draw : ℕ → ℕ) (tenant now : ℕ) where
  unfoldable pub apply_between :
      List (Edge W) → DiscoveredEdge W → Option (ℕ × ℕ) → Tx (Tables W J) (List (Edge W))
  -- an unresolved endpoint, of either end
  apply_between edges de none = raise value_error
  apply_between edges de (some (from_id, to_id)) = do
    stored ← store_edge draw tenant now de from_id to_id
    pure (edges ++ stored ∷ [])

  -- the body of the loop over the named edges
  unfoldable pub apply_edge :
      Keyed → List (Edge W) → DiscoveredEdge W → Tx (Tables W J) (List (Edge W))
  unfolding apply_between
  apply_edge id_by_key edges de =
      gets (λ s.
        both (resolve_ref tenant id_by_key de.from_ref s)
          (resolve_ref tenant id_by_key de.to_ref s))
      >>= apply_between edges de

-- what was open is listed as closed, where it was found before
abbrev pub with_closed {ℓ} : {A : Type ℓ} → Bool → Option A → List A → List A
with_closed true (some a) closed = closed ++ a ∷ []
with_closed true none closed = closed
with_closed false _ closed = closed

module _ {W : Type 0} (tenant : ℕ) where
  -- the first current edge of the type between the ends, of whichever key
  unfoldable pub matching_edge : EdgeType → ℕ → ℕ → List (Edge W) → Option (Edge W)
  matching_edge type from_id to_id edges = first_row (
      select (λ e. same_edge_type e.type type && e.to_id == to_id)
        (get_current_edges tenant (some from_id) edges))

module _ {W J : Type 0} (tenant now : ℕ) where
  -- the body of the loop over the removed CIs
  unfoldable pub remove_ci : List (Ci W J) → CiRef → Tx (Tables W J) (List (Ci W J))
  remove_ci closed ref = do
    before ← gets (λ s. first_row (get_current tenant (some ref.type) (some ref.external_id) s.cis))
    was_open ← end_ci tenant now ref.type ref.external_id
    pure (with_closed was_open before closed)

  unfoldable pub remove_between :
      List (Edge W) → EdgeType → Option (ℕ × ℕ) → Tx (Tables W J) (List (Edge W))
  unfolding matching_edge
  -- an endpoint is gone, and so is the edge
  remove_between closed type none = pure closed
  remove_between closed type (some (from_id, to_id)) = do
    matching ← gets (λ s. matching_edge tenant type from_id to_id s.edges)
    was_open ← end_edge tenant now type from_id to_id ""
    pure (with_closed was_open matching closed)

  -- the body of the loop over the removed edges
  unfoldable pub remove_edge :
      Keyed → List (Edge W) → EdgeEndpointRef → Tx (Tables W J) (List (Edge W))
  unfolding remove_between
  remove_edge id_by_key closed ref =
      gets (λ s.
        both (resolve_ref tenant id_by_key ref.from_ref s)
          (resolve_ref tenant id_by_key ref.to_ref s))
      >>= remove_between closed ref.type

module _ {W J : Type 0} ⦃f : Float W⦄ (same_json : J → J → Bool) (draw : ℕ → ℕ) (tenant now : ℕ)
    (connector_id : ℕ) (delta : ConnectorDelta W J) (observed_at : ℕ) where
  -- steps 3 to 10, for the registered connector
  unfoldable pub apply_for : Option (Connector J) → Tx (Tables W J) DeltaResult
  unfolding delta_facts apply_edge remove_ci remove_edge
  apply_for none = raise value_error
  apply_for (some registered) = do
    run_id ← draw_id draw
    write_runs (start_run tenant now run_id registered.type (some connector_id))
    write_facts
        (record_facts tenant registered.type observed_at (delta_facts delta) (some connector_id))
    b ← observe_cis same_json draw tenant now registered.type (gather as_ci delta.upserts)
    edges ← fold_tx (apply_edge draw tenant now b.id_by_key) [] (gather as_edge delta.upserts)
    closed_cis ← fold_tx (remove_ci tenant now) [] delta.removed_cis
    closed_edges ← fold_tx (remove_edge tenant now b.id_by_key) [] delta.removed_edges
    write_runs (finish_ok tenant now run_id)
    write_graph b.current_cis edges closed_cis closed_edges
    pure (record {
      cis_created = b.cis_created;
      cis_updated = b.cis_updated;
      cis_unchanged = b.cis_unchanged;
      cis_closed = length closed_cis;
      edges_written = length edges;
      edges_closed = length closed_edges;
      connector_run_id = some run_id;
    })

  unfoldable pub apply_delta : Tx (Tables W J) DeltaResult
  unfolding apply_for
  apply_delta = gets (λ s. get_connector tenant connector_id s.connectors) >>= apply_for
