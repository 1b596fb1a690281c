-- ===== src/Reconciliation/Reconcile.antt =====
-- reconciliation/reconcile.py: `reconcile`. The frozen sets of types come as lists.
use infra_twin.Prelude.{
  ℕ, Bool, false, not, Option, none, some, String, List, [], ◌∷◌, ◌++◌, map, select, gather, length,
  ◌==◌, ◌&&◌, ◌||◌, text_eq, if◌then◌else◌,
}
use infra_twin.Float.{Float}
use infra_twin.Model.{Ci, CiType, Edge, EdgeType, same_edge_type}
use infra_twin.Db.{any_of}
use infra_twin.Db.Graph.{in_types}
use infra_twin.Db.CiRepository.{get_current}
use infra_twin.Db.EdgeRepository.{get_current_edges}
use infra_twin.Db.Tx.{Tx, pure, gets, ◌>>=◌, ◌>>◌, fold_tx}
use infra_twin.Reconciliation.Events.{DiscoveryEvent, DiscoveredEdge, as_ci, as_edge}
use infra_twin.Reconciliation.Tables.{Tables, draw_id, write_edge, end_ci, end_edge, write_graph}
use infra_twin.Reconciliation.Resolve.{Keyed, same_key, resolve_ref}
use infra_twin.Reconciliation.Observe.{observe_cis}

pub record ReconcileResult : Type 0 where
  pub cis_created : ℕ
  pub cis_updated : ℕ
  pub cis_unchanged : ℕ
  pub cis_closed : ℕ
  pub edges_written : ℕ
  pub edges_closed : ℕ

unfoldable pub is_seen : List (CiType × String) → CiType × String → Bool
is_seen [] key = false
is_seen (k ∷ ks) key = same_key k key || is_seen ks key

abbrev pub EdgeKey : Type 0
EdgeKey = EdgeType × ℕ × ℕ × String

unfoldable pub is_seen_edge : List EdgeKey → EdgeKey → Bool
is_seen_edge [] key = false
is_seen_edge ((t, a, b, k) ∷ ks) key =
    let (type, from_id, to_id, edge_key) = key in
    (same_edge_type t type && a == from_id && b == to_id && text_eq k edge_key)
    || is_seen_edge ks key

module _ {W J : Type 0} (tenant : ℕ) where
  -- the CIs that this source has a key of
  unfoldable pub source_owned_ids : String → Tables W J → List ℕ
  source_owned_ids source s =
      map (λ k. k.ci_id)
        (select (λ k. k.tenant_id == tenant && text_eq k.source source) s.source_keys)

module _ {W J : Type 0} (tenant now : ℕ) where
  -- one round of the loop over the current CIs of a type, with those closed so far
  unfoldable pub close_unseen :
      List (CiType × String) → List ℕ → List (Ci W J) → Ci W J → Tx (Tables W J) (List (Ci W J))
  unfolding is_seen
  close_unseen seen owned closed current =
      if not (is_seen seen (current.type, current.external_id)) && any_of owned current.id
      then (do end_ci tenant now current.type current.external_id; pure (closed ++ current ∷ []))
      else pure closed

  unfoldable pub close_type :
      List (CiType × String) → List ℕ → List (Ci W J) → CiType → Tx (Tables W J) (List (Ci W J))
  unfolding close_unseen
  close_type seen owned closed type = do
    rows ← gets (λ s. get_current tenant (some type) none s.cis)
    fold_tx (close_unseen seen owned) closed rows

  unfoldable pub close_cis :
      List (CiType × String) → List ℕ → List CiType → Tx (Tables W J) (List (Ci W J))
  unfolding close_type
  close_cis seen owned ci_types = fold_tx (close_type seen owned) [] ci_types

-- What the loop over the edges keeps.
pub record EdgeBatch (W : Type 0) : Type 0 where
  pub seen_edge_keys : List EdgeKey
  pub current_edges : List (Edge W)

module _ {W : Type 0} where
  -- An edge that the code builds from a discovered one.
  unfoldable pub edge_of : ℕ → ℕ → ℕ → ℕ → DiscoveredEdge W → Edge W
  edge_of tenant id from_id to_id de = record {
    id = id;
    tenant_id = tenant;
    type = de.type;
    from_id = from_id;
    to_id = to_id;
    edge_key = de.edge_key;
    source = de.source;
    confidence = de.confidence;
    evidence = de.evidence;
    valid_from = 0;
    valid_to = none;
  }

-- both, where both are there
abbrev pub both {ℓ κ} : {A : Type ℓ} {B : Type κ} → Option A → Option B → Option (A × B)
both (some a) (some b) = some (a, b)
both _ _ = none

module _ {W J : Type 0} ⦃f : Float W⦄ (draw : ℕ → ℕ) (tenant now : ℕ) where
  unfoldable pub store_edge : DiscoveredEdge W → ℕ → ℕ → Tx (Tables W J) (Edge W)
  unfolding edge_of
  store_edge de from_id to_id = do
    id ← draw_id draw
    write_edge tenant now (edge_of tenant id from_id to_id de)

  unfoldable pub observe_between :
      EdgeBatch W → DiscoveredEdge W → Option (ℕ × ℕ) → Tx (Tables W J) (EdgeBatch W)
  unfolding store_edge
  -- an endpoint is not in scope: skipped
  observe_between b de none = pure b
  observe_between b de (some (from_id, to_id)) = do
    stored ← store_edge de from_id to_id
    pure (record {
      seen_edge_keys = (de.type, from_id, to_id, de.edge_key) ∷ b.seen_edge_keys;
      current_edges = b.current_edges ++ stored ∷ [];
    })

  -- the body of the loop over the edges
  unfoldable pub observe_edge :
      Keyed → EdgeBatch W → DiscoveredEdge W → Tx (Tables W J) (EdgeBatch W)
  unfolding observe_between
  observe_edge id_by_key b de =
      gets (λ s.
        both (resolve_ref tenant id_by_key de.from_ref s)
          (resolve_ref tenant id_by_key de.to_ref s))
      >>= observe_between b de

module _ {W J : Type 0} (tenant now : ℕ) where
  unfoldable pub close_unseen_edge :
      List EdgeType → List EdgeKey → List (Edge W) → Edge W → Tx (Tables W J) (List (Edge W))
  unfolding is_seen_edge
  close_unseen_edge edge_types seen closed current =
      if in_types edge_types current.type
        && not (is_seen_edge seen (current.type, current.from_id, current.to_id, current.edge_key))
      then (do
        end_edge tenant now current.type current.from_id current.to_id current.edge_key
        pure (closed ++ current ∷ []))
      else pure closed

  unfoldable pub close_edges : List EdgeType → List EdgeKey → Tx (Tables W J) (List (Edge W))
  unfolding close_unseen_edge
  close_edges edge_types seen = do
    rows ← gets (λ s. get_current_edges tenant none s.edges)
    fold_tx (close_unseen_edge edge_types seen) [] rows

module _ {W J : Type 0} ⦃f : Float W⦄ (same_json : J → J → Bool) (draw : ℕ → ℕ)
    (tenant now : ℕ) where
  unfoldable pub reconcile :
      List (DiscoveryEvent W J)
      → String
      → List CiType
      → List EdgeType
      → Tx (Tables W J) ReconcileResult
  unfolding source_owned_ids close_cis observe_edge close_edges
  reconcile events source ci_types edge_types = do
    b ← observe_cis same_json draw tenant now source (gather as_ci events)
    owned ← gets (source_owned_ids tenant source)
    closed_cis ← close_cis tenant now b.seen_ci_keys owned ci_types
    e ←
        fold_tx (observe_edge draw tenant now b.id_by_key)
          (record { seen_edge_keys = []; current_edges = [] }) (gather as_edge events)
    closed_edges ← close_edges tenant now edge_types e.seen_edge_keys
    write_graph b.current_cis e.current_edges closed_cis closed_edges
    pure (record {
      cis_created = b.cis_created;
      cis_updated = b.cis_updated;
      cis_unchanged = b.cis_unchanged;
      cis_closed = length closed_cis;
      edges_written = length e.current_edges;
      edges_closed = length closed_edges;
    })
