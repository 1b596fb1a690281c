-- ===== src/Query/WhatIf.antt =====
-- services/query whatif.py: topology-based impact estimation of a proposed change.
pub mod Routes
pub mod Provenance
use Prim.Native.Nat.{compare, Ordering}
use infra_twin.Prelude.{
  ℕ, Bool, true, false, String, Option, none, some, List, [], ◌∷◌, ◌++◌, map, foldl, Dict, ◌||◌,
  text_order, text_eq, and_then, not_after, keys, select, if◌then◌else◌,
}
use infra_twin.Prelude.Sort.{sort}
use infra_twin.Model.{CiType, ci_type_value, EdgeType, Edge, EdgeSource, declared}
use infra_twin.Float.{Float, of_int}
use infra_twin.Db.{Conn, current_cis, dict_of, any_of}
use infra_twin.Db.Graph.{match_out, match_in}
use infra_twin.Query.Bfs.{Search, Supernode, search}
use infra_twin.Query.Bfs.Trace.{Hop}
use infra_twin.Query.Hops.{hop_rows, last_row}
use infra_twin.Query.Pending.{Pending, pending_items, all_hops}
use infra_twin.Query.Blast.{outgoing_impact, incoming_impact}

-- `change_kind in WHATIF_CHANGE_KINDS`
unfoldable pub is_change_kind : String → Bool
is_change_kind kind = text_eq kind "remove" || text_eq kind "modify"

pub record WhatIfEdgeHop (W : Type 0) : Type 0 where
  pub from_id : ℕ
  pub to_id : ℕ
  pub edge_type : EdgeType
  pub source : EdgeSource
  pub confidence : W

pub record ImpactedCi (W : Type 0) : Type 0 where
  pub id : ℕ
  pub type : CiType
  pub external_id : String
  pub name : Option String
  pub distance : ℕ
  pub confidence : W
  pub evidence : List (WhatIfEdgeHop W)

-- `method` and `disclaimer` are constants and are left out.
pub record WhatIfImpact (W : Type 0) : Type 0 where
  pub target_id : ℕ
  pub change_kind : String
  pub max_depth : ℕ
  pub impacted : List (ImpactedCi W)
  pub truncated_supernodes : List Supernode

pub data Outcome (W : Type 0) : Type 0 where
  impact : WhatIfImpact W → Outcome W
  -- `UnknownChangeKindError`
  unknown_change_kind : Outcome W
  -- a walk back along `predecessor` ran out of fuel
  out_of_fuel : Outcome W

-- (type, external_id, name)
abbrev pub Detail : Type 0
Detail = CiType × String × Option String

-- The hops from the target outwards: `(edge_type, pred_node, cur)`, reversed.
unfoldable pub forward : List (Hop EdgeType) → List (Hop EdgeType)
forward [] = []
forward ((edge_type, cur, pred_node) ∷ hops) = forward hops ++ (edge_type, pred_node, cur) ∷ []

-- `SELECT id, type, external_id, name FROM cis WHERE id = ANY(...) AND valid_to IS NULL`
unfoldable pub ci_details_of : {W J : Type 0} → Conn W J → List ℕ → Dict Detail
ci_details_of conn ids =
    dict_of (λ r. r.id) (λ r. (r.type, r.external_id, r.name))
      (select (λ r. any_of ids r.id) (current_cis conn))

module _ {W : Type 0} ⦃f : Float W⦄ where
  -- The hop with the provenance of its row, or the defaults if no row was fetched for it.
  unfoldable pub evidence_hop : List (Edge W) → Hop EdgeType → WhatIfEdgeHop W
  evidence_hop rows (edge_type, from_id, to_id) =
      elim (last_row (edge_type, from_id, to_id) none rows) [
        | none ↦ record {
          from_id = from_id;
          to_id = to_id;
          edge_type = edge_type;
          source = declared;
          confidence = of_int 1;
        }
        | some e ↦ record {
          from_id = from_id;
          to_id = to_id;
          edge_type = edge_type;
          source = e.source;
          confidence = e.confidence;
        }
      ]

  unfoldable pub path_confidence : List (WhatIfEdgeHop W) → W
  path_confidence hops = foldl (λ c h. f.mul c h.confidence) (of_int 1) hops

  -- `MODIFY_CONFIDENCE_FACTOR` is 0.5.
  unfoldable pub derived_confidence : String → W → W
  derived_confidence kind c = if text_eq kind "modify" then f.mul c (f.lit 5 1) else c

  unfoldable pub impacted_ci : String → List (Edge W) → Pending Detail → ImpactedCi W
  impacted_ci kind rows p =
      let hops = map (evidence_hop rows) p.hops in
      record {
        id = p.node;
        type = p.detail.0;
        external_id = p.detail.1;
        name = p.detail.2;
        distance = p.distance;
        confidence = derived_confidence kind (path_confidence hops);
        evidence = hops;
      }

  abbrev pub float_order : W → W → Ordering
  float_order a b =
      if f.le a b then (if f.le b a then Ordering.eq else Ordering.lt) else Ordering.gt

  -- `key=lambda i: (i.distance, -i.confidence, i.type, str(i.id))`
  unfoldable pub impact_order : ImpactedCi W → ImpactedCi W → Bool
  impact_order i j = not_after (
      and_then (compare i.distance j.distance) (
        and_then (float_order j.confidence i.confidence) (
          and_then (text_order (ci_type_value i.type) (ci_type_value j.type)) (compare i.id j.id))))

abbrev pub initial : {W : Type 0} → String → ℕ → ℕ → List Supernode → WhatIfImpact W
initial kind ci_id max_depth supernodes = record {
  target_id = ci_id;
  change_kind = kind;
  max_depth = max_depth;
  impacted = [];
  truncated_supernodes = supernodes;
}

module _ {W J : Type 0} ⦃f : Float W⦄ where
  unfoldable pub impact_neighbors_with_type : Conn W J → ℕ → ℕ → W → List (ℕ × EdgeType)
  impact_neighbors_with_type conn tenant_id ci_id min_confidence =
      match_out conn outgoing_impact tenant_id ci_id min_confidence
      ++ match_in conn incoming_impact tenant_id ci_id min_confidence

  unfoldable pub whatif_search : Conn W J → ℕ → ℕ → ℕ → W → ℕ → Search EdgeType
  whatif_search conn tenant_id ci_id max_depth min_confidence max_fanout =
      search (λ node. impact_neighbors_with_type conn tenant_id node min_confidence)
        (some max_fanout) ci_id max_depth

  -- from the batch fetch to the end
  unfoldable pub assemble :
      Conn W J → String → WhatIfImpact W → List (Pending Detail) → WhatIfImpact W
  assemble conn kind result pending =
      let rows = hop_rows conn (all_hops pending) in
      record result { impacted = sort impact_order (map (impacted_ci kind rows) pending) }

  unfoldable pub estimate : Conn W J → ℕ → ℕ → String → ℕ → W → ℕ → Outcome W
  unfolding assemble
  estimate conn tenant_id ci_id kind max_depth min_confidence max_fanout =
      let s = whatif_search conn tenant_id ci_id max_depth min_confidence max_fanout in
      let details = ci_details_of conn (keys s.discovered) in
      elim (pending_items forward details max_depth s.predecessor s.discovered) [
        | none ↦ out_of_fuel
        | some items ↦ impact (assemble conn kind (initial kind ci_id max_depth s.supernodes) items)
      ]

  unfoldable pub what_if_impact : Conn W J → ℕ → ℕ → String → ℕ → W → ℕ → Outcome W
  unfolding estimate
  what_if_impact conn tenant_id ci_id kind max_depth min_confidence max_fanout =
      if is_change_kind kind
      then estimate conn tenant_id ci_id kind max_depth min_confidence max_fanout
      else unknown_change_kind
