-- ===== src/Query/Reachability.antt =====
-- services/query reachability.py: "what can reach this CI?"
pub mod Paths
use Prim.Native.Nat.{compare}
use mathlib.Core.Option
use infra_twin.Prelude.{
  ℕ, Bool, true, false, String, Option, none, some, List, [], ◌∷◌, ◌++◌, map, get, Dict, ◌||◌, ◌≡◌,
  text_order, and_then, not_after, keys, has, if◌then◌else◌,
}
use infra_twin.Prelude.Sort.{sort}
use infra_twin.Model.{
  Ci, CiType, ci_type_value, internet, EdgeType, connects_to, routes_to, has_access_to, exposes,
  Edge, Evidence,
}
use infra_twin.Float.{Float}
use infra_twin.Db.{Conn}
use infra_twin.Db.Graph.{match_in}
use infra_twin.Query.Bfs.{Search, Supernode, search}
use infra_twin.Query.Bfs.Trace.{Hop}
use infra_twin.Query.Pending.{Pending, pending_items, all_hops}
use infra_twin.Query.Hops.{hop_rows, last_row}
use infra_twin.Query.Blast.{details_of}

abbrev pub reachability_edge_types : List EdgeType
reachability_edge_types = connects_to ∷ routes_to ∷ has_access_to ∷ exposes ∷ []

pub record PathHop : Type 0 where
  pub from_id : ℕ
  pub to_id : ℕ
  pub edge_type : EdgeType
  pub evidence : List Evidence

pub record ReachingSource : Type 0 where
  pub id : ℕ
  pub type : CiType
  pub name : Option String
  pub distance : ℕ
  pub is_internet : Bool
  pub path : List PathHop

pub record Reachability : Type 0 where
  pub target_id : ℕ
  pub max_depth : ℕ
  pub reached_by_internet : Bool
  pub sources : List ReachingSource
  pub truncated_supernodes : List Supernode

-- `ci_type == "internet"`
unfoldable pub is_internet_type : CiType → Bool
is_internet_type internet = true
is_internet_type _ = false

-- `key=lambda s: (s.distance, s.type, str(s.id))`
unfoldable pub source_order : ReachingSource → ReachingSource → Bool
source_order s t = not_after (
    and_then (compare s.distance t.distance)
      (and_then (text_order (ci_type_value s.type) (ci_type_value t.type)) (compare s.id t.id)))

unfoldable pub any_internet : List ReachingSource → Bool
any_internet [] = false
any_internet (s ∷ sources) = s.is_internet || any_internet sources

module _ {W : Type 0} where
  -- `evidence_map.get(key, [])`
  unfoldable pub evidence_of : List (Edge W) → Hop EdgeType → List Evidence
  evidence_of rows h = elim (last_row h none rows) [ none ↦ [] | some e ↦ e.evidence ]

  unfoldable pub path_hop : List (Edge W) → Hop EdgeType → PathHop
  path_hop rows (edge_type, from_id, to_id) = record {
    from_id = from_id;
    to_id = to_id;
    edge_type = edge_type;
    evidence = evidence_of rows (edge_type, from_id, to_id);
  }

  -- the loop that assembles the sources
  unfoldable pub reaching_source : List (Edge W) → Pending (CiType × Option String) → ReachingSource
  reaching_source rows p = record {
    id = p.node;
    type = p.detail.0;
    name = p.detail.1;
    distance = p.distance;
    is_internet = is_internet_type p.detail.0;
    path = map (path_hop rows) p.hops;
  }

module _ {W J : Type 0} ⦃f : Float W⦄ where
  unfoldable pub reachability_neighbors : Conn W J → ℕ → ℕ → W → List (ℕ × EdgeType)
  reachability_neighbors conn tenant_id ci_id min_confidence =
      match_in conn reachability_edge_types tenant_id ci_id min_confidence

  unfoldable pub reach_search : Conn W J → ℕ → ℕ → ℕ → W → ℕ → Search EdgeType
  reach_search conn tenant_id target_id max_depth min_confidence max_fanout =
      search (λ node. reachability_neighbors conn tenant_id node min_confidence) (some max_fanout)
        target_id max_depth

-- the `result` before any source is added
abbrev pub initial : ℕ → ℕ → List Supernode → Reachability
initial target_id max_depth supernodes = record {
  target_id = target_id;
  max_depth = max_depth;
  reached_by_internet = false;
  sources = [];
  truncated_supernodes = supernodes;
}

-- from the batch fetch to the end
unfoldable pub assemble :
    {W J : Type 0}
    → Conn W J
    → Reachability
    → List (Pending (CiType × Option String))
    → Reachability
assemble conn result pending =
    let rows = hop_rows conn (all_hops pending) in
    let sources = sort source_order (map (reaching_source rows) pending) in
    record result { sources = sources; reached_by_internet = any_internet sources }

module _ {W J : Type 0} ⦃f : Float W⦄ where
  -- `none` means that the fuel of a walk back ran out; `Paths` shows that it does not. The early
  -- returns on an empty list give what the code below them gives.
  unfoldable pub reachability : Conn W J → ℕ → ℕ → ℕ → W → ℕ → Option Reachability
  unfolding assemble
  reachability conn tenant_id target_id max_depth min_confidence max_fanout =
      let s = reach_search conn tenant_id target_id max_depth min_confidence max_fanout in
      let details = details_of conn (keys s.discovered) in
      Option.map (assemble conn (initial target_id max_depth s.supernodes))
        (pending_items (λ hops. hops) details max_depth s.predecessor s.discovered)
