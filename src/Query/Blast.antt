-- ===== src/Query/Blast.antt =====
-- services/query blast_radius.py: "what breaks if this CI fails?"
pub mod Impact
pub mod Reach
use infra_twin.Prelude.{
  ℕ, Bool, String, Option, none, some, List, [], ◌∷◌, ◌++◌, map, get, gather, select, Dict, ◌==◌,
  ◌||◌, text_order, and_then, not_after, keys, if◌then◌else◌,
}
use Prim.Native.Nat.{compare}
use infra_twin.Prelude.Sort.{sort}
use infra_twin.Model.{
  Ci, CiType, ci_type_value, EdgeType, contains, depends_on, runs_on, routes_to, exposes,
}
use infra_twin.Float.{Float}
use infra_twin.Db.{Conn, current_cis, dict_of, any_of}
use infra_twin.Db.Graph.{match_out, match_in}
use infra_twin.Query.Bfs.{Search, Supernode, search}

abbrev pub outgoing_impact : List EdgeType
outgoing_impact = contains ∷ []

abbrev pub incoming_impact : List EdgeType
incoming_impact = depends_on ∷ runs_on ∷ routes_to ∷ exposes ∷ []

pub record ImpactedCi : Type 0 where
  pub id : ℕ
  pub type : CiType
  pub name : Option String
  pub distance : ℕ

pub record BlastRadius : Type 0 where
  pub source_id : ℕ
  pub max_depth : ℕ
  pub impacted : List ImpactedCi
  pub truncated_supernodes : List Supernode

-- `key=lambda i: (i.distance, i.type, str(i.id))`
unfoldable pub by_distance : ImpactedCi → ImpactedCi → Bool
by_distance i j = not_after (
    and_then (compare i.distance j.distance)
      (and_then (text_order (ci_type_value i.type) (ci_type_value j.type)) (compare i.id j.id)))

module _ {W J : Type 0} ⦃f : Float W⦄ where
  unfoldable pub impact_neighbors : Conn W J → ℕ → ℕ → W → List ℕ
  impact_neighbors conn tenant_id ci_id min_confidence =
      keys (match_out conn outgoing_impact tenant_id ci_id min_confidence)
      ++ keys (match_in conn incoming_impact tenant_id ci_id min_confidence)

-- the loop over depths, over neighbours that carry no label
abbrev pub unlabelled : List ℕ → List (ℕ × Unit {0})
unlabelled = map (λ n. (n, tt))

module _ {W J : Type 0} where
  -- `SELECT id, type, name FROM cis WHERE id = ANY(...) AND valid_to IS NULL`, as a dictionary
  unfoldable pub details_of : Conn W J → List ℕ → Dict (CiType × Option String)
  details_of conn ids =
      dict_of (λ r. r.id) (λ r. (r.type, r.name)) (select (λ r. any_of ids r.id) (current_cis conn))

-- `detail = details.get(node)`, and the entry unless it is missing
unfoldable pub impacted_entry : Dict (CiType × Option String) → ℕ × ℕ → Option ImpactedCi
impacted_entry details (node, distance) = elim (get details node) [
  | none ↦ none
  | some (type, name) ↦ some (record { id = node; type = type; name = name; distance = distance })
]

-- from `if not discovered: return result` to the end
unfoldable pub resolve : {W J : Type 0} → Conn W J → BlastRadius → List (ℕ × ℕ) → BlastRadius
resolve conn result [] = result
resolve conn result (x ∷ rest) =
    let details = details_of conn (keys (x ∷ rest)) in
    record result { impacted = sort by_distance (gather (impacted_entry details) (x ∷ rest)) }

module _ {W J : Type 0} ⦃f : Float W⦄ where
  unfoldable pub blast_search : Conn W J → ℕ → ℕ → ℕ → W → ℕ → Search (Unit {0})
  blast_search conn tenant_id ci_id max_depth min_confidence max_fanout =
      search (λ node. unlabelled (impact_neighbors conn tenant_id node min_confidence))
        (some max_fanout) ci_id max_depth

  unfoldable pub blast_radius : Conn W J → ℕ → ℕ → ℕ → W → ℕ → BlastRadius
  unfolding resolve
  blast_radius conn tenant_id ci_id max_depth min_confidence max_fanout =
      let s = blast_search conn tenant_id ci_id max_depth min_confidence max_fanout in
      resolve conn
        (record {
          source_id = ci_id;
          max_depth = max_depth;
          impacted = [];
          truncated_supernodes = s.supernodes;
        })
        s.discovered
