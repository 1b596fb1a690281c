-- ===== src/Reconciliation/Projection.antt =====
-- reconciliation/projection.py: what `project` makes of the graph. The `cypher` statements are those
-- of the source: a `MERGE` takes every match of its pattern or creates one. A vertex is its label and
-- its `ci_id`, which a `MERGE` never creates twice. The escaping of texts into the statements
-- (`_lit`) is left out, since a statement is not a text here.
use infra_twin.Prelude.{
  ℕ, Bool, false, not, Option, none, some, String, List, [], ◌∷◌, ◌++◌, map, foldl, select, ◌==◌,
  ◌&&◌, ◌||◌, text_eq, if◌then◌else◌,
}
use infra_twin.Model.{Ci, CiType, Edge, EdgeType, EdgeSource, same_edge_type}
use infra_twin.Db.CiRepository.{same_ci_type}

pub record Vertex : Type 0 where
  pub label : CiType
  pub ci_id : ℕ
  pub tenant_id : ℕ
  pub external_id : String
  pub name : Option String

-- A relationship, with the vertices that it joins.
pub record GraphEdge (W : Type 0) : Type 0 where
  pub start : CiType × ℕ
  pub end : CiType × ℕ
  pub type : EdgeType
  pub edge_key : String
  pub tenant_id : ℕ
  pub source : EdgeSource
  pub confidence : W

pub record Graph (W : Type 0) : Type 0 where
  pub vertices : List Vertex
  pub relationships : List (GraphEdge W)

abbrev same_vertex : CiType × ℕ → CiType × ℕ → Bool
same_vertex a b = same_ci_type a.0 b.0 && a.1 == b.1

unfoldable pub any_match {ℓ} : {A : Type ℓ} → (A → Bool) → List A → Bool
any_match p [] = false
any_match p (x ∷ xs) = p x || any_match p xs

-- `MERGE … SET`: every match is changed, or one is created.
unfoldable pub merge_rows : {A : Type 0} → (A → Bool) → (A → A) → A → List A → List A
unfolding any_match
merge_rows matches set fresh rows =
    if any_match matches rows
    then map (λ r. if matches r then set r else r) rows
    else rows ++ fresh ∷ []

-- `if ci.name`
abbrev pub has_text : Option String → Bool
has_text none = false
has_text (some s) = not (text_eq s "")

module _ {W : Type 0} where
  unfoldable pub merge_vertex : {J : Type 0} → Graph W → Ci W J → Graph W
  unfolding merge_rows
  merge_vertex graph ci = record graph {
    vertices =
        merge_rows (λ v. same_vertex (v.label, v.ci_id) (ci.type, ci.id))
          (λ v. record v {
            tenant_id = ci.tenant_id;
            external_id = ci.external_id;
            name = if has_text ci.name then ci.name else v.name;
          })
          (record {
            label = ci.type;
            ci_id = ci.id;
            tenant_id = ci.tenant_id;
            external_id = ci.external_id;
            name = if has_text ci.name then ci.name else none;
          })
          graph.vertices;
  }

  -- `MATCH (n {ci_id: …})`
  unfoldable pub match_vertices : ℕ → Graph W → List (CiType × ℕ)
  match_vertices ci_id graph =
      map (λ v. (v.label, v.ci_id)) (select (λ v. v.ci_id == ci_id) graph.vertices)

  abbrev is_relationship : Edge W → CiType × ℕ → CiType × ℕ → GraphEdge W → Bool
  is_relationship edge a b r =
      same_vertex r.start a
      && same_vertex r.end b
      && same_edge_type r.type edge.type
      && text_eq r.edge_key edge.edge_key

  unfoldable pub merge_between :
      Edge W → CiType × ℕ → CiType × ℕ → List (GraphEdge W) → List (GraphEdge W)
  unfolding merge_rows
  merge_between edge a b rows =
      merge_rows (is_relationship edge a b)
        (λ r. record r {
          tenant_id = edge.tenant_id;
          source = edge.source;
          confidence = edge.confidence;
        })
        (record {
          start = a;
          end = b;
          type = edge.type;
          edge_key = edge.edge_key;
          tenant_id = edge.tenant_id;
          source = edge.source;
          confidence = edge.confidence;
        })
        rows

  -- one relationship for every pair of matched vertices
  unfoldable pub merge_relationship : Graph W → Edge W → Graph W
  unfolding merge_between
  merge_relationship graph edge = record graph {
    relationships =
        foldl
          (λ rows a.
            foldl (λ rows b. merge_between edge a b rows) rows (match_vertices edge.to_id graph))
          graph.relationships (match_vertices edge.from_id graph);
  }

  unfoldable pub delete_relationship : Graph W → Edge W → Graph W
  delete_relationship graph edge = record graph {
    relationships =
        select
          (λ r. not (
            r.start.1 == edge.from_id
            && r.end.1 == edge.to_id
            && same_edge_type r.type edge.type
            && text_eq r.edge_key edge.edge_key))
          graph.relationships;
  }

  -- `DETACH DELETE`
  unfoldable pub delete_vertex : {J : Type 0} → Graph W → Ci W J → Graph W
  delete_vertex graph ci = record {
    vertices = select (λ v. not (v.ci_id == ci.id)) graph.vertices;
    relationships =
        select (λ r. not (r.start.1 == ci.id) && not (r.end.1 == ci.id)) graph.relationships;
  }

  unfoldable pub project :
      {J : Type 0}
      → List (Ci W J)
      → List (Edge W)
      → List (Ci W J)
      → List (Edge W)
      → Graph W
      → Graph W
  unfolding merge_vertex merge_relationship delete_relationship delete_vertex
  project current_cis current_edges closed_cis closed_edges graph =
      let g1 = foldl merge_vertex graph current_cis in
      let g2 = foldl merge_relationship g1 current_edges in
      let g3 = foldl delete_relationship g2 closed_edges in foldl delete_vertex g3 closed_cis
