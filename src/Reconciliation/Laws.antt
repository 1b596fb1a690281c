-- ===== src/Reconciliation/Laws.antt =====
-- What a relation between the tables before and after must allow for it to hold of every
-- reconciliation: one law for each statement. The transactions are proved to keep such a relation
-- once, and each relation is shown to have the laws.
pub mod Reconciles
pub mod AppliesDelta
pub mod Counts
pub mod Past
pub mod Accepts
pub mod Merges
pub mod Isolation
pub mod Growth
use infra_twin.Prelude.{ℕ, Bool, String, List}
use infra_twin.Float.{Float}
use infra_twin.Model.{Ci, CiType, Edge, EdgeType}
use infra_twin.Db.Runs.{ConnectorRun, RawFact}
use infra_twin.Db.Tx.Steps.{Steps, Preorder}
use infra_twin.Reconciliation.Events.{Payload}
use infra_twin.Reconciliation.Tables.{
  Tables, SourceKey, AliasKey, CiUnmerge, move_source_keys, move_alias_keys, write_unmerge,
  MergeEvidence, draw_id, write_ci, write_edge, end_ci, end_edge, bind_source_key,
  register_alias_keys, record_merge, write_graph, write_runs, write_facts,
}

pub record TableLaws {W J : Type 0} ⦃f : Float W⦄ (same_json : J → J → Bool) (draw : ℕ → ℕ)
    (tenant now : ℕ) (R : Tables W J → Tables W J → Type 0) : Type 0 where
  pub preorder : Preorder R
  pub draws : Steps R (draw_id draw)
  pub writes_ci : (ci : Ci W J) → Steps R (write_ci same_json tenant now ci)
  pub writes_edge : (edge : Edge W) → Steps R (write_edge tenant now edge)
  pub ends_ci :
      (type : CiType) (external_id : String) → Steps R (end_ci tenant now type external_id)
  pub ends_edge :
      (type : EdgeType) (from_id to_id : ℕ) (edge_key : String)
      → Steps R (end_edge tenant now type from_id to_id edge_key)
  pub binds :
      (source native_id : String) (ci_id : ℕ)
      → Steps R (bind_source_key tenant now source native_id ci_id)
  pub registers :
      (keys : List String) (ci_id : ℕ) (ci_type source : String)
      → Steps R (register_alias_keys tenant now keys ci_id ci_type source)
  pub merges :
      (ci_id : ℕ) (source external_id key : String) (evidence : MergeEvidence W)
      → Steps R (record_merge tenant now draw ci_id source external_id key evidence)
  pub projects :
      (cis : List (Ci W J)) (edges : List (Edge W)) (closed : List (Ci W J))
      (closed_edges : List (Edge W))
      → Steps R (write_graph cis edges closed closed_edges)

-- the laws of the statements that only `apply_delta` makes
pub record RunLaws {W J : Type 0} (R : Tables W J → Tables W J → Type 0) : Type 0 where
  pub runs :
      (change : List ConnectorRun → List ConnectorRun) → Steps R (write_runs {W = W} {J = J} change)
  pub facts :
      (change : List (RawFact (Payload W J)) → List (RawFact (Payload W J)))
      → Steps R (write_facts change)

-- the laws of the statements that only a split and an accepted candidate make
pub record MergeLaws {W J : Type 0} (tenant now : ℕ) (R : Tables W J → Tables W J → Type 0)
    : Type 0 where
  pub moves_source_keys :
      (test : SourceKey → Bool) (ci_id : ℕ)
      → Steps R (move_source_keys {W = W} {J = J} tenant now test ci_id)
  pub moves_alias_keys :
      (test : AliasKey → Bool) (ci_id : ℕ)
      → Steps R (move_alias_keys {W = W} {J = J} tenant now test ci_id)
  pub unmerges : (row : CiUnmerge) → Steps R (write_unmerge {W = W} {J = J} row)
