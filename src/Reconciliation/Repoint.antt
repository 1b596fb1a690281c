-- ===== src/Reconciliation/Repoint.antt =====
-- The loops of unmerge.py and candidates.py that move edges from one CI to another: each edge is
-- closed and written again between the new ends. The wall clock that stamps the evidence is the
-- argument `clock`, read at the number of identifiers drawn so far.
use infra_twin.Prelude.{ℕ, none, some, String, List, [], ◌∷◌, ◌++◌, ◌==◌, if◌then◌else◌}
use infra_twin.Float.{Float}
use infra_twin.Model.{Edge}
use infra_twin.Db.Tx.{Tx, pure, gets, ◌>>=◌, ◌>>◌}
use infra_twin.Reconciliation.Tables.{Tables, draw_id, write_edge, end_edge}

pub record Repointed (W : Type 0) : Type 0 where
  pub reopened_edges : List (Edge W)
  pub closed_edges : List (Edge W)

abbrev pub none_repointed : {W : Type 0} → Repointed W
none_repointed = record { reopened_edges = []; closed_edges = [] }

-- the other CI, where an end is the one that edges are moved from
abbrev pub moved_end : ℕ → ℕ → ℕ → ℕ
moved_end from_ci to_ci n = if n == from_ci then to_ci else n

module _ {W : Type 0} (tenant from_ci to_ci : ℕ) (source detail : String) where
  -- the edge between its new ends, with the note of the move
  unfoldable pub moved_edge : ℕ → ℕ → Edge W → Edge W
  moved_edge id observed_at e = record e {
    id = id;
    tenant_id = tenant;
    from_id = moved_end from_ci to_ci e.from_id;
    to_id = moved_end from_ci to_ci e.to_id;
    evidence =
        e.evidence
        ++ record { source = source; observed_at = observed_at; detail = some detail } ∷ [];
    valid_from = 0;
    valid_to = none;
  }

module _ {W J : Type 0} ⦃f : Float W⦄ (draw clock : ℕ → ℕ) (tenant now : ℕ) (from_ci to_ci : ℕ)
    (source detail : String) where
  unfoldable pub repoint_edge : Repointed W → Edge W → Tx (Tables W J) (Repointed W)
  unfolding moved_edge
  repoint_edge b e = do
    observed_at ← gets (λ s. clock s.drawn)
    end_edge tenant now e.type e.from_id e.to_id e.edge_key
    id ← draw_id draw
    reopened ←
        write_edge tenant now (moved_edge tenant from_ci to_ci source detail id observed_at e)
    pure (record {
      reopened_edges = b.reopened_edges ++ reopened ∷ [];
      closed_edges = b.closed_edges ++ e ∷ [];
    })

  -- an edge that would join a CI to itself is left
  unfoldable pub repoint_apart : Repointed W → Edge W → Tx (Tables W J) (Repointed W)
  unfolding repoint_edge
  repoint_apart b e =
      if moved_end from_ci to_ci e.from_id == moved_end from_ci to_ci e.to_id
      then pure b
      else repoint_edge b e
