-- ===== src/Reconciliation/Laws/Isolation.antt =====
-- What a reconciliation leaves of other tenants.
pub mod Others
use infra_twin.Prelude.{
  ◌&&◌, ℕ, ◌≡◌, inl, inr, Bool, true, false, not, String, List, [], ◌∷◌, map, select,
  select-append_no, select-map_rejected, ◌==◌, arith, refl, ◌∙◌, ap, Bool-cases, if◌then◌else◌,
}
use infra_twin.Float.{Float}
use infra_twin.Model.{Ci, Edge}
use infra_twin.Db.CiRepository.{close_row, touch_row}
use infra_twin.Db.CiRepository.Writes.{CiWrites, close_ci-kept, upsert_ci-kept}
use infra_twin.Db.EdgeRepository.{close_edge_row}
use infra_twin.Db.EdgeRepository.Upsert.Writes.{EdgeWrites, close_edge-kept, upsert_edge-kept}
use infra_twin.Db.Tx.Steps.{Preorder}
use infra_twin.Reconciliation.Tables.{
  Tables, SourceKey, AliasKey, insert_or_update, draw_id, move_source_keys, move_alias_keys,
  write_unmerge, write_ci, write_edge, end_ci, end_edge, bind_source_key, register_rows,
  register_alias_keys, record_merge, write_graph, write_runs, write_facts,
}
use infra_twin.Reconciliation.Laws.{TableLaws, RunLaws, MergeLaws}
use infra_twin.Reconciliation.Laws.Past.{Steps-done, Steps-written}
use infra_twin.Reconciliation.Laws.Isolation.Others.{
  others, others-insert_or_update, others-map, SameOthers, others-CiWrites, SameOtherEdges,
  others-EdgeWrites, others-register_rows,
}

module _ {W J : Type 0} (tenant : ℕ) where
  -- Two states of the tables hold the same rows of other tenants.
  pub record Isolated (s t : Tables W J) : Type 0 where
    pub same_cis : others (λ r. r.tenant_id) tenant t.cis ≡ others (λ r. r.tenant_id) tenant s.cis
    pub same_edges :
        others (λ r. r.tenant_id) tenant t.edges ≡ others (λ r. r.tenant_id) tenant s.edges
    pub same_source_keys :
        others (λ r. r.tenant_id) tenant t.source_keys
        ≡ others (λ r. r.tenant_id) tenant s.source_keys
    pub same_alias_keys :
        others (λ r. r.tenant_id) tenant t.alias_keys
        ≡ others (λ r. r.tenant_id) tenant s.alias_keys
    pub same_merges :
        others (λ r. r.tenant_id) tenant t.merges ≡ others (λ r. r.tenant_id) tenant s.merges

  abbrev all_same : (s : Tables W J) → Isolated s s
  all_same s = record {
    same_cis = refl;
    same_edges = refl;
    same_source_keys = refl;
    same_alias_keys = refl;
    same_merges = refl;
  }

  Isolated-Preorder : Preorder Isolated
  Isolated-Preorder = record {
    same = all_same;
    then_also = λ s t u h k. record {
      same_cis = k.same_cis ∙ h.same_cis;
      same_edges = k.same_edges ∙ h.same_edges;
      same_source_keys = k.same_source_keys ∙ h.same_source_keys;
      same_alias_keys = k.same_alias_keys ∙ h.same_alias_keys;
      same_merges = k.same_merges ∙ h.same_merges;
    };
  }

module _ {W J : Type 0} (tenant now : ℕ) where
  -- a statement that changes one of the five tables, or none
  with_cis :
      (s : Tables W J) (xs : List (Ci W J))
      → SameOthers tenant now s.cis xs
      → Isolated tenant s (record s { cis = xs })
  with_cis s xs h = record {
    same_cis = h;
    same_edges = refl;
    same_source_keys = refl;
    same_alias_keys = refl;
    same_merges = refl;
  }

  with_edges :
      (s : Tables W J) (xs : List (Edge W))
      → SameOtherEdges tenant now s.edges xs
      → Isolated tenant s (record s { edges = xs })
  with_edges s xs h = record {
    same_cis = refl;
    same_edges = h;
    same_source_keys = refl;
    same_alias_keys = refl;
    same_merges = refl;
  }

  pub Isolated-TableLaws :
      ⦃f : Float W⦄ (same_json : J → J → Bool) (draw : ℕ → ℕ)
      → TableLaws same_json draw tenant now (Isolated {W = W} {J = J} tenant)
  unfolding draw_id write_ci write_edge end_ci end_edge bind_source_key register_alias_keys
      record_merge write_graph
  Isolated-TableLaws same_json draw = record {
    preorder = Isolated-Preorder tenant;
    draws = Steps-done _ _ λ s. record {
      same_cis = refl;
      same_edges = refl;
      same_source_keys = refl;
      same_alias_keys = refl;
      same_merges = refl;
    };
    writes_ci = λ ci. Steps-written _ _ λ s out cis e.
        with_cis s cis
          (upsert_ci-kept same_json tenant now _ (others-CiWrites tenant now) ci s.cis out cis e);
    writes_edge = λ edge. Steps-written _ _ λ s out edges e.
        with_edges s edges
          (upsert_edge-kept tenant now _ (others-EdgeWrites tenant now) edge s.edges out edges e);
    ends_ci = λ ci_type external_id. Steps-done _ _ λ s.
        with_cis s _
          (close_ci-kept tenant now _ (others-CiWrites tenant now) ci_type external_id s.cis);
    ends_edge = λ edge_type from_id to_id key. Steps-done _ _ λ s. with_edges s _ (
        close_edge-kept tenant now _ (others-EdgeWrites tenant now) edge_type from_id to_id key
          s.edges);
    binds = λ source native_id id. Steps-done _ _ λ s. record {
      same_cis = refl;
      same_edges = refl;
      same_source_keys =
          others-insert_or_update (λ (k : SourceKey). k.tenant_id) tenant _ _ s.source_keys refl
            (λ r h. ground arith);
      same_alias_keys = refl;
      same_merges = refl;
    };
    registers = λ keys id ci_type source. Steps-done _ _ λ s. record {
      same_cis = refl;
      same_edges = refl;
      same_source_keys = refl;
      same_alias_keys = others-register_rows tenant now keys id ci_type source s.alias_keys;
      same_merges = refl;
    };
    merges = λ id source external_id key evidence. Steps-done _ _ λ s. record {
      same_cis = refl;
      same_edges = refl;
      same_source_keys = refl;
      same_alias_keys = refl;
      same_merges = select-append_no _ s.merges _ (ground arith);
    };
    projects = λ cis edges closed closed_edges. Steps-done _ _ λ s. record {
      same_cis = refl;
      same_edges = refl;
      same_source_keys = refl;
      same_alias_keys = refl;
      same_merges = refl;
    };
  }

module _ {W J : Type 0} (tenant : ℕ) where
  pub Isolated-RunLaws : RunLaws (Isolated {W = W} {J = J} tenant)
  unfolding write_runs write_facts
  Isolated-RunLaws = record {
    runs = λ change. Steps-done _ _ λ s. record {
      same_cis = refl;
      same_edges = refl;
      same_source_keys = refl;
      same_alias_keys = refl;
      same_merges = refl;
    };
    facts = λ change. Steps-done _ _ λ s. record {
      same_cis = refl;
      same_edges = refl;
      same_source_keys = refl;
      same_alias_keys = refl;
      same_merges = refl;
    };
  }

module _ {W J : Type 0} (tenant now : ℕ) where
  pub Isolated-MergeLaws : MergeLaws tenant now (Isolated {W = W} {J = J} tenant)
  unfolding move_source_keys move_alias_keys write_unmerge
  Isolated-MergeLaws = record {
    moves_source_keys = λ test id. Steps-done _ _ λ s. record {
      same_cis = refl;
      same_edges = refl;
      same_source_keys =
          others-map (λ (k : SourceKey). k.tenant_id) tenant (λ k. k.tenant_id == tenant && test k)
            _ s.source_keys (λ r. refl) (λ r h. ground arith);
      same_alias_keys = refl;
      same_merges = refl;
    };
    moves_alias_keys = λ test id. Steps-done _ _ λ s. record {
      same_cis = refl;
      same_edges = refl;
      same_source_keys = refl;
      same_alias_keys =
          others-map (λ (k : AliasKey). k.tenant_id) tenant (λ k. k.tenant_id == tenant && test k) _
            s.alias_keys (λ r. refl) (λ r h. ground arith);
      same_merges = refl;
    };
    unmerges = λ row. Steps-done _ _ λ s. record {
      same_cis = refl;
      same_edges = refl;
      same_source_keys = refl;
      same_alias_keys = refl;
      same_merges = refl;
    };
  }
