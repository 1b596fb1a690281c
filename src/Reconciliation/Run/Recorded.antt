-- ===== src/Reconciliation/Run/Recorded.antt =====
-- What the table of runs holds of a run, and what leaves the other tables as they were.
use infra_twin.Prelude.{
  ℕ, ◌≡◌, Bool, true, Option, none, some, String, List, Memᴰ, mem-map, ◌==◌, arith, refl, ◌∙◌,
}
use mathlib.Core.List.Memᴰ
use infra_twin.Float.{Float}
use infra_twin.Db.Runs.{
  ConnectorRun, RunStatus, ok, error, partial, start_run, finish_ok, finish_error,
}
use infra_twin.Reconciliation.Tables.{
  Tables, draw_id, write_ci, write_edge, end_ci, end_edge, bind_source_key, register_alias_keys,
  record_merge, write_graph,
}
use infra_twin.Reconciliation.Laws.{TableLaws}
use infra_twin.Reconciliation.Laws.Past.{Steps-done, Steps-written}

-- The run of an identifier is stored with a status and the time of its end.
pub record Recorded (runs : List ConnectorRun) (run_id : ℕ) (status : RunStatus)
    (finished : Option ℕ) : Type 0 where
  pub run : ConnectorRun
  pub stored : Memᴰ run runs
  pub its_id : run.run_id ≡ run_id
  pub its_status : run.status ≡ status
  pub its_end : run.finished_at ≡ finished

module _ (tenant started now run_id : ℕ) (source : String) (connector_id : Option ℕ)
    (runs : List ConnectorRun) where
  abbrev pub begun : List ConnectorRun
  begun = start_run tenant started run_id source connector_id runs

  pub start_run-Recorded : Recorded begun run_id partial none
  unfolding start_run
  start_run-Recorded = record {
    run = _;
    stored = Memᴰ.append_right runs (Memᴰ.head refl);
    its_id = refl;
    its_status = refl;
    its_end = refl;
  }

  same_id : (n : ℕ) → (n == n) ≡ true
  same_id n = ground arith

  pub finish_ok-Recorded : Recorded (finish_ok tenant now run_id begun) run_id ok (some now)
  unfolding finish_ok start_run
  finish_ok-Recorded = record {
    run = _;
    stored = (mem-map _ _ _).1 (_, Memᴰ.append_right runs (Memᴰ.head refl), refl);
    its_id = rw (same_id tenant, same_id run_id) refl;
    its_status = rw (same_id tenant, same_id run_id) refl;
    its_end = rw (same_id tenant, same_id run_id) refl;
  }

  pub finish_error-Recorded :
      (text : String) → Recorded (finish_error tenant now run_id text begun) run_id error (some now)
  unfolding finish_error start_run
  finish_error-Recorded text = record {
    run = _;
    stored = (mem-map _ _ _).1 (_, Memᴰ.append_right runs (Memᴰ.head refl), refl);
    its_id = rw (same_id tenant, same_id run_id) refl;
    its_status = rw (same_id tenant, same_id run_id) refl;
    its_end = rw (same_id tenant, same_id run_id) refl;
  }

module _ {W J : Type 0} where
  unfoldable pub SameRuns : Tables W J → Tables W J → Type 0
  SameRuns s t = t.runs ≡ s.runs

  pub SameRuns-TableLaws :
      ⦃f : Float W⦄ (same_json : J → J → Bool) (draw : ℕ → ℕ) (tenant now : ℕ)
      → TableLaws same_json draw tenant now SameRuns
  unfolding SameRuns draw_id write_ci write_edge end_ci end_edge bind_source_key register_alias_keys
      record_merge write_graph
  SameRuns-TableLaws same_json draw tenant now = record {
    preorder = record { same = λ s. refl; then_also = λ s t u h k. k ∙ h };
    draws = Steps-done _ _ λ s. refl;
    writes_ci = λ ci. Steps-written _ _ λ s out cis e. refl;
    writes_edge = λ edge. Steps-written _ _ λ s out edges e. refl;
    ends_ci = λ ci_type external_id. Steps-done _ _ λ s. refl;
    ends_edge = λ edge_type from_id to_id key. Steps-done _ _ λ s. refl;
    binds = λ source native_id id. Steps-done _ _ λ s. refl;
    registers = λ keys id ci_type source. Steps-done _ _ λ s. refl;
    merges = λ id source external_id key evidence. Steps-done _ _ λ s. refl;
    projects = λ cis edges closed closed_edges. Steps-done _ _ λ s. refl;
  }

  -- Two states hold the same graph tables and the same facts.
  pub record Untouched (s t : Tables W J) : Type 0 where
    pub same_cis : t.cis ≡ s.cis
    pub same_edges : t.edges ≡ s.edges
    pub same_source_keys : t.source_keys ≡ s.source_keys
    pub same_alias_keys : t.alias_keys ≡ s.alias_keys
    pub same_merges : t.merges ≡ s.merges
    pub same_graph : t.graph ≡ s.graph
    pub same_facts : t.facts ≡ s.facts

  pub same_graph_tables :
      (s t : Tables W J)
      → t.cis ≡ s.cis
      → t.edges ≡ s.edges
      → t.source_keys ≡ s.source_keys
      → t.alias_keys ≡ s.alias_keys
      → t.merges ≡ s.merges
      → t.graph ≡ s.graph
      → t.facts ≡ s.facts
      → Untouched s t
  same_graph_tables s t a b c d e f g = record {
    same_cis = a;
    same_edges = b;
    same_source_keys = c;
    same_alias_keys = d;
    same_merges = e;
    same_graph = f;
    same_facts = g;
  }
