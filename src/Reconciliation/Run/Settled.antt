-- ===== src/Reconciliation/Run/Settled.antt =====
-- How a run ends.
use infra_twin.Prelude.{
  ℕ, suc, ◌≡◌, Bool, Option, none, some, String, List, refl, sym, ap, subst, map, Bool-cases, inl,
  inr, if◌then◌else◌,
}
use infra_twin.Float.{Float}
use infra_twin.Model.{CiType, EdgeType}
use infra_twin.Db.Runs.{ConnectorRun, ok, error, partial, finish_ok, record_facts}
use infra_twin.Db.Tx.{Failure, TxOutcome, done, raised, ◌>>=◌}
use infra_twin.Db.Tx.Steps.{Steps}
use infra_twin.Reconciliation.Events.{DiscoveryEvent, event_fact}
use infra_twin.Reconciliation.Tables.{Tables, write_runs, write_facts}
use infra_twin.Reconciliation.Reconcile.{ReconcileResult, reconcile}
use infra_twin.Reconciliation.Laws.Growth.{Grown, Grown-Preorder, Grown-TableLaws, same_tables}
use infra_twin.Reconciliation.Laws.Reconciles.{reconcile-Steps}
use infra_twin.Reconciliation.Run.{
  Discovery, found, failed, RunOutcome, reconciled, reraised, resolve_connector, begin_run,
  mark_failed, reconcile_run, settle, run_discovery, discover_and_reconcile,
}
use infra_twin.Reconciliation.Run.Recorded.{
  Recorded, start_run-Recorded, finish_ok-Recorded, finish_error-Recorded, SameRuns,
  SameRuns-TableLaws, Untouched, same_graph_tables,
}

module _ {W J : Type 0} ⦃f : Float W⦄ (same_json : J → J → Bool) (draw : ℕ → ℕ) (tenant : ℕ)
    (empty : J) (error_text : Failure → String) (marks : Bool) (source : String)
    (ci_types : List CiType) (edge_types : List EdgeType)
    (started observed_at reconciled_at failed_at : ℕ) (s : Tables W J) where
  abbrev pub run_id : ℕ
  run_id = draw (suc s.drawn)

  -- the connector of the source, and the tables in which its run has begun
  abbrev pub connector_id : Option ℕ
  connector_id = some (resolve_connector draw tenant empty started source s).0.connector_id

  abbrev pub in_progress : Tables W J
  in_progress = (begin_run draw tenant empty started source s).1

  -- the reconciliation of a batch, from the tables with the run and the facts of the batch
  abbrev pub batch : List (DiscoveryEvent W J) → TxOutcome (Tables W J) ReconcileResult
  batch events =
      reconcile same_json draw tenant reconciled_at events source ci_types edge_types
        (record in_progress {
          facts =
              record_facts tenant source observed_at (map event_fact events) connector_id
                in_progress.facts;
        })

  -- The run is stored as failed, or as `partial` where the mark was not written.
  abbrev pub FailedRun : Tables W J → Type 0
  FailedRun t =
      Recorded t.runs run_id (if marks then error else partial)
        (if marks then some failed_at else none)

  -- How a run ends, by what was discovered and by its outcome.
  abbrev pub RunSettled : Discovery W J → RunOutcome → Tables W J → Type 0
  RunSettled (found events) (reconciled result) t =
      (v : Tables W J) × (batch events ≡ done result v)
      × (t ≡ record v { runs = finish_ok tenant reconciled_at run_id v.runs })
      × Recorded t.runs run_id ok (some reconciled_at)
      × Grown s t
  RunSettled (found events) reraised t =
      ((e : Failure) × (batch events ≡ raised e)) × FailedRun t × Untouched s t
  RunSettled (failed text) (reconciled result) t = ⊥
  RunSettled (failed text) reraised t = FailedRun t × Untouched s t

  -- the end of the transaction of a run, by that of the reconciliation in it
  abbrev ended : TxOutcome (Tables W J) ReconcileResult → TxOutcome (Tables W J) ReconcileResult
  ended (done result v) =
      done result (record v { runs = finish_ok tenant reconciled_at run_id v.runs })
  ended (raised e) = raised e

  reconcile_run-ended :
      (events : List (DiscoveryEvent W J)) (o : TxOutcome (Tables W J) ReconcileResult)
      → batch events ≡ o
      → reconcile_run same_json draw tenant empty error_text marks source ci_types edge_types
          reconciled_at observed_at connector_id run_id events in_progress
        ≡ ended o
  unfolding reconcile_run write_facts write_runs ◌>>=◌
  reconcile_run-ended events (done result v) e = rw (e, reconcile_run) refl
  reconcile_run-ended events (raised x) e = rw (e, reconcile_run) refl

  failed-FailedRun :
      (text : String) → FailedRun (mark_failed tenant failed_at run_id text marks in_progress)
  unfolding mark_failed begin_run resolve_connector
  failed-FailedRun text = elim (Bool-cases marks) [
    | inl e ↦
        rw (e, mark_failed)
          (finish_error-Recorded tenant started failed_at run_id source connector_id s.runs _)
    | inr e ↦
        rw (e, mark_failed)
          (start_run-Recorded tenant started failed_at run_id source connector_id s.runs)
  ]

  failed-Untouched :
      (text : String) → Untouched s (mark_failed tenant failed_at run_id text marks in_progress)
  unfolding mark_failed begin_run resolve_connector
  failed-Untouched text = elim (Bool-cases marks) [
    | inl e ↦ rw (e, mark_failed) (same_graph_tables s _ refl refl refl refl refl refl refl)
    | inr e ↦ rw (e, mark_failed) (same_graph_tables s _ refl refl refl refl refl refl refl)
  ]

  settle-RunSettled :
      (events : List (DiscoveryEvent W J)) (o : TxOutcome (Tables W J) ReconcileResult)
      → batch events ≡ o
      → let (outcome, t) =
          settle same_json draw tenant empty error_text marks source ci_types edge_types failed_at
            run_id in_progress
            (ended o) in
        RunSettled (found events) outcome t
  unfolding settle begin_run resolve_connector SameRuns
  settle-RunSettled events (done result v) e =
      let kept : Steps SameRuns _ =
        reconcile-Steps same_json draw tenant reconciled_at SameRuns
          (SameRuns-TableLaws same_json draw tenant reconciled_at) events source ci_types
          edge_types in
      let grows : Steps Grown _ =
        reconcile-Steps same_json draw tenant reconciled_at Grown
          (Grown-TableLaws tenant reconciled_at same_json draw) events source ci_types edge_types in
      (
        v,
        e,
        refl,
        subst (λ (x : List ConnectorRun). Recorded x run_id ok (some reconciled_at))
            (sym (ap (finish_ok tenant reconciled_at run_id) (kept.between _ result v e)))
            (finish_ok-Recorded tenant started reconciled_at run_id source connector_id s.runs),
        Grown-Preorder.then_also s v _
            (Grown-Preorder.then_also s _ v (same_tables s _ refl refl refl)
              (grows.between _ result v e))
            (same_tables v _ refl refl refl),
      )
  settle-RunSettled events (raised x) e =
      ((x, e), failed-FailedRun (error_text x), failed-Untouched (error_text x))

  -- A run reports a result exactly where the reconciliation of the discovered events gives it, in
  -- the tables in which the run has begun and the facts are written. The tables are then those that
  -- this reconciliation leaves, with the run marked as `ok`; no row of the CIs and the edges is
  -- lost, or rewritten but in the columns `valid_to` and `last_seen`. Where the discovery or that reconciliation raises, the run raises, and leaves
  -- the tables of the graph and the facts as they were, and its row with the status `error`, or with
  -- `partial` where the transaction that marks it fails too.
  pub discover_and_reconcile_settles :
      (discovery : Discovery W J)
      → let (outcome, t) =
          discover_and_reconcile same_json draw tenant empty error_text marks source ci_types
            edge_types started observed_at reconciled_at failed_at discovery s in
        RunSettled discovery outcome t
  unfolding discover_and_reconcile run_discovery begin_run resolve_connector
  discover_and_reconcile_settles (failed text) = (failed-FailedRun text, failed-Untouched text)
  discover_and_reconcile_settles (found events) =
      subst
        (λ (x : TxOutcome (Tables W J) ReconcileResult).
          let (outcome, t) =
            settle same_json draw tenant empty error_text marks source ci_types edge_types failed_at
              run_id in_progress x in
          RunSettled (found events) outcome t)
        (sym (reconcile_run-ended events (batch events) refl))
        (settle-RunSettled events (batch events) refl)
