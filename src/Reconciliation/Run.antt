-- ===== src/Reconciliation/Run.antt =====
-- reconciliation/run.py: `discover_and_reconcile`, three transactions in a row, and event_delta's
-- `apply_event_delta`. What the connector discovers is an argument, and so are the texts of the
-- exceptions, the times of the three transactions, and whether the last one, which marks a failed run,
-- succeeds. That one of the others cannot be opened or committed is left out.
pub mod Recorded
pub mod Settled
use Prim.Native.Char.{Char}
use infra_twin.Prelude.{ℕ, zero, suc, Bool, Option, none, some, String, List, map}
use infra_twin.Prelude.{◌++◌, true, false, if◌then◌else◌}
use infra_twin.Float.{Float}
use infra_twin.Model.{CiType, EdgeType}
use infra_twin.Db.Runs.{start_run, finish_ok, finish_error, record_facts}
use infra_twin.Db.Connectors.{Connector, resolve_or_register}
use infra_twin.Db.Tx.{Failure, TxOutcome, done, raised, Tx, pure, ◌>>=◌, ◌>>◌}
use infra_twin.Reconciliation.Events.{DiscoveryEvent, ConnectorDelta, event_fact}
use infra_twin.Reconciliation.Tables.{Tables, write_runs, write_facts}
use infra_twin.Reconciliation.Reconcile.{ReconcileResult, reconcile}
use infra_twin.Reconciliation.Delta.{DeltaResult, apply_delta}

-- `text[:n]`
unfoldable pub text_prefix : ℕ → String → String
text_prefix zero text = ""
text_prefix (suc n) String.[] = ""
text_prefix (suc n) (String.◌∷◌ c text) = String.◌∷◌ c (text_prefix n text)

abbrev pub max_error_len : ℕ
max_error_len = 4000

-- what `connector.discover()` gives: its events, or the text of what it raises
pub data Discovery (W J : Type 0) : Type 0 where
  found : List (DiscoveryEvent W J) → Discovery W J
  failed : String → Discovery W J

pub data RunOutcome : Type 0 where
  reconciled : ReconcileResult → RunOutcome
  -- the exception, raised again after the run was marked
  reraised : RunOutcome

module _ {W J : Type 0} (draw : ℕ → ℕ) (tenant : ℕ) (empty : J) where
  -- the connector of a source, registered where it is new, and the tables
  unfoldable pub resolve_connector : ℕ → String → Tables W J → Connector J × Tables W J
  resolve_connector now source s =
      let (connector, connectors) =
        resolve_or_register tenant now (draw s.drawn) empty source source s.connectors in
      (connector, record s { connectors = connectors; drawn = suc s.drawn })

  -- the run's identifier, and the tables with the `partial` run
  unfoldable pub begin_run : ℕ → String → Tables W J → ℕ × Tables W J
  unfolding resolve_connector
  begin_run now source s =
      let (connector, t) = resolve_connector now source s in
      let run_id = draw t.drawn in
      (
        run_id,
        record t {
          runs = start_run tenant now run_id source (some connector.connector_id) t.runs;
          drawn = suc t.drawn;
        },
      )

module _ {W J : Type 0} (tenant : ℕ) where
  -- the transaction that marks the run, whose own failure is passed over
  unfoldable pub mark_failed : ℕ → ℕ → String → Bool → Tables W J → Tables W J
  unfolding text_prefix
  mark_failed now run_id error_text marks s =
      if marks
      then record s {
        runs = finish_error tenant now run_id (text_prefix max_error_len error_text) s.runs;
      }
      else s

module _ {W J : Type 0} ⦃f : Float W⦄ (same_json : J → J → Bool) (draw : ℕ → ℕ) (tenant : ℕ)
    (empty : J) (error_text : Failure → String) (marks : Bool) (source : String)
    (ci_types : List CiType) (edge_types : List EdgeType) where
  -- the transaction that writes the facts, reconciles and marks the run
  unfoldable pub reconcile_run :
      ℕ → ℕ → Option ℕ → ℕ → List (DiscoveryEvent W J) → Tx (Tables W J) ReconcileResult
  reconcile_run now observed_at connector_id run_id events = do
    write_facts (record_facts tenant source observed_at (map event_fact events) connector_id)
    result ← reconcile same_json draw tenant now events source ci_types edge_types
    write_runs (finish_ok tenant now run_id)
    pure result

  -- the end of the transaction: its tables, or those before it with the run marked in a new one
  unfoldable pub settle :
      ℕ → ℕ → Tables W J → TxOutcome (Tables W J) ReconcileResult → RunOutcome × Tables W J
  unfolding mark_failed
  settle now run_id before (done result after) = (reconciled result, after)
  settle now run_id before (raised e) =
      (reraised, mark_failed tenant now run_id (error_text e) marks before)

  unfoldable pub run_discovery :
      ℕ → ℕ → ℕ → Option ℕ → ℕ → Discovery W J → Tables W J → RunOutcome × Tables W J
  unfolding reconcile_run settle mark_failed
  run_discovery reconciled_at observed_at failed_at connector_id run_id (failed text) s =
      (reraised, mark_failed tenant failed_at run_id text marks s)
  run_discovery reconciled_at observed_at failed_at connector_id run_id (found events) s =
      settle failed_at run_id s
        (reconcile_run reconciled_at observed_at connector_id run_id events s)

  unfoldable pub discover_and_reconcile :
      ℕ → ℕ → ℕ → ℕ → Discovery W J → Tables W J → RunOutcome × Tables W J
  unfolding resolve_connector begin_run run_discovery
  discover_and_reconcile started observed_at reconciled_at failed_at discovery s =
      let connector_id = (resolve_connector draw tenant empty started source s).0.connector_id in
      let (run_id, t) = begin_run draw tenant empty started source s in
      run_discovery reconciled_at observed_at failed_at (some connector_id) run_id discovery t

module _ {W J : Type 0} ⦃f : Float W⦄ (same_json : J → J → Bool) (draw : ℕ → ℕ) (tenant : ℕ)
    (empty : J) where
  -- The connector is registered in a transaction of its own, which a failure of the delta leaves.
  unfoldable pub apply_event_delta :
      ℕ → ℕ → ℕ → ConnectorDelta W J → String → Tables W J → Option DeltaResult × Tables W J
  unfolding resolve_connector
  apply_event_delta registered now observed_at delta source s =
      let (connector, t) = resolve_connector draw tenant empty registered source s in
      elim (apply_delta same_json draw tenant now connector.connector_id delta observed_at t) [
        | done result u ↦ (some result, u)
        | raised _ ↦ (none, t)
      ]
