-- ===== src/Db/Runs.antt =====
-- packages/db connector_health.py: the lifecycle of a connector run, and the raw facts. The identifier that the
-- database draws for a new run and the transaction's `now()` are arguments.
use infra_twin.Prelude.{
  ℕ, Option, none, some, String, List, [], ◌∷◌, ◌++◌, map, ◌==◌, ◌&&◌, if◌then◌else◌,
}

pub data RunStatus : Type 0 where
  ok error partial : RunStatus

pub record ConnectorRun : Type 0 where
  pub run_id : ℕ
  pub tenant_id : ℕ
  pub source : String
  pub connector_id : Option ℕ
  pub status : RunStatus
  pub started_at : ℕ
  pub finished_at : Option ℕ
  pub error_text : Option String

module _ (tenant now : ℕ) where
  unfoldable pub start_run : ℕ → String → Option ℕ → List ConnectorRun → List ConnectorRun
  start_run fresh source connector_id runs =
      runs
      ++ record {
        run_id = fresh;
        tenant_id = tenant;
        source = source;
        connector_id = connector_id;
        status = partial;
        started_at = now;
        finished_at = none;
        error_text = none;
      }
        ∷ []

  unfoldable pub finish_ok : ℕ → List ConnectorRun → List ConnectorRun
  finish_ok run_id runs =
      map
        (λ r.
          if r.tenant_id == tenant && r.run_id == run_id
          then record r { status = ok; finished_at = some now }
          else r)
        runs

  unfoldable pub finish_error : ℕ → String → List ConnectorRun → List ConnectorRun
  finish_error run_id text runs =
      map
        (λ r.
          if r.tenant_id == tenant && r.run_id == run_id
          then record r { status = error; finished_at = some now; error_text = some text }
          else r)
        runs

-- An immutable observation; a payload is of the caller's type.
pub record RawFact (P : Type 0) : Type 0 where
  pub tenant_id : ℕ
  pub source : String
  pub observed_at : ℕ
  pub payload : P
  pub connector_id : Option ℕ

-- One row for every payload; the number of the rows is that of the payloads.
unfoldable pub record_facts :
    {P : Type 0} → ℕ → String → ℕ → List P → Option ℕ → List (RawFact P) → List (RawFact P)
record_facts tenant source observed_at payloads connector_id facts =
    facts
    ++ map
        (λ payload. record {
          tenant_id = tenant;
          source = source;
          observed_at = observed_at;
          payload = payload;
          connector_id = connector_id;
        })
        payloads
