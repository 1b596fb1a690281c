-- ===== src/Lib.antt =====
-- Verification of infra-twin: the stores of Configuration Items (CIs) and edges, the reconciliation
-- that writes them, the queries over the graph, and the sweeps that shorten the history and age the
-- edges.
--
-- The parts and the files that model them:
-- - Model: packages/core-model/src/infra_twin/core_model/models.py. The enumerations are data
--   types, CI and Edge are the records Ci and Edge.
-- - Confidence: core_model/confidence.py, the curve by which observations strengthen an edge and
--   the one by which age weakens it.
-- - Db: packages/db/src/infra_twin/db. `Conn` is what a session sees: its tenant (session.py), the
--   rows of `cis` and `edges`, and the relationships of the graph. Db/Graph has the `MATCH`
--   patterns of the queries, Db/CiRepository and Db/EdgeRepository the stores of repositories.py
--   (Db/EdgeRepository/Upsert the aggregation of observations), Db/Policies retention.py, Db/Runs
--   the runs and the raw facts of connector_health.py, Db/Connectors connectors.py. Db/Tx is a
--   transaction as a monad of state and exceptions, Db/Tx/Steps and Db/Tx/Yields are the rules by
--   which a property of every statement is one of the transaction.
-- - Query: services/query/src/infra_twin/query. Query/Bfs is the breadth-first search that
--   blast_radius.py, reachability.py, whatif.py and rca.py each contain: a state record and one
--   function for every loop. Query/Pending is the walk back along `predecessor`, Query/Hops the
--   lookup of the rows of a path. Query/Blast, Query/Reachability, Query/WhatIf, Query/ChangeFeed
--   and Query/Rca are the five entry points of the files with these names.
-- - Reconciliation/Retention: services/reconciliation/src/infra_twin/reconciliation/retention.py,
--   the sweep of both tables with its counters.
-- - Reconciliation/Aging: aging.py beside it, the sweep over the inferred edges.
-- - Reconciliation/Events: packages/connector-sdk/src/infra_twin/connector_sdk/events.py.
--   Reconciliation/Projection: projection.py, the vertices and relationships that `project` merges
--   and deletes. Reconciliation/Tables has the state of a reconciliation and its statements,
--   Reconciliation/Resolve the lookups of identities, Reconciliation/Observe the loop over the
--   observed CIs, Reconciliation/Reconcile and Reconciliation/Delta the functions `reconcile` and
--   `apply_delta` of reconcile.py, Reconciliation/Run run.py and events.py.
--   Reconciliation/Unmerge is unmerge.py, Reconciliation/Candidates acceptance and dismissal
--   of candidates.py, Reconciliation/Repoint the loop over moved edges that both contain.
--   Reconciliation/Laws is the interface between them and their theorems: a relation on the tables
--   that every statement keeps is kept by these functions.
-- - Prelude and Float: lists, dictionaries, a stable sort, signed integers, floats.
--
-- Conventions. A `UUID` is the number of its 128 bits, a `datetime` the number of its microseconds,
-- a `timedelta` that can be negative an integer. Floats are a type with operations, given as the
-- instance `Float`, with the rounding `single` of a `REAL` column; a theorem that needs an order
-- takes the laws in `FloatLaws`, which Float/Fixed shows of fixed-point numbers. A JSON value is of
-- a type parameter. An SQL statement is a pass over the rows of the table that the session's tenant
-- owns, as Row-Level Security has it, and orders texts by code points, as the collation `C` does.
-- Exceptions are constructors or `none`; a transaction that fails leaves no table. Identifiers that
-- the database draws, its `now()` and the wall clock are arguments.
--
-- Bounds. The rounds of a search recurse on `max_depth`. The walk back along `predecessor` has
-- `max_depth` as its fuel, since each step lowers the depth of the node by one; that it is enough
-- is proved. All else is structural.
--
-- Not modelled: the driver and the text of the queries, the parsing of what the graph extension
-- prints (`_scalar`), the sentences for readers in rca.py, the escaping of texts into cypher, the
-- generation of merge candidates, the sentence of a reversal, findings and anomalies, the
-- collectors, the API, the command line, the web client and the deployment. What another
-- transaction commits between two statements of one is not modelled.
pub mod Prelude
pub mod Float
pub mod Confidence
pub mod Model
pub mod Db
pub mod Query
pub mod Reconciliation
