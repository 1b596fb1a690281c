-- ===== src/Reconciliation/Retention.antt =====
-- services/reconciliation retention.py: the sweep that collapses old closed versions. The code is
-- generic in the table, as `_sweep_kind` is: `Columns` says how a row shows the selected columns.
-- Times carry their zone in the database, so the cases for naive ones do not arise.
pub mod Boundary
pub mod Deleted
pub mod Swept
pub mod Again
use Prim.Native.Nat.{compare, min, max}
use infra_twin.Prelude.{
  ℕ, ◌+◌, ◌-◌, ◌*◌, Bool, true, false, not, Option, none, some, String, List, [], ◌∷◌, ◌++◌, map,
  foldl, length, select, keys, ◌==◌, ◌&&◌, ltb, leb, and_then, not_after, text_order, text_eq,
  if◌then◌else◌,
}
use infra_twin.Prelude.Sort.{sort}
use infra_twin.Model.{Ci, ci_type_value, Edge, edge_type_value, is_inferred}
use infra_twin.Db.{is_open, any_of}
use infra_twin.Db.Policies.{RetentionPolicy, HistoryAggregate, first_row, get_policy}
use infra_twin.Db.Runs.{ConnectorRun, start_run, finish_ok}
use infra_twin.Query.Bfs.{first_of_key}
use infra_twin.Confidence.{day}

pub record RetentionKindReport : Type 0 where
  pub versions_collapsed : ℕ
  pub aggregates_written : ℕ
  pub retained_current : ℕ
  pub retained_boundary : ℕ
  pub eligible : ℕ

abbrev pub empty_report : RetentionKindReport
empty_report = record {
  versions_collapsed = 0;
  aggregates_written = 0;
  retained_current = 0;
  retained_boundary = 0;
  eligible = 0;
}

pub record RetentionReport : Type 0 where
  pub tenant_id : ℕ
  pub swept : Bool
  pub ci : RetentionKindReport
  pub edge : RetentionKindReport
  pub connector_run_id : Option ℕ

-- The selected columns of a row; a CI has no source.
pub record VersionRow : Type 0 where
  pub id : ℕ
  pub valid_from : ℕ
  pub valid_to : Option ℕ
  pub type : String
  pub source : Option String

pub record Columns (A : Type 0) : Type 0 where
  pub kind : String
  pub owner : A → ℕ
  pub detail : A → VersionRow

abbrev pub ci_columns : {W J : Type 0} → Columns (Ci W J)
ci_columns = record {
  kind = "ci";
  owner = λ r. r.tenant_id;
  detail = λ r. record {
    id = r.id;
    valid_from = r.valid_from;
    valid_to = r.valid_to;
    type = ci_type_value r.type;
    source = none;
  };
}

abbrev pub edge_columns : {W : Type 0} → Columns (Edge W)
edge_columns = record {
  kind = "edge";
  owner = λ r. r.tenant_id;
  detail = λ r. record {
    id = r.id;
    valid_from = r.valid_from;
    valid_to = r.valid_to;
    type = edge_type_value r.type;
    source = some (if is_inferred r.source then "inferred" else "declared");
  };
}

-- `ORDER BY id, valid_from ASC`
unfoldable pub row_order : VersionRow → VersionRow → Bool
row_order v w = not_after (and_then (compare v.id w.id) (compare v.valid_from w.valid_from))

unfoldable pub closed_versions : List VersionRow → List VersionRow
closed_versions versions = select (λ v. not (is_open v.valid_to)) versions

-- `sorted(closed_versions, key=lambda v: v["valid_from"], reverse=True)[0]`
unfoldable pub boundary_row : List VersionRow → Option VersionRow
boundary_row closed = first_row (sort (λ v w. leb w.valid_from v.valid_from) closed)

-- `vto < _horizon`
unfoldable pub is_expired : ℕ → VersionRow → Bool
is_expired horizon v = elim v.valid_to [ none ↦ false | some t ↦ ltb t horizon ]

-- The eligible versions other than the boundary.
unfoldable pub collapsible : ℕ → List VersionRow → List VersionRow
collapsible horizon closed = elim (boundary_row closed) [
  | none ↦ []
  | some b ↦ select (λ v. is_expired horizon v && not (v.valid_from == b.valid_from)) closed
]

-- `sorted({…})` of texts
unfoldable pub insert_text : String → List String → List String
insert_text s [] = s ∷ []
insert_text s (t ∷ ts) =
    let rest = insert_text s ts in
    if text_eq s t then t ∷ ts else (if not_after (text_order s t) then s ∷ t ∷ ts else t ∷ rest)

unfoldable pub distinct_texts : List String → List String
distinct_texts [] = []
distinct_texts (s ∷ ss) = insert_text s (distinct_texts ss)

-- `valid_to` of a closed version
abbrev pub closing : VersionRow → ℕ
closing v = elim v.valid_to [ none ↦ 0 | some t ↦ t ]

abbrev pub all_sources : List VersionRow → List String
all_sources [] = []
all_sources (v ∷ vs) = elim v.source [ none ↦ all_sources vs | some s ↦ s ∷ all_sources vs ]

unfoldable pub rollup : ℕ → String → ℕ → VersionRow → List VersionRow → HistoryAggregate
rollup tenant_id kind entity_id v vs = record {
  tenant_id = tenant_id;
  entity_kind = kind;
  entity_id = entity_id;
  version_count = length (v ∷ vs);
  earliest_valid_from = foldl (λ m w. min m w.valid_from) v.valid_from vs;
  latest_valid_to = foldl (λ m w. max m (closing w)) (closing v) vs;
  types = distinct_texts (map (λ w. w.type) (v ∷ vs));
  sources = if text_eq kind "ci" then none else (some (distinct_texts (all_sources (v ∷ vs))));
}

-- the counters of an entity
unfoldable pub count_entity : ℕ → List VersionRow → RetentionKindReport → RetentionKindReport
count_entity horizon versions report =
    let closed = closed_versions versions in
    let current = length (select (λ v. is_open v.valid_to) versions) in
    elim closed [
      | [] ↦ record report { retained_current = report.retained_current + current }
      | c ∷ cs ↦ record report {
        retained_current = report.retained_current + current;
        retained_boundary = report.retained_boundary + 1;
        eligible = report.eligible + length (select (is_expired horizon) (c ∷ cs));
      }
    ]

-- What the loop of `_sweep_kind` changes.
pub record Sweep (A : Type 0) : Type 0 where
  pub table : List A
  pub aggregates : List HistoryAggregate
  pub report : RetentionKindReport

unfoldable pub entity_versions : List VersionRow → ℕ → List VersionRow
entity_versions rows entity_id = select (λ v. v.id == entity_id) rows

-- the keys of `entity_versions`, in the order of their first row
unfoldable pub entity_ids : List VersionRow → List ℕ
entity_ids rows = keys (first_of_key (map (λ v. (v.id, tt {0})) rows))

module _ {A : Type 0} (cols : Columns A) (tenant_id : ℕ) where
  -- the rows that the session sees, as the query orders them
  unfoldable pub fetched : List A → List VersionRow
  fetched table = sort row_order (map cols.detail (select (λ r. cols.owner r == tenant_id) table))

  -- `DELETE FROM … WHERE id = … AND valid_to IS NOT NULL AND valid_from = ANY(…)`
  unfoldable pub delete_versions : ℕ → List ℕ → List A → List A
  delete_versions entity_id valid_froms table =
      select
        (λ r. not (
          cols.owner r == tenant_id
          && (cols.detail r).id == entity_id
          && not (is_open (cols.detail r).valid_to)
          && any_of valid_froms (cols.detail r).valid_from))
        table

  -- from `version_count = len(collapsible)` to the end of the loop's body
  unfoldable pub collapse : ℕ → List VersionRow → Sweep A → Sweep A
  collapse entity_id [] s = s
  collapse entity_id (v ∷ vs) s =
      let report = s.report in
      record {
        table = delete_versions entity_id (map (λ w. w.valid_from) (v ∷ vs)) s.table;
        aggregates = s.aggregates ++ rollup tenant_id cols.kind entity_id v vs ∷ [];
        report = record report {
          versions_collapsed = report.versions_collapsed + length (v ∷ vs);
          aggregates_written = report.aggregates_written + 1;
        };
      }

module _ {A : Type 0} (cols : Columns A) (tenant_id horizon : ℕ) where
  unfoldable pub sweep_entity : List VersionRow → Sweep A → ℕ → Sweep A
  sweep_entity rows s entity_id =
      let versions = entity_versions rows entity_id in
      collapse cols tenant_id entity_id (collapsible horizon (closed_versions versions))
        (record s { report = count_entity horizon versions s.report })

  unfoldable pub sweep_kind : List A → List HistoryAggregate → Sweep A
  sweep_kind table aggregates =
      let rows = fetched cols tenant_id table in
      foldl (sweep_entity rows)
        (record { table = table; aggregates = aggregates; report = empty_report }) (entity_ids rows)

-- The tables that the sweep reads and writes.
pub record Store (W J : Type 0) : Type 0 where
  pub cis : List (Ci W J)
  pub edges : List (Edge W)
  pub policies : List RetentionPolicy
  pub aggregates : List HistoryAggregate
  pub runs : List ConnectorRun

-- The report of a tenant without an enabled policy.
abbrev pub not_swept : ℕ → RetentionReport
not_swept tenant_id = record {
  tenant_id = tenant_id;
  swept = false;
  ci = empty_report;
  edge = empty_report;
  connector_run_id = none;
}

module _ {W J : Type 0} (tenant_id : ℕ) where
  -- steps 3 to 7, with the identifier of the new run and the transaction's `now()`
  unfoldable pub sweep_tables : ℕ → ℕ → ℕ → Store W J → RetentionReport × Store W J
  sweep_tables horizon fresh started store =
      let runs = start_run tenant_id started fresh "history-retention" none store.runs in
      let cis = sweep_kind ci_columns tenant_id horizon store.cis store.aggregates in
      let edges = sweep_kind edge_columns tenant_id horizon store.edges cis.aggregates in
      (
        record {
          tenant_id = tenant_id;
          swept = true;
          ci = cis.report;
          edge = edges.report;
          connector_run_id = some fresh;
        },
        record store {
          cis = cis.table;
          edges = edges.table;
          aggregates = edges.aggregates;
          runs = finish_ok tenant_id started fresh runs;
        },
      )

  -- `none` is the `OverflowError` of a horizon before the first `datetime`, upon which the
  -- transaction is rolled back.
  unfoldable pub sweep_history : ℕ → ℕ → ℕ → Store W J → Option (RetentionReport × Store W J)
  unfolding sweep_tables
  sweep_history now fresh started store = elim (get_policy tenant_id store.policies) [
    | none ↦ some (not_swept tenant_id, store)
    | some policy ↦
        let horizon = now - policy.retain_closed_days * day in
        if not policy.enabled
        then some (not_swept tenant_id, store)
        else (if ltb now (policy.retain_closed_days * day)
            then none
            else some (sweep_tables horizon fresh started store))
  ]
