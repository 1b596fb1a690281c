-- ===== src/Reconciliation/Tests/Batches.antt =====
-- A batch that merges a CI, adds one and closes one, a delta and a run, and the theorems at them.
use infra_twin.Prelude.{
  ℕ, suc, ◌+◌, ◌<◌, ◌≡◌, refl, Bool, true, false, Option, none, some, List, [], ◌∷◌, Memᴰ, map,
  arith, String, gather, length,
}
use infra_twin.Float.Fixed.{Fixed, fixed_float, unit}
use infra_twin.Model.{
  Ci, CiType, vpc, subnet, Edge, EdgeType, contains, declared, inferred, Evidence,
}
use infra_twin.Db.Runs.{ConnectorRun, partial}
use infra_twin.Db.Connectors.{Connector}
use infra_twin.Db.Tx.{TxOutcome, done, raised, Failure, value_error}
use infra_twin.Reconciliation.Events.{
  DiscoveryEvent, discovered_ci, discovered_edge, DiscoveredCi, ConnectorDelta, as_ci,
}
use infra_twin.Reconciliation.Tables.{Tables}
use infra_twin.Reconciliation.Resolve.{resolve_canonical_ci}
use infra_twin.Reconciliation.Resolve.Canonical.{Canonical, resolve_canonical_ci-Canonical}
use infra_twin.Reconciliation.Reconcile.{ReconcileResult, reconcile}
use infra_twin.Reconciliation.Delta.{DeltaResult, apply_delta}
use infra_twin.Reconciliation.Run.{found, failed, discover_and_reconcile}
use infra_twin.Reconciliation.Run.Settled.{RunSettled, discover_and_reconcile_settles}
use infra_twin.Reconciliation.Laws.Past.{SamePast}
use infra_twin.Reconciliation.Laws.Isolation.{Isolated}
use infra_twin.Reconciliation.Laws.Growth.{Grown}
use infra_twin.Reconciliation.Laws.Counts.{reconcile_counts}
use infra_twin.Reconciliation.Kept.{
  reconcile_past, reconcile_isolated, reconcile_grows, apply_delta_kept,
}

machinery : Unit {0}
unfolding infra_twin.Prelude.select infra_twin.Prelude.gather infra_twin.Prelude.get
    infra_twin.Prelude.has infra_twin.Prelude.Sort.insert infra_twin.Prelude.Sort.sort
    infra_twin.Model.ci_type_value infra_twin.Model.edge_type_value infra_twin.Db.current_cis
    infra_twin.Db.current_edges infra_twin.Db.dict_of infra_twin.Db.any_of
    infra_twin.Db.Graph.in_types infra_twin.Db.Graph.passes infra_twin.Db.Graph.match_out
    infra_twin.Db.Graph.match_in infra_twin.Db.Runs.start_run infra_twin.Db.Runs.finish_ok
    infra_twin.Db.Runs.finish_error infra_twin.Db.Runs.record_facts
    infra_twin.Db.Connectors.get_connector infra_twin.Db.Connectors.list_connectors
    infra_twin.Db.Connectors.named_connector infra_twin.Db.Connectors.register
    infra_twin.Db.Connectors.resolve_or_register infra_twin.Db.Connectors.set_enabled
    infra_twin.Db.CiRepository.is_valid_at infra_twin.Db.CiRepository.has_key
    infra_twin.Db.CiRepository.is_apart infra_twin.Db.CiRepository.get_current
    infra_twin.Db.CiRepository.get_current_by_id infra_twin.Db.CiRepository.as_of
    infra_twin.Db.CiRepository.history infra_twin.Db.CiRepository.is_current
    infra_twin.Db.CiRepository.is_open_version infra_twin.Db.CiRepository.close_row
    infra_twin.Db.CiRepository.touch_row infra_twin.Db.CiRepository.close_ci
    infra_twin.Db.CiRepository.ci_changed infra_twin.Db.CiRepository.new_version
    infra_twin.Db.CiRepository.insert_row infra_twin.Db.CiRepository.update_ci
    infra_twin.Db.CiRepository.upsert_ci infra_twin.Db.EdgeRepository.last_observed_at_of
    infra_twin.Db.EdgeRepository.get_current_edges infra_twin.Db.EdgeRepository.edges_as_of
    infra_twin.Db.EdgeRepository.is_current_edge infra_twin.Db.EdgeRepository.close_edge_row
    infra_twin.Db.EdgeRepository.close_edge infra_twin.Db.EdgeRepository.write_decayed_version
    infra_twin.Db.EdgeRepository.Upsert.newest infra_twin.Db.EdgeRepository.Upsert.prior_count
    infra_twin.Db.EdgeRepository.Upsert.drop infra_twin.Db.EdgeRepository.Upsert.last_of
    infra_twin.Db.EdgeRepository.Upsert.combined_obs infra_twin.Db.EdgeRepository.Upsert.last_time
    infra_twin.Db.EdgeRepository.Upsert.first_evidence
    infra_twin.Db.EdgeRepository.Upsert.next_evidence
    infra_twin.Db.EdgeRepository.Upsert.same_evidences
    infra_twin.Db.EdgeRepository.Upsert.insert_edge infra_twin.Db.EdgeRepository.Upsert.edge_version
    infra_twin.Db.EdgeRepository.Upsert.close_version
    infra_twin.Db.EdgeRepository.Upsert.edge_changed
    infra_twin.Db.EdgeRepository.Upsert.reobserve_with infra_twin.Db.EdgeRepository.Upsert.reobserve
    infra_twin.Db.EdgeRepository.Upsert.update_edge infra_twin.Db.EdgeRepository.Upsert.upsert_with
    infra_twin.Db.EdgeRepository.Upsert.upsert_edge infra_twin.Db.Tx.◌>>=◌ infra_twin.Db.Tx.fold_tx
    infra_twin.Prelude.Decimal.to_decimal infra_twin.Prelude.Decimal.read_int
    infra_twin.Confidence.fmin infra_twin.Confidence.fmax infra_twin.Confidence.decay_power
    infra_twin.Confidence.raw_confidence infra_twin.Confidence.confidence_for_observations
    infra_twin.Confidence.decay_past infra_twin.Confidence.decayed_confidence
    infra_twin.Reconciliation.Projection.any_match infra_twin.Reconciliation.Projection.merge_rows
    infra_twin.Reconciliation.Projection.merge_vertex
    infra_twin.Reconciliation.Projection.match_vertices
    infra_twin.Reconciliation.Projection.merge_between
    infra_twin.Reconciliation.Projection.merge_relationship
    infra_twin.Reconciliation.Projection.delete_relationship
    infra_twin.Reconciliation.Projection.delete_vertex infra_twin.Reconciliation.Projection.project
    infra_twin.Reconciliation.Tables.insert_or_update infra_twin.Reconciliation.Tables.register_rows
    infra_twin.Reconciliation.Tables.draw_id infra_twin.Reconciliation.Tables.write_ci
    infra_twin.Reconciliation.Tables.write_edge infra_twin.Reconciliation.Tables.end_ci
    infra_twin.Reconciliation.Tables.end_edge infra_twin.Reconciliation.Tables.bind_source_key
    infra_twin.Reconciliation.Tables.register_alias_keys
    infra_twin.Reconciliation.Tables.record_merge infra_twin.Reconciliation.Tables.write_graph
    infra_twin.Reconciliation.Tables.write_runs infra_twin.Reconciliation.Tables.write_facts
    infra_twin.Reconciliation.Resolve.any_text infra_twin.Reconciliation.Resolve.candidates_of
    infra_twin.Reconciliation.Resolve.smallest_key infra_twin.Reconciliation.Resolve.confirm
    infra_twin.Reconciliation.Resolve.pick_candidate
    infra_twin.Reconciliation.Resolve.resolve_canonical_ci infra_twin.Reconciliation.Resolve.get_id
    infra_twin.Reconciliation.Resolve.bound_id infra_twin.Reconciliation.Resolve.resolve_ref
    infra_twin.Reconciliation.Observe.ci_of infra_twin.Reconciliation.Observe.store_ci
    infra_twin.Reconciliation.Observe.observe_known infra_twin.Reconciliation.Observe.observe_merged
    infra_twin.Reconciliation.Observe.observe_new infra_twin.Reconciliation.Observe.observe_unknown
    infra_twin.Reconciliation.Observe.observe_found infra_twin.Reconciliation.Observe.observe_ci
    infra_twin.Reconciliation.Observe.observe_cis infra_twin.Reconciliation.Reconcile.is_seen
    infra_twin.Reconciliation.Reconcile.is_seen_edge
    infra_twin.Reconciliation.Reconcile.source_owned_ids
    infra_twin.Reconciliation.Reconcile.close_unseen infra_twin.Reconciliation.Reconcile.close_type
    infra_twin.Reconciliation.Reconcile.close_cis infra_twin.Reconciliation.Reconcile.edge_of
    infra_twin.Reconciliation.Reconcile.store_edge
    infra_twin.Reconciliation.Reconcile.observe_between
    infra_twin.Reconciliation.Reconcile.observe_edge
    infra_twin.Reconciliation.Reconcile.close_unseen_edge
    infra_twin.Reconciliation.Reconcile.close_edges infra_twin.Reconciliation.Reconcile.reconcile
    infra_twin.Reconciliation.Delta.delta_facts infra_twin.Reconciliation.Delta.apply_between
    infra_twin.Reconciliation.Delta.apply_edge infra_twin.Reconciliation.Delta.matching_edge
    infra_twin.Reconciliation.Delta.remove_ci infra_twin.Reconciliation.Delta.remove_between
    infra_twin.Reconciliation.Delta.remove_edge infra_twin.Reconciliation.Delta.apply_for
    infra_twin.Reconciliation.Delta.apply_delta infra_twin.Reconciliation.Run.text_prefix
    infra_twin.Reconciliation.Run.resolve_connector infra_twin.Reconciliation.Run.begin_run
    infra_twin.Reconciliation.Run.mark_failed infra_twin.Reconciliation.Run.reconcile_run
    infra_twin.Reconciliation.Run.settle infra_twin.Reconciliation.Run.run_discovery
    infra_twin.Reconciliation.Run.discover_and_reconcile
    infra_twin.Reconciliation.Run.apply_event_delta
machinery = tt

abbrev vpc_row : ℕ → ℕ → String → Ci Fixed (Unit {0})
vpc_row tenant id external_id = record {
  id = id;
  tenant_id = tenant;
  type = vpc;
  external_id = external_id;
  name = none;
  attributes = tt;
  confidence = unit;
  first_seen = 10;
  last_seen = 10;
  valid_from = 10;
  valid_to = none;
}

-- Tenant 7 has the CI 1 of "aws", with an alias key, and the CI 2 of "gcp"; tenant 8 has the CI 3.
abbrev stored : Tables Fixed (Unit {0})
stored = record {
  cis = vpc_row 7 1 "x" ∷ vpc_row 7 2 "old" ∷ vpc_row 8 3 "x" ∷ [];
  edges = [];
  source_keys =
      record { tenant_id = 7; source = "aws"; native_id = "x"; ci_id = 1; observed_at = 10 }
      ∷ record { tenant_id = 7; source = "gcp"; native_id = "old"; ci_id = 2; observed_at = 10 }
      ∷ [];
  alias_keys =
      record {
        tenant_id = 7;
        alias_key = "k";
        ci_id = 1;
        ci_type = "vpc";
        source = "aws";
        observed_at = 10;
      }
      ∷ [];
  merges = [];
  unmerges = [];
  candidates = [];
  graph = record { vertices = []; relationships = [] };
  connectors =
      record {
        connector_id = 9;
        tenant_id = 7;
        type = "gcp";
        display_name = "gcp";
        config = tt;
        enabled = true;
        created_at = 5;
      }
      ∷ [];
  runs = [];
  facts = [];
  drawn = 0;
}

abbrev discovered : DiscoveredCi (Unit {0})
discovered = record {
  type = vpc;
  external_id = "y";
  name = some "web";
  attributes = tt;
  alias_keys = "k" ∷ [];
}

abbrev events : List (DiscoveryEvent Fixed (Unit {0}))
events =
    discovered_ci discovered
    ∷ discovered_ci
        (record { type = subnet; external_id = "z"; name = none; attributes = tt; alias_keys = [] })
    ∷ discovered_edge (record {
      type = contains;
      from_ref = record { type = vpc; external_id = "y" };
      to_ref = record { type = subnet; external_id = "z" };
      source = declared;
      confidence = unit;
      evidence = record { source = "gcp"; observed_at = 40; detail = none } ∷ [];
      edge_key = "";
    })
    ∷ []

abbrev draw : ℕ → ℕ
draw n = 100 + n

abbrev same_unit : Unit {0} → Unit {0} → Bool
same_unit _ _ = true

-- what an outcome holds, or another value where it holds none
abbrev state_of : {A : Type 0} → TxOutcome (Tables Fixed (Unit {0})) A → Tables Fixed (Unit {0})
state_of (done a t) = t
state_of (raised e) = stored

abbrev value_of : {A : Type 0} → A → TxOutcome (Tables Fixed (Unit {0})) A → A
value_of other (done a t) = a
value_of other (raised e) = other

abbrev batch : TxOutcome (Tables Fixed (Unit {0})) ReconcileResult
batch = reconcile same_unit draw 7 50 events "gcp" (vpc ∷ subnet ∷ []) (contains ∷ []) stored

abbrev counted : ReconcileResult
counted = record {
  cis_created = 1;
  cis_updated = 1;
  cis_unchanged = 0;
  cis_closed = 1;
  edges_written = 1;
  edges_closed = 0;
}

batch_done : batch ≡ done counted (state_of batch)
unfolding machinery
batch_done = refl

merged_into : map (λ m. m.canonical_ci_id) (state_of batch).merges ≡ 1 ∷ []
unfolding machinery
merged_into = refl

reconcile_past_example : SamePast 7 30 none stored (state_of batch)
reconcile_past_example =
    reconcile_past same_unit draw 7 50 events "gcp" (vpc ∷ subnet ∷ []) (contains ∷ []) stored
      (state_of batch) counted batch_done 30 none (omega arith)

reconcile_isolated_example : Isolated 7 stored (state_of batch)
reconcile_isolated_example =
    reconcile_isolated same_unit draw 7 50 events "gcp" (vpc ∷ subnet ∷ []) (contains ∷ []) stored
      (state_of batch) counted batch_done

reconcile_grows_example : Grown stored (state_of batch)
reconcile_grows_example =
    reconcile_grows same_unit draw 7 50 events "gcp" (vpc ∷ subnet ∷ []) (contains ∷ []) stored
      (state_of batch) counted batch_done

reconcile_counts_example : 1 + 1 + 0 ≡ length (gather as_ci events)
reconcile_counts_example =
    reconcile_counts same_unit draw 7 50 events "gcp" (vpc ∷ subnet ∷ []) (contains ∷ []) stored
      (state_of batch) counted batch_done

resolved : resolve_canonical_ci 7 discovered "gcp" stored ≡ some (vpc_row 7 1 "x", "k")
unfolding machinery
resolved = refl

resolve_canonical_ci-Canonical_example : Canonical 7 discovered "gcp" stored (vpc_row 7 1 "x") "k"
resolve_canonical_ci-Canonical_example =
    resolve_canonical_ci-Canonical 7 discovered "gcp" stored (vpc_row 7 1 "x") "k" resolved

abbrev delta : ConnectorDelta Fixed (Unit {0})
delta = record {
  upserts = events;
  removed_cis = record { type = vpc; external_id = "old" } ∷ [];
  removed_edges = [];
}

abbrev applied : TxOutcome (Tables Fixed (Unit {0})) DeltaResult
applied = apply_delta same_unit draw 7 50 9 delta 45 stored

abbrev delta_counted : DeltaResult
delta_counted = record {
  cis_created = 1;
  cis_updated = 1;
  cis_unchanged = 0;
  cis_closed = 1;
  edges_written = 1;
  edges_closed = 0;
  connector_run_id = some 100;
}

applied_done : applied ≡ done delta_counted (state_of applied)
unfolding machinery
applied_done = refl

-- An unknown connector and an unresolved endpoint raise.
unknown_connector : apply_delta same_unit draw 7 50 8 delta 45 stored ≡ raised value_error
unfolding machinery
unknown_connector = refl

unresolved :
    apply_delta same_unit draw 7 50 9
      (record {
        upserts =
            discovered_edge (record {
              type = contains;
              from_ref = record { type = vpc; external_id = "x" };
              to_ref = record { type = subnet; external_id = "gone" };
              source = declared;
              confidence = unit;
              evidence = record { source = "gcp"; observed_at = 40; detail = none } ∷ [];
              edge_key = "";
            })
            ∷ [];
        removed_cis = [];
        removed_edges = [];
      })
      45
      stored
    ≡ raised value_error
unfolding machinery
unresolved = refl

apply_delta_kept_example :
    SamePast 7 30 none stored (state_of applied)
    × Isolated 7 stored (state_of applied)
    × Grown stored (state_of applied)
apply_delta_kept_example =
    apply_delta_kept same_unit draw 7 50 30 none 9 delta 45 stored (state_of applied) delta_counted
      (omega arith) applied_done

discover_and_reconcile_settles_example :
    let (outcome, t) =
      discover_and_reconcile same_unit draw 7 tt
        (λ _. "failed")
        true
        "gcp"
        (vpc ∷ subnet ∷ [])
        (contains ∷ [])
        40
        45
        50
        60
        (found events)
        stored in
    RunSettled same_unit draw 7 tt
      (λ _. "failed")
      true
      "gcp"
      (vpc ∷ subnet ∷ [])
      (contains ∷ [])
      40
      45
      50
      60
      stored
      (found events)
      outcome
      t
discover_and_reconcile_settles_example =
    discover_and_reconcile_settles same_unit draw 7 tt (λ _. "failed") true "gcp"
      (vpc ∷ subnet ∷ []) (contains ∷ []) 40 45 50 60 stored (found events)

-- The run of a failed discovery stays `partial` where the mark is not written.
left_partial :
    let (outcome, t) =
      discover_and_reconcile same_unit draw 7 tt
        (λ _. "failed")
        false
        "gcp"
        (vpc ∷ subnet ∷ [])
        (contains ∷ [])
        40
        45
        50
        60
        (failed "unreachable")
        stored in
    map (λ (r : ConnectorRun). r.status) t.runs ≡ partial ∷ []
unfolding machinery
left_partial = refl
