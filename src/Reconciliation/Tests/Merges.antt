-- ===== src/Reconciliation/Tests/Merges.antt =====
-- A merge that is reversed, a candidate that is accepted and one that is dismissed.
use infra_twin.Prelude.{
  ℕ, suc, ◌+◌, ◌≡◌, refl, Bool, true, Option, none, some, List, [], ◌∷◌, map, arith, String,
}
use infra_twin.Float.Fixed.{Fixed, fixed_float, unit}
use infra_twin.Model.{Ci, vpc, Edge, contains, declared, Evidence}
use infra_twin.Db.Tx.{
  TxOutcome, done, raised, Failure, merge_not_found, merge_already_reversed, candidate_not_found,
  candidate_already_resolved,
}
use infra_twin.Reconciliation.Tables.{Tables, CiMerge, merged_via, MergeCandidate, pending}
use infra_twin.Reconciliation.Unmerge.{UnmergeOutcome, unmerge}
use infra_twin.Reconciliation.Candidates.{AcceptOutcome, accept_candidate}
use infra_twin.Reconciliation.Candidates.Dismissal.{dismiss_candidate}
use infra_twin.Reconciliation.Candidates.Kept.{accept_candidate_kept}
use infra_twin.Reconciliation.Candidates.Once.{accept_candidate_once, dismiss_candidate_once}
use infra_twin.Reconciliation.Laws.Past.{SamePast}
use infra_twin.Reconciliation.Laws.Isolation.{Isolated}
use infra_twin.Reconciliation.Laws.Growth.{Grown}
use infra_twin.Reconciliation.Kept.{unmerge_kept}

machinery : Unit {0}
unfolding infra_twin.Prelude.select infra_twin.Prelude.gather infra_twin.Prelude.get
    infra_twin.Prelude.has infra_twin.Prelude.Sort.insert infra_twin.Prelude.Sort.sort
    infra_twin.Model.ci_type_value infra_twin.Model.edge_type_value infra_twin.Db.current_cis
    infra_twin.Db.current_edges infra_twin.Db.any_of infra_twin.Db.Graph.in_types
    infra_twin.Db.Graph.passes infra_twin.Db.Graph.match_out infra_twin.Db.Graph.match_in
    infra_twin.Db.CiRepository.is_valid_at infra_twin.Db.CiRepository.has_key
    infra_twin.Db.CiRepository.is_apart infra_twin.Db.CiRepository.get_current
    infra_twin.Db.CiRepository.get_current_by_id infra_twin.Db.CiRepository.as_of
    infra_twin.Db.CiRepository.history infra_twin.Db.CiRepository.is_current
    infra_twin.Db.CiRepository.is_open_version infra_twin.Db.CiRepository.close_row
    infra_twin.Db.CiRepository.touch_row infra_twin.Db.CiRepository.close_ci
    infra_twin.Db.CiRepository.ci_changed infra_twin.Db.CiRepository.new_version
    infra_twin.Db.CiRepository.insert_row infra_twin.Db.CiRepository.update_ci
    infra_twin.Db.CiRepository.upsert_ci infra_twin.Db.EdgeRepository.last_observed_at_of
    infra_twin.Db.EdgeRepository.get_current_edges infra_twin.Db.EdgeRepository.edges_as_of
    infra_twin.Db.EdgeRepository.is_current_edge infra_twin.Db.EdgeRepository.close_edge_row
    infra_twin.Db.EdgeRepository.close_edge infra_twin.Db.EdgeRepository.write_decayed_version
    infra_twin.Db.EdgeRepository.Upsert.newest infra_twin.Db.EdgeRepository.Upsert.prior_count
    infra_twin.Db.EdgeRepository.Upsert.combined_obs infra_twin.Db.EdgeRepository.Upsert.last_time
    infra_twin.Db.EdgeRepository.Upsert.first_evidence
    infra_twin.Db.EdgeRepository.Upsert.next_evidence
    infra_twin.Db.EdgeRepository.Upsert.same_evidences
    infra_twin.Db.EdgeRepository.Upsert.insert_edge infra_twin.Db.EdgeRepository.Upsert.edge_version
    infra_twin.Db.EdgeRepository.Upsert.close_version
    infra_twin.Db.EdgeRepository.Upsert.edge_changed
    infra_twin.Db.EdgeRepository.Upsert.reobserve_with infra_twin.Db.EdgeRepository.Upsert.reobserve
    infra_twin.Db.EdgeRepository.Upsert.update_edge infra_twin.Db.EdgeRepository.Upsert.upsert_with
    infra_twin.Db.EdgeRepository.Upsert.upsert_edge infra_twin.Db.Tx.◌>>=◌ infra_twin.Db.Tx.fold_tx
    infra_twin.Db.Policies.get_policy infra_twin.Db.Policies.upsert_policy
    infra_twin.Prelude.Decimal.to_decimal infra_twin.Prelude.Decimal.read_int
    infra_twin.Prelude.Uuid.uuid_text infra_twin.Prelude.Uuid.joined
    infra_twin.Prelude.Uuid.contains_text infra_twin.Confidence.fmin infra_twin.Confidence.fmax
    infra_twin.Confidence.decay_power infra_twin.Confidence.raw_confidence
    infra_twin.Confidence.confidence_for_observations infra_twin.Confidence.decay_past
    infra_twin.Confidence.decayed_confidence infra_twin.Reconciliation.Projection.merge_rows
    infra_twin.Reconciliation.Projection.merge_vertex
    infra_twin.Reconciliation.Projection.match_vertices
    infra_twin.Reconciliation.Projection.merge_between
    infra_twin.Reconciliation.Projection.merge_relationship
    infra_twin.Reconciliation.Projection.delete_relationship
    infra_twin.Reconciliation.Projection.delete_vertex infra_twin.Reconciliation.Projection.project
    infra_twin.Reconciliation.Tables.insert_or_update infra_twin.Reconciliation.Tables.register_rows
    infra_twin.Reconciliation.Tables.draw_id infra_twin.Reconciliation.Tables.write_ci
    infra_twin.Reconciliation.Tables.write_edge infra_twin.Reconciliation.Tables.end_ci
    infra_twin.Reconciliation.Tables.end_edge infra_twin.Reconciliation.Tables.bind_source_key
    infra_twin.Reconciliation.Tables.register_alias_keys
    infra_twin.Reconciliation.Tables.record_merge infra_twin.Reconciliation.Tables.write_graph
    infra_twin.Reconciliation.Tables.write_runs infra_twin.Reconciliation.Tables.write_facts
    infra_twin.Reconciliation.Tables.move_source_keys
    infra_twin.Reconciliation.Tables.move_alias_keys infra_twin.Reconciliation.Tables.write_unmerge
    infra_twin.Reconciliation.Tables.write_candidates infra_twin.Reconciliation.Reconcile.is_seen
    infra_twin.Reconciliation.Reconcile.is_seen_edge
    infra_twin.Reconciliation.Reconcile.source_owned_ids
    infra_twin.Reconciliation.Reconcile.close_unseen infra_twin.Reconciliation.Reconcile.close_type
    infra_twin.Reconciliation.Reconcile.close_cis infra_twin.Reconciliation.Reconcile.edge_of
    infra_twin.Reconciliation.Reconcile.store_edge
    infra_twin.Reconciliation.Reconcile.observe_between
    infra_twin.Reconciliation.Reconcile.observe_edge
    infra_twin.Reconciliation.Reconcile.close_unseen_edge
    infra_twin.Reconciliation.Reconcile.close_edges infra_twin.Reconciliation.Reconcile.reconcile
    infra_twin.Reconciliation.Repoint.moved_edge infra_twin.Reconciliation.Repoint.repoint_edge
    infra_twin.Reconciliation.Repoint.repoint_apart
    infra_twin.Reconciliation.Unmerge.provenance_matches
    infra_twin.Reconciliation.Unmerge.is_repoint_candidate
    infra_twin.Reconciliation.Unmerge.unmerge_detail infra_twin.Reconciliation.Unmerge.find_merge
    infra_twin.Reconciliation.Unmerge.is_reversed infra_twin.Reconciliation.Unmerge.split_ci
    infra_twin.Reconciliation.Unmerge.move_to infra_twin.Reconciliation.Unmerge.split_off
    infra_twin.Reconciliation.Unmerge.unmerge_row infra_twin.Reconciliation.Unmerge.unmerge
    infra_twin.Reconciliation.Candidates.choose
    infra_twin.Reconciliation.Candidates.smallest_source_key
    infra_twin.Reconciliation.Candidates.find_candidate
    infra_twin.Reconciliation.Candidates.resolve_candidate
    infra_twin.Reconciliation.Candidates.written_merge
    infra_twin.Reconciliation.Candidates.merge_detail
    infra_twin.Reconciliation.Candidates.candidate_key
    infra_twin.Reconciliation.Candidates.identity_of infra_twin.Reconciliation.Candidates.fuse
    infra_twin.Reconciliation.Candidates.accept_resolved
    infra_twin.Reconciliation.Candidates.finds_pending
    infra_twin.Reconciliation.Candidates.Dismissal.dismiss_pending
    infra_twin.Reconciliation.Candidates.accept_with infra_twin.Reconciliation.Candidates.accept_as
    infra_twin.Reconciliation.Candidates.accept_into
    infra_twin.Reconciliation.Candidates.accept_pair
    infra_twin.Reconciliation.Candidates.accept_found
    infra_twin.Reconciliation.Candidates.accept_candidate
    infra_twin.Reconciliation.Candidates.Dismissal.dismiss_found
    infra_twin.Reconciliation.Candidates.Dismissal.dismiss_candidate
machinery = tt

abbrev vpc_row : ℕ → String → Ci Fixed (Unit {0})
vpc_row id external_id = record {
  id = id;
  tenant_id = 7;
  type = vpc;
  external_id = external_id;
  name = none;
  attributes = tt;
  confidence = unit;
  first_seen = 10;
  last_seen = 10;
  valid_from = 10;
  valid_to = none;
}

abbrev declared_edge : Edge Fixed
declared_edge = record {
  id = 5;
  tenant_id = 7;
  type = contains;
  from_id = 1;
  to_id = 4;
  edge_key = "";
  source = declared;
  confidence = unit;
  evidence = record { source = "gcp"; observed_at = 10; detail = none } ∷ [];
  valid_from = 10;
  valid_to = none;
}

-- "y" of "gcp" was merged into the CI 1, and the CIs 1 and 2 are a candidate.
abbrev stored : Tables Fixed (Unit {0})
stored = record {
  cis = vpc_row 1 "x" ∷ vpc_row 2 "old" ∷ vpc_row 4 "z" ∷ [];
  edges = declared_edge ∷ [];
  source_keys =
      record { tenant_id = 7; source = "gcp"; native_id = "y"; ci_id = 1; observed_at = 10 } ∷ [];
  alias_keys =
      record {
        tenant_id = 7;
        alias_key = "k";
        ci_id = 1;
        ci_type = "vpc";
        source = "gcp";
        observed_at = 10;
      }
      ∷ [];
  merges =
      record {
        merge_id = 60;
        tenant_id = 7;
        canonical_ci_id = 1;
        merged_source = "gcp";
        merged_external_id = "y";
        matched_alias_key = "k";
        evidence = merged_via "gcp" "y" 1 "k";
        merged_at = 10;
      }
      ∷ [];
  unmerges = [];
  candidates =
      record {
        candidate_id = 70;
        tenant_id = 7;
        ci_id_a = 1;
        ci_id_b = 2;
        ci_type = "vpc";
        confidence = unit;
        evidence = "same name";
        status = pending;
        resolved_merge_id = none;
        generated_at = 10;
        resolved_at = none;
      }
      ∷ [];
  graph = record { vertices = []; relationships = [] };
  connectors = [];
  runs = [];
  facts = [];
  drawn = 0;
}

abbrev draw : ℕ → ℕ
draw n = 100 + n

abbrev clock : ℕ → ℕ
clock n = 40

abbrev same_unit : Unit {0} → Unit {0} → Bool
same_unit _ _ = true

-- the tables after an outcome
abbrev state_of : {A : Type 0} → TxOutcome (Tables Fixed (Unit {0})) A → Tables Fixed (Unit {0})
state_of (done a t) = t
state_of (raised e) = stored

abbrev reversal : TxOutcome (Tables Fixed (Unit {0})) UnmergeOutcome
reversal = unmerge same_unit draw clock 7 50 tt 60 stored

abbrev reversal_outcome : UnmergeOutcome
reversal_outcome = record {
  unmerge_id = 102;
  original_merge_id = 60;
  canonical_ci_id = 1;
  restored_ci_id = 100;
  restored_source = "gcp";
  restored_external_id = "y";
  unmerged_at = 50;
}

reversal_done : reversal ≡ done reversal_outcome (state_of reversal)
unfolding machinery
reversal_done = refl

-- The source key and the end of the edge are those of the restored CI.
keys_moved : map (λ k. k.ci_id) (state_of reversal).source_keys ≡ 100 ∷ []
unfolding machinery
keys_moved = refl

ends_moved : map (λ (e : Edge Fixed). e.from_id) (state_of reversal).edges ≡ 1 ∷ 100 ∷ []
unfolding machinery
ends_moved = refl

-- A merge is reversed once, and an unknown one is not found.
reversed_again :
    unmerge same_unit draw clock 7 51 tt 60 (state_of reversal) ≡ raised merge_already_reversed
unfolding machinery
reversed_again = refl

unknown_merge : unmerge same_unit draw clock 7 50 tt 61 stored ≡ raised merge_not_found
unfolding machinery
unknown_merge = refl

unmerge_kept_example :
    SamePast 7 30 none stored (state_of reversal)
    × Isolated 7 stored (state_of reversal)
    × Grown stored (state_of reversal)
unmerge_kept_example =
    unmerge_kept same_unit draw clock 7 50 30 none tt 60 stored (state_of reversal) reversal_outcome
      (omega arith) reversal_done

abbrev acceptance : TxOutcome (Tables Fixed (Unit {0})) (AcceptOutcome Fixed)
acceptance = accept_candidate draw clock 7 50 70 stored

abbrev accept_outcome : AcceptOutcome Fixed
accept_outcome = record {
  candidate_id = 70;
  merge_id = 101;
  canonical_ci_id = 2;
  merged_ci_id = 1;
  merged_source = "gcp";
  merged_external_id = "y";
  confidence = unit;
  resolved_at = 50;
}

acceptance_done : acceptance ≡ done accept_outcome (state_of acceptance)
unfolding machinery
acceptance_done = refl

unknown_candidate : accept_candidate draw clock 7 50 71 stored ≡ raised candidate_not_found
unfolding machinery
unknown_candidate = refl

accept_candidate_once_example :
    (accept_candidate draw clock 7 60 70 (state_of acceptance) ≡ raised candidate_already_resolved)
    × (dismiss_candidate 7 60 70 (state_of acceptance) ≡ raised candidate_already_resolved)
accept_candidate_once_example =
    accept_candidate_once draw clock 7 50 70 stored (state_of acceptance) accept_outcome
      acceptance_done 60

accept_candidate_kept_example :
    SamePast 7 30 none stored (state_of acceptance)
    × Isolated 7 stored (state_of acceptance)
    × Grown stored (state_of acceptance)
accept_candidate_kept_example =
    accept_candidate_kept draw clock 7 50 30 none 70 stored (state_of acceptance) accept_outcome
      (omega arith) acceptance_done

abbrev dismissal : TxOutcome (Tables Fixed (Unit {0})) (Option (MergeCandidate Fixed))
dismissal = dismiss_candidate 7 50 70 stored

dismissal_done : (row : Option (MergeCandidate Fixed)) × (dismissal ≡ done row (state_of dismissal))
unfolding machinery
dismissal_done = (_, refl)

dismiss_candidate_once_example :
    (accept_candidate draw clock 7 60 70 (state_of dismissal) ≡ raised candidate_already_resolved)
    × (dismiss_candidate 7 60 70 (state_of dismissal) ≡ raised candidate_already_resolved)
dismiss_candidate_once_example =
    dismiss_candidate_once draw clock 7 50 70 stored (state_of dismissal) dismissal_done.0
      dismissal_done.1 60
