-- ===== src/Db/Tests/Edges.antt =====
-- Two observations of one edge, and the theorems at them.
use infra_twin.Prelude.{
  ℕ, suc, String, ◌<◌, ◌≡◌, refl, Option, none, some, List, [], ◌∷◌, ◌++◌, Memᴰ, map, arith,
}
use infra_twin.Float.Fixed.{Fixed, fixed_float}
use infra_twin.Model.{Edge, connects_to, inferred, Evidence}
use infra_twin.Db.CiRepository.{written, refused, duplicate_key}
use infra_twin.Db.EdgeRepository.{edges_as_of}
use infra_twin.Db.EdgeRepository.Upsert.{upsert_edge}
use infra_twin.Db.EdgeRepository.Upsert.Count.{
  Observed, seen_first, seen_again, others_written, Recounted, Observed-Recounted,
}
use infra_twin.Db.EdgeRepository.Upsert.Succeeds.{NextOutcome, Observed-outcome}

machinery : Unit {0}
unfolding infra_twin.Prelude.select infra_twin.Prelude.gather infra_twin.Db.CiRepository.is_valid_at
    infra_twin.Db.CiRepository.has_key infra_twin.Db.CiRepository.is_apart
    infra_twin.Db.CiRepository.get_current infra_twin.Db.CiRepository.get_current_by_id
    infra_twin.Db.CiRepository.as_of infra_twin.Db.CiRepository.history
    infra_twin.Db.CiRepository.is_current infra_twin.Db.CiRepository.is_open_version
    infra_twin.Db.CiRepository.close_row infra_twin.Db.CiRepository.touch_row
    infra_twin.Db.CiRepository.close_ci infra_twin.Db.CiRepository.ci_changed
    infra_twin.Db.CiRepository.new_version infra_twin.Db.CiRepository.insert_row
    infra_twin.Db.CiRepository.update_ci infra_twin.Db.CiRepository.upsert_ci
    infra_twin.Db.EdgeRepository.last_observed_at_of infra_twin.Db.EdgeRepository.get_current_edges
    infra_twin.Db.EdgeRepository.edges_as_of infra_twin.Db.EdgeRepository.is_current_edge
    infra_twin.Db.EdgeRepository.close_edge_row infra_twin.Db.EdgeRepository.close_edge
    infra_twin.Db.EdgeRepository.write_decayed_version infra_twin.Db.EdgeRepository.Upsert.newest
    infra_twin.Db.EdgeRepository.Upsert.prior_count infra_twin.Db.EdgeRepository.Upsert.drop
    infra_twin.Db.EdgeRepository.Upsert.last_of infra_twin.Db.EdgeRepository.Upsert.combined_obs
    infra_twin.Db.EdgeRepository.Upsert.last_time infra_twin.Db.EdgeRepository.Upsert.first_evidence
    infra_twin.Db.EdgeRepository.Upsert.next_evidence
    infra_twin.Db.EdgeRepository.Upsert.same_evidences
    infra_twin.Db.EdgeRepository.Upsert.insert_edge infra_twin.Db.EdgeRepository.Upsert.edge_version
    infra_twin.Db.EdgeRepository.Upsert.close_version
    infra_twin.Db.EdgeRepository.Upsert.edge_changed
    infra_twin.Db.EdgeRepository.Upsert.reobserve_with infra_twin.Db.EdgeRepository.Upsert.reobserve
    infra_twin.Db.EdgeRepository.Upsert.update_edge infra_twin.Db.EdgeRepository.Upsert.upsert_with
    infra_twin.Db.EdgeRepository.Upsert.upsert_edge infra_twin.Prelude.Decimal.to_decimal
    infra_twin.Prelude.Decimal.read_int infra_twin.Confidence.fmin infra_twin.Confidence.fmax
    infra_twin.Confidence.decay_power infra_twin.Confidence.raw_confidence
    infra_twin.Confidence.confidence_for_observations infra_twin.Confidence.decay_past
    infra_twin.Confidence.decayed_confidence
machinery = tt

abbrev flow : ℕ → Evidence
flow t = record { source = "aws-flowlogs"; observed_at = t; detail = none }

abbrev marker : String → ℕ → Evidence
marker count t = record { source = "aws-flowlogs-count"; observed_at = t; detail = some count }

abbrev flow_edge : ℕ → Fixed → List Evidence → ℕ → Option ℕ → Edge Fixed
flow_edge id confidence evidence from until = record {
  id = id;
  tenant_id = 7;
  type = connects_to;
  from_id = 1;
  to_id = 2;
  edge_key = "";
  source = inferred;
  confidence = confidence;
  evidence = evidence;
  valid_from = from;
  valid_to = until;
}

abbrev incoming : ℕ → ℕ → Edge Fixed
incoming id t = flow_edge id 600000000000000 (flow t ∷ []) 0 none

abbrev once : Edge Fixed
once = flow_edge 4 600000000000000 (marker "1" 20 ∷ flow 20 ∷ []) 20 none

abbrev twice : Edge Fixed
twice = flow_edge 4 800000000000000 (marker "2" 45 ∷ flow 20 ∷ flow 45 ∷ []) 50 none

abbrev seen_twice : List (Edge Fixed)
seen_twice = record once { valid_to = some 50 } ∷ twice ∷ []

first_upsert : upsert_edge 7 20 (incoming 4 20) [] ≡ written once (once ∷ [])
unfolding machinery
first_upsert = refl

second_upsert : upsert_edge 7 50 (incoming 5 45) (once ∷ []) ≡ written twice seen_twice
unfolding machinery
second_upsert = refl

-- Evidence is mandatory, and a second version in one transaction meets the primary key.
no_evidence : upsert_edge 7 50 (record (incoming 5 45) { evidence = [] }) [] ≡ refused
unfolding machinery
no_evidence = refl

same_time : upsert_edge 7 50 (incoming 6 46) seen_twice ≡ duplicate_key
unfolding machinery
same_time = refl

-- A marker of a count below zero has no confidence, and an unreadable one counts as 1.
negative_count :
    upsert_edge 7 50 (incoming 5 45) (record once { evidence = marker "-1" 20 ∷ [] } ∷ []) ≡ refused
unfolding machinery
negative_count = refl

one_upsert : Observed 7 connects_to 1 2 "" 1 (once ∷ [])
unfolding infra_twin.Prelude.select
one_upsert = seen_first 20 (incoming 4 20) [] once (once ∷ []) refl first_upsert

two_upserts : Observed 7 connects_to 1 2 "" 2 seen_twice
two_upserts = seen_again 1 50 (incoming 5 45) (once ∷ []) twice seen_twice one_upsert second_upsert

-- An edge of another pair is written after the two observations.
abbrev other_pair : List (Edge Fixed)
other_pair = seen_twice ++ record (incoming 9 55) { to_id = 3; valid_from = 60 } ∷ []

still_two : Observed 7 connects_to 1 2 "" 2 other_pair
unfolding machinery
still_two = others_written 2 seen_twice other_pair two_upserts refl

Observed-Recounted_example : Recounted 7 connects_to 1 2 "" 2 other_pair
Observed-Recounted_example = Observed-Recounted 7 connects_to 1 2 "" 0 other_pair still_two

Observed-outcome_example : NextOutcome 7 connects_to 1 2 "" 60 (incoming 8 55) other_pair
Observed-outcome_example =
    Observed-outcome 7 connects_to 1 2 "" 2 60 (incoming 8 55) (flow 55) [] other_pair still_two
      refl
