-- ===== src/Query/Rca.antt =====
-- services/query rca.py: root-cause analysis by change and topology. Times are microseconds. The sentence
-- that `_build_evidence` writes for a reader is not modelled.
pub mod Upstream
pub mod Candidates
use Prim.Native.Nat.{compare, min}
use infra_twin.Prelude.{
  ℕ, suc, ◌+◌, ◌-◌, Bool, true, false, Option, none, some, List, [], ◌∷◌, ◌++◌, Dict, get, has,
  keys, gather, select, leb, ltb, and_then, not_after, if◌then◌else◌,
}
use infra_twin.Prelude.Sort.{sort}
use infra_twin.Model.{EdgeType}
use infra_twin.Float.{Float, of_int}
use infra_twin.Db.{Conn, current_cis, any_of, dict_of}
use infra_twin.Db.Graph.{match_out, match_in}
use infra_twin.Query.Bfs.{Search, search}
use infra_twin.Query.Blast.{outgoing_impact, incoming_impact, unlabelled}
use infra_twin.Query.ChangeFeed.{
  Kind, created, updated, removed, Subject, ci, edge, ChangeEvent, change_feed,
}
use infra_twin.Query.WhatIf.{float_order}

pub record CandidateCause (W : Type 0) : Type 0 where
  pub event : ChangeEvent
  pub distance : ℕ
  pub score : W

pub record RcaResult (W : Type 0) : Type 0 where
  pub target_id : ℕ
  pub incident_at : ℕ
  pub since : ℕ
  pub until : ℕ
  pub max_depth : ℕ
  pub candidates : List (CandidateCause W)

module _ {W J : Type 0} ⦃f : Float W⦄ where
  unfoldable pub upstream_neighbors : Conn W J → ℕ → ℕ → W → List ℕ
  upstream_neighbors conn tenant_id ci_id min_confidence =
      keys (match_in conn outgoing_impact tenant_id ci_id min_confidence)
      ++ keys (match_out conn incoming_impact tenant_id ci_id min_confidence)

  -- the loop of `_build_neighborhood`, which has no cap on the fan-out
  unfoldable pub upstream_search : Conn W J → ℕ → ℕ → ℕ → W → Search (Unit {0})
  upstream_search conn tenant_id target_id max_depth min_confidence =
      search (λ node. unlabelled (upstream_neighbors conn tenant_id node min_confidence)) none
        target_id max_depth

-- `uid in present`
unfoldable pub is_present : {W J : Type 0} → Conn W J → List ℕ → ℕ → Bool
is_present conn ids n =
    has (dict_of (λ r. r.id) (λ r. r.type) (select (λ r. any_of ids r.id) (current_cis conn))) n

module _ {W J : Type 0} ⦃f : Float W⦄ where
  -- `neighbor_distance`: the discovered nodes that are current CIs, and the target
  unfoldable pub build_neighborhood : Conn W J → ℕ → ℕ → ℕ → W → Dict ℕ
  build_neighborhood conn tenant_id target_id max_depth min_confidence =
      let s = upstream_search conn tenant_id target_id max_depth min_confidence in
      select (λ e. is_present conn (keys s.discovered) e.0) s.discovered ++ (target_id, 0) ∷ []

-- `_KIND_WEIGHT`, which is the same for both entities
abbrev pub kind_weight : Kind → ℕ
kind_weight removed = 3
kind_weight updated = 2
kind_weight created = 1

-- The distance of the event's subject: the nearer end of an edge, of those in the neighbourhood.
unfoldable pub subject_distance : Dict ℕ → ℕ → Subject → Option ℕ
subject_distance neighbor_distance id (ci _ _) = get neighbor_distance id
subject_distance neighbor_distance id (edge _ from_id to_id) =
    elim (get neighbor_distance from_id) [
      | none ↦ get neighbor_distance to_id
      | some d ↦ elim (get neighbor_distance to_id) [ none ↦ some d | some e ↦ some (min d e) ]
    ]

abbrev pub entity_index : Subject → ℕ
entity_index (ci _ _) = 0
entity_index (edge _ _ _) = 1

module _ {W : Type 0} ⦃f : Float W⦄ where
  -- `timedelta.total_seconds()`
  abbrev pub total_seconds : ℕ → W
  total_seconds microseconds = f.div (of_int microseconds) (of_int 1000000)

  unfoldable pub score_event : ChangeEvent → ℕ → ℕ → ℕ → W
  score_event e distance incident_at lookback =
      let proximity = f.div (of_int 1) (f.add (of_int 1) (of_int distance)) in
      let age_seconds = total_seconds (incident_at - e.at) in
      let lookback_seconds = total_seconds lookback in
      let recency = f.div lookback_seconds (f.add lookback_seconds age_seconds) in
      f.mul (of_int (kind_weight e.kind)) (f.add proximity recency)

  -- the body of the loop over the events
  unfoldable pub candidate : Dict ℕ → ℕ → ℕ → ChangeEvent → Option (CandidateCause W)
  candidate neighbor_distance incident_at lookback e =
      if leb incident_at e.at
      then none
      else elim (subject_distance neighbor_distance e.id e.subject) [
        | none ↦ none
        | some distance ↦ some (record {
          event = e;
          distance = distance;
          score = score_event e distance incident_at lookback;
        })
      ]

  -- `(-c.score, c.distance, age_seconds, c.event.entity, str(c.event.id))`; "ci" comes before "edge"
  unfoldable pub rank : ℕ → CandidateCause W → CandidateCause W → Bool
  rank incident_at c d = not_after (
      and_then (float_order d.score c.score) (
        and_then (compare c.distance d.distance) (
          and_then (compare (incident_at - c.event.at) (incident_at - d.event.at)) (
            and_then (compare (entity_index c.event.subject) (entity_index d.event.subject))
              (compare c.event.id d.event.id)))))

module _ {W J : Type 0} ⦃f : Float W⦄ where
  -- `none` is the `OverflowError` of `incident_at - lookback` before the first `datetime`.
  unfoldable pub root_cause : Conn W J → ℕ → ℕ → ℕ → ℕ → ℕ → Option (RcaResult W)
  root_cause conn tenant_id target_id incident_at lookback max_depth =
      if ltb incident_at lookback
      then none
      else (let since = incident_at - lookback in
          let distances = build_neighborhood conn tenant_id target_id max_depth (of_int 0) in
          let events = change_feed conn since incident_at in
          some (record {
            target_id = target_id;
            incident_at = incident_at;
            since = since;
            until = incident_at;
            max_depth = max_depth;
            candidates =
                sort (rank incident_at) (gather (candidate distances incident_at lookback) events);
          }))
