-- ===== src/Query/Tests.antt =====
-- A small estate and all that a run of the queries on it calls.
mod Impact
mod Reach
mod Changes
use infra_twin.Prelude.{
  ℕ, ◌-◌, ◌≤◌, ◌<◌, ◌≡◌, ◌↔◌, ◌⊎◌, inl, inr, refl, true, false, List, [], ◌∷◌, Option, none, some,
  Memᴰ, length, arith, String,
}
use mathlib.Core.List.Memᴰ
use infra_twin.Prelude.Sort.{IsOrdered}
use infra_twin.Model.{
  Ci, CiType, vpc, ec2_instance, rds, internet, Edge, EdgeType, contains, depends_on, connects_to,
  inferred, declared, k8s_pod,
}
use infra_twin.Float.Fixed.{Fixed, fixed_float, Fixed-laws, unit}
use infra_twin.Db.{Conn, Relationship}
use infra_twin.Query.Bfs.{Supernode}
use infra_twin.Query.Bfs.Walk.{Chain, Distance}
use infra_twin.Query.Blast.{ImpactedCi as BlastHit, blast_radius, impact_neighbors}
use infra_twin.Query.Blast.Impact.{Impacts}
use infra_twin.Query.Blast.Reach.{blast_radius_sound, blast_radius_exact, current_detail}
use infra_twin.Query.Reachability.{Reachability, ReachingSource, reachability}
use infra_twin.Query.Reachability.Paths.{
  IsRoute, reachability_returns, reachability_paths, reached_by_internet_iff,
}
use infra_twin.Query.WhatIf.{
  WhatIfEdgeHop, ImpactedCi, WhatIfImpact, Outcome, impact, unknown_change_kind, what_if_impact,
  is_change_kind,
}
use infra_twin.Query.WhatIf.Routes.{IsImpactRoute, what_if_outcome, what_if_routes}
use infra_twin.Query.WhatIf.Provenance.{NoRow, what_if_default_provenance, modify_halves_remove}
use infra_twin.Query.ChangeFeed.{
  ChangeEvent, created, updated, removed, ci, edge, change_feed, ci_versions, edge_versions,
}
use infra_twin.Query.ChangeFeed.Window.{Listed, change_feed_iff, change_feed_window}
use infra_twin.Query.Rca.{CandidateCause, RcaResult, root_cause, upstream_neighbors}
use infra_twin.Query.Rca.Upstream.{upstream-converse}
use infra_twin.Query.Rca.Candidates.{Touches, Upstream, root_cause_sound, root_cause_ranked}

-- All that the queries call: a test names this one.
machinery : Unit {0}
unfolding infra_twin.Prelude.get infra_twin.Prelude.has infra_twin.Prelude.select
    infra_twin.Prelude.gather infra_twin.Prelude.Sort.insert infra_twin.Prelude.Sort.sort
    infra_twin.Model.ci_type_value infra_twin.Db.any_of infra_twin.Db.current_cis
    infra_twin.Db.dict_of infra_twin.Db.current_edges infra_twin.Db.Graph.match_out
    infra_twin.Db.Graph.match_in infra_twin.Db.Graph.passes infra_twin.Db.Graph.in_types
    infra_twin.Query.Bfs.search infra_twin.Query.Bfs.rounds infra_twin.Query.Bfs.level
    infra_twin.Query.Bfs.expand infra_twin.Query.Bfs.capped infra_twin.Query.Bfs.first_of_key
    infra_twin.Query.Bfs.note infra_twin.Query.Bfs.offer infra_twin.Query.Bfs.report
    infra_twin.Query.Bfs.exceeds infra_twin.Query.Bfs.depth_of infra_twin.Query.Bfs.Trace.trace
    infra_twin.Query.Hops.hop_rows infra_twin.Query.Hops.last_row infra_twin.Query.Hops.hop_matches
    infra_twin.Query.Hops.any_hop infra_twin.Query.Pending.pending_items
    infra_twin.Query.Pending.pending_of infra_twin.Query.Pending.all_hops
    infra_twin.Query.Blast.blast_search infra_twin.Query.Blast.impact_neighbors
    infra_twin.Query.Blast.by_distance infra_twin.Query.Blast.details_of
    infra_twin.Query.Blast.impacted_entry infra_twin.Query.Blast.resolve
    infra_twin.Query.Blast.blast_radius infra_twin.Query.Reachability.reachability
    infra_twin.Query.Reachability.reach_search infra_twin.Query.Reachability.reachability_neighbors
    infra_twin.Query.Reachability.source_order infra_twin.Query.Reachability.is_internet_type
    infra_twin.Query.Reachability.any_internet infra_twin.Query.Reachability.evidence_of
    infra_twin.Query.Reachability.path_hop infra_twin.Query.Reachability.reaching_source
    infra_twin.Query.Reachability.assemble infra_twin.Query.WhatIf.what_if_impact
    infra_twin.Query.WhatIf.estimate infra_twin.Query.WhatIf.whatif_search
    infra_twin.Query.WhatIf.impact_neighbors_with_type infra_twin.Query.WhatIf.assemble
    infra_twin.Query.WhatIf.impacted_ci infra_twin.Query.WhatIf.impact_order
    infra_twin.Query.WhatIf.evidence_hop infra_twin.Query.WhatIf.path_confidence
    infra_twin.Query.WhatIf.derived_confidence infra_twin.Query.WhatIf.forward
    infra_twin.Query.WhatIf.ci_details_of infra_twin.Query.WhatIf.is_change_kind
    infra_twin.Query.ChangeFeed.change_feed infra_twin.Query.ChangeFeed.table_events
    infra_twin.Query.ChangeFeed.opened_event infra_twin.Query.ChangeFeed.closed_event
    infra_twin.Query.ChangeFeed.has_prior infra_twin.Query.ChangeFeed.has_successor
    infra_twin.Query.ChangeFeed.closed_at infra_twin.Query.ChangeFeed.in_window
    infra_twin.Query.ChangeFeed.newest_first infra_twin.Query.ChangeFeed.ci_versions
    infra_twin.Query.ChangeFeed.edge_versions infra_twin.Query.Rca.root_cause
    infra_twin.Query.Rca.rank infra_twin.Query.Rca.candidate infra_twin.Query.Rca.score_event
    infra_twin.Query.Rca.subject_distance infra_twin.Query.Rca.build_neighborhood
    infra_twin.Query.Rca.is_present infra_twin.Query.Rca.upstream_search
    infra_twin.Query.Rca.upstream_neighbors
machinery = tt

abbrev node : ℕ → CiType → Ci Fixed (Unit {0})
node n t = record {
  id = n;
  tenant_id = 7;
  type = t;
  external_id = "x";
  name = none;
  attributes = tt;
  confidence = unit;
  first_seen = 100;
  last_seen = 100;
  valid_from = 100;
  valid_to = none;
}

abbrev link : ℕ → EdgeType → ℕ → Relationship Fixed
link a t b = record { start = a; end = b; type = t; tenant_id = 7; confidence = 300000000000000 }

abbrev row : ℕ → ℕ → EdgeType → ℕ → Edge Fixed
row n a t b = record {
  id = n;
  tenant_id = 7;
  type = t;
  from_id = a;
  to_id = b;
  edge_key = "";
  source = inferred;
  confidence = 300000000000000;
  evidence = record { source = "flow"; observed_at = 100; detail = none } ∷ [];
  valid_from = 100;
  valid_to = none;
}

-- A network 1 contains the instance 2, on which the pod 4 depends; 2 depends on the database 3; the
-- internet 9 connects to 2.
abbrev estate : Conn Fixed (Unit {0})
estate = record {
  tenant = 7;
  cis = node 1 vpc ∷ node 2 ec2_instance ∷ node 3 rds ∷ node 4 k8s_pod ∷ node 9 internet ∷ [];
  edges =
      row 11 1 contains 2
      ∷ row 12 2 depends_on 3
      ∷ row 13 4 depends_on 2
      ∷ row 14 9 connects_to 2
      ∷ [];
  graph = link 1 contains 2 ∷ link 2 depends_on 3 ∷ link 4 depends_on 2 ∷ link 9 connects_to 2 ∷ [];
}
