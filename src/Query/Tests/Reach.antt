-- ===== src/Query/Tests/Reach.antt =====
-- What reaches the instance of the estate.
use infra_twin.Prelude.{◌≤◌, ◌<◌, ◌≡◌, ◌↔◌, refl, true, [], ◌∷◌, none, some, Memᴰ, length}
use infra_twin.Model.{Ci, internet, connects_to}
use infra_twin.Float.Fixed.{Fixed, fixed_float}
use infra_twin.Query.Reachability.{Reachability, ReachingSource, reachability}
use infra_twin.Query.Reachability.Paths.{
  IsRoute, reachability_returns, reachability_paths, reached_by_internet_iff,
}
use infra_twin.Query.Tests.{machinery, estate}

-- The internet reaches the instance in one hop.
abbrev way_in : ReachingSource
way_in = record {
  id = 9;
  type = internet;
  name = none;
  distance = 1;
  is_internet = true;
  path =
      record {
        from_id = 9;
        to_id = 2;
        edge_type = connects_to;
        evidence = record { source = "flow"; observed_at = 100; detail = none } ∷ [];
      }
      ∷ [];
}

abbrev reached : Reachability
reached = record {
  target_id = 2;
  max_depth = 6;
  reached_by_internet = true;
  sources = way_in ∷ [];
  truncated_supernodes = [];
}

reach_of_instance : reachability estate 7 2 6 0 1000 ≡ some reached
unfolding machinery
reach_of_instance = refl

reachability_returns_example : (r : Reachability) × (reachability estate 7 2 6 0 1000 ≡ some r)
reachability_returns_example = reachability_returns estate 7 2 6 0 1000

reachability_paths_example :
    IsRoute estate 7 0 9 way_in.path 2
    × (length way_in.path ≡ 1)
    × (0 < 1)
    × (1 ≤ 6)
    × ((c : Ci Fixed (Unit {0})) × Memᴰ c estate.cis
        × (c.tenant_id ≡ 7)
        × (c.valid_to ≡ none)
        × (c.id ≡ 9)
        × (c.type ≡ internet)
        × (c.name ≡ none))
reachability_paths_example =
    reachability_paths estate 7 2 6 0 1000 reached reach_of_instance way_in (Memᴰ.head refl)

reached_by_internet_iff_example :
    (reached.reached_by_internet ≡ true)
    ↔ ((s : ReachingSource) × Memᴰ s reached.sources × (s.type ≡ internet))
reached_by_internet_iff_example =
    reached_by_internet_iff estate 7 2 6 0 1000 reached reach_of_instance
