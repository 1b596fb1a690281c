-- ===== src/Query/Tests/Changes.antt =====
-- The change feed of the estate and the causes of an incident in it.
use infra_twin.Prelude.{ℕ, ◌-◌, ◌≤◌, ◌<◌, ◌≡◌, ◌↔◌, ◌⊎◌, refl, true, none, some, Memᴰ}
use infra_twin.Prelude.Sort.{IsOrdered}
use infra_twin.Model.{k8s_pod}
use infra_twin.Float.Fixed.{Fixed, fixed_float, Fixed-laws}
use infra_twin.Query.Bfs.Walk.{Distance}
use infra_twin.Query.Blast.{impact_neighbors}
use infra_twin.Query.ChangeFeed.{ChangeEvent, created, ci, change_feed, ci_versions, edge_versions}
use infra_twin.Query.ChangeFeed.Window.{Listed, change_feed_iff, change_feed_window}
use infra_twin.Query.Rca.{CandidateCause, RcaResult, root_cause, upstream_neighbors}
use infra_twin.Query.Rca.Upstream.{upstream-converse}
use infra_twin.Query.Rca.Candidates.{Touches, Upstream, root_cause_sound, root_cause_ranked}
use infra_twin.Query.Tests.{machinery, estate}

abbrev pod_created : ChangeEvent
pod_created = record { kind = created; at = 100; id = 4; subject = ci k8s_pod none }

change_feed_iff_example : Memᴰ pod_created (change_feed estate 50 200) ↔ (
    Listed estate 50 200 (ci_versions estate) pod_created
    ⊎ Listed estate 50 200 (edge_versions estate) pod_created)
change_feed_iff_example = change_feed_iff estate 50 200 pod_created

change_feed_window_example :
    ((e : ChangeEvent) → Memᴰ e (change_feed estate 50 200) → (50 ≤ e.at) × (e.at < 200))
    × IsOrdered (λ (e g : ChangeEvent). g.at ≤ e.at) (change_feed estate 50 200)
change_feed_window_example = change_feed_window estate 50 200

upstream-converse_example :
    Memᴰ 3 (upstream_neighbors estate 7 2 0) ↔ Memᴰ 2 (impact_neighbors estate 7 3 0)
upstream-converse_example = upstream-converse estate 7 0 2 3

cause_exists :
    (r : RcaResult Fixed) × (root_cause estate 7 4 200 150 3 ≡ some r)
    × ((c : CandidateCause Fixed) × Memᴰ c r.candidates)
unfolding machinery
cause_exists = (_, refl, (_, Memᴰ.head refl))

abbrev causes : RcaResult Fixed
causes = cause_exists.0

abbrev pod_cause : CandidateCause Fixed
pod_cause = cause_exists.2.0

root_cause_sound_example :
    Memᴰ pod_cause.event (change_feed estate (200 - 150) 200)
    × (200 - 150 ≤ pod_cause.event.at)
    × (pod_cause.event.at < 200)
    × ((n : ℕ) × Touches pod_cause.event.subject pod_cause.event.id n
        × ((n ≡ 4) × (pod_cause.distance ≡ 0)
            ⊎ Distance (Upstream estate 7 4 3 0) 4 n pod_cause.distance
              × (0 < pod_cause.distance)
              × (pod_cause.distance ≤ 3)))
root_cause_sound_example =
    root_cause_sound estate 7 4 3 200 150 causes cause_exists.1 pod_cause cause_exists.2.1

root_cause_ranked_example :
    IsOrdered
      (λ (c d : CandidateCause Fixed). fixed_float.le d.score c.score ≡ true)
      causes.candidates
root_cause_ranked_example = root_cause_ranked estate 7 4 3 200 150 causes cause_exists.1 Fixed-laws
