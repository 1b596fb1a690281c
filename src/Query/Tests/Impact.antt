-- ===== src/Query/Tests/Impact.antt =====
-- The blast radius and the what-if estimates of the estate.
use infra_twin.Prelude.{
  ℕ, ◌≤◌, ◌<◌, ◌≡◌, ◌↔◌, inl, inr, refl, true, false, [], ◌∷◌, none, some, Memᴰ, length, arith,
}
use mathlib.Core.List.Memᴰ
use infra_twin.Model.{Ci, CiType, ec2_instance, depends_on, declared, k8s_pod}
use infra_twin.Float.Fixed.{Fixed, fixed_float, unit}
use infra_twin.Query.Bfs.Walk.{Chain, Distance}
use infra_twin.Query.Blast.{ImpactedCi as BlastHit, blast_radius}
use infra_twin.Query.Blast.Impact.{Impacts}
use infra_twin.Query.Blast.Reach.{blast_radius_sound, blast_radius_exact, current_detail}
use infra_twin.Query.WhatIf.{
  WhatIfEdgeHop, ImpactedCi, WhatIfImpact, impact, unknown_change_kind, what_if_impact,
  is_change_kind,
}
use infra_twin.Query.WhatIf.Routes.{IsImpactRoute, what_if_outcome, what_if_routes}
use infra_twin.Query.WhatIf.Provenance.{NoRow, what_if_default_provenance, modify_halves_remove}
use infra_twin.Query.Tests.{machinery, estate}

abbrev hit : ℕ → CiType → ℕ → BlastHit
hit n t d = record { id = n; type = t; name = none; distance = d }

-- The pod goes with the instance, and the instance with its network.
blast_of_network :
    (blast_radius estate 7 1 4 0 1000).impacted ≡ hit 2 ec2_instance 1 ∷ hit 4 k8s_pod 2 ∷ []
unfolding machinery
blast_of_network = refl

nothing_truncated : (blast_radius estate 7 1 4 0 1000).truncated_supernodes ≡ []
unfolding machinery
nothing_truncated = refl

-- With a cap of 0 the network itself is reported and nothing is reached.
blast_capped :
    (blast_radius estate 7 1 4 0 0).truncated_supernodes
    ≡ record { id = 1; degree = 1; depth = 0 } ∷ []
unfolding machinery
blast_capped = refl

pod_is_hit : Memᴰ (hit 4 k8s_pod 2) (blast_radius estate 7 1 4 0 1000).impacted
unfolding machinery
pod_is_hit = Memᴰ.tail (Memᴰ.head refl)

blast_radius_sound_example :
    Chain (Impacts estate 7 0) 1 4 2
    × (0 < 2)
    × (2 ≤ 4)
    × ((r : Ci Fixed (Unit {0})) × Memᴰ r estate.cis
        × (r.tenant_id ≡ 7)
        × (r.valid_to ≡ none)
        × (r.id ≡ 4)
        × (r.type ≡ k8s_pod)
        × (r.name ≡ none))
blast_radius_sound_example = blast_radius_sound estate 7 1 4 0 1000 (hit 4 k8s_pod 2) pod_is_hit

blast_radius_exact_example : Memᴰ (hit 4 k8s_pod 2) (blast_radius estate 7 1 4 0 1000).impacted ↔ (
    Distance (Impacts estate 7 0) 1 4 2
    × (0 < 2)
    × (2 ≤ 4)
    × (current_detail estate 4 ≡ some (k8s_pod, none)))
blast_radius_exact_example =
    blast_radius_exact estate 7 1 4 0 1000 nothing_truncated (hit 4 k8s_pod 2)

-- The pod depends on the instance by a row of confidence 0.3 that is stored from the pod to the
-- instance; the estimate reports it as declared, with confidence 1.
abbrev wrong_hop : WhatIfEdgeHop Fixed
wrong_hop = record {
  from_id = 2;
  to_id = 4;
  edge_type = depends_on;
  source = declared;
  confidence = unit;
}

abbrev pod_impact : Fixed → ImpactedCi Fixed
pod_impact c = record {
  id = 4;
  type = k8s_pod;
  external_id = "x";
  name = none;
  distance = 1;
  confidence = c;
  evidence = wrong_hop ∷ [];
}

abbrev removal : WhatIfImpact Fixed
removal = record {
  target_id = 2;
  change_kind = "remove";
  max_depth = 4;
  impacted = pod_impact unit ∷ [];
  truncated_supernodes = [];
}

what_if_removed : what_if_impact estate 7 2 "remove" 4 0 1000 ≡ impact removal
unfolding machinery
what_if_removed = refl

abbrev halved : WhatIfImpact Fixed
halved = record {
  target_id = 2;
  change_kind = "modify";
  max_depth = 4;
  impacted = pod_impact 500000000000000 ∷ [];
  truncated_supernodes = [];
}

what_if_modified : what_if_impact estate 7 2 "modify" 4 0 1000 ≡ impact halved
unfolding machinery
what_if_modified = refl

what_if_outcome_example :
    (is_change_kind "remove" ≡ true
      → (w : WhatIfImpact Fixed) × (what_if_impact estate 7 2 "remove" 4 0 1000 ≡ impact w)
        × (w.change_kind ≡ "remove"))
    × (is_change_kind "remove" ≡ false
        → what_if_impact estate 7 2 "remove" 4 0 1000 ≡ unknown_change_kind)
what_if_outcome_example = what_if_outcome estate 7 2 4 0 1000 "remove"

what_if_routes_example :
    IsImpactRoute estate 7 0 2 (wrong_hop ∷ []) 4
    × (length (wrong_hop ∷ []) ≡ 1)
    × (0 < 1)
    × (1 ≤ 4)
what_if_routes_example =
    what_if_routes estate 7 2 4 0 1000 "remove" removal what_if_removed (pod_impact unit)
      (Memᴰ.head refl)

-- No row of the estate leads from the instance to the pod.
no_row : NoRow estate depends_on 2 4
no_row e m own is_open t a b = elim (Memᴰ.cases_cons m) [
  | inl p ↦ ground arith
  | inr m1 ↦ elim (Memᴰ.cases_cons m1) [
    | inl p ↦ ground arith
    | inr m2 ↦ elim (Memᴰ.cases_cons m2) [
      | inl p ↦ ground arith
      | inr m3 ↦ elim (Memᴰ.cases_cons m3) [
        | inl p ↦ ground arith
        | inr m4 ↦ absurd (Memᴰ.not-nil m4)
      ]
    ]
  ]
]

what_if_default_provenance_example : (wrong_hop.source ≡ declared) × (wrong_hop.confidence ≡ unit)
what_if_default_provenance_example =
    what_if_default_provenance estate 7 2 4 0 1000 "remove" removal what_if_removed
      (pod_impact unit) (Memᴰ.head refl) wrong_hop (Memᴰ.head refl) no_row

modify_halves_remove_example : Memᴰ (pod_impact 500000000000000) halved.impacted ↔ (
    (j : ImpactedCi Fixed) × Memᴰ j removal.impacted
    × (pod_impact 500000000000000
        ≡ record j { confidence = fixed_float.mul j.confidence (fixed_float.lit 5 1) }))
modify_halves_remove_example =
    modify_halves_remove estate 7 2 4 0 1000 halved removal what_if_modified what_if_removed
      (pod_impact 500000000000000)
