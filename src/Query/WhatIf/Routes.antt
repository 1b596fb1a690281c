-- ===== src/Query/WhatIf/Routes.antt =====
-- What `what_if_impact` reports: its outcomes, and the evidence of each impacted CI.
use mathlib.Core.List.{map-append}
use infra_twin.Prelude.{
  ℕ, ◌≤◌, ◌<◌, ◌≡◌, inl, inr, true, false, List, [], ◌∷◌, ◌++◌, Option, some, Memᴰ, mem-map, arith,
  refl, map, length, length-map, length-append, subst, sym, ◌∙◌, keys, Dict, String, Memᴰ-append,
}
use infra_twin.Prelude.Sort.{mem-sort}
use infra_twin.Model.{EdgeType, Edge}
use infra_twin.Float.{Float}
use infra_twin.Db.{Conn}
use infra_twin.Db.Graph.{mem-match_in, mem-match_out}
use infra_twin.Query.Bfs.{Search, links}
use infra_twin.Query.Bfs.Keys.{mem-capped, mem-first_of_key}
use infra_twin.Query.Bfs.Result.{discovered-visited, discovered_sound}
use infra_twin.Query.Bfs.Trace.{Hop, IsTrail, trace, trace_visited}
use infra_twin.Query.Hops.{hop_rows}
use infra_twin.Query.Pending.{
  Pending, Resolved, pending_items, all_hops, pending_total, pending_sound,
}
use infra_twin.Query.Blast.{outgoing_impact, incoming_impact}
use infra_twin.Query.Blast.Impact.{Impacts}
use infra_twin.Query.WhatIf.{
  is_change_kind, WhatIfEdgeHop, ImpactedCi, WhatIfImpact, impact, unknown_change_kind, Detail,
  forward, ci_details_of, evidence_hop, impacted_ci, impact_order, impact_neighbors_with_type,
  whatif_search, initial, assemble, estimate, what_if_impact,
}

-- The hops lead from one CI to the other, each a step of impact.
abbrev pub IsImpactRoute :
    {W J : Type 0} ⦃f : Float W⦄ → Conn W J → ℕ → W → ℕ → List (WhatIfEdgeHop W) → ℕ → Type 0
IsImpactRoute conn tenant_id min a [] b = a ≡ b
IsImpactRoute conn tenant_id min a (h ∷ hops) b =
    (h.from_id ≡ a)
    × Impacts conn tenant_id min h.from_id h.to_id
    × IsImpactRoute conn tenant_id min h.to_id hops b

length-forward : (hops : List (Hop EdgeType)) → length (forward hops) ≡ length hops
unfolding forward
length-forward [] = refl
length-forward ((l, x, y) ∷ hops) =
    omega (arith, length-append (forward hops) ((l, y, x) ∷ []), length-forward hops)

module _ {W : Type 0} ⦃f : Float W⦄ (rows : List (Edge W)) where
  evidence_hop-ends :
      (h : Hop EdgeType)
      → ((evidence_hop rows h).edge_type ≡ h.0)
        × ((evidence_hop rows h).from_id ≡ h.1)
        × ((evidence_hop rows h).to_id ≡ h.2)
  unfolding evidence_hop
  evidence_hop-ends (l, a, b) = ground arith

module _ {W J : Type 0} ⦃f : Float W⦄ (conn : Conn W J) (tenant_id : ℕ) (min : W) where
  route_snoc :
      (a : ℕ) (hops : List (WhatIfEdgeHop W)) (b : ℕ) (h : WhatIfEdgeHop W)
      → IsImpactRoute conn tenant_id min a hops b
      → h.from_id ≡ b
      → Impacts conn tenant_id min h.from_id h.to_id
      → IsImpactRoute conn tenant_id min a (hops ++ h ∷ []) h.to_id
  route_snoc a [] b h e p i = (p ∙ sym e, i, refl)
  route_snoc a (g ∷ hops) b h (e, i, rest) p j = (e, i, route_snoc g.to_id hops b h rest p j)

  -- One step of the search is one step of impact.
  link-Impacts :
      (y x : ℕ) (l : EdgeType)
      → Memᴰ (x, l) (impact_neighbors_with_type conn tenant_id y min)
      → Impacts conn tenant_id min y x
  unfolding impact_neighbors_with_type
  link-Impacts y x l m = elim ((Memᴰ-append (x, l) _ _).0 m) [
    | inl o ↦ inl (l, (mem-match_out conn outgoing_impact tenant_id min y x l).0 o)
    | inr o ↦ inr (l, (mem-match_in conn incoming_impact tenant_id min x y l).0 o)
  ]

  pub IsRoute-of_trail :
      (max_fanout : Option ℕ) (rows : List (Edge W)) (n : ℕ) (hops : List (Hop EdgeType)) (b : ℕ)
      → IsTrail
          (links (λ node. impact_neighbors_with_type conn tenant_id node min) max_fanout)
          n
          hops
          b
      → IsImpactRoute conn tenant_id min b (map (evidence_hop rows) (forward hops)) n
  unfolding forward
  IsRoute-of_trail cap rows n [] b e = sym e
  IsRoute-of_trail cap rows n ((l, x, y) ∷ hops) b (e, link, rest) =
      let (_, from_y, to_x) = evidence_hop-ends rows (l, y, x) in
      let whole = IsRoute-of_trail cap rows y hops b rest in
      let i = link-Impacts y x l (mem-first_of_key _ (x, l) (mem-capped cap _ (x, l) link)) in
      let h = evidence_hop rows (l, y, x) in
      rw map-append (
        subst (IsImpactRoute conn tenant_id min b _) (to_x ∙ e) (
          route_snoc b (map (evidence_hop rows) (forward hops)) y h whole from_y
            (rw (from_y, to_x) i)))

module _ {W J : Type 0} ⦃f : Float W⦄ (conn : Conn W J) (tenant_id target max_depth : ℕ) (min : W)
    (max_fanout : ℕ) where
  abbrev neighbors : ℕ → List (ℕ × EdgeType)
  neighbors node = impact_neighbors_with_type conn tenant_id node min

  abbrev found : Search EdgeType
  found = whatif_search conn tenant_id target max_depth min max_fanout

  abbrev details : Dict Detail
  details = ci_details_of conn (keys found.discovered)

  walk_back :
      (n d : ℕ)
      → Memᴰ (n, d) found.discovered
      → (hops : List (Hop EdgeType)) × (trace max_depth found.predecessor n ≡ some hops)
        × (length hops ≡ d)
        × IsTrail (links neighbors (some max_fanout)) n hops target
  unfolding whatif_search
  walk_back n d m =
      let v = discovered-visited neighbors (some max_fanout) target max_depth n d m in
      let (_, _, le) = discovered_sound neighbors (some max_fanout) target max_depth n d m in
      trace_visited neighbors (some max_fanout) target max_depth max_depth n d v le

  abbrev pub Items : List (Pending Detail) → Type 0
  Items items =
      pending_items forward details max_depth found.predecessor found.discovered ≡ some items

  pub items_exist : (items : List (Pending Detail)) × Items items
  items_exist =
      pending_total forward details max_depth found.predecessor found.discovered
        (λ n d m. let (hops, t, _, _) = walk_back n d m in (hops, t))

  pub estimate_eq :
      (kind : String) (items : List (Pending Detail))
      → Items items
      → estimate conn tenant_id target kind max_depth min max_fanout
        ≡ impact (assemble conn kind (initial kind target max_depth found.supernodes) items)
  unfolding estimate
  estimate_eq kind items e = rw (e, estimate) refl

  -- The two change kinds return an impact, and every other kind is refused: no walk back runs out
  -- of fuel.
  pub what_if_outcome :
      (kind : String)
      → (is_change_kind kind ≡ true
          → (w : WhatIfImpact W) × (what_if_impact conn tenant_id target kind max_depth min
                max_fanout
              ≡ impact w)
            × (w.change_kind ≡ kind))
        × (is_change_kind kind ≡ false
            → what_if_impact conn tenant_id target kind max_depth min max_fanout
              ≡ unknown_change_kind)
  unfolding what_if_impact assemble
  what_if_outcome kind =
      let (items, e) = items_exist in
      (
        λ ok. (
          assemble conn kind (initial kind target max_depth found.supernodes) items,
          rw (ok, estimate_eq kind items e) refl,
          refl,
        ),
        λ bad. rw bad refl,
      )

  abbrev IsResolved : Pending Detail → Type 0
  IsResolved = Resolved forward details max_depth found.predecessor found.discovered

  pub impact_parts :
      (kind : String) (w : WhatIfImpact W)
      → what_if_impact conn tenant_id target kind max_depth min max_fanout ≡ impact w
      → assemble conn kind (initial kind target max_depth found.supernodes) items_exist.0 ≡ w
  unfolding what_if_impact
  impact_parts kind w e = ground (arith, estimate_eq kind items_exist.0 items_exist.1)

  -- A reported CI is assembled from a resolved node.
  pub impacted_parts :
      (kind : String) (w : WhatIfImpact W)
      → what_if_impact conn tenant_id target kind max_depth min max_fanout ≡ impact w
      → (i : ImpactedCi W) → Memᴰ i w.impacted
      → (p : Pending Detail) × (items : List (Pending Detail)) × IsResolved p
        × (i ≡ impacted_ci kind (hop_rows conn (all_hops items)) p)
  unfolding assemble
  impacted_parts kind w e i m =
      let (items, g) = items_exist in
      let same = impact_parts kind w e in
      let rows = hop_rows conn (all_hops items) in
      let m' = subst (λ (w : WhatIfImpact W). Memᴰ i w.impacted) (sym same) m in
      let (p, j, q) =
        (mem-map (impacted_ci kind rows) items i).0
          ((mem-sort impact_order i (map (impacted_ci kind rows) items)).0 m') in
      (
        p,
        items,
        pending_sound forward details max_depth found.predecessor found.discovered items p g j,
        q,
      )

  -- The evidence of each impacted CI is a route of impact from the target to it, of as many hops as
  -- its distance, which lies between 1 and `max_depth`.
  pub what_if_routes :
      (kind : String) (w : WhatIfImpact W)
      → what_if_impact conn tenant_id target kind max_depth min max_fanout ≡ impact w
      → (i : ImpactedCi W) → Memᴰ i w.impacted
      → IsImpactRoute conn tenant_id min target i.evidence i.id
        × (length i.evidence ≡ i.distance)
        × (0 < i.distance)
        × (i.distance ≤ max_depth)
  unfolding impacted_ci whatif_search
  what_if_routes kind w e i m =
      let (p, items, ok, q) = impacted_parts kind w e i m in
      let rows = hop_rows conn (all_hops items) in
      let (hops, t, same_hops) = ok.walked in
      let (_, pos, le) =
        discovered_sound neighbors (some max_fanout) target max_depth p.node p.distance ok.found in
      let (hops', t', len, trail) = walk_back p.node p.distance ok.found in
      let at_hops : p.hops ≡ forward hops' = ground arith in
      rw q (
        rw at_hops
            (IsRoute-of_trail conn tenant_id min (some max_fanout) rows p.node hops' target trail),
        rw at_hops (length-map (evidence_hop rows) (forward hops') ∙ length-forward hops' ∙ len),
        pos,
        le,
      )
