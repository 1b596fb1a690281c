-- ===== src/Query/WhatIf/Provenance.antt =====
-- The confidences that `what_if_impact` reports, and where they do not come from a row.
use infra_twin.Prelude.{
  ℕ, ◌≡◌, ◌↔◌, ◌∙◌, ap, inl, inr, List, none, Memᴰ, mem-map, refl, map, subst, sym, String,
  Option-cases,
}
use infra_twin.Prelude.Sort.{mem-sort}
use infra_twin.Model.{EdgeType, Edge, declared}
use infra_twin.Float.{Float, of_int}
use infra_twin.Db.{Conn}
use infra_twin.Query.Bfs.Trace.{Hop}
use infra_twin.Query.Hops.{hop_rows, last_row, last_row-mem, hop_matches-eq, mem-hop_rows}
use infra_twin.Query.Pending.{all_hops}
use infra_twin.Query.WhatIf.{
  WhatIfEdgeHop, ImpactedCi, WhatIfImpact, impact, evidence_hop, impacted_ci, what_if_impact,
  impact_order, assemble, derived_confidence,
}
use infra_twin.Query.WhatIf.Routes.{impacted_parts, items_exist, impact_parts}

module _ {W J : Type 0} ⦃f : Float W⦄ (conn : Conn W J) where
  -- No current row of the session's tenant has this type and these ends in this order.
  abbrev pub NoRow : EdgeType → ℕ → ℕ → Type 0
  NoRow t a b =
      (e : Edge W)
      → Memᴰ e conn.edges
      → e.tenant_id ≡ conn.tenant
      → e.valid_to ≡ none
      → e.type ≡ t
      → e.from_id ≡ a
      → e.to_id ≡ b
      → ⊥

  evidence_hop-default :
      (hops : List (Hop EdgeType)) (h : Hop EdgeType)
      → let g = evidence_hop (hop_rows conn hops) h in
        NoRow g.edge_type g.from_id g.to_id → (g.source ≡ declared) × (g.confidence ≡ of_int 1)
  unfolding evidence_hop
  evidence_hop-default hops (t, a, b) none_stored =
      elim (Option-cases (last_row (t, a, b) none (hop_rows conn hops))) [
        | inl e ↦ rw (e, evidence_hop) (refl, refl)
        | inr (r, e) ↦
            let (i, k) = last_row-mem (t, a, b) (hop_rows conn hops) r e in
            let (j, own, is_open) = mem-hop_rows conn hops r i in
            let (p, q, s) = hop_matches-eq (t, a, b) r k in
            absurd ((rw (e, evidence_hop) at none_stored) r j own is_open p q s)
      ]

  module _ (tenant_id target max_depth : ℕ) (min : W) (max_fanout : ℕ) where
    -- A hop for which no open row of the tenant has its type and its ends in its own direction is
    -- reported as declared and with confidence 1.
    pub what_if_default_provenance :
        (kind : String) (w : WhatIfImpact W)
        → what_if_impact conn tenant_id target kind max_depth min max_fanout ≡ impact w
        → (i : ImpactedCi W) → Memᴰ i w.impacted
        → (h : WhatIfEdgeHop W) → Memᴰ h i.evidence
        → NoRow h.edge_type h.from_id h.to_id
        → (h.source ≡ declared) × (h.confidence ≡ of_int 1)
    unfolding impacted_ci
    what_if_default_provenance kind w e i m h j none_stored =
        let (p, items, _, q) =
          impacted_parts conn tenant_id target max_depth min max_fanout kind w e i m in
        let rows = hop_rows conn (all_hops items) in
        let j' = subst (λ (i : ImpactedCi W). Memᴰ h i.evidence) q j in
        let (g, _, same) = (mem-map (evidence_hop rows) p.hops h).0 j' in
        rw same (
          evidence_hop-default (all_hops items) g
            (subst (λ (h : WhatIfEdgeHop W). NoRow h.edge_type h.from_id h.to_id) same none_stored))

    -- "modify" reports exactly what "remove" reports, with every confidence times 0.5: each entry of
    -- one has its counterpart in the other.
    pub modify_halves_remove :
        (w v : WhatIfImpact W)
        → what_if_impact conn tenant_id target "modify" max_depth min max_fanout ≡ impact w
        → what_if_impact conn tenant_id target "remove" max_depth min max_fanout ≡ impact v
        → (i : ImpactedCi W)
        → Memᴰ i w.impacted ↔ (
            (j : ImpactedCi W) × Memᴰ j v.impacted
            × (i ≡ record j { confidence = f.mul j.confidence (f.lit 5 1) }))
    unfolding assemble impacted_ci derived_confidence
    modify_halves_remove w v e g i =
        let (items, _) = items_exist conn tenant_id target max_depth min max_fanout in
        let same_w = impact_parts conn tenant_id target max_depth min max_fanout "modify" w e in
        let same_v = impact_parts conn tenant_id target max_depth min max_fanout "remove" v g in
        let rows = hop_rows conn (all_hops items) in
        let halved = mem-sort impact_order i (map (impacted_ci "modify" rows) items) in
        (
          λ m.
              let m' = subst (λ (w : WhatIfImpact W). Memᴰ i w.impacted) (sym same_w) m in
              let (p, j, q) = (mem-map (impacted_ci "modify" rows) items i).0 (halved.0 m') in
              let plain = impacted_ci "remove" rows p in
              let k =
                (mem-sort impact_order plain (map (impacted_ci "remove" rows) items)).1
                  ((mem-map (impacted_ci "remove" rows) items plain).1 (p, j, refl)) in
              (plain, subst (λ (v : WhatIfImpact W). Memᴰ plain v.impacted) same_v k, q),
          λ h.
              let (j, m, q) = h in
              let m' = subst (λ (v : WhatIfImpact W). Memᴰ j v.impacted) (sym same_v) m in
              let (p, k, r) =
                (mem-map (impacted_ci "remove" rows) items j).0
                  ((mem-sort impact_order j (map (impacted_ci "remove" rows) items)).0 m') in
              let half =
                q
                ∙ ap
                    (λ (x : ImpactedCi W). record x { confidence = f.mul x.confidence (f.lit 5 1) })
                    r in
              let back = (mem-map (impacted_ci "modify" rows) items i).1 (p, k, half) in
              subst (λ (w : WhatIfImpact W). Memᴰ i w.impacted) same_w (halved.1 back),
        )
