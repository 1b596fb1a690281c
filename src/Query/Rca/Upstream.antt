-- ===== src/Query/Rca/Upstream.antt =====
-- The upstream direction against the direction of impact, and the neighbourhood.
use infra_twin.Prelude.{ℕ, ◌↔◌, inl, inr, ⊎_elim, Memᴰ, Memᴰ-append, mem-keys}
use infra_twin.Float.{Float}
use infra_twin.Db.{Conn}
use infra_twin.Db.Graph.{mem-match_out, mem-match_in}
use infra_twin.Query.Blast.{outgoing_impact, incoming_impact, impact_neighbors}
use infra_twin.Query.Blast.Impact.{Impacts, mem-impact_neighbors}
use infra_twin.Query.Rca.{upstream_neighbors}

module _ {W J : Type 0} ⦃f : Float W⦄ (conn : Conn W J) (tenant_id : ℕ) (min : W) (a b : ℕ) where
  pub mem-upstream_neighbors :
      Memᴰ b (upstream_neighbors conn tenant_id a min) ↔ Impacts conn tenant_id min b a
  unfolding upstream_neighbors
  mem-upstream_neighbors = (
    λ m.
        ⊎_elim
          (λ o.
            let (t, i) = (mem-keys b _).0 o in
            inl (t, (mem-match_in conn outgoing_impact tenant_id min b a t).0 i))
          (λ o.
            let (t, i) = (mem-keys b _).0 o in
            inr (t, (mem-match_out conn incoming_impact tenant_id min a b t).0 i))
          ((Memᴰ-append b _ _).0 m),
    ⊎_elim
        (λ h.
          let i = (mem-match_in conn outgoing_impact tenant_id min b a h.0).1 h.1 in
          (Memᴰ-append b _ _).1 (inl ((mem-keys b _).1 (h.0, i))))
        (λ h.
          let i = (mem-match_out conn incoming_impact tenant_id min a b h.0).1 h.1 in
          (Memᴰ-append b _ _).1 (inr ((mem-keys b _).1 (h.0, i)))),
  )

  -- `b` is upstream of `a` exactly when `a` is among the CIs that a failure of `b` reaches in one
  -- step: the two traversals walk one relation in opposite directions.
  pub upstream-converse :
      Memᴰ b (upstream_neighbors conn tenant_id a min)
      ↔ Memᴰ a (impact_neighbors conn tenant_id b min)
  upstream-converse =
      let up = mem-upstream_neighbors in
      let down = mem-impact_neighbors conn tenant_id min b a in
      (λ m. down.1 (up.0 m), λ m. up.1 (down.0 m))
