-- ===== src/Query/Blast/Impact.antt =====
-- One step of impact, stated of the stored relationships.
use infra_twin.Prelude.{ℕ, ◌↔◌, ◌⊎◌, inl, inr, ⊎_elim, Memᴰ, Memᴰ-append, mem-keys}
use infra_twin.Model.{EdgeType}
use infra_twin.Float.{Float}
use infra_twin.Db.{Conn}
use infra_twin.Db.Graph.{Related, mem-match_out, mem-match_in}
use infra_twin.Query.Blast.{outgoing_impact, incoming_impact, impact_neighbors}

-- `b` fails with `a`: `a` contains it, or it depends on, runs on, routes to or exposes `a`.
abbrev pub Impacts : {W J : Type 0} ⦃f : Float W⦄ → Conn W J → ℕ → W → ℕ → ℕ → Type 0
Impacts conn tenant_id min a b =
    ((t : EdgeType) × Related conn outgoing_impact tenant_id min a b t)
    ⊎ ((t : EdgeType) × Related conn incoming_impact tenant_id min b a t)

module _ {W J : Type 0} ⦃f : Float W⦄ (conn : Conn W J) (tenant_id : ℕ) (min : W) (a b : ℕ) where
  -- The queries return exactly the nodes that fail with the given one.
  pub mem-impact_neighbors :
      Memᴰ b (impact_neighbors conn tenant_id a min) ↔ Impacts conn tenant_id min a b
  unfolding impact_neighbors
  mem-impact_neighbors = (
    λ m.
        ⊎_elim
          (λ o.
            let (t, i) = (mem-keys b _).0 o in
            inl (t, (mem-match_out conn outgoing_impact tenant_id min a b t).0 i))
          (λ o.
            let (t, i) = (mem-keys b _).0 o in
            inr (t, (mem-match_in conn incoming_impact tenant_id min b a t).0 i))
          ((Memᴰ-append b _ _).0 m),
    ⊎_elim
        (λ h.
          let i = (mem-match_out conn outgoing_impact tenant_id min a b h.0).1 h.1 in
          (Memᴰ-append b _ _).1 (inl ((mem-keys b _).1 (h.0, i))))
        (λ h.
          let i = (mem-match_in conn incoming_impact tenant_id min b a h.0).1 h.1 in
          (Memᴰ-append b _ _).1 (inr ((mem-keys b _).1 (h.0, i)))),
  )
