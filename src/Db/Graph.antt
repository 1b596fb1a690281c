-- ===== src/Db/Graph.antt =====
-- The two shapes of `MATCH` that the traversals send to AGE (graph.py runs them). Each returns the
-- other end of a relationship with its type.
use infra_twin.Prelude.{
  ℕ, Bool, true, false, none, some, List, [], ◌∷◌, ◌==◌, ◌&&◌, ◌||◌, if◌then◌else◌, gather,
  mem-gather, ◌≡◌, ◌↔◌, Memᴰ, arith, Memᴰ-cons, Memᴰ-nil,
}
use infra_twin.Model.{EdgeType, same_edge_type}
use infra_twin.Model.Equality.{same_edge_type_iff}
use infra_twin.Float.{Float}
use infra_twin.Db.{Conn, Relationship}

-- `type(r) IN [...]`
unfoldable pub in_types : List EdgeType → EdgeType → Bool
in_types [] t = false
in_types (u ∷ us) t = same_edge_type u t || in_types us t

pub in_types_iff : (us : List EdgeType) (t : EdgeType) → (in_types us t ≡ true) ↔ Memᴰ t us
unfolding in_types
in_types_iff [] t = ground (arith, Memᴰ-nil t)
in_types_iff (u ∷ us) t =
    ground (arith, in_types_iff us t, same_edge_type_iff u t, Memᴰ-cons t u us)

module _ {W : Type 0} ⦃f : Float W⦄ where
  -- `WHERE type(r) IN [...] AND r.tenant_id = '...' AND r.confidence >= ...`
  unfoldable pub passes : List EdgeType → ℕ → W → Relationship W → Bool
  passes types tenant_id min_confidence r =
      in_types types r.type && r.tenant_id == tenant_id && f.le min_confidence r.confidence

module _ {W J : Type 0} ⦃f : Float W⦄ where
  -- `MATCH (a {ci_id: ...})-[r]->(b)`
  unfoldable pub match_out : Conn W J → List EdgeType → ℕ → ℕ → W → List (ℕ × EdgeType)
  match_out conn types tenant_id ci_id min_confidence =
      gather
        (λ r.
          if r.start == ci_id && passes types tenant_id min_confidence r
          then some (r.end, r.type)
          else none)
        conn.graph

  -- `MATCH (a {ci_id: ...})<-[r]-(b)`
  unfoldable pub match_in : Conn W J → List EdgeType → ℕ → ℕ → W → List (ℕ × EdgeType)
  match_in conn types tenant_id ci_id min_confidence =
      gather
        (λ r.
          if r.end == ci_id && passes types tenant_id min_confidence r
          then some (r.start, r.type)
          else none)
        conn.graph

  -- A relationship of the graph that a query of the tenant lets through.
  pub record Related (conn : Conn W J) (types : List EdgeType) (tenant_id : ℕ) (min_confidence : W)
      (a b : ℕ) (t : EdgeType) : Type 0 where
    pub rel : Relationship W
    pub stored : Memᴰ rel conn.graph
    pub from_a : rel.start ≡ a
    pub to_b : rel.end ≡ b
    pub typed : rel.type ≡ t
    pub listed : Memᴰ t types
    pub owned : rel.tenant_id ≡ tenant_id
    pub trusted : f.le min_confidence rel.confidence ≡ true

  module _ (conn : Conn W J) (types : List EdgeType) (tenant_id : ℕ) (min : W) (a b : ℕ)
      (t : EdgeType) where
    pub mem-match_out :
        Memᴰ (b, t) (match_out conn types tenant_id a min) ↔ Related conn types tenant_id min a b t
    unfolding match_out passes
    mem-match_out = (
      λ m.
          let (r, i, e) = (mem-gather _ conn.graph (b, t)).0 m in
          let k = in_types_iff types r.type in
          record {
            rel = r;
            stored = i;
            from_a = ground arith;
            to_b = ground arith;
            typed = ground arith;
            listed = ground (arith, k);
            owned = ground arith;
            trusted = ground arith;
          },
      λ h.
          let r = h.rel in
          (mem-gather _ conn.graph (b, t)).1 (
            r,
            h.stored,
            ground (
              arith,
              in_types_iff types r.type,
              h.listed,
              h.typed,
              h.from_a,
              h.to_b,
              h.owned,
              h.trusted,
            ),
          ),
    )

    pub mem-match_in :
        Memᴰ (a, t) (match_in conn types tenant_id b min) ↔ Related conn types tenant_id min a b t
    unfolding match_in passes
    mem-match_in = (
      λ m.
          let (r, i, e) = (mem-gather _ conn.graph (a, t)).0 m in
          let k = in_types_iff types r.type in
          record {
            rel = r;
            stored = i;
            from_a = ground arith;
            to_b = ground arith;
            typed = ground arith;
            listed = ground (arith, k);
            owned = ground arith;
            trusted = ground arith;
          },
      λ h.
          let r = h.rel in
          (mem-gather _ conn.graph (a, t)).1 (
            r,
            h.stored,
            ground (
              arith,
              in_types_iff types r.type,
              h.listed,
              h.typed,
              h.from_a,
              h.to_b,
              h.owned,
              h.trusted,
            ),
          ),
    )
