-- ===== src/Query/Hops.antt =====
-- The rows of `edges` that reachability.py and whatif.py fetch for the hops of their paths:
-- `WHERE (type, from_id, to_id) IN (...) AND valid_to IS NULL`, and the dictionary that is built of
-- them, in which the later of two rows with one key stays.
use infra_twin.Prelude.{
  ◌≡◌, ◌⊎◌, inl, inr, Bool, true, false, Option, none, some, List, [], ◌∷◌, Memᴰ, Memᴰ-cons, select,
  mem-select, ◌==◌, ◌&&◌, ◌||◌, arith, if◌then◌else◌, Bool-cases,
}
use infra_twin.Model.{Edge, EdgeType, same_edge_type}
use infra_twin.Model.Equality.{same_edge_type_iff}
use infra_twin.Db.{Conn, current_edges, is_open}
use infra_twin.Query.Bfs.Trace.{Hop}

module _ {W : Type 0} where
  unfoldable pub hop_matches : Hop EdgeType → Edge W → Bool
  hop_matches (edge_type, from_id, to_id) r =
      same_edge_type edge_type r.type && from_id == r.from_id && to_id == r.to_id

  unfoldable pub any_hop : List (Hop EdgeType) → Edge W → Bool
  any_hop [] r = false
  any_hop (h ∷ hops) r = hop_matches h r || any_hop hops r

  unfoldable pub last_row : Hop EdgeType → Option (Edge W) → List (Edge W) → Option (Edge W)
  last_row h found [] = found
  last_row h found (r ∷ rows) = last_row h (if hop_matches h r then some r else found) rows

  -- The key is in the dictionary only if a row has it.
  last_row_sound :
      (h : Hop EdgeType) (found : Option (Edge W)) (rows : List (Edge W)) (e : Edge W)
      → last_row h found rows ≡ some e
      → (found ≡ some e) ⊎ (Memᴰ e rows × (hop_matches h e ≡ true))
  unfolding last_row
  last_row_sound h found [] e p = inl p
  last_row_sound h found (r ∷ rows) e p =
      elim (last_row_sound h (if hop_matches h r then some r else found) rows e p) [
        | inr (i, m) ↦ inr (Memᴰ.tail i, m)
        | inl q ↦ elim (Bool-cases (hop_matches h r)) [
          | inl yes_row ↦ inr (ground (arith, Memᴰ-cons e r rows))
          | inr no_row ↦ inl (rw no_row at q)
        ]
      ]

  pub last_row-mem :
      (h : Hop EdgeType) (rows : List (Edge W)) (e : Edge W)
      → last_row h none rows ≡ some e
      → Memᴰ e rows × (hop_matches h e ≡ true)
  last_row-mem h rows e p = elim (last_row_sound h none rows e p) [ inl q ↦ cc | inr m ↦ m ]

  pub hop_matches-eq :
      (h : Hop EdgeType) (e : Edge W)
      → hop_matches h e ≡ true
      → (e.type ≡ h.0) × (e.from_id ≡ h.1) × (e.to_id ≡ h.2)
  unfolding hop_matches
  hop_matches-eq (t, a, b) e p = ground (arith, same_edge_type_iff t e.type)

module _ {W J : Type 0} where
  unfoldable pub hop_rows : Conn W J → List (Hop EdgeType) → List (Edge W)
  hop_rows conn hops = select (any_hop hops) (current_edges conn)

  -- A row that is fetched is an open row of the session's tenant.
  pub mem-hop_rows :
      (conn : Conn W J) (hops : List (Hop EdgeType)) (e : Edge W)
      → Memᴰ e (hop_rows conn hops)
      → Memᴰ e conn.edges × (e.tenant_id ≡ conn.tenant) × (e.valid_to ≡ none)
  unfolding hop_rows current_edges
  mem-hop_rows conn hops e m =
      let (i, _) = (mem-select (any_hop hops) (current_edges conn) e).0 m in
      ground (
        arith,
        (mem-select (λ (r : Edge W). r.tenant_id == conn.tenant && is_open r.valid_to) conn.edges
              e).0
            i,
      )
