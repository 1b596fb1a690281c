-- ===== src/Query/Reachability/Paths.antt =====
-- What `reachability` reports: it returns, and each of its paths is a route along stored edges.
use mathlib.Core.List.Memᴰ
use infra_twin.Prelude.{
  ℕ, ◌≤◌, ◌<◌, ◌≡◌, ◌↔◌, ◌⊎◌, inl, inr, true, List, [], ◌∷◌, Option, none, some, Memᴰ, mem-map,
  arith, refl, map, length, length-map, subst, sym, ◌∙◌, ap, keys, mem-keys, Dict, String,
}
use infra_twin.Prelude.Sort.{mem-sort}
use infra_twin.Model.{Ci, CiType, internet, EdgeType, Edge}
use infra_twin.Float.{Float}
use infra_twin.Db.{Conn}
use infra_twin.Db.Graph.{Related, mem-match_in}
use infra_twin.Query.Bfs.{Search, links}
use infra_twin.Query.Bfs.Keys.{mem-capped, mem-first_of_key}
use infra_twin.Query.Bfs.Result.{discovered-visited, discovered_sound}
use infra_twin.Query.Bfs.Trace.{Hop, IsTrail, trace, trace_visited}
use infra_twin.Query.Pending.{
  Pending, Resolved, pending_items, all_hops, pending_total, pending_sound,
}
use infra_twin.Query.Hops.{hop_rows}
use mathlib.Core.Option
use infra_twin.Query.Blast.{details_of}
use infra_twin.Query.Blast.Reach.{details-current, current_detail_sound}
use infra_twin.Query.Reachability.{
  reachability_edge_types, PathHop, ReachingSource, Reachability, is_internet_type, any_internet,
  path_hop, reaching_source, reachability_neighbors, reach_search, assemble, reachability,
  source_order, initial,
}

-- The hops lead from one node to the other, each along a relationship of the graph that the
-- query's filter lets through.
abbrev pub IsRoute : {W J : Type 0} ⦃f : Float W⦄ → Conn W J → ℕ → W → ℕ → List PathHop → ℕ → Type 0
IsRoute conn tenant_id min a [] b = a ≡ b
IsRoute conn tenant_id min a (h ∷ hops) b =
    (h.from_id ≡ a)
    × Related conn reachability_edge_types tenant_id min h.from_id h.to_id h.edge_type
    × IsRoute conn tenant_id min h.to_id hops b

any_internet_iff :
    (sources : List ReachingSource)
    → (any_internet sources ≡ true)
      ↔ ((s : ReachingSource) × Memᴰ s sources × (s.is_internet ≡ true))
unfolding any_internet
any_internet_iff [] = (λ e. cc, λ h. absurd (Memᴰ.not-nil h.1))
any_internet_iff (s ∷ sources) = (
  λ e. elim (first_or_rest s sources e) [
    | inl h ↦ (s, Memᴰ.head refl, h)
    | inr h ↦ let (t, i, g) = (any_internet_iff sources).0 h in (t, Memᴰ.tail i, g)
  ],
  λ h. elim (Memᴰ.cases_cons h.1) [
    | inl e ↦ ground (arith, ap (λ (t : ReachingSource). t.is_internet) e, h.2)
    | inr i ↦ ground (arith, (any_internet_iff sources).1 (h.0, i, h.2))
  ],
)
  where
    first_or_rest :
        (s : ReachingSource) (sources : List ReachingSource)
        → any_internet (s ∷ sources) ≡ true
        → (s.is_internet ≡ true) ⊎ (any_internet sources ≡ true)
    first_or_rest s sources e = ground arith

is_internet_type-true : (t : CiType) → is_internet_type t ≡ true → t ≡ internet
unfolding is_internet_type
is_internet_type-true internet e = refl
is_internet_type-true _ e = cc

module _ {W J : Type 0} ⦃f : Float W⦄ (conn : Conn W J) (tenant_id target max_depth : ℕ) (min : W)
    (max_fanout : ℕ) where
  abbrev neighbors : ℕ → List (ℕ × EdgeType)
  neighbors node = reachability_neighbors conn tenant_id node min

  abbrev found : Search EdgeType
  found = reach_search conn tenant_id target max_depth min max_fanout

  abbrev details : Dict (CiType × Option String)
  details = details_of conn (keys found.discovered)

  abbrev report : Option Reachability
  report = reachability conn tenant_id target max_depth min max_fanout

  -- The walk back from a discovered node ends, with as many hops as the node's depth.
  walk_back :
      (n d : ℕ)
      → Memᴰ (n, d) found.discovered
      → (hops : List (Hop EdgeType)) × (trace max_depth found.predecessor n ≡ some hops)
        × (length hops ≡ d)
        × IsTrail (links neighbors (some max_fanout)) n hops target
  unfolding reach_search
  walk_back n d m =
      let v = discovered-visited neighbors (some max_fanout) target max_depth n d m in
      let (_, _, le) = discovered_sound neighbors (some max_fanout) target max_depth n d m in
      trace_visited neighbors (some max_fanout) target max_depth max_depth n d v le

  -- `reachability` returns a result: no walk back from a node runs out of its fuel, which is
  -- `max_depth`.
  pub reachability_returns : (r : Reachability) × (report ≡ some r)
  unfolding reachability
  reachability_returns =
      let (items, e) =
        pending_total (λ hops. hops) details max_depth found.predecessor found.discovered
          (λ n d m. let (hops, t, _, _) = walk_back n d m in (hops, t)) in
      (
        assemble conn (initial target max_depth found.supernodes) items,
        ap (Option.map (assemble conn (initial target max_depth found.supernodes))) e,
      )

  abbrev IsResolved : Pending (CiType × Option String) → Type 0
  IsResolved = Resolved (λ hops. hops) details max_depth found.predecessor found.discovered

  report_parts :
      (r : Reachability)
      → report ≡ some r
      → (items : List (Pending (CiType × Option String))) × (pending_items
            (λ hops. hops)
            details
            max_depth
            found.predecessor
            found.discovered
          ≡ some items)
        × (r ≡ assemble conn (initial target max_depth found.supernodes) items)
  unfolding reachability
  report_parts r e =
      let (items, g) =
        pending_total (λ hops. hops) details max_depth found.predecessor found.discovered
          (λ n d m. let (hops, t, _, _) = walk_back n d m in (hops, t)) in
      (
        items,
        g,
        ground
            (arith, ap (Option.map (assemble conn (initial target max_depth found.supernodes))) g),
      )

  -- A reported source is assembled from a resolved node.
  source_parts :
      (r : Reachability)
      → report ≡ some r
      → (s : ReachingSource) → Memᴰ s r.sources
      → (p : Pending (CiType × Option String)) × (rows : List (Edge W)) × IsResolved p
        × (s ≡ reaching_source rows p)
  unfolding assemble
  source_parts r e s m =
      let (items, g, same) = report_parts r e in
      let rows = hop_rows conn (all_hops items) in
      let m' = subst (λ (r : Reachability). Memᴰ s r.sources) same m in
      let (p, i, q) =
        (mem-map (reaching_source rows) items s).0
          ((mem-sort source_order s (map (reaching_source rows) items)).0 m') in
      (
        p,
        rows,
        pending_sound (λ hops. hops) details max_depth found.predecessor found.discovered items p g
            i,
        q,
      )

  IsRoute-of_trail :
      (rows : List (Edge W)) (a : ℕ) (hops : List (Hop EdgeType)) (b : ℕ)
      → IsTrail (links neighbors (some max_fanout)) a hops b
      → IsRoute conn tenant_id min a (map (path_hop rows) hops) b
  unfolding path_hop reachability_neighbors
  IsRoute-of_trail rows a [] b e = e
  IsRoute-of_trail rows a ((l, x, y) ∷ hops) b (e, link, rest) = (
    e,
    (mem-match_in conn reachability_edge_types tenant_id min x y l).0
        (mem-first_of_key _ (x, l) (mem-capped (some max_fanout) _ (x, l) link)),
    IsRoute-of_trail rows y hops b rest,
  )

  -- Every reported source is a current CI of the session's tenant with a route of stored, admitted
  -- relationships to the target, of as many hops as its distance, which is at most `max_depth`.
  pub reachability_paths :
      (r : Reachability)
      → report ≡ some r
      → (s : ReachingSource) → Memᴰ s r.sources
      → IsRoute conn tenant_id min s.id s.path target
        × (length s.path ≡ s.distance)
        × (0 < s.distance)
        × (s.distance ≤ max_depth)
        × ((c : Ci W J) × Memᴰ c conn.cis
            × (c.tenant_id ≡ conn.tenant)
            × (c.valid_to ≡ none)
            × (c.id ≡ s.id)
            × (c.type ≡ s.type)
            × (c.name ≡ s.name))
  unfolding reaching_source reach_search
  reachability_paths r e s m =
      let (p, rows, ok, q) = source_parts r e s m in
      let (hops, t, same_hops) = ok.walked in
      let (_, pos, le) =
        discovered_sound neighbors (some max_fanout) target max_depth p.node p.distance ok.found in
      let (hops', t', len, trail) = walk_back p.node p.distance ok.found in
      let at_hops : p.hops ≡ hops' = ground arith in
      let known =
        sym (
          details-current conn (keys found.discovered) p.node
            ((mem-keys p.node found.discovered).1 (p.distance, ok.found)))
        ∙ ok.known in
      rw q (
        rw at_hops (IsRoute-of_trail rows p.node hops' target trail),
        rw at_hops (length-map (path_hop rows) hops' ∙ len),
        pos,
        le,
        current_detail_sound conn p.node p.detail.0 p.detail.1 known,
      )

  -- The flag says whether one of the reported sources is the internet.
  pub reached_by_internet_iff :
      (r : Reachability)
      → report ≡ some r
      → (r.reached_by_internet ≡ true)
        ↔ ((s : ReachingSource) × Memᴰ s r.sources × (s.type ≡ internet))
  unfolding assemble reaching_source is_internet_type
  reached_by_internet_iff r e =
      let (items, g, same) = report_parts r e in
      let flag = any_internet_iff r.sources in
      let computed : r.reached_by_internet ≡ any_internet r.sources = rw same refl in
      (
        λ h.
            let (s, i, on) = flag.0 (sym computed ∙ h) in
            let (p, rows, _, q) = source_parts r e s i in (s, i, internet_of rows p s q on),
        λ h.
            let (p, rows, _, q) = source_parts r e h.0 h.1 in
            computed ∙ flag.1 (h.0, h.1, of_internet rows p h.0 q h.2),
      )
    where
      internet_of :
          (rows : List (Edge W)) (p : Pending (CiType × Option String)) (s : ReachingSource)
          → s ≡ reaching_source rows p
          → s.is_internet ≡ true
          → s.type ≡ internet
      internet_of rows p s q on = ground (arith, is_internet_type-true p.detail.0)

      of_internet :
          (rows : List (Edge W)) (p : Pending (CiType × Option String)) (s : ReachingSource)
          → s ≡ reaching_source rows p
          → s.type ≡ internet
          → s.is_internet ≡ true
      of_internet rows p s q on = ground arith
