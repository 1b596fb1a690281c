-- ===== src/Query/Bfs/Trace.antt =====
-- The walk back along `predecessor`: `while cur in predecessor`. It ends within as many rounds as
-- the node's depth, so the depth bound of the search is enough fuel.
use mathlib.Core.Option
use infra_twin.Prelude.{
  ℕ, zero, suc, ◌≤◌, ◌≡◌, refl, List, [], ◌∷◌, Memᴰ, Option, none, some, Dict, get, arith, length,
  ap,
}
use infra_twin.Query.Bfs.{links, search, Search}
use infra_twin.Query.Bfs.Inv.Level.{search-Ready}

-- (edge_type, node, predecessor)
abbrev pub Hop : Type 0 → Type 0
Hop L = L × ℕ × ℕ

-- `none` means that the fuel ran out.
unfoldable pub trace : {L : Type 0} → ℕ → Dict (ℕ × L) → ℕ → Option (List (Hop L))
trace zero predecessor cur = elim (get predecessor cur) [ none ↦ some [] | some _ ↦ none ]
trace (suc fuel) predecessor cur = elim (get predecessor cur) [
  | none ↦ some []
  | some (pred_node, edge_type) ↦
      Option.map (λ hops. (edge_type, cur, pred_node) ∷ hops) (trace fuel predecessor pred_node)
]

trace_root :
    {L : Type 0} (fuel : ℕ) (predecessor : Dict (ℕ × L)) (n : ℕ)
    → get predecessor n ≡ none
    → trace fuel predecessor n ≡ some []
unfolding trace
trace_root zero predecessor n e = rw (e, trace)
trace_root (suc fuel) predecessor n e = rw (e, trace)

-- The hops lead from one node to the other, each against a link.
abbrev pub IsTrail : {L : Type 0} (links : ℕ → List (ℕ × L)) → ℕ → List (Hop L) → ℕ → Type 0
IsTrail links a [] b = a ≡ b
IsTrail links a ((l, x, y) ∷ hops) b = (x ≡ a) × Memᴰ (x, l) (links y) × IsTrail links y hops b

module _ {L : Type 0} (neighbors : ℕ → List (ℕ × L)) (max_fanout : Option ℕ)
    (source max_depth : ℕ) where
  abbrev out : ℕ → List (ℕ × L)
  out = links neighbors max_fanout

  abbrev result : Search L
  result = search neighbors max_fanout source max_depth

  -- From a visited node the walk back ends at the source, with as many hops as the node's depth.
  pub trace_visited :
      (fuel n k : ℕ)
      → get result.visited n ≡ some k
      → k ≤ fuel
      → (hops : List (Hop L)) × (trace fuel result.predecessor n ≡ some hops)
        × (length hops ≡ k)
        × IsTrail out n hops source
  unfolding trace
  trace_visited fuel n zero v le =
      let (f, done) = search-Ready neighbors max_fanout source max_depth in
      let at_source = (done.inv.origin n).0 v in
      ([], trace_root fuel result.predecessor n (rw at_source done.inv.rootless), refl, at_source)
  trace_visited zero n (suc k) v le = absurd (omega arith)
  trace_visited (suc fuel) n (suc k) v le =
      let (f, done) = search-Ready neighbors max_fanout source max_depth in
      let (p, l, at_n, at_p, link) = done.inv.trail n k v in
      let (hops, e, len, trail) = trace_visited fuel p k at_p (omega arith) in
      ((l, n, p) ∷ hops, ground arith, ap suc len, (refl, link, trail))
