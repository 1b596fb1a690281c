-- ===== src/Query/Bfs/Inv.antt =====
-- What the loops of the search keep true, and that each of their steps keeps it.
pub mod Offer
pub mod Level
use infra_twin.Prelude.{
  ℕ, zero, suc, ◌≤◌, ◌<◌, ◌≡◌, ◌↔◌, ◌⊎◌, List, [], Memᴰ, Option, some, none, get,
}
use infra_twin.Query.Bfs.{Search, Supernode, pairs, links}
use infra_twin.Query.Bfs.Walk.{Walk}

module _ {L : Type 0} (neighbors : ℕ → List (ℕ × L)) (max_fanout : Option ℕ) (source : ℕ) where
  -- A link out of the node under expansion that has not been offered yet.
  abbrev pub Todo : ℕ → List (ℕ × L) → ℕ → ℕ × L → Type 0
  Todo x todo n e = (n ≡ x) × Memᴰ e todo

  -- During the round with frontier depth `d`: the nodes `pending` are still to be expanded, and of
  -- node `x` the links `todo` are still to be offered.
  pub record Inv (d : ℕ) (pending : List ℕ) (x : ℕ) (todo : List (ℕ × L)) (s : Search L)
      : Type 0 where
    pub sound :
        (n k : ℕ)
        → get s.visited n ≡ some k
        → Walk (links neighbors max_fanout) source n k × (k ≤ suc d)
    pub closed :
        (n k m : ℕ) (l : L)
        → get s.visited n ≡ some k
        → k ≤ d
        → Memᴰ (m, l) (links neighbors max_fanout n)
        → Memᴰ n pending
          ⊎ Todo x todo n (m, l)
          ⊎ ((j : ℕ) × (get s.visited m ≡ some j) × (j ≤ suc k))
    pub queued : (n : ℕ) → Memᴰ n pending → get s.visited n ≡ some d
    pub current :
        (e : ℕ × L)
        → Memᴰ e todo
        → (get s.visited x ≡ some d) × Memᴰ e (links neighbors max_fanout x)
    pub fresh : (n : ℕ) → Memᴰ n s.next_frontier ↔ (get s.visited n ≡ some (suc d))
    pub whole :
        (n k : ℕ)
        → s.supernodes ≡ []
        → get s.visited n ≡ some k
        → k ≤ d
        → Memᴰ n pending ⊎ (links neighbors max_fanout n ≡ pairs neighbors max_fanout n)
    pub found : (n k : ℕ) → Memᴰ (n, k) s.discovered ↔ ((get s.visited n ≡ some k) × (0 < k))
    pub origin : (n : ℕ) → (get s.visited n ≡ some 0) ↔ (n ≡ source)
    pub trail :
        (n k : ℕ)
        → get s.visited n ≡ some (suc k)
        → (p : ℕ) × (l : L) × (get s.predecessor n ≡ some (p, l))
          × (get s.visited p ≡ some k)
          × Memᴰ (n, l) (links neighbors max_fanout p)
    pub rootless : get s.predecessor source ≡ none
