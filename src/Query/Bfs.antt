-- ===== src/Query/Bfs.antt =====
-- The bounded breadth-first search that blast_radius.py, reachability.py, whatif.py and rca.py share:
-- the loop over depths, the loop over the frontier, the removal of repeated neighbours, the cap on
-- the fan-out, and the dictionaries `visited` and `predecessor`. The neighbours of a node come with
-- the label of the edge (`Unit` where the code keeps no label and no predecessor).
pub mod Walk
pub mod Keys
pub mod Inv
pub mod Result
pub mod Trace
use infra_twin.Prelude.{
  ℕ, zero, suc, Bool, List, [], ◌∷◌, ◌++◌, foldl, Option, none, some, Dict, get, has, length, take,
  ltb, if◌then◌else◌,
}

pub record Supernode : Type 0 where
  pub id : ℕ
  pub degree : ℕ
  pub depth : ℕ

pub record Search (L : Type 0) : Type 0 where
  pub visited : Dict ℕ
  pub predecessor : Dict (ℕ × L)
  pub next_frontier : List ℕ
  pub discovered : List (ℕ × ℕ)
  pub supernodes : List Supernode

-- `visited[node]`. The nodes that the loop reads are in the dictionary, so the 0 is not met.
unfoldable pub depth_of : Dict ℕ → ℕ → ℕ
depth_of visited node = elim (get visited node) [ none ↦ 0 | some d ↦ d ]

-- `if neighbor_id not in seen: seen[neighbor_id] = edge_type`
unfoldable pub note {ℓ} : {V : Type ℓ} → Dict V → ℕ × V → Dict V
note seen (k, v) = if has seen k then seen else seen ++ (k, v) ∷ []

unfoldable pub first_of_key {ℓ} : {V : Type ℓ} → List (ℕ × V) → List (ℕ × V)
unfolding note
first_of_key pairs = foldl note [] pairs

module _ {L : Type 0} where
  abbrev pub start : ℕ → Search L
  start source = record {
    visited = (source, 0) ∷ [];
    predecessor = [];
    next_frontier = [];
    discovered = [];
    supernodes = [];
  }

  -- the body of the loop over the neighbours of `node`
  unfoldable pub offer : ℕ → ℕ → Search L → ℕ × L → Search L
  offer depth node s (neighbor, label) = if has s.visited neighbor then s else record s {
    visited = (neighbor, depth) ∷ s.visited;
    predecessor = (neighbor, (node, label)) ∷ s.predecessor;
    next_frontier = s.next_frontier ++ neighbor ∷ [];
    discovered = s.discovered ++ (neighbor, depth) ∷ [];
  }

-- `None` for a search without a cap on the fan-out.
unfoldable pub exceeds : Option ℕ → ℕ → Bool
exceeds none n = Bool.false
exceeds (some max_fanout) n = ltb max_fanout n

unfoldable pub capped {ℓ} : {A : Type ℓ} → Option ℕ → List A → List A
capped none xs = xs
capped (some max_fanout) xs = if ltb max_fanout (length xs) then take max_fanout xs else xs

module _ {L : Type 0} (neighbors : ℕ → List (ℕ × L)) (max_fanout : Option ℕ) where
  abbrev pub pairs : ℕ → List (ℕ × L)
  pairs node = first_of_key (neighbors node)

  -- the neighbours that are expanded
  abbrev pub links : ℕ → List (ℕ × L)
  links node = capped max_fanout (pairs node)

  unfoldable pub report : Search L → ℕ → Search L
  unfolding depth_of exceeds
  report s node =
      if exceeds max_fanout (length (pairs node))
      then record s {
        supernodes =
            s.supernodes
            ++ record { id = node; degree = length (pairs node); depth = depth_of s.visited node }
              ∷ [];
      }
      else s

  -- the body of the loop over the frontier
  unfoldable pub expand : ℕ → Search L → ℕ → Search L
  expand depth s node = foldl (offer depth node) (report s node) (links node)

  -- one round of the loop over depths
  unfoldable pub level : ℕ → Search L → List ℕ → Search L
  level depth s frontier = foldl (expand depth) (record s { next_frontier = [] }) frontier

  -- `for depth in range(1, max_depth + 1)`, on the rounds that are left, with its `break`
  unfoldable pub rounds : ℕ → ℕ → Search L → List ℕ → Search L
  rounds zero depth s frontier = s
  rounds (suc left) depth s frontier =
      let s' = level depth s frontier in
      elim s'.next_frontier [ [] ↦ s' | x ∷ rest ↦ rounds left (suc depth) s' (x ∷ rest) ]

  unfoldable pub search : ℕ → ℕ → Search L
  search source max_depth = rounds max_depth 1 (start source) (source ∷ [])
