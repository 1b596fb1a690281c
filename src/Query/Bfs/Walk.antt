-- ===== src/Query/Bfs/Walk.antt =====
-- Walks along labelled links, the specification of the searches.
use infra_twin.Prelude.{ℕ, zero, suc, ◌≤◌, ◌↔◌, List, Memᴰ}

-- A walk of the given number of steps from the source.
pub data Walk {L : Type 0} (links : ℕ → List (ℕ × L)) (source : ℕ) : ℕ → ℕ → Type 0 where
  here : Walk links source source zero
  step :
      {n m k : ℕ} (l : L)
      → Walk links source n k
      → Memᴰ (m, l) (links n)
      → Walk links source m (suc k)

-- More links, more walks.
pub Walk-map :
    {L : Type 0} {f g : ℕ → List (ℕ × L)} {source n k : ℕ}
    → ((a b : ℕ) (l : L) → Memᴰ (b, l) (f a) → Memᴰ (b, l) (g a))
    → Walk f source n k
    → Walk g source n k
Walk-map h here = here
Walk-map h (step {n} {m} l w e) = step l (Walk-map h w) (h n m l e)

-- `k` is the distance of `n` from the source.
abbrev pub Shortest : {L : Type 0} (links : ℕ → List (ℕ × L)) → ℕ → ℕ → ℕ → Type 0
Shortest links source n k = Walk links source n k × ((j : ℕ) → Walk links source n j → k ≤ j)

-- The same for a relation in place of lists of links.
pub data Chain (R : ℕ → ℕ → Type 0) (source : ℕ) : ℕ → ℕ → Type 0 where
  stay : Chain R source source zero
  move : {n m k : ℕ} → Chain R source n k → R n m → Chain R source m (suc k)

-- `k` is the number of steps of a shortest path from the source to `n`.
abbrev pub Distance : (ℕ → ℕ → Type 0) → ℕ → ℕ → ℕ → Type 0
Distance R source n k = Chain R source n k × ((j : ℕ) → Chain R source n j → k ≤ j)

module _ {L : Type 0} {links : ℕ → List (ℕ × L)} {R : ℕ → ℕ → Type 0} {source : ℕ}
    (agree : (a b : ℕ) → ((l : L) × Memᴰ (b, l) (links a)) ↔ R a b) where
  pub Chain-of_Walk : {n k : ℕ} → Walk links source n k → Chain R source n k
  Chain-of_Walk here = stay
  Chain-of_Walk (step {n} {m} l w e) = move (Chain-of_Walk w) ((agree n m).0 (l, e))

  pub Walk-of_Chain : {n k : ℕ} → Chain R source n k → Walk links source n k
  Walk-of_Chain stay = here
  Walk-of_Chain (move {n} {m} w r) = let (l, e) = (agree n m).1 r in step l (Walk-of_Chain w) e

  pub Shortest-iff-Distance : (n k : ℕ) → Shortest links source n k ↔ Distance R source n k
  Shortest-iff-Distance n k = (
    λ s. (Chain-of_Walk s.0, λ j p. s.1 j (Walk-of_Chain p)),
    λ s. (Walk-of_Chain s.0, λ j w. s.1 j (Chain-of_Walk w)),
  )
