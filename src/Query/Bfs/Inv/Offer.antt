-- ===== src/Query/Bfs/Inv/Offer.antt =====
-- Offering one neighbour keeps the invariant.
use mathlib.Core.List.Memᴰ
use infra_twin.Prelude.{
  ℕ, suc, ◌≤◌, ◌<◌, ◌≡◌, ◌↔◌, ◌⊎◌, inl, inr, List, [], ◌∷◌, ◌++◌, Memᴰ, Memᴰ-snoc, Option, some,
  none, get, get-cons, has-cases, arith, refl,
}
use infra_twin.Query.Bfs.{Search, links, offer}
use infra_twin.Query.Bfs.Walk.{Walk, step}
use infra_twin.Query.Bfs.Inv.{Inv, Todo}

module _ {L : Type 0} (neighbors : ℕ → List (ℕ × L)) (max_fanout : Option ℕ) (source : ℕ) (d : ℕ)
    (pending : List ℕ) (x : ℕ) (m : ℕ) (l : L) (todo : List (ℕ × L)) (s : Search L)
    (inv : Inv neighbors max_fanout source d pending x ((m, l) ∷ todo) s) where
  open inv use {sound, closed, queued, current, fresh, whole, found, origin, trail, rootless}

  abbrev Goal : Search L → Type 0
  Goal = Inv neighbors max_fanout source d pending x todo

  head_current : (get s.visited x ≡ some d) × Memᴰ (m, l) (links neighbors max_fanout x)
  head_current = current (m, l) (Memᴰ.head refl)

  seen_closed :
      (j : ℕ)
      → get s.visited m ≡ some j
      → (n k b : ℕ) (t : L) → get s.visited n ≡ some k
      → k ≤ d
      → Memᴰ (b, t) (links neighbors max_fanout n)
      → Memᴰ n pending
        ⊎ Todo neighbors max_fanout source x todo n (b, t)
        ⊎ ((i : ℕ) × (get s.visited b ≡ some i) × (i ≤ suc k))
  seen_closed j e n k b t v le link = elim (closed n k b t v le link) [
    | inl p ↦ inl p
    | inr (inl (at_x, r)) ↦ elim (Memᴰ.cases_cons r) [
      | inl same ↦ inr (inr (j, ground (arith), ground (arith, head_current, sound m j e)))
      | inr more ↦ inr (inl (at_x, more))
    ]
    | inr (inr rest) ↦ inr (inr rest)
  ]

  -- The neighbour was visited before: nothing changes.
  seen_case : (j : ℕ) → get s.visited m ≡ some j → Goal s
  seen_case j e = record {
    sound = sound;
    closed = seen_closed j e;
    queued = queued;
    current = λ e t. current e (Memᴰ.tail t);
    fresh = fresh;
    whole = whole;
    found = found;
    origin = origin;
    trail = trail;
    rootless = rootless;
  }

  abbrev added : Search L
  added = record s {
    visited = (m, suc d) ∷ s.visited;
    predecessor = (m, (x, l)) ∷ s.predecessor;
    next_frontier = s.next_frontier ++ m ∷ [];
    discovered = s.discovered ++ (m, suc d) ∷ [];
  }

  module _ (new : get s.visited m ≡ none) where
    -- The dictionary after the write, at any key.
    get_added :
        (n k : ℕ)
        → (get added.visited n ≡ some k) ↔ ((n ≡ m) × (k ≡ suc d) ⊎ (get s.visited n ≡ some k))
    get_added n k = ground (arith, get-cons s.visited m n (suc d))

    added_sound :
        (n k : ℕ)
        → get added.visited n ≡ some k
        → Walk (links neighbors max_fanout) source n k × (k ≤ suc d)
    added_sound n k v = elim ((get_added n k).0 v) [
      | inr old ↦ sound n k old
      | inl (e, f) ↦
          let (at_x, link) = head_current in
          let walk = step l (sound x d at_x).0 link in (rw (e, f) walk, omega arith)
    ]

    added_closed :
        (n k b : ℕ) (t : L)
        → get added.visited n ≡ some k
        → k ≤ d
        → Memᴰ (b, t) (links neighbors max_fanout n)
        → Memᴰ n pending
          ⊎ Todo neighbors max_fanout source x todo n (b, t)
          ⊎ ((j : ℕ) × (get added.visited b ≡ some j) × (j ≤ suc k))
    added_closed n k b t v le link = elim ((get_added n k).0 v) [
      | inl (e, f) ↦ absurd (omega arith)
      | inr old ↦ elim (closed n k b t old le link) [
        | inl p ↦ inl p
        | inr (inl (at_x, r)) ↦ elim (Memᴰ.cases_cons r) [
          | inl e ↦ inr (
              inr
                (suc d, (get_added b (suc d)).1 (inl (ground arith)), ground (arith, head_current)))
          | inr more ↦ inr (inl (at_x, more))
        ]
        | inr (inr (j, at_b, le_k)) ↦ inr (inr (j, (get_added b j).1 (inr at_b), le_k))
      ]
    ]

    added_fresh : (n : ℕ) → Memᴰ n added.next_frontier ↔ (get added.visited n ≡ some (suc d))
    added_fresh n = ground (arith, fresh n, get_added n (suc d), Memᴰ-snoc n m s.next_frontier)

    added_found :
        (n k : ℕ) → Memᴰ (n, k) added.discovered ↔ ((get added.visited n ≡ some k) × (0 < k))
    added_found n k =
        ground (arith, found n k, get_added n k, Memᴰ-snoc (n, k) (m, suc d) s.discovered)

    added_origin : (n : ℕ) → (get added.visited n ≡ some 0) ↔ (n ≡ source)
    added_origin n = ground (arith, origin n, get_added n 0)

    added_trail :
        (n k : ℕ)
        → get added.visited n ≡ some (suc k)
        → (p : ℕ) × (t : L) × (get added.predecessor n ≡ some (p, t))
          × (get added.visited p ≡ some k)
          × Memᴰ (n, t) (links neighbors max_fanout p)
    added_trail n k v = elim ((get_added n (suc k)).0 v) [
      | inl (e, f) ↦
          let (at_x, link) = head_current in
          (
            x,
            l,
            ground (arith, get-cons s.predecessor m n (x, l)),
            (get_added x k).1 (inr (ground arith)),
            rw e link,
          )
      | inr old ↦
          let (p, t, at_n, at_p, link) = trail n k old in
          (
            p,
            t,
            ground (arith, get-cons s.predecessor m n (x, l)),
            (get_added p k).1 (inr at_p),
            link,
          )
    ]

    new_case : Goal added
    new_case = record {
      sound = added_sound;
      closed = added_closed;
      queued = λ n p. (get_added n d).1 (inr (queued n p));
      current = λ e t. let (a, b) = current e (Memᴰ.tail t) in ((get_added x d).1 (inr a), b);
      fresh = added_fresh;
      whole = λ n k z v le. ground (arith, whole n k z, get_added n k);
      found = added_found;
      origin = added_origin;
      trail = added_trail;
      rootless = ground (arith, origin source, rootless, get-cons s.predecessor m source (x, l));
    }

  pub offer-Inv : Goal (offer (suc d) x s (m, l))
  unfolding offer
  offer-Inv = elim (has-cases s.visited m) [
    | inl (e, g) ↦ rw (e, offer) (new_case g)
    | inr (j, e, g) ↦ rw (e, offer) (seen_case j g)
  ]
