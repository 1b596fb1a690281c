-- ===== src/Query/Bfs/Result.antt =====
-- The finished search: the nodes found are those within reach, each at its distance.
use mathlib.Core.List.Memᴰ
use infra_twin.Prelude.{
  ℕ, suc, ◌≤◌, ◌<◌, ◌≡◌, ◌↔◌, ◌⊎◌, inl, inr, List, [], Memᴰ, Option, some, get, arith, refl,
}
use infra_twin.Query.Bfs.{Search, pairs, links, search}
use infra_twin.Query.Bfs.Keys.{mem-first_of_key, first_of_key-has, mem-capped}
use infra_twin.Query.Bfs.Walk.{Walk, here, step, Shortest, Walk-map}
use infra_twin.Query.Bfs.Inv.Level.{search-Ready}

module _ {L : Type 0} (neighbors : ℕ → List (ℕ × L)) (max_fanout : Option ℕ)
    (source max_depth : ℕ) where
  abbrev out : ℕ → List (ℕ × L)
  out = links neighbors max_fanout

  abbrev result : Search L
  result = search neighbors max_fanout source max_depth

  pub visited_sound :
      (n k : ℕ) → get result.visited n ≡ some k → Walk out source n k × (k ≤ max_depth)
  visited_sound n k v =
      let (f, done) = search-Ready neighbors max_fanout source max_depth in
      let (w, le) = done.inv.sound n k v in
      (
        w,
        elim (split k le) [
          | inl h ↦ h
          | inr e ↦ absurd (Memᴰ.not-nil ((done.inv.fresh n).1 (rw (← e) v)))
        ],
      )
    where
      split : (k : ℕ) → k ≤ suc max_depth → (k ≤ max_depth) ⊎ (k ≡ suc max_depth)
      split k h = omega arith

  -- A link out of a node above the last depth leads to a visited node, at most one deeper.
  link_visited :
      (n k m : ℕ) (l : L)
      → get result.visited n ≡ some k
      → k < max_depth
      → Memᴰ (m, l) (out n)
      → (j : ℕ) × (get result.visited m ≡ some j) × (j ≤ suc k)
  link_visited n k m l v lt link =
      let (f, done) = search-Ready neighbors max_fanout source max_depth in
      elim (done.inv.closed n k m l v (omega arith) link) [
        | inl p ↦ absurd (ground (arith, done.inv.queued n p))
        | inr (inl (_, p)) ↦ absurd (Memᴰ.not-nil p)
        | inr (inr more) ↦ more
      ]

  pub visited_complete :
      {n k : ℕ}
      → Walk out source n k
      → k ≤ max_depth
      → (j : ℕ) × (get result.visited n ≡ some j) × (j ≤ k)
  visited_complete here le =
      let (f, done) = search-Ready neighbors max_fanout source max_depth in
      (0, (done.inv.origin source).1 refl, omega arith)
  visited_complete (step {n} {m} {k} l w link) le =
      let (j, v, h) = visited_complete w (omega arith) in
      let (i, u, g) = link_visited n j m l v (omega arith) link in (i, u, omega arith)

  -- The discovered pairs are exactly the nodes other than the source whose distance along the
  -- expanded links is at most `max_depth`, each with that distance.
  pub discovered_iff :
      (n k : ℕ)
      → Memᴰ (n, k) result.discovered ↔ (Shortest out source n k × (0 < k) × (k ≤ max_depth))
  discovered_iff n k =
      let (f, done) = search-Ready neighbors max_fanout source max_depth in
      (
        λ m.
            let (v, pos) = (done.inv.found n k).0 m in
            let (w, le) = visited_sound n k v in ((w, λ j walk. nearest v le j walk), pos, le),
        λ h.
            let (shortest, pos, le) = h in
            let (j, v, j_le) = visited_complete shortest.0 le in
            let k_le = shortest.1 j (visited_sound n j v).0 in
            (done.inv.found n k).1 (ground arith, pos),
      )
    where
      total : (k j : ℕ) → (k ≤ j) ⊎ (j < k)
      total k j = omega arith

      nearest :
          get result.visited n ≡ some k → k ≤ max_depth → (j : ℕ) → Walk out source n j → k ≤ j
      nearest v le j walk = elim (total k j) [
        | inl h ↦ h
        | inr h ↦ let (i, u, g) = visited_complete walk (omega arith) in ground arith
      ]

  pub out_raw : (a b : ℕ) (l : L) → Memᴰ (b, l) (out a) → Memᴰ (b, l) (neighbors a)
  out_raw a b l m =
      mem-first_of_key (neighbors a) (b, l)
        (mem-capped max_fanout (pairs neighbors max_fanout a) (b, l) m)

  pub discovered-visited : (n k : ℕ) → Memᴰ (n, k) result.discovered → get result.visited n ≡ some k
  discovered-visited n k m =
      let (f, done) = search-Ready neighbors max_fanout source max_depth in
      ((done.inv.found n k).0 m).0

  -- Truncated or not, what is found is within reach.
  pub discovered_sound :
      (n k : ℕ)
      → Memᴰ (n, k) result.discovered
      → Walk neighbors source n k × (0 < k) × (k ≤ max_depth)
  discovered_sound n k m =
      let (shortest, pos, le) = (discovered_iff n k).0 m in (Walk-map out_raw shortest.0, pos, le)

  module _ (none_cut : result.supernodes ≡ []) where
    neighbor_visited :
        (n k m : ℕ) (l : L)
        → get result.visited n ≡ some k
        → k < max_depth
        → Memᴰ (m, l) (neighbors n)
        → (j : ℕ) × (get result.visited m ≡ some j) × (j ≤ suc k)
    neighbor_visited n k m l v lt edge =
        let (f, done) = search-Ready neighbors max_fanout source max_depth in
        let (l', kept) = first_of_key-has (neighbors n) m l edge in
        elim (done.inv.whole n k none_cut v (omega arith)) [
          | inl p ↦ absurd (ground (arith, done.inv.queued n p))
          | inr e ↦ link_visited n k m l' v lt (rw e kept)
        ]

    raw_complete :
        {n k : ℕ}
        → Walk neighbors source n k
        → k ≤ max_depth
        → (j : ℕ) × (get result.visited n ≡ some j) × (j ≤ k)
    raw_complete here le = visited_complete here le
    raw_complete (step {n} {m} {k} l w edge) le =
        let (j, v, h) = raw_complete w (omega arith) in
        let (i, u, g) = neighbor_visited n j m l v (omega arith) edge in (i, u, omega arith)

    -- With no node truncated, the same holds of the neighbours themselves.
    pub discovered-raw :
        (n k : ℕ)
        → Memᴰ (n, k) result.discovered
          ↔ (Shortest neighbors source n k × (0 < k) × (k ≤ max_depth))
    discovered-raw n k = (
      λ m.
          let (shortest, pos, le) = (discovered_iff n k).0 m in
          (
            (
              Walk-map out_raw shortest.0,
              λ j walk. elim (total k j) [
                | inl h ↦ h
                | inr h ↦
                    let (i, u, g) = raw_complete walk (omega arith) in
                    absurd (let far = shortest.1 i (visited_sound n i u).0 in omega arith)
              ],
            ),
            pos,
            le,
          ),
      λ h.
          let (shortest, pos, le) = h in
          let (j, v, j_le) = raw_complete shortest.0 le in
          let k_le = shortest.1 j (Walk-map out_raw (visited_sound n j v).0) in
          let (f, done) = search-Ready neighbors max_fanout source max_depth in
          (done.inv.found n k).1 (ground arith, pos),
    )
      where
        total : (k j : ℕ) → (k ≤ j) ⊎ (j < k)
        total k j = omega arith
