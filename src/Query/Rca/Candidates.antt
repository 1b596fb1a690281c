-- ===== src/Query/Rca/Candidates.antt =====
-- What `root_cause` reports.
use mathlib.Core.List.Memᴰ
use infra_twin.Prelude.{
  ℕ, ◌-◌, ◌≤◌, ◌<◌, ◌≡◌, ◌↔◌, ◌⊎◌, inl, inr, true, false, none, some, Memᴰ, Memᴰ-append, mem-gather,
  mem-select, mem_of_get, arith, refl, gather, get, Dict, Option-cases, Bool-cases, sym, subst, ap,
}
use infra_twin.Prelude.Sort.{sort, mem-sort, IsOrdered, sort-IsOrdered}
use infra_twin.Float.{Float, FloatLaws, of_int}
use infra_twin.Db.{Conn}
use infra_twin.Query.Bfs.{links}
use infra_twin.Query.Bfs.Keys.{mem-first_of_key, first_of_key-has, mem-capped, capped-none}
use infra_twin.Query.Bfs.Walk.{Distance, Shortest-iff-Distance}
use infra_twin.Query.Bfs.Result.{discovered_iff}
use infra_twin.Query.Blast.{unlabelled}
use infra_twin.Query.Blast.Reach.{mem-unlabelled}
use infra_twin.Query.Blast.Impact.{Impacts}
use infra_twin.Query.ChangeFeed.{Subject, ci, edge, ChangeEvent, change_feed}
use infra_twin.Query.ChangeFeed.Window.{change_feed_window}
use infra_twin.Query.Rca.{
  CandidateCause, RcaResult, upstream_neighbors, upstream_search, build_neighborhood,
  subject_distance, candidate, rank, root_cause,
}
use infra_twin.Query.Rca.Upstream.{mem-upstream_neighbors}

-- The event is about the CI, or about an edge with the CI at an end.
abbrev pub Touches : Subject → ℕ → ℕ → Type 0
Touches (ci _ _) id n = id ≡ n
Touches (edge _ from_id to_id) id n = (from_id ≡ n) ⊎ (to_id ≡ n)

subject_distance_sound :
    (m : Dict ℕ) (id : ℕ) (s : Subject) (d : ℕ)
    → subject_distance m id s ≡ some d
    → (n : ℕ) × Touches s id n × (get m n ≡ some d)
unfolding subject_distance
subject_distance_sound m id (ci _ _) d e = (id, refl, e)
subject_distance_sound m id (edge _ a b) d e = elim (Option-cases (get m a)) [
  | inl p ↦ (b, inr refl, ground arith)
  | inr (x, p) ↦ elim (Option-cases (get m b)) [
    | inl q ↦ (a, inl refl, ground arith)
    | inr (y, q) ↦ elim (smaller x y) [
      | inl le ↦ (a, inl refl, ground arith)
      | inr le ↦ (b, inr refl, ground arith)
    ]
  ]
]
  where
    smaller : (x y : ℕ) → (x ≤ y) ⊎ (y ≤ x)
    smaller x y = omega arith

module _ {W : Type 0} ⦃f : Float W⦄ where
  candidate_parts :
      (m : Dict ℕ) (incident_at lookback : ℕ) (e : ChangeEvent) (c : CandidateCause W)
      → candidate m incident_at lookback e ≡ some c
      → (e ≡ c.event) × (subject_distance m e.id e.subject ≡ some c.distance)
  unfolding candidate
  candidate_parts m incident_at lookback e c q = ground arith

  rank-true : (t : ℕ) (c d : CandidateCause W) → rank t c d ≡ true → f.le d.score c.score ≡ true
  unfolding rank
  rank-true t c d h = elim (Bool-cases (f.le d.score c.score)) [
    | inl e ↦ e
    | inr e ↦ absurd (let h' = rw (e, rank) at h in cc)
  ]

  rank-false :
      FloatLaws W
      → (t : ℕ) (c d : CandidateCause W) → rank t c d ≡ false
      → f.le c.score d.score ≡ true
  unfolding rank
  rank-false laws t c d h = elim (laws.le_total c.score d.score) [
    | inl e ↦ e
    | inr e ↦ elim (Bool-cases (f.le c.score d.score)) [
      | inl e' ↦ e'
      | inr e' ↦ absurd (let h' = rw (e, e', rank) at h in cc)
    ]
  ]

module _ {W J : Type 0} ⦃f : Float W⦄ (conn : Conn W J) (tenant_id target max_depth : ℕ) where
  -- `b` is one step upstream of `a`.
  abbrev pub Upstream : W → ℕ → ℕ → Type 0
  Upstream min a b = Impacts conn tenant_id min b a

  agree :
      (min : W) (a b : ℕ)
      → ((l : Unit {0}) × Memᴰ
            (b, l)
            (links (λ node. unlabelled (upstream_neighbors conn tenant_id node min)) none a))
        ↔ Upstream min a b
  agree min a b =
      let raw = unlabelled (upstream_neighbors conn tenant_id a min) in
      let m = mem-unlabelled (upstream_neighbors conn tenant_id a min) b in
      let n = mem-upstream_neighbors conn tenant_id min a b in
      (
        λ h. n.0 (m.0 (mem-first_of_key raw (b, h.0) (mem-capped none _ (b, h.0) h.1))),
        λ h. let (l, i) = first_of_key-has raw b tt (m.1 (n.1 h)) in (l, rw capped-none i),
      )

  -- A CI of the neighbourhood is the target, or at its distance upstream, at most `max_depth`.
  pub neighborhood_sound :
      (min : W) (n d : ℕ)
      → get (build_neighborhood conn tenant_id target max_depth min) n ≡ some d
      → (n ≡ target) × (d ≡ 0) ⊎ Distance (Upstream min) target n d × (0 < d) × (d ≤ max_depth)
  unfolding build_neighborhood upstream_search
  neighborhood_sound min n d e = elim ((Memᴰ-append (n, d) _ _).0 (mem_of_get _ n d e)) [
    | inr last ↦
        let q = Memᴰ.eq_of_singleton last in
        inl (ap (λ (p : ℕ × ℕ). p.0) q, ap (λ (p : ℕ × ℕ). p.1) q)
    | inl i ↦
        let (j, _) = (mem-select _ _ (n, d)).0 i in
        let (w, pos, le) = (discovered_iff _ none target max_depth n d).0 j in
        inr ((Shortest-iff-Distance (agree min) n d).0 w, pos, le)
  ]

  module _ (incident_at lookback : ℕ) (r : RcaResult W)
      (returned : root_cause conn tenant_id target incident_at lookback max_depth ≡ some r) where
    reported :
        r.candidates
        ≡ sort (rank incident_at) (
            gather
              (candidate
                (build_neighborhood conn tenant_id target max_depth (of_int 0))
                incident_at
                lookback)
              (change_feed conn (incident_at - lookback) incident_at))
    unfolding root_cause
    reported = ground arith

    -- Every candidate is an event of the change feed inside [since, incident), and it touches the
    -- target or a CI upstream of it within `max_depth` steps, at the distance that is reported.
    pub root_cause_sound :
        (c : CandidateCause W)
        → Memᴰ c r.candidates
        → Memᴰ c.event (change_feed conn (incident_at - lookback) incident_at)
          × (incident_at - lookback ≤ c.event.at)
          × (c.event.at < incident_at)
          × ((n : ℕ) × Touches c.event.subject c.event.id n
              × ((n ≡ target) × (c.distance ≡ 0)
                  ⊎ Distance (Upstream (of_int 0)) target n c.distance
                    × (0 < c.distance)
                    × (c.distance ≤ max_depth)))
    root_cause_sound c m =
        let distances = build_neighborhood conn tenant_id target max_depth (of_int 0) in
        let feed = change_feed conn (incident_at - lookback) incident_at in
        let m' = subst (Memᴰ c) reported m in
        let (e, i, q) =
          (mem-gather (candidate distances incident_at lookback) feed c).0
            ((mem-sort (rank incident_at) c _).0 m') in
        let (same, near) = candidate_parts distances incident_at lookback e c q in
        let (lo, hi) = (change_feed_window conn (incident_at - lookback) incident_at).0 e i in
        let (n, touch, d) = subject_distance_sound distances c.event.id c.event.subject c.distance (
          subst (λ (e : ChangeEvent). subject_distance distances e.id e.subject ≡ some c.distance)
            same near) in
        (
          subst (λ (e : ChangeEvent). Memᴰ e feed) same i,
          subst (λ (e : ChangeEvent). incident_at - lookback ≤ e.at) same lo,
          subst (λ (e : ChangeEvent). e.at < incident_at) same hi,
          (n, touch, neighborhood_sound (of_int 0) n c.distance d),
        )

    -- Under the laws of floats, the candidates are ranked by score, the highest first.
    pub root_cause_ranked :
        FloatLaws W → IsOrdered (λ c d. f.le d.score c.score ≡ true) r.candidates
    root_cause_ranked laws = subst (IsOrdered higher) (sym reported) (
        sort-IsOrdered (rank incident_at) higher (rank-true incident_at)
          (rank-false laws incident_at) (λ a b c p q. laws.le_trans c.score b.score a.score q p) _)
      where
        higher : CandidateCause W → CandidateCause W → Type 0
        higher c d = f.le d.score c.score ≡ true
