-- ===== src/Reconciliation/Aging/Kept.antt =====
-- What the counters of the aging sweep count.
use infra_twin.Prelude.{
  ℕ, ◌+◌, ◌≡◌, inl, inr, none, some, List, [], ◌∷◌, length, length-append, ltb, subst, arith, refl,
  String, select, Bool-cases, Option-cases,
}
use infra_twin.Prelude.Ints.{ℤ, pos, negsuc, diff}
use infra_twin.Float.{Float}
use infra_twin.Model.{Edge, is_inferred}
use infra_twin.Db.CiRepository.{Written, written, refused, duplicate_key}
use infra_twin.Db.EdgeRepository.{last_observed_at_of, get_current_edges}
use infra_twin.Confidence.{freshness_window, edge_ttl, decayed_confidence}
use infra_twin.Reconciliation.Aging.{
  Aging, record_decay, is_already_decayed, count_untouched, close_expired, write_decay, decay_edge,
  age_by, age_edge, age_edges, age_inferred_edges,
}

module _ {W : Type 0} where
  -- the edges that a state has counted
  abbrev pub handled : Aging W → ℕ
  handled s = s.result.decayed + s.result.closed + s.result.untouched

  -- the inferred edges of a list
  abbrev pub inferred_count : List (Edge W) → ℕ
  inferred_count edges = length (select (λ e. is_inferred e.source) edges)

  -- The counters are the lengths of the lists of edges that the projection is given.
  abbrev IsListed : Aging W → Type 0
  IsListed s =
      (length s.decayed_edges ≡ s.result.decayed) × (length s.closed_edges ≡ s.result.closed)

  -- One edge more has been counted.
  abbrev IsNext : Aging W → Aging W → Type 0
  IsNext s t = (handled t ≡ handled s + 1) × (IsListed s → IsListed t)

  untouched-IsNext : (s : Aging W) → IsNext s (count_untouched s)
  unfolding count_untouched
  untouched-IsNext s = (omega arith, λ h. h)

  of_some : (s x t : Aging W) → some x ≡ some t → IsNext s x → IsNext s t
  of_some s x t e h = let same : x ≡ t = ground arith in subst (IsNext s) same h

  record_decay-IsNext :
      (w : Written (Edge W)) (s t : Aging W) → record_decay w s ≡ some t → IsNext s t
  unfolding record_decay
  record_decay-IsNext refused s t e = cc
  record_decay-IsNext duplicate_key s t e = cc
  record_decay-IsNext (written edge table) s t e =
      of_some s _ t e
        (omega arith, λ h. (omega (arith, h.0, length-append s.decayed_edges (edge ∷ [])), h.1))

  close_expired-IsNext :
      (tenant started : ℕ) (edge : Edge W) (s : Aging W)
      → IsNext s (close_expired tenant started edge s)
  unfolding close_expired
  close_expired-IsNext tenant started edge s =
      (omega arith, λ h. (h.0, omega (arith, h.1, length-append s.closed_edges (edge ∷ []))))

module _ {W : Type 0} ⦃f : Float W⦄ (sentence : W → W → ℕ → String) (tenant started now : ℕ) where
  decay_edge-IsNext :
      (edge : Edge W) (age : ℕ) (s t : Aging W)
      → decay_edge sentence tenant started now edge age s ≡ some t
      → IsNext s t
  unfolding decay_edge write_decay
  decay_edge-IsNext edge age s t done = elim (Bool-cases (is_already_decayed now edge.evidence)) [
    | inl e ↦ of_some s _ t (rw (e, decay_edge) at done) (untouched-IsNext s)
    | inr e ↦ elim (Option-cases (decayed_confidence edge.confidence (pos age))) [
      | inl g ↦ let never = rw (e, g, decay_edge) at done in absurd cc
      | inr (c, g) ↦ elim (Bool-cases (f.le edge.confidence c)) [
        | inl k ↦ of_some s _ t (rw (e, g, k, decay_edge) at done) (untouched-IsNext s)
        | inr k ↦ record_decay-IsNext _ s t (rw (e, g, k, decay_edge, write_decay) at done)
      ]
    ]
  ]

  age_by-IsNext :
      (edge : Edge W) (age : ℤ) (s t : Aging W)
      → age_by sentence tenant started now edge age s ≡ some t
      → IsNext s t
  unfolding age_by
  age_by-IsNext edge (negsuc _) s t done = of_some s _ t done (untouched-IsNext s)
  age_by-IsNext edge (pos age) s t done = elim (Bool-cases (ltb edge_ttl age)) [
    | inl e ↦ of_some s _ t (rw (e, age_by) at done) (close_expired-IsNext tenant started edge s)
    | inr e ↦ elim (Bool-cases (ltb freshness_window age)) [
      | inl g ↦ decay_edge-IsNext edge age s t (rw (e, g, age_by) at done)
      | inr g ↦ of_some s _ t (rw (e, g, age_by) at done) (untouched-IsNext s)
    ]
  ]

  age_edges-counts :
      (edges : List (Edge W)) (s t : Aging W)
      → age_edges sentence tenant started now edges s ≡ some t
      → (handled t ≡ handled s + inferred_count edges) × (IsListed s → IsListed t)
  unfolding age_edges age_edge select
  age_edges-counts [] s t done =
      let same : s ≡ t = ground arith in
      subst (λ (x : Aging W). (handled x ≡ handled s + 0) × (IsListed s → IsListed x)) same
        (omega arith, λ h. h)
  age_edges-counts (edge ∷ edges) s t done = elim (Bool-cases (is_inferred edge.source)) [
    | inr e ↦ rw (e, select) (age_edges-counts edges s t (rw (e, age_edges, age_edge) at done))
    | inl e ↦ elim (Option-cases (last_observed_at_of edge.evidence)) [
      | inl g ↦
          let (a, b) = untouched-IsNext s in
          let (c, d) =
            age_edges-counts edges (count_untouched s) t (rw (e, g, age_edges, age_edge) at done) in
          rw (e, select) (omega arith, λ h. d (b h))
      | inr (last, g) ↦
          elim (Option-cases (age_by sentence tenant started now edge (diff now last) s)) [
            | inl k ↦ let never = rw (e, g, k, age_edges, age_edge) at done in absurd cc
            | inr (u, k) ↦
                let (a, b) = age_by-IsNext edge (diff now last) s u k in
                let (c, d) =
                  age_edges-counts edges u t (rw (e, g, k, age_edges, age_edge) at done) in
                rw (e, select) (omega arith, λ h. d (b h))
          ]
    ]
  ]

  -- A sweep that succeeds counts each current inferred edge of the tenant once, as decayed, closed or
  -- untouched, and the first two counters are the numbers of edges that it projects into the graph.
  pub age_inferred_edges_counts :
      (table : List (Edge W)) (t : Aging W)
      → age_inferred_edges sentence tenant started now table ≡ some t
      → (t.result.decayed + t.result.closed + t.result.untouched
          ≡ inferred_count (get_current_edges tenant none table))
        × (length t.decayed_edges ≡ t.result.decayed)
        × (length t.closed_edges ≡ t.result.closed)
  unfolding age_inferred_edges
  age_inferred_edges_counts table t done =
      let (a, b) = age_edges-counts (get_current_edges tenant none table) _ t done in
      let (c, d) = b (refl, refl) in (omega arith, c, d)
