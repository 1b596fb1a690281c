-- ===== src/Reconciliation/Laws/Counts.antt =====
-- The counters of a reconciliation.
use infra_twin.Prelude.{
  ℕ, suc, ◌+◌, ◌≡◌, Bool, Option, none, some, String, List, gather, length, arith, ◌==◌, inl, inr,
  Bool-cases,
}
use infra_twin.Float.{Float}
use infra_twin.Model.{Ci, CiType, EdgeType}
use infra_twin.Db.Tx.{Tx, done}
use infra_twin.Db.Tx.Yields.{Yields, Yields-pure, Yields-then, Yields-bind, Yields-fold}
use infra_twin.Reconciliation.Events.{DiscoveryEvent, DiscoveredCi, as_ci}
use infra_twin.Reconciliation.Tables.{Tables}
use infra_twin.Reconciliation.Observe.{
  CiBatch, no_cis, count_stored, observe_known, observe_merged, observe_new, observe_unknown,
  observe_found, observe_ci, observe_cis,
}
use infra_twin.Reconciliation.Reconcile.{ReconcileResult, reconcile}

-- the CIs that a batch has counted
abbrev pub counted_cis : {W J : Type 0} → CiBatch W J → ℕ
counted_cis b = b.cis_created + b.cis_updated + b.cis_unchanged

counted_cis-count_stored :
    {W J : Type 0} (before : ℕ) (stored : Ci W J) (b : CiBatch W J)
    → counted_cis (count_stored before stored b) ≡ suc (counted_cis b)
counted_cis-count_stored before stored b = elim (Bool-cases (before == stored.valid_from)) [
  | inl e ↦ rw e (omega arith)
  | inr e ↦ rw e (omega arith)
]

module _ {W J : Type 0} ⦃f : Float W⦄ (same_json : J → J → Bool) (draw : ℕ → ℕ) (tenant now : ℕ)
    (source : String) where
  abbrev CountsOne : CiBatch W J → Tx (Tables W J) (CiBatch W J) → Type 0
  CountsOne b m = Yields (λ c. counted_cis c ≡ suc (counted_cis b)) m

  known-CountsOne :
      (b : CiBatch W J) (dci : DiscoveredCi J) (existing : Ci W J)
      → CountsOne b (observe_known same_json draw tenant now source b dci existing)
  unfolding observe_known
  known-CountsOne b dci existing = Yields-then _ _ λ id.
      Yields-then _ _
        λ stored. Yields-pure _ (counted_cis-count_stored existing.valid_from stored _)

  merged-CountsOne :
      (b : CiBatch W J) (dci : DiscoveredCi J) (canonical : Ci W J) (key : String)
      → CountsOne b (observe_merged same_json draw tenant now source b dci canonical key)
  unfolding observe_merged
  merged-CountsOne b dci canonical key = Yields-then _ _ λ stored. Yields-then _ _ λ _.
      Yields-then _ _ λ _.
        Yields-then _ _ λ _. Yields-pure _ (counted_cis-count_stored canonical.valid_from stored _)

  new-CountsOne :
      (b : CiBatch W J) (dci : DiscoveredCi J)
      → CountsOne b (observe_new same_json draw tenant now source b dci)
  unfolding observe_new
  new-CountsOne b dci = Yields-then _ _ λ id. Yields-then _ _ λ stored. Yields-pure _ (omega arith)

  unknown-CountsOne :
      (b : CiBatch W J) (dci : DiscoveredCi J) (o : Option (Ci W J × String))
      → CountsOne b (observe_unknown same_json draw tenant now source b dci o)
  unfolding observe_unknown
  unknown-CountsOne b dci none = new-CountsOne b dci
  unknown-CountsOne b dci (some (canonical, key)) = merged-CountsOne b dci canonical key

  found-CountsOne :
      (b : CiBatch W J) (dci : DiscoveredCi J) (o : Option (Ci W J))
      → CountsOne b (observe_found same_json draw tenant now source b dci o)
  unfolding observe_found
  found-CountsOne b dci (some existing) = known-CountsOne b dci existing
  found-CountsOne b dci none = Yields-then _ _ (unknown-CountsOne b dci)

  pub observe_cis-Yields :
      (cis : List (DiscoveredCi J))
      → Yields
          (λ (b : CiBatch W J). counted_cis b ≡ length cis)
          (observe_cis same_json draw tenant now source cis)
  unfolding observe_cis observe_ci
  observe_cis-Yields cis = record {
    returned = λ s b t e.
        let h =
          (Yields-fold (counted_cis {W = W} {J = J}) (observe_ci same_json draw tenant now source)
              (λ b dci. Yields-then _ _ (found-CountsOne b dci)) no_cis cis).returned
            s b t e in
        omega arith;
  }

-- A `reconcile` that succeeds has counted every discovered CI once, as created, updated or unchanged.
pub reconcile_counts :
    {W J : Type 0} ⦃f : Float W⦄ (same_json : J → J → Bool) (draw : ℕ → ℕ) (tenant now : ℕ)
    (events : List (DiscoveryEvent W J)) (source : String) (ci_types : List CiType)
    (edge_types : List EdgeType) (s t : Tables W J) (result : ReconcileResult)
    → reconcile same_json draw tenant now events source ci_types edge_types s ≡ done result t
    → result.cis_created + result.cis_updated + result.cis_unchanged ≡ length (gather as_ci events)
unfolding reconcile
reconcile_counts same_json draw tenant now events source ci_types edge_types s t result =
    (Yields-bind
        {P = λ (r : ReconcileResult).
          r.cis_created + r.cis_updated + r.cis_unchanged ≡ length (gather as_ci events)}
        _ _ (observe_cis-Yields same_json draw tenant now source (gather as_ci events))
        λ b h. Yields-then _ _ λ owned. Yields-then _ _ λ closed.
          Yields-then _ _
            λ e. Yields-then _ _ λ closed_edges. Yields-then _ _ λ _. Yields-pure _ h).returned
      s result t
