-- ===== src/Reconciliation/Laws/Accepts.antt =====
-- `accept_candidate` keeps every relation that has the laws, and that a write
-- to the candidates keeps.
use infra_twin.Prelude.{ℕ, Bool, Option, none, some, String, List}
use infra_twin.Float.{Float}
use infra_twin.Model.{Ci}
use infra_twin.Db.Tx.Steps.{Steps, Steps-pure, Steps-raise, Steps-gets, Steps-if, Steps-bind}
use infra_twin.Reconciliation.Tables.{Tables, CiMerge, MergeCandidate, write_candidates}
use infra_twin.Reconciliation.Repoint.{Repointed}
use infra_twin.Reconciliation.Candidates.{
  accept_resolved, accept_with, accept_as, accept_into, accept_pair, accept_found, accept_candidate,
  choose,
}
use infra_twin.Reconciliation.Laws.{TableLaws, MergeLaws}
use infra_twin.Reconciliation.Laws.Merges.{fuse-Steps, identity_of-Steps}

module _ {W J : Type 0} ⦃f : Float W⦄ (same_json : J → J → Bool) (draw clock : ℕ → ℕ)
    (tenant now : ℕ) (R : Tables W J → Tables W J → Type 0)
    (laws : TableLaws same_json draw tenant now R) (merge_laws : MergeLaws tenant now R)
    (writes_candidates : (change : List (MergeCandidate W) → List (MergeCandidate W))
      → Steps R (write_candidates {W = W} {J = J} change)) where
  accept_with-Steps :
      (c : MergeCandidate W) (canonical merged : Ci W J) (source external_id : String)
      (b : Repointed W) (o : Option (CiMerge W))
      → Steps R (accept_with draw clock tenant now c canonical merged source external_id b o)
  unfolding accept_with accept_resolved
  accept_with-Steps c canonical merged source external_id b none = Steps-raise _
  accept_with-Steps c canonical merged source external_id b (some m) =
      let p = laws.preorder in
      Steps-bind p _ _ (Steps-gets p _) λ open_row.
        Steps-if open_row _ _
          (Steps-bind p _ _ (writes_candidates _)
            λ _. Steps-bind p _ _ (laws.projects _ _ _ _) λ _. Steps-pure p _)
          (Steps-raise _)

  accept_as-Steps :
      (c : MergeCandidate W) (canonical merged : Ci W J) (k : String × String)
      → Steps R (accept_as draw clock tenant now c canonical merged k)
  unfolding accept_as
  accept_as-Steps c canonical merged (source, external_id) =
      let p = laws.preorder in
      Steps-if _ _ _ (Steps-raise _) (
        Steps-bind p _ _
          (fuse-Steps same_json draw clock tenant now R laws merge_laws c canonical merged source
            external_id)
          λ b.
            Steps-bind p _ _ (Steps-gets p _)
              λ written. accept_with-Steps c canonical merged source external_id b written)

  accept_pair-Steps :
      (c : MergeCandidate W) (o : Option (Ci W J × Ci W J))
      → Steps R (accept_pair draw clock tenant now c o)
  unfolding accept_pair accept_into
  accept_pair-Steps c none = Steps-raise _
  accept_pair-Steps c (some (a, b)) =
      let p = laws.preorder in
      let (canonical, merged) = choose a b in
      Steps-bind p _ _ (Steps-gets p _) λ key.
        Steps-bind p _ _
          (identity_of-Steps same_json draw clock tenant now R laws merge_laws merged key)
          λ identity. accept_as-Steps c canonical merged identity

  accept_found-Steps :
      (o : Option (MergeCandidate W)) → Steps R (accept_found draw clock tenant now o)
  unfolding accept_found
  accept_found-Steps none = Steps-raise _
  accept_found-Steps (some c) =
      let p = laws.preorder in
      Steps-if _ _ _ (Steps-bind p _ _ (Steps-gets p _) (accept_pair-Steps c)) (Steps-raise _)

  -- Every relation that the statements keep holds between the tables before and after an acceptance
  -- that succeeds.
  pub accept_candidate-Steps :
      (candidate_id : ℕ) → Steps R (accept_candidate draw clock tenant now candidate_id)
  unfolding accept_candidate
  accept_candidate-Steps candidate_id =
      Steps-bind laws.preorder _ _ (Steps-gets laws.preorder _) accept_found-Steps
