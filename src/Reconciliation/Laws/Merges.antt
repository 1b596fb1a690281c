-- ===== src/Reconciliation/Laws/Merges.antt =====
-- `unmerge`, and what an acceptance does to the CIs and edges, keep every relation that has the laws.
use infra_twin.Prelude.{ℕ, Bool, Option, none, some, String}
use infra_twin.Float.{Float}
use infra_twin.Model.{Ci, Edge}
use infra_twin.Db.Tx.Steps.{
  Steps, Steps-pure, Steps-raise, Steps-gets, Steps-if, Steps-bind, Steps-fold,
}
use infra_twin.Reconciliation.Tables.{Tables, SourceKey, CiMerge, MergeCandidate}
use infra_twin.Reconciliation.Repoint.{Repointed, repoint_edge, repoint_apart}
use infra_twin.Reconciliation.Unmerge.{move_to, split_off, unmerge_row, unmerge}
use infra_twin.Reconciliation.Candidates.{identity_of, fuse}
use infra_twin.Reconciliation.Laws.{TableLaws, MergeLaws}

module _ {W J : Type 0} ⦃f : Float W⦄ (same_json : J → J → Bool) (draw clock : ℕ → ℕ)
    (tenant now : ℕ) (R : Tables W J → Tables W J → Type 0)
    (laws : TableLaws same_json draw tenant now R) (merge_laws : MergeLaws tenant now R) where
  repoint_edge-Steps :
      (from_ci to_ci : ℕ) (source detail : String) (b : Repointed W) (e : Edge W)
      → Steps R (repoint_edge draw clock tenant now from_ci to_ci source detail b e)
  unfolding repoint_edge
  repoint_edge-Steps from_ci to_ci source detail b e =
      let p = laws.preorder in
      Steps-bind p _ _ (Steps-gets p _) λ observed_at.
        Steps-bind p _ _ (laws.ends_edge _ _ _ _) λ _.
          Steps-bind p _ _ laws.draws
            λ id. Steps-bind p _ _ (laws.writes_edge _) λ reopened. Steps-pure p _

  repoint_apart-Steps :
      (from_ci to_ci : ℕ) (source detail : String) (b : Repointed W) (e : Edge W)
      → Steps R (repoint_apart draw clock tenant now from_ci to_ci source detail b e)
  unfolding repoint_apart
  repoint_apart-Steps from_ci to_ci source detail b e =
      Steps-if _ _ _ (Steps-pure laws.preorder b)
        (repoint_edge-Steps from_ci to_ci source detail b e)

  move_to-Steps :
      (empty : J) (merge_id : ℕ) (m : CiMerge W) (restored : Ci W J)
      → Steps R (move_to same_json draw clock tenant now empty merge_id m restored)
  unfolding move_to
  move_to-Steps empty merge_id m restored =
      let p = laws.preorder in
      Steps-bind p _ _ (merge_laws.moves_source_keys _ _) λ _.
        Steps-bind p _ _ (merge_laws.moves_alias_keys _ _) λ _.
          Steps-bind p _ _ (Steps-gets p _) λ edges.
            Steps-bind p _ _ (Steps-fold p _ (repoint_edge-Steps _ _ _ _) _ edges) λ b.
              Steps-bind p _ _ laws.draws λ unmerge_id.
                Steps-bind p _ _ (merge_laws.unmerges _)
                  λ _. Steps-bind p _ _ (laws.projects _ _ _ _) λ _. Steps-pure p _

  split_off-Steps :
      (empty : J) (merge_id : ℕ) (m : CiMerge W) (o : Option (Ci W J))
      → Steps R (split_off same_json draw clock tenant now empty merge_id m o)
  unfolding split_off
  split_off-Steps empty merge_id m none = Steps-raise _
  split_off-Steps empty merge_id m (some canonical) =
      let p = laws.preorder in
      Steps-bind p _ _ laws.draws λ id.
        Steps-bind p _ _ (laws.writes_ci _)
          λ restored. Steps-if _ _ _ (Steps-raise _) (move_to-Steps empty merge_id m restored)

  unmerge_row-Steps :
      (empty : J) (merge_id : ℕ) (o : Option (CiMerge W))
      → Steps R (unmerge_row same_json draw clock tenant now empty merge_id o)
  unfolding unmerge_row
  unmerge_row-Steps empty merge_id none = Steps-raise _
  unmerge_row-Steps empty merge_id (some m) =
      let p = laws.preorder in
      Steps-bind p _ _ (Steps-gets p _) λ already.
        Steps-if already _ _ (Steps-raise _)
          (Steps-bind p _ _ (Steps-gets p _) (split_off-Steps empty merge_id m))

  -- Every relation that the statements keep holds between the tables before and after an `unmerge`
  -- that succeeds.
  pub unmerge-Steps :
      (empty : J) (merge_id : ℕ) → Steps R (unmerge same_json draw clock tenant now empty merge_id)
  unfolding unmerge
  unmerge-Steps empty merge_id =
      Steps-bind laws.preorder _ _ (Steps-gets laws.preorder _) (unmerge_row-Steps empty merge_id)

  pub identity_of-Steps :
      (merged : Ci W J) (o : Option SourceKey)
      → Steps R (identity_of draw clock tenant now merged o)
  unfolding identity_of
  identity_of-Steps merged (some k) = Steps-pure laws.preorder _
  identity_of-Steps merged none =
      let p = laws.preorder in Steps-bind p _ _ (laws.binds _ _ _) λ _. Steps-pure p _

  pub fuse-Steps :
      (c : MergeCandidate W) (canonical merged : Ci W J) (source external_id : String)
      → Steps R (fuse draw clock tenant now c canonical merged source external_id)
  unfolding fuse
  fuse-Steps c canonical merged source external_id =
      let p = laws.preorder in
      Steps-bind p _ _ (merge_laws.moves_source_keys _ _) λ _.
        Steps-bind p _ _ (merge_laws.moves_alias_keys _ _) λ _.
          Steps-bind p _ _ (Steps-gets p _) λ edges.
            Steps-bind p _ _ (Steps-fold p _ (repoint_apart-Steps _ _ _ _) _ edges) λ b.
              Steps-bind p _ _ (laws.ends_ci _ _)
                λ _. Steps-bind p _ _ (laws.merges _ _ _ _ _) λ _. Steps-pure p _
