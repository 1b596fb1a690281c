-- ===== src/Reconciliation/Candidates.antt =====
-- reconciliation/candidates.py: the acceptance of a merge candidate, in a transaction of the tenant;
-- the dismissal is Candidates/Dismissal. The generation of candidates is left out, and so is what another
-- transaction commits between two statements of one.
pub mod Dismissal
pub mod Accepted
pub mod Kept
pub mod Once
use infra_twin.Prelude.{
  ℕ, suc, Bool, true, false, not, Option, none, some, String, List, [], ◌∷◌, ◌++◌, map, select, ltb,
  leb, ◌==◌, ◌&&◌, ◌||◌, text_eq, text_order, and_then, not_after, if◌then◌else◌,
}
use Prim.Native.Nat.{compare}
use infra_twin.Prelude.Sort.{sort}
use infra_twin.Prelude.Uuid.{uuid_text, joined}
use infra_twin.Float.{Float}
use infra_twin.Model.{Ci, Edge, is_inferred}
use infra_twin.Db.Policies.{first_row}
use infra_twin.Db.CiRepository.{get_current_by_id, is_some}
use infra_twin.Db.EdgeRepository.{get_current_edges}
use infra_twin.Db.Tx.{
  candidate_not_found, candidate_already_resolved, candidate_error, TxOutcome, Tx, pure, raise,
  gets, ◌>>=◌, ◌>>◌, fold_tx,
}
use infra_twin.Reconciliation.Tables.{
  Tables, SourceKey, CiMerge, MergeCandidate, CandidateStatus, pending, accepted, dismissed,
  accepted_with, end_ci, bind_source_key, move_source_keys, move_alias_keys, record_merge,
  write_candidates, write_graph,
}
use infra_twin.Reconciliation.Reconcile.{both}
use infra_twin.Reconciliation.Repoint.{Repointed, none_repointed, repoint_apart}

pub record AcceptOutcome (W : Type 0) : Type 0 where
  pub candidate_id : ℕ
  pub merge_id : ℕ
  pub canonical_ci_id : ℕ
  pub merged_ci_id : ℕ
  pub merged_source : String
  pub merged_external_id : String
  pub confidence : W
  pub resolved_at : ℕ

abbrev pub is_pending : CandidateStatus → Bool
is_pending pending = true
is_pending accepted = false
is_pending dismissed = false

-- the CI that stays, and the one that is merged into it
unfoldable pub choose : {W J : Type 0} → Ci W J → Ci W J → Ci W J × Ci W J
choose a b =
    if not_after (and_then (text_order a.external_id b.external_id) (compare a.id b.id))
    then (a, b)
    else (b, a)

-- the smallest source key of a CI, by source and native identifier
unfoldable pub smallest_source_key : ℕ → ℕ → List SourceKey → Option SourceKey
smallest_source_key tenant ci_id keys = first_row (
    sort
      (λ k l.
        not_after (and_then (text_order k.source l.source) (text_order k.native_id l.native_id)))
      (select (λ k. k.tenant_id == tenant && k.ci_id == ci_id) keys))

module _ {W : Type 0} (tenant : ℕ) where
  unfoldable pub find_candidate : ℕ → List (MergeCandidate W) → Option (MergeCandidate W)
  find_candidate candidate_id candidates =
      first_row (select (λ c. c.tenant_id == tenant && c.candidate_id == candidate_id) candidates)

  -- whether the `UPDATE` below finds a row, which it returns
  unfoldable pub finds_pending : ℕ → List (MergeCandidate W) → Bool
  finds_pending candidate_id candidates = is_some (
      first_row (
        select (λ c. c.tenant_id == tenant && c.candidate_id == candidate_id && is_pending c.status)
          candidates))

  -- `UPDATE … WHERE candidate_id = … AND status = 'pending'`
  unfoldable pub resolve_candidate :
      ℕ → CandidateStatus → Option ℕ → ℕ → List (MergeCandidate W) → List (MergeCandidate W)
  resolve_candidate now status merge_id candidate_id candidates =
      map
        (λ c.
          if c.tenant_id == tenant && c.candidate_id == candidate_id && is_pending c.status
          then record c { status = status; resolved_merge_id = merge_id; resolved_at = some now }
          else c)
        candidates

  -- the newest merge row of an identity
  unfoldable pub written_merge :
      ℕ → String → String → String → List (CiMerge W) → Option (CiMerge W)
  written_merge canonical_id source external_id key merges = first_row (
      sort
        (λ m n.
          not_after (and_then (compare n.merged_at m.merged_at) (compare n.merge_id m.merge_id)))
        (select
          (λ m.
            m.tenant_id == tenant
            && m.canonical_ci_id == canonical_id
            && text_eq m.merged_source source
            && text_eq m.merged_external_id external_id
            && text_eq m.matched_alias_key key)
          merges))

unfoldable pub merge_detail : ℕ → ℕ → ℕ → String
merge_detail merged_id canonical_id candidate_id = joined (
    "re-pointed from merged CI "
    ∷ uuid_text merged_id
    ∷ " to canonical CI "
    ∷ uuid_text canonical_id
    ∷ " via accepted fuzzy candidate "
    ∷ uuid_text candidate_id
    ∷ [])

unfoldable pub candidate_key : ℕ → String
candidate_key candidate_id = joined ("fuzzy-candidate:" ∷ uuid_text candidate_id ∷ [])

module _ {W J : Type 0} ⦃f : Float W⦄ (draw clock : ℕ → ℕ) (tenant now : ℕ) where
  -- step 4: the source key of the merged CI, or one that is made for it
  unfoldable pub identity_of : Ci W J → Option SourceKey → Tx (Tables W J) (String × String)
  identity_of merged (some k) = pure (k.source, k.native_id)
  identity_of merged none = do
    bind_source_key tenant now "fuzzy-candidate" merged.external_id merged.id
    pure ("fuzzy-candidate", merged.external_id)

  -- steps 5 to 8, with the identity that is merged
  unfoldable pub fuse :
      MergeCandidate W → Ci W J → Ci W J → String → String → Tx (Tables W J) (Repointed W)
  unfolding merge_detail candidate_key
  fuse c canonical merged source external_id = do
    move_source_keys tenant now (λ k. k.ci_id == merged.id) canonical.id
    move_alias_keys tenant now (λ a. a.ci_id == merged.id) canonical.id
    edges ← gets (λ s.
        select (λ e. not (is_inferred e.source) && (e.from_id == merged.id || e.to_id == merged.id))
          (get_current_edges tenant none s.edges))
    b ←
        fold_tx
          (repoint_apart draw clock tenant now merged.id canonical.id "merge-candidate"
            (merge_detail merged.id canonical.id c.candidate_id))
          none_repointed edges
    end_ci tenant now merged.type merged.external_id
    record_merge tenant now draw canonical.id source external_id (candidate_key c.candidate_id)
        (accepted_with c.candidate_id c.confidence c.evidence)
    pure b

  -- steps 9 to 11: the resolution of the candidate, where it is still pending
  unfoldable pub accept_resolved :
      MergeCandidate W
      → Ci W J
      → Ci W J
      → String
      → String
      → Repointed W
      → CiMerge W
      → Tx (Tables W J) (AcceptOutcome W)
  unfolding resolve_candidate
  accept_resolved c canonical merged source external_id b m = do
    write_candidates (resolve_candidate tenant now accepted (some m.merge_id) c.candidate_id)
    write_graph (canonical ∷ []) b.reopened_edges (merged ∷ []) b.closed_edges
    pure (record {
      candidate_id = c.candidate_id;
      merge_id = m.merge_id;
      canonical_ci_id = canonical.id;
      merged_ci_id = merged.id;
      merged_source = source;
      merged_external_id = external_id;
      confidence = c.confidence;
      resolved_at = now;
    })

  -- steps 8 to 11, with the merge row that was written
  unfoldable pub accept_with :
      MergeCandidate W
      → Ci W J
      → Ci W J
      → String
      → String
      → Repointed W
      → Option (CiMerge W)
      → Tx (Tables W J) (AcceptOutcome W)
  unfolding accept_resolved finds_pending
  accept_with c canonical merged source external_id b none = raise candidate_error
  accept_with c canonical merged source external_id b (some m) = do
    open_row ← gets (λ s. finds_pending tenant c.candidate_id s.candidates)
    (if open_row
        then accept_resolved c canonical merged source external_id b m
        else raise candidate_already_resolved)

  unfoldable pub accept_as :
      MergeCandidate W → Ci W J → Ci W J → String × String → Tx (Tables W J) (AcceptOutcome W)
  unfolding fuse accept_with candidate_key written_merge
  accept_as c canonical merged (source, external_id) =
      if text_eq external_id canonical.external_id then raise candidate_error else (do
        b ← fuse c canonical merged source external_id
        written ← gets (λ s.
            written_merge tenant canonical.id source external_id (candidate_key c.candidate_id)
              s.merges)
        accept_with c canonical merged source external_id b written)

  unfoldable pub accept_into :
      MergeCandidate W → Ci W J → Ci W J → Tx (Tables W J) (AcceptOutcome W)
  unfolding identity_of accept_as smallest_source_key
  accept_into c canonical merged = do
    key ← gets (λ s. smallest_source_key tenant merged.id s.source_keys)
    identity ← identity_of merged key
    accept_as c canonical merged identity

  unfoldable pub accept_pair :
      MergeCandidate W → Option (Ci W J × Ci W J) → Tx (Tables W J) (AcceptOutcome W)
  unfolding accept_into choose
  accept_pair c none = raise candidate_not_found
  accept_pair c (some (a, b)) =
      let (canonical, merged) = choose a b in accept_into c canonical merged

  unfoldable pub accept_found : Option (MergeCandidate W) → Tx (Tables W J) (AcceptOutcome W)
  unfolding accept_pair
  accept_found none = raise candidate_not_found
  accept_found (some c) =
      if is_pending c.status
      then (gets (λ s.
            both (get_current_by_id tenant c.ci_id_a s.cis)
              (get_current_by_id tenant c.ci_id_b s.cis))
          >>= accept_pair c)
      else raise candidate_already_resolved

  unfoldable pub accept_candidate : ℕ → Tx (Tables W J) (AcceptOutcome W)
  unfolding accept_found find_candidate
  accept_candidate candidate_id =
      gets (λ s. find_candidate tenant candidate_id s.candidates) >>= accept_found
