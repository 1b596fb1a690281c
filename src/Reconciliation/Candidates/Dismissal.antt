-- ===== src/Reconciliation/Candidates/Dismissal.antt =====
-- reconciliation/candidates.py: `dismiss_candidate`.
use infra_twin.Prelude.{ℕ, Bool, true, false, Option, none, some, if◌then◌else◌}
use infra_twin.Db.Tx.{candidate_not_found, candidate_already_resolved, Tx, raise, gets, ◌>>=◌, ◌>>◌}
use infra_twin.Reconciliation.Tables.{Tables, MergeCandidate, dismissed, write_candidates}
use infra_twin.Reconciliation.Candidates.{
  is_pending, find_candidate, finds_pending, resolve_candidate,
}

module _ {W J : Type 0} (tenant now : ℕ) where
  -- the row that the `UPDATE` returns, read back, where it finds one
  unfoldable pub dismiss_pending :
      ℕ → MergeCandidate W → Bool → Tx (Tables W J) (Option (MergeCandidate W))
  unfolding resolve_candidate
  dismiss_pending candidate_id c false = raise candidate_already_resolved
  dismiss_pending candidate_id c true = do
    write_candidates (resolve_candidate tenant now dismissed c.resolved_merge_id candidate_id)
    gets (λ s. find_candidate tenant candidate_id s.candidates)

  unfoldable pub dismiss_found :
      ℕ → Option (MergeCandidate W) → Tx (Tables W J) (Option (MergeCandidate W))
  unfolding dismiss_pending finds_pending
  dismiss_found candidate_id none = raise candidate_not_found
  dismiss_found candidate_id (some c) =
      if is_pending c.status
      then (gets (λ s. finds_pending tenant candidate_id s.candidates)
          >>= dismiss_pending candidate_id c)
      else raise candidate_already_resolved

  unfoldable pub dismiss_candidate : ℕ → Tx (Tables W J) (Option (MergeCandidate W))
  unfolding dismiss_found find_candidate
  dismiss_candidate candidate_id =
      gets (λ s. find_candidate tenant candidate_id s.candidates) >>= dismiss_found candidate_id
