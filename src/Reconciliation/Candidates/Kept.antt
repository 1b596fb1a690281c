-- ===== src/Reconciliation/Candidates/Kept.antt =====
-- What an acceptance leaves of the past, of other tenants and of the stored rows.
use infra_twin.Prelude.{ℕ, ◌<◌, ◌≡◌, true, Option, List, refl}
use infra_twin.Float.{Float}
use infra_twin.Model.{CiType}
use infra_twin.Db.Tx.{done}
use infra_twin.Db.Tx.Steps.{Steps}
use infra_twin.Reconciliation.Tables.{Tables, MergeCandidate, write_candidates}
use infra_twin.Reconciliation.Candidates.{AcceptOutcome, accept_candidate}
use infra_twin.Reconciliation.Laws.Accepts.{accept_candidate-Steps}
use infra_twin.Reconciliation.Laws.Past.{
  SamePast, SamePast-TableLaws, SamePast-MergeLaws, unchanged, Steps-done,
}
use infra_twin.Reconciliation.Laws.Isolation.{Isolated, Isolated-TableLaws, Isolated-MergeLaws}
use infra_twin.Reconciliation.Laws.Growth.{Grown, Grown-TableLaws, Grown-MergeLaws, same_tables}

module _ {W J : Type 0} (change : List (MergeCandidate W) → List (MergeCandidate W)) where
  write_candidates-SamePast :
      (tenant ts : ℕ) (type : Option CiType)
      → Steps (SamePast {W = W} {J = J} tenant ts type) (write_candidates change)
  unfolding write_candidates
  write_candidates-SamePast tenant ts type =
      Steps-done _ _ λ s. unchanged tenant ts type s _ refl refl

  write_candidates-Isolated :
      (tenant : ℕ) → Steps (Isolated {W = W} {J = J} tenant) (write_candidates change)
  unfolding write_candidates
  write_candidates-Isolated tenant = Steps-done _ _ λ s. record {
    same_cis = refl;
    same_edges = refl;
    same_source_keys = refl;
    same_alias_keys = refl;
    same_merges = refl;
  }

  write_candidates-Grown : Steps (Grown {W = W} {J = J}) (write_candidates change)
  unfolding write_candidates
  write_candidates-Grown = Steps-done _ _ λ s. same_tables s _ refl refl refl

-- An `accept_candidate` that succeeds leaves what a time before the transaction sees of the tenant,
-- but for the columns `valid_to` and `last_seen`, leaves the rows of other tenants in the tables of
-- CIs, edges, source keys, alias keys and merges, and loses no row of the CIs and the edges and
-- rewrites none, but for these columns of open rows; the merges are only appended to.
pub accept_candidate_kept :
    {W J : Type 0} ⦃f : Float W⦄ (draw clock : ℕ → ℕ) (tenant now ts : ℕ) (type : Option CiType)
    (candidate_id : ℕ) (s t : Tables W J) (outcome : AcceptOutcome W)
    → ts < now
    → accept_candidate draw clock tenant now candidate_id s ≡ done outcome t
    → SamePast tenant ts type s t × Isolated tenant s t × Grown s t
accept_candidate_kept draw clock tenant now ts type candidate_id s t outcome past e = (
  (accept_candidate-Steps (λ _ _. true) draw clock tenant now _
        (SamePast-TableLaws tenant now ts type past _ draw) (SamePast-MergeLaws tenant now ts type)
        (λ change. write_candidates-SamePast change tenant ts type) candidate_id).between
      s outcome t e,
  (accept_candidate-Steps (λ _ _. true) draw clock tenant now _
        (Isolated-TableLaws tenant now _ draw) (Isolated-MergeLaws tenant now)
        (λ change. write_candidates-Isolated change tenant) candidate_id).between
      s outcome t e,
  (accept_candidate-Steps (λ _ _. true) draw clock tenant now _ (Grown-TableLaws tenant now _ draw)
        (Grown-MergeLaws tenant now) write_candidates-Grown candidate_id).between
      s outcome t e,
)
