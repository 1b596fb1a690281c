-- ===== src/Reconciliation/Candidates/Accepted.antt =====
-- What an acceptance writes of the candidates: it resolves the one candidate.
use infra_twin.Prelude.{ℕ, ◌≡◌, Bool, Option, none, some, String, refl, sym, ◌∙◌, ap}
use infra_twin.Float.{Float}
use infra_twin.Model.{Ci}
use infra_twin.Db.Tx.Steps.{
  Steps, Preorder, Steps-raise, Steps-gets, Steps-if, Steps-before, done_state, bind_done,
}
use infra_twin.Reconciliation.Tables.{
  Tables, CiMerge, MergeCandidate, accepted, draw_id, write_ci, write_edge, end_ci, end_edge,
  bind_source_key, register_alias_keys, record_merge, write_graph, move_source_keys,
  move_alias_keys, write_unmerge, write_candidates,
}
use infra_twin.Reconciliation.Repoint.{Repointed}
use infra_twin.Reconciliation.Candidates.{
  resolve_candidate, accept_resolved, accept_with, accept_as, accept_into, accept_pair, choose,
}
use infra_twin.Reconciliation.Laws.{TableLaws, MergeLaws}
use infra_twin.Reconciliation.Laws.Past.{Steps-done, Steps-written}
use infra_twin.Reconciliation.Laws.Merges.{fuse-Steps, identity_of-Steps}

module _ {W J : Type 0} where
  pub SameCandidates : Tables W J → Tables W J → Type 0
  SameCandidates s t = t.candidates ≡ s.candidates

  pub SameCandidates-Preorder : Preorder SameCandidates
  unfolding SameCandidates
  SameCandidates-Preorder = record { same = λ s. refl; then_also = λ s t u h k. k ∙ h }

  SameCandidates-TableLaws :
      ⦃f : Float W⦄ (same_json : J → J → Bool) (draw : ℕ → ℕ) (tenant now : ℕ)
      → TableLaws same_json draw tenant now SameCandidates
  unfolding SameCandidates draw_id write_ci write_edge end_ci end_edge bind_source_key
      register_alias_keys record_merge write_graph
  SameCandidates-TableLaws same_json draw tenant now = record {
    preorder = SameCandidates-Preorder;
    draws = Steps-done _ _ λ s. refl;
    writes_ci = λ ci. Steps-written _ _ λ s out cis e. refl;
    writes_edge = λ edge. Steps-written _ _ λ s out edges e. refl;
    ends_ci = λ ci_type external_id. Steps-done _ _ λ s. refl;
    ends_edge = λ edge_type from_id to_id key. Steps-done _ _ λ s. refl;
    binds = λ source native_id id. Steps-done _ _ λ s. refl;
    registers = λ keys id ci_type source. Steps-done _ _ λ s. refl;
    merges = λ id source external_id key evidence. Steps-done _ _ λ s. refl;
    projects = λ cis edges closed closed_edges. Steps-done _ _ λ s. refl;
  }

  SameCandidates-MergeLaws : (tenant now : ℕ) → MergeLaws tenant now SameCandidates
  unfolding SameCandidates move_source_keys move_alias_keys write_unmerge
  SameCandidates-MergeLaws tenant now = record {
    moves_source_keys = λ test id. Steps-done _ _ λ s. refl;
    moves_alias_keys = λ test id. Steps-done _ _ λ s. refl;
    unmerges = λ row. Steps-done _ _ λ s. refl;
  }

module _ {W J : Type 0} ⦃f : Float W⦄ (draw clock : ℕ → ℕ) (tenant now : ℕ)
    (same_json : J → J → Bool) (c : MergeCandidate W) where
  -- the candidate was resolved as accepted
  unfoldable pub Accepts : Tables W J → Tables W J → Type 0
  Accepts s t =
      (m : Option ℕ) × (t.candidates
        ≡ resolve_candidate tenant now accepted m c.candidate_id s.candidates)

  pub after_same : (s t u : Tables W J) → SameCandidates s t → Accepts t u → Accepts s u
  unfolding SameCandidates Accepts
  after_same s t u same (m, e) =
      (m, e ∙ ap (resolve_candidate tenant now accepted m c.candidate_id) same)

  accept_resolved-Accepts :
      (canonical merged : Ci W J) (source external_id : String) (b : Repointed W) (m : CiMerge W)
      → Steps Accepts
          (accept_resolved draw clock tenant now c canonical merged source external_id b m)
  unfolding accept_resolved Accepts write_candidates write_graph
  accept_resolved-Accepts canonical merged source external_id b m = record {
    between = λ s a t e.
        let (_, s1, e1, r1) = bind_done _ _ s a t e in
        let (_, s2, e2, r2) = bind_done _ _ s1 a t r1 in
        (
          some m.merge_id,
          sym (
                ap (λ (x : Tables W J). x.candidates)
                  (done_state _ _ _ s2 e2 ∙ done_state _ _ s2 t r2))
              ∙ sym (ap (λ (x : Tables W J). x.candidates) (done_state _ _ _ s1 e1)),
        );
  }

  accept_with-Accepts :
      (canonical merged : Ci W J) (source external_id : String) (b : Repointed W)
      (o : Option (CiMerge W))
      → Steps Accepts (accept_with draw clock tenant now c canonical merged source external_id b o)
  unfolding accept_with
  accept_with-Accepts canonical merged source external_id b none = Steps-raise _
  accept_with-Accepts canonical merged source external_id b (some m) =
      Steps-before after_same _ _ (Steps-gets SameCandidates-Preorder _) λ open_row.
        Steps-if open_row _ _ (accept_resolved-Accepts canonical merged source external_id b m)
          (Steps-raise _)

  accept_as-Accepts :
      (canonical merged : Ci W J) (p : String × String)
      → Steps Accepts (accept_as draw clock tenant now c canonical merged p)
  unfolding accept_as
  accept_as-Accepts canonical merged (source, external_id) = Steps-if _ _ _ (Steps-raise _) (
      Steps-before after_same _ _
        (fuse-Steps same_json draw clock tenant now SameCandidates
          (SameCandidates-TableLaws same_json draw tenant now) (SameCandidates-MergeLaws tenant now)
          c canonical merged source external_id)
        λ b.
          Steps-before after_same _ _ (Steps-gets SameCandidates-Preorder _)
            λ written. accept_with-Accepts canonical merged source external_id b written)

  pub accept_pair-Accepts :
      (o : Option (Ci W J × Ci W J)) → Steps Accepts (accept_pair draw clock tenant now c o)
  unfolding accept_pair accept_into
  accept_pair-Accepts none = Steps-raise _
  accept_pair-Accepts (some (a, b)) =
      let (canonical, merged) = choose a b in
      Steps-before after_same _ _ (Steps-gets SameCandidates-Preorder _) λ key.
        Steps-before after_same _ _
          (identity_of-Steps same_json draw clock tenant now SameCandidates
            (SameCandidates-TableLaws same_json draw tenant now)
            (SameCandidates-MergeLaws tenant now) merged key)
          λ identity. accept_as-Accepts canonical merged identity
