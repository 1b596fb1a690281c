-- ===== src/Reconciliation/Candidates/Once.antt =====
-- A candidate is resolved at most once.
use infra_twin.Prelude.{
  ℕ, ◌≡◌, inl, inr, Bool, true, false, Option, none, some, List, [], ◌∷◌, select, mem-select, ◌==◌,
  ◌&&◌, arith, refl, sym, ◌∙◌, ap, subst, Bool-cases,
}
use infra_twin.Float.{Float}
use infra_twin.Db.CiRepository.Current.{mem-first_row}
use infra_twin.Db.Tx.{done, raised, ◌>>=◌, candidate_already_resolved}
use infra_twin.Db.Tx.Steps.{Steps-gets, Steps-before, done_state}
use infra_twin.Reconciliation.Tables.{
  Tables, MergeCandidate, CandidateStatus, accepted, dismissed, write_candidates,
}
use infra_twin.Reconciliation.Candidates.{
  AcceptOutcome, is_pending, find_candidate, finds_pending, resolve_candidate, accept_found,
  accept_candidate,
}
use infra_twin.Reconciliation.Candidates.Dismissal.{
  dismiss_pending, dismiss_found, dismiss_candidate,
}
use infra_twin.Reconciliation.Candidates.Accepted.{
  SameCandidates-Preorder, Accepts, after_same, accept_pair-Accepts,
}

-- The candidate that is found under the identifier is not pending.
abbrev IsResolved : {W : Type 0} → ℕ → ℕ → List (MergeCandidate W) → Type 0
IsResolved {W = W} tenant candidate_id candidates =
    (c : MergeCandidate W) × (find_candidate tenant candidate_id candidates ≡ some c)
    × (is_pending c.status ≡ false)

-- The candidate that is found under an identifier, after the pending one was resolved.
module _ {W : Type 0} (tenant now candidate_id : ℕ) (status : CandidateStatus) (merge_id : Option ℕ)
    (final : is_pending status ≡ false) where
  resolve_candidate-IsResolved :
      (candidates : List (MergeCandidate W)) (c : MergeCandidate W)
      → find_candidate tenant candidate_id candidates ≡ some c
      → is_pending c.status ≡ true
      → IsResolved tenant candidate_id
          (resolve_candidate tenant now status merge_id candidate_id candidates)
  unfolding find_candidate resolve_candidate select
  resolve_candidate-IsResolved [] c found open_row = absurd cc
  resolve_candidate-IsResolved (d ∷ candidates) c found open_row =
      elim (Bool-cases (d.tenant_id == tenant && d.candidate_id == candidate_id)) [
        | inl e ↦
            let same : d ≡ c = some_row (rw (e, find_candidate, select) at found) in
            let its : is_pending d.status ≡ true =
              subst (λ (x : MergeCandidate W). is_pending x.status ≡ true) (sym same) open_row in
            let own = own_test d.tenant_id d.candidate_id e in
            (
              record d { status = status; resolved_merge_id = merge_id; resolved_at = some now },
              rw (own.0, own.1, its, find_candidate, resolve_candidate, select)
                  (rw (own.0, own.1, select) refl),
              final,
            )
        | inr e ↦
            let left : (d.tenant_id == tenant
                  && d.candidate_id == candidate_id
                  && is_pending d.status)
                ≡ false =
              still_false (d.tenant_id == tenant) (d.candidate_id == candidate_id) _ e in
            let (k, again, closed) =
              resolve_candidate-IsResolved candidates c (rw (e, find_candidate, select) at found)
                open_row in
            (k, rw (left, e, find_candidate, resolve_candidate, select) again, closed)
      ]
    where
      some_row : {A : Type 0} {a b : A} → some a ≡ some b → a ≡ b
      some_row {a = a} p = ap (λ o. elim o [ none ↦ a | some x ↦ x ]) p

      still_false : (a b p : Bool) → (a && b) ≡ false → (a && b && p) ≡ false
      still_false true true p h = absurd cc
      still_false true false p h = refl
      still_false false b p h = refl

      own_test :
          (t i : ℕ)
          → (t == tenant && i == candidate_id) ≡ true
          → ((t == tenant) ≡ true) × ((i == candidate_id) ≡ true)
      own_test t i e = (ground arith, ground arith)

-- A candidate that was resolved is refused by both operations.
module _ {W J : Type 0} ⦃f : Float W⦄ (draw clock : ℕ → ℕ) (tenant now candidate_id : ℕ)
    (t : Tables W J) where
  abbrev IsRefused : Type 0
  IsRefused =
      (accept_candidate draw clock tenant now candidate_id t ≡ raised candidate_already_resolved)
      × (dismiss_candidate tenant now candidate_id t ≡ raised candidate_already_resolved)

  refused_when_resolved : IsResolved tenant candidate_id t.candidates → IsRefused
  unfolding accept_candidate accept_found dismiss_candidate dismiss_found ◌>>=◌
  refused_when_resolved (c, found, closed) = (
    rw (found, closed, accept_candidate, accept_found) refl,
    rw (found, closed, dismiss_candidate, dismiss_found) refl,
  )

found_id :
    {W : Type 0} (tenant candidate_id : ℕ) (candidates : List (MergeCandidate W))
    (c : MergeCandidate W)
    → find_candidate tenant candidate_id candidates ≡ some c
    → c.candidate_id ≡ candidate_id
unfolding find_candidate
found_id tenant candidate_id candidates c e =
    let (m, test) = (mem-select _ candidates c).0 (mem-first_row _ c e) in ground arith

module _ {W J : Type 0} ⦃f : Float W⦄ (draw clock : ℕ → ℕ) (tenant now candidate_id : ℕ)
    (s t : Tables W J) where
  accepted-IsResolved :
      (o : Option (MergeCandidate W)) (out : AcceptOutcome W)
      → find_candidate tenant candidate_id s.candidates ≡ o
      → accept_found draw clock tenant now o s ≡ done out t
      → IsResolved tenant candidate_id t.candidates
  unfolding accept_found Accepts
  accepted-IsResolved none out found success = absurd cc
  accepted-IsResolved (some c) out found success = elim (Bool-cases (is_pending c.status)) [
    | inr e ↦ let never = rw (e, accept_found) at success in absurd cc
    | inl e ↦
        let (m, same) =
          (Steps-before (after_same draw clock tenant now (λ _ _. true) c) _ _
              (Steps-gets SameCandidates-Preorder _)
              (accept_pair-Accepts draw clock tenant now (λ _ _. true) c)).between
            s out t (rw (e, accept_found) at success) in
        let its = found_id tenant candidate_id s.candidates c found in
        subst (λ (x : List (MergeCandidate W)). IsResolved tenant candidate_id x)
          (sym (same ∙ ap (λ (n : ℕ). resolve_candidate tenant now accepted m n s.candidates) its))
          (resolve_candidate-IsResolved tenant now candidate_id accepted m refl s.candidates c found
            e)
  ]

  -- After an acceptance that succeeds, every later acceptance or dismissal of the candidate raises
  -- that it was already resolved.
  pub accept_candidate_once :
      (out : AcceptOutcome W)
      → accept_candidate draw clock tenant now candidate_id s ≡ done out t
      → (later : ℕ)
      → (accept_candidate draw clock tenant later candidate_id t
          ≡ raised candidate_already_resolved)
        × (dismiss_candidate tenant later candidate_id t ≡ raised candidate_already_resolved)
  unfolding accept_candidate ◌>>=◌
  accept_candidate_once out success later =
      refused_when_resolved draw clock tenant later candidate_id t
        (accepted-IsResolved _ out refl success)

  dismissed-IsResolved :
      (o out : Option (MergeCandidate W))
      → find_candidate tenant candidate_id s.candidates ≡ o
      → dismiss_found tenant now candidate_id o s ≡ done out t
      → IsResolved tenant candidate_id t.candidates
  unfolding dismiss_found dismiss_pending write_candidates ◌>>=◌
  dismissed-IsResolved none out found success = absurd cc
  dismissed-IsResolved (some c) out found success = elim (Bool-cases (is_pending c.status)) [
    | inr e ↦ let never = rw (e, dismiss_found) at success in absurd cc
    | inl e ↦ elim (Bool-cases (finds_pending tenant candidate_id s.candidates)) [
      | inr g ↦ let never = rw (e, g, dismiss_found, dismiss_pending) at success in absurd cc
      | inl g ↦
          let ends = done_state _ _ _ t (rw (e, g, dismiss_found, dismiss_pending) at success) in
          subst (λ (x : Tables W J). IsResolved tenant candidate_id x.candidates) ends
            (resolve_candidate-IsResolved tenant now candidate_id dismissed c.resolved_merge_id refl
              s.candidates c found e)
    ]
  ]

  -- After a dismissal that succeeds, every later acceptance or dismissal of the candidate raises
  -- that it was already resolved.
  pub dismiss_candidate_once :
      (out : Option (MergeCandidate W))
      → dismiss_candidate tenant now candidate_id s ≡ done out t
      → (later : ℕ)
      → (accept_candidate draw clock tenant later candidate_id t
          ≡ raised candidate_already_resolved)
        × (dismiss_candidate tenant later candidate_id t ≡ raised candidate_already_resolved)
  unfolding dismiss_candidate ◌>>=◌
  dismiss_candidate_once out success later =
      refused_when_resolved draw clock tenant later candidate_id t
        (dismissed-IsResolved _ out refl success)
