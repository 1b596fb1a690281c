-- ===== src/Reconciliation/Unmerge.antt =====
-- reconciliation/unmerge.py: the reversal of a merge, in a transaction of the tenant. `empty` is the
-- empty JSON object.
use infra_twin.Prelude.{
  ℕ, Bool, false, not, Option, none, some, String, List, [], ◌∷◌, select, ◌==◌, ◌&&◌, ◌||◌, text_eq,
  if◌then◌else◌,
}
use infra_twin.Prelude.Uuid.{uuid_text, contains_text, joined}
use infra_twin.Float.{Float, of_int}
use infra_twin.Model.{Ci, Edge, is_inferred, Evidence}
use infra_twin.Db.Policies.{first_row}
use infra_twin.Db.CiRepository.{get_current_by_id, is_some}
use infra_twin.Db.EdgeRepository.{get_current_edges}
use infra_twin.Db.Tx.{
  merge_not_found, merge_already_reversed, unmerge_error, Tx, pure, raise, gets, ◌>>=◌, ◌>>◌,
  fold_tx,
}
use infra_twin.Reconciliation.Tables.{
  Tables, CiMerge, draw_id, write_ci, move_source_keys, move_alias_keys, write_unmerge, write_graph,
}
use infra_twin.Reconciliation.Repoint.{none_repointed, repoint_edge}

pub record UnmergeOutcome : Type 0 where
  pub unmerge_id : ℕ
  pub original_merge_id : ℕ
  pub canonical_ci_id : ℕ
  pub restored_ci_id : ℕ
  pub restored_source : String
  pub restored_external_id : String
  pub unmerged_at : ℕ

-- `_provenance_matches`
unfoldable pub provenance_matches : String → String → List Evidence → Bool
provenance_matches source external_id [] = false
provenance_matches source external_id (ev ∷ evidence) =
    text_eq ev.source source
    || elim ev.detail [ none ↦ false | some text ↦ contains_text external_id text ]
    || provenance_matches source external_id evidence

-- `_is_repoint_candidate`
unfoldable pub is_repoint_candidate : {W : Type 0} → ℕ → String → String → Edge W → Bool
unfolding provenance_matches
is_repoint_candidate canonical_ci_id source external_id e =
    not (is_inferred e.source)
    && (e.from_id == canonical_ci_id || e.to_id == canonical_ci_id)
    && provenance_matches source external_id e.evidence

-- the sentence of the evidence of a moved edge
unfoldable pub unmerge_detail : ℕ → ℕ → ℕ → String
unmerge_detail canonical_id restored_id merge_id = joined (
    "re-pointed from "
    ∷ uuid_text canonical_id
    ∷ " to "
    ∷ uuid_text restored_id
    ∷ " via unmerge of "
    ∷ uuid_text merge_id
    ∷ [])

module _ {W J : Type 0} (tenant : ℕ) where
  unfoldable pub find_merge : ℕ → Tables W J → Option (CiMerge W)
  find_merge merge_id s =
      first_row (select (λ m. m.tenant_id == tenant && m.merge_id == merge_id) s.merges)

  unfoldable pub is_reversed : ℕ → Tables W J → Bool
  is_reversed merge_id s = is_some (
      first_row (select (λ u. u.tenant_id == tenant && u.original_merge_id == merge_id) s.unmerges))

module _ {W J : Type 0} ⦃f : Float W⦄ (same_json : J → J → Bool) (draw clock : ℕ → ℕ)
    (tenant now : ℕ) (empty : J) where
  unfoldable pub split_ci : ℕ → Ci W J → String → Ci W J
  split_ci id canonical external_id = record {
    id = id;
    tenant_id = tenant;
    type = canonical.type;
    external_id = external_id;
    name = none;
    attributes = empty;
    confidence = of_int 1;
    first_seen = 0;
    last_seen = 0;
    valid_from = 0;
    valid_to = none;
  }

  -- steps 5 to 10, with the restored CI
  unfoldable pub move_to : ℕ → CiMerge W → Ci W J → Tx (Tables W J) UnmergeOutcome
  unfolding is_repoint_candidate unmerge_detail
  move_to merge_id m restored = do
    move_source_keys tenant now
        (λ k. text_eq k.source m.merged_source && text_eq k.native_id m.merged_external_id)
        restored.id
    move_alias_keys tenant now
        (λ a. a.ci_id == m.canonical_ci_id && text_eq a.source m.merged_source) restored.id
    edges ← gets (λ s.
        select (is_repoint_candidate m.canonical_ci_id m.merged_source m.merged_external_id)
          (get_current_edges tenant none s.edges))
    b ←
        fold_tx
          (repoint_edge draw clock tenant now m.canonical_ci_id restored.id "unmerge"
            (unmerge_detail m.canonical_ci_id restored.id merge_id))
          none_repointed edges
    unmerge_id ← draw_id draw
    write_unmerge (record {
      unmerge_id = unmerge_id;
      tenant_id = tenant;
      original_merge_id = merge_id;
      canonical_ci_id = m.canonical_ci_id;
      restored_ci_id = restored.id;
      restored_source = m.merged_source;
      restored_external_id = m.merged_external_id;
      unmerged_at = now;
    })
    write_graph (restored ∷ []) b.reopened_edges [] b.closed_edges
    pure (record {
      unmerge_id = unmerge_id;
      original_merge_id = merge_id;
      canonical_ci_id = m.canonical_ci_id;
      restored_ci_id = restored.id;
      restored_source = m.merged_source;
      restored_external_id = m.merged_external_id;
      unmerged_at = now;
    })

  unfoldable pub split_off : ℕ → CiMerge W → Option (Ci W J) → Tx (Tables W J) UnmergeOutcome
  unfolding split_ci move_to
  split_off merge_id m none = raise merge_not_found
  split_off merge_id m (some canonical) = do
    id ← draw_id draw
    restored ← write_ci same_json tenant now (split_ci id canonical m.merged_external_id)
    (if restored.id == m.canonical_ci_id then raise unmerge_error else move_to merge_id m restored)

  unfoldable pub unmerge_row : ℕ → Option (CiMerge W) → Tx (Tables W J) UnmergeOutcome
  unfolding split_off
  unmerge_row merge_id none = raise merge_not_found
  unmerge_row merge_id (some m) = do
    already ← gets (is_reversed tenant merge_id)
    (if already
        then raise merge_already_reversed
        else gets (λ s. get_current_by_id tenant m.canonical_ci_id s.cis) >>= split_off merge_id m)

  unfoldable pub unmerge : ℕ → Tx (Tables W J) UnmergeOutcome
  unfolding unmerge_row
  unmerge merge_id = gets (find_merge tenant merge_id) >>= unmerge_row merge_id
