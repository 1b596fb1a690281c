-- ===== src/Reconciliation/Tables.antt =====
-- The tables that a reconciliation reads and writes, and its statements on them. `now` is the
-- transaction's timestamp. A `uuid4()` and a `gen_random_uuid()` is the next of the numbers that the
-- argument `draw` lists; `drawn` counts those that were taken.
use infra_twin.Prelude.{
  map, ℕ, suc, Bool, String, List, [], ◌∷◌, ◌++◌, ◌==◌, ◌&&◌, text_eq, if◌then◌else◌, Option,
}
use infra_twin.Float.{Float}
use infra_twin.Model.{Ci, CiType, Edge, EdgeType}
use infra_twin.Db.Runs.{ConnectorRun, RawFact}
use infra_twin.Db.Connectors.{Connector}
use infra_twin.Db.CiRepository.{upsert_ci, close_ci}
use infra_twin.Db.EdgeRepository.{close_edge}
use infra_twin.Db.EdgeRepository.Upsert.{upsert_edge}
use infra_twin.Db.Tx.{done, Tx, lift_written}
use infra_twin.Reconciliation.Events.{Payload}
use infra_twin.Reconciliation.Projection.{Graph, project}

pub record SourceKey : Type 0 where
  pub tenant_id : ℕ
  pub source : String
  pub native_id : String
  pub ci_id : ℕ
  pub observed_at : ℕ

pub record AliasKey : Type 0 where
  pub tenant_id : ℕ
  pub alias_key : String
  pub ci_id : ℕ
  pub ci_type : String
  pub source : String
  pub observed_at : ℕ

-- The sentence of a merge, by what it is made of.
pub data MergeEvidence (W : Type 0) : Type 0 where
  -- the source, the external identifier, the canonical CI and the alias key
  merged_via : String → String → ℕ → String → MergeEvidence W
  -- the candidate, its confidence and its evidence
  accepted_with : ℕ → W → String → MergeEvidence W

pub record CiMerge (W : Type 0) : Type 0 where
  pub merge_id : ℕ
  pub tenant_id : ℕ
  pub canonical_ci_id : ℕ
  pub merged_source : String
  pub merged_external_id : String
  pub matched_alias_key : String
  pub evidence : MergeEvidence W
  pub merged_at : ℕ

-- The sentence of a reversal is left out: it is made of the other columns.
pub record CiUnmerge : Type 0 where
  pub unmerge_id : ℕ
  pub tenant_id : ℕ
  pub original_merge_id : ℕ
  pub canonical_ci_id : ℕ
  pub restored_ci_id : ℕ
  pub restored_source : String
  pub restored_external_id : String
  pub unmerged_at : ℕ

pub data CandidateStatus : Type 0 where
  pending accepted dismissed : CandidateStatus

pub record MergeCandidate (W : Type 0) : Type 0 where
  pub candidate_id : ℕ
  pub tenant_id : ℕ
  pub ci_id_a : ℕ
  pub ci_id_b : ℕ
  pub ci_type : String
  pub confidence : W
  pub evidence : String
  pub status : CandidateStatus
  pub resolved_merge_id : Option ℕ
  pub generated_at : ℕ
  pub resolved_at : Option ℕ

pub record Tables (W J : Type 0) : Type 0 where
  pub cis : List (Ci W J)
  pub edges : List (Edge W)
  pub source_keys : List SourceKey
  pub alias_keys : List AliasKey
  pub merges : List (CiMerge W)
  pub unmerges : List CiUnmerge
  pub candidates : List (MergeCandidate W)
  pub graph : Graph W
  pub connectors : List (Connector J)
  pub runs : List ConnectorRun
  pub facts : List (RawFact (Payload W J))
  pub drawn : ℕ

-- `INSERT … ON CONFLICT DO UPDATE`: the row of the key is replaced, or one is appended.
unfoldable pub insert_or_update : {A : Type 0} → (A → Bool) → A → List A → List A
insert_or_update same_key row [] = row ∷ []
insert_or_update same_key row (r ∷ rows) =
    let rest = insert_or_update same_key row rows in if same_key r then row ∷ rows else r ∷ rest

unfoldable pub register_rows :
    ℕ → ℕ → List String → ℕ → String → String → List AliasKey → List AliasKey
unfolding insert_or_update
register_rows tenant now [] ci_id ci_type source rows = rows
register_rows tenant now (k ∷ alias_keys) ci_id ci_type source rows =
    register_rows tenant now alias_keys ci_id ci_type source (
      insert_or_update (λ a. a.tenant_id == tenant && text_eq a.alias_key k)
        (record {
          tenant_id = tenant;
          alias_key = k;
          ci_id = ci_id;
          ci_type = ci_type;
          source = source;
          observed_at = now;
        })
        rows)

module _ {W J : Type 0} (draw : ℕ → ℕ) where
  -- `uuid4()`
  unfoldable pub draw_id : Tx (Tables W J) ℕ
  draw_id s = done (draw s.drawn) (record s { drawn = suc s.drawn })

module _ {W J : Type 0} ⦃f : Float W⦄ (same_json : J → J → Bool) (tenant now : ℕ) where
  -- `CIRepository.upsert`
  unfoldable pub write_ci : Ci W J → Tx (Tables W J) (Ci W J)
  write_ci ci s =
      lift_written (λ cis. record s { cis = cis }) (upsert_ci same_json tenant now ci s.cis)

module _ {W J : Type 0} ⦃f : Float W⦄ (tenant now : ℕ) where
  -- `EdgeRepository.upsert`
  unfoldable pub write_edge : Edge W → Tx (Tables W J) (Edge W)
  write_edge edge s =
      lift_written (λ edges. record s { edges = edges }) (upsert_edge tenant now edge s.edges)

module _ {W J : Type 0} (tenant now : ℕ) where
  -- `CIRepository.close`: whether a row was open
  unfoldable pub end_ci : CiType → String → Tx (Tables W J) Bool
  end_ci type external_id s =
      let (was_open, cis) = close_ci tenant now type external_id s.cis in
      done was_open (record s { cis = cis })

  -- `EdgeRepository.close`
  unfoldable pub end_edge : EdgeType → ℕ → ℕ → String → Tx (Tables W J) Bool
  end_edge type from_id to_id edge_key s =
      let (was_open, edges) = close_edge tenant now type from_id to_id edge_key s.edges in
      done was_open (record s { edges = edges })

  -- `_bind_source_key`
  unfoldable pub bind_source_key : String → String → ℕ → Tx (Tables W J) Unit
  unfolding insert_or_update
  bind_source_key source native_id ci_id s = done tt (record s {
    source_keys =
        insert_or_update
          (λ k. k.tenant_id == tenant && text_eq k.source source && text_eq k.native_id native_id)
          (record {
            tenant_id = tenant;
            source = source;
            native_id = native_id;
            ci_id = ci_id;
            observed_at = now;
          })
          s.source_keys;
  })

  -- `_register_alias_keys`
  unfoldable pub register_alias_keys : List String → ℕ → String → String → Tx (Tables W J) Unit
  register_alias_keys alias_keys ci_id ci_type source s = done tt (record s {
    alias_keys = register_rows tenant now alias_keys ci_id ci_type source s.alias_keys;
  })

  -- `_record_merge`, with the `merge_id` that the database draws
  unfoldable pub record_merge :
      (ℕ → ℕ) → ℕ → String → String → String → MergeEvidence W → Tx (Tables W J) Unit
  record_merge draw canonical_ci_id merged_source merged_external_id matched_alias_key evidence s =
      done tt (record s {
        merges =
            s.merges
            ++ record {
              merge_id = draw s.drawn;
              tenant_id = tenant;
              canonical_ci_id = canonical_ci_id;
              merged_source = merged_source;
              merged_external_id = merged_external_id;
              matched_alias_key = matched_alias_key;
              evidence = evidence;
              merged_at = now;
            }
              ∷ [];
        drawn = suc s.drawn;
      })

module _ {W J : Type 0} where
  -- `project`
  unfoldable pub write_graph :
      List (Ci W J) → List (Edge W) → List (Ci W J) → List (Edge W) → Tx (Tables W J) Unit
  write_graph current_cis current_edges closed_cis closed_edges s =
      done tt
        (record s { graph = project current_cis current_edges closed_cis closed_edges s.graph })

  -- a statement on the runs, and one on the raw facts
  unfoldable pub write_runs : (List ConnectorRun → List ConnectorRun) → Tx (Tables W J) Unit
  write_runs change s = done tt (record s { runs = change s.runs })

  unfoldable pub write_facts :
      (List (RawFact (Payload W J)) → List (RawFact (Payload W J))) → Tx (Tables W J) Unit
  write_facts change s = done tt (record s { facts = change s.facts })

module _ {W J : Type 0} (tenant now : ℕ) where
  -- `UPDATE source_keys SET ci_id = …, observed_at = now()` of the rows that a test selects
  unfoldable pub move_source_keys : (SourceKey → Bool) → ℕ → Tx (Tables W J) Unit
  move_source_keys test ci_id s = done tt (record s {
    source_keys =
        map
          (λ k.
            if k.tenant_id == tenant && test k
            then record k { ci_id = ci_id; observed_at = now }
            else k)
          s.source_keys;
  })

  -- the same of `ci_alias_keys`
  unfoldable pub move_alias_keys : (AliasKey → Bool) → ℕ → Tx (Tables W J) Unit
  move_alias_keys test ci_id s = done tt (record s {
    alias_keys =
        map
          (λ a.
            if a.tenant_id == tenant && test a
            then record a { ci_id = ci_id; observed_at = now }
            else a)
          s.alias_keys;
  })

module _ {W J : Type 0} where
  unfoldable pub write_unmerge : CiUnmerge → Tx (Tables W J) Unit
  write_unmerge row s = done tt (record s { unmerges = s.unmerges ++ row ∷ [] })

  unfoldable pub write_candidates :
      (List (MergeCandidate W) → List (MergeCandidate W)) → Tx (Tables W J) Unit
  write_candidates change s = done tt (record s { candidates = change s.candidates })
