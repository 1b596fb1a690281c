-- ===== src/Reconciliation/Observe.antt =====
-- reconciliation/reconcile.py: the loop over the observed CIs, which `reconcile` and `apply_delta` both
-- have; `apply_delta` keeps no `seen_ci_keys`. The times that a model fills in are not read by an
-- upsert.
use infra_twin.Prelude.{
  ℕ, suc, Bool, Option, none, some, String, List, [], ◌∷◌, ◌++◌, ◌==◌, if◌then◌else◌,
}
use infra_twin.Float.{Float, of_int}
use infra_twin.Model.{Ci, CiType, ci_type_value}
use infra_twin.Db.Policies.{first_row}
use infra_twin.Db.CiRepository.{get_current}
use infra_twin.Db.Tx.{Tx, pure, gets, ◌>>=◌, ◌>>◌, fold_tx}
use infra_twin.Reconciliation.Events.{DiscoveredCi}
use infra_twin.Reconciliation.Tables.{
  Tables, merged_via, draw_id, write_ci, bind_source_key, register_alias_keys, record_merge,
}
use infra_twin.Reconciliation.Resolve.{resolve_canonical_ci, Keyed}

-- What the loop over the CIs keeps, with its part of `ReconcileResult`.
pub record CiBatch (W J : Type 0) : Type 0 where
  pub id_by_key : Keyed
  pub seen_ci_keys : List (CiType × String)
  pub current_cis : List (Ci W J)
  pub cis_created : ℕ
  pub cis_updated : ℕ
  pub cis_unchanged : ℕ

abbrev pub no_cis : {W J : Type 0} → CiBatch W J
no_cis = record {
  id_by_key = [];
  seen_ci_keys = [];
  current_cis = [];
  cis_created = 0;
  cis_updated = 0;
  cis_unchanged = 0;
}

-- A CI that the code builds from a discovered one. Its confidence is the model's default.
unfoldable pub ci_of : {W J : Type 0} ⦃f : Float W⦄ → ℕ → ℕ → String → DiscoveredCi J → Ci W J
ci_of tenant id external_id dci = record {
  id = id;
  tenant_id = tenant;
  type = dci.type;
  external_id = external_id;
  name = dci.name;
  attributes = dci.attributes;
  confidence = of_int 1;
  first_seen = 0;
  last_seen = 0;
  valid_from = 0;
  valid_to = none;
}

-- `cis_updated` or `cis_unchanged`, by the start of the row before and of the row after
abbrev pub count_stored : {W J : Type 0} → ℕ → Ci W J → CiBatch W J → CiBatch W J
count_stored before stored b =
    if before == stored.valid_from
    then record b { cis_unchanged = suc b.cis_unchanged }
    else record b { cis_updated = suc b.cis_updated }

module _ {W J : Type 0} ⦃f : Float W⦄ (same_json : J → J → Bool) (draw : ℕ → ℕ) (tenant now : ℕ)
    (source : String) where
  -- an upsert with the bindings that follow it, which name the CI `ci_id`
  unfoldable pub store_ci : Ci W J → DiscoveredCi J → Tx (Tables W J) (Ci W J)
  store_ci ci dci = do
    stored ← write_ci same_json tenant now ci
    bind_source_key tenant now source dci.external_id stored.id
    register_alias_keys tenant now dci.alias_keys stored.id (ci_type_value dci.type) source
    pure stored

  -- the branch of a native-id match, with the row that was found
  unfoldable pub observe_known :
      CiBatch W J → DiscoveredCi J → Ci W J → Tx (Tables W J) (CiBatch W J)
  unfolding ci_of
  observe_known b dci existing = do
    id ← draw_id draw
    stored ← store_ci (ci_of tenant id dci.external_id dci) dci
    pure (
        count_stored existing.valid_from stored (record b {
          id_by_key = ((dci.type, dci.external_id), stored.id) ∷ b.id_by_key;
          seen_ci_keys = (dci.type, dci.external_id) ∷ b.seen_ci_keys;
          current_cis = b.current_cis ++ stored ∷ [];
        }))

  -- the branch of a merge into a canonical CI of another source
  unfoldable pub observe_merged :
      CiBatch W J → DiscoveredCi J → Ci W J → String → Tx (Tables W J) (CiBatch W J)
  unfolding ci_of
  observe_merged b dci canonical matched_alias_key = do
    stored ← write_ci same_json tenant now (ci_of tenant canonical.id canonical.external_id dci)
    bind_source_key tenant now source dci.external_id canonical.id
    register_alias_keys tenant now dci.alias_keys canonical.id (ci_type_value dci.type) source
    record_merge tenant now draw canonical.id source dci.external_id matched_alias_key
        (merged_via source dci.external_id canonical.id matched_alias_key)
    pure (
        count_stored canonical.valid_from stored (record b {
          id_by_key =
              ((dci.type, canonical.external_id), canonical.id)
              ∷ ((dci.type, dci.external_id), canonical.id)
              ∷ b.id_by_key;
          seen_ci_keys = (dci.type, canonical.external_id) ∷ b.seen_ci_keys;
          current_cis = b.current_cis ++ stored ∷ [];
        }))

  -- the branch of a new CI
  unfoldable pub observe_new : CiBatch W J → DiscoveredCi J → Tx (Tables W J) (CiBatch W J)
  unfolding ci_of
  observe_new b dci = do
    id ← draw_id draw
    stored ← store_ci (ci_of tenant id dci.external_id dci) dci
    pure (record b {
      id_by_key = ((dci.type, dci.external_id), stored.id) ∷ b.id_by_key;
      seen_ci_keys = (dci.type, dci.external_id) ∷ b.seen_ci_keys;
      current_cis = b.current_cis ++ stored ∷ [];
      cis_created = suc b.cis_created;
    })

  unfoldable pub observe_unknown :
      CiBatch W J → DiscoveredCi J → Option (Ci W J × String) → Tx (Tables W J) (CiBatch W J)
  unfolding observe_new observe_merged
  observe_unknown b dci none = observe_new b dci
  observe_unknown b dci (some (canonical, key)) = observe_merged b dci canonical key

  unfoldable pub observe_found :
      CiBatch W J → DiscoveredCi J → Option (Ci W J) → Tx (Tables W J) (CiBatch W J)
  unfolding observe_known observe_unknown
  observe_found b dci (some existing) = observe_known b dci existing
  observe_found b dci none = gets (resolve_canonical_ci tenant dci source) >>= observe_unknown b dci

  -- the body of the loop over the CIs
  unfoldable pub observe_ci : CiBatch W J → DiscoveredCi J → Tx (Tables W J) (CiBatch W J)
  unfolding observe_found
  observe_ci b dci =
      gets (λ s. first_row (get_current tenant (some dci.type) (some dci.external_id) s.cis))
      >>= observe_found b dci

  unfoldable pub observe_cis : List (DiscoveredCi J) → Tx (Tables W J) (CiBatch W J)
  unfolding observe_ci
  observe_cis cis = fold_tx observe_ci no_cis cis
