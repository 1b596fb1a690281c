-- ===== src/Db/Policies.antt =====
-- packages/db retention.py: the retention policy of a tenant and the rollups of collapsed versions.
-- The identifier that the database draws for a new policy and the transaction's `now()` are
-- arguments. A rollup's own identifier and its `created_at`, both defaults of the database, are left
-- out, and with them the order in which `list_aggregates` prints the rollups.
use infra_twin.Prelude.{
  ℕ, Bool, Option, none, some, String, List, [], ◌∷◌, select, ◌==◌, if◌then◌else◌,
}

pub record RetentionPolicy : Type 0 where
  pub id : ℕ
  pub tenant_id : ℕ
  pub retain_closed_days : ℕ
  pub enabled : Bool
  pub created_at : ℕ
  pub updated_at : ℕ

-- `rollup` is the JSON object: the types, the sources of an edge, and the number of versions.
pub record HistoryAggregate : Type 0 where
  pub tenant_id : ℕ
  pub entity_kind : String
  pub entity_id : ℕ
  pub version_count : ℕ
  pub earliest_valid_from : ℕ
  pub latest_valid_to : ℕ
  pub types : List String
  pub sources : Option (List String)

-- the first row of a result
abbrev pub first_row {ℓ} : {A : Type ℓ} → List A → Option A
first_row [] = none
first_row (x ∷ _) = some x

module _ (tenant : ℕ) where
  unfoldable pub get_policy : List RetentionPolicy → Option RetentionPolicy
  get_policy policies = first_row (select (λ p. p.tenant_id == tenant) policies)

  -- INSERT … ON CONFLICT (tenant_id) DO UPDATE
  unfoldable pub upsert_policy : ℕ → ℕ → ℕ → Bool → List RetentionPolicy → List RetentionPolicy
  upsert_policy now fresh retain_closed_days enabled [] =
      record {
        id = fresh;
        tenant_id = tenant;
        retain_closed_days = retain_closed_days;
        enabled = enabled;
        created_at = now;
        updated_at = now;
      }
      ∷ []
  upsert_policy now fresh retain_closed_days enabled (p ∷ policies) =
      let rest = upsert_policy now fresh retain_closed_days enabled policies in
      if p.tenant_id == tenant
      then (record p {
        retain_closed_days = retain_closed_days;
        enabled = enabled;
        updated_at = now;
      }
          ∷ policies)
      else (p ∷ rest)
