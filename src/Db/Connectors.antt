-- ===== src/Db/Connectors.antt =====
-- packages/db connectors.py: the registry of a tenant's connectors. The identifier that the database
-- draws for a new connector and the transaction's `now()` are arguments; the configuration is a JSON
-- value.
use infra_twin.Prelude.{
  ℕ, Bool, true, Option, none, some, String, List, [], ◌∷◌, ◌++◌, map, select, ◌==◌, ◌&&◌, text_eq,
  text_order, and_then, not_after, if◌then◌else◌,
}
use infra_twin.Prelude.Sort.{sort}
use infra_twin.Db.Policies.{first_row}

pub record Connector (J : Type 0) : Type 0 where
  pub connector_id : ℕ
  pub tenant_id : ℕ
  pub type : String
  pub display_name : String
  pub config : J
  pub enabled : Bool
  pub created_at : ℕ

module _ {J : Type 0} (tenant : ℕ) where
  unfoldable pub get_connector : ℕ → List (Connector J) → Option (Connector J)
  get_connector connector_id connectors =
      first_row (select (λ c. c.tenant_id == tenant && c.connector_id == connector_id) connectors)

  unfoldable pub list_connectors : List (Connector J) → List (Connector J)
  list_connectors connectors =
      sort
        (λ c d.
          not_after
            (and_then (text_order c.type d.type) (text_order c.display_name d.display_name)))
        (select (λ c. c.tenant_id == tenant) connectors)

  unfoldable pub named_connector : String → String → List (Connector J) → Option (Connector J)
  named_connector type display_name connectors = first_row (
      select
        (λ c. c.tenant_id == tenant && text_eq c.type type && text_eq c.display_name display_name)
        connectors)

  -- the connector and the table
  unfoldable pub register :
      ℕ → ℕ → String → String → J → Bool → List (Connector J) → Connector J × List (Connector J)
  unfolding named_connector
  register now fresh type display_name config enabled connectors =
      elim (named_connector type display_name connectors) [
        | some existing ↦ (existing, connectors)
        | none ↦
            let row : Connector J = record {
              connector_id = fresh;
              tenant_id = tenant;
              type = type;
              display_name = display_name;
              config = config;
              enabled = enabled;
              created_at = now;
            } in
            (row, connectors ++ row ∷ [])
      ]

  -- with the empty configuration, enabled
  unfoldable pub resolve_or_register :
      ℕ → ℕ → J → String → String → List (Connector J) → Connector J × List (Connector J)
  unfolding register
  resolve_or_register now fresh empty type display_name connectors =
      register now fresh type display_name empty true connectors

  unfoldable pub set_enabled :
      ℕ → Bool → List (Connector J) → Option (Connector J) × List (Connector J)
  unfolding get_connector
  set_enabled connector_id enabled connectors =
      let after =
        map
          (λ c.
            if c.tenant_id == tenant && c.connector_id == connector_id
            then record c { enabled = enabled }
            else c)
          connectors in
      (get_connector connector_id after, after)
