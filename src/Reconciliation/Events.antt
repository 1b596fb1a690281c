-- ===== src/Reconciliation/Events.antt =====
-- packages/connector-sdk events.py: what a connector emits. The attributes are a JSON value of the
-- type `J`; a connector's own code is an argument where it is run.
use infra_twin.Prelude.{Option, none, some, String, List}
use infra_twin.Model.{CiType, EdgeType, EdgeSource, Evidence}

pub record DiscoveredCi (J : Type 0) : Type 0 where
  pub type : CiType
  pub external_id : String
  pub name : Option String
  pub attributes : J
  pub alias_keys : List String

pub record CiRef : Type 0 where
  pub type : CiType
  pub external_id : String

pub record DiscoveredEdge (W : Type 0) : Type 0 where
  pub type : EdgeType
  pub from_ref : CiRef
  pub to_ref : CiRef
  pub source : EdgeSource
  pub confidence : W
  pub evidence : List Evidence
  pub edge_key : String

pub data DiscoveryEvent (W J : Type 0) : Type 0 where
  discovered_ci : DiscoveredCi J → DiscoveryEvent W J
  discovered_edge : DiscoveredEdge W → DiscoveryEvent W J

pub record EdgeEndpointRef : Type 0 where
  pub type : EdgeType
  pub from_ref : CiRef
  pub to_ref : CiRef

pub record ConnectorDelta (W J : Type 0) : Type 0 where
  pub upserts : List (DiscoveryEvent W J)
  pub removed_cis : List CiRef
  pub removed_edges : List EdgeEndpointRef

-- The payload of a raw fact: its kind and the event that is dumped.
pub data Payload (W J : Type 0) : Type 0 where
  ci_fact : DiscoveredCi J → Payload W J
  edge_fact : DiscoveredEdge W → Payload W J
  removed_ci_fact : CiRef → Payload W J
  removed_edge_fact : EdgeEndpointRef → Payload W J

module _ {W J : Type 0} where
  -- `isinstance(e, DiscoveredCI)`
  abbrev pub as_ci : DiscoveryEvent W J → Option (DiscoveredCi J)
  as_ci (discovered_ci dci) = some dci
  as_ci (discovered_edge _) = none

  abbrev pub as_edge : DiscoveryEvent W J → Option (DiscoveredEdge W)
  as_edge (discovered_ci _) = none
  as_edge (discovered_edge de) = some de

  abbrev pub event_fact : DiscoveryEvent W J → Payload W J
  event_fact (discovered_ci dci) = ci_fact dci
  event_fact (discovered_edge de) = edge_fact de
