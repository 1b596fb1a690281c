-- ===== src/Model.antt =====
-- packages/core-model: models.py, the enumerations and the records that every other part shares.
-- A `UUID` is the number that its 128 bits write, so that its order is that of `str(id)`; a
-- `datetime` is a number of microseconds in UTC; floats and JSON values are the type parameters `W`
-- and `J`.
pub mod Equality
use infra_twin.Prelude.{ℕ, Bool, String, Option, List, ◌==◌, true, false}

pub data CiType : Type 0 where
  cloud_account region vpc subnet security_group ec2_instance elb rds s3_bucket iam_role : CiType
  iam_user eks_cluster internet dns_name k8s_cluster k8s_namespace k8s_node k8s_workload : CiType
  k8s_pod k8s_service azure_subscription azure_resource_group azure_vnet azure_subnet : CiType
  azure_nsg azure_vm gcp_project gcp_network gcp_subnetwork gcp_firewall gcp_instance : CiType
  db_instance db_database db_schema db_table saas_app saas_account saas_resource : CiType

-- `.value`
unfoldable pub ci_type_value : CiType → String
ci_type_value cloud_account = "cloud_account"
ci_type_value region = "region"
ci_type_value vpc = "vpc"
ci_type_value subnet = "subnet"
ci_type_value security_group = "security_group"
ci_type_value ec2_instance = "ec2_instance"
ci_type_value elb = "elb"
ci_type_value rds = "rds"
ci_type_value s3_bucket = "s3_bucket"
ci_type_value iam_role = "iam_role"
ci_type_value iam_user = "iam_user"
ci_type_value eks_cluster = "eks_cluster"
ci_type_value internet = "internet"
ci_type_value dns_name = "dns_name"
ci_type_value k8s_cluster = "k8s_cluster"
ci_type_value k8s_namespace = "k8s_namespace"
ci_type_value k8s_node = "k8s_node"
ci_type_value k8s_workload = "k8s_workload"
ci_type_value k8s_pod = "k8s_pod"
ci_type_value k8s_service = "k8s_service"
ci_type_value azure_subscription = "azure_subscription"
ci_type_value azure_resource_group = "azure_resource_group"
ci_type_value azure_vnet = "azure_vnet"
ci_type_value azure_subnet = "azure_subnet"
ci_type_value azure_nsg = "azure_nsg"
ci_type_value azure_vm = "azure_vm"
ci_type_value gcp_project = "gcp_project"
ci_type_value gcp_network = "gcp_network"
ci_type_value gcp_subnetwork = "gcp_subnetwork"
ci_type_value gcp_firewall = "gcp_firewall"
ci_type_value gcp_instance = "gcp_instance"
ci_type_value db_instance = "db_instance"
ci_type_value db_database = "db_database"
ci_type_value db_schema = "db_schema"
ci_type_value db_table = "db_table"
ci_type_value saas_app = "saas_app"
ci_type_value saas_account = "saas_account"
ci_type_value saas_resource = "saas_resource"

pub data EdgeType : Type 0 where
  contains runs_on connects_to depends_on routes_to has_access_to owns exposes member_of
        resolves_to :
      EdgeType

unfoldable pub edge_type_value : EdgeType → String
edge_type_value contains = "CONTAINS"
edge_type_value runs_on = "RUNS_ON"
edge_type_value connects_to = "CONNECTS_TO"
edge_type_value depends_on = "DEPENDS_ON"
edge_type_value routes_to = "ROUTES_TO"
edge_type_value has_access_to = "HAS_ACCESS_TO"
edge_type_value owns = "OWNS"
edge_type_value exposes = "EXPOSES"
edge_type_value member_of = "MEMBER_OF"
edge_type_value resolves_to = "RESOLVES_TO"

-- The place of a type in the enumeration, by which two are compared.
abbrev pub edge_type_index : EdgeType → ℕ
edge_type_index contains = 0
edge_type_index runs_on = 1
edge_type_index connects_to = 2
edge_type_index depends_on = 3
edge_type_index routes_to = 4
edge_type_index has_access_to = 5
edge_type_index owns = 6
edge_type_index exposes = 7
edge_type_index member_of = 8
edge_type_index resolves_to = 9

abbrev pub same_edge_type : EdgeType → EdgeType → Bool
same_edge_type a b = edge_type_index a == edge_type_index b

pub data EdgeSource : Type 0 where
  declared inferred : EdgeSource

abbrev pub is_inferred : EdgeSource → Bool
is_inferred declared = false
is_inferred inferred = true

-- A single piece of provenance backing an edge.
pub record Evidence : Type 0 where
  pub source : String
  pub observed_at : ℕ
  pub detail : Option String

pub record Ci (W J : Type 0) : Type 0 where
  pub id : ℕ
  pub tenant_id : ℕ
  pub type : CiType
  pub external_id : String
  pub name : Option String
  pub attributes : J
  pub confidence : W
  pub first_seen : ℕ
  pub last_seen : ℕ
  pub valid_from : ℕ
  pub valid_to : Option ℕ

pub record Edge (W : Type 0) : Type 0 where
  pub id : ℕ
  pub tenant_id : ℕ
  pub type : EdgeType
  pub from_id : ℕ
  pub to_id : ℕ
  pub edge_key : String
  pub source : EdgeSource
  pub confidence : W
  pub evidence : List Evidence
  pub valid_from : ℕ
  pub valid_to : Option ℕ
