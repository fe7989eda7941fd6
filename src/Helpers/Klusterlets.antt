-- ===== src/Helpers/Klusterlets.antt =====
-- Where the agents and managers live, of pkg/helpers/helpers.go and pkg/helpers/queuekey.go, and
-- how many replicas they have.
use registration_operator.Common.{
  String, ℕ, Bool, true, false, Option, none, some, ◌==◌, string_eq, if◌then◌else◌, leb, Result, ok,
  err,
}

pub data InstallMode : Type 0 where
  default_mode hosted_mode : InstallMode
  other_install_mode : String → InstallMode

-- The fields of a Klusterlet that pkg/helpers reads.
pub record Klusterlet : Type 0 where
  pub name : String
  pub namespace : String
  pub mode : InstallMode

pub record ClusterManager : Type 0 where
  pub name : String
  pub mode : InstallMode

abbrev pub klusterlet_default_namespace : String
klusterlet_default_namespace = "open-cluster-management-agent"

abbrev pub cluster_manager_default_namespace : String
cluster_manager_default_namespace = "open-cluster-management-hub"

unfoldable pub klusterlet_namespace : Klusterlet → String
klusterlet_namespace k = if k.namespace == "" then klusterlet_default_namespace else k.namespace

agent_namespace_in : InstallMode → Klusterlet → String
unfolding klusterlet_namespace
agent_namespace_in hosted_mode k = k.name
agent_namespace_in default_mode k = klusterlet_namespace k
agent_namespace_in (other_install_mode m) k = klusterlet_namespace k

unfoldable pub agent_namespace : Klusterlet → String
unfolding agent_namespace_in
agent_namespace k = agent_namespace_in k.mode k

unfoldable pub cluster_manager_namespace : String → InstallMode → String
cluster_manager_namespace name hosted_mode = name
cluster_manager_namespace name default_mode = cluster_manager_default_namespace
cluster_manager_namespace name (other_install_mode m) = cluster_manager_default_namespace

-- `DetermineReplicaByNodes`: the number of master nodes, if they can be listed.
unfoldable pub determine_replica_by_nodes : Result ℕ → ℕ
determine_replica_by_nodes (err e) = 3
determine_replica_by_nodes (ok n) = if leb n 1 then 1 else 3

-- `kubeVersion.Compare("v1.14.0")`, a library call: whether the version is older.
replica_of_version : Option (Result Bool) → Result ℕ → ℕ
unfolding determine_replica_by_nodes
replica_of_version none nodes = determine_replica_by_nodes nodes
replica_of_version (some (err e)) nodes = 1
replica_of_version (some (ok true)) nodes = 1
replica_of_version (some (ok false)) nodes = determine_replica_by_nodes nodes

unfoldable pub determine_replica : InstallMode → Option (Result Bool) → Result ℕ → ℕ
unfolding replica_of_version
determine_replica hosted_mode older nodes = 1
determine_replica default_mode older nodes = replica_of_version older nodes
determine_replica (other_install_mode m) older nodes = replica_of_version older nodes
