-- ===== src/Helpers/QueueKeys.antt =====
-- pkg/helpers/queuekey.go: which item of the work queue an event concerns. A lister that fails is
-- `none`; the key "" is an event that concerns nobody.
pub mod Laws
use registration_operator.Common.{
  String, Bool, true, false, ◌&&◌, ◌||◌, Option, none, some, List, [], ◌∷◌, ◌==◌, string_eq,
  if◌then◌else◌,
}
use registration_operator.Helpers.Klusterlets.{
  Klusterlet, ClusterManager, InstallMode, default_mode, hosted_mode, other_install_mode,
  agent_namespace, cluster_manager_default_namespace,
}

abbrev pub hub_kube_config : String
hub_kube_config = "hub-kubeconfig-secret"

abbrev pub bootstrap_hub_kube_config : String
bootstrap_hub_kube_config = "bootstrap-hub-kubeconfig"

abbrev pub external_managed_kube_config : String
external_managed_kube_config = "external-managed-kubeconfig"

unfoldable pub find_klusterlet_by_namespace : List Klusterlet → String → Option Klusterlet
find_klusterlet_by_namespace [] ns = none
find_klusterlet_by_namespace (k ∷ ks) ns =
    if ns == agent_namespace k then some k else find_klusterlet_by_namespace ks ns

abbrev is_default : InstallMode → Bool
is_default default_mode = true
is_default hosted_mode = false
is_default (other_install_mode _) = false

unfoldable pub find_cluster_manager_by_namespace :
    String → List ClusterManager → Option ClusterManager
find_cluster_manager_by_namespace ns [] = none
find_cluster_manager_by_namespace ns (m ∷ ms) =
    if m.name == ns || (is_default m.mode && ns == cluster_manager_default_namespace)
    then some m
    else find_cluster_manager_by_namespace ns ms

abbrev klusterlet_key : Option Klusterlet → String
klusterlet_key none = ""
klusterlet_key (some k) = k.name

abbrev cluster_manager_key : Option ClusterManager → String
cluster_manager_key none = ""
cluster_manager_key (some m) = m.name

klusterlet_key_in : String → Option (List Klusterlet) → String
klusterlet_key_in ns none = ""
klusterlet_key_in ns (some ks) = klusterlet_key (find_klusterlet_by_namespace ks ns)

cluster_manager_key_in : String → Option (List ClusterManager) → String
cluster_manager_key_in ns none = ""
cluster_manager_key_in ns (some ms) = cluster_manager_key (find_cluster_manager_by_namespace ns ms)

unfoldable pub interesting_secret : String → Bool
interesting_secret name =
    name == hub_kube_config
    || (name == bootstrap_hub_kube_config || name == external_managed_kube_config)

unfoldable pub klusterlet_secret_queue_key : Option (List Klusterlet) → String → String → String
unfolding interesting_secret klusterlet_key_in find_klusterlet_by_namespace
klusterlet_secret_queue_key lister ns name =
    if interesting_secret name then klusterlet_key_in ns lister else ""

-- `strings.HasSuffix`
unfoldable pub has_suffix : String → String → Bool
has_suffix String.[] suffix = "" == suffix
has_suffix (String.◌∷◌ c s) suffix = (String.◌∷◌ c s) == suffix || has_suffix s suffix

unfoldable pub interesting_agent : String → Bool
interesting_agent name = has_suffix name "registration-agent" || has_suffix name "work-agent"

unfoldable pub klusterlet_deployment_queue_key : Option (List Klusterlet) → String → String → String
unfolding interesting_agent has_suffix klusterlet_key_in find_klusterlet_by_namespace
klusterlet_deployment_queue_key lister ns name =
    if interesting_agent name then klusterlet_key_in ns lister else ""

unfoldable pub interesting_hub_deployment : String → Bool
interesting_hub_deployment name =
    has_suffix name "registration-controller"
    || (has_suffix name "registration-webhook"
        || (has_suffix name "work-webhook" || has_suffix name "placement-controller"))

unfoldable pub cluster_manager_deployment_queue_key :
    Option (List ClusterManager) → String → String → String
unfolding interesting_hub_deployment has_suffix cluster_manager_key_in
    find_cluster_manager_by_namespace
cluster_manager_deployment_queue_key lister ns name =
    if interesting_hub_deployment name then cluster_manager_key_in ns lister else ""

-- `ClusterManagerQueueKeyFunc` and `ClusterManagerConfigmapQueueKeyFunc`.
unfoldable pub cluster_manager_by_namespace_queue_key :
    Option (List ClusterManager) → String → String
unfolding cluster_manager_key_in find_cluster_manager_by_namespace
cluster_manager_by_namespace_queue_key lister ns = cluster_manager_key_in ns lister
