-- ===== src/Manager/Files.antt =====
-- The files that each reconciler applies and removes, of clustermanager_crd_reconcile.go,
-- clustermanager_hub_reconcile.go, clustermanager_runtime_reconcile.go and
-- clustermanager_webhook_reconcile.go.
use registration_operator.Common.{String, Bool, List, [], ◌∷◌, ◌++◌, if◌then◌else◌}
use registration_operator.Helpers.Klusterlets.{
  InstallMode, default_mode, hosted_mode, other_install_mode,
}
use registration_operator.Manager.Config.{HubConfig}

-- The definitions that are removed first, in this order.
abbrev pub crd_names : List String
crd_names =
    "managedclusteraddons.addon.open-cluster-management.io"
    ∷ "manifestworks.work.open-cluster-management.io"
    ∷ "managedclusters.cluster.open-cluster-management.io"
    ∷ "manifestworkreplicasets.work.open-cluster-management.io" ∷ []

abbrev pub hub_crd_resource_files : List String
hub_crd_resource_files =
    "cluster-manager/hub/0000_00_addon.open-cluster-management.io_clustermanagementaddons.crd.yaml"
    ∷ "cluster-manager/hub/0000_00_clusters.open-cluster-management.io_managedclusters.crd.yaml"
    ∷ "cluster-manager/hub/0000_00_clusters.open-cluster-management.io_managedclustersets.crd.yaml"
    ∷ "cluster-manager/hub/0000_00_work.open-cluster-management.io_manifestworks.crd.yaml"
    ∷ "cluster-manager/hub/0000_00_work.open-cluster-management.io_manifestworkreplicasets.crd.yaml"
    ∷ "cluster-manager/hub/0000_01_addon.open-cluster-management.io_managedclusteraddons.crd.yaml"
    ∷ "cluster-manager/hub/0000_01_clusters.open-cluster-management.io_managedclustersetbindings.crd.yaml"
    ∷ "cluster-manager/hub/0000_02_clusters.open-cluster-management.io_placements.crd.yaml"
    ∷ "cluster-manager/hub/0000_02_addon.open-cluster-management.io_addondeploymentconfigs.crd.yaml"
    ∷ "cluster-manager/hub/0000_03_clusters.open-cluster-management.io_placementdecisions.crd.yaml"
    ∷ "cluster-manager/hub/0000_05_clusters.open-cluster-management.io_addonplacementscores.crd.yaml"
    ∷ []

abbrev pub namespace_resource : String
namespace_resource = "cluster-manager/cluster-manager-namespace.yaml"

abbrev pub hub_rbac_resource_files : List String
hub_rbac_resource_files =
    "cluster-manager/hub/cluster-manager-registration-clusterrole.yaml"
    ∷ "cluster-manager/hub/cluster-manager-registration-clusterrolebinding.yaml"
    ∷ "cluster-manager/hub/cluster-manager-registration-serviceaccount.yaml"
    ∷ "cluster-manager/hub/cluster-manager-registration-webhook-clusterrole.yaml"
    ∷ "cluster-manager/hub/cluster-manager-registration-webhook-clusterrolebinding.yaml"
    ∷ "cluster-manager/hub/cluster-manager-registration-webhook-serviceaccount.yaml"
    ∷ "cluster-manager/hub/cluster-manager-work-webhook-clusterrole.yaml"
    ∷ "cluster-manager/hub/cluster-manager-work-webhook-clusterrolebinding.yaml"
    ∷ "cluster-manager/hub/cluster-manager-work-webhook-serviceaccount.yaml"
    ∷ "cluster-manager/hub/cluster-manager-placement-clusterrole.yaml"
    ∷ "cluster-manager/hub/cluster-manager-placement-clusterrolebinding.yaml"
    ∷ "cluster-manager/hub/cluster-manager-placement-serviceaccount.yaml" ∷ []

abbrev pub mw_replica_set_resource_files : List String
mw_replica_set_resource_files =
    "cluster-manager/hub/cluster-manager-manifestworkreplicaset-clusterrole.yaml"
    ∷ "cluster-manager/hub/cluster-manager-manifestworkreplicaset-clusterrolebinding.yaml"
    ∷ "cluster-manager/hub/cluster-manager-manifestworkreplicaset-serviceaccount.yaml" ∷ []

abbrev pub hub_addon_manager_rbac_resource_files : List String
hub_addon_manager_rbac_resource_files =
    "cluster-manager/hub/cluster-manager-addon-manager-clusterrole.yaml"
    ∷ "cluster-manager/hub/cluster-manager-addon-manager-clusterrolebinding.yaml"
    ∷ "cluster-manager/hub/cluster-manager-addon-manager-serviceaccount.yaml" ∷ []

abbrev pub hub_default_webhook_service_files : List String
hub_default_webhook_service_files =
    "cluster-manager/hub/cluster-manager-registration-webhook-service.yaml"
    ∷ "cluster-manager/hub/cluster-manager-work-webhook-service.yaml" ∷ []

abbrev pub hub_hosted_webhook_service_files : List String
hub_hosted_webhook_service_files =
    "cluster-manager/hub/cluster-manager-registration-webhook-service-hosted.yaml"
    ∷ "cluster-manager/hub/cluster-manager-work-webhook-service-hosted.yaml" ∷ []

abbrev pub hub_hosted_webhook_endpoint_registration : String
hub_hosted_webhook_endpoint_registration =
    "cluster-manager/hub/cluster-manager-registration-webhook-endpoint-hosted.yaml"

abbrev pub hub_hosted_webhook_endpoint_work : String
hub_hosted_webhook_endpoint_work =
    "cluster-manager/hub/cluster-manager-work-webhook-endpoint-hosted.yaml"

abbrev pub deployment_files : List String
deployment_files =
    "cluster-manager/management/cluster-manager-registration-deployment.yaml"
    ∷ "cluster-manager/management/cluster-manager-registration-webhook-deployment.yaml"
    ∷ "cluster-manager/management/cluster-manager-work-webhook-deployment.yaml"
    ∷ "cluster-manager/management/cluster-manager-placement-deployment.yaml" ∷ []

abbrev pub addon_manager_deployment_files : List String
addon_manager_deployment_files =
    "cluster-manager/management/cluster-manager-addon-manager-deployment.yaml" ∷ []

abbrev pub mw_replica_set_deployment_files : List String
mw_replica_set_deployment_files =
    "cluster-manager/management/cluster-manager-manifestworkreplicaset-deployment.yaml" ∷ []

abbrev pub hub_registration_webhook_resource_files : List String
hub_registration_webhook_resource_files =
    "cluster-manager/hub/cluster-manager-registration-webhook-validatingconfiguration.yaml"
    ∷ "cluster-manager/hub/cluster-manager-registration-webhook-mutatingconfiguration.yaml"
    ∷ "cluster-manager/hub/cluster-manager-registration-webhook-clustersetbinding-validatingconfiguration.yaml"
    ∷ "cluster-manager/hub/cluster-manager-registration-webhook-clustersetbinding-validatingconfiguration-v1beta1.yaml"
    ∷ []

abbrev pub hub_work_webhook_resource_files : List String
hub_work_webhook_resource_files =
    "cluster-manager/hub/cluster-manager-work-webhook-validatingconfiguration.yaml" ∷ []

abbrev pub webhook_resources : List String
webhook_resources = hub_registration_webhook_resource_files ++ hub_work_webhook_resource_files

-- The service accounts whose tokens are mounted.
abbrev pub get_sas : List String
get_sas =
    "registration-controller-sa" ∷ "registration-webhook-sa" ∷ "work-webhook-sa"
    ∷ "placement-controller-sa" ∷ "work-controller-sa" ∷ []

abbrev pub when : Bool → List String → List String
when b files = if b then files else []

webhook_services : InstallMode → HubConfig → List String
webhook_services hosted_mode config =
    hub_hosted_webhook_service_files
    ++ (when config.registration_webhook.is_ip_format
          (hub_hosted_webhook_endpoint_registration ∷ [])
        ++ when config.work_webhook.is_ip_format (hub_hosted_webhook_endpoint_work ∷ []))
webhook_services default_mode config = hub_default_webhook_service_files
webhook_services (other_install_mode m) config = hub_default_webhook_service_files

unfoldable pub get_hub_resources : InstallMode → HubConfig → List String
unfolding webhook_services
get_hub_resources mode config =
    (namespace_resource ∷ hub_rbac_resource_files)
    ++ (when config.addon_manager_enabled hub_addon_manager_rbac_resource_files
        ++ (when config.mw_replica_set_enabled mw_replica_set_resource_files
            ++ webhook_services mode config))

unfoldable pub deploy_resources : HubConfig → List String
deploy_resources config =
    deployment_files
    ++ (when config.addon_manager_enabled addon_manager_deployment_files
        ++ when config.mw_replica_set_enabled mw_replica_set_deployment_files)
