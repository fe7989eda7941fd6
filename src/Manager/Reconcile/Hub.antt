-- ===== src/Manager/Reconcile/Hub.antt =====
-- clustermanager_hub_reconcile.go: roles, service accounts and services on the hub.
use registration_operator.Common.{◌<>◌, Option, none, some, List, [], ◌∷◌, Error, string_eq}
use registration_operator.Crd.{Manager}
use registration_operator.Helpers.Objects.{ObjectKey}
use registration_operator.Manager.Config.{HubConfig}
use registration_operator.Manager.Files.{
  hub_addon_manager_rbac_resource_files, mw_replica_set_resource_files, get_hub_resources,
}
use registration_operator.Manager.Reconcile.{
  ClusterManager, Outcome, Cluster, Codec, Library, stopped, continued, apply_failed, apply_files,
  remove_disabled, clean_resources,
}

module _ {M H E O B Sp N D : Type 0} (m : Manager Sp) (F : Codec M H E O B Sp N D)
    (L : Library M H E B m.client.State N D) where
  hub_applied :
      ClusterManager N → List Error × (m.client.State × List ObjectKey) → Outcome N × m.client.State
  unfolding apply_failed
  hub_applied cm ([], (t, related)) =
      (continued m F L (record cm { related_resources = related }), t)
  hub_applied cm (e ∷ es, (t, related)) = (
    apply_failed m F L (record cm { related_resources = related }) "HubResourceApplyFailed"
        ("Failed to apply hub resources: " <> L.show_errors (e ∷ es))
        (L.aggregate.new_aggregate (e ∷ es)),
    t,
  )

  hub_removed :
      Cluster m.client.State M H E B
      → ClusterManager N
      → HubConfig
      → Option Error × (m.client.State × List ObjectKey)
      → Outcome N × m.client.State
  unfolding hub_applied
  hub_removed hub cm config (some e, (t, related)) =
      (stopped m F L (record cm { related_resources = related }) e, t)
  hub_removed hub cm config (none, (t, related)) =
      hub_applied cm
        (apply_files m F L hub config (get_hub_resources cm.spec.mode config) t related)

  unfoldable pub hub_reconcile :
      Cluster m.client.State M H E B
      → ClusterManager N
      → HubConfig
      → m.client.State
      → Outcome N × m.client.State
  unfolding hub_removed
  hub_reconcile hub cm config t = hub_removed hub cm config (
      remove_disabled m F L hub.eraser config hub_addon_manager_rbac_resource_files
        mw_replica_set_resource_files t cm.related_resources)

  unfoldable pub hub_clean :
      Cluster m.client.State M H E B
      → ClusterManager N
      → HubConfig
      → m.client.State
      → Outcome N × m.client.State
  hub_clean hub cm config t =
      clean_resources m F L hub.eraser config (get_hub_resources cm.spec.mode config) cm t
