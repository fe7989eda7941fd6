-- ===== src/Manager/Reconcile/Webhooks.antt =====
-- clustermanager_webhook_reconcile.go: the webhook configurations on the hub.
use registration_operator.Common.{◌<>◌, ℕ, List, [], ◌∷◌, Error, requeue, if◌then◌else◌, string_eq}
use registration_operator.Crd.{Manager}
use registration_operator.Helpers.Objects.{ObjectKey}
use registration_operator.Manager.Config.{HubConfig}
use registration_operator.Manager.Files.{webhook_resources}
use registration_operator.Manager.Reconcile.{
  ClusterManager, Outcome, Cluster, Codec, Library, stopped, continued, apply_failed, apply_files,
  clean_resources, progressing_type,
}

module _ {M H E O B Sp N D : Type 0} (m : Manager Sp) (F : Codec M H E O B Sp N D)
    (L : Library M H E B m.client.State N D) where
  webhooks_applied :
      ClusterManager N → List Error × (m.client.State × List ObjectKey) → Outcome N × m.client.State
  unfolding apply_failed
  webhooks_applied cm ([], (t, related)) =
      (continued m F L (record cm { related_resources = related }), t)
  webhooks_applied cm (e ∷ es, (t, related)) = (
    apply_failed m F L (record cm { related_resources = related }) "WebhookApplyFailed"
        ("Failed to apply webhook resources: " <> L.show_errors (e ∷ es))
        (L.aggregate.new_aggregate (e ∷ es)),
    t,
  )

  abbrev re_sync_time : ℕ
  re_sync_time = 5

  unfoldable pub webhook_reconcile :
      Cluster m.client.State M H E B
      → ClusterManager N
      → HubConfig
      → m.client.State
      → Outcome N × m.client.State
  unfolding webhooks_applied
  webhook_reconcile hub cm config t =
      if L.is_status_condition_false cm.conditions progressing_type
      then webhooks_applied cm
          (apply_files m F L hub config webhook_resources t cm.related_resources)
      else (stopped m F L cm (requeue "Deployment is not ready" re_sync_time), t)

  -- `own` is the management cluster, of which the code takes the client here.
  unfoldable pub webhook_clean :
      Cluster m.client.State M H E B
      → ClusterManager N
      → HubConfig
      → m.client.State
      → Outcome N × m.client.State
  webhook_clean own cm config t = clean_resources m F L own.eraser config webhook_resources cm t
