-- ===== src/Manager/Reconcile/Runtime.antt =====
-- clustermanager_runtime_reconcile.go: the deployments on the management cluster.
use registration_operator.Common.{
  String, ◌<>◌, ℕ, Bool, true, false, ◌||◌, ltb, Option, none, some, List, [], ◌∷◌, ◌++◌, Error,
  Result, ok, err, if◌then◌else◌, string_eq,
}
use registration_operator.Crd.{Manager}
use registration_operator.Helpers.Apply.{Deployment, apply_deployment}
use registration_operator.Helpers.Generations.{GenerationStatus, set_generation_statuses}
use registration_operator.Helpers.Klusterlets.{
  InstallMode, default_mode, hosted_mode, other_install_mode,
}
use registration_operator.Helpers.Objects.{ObjectKey}
use registration_operator.Status.{Condition}
use registration_operator.Manager.Config.{HubConfig, commas}
use registration_operator.Manager.Files.{
  namespace_resource, addon_manager_deployment_files, mw_replica_set_deployment_files,
  deploy_resources,
}
use registration_operator.Manager.Reconcile.{
  ClusterManager, Outcome, Cluster, Codec, Library, Rollout, manifest_set, stopped, continued,
  condition, with_condition, apply_failed, apply_files, remove_disabled, clean_resources,
  progressing_type,
}

module _ {M H E O B Sp N D : Type 0} (m : Manager Sp) (F : Codec M H E O B Sp N D)
    (L : Library M H E B m.client.State N D) where
  -- What the loop over the deployments has gathered.
  pub record Rolled : Type 0 where
    pub errors : List Error
    pub progressing : List String
    pub cm : ClusterManager N
    pub state : m.client.State

  abbrev is_progressing : Deployment N (Rollout D) → Bool
  is_progressing d =
      differ d.generation d.rest.observed_generation || differ d.rest.replicas d.rest.ready_replicas
    where
      differ : ℕ → ℕ → Bool
      differ a b = ltb a b || ltb b a

  -- `Deployments %s is still rolling` or up to date.
  progress_condition : List String → Condition
  progress_condition [] =
      condition m F L progressing_type false "ClusterManagerUpToDate"
        "Components of cluster manager are up to date"
  progress_condition (d ∷ ds) =
      condition m F L progressing_type true "ClusterManagerDeploymentRolling"
        ("Deployments " <> (commas (d ∷ ds) <> " is still rolling"))

  runtime_applied : List Error → ClusterManager N → Outcome N
  unfolding apply_failed
  runtime_applied [] cm = continued m F L cm
  runtime_applied (e ∷ es) cm =
      apply_failed m F L cm "RuntimeResourceApplyFailed"
        ("Failed to apply runtime resources: " <> L.show_errors (e ∷ es))
        (L.aggregate.new_aggregate (e ∷ es))

  module _ (own : Cluster m.client.State M H E B)
      (deploy : m.client.State
        → Deployment N (Rollout D)
        → ℕ
        → Result (Deployment N (Rollout D) × Bool) × m.client.State)
      (ensure_sa_kubeconfigs : m.client.State → Option Error × m.client.State) where
    rolled_one :
        ClusterManager N
        → Result (Deployment N (Rollout D) × GenerationStatus)
        → List Error × (List String × ClusterManager N)
    rolled_one cm (err e) = (e ∷ [], ([], cm))
    rolled_one cm (ok (d, status)) = (
      [],
      (
        if is_progressing d then d.name ∷ [] else [],
        record cm { generations = set_generation_statuses cm.generations status },
      ),
    )

    deploy_each : HubConfig → List String → ClusterManager N → m.client.State → Rolled
    unfolding rolled_one
    deploy_each config [] cm t = record { errors = []; progressing = []; cm = cm; state = t }
    deploy_each config (file ∷ files) cm t =
        let (r, (t', related)) =
          apply_deployment F.deployment L.new_generation_status deploy L.error_text
            (manifest_set m F L config) cm.generations cm.node_placement file t
            cm.related_resources in
        let (es, (names, cm')) = rolled_one (record cm { related_resources = related }) r in
        let rest = deploy_each config files cm' t' in
        record rest { errors = es ++ rest.errors; progressing = names ++ rest.progressing }

    deployed_all :
        HubConfig
        → ClusterManager N
        → List Error × (m.client.State × List ObjectKey)
        → Outcome N × m.client.State
    unfolding deploy_each progress_condition runtime_applied
    deployed_all config cm (errors, (t, related)) =
        let r =
          deploy_each config (deploy_resources config) (record cm { related_resources = related })
            t in
        (
          runtime_applied (errors ++ r.errors)
              (with_condition m F L r.cm (progress_condition r.progressing)),
          r.state,
        )

    runtime_ensured :
        ClusterManager N → HubConfig → Option Error × m.client.State → Outcome N × m.client.State
    unfolding apply_failed deployed_all
    runtime_ensured cm config (some e, t) = (
      apply_failed m F L cm "ServiceAccountSyncFailed"
          ("Failed to sync service account: " <> L.error_text e) (some e),
      t,
    )
    runtime_ensured cm config (none, t) =
        deployed_all config cm
          (apply_files m F L own config (namespace_resource ∷ []) t cm.related_resources)

    ensured : InstallMode → m.client.State → Option Error × m.client.State
    ensured hosted_mode t = ensure_sa_kubeconfigs t
    ensured default_mode t = (none, t)
    ensured (other_install_mode n) t = (none, t)

    runtime_removed :
        ClusterManager N
        → HubConfig
        → Option Error × (m.client.State × List ObjectKey)
        → Outcome N × m.client.State
    unfolding runtime_ensured ensured
    runtime_removed cm config (some e, (t, related)) =
        (stopped m F L (record cm { related_resources = related }) e, t)
    runtime_removed cm config (none, (t, related)) =
        runtime_ensured (record cm { related_resources = related }) config (ensured cm.spec.mode t)

    unfoldable pub runtime_reconcile :
        ClusterManager N → HubConfig → m.client.State → Outcome N × m.client.State
    unfolding runtime_removed
    runtime_reconcile cm config t = runtime_removed cm config (
        remove_disabled m F L own.eraser config addon_manager_deployment_files
          mw_replica_set_deployment_files t cm.related_resources)

    -- The deployments go with the namespace.
    unfoldable pub runtime_clean :
        ClusterManager N → HubConfig → m.client.State → Outcome N × m.client.State
    runtime_clean cm config t =
        clean_resources m F L own.eraser config (namespace_resource ∷ []) cm t
