-- ===== src/Manager/Sync.antt =====
-- The sync of clustermanager_controller.go. It works on two states: that of the clusters, which the
-- reconcilers change, and that of the cluster managers of the API.
pub mod Removal
pub mod Errors
pub mod Untouched
use registration_operator.Common.{
  String, ℕ, Bool, true, false, ◌||◌, Option, none, some, List, [], ◌∷◌, ◌++◌, not_found, failure,
  remaining_crds, requeue, Error, Result, ok, err, cons_error, is_not_found, if◌then◌else◌,
  Aggregate, ◌==◌, string_eq, ◌>>=◌, length, ltb, contains,
}
use registration_operator.Common.Dict
use registration_operator.Common.Dict.{Dict}
use registration_operator.Crd.{Manager}
use registration_operator.Helpers.Features.{FeatureCondition}
use registration_operator.Helpers.Generations.{GenerationStatus, update_generations}
use registration_operator.Helpers.Klusterlets.{InstallMode, determine_replica}
use registration_operator.Helpers.Objects.{ObjectKey}
use registration_operator.Helpers.Related.{update_related_resources}
use registration_operator.Helpers.Apply.{Deployment}
use registration_operator.Helpers.StatusUpdates
use registration_operator.Helpers.StatusUpdates.{
  Status, Conditions, UpdateFunc, update_condition_fn,
}
use registration_operator.Helpers.StatusUpdates.Retry.{Retry, update_cluster_manager_status}
use registration_operator.Secrets.{Secret}
use registration_operator.Secrets.ClientConfig.{Config, get_hub_kubeconfig}
use registration_operator.Secrets.Sync.{value_of}
use registration_operator.Status.{Condition}
use registration_operator.Manager.Config.{HubConfig, Defaults, hub_config}
use registration_operator.Manager.Reconcile.{
  ClusterManager, ReconcileState, stop, continue, Outcome, Reconciler, Cluster, Codec, Library,
  Rollout, applied_type, progressing_type,
}
use registration_operator.Manager.Reconcile.Definitions.{crd_reconcile, crd_clean}
use registration_operator.Manager.Reconcile.Hub.{hub_reconcile, hub_clean}
use registration_operator.Manager.Reconcile.Runtime.{runtime_reconcile, runtime_clean}
use registration_operator.Manager.Reconcile.Webhooks.{webhook_reconcile, webhook_clean}
use registration_operator.Manager.Report.{
  cluster_manager_finalizer, Rest, Api, Tools, Synced, ended, without_finalizer, maybe,
  feature_condition, applied_condition, Reconciled, delays_of, others_of, if_continue, ca_bundle_of,
  remove_cluster_manager_finalizer, conditions_of, observed, generations_fn, related_fn, updates_of,
  error_after,
}

-- The four reconcilers in their order; `skip` is `skipRemoveCRDs`.
unfoldable pub reconcilers :
    {M H E O B Sp N D : Type 0} (m : Manager Sp) (F : Codec M H E O B Sp N D)
    (L : Library M H E B m.client.State N D)
    → Cluster m.client.State M H E B
    → Cluster m.client.State M H E B
    → (m.client.State
        → Deployment N (Rollout D)
        → ℕ
        → Result (Deployment N (Rollout D) × Bool) × m.client.State)
    → (m.client.State → Option Error × m.client.State)
    → Bool
    → List (Reconciler m.client.State N)
reconcilers m F L hub own deploy ensure skip =
    record { reconcile = crd_reconcile m F L; clean = crd_clean m F L skip }
    ∷ record { reconcile = hub_reconcile m F L hub; clean = hub_clean m F L hub }
    ∷ record {
      reconcile = runtime_reconcile m F L own deploy ensure;
      clean = runtime_clean m F L own deploy ensure;
    }
    ∷ record { reconcile = webhook_reconcile m F L hub; clean = webhook_clean m F L own }
    ∷ []

-- The kubeconfig of the hub, its clients, and the reconcilers that work with them; `generate` is
-- `generateHubClusterClients`, and `ensure` is given the kubeconfig of the hub.
unfoldable pub hub_reconcilers :
    {Cluster_ Rest_ M H E O B Sp N D : Type 0} (load : String → Result (Config Cluster_))
    (client_config : Config Cluster_ → Result Rest_) (m : Manager Sp) (F : Codec M H E O B Sp N D)
    (L : Library M H E B m.client.State N D)
    → (Rest_ → Result (Cluster m.client.State M H E B))
    → Cluster m.client.State M H E B
    → (m.client.State
        → Deployment N (Rollout D)
        → ℕ
        → Result (Deployment N (Rollout D) × Bool) × m.client.State)
    → (Rest_ → m.client.State → Option Error × m.client.State)
    → Bool
    → Rest_
    → (String → String → Result Secret)
    → String
    → InstallMode
    → Result (List (Reconciler m.client.State N))
unfolding reconcilers
hub_reconcilers load client_config m F L generate own deploy ensure skip config get name mode =
    get_hub_kubeconfig load client_config config get name mode >>= λ hub_config_.
    generate hub_config_ >>= λ hub. ok (reconcilers m F L hub own deploy (ensure hub_config_) skip)

module _ {S N : Type 0} (A : Api N) (T : Tools A.status.State) where
  -- What an outcome of a clean leads to: an error ends the loop.
  unfoldable pub clean_after :
      Option Error → Outcome N × S → (ClusterManager N → S → Outcome N × S) → Outcome N × S
  clean_after (some e) x next = x
  clean_after none (o, t) next = next o.cm t

  unfoldable pub clean_all :
      List (Reconciler S N) → HubConfig → ClusterManager N → S → Outcome N × S
  unfolding clean_after
  clean_all [] config cm t = (record { cm = cm; state = continue; error = none }, t)
  clean_all (r ∷ rs) config cm t =
      clean_after (r.clean cm config t).0.error (r.clean cm config t)
        (λ cm t. clean_all rs config cm t)

  finalized : Option Error → Outcome N × S → A.status.State → Synced S A.status.State
  unfolding remove_cluster_manager_finalizer
  finalized (some e) (o, t) w = ended (some e) t w
  finalized none (o, t) w =
      let (e, w') = remove_cluster_manager_finalizer A T o.cm w in ended e t w'

  unfoldable pub sync_deleting :
      List (Reconciler S N)
      → HubConfig
      → ClusterManager N
      → S
      → A.status.State
      → Synced S A.status.State
  unfolding clean_all finalized
  sync_deleting rs config cm t w =
      finalized (clean_all rs config cm t).0.error (clean_all rs config cm t) w

  unfoldable pub reconcile_all :
      List (Reconciler S N) → HubConfig → ClusterManager N → S → Reconciled S N
  reconcile_all [] config cm t = record { cm = cm; errors = []; requeue_after = []; clusters = t }
  reconcile_all (r ∷ rs) config cm t =
      let (o, t') = r.reconcile cm config t in
      let rest = reconcile_all rs config o.cm t' in
      if_continue o.state
        (record {
          cm = o.cm;
          errors = others_of o.error;
          requeue_after = delays_of o.error;
          clusters = t';
        })
        (record rest {
          errors = others_of o.error ++ rest.errors;
          requeue_after = delays_of o.error ++ rest.requeue_after;
        })

  unfoldable pub report : Condition → Reconciled S N → A.status.State → Synced S A.status.State
  unfolding error_after updates_of
  report feature r w =
      let (result, w') =
        update_cluster_manager_status T.conditions T.same A.status T.retry
          (updates_of A T feature r.cm r.errors) r.cm.name w in
      record {
        error = error_after A T r.errors result;
        requeue_after = r.requeue_after;
        clusters = r.clusters;
        managers = w';
      }

  with_ca_bundle :
      List (Reconciler S N)
      → HubConfig
      → Condition
      → ClusterManager N
      → S
      → A.status.State
      → Result String
      → Synced S A.status.State
  unfolding report reconcile_all
  with_ca_bundle rs config feature cm t w (err e) = ended (some e) t w
  with_ca_bundle rs config feature cm t w (ok bundle) =
      report feature
        (reconcile_all rs (record config { api_service_ca_bundle = T.encode_to_string bundle }) cm
          t)
        w

  -- `config_map` is the lister's answer for the CA bundle.
  unfoldable pub sync_active :
      List (Reconciler S N)
      → HubConfig
      → Condition
      → Result (Dict String)
      → ClusterManager N
      → S
      → A.status.State
      → Synced S A.status.State
  unfolding with_ca_bundle ca_bundle_of
  sync_active rs config feature config_map cm t w =
      with_ca_bundle rs config feature cm t w (ca_bundle_of config_map)

  -- `clients` is the kubeconfig of the hub and the reconcilers that its clients make.
  sync_with :
      Result (List (Reconciler S N))
      → HubConfig
      → Condition
      → Result (Dict String)
      → ClusterManager N
      → S
      → A.status.State
      → Synced S A.status.State
  unfolding sync_deleting sync_active
  sync_with (err e) config feature config_map cm t w = ended (some e) t w
  sync_with (ok rs) config feature config_map cm t w =
      if cm.is_deleting
      then sync_deleting rs config cm t w
      else sync_active rs config feature config_map cm t w

  sync_found :
      Defaults
      → (String → List ℕ)
      → Result ℕ
      → Result (List (Reconciler S N))
      → (String → Result (Dict String))
      → Result (ClusterManager N)
      → S
      → A.status.State
      → Synced S A.status.State
  unfolding sync_with hub_config
  sync_found D runes nodes clients config_maps (err e) t w =
      if is_not_found e then ended none t w else ended (some e) t w
  sync_found D runes nodes clients config_maps (ok cm) t w =
      let (config, feature) =
        hub_config D runes cm.name cm.spec (determine_replica cm.spec.mode none nodes) in
      let sent =
        A.update w (record cm { finalizers = cm.finalizers ++ (cluster_manager_finalizer ∷ []) }) in
      if cm.is_deleting || contains cm.finalizers cluster_manager_finalizer
      then sync_with clients config (feature_condition feature)
          (config_maps config.cluster_manager_namespace) cm t w
      else ended sent.0 t sent.1

  -- `nodes` is the number of master nodes, `config_maps` the lister of the CA bundle's config map by
  -- namespace, and `found` the lister's answer for the key.
  unfoldable pub sync :
      Defaults
      → (String → List ℕ)
      → Result ℕ
      → Result (List (Reconciler S N))
      → (String → Result (Dict String))
      → Result (ClusterManager N)
      → S
      → A.status.State
      → Synced S A.status.State
  unfolding sync_found
  sync D runes nodes clients config_maps found t w =
      sync_found D runes nodes clients config_maps found t w
