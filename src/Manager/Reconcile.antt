-- ===== src/Manager/Reconcile.antt =====
-- The four reconcilers, of clustermanager_crd_reconcile.go, clustermanager_hub_reconcile.go,
-- clustermanager_runtime_reconcile.go and clustermanager_webhook_reconcile.go, and `cleanResources` of
-- clustermanager_controller.go. The clusters' states are those of the client of the definitions, and the
-- hub and the management cluster may be one.
pub mod Definitions
pub mod Hub
pub mod Runtime
pub mod Webhooks
pub mod Untouched
use registration_operator.Common.{
  String, ◌<>◌, ℕ, Bool, true, false, ◌||◌, not, ltb, Option, none, some, List, [], ◌∷◌, ◌++◌,
  Error, requeue, failure, Result, ok, err, cons_error, if◌then◌else◌, Aggregate, ◌==◌, string_eq,
}
use registration_operator.Common.Decimal.{quoted}
use registration_operator.Crd
use registration_operator.Crd.{Manager, Crd}
use registration_operator.Helpers.Apply.{
  Resource, Calls, ApplyResult, Required, apply_directly, Deployment, apply_deployment,
}
use registration_operator.Helpers.Apply
use registration_operator.Helpers.Deletion.{Eraser, clean_up_static_object}
use registration_operator.Helpers.Generations.{GenerationStatus, set_generation_statuses}
use registration_operator.Helpers.Klusterlets.{
  InstallMode, default_mode, hosted_mode, other_install_mode,
}
use registration_operator.Helpers.Objects.{ObjectKey}
use registration_operator.Helpers.Related.{
  GroupVersion, Kind, Object, set_related_resources_statuses_with_obj,
  remove_related_resources_statuses_with_obj,
}
use registration_operator.Status.{Condition}
use registration_operator.Manager.Config.{HubConfig, Spec, commas}
use registration_operator.Manager.Files.{
  crd_names, hub_crd_resource_files, namespace_resource, hub_addon_manager_rbac_resource_files,
  mw_replica_set_resource_files, get_hub_resources, addon_manager_deployment_files,
  mw_replica_set_deployment_files, deploy_resources, webhook_resources,
}

-- The copy of the cluster manager that a sync works on; `N` is a node placement.
pub record ClusterManager (N : Type 0) : Type 0 where
  pub name : String
  pub spec : Spec
  pub node_placement : N
  pub finalizers : List String
  pub is_deleting : Bool
  pub generation : ℕ
  pub conditions : List Condition
  pub generations : List GenerationStatus
  pub related_resources : List ObjectKey

pub data ReconcileState : Type 0 where
  stop continue : ReconcileState

-- What a reconciler returns.
pub record Outcome (N : Type 0) : Type 0 where
  pub cm : ClusterManager N
  pub state : ReconcileState
  pub error : Option Error

pub record Reconciler (S N : Type 0) : Type 0 where
  pub reconcile : ClusterManager N → HubConfig → S → Outcome N × S
  pub clean : ClusterManager N → HubConfig → S → Outcome N × S

-- The clients of one cluster, and library-go's apply with them.
pub record Cluster (S M H E B : Type 0) : Type 0 where
  pub eraser : Eraser S
  pub validating : Calls S (Resource M H)
  pub mutating : Calls S (Resource M H)
  pub endpoints : Calls S (Resource M E)
  pub apply_generic :
      (String → List ObjectKey → Result B × List ObjectKey)
      → List String
      → S
      → List ObjectKey
      → List ApplyResult × (S × List ObjectKey)

-- The fields of a deployment that tell whether it is rolled out; `D` is the rest.
pub record Rollout (D : Type 0) : Type 0 where
  pub observed_generation : ℕ
  pub replicas : ℕ
  pub ready_replicas : ℕ
  pub rest : D

-- The codec, at the types that its callers ask for.
pub record Codec (M H E O B Sp N D : Type 0) : Type 0 where
  pub required : B → Result (Required M H E O)
  pub object : B → Result Object
  pub crd : B → Result (Crd Sp)
  pub deployment : B → Result (Deployment N (Rollout D))

pub record Library (M H E B S N D : Type 0) : Type 0 where
  -- `ReadFile` and the rendering of a template.
  pub render : HubConfig → String → Result B
  pub group_version : Kind → GroupVersion
  pub aggregate : Aggregate
  pub error_text : Error → String
  pub show_errors : List Error → String
  pub set_status_condition : Condition → List Condition → List Condition
  pub is_status_condition_false : List Condition → String → Bool
  pub webhooks : Apply.Library M H
  pub subsets : Apply.Library M E
  pub new_generation_status : Deployment N (Rollout D) → GenerationStatus

abbrev pub applied_type : String
applied_type = "Applied"

abbrev pub progressing_type : String
progressing_type = "Progressing"

-- `fmt.Errorf("%q (%T): %v", file, type, err)` for each result with an error.
unfoldable pub errors_of : (Error → String) → List ApplyResult → List Error
errors_of text [] = []
errors_of text (r ∷ rs) = cons_error (with_file r.error) (errors_of text rs)
  where
    with_file : Option Error → Option Error
    with_file none = none
    with_file (some e) =
        some (failure (quoted r.file <> (" (" <> (r.type_name <> ("): " <> text e)))))

module _ {M H E O B Sp N D : Type 0} (m : Manager Sp) (F : Codec M H E O B Sp N D)
    (L : Library M H E B m.client.State N D) where
  abbrev pub S : Type 0
  S = m.client.State

  -- The closure that reads a manifest and enters its object in the related resources.
  unfoldable pub manifest_set : HubConfig → String → List ObjectKey → Result B × List ObjectKey
  manifest_set config file related = go (L.render config file)
    where
      go : Result B → Result B × List ObjectKey
      go (err e) = (err e, related)
      go (ok b) = (ok b, set_related_resources_statuses_with_obj L.group_version F.object related b)

  -- The closure that reads a manifest and takes its object off the related resources.
  unfoldable pub manifest_remove : HubConfig → String → List ObjectKey → Result B × List ObjectKey
  manifest_remove config file related = go (L.render config file)
    where
      go : Result B → Result B × List ObjectKey
      go (err e) = (err e, related)
      go (ok b) =
          (ok b, remove_related_resources_statuses_with_obj L.group_version F.object related b)

  abbrev decoded : Result B → Result Object
  decoded (err e) = err e
  decoded (ok b) = F.object b

  abbrev after_clean :
      Option Error × S
      → List ObjectKey
      → (S → List ObjectKey → Option Error × (S × List ObjectKey))
      → Option Error × (S × List ObjectKey)
  after_clean (some e, t) related next = (some e, (t, related))
  after_clean (none, t) related next = next t related

  -- `cleanResources` with the client of one cluster: the error, the state and the related resources.
  unfoldable pub clean_files :
      Eraser S → HubConfig → List String → S → List ObjectKey → Option Error × (S × List ObjectKey)
  unfolding manifest_remove
  clean_files D config [] t related = (none, (t, related))
  clean_files D config (file ∷ files) t related =
      let (b, related') = manifest_remove config file related in
      after_clean (clean_up_static_object D false false (decoded b) t) related'
        (λ t related. clean_files D config files t related)

  unfoldable pub clean_resources :
      Eraser S → HubConfig → List String → ClusterManager N → S → Outcome N × S
  unfolding clean_files
  clean_resources D config files cm t =
      let (e, (t', related)) = clean_files D config files t cm.related_resources in
      (record { cm = record cm { related_resources = related }; state = continue; error = e }, t')

  unless_enabled :
      Bool
      → Eraser S
      → HubConfig
      → List String
      → S
      → List ObjectKey
      → Option Error × (S × List ObjectKey)
  unfolding clean_files
  unless_enabled enabled D config files t related =
      let cleaned = clean_files D config files t related in
      if enabled then (none, (t, related)) else cleaned

  abbrev next_clean :
      Option Error × (S × List ObjectKey)
      → (S → List ObjectKey → Option Error × (S × List ObjectKey))
      → Option Error × (S × List ObjectKey)
  next_clean (some e, states) next = (some e, states)
  next_clean (none, (t, related)) next = next t related

  -- The files of the two components that may be switched off are removed if they are.
  unfoldable pub remove_disabled :
      Eraser S
      → HubConfig
      → List String
      → List String
      → S
      → List ObjectKey
      → Option Error × (S × List ObjectKey)
  unfolding unless_enabled
  remove_disabled D config addon_files mw_files t related =
      next_clean (unless_enabled config.addon_manager_enabled D config addon_files t related)
        λ t related. unless_enabled config.mw_replica_set_enabled D config mw_files t related

  -- `ApplyDirectly` with the clients of a cluster: the errors, the state and the related resources.
  unfoldable pub apply_files :
      Cluster S M H E B
      → HubConfig
      → List String
      → S
      → List ObjectKey
      → List Error × (S × List ObjectKey)
  unfolding manifest_set errors_of
  apply_files c config files t related =
      let (results, states) =
        apply_directly c.validating c.mutating c.endpoints L.webhooks L.subsets F.required
          L.error_text (c.apply_generic (manifest_set config)) (manifest_set config) files t
          related in
      (errors_of L.error_text results, states)

  -- An early return of a reconciler.
  abbrev pub stopped : ClusterManager N → Error → Outcome N
  stopped cm e = record { cm = cm; state = stop; error = some e }

  abbrev pub continued : ClusterManager N → Outcome N
  continued cm = record { cm = cm; state = continue; error = none }

  abbrev pub condition : String → Bool → String → String → Condition
  condition title holds reason message = record {
    title = title;
    holds = holds;
    reason = reason;
    message = message;
  }

  abbrev pub with_condition : ClusterManager N → Condition → ClusterManager N
  with_condition cm c = record cm { conditions = L.set_status_condition c cm.conditions }

  -- The condition of a failed apply, and the stop that goes with it.
  unfoldable pub apply_failed : ClusterManager N → String → String → Option Error → Outcome N
  apply_failed cm reason message e = record {
    cm = with_condition cm (condition applied_type false reason message);
    state = stop;
    error = e;
  }
