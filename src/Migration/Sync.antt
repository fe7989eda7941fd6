-- ===== src/Migration/Sync.antt =====
-- `sync` and `supportStorageVersionMigration` of migration_controller.go. It works on two states: the
-- migrations of the hub, and the cluster managers of the API.
pub mod Settled
mod Tests
use registration_operator.Common.{
  String, Bool, true, false, not, Option, none, some, List, [], ◌∷◌, Error, Result, ok, err,
  error_of, is_not_found, if◌then◌else◌, Aggregate, ◌>>=◌,
}
use registration_operator.Kube.{Client}
use registration_operator.Helpers.Klusterlets.{InstallMode}
use registration_operator.Helpers.StatusUpdates
use registration_operator.Helpers.StatusUpdates.{
  Status, Conditions, UpdateFunc, update_condition_fn,
}
use registration_operator.Helpers.StatusUpdates.Retry.{Retry, update_cluster_manager_status}
use registration_operator.Secrets.{Secret}
use registration_operator.Secrets.ClientConfig.{Config, get_hub_kubeconfig}
use registration_operator.Status
use registration_operator.Migration.{
  Migration, Condition, Decoded, Library, apply_storage_version_migrations, sync_condition,
  remove_storage_version_migrations,
}

-- The fields of a ClusterManager that the controller reads.
pub record ClusterManager : Type 0 where
  pub name : String
  pub is_deleting : Bool
  pub mode : InstallMode
  pub conditions : List Status.Condition

abbrev pub migration_request_files : List String
migration_request_files =
    "cluster-manager/cluster-manager-managedclustersets-migration.yaml"
    ∷ "cluster-manager/cluster-manager-managedclustersetbindings-migration.yaml" ∷ []

abbrev cluster_manager_applied : String
cluster_manager_applied = "Applied"

abbrev pub migration_succeeded : String
migration_succeeded = "MigrationSucceeded"

abbrev pub migration_request_crd_name : String
migration_request_crd_name = "storageversionmigrations.migration.k8s.io"

abbrev pub not_supported : Condition
not_supported = record {
  holds = false;
  reason = "StorageVersionMigrationFailed";
  message = "Do not support StorageVersionMigration";
}

-- The condition as the status of a ClusterManager lists it.
abbrev pub status_condition : Condition → Status.Condition
status_condition c = record {
  title = migration_succeeded;
  holds = c.holds;
  reason = c.reason;
  message = c.message;
}

-- What the API machinery and the client of the cluster managers do.
pub record Reporting (R : Type 0) : Type 1 where
  pub managers : StatusUpdates.Client Status.Condition R
  pub conditions : Conditions Status.Condition
  pub same : Status Status.Condition R → Status Status.Condition R → Bool
  pub retry : Retry managers.State (Status Status.Condition R × Bool)
  pub is_status_condition_true : List Status.Condition → String → Bool

-- The error, whether the key was queued again (`AddRateLimited`), and the two states.
pub record Synced (S W : Type 0) : Type 0 where
  pub error : Option Error
  pub queued : Bool
  pub hub : S
  pub managers : W

abbrev pub ended : {S W : Type 0} → Option Error → Bool → S → W → Synced S W
ended e q t w = record { error = e; queued = q; hub = t; managers = w }

unfoldable pub supported : {D : Type 0} → Result D → Result Bool
supported (err e) = if is_not_found e then ok false else err e
supported (ok d) = ok true

-- `get` is the hub's client of the custom resource definitions.
unfoldable pub support_storage_version_migration : {D : Type 0} → (String → Result D) → Result Bool
unfolding supported
support_storage_version_migration get = supported (get migration_request_crd_name)

abbrev pub updates_of :
    {R : Type 0} → Reporting R → Condition → List (UpdateFunc Status.Condition R)
updates_of P c = update_condition_fn P.conditions (status_condition c ∷ []) ∷ []

module _ {R : Type 0} (P : Reporting R) where
  unfoldable pub report :
      Condition
      → String
      → P.managers.State
      → Result (Status Status.Condition R × Bool) × P.managers.State
  report c name w =
      update_cluster_manager_status P.conditions P.same P.managers P.retry (updates_of P c) name w

  -- The key is queued again only after a status update without an error.
  unfoldable pub awaited :
      {S : Type 0} → Option Error → Bool → S → P.managers.State → Synced S P.managers.State
  awaited (some e) holds t w = ended (some e) false t w
  awaited none holds t w = ended none (not holds) t w

  unfoldable pub condition_synced :
      {S : Type 0} → String → S → P.managers.State → Result Condition → Synced S P.managers.State
  unfolding report awaited
  condition_synced name t w (err e) = ended (some e) false t w
  condition_synced name t w (ok c) =
      let (r, w') = report c name w in awaited (error_of r) c.holds t w'

module _ {M S B R : Type 0} (C : Client (Migration M S)) (L : Library M S)
    (manifests : String → Result B) (decode : B → Result (Decoded M S)) (A : Aggregate)
    (P : Reporting R) where
  unfoldable pub after_apply :
      List String
      → String
      → P.managers.State
      → Option Error × C.State
      → Synced C.State P.managers.State
  unfolding condition_synced
  after_apply files name w (some e, t) = ended (some e) false t w
  after_apply files name w (none, t) =
      condition_synced P name t w (sync_condition C L manifests decode t files)

  unfoldable pub if_supported :
      List String
      → ClusterManager
      → C.State
      → P.managers.State
      → Result Bool
      → Synced C.State P.managers.State
  unfolding after_apply report
  if_supported files cm t w (err e) = ended (some e) false t w
  if_supported files cm t w (ok false) =
      let (r, w') = report P not_supported cm.name w in ended (error_of r) false t w'
  if_supported files cm t w (ok true) =
      if P.is_status_condition_true cm.conditions cluster_manager_applied
      then after_apply files cm.name w
          (apply_storage_version_migrations C L manifests decode A files t)
      else ended none true t w

  removed : P.managers.State → Option Error × C.State → Synced C.State P.managers.State
  removed w (e, t) = ended e false t w

  -- `get_crd` is the client of the custom resource definitions, if the hub's clients could be made.
  unfoldable pub with_clients :
      {D : Type 0}
      → List String
      → ClusterManager
      → C.State
      → P.managers.State
      → Result (C.State → String → Result D)
      → Synced C.State P.managers.State
  unfolding if_supported removed support_storage_version_migration
  with_clients files cm t w (err e) = ended (some e) false t w
  with_clients files cm t w (ok get_crd) =
      if cm.is_deleting
      then removed w (remove_storage_version_migrations C L manifests decode files t)
      else if_supported files cm t w (support_storage_version_migration (get_crd t))

  module _ {D Cluster Kubeconfig : Type 0} (load : String → Result (Config Cluster))
      (client_config : Config Cluster → Result Kubeconfig)
      (generate : Kubeconfig → Result (C.State → String → Result D)) (own : Kubeconfig)
      (get_secret : String → String → Result Secret) where
    -- The kubeconfig of the hub and its clients; `C` is the client of the migrations.
    unfoldable pub hub_clients : ClusterManager → Result (C.State → String → Result D)
    hub_clients cm =
        get_hub_kubeconfig load client_config own get_secret cm.name cm.mode >>= λ config.
        generate config

    sync_found :
        List String
        → Result ClusterManager
        → C.State
        → P.managers.State
        → Synced C.State P.managers.State
    unfolding with_clients hub_clients
    sync_found files (err e) t w =
        if is_not_found e then ended none false t w else ended (some e) false t w
    sync_found files (ok cm) t w = with_clients files cm t w (hub_clients cm)

    -- `found` is the lister's answer for the key, which is the name of the object that it gives.
    unfoldable pub sync :
        List String
        → Result ClusterManager
        → C.State
        → P.managers.State
        → Synced C.State P.managers.State
    unfolding sync_found
    sync [] found t w = ended none false t w
    sync (file ∷ files) found t w = sync_found (file ∷ files) found t w
