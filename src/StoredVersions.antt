-- ===== src/StoredVersions.antt =====
-- pkg/operators/clustermanager/controllers/crdstatuccontroller/crd_status_controller.go: the versions
-- that the status of a CRD lists as stored. The hub's client is a parameter.
pub mod Laws
mod Tests
use registration_operator.Common.{
  String, Bool, true, false, ◌&&◌, Option, none, some, List, [], ◌∷◌, Error, Result, ok, err,
  error_of, is_not_found, if◌then◌else◌, ◌==◌, string_eq, ◌>>=◌,
}
use registration_operator.Kube.{Client}
use registration_operator.Secrets.{Secret}
use registration_operator.Secrets.ClientConfig.{Config, get_hub_kubeconfig}
use registration_operator.Status.{Condition}
use registration_operator.Migration.Sync.{ClusterManager, migration_succeeded}

pub record Crd (S : Type 0) : Type 0 where
  pub name : String
  pub stored_versions : List String
  pub rest : S

-- A map, whose entries a loop visits in any order.
abbrev pub desired_crd_stored_versions : List (String × List String)
desired_crd_stored_versions =
    ("managedclustersets.cluster.open-cluster-management.io", "v1beta2" ∷ [])
    ∷ ("managedclustersetbindings.cluster.open-cluster-management.io", "v1beta2" ∷ [])
    ∷ []

-- `reflect.DeepEqual` on the versions.
unfoldable pub deep_equal : List String → List String → Bool
deep_equal [] [] = true
deep_equal [] (_ ∷ _) = false
deep_equal (_ ∷ _) [] = false
deep_equal (v ∷ vs) (u ∷ us) = v == u && deep_equal vs us

module _ {S : Type 0} (C : Client (Crd S)) where
  -- `C.update` is `UpdateStatus`.
  unfoldable pub update_found : C.State → List String → Result (Crd S) → Option Error × C.State
  update_found t versions (err e) = (some e, t)
  update_found t versions (ok crd) =
      if deep_equal crd.stored_versions versions
      then (none, t)
      else (let (r, t') = C.update t (record crd { stored_versions = versions }) in
          (error_of r, t'))

  unfoldable pub unless_failed :
      Option Error × C.State → (C.State → Option Error × C.State) → Option Error × C.State
  unless_failed (some e, t) next = (some e, t)
  unless_failed (none, t) next = next t

  -- The entries in the order in which the loop visits them.
  unfoldable pub update_stored_version :
      List (String × List String) → C.State → Option Error × C.State
  unfolding update_found unless_failed
  update_stored_version [] t = (none, t)
  update_stored_version ((name, versions) ∷ entries) t =
      unless_failed (update_found t versions (C.get t name)) (λ t. update_stored_version entries t)

-- The error, whether the key was queued again (`AddRateLimited`), and the hub.
pub record Synced (H : Type 0) : Type 0 where
  pub error : Option Error
  pub queued : Bool
  pub hub : H

abbrev pub ended : {H : Type 0} → Option Error → Bool → H → Synced H
ended e q t = record { error = e; queued = q; hub = t }

module _ {S : Type 0} (C : Client (Crd S))
    (is_status_condition_true : List Condition → String → Bool)
    (entries : List (String × List String)) where
  unfoldable pub with_client : C.State → Option Error → Synced C.State
  unfolding update_stored_version
  with_client t (some e) = ended (some e) false t
  with_client t none = let (e, t') = update_stored_version C entries t in ended e false t'

  -- `clients` is the outcome of making the hub's client, which is `C`.
  unfoldable pub sync_active : ClusterManager → Option Error → C.State → Synced C.State
  unfolding with_client
  sync_active cm clients t =
      if is_status_condition_true cm.conditions migration_succeeded
      then with_client t clients
      else ended none true t

  module _ {Cluster Kubeconfig : Type 0} (load : String → Result (Config Cluster))
      (client_config : Config Cluster → Result Kubeconfig) (generate : Kubeconfig → Option Error)
      (own : Kubeconfig) (get_secret : String → String → Result Secret) where
    generated : Result Kubeconfig → Option Error
    generated (err e) = some e
    generated (ok config) = generate config

    unfoldable pub hub_client : ClusterManager → Option Error
    unfolding generated
    hub_client cm = generated (get_hub_kubeconfig load client_config own get_secret cm.name cm.mode)

    -- `found` is the lister's answer for the key.
    unfoldable pub sync : Result ClusterManager → C.State → Synced C.State
    unfolding sync_active hub_client
    sync (err e) t = if is_not_found e then ended none false t else ended (some e) false t
    sync (ok cm) t = if cm.is_deleting then ended none false t else sync_active cm (hub_client cm) t
