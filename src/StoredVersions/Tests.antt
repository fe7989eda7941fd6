-- ===== src/StoredVersions/Tests.antt =====
-- Runs on a hub in memory, of which one CRD still lists an old version.
use registration_operator.Common.{
  String, ◌≡◌, refl, true, false, Bool, [], ◌∷◌, List, Result, ok, err, failure, none, some,
  string_eq, not_found, All,
}
use registration_operator.Kube.{Client}
use registration_operator.Kube.Memory
use registration_operator.Kube.Memory.{memory, memory-IsLawful}
use registration_operator.Helpers.Klusterlets.{default_mode}
use registration_operator.Secrets.ClientConfig.{Config, get_hub_kubeconfig}
use registration_operator.Migration.Sync.{ClusterManager}
use registration_operator.StoredVersions.{
  Crd, desired_crd_stored_versions, deep_equal, update_found, unless_failed, update_stored_version,
  Synced, with_client, sync_active, hub_client, sync,
}
use registration_operator.StoredVersions.Laws.{Keeps, Lists, sync-Lists}

abbrev Known : Type 0
Known = Crd (Unit {0})

abbrev sets : Known
sets = record {
  name = "managedclustersets.cluster.open-cluster-management.io";
  stored_versions = "v1beta1" ∷ "v1beta2" ∷ [];
  rest = tt;
}

abbrev bindings : Known
bindings = record {
  name = "managedclustersetbindings.cluster.open-cluster-management.io";
  stored_versions = "v1beta2" ∷ [];
  rest = tt;
}

abbrev cluster : Client Known
cluster = memory (λ c. c.name)

abbrev hub : ClusterManager
hub = record { name = "hub"; is_deleting = false; mode = default_mode; conditions = [] }

-- The hub is the cluster of the operator, whose kubeconfig is not read.
abbrev load : String → Result (Config (Unit {0}))
load text = err (failure "no kubeconfig")

abbrev run : Bool → List Known → Synced (List Known)
run migrated t =
    sync cluster (λ cs k. migrated) desired_crd_stored_versions {Kubeconfig = Unit {0}} load
      (λ c. ok tt) (λ u. none) tt (λ n k. err (not_found k)) (ok hub) t

waits : (run false (sets ∷ [])).queued ≡ true
unfolding sync hub_client get_hub_kubeconfig sync_active
waits = refl

-- The second CRD is not there.
fails_run : (run true (sets ∷ [])).error ≡ some (not_found bindings.name)
unfolding sync hub_client get_hub_kubeconfig sync_active with_client update_stored_version
    update_found unless_failed deep_equal Memory.find Memory.update Memory.replace string_eq
fails_run = refl

done_run :
    ((run true (sets ∷ bindings ∷ [])).error ≡ none)
    × ((run true (sets ∷ bindings ∷ [])).queued ≡ false)
unfolding sync hub_client get_hub_kubeconfig sync_active with_client update_stored_version
    update_found unless_failed deep_equal Memory.find Memory.update Memory.replace string_eq
done_run = (refl, refl)

sync-Lists_example :
    (true ≡ true)
    × All
        (Lists cluster
          (memory-IsLawful (λ c. c.name) Keeps (λ c. (refl, refl)))
          (run true (sets ∷ bindings ∷ [])).hub)
        desired_crd_stored_versions
sync-Lists_example =
    sync-Lists cluster (memory-IsLawful (λ c. c.name) Keeps (λ c. (refl, refl))) (λ cs k. true)
      desired_crd_stored_versions ((((λ e. cc), tt), (tt, tt))) load (λ c. ok tt) (λ u. none) tt
      (λ n k. err (not_found k)) hub (sets ∷ bindings ∷ []) refl done_run.0 done_run.1
