-- ===== src/Migration/Sync/Tests.antt =====
-- Runs of the migration controller's sync, with one cluster manager in memory.
use registration_operator.Common.{
  String, ℕ, ◌≡◌, ◌⊎◌, refl, true, false, [], ◌∷◌, Result, ok, string_eq, err, not_found, ◌==◌,
  if◌then◌else◌, arith, ◌&&◌, not, Bool, List, Aggregate, Error, failure, some, none, ap,
}
use registration_operator.Kube.Memory
use registration_operator.Kube.Memory.{memory, memory-IsLawful}
use registration_operator.Migration.{
  Migration, get_status_condition, verdict, sync_condition, apply_storage_version_migrations,
  update_existing,
}
use registration_operator.Helpers.StatusUpdates
use registration_operator.Status
use registration_operator.Helpers.StatusUpdates.Stored.{IsLawful}
use registration_operator.Secrets.ClientConfig.{Config, get_hub_kubeconfig}
use registration_operator.Helpers.StatusUpdates.Retry.{answered, update_cluster_manager_status}
use registration_operator.Helpers.StatusUpdates.{
  attempt, attempt_with, write, sent, new_status, set_all, remove_all, run_updates,
  remove_condition_fn, update_condition_fn,
}
use registration_operator.Helpers.Klusterlets.{default_mode}
use registration_operator.Migration.Sync.{
  ClusterManager, status_condition, Reporting, Synced, sync, not_supported, migration_request_files,
  hub_clients, with_clients, if_supported, support_storage_version_migration, supported, report,
  awaited, after_apply, condition_synced,
}
use registration_operator.Migration.Sync.Settled.{IsReliable, sync_done, Migrated, Unsupported}
use registration_operator.Migration.Tests.{sets, cluster, library, files, codec}

abbrev first_error : Aggregate
first_error = record {
  new_aggregate = λ es. elim es [ [] ↦ none | e ∷ _ ↦ some e ];
  new_aggregate-nil = refl;
  new_aggregate-cons = λ e es. (e, refl);
}

-- A cluster manager of the API.
abbrev World : Type 0
World = StatusUpdates.Object Status.Condition Unit

get : World → String → Result World
get o k = if k == o.name then ok o else err (not_found k)

abbrev server : StatusUpdates.Client Status.Condition Unit
server = record { State = World; get = get; update_status = λ t o. (ok o, o) }

server-IsLawful : IsLawful server
unfolding get
server-IsLawful = record {
  get-name = λ t k h. ground arith;
  update_status-stored = λ t o h. (ground arith, cc);
}

same_flag : Bool → Bool → Bool
same_flag true b = b
same_flag false b = not b

same_flag_refl : (a : Bool) → same_flag a a ≡ true
unfolding same_flag
same_flag_refl true = refl
same_flag_refl false = refl

same_flag_eq : (a b : Bool) → same_flag a b ≡ true → a ≡ b
unfolding same_flag
same_flag_eq true true h = refl
same_flag_eq true false h = cc
same_flag_eq false true h = cc
same_flag_eq false false h = refl

same_condition : Status.Condition → Status.Condition → Bool
same_condition c d =
    (c.title == d.title && c.reason == d.reason)
    && (c.message == d.message && same_flag c.holds d.holds)

same_condition_refl : (c : Status.Condition) → same_condition c c ≡ true
unfolding same_condition
same_condition_refl c = ground (arith, same_flag_refl c.holds)

same_condition_eq : (c d : Status.Condition) → same_condition c d ≡ true → c ≡ d
unfolding same_condition
same_condition_eq c d h =
    let titles : c.title ≡ d.title = ground arith in
    let reasons : c.reason ≡ d.reason = ground arith in
    let messages : c.message ≡ d.message = ground arith in
    let flags : c.holds ≡ d.holds = ground (arith, same_flag_eq c.holds d.holds) in cc

same_conditions : List Status.Condition → List Status.Condition → Bool
same_conditions [] [] = true
same_conditions [] (_ ∷ _) = false
same_conditions (_ ∷ _) [] = false
same_conditions (c ∷ cs) (d ∷ ds) = same_condition c d && same_conditions cs ds

same_conditions_refl : (cs : List Status.Condition) → same_conditions cs cs ≡ true
unfolding same_conditions
same_conditions_refl [] = refl
same_conditions_refl (c ∷ cs) = ground (arith, same_condition_refl c, same_conditions_refl cs)

same_conditions_eq : (cs ds : List Status.Condition) → same_conditions cs ds ≡ true → cs ≡ ds
unfolding same_conditions
same_conditions_eq [] [] h = refl
same_conditions_eq [] (_ ∷ _) h = cc
same_conditions_eq (_ ∷ _) [] h = cc
same_conditions_eq (c ∷ cs) (d ∷ ds) h =
    ground (arith, same_condition_eq c d, same_conditions_eq cs ds)

abbrev reporting : Reporting Unit
reporting = record {
  managers = server;
  conditions = record {
    set_status_condition = λ c cs. c ∷ cs;
    remove_status_condition = λ k cs. cs;
  };
  same = λ s u. same_conditions s.conditions u.conditions;
  retry = record { retry_on_conflict = λ f w. f w };
  is_status_condition_true = λ cs k. true;
}

abbrev no_conflict : Error → Bool
no_conflict e = false

abbrev NoOthers : World → World → Type 0
NoOthers s t = s ≡ t

reporting-IsReliable : IsReliable reporting no_conflict NoOthers
reporting-IsReliable = record {
  law = server-IsLawful;
  eq = record {
    same-refl = λ s. same_conditions_refl s.conditions;
    same-eq = λ s u h.
        ap (λ cs. record { conditions = cs; rest = tt })
          (same_conditions_eq s.conditions u.conditions h);
  };
  retries = λ f s. answered 3 s (λ e h. refl);
}

abbrev hub : ClusterManager
hub = record { name = "hub"; is_deleting = false; mode = default_mode; conditions = [] }

abbrev listed : World
listed = record { name = "hub"; version = 1; status = record { conditions = []; rest = tt } }

-- Whether the hub knows the migrations.
abbrev clients : Bool → Unit {0} → Result (List (Migration Unit ℕ) → String → Result (Unit {0}))
clients known u = ok (λ t k. if known then ok tt else err (not_found k))

-- The hub is the cluster of the operator, whose kubeconfig is not read.
abbrev load : String → Result (Config (Unit {0}))
load text = err (failure "no kubeconfig")

abbrev run : Bool → Synced (List (Migration Unit ℕ)) World
run known =
    sync cluster library files codec first_error reporting load (λ c. ok tt) (clients known) tt
      (λ n k. err (not_found k)) migration_request_files (ok hub) (sets ∷ []) listed

unsupported_run : (run false).managers.status.conditions ≡ status_condition not_supported ∷ []
unfolding sync hub_clients get_hub_kubeconfig with_clients if_supported
    support_storage_version_migration supported report awaited update_condition_fn
    update_cluster_manager_status attempt attempt_with write sent new_status set_all remove_all
    run_updates remove_condition_fn same_conditions get string_eq
unsupported_run = refl

done_run : ((run true).error ≡ none) × ((run true).queued ≡ false)
unfolding sync hub_clients get_hub_kubeconfig with_clients if_supported
    support_storage_version_migration supported report awaited update_condition_fn after_apply
    condition_synced apply_storage_version_migrations sync_condition get_status_condition verdict
    Memory.find Memory.update Memory.replace update_existing update_cluster_manager_status attempt
    attempt_with write sent new_status set_all remove_all run_updates remove_condition_fn
    same_conditions get string_eq
done_run = (refl, refl)

sync_done_example :
    Migrated cluster library files codec first_error reporting no_conflict NoOthers
      reporting-IsReliable migration_request_files "hub"
      (run true)
    ⊎ ((get_crd : List (Migration Unit ℕ) → String → Result (Unit {0})) × ((clients true tt
            ≡ ok get_crd)
          × Unsupported cluster library files codec first_error reporting no_conflict NoOthers
              reporting-IsReliable get_crd
              (sets ∷ [])
              "hub"
              (run true)))
unfolding hub_clients get_hub_kubeconfig
sync_done_example =
    sync_done cluster library files codec first_error reporting no_conflict NoOthers
      reporting-IsReliable load (λ c. ok tt) (clients true) tt (λ n k. err (not_found k))
      "cluster-manager/cluster-manager-managedclustersets-migration.yaml"
      ("cluster-manager/cluster-manager-managedclustersetbindings-migration.yaml" ∷ []) hub
      (sets ∷ []) listed refl done_run.0 done_run.1
