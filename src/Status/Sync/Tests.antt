-- ===== src/Status/Sync/Tests.antt =====
-- Runs of both syncs on one object in memory.
use registration_operator.Common.{
  String, ◌≡◌, refl, true, false, [], ◌∷◌, map, failure, not_found, Result, ok, err, none, some,
  string_eq,
}
use registration_operator.Helpers.Klusterlets
use registration_operator.Helpers.Klusterlets.{hosted_mode}
use registration_operator.Helpers.StatusUpdates.{
  Object, attempt, attempt_with, write, sent, new_status, set_all, remove_all, run_updates,
  remove_condition_fn, update_condition_fn,
}
use registration_operator.Helpers.StatusUpdates.Retry.{update_klusterlet_status}
use registration_operator.Status.{Deployment, klusterlet_conditions}
use registration_operator.Status.Sync.{
  Observed, Reporting, observed, klusterlet_reported, klusterlet_sync, cluster_manager_sync,
}

abbrev World : Type 0
World = Object Observed Unit

abbrev reporting : Reporting Unit
reporting = record {
  objects = record { State = World; get = λ t k. ok t; update_status = λ t o. (ok o, o) };
  conditions = record {
    set_status_condition = λ c cs. c ∷ cs;
    remove_status_condition = λ k cs. cs;
  };
  same = λ s u. false;
  retry = record { retry_on_conflict = λ f w. f w };
  error_text = λ e. "";
}

abbrev listed : World
listed = record { name = "hub"; version = 1; status = record { conditions = []; rest = tt } }

abbrev hub : Klusterlets.ClusterManager
hub = record { name = "hub"; mode = hosted_mode }

abbrev agent : Klusterlets.Klusterlet
agent = record { name = "agent"; namespace = ""; mode = hosted_mode }

abbrev ready : String → String → Result Deployment
ready ns name = ok (record { replicas = some 1; available_replicas = 1 })

no_key :
    klusterlet_sync reporting ready ready (λ k. err (failure "lister")) "" listed ≡ (none, listed)
unfolding klusterlet_sync string_eq
no_key = refl

panics : cluster_manager_sync reporting ready (λ k. err (failure "lister")) "hub" listed ≡ none
unfolding cluster_manager_sync string_eq
panics = refl

gone_run :
    cluster_manager_sync reporting ready (λ k. err (not_found k)) "hub" listed ≡ some (none, listed)
unfolding cluster_manager_sync string_eq
gone_run = refl

agent_run :
    map
      (λ (o : Observed). o.condition.holds)
      (klusterlet_sync reporting ready ready
        (λ k. ok (agent, 2))
        "agent"
        listed).1.status.conditions
    ≡ false ∷ false ∷ true ∷ []
unfolding klusterlet_sync klusterlet_reported observed klusterlet_conditions
    update_klusterlet_status attempt attempt_with write sent new_status set_all remove_all
    run_updates remove_condition_fn update_condition_fn string_eq
agent_run = refl
