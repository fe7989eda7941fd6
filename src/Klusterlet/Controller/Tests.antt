-- ===== src/Klusterlet/Controller/Tests.antt =====
-- Runs of the klusterlet controller on one klusterlet in memory.
use registration_operator.Common.{
  ℕ, suc, ◌≡◌, refl, false, [], ◌∷◌, List, Error, failure, Result, ok, err, Option, none, some,
  string_eq,
}
use registration_operator.Helpers.Klusterlets.{default_mode, hosted_mode}
use registration_operator.Helpers.StatusUpdates.{
  Object, attempt, attempt_with, write, sent, new_status, set_all, remove_all, run_updates,
  remove_condition_fn, update_condition_fn,
}
use registration_operator.Helpers.StatusUpdates.Retry.{update_klusterlet_status}
use registration_operator.Kube.{Client}
use registration_operator.Kube.Memory
use registration_operator.Kube.Memory.{memory}
use registration_operator.Klusterlet.{klusterlet_finalizer}
use registration_operator.Klusterlet.Controller.{
  Klusterlet, Spec, Namespace, config_of, with_gates, get_servers_from_klusterlet, ensure_namespace,
  workload_namespace, apply_failed,
}
use registration_operator.Klusterlet.Controller.Sync.{
  Rest, Reporting, Reconcile, stop, continue, sync, sync_built, update, report, reconcile_all,
  ready_condition,
}
use registration_operator.Status.{Condition}

abbrev World : Type 0
World = Object Condition Rest

abbrev reporting : Reporting
reporting = record {
  klusterlets = record { State = World; get = λ t k. ok t; update_status = λ t o. (ok o, o) };
  conditions = record {
    set_status_condition = λ c cs. c ∷ cs;
    remove_status_condition = λ k cs. cs;
  };
  same = λ s u. false;
  retry = record { retry_on_conflict = λ f w. f w };
  find_status_condition = λ cs k. none;
  aggregate = record {
    new_aggregate = λ es. elim es [ [] ↦ none | e ∷ _ ↦ some e ];
    new_aggregate-nil = refl;
    new_aggregate-cons = λ e es. (e, refl);
  };
  error_text = λ e. "";
}

abbrev spec : Spec
spec = record {
  namespace = "";
  mode = hosted_mode;
  registration_image = "registration";
  work_image = "work";
  cluster_name = "c1";
  external_server_urls = [];
  registration = none;
  work = none;
  hub_api_server_host_alias = none;
}

abbrev hosted : Klusterlet
hosted = record {
  name = "agent";
  uid = "1";
  generation = 3;
  is_deleting = false;
  finalizers = klusterlet_finalizer ∷ [];
  spec = spec;
  conditions = [];
  generations = [];
  related_resources = [];
}

abbrev here : Klusterlet
here = record hosted { spec = record spec { mode = default_mode } }

abbrev listed : World
listed = record {
  name = "agent";
  version = 1;
  status = record {
    conditions = [];
    rest = record { observed_generation = 0; generations = []; related_resources = [] };
  };
}

-- The state of the clusters is the number of reconcilers that have run.
abbrev works : Reconcile ℕ
works k config t = (((k, continue), none), suc t)

abbrev fails : Reconcile ℕ
fails k config t = (((k, stop), some (failure "apply")), suc t)

abbrev run : Klusterlet → Result (List (Reconcile ℕ)) → Option Error × (ℕ × World)
run k built =
    sync reporting [] [] "operator" none (ok 3) (λ c. built) (λ key. ok k) "agent" 0 listed

servers : get_servers_from_klusterlet ("a" ∷ "b" ∷ []) ≡ "a,b"
unfolding get_servers_from_klusterlet
servers = refl

-- The failure to build the clients is in the condition, and not returned.
unbuilt_run : (run hosted (err (failure "secret"))).0 ≡ none
unfolding sync ready_condition update update_klusterlet_status attempt attempt_with write sent
    new_status set_all remove_all run_updates remove_condition_fn update_condition_fn config_of
unbuilt_run = refl

done_run :
    ((run here (ok (works ∷ works ∷ []))).0 ≡ none) × ((run here (ok (works ∷ works ∷ []))).1.0 ≡ 2)
unfolding sync sync_built with_gates report reconcile_all update update_klusterlet_status attempt
    attempt_with write sent new_status set_all remove_all run_updates remove_condition_fn
    update_condition_fn string_eq config_of
done_run = (refl, refl)

-- The first failure stops the loop and, since the status is written, is not returned.
unreported_run :
    ((run here (ok (fails ∷ works ∷ []))).0 ≡ none) × ((run here (ok (fails ∷ works ∷ []))).1.0 ≡ 1)
unfolding sync sync_built with_gates report reconcile_all update update_klusterlet_status attempt
    attempt_with write sent new_status set_all remove_all run_updates remove_condition_fn
    update_condition_fn string_eq config_of
unreported_run = (refl, refl)

abbrev namespaces : Client Namespace
namespaces = memory (λ n. n.name)

-- A namespace that was created is reported as a failure.
created_run :
    ensure_namespace reporting.conditions reporting.error_text namespaces [] "agent" hosted ≡ (
      none,
      (
        record hosted {
          conditions = apply_failed "Failed to create namespace \"agent\": <nil>" ∷ [];
        },
        workload_namespace "agent" ∷ [],
      ),
    )
unfolding ensure_namespace Memory.find Memory.create
created_run = refl
