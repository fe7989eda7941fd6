-- ===== src/Manager/Report.antt =====
-- The parts of the sync of clustermanager_controller.go that concern the cluster manager itself: its finalizer,
-- the CA bundle, its conditions and its status.
use registration_operator.Common.{
  String, ℕ, Bool, true, false, ◌||◌, Option, none, some, List, [], ◌∷◌, ◌++◌, not_found, failure,
  remaining_crds, requeue, Error, Result, ok, err, is_not_found, if◌then◌else◌, Aggregate, ◌==◌,
  string_eq, length, ltb,
}
use registration_operator.Common.Dict
use registration_operator.Common.Dict.{Dict}
use registration_operator.Helpers.Features.{FeatureCondition}
use registration_operator.Helpers.Generations.{GenerationStatus, update_generations}
use registration_operator.Helpers.Objects.{ObjectKey}
use registration_operator.Helpers.Related.{update_related_resources}
use registration_operator.Helpers.StatusUpdates
use registration_operator.Helpers.StatusUpdates.{
  Status, Conditions, UpdateFunc, update_condition_fn,
}
use registration_operator.Helpers.StatusUpdates.Retry.{Retry}
use registration_operator.Secrets.Sync.{value_of}
use registration_operator.Status.{Condition}
use registration_operator.Manager.Reconcile.{
  ClusterManager, ReconcileState, stop, continue, applied_type, progressing_type,
}

abbrev pub cluster_manager_finalizer : String
cluster_manager_finalizer = "operator.open-cluster-management.io/cluster-manager-cleanup"

-- The fields of `ClusterManagerStatus` beside the conditions.
pub record Rest : Type 0 where
  pub observed_generation : ℕ
  pub generations : List GenerationStatus
  pub related_resources : List ObjectKey

-- The API of the cluster managers: `Get`, `UpdateStatus` and `Update`.
pub record Api (N : Type 0) : Type 1 where
  pub status : StatusUpdates.Client Condition Rest
  pub update : status.State → ClusterManager N → Option Error × status.State

-- What the sync calls of the libraries, and the retry.
pub record Tools (W : Type 0) : Type 0 where
  pub aggregate : Aggregate
  pub conditions : Conditions Condition
  pub find_status_condition : List Condition → String → Option Condition
  pub same : Status Condition Rest → Status Condition Rest → Bool
  pub retry : Retry W (Status Condition Rest × Bool)
  pub encode_to_string : String → String

-- What a sync returns, the times after which it queues its key again, and the states.
pub record Synced (S W : Type 0) : Type 0 where
  pub error : Option Error
  pub requeue_after : List ℕ
  pub clusters : S
  pub managers : W

abbrev pub ended : {S W : Type 0} → Option Error → S → W → Synced S W
ended e t w = record { error = e; requeue_after = []; clusters = t; managers = w }

unfoldable pub without_finalizer : List String → List String
without_finalizer [] = []
without_finalizer (f ∷ fs) =
    let rest = without_finalizer fs in if f == cluster_manager_finalizer then rest else f ∷ rest

abbrev pub maybe : Option Condition → List Condition
maybe none = []
maybe (some c) = c ∷ []

abbrev pub feature_condition : FeatureCondition → Condition
feature_condition f = record {
  title = "ValidFeatureGates";
  holds = f.valid;
  reason = f.reason;
  message = f.message;
}

abbrev pub applied_condition : Condition
applied_condition = record {
  title = applied_type;
  holds = true;
  reason = "ClusterManagerApplied";
  message = "Components of cluster manager are applied";
}

abbrev placeholder_if_empty : String → String
placeholder_if_empty text = if text == "" then "placeholder" else text

-- What the loop over the reconcilers has gathered.
pub record Reconciled (S N : Type 0) : Type 0 where
  pub cm : ClusterManager N
  pub errors : List Error
  pub requeue_after : List ℕ
  pub clusters : S

abbrev pub delays_of : Option Error → List ℕ
delays_of none = []
delays_of (some (requeue m n)) = n ∷ []
delays_of (some (not_found m)) = []
delays_of (some (failure m)) = []
delays_of (some (remaining_crds l)) = []

abbrev pub others_of : Option Error → List Error
others_of none = []
others_of (some (requeue m n)) = []
others_of (some (not_found m)) = not_found m ∷ []
others_of (some (failure m)) = failure m ∷ []
others_of (some (remaining_crds l)) = remaining_crds l ∷ []

abbrev pub if_continue :
    {S N : Type 0} → ReconcileState → Reconciled S N → Reconciled S N → Reconciled S N
if_continue stop now rest = now
if_continue continue now rest = rest

-- The CA bundle, of the config map if it has one.
unfoldable pub ca_bundle_of : Result (Dict String) → Result String
ca_bundle_of (err e) = if is_not_found e then ok "placeholder" else err e
ca_bundle_of (ok contents) =
    ok (placeholder_if_empty (value_of (Dict.lookup "ca-bundle.crt" contents)))

module _ {N : Type 0} (A : Api N) (T : Tools A.status.State) where
  unfoldable pub remove_cluster_manager_finalizer :
      ClusterManager N → A.status.State → Option Error × A.status.State
  unfolding without_finalizer
  remove_cluster_manager_finalizer cm w =
      let kept = without_finalizer cm.finalizers in
      if ltb (length kept) (length cm.finalizers) || ltb (length cm.finalizers) (length kept)
      then A.update w (record cm { finalizers = kept })
      else (none, w)

  -- The conditions that a sync reports.
  unfoldable pub conditions_of : Condition → ClusterManager N → List Error → List Condition
  conditions_of feature cm errors =
      feature ∷ (maybe (T.find_status_condition cm.conditions progressing_type) ++ last errors)
    where
      last : List Error → List Condition
      last [] = applied_condition ∷ []
      last (e ∷ es) = maybe (T.find_status_condition cm.conditions applied_type)

  abbrev pub observed : ClusterManager N → UpdateFunc Condition Rest
  observed cm s = ok (record s { rest = record (s.rest) { observed_generation = cm.generation } })

  abbrev pub generations_fn : List GenerationStatus → UpdateFunc Condition Rest
  generations_fn given s = ok (record s {
    rest = record (s.rest) { generations = update_generations given s.rest.generations };
  })

  abbrev pub related_fn : List ObjectKey → UpdateFunc Condition Rest
  related_fn given s = ok (record s {
    rest = record (s.rest) {
      related_resources = update_related_resources given s.rest.related_resources;
    };
  })

  -- The functions that the status is updated with, without and with errors.
  unfoldable pub updates_of :
      Condition → ClusterManager N → List Error → List (UpdateFunc Condition Rest)
  unfolding conditions_of
  updates_of feature cm [] =
      update_condition_fn T.conditions (conditions_of feature cm [])
      ∷ generations_fn cm.generations
      ∷ related_fn cm.related_resources
      ∷ observed cm
      ∷ []
  updates_of feature cm (e ∷ es) =
      update_condition_fn T.conditions (conditions_of feature cm (e ∷ es)) ∷ observed cm ∷ []

  -- The error that is returned, from the reconcilers' and from that of the update. With errors of the
  -- reconcilers, an update that wrote something returns its own error, which is none then.
  unfoldable pub error_after : List Error → Result (Status Condition Rest × Bool) → Option Error
  error_after [] (ok r) = T.aggregate.new_aggregate []
  error_after [] (err e) = T.aggregate.new_aggregate (e ∷ [])
  error_after (e ∷ es) (ok (s, true)) = none
  error_after (e ∷ es) (ok (s, false)) = T.aggregate.new_aggregate (e ∷ es)
  error_after (e ∷ es) (err d) = T.aggregate.new_aggregate (e ∷ es)
