-- ===== src/Klusterlet/Controller/Sync.antt =====
-- `sync` of klusterlet_controller.go. It works on two states: that of the clusters, which the reconcilers
-- change, and that of the klusterlets of the API.
mod Untouched
use registration_operator.Common.{
  String, ◌<>◌, ℕ, Bool, true, false, not, ◌||◌, Option, none, some, List, [], ◌∷◌, Error, Result,
  ok, err, error_of, cons_error, is_not_found, if◌then◌else◌, Aggregate, contains, string_eq,
}
use registration_operator.Common.Dict.{Dict}
use registration_operator.Helpers.Features.{FeatureCondition}
use registration_operator.Helpers.Generations.{GenerationStatus, update_generations}
use registration_operator.Helpers.Klusterlets.{
  InstallMode, default_mode, hosted_mode, other_install_mode, determine_replica,
}
use registration_operator.Helpers.Objects.{ObjectKey}
use registration_operator.Helpers.Related.{update_related_resources}
use registration_operator.Helpers.StatusUpdates
use registration_operator.Helpers.StatusUpdates.{
  Status, Conditions, UpdateFunc, update_condition_fn,
}
use registration_operator.Helpers.StatusUpdates.Retry.{Retry, update_klusterlet_status}
use registration_operator.Klusterlet.{klusterlet_finalizer}
use registration_operator.Klusterlet.Controller.{
  Klusterlet, KlusterletConfig, config_of, with_gates, klusterlet_applied, apply_failed,
}
use registration_operator.Status.{Condition}

pub data ReconcileState : Type 0 where
  stop continue : ReconcileState

-- `klusterletReconcile`, of which the sync calls `reconcile`.
abbrev pub Reconcile : Type 0 → Type 0
Reconcile S = Klusterlet → KlusterletConfig → S → ((Klusterlet × ReconcileState) × Option Error) × S

-- The fields of `KlusterletStatus` beside the conditions.
pub record Rest : Type 0 where
  pub observed_generation : ℕ
  pub generations : List GenerationStatus
  pub related_resources : List ObjectKey

-- What the sync calls of the libraries, and the client of the klusterlets.
pub record Reporting : Type 1 where
  pub klusterlets : StatusUpdates.Client Condition Rest
  pub conditions : Conditions Condition
  pub same : Status Condition Rest → Status Condition Rest → Bool
  pub retry : Retry klusterlets.State (Status Condition Rest × Bool)
  pub find_status_condition : List Condition → String → Option Condition
  pub aggregate : Aggregate
  pub error_text : Error → String

abbrev klusterlet_ready_to_apply : String
klusterlet_ready_to_apply = "ReadyToApply"

abbrev pub is_hosted : InstallMode → Bool
is_hosted hosted_mode = true
is_hosted default_mode = false
is_hosted (other_install_mode m) = false

abbrev applied_condition : Condition
applied_condition = record {
  title = klusterlet_applied;
  holds = true;
  reason = "KlusterletApplied";
  message = "Klusterlet Component Applied";
}

abbrev feature_condition : FeatureCondition → Condition
feature_condition f = record {
  title = "ValidFeatureGates";
  holds = f.valid;
  reason = f.reason;
  message = f.message;
}

abbrev pub observed : Klusterlet → UpdateFunc Condition Rest
observed k s = ok (record s { rest = record (s.rest) { observed_generation = k.generation } })

abbrev generations_fn : List GenerationStatus → UpdateFunc Condition Rest
generations_fn given s = ok (record s {
  rest = record (s.rest) { generations = update_generations given s.rest.generations };
})

abbrev related_fn : List ObjectKey → UpdateFunc Condition Rest
related_fn given s = ok (record s {
  rest = record (s.rest) {
    related_resources = update_related_resources given s.rest.related_resources;
  };
})

-- What the loop over the reconcilers has gathered.
pub record Reconciled (S : Type 0) : Type 0 where
  pub klusterlet : Klusterlet
  pub errors : List Error
  pub clusters : S

abbrev if_continue : {S : Type 0} → ReconcileState → Reconciled S → Reconciled S → Reconciled S
if_continue stop now rest = now
if_continue continue now rest = rest

unfoldable pub reconcile_all :
    {S : Type 0} → List (Reconcile S) → KlusterletConfig → Klusterlet → S → Reconciled S
reconcile_all [] config k t = record { klusterlet = k; errors = []; clusters = t }
reconcile_all (reconcile ∷ rs) config k t =
    let (((k', state), e), t') = reconcile k config t in
    let rest = reconcile_all rs config k' t' in
    if_continue state (record { klusterlet = k'; errors = cons_error e []; clusters = t' })
      (record rest { errors = cons_error e rest.errors })

module _ (P : Reporting) where
  unfoldable pub ready_condition : Option Error → Condition
  ready_condition none = record {
    title = klusterlet_ready_to_apply;
    holds = true;
    reason = "KlusterletPrepared";
    message = "Klusterlet is ready to apply";
  }
  ready_condition (some e) = record {
    title = klusterlet_ready_to_apply;
    holds = false;
    reason = "KlusterletPrepareFailed";
    message = "Failed to build managed cluster clients: " <> P.error_text e;
  }

  unfoldable pub update :
      List (UpdateFunc Condition Rest)
      → String
      → P.klusterlets.State
      → Result (Status Condition Rest × Bool) × P.klusterlets.State
  update us key w = update_klusterlet_status P.conditions P.same P.klusterlets P.retry us key w

  abbrev pub is_updated : Result (Status Condition Rest × Bool) → Bool
  is_updated (err e) = false
  is_updated (ok (s, updated)) = updated

  -- The condition that an earlier reconciler has set, or else a general one.
  failed_condition : Option Condition → Condition
  failed_condition none = apply_failed "Klusterlet Component Apply failed"
  failed_condition (some c) = c

  -- With errors, an update that wrote something returns its own error, which is none then.
  unfoldable pub report :
      {S : Type 0}
      → Condition
      → String
      → Reconciled S
      → List Error
      → P.klusterlets.State
      → Option Error × (S × P.klusterlets.State)
  unfolding failed_condition update
  report feature key r [] w =
      let (result, w') =
        update
          (update_condition_fn P.conditions (feature ∷ applied_condition ∷ [])
            ∷ generations_fn r.klusterlet.generations
            ∷ related_fn r.klusterlet.related_resources
            ∷ observed r.klusterlet
            ∷ [])
          key w in
      (error_of result, (r.clusters, w'))
  report feature key r (e ∷ es) w =
      let applied =
        failed_condition (P.find_status_condition r.klusterlet.conditions klusterlet_applied) in
      let (result, w') =
        update
          (update_condition_fn P.conditions (feature ∷ applied ∷ []) ∷ observed r.klusterlet ∷ [])
          key w in
      (
        if is_updated result then error_of result else P.aggregate.new_aggregate (e ∷ es),
        (r.clusters, w'),
      )

  module _ {S : Type 0} (registration_gates work_gates : Dict Bool) where
    unfoldable pub sync_built :
        String
        → KlusterletConfig
        → Klusterlet
        → S
        → P.klusterlets.State
        → Result (List (Reconcile S))
        → Option Error × (S × P.klusterlets.State)
    unfolding report reconcile_all with_gates
    sync_built key config k t w (err e) = (some e, (t, w))
    sync_built key config k t w (ok rs) =
        let (config, feature) = with_gates registration_gates work_gates k.spec config in
        let r = reconcile_all rs config k t in
        if k.is_deleting || not (contains k.finalizers klusterlet_finalizer)
        then (none, (t, w))
        else report (feature_condition feature) key r r.errors w

    -- In hosted mode the sync ends if the condition was written, whatever the builder said.
    unfoldable pub prepared :
        Bool
        → String
        → KlusterletConfig
        → Klusterlet
        → S
        → P.klusterlets.State
        → Result (List (Reconcile S))
        → Option Error × (S × P.klusterlets.State)
    unfolding sync_built ready_condition update
    prepared false key config k t w built = sync_built key config k t w built
    prepared true key config k t w built =
        let (result, w') =
          update (update_condition_fn P.conditions (ready_condition (error_of built) ∷ []) ∷ []) key
            w in
        if is_updated result then (error_of result, (t, w')) else sync_built key config k t w' built

    unfoldable pub sync_found :
        String
        → Option (Result Bool)
        → Result ℕ
        → (KlusterletConfig → Result (List (Reconcile S)))
        → String
        → Result Klusterlet
        → S
        → P.klusterlets.State
        → Option Error × (S × P.klusterlets.State)
    unfolding prepared
    sync_found operator_namespace older nodes build key (err e) t w =
        if is_not_found e then (none, (t, w)) else (some e, (t, w))
    sync_found operator_namespace older nodes build key (ok k) t w =
        let config = config_of operator_namespace (determine_replica k.spec.mode older nodes) k in
        prepared (is_hosted config.install_mode) key config k t w (build config)

    -- `older` is whether the version of the cluster is below 1.14, `nodes` the number of master nodes,
    -- `found` the lister's answer for the key, and `build` the reconcilers with the clients of the managed
    -- cluster, if these can be built.
    unfoldable pub sync :
        String
        → Option (Result Bool)
        → Result ℕ
        → (KlusterletConfig → Result (List (Reconcile S)))
        → (String → Result Klusterlet)
        → String
        → S
        → P.klusterlets.State
        → Option Error × (S × P.klusterlets.State)
    unfolding sync_found
    sync operator_namespace older nodes build found key t w =
        sync_found operator_namespace older nodes build key (found key) t w
