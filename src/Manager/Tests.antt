-- ===== src/Manager/Tests.antt =====
-- Runs on a hub and a management cluster that are lists of object names, and on cluster managers of which
-- the API keeps the last one sent.
use registration_operator.Common.{
  String, ℕ, ◌≡◌, ◌↔◌, ◌⊎◌, refl, true, false, Option, none, some, List, [], ◌∷◌, Error, failure,
  not_found, ok, err, string_eq, Aggregate, ◌+◌,
}
use registration_operator.Crd.{Manager, same}
use registration_operator.Helpers.Apply.{Calls}
use registration_operator.Helpers.Klusterlets.{hosted_mode}
use registration_operator.Helpers.Related.{Kind, validating_webhook}
use registration_operator.Helpers.StatusUpdates
use registration_operator.Helpers.StatusUpdates.{Status}
use registration_operator.Status.{Condition}
use registration_operator.Manager.Config.{HubConfig, Spec, Webhook, is_ip_format}
use registration_operator.Manager.Reconcile.{
  ClusterManager, stop, continue, Reconciler, Cluster, Codec, Library,
}
use registration_operator.Manager.Reconcile.Untouched.{Keeps}
use registration_operator.Manager.Sync.Untouched.{last, last_clean_untouched}
use registration_operator.Manager.Reconcile.Webhooks.{webhook_clean, webhook_reconcile}
use registration_operator.Helpers.StatusUpdates.Retry.{update_cluster_manager_status}
use registration_operator.Manager.Report.{
  updates_of, Api, Tools, cluster_manager_finalizer, ca_bundle_of,
}
use registration_operator.Manager.Sync.{reconcilers, reconcile_all, sync_deleting, sync_active}
use registration_operator.Manager.Sync.Removal.{Cleaned, Sent, sync_deleting_safe}
use registration_operator.Manager.Sync.Errors.{Silent, sync_active-Silent, outcome}

-- An address without a digit counts as one of numbers and dots.
empty_is_ip : is_ip_format [] ≡ true
unfolding is_ip_format
empty_is_ip = refl

-- The objects of the hub and of the management cluster.
abbrev World : Type 0
World = List String × List String

abbrev definitions : Manager Unit
definitions = record {
  client = record {
    State = World;
    get = λ t k. err (not_found k);
    create = λ t o. (ok o, t);
    update = λ t o. (ok o, t);
    delete = λ t k. (none, t);
  };
  equal = λ a b. true;
  version = "1";
  compare = λ v. ok same;
}

erase_own : World → Kind → String → String → Option Error × World
erase_own (hub, own) k ns n = (none, (hub, []))

abbrev no_calls : {T : Type 0} → Calls World T
no_calls = record {
  get = λ t ns n. err (not_found n);
  create = λ t o. (ok o, t);
  update = λ t o. (ok o, t);
}

abbrev own : Cluster World Unit Unit Unit String
own = record {
  eraser = record { delete = erase_own };
  validating = no_calls;
  mutating = no_calls;
  endpoints = no_calls;
  apply_generic = λ read files t w. ([], (t, w));
}

abbrev codec : Codec Unit Unit Unit Unit String Unit Unit Unit
codec = record {
  required = λ b. err (failure b);
  object = λ b. ok (record { kind = validating_webhook; namespace = ""; name = b });
  crd = λ b. err (failure b);
  deployment = λ b. err (failure b);
}

abbrev first_error : Aggregate
first_error = record {
  new_aggregate = λ es. elim es [ [] ↦ none | e ∷ _ ↦ some e ];
  new_aggregate-nil = refl;
  new_aggregate-cons = λ e es. (e, refl);
}

abbrev library : Library Unit Unit Unit String World Unit Unit
library = record {
  render = λ config file. ok file;
  group_version = λ k. record { group = ""; version = "v1" };
  aggregate = first_error;
  error_text = λ e. "";
  show_errors = λ es. "";
  set_status_condition = λ c cs. c ∷ cs;
  is_status_condition_false = λ cs title. true;
  webhooks = record { ensure_object_meta = λ old new. (false, new); same = λ a b. true };
  subsets = record { ensure_object_meta = λ old new. (false, new); same = λ a b. true };
  new_generation_status = λ d. record {
    group = "apps";
    version = "v1";
    resource = "deployments";
    namespace = "";
    name = d.name;
    last_generation = 0;
  };
}

abbrev spec : Spec
spec = record {
  mode = hosted_mode;
  images = record { registration = ""; work = ""; placement = ""; addon_manager = "" };
  registration = none;
  work = none;
  addon_manager = none;
  hosted = none;
}

abbrev manager : ClusterManager Unit
manager = record {
  name = "hub";
  spec = spec;
  node_placement = tt;
  finalizers = "other" ∷ cluster_manager_finalizer ∷ [];
  is_deleting = true;
  generation = 2;
  conditions = [];
  generations = [];
  related_resources = [];
}

abbrev no_webhook : Webhook
no_webhook = record { address = ""; port = 9443; is_ip_format = false }

abbrev config : HubConfig
config = record {
  cluster_manager_name = "hub";
  cluster_manager_namespace = "hub";
  images = spec.images;
  replica = 1;
  hosted_mode = true;
  registration_webhook = no_webhook;
  work_webhook = no_webhook;
  auto_approve_users = "";
  registration_feature_gates = [];
  work_feature_gates = [];
  mw_replica_set_enabled = false;
  addon_manager_enabled = false;
  api_service_ca_bundle = "";
}

erase_hub : World → Kind → String → String → Option Error × World
erase_hub (hub, own) k ns n = (none, ([], own))

abbrev hub_cluster : Cluster World Unit Unit Unit String
hub_cluster = record own { eraser = record { delete = erase_hub } }

own_keeps : Keeps own.eraser (λ t. t.0)
unfolding erase_own
own_keeps (hub, objects) k ns n = refl

abbrev webhooks : Reconciler World Unit
webhooks = record {
  reconcile = webhook_reconcile definitions codec library hub_cluster;
  clean = webhook_clean definitions codec library own;
}

last_webhooks :
    last (
      reconcilers definitions codec library hub_cluster own
        (λ t d n. (ok (d, false), t))
        (λ t. (none, t))
        false)
    ≡ some webhooks
unfolding reconcilers
last_webhooks = refl

last_clean_untouched_example :
    (webhook_clean definitions codec library own manager config
      ("webhooks" ∷ [], "webhooks" ∷ [])).1.0
    ≡ "webhooks" ∷ []
last_clean_untouched_example =
    last_clean_untouched definitions codec library (λ t. t.0) hub_cluster own
      (λ t d n. (ok (d, false), t)) (λ t. (none, t)) false webhooks manager config
      ("webhooks" ∷ [], "webhooks" ∷ []) last_webhooks own_keeps

-- Reconcilers of a count.
abbrev counting : Reconciler ℕ Unit
counting = record {
  reconcile =
      λ cm config t. (record { cm = cm; state = stop; error = some (failure "apply") }, t + 1);
  clean = λ cm config t. (record { cm = cm; state = continue; error = none }, t + 1);
}

abbrev api : Api Unit
api = record {
  status = record {
    State = Option (ClusterManager Unit);
    get = λ w k. ok (record {
      name = k;
      version = 1;
      status = record {
        conditions = [];
        rest = record { observed_generation = 1; generations = []; related_resources = [] };
      };
    });
    update_status = λ w o. (ok o, w);
  };
  update = λ w cm. (none, some cm);
}

abbrev tools : Tools (Option (ClusterManager Unit))
tools = record {
  aggregate = first_error;
  conditions = record {
    set_status_condition = λ c cs. c ∷ cs;
    remove_status_condition = λ t cs. cs;
  };
  find_status_condition = λ cs title. none;
  same = λ a b. false;
  retry = record { retry_on_conflict = λ f w. f w };
  encode_to_string = λ text. text;
}

sync_deleting_safe_example :
    ((sync_deleting api tools (counting ∷ counting ∷ []) config manager 5 none).managers ≡ none)
    ⊎ ((cm : ClusterManager Unit) × ((t : ℕ) × (Cleaned api tools
              (counting ∷ counting ∷ [])
              config
              manager
              5
              cm
              t
            × (((sync_deleting api tools (counting ∷ counting ∷ []) config manager 5 none).clusters
                  ≡ t)
                × Sent api tools cm none
                    (sync_deleting api tools
                      (counting ∷ counting ∷ [])
                      config
                      manager
                      5
                      none).managers))))
sync_deleting_safe_example =
    sync_deleting_safe api tools (counting ∷ counting ∷ []) config manager 5 none

-- Both cleans ran, and the finalizer went.
deleted :
    (sync_deleting api tools (counting ∷ counting ∷ []) config manager 5 none).managers
    ≡ some (record manager { finalizers = "other" ∷ [] })
unfolding sync_deleting string_eq
deleted = refl

abbrev gates : Condition
gates = record { title = "ValidFeatureGates"; holds = true; reason = ""; message = "" }

-- The reconciler fails, the status is written, and no error is reported.
unreported :
    (sync_active api tools (counting ∷ []) config gates (err (not_found "")) manager 5 none).error
    ≡ none
unfolding sync_active update_cluster_manager_status StatusUpdates.attempt
    StatusUpdates.update_condition_fn
unreported = refl

no_bundle : ca_bundle_of (err (not_found "")) ≡ ok "placeholder"
unfolding ca_bundle_of
no_bundle = refl

sync_active-Silent_example :
    ((sync_active api tools (counting ∷ []) config gates (err (not_found "")) manager 5 none).error
      ≡ none)
    ↔ Silent api tools
        (counting ∷ [])
        (record config { api_service_ca_bundle = "placeholder" })
        manager
        5
        (update_cluster_manager_status tools.conditions tools.same api.status tools.retry
          (updates_of api tools gates
            (outcome api tools (counting ∷ []) config "placeholder" manager 5).cm
            (outcome api tools (counting ∷ []) config "placeholder" manager 5).errors)
          "hub"
          none).0
unfolding reconcile_all
sync_active-Silent_example =
    sync_active-Silent api tools (counting ∷ []) config gates (err (not_found "")) manager 5 none
      "placeholder" no_bundle
