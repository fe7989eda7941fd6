-- ===== src/Klusterlet/Controller.antt =====
-- klusterlet_controller.go: the configuration that the manifests of the agents are rendered with, and
-- the namespaces and pull secrets that the reconcilers ask for. Sync is the `sync`.
pub mod Sync
mod Tests
use registration_operator.Common.{
  String, ◌<>◌, ℕ, Bool, false, Option, none, some, List, [], ◌∷◌, Error, Result, ok, err, error_of,
  is_not_found, if◌then◌else◌, ◌>>=◌,
}
use registration_operator.Common.Decimal.{quoted}
use registration_operator.Common.Dict.{Dict}
use registration_operator.Helpers.Features.{
  FeatureGate, disable, enable, FeatureCondition, convert_to_feature_gate_flags,
  build_feature_condition,
}
use registration_operator.Helpers.Generations.{GenerationStatus}
use registration_operator.Helpers.Klusterlets
use registration_operator.Helpers.Klusterlets.{InstallMode, klusterlet_namespace, agent_namespace}
use registration_operator.Helpers.Objects.{ObjectKey}
use registration_operator.Helpers.StatusUpdates.{Conditions}
use registration_operator.Kube.{Client}
use registration_operator.Secrets
use registration_operator.Secrets.{Secret}
use registration_operator.Secrets.ClientConfig.{Config, load_client_config_from_secret}
use registration_operator.Secrets.Sync.{Outcome, sync_secret}
use registration_operator.Status.{Condition}

-- `operatorapiv1.HubApiServerHostAlias`
pub record HubApiServerHostAlias : Type 0 where
  pub ip : String
  pub hostname : String

pub record RegistrationConfiguration : Type 0 where
  pub feature_gates : List FeatureGate
  pub client_cert_expiration_seconds : ℕ

-- The specification of a klusterlet; a missing section is `none`. A server is its URL.
pub record Spec : Type 0 where
  pub namespace : String
  pub mode : InstallMode
  pub registration_image : String
  pub work_image : String
  pub cluster_name : String
  pub external_server_urls : List String
  pub registration : Option RegistrationConfiguration
  pub work : Option (List FeatureGate)
  pub hub_api_server_host_alias : Option HubApiServerHostAlias

pub record Klusterlet : Type 0 where
  pub name : String
  pub uid : String
  pub generation : ℕ
  pub is_deleting : Bool
  pub finalizers : List String
  pub spec : Spec
  pub conditions : List Condition
  pub generations : List GenerationStatus
  pub related_resources : List ObjectKey

pub record KlusterletConfig : Type 0 where
  pub klusterlet_name : String
  pub klusterlet_namespace : String
  pub agent_namespace : String
  pub agent_id : String
  pub registration_image : String
  pub work_image : String
  pub cluster_name : String
  pub external_server_url : String
  pub hub_kube_config_secret : String
  pub bootstrap_kube_config_secret : String
  pub operator_namespace : String
  pub replica : ℕ
  pub client_cert_expiration_seconds : ℕ
  pub external_managed_kube_config_secret : String
  pub external_managed_kube_config_registration_secret : String
  pub external_managed_kube_config_work_secret : String
  pub install_mode : InstallMode
  pub registration_feature_gates : List String
  pub work_feature_gates : List String
  pub hub_api_server_host_alias : Option HubApiServerHostAlias

abbrev pub klusterlet_applied : String
klusterlet_applied = "Applied"

abbrev pub image_pull_secret : String
image_pull_secret = "open-cluster-management-image-pull-credentials"

-- `strings.Join(serverString, ",")`; no list and an empty one give the same text.
unfoldable pub get_servers_from_klusterlet : List String → String
get_servers_from_klusterlet [] = ""
get_servers_from_klusterlet (url ∷ []) = url
get_servers_from_klusterlet (url ∷ next ∷ urls) =
    url <> ("," <> get_servers_from_klusterlet (next ∷ urls))

abbrev base_of : Klusterlet → Klusterlets.Klusterlet
base_of k = record { name = k.name; namespace = k.spec.namespace; mode = k.spec.mode }

-- The configuration, of which the flags and the expiration are set later.
unfoldable pub config_of : String → ℕ → Klusterlet → KlusterletConfig
unfolding get_servers_from_klusterlet
config_of operator_namespace replica k = record {
  klusterlet_name = k.name;
  klusterlet_namespace = klusterlet_namespace (base_of k);
  agent_namespace = agent_namespace (base_of k);
  agent_id = k.uid;
  registration_image = k.spec.registration_image;
  work_image = k.spec.work_image;
  cluster_name = k.spec.cluster_name;
  external_server_url = get_servers_from_klusterlet k.spec.external_server_urls;
  hub_kube_config_secret = "hub-kubeconfig-secret";
  bootstrap_kube_config_secret = "bootstrap-hub-kubeconfig";
  operator_namespace = operator_namespace;
  replica = replica;
  client_cert_expiration_seconds = 0;
  external_managed_kube_config_secret = "external-managed-kubeconfig";
  external_managed_kube_config_registration_secret = "external-managed-kubeconfig-registration";
  external_managed_kube_config_work_secret = "external-managed-kubeconfig-work";
  install_mode = k.spec.mode;
  registration_feature_gates = [];
  work_feature_gates = [];
  hub_api_server_host_alias = k.spec.hub_api_server_host_alias;
}

abbrev pub default_spoke_registration_feature_gates : List FeatureGate
default_spoke_registration_feature_gates =
    record { feature = "AddonManagement"; mode = enable } ∷ []

abbrev registration_gates_of : Option RegistrationConfiguration → List FeatureGate
registration_gates_of none = default_spoke_registration_feature_gates
registration_gates_of (some c) = c.feature_gates

abbrev expiration_of : Option RegistrationConfiguration → ℕ → ℕ
expiration_of none current = current
expiration_of (some c) current = c.client_cert_expiration_seconds

abbrev work_gates_of : Option (List FeatureGate) → List FeatureGate
work_gates_of none = []
work_gates_of (some gates) = gates

-- `registration` and `work` are the default gates of the API module.
unfoldable pub with_gates :
    Dict Bool → Dict Bool → Spec → KlusterletConfig → KlusterletConfig × FeatureCondition
with_gates registration work spec config =
    let (registration_flags, registration_messages) =
      convert_to_feature_gate_flags "Registration" (registration_gates_of spec.registration)
        registration in
    let (work_flags, work_messages) =
      convert_to_feature_gate_flags "Work" (work_gates_of spec.work) work in
    (
      record config {
        client_cert_expiration_seconds =
            expiration_of spec.registration config.client_cert_expiration_seconds;
        registration_feature_gates = registration_flags;
        work_feature_gates = work_flags;
      },
      build_feature_condition (registration_messages ∷ work_messages ∷ []),
    )

-- `get` is the client of the secrets.
unfoldable pub get_managed_kube_config :
    {Cluster Rest : Type 0}
    → (String → Result (Config Cluster))
    → (Config Cluster → Result Rest)
    → (String → String → Result Secret)
    → String
    → String
    → Result Rest
get_managed_kube_config load client_config get namespace name =
    get namespace name >>= λ s. load_client_config_from_secret load client_config s

pub record Namespace : Type 0 where
  pub name : String
  pub annotations : Dict String

abbrev pub workload_namespace : String → Namespace
workload_namespace name = record {
  name = name;
  annotations = ("workload.openshift.io/allowed", "management") ∷ [];
}

module _ (C : Client Namespace) where
  namespace_ensured : C.State → String → Result Namespace → Option Error × C.State
  namespace_ensured t name (ok n) = (none, t)
  namespace_ensured t name (err e) =
      if is_not_found e
      then (let (r, t') = C.create t (workload_namespace name) in (error_of r, t'))
      else (some e, t)

  unfoldable pub ensure_agent_namespace : C.State → String → Option Error × C.State
  unfolding namespace_ensured
  ensure_agent_namespace t name = namespace_ensured t name (C.get t name)

abbrev pub apply_failed : String → Condition
apply_failed message = record {
  title = klusterlet_applied;
  holds = false;
  reason = "KlusterletApplyFailed";
  message = message;
}

-- `L` and `error_text` are the API machinery's list of conditions and the `Error` method; a nil error
-- prints as "<nil>".
module _ (L : Conditions Condition) (error_text : Error → String) where
  abbrev text_of : Option Error → String
  text_of none = "<nil>"
  text_of (some e) = error_text e

  set_failed : String → String → Option Error → Klusterlet → Klusterlet
  set_failed what name e k = record k {
    conditions =
        L.set_status_condition
          (apply_failed ("Failed to " <> (what <> (" " <> (quoted name <> (": " <> text_of e))))))
          k.conditions;
  }

  -- `source` is the answer of the source's client, and `C` the client of the target.
  module _ (C : Secrets.Client) where
    after_sync : String → Klusterlet → Option Error → Klusterlet
    unfolding set_failed
    after_sync namespace k none = k
    after_sync namespace k (some e) =
        set_failed "sync image pull secret to namespace" namespace (some e) k

    unfoldable pub sync_pull_secret :
        C.State → Result Secret → String → Klusterlet → Option Error × (Klusterlet × C.State)
    unfolding after_sync
    sync_pull_secret t source namespace k =
        let (o, t') = sync_secret C namespace image_pull_secret [] t source in
        (o.error, (after_sync namespace k o.error, t'))

  module _ (C : Client Namespace) where
    -- The condition is set after every request to create, also after one that succeeded.
    ensured :
        C.State → String → Klusterlet → Result Namespace → Option Error × (Klusterlet × C.State)
    unfolding set_failed
    ensured t name k (ok n) = (none, (k, t))
    ensured t name k (err e) =
        let (r, t') = C.create t (workload_namespace name) in
        if is_not_found e
        then (error_of r, (set_failed "create namespace" name (error_of r) k, t'))
        else (some e, (set_failed "get namespace" name (some e) k, t))

    unfoldable pub ensure_namespace :
        C.State → String → Klusterlet → Option Error × (Klusterlet × C.State)
    unfolding ensured
    ensure_namespace t name k = ensured t name k (C.get t name)
