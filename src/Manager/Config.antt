-- ===== src/Manager/Config.antt =====
-- The configuration that the manifests are rendered with, of clustermanager_controller.go. The default
-- feature gates and their names are those of the API module.
use registration_operator.Common.{
  String, ℕ, Bool, true, false, ◌||◌, ◌&&◌, ltb, Option, none, some, List, [], ◌∷◌, string_eq,
  if◌then◌else◌, ◌<>◌,
}
use registration_operator.Common.Dict.{Dict}
use registration_operator.Helpers.Features.{
  FeatureGate, enable, FeatureCondition, convert_to_feature_gate_flags, feature_gate_enabled,
  build_feature_condition,
}
use registration_operator.Helpers.Klusterlets.{
  InstallMode, default_mode, hosted_mode, other_install_mode, cluster_manager_namespace,
}

-- `operatorapiv1.WebhookConfiguration`
pub record WebhookConfiguration : Type 0 where
  pub address : String
  pub port : ℕ

-- `manifests.Webhook`
pub record Webhook : Type 0 where
  pub address : String
  pub port : ℕ
  pub is_ip_format : Bool

pub record RegistrationConfiguration : Type 0 where
  pub feature_gates : List FeatureGate
  pub auto_approve_users : List String

pub record Images : Type 0 where
  pub registration : String
  pub work : String
  pub placement : String
  pub addon_manager : String

-- The specification of a cluster manager; a missing section is `none`.
pub record Spec : Type 0 where
  pub mode : InstallMode
  pub images : Images
  pub registration : Option RegistrationConfiguration
  pub work : Option (List FeatureGate)
  pub addon_manager : Option (List FeatureGate)
  pub hosted : Option (WebhookConfiguration × WebhookConfiguration)

-- `ocmfeature`: the default gates of the three components, and two names.
pub record Defaults : Type 0 where
  pub registration : Dict Bool
  pub work : Dict Bool
  pub addon : Dict Bool
  pub manifest_work_replica_set : String
  pub addon_management : String

pub record HubConfig : Type 0 where
  pub cluster_manager_name : String
  pub cluster_manager_namespace : String
  pub images : Images
  pub replica : ℕ
  pub hosted_mode : Bool
  pub registration_webhook : Webhook
  pub work_webhook : Webhook
  pub auto_approve_users : String
  pub registration_feature_gates : List String
  pub work_feature_gates : List String
  pub mw_replica_set_enabled : Bool
  pub addon_manager_enabled : Bool
  -- The encoded bundle, of `RegistrationAPIServiceCABundle` and of `WorkAPIServiceCABundle`.
  pub api_service_ca_bundle : String

abbrev pub default_webhook_port : ℕ
default_webhook_port = 9443

abbrev pub default_hub_registration_feature_gates : List FeatureGate
default_hub_registration_feature_gates =
    record { feature = "DefaultClusterSet"; mode = enable } ∷ []

-- `strings.Join(texts, ",")`
abbrev pub commas : List String → String
commas [] = ""
commas (t ∷ []) = t
commas (t ∷ u ∷ ts) = t <> ("," <> commas (u ∷ ts))

-- A rune is its code: '0' is 48, '9' is 57 and '.' is 46.
abbrev pub is_other_rune : ℕ → Bool
is_other_rune r = (ltb r 48 || ltb 57 r) && (ltb r 46 || ltb 46 r)

unfoldable pub is_ip_format : List ℕ → Bool
is_ip_format [] = true
is_ip_format (r ∷ runes) = let rest = is_ip_format runes in if is_other_rune r then false else rest

abbrev gates_of : Option (List FeatureGate) → List FeatureGate
gates_of none = []
gates_of (some gates) = gates

abbrev registration_gates_of : Option RegistrationConfiguration → List FeatureGate
registration_gates_of none = default_hub_registration_feature_gates
registration_gates_of (some c) = c.feature_gates

abbrev users_of : Option RegistrationConfiguration → String
users_of none = ""
users_of (some c) = commas c.auto_approve_users

abbrev is_hosted : InstallMode → Bool
is_hosted hosted_mode = true
is_hosted default_mode = false
is_hosted (other_install_mode m) = false

-- `runes` is Go's conversion of a string.
module _ (D : Defaults) (runes : String → List ℕ) where
  unfoldable pub convert_webhook_configuration : WebhookConfiguration → Webhook
  unfolding is_ip_format
  convert_webhook_configuration c = record {
    address = c.address;
    port = c.port;
    is_ip_format = is_ip_format (runes c.address);
  }

  abbrev default_webhook : Webhook
  default_webhook = record { address = ""; port = default_webhook_port; is_ip_format = false }

  webhooks_of : Option (WebhookConfiguration × WebhookConfiguration) → Webhook × Webhook
  unfolding convert_webhook_configuration
  webhooks_of none = (default_webhook, default_webhook)
  webhooks_of (some (registration, work)) =
      (convert_webhook_configuration registration, convert_webhook_configuration work)

  -- The configuration without the CA bundle, which is set later, and the condition on the gates.
  unfoldable pub hub_config : String → Spec → ℕ → HubConfig × FeatureCondition
  unfolding webhooks_of
  hub_config name spec replica =
      let (registration_flags, registration_messages) =
        convert_to_feature_gate_flags "Registration" (registration_gates_of spec.registration)
          D.registration in
      let (work_flags, work_messages) =
        convert_to_feature_gate_flags "Work" (gates_of spec.work) D.work in
      let (_, addon_messages) =
        convert_to_feature_gate_flags "Addon" (gates_of spec.addon_manager) D.addon in
      let (registration_webhook, work_webhook) = webhooks_of spec.hosted in
      (
        record {
          cluster_manager_name = name;
          cluster_manager_namespace = cluster_manager_namespace name spec.mode;
          images = spec.images;
          replica = replica;
          hosted_mode = is_hosted spec.mode;
          registration_webhook = registration_webhook;
          work_webhook = work_webhook;
          auto_approve_users = users_of spec.registration;
          registration_feature_gates = registration_flags;
          work_feature_gates = work_flags;
          mw_replica_set_enabled =
              feature_gate_enabled (gates_of spec.work) D.work D.manifest_work_replica_set;
          addon_manager_enabled =
              feature_gate_enabled (gates_of spec.addon_manager) D.addon D.addon_management;
          api_service_ca_bundle = "";
        },
        build_feature_condition (registration_messages ∷ work_messages ∷ addon_messages ∷ []),
      )
