-- ===== src/Helpers/Tests.antt =====
-- Runs of pkg/helpers, and the theorems at concrete data.
use mathlib.Core.List.{Memᴰ}
use mathlib.Core.Option.{or_else}
use registration_operator.Common.{
  ◌≡◌, ◌<>◌, refl, ◌↔◌, inr, Bool, true, false, some, List, [], ◌∷◌, map, string_eq, All,
}
use registration_operator.Common.Dict
use registration_operator.Common.Dict.{Dict}
use registration_operator.Helpers.Objects.{ObjectKey, key_eq}
use registration_operator.Helpers.Generations.{
  GenerationStatus, key, status_of, same_object, update_generations, set_generation_statuses,
}
use registration_operator.Helpers.Generations.Laws.{status_of-update}
use registration_operator.Helpers.Related.{
  set_related_resources_statuses, remove_related_resources_statuses,
}
use registration_operator.Helpers.Related.Laws.{remove-set}
use registration_operator.Helpers.Features.{
  enable_flag, disable_flag, FeatureGate, enable, disable, convert_to_feature_gate_flags,
  feature_gate_enabled, build_feature_condition,
}
use registration_operator.Helpers.Features.Laws.{effective, effective-convert}
use registration_operator.Helpers.Features.Validity.{Component, message, Known, valid_iff}
use registration_operator.Helpers.Klusterlets.{
  Klusterlet, ClusterManager, default_mode, hosted_mode, other_install_mode, agent_namespace,
  cluster_manager_namespace,
}
use registration_operator.Helpers.QueueKeys.{
  klusterlet_secret_queue_key, klusterlet_deployment_queue_key,
  cluster_manager_by_namespace_queue_key, cluster_manager_deployment_queue_key, interesting_secret,
  has_suffix,
}
use registration_operator.Helpers.QueueKeys.Laws.{
  klusterlet_events_queued, cluster_manager_events_queued, unknown_mode_lost, home,
  ArePairwiseApart, DoNotClash, watched_endings,
}

abbrev work_agent : GenerationStatus
work_agent = record {
  group = "apps";
  version = "v1";
  resource = "deployments";
  namespace = "agent";
  name = "work-agent";
  last_generation = 1;
}

abbrev newer : GenerationStatus
newer = record work_agent { last_generation = 2 }

abbrev other_agent : GenerationStatus
other_agent = record work_agent { name = "registration-agent" }

updated : update_generations (newer ∷ other_agent ∷ []) (work_agent ∷ []) ≡ newer ∷ other_agent ∷ []
unfolding update_generations set_generation_statuses same_object string_eq
updated = refl

status_of-update_example :
    status_of (key work_agent) (update_generations (newer ∷ []) (work_agent ∷ [])) ≡ some newer
unfolding key_eq string_eq key or_else
status_of-update_example = status_of-update (key work_agent) (newer ∷ []) (work_agent ∷ [])

abbrev object : ObjectKey
object = key work_agent

remove-set_example :
    (set_related_resources_statuses [] object ≡ object ∷ [])
    × (set_related_resources_statuses (set_related_resources_statuses [] object) object
        ≡ set_related_resources_statuses [] object)
    × (remove_related_resources_statuses (set_related_resources_statuses [] object) object ≡ [])
remove-set_example = remove-set [] object refl

abbrev gates : List FeatureGate
gates = record { feature = "A"; mode = enable } ∷ record { feature = "B"; mode = disable } ∷ []

abbrev defaults : Dict Bool
defaults = ("A", false) ∷ ("B", true) ∷ []

flags :
    convert_to_feature_gate_flags "Work" gates defaults
    ≡ ("--feature-gates=A=true" ∷ "--feature-gates=B=false" ∷ [], "")
unfolding convert_to_feature_gate_flags Dict.lookup string_eq enable_flag disable_flag
flags = refl

effective-convert_example :
    effective (convert_to_feature_gate_flags "Work" gates defaults).0 "B" true ≡ false
unfolding feature_gate_enabled string_eq Dict.lookup
effective-convert_example =
    effective-convert defaults "B" true refl "Work" gates (refl, (refl, tt)) (refl, (refl, tt))

abbrev works : Component
works = record { title = "Work"; gates = gates; defaults = ("A", true) ∷ [] }

valid_iff_example :
    ((build_feature_condition (map message (works ∷ []))).valid ≡ true)
    ↔ All (λ (c : Component). All (Known c.defaults) c.gates) (works ∷ [])
valid_iff_example = valid_iff (works ∷ [])

abbrev plain : Klusterlet
plain = record { name = "klusterlet"; namespace = ""; mode = default_mode }

abbrev hosted : Klusterlet
hosted = record { name = "cluster1"; namespace = ""; mode = hosted_mode }

abbrev klusterlets : List Klusterlet
klusterlets = plain ∷ hosted ∷ []

apart : ArePairwiseApart klusterlets
unfolding agent_namespace string_eq
apart = ((refl, tt), (tt, tt))

klusterlet_events_queued_example :
    (klusterlet_secret_queue_key (some klusterlets) (agent_namespace hosted) "hub-kubeconfig-secret"
      ≡ "cluster1")
    × (klusterlet_deployment_queue_key
          (some klusterlets)
          (agent_namespace hosted)
          "cluster1-registration-agent"
        ≡ "cluster1")
    × (klusterlet_deployment_queue_key
          (some klusterlets)
          (agent_namespace hosted)
          "cluster1-work-agent"
        ≡ "cluster1")
unfolding interesting_secret string_eq
klusterlet_events_queued_example =
    klusterlet_events_queued klusterlets hosted "hub-kubeconfig-secret" "cluster1-" apart
      (Memᴰ.tail (Memᴰ.head refl))

abbrev hub : ClusterManager
hub = record { name = "cluster-manager"; mode = default_mode }

abbrev hosted_hub : ClusterManager
hosted_hub = record { name = "hub1"; mode = hosted_mode }

abbrev managers : List ClusterManager
managers = hub ∷ hosted_hub ∷ []

no_clash : DoNotClash managers
unfolding cluster_manager_namespace string_eq
no_clash = ((refl, tt), (tt, tt))

cluster_manager_events_queued_example :
    (cluster_manager_by_namespace_queue_key (some managers) (home hosted_hub) ≡ "hub1")
    × (All
          (λ ending.
            cluster_manager_deployment_queue_key
              (some managers)
              (home hosted_hub)
              ("hub1-" <> ending)
            ≡ "hub1")
          watched_endings
        × (cluster_manager_deployment_queue_key
              (some managers)
              (home hosted_hub)
              "hub1-work-controller"
            ≡ ""))
unfolding has_suffix string_eq
cluster_manager_events_queued_example =
    cluster_manager_events_queued managers hosted_hub "hub1-" "hub1-work-controller" no_clash
      (inr refl) (Memᴰ.tail (Memᴰ.head refl))

unknown_mode_lost_example :
    cluster_manager_by_namespace_queue_key
      (some (record { name = "hub2"; mode = other_install_mode "" } ∷ []))
      (home (record { name = "hub2"; mode = other_install_mode "" }))
    ≡ ""
unfolding string_eq
unknown_mode_lost_example = unknown_mode_lost "hub2" "" refl
