-- ===== src/Ssar/Tests.antt =====
-- Runs of the checks and of the locker.
use registration_operator.Common.{
  ◌≡◌, ◌↔◌, refl, true, false, [], ◌∷◌, not_found, ok, err, string_eq, if◌then◌else◌,
}
use registration_operator.Common.Dict
use registration_operator.Helpers.Klusterlets.{default_mode}
use registration_operator.Secrets.{Secret, opaque}
use registration_operator.Ssar.{Library, KlusterletAgent, hub_condition}
use registration_operator.Secrets.ClientConfig.{load_client_config_from_secret}
use registration_operator.Ssar.Reviews.{create_self_subject_access_reviews, get_hub_config_ssars}
use registration_operator.Ssar.Laws.{Works, hub_condition_iff}
use registration_operator.Ssar.Locker.{
  World, Target, here, next, syncs, initial, after_sync, in_ssar_checking, sync, sync_found,
  add_ssar_checking, started,
}
use registration_operator.Ssar.Locker.Exclusion.{count, Reach-exclusive}

abbrev library : Library Unit Unit Unit
library = record {
  load = λ text. ok (record {
    current_context = "hub";
    contexts = ("hub", record { cluster = "hub"; auth_info = "agent" }) ∷ [];
    auth_infos = [];
    clusters = [];
  });
  client_config = λ c. ok (record { host = "https://hub"; qps = 0; burst = 0; rest = tt });
  new_for_config = λ c. ok tt;
  create_review = λ a r. ok true;
  show_review = λ r. r.resource;
  show_attributes = λ r. r.resource;
  error_text = λ e. "";
}

abbrev hub : Secret
hub = record {
  namespace = "agent";
  name = "hub-kubeconfig-secret";
  resource_version = "";
  owner_references = [];
  annotations = [];
  secret_type = opaque;
  contents = ("kubeconfig", "text") ∷ ("cluster-name", "cluster1") ∷ [];
}

abbrev agent : KlusterletAgent
agent = record { cluster_name = ""; namespace = "agent" }

functional :
    (hub_condition library (λ ns name. ok hub) (λ ns name. err (not_found name)) agent 4).reason
    ≡ "HubConnectionFunctional"
unfolding hub_condition string_eq Dict.lookup load_client_config_from_secret
    create_self_subject_access_reviews get_hub_config_ssars
functional = refl

hub_condition_iff_example :
    ((hub_condition library (λ ns name. ok hub) (λ ns name. err (not_found name)) agent 4).holds
      ≡ false)
    ↔ Works library (λ ns name. ok hub) agent
hub_condition_iff_example =
    hub_condition_iff library (λ ns name. ok hub) (λ ns name. err (not_found name)) agent 4

abbrev target : Target
target = record {
  klusterlet = record { name = "klusterlet"; namespace = "agent"; mode = default_mode };
  cluster_name = "cluster1";
  generation = 4;
}

-- Two syncs of one key: the second one waits.
abbrev world : World
world = after_sync (after_sync initial "klusterlet" (ok target)) "klusterlet" (ok target)

Reach-exclusive_example :
    count "klusterlet" world.running ≡ (if in_ssar_checking world.locker "klusterlet" then 1 else 0)
Reach-exclusive_example = Reach-exclusive "klusterlet" (
    next (next here (syncs initial "klusterlet" (ok target)))
      (syncs (after_sync initial "klusterlet" (ok target)) "klusterlet" (ok target)))

one_runs : count "klusterlet" world.running ≡ 1
unfolding after_sync sync sync_found in_ssar_checking add_ssar_checking started string_eq
    Dict.lookup Dict.insert
one_runs = refl
