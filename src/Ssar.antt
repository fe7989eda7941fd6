-- ===== src/Ssar.antt =====
-- pkg/operators/klusterlet/controllers/ssarcontroller/klusterlet_ssar_controller.go: whether the agents'
-- kubeconfigs may do on the hub what the agents need.
pub mod Reviews
pub mod Laws
pub mod Locker
mod Tests
use registration_operator.Common.{
  String, ◌<>◌, ℕ, Bool, true, false, Option, none, some, List, [], ◌∷◌, Error, Result, ok, err,
  ◌>>=◌, if◌then◌else◌, ◌==◌, string_eq, is_not_found,
}
use registration_operator.Common.Decimal.{quoted}
use registration_operator.Common.Dict
use registration_operator.Helpers.Klusterlets.{Klusterlet, agent_namespace}
use registration_operator.Secrets.{Secret}
use registration_operator.Secrets.ClientConfig.{Config, load_client_config_from_secret}
use registration_operator.Ssar.Reviews.{
  ResourceAttributes, Verdict, allowed, denied, failed, create_self_subject_access_reviews,
  get_bootstrap_ssars, get_hub_config_ssars,
}

-- `metav1.Condition`; `holds` is whether its status is true.
pub record Condition : Type 0 where
  pub title : String
  pub holds : Bool
  pub observed_generation : ℕ
  pub reason : String
  pub message : String

-- What a check function fills in.
pub record Finding : Type 0 where
  pub degraded : Bool
  pub reason : String
  pub message : String

-- `rest.Config`
pub record RestConfig (R : Type 0) : Type 0 where
  pub host : String
  pub qps : ℕ
  pub burst : ℕ
  pub rest : R

pub record KlusterletAgent : Type 0 where
  pub cluster_name : String
  pub namespace : String

-- The libraries: `clientcmd`, the making of a client, the request of a review, and `fmt` of a review,
-- of its attributes and of an error.
pub record Library (Cluster R A : Type 0) : Type 0 where
  pub load : String → Result (Config Cluster)
  pub client_config : Config Cluster → Result (RestConfig R)
  pub new_for_config : RestConfig R → Result A
  pub create_review : A → ResourceAttributes → Result Bool
  pub show_review : ResourceAttributes → String
  pub show_attributes : ResourceAttributes → String
  pub error_text : Error → String

abbrev pub hub_connection_degraded : String
hub_connection_degraded = "HubConnectionDegraded"

abbrev pub bootstrap_secret : String
bootstrap_secret = "bootstrap-hub-kubeconfig"

abbrev pub hub_secret : String
hub_secret = "hub-kubeconfig-secret"

abbrev pub degraded_by : String → String → Finding
degraded_by reason message = record { degraded = true; reason = reason; message = message }

module _ {Cluster R A : Type 0} (L : Library Cluster R A) where
  -- The client and its host.
  unfoldable pub build_kube_client_with_secret : Secret → Result (A × String)
  build_kube_client_with_secret s =
      load_client_config_from_secret L.load L.client_config s >>= λ config.
      L.new_for_config (record config { qps = 2; burst = 5 }) >>= λ client. ok (client, config.host)

  -- A review that is not allowed or fails, with the words of one of the two checks.
  bootstrap_finding : String → String → Verdict → Finding
  bootstrap_finding ns host allowed = record {
    degraded = false;
    reason = "BootstrapSecretFunctional";
    message =
        "Bootstrap secret "
        <> (ns
            <> ("/"
                <> (bootstrap_secret
                    <> (" to apiserver " <> (host <> " is configured correctly")))));
  }
  bootstrap_finding ns host (failed r e) = degraded_by "BootstrapSecretError" (
      "Failed to create "
      <> (L.show_review r
          <> (" with bootstrap secret "
              <> (quoted ns <> (" " <> (quoted bootstrap_secret <> (": " <> L.error_text e)))))))
  bootstrap_finding ns host (denied r) = degraded_by "BootstrapSecretUnauthorized" (
      "Operation for resource "
      <> (L.show_attributes r
          <> (" is not allowed with bootstrap secret "
              <> (quoted ns <> ("/" <> (quoted bootstrap_secret <> (" to apiserver " <> host)))))))

  bootstrap_built : String → Result (A × String) → Finding
  unfolding bootstrap_finding
  -- No host comes with the error.
  bootstrap_built ns (err e) = degraded_by "BootstrapSecretError" (
      "Failed to build bootstrap kube client with bootstrap secret "
      <> (quoted ns
          <> ("/" <> (quoted bootstrap_secret <> (" to apiserver " <> (": " <> L.error_text e))))))
  bootstrap_built ns (ok (client, host)) =
      bootstrap_finding ns host
        (create_self_subject_access_reviews (L.create_review client) get_bootstrap_ssars)

  bootstrap_got : String → Result Secret → Finding
  unfolding bootstrap_built build_kube_client_with_secret
  bootstrap_got ns (err e) = degraded_by "BootstrapSecretMissing" (
      "Failed to get bootstrap secret "
      <> (quoted ns <> (" " <> (quoted bootstrap_secret <> (": " <> L.error_text e)))))
  bootstrap_got ns (ok s) = bootstrap_built ns (build_kube_client_with_secret s)

  -- `get` is the client of the agents' cluster.
  unfoldable pub check_bootstrap_secret :
      (String → String → Result Secret) → KlusterletAgent → Finding
  unfolding bootstrap_got
  check_bootstrap_secret get agent =
      bootstrap_got agent.namespace (get agent.namespace bootstrap_secret)

  unfoldable pub hub_finding : String → Secret → String → Verdict → Finding
  hub_finding ns s host allowed = record {
    degraded = false;
    reason = "HubConnectionFunctional";
    message =
        "Hub kubeconfig secret "
        <> (ns <> ("/" <> (hub_secret <> (" to apiserver " <> (host <> " is working")))));
  }
  hub_finding ns s host (failed r e) = degraded_by "HubKubeConfigError" (
      "Failed to create "
      <> (L.show_review r
          <> (" with hub config secret "
              <> (quoted s.namespace
                  <> ("/"
                      <> (quoted s.name
                          <> (" to apiserver " <> (host <> (": " <> L.error_text e)))))))))
  hub_finding ns s host (denied r) = degraded_by "HubKubeConfigUnauthorized" (
      "Operation for resource "
      <> (L.show_attributes r
          <> (" is not allowed with hub config secret "
              <> (quoted s.namespace <> ("/" <> (quoted s.name <> (" to apiserver " <> host)))))))

  -- The cluster's name, of the klusterlet or else of the secret.
  unfoldable pub cluster_name_of : String → Secret → Option String
  cluster_name_of name s = if name == "" then Dict.lookup "cluster-name" s.contents else some name

  unfoldable pub hub_named : String → Secret → A → String → Option String → Finding
  unfolding hub_finding
  hub_named ns s client host none = degraded_by "ClusterNameMissing" (
      "Failed to get cluster name from `kubectl get secret -n "
      <> (quoted s.namespace
          <> (" "
              <> (quoted s.name
                  <> (" -ojsonpath='{.data.cluster-name}`."
                      <> " This is set by the klusterlet registration deployment.")))))
  hub_named ns s client host (some name) =
      hub_finding ns s host
        (create_self_subject_access_reviews (L.create_review client) (get_hub_config_ssars name))

  unfoldable pub hub_built : KlusterletAgent → Secret → Result (A × String) → Finding
  unfolding hub_named cluster_name_of
  hub_built agent s (err e) = degraded_by "HubKubeConfigError" (
      "Failed to build hub kube client with hub config secret "
      <> (quoted s.namespace <> (" " <> (quoted s.name <> (": " <> L.error_text e)))))
  hub_built agent s (ok (client, host)) =
      hub_named agent.namespace s client host (cluster_name_of agent.cluster_name s)

  unfoldable pub hub_kubeconfig : KlusterletAgent → Secret → Option String → Finding
  unfolding hub_built build_kube_client_with_secret
  hub_kubeconfig agent s none = degraded_by "HubKubeConfigMissing" (
      "Failed to get kubeconfig from `kubectl get secret -n "
      <> (quoted s.namespace
          <> (" "
              <> (quoted s.name
                  <> (" -ojsonpath='{.data.kubeconfig}'`. This is set by the klusterlet"
                      <> (" registration deployment, but the CSR must be approved by the"
                          <> " cluster-admin on the hub."))))))
  hub_kubeconfig agent s (some text) = hub_built agent s (build_kube_client_with_secret s)

  unfoldable pub hub_got : KlusterletAgent → Result Secret → Finding
  unfolding hub_kubeconfig
  hub_got agent (err e) = degraded_by "HubKubeConfigSecretMissing" (
      "Failed to get hub kubeconfig secret "
      <> (quoted agent.namespace <> (" " <> (quoted hub_secret <> (": " <> L.error_text e)))))
  hub_got agent (ok s) = hub_kubeconfig agent s (Dict.lookup "kubeconfig" s.contents)

  unfoldable pub check_hub_config_secret :
      (String → String → Result Secret) → KlusterletAgent → Finding
  unfolding hub_got
  check_hub_config_secret get agent = hub_got agent (get agent.namespace hub_secret)

  unfoldable pub check_agent_degraded_condition : String → ℕ → Finding → Condition
  check_agent_degraded_condition title generation f = record {
    title = title;
    holds = f.degraded;
    observed_generation = generation;
    reason = f.reason;
    message = f.message;
  }

  -- The condition that one round reports: `get` answers the first check, `get'` the second.
  unfoldable pub hub_condition :
      (String → String → Result Secret)
      → (String → String → Result Secret)
      → KlusterletAgent
      → ℕ
      → Condition
  unfolding check_agent_degraded_condition check_hub_config_secret check_bootstrap_secret
  hub_condition get get' agent generation =
      let hub =
        check_agent_degraded_condition hub_connection_degraded generation
          (check_hub_config_secret get agent) in
      let boot =
        check_agent_degraded_condition hub_connection_degraded generation
          (check_bootstrap_secret get' agent) in
      if hub.holds
      then record {
        title = hub_connection_degraded;
        holds = true;
        observed_generation = generation;
        reason = boot.reason <> ("," <> hub.reason);
        message = boot.message <> ("\n" <> hub.message);
      }
      else hub
