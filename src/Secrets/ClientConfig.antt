-- ===== src/Secrets/ClientConfig.antt =====
-- `LoadClientConfigFromSecret` and `GetHubKubeconfig` of pkg/helpers/helpers.go. `clientcmd` is a
-- parameter; only the fields that the code reads or writes are there.
use registration_operator.Common.{
  String, ◌<>◌, Bool, false, Option, none, some, failure, Result, ok, err, ◌>>=◌, if◌then◌else◌,
  ◌==◌, string_eq,
}
use registration_operator.Common.Decimal.{quoted}
use registration_operator.Common.Dict
use registration_operator.Common.Dict.{Dict}
use registration_operator.Helpers.Klusterlets.{
  InstallMode, hosted_mode, default_mode, other_install_mode, cluster_manager_namespace,
}
use registration_operator.Secrets.{Secret}

pub record AuthInfo : Type 0 where
  pub client_certificate : String
  pub client_certificate_data : String
  pub client_key : String
  pub client_key_data : String

pub record Context : Type 0 where
  pub cluster : String
  pub auth_info : String

-- A kubeconfig; what a cluster says is not looked at here.
pub record Config (Cluster : Type 0) : Type 0 where
  pub current_context : String
  pub contexts : Dict Context
  pub auth_infos : Dict AuthInfo
  pub clusters : Dict Cluster

abbrev pub external_hub_kubeconfig : String
external_hub_kubeconfig = "external-hub-kubeconfig"

-- `if data, ok := secret.Data[key]; ok && len(...) == 0`
abbrev is_taken : Option String → String → Bool
is_taken none current = false
is_taken (some v) current = current == ""

abbrev taken : Option String → String → String
taken none current = current
taken (some v) current = if current == "" then v else current

unfoldable pub embed : Dict String → AuthInfo → AuthInfo
embed contents a = record {
  client_certificate =
      if is_taken (Dict.lookup "tls.crt" contents) a.client_certificate_data
      then ""
      else a.client_certificate;
  client_certificate_data = taken (Dict.lookup "tls.crt" contents) a.client_certificate_data;
  client_key =
      if is_taken (Dict.lookup "tls.key" contents) a.client_key_data then "" else a.client_key;
  client_key_data = taken (Dict.lookup "tls.key" contents) a.client_key_data;
}

module _ {Cluster Rest : Type 0} (load : String → Result (Config Cluster))
    (client_config : Config Cluster → Result Rest) where
  embedded : Dict String → Config Cluster → String → Option AuthInfo → Config Cluster
  unfolding embed
  embedded contents config user none = config
  embedded contents config user (some a) = record config {
    auth_infos = Dict.insert user (embed contents a) config.auth_infos;
  }

  with_context : Secret → Config Cluster → Option Context → Result Rest
  unfolding embedded
  with_context s config none = err (
      failure (
        "unable to find the current context "
        <> (quoted config.current_context
            <> (" from the kubeconfig in secret "
                <> (quoted s.namespace <> (" " <> quoted s.name))))))
  with_context s config (some c) =
      client_config
        (embedded s.contents config c.auth_info (Dict.lookup c.auth_info config.auth_infos))

  with_kubeconfig : Secret → Option String → Result Rest
  unfolding with_context
  with_kubeconfig s none = err (
      failure
        ("unable to find kubeconfig in secret " <> (quoted s.namespace <> (" " <> quoted s.name))))
  with_kubeconfig s (some text) = load text >>= λ config.
      with_context s config (Dict.lookup config.current_context config.contexts)

  unfoldable pub load_client_config_from_secret : Secret → Result Rest
  unfolding with_kubeconfig
  load_client_config_from_secret s = with_kubeconfig s (Dict.lookup "kubeconfig" s.contents)

  -- `get` is the client of the operator's cluster.
  unfoldable pub get_hub_kubeconfig :
      Rest → (String → String → Result Secret) → String → InstallMode → Result Rest
  unfolding load_client_config_from_secret
  get_hub_kubeconfig own get name hosted_mode =
      get (cluster_manager_namespace name hosted_mode) external_hub_kubeconfig >>= λ s.
      load_client_config_from_secret s
  get_hub_kubeconfig own get name default_mode = ok own
  get_hub_kubeconfig own get name (other_install_mode m) = ok own
