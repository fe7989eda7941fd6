-- ===== src/Manager/Tokens.antt =====
-- `ensureSAKubeconfigs` of clustermanager_controller.go: a kubeconfig secret on the management cluster for
-- each service account of the hub.
use registration_operator.Common.{String, ◌<>◌, ℕ, Option, none, some, List, [], ◌∷◌, Error}
use registration_operator.Secrets.{Client}
use registration_operator.Secrets.Tokens.{
  Library, Accounts, RestConfig, sa_token_creater, sync_kube_config_secret,
}
use registration_operator.Manager.Files.{get_sas}

abbrev pub hub_kubeconfig_path : String
hub_kubeconfig_path = "/var/run/secrets/hub/kubeconfig"

-- The states of `C` are those of both clusters; `now` is the time at which an account's secret is read.
module _ (L : Library) (C : Client) (A : Accounts C.State) (ns : String) (now : String → ℕ)
    (hub : RestConfig) where
  abbrev template : RestConfig
  template = record { host = hub.host; ca_data = hub.ca_data; ca_file = "" }

  next_account :
      Option Error × C.State → (C.State → Option Error × C.State) → Option Error × C.State
  next_account (some e, t) next = (some e, t)
  next_account (none, t) next = next t

  unfoldable pub ensure_each : List String → C.State → Option Error × C.State
  unfolding next_account
  ensure_each [] t = (none, t)
  ensure_each (sa ∷ sas) t =
      next_account
        (sync_kube_config_secret L C (sa_token_creater L A sa ns) template (sa <> "-kubeconfig") ns
          hub_kubeconfig_path (now sa) t)
        (λ t. ensure_each sas t)

  unfoldable pub ensure_sa_kubeconfigs : C.State → Option Error × C.State
  unfolding ensure_each
  ensure_sa_kubeconfigs t = ensure_each get_sas t
