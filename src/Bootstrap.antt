-- ===== src/Bootstrap.antt =====
-- pkg/operators/klusterlet/controllers/bootstrapcontroller/bootstrapcontroller.go: the agents start
-- anew when the bootstrap kubeconfig changes or the hub kubeconfig expires.
pub mod Laws
mod Reading
mod Tests
use registration_operator.Common.{
  String, ◌<>◌, ℕ, Bool, true, false, ◌||◌, ◌&&◌, not, ltb, Option, none, some, List, [], ◌∷◌, map,
  ◌==◌, string_eq, Error, failure, Result, ok, err, is_not_found, if◌then◌else◌, ◌>>=◌,
}
use registration_operator.Common.Dict
use registration_operator.Common.Dict.{Dict}
use registration_operator.Helpers.Klusterlets.{Klusterlet, agent_namespace}
use registration_operator.Helpers.QueueKeys.{find_klusterlet_by_namespace}
use registration_operator.Helpers.Related.{Kind, deployment, secret}

abbrev pub bootstrap_secret : String
bootstrap_secret = "bootstrap-hub-kubeconfig"

abbrev pub hub_secret : String
hub_secret = "hub-kubeconfig-secret"

-- A cluster of a kubeconfig.
pub record Endpoint : Type 0 where
  pub server : String
  pub certificate_authority_data : String

-- `clientcmdapi.Config`; a context is the name of its cluster.
pub record Kubeconfig : Type 0 where
  pub current_context : String
  pub contexts : Dict String
  pub clusters : Dict Endpoint

pub record Library : Type 0 where
  pub load : String → Result Kubeconfig
  -- The ends of the certificates of a PEM text.
  pub parse_certs_pem : String → Result (List ℕ)
  pub split_key : String → Result (String × String)

pub record Api : Type 1 where
  pub State : Type 0
  pub get_secret : State → String → String → Result (Dict String)
  pub delete : State → Kind → String → String → Option Error × State

abbrev pub or_fail {ℓ} : {T : Type ℓ} → String → Option T → Result T
or_fail what none = err (failure what)
or_fail what (some x) = ok x

-- What a sync does in the end.
pub data Decision : Type 0 where
  nothing reload : Decision
  fails : Error → Decision

module _ (L : Library) where
  unfoldable pub load_kube_config : Dict String → Result Endpoint
  load_kube_config data_ =
      or_fail "unable to get kubeconfig in secret" (Dict.lookup "kubeconfig" data_) >>= λ text.
      L.load text >>= λ config.
      or_fail "unable to get current-context" (Dict.lookup config.current_context config.contexts)
      >>= λ name. or_fail "unable to get current cluster" (Dict.lookup name config.clusters)

  unfoldable pub any_expired : ℕ → List ℕ → Bool
  any_expired now [] = false
  any_expired now (end ∷ ends) = ltb end now || any_expired now ends

  unfoldable pub expired_of : ℕ → List ℕ → Result Bool
  unfolding any_expired
  expired_of now [] = err (failure "there are no certs")
  expired_of now (end ∷ ends) = ok (any_expired now (end ∷ ends))

  unfoldable pub is_hub_kubeconfig_secret_expired : ℕ → Dict String → Result Bool
  unfolding expired_of
  is_hub_kubeconfig_secret_expired now data_ =
      or_fail "there is no cert" (Dict.lookup "tls.crt" data_) >>= λ text.
      L.parse_certs_pem text >>= expired_of now

  unfoldable pub decide_expired : Result Bool → Decision
  decide_expired (err e) = nothing
  decide_expired (ok true) = reload
  decide_expired (ok false) = nothing

  unfoldable pub differs : Endpoint → Endpoint → Bool
  differs a b =
      not (a.server == b.server)
      || not (a.certificate_authority_data == b.certificate_authority_data)

  unfoldable pub compare_endpoints : ℕ → Endpoint → Dict String → Result Endpoint → Decision
  unfolding differs decide_expired
  compare_endpoints now a data_ (err e) = nothing
  compare_endpoints now a data_ (ok b) =
      if differs a b then reload else decide_expired (is_hub_kubeconfig_secret_expired now data_)

  unfoldable pub with_hub : ℕ → Endpoint → Result (Dict String) → Decision
  unfolding compare_endpoints
  with_hub now a (err e) = if is_not_found e then nothing else fails e
  with_hub now a (ok data_) = compare_endpoints now a data_ (load_kube_config data_)

  with_bootstrap : ℕ → Result Endpoint → Result (Dict String) → Decision
  unfolding with_hub
  with_bootstrap now (err e) hub = nothing
  with_bootstrap now (ok a) hub = with_hub now a hub

  -- From the reading of the bootstrap secret to that of the certificates.
  unfoldable pub decide : ℕ → Result (Dict String) → Result (Dict String) → Decision
  unfolding with_bootstrap
  decide now (err e) hub = if is_not_found e then nothing else fails e
  decide now (ok data_) hub = with_bootstrap now (load_kube_config data_) hub

  module _ (C : Api) where
    unfoldable pub after_delete :
        Option Error × C.State → (C.State → Option Error × C.State) → Option Error × C.State
    after_delete (some e, t) next = (some e, t)
    after_delete (none, t) next = next t

    unfoldable pub reload_agents : String → String → C.State → Option Error × C.State
    unfolding after_delete
    reload_agents ns name t = after_delete (C.delete t secret ns hub_secret) λ t.
        after_delete (C.delete t deployment ns (name <> "-registration-agent"))
          λ t. C.delete t deployment ns (name <> "-work-agent")

    unfoldable pub act : String → String → C.State → Decision → Option Error × C.State
    unfolding reload_agents
    act ns name t nothing = (none, t)
    act ns name t (fails e) = (some e, t)
    act ns name t reload = reload_agents ns name t

    unfoldable pub sync_klusterlet : ℕ → String → String → C.State → Option Error × C.State
    unfolding act decide
    sync_klusterlet now ns name t =
        act ns name t
          (decide now (C.get_secret t ns bootstrap_secret) (C.get_secret t ns hub_secret))

    -- The keys that a resync adds to the queue.
    unfoldable pub resync : Result (List Klusterlet) → Option Error × List String
    resync (err e) = (some e, [])
    resync (ok ks) = (none, map (λ k. agent_namespace k <> ("/" <> k.name)) ks)

    sync_split :
        ℕ
        → Result (List Klusterlet)
        → Result (String × String)
        → C.State
        → Option Error × (List String × C.State)
    unfolding resync sync_klusterlet
    sync_split now listed (err e) t = (none, ([], t))
    sync_split now listed (ok (ns, name)) t =
        if ns == "" && name == "key"
        then (let (e, keys) = resync listed in (e, (keys, t)))
        else (let (e, t') = sync_klusterlet now ns name t in (e, ([], t')))

    -- The result, the keys to queue, and the state.
    unfoldable pub sync :
        ℕ → Result (List Klusterlet) → String → C.State → Option Error × (List String × C.State)
    unfolding sync_split
    sync now listed key t =
        if key == "" then (none, ([], t)) else sync_split now listed (L.split_key key) t

key_of : String → Option Klusterlet → String
key_of ns none = ""
key_of ns (some k) = ns <> ("/" <> k.name)

listed_key : String → Option (List Klusterlet) → String
unfolding key_of find_klusterlet_by_namespace
listed_key ns none = ""
listed_key ns (some ks) = key_of ns (find_klusterlet_by_namespace ks ns)

-- `bootstrapSecretQueueKeyFunc`; a lister that fails is `none`.
unfoldable pub bootstrap_secret_queue_key : Option (List Klusterlet) → String → String → String
unfolding listed_key
bootstrap_secret_queue_key lister ns name =
    if name == bootstrap_secret then listed_key ns lister else ""
