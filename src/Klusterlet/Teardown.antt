-- ===== src/Klusterlet/Teardown.antt =====
-- The `clean` methods of klusterlet_runtime_reconcile.go, klusterlet_managed_reconcile.go and
-- klusterlet_management_recocile.go. Each gives its error; the state to stop goes with an error.
pub mod Requests
pub mod Steps
use registration_operator.Common.{
  String, ◌<>◌, ◌==◌, string_eq, Bool, true, false, ◌&&◌, not, Option, none, some, List, [], ◌∷◌,
  ◌++◌, Error, failure, Result, ok, err, is_not_found, if◌then◌else◌, cons_error, Aggregate,
  contains,
}
use registration_operator.Helpers.Klusterlets.{
  InstallMode, default_mode, hosted_mode, other_install_mode, klusterlet_namespace, agent_namespace,
}
use registration_operator.Helpers.Related.{Kind, deployment, secret, namespace}
use registration_operator.Helpers.Related
use registration_operator.Helpers.Deletion.{Eraser, unless_absent, clean_up_static_object}
use registration_operator.Klusterlet.{Object, has_finalizer, klusterlet_hosted_finalizer}

-- The cluster that a request goes to. In default mode both are the same one.
pub data Side : Type 0 where
  managed management : Side

pub record Work : Type 0 where
  pub name : String
  pub agent_id : String
  pub finalizers : List String

-- The API servers, which the code only calls.
pub record Cluster : Type 1 where
  pub State : Type 0
  pub delete : State → Side → Kind → String → String → Option Error × State
  pub list_works : State → Result (List Work)
  pub update_work : State → Work → Result Work × State
  pub get_klusterlet : State → String → Result Object
  pub update_klusterlet : State → Object → Result Object × State

-- What `klusterletConfig` says of a klusterlet that is being deleted.
pub record Config : Type 0 where
  pub klusterlet_name : String
  pub klusterlet_namespace : String
  pub agent_namespace : String
  pub mode : InstallMode

-- What the static manifests decode to, in the order of the lists of files.
pub record Manifests : Type 0 where
  pub managed_static : List (Result Related.Object)
  pub kube111_static : List (Result Related.Object)
  pub management_static : List (Result Related.Object)

abbrev pub is_hosted : InstallMode → Bool
is_hosted hosted_mode = true
is_hosted default_mode = false
is_hosted (other_install_mode _) = false

abbrev pub hub_kube_config_secret : String
hub_kube_config_secret = "hub-kubeconfig-secret"

abbrev pub work_finalizer : String
work_finalizer = "cluster.open-cluster-management.io/applied-manifest-work-cleanup"

-- `removeFinalizer`: the rest of the list.
unfoldable pub remove_finalizer : String → List String → List String
remove_finalizer f [] = []
remove_finalizer f (g ∷ gs) = let rest = remove_finalizer f gs in if g == f then rest else g ∷ rest

-- `if err != nil { return err }`
infixr 20 ◌then_do◌
abbrev pub ◌then_do◌ {ℓ} :
    {S : Type ℓ} → Option Error × S → (S → Option Error × S) → Option Error × S
(some e, t) then_do next = (some e, t)
(none, t) then_do next = next t

module _ (C : Cluster) where
  unfoldable pub request_delete : Side → Kind → String → String → C.State → Option Error × C.State
  request_delete side k ns n t = unless_absent (C.delete t side k ns n)

  -- The loops that delete objects of one kind by name.
  unfoldable pub delete_each : Side → Kind → String → List String → C.State → Option Error × C.State
  unfolding request_delete
  delete_each side k ns [] t = (none, t)
  delete_each side k ns (n ∷ ns') t = request_delete side k ns n t then_do delete_each side k ns ns'

  unfoldable pub eraser : Side → Eraser C.State
  eraser side = record { delete = λ t k ns n. C.delete t side k ns n }

  unfoldable pub remove_static_resources :
      Side → Bool → List (Result Related.Object) → C.State → Option Error × C.State
  unfolding eraser clean_up_static_object
  remove_static_resources side ext [] t = (none, t)
  remove_static_resources side ext (o ∷ os) t =
      clean_up_static_object (eraser side) ext false o t then_do remove_static_resources side ext os

  unfoldable pub agent_deployments : Config → List String
  agent_deployments c =
      (c.klusterlet_name <> "-registration-agent") ∷ (c.klusterlet_name <> "-work-agent") ∷ []

  -- `runtimeReconcile.clean`
  unfoldable pub runtime_clean : Config → C.State → Option Error × C.State
  unfolding delete_each agent_deployments
  runtime_clean c t = delete_each management deployment c.agent_namespace (agent_deployments c) t

  unfoldable pub update_answer : Work → Result Work × C.State → Option Error × C.State
  update_answer w (ok _, t) = (none, t)
  update_answer w (err e, t) =
      if is_not_found e then (none, t) else (some (failure "unable to remove finalizer"), t)

  -- One round of the loop of `cleanUpAppliedManifestWorks`.
  unfoldable pub clean_work : String → Work → C.State → Option Error × C.State
  unfolding update_answer
  clean_work uid w t =
      if uid == w.agent_id && contains w.finalizers work_finalizer
      then update_answer w
          (C.update_work t (record w { finalizers = remove_finalizer work_finalizer w.finalizers }))
      else (none, t)

  unfoldable pub clean_works : String → List Work → C.State → List Error × C.State
  unfolding clean_work
  clean_works uid [] t = ([], t)
  clean_works uid (w ∷ ws) t =
      let (e, t') = clean_work uid w t in
      let (es, t'') = clean_works uid ws t' in (cons_error e es, t'')

  unfoldable pub clean_listed :
      Aggregate → String → Result (List Work) → C.State → Option Error × C.State
  unfolding clean_works
  clean_listed A uid (err e) t =
      if is_not_found e
      then (none, t)
      else (some (failure "unable to list AppliedManifestWorks"), t)
  clean_listed A uid (ok ws) t = let (es, t') = clean_works uid ws t in (A.new_aggregate es, t')

  unfoldable pub clean_up_applied_manifest_works :
      Aggregate → String → C.State → Option Error × C.State
  unfolding clean_listed
  clean_up_applied_manifest_works A uid t = clean_listed A uid (C.list_works t) t

  module _ (A : Aggregate) (M : Manifests) where
    unfoldable pub managed_namespaces : Config → C.State → Option Error × C.State
    managed_namespaces c t =
        delete_each managed namespace ""
          (c.klusterlet_namespace ∷ (c.klusterlet_namespace <> "-addon") ∷ []) t

    -- `kubeVersion.Compare("v1.12.0")`, a library call: whether the version is known to be older.
    unfoldable pub managed_steps : Bool → Config → Object → C.State → Option Error × C.State
    unfolding managed_namespaces clean_up_applied_manifest_works remove_static_resources
    managed_steps old c k t = clean_up_applied_manifest_works A k.uid t then_do λ t.
        remove_static_resources managed true M.managed_static t then_do λ t.
        (if old then remove_static_resources managed true M.kube111_static t else (none, t))
        then_do λ t. managed_namespaces c t

    -- `managedReconcile.clean`
    unfoldable pub managed_clean : Bool → Config → Object → C.State → Option Error × C.State
    unfolding managed_steps
    managed_clean old c k t =
        if is_hosted k.mode && not (has_finalizer k klusterlet_hosted_finalizer)
        then (none, t)
        else managed_steps old c k t

    unfoldable pub agent_secrets : Config → List String
    agent_secrets c =
        if is_hosted c.mode
        then hub_kube_config_secret ∷ "external-managed-kubeconfig-registration"
          ∷ "external-managed-kubeconfig-work" ∷ []
        else hub_kube_config_secret ∷ []

    -- In hosted mode the agent namespace goes last.
    unfoldable pub hosted_namespace : Config → C.State → Option Error × C.State
    unfolding request_delete
    hosted_namespace c t =
        if is_hosted c.mode
        then request_delete management namespace "" c.agent_namespace t
        else (none, t)

    -- `managementReconcile.clean`
    unfoldable pub management_clean : Config → C.State → Option Error × C.State
    unfolding delete_each agent_secrets remove_static_resources hosted_namespace
    management_clean c t =
        delete_each management secret c.agent_namespace (agent_secrets c) t then_do λ t.
        remove_static_resources management false M.management_static t then_do λ t.
        hosted_namespace c t
