-- ===== src/Klusterlet/Teardown/Steps.antt =====
-- What each `clean` method leaves.
use registration_operator.Common.{
  String, ◌≡◌, refl, ◌<>◌, Bool, true, false, ◌&&◌, not, Option, none, some, List, [], ◌∷◌, Error,
  Aggregate, All,
}
use registration_operator.Helpers.Related.{Kind, deployment, secret, namespace}
use registration_operator.Klusterlet.{Object, has_finalizer, klusterlet_hosted_finalizer}
use registration_operator.Klusterlet.Teardown.{
  Cluster, Config, Manifests, Side, managed, management, ◌then_do◌, is_hosted, delete_each,
  request_delete, agent_deployments, agent_secrets, runtime_clean, managed_clean, managed_steps,
  managed_namespaces, management_clean, hosted_namespace, clean_up_applied_manifest_works,
  remove_static_resources,
}
use registration_operator.Klusterlet.Teardown.Requests.{
  IsLawful, Follows, stays, Follows-trans, dead_stays, then_do-Follows, if-Follows,
  delete_each-Follows, delete_each_dead, request_delete-Follows, request_delete_dead,
  static-Follows, works-Follows,
}

module _ (C : Cluster) (law : IsLawful C) (A : Aggregate) (M : Manifests) where
  pub runtime-Follows : (c : Config) (t : C.State) → Follows C law t (runtime_clean C c t).1
  unfolding runtime_clean
  runtime-Follows c t =
      delete_each-Follows C law management deployment c.agent_namespace (agent_deployments C c) t

  pub runtime_dead :
      (c : Config) (t : C.State)
      → (runtime_clean C c t).0 ≡ none
      → All
          (λ n. law.alive (runtime_clean C c t).1 management deployment c.agent_namespace n ≡ false)
          (agent_deployments C c)
  unfolding runtime_clean
  runtime_dead c t =
      delete_each_dead C law management deployment c.agent_namespace (agent_deployments C c) t

  managed_namespaces-Follows :
      (c : Config) (t : C.State) → Follows C law t (managed_namespaces C A M c t).1
  unfolding managed_namespaces
  managed_namespaces-Follows c t =
      delete_each-Follows C law managed namespace ""
        (c.klusterlet_namespace ∷ (c.klusterlet_namespace <> "-addon") ∷ []) t

  managed_steps-Follows :
      (old : Bool) (c : Config) (k : Object) (t : C.State)
      → Follows C law t (managed_steps C A M old c k t).1
  unfolding managed_steps
  managed_steps-Follows old c k t =
      then_do-Follows C law t (clean_up_applied_manifest_works C A k.uid t) _
        (works-Follows C law A k.uid t)
        λ t.
          then_do-Follows C law t (remove_static_resources C managed true M.managed_static t) _
            (static-Follows C law managed true M.managed_static t)
            λ t.
              then_do-Follows C law t _ _
                (if-Follows C law t old (remove_static_resources C managed true M.kube111_static t)
                  (none, t) (static-Follows C law managed true M.kube111_static t) (stays C law t))
                (managed_namespaces-Follows c)

  pub managed-Follows :
      (old : Bool) (c : Config) (k : Object) (t : C.State)
      → Follows C law t (managed_clean C A M old c k t).1
  unfolding managed_clean
  managed-Follows old c k t =
      if-Follows C law t (is_hosted k.mode && not (has_finalizer k klusterlet_hosted_finalizer))
        (none, t) (managed_steps C A M old c k t) (stays C law t) (managed_steps-Follows old c k t)

  hosted_namespace-Follows :
      (c : Config) (t : C.State) → Follows C law t (hosted_namespace C A M c t).1
  unfolding hosted_namespace
  hosted_namespace-Follows c t =
      if-Follows C law t (is_hosted c.mode)
        (request_delete C management namespace "" c.agent_namespace t) (none, t)
        (request_delete-Follows C law management namespace "" c.agent_namespace t) (stays C law t)

  hosted_namespace_dead :
      (c : Config) (t : C.State)
      → is_hosted c.mode ≡ true
      → (hosted_namespace C A M c t).0 ≡ none
      → law.alive (hosted_namespace C A M c t).1 management namespace "" c.agent_namespace ≡ false
  unfolding hosted_namespace
  hosted_namespace_dead c t hosted h =
      rw hosted
        (request_delete_dead C law management namespace "" c.agent_namespace t (rw hosted at h))

  -- The secrets of the agents, and in hosted mode their namespace.
  abbrev pub ManagementDead : Config → C.State → Type 0
  ManagementDead c t =
      All (λ n. law.alive t management secret c.agent_namespace n ≡ false) (agent_secrets C A M c)
      × (is_hosted c.mode ≡ true → law.alive t management namespace "" c.agent_namespace ≡ false)

  pub management-Follows :
      (c : Config) (t : C.State) → Follows C law t (management_clean C A M c t).1
  unfolding management_clean
  management-Follows c t =
      then_do-Follows C law t
        (delete_each C management secret c.agent_namespace (agent_secrets C A M c) t) _
        (delete_each-Follows C law management secret c.agent_namespace (agent_secrets C A M c) t)
        λ t.
          then_do-Follows C law t (remove_static_resources C management false M.management_static t)
            _ (static-Follows C law management false M.management_static t)
            (hosted_namespace-Follows c)

  -- What holds after two steps without an error.
  pub then_do_none :
      (P : C.State → Type 0) (x : Option Error × C.State) (next : C.State → Option Error × C.State)
      → (x.0 ≡ none → (next x.1).0 ≡ none → P (next x.1).1)
      → (x then_do next).0 ≡ none
      → P (x then_do next).1
  then_do_none P (some e, u) next k h = cc
  then_do_none P (none, u) next k h = k refl h

  pub stay_dead_each :
      {t t' : C.State}
      → ((s : Side) (j : Kind) (ms m : String)
          → law.alive t' s j ms m ≡ true
          → law.alive t s j ms m ≡ true)
      → (side : Side) (k : Kind) (ns : String) (names : List String)
      → All (λ n. law.alive t side k ns n ≡ false) names
      → All (λ n. law.alive t' side k ns n ≡ false) names
  stay_dead_each f side k ns [] h = tt
  stay_dead_each f side k ns (n ∷ names) (p, q) =
      (dead_stays C law f side k ns n p, stay_dead_each f side k ns names q)

  pub management_dead :
      (c : Config) (t : C.State)
      → (management_clean C A M c t).0 ≡ none
      → ManagementDead c (management_clean C A M c t).1
  unfolding management_clean
  management_dead c t =
      then_do_none (ManagementDead c)
        (delete_each C management secret c.agent_namespace (agent_secrets C A M c) t) _
        λ p.
          then_do_none (ManagementDead c)
            (remove_static_resources C management false M.management_static _) _
            λ q r. (
              stay_dead_each
                  ((Follows-trans C law
                    (static-Follows C law management false M.management_static _)
                    (hosted_namespace-Follows c _)).keeps)
                  management secret c.agent_namespace (agent_secrets C A M c)
                  (delete_each_dead C law management secret c.agent_namespace
                    (agent_secrets C A M c) t p),
              λ hosted. hosted_namespace_dead c _ hosted r,
            )
