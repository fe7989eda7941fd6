-- ===== src/Status/Sync.antt =====
-- The `sync` of both status controllers. The conditions carry the generation that was observed.
mod Tests
use registration_operator.Common.{
  String, ◌<>◌, ℕ, Bool, Option, none, some, List, [], ◌∷◌, map, Error, Result, ok, err, error_of,
  is_not_found, if◌then◌else◌, ◌==◌, string_eq,
}
use registration_operator.Helpers.Klusterlets.{
  InstallMode, agent_namespace, cluster_manager_namespace,
}
use registration_operator.Helpers.Klusterlets
use registration_operator.Helpers.StatusUpdates.{Status, Client, Conditions, update_condition_fn}
use registration_operator.Helpers.StatusUpdates.Retry.{
  Retry, update_klusterlet_status, update_cluster_manager_status,
}
use registration_operator.Status.{
  Condition, Deployment, klusterlet_conditions, update_status_of_registration,
  update_status_of_placement,
}

pub record Observed : Type 0 where
  pub condition : Condition
  pub observed_generation : ℕ

-- What the API machinery and the client of the objects do; `error_text` is the `Error` method.
pub record Reporting (R : Type 0) : Type 1 where
  pub objects : Client Observed R
  pub conditions : Conditions Observed
  pub same : Status Observed R → Status Observed R → Bool
  pub retry : Retry objects.State (Status Observed R × Bool)
  pub error_text : Error → String

-- `c.ObservedGeneration = generation`
unfoldable pub observed : ℕ → List Condition → List Observed
observed generation [] = []
observed generation (c ∷ cs) =
    record { condition = c; observed_generation = generation } ∷ observed generation cs

module _ {R : Type 0} (P : Reporting R) where
  -- `get` answers the first check of the klusterlet's deployments, `get'` the two others.
  unfoldable pub klusterlet_reported :
      (String → String → Result Deployment)
      → (String → String → Result Deployment)
      → String
      → Klusterlets.Klusterlet
      → ℕ
      → P.objects.State
      → Option Error × P.objects.State
  unfolding observed
  klusterlet_reported get get' key k generation w =
      let (r, w') =
        update_klusterlet_status P.conditions P.same P.objects P.retry
          (update_condition_fn P.conditions (
              observed generation
                (klusterlet_conditions P.error_text get get' (agent_namespace k) k.name))
            ∷ [])
          key w in
      (error_of r, w')

  klusterlet_found :
      (String → String → Result Deployment)
      → (String → String → Result Deployment)
      → String
      → Result (Klusterlets.Klusterlet × ℕ)
      → P.objects.State
      → Option Error × P.objects.State
  unfolding klusterlet_reported
  klusterlet_found get get' key (err e) w = if is_not_found e then (none, w) else (some e, w)
  klusterlet_found get get' key (ok (k, generation)) w =
      klusterlet_reported get get' key k generation w

  -- `found` is the lister's answer for a key: a klusterlet and its generation.
  unfoldable pub klusterlet_sync :
      (String → String → Result Deployment)
      → (String → String → Result Deployment)
      → (String → Result (Klusterlets.Klusterlet × ℕ))
      → String
      → P.objects.State
      → Option Error × P.objects.State
  unfolding klusterlet_found
  klusterlet_sync get get' found key w =
      if key == "" then (none, w) else klusterlet_found get get' key (found key) w

  -- `get` is the lister of the hub's deployments.
  unfoldable pub cluster_manager_reported :
      (String → String → Result Deployment)
      → String
      → Klusterlets.ClusterManager
      → ℕ
      → P.objects.State
      → Option Error × P.objects.State
  unfolding observed
  cluster_manager_reported get key cm generation w =
      let ns = cluster_manager_namespace cm.name cm.mode in
      let (r, w') =
        update_cluster_manager_status P.conditions P.same P.objects P.retry
          (update_condition_fn P.conditions (
              observed generation (
                update_status_of_registration P.error_text get cm.name ns
                ∷ update_status_of_placement P.error_text get cm.name ns
                ∷ []))
            ∷ [])
          key w in
      (error_of r, w')

  -- The outcome is `none` where the code panics: it reads the mode of a cluster manager that the lister
  -- did not give before it looks at the error.
  cluster_manager_found :
      (String → String → Result Deployment)
      → String
      → Result (Klusterlets.ClusterManager × ℕ)
      → P.objects.State
      → Option (Option Error × P.objects.State)
  unfolding cluster_manager_reported
  cluster_manager_found get key (err e) w = if is_not_found e then some (none, w) else none
  cluster_manager_found get key (ok (cm, generation)) w =
      some (cluster_manager_reported get key cm generation w)

  unfoldable pub cluster_manager_sync :
      (String → String → Result Deployment)
      → (String → Result (Klusterlets.ClusterManager × ℕ))
      → String
      → P.objects.State
      → Option (Option Error × P.objects.State)
  unfolding cluster_manager_found
  cluster_manager_sync get found key w =
      if key == "" then some (none, w) else cluster_manager_found get key (found key) w
