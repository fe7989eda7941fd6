-- ===== src/Status/Laws.antt =====
-- What the reported conditions say of the deployments.
use registration_operator.Common.{
  String, ◌<>◌, ◌≤◌, ◌<◌, ◌≡◌, refl, ◌↔◌, true, false, Option, none, some, List, [], ◌∷◌, ◌++◌,
  Error, Result, ok, err, All, arith,
}
use registration_operator.Status.{
  Deployment, Condition, Agent, desired_replicas, num_of_unavailable_pod, desired_of,
  check_agent_deployment_desired, agent_lacks, failed_get, no_pods, ready, found_lacking,
  check_agents, check_agents_deployment_available, agents_of,
}

module _ (error_text : Error → String) (get : String → String → Result Deployment) where
  -- A deployment with at least one available pod.
  abbrev pub Runs : Agent → Type 0
  Runs a =
      (d : Deployment) × ((get a.namespace a.deployment_name ≡ ok d) × (0 < d.available_replicas))

  -- A deployment with as many available pods as it asks for; one is the default.
  abbrev pub IsComplete : String → String → Type 0
  IsComplete ns name =
      (d : Deployment) × ((get ns name ≡ ok d)
        × (desired_replicas d.replicas ≤ d.available_replicas))

  lacks_to :
      (a : Agent) (r : Result Deployment)
      → agent_lacks error_text a r ≡ none
      → (d : Deployment) × ((r ≡ ok d) × (0 < d.available_replicas))
  unfolding agent_lacks
  lacks_to a (err e) h = cc
  lacks_to a (ok d) h = (d, (refl, ground arith))

  lacks-holds :
      (a : Agent) (r : Result Deployment) {c : Condition}
      → agent_lacks error_text a r ≡ some c
      → c.holds ≡ false
  unfolding agent_lacks failed_get no_pods
  lacks-holds a (err e) {c} h = ground arith
  lacks-holds a (ok d) {c} h = ground arith

  desired_to :
      (ns name title : String) (r : Result Deployment)
      → (desired_of error_text ns name title r).holds ≡ false
      → (d : Deployment) × ((r ≡ ok d) × (desired_replicas d.replicas ≤ d.available_replicas))
  unfolding desired_of failed_get num_of_unavailable_pod
  desired_to ns name title (err e) h = cc
  desired_to ns name title (ok d) h = (d, (refl, ground arith))

  desired_from :
      (ns name title : String) (d : Deployment)
      → desired_replicas d.replicas ≤ d.available_replicas
      → (desired_of error_text ns name title (ok d)).holds ≡ false
  unfolding desired_of num_of_unavailable_pod
  desired_from ns name title d h = ground arith

  -- The condition of one agent is not degraded exactly if its deployment can be read and has as many
  -- available pods as it asks for.
  pub desired_iff :
      (ns name title : String)
      → ((check_agent_deployment_desired error_text get ns name title).holds ≡ false)
        ↔ IsComplete ns name
  unfolding check_agent_deployment_desired
  desired_iff ns name title = (
    desired_to ns name title (get ns name),
    λ (d, (found, enough)). rw found (desired_from ns name title d enough),
  )

  found_lacking-true :
      (v : Option Condition) (rest : Condition)
      → ((c : Condition) → v ≡ some c → c.holds ≡ false)
      → (found_lacking error_text v rest).holds ≡ true
      → (v ≡ none) × (rest.holds ≡ true)
  unfolding found_lacking
  found_lacking-true none rest k h = (refl, h)
  found_lacking-true (some c) rest k h = let p = k c refl in cc

  runs-lacks :
      (a : Agent) (d : Deployment)
      → 0 < d.available_replicas
      → agent_lacks error_text a (ok d) ≡ none
  unfolding agent_lacks
  runs-lacks a d h = ground arith

  check_to :
      (names : List String) (agents : List Agent)
      → (check_agents error_text get names agents).holds ≡ true
      → All Runs agents
  unfolding check_agents
  check_to names [] h = tt
  check_to names (a ∷ agents) h =
      let (v, rest) =
        found_lacking-true (agent_lacks error_text a (get a.namespace a.deployment_name)) _
          (λ c. lacks-holds a (get a.namespace a.deployment_name)) h in
      (lacks_to a (get a.namespace a.deployment_name) v, check_to _ agents rest)

  check_from :
      (names : List String) (agents : List Agent)
      → All Runs agents
      → (check_agents error_text get names agents).holds ≡ true
  unfolding check_agents ready found_lacking
  check_from names [] h = refl
  check_from names (a ∷ agents) ((d, (found, up)), rest) =
      rw (found, runs-lacks a d up) (check_from (names ++ (a.deployment_name ∷ [])) agents rest)

  -- The klusterlet is available exactly if each agent's deployment can be read and has a pod.
  pub available_iff :
      (agents : List Agent)
      → ((check_agents_deployment_available error_text get agents).holds ≡ true) ↔ All Runs agents
  unfolding check_agents_deployment_available
  available_iff agents = (check_to [] agents, check_from [] agents)

  -- If neither agent is degraded, and each deployment asks for a pod, the klusterlet is available.
  pub healthy_available :
      (ns name : String)
      → ((d : Deployment) (n : String) → get ns n ≡ ok d → 0 < desired_replicas d.replicas)
      → (check_agent_deployment_desired error_text get ns
          (name <> "-registration-agent")
          "RegistrationDesiredDegraded").holds
        ≡ false
      → (check_agent_deployment_desired error_text get ns
          (name <> "-work-agent")
          "WorkDesiredDegraded").holds
        ≡ false
      → (check_agents_deployment_available error_text get (agents_of error_text ns name)).holds
        ≡ true
  unfolding agents_of
  healthy_available ns name asks registration work =
      let (d, (found, enough)) =
        (desired_iff ns (name <> "-registration-agent") "RegistrationDesiredDegraded").0
          registration in
      let (e, (found', enough')) =
        (desired_iff ns (name <> "-work-agent") "WorkDesiredDegraded").0 work in
      let p = asks d (name <> "-registration-agent") found in
      let q = asks e (name <> "-work-agent") found' in
      (available_iff (agents_of error_text ns name)).1
        ((d, (found, omega arith)), ((e, (found', omega arith)), tt))
