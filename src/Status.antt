-- ===== src/Status.antt =====
-- The status controllers: klusterlet_status_controller.go of
-- pkg/operators/klusterlet/controllers/statuscontroller and clustermanager_status_controller.go of
-- pkg/operators/clustermanager/controllers/statuscontroller. `%q` is a pair of quotes round a name;
-- names of objects have no character that it would escape. Status/Sync has the `sync` of both.
pub mod Laws
mod Sync
mod Tests
use registration_operator.Common.{
  String, ◌<>◌, ℕ, ◌-◌, Bool, true, false, ltb, leb, Option, none, some, List, [], ◌∷◌, ◌++◌, Error,
  Result, ok, err, if◌then◌else◌,
}
use registration_operator.Common.Decimal.{decimal, quoted}

-- The fields of a Deployment that are read.
pub record Deployment : Type 0 where
  pub replicas : Option ℕ
  pub available_replicas : ℕ

-- A condition; `holds` is whether its status is true.
pub record Condition : Type 0 where
  pub title : String
  pub holds : Bool
  pub reason : String
  pub message : String

pub record Agent : Type 0 where
  pub deployment_name : String
  pub namespace : String

unfoldable pub desired_replicas : Option ℕ → ℕ
desired_replicas none = 1
desired_replicas (some n) = n

unfoldable pub num_of_unavailable_pod : Deployment → ℕ
unfolding desired_replicas
num_of_unavailable_pod d =
    if leb (desired_replicas d.replicas) d.available_replicas
    then 0
    else desired_replicas d.replicas - d.available_replicas

abbrev named : String → String → String
named ns name = quoted ns <> (" " <> quoted name)

-- `error_text` is the `Error` method of an error.
module _ (error_text : Error → String) where
  failed_get : String → String → String → Bool → String → Error → String → Condition
  failed_get title ns name holds reason e what = record {
    title = title;
    holds = holds;
    reason = reason;
    message = "Failed to get " <> (what <> (" " <> (named ns name <> (": " <> error_text e))));
  }

  desired_of : String → String → String → Result Deployment → Condition
  unfolding num_of_unavailable_pod failed_get
  desired_of ns name title (err e) =
      failed_get title ns name true "GetDeploymentFailed" e "deployment"
  desired_of ns name title (ok d) =
      if ltb 0 (num_of_unavailable_pod d)
      then record {
        title = title;
        holds = true;
        reason = "UnavailablePods";
        message =
            decimal (num_of_unavailable_pod d)
            <> (" of requested instances are unavailable of deployment " <> named ns name);
      }
      else record {
        title = title;
        holds = false;
        reason = "DeploymentsFunctional";
        -- Go dereferences a nil pointer if the number is not set; the server always sets it.
        message = "deployments replicas are desired: " <> decimal (desired_replicas d.replicas);
      }

  -- `get ns name` is the client's answer.
  unfoldable pub check_agent_deployment_desired :
      (String → String → Result Deployment) → String → String → String → Condition
  unfolding desired_of
  check_agent_deployment_desired get ns name title = desired_of ns name title (get ns name)

  no_pods : Agent → Deployment → Condition
  no_pods a d = record {
    title = "Available";
    holds = false;
    reason = "NoAvailablePods";
    message =
        decimal d.available_replicas
        <> (" of requested instances are available of deployment "
            <> named a.namespace a.deployment_name);
  }

  -- The early returns of the loop; `none` is to go on.
  unfoldable pub agent_lacks : Agent → Result Deployment → Option Condition
  unfolding failed_get no_pods
  agent_lacks a (err e) = some (
      failed_get "Available" a.namespace a.deployment_name false "GetDeploymentFailed" e
        "deployment")
  agent_lacks a (ok d) = if leb d.available_replicas 0 then some (no_pods a d) else none

  abbrev commas : List String → String
  commas [] = ""
  commas (t ∷ []) = t
  commas (t ∷ u ∷ ts) = t <> ("," <> commas (u ∷ ts))

  ready : List String → Condition
  ready names = record {
    title = "Available";
    holds = true;
    reason = "klusterletAvailable";
    message = "deployments are ready: " <> commas names;
  }

  unfoldable pub found_lacking : Option Condition → Condition → Condition
  found_lacking none rest = rest
  found_lacking (some c) rest = c

  -- The loop, with the messages so far.
  unfoldable pub check_agents :
      (String → String → Result Deployment) → List String → List Agent → Condition
  unfolding agent_lacks ready found_lacking
  check_agents get names [] = ready names
  check_agents get names (a ∷ agents) =
      found_lacking (agent_lacks a (get a.namespace a.deployment_name))
        (check_agents get (names ++ (a.deployment_name ∷ [])) agents)

  unfoldable pub check_agents_deployment_available :
      (String → String → Result Deployment) → List Agent → Condition
  unfolding check_agents
  check_agents_deployment_available get agents = check_agents get [] agents

  unfoldable pub agents_of : String → String → List Agent
  agents_of ns name =
      record { deployment_name = name <> "-registration-agent"; namespace = ns }
      ∷ record { deployment_name = name <> "-work-agent"; namespace = ns }
      ∷ []

  -- The three conditions of a sync: `get` answers the first check, `get'` the two others.
  unfoldable pub klusterlet_conditions :
      (String → String → Result Deployment)
      → (String → String → Result Deployment)
      → String
      → String
      → List Condition
  unfolding check_agents_deployment_available check_agent_deployment_desired agents_of
  klusterlet_conditions get get' ns name =
      check_agents_deployment_available get (agents_of ns name)
      ∷ check_agent_deployment_desired get' ns (name <> "-registration-agent")
          "RegistrationDesiredDegraded"
      ∷ check_agent_deployment_desired get' ns (name <> "-work-agent") "WorkDesiredDegraded"
      ∷ []

  hub_status : String → String → String → String → String → String → Result Deployment → Condition
  unfolding failed_get num_of_unavailable_pod
  hub_status ns name title what part good (err e) =
      failed_get title ns name true ("Get" <> (part <> "DeploymentFailed")) e
        (what <> " deployment")
  hub_status ns name title what part good (ok d) =
      if ltb 0 (num_of_unavailable_pod d)
      then record {
        title = title;
        holds = true;
        reason = "Unavailable" <> (part <> "Pod");
        message =
            decimal (num_of_unavailable_pod d)
            <> (" of requested instances are unavailable of "
                <> (what <> (" deployment " <> named ns name)));
      }
      else record { title = title; holds = false; reason = part <> "Functional"; message = good }

  unfoldable pub update_status_of_registration :
      (String → String → Result Deployment) → String → String → Condition
  unfolding hub_status
  update_status_of_registration get name ns =
      hub_status ns (name <> "-registration-controller") "HubRegistrationDegraded" "registration"
        "Registration" "Registration is managing credentials"
        (get ns (name <> "-registration-controller"))

  unfoldable pub update_status_of_placement :
      (String → String → Result Deployment) → String → String → Condition
  unfolding hub_status
  update_status_of_placement get name ns =
      hub_status ns (name <> "-placement-controller") "HubPlacementDegraded" "placement" "Placement"
        "Placement is scheduling placement decisions" (get ns (name <> "-placement-controller"))
