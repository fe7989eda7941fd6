-- ===== src/Status/Tests.antt =====
-- Runs of the status controllers.
use registration_operator.Common.{
  String, ◌≡◌, ◌↔◌, refl, true, some, Error, Result, ok, err, not_found, All, arith, ◌==◌,
  string_eq, if◌then◌else◌,
}
use registration_operator.Status.{
  Deployment, desired_replicas, num_of_unavailable_pod, check_agent_deployment_desired,
  check_agents_deployment_available, agents_of,
}
use registration_operator.Status.Laws.{Runs, available_iff, healthy_available}

abbrev texts : Error → String
texts _ = "error"

abbrev one : Deployment
one = record { replicas = some 1; available_replicas = 1 }

abbrev half : Deployment
half = record { replicas = some 3; available_replicas = 2 }

abbrev answer : String → String → Result Deployment
answer ns name =
    if name == "k-registration-agent"
    then ok one
    else if name == "k-work-agent"
    then ok half
    else err (not_found name)

abbrev healthy : String → String → Result Deployment
healthy ns name = ok one

counted : num_of_unavailable_pod half ≡ 1
unfolding num_of_unavailable_pod
counted = refl

available_iff_example :
    ((check_agents_deployment_available texts answer (agents_of texts "agent" "k")).holds ≡ true)
    ↔ All (Runs texts answer) (agents_of texts "agent" "k")
available_iff_example = available_iff texts answer (agents_of texts "agent" "k")

healthy_available_example :
    (check_agents_deployment_available texts healthy (agents_of texts "agent" "k")).holds ≡ true
unfolding check_agent_deployment_desired num_of_unavailable_pod desired_replicas
healthy_available_example =
    healthy_available texts healthy "agent" "k" (λ d n h. ground arith) refl refl
