-- ===== src/Helpers/Deletion.antt =====
-- `CleanUpStaticObject` of pkg/helpers/helpers.go.
use registration_operator.Common.{
  String, Bool, true, false, Option, none, some, Error, failure, Result, ok, err, is_not_found,
  if◌then◌else◌,
}
use registration_operator.Helpers.Related.{
  Kind, Object, validating_webhook, mutating_webhook, api_service, deployment, namespace, endpoints,
  service, pod, service_account, config_map, secret, cluster_role, cluster_role_binding, role,
  role_binding, crd_v1beta1, crd_v1, other,
}

-- The `Delete` calls of the typed clients; the namespace is empty for a kind without one.
pub record Eraser (State : Type 0) : Type 0 where
  pub delete : State → Kind → String → String → Option Error × State

-- `if errors.IsNotFound(err) { return nil }`
abbrev pub unless_absent {ℓ} : {S : Type ℓ} → Option Error × S → Option Error × S
unless_absent (none, t) = (none, t)
unless_absent (some e, t) = if is_not_found e then (none, t) else (some e, t)

module _ {State : Type 0} (D : Eraser State) where
  unfoldable pub with_client : Bool → State → Kind → String → Option Error × State
  with_client true t k n = D.delete t k "" n
  with_client false t k n = (some (failure "the client is nil"), t)

  -- The switch on the type; the flags are whether the two special clients are given.
  unfoldable pub delete_static : Bool → Bool → State → Kind → String → String → Option Error × State
  unfolding with_client
  delete_static ext reg t namespace ns n = D.delete t namespace "" n
  delete_static ext reg t deployment ns n = D.delete t deployment ns n
  delete_static ext reg t endpoints ns n = D.delete t endpoints ns n
  delete_static ext reg t service ns n = D.delete t service ns n
  delete_static ext reg t service_account ns n = D.delete t service_account ns n
  delete_static ext reg t config_map ns n = D.delete t config_map ns n
  delete_static ext reg t secret ns n = D.delete t secret ns n
  delete_static ext reg t cluster_role ns n = D.delete t cluster_role "" n
  delete_static ext reg t cluster_role_binding ns n = D.delete t cluster_role_binding "" n
  delete_static ext reg t role ns n = D.delete t role ns n
  delete_static ext reg t role_binding ns n = D.delete t role_binding ns n
  delete_static ext reg t crd_v1 ns n = with_client ext t crd_v1 n
  delete_static ext reg t crd_v1beta1 ns n = with_client ext t crd_v1beta1 n
  delete_static ext reg t api_service ns n = with_client reg t api_service n
  delete_static ext reg t validating_webhook ns n = D.delete t validating_webhook "" n
  delete_static ext reg t mutating_webhook ns n = D.delete t mutating_webhook "" n
  delete_static ext reg t pod ns n = (some (failure "unhandled type"), t)
  delete_static ext reg t other ns n = (some (failure "unhandled type"), t)

  -- The second argument is what the manifest of the file decodes to.
  unfoldable pub clean_up_static_object : Bool → Bool → Result Object → State → Option Error × State
  unfolding delete_static
  clean_up_static_object ext reg (err e) t = (some e, t)
  clean_up_static_object ext reg (ok o) t =
      unless_absent (delete_static ext reg t o.kind o.namespace o.name)
