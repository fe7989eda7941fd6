-- ===== src/Helpers/Related.antt =====
-- The related resources of a status, and the clean-up of static objects, of
-- pkg/helpers/helpers.go. The codec is a parameter: a manifest decodes to an `Object`.
pub mod Laws
use registration_operator.Common.{
  String, Bool, true, false, Option, none, some, List, [], ◌∷◌, ◌++◌, ◌==◌, if◌then◌else◌, Error,
  failure, Result, ok, err, is_not_found, ◌>>=◌,
}
use registration_operator.Helpers.Objects.{ObjectKey, key_eq}

-- The types that the two switches name, and those of the codec that they do not.
pub data Kind : Type 0 where
  validating_webhook mutating_webhook api_service deployment namespace endpoints service : Kind
  pod service_account config_map secret cluster_role cluster_role_binding role : Kind
  role_binding crd_v1beta1 crd_v1 other : Kind

-- A decoded manifest: its Go type and its name.
pub record Object : Type 0 where
  pub kind : Kind
  pub namespace : String
  pub name : String

-- `SchemeGroupVersion` of the packages of k8s.io/api, a library constant for each type.
pub record GroupVersion : Type 0 where
  pub group : String
  pub version : String

abbrev pub resource_of : Kind → Option String
resource_of validating_webhook = some "validatingwebhookconfigurations"
resource_of mutating_webhook = some "mutatingwebhookconfigurations"
resource_of api_service = some "apiservices"
resource_of deployment = some "deployments"
resource_of namespace = some "namespaces"
resource_of endpoints = some "endpoints"
resource_of service = some "services"
resource_of pod = some "pods"
resource_of service_account = some "serviceaccounts"
resource_of config_map = some "configmaps"
resource_of secret = some "secrets"
resource_of cluster_role = some "clusterroles"
resource_of cluster_role_binding = some "clusterrolebindings"
resource_of role = some "roles"
resource_of role_binding = some "rolebindings"
resource_of crd_v1beta1 = some "customresourcedefinitions"
resource_of crd_v1 = some "customresourcedefinitions"
resource_of other = none

unfoldable pub find_related_resources_status : List ObjectKey → ObjectKey → Option ObjectKey
find_related_resources_status [] r = none
find_related_resources_status (x ∷ xs) r =
    if x == r then some x else find_related_resources_status xs r

unfoldable pub remove_related_resources_status : List ObjectKey → ObjectKey → List ObjectKey
remove_related_resources_status [] r = []
remove_related_resources_status (x ∷ xs) r =
    let rest = remove_related_resources_status xs r in if x == r then rest else x ∷ rest

unfoldable pub set_related_resources_statuses : List ObjectKey → ObjectKey → List ObjectKey
unfolding find_related_resources_status
set_related_resources_statuses xs r = elim (find_related_resources_status xs r) [
  | none ↦ xs ++ (r ∷ [])
  | some _ ↦ xs
]

unfoldable pub remove_related_resources_statuses : List ObjectKey → ObjectKey → List ObjectKey
unfolding find_related_resources_status remove_related_resources_status
remove_related_resources_statuses xs r = elim (find_related_resources_status xs r) [
  | none ↦ xs
  | some _ ↦ remove_related_resources_status xs r
]

module _ (group_version : Kind → GroupVersion) where
  new_related_resource : GroupVersion → String → Object → ObjectKey
  new_related_resource gv resource o = record {
    group = gv.group;
    version = gv.version;
    resource = resource;
    namespace = o.namespace;
    name = o.name;
  }

  related_of : Object → Option String → Result ObjectKey
  unfolding new_related_resource
  related_of o none = err (failure "unhandled type")
  related_of o (some resource) = ok (new_related_resource (group_version o.kind) resource o)

  module _ {B : Type 0} (decode : B → Result Object) where
    unfoldable pub generate_related_resource : B → Result ObjectKey
    unfolding related_of
    generate_related_resource b = decode b >>= λ o. related_of o (resource_of o.kind)

    set_generated : List ObjectKey → Result ObjectKey → List ObjectKey
    unfolding set_related_resources_statuses
    set_generated xs (err e) = xs
    set_generated xs (ok r) = set_related_resources_statuses xs r

    -- An object that cannot be decoded is logged and skipped.
    unfoldable pub set_related_resources_statuses_with_obj : List ObjectKey → B → List ObjectKey
    unfolding generate_related_resource set_generated
    set_related_resources_statuses_with_obj xs b = set_generated xs (generate_related_resource b)

    remove_generated : List ObjectKey → Result ObjectKey → List ObjectKey
    unfolding remove_related_resources_statuses
    remove_generated xs (err e) = xs
    remove_generated xs (ok r) = remove_related_resources_statuses xs r

    unfoldable pub remove_related_resources_statuses_with_obj : List ObjectKey → B → List ObjectKey
    unfolding generate_related_resource remove_generated
    remove_related_resources_statuses_with_obj xs b =
        remove_generated xs (generate_related_resource b)

-- `UpdateClusterManagerRelatedResourcesFn` and `UpdateKlusterletRelatedResourcesFn`: the status
-- gets the given list, whether or not the two differ.
abbrev pub update_related_resources : List ObjectKey → List ObjectKey → List ObjectKey
update_related_resources given old = given
