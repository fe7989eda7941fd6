-- ===== src/Klusterlet.antt =====
-- pkg/operators/klusterlet/controllers/klusterletcontroller: the deletion of a klusterlet and what it
-- takes off the managed and the management cluster, and in Controller the controller of the agents.
pub mod Connectivity
pub mod Teardown
pub mod Cleanup
mod Controller
mod Tests
use registration_operator.Common.{
  String, Bool, true, false, List, [], ◌∷◌, ◌||◌, ◌==◌, string_eq, if◌then◌else◌, contains,
}
use registration_operator.Common.Dict.{Dict}
use registration_operator.Helpers.Klusterlets.{InstallMode}

abbrev pub klusterlet_finalizer : String
klusterlet_finalizer = "operator.open-cluster-management.io/klusterlet-cleanup"

abbrev pub klusterlet_hosted_finalizer : String
klusterlet_hosted_finalizer = "operator.open-cluster-management.io/klusterlet-hosted-cleanup"

abbrev pub eviction_annotation : String
eviction_annotation = "operator.open-cluster-management.io/managed-resources-eviction-timestamp"

-- The fields of a Klusterlet that its deletion reads or writes. A nil map of annotations is empty.
-- `ready_to_apply` is whether the condition of that name is true.
pub record Object : Type 0 where
  pub name : String
  pub uid : String
  pub namespace : String
  pub mode : InstallMode
  pub deleting : Bool
  pub ready_to_apply : Bool
  pub finalizers : List String
  pub annotations : Dict String

unfoldable pub has_finalizer : Object → String → Bool
has_finalizer k f = contains k.finalizers f

-- The loop of `removeKlusterletFinalizers`.
unfoldable pub without_finalizers : List String → List String
without_finalizers [] = []
without_finalizers (f ∷ fs) =
    let rest = without_finalizers fs in
    if f == klusterlet_finalizer || f == klusterlet_hosted_finalizer then rest else f ∷ rest
