-- ===== src/Secrets/Addon.antt =====
-- pkg/operators/klusterlet/controllers/addonsecretcontroller/controller.go: the image pull secret is copied
-- to the namespaces of add-ons.
use registration_operator.Common.{
  String, Bool, Option, none, some, [], Error, Result, ok, err, is_not_found, if◌then◌else◌, ◌==◌,
  string_eq,
}
use registration_operator.Common.Dict
use registration_operator.Common.Dict.{Dict}
use registration_operator.Secrets.{Client}
use registration_operator.Secrets.Sync.{sync_secret, value_of}

pub record Namespace : Type 0 where
  pub labels : Dict String
  pub is_deleting : Bool

abbrev pub image_pull_secret : String
image_pull_secret = "open-cluster-management-image-pull-credentials"

-- The filter of events, and the test that a sync repeats.
unfoldable pub has_addon_label : Namespace → Bool
has_addon_label ns =
    value_of (Dict.lookup "addon.open-cluster-management.io/namespace" ns.labels) == "true"

module _ (C : Client) (operator_namespace : String) where
  unfoldable pub sync_found : C.State → String → Result Namespace → Option Error × C.State
  unfolding has_addon_label
  sync_found t key (err e) = if is_not_found e then (none, t) else (some e, t)
  sync_found t key (ok ns) =
      let (outcome, t') =
        sync_secret C key image_pull_secret [] t (C.get t operator_namespace image_pull_secret) in
      if ns.is_deleting
      then (none, t)
      else if has_addon_label ns
      then (outcome.error, t')
      else (none, t)

  -- `found` is the client's answer for the namespace of the key.
  unfoldable pub sync : C.State → String → Result Namespace → Option Error × C.State
  unfolding sync_found
  sync t key found = if key == "" then (none, t) else sync_found t key found
