-- ===== src/Manager/Reconcile/Definitions.antt =====
-- clustermanager_crd_reconcile.go: the definitions of custom resources on the hub.
use registration_operator.Common.{
  String, ◌<>◌, Bool, true, false, Option, none, some, List, [], ◌∷◌, Error, string_eq,
}
use registration_operator.Crd
use registration_operator.Crd.{Manager}
use registration_operator.Manager.Config.{HubConfig}
use registration_operator.Manager.Files.{crd_names, hub_crd_resource_files}
use registration_operator.Manager.Reconcile.{
  ClusterManager, Outcome, Codec, Library, manifest_set, stopped, continued, apply_failed,
}

module _ {M H E O B Sp N D : Type 0} (m : Manager Sp) (F : Codec M H E O B Sp N D)
    (L : Library M H E B m.client.State N D) where
  if_failed : ClusterManager N → Option Error → Outcome N
  unfolding apply_failed
  if_failed cm none = continued m F L cm
  if_failed cm (some e) =
      apply_failed m F L cm "CRDApplyFaild" ("Failed to apply crd: " <> L.error_text e) (some e)

  unfoldable pub crd_reconcile :
      ClusterManager N → HubConfig → m.client.State → Outcome N × m.client.State
  unfolding if_failed manifest_set
  crd_reconcile cm config t =
      let (e, t', related) =
        Crd.apply m (manifest_set m F L config) F.crd L.aggregate hub_crd_resource_files t
          cm.related_resources in
      (if_failed (record cm { related_resources = related }) e, t')

  abbrev after_one :
      Option Error × m.client.State
      → (m.client.State → Option Error × m.client.State)
      → Option Error × m.client.State
  after_one (some e, t) next = (some e, t)
  after_one (none, t) next = next t

  unfoldable pub clean_each : Bool → List String → m.client.State → Option Error × m.client.State
  clean_each skip [] t = (none, t)
  clean_each skip (name ∷ names) t =
      after_one (Crd.clean_one m t name skip) (λ t. clean_each skip names t)

  crd_clean_files :
      Bool → ClusterManager N → HubConfig → m.client.State → Outcome N × m.client.State
  unfolding manifest_set
  crd_clean_files true cm config t = (continued m F L cm, t)
  crd_clean_files false cm config t =
      let (e, t', related) =
        Crd.clean m (manifest_set m F L config) F.crd L.aggregate false hub_crd_resource_files t
          cm.related_resources in
      (cleaned (record cm { related_resources = related }) e, t')
    where
      cleaned : ClusterManager N → Option Error → Outcome N
      cleaned cm none = continued m F L cm
      cleaned cm (some e) = stopped m F L cm e

  crd_cleaned :
      Bool
      → ClusterManager N
      → HubConfig
      → Option Error × m.client.State
      → Outcome N × m.client.State
  unfolding crd_clean_files
  crd_cleaned skip cm config (some e, t) = (stopped m F L cm e, t)
  crd_cleaned skip cm config (none, t) = crd_clean_files skip cm config t

  unfoldable pub crd_clean :
      Bool → ClusterManager N → HubConfig → m.client.State → Outcome N × m.client.State
  unfolding clean_each crd_cleaned
  crd_clean skip cm config t = crd_cleaned skip cm config (clean_each skip crd_names t)
