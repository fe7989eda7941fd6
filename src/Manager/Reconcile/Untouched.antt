-- ===== src/Manager/Reconcile/Untouched.antt =====
-- What a clean does not touch.
use registration_operator.Common.{
  String, ◌≡◌, refl, ◌∙◌, Bool, true, false, Option, none, some, List, [], ◌∷◌, Error, Result, ok,
  err, is_not_found, if◌then◌else◌,
}
use registration_operator.Crd.{Manager}
use registration_operator.Helpers.Deletion.{
  Eraser, with_client, delete_static, unless_absent, clean_up_static_object,
}
use registration_operator.Helpers.Objects.{ObjectKey}
use registration_operator.Helpers.Related.{
  Kind, Object, validating_webhook, mutating_webhook, api_service, deployment, namespace, endpoints,
  service, pod, service_account, config_map, secret, cluster_role, cluster_role_binding, role,
  role_binding, crd_v1beta1, crd_v1, other,
}
use registration_operator.Manager.Config.{HubConfig}
use registration_operator.Manager.Files.{webhook_resources}
use registration_operator.Manager.Reconcile.{
  ClusterManager, Cluster, Codec, Library, manifest_remove, decoded, after_clean, clean_files,
  clean_resources,
}
use registration_operator.Manager.Reconcile.Webhooks.{webhook_clean}

module _ {S X : Type 0} (D : Eraser S) (view : S → X) where
  -- No delete of the client changes what is seen.
  abbrev pub Keeps : Type 0
  Keeps = (t : S) (k : Kind) (ns n : String) → view (D.delete t k ns n).1 ≡ view t

  static_untouched :
      (keeps : Keeps) (t : S) (k : Kind) (ns n : String)
      → view (delete_static D false false t k ns n).1 ≡ view t
  unfolding delete_static with_client
  static_untouched keeps t namespace ns n = keeps t namespace "" n
  static_untouched keeps t deployment ns n = keeps t deployment ns n
  static_untouched keeps t endpoints ns n = keeps t endpoints ns n
  static_untouched keeps t service ns n = keeps t service ns n
  static_untouched keeps t service_account ns n = keeps t service_account ns n
  static_untouched keeps t config_map ns n = keeps t config_map ns n
  static_untouched keeps t secret ns n = keeps t secret ns n
  static_untouched keeps t cluster_role ns n = keeps t cluster_role "" n
  static_untouched keeps t cluster_role_binding ns n = keeps t cluster_role_binding "" n
  static_untouched keeps t role ns n = keeps t role ns n
  static_untouched keeps t role_binding ns n = keeps t role_binding ns n
  static_untouched keeps t crd_v1 ns n = refl
  static_untouched keeps t crd_v1beta1 ns n = refl
  static_untouched keeps t api_service ns n = refl
  static_untouched keeps t validating_webhook ns n = keeps t validating_webhook "" n
  static_untouched keeps t mutating_webhook ns n = keeps t mutating_webhook "" n
  static_untouched keeps t pod ns n = refl
  static_untouched keeps t other ns n = refl

  unless_untouched :
      (t : S) (r : Option Error × S) → view r.1 ≡ view t → view (unless_absent r).1 ≡ view t
  unless_untouched t (none, u) h = h
  unless_untouched t (some e, u) h = go (is_not_found e)
    where
      go :
          (b : Bool)
          → view (if◌then◌else◌ {A = Option Error × S} b (none, u) (some e, u)).1 ≡ view t
      go true = h
      go false = h

  object_untouched :
      (keeps : Keeps) (o : Result Object) (t : S)
      → view (clean_up_static_object D false false o t).1 ≡ view t
  unfolding clean_up_static_object
  object_untouched keeps (err e) t = refl
  object_untouched keeps (ok o) t =
      unless_untouched t (delete_static D false false t o.kind o.namespace o.name)
        (static_untouched keeps t o.kind o.namespace o.name)

module _ {M H E O B Sp N D X : Type 0} (m : Manager Sp) (F : Codec M H E O B Sp N D)
    (L : Library M H E B m.client.State N D) (view : m.client.State → X) where
  next_untouched :
      (t : m.client.State) (r : Option Error × m.client.State) (related : List ObjectKey)
      (next : m.client.State → List ObjectKey → Option Error × (m.client.State × List ObjectKey))
      → view r.1 ≡ view t
      → ((u : m.client.State) (xs : List ObjectKey) → view (next u xs).1.0 ≡ view u)
      → view (after_clean m F L r related next).1.0 ≡ view t
  next_untouched t (some e, u) related next h rest = h
  next_untouched t (none, u) related next h rest = rest u related ∙ h

  files_untouched :
      (c : Eraser m.client.State) (keeps : Keeps c view) (config : HubConfig) (files : List String)
      (t : m.client.State) (related : List ObjectKey)
      → view (clean_files m F L c config files t related).1.0 ≡ view t
  unfolding clean_files
  files_untouched c keeps config [] t related = refl
  files_untouched c keeps config (file ∷ files) t related =
      next_untouched t
        (clean_up_static_object c false false
          (decoded m F L (manifest_remove m F L config file related).0) t)
        (manifest_remove m F L config file related).1
        (λ u xs. clean_files m F L c config files u xs)
        (object_untouched c view keeps (decoded m F L (manifest_remove m F L config file related).0)
          t)
        (λ u xs. files_untouched c keeps config files u xs)

  -- The clean of the webhook configurations touches nothing that the deletes of the management cluster's
  -- client do not touch. So where the hub is another cluster, it leaves the hub as it is, and with it
  -- the webhook configurations that the reconciler applied there.
  pub webhook_clean_untouched :
      (own : Cluster m.client.State M H E B) (keeps : Keeps own.eraser view) (cm : ClusterManager N)
      (config : HubConfig) (t : m.client.State)
      → view (webhook_clean m F L own cm config t).1 ≡ view t
  unfolding webhook_clean clean_resources
  webhook_clean_untouched own keeps cm config t =
      files_untouched own.eraser keeps config webhook_resources t cm.related_resources
