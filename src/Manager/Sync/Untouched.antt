-- ===== src/Manager/Sync/Untouched.antt =====
-- Which client the clean of the webhook configurations works with.
use registration_operator.Common.{
  ℕ, ◌≡◌, Bool, Option, none, some, List, [], ◌∷◌, Error, Result, ap, sym, ◌∙◌,
}
use registration_operator.Crd.{Manager}
use registration_operator.Helpers.Apply.{Deployment}
use registration_operator.Manager.Config.{HubConfig}
use registration_operator.Manager.Reconcile.{
  ClusterManager, Reconciler, Cluster, Codec, Library, Rollout,
}
use registration_operator.Manager.Reconcile.Untouched.{Keeps, webhook_clean_untouched}
use registration_operator.Manager.Sync.{reconcilers}

abbrev pub last : {A : Type 0} → List A → Option A
last [] = none
last (x ∷ []) = some x
last (x ∷ y ∷ xs) = last (y ∷ xs)

some-injective : {A : Type 0} (x y : A) → some x ≡ some y → x ≡ y
some-injective x y h = cc

module _ {M H E O B Sp N D X : Type 0} (m : Manager Sp) (F : Codec M H E O B Sp N D)
    (L : Library M H E B m.client.State N D) (view : m.client.State → X) where
  -- The clean of the last reconciler of a sync, that of the webhook configurations, changes nothing that no
  -- delete of the management cluster's client changes: so it leaves a hub that is another cluster as it is,
  -- whatever the hub's own client could delete.
  pub last_clean_untouched :
      (hub own : Cluster m.client.State M H E B)
      (deploy : m.client.State
        → Deployment N (Rollout D)
        → ℕ
        → Result (Deployment N (Rollout D) × Bool) × m.client.State)
      (ensure : m.client.State → Option Error × m.client.State) (skip : Bool)
      (r : Reconciler m.client.State N) (cm : ClusterManager N) (config : HubConfig)
      (t : m.client.State)
      → last (reconcilers m F L hub own deploy ensure skip) ≡ some r
      → Keeps own.eraser view
      → view (r.clean cm config t).1 ≡ view t
  unfolding reconcilers
  last_clean_untouched hub own deploy ensure skip r cm config t found keeps =
      ap (λ (q : Reconciler m.client.State N). view (q.clean cm config t).1)
        (sym (some-injective _ _ found))
      ∙ webhook_clean_untouched m F L view own keeps cm config t
