-- ===== src/Klusterlet/Controller/Sync/Untouched.antt =====
-- When a sync leaves the clusters alone.
use registration_operator.Common.{
  String, ℕ, ◌≡◌, refl, Bool, true, false, not, ◌||◌, Option, List, Error, Result, ok, err,
  if◌then◌else◌, contains, string_eq, error_of, [], ◌∷◌,
}
use registration_operator.Common.Dict.{Dict}
use registration_operator.Helpers.StatusUpdates.{update_condition_fn}
use registration_operator.Helpers.Klusterlets.{determine_replica}
use registration_operator.Klusterlet.{klusterlet_finalizer}
use registration_operator.Klusterlet.Controller.{Klusterlet, KlusterletConfig, config_of}
use registration_operator.Klusterlet.Controller.Sync.{
  Reporting, Reconcile, sync, sync_built, prepared, sync_found, update, is_updated, ready_condition,
  is_hosted,
}

-- It is being deleted, or the cleanup controller has not yet put its finalizer on it.
abbrev IsIdle : Klusterlet → Type 0
IsIdle k = k.is_deleting || not (contains k.finalizers klusterlet_finalizer) ≡ true

either_way :
    {S W : Type 0} (b : Bool) (x y : Option Error × (S × W)) (t : S)
    → x.1.0 ≡ t
    → y.1.0 ≡ t
    → (if b then x else y).1.0 ≡ t
either_way true x y t h k = h
either_way false x y t h k = k

module _ (P : Reporting) {S : Type 0} (registration work : Dict Bool) where
  sync_built_idle :
      (key : String) (config : KlusterletConfig) (k : Klusterlet) (t : S) (w : P.klusterlets.State)
      (built : Result (List (Reconcile S)))
      → IsIdle k
      → (sync_built P registration work key config k t w built).1.0 ≡ t
  unfolding sync_built
  sync_built_idle key config k t w (err e) idle = refl
  sync_built_idle key config k t w (ok rs) idle = rw (idle) refl

  prepared_idle :
      (hosted : Bool) (key : String) (config : KlusterletConfig) (k : Klusterlet) (t : S)
      (w : P.klusterlets.State) (built : Result (List (Reconcile S)))
      → IsIdle k
      → (prepared P registration work hosted key config k t w built).1.0 ≡ t
  unfolding prepared
  prepared_idle false key config k t w built idle = sync_built_idle key config k t w built idle
  prepared_idle true key config k t w built idle =
      let (result, w') =
        update P (update_condition_fn P.conditions (ready_condition P (error_of built) ∷ []) ∷ [])
          key w in
      either_way (is_updated P result) (error_of result, (t, w'))
        (sync_built P registration work key config k t w' built) t refl
        (sync_built_idle key config k t w' built idle)

  -- A sync of a klusterlet that is being deleted or has no finalizer yet leaves the clusters as they are.
  sync_idle :
      (operator_namespace : String) (older : Option (Result Bool)) (nodes : Result ℕ)
      (build : KlusterletConfig → Result (List (Reconcile S))) (found : String → Result Klusterlet)
      (key : String) (t : S) (w : P.klusterlets.State) {k : Klusterlet}
      → found key ≡ ok k
      → IsIdle k
      → (sync P registration work operator_namespace older nodes build found key t w).1.0 ≡ t
  unfolding sync sync_found
  sync_idle operator_namespace older nodes build found key t w {k = k} listed idle =
      let config = config_of operator_namespace (determine_replica k.spec.mode older nodes) k in
      rw (listed)
        (prepared_idle (is_hosted config.install_mode) key config k t w (build config) idle)
