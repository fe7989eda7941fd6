-- ===== src/Klusterlet/Cleanup.antt =====
-- klusterlet_cleanup_controller.go: `sync`. The lister's answer, the clock, the answer of building
-- the clients of the managed cluster and that of the list request of `checkConnectivity` are
-- `Readings`. The state is that of the API servers and that of the CRDs of the managed cluster.
pub mod Done
pub mod Finalizers
use registration_operator.Common.{
  String, ℕ, Bool, true, false, ◌&&◌, ◌||◌, not, Option, none, some, List, [], ◌∷◌, ◌++◌, Error,
  failure, Result, ok, err, error_of, is_not_found, if◌then◌else◌, cons_error, Aggregate,
}
use registration_operator.Common.Dict.{Dict}
use registration_operator.Crd
use registration_operator.Crd.{Crd}
use registration_operator.Helpers.Klusterlets.{Klusterlet, klusterlet_namespace, agent_namespace}
use registration_operator.Klusterlet.{
  Object, has_finalizer, klusterlet_finalizer, klusterlet_hosted_finalizer, without_finalizers,
}
use registration_operator.Klusterlet.Connectivity.{Texts, Answer, check_connectivity}
use registration_operator.Klusterlet.Teardown.{
  Cluster, Config, Manifests, is_hosted, runtime_clean, managed_clean, management_clean,
}

pub record Readings : Type 0 where
  pub listed : Result Object
  pub clock : ℕ
  pub build_error : Option Error
  pub list_error : Option String
  -- Whether the managed cluster is known to be older than 1.12.
  pub is_old : Bool

unfoldable pub config_of : Object → Config
unfolding klusterlet_namespace agent_namespace
config_of k =
    let base : Klusterlet = record { name = k.name; namespace = k.namespace; mode = k.mode } in
    record {
      klusterlet_name = k.name;
      klusterlet_namespace = klusterlet_namespace base;
      agent_namespace = agent_namespace base;
      mode = k.mode;
    }

-- The reconcilers of a deletion.
pub data Reconciler : Type 0 where
  runtime crds managed_side management_side : Reconciler

unfoldable pub reconcilers : Bool → List Reconciler
reconcilers true = runtime ∷ crds ∷ managed_side ∷ management_side ∷ []
reconcilers false = runtime ∷ management_side ∷ []

-- `crdManager.Clean` with the CRD files of the klusterlet, for the version of the cluster.
pub record CrdCleaner : Type 1 where
  pub State : Type 0
  pub clean : State → Option Error × State

-- The cleaner of a CRD manager. What its closure writes to the status is not kept.
unfoldable pub crd_cleaner :
    {S B : Type 0} (m : Crd.Manager S) (manifests : String → Result B) (decode : B → Result (Crd S))
    → Aggregate
    → List String
    → CrdCleaner
unfolding Crd.clean
crd_cleaner m manifests decode A files = record {
  State = m.client.State;
  clean = λ s.
      let (e, s', _) = Crd.clean m (λ file w. (manifests file, w)) decode A true files s tt in
      (e, s');
}

module _ (C : Cluster) (D : CrdCleaner) (A : Aggregate) (M : Manifests) (T : Texts)
    (same : Dict String → Dict String → Bool) where
  abbrev pub World : Type 0
  World = C.State × D.State

  abbrev on_cluster : Option Error × C.State → D.State → Option Error × World
  on_cluster (e, t) d = (e, (t, d))

  unfoldable pub clean_step : Bool → Object → Reconciler → World → Option Error × World
  unfolding runtime_clean managed_clean management_clean config_of
  clean_step old k runtime (t, d) = on_cluster (runtime_clean C (config_of k) t) d
  clean_step old k crds (t, d) = let (e, d') = D.clean d in (e, (t, d'))
  clean_step old k managed_side (t, d) = on_cluster (managed_clean C A M old (config_of k) k t) d
  clean_step old k management_side (t, d) = on_cluster (management_clean C A M (config_of k) t) d

  abbrev after_step : Option Error × World → (World → List Error × World) → List Error × World
  after_step (some e, w) next = (e ∷ [], w)
  after_step (none, w) next = next w

  -- The loop over the reconcilers: one that fails stops it.
  unfoldable pub clean_all : Bool → Object → List Reconciler → World → List Error × World
  unfolding clean_step
  clean_all old k [] w = ([], w)
  clean_all old k (r ∷ rs) w = after_step (clean_step old k r w) (λ w. clean_all old k rs w)

  unfoldable pub update : Object → C.State → Option Error × C.State
  update k t = let (r, t') = C.update_klusterlet t k in (error_of r, t')

  unfoldable pub shorter : Object → List String → C.State → Bool → Option Error × C.State
  unfolding update
  shorter k fs t true = (none, t)
  shorter k fs t false = update (record k { finalizers = fs }) t

  unfoldable pub removed_from : Result Object → C.State → Option Error × C.State
  unfolding shorter
  removed_from (err e) t = if is_not_found e then (none, t) else (some e, t)
  removed_from (ok k) t =
      shorter k (without_finalizers k.finalizers) t
        (not (has_finalizer k klusterlet_finalizer || has_finalizer k klusterlet_hosted_finalizer))

  -- `removeKlusterletFinalizers`. The list gets shorter exactly if it has one of the two.
  unfoldable pub remove_klusterlet_finalizers : String → C.State → Option Error × C.State
  unfolding removed_from
  remove_klusterlet_finalizers name t = removed_from (C.get_klusterlet t name) t

  unfoldable pub annotated : Dict String → Result Object → C.State → Option Error × C.State
  unfolding update
  annotated d (err e) t = if is_not_found e then (none, t) else (some e, t)
  annotated d (ok k) t =
      if same k.annotations d then (none, t) else update (record k { annotations = d }) t

  unfoldable pub update_klusterlet_annotation :
      String → Dict String → C.State → Option Error × C.State
  unfolding annotated
  update_klusterlet_annotation name d t = annotated d (C.get_klusterlet t name) t

  -- The returns after the loop.
  unfoldable pub finish : Object → List Error × World → Option Error × World
  finish k (e ∷ es, w) = (A.new_aggregate (e ∷ es), w)
  finish k ([], (t, d)) = on_cluster (remove_klusterlet_finalizers k.name t) d

  unfoldable pub tear_down : Bool → Object → Bool → World → Option Error × World
  unfolding clean_all finish reconcilers
  tear_down old k reached w = finish k (clean_all old k (reconcilers reached) w)

  unfoldable pub connected :
      Readings → Object → Dict String → Bool → Option String → World → Option Error × World
  unfolding tear_down update_klusterlet_annotation
  connected r k d reached none w = tear_down r.is_old (record k { annotations = d }) reached w
  connected r k d reached (some text) (t, crd) =
      let (e, t') = update_klusterlet_annotation k.name d t in
      (A.new_aggregate (failure text ∷ cons_error e []), (t', crd))

  unfoldable pub built : Readings → Object → Option Error → World → Option Error × World
  unfolding connected check_connectivity
  built r k (some e) w = if is_not_found e then (none, w) else (some e, w)
  built r k none w =
      let a = check_connectivity T r.clock r.list_error k.annotations in
      connected r k a.annotations a.clean_managed a.error w

  unfoldable pub sync_deleting : Readings → Object → World → Option Error × World
  unfolding built tear_down
  sync_deleting r k w =
      if not (is_hosted k.mode) || has_finalizer k klusterlet_hosted_finalizer
      then built r k r.build_error w
      else tear_down r.is_old k false w

  abbrev add_finalizer : Object → String → C.State → Option Error × C.State
  add_finalizer k f t =
      let (r, t') = C.update_klusterlet t (record k { finalizers = k.finalizers ++ (f ∷ []) }) in
      (error_of r, t')

  unfoldable pub sync_alive : Object → C.State → Option Error × C.State
  sync_alive k t =
      if not (has_finalizer k klusterlet_finalizer)
      then add_finalizer k klusterlet_finalizer t
      else if not (has_finalizer k klusterlet_hosted_finalizer)
          && (is_hosted k.mode && k.ready_to_apply)
      then add_finalizer k klusterlet_hosted_finalizer t
      else (none, t)

  unfoldable pub sync_found : Readings → Result Object → World → Option Error × World
  unfolding sync_deleting sync_alive
  sync_found r (err e) w = if is_not_found e then (none, w) else (some e, w)
  sync_found r (ok k) (t, d) =
      if k.deleting then sync_deleting r k (t, d) else on_cluster (sync_alive k t) d

  unfoldable pub sync : Readings → World → Option Error × World
  unfolding sync_found
  sync r w = sync_found r r.listed w
