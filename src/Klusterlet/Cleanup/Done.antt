-- ===== src/Klusterlet/Cleanup/Done.antt =====
-- What is left when a klusterlet loses its finalizers.
use registration_operator.Common.{
  String, ◌≡◌, refl, sym, ◌∙◌, ap, Bool, true, false, Option, none, some, List, [], ◌∷◌, Error,
  Result, ok, err, Aggregate, All, is_not_found, if◌then◌else◌, ◌⊎◌, inl, inr, string_eq,
}
use registration_operator.Common.Dict.{Dict}
use registration_operator.Helpers.Related.{deployment, secret, namespace}
use registration_operator.Klusterlet.{Object}
use registration_operator.Klusterlet.Connectivity.{Texts}
use registration_operator.Klusterlet.Teardown.{
  Cluster, Config, Manifests, management, agent_deployments, agent_secrets,
}
use registration_operator.Klusterlet.Teardown.Requests.{
  IsLawful, Follows, stays, Follows-trans, dead_stays,
}
use registration_operator.Klusterlet.Teardown.Steps.{
  ManagementDead, stay_dead_each, runtime-Follows, runtime_dead, managed-Follows,
  management-Follows, management_dead,
}
use registration_operator.Klusterlet.Cleanup.{
  CrdCleaner, Reconciler, runtime, crds, managed_side, management_side, reconcilers, config_of,
  World, clean_step, after_step, clean_all, update, shorter, removed_from,
  remove_klusterlet_finalizers, annotated, update_klusterlet_annotation, finish, tear_down,
}

module _ (C : Cluster) (law : IsLawful C) (D : CrdCleaner) (A : Aggregate) (M : Manifests)
    (T : Texts) (same : Dict String → Dict String → Bool) where
  -- The agents' deployments and secrets, and in hosted mode their namespace, are gone or going.
  abbrev pub Dead : Config → C.State → Type 0
  Dead c t =
      ManagementDead C law A M c t
      × All (λ n. law.alive t management deployment c.agent_namespace n ≡ false)
          (agent_deployments C c)

  step-Follows :
      (old : Bool) (k : Object) (r : Reconciler) (w : World C D A M T same)
      → Follows C law w.0 (clean_step C D A M T same old k r w).1.0
  unfolding clean_step
  step-Follows old k runtime (t, d) = runtime-Follows C law A M (config_of k) t
  step-Follows old k crds (t, d) = stays C law t
  step-Follows old k managed_side (t, d) = managed-Follows C law A M old (config_of k) k t
  step-Follows old k management_side (t, d) = management-Follows C law A M (config_of k) t

  clean_all-Follows :
      (old : Bool) (k : Object) (rs : List Reconciler) (w : World C D A M T same)
      → Follows C law w.0 (clean_all C D A M T same old k rs w).1.0
  unfolding clean_all
  clean_all-Follows old k [] w = stays C law w.0
  clean_all-Follows old k (r ∷ rs) w =
      go (clean_step C D A M T same old k r w) (step-Follows old k r w) (clean_all-Follows old k rs)
    where
      go :
          (x : Option Error × World C D A M T same)
          → Follows C law w.0 x.1.0
          → ((v : World C D A M T same)
              → Follows C law v.0 (clean_all C D A M T same old k rs v).1.0)
          → Follows C law w.0
              (after_step C D A M T same x (λ v. clean_all C D A M T same old k rs v)).1.0
      go (some e, v) f rest = f
      go (none, v) f rest = Follows-trans C law f (rest v)

  after_step_none :
      (P : C.State → Type 0) (x : Option Error × World C D A M T same)
      (next : World C D A M T same → List Error × World C D A M T same)
      → (x.0 ≡ none → (next x.1).0 ≡ [] → P (next x.1).1.0)
      → (after_step C D A M T same x next).0 ≡ []
      → P (after_step C D A M T same x next).1.0
  after_step_none P (some e, v) next k h = cc
  after_step_none P (none, v) next k h = k refl h

  -- What holds if a reconciler and those after it report no error.
  clean_all_none :
      (P : C.State → Type 0) (old : Bool) (k : Object) (r : Reconciler) (rs : List Reconciler)
      (w : World C D A M T same)
      → ((clean_step C D A M T same old k r w).0 ≡ none
          → (clean_all C D A M T same old k rs (clean_step C D A M T same old k r w).1).0 ≡ []
          → P (clean_all C D A M T same old k rs (clean_step C D A M T same old k r w).1).1.0)
      → (clean_all C D A M T same old k (r ∷ rs) w).0 ≡ []
      → P (clean_all C D A M T same old k (r ∷ rs) w).1.0
  unfolding clean_all
  clean_all_none P old k r rs w =
      after_step_none P (clean_step C D A M T same old k r w)
        (λ v. clean_all C D A M T same old k rs v)

  -- What the last reconciler leaves, if the deployments were gone before it.
  last-Dead :
      (old : Bool) (k : Object) (w : World C D A M T same)
      → All
          (λ n. law.alive w.0 management deployment (config_of k).agent_namespace n ≡ false)
          (agent_deployments C (config_of k))
      → (clean_all C D A M T same old k (management_side ∷ []) w).0 ≡ []
      → Dead (config_of k) (clean_all C D A M T same old k (management_side ∷ []) w).1.0
  unfolding clean_all clean_step
  last-Dead old k (t, d) agents =
      after_step_none (Dead (config_of k)) (clean_step C D A M T same old k management_side (t, d))
        (λ v. ([], v))
        λ q _. (
          management_dead C law A M (config_of k) t q,
          stay_dead_each C law A M ((management-Follows C law A M (config_of k) t).keeps) management
              deployment (config_of k).agent_namespace (agent_deployments C (config_of k)) agents,
        )

  runtime_step_dead :
      (old : Bool) (k : Object) (w : World C D A M T same)
      → (clean_step C D A M T same old k runtime w).0 ≡ none
      → All
          (λ n.
            law.alive
              (clean_step C D A M T same old k runtime w).1.0
              management
              deployment
              (config_of k).agent_namespace
              n
            ≡ false)
          (agent_deployments C (config_of k))
  unfolding clean_step
  runtime_step_dead old k (t, d) p = runtime_dead C law A M (config_of k) t p

  clean_all-Dead :
      (old : Bool) (k : Object) (reached : Bool) (w : World C D A M T same)
      → (clean_all C D A M T same old k (reconcilers reached) w).0 ≡ []
      → Dead (config_of k) (clean_all C D A M T same old k (reconcilers reached) w).1.0
  unfolding reconcilers
  clean_all-Dead old k false w =
      clean_all_none (Dead (config_of k)) old k runtime (management_side ∷ []) w
        λ p. last-Dead old k _ (runtime_step_dead old k w p)
  clean_all-Dead old k true w =
      clean_all_none (Dead (config_of k)) old k runtime (crds ∷ managed_side ∷ management_side ∷ [])
        w
        λ p.
          clean_all_none (Dead (config_of k)) old k crds (managed_side ∷ management_side ∷ []) _
            λ _.
              clean_all_none (Dead (config_of k)) old k managed_side (management_side ∷ []) _ λ _.
                last-Dead old k _ (
                  stay_dead_each C law A M
                    ((Follows-trans C law (step-Follows old k crds _)
                      (step-Follows old k managed_side _)).keeps)
                    management deployment (config_of k).agent_namespace
                    (agent_deployments C (config_of k)) (runtime_step_dead old k w p))

  -- The server still has the klusterlet, if it had it, with the same finalizers.
  abbrev pub KeepsFinalizers : String → C.State → C.State → Type 0
  KeepsFinalizers name t t' =
      (k : Object)
      → C.get_klusterlet t name ≡ ok k
      → (k' : Object) × ((C.get_klusterlet t' name ≡ ok k') × (k'.finalizers ≡ k.finalizers))

  pub Follows-same :
      {t t' : C.State} (name : String) → Follows C law t t' → KeepsFinalizers name t t'
  Follows-same name f k h = (k, (f.same name ∙ h, refl))

  update-Dead :
      (c : Config) (k : Object) (t : C.State) → Dead c t → Dead c (update C D A M T same k t).1
  unfolding update
  update-Dead c k t ((secrets, home), agents) = (
    (
      stay_dead_each C law A M (law.update_keeps t k) management secret c.agent_namespace
          (agent_secrets C A M c) secrets,
      λ hosted.
          dead_stays C law (law.update_keeps t k) management namespace "" c.agent_namespace
            (home hosted),
    ),
    stay_dead_each C law A M (law.update_keeps t k) management deployment c.agent_namespace
        (agent_deployments C c) agents,
  )

  removed-Dead :
      (c : Config) (name : String) (t : C.State)
      → Dead c t
      → Dead c (remove_klusterlet_finalizers C D A M T same name t).1
  unfolding remove_klusterlet_finalizers removed_from shorter
  removed-Dead c name t dead = go (C.get_klusterlet t name)
    where
      skip :
          (b : Bool) (x y : Option Error × C.State)
          → Dead c x.1
          → Dead c y.1
          → Dead c (if b then x else y).1
      skip true x y p q = p
      skip false x y p q = q

      write :
          (k : Object) (fs : List String) (b : Bool) → Dead c (shorter C D A M T same k fs t b).1
      write k fs true = dead
      write k fs false = update-Dead c (record k { finalizers = fs }) t dead

      go : (r : Result Object) → Dead c (removed_from C D A M T same r t).1
      go (err e) = skip (is_not_found e) (none, t) (some e, t) dead dead
      go (ok k) = write k _ _

  -- A deletion that takes the finalizers off leaves nothing of the agents.
  finish_lem :
      (c : Config) (k : Object) (t : C.State) (x : List Error × World C D A M T same)
      → Follows C law t x.1.0
      → (x.0 ≡ [] → Dead c x.1.0)
      → KeepsFinalizers k.name t (finish C D A M T same k x).1.0
        ⊎ Dead c (finish C D A M T same k x).1.0
  unfolding finish
  finish_lem c k t (e ∷ es, w) f dead = inl (Follows-same k.name f)
  finish_lem c k t ([], (u, d)) f dead = inr (removed-Dead c k.name u (dead refl))

  pub tear_down_lem :
      (old : Bool) (k : Object) (reached : Bool) (w : World C D A M T same)
      → KeepsFinalizers k.name w.0 (tear_down C D A M T same old k reached w).1.0
        ⊎ Dead (config_of k) (tear_down C D A M T same old k reached w).1.0
  unfolding tear_down
  tear_down_lem old k reached w =
      finish_lem (config_of k) k w.0 (clean_all C D A M T same old k (reconcilers reached) w)
        (clean_all-Follows old k (reconcilers reached) w) (clean_all-Dead old k reached w)

  update-KeepsFinalizers :
      (name : String) (d : Dict String) (t : C.State) (k : Object)
      → C.get_klusterlet t name ≡ ok k
      → KeepsFinalizers name t (update C D A M T same (record k { annotations = d }) t).1
  unfolding update
  update-KeepsFinalizers name d t k found =
      go (C.update_klusterlet t (record k { annotations = d })).0 refl
    where
      sent : Object
      sent = record k { annotations = d }

      go :
          (r : Result Object)
          → (C.update_klusterlet t sent).0 ≡ r
          → KeepsFinalizers name t (C.update_klusterlet t sent).1
      go (err e) failed o h = (o, (law.get-update_err t sent name failed ∙ h, refl))
      go (ok p) done o h = elim (law.get-update t sent done) [
        | inl (x, (got, same)) ↦
            let named : k.name ≡ name = law.get-name t name found in
            let first : k ≡ o = cc in
            (
              x,
              (
                ap (λ n. C.get_klusterlet (C.update_klusterlet t sent).1 n) (sym named) ∙ got,
                same ∙ ap (λ (y : Object). y.finalizers) first,
              ),
            )
        | inr ((deleting, none_left), gone) ↦
            absurd (law.get-finalizers t name found deleting none_left)
      ]

  pub annotation-KeepsFinalizers :
      (name : String) (d : Dict String) (t : C.State)
      → KeepsFinalizers name t (update_klusterlet_annotation C D A M T same name d t).1
  unfolding update_klusterlet_annotation annotated
  annotation-KeepsFinalizers name d t = go (C.get_klusterlet t name) refl
    where
      choose :
          (b : Bool) (x y : Option Error × C.State)
          → KeepsFinalizers name t x.1
          → KeepsFinalizers name t y.1
          → KeepsFinalizers name t (if b then x else y).1
      choose true x y p q = p
      choose false x y p q = q

      go :
          (r : Result Object)
          → C.get_klusterlet t name ≡ r
          → KeepsFinalizers name t (annotated C D A M T same d r t).1
      go (err e) lost =
          choose (is_not_found e) (none, t) (some e, t) (Follows-same name (stays C law t))
            (Follows-same name (stays C law t))
      go (ok k) found =
          choose (same k.annotations d) (none, t)
            (update C D A M T same (record k { annotations = d }) t)
            (Follows-same name (stays C law t)) (update-KeepsFinalizers name d t k found)
