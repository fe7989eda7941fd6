-- ===== src/Klusterlet/Cleanup/Finalizers.antt =====
-- When a klusterlet loses its finalizers.
use registration_operator.Common.{
  String, ◌≡◌, ◌≢◌, refl, Bool, true, false, Option, none, some, Error, Result, ok, err, ap, ◌∙◌,
  Aggregate, is_not_found, if◌then◌else◌, ◌⊎◌, inl, inr, not, ◌||◌,
}
use registration_operator.Common.Dict.{Dict}
use registration_operator.Klusterlet.{Object, has_finalizer, klusterlet_hosted_finalizer}
use registration_operator.Klusterlet.Connectivity.{Texts, check_connectivity}
use registration_operator.Klusterlet.Teardown.{Cluster, Manifests, is_hosted}
use registration_operator.Klusterlet.Teardown.Requests.{IsLawful, stays}
use registration_operator.Klusterlet.Cleanup.{
  Readings, CrdCleaner, config_of, World, tear_down, connected, built, sync_deleting, sync_found,
  sync,
}
use registration_operator.Klusterlet.Cleanup.Done.{
  Dead, KeepsFinalizers, Follows-same, tear_down_lem, annotation-KeepsFinalizers,
}

module _ (C : Cluster) (law : IsLawful C) (D : CrdCleaner) (A : Aggregate) (M : Manifests)
    (T : Texts) (same : Dict String → Dict String → Bool) where
  Outcome : Object → C.State → C.State → Type 0
  Outcome k t t' =
      KeepsFinalizers C law D A M T same k.name t t' ⊎ Dead C law D A M T same (config_of k) t'

  unchanged : (k : Object) (t : C.State) → Outcome k t t
  unfolding Outcome
  unchanged k t = inl (Follows-same C law D A M T same k.name (stays C law t))

  choose :
      (k : Object) (t : C.State) (b : Bool) (x y : Option Error × World C D A M T same)
      → Outcome k t x.1.0
      → Outcome k t y.1.0
      → Outcome k t (if b then x else y).1.0
  choose k t true x y p q = p
  choose k t false x y p q = q

  connected_lem :
      (r : Readings) (k : Object) (d : Dict String) (reached : Bool) (e : Option String)
      (w : World C D A M T same)
      → Outcome k w.0 (connected C D A M T same r k d reached e w).1.0
  unfolding connected Outcome config_of
  connected_lem r k d reached none w =
      tear_down_lem C law D A M T same r.is_old (record k { annotations = d }) reached w
  connected_lem r k d reached (some text) (t, crd) =
      inl (annotation-KeepsFinalizers C law D A M T same k.name d t)

  built_lem :
      (r : Readings) (k : Object) (e : Option Error) (w : World C D A M T same)
      → Outcome k w.0 (built C D A M T same r k e w).1.0
  unfolding built
  built_lem r k (some e) w =
      choose k w.0 (is_not_found e) (none, w) (some e, w) (unchanged k w.0) (unchanged k w.0)
  built_lem r k none w =
      let a = check_connectivity T r.clock r.list_error k.annotations in
      connected_lem r k a.annotations a.clean_managed a.error w

  sync_deleting_lem :
      (r : Readings) (k : Object) (w : World C D A M T same)
      → Outcome k w.0 (sync_deleting C D A M T same r k w).1.0
  unfolding sync_deleting Outcome
  sync_deleting_lem r k w =
      choose k w.0 (not (is_hosted k.mode) || has_finalizer k klusterlet_hosted_finalizer)
        (built C D A M T same r k r.build_error w) (tear_down C D A M T same r.is_old k false w)
        (built_lem r k r.build_error w) (tear_down_lem C law D A M T same r.is_old k false w)

  sync-eq :
      (r : Readings) (k : Object) (w : World C D A M T same)
      → r.listed ≡ ok k
      → k.deleting ≡ true
      → sync C D A M T same r w ≡ sync_deleting C D A M T same r k w
  unfolding sync sync_found
  sync-eq r k (t, d) listed deleting = rw (listed, deleting) refl

  sync_lem :
      (r : Readings) (k : Object) (w : World C D A M T same)
      → r.listed ≡ ok k
      → k.deleting ≡ true
      → Outcome k w.0 (sync C D A M T same r w).1.0
  sync_lem r k w listed deleting = rw (sync-eq r k w listed deleting) (sync_deleting_lem r k w)

  -- The klusterlet has other finalizers than before, or it is not there.
  abbrev pub IsReleased : Object → Result Object → Type 0
  IsReleased o (ok o') = o'.finalizers ≢ o.finalizers
  IsReleased o (err e) = Unit

  kept_not-IsReleased :
      (o o' : Object) (r : Result Object)
      → r ≡ ok o'
      → o'.finalizers ≡ o.finalizers
      → ¬ IsReleased o r
  kept_not-IsReleased o o' (err e) h same = cc
  kept_not-IsReleased o o' (ok x) h same = λ released.
      let first : x ≡ o' = cc in released (ap (λ (y : Object). y.finalizers) first ∙ same)

  -- When a sync of a klusterlet that is being deleted changes its finalizers on the server, or the
  -- klusterlet is gone after it, the agents' deployments and secrets, and in hosted mode their namespace,
  -- are gone or being deleted.
  pub sync-Dead :
      (r : Readings) (k o : Object) (w : World C D A M T same)
      → r.listed ≡ ok k
      → k.deleting ≡ true
      → C.get_klusterlet w.0 k.name ≡ ok o
      → IsReleased o (C.get_klusterlet (sync C D A M T same r w).1.0 k.name)
      → Dead C law D A M T same (config_of k) (sync C D A M T same r w).1.0
  unfolding Outcome
  sync-Dead r k o w listed deleting before released = elim (sync_lem r k w listed deleting) [
    | inl keeps ↦
        let (o', (after, kept)) = keeps o before in
        absurd (
          kept_not-IsReleased o o' (C.get_klusterlet (sync C D A M T same r w).1.0 k.name) after
            kept released)
    | inr dead ↦ dead
  ]
