-- ===== src/Manager/Sync/Errors.antt =====
-- When a sync of a cluster manager reports an error.
use registration_operator.Common.{
  String, ◌≡◌, ◌↔◌, ◌⊎◌, inl, inr, refl, Bool, true, false, Option, none, some, List, [], ◌∷◌, ◌++◌,
  Error, not_found, failure, remaining_crds, requeue, Result, ok, err,
}
use registration_operator.Common.Dict.{Dict}
use registration_operator.Helpers.StatusUpdates.{Status}
use registration_operator.Helpers.StatusUpdates.Retry.{update_cluster_manager_status}
use registration_operator.Status.{Condition}
use registration_operator.Manager.Config.{HubConfig}
use registration_operator.Manager.Reconcile.{
  ClusterManager, Reconciler, Outcome, ReconcileState, stop, continue,
}
use registration_operator.Manager.Report.{
  Rest, Api, Tools, Reconciled, if_continue, others_of, delays_of, ca_bundle_of, updates_of,
  error_after,
}
use registration_operator.Manager.Sync.{reconcile_all, report, sync_active, with_ca_bundle}

module _ {N : Type 0} (A : Api N) (T : Tools A.status.State) where
  -- What is left of the reconcilers' errors, and the answer of the status update: with none left, that the
  -- update reports no error; else that it wrote the status.
  abbrev Quiet : List Error → Result (Status Condition Rest × Bool) → Type 0
  Quiet [] u = (x : Status Condition Rest × Bool) × (u ≡ ok x)
  Quiet (e ∷ es) u = (s : Status Condition Rest) × (u ≡ ok (s, true))

  aggregate_some : (e : Error) (es : List Error) → T.aggregate.new_aggregate (e ∷ es) ≡ none → ⊥
  aggregate_some e es h = let (a, same) = T.aggregate.new_aggregate-cons e es in cc

  error_after_iff :
      (errors : List Error) (u : Result (Status Condition Rest × Bool))
      → (error_after A T errors u ≡ none) ↔ Quiet errors u
  unfolding error_after
  error_after_iff [] (ok x) = ((λ h. (x, refl)), λ _. T.aggregate.new_aggregate-nil)
  error_after_iff [] (err e) = ((λ h. absurd (aggregate_some e [] h)), λ (x, h). cc)
  error_after_iff (e ∷ es) (ok (s, true)) = ((λ h. (s, refl)), λ h. refl)
  error_after_iff (e ∷ es) (ok (s, false)) = ((λ h. absurd (aggregate_some e es h)), λ (s', h). cc)
  error_after_iff (e ∷ es) (err d) = ((λ h. absurd (aggregate_some e es h)), λ (s, h). cc)

-- A reconciler failed if it answered an error other than a request to be called again.
abbrev pub IsFailure : Option Error → Type 0
IsFailure none = ⊥
IsFailure (some (requeue text n)) = ⊥
IsFailure (some (not_found text)) = Unit
IsFailure (some (failure text)) = Unit
IsFailure (some (remaining_crds names)) = Unit

-- One of the reconcilers that are called fails. They are called in their order, each with what the one
-- before it left, and none after one that says stop.
abbrev pub SomeFails :
    {S N : Type 0} → List (Reconciler S N) → HubConfig → ClusterManager N → S → Type 0
SomeFails [] config cm t = ⊥
SomeFails (r ∷ rs) config cm t =
    IsFailure (r.reconcile cm config t).0.error
    ⊎ (((r.reconcile cm config t).0.state ≡ continue)
        × SomeFails rs config (r.reconcile cm config t).0.cm (r.reconcile cm config t).1)

abbrev IsLeft : List Error → Type 0
IsLeft [] = ⊥
IsLeft (e ∷ es) = Unit

others_of-IsLeft : (e : Option Error) → IsFailure e → IsLeft (others_of e)
others_of-IsLeft none h = absurd h
others_of-IsLeft (some (requeue text n)) h = absurd h
others_of-IsLeft (some (not_found text)) h = tt
others_of-IsLeft (some (failure text)) h = tt
others_of-IsLeft (some (remaining_crds names)) h = tt

others_of-IsFailure : (e : Option Error) → IsLeft (others_of e) → IsFailure e
others_of-IsFailure none h = absurd h
others_of-IsFailure (some (requeue text n)) h = absurd h
others_of-IsFailure (some (not_found text)) h = tt
others_of-IsFailure (some (failure text)) h = tt
others_of-IsFailure (some (remaining_crds names)) h = tt

append-IsLeft : (xs ys : List Error) → IsLeft xs ⊎ IsLeft ys → IsLeft (xs ++ ys)
append-IsLeft [] ys (inl h) = absurd h
append-IsLeft [] ys (inr h) = h
append-IsLeft (x ∷ xs) ys h = tt

IsLeft-append : (xs ys : List Error) → IsLeft (xs ++ ys) → IsLeft xs ⊎ IsLeft ys
IsLeft-append [] ys h = inr h
IsLeft-append (x ∷ xs) ys h = inl tt

module _ {S N : Type 0} (A : Api N) (T : Tools A.status.State) where
  fails-IsLeft :
      (rs : List (Reconciler S N)) (config : HubConfig) (cm : ClusterManager N) (t : S)
      → SomeFails rs config cm t
      → IsLeft (reconcile_all A T rs config cm t).errors
  unfolding reconcile_all
  fails-IsLeft [] config cm t h = absurd h
  fails-IsLeft (r ∷ rs) config cm t h =
      go (r.reconcile cm config t).0.state refl h
        (fails-IsLeft rs config (r.reconcile cm config t).0.cm (r.reconcile cm config t).1)
    where
      o : Outcome N
      o = (r.reconcile cm config t).0

      rest : Reconciled S N
      rest = reconcile_all A T rs config o.cm (r.reconcile cm config t).1

      go :
          (state : ReconcileState)
          → o.state ≡ state
          → SomeFails (r ∷ rs) config cm t
          → (SomeFails rs config o.cm (r.reconcile cm config t).1 → IsLeft rest.errors)
          → IsLeft
              (if_continue state
                (record {
                  cm = o.cm;
                  errors = others_of o.error;
                  requeue_after = delays_of o.error;
                  clusters = (r.reconcile cm config t).1;
                })
                (record rest {
                  errors = others_of o.error ++ rest.errors;
                  requeue_after = delays_of o.error ++ rest.requeue_after;
                })).errors
      go stop fn (inl f) later = others_of-IsLeft o.error f
      go stop fn (inr (goes, f)) later = cc
      go continue fn (inl f) later =
          append-IsLeft (others_of o.error) rest.errors (inl (others_of-IsLeft o.error f))
      go continue fn (inr (goes, f)) later =
          append-IsLeft (others_of o.error) rest.errors (inr (later f))

  IsLeft-fails :
      (rs : List (Reconciler S N)) (config : HubConfig) (cm : ClusterManager N) (t : S)
      → IsLeft (reconcile_all A T rs config cm t).errors
      → SomeFails rs config cm t
  unfolding reconcile_all
  IsLeft-fails [] config cm t h = absurd h
  IsLeft-fails (r ∷ rs) config cm t h =
      go (r.reconcile cm config t).0.state refl h
        (IsLeft-fails rs config (r.reconcile cm config t).0.cm (r.reconcile cm config t).1)
    where
      o : Outcome N
      o = (r.reconcile cm config t).0

      rest : Reconciled S N
      rest = reconcile_all A T rs config o.cm (r.reconcile cm config t).1

      go :
          (state : ReconcileState)
          → o.state ≡ state
          → IsLeft
              (if_continue state
                (record {
                  cm = o.cm;
                  errors = others_of o.error;
                  requeue_after = delays_of o.error;
                  clusters = (r.reconcile cm config t).1;
                })
                (record rest {
                  errors = others_of o.error ++ rest.errors;
                  requeue_after = delays_of o.error ++ rest.requeue_after;
                })).errors
          → (IsLeft rest.errors → SomeFails rs config o.cm (r.reconcile cm config t).1)
          → SomeFails (r ∷ rs) config cm t
      go stop fn left later = inl (others_of-IsFailure o.error left)
      go continue fn left later = elim (IsLeft-append (others_of o.error) rest.errors left) [
        | inl l ↦ inl (others_of-IsFailure o.error l)
        | inr l ↦ inr (fn, later l)
      ]

  -- What the reconcilers make of a sync with a CA bundle.
  abbrev pub outcome :
      List (Reconciler S N) → HubConfig → String → ClusterManager N → S → Reconciled S N
  outcome rs config bundle cm t =
      reconcile_all A T rs (record config { api_service_ca_bundle = T.encode_to_string bundle }) cm
        t

  -- Either no reconciler fails and the update reports no error, or one fails and the update writes.
  abbrev pub Silent :
      List (Reconciler S N)
      → HubConfig
      → ClusterManager N
      → S
      → Result (Status Condition Rest × Bool)
      → Type 0
  Silent rs config cm t u =
      (¬ SomeFails rs config cm t × ((x : Status Condition Rest × Bool) × (u ≡ ok x)))
      ⊎ (SomeFails rs config cm t × ((s : Status Condition Rest) × (u ≡ ok (s, true))))

  Quiet-iff :
      (rs : List (Reconciler S N)) (config : HubConfig) (cm : ClusterManager N) (t : S)
      (u : Result (Status Condition Rest × Bool)) (errors : List Error)
      → (reconcile_all A T rs config cm t).errors ≡ errors
      → Quiet A T errors u ↔ Silent rs config cm t u
  Quiet-iff rs config cm t u errors fn = go errors fn
    where
      go :
          (errors : List Error)
          → (reconcile_all A T rs config cm t).errors ≡ errors
          → Quiet A T errors u ↔ Silent rs config cm t u
      go [] fn = (
        λ h. inl (λ f. rw fn at (fails-IsLeft rs config cm t f), h),
        λ h. elim h [
          | inl (n, x) ↦ x
          | inr (f, x) ↦ absurd (rw fn at (fails-IsLeft rs config cm t f))
        ],
      )
      go (e ∷ es) fn =
          let f = IsLeft-fails rs config cm t (rw fn tt) in
          (λ h. inr (f, h), λ h. elim h [ inl (n, x) ↦ absurd (n f) | inr (f', x) ↦ x ])

  -- A sync of a cluster manager that is not deleted, with its CA bundle, reports no error exactly if either
  -- no reconciler that it calls fails and the status is updated without an error, or one fails and the
  -- update writes something: the failure is not reported then. A reconciler fails if it answers an error
  -- that is no request to be called again.
  pub sync_active-Silent :
      (rs : List (Reconciler S N)) (config : HubConfig) (feature : Condition)
      (config_map : Result (Dict String)) (cm : ClusterManager N) (t : S) (w : A.status.State)
      (bundle : String)
      → ca_bundle_of config_map ≡ ok bundle
      → ((sync_active A T rs config feature config_map cm t w).error ≡ none)
        ↔ Silent rs
            (record config { api_service_ca_bundle = T.encode_to_string bundle })
            cm
            t
            (update_cluster_manager_status T.conditions T.same A.status T.retry
              (updates_of A T feature
                (outcome rs config bundle cm t).cm
                (outcome rs config bundle cm t).errors)
              (outcome rs config bundle cm t).cm.name
              w).0
  unfolding sync_active with_ca_bundle report
  sync_active-Silent rs config feature config_map cm t w bundle found =
      let u =
        (update_cluster_manager_status T.conditions T.same A.status T.retry
          (updates_of A T feature (outcome rs config bundle cm t).cm
            (outcome rs config bundle cm t).errors)
          (outcome rs config bundle cm t).cm.name w).0 in
      let (to, from) = error_after_iff A T (outcome rs config bundle cm t).errors u in
      let (on, back) =
        Quiet-iff rs (record config { api_service_ca_bundle = T.encode_to_string bundle }) cm t u
          (outcome rs config bundle cm t).errors refl in
      rw found (λ h. on (to h), λ h. from (back h))
