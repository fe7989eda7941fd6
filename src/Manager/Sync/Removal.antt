-- ===== src/Manager/Sync/Removal.antt =====
-- When the finalizer of a deleted cluster manager goes.
use registration_operator.Common.{
  ◌≡◌, refl, ◌⊎◌, inl, inr, Bool, true, false, ◌||◌, Option, none, some, List, [], ◌∷◌, Error,
  if◌then◌else◌, length, ltb,
}
use registration_operator.Manager.Config.{HubConfig}
use registration_operator.Manager.Reconcile.{ClusterManager, Outcome, Reconciler}
use registration_operator.Manager.Report.{
  Api, Tools, without_finalizer, remove_cluster_manager_finalizer,
}
use registration_operator.Manager.Sync.{clean_all, clean_after, finalized, sync_deleting}

module _ {N : Type 0} (A : Api N) (T : Tools A.status.State) where
  -- The object goes to the API without the finalizer.
  abbrev pub Sent : ClusterManager N → A.status.State → A.status.State → Type 0
  Sent cm w w' = w' ≡ (A.update w (record cm { finalizers = without_finalizer cm.finalizers })).1

  removed_or_not :
      (cm : ClusterManager N) (w : A.status.State)
      → ((remove_cluster_manager_finalizer A T cm w).1 ≡ w)
        ⊎ Sent cm w (remove_cluster_manager_finalizer A T cm w).1
  unfolding remove_cluster_manager_finalizer
  removed_or_not cm w =
      let kept = without_finalizer cm.finalizers in
      go (ltb (length kept) (length cm.finalizers) || ltb (length cm.finalizers) (length kept))
    where
      sent : Option Error × A.status.State
      sent = A.update w (record cm { finalizers = without_finalizer cm.finalizers })

      go :
          (b : Bool)
          → ((if b then sent else (none, w)).1 ≡ w) ⊎ Sent cm w (if b then sent else (none, w)).1
      go true = inr refl
      go false = inl refl

module _ {S N : Type 0} (A : Api N) (T : Tools A.status.State) where
  -- The cleans of all reconcilers, in order and each without an error, lead from one copy and state to
  -- another.
  abbrev pub Cleaned :
      List (Reconciler S N) → HubConfig → ClusterManager N → S → ClusterManager N → S → Type 0
  Cleaned [] config cm t cm' t' = (cm' ≡ cm) × (t' ≡ t)
  Cleaned (r ∷ rs) config cm t cm' t' =
      ((r.clean cm config t).0.error ≡ none)
      × Cleaned rs config (r.clean cm config t).0.cm (r.clean cm config t).1 cm' t'

  clean_all-Cleaned :
      (rs : List (Reconciler S N)) (config : HubConfig) (cm : ClusterManager N) (t : S)
      → (clean_all A T rs config cm t).0.error ≡ none
      → Cleaned rs config cm t (clean_all A T rs config cm t).0.cm (clean_all A T rs config cm t).1
  unfolding clean_all
  clean_all-Cleaned [] config cm t h = (refl, refl)
  clean_all-Cleaned (r ∷ rs) config cm t h =
      go (r.clean cm config t).0.error refl h (λ cm t. clean_all-Cleaned rs config cm t)
    where
      next : ClusterManager N → S → Outcome N × S
      next cm t = clean_all A T rs config cm t

      x : Outcome N × S
      x = r.clean cm config t

      go :
          (e : Option Error)
          → x.0.error ≡ e
          → (clean_after A T e x next).0.error ≡ none
          → ((cm : ClusterManager N) (t : S)
              → (next cm t).0.error ≡ none
              → Cleaned rs config cm t (next cm t).0.cm (next cm t).1)
          → (x.0.error ≡ none)
            × Cleaned rs config x.0.cm x.1
                (clean_after A T e x next).0.cm
                (clean_after A T e x next).1
      go (some e) fn h rest = cc
      go none fn h rest = (fn, rest x.0.cm x.1 h)

  -- The sync of a deleted cluster manager either leaves the API as it is, or it has run the clean of every
  -- reconciler, in order and each without an error, and what it sends is the resulting object without
  -- the finalizer.
  pub sync_deleting_safe :
      (rs : List (Reconciler S N)) (config : HubConfig) (cm : ClusterManager N) (t : S)
      (w : A.status.State)
      → ((sync_deleting A T rs config cm t w).managers ≡ w)
        ⊎ ((cm' : ClusterManager N) × ((t' : S) × (Cleaned rs config cm t cm' t'
                × (((sync_deleting A T rs config cm t w).clusters ≡ t')
                    × Sent A T cm' w (sync_deleting A T rs config cm t w).managers))))
  unfolding sync_deleting finalized
  sync_deleting_safe rs config cm t w = go (clean_all A T rs config cm t).0.error refl
    where
      x : Outcome N × S
      x = clean_all A T rs config cm t

      go :
          (e : Option Error)
          → x.0.error ≡ e
          → ((finalized A T e x w).managers ≡ w)
            ⊎ ((cm' : ClusterManager N) × ((t' : S) × (Cleaned rs config cm t cm' t'
                    × (((finalized A T e x w).clusters ≡ t')
                        × Sent A T cm' w (finalized A T e x w).managers))))
      go (some e) fn = inl refl
      go none fn = elim (removed_or_not A T x.0.cm w) [
        | inl same ↦ inl same
        | inr sent ↦ inr (x.0.cm, (x.1, (clean_all-Cleaned rs config cm t fn, (refl, sent))))
      ]
