-- ===== src/Migration/Sync/Settled.antt =====
-- What a sync has seen to that is not to be run again.
use registration_operator.Common.{
  String, ◌≡◌, refl, ◌⊎◌, inl, inr, Bool, true, false, Option, none, some, List, ◌∷◌, Error, Result,
  ok, err, error_of, error_of-eq-none, is_not_found, if◌then◌else◌, Aggregate, All,
}
use registration_operator.Kube.{Client}
use registration_operator.Helpers.StatusUpdates.{Status, cluster_manager_old_types}
use registration_operator.Helpers.StatusUpdates.Retry.{Retries, update_cluster_manager_status}
use registration_operator.Helpers.StatusUpdates.Stored.{
  IsLawful, IsEqual, Stored, update_status-Stored,
}
use registration_operator.Secrets.{Secret}
use registration_operator.Secrets.ClientConfig.{Config}
use registration_operator.Status
use registration_operator.Migration.{
  Migration, Condition, Decoded, Library, apply_storage_version_migrations, sync_condition,
}
use registration_operator.Migration.Laws.{HasSucceeded, sync_condition_iff}
use registration_operator.Migration.Sync.{
  ClusterManager, Reporting, Synced, ended, supported, support_storage_version_migration,
  updates_of, report, awaited, condition_synced, after_apply, if_supported, with_clients,
  hub_clients, sync, not_supported, migration_request_crd_name,
}

supported_iff :
    {D : Type 0} (r : Result D)
    → supported r ≡ ok false
    → (e : Error) × ((r ≡ err e) × (is_not_found e ≡ true))
unfolding supported
supported_iff (ok d) h = cc
supported_iff (err e) h = (e, (refl, go (is_not_found e) refl))
  where
    go : (b : Bool) → is_not_found e ≡ b → is_not_found e ≡ true
    go true fn = fn
    go false fn = let k = rw (fn) at h in cc

module _ {R : Type 0} (P : Reporting R) where
  awaited_done :
      {S : Type 0} (e : Option Error) (holds : Bool) (t : S) (w : P.managers.State)
      → (awaited P e holds t w).error ≡ none
      → (awaited P e holds t w).queued ≡ false
      → (e ≡ none) × ((holds ≡ true) × (awaited P e holds t w ≡ ended none false t w))
  unfolding awaited
  awaited_done (some e) holds t w h q = cc
  awaited_done none true t w h q = (refl, (refl, refl))
  awaited_done none false t w h q = cc

  -- The API lists a cluster manager with a status into which the condition was put.
  abbrev pub Reported : String → Condition → P.managers.State → Type 0
  Reported name c w =
      (s : Status Status.Condition R) × ((b : Bool) × Stored P.conditions P.same P.managers
          cluster_manager_old_types (updates_of P c) name w s b)

  module _ (is_conflict : Error → Bool)
      (Others : P.managers.State → P.managers.State → Type 0) where
    -- What the code relies on of the API and the retry.
    pub record IsReliable : Type 1 where
      pub law : IsLawful P.managers
      pub eq : IsEqual P.same
      pub retries : Retries is_conflict Others P.retry

    report-Reported :
        IsReliable
        → (c : Condition) (name : String) (w : P.managers.State)
        → error_of (report P c name w).0 ≡ none
        → Reported name c (report P c name w).1
    unfolding report update_cluster_manager_status
    report-Reported sure c name w h =
        let ((s, b), e) = error_of-eq-none (report P c name w).0 h in
        (
          s,
          (
            b,
            update_status-Stored P.conditions P.same P.managers cluster_manager_old_types
                (updates_of P c) name is_conflict Others P.retry sure.law sure.eq w sure.retries e,
          ),
        )

module _ {M S B R : Type 0} (C : Client (Migration M S)) (L : Library M S)
    (manifests : String → Result B) (decode : B → Result (Decoded M S)) (A : Aggregate)
    (P : Reporting R) (is_conflict : Error → Bool)
    (Others : P.managers.State → P.managers.State → Type 0)
    (sure : IsReliable P is_conflict Others) where
  -- The hub has every migration, each has succeeded, and so says the status.
  abbrev pub Migrated : List String → String → Synced C.State P.managers.State → Type 0
  Migrated files name x =
      All (HasSucceeded C L manifests decode x.hub) files
      × ((c : Condition) × ((c.holds ≡ true) × Reported P name c x.managers))

  condition_synced-Migrated :
      (files : List String) (name : String) (t : C.State) (w : P.managers.State)
      (r : Result Condition)
      → sync_condition C L manifests decode t files ≡ r
      → (condition_synced P name t w r).error ≡ none
      → (condition_synced P name t w r).queued ≡ false
      → Migrated files name (condition_synced P name t w r)
  unfolding condition_synced
  condition_synced-Migrated files name t w (err e) fn h q = cc
  condition_synced-Migrated files name t w (ok c) fn h q =
      let (calm, (holds, same)) =
        awaited_done P (error_of (report P c name w).0) c.holds t (report P c name w).1 h q in
      rw (same) (
        (sync_condition_iff C L manifests decode t files).0 (c, (fn, holds)),
        (c, (holds, report-Reported P is_conflict Others sure c name w calm)),
      )

  after_apply-Migrated :
      (files : List String) (name : String) (w : P.managers.State) (p : Option Error × C.State)
      → (after_apply C L manifests decode A P files name w p).error ≡ none
      → (after_apply C L manifests decode A P files name w p).queued ≡ false
      → Migrated files name (after_apply C L manifests decode A P files name w p)
  unfolding after_apply
  after_apply-Migrated files name w (some e, t) h q = cc
  after_apply-Migrated files name w (none, t) h q =
      condition_synced-Migrated files name t w (sync_condition C L manifests decode t files) refl h
        q

  -- The migrations are not supported: nothing was done on the hub, and the status says so.
  abbrev pub Unsupported :
      {D : Type 0}
      → (C.State → String → Result D)
      → C.State
      → String
      → Synced C.State P.managers.State
      → Type 0
  Unsupported get_crd t name x =
      (e : Error) × ((get_crd t migration_request_crd_name ≡ err e)
        × ((is_not_found e ≡ true) × ((x.hub ≡ t) × Reported P name not_supported x.managers)))

  if_supported_done :
      {D : Type 0} (get_crd : C.State → String → Result D) (files : List String)
      (cm : ClusterManager) (t : C.State) (w : P.managers.State) (r : Result Bool)
      → support_storage_version_migration (get_crd t) ≡ r
      → (if_supported C L manifests decode A P files cm t w r).error ≡ none
      → (if_supported C L manifests decode A P files cm t w r).queued ≡ false
      → Migrated files cm.name (if_supported C L manifests decode A P files cm t w r)
        ⊎ Unsupported get_crd t cm.name (if_supported C L manifests decode A P files cm t w r)
  unfolding if_supported support_storage_version_migration
  if_supported_done get_crd files cm t w (err e) fn h q = cc
  if_supported_done get_crd files cm t w (ok false) fn h q =
      let (e, (got, absent)) = supported_iff (get_crd t migration_request_crd_name) fn in
      inr (
        e,
        (
          got,
          (absent, (refl, report-Reported P is_conflict Others sure not_supported cm.name w h)),
        ),
      )
  if_supported_done get_crd files cm t w (ok true) fn h q =
      go (P.is_status_condition_true cm.conditions "Applied") h q
    where
      next : Synced C.State P.managers.State
      next =
          after_apply C L manifests decode A P files cm.name w
            (apply_storage_version_migrations C L manifests decode A files t)

      go :
          (b : Bool)
          → (if b then next else ended none true t w).error ≡ none
          → (if b then next else ended none true t w).queued ≡ false
          → Migrated files cm.name (if b then next else ended none true t w)
            ⊎ Unsupported get_crd t cm.name (if b then next else ended none true t w)
      go true h q = inl (
          after_apply-Migrated files cm.name w
            (apply_storage_version_migrations C L manifests decode A files t) h q)
      go false h q = cc

  -- With clients for the hub: the one or the other.
  abbrev Either :
      {D : Type 0}
      → List String
      → C.State
      → String
      → Result (C.State → String → Result D)
      → Synced C.State P.managers.State
      → Type 0
  Either {D = D} files t name r x =
      Migrated files name x
      ⊎ ((get_crd : C.State → String → Result D) × ((r ≡ ok get_crd)
            × Unsupported get_crd t name x))

  with_clients_done :
      {D : Type 0} (files : List String) (cm : ClusterManager) (t : C.State) (w : P.managers.State)
      → cm.is_deleting ≡ false
      → (r : Result (C.State → String → Result D))
      → (with_clients C L manifests decode A P files cm t w r).error ≡ none
      → (with_clients C L manifests decode A P files cm t w r).queued ≡ false
      → Either files t cm.name r (with_clients C L manifests decode A P files cm t w r)
  unfolding with_clients
  with_clients_done files cm t w active (err e) h q = cc
  with_clients_done {D = D} files cm t w active (ok get_crd) h q =
      rw (active) (go (rw (active) at h) (rw (active) at q))
    where
      x : Synced C.State P.managers.State
      x =
          if_supported C L manifests decode A P files cm t w
            (support_storage_version_migration (get_crd t))

      go : x.error ≡ none → x.queued ≡ false → Either files t cm.name (ok get_crd) x
      go h q = named (
          if_supported_done get_crd files cm t w (support_storage_version_migration (get_crd t))
            refl h q)
        where
          named :
              Migrated files cm.name x ⊎ Unsupported get_crd t cm.name x
              → Either files t cm.name (ok get_crd) x
          named (inl done) = inl done
          named (inr none_) = inr (get_crd, (refl, none_))

  module _ {D Cluster Kubeconfig : Type 0} (load : String → Result (Config Cluster))
      (client_config : Config Cluster → Result Kubeconfig)
      (generate : Kubeconfig → Result (C.State → String → Result D)) (own : Kubeconfig)
      (get_secret : String → String → Result Secret) (file : String) (files : List String)
      (cm : ClusterManager) (t : C.State) (w : P.managers.State) where
    abbrev synced : Synced C.State P.managers.State
    synced =
        sync C L manifests decode A P load client_config generate own get_secret (file ∷ files)
          (ok cm) t w

    -- If the sync of a cluster manager that is not deleted reports no error and does not queue its key
    -- again, then either each requested migration is on the hub and has succeeded, and the status was
    -- updated with a MigrationSucceeded that is true, or the hub does not know the migrations, nothing
    -- was done there, and the status was updated with one that is false.
    pub sync_done :
        cm.is_deleting ≡ false
        → synced.error ≡ none
        → synced.queued ≡ false
        → Migrated (file ∷ files) cm.name synced
          ⊎ ((get_crd : C.State → String → Result D) × ((hub_clients C L manifests decode A P load
                    client_config generate own get_secret cm
                  ≡ ok get_crd)
                × Unsupported get_crd t cm.name synced))
    unfolding sync
    sync_done active h q =
        with_clients_done (file ∷ files) cm t w active
          (hub_clients C L manifests decode A P load client_config generate own get_secret cm) h q
