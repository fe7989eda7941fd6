-- ===== src/StoredVersions/Laws.antt =====
-- What a sync leaves on the hub.
use registration_operator.Common.{
  String, ◌≡◌, ◌≢◌, refl, Bool, true, false, Option, none, some, List, [], ◌∷◌, Error, Result, ok,
  err, error_of, error_of-eq-none, if◌then◌else◌, ◌==◌, string_eq, All, arith, ap, ◌∙◌,
}
use registration_operator.Kube.{Client, IsLawful}
use registration_operator.Secrets.{Secret}
use registration_operator.Secrets.ClientConfig.{Config}
use registration_operator.Status.{Condition}
use registration_operator.Migration.Sync.{ClusterManager, migration_succeeded}
use registration_operator.StoredVersions.{
  Crd, deep_equal, update_found, unless_failed, update_stored_version, Synced, ended, with_client,
  sync_active, hub_client, sync,
}

-- The server keeps the name and the versions of what is written.
abbrev pub Keeps : {S : Type 0} → Crd S → Crd S → Type 0
Keeps o p = (p.name ≡ o.name) × (p.stored_versions ≡ o.stored_versions)

deep_equal_eq : (vs us : List String) → deep_equal vs us ≡ true → vs ≡ us
unfolding deep_equal
deep_equal_eq [] [] h = refl
deep_equal_eq [] (_ ∷ _) h = cc
deep_equal_eq (_ ∷ _) [] h = cc
deep_equal_eq (v ∷ vs) (u ∷ us) h = ground (arith, deep_equal_eq vs us)

-- No key twice, as in a map.
abbrev pub IsMap : List (String × List String) → Type 0
IsMap [] = Unit
IsMap (d ∷ ds) = All (λ e. d.0 ≢ e.0) ds × IsMap ds

module _ {S : Type 0} (C : Client (Crd S)) (law : IsLawful (λ c. c.name) Keeps C) where
  -- The status of the CRD lists these versions.
  abbrev pub Lists : C.State → String × List String → Type 0
  Lists t (name, versions) =
      (crd : Crd S) × ((C.get t name ≡ ok crd) × (crd.stored_versions ≡ versions))

  -- A write changes the named CRD only.
  get-update :
      (t : C.State) (name : String) (versions : List String) (crd : Crd S) (j : String)
      → C.get t name ≡ ok crd
      → error_of (C.update t (record crd { stored_versions = versions })).0 ≡ none
      → (p : Crd S) × ((p.stored_versions ≡ versions)
          × (C.get (C.update t (record crd { stored_versions = versions })).1 j
              ≡ (if j == name then ok p else C.get t j)))
  get-update t name versions crd j fn h =
      let next : Crd S = record crd { stored_versions = versions } in
      let (p, written) = error_of-eq-none (C.update t next).0 h in
      let named : crd.name ≡ name = law.get-name t name fn in
      (
        p,
        (
          (law.update-keeps t next written).1,
          (law.get-update t next j written ∙ ap (λ n. if j == n then ok p else C.get t j) named),
        ),
      )

  update_found-Lists :
      (t : C.State) (name : String) (versions : List String) (r : Result (Crd S))
      → C.get t name ≡ r
      → (update_found C t versions r).0 ≡ none
      → Lists (update_found C t versions r).1 (name, versions)
  unfolding update_found
  update_found-Lists t name versions (err e) fn h = cc
  update_found-Lists t name versions (ok crd) fn h =
      go (deep_equal crd.stored_versions versions) refl h
    where
      sent : Option Error × C.State
      sent =
          let (r, t') = C.update t (record crd { stored_versions = versions }) in (error_of r, t')

      go :
          (b : Bool)
          → deep_equal crd.stored_versions versions ≡ b
          → (if b then (none, t) else sent).0 ≡ none
          → Lists (if b then (none, t) else sent).1 (name, versions)
      go true same h = (crd, (fn, deep_equal_eq crd.stored_versions versions same))
      go false same h =
          let (p, (kept, got)) = get-update t name versions crd name fn h in
          (p, (ground arith, kept))

  update_found-Lists_other :
      (t : C.State) (name : String) (versions : List String) (d : String × List String)
      (r : Result (Crd S))
      → C.get t name ≡ r
      → (update_found C t versions r).0 ≡ none
      → d.0 ≢ name
      → Lists t d
      → Lists (update_found C t versions r).1 d
  unfolding update_found
  update_found-Lists_other t name versions d (err e) fn h apart there = there
  update_found-Lists_other t name versions d (ok crd) fn h apart (o, (found, listed)) =
      go (deep_equal crd.stored_versions versions) h
    where
      sent : Option Error × C.State
      sent =
          let (r, t') = C.update t (record crd { stored_versions = versions }) in (error_of r, t')

      go :
          (b : Bool)
          → (if b then (none, t) else sent).0 ≡ none
          → Lists (if b then (none, t) else sent).1 d
      go true h = (o, (found, listed))
      go false h =
          let (p, (kept, got)) = get-update t name versions crd d.0 fn h in
          (o, (ground arith, listed))

  unless_failed_done :
      (Q : C.State → Type 0) (x : Option Error × C.State) (next : C.State → Option Error × C.State)
      → ((t : C.State) → x ≡ (none, t) → (next t).0 ≡ none → Q (next t).1)
      → (unless_failed C x next).0 ≡ none
      → Q (unless_failed C x next).1
  unfolding unless_failed
  unless_failed_done Q (some e, t) next each h = cc
  unless_failed_done Q (none, t) next each h = each t refl h

  update_stored_version-Lists_other :
      (entries : List (String × List String)) (d : String × List String) (t : C.State)
      → All (λ e. d.0 ≢ e.0) entries
      → Lists t d
      → (update_stored_version C entries t).0 ≡ none
      → Lists (update_stored_version C entries t).1 d
  unfolding update_stored_version
  update_stored_version-Lists_other [] d t apart there h = there
  update_stored_version-Lists_other ((name, versions) ∷ entries) d t (apart, others) there h =
      unless_failed_done (λ t. Lists t d) (update_found C t versions (C.get t name))
        (λ t. update_stored_version C entries t)
        (λ u same calm.
          update_stored_version-Lists_other entries d u others
            (rw (ap (λ x. x.1) same) at (
              update_found-Lists_other t name versions d (C.get t name) refl (ap (λ x. x.0) same)
                apart there))
            calm)
        h

  update_stored_version-Lists :
      (entries : List (String × List String)) (t : C.State)
      → IsMap entries
      → (update_stored_version C entries t).0 ≡ none
      → All (Lists (update_stored_version C entries t).1) entries
  unfolding update_stored_version
  update_stored_version-Lists [] t distinct h = tt
  update_stored_version-Lists ((name, versions) ∷ entries) t (fresh, distinct) h =
      unless_failed_done (λ t. All (Lists t) ((name, versions) ∷ entries))
        (update_found C t versions (C.get t name)) (λ t. update_stored_version C entries t)
        (λ u same calm. (
          update_stored_version-Lists_other entries (name, versions) u fresh
              (rw (ap (λ x. x.1) same) at
                (update_found-Lists t name versions (C.get t name) refl (ap (λ x. x.0) same)))
              calm,
          update_stored_version-Lists entries u distinct calm,
        ))
        h

  module _ (is_status_condition_true : List Condition → String → Bool)
      (entries : List (String × List String)) (distinct : IsMap entries) where
    -- The migrations were reported as done, and every desired CRD lists the desired versions.
    abbrev Done : ClusterManager → Synced C.State → Type 0
    Done cm x =
        (is_status_condition_true cm.conditions migration_succeeded ≡ true)
        × All (Lists x.hub) entries

    with_client-Lists :
        (t : C.State) (clients : Option Error)
        → (with_client C is_status_condition_true entries t clients).error ≡ none
        → All (Lists (with_client C is_status_condition_true entries t clients).hub) entries
    unfolding with_client
    with_client-Lists t (some e) h = cc
    with_client-Lists t none h = update_stored_version-Lists entries t distinct h

    sync_active-Done :
        (cm : ClusterManager) (clients : Option Error) (t : C.State)
        → (sync_active C is_status_condition_true entries cm clients t).error ≡ none
        → (sync_active C is_status_condition_true entries cm clients t).queued ≡ false
        → Done cm (sync_active C is_status_condition_true entries cm clients t)
    unfolding sync_active
    sync_active-Done cm clients t h q =
        go (is_status_condition_true cm.conditions migration_succeeded) refl h q
      where
        next : Synced C.State
        next = with_client C is_status_condition_true entries t clients

        go :
            (b : Bool)
            → is_status_condition_true cm.conditions migration_succeeded ≡ b
            → (if b then next else ended none true t).error ≡ none
            → (if b then next else ended none true t).queued ≡ false
            → Done cm (if b then next else ended none true t)
        go true fn h q = (fn, with_client-Lists t clients h)
        go false fn h q = cc

    module _ {Cluster Kubeconfig : Type 0} (load : String → Result (Config Cluster))
        (client_config : Config Cluster → Result Kubeconfig) (generate : Kubeconfig → Option Error)
        (own : Kubeconfig) (get_secret : String → String → Result Secret) (cm : ClusterManager)
        (t : C.State) where
      abbrev synced : Synced C.State
      synced =
          sync C is_status_condition_true entries load client_config generate own get_secret (ok cm)
            t

      -- A sync of a cluster manager that is not deleted, which reports no error and does not queue its key
      -- again, saw that the migrations are reported as succeeded, and leaves each desired CRD on the hub
      -- with the desired stored versions, in whatever order they are visited.
      pub sync-Lists :
          cm.is_deleting ≡ false
          → synced.error ≡ none
          → synced.queued ≡ false
          → (is_status_condition_true cm.conditions migration_succeeded ≡ true)
            × All (Lists synced.hub) entries
      unfolding sync
      sync-Lists active h q = rw (active) (
          sync_active-Done cm
            (hub_client C is_status_condition_true entries load client_config generate own
              get_secret cm)
            t (rw (active) at h) (rw (active) at q))
