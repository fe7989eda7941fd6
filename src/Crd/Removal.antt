-- ===== src/Crd/Removal.antt =====
-- Removing CRDs: `Clean` and `CleanOne` without `skip`, of pkg/operators/crdmanager/manager.go.
use registration_operator.Common.{
  String, ◌≡◌, refl, false, Option, none, some, List, [], ◌∷◌, Error, not_found, Result, ok, err,
  arith, string_eq, All, Aggregate, remaining_crds, failure, requeue,
}
use registration_operator.Crd.{
  Crd, Manager, clean_one, deleted, load, clean_files, clean, clean_loaded, outcome_of, report,
  errs_of, remaining_of, Outcome, removed, remains, failed,
}
use registration_operator.Crd.Assumptions.{IsSound}

report-eq-none :
    (a : Aggregate) (es : List Error) (names : List String)
    → report a es names ≡ none
    → (es ≡ []) × (names ≡ [])
unfolding report
report-eq-none a (e ∷ es) names h = let (x, p) = a.new_aggregate-cons e es in cc
report-eq-none a [] (n ∷ names) h = cc
report-eq-none a [] [] h = (refl, refl)

module _ {S : Type 0} (m : Manager S) where
  abbrev pub Absent : m.client.State → String → Type 0
  Absent s k = m.client.get s k ≡ err (not_found k)

  -- A file whose CRD is gone.
  abbrev pub Gone : m.client.State → Result (Crd S) → Type 0
  Gone s r = (c : Crd S) × (r ≡ ok c) × Absent s c.name

  module _ {W B : Type 0} (manifests : String → W → Result B × W)
      (decode : B → Result (Crd S)) where
    -- What the files hold, read in the order of the loop.
    abbrev pub loads : List String → W → List (Result (Crd S))
    loads [] w = []
    loads (file ∷ files) w = let (r, w₁) = load m manifests decode file w in r ∷ loads files w₁

module _ {S : Type 0} (m : Manager S) (h : IsSound m) where
  -- `CleanOne` succeeds only where the server has no such CRD.
  clean_one-Absent :
      (s : m.client.State) (k : String)
      → (clean_one m s k false).0 ≡ none
      → Absent m (clean_one m s k false).1 k
  unfolding clean_one
  clean_one-Absent s k done = go (m.client.delete s k).0 refl done
    where
      go :
          (e : Option Error)
          → (m.client.delete s k).0 ≡ e
          → (deleted m k (e, (m.client.delete s k).1)).0 ≡ none
          → Absent m (deleted m k (e, (m.client.delete s k).1)).1 k
      go none p q = cc
      go (some (not_found t)) p q =
          rw (h.lawful.delete_err s k p) (h.lawful.delete_absent s k p refl)
      go (some e) p q = cc

  deleted-state : (k : String) (r : Option Error × m.client.State) → (deleted m k r).1 ≡ r.1
  unfolding deleted
  deleted-state k (none, s) = refl
  deleted-state k (some e, s) = ground arith

  clean_one-keeps_Absent :
      (s : m.client.State) (k j : String) → Absent m s j → Absent m (clean_one m s k false).1 j
  unfolding clean_one
  clean_one-keeps_Absent s k j away = rw deleted-state (go (m.client.delete s k).0 refl)
    where
      go : (e : Option Error) → (m.client.delete s k).0 ≡ e → Absent m (m.client.delete s k).1 j
      go none p = h.lawful.get-delete s k j p away
      go (some e) p = rw (h.lawful.delete_err s k p) away

  module _ {W B : Type 0} (manifests : String → W → Result B × W)
      (decode : B → Result (Crd S)) where
    clean_loaded-keeps_Absent :
        (s : m.client.State) (r : Result (Crd S)) (j : String)
        → Absent m s j
        → Absent m (clean_loaded m manifests decode false s r).1 j
    unfolding clean_loaded
    clean_loaded-keeps_Absent s (err e) j away = away
    clean_loaded-keeps_Absent s (ok c) j away = clean_one-keeps_Absent s c.name j away

    clean_files-keeps_Absent :
        (files : List String) (s : m.client.State) (w : W) (j : String)
        → Absent m s j
        → Absent m (clean_files m manifests decode false files s w).1 j
    unfolding clean_files
    clean_files-keeps_Absent [] s w j away = away
    clean_files-keeps_Absent (file ∷ files) s w j away =
        let r = (load m manifests decode file w).0 in
        clean_files-keeps_Absent files (clean_loaded m manifests decode false s r).1
          (load m manifests decode file w).1 j (clean_loaded-keeps_Absent s r j away)

    outcome_of-removed :
        (k : String) (e : Option Error) → outcome_of m manifests decode k e ≡ removed → e ≡ none
    unfolding outcome_of
    outcome_of-removed k none p = refl
    outcome_of-removed k (some (remaining_crds x)) p = cc
    outcome_of-removed k (some (not_found t)) p = cc
    outcome_of-removed k (some (failure t)) p = cc
    outcome_of-removed k (some (requeue t n)) p = cc

    clean_loaded-Gone :
        (s : m.client.State) (r : Result (Crd S))
        → (clean_loaded m manifests decode false s r).0 ≡ removed
        → Gone m (clean_loaded m manifests decode false s r).1 r
    unfolding clean_loaded
    clean_loaded-Gone s (err e) p = cc
    clean_loaded-Gone s (ok c) p =
        (c, refl, clean_one-Absent s c.name (outcome_of-removed c.name _ p))

    all_removed :
        (o : Outcome) (os : List Outcome)
        → errs_of (o ∷ os) ≡ []
        → remaining_of (o ∷ os) ≡ []
        → (o ≡ removed) × (errs_of os ≡ []) × (remaining_of os ≡ [])
    all_removed removed os p q = (refl, p, q)
    all_removed (remains n) os p q = cc
    all_removed (failed e) os p q = cc

    clean_files-Gone :
        (files : List String) (s : m.client.State) (w : W)
        → errs_of (clean_files m manifests decode false files s w).0 ≡ []
        → remaining_of (clean_files m manifests decode false files s w).0 ≡ []
        → All
            (Gone m (clean_files m manifests decode false files s w).1)
            (loads m manifests decode files w)
    unfolding clean_files
    clean_files-Gone [] s w p q = tt
    clean_files-Gone (file ∷ files) s w p q =
        let r = (load m manifests decode file w).0 in
        let w₁ = (load m manifests decode file w).1 in
        let s₁ = (clean_loaded m manifests decode false s r).1 in
        let (o, p', q') = all_removed (clean_loaded m manifests decode false s r).0 _ p q in
        let (c, e, away) = clean_loaded-Gone s r o in
        (
          (c, e, clean_files-keeps_Absent files s₁ w₁ c.name away),
          clean_files-Gone files s₁ w₁ p' q',
        )

    -- `Clean` without `skip` returns no error only when each file's CRD could be read and is gone
    -- from the server at the end. Until then the caller sees an error: a successful delete request
    -- is no success.
    pub clean-Gone :
        (a : Aggregate) (files : List String) (s : m.client.State) (w : W)
        → (clean m manifests decode a false files s w).0 ≡ none
        → All
            (Gone m (clean m manifests decode a false files s w).1)
            (loads m manifests decode files w)
    unfolding clean
    clean-Gone a files s w done =
        let (p, q) = report-eq-none a _ _ done in clean_files-Gone files s w p q
