-- ===== src/Secrets/Sync/Laws.antt =====
-- What a sync leaves of the target.
use registration_operator.Common.{
  String, ◌≡◌, ◌≢◌, refl, Bool, true, false, List, Option, none, some, Error, failure, not_found,
  Result, ok, err, is_not_found, if◌then◌else◌, string_eq, arith, ap, ◌∙◌,
}
use registration_operator.Secrets.{
  Secret, SecretType, opaque, service_account_token, other_secret_type, Client, IsLawful,
}
use registration_operator.Secrets.Sync.{
  Outcome, failed, nothing, prepare, prepare_typed, placed, deleted, remove_target, applied,
  apply_copy, sync_secret,
}

not_found_of : (e : Error) → is_not_found e ≡ true → (k : String) × (e ≡ not_found k)
not_found_of (not_found k) h = (k, refl)
not_found_of (failure m) h = cc
not_found_of _ h = cc

prepare_typed-opaque :
    (s : Secret) (k : SecretType) {p : Secret}
    → s.secret_type ≡ k
    → prepare_typed s k ≡ ok p
    → (p.contents ≡ s.contents) × (p.secret_type ≢ service_account_token)
unfolding prepare_typed
prepare_typed-opaque s service_account_token e h = ground arith
prepare_typed-opaque s opaque e h = (cc, λ q. cc)
prepare_typed-opaque s (other_secret_type n) e h = (cc, λ q. cc)

module _ (C : Client) (ns name : String) (owners : List String) where
  abbrev pub IsAbsent : C.State → Type 0
  IsAbsent t = C.get t ns name ≡ err (not_found name)

  -- The target has the data of `s`, and is no token of a service account.
  abbrev pub IsCopy : Secret → C.State → Type 0
  IsCopy s t =
      (p : Secret) × ((C.get t ns name ≡ ok p)
        × ((p.contents ≡ s.contents) × (p.secret_type ≢ service_account_token)))

  -- What an outcome without error promises.
  abbrev pub Mirrors : Result Secret → C.State → Type 0
  Mirrors (ok s) t = IsCopy s t
  Mirrors (err e) t = IsAbsent t

  deleted-IsAbsent :
      (law : IsLawful C) (t : C.State) (r : Option Error × C.State)
      → C.delete t ns name ≡ r
      → (deleted C ns name owners r).0.error ≡ none
      → IsAbsent (deleted C ns name owners r).1
  unfolding deleted
  deleted-IsAbsent law t (none, t') fn h = rw fn at (law.get-delete t ns name (ap (λ r. r.0) fn))
  deleted-IsAbsent law t (some e, t') fn h = go (is_not_found e) refl h
    where
      go :
          (b : Bool)
          → is_not_found e ≡ b
          → (if◌then◌else◌ {A = Outcome × C.State} b (nothing false, t') (failed e, t')).0.error
            ≡ none
          → IsAbsent (if◌then◌else◌ {A = Outcome × C.State} b (nothing false, t') (failed e, t')).1
      go true fine h =
          let (k, same) = not_found_of e fine in
          rw fn at (law.delete_absent t ns name {k = k} (ap (λ r. r.0) fn ∙ ap some same))
      go false fine h = cc

  removed-IsAbsent :
      (law : IsLawful C) (t : C.State) (r : Result Secret)
      → C.get t ns name ≡ r
      → (remove_target C ns name owners t r).0.error ≡ none
      → IsAbsent (remove_target C ns name owners t r).1
  unfolding remove_target
  removed-IsAbsent law t (ok s) fn h = deleted-IsAbsent law t (C.delete t ns name) refl h
  removed-IsAbsent law t (err e) fn h = go (is_not_found e) refl h
    where
      go :
          (b : Bool)
          → is_not_found e ≡ b
          → (if b then (nothing true, t) else deleted C ns name owners (C.delete t ns name)).0.error
            ≡ none
          → IsAbsent
              (if b then (nothing true, t) else deleted C ns name owners (C.delete t ns name)).1
      go true fine h =
          let (k, same) = not_found_of e fine in law.get_absent t ns name {k = k} (fn ∙ ap err same)
      go false fine h = deleted-IsAbsent law t (C.delete t ns name) refl h

  applied-IsCopy :
      (law : IsLawful C) (t : C.State) (s p : Secret) (r : Result (Secret × Bool) × C.State)
      → C.apply_secret t (placed ns name owners p) ≡ r
      → (p.contents ≡ s.contents) × (p.secret_type ≢ service_account_token)
      → (applied C ns name owners r).0.error ≡ none
      → IsCopy s (applied C ns name owners r).1
  unfolding applied
  applied-IsCopy law t s p (err e, t') fn kept h = cc
  applied-IsCopy law t s p (ok (q, changed), t') fn (same, typed) h =
      let (o, (got, (data_, kind))) =
        law.get-apply_secret t (placed ns name owners p) (ap (λ r. r.0) fn) in
      (o, (rw fn at got, (data_ ∙ same, kind typed)))

  apply_copy-IsCopy :
      (law : IsLawful C) (t : C.State) (s : Secret) (r : Result Secret)
      → prepare s ≡ r
      → (apply_copy C ns name owners t r).0.error ≡ none
      → IsCopy s (apply_copy C ns name owners t r).1
  unfolding apply_copy prepare
  apply_copy-IsCopy law t s (err e) fn h = cc
  apply_copy-IsCopy law t s (ok p) fn h =
      applied-IsCopy law t s p (C.apply_secret t (placed ns name owners p)) refl
        (prepare_typed-opaque s s.secret_type refl fn) h

  -- A sync that reports no error leaves a copy of the source, with its data and never as a service
  -- account's token, or, if the source is missing, no target.
  pub sync_secret-Mirrors :
      (law : IsLawful C) (t : C.State) (source : Result Secret)
      → (sync_secret C ns name owners t source).0.error ≡ none
      → Mirrors source (sync_secret C ns name owners t source).1
  unfolding sync_secret
  sync_secret-Mirrors law t (ok s) h = apply_copy-IsCopy law t s (prepare s) refl h
  sync_secret-Mirrors law t (err e) h = go (is_not_found e) h
    where
      go :
          (b : Bool)
          → (if b
              then remove_target C ns name owners t (C.get t ns name)
              else (failed e, t)).0.error
            ≡ none
          → IsAbsent
              (if b then remove_target C ns name owners t (C.get t ns name) else (failed e, t)).1
      go true h = removed-IsAbsent law t (C.get t ns name) refl h
      go false h = cc
