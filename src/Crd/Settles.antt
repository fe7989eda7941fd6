-- ===== src/Crd/Settles.antt =====
-- Applying a CRD comes to rest: `applyOne` of pkg/operators/crdmanager/manager.go.
use registration_operator.Common.{
  String, ◌≡◌, refl, ap, true, false, Option, none, some, [], Bool, not_found, Result, ok, err,
  arith, ◌==◌, string_eq, if◌then◌else◌, error_of-eq-none, ◌∙◌,
}
use registration_operator.Common.Dict
use registration_operator.Crd.{
  Crd, Manager, annotation, version_annotation_key, should_update, stamped, apply_one,
  set_annotation, apply_existing, update_one,
}
use registration_operator.Crd.Assumptions.{Keeps, Covers, IsSound}

annotation-set_annotation :
    (a : Option (Dict.Dict String)) (k v j : String)
    → annotation (set_annotation a k v) j ≡ (if j == k then some v else annotation a j)
unfolding Dict.lookup
annotation-set_annotation none k v j = Dict.lookup-insert j k v []
annotation-set_annotation (some d) k v j = Dict.lookup-insert j k v d

module _ {S : Type 0} (m : Manager S) (h : IsSound m) where
  -- The server holds a CRD that a further apply leaves alone.
  abbrev pub Settled : m.client.State → Crd S → Type 0
  Settled s r = (p : Crd S) × (m.client.get s r.name ≡ ok p) × (should_update m p r ≡ ok false)

  Covers-stamped :
      (old r p : Crd S)
      → annotation r.annotations version_annotation_key ≡ none
      → Keeps (stamped m old r) p
      → Covers p r
  unfolding stamped
  Covers-stamped old r p fresh kept k v e = ground (
    arith,
    annotation-set_annotation r.annotations version_annotation_key m.version k,
    ap (λ a. annotation a k) kept.1,
  )

  should_update-stamped :
      (old r p : Crd S)
      → annotation r.annotations version_annotation_key ≡ none
      → Keeps (stamped m old r) p
      → should_update m p r ≡ ok false
  unfolding stamped should_update
  should_update-stamped old r p fresh kept = ground (
    arith,
    h.version_set,
    h.compare_self,
    h.equal_same p r kept.2 (Covers-stamped old r p fresh kept),
    annotation-set_annotation r.annotations version_annotation_key m.version version_annotation_key,
    ap (λ a. annotation a version_annotation_key) kept.1,
  )

  update_one-settles :
      (s : m.client.State) (r old : Crd S) (d : Result Bool)
      → annotation r.annotations version_annotation_key ≡ none
      → m.client.get s r.name ≡ ok old
      → should_update m old r ≡ d
      → (update_one m s old r d).0 ≡ none
      → Settled (update_one m s old r d).1 r
  unfolding update_one
  update_one-settles s r old (err e) fresh found same done = cc
  update_one-settles s r old (ok false) fresh found same done = (old, found, same)
  update_one-settles s r old (ok true) fresh found same done =
      let (p, wrote) = error_of-eq-none (m.client.update s (stamped m old r)).0 done in
      (
        p,
        h.lawful.get-update s (stamped m old r) r.name wrote ∙ ground arith,
        should_update-stamped old r p fresh (h.lawful.update-keeps s (stamped m old r) wrote),
      )

  -- One apply over an existing CRD settles it, unless it fails.
  apply_one-settles :
      (s : m.client.State) (r old : Crd S)
      → annotation r.annotations version_annotation_key ≡ none
      → m.client.get s r.name ≡ ok old
      → (apply_one m s r).0 ≡ none
      → Settled (apply_one m s r).1 r
  unfolding apply_one
  apply_one-settles s r old fresh found =
      rw (found, apply_existing)
        (update_one-settles s r old (should_update m old r) fresh found refl)

  apply_existing-present :
      (s : m.client.State) (r : Crd S) (g : Result (Crd S))
      → annotation r.annotations version_annotation_key ≡ none
      → m.client.get s r.name ≡ g
      → (apply_existing m s r g).0 ≡ none
      → (p : Crd S) × (m.client.get (apply_existing m s r g).1 r.name ≡ ok p)
  unfolding apply_existing
  apply_existing-present s r (ok old) fresh found done =
      let (p, held, _) = update_one-settles s r old (should_update m old r) fresh found refl done in
      (p, held)
  apply_existing-present s r (err (not_found t)) fresh found done =
      let (p, wrote) = error_of-eq-none (m.client.create s r).0 done in
      (p, h.lawful.get-create s r r.name wrote ∙ ground arith)
  apply_existing-present s r (err e) fresh found done = cc

  apply_one_of_Settled :
      (s : m.client.State) (r : Crd S) → Settled s r → apply_one m s r ≡ (none, s)
  unfolding apply_one
  apply_one_of_Settled s r (p, found, same) = rw (found, apply_existing) (rw (same, update_one))

  -- After two applies of one manifest without an error, a third one sends no write and reports no
  -- error, whatever the cluster held first: the first may create the CRD without the version
  -- annotation, the second stamps it. The manifest itself carries no version annotation.
  pub apply_one_settles :
      (s : m.client.State) (r : Crd S)
      → annotation r.annotations version_annotation_key ≡ none
      → (apply_one m s r).0 ≡ none
      → (apply_one m (apply_one m s r).1 r).0 ≡ none
      → let t = (apply_one m (apply_one m s r).1 r).1 in apply_one m t r ≡ (none, t)
  unfolding apply_one
  apply_one_settles s r fresh first second =
      let (p, found) = apply_existing-present s r (m.client.get s r.name) fresh refl first in
      apply_one_of_Settled (apply_one m (apply_one m s r).1 r).1 r
        (apply_one-settles (apply_one m s r).1 r p fresh found second)
