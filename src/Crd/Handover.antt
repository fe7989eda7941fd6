-- ===== src/Crd/Handover.antt =====
-- Handing CRDs over: `CleanOne` with `skip`, and what another manager then does, of
-- pkg/operators/crdmanager/manager.go.
use registration_operator.Common.{
  String, ◌≡◌, refl, ap, ◌∙◌, ◌↔◌, ◌⊎◌, true, false, Option, none, some, ok, arith, ◌==◌, string_eq,
  if◌then◌else◌, error_of-eq-none,
}
use registration_operator.Common.Dict
use registration_operator.Common.Dict.{Dict}
use registration_operator.Crd.{
  Crd, Manager, annotation, version_annotation_key, should_update, clean_one, skip_existing,
  erase_version, erase_found, erase_same, existing_version, same, higher,
}
use registration_operator.Crd.Assumptions.{IsSound}

-- A manager of any version rewrites a CRD that carries no version.
should_update_unstamped :
    {S : Type 0} (m : Manager S) (old new : Crd S)
    → annotation old.annotations version_annotation_key ≡ none
    → should_update m old new ≡ ok true
unfolding should_update
should_update_unstamped m old new e = rw e (ground arith)

-- `shouldUpdate` answers yes in exactly three cases: the existing CRD has no version (or an empty
-- one), its version is older than the manager's, or the versions agree and the CRDs differ.
pub should_update_iff :
    {S : Type 0} (m : Manager S) (old new : Crd S)
    → let v = existing_version (annotation old.annotations version_annotation_key) in
      (should_update m old new ≡ ok true) ↔ (
        (v ≡ "")
        ⊎ (m.compare v ≡ ok higher)
        ⊎ ((m.compare v ≡ ok same) × (m.equal old new ≡ false)))
unfolding should_update
should_update_iff m old new = (λ h. ground arith, λ h. ground arith)

module _ {S : Type 0} where
  -- What a CRD loses when its manager lets it go: nothing but the version.
  abbrev pub Released : Crd S → Crd S → Type 0
  Released old p =
      (p.name ≡ old.name)
      × (p.spec ≡ old.spec)
      × ((k : String)
          → annotation p.annotations k
            ≡ (if k == version_annotation_key then none else annotation old.annotations k))

module _ {S : Type 0} (m : Manager S) (h : IsSound m) where
  abbrev HandedOver : m.client.State → String → Crd S → Type 1
  HandedOver t k old =
      (p : Crd S) × (m.client.get t k ≡ ok p)
      × Released old p
      × ((other : Manager S) (r : Crd S) → should_update other p r ≡ ok true)

  erase_same-hands_over :
      (s : m.client.State) (k : String) (old : Crd S) (d : Dict String)
      → m.client.get s k ≡ ok old
      → old.annotations ≡ some d
      → (erase_same m s old d (ok same)).0 ≡ none
      → HandedOver (erase_same m s old d (ok same)).1 k old
  unfolding erase_same
  erase_same-hands_over s k old d found held done =
      let cleared : Crd S = record old {
        annotations = some (Dict.erase version_annotation_key d);
      } in
      let (p, wrote) = error_of-eq-none (m.client.update s cleared).0 done in
      let (named, kept, spec) = h.lawful.update-keeps s cleared wrote in
      let left = λ (j : String).
        ap (λ a. annotation a j) kept ∙ Dict.lookup-erase j version_annotation_key d in
      (
        p,
        h.lawful.get-update s cleared k wrote ∙ ground (arith, h.lawful.get-name s k found),
        (named, spec, λ j. left j ∙ ground (arith, ap (λ a. annotation a j) held)),
        λ other r. should_update_unstamped other p r (left version_annotation_key ∙ ground arith),
      )

  erase_version-hands_over :
      (s : m.client.State) (k : String) (old : Crd S) (a : Option (Dict String))
      → m.client.get s k ≡ ok old
      → old.annotations ≡ a
      → annotation a version_annotation_key ≡ some m.version
      → (erase_version m s old a).0 ≡ none
      → HandedOver (erase_version m s old a).1 k old
  unfolding erase_version
  erase_version-hands_over s k old none found held stamped = λ done. cc
  erase_version-hands_over s k old (some d) found held stamped =
      rw (stamped, erase_found) (rw (h.compare_self) (erase_same-hands_over s k old d found held))

  -- `CleanOne` with `skip` keeps the CRD that its own version stamped and takes nothing but the
  -- version annotation off, so that a manager of any version updates it from then on.
  pub clean_one-hands_over :
      (s : m.client.State) (k : String) (old : Crd S)
      → m.client.get s k ≡ ok old
      → annotation old.annotations version_annotation_key ≡ some m.version
      → (clean_one m s k true).0 ≡ none
      → (p : Crd S) × (m.client.get (clean_one m s k true).1 k ≡ ok p)
        × Released old p
        × ((other : Manager S) (r : Crd S) → should_update other p r ≡ ok true)
  unfolding clean_one
  clean_one-hands_over s k old found stamped =
      rw (found, skip_existing)
        (erase_version-hands_over s k old old.annotations found refl stamped)
