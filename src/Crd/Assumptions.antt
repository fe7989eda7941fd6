-- ===== src/Crd/Assumptions.antt =====
-- What pkg/operators/crdmanager relies on: the API server, `versionutil` and the comparison of
-- CRDs. Named hypotheses of the theorems.
use registration_operator.Common.{String, ◌≡◌, ◌≢◌, true, some, ok}
use registration_operator.Kube.{IsLawful}
use registration_operator.Crd.{Crd, Manager, annotation, same}

module _ {S : Type 0} where
  -- What the server keeps of an object that is written.
  abbrev pub Keeps : Crd S → Crd S → Type 0
  Keeps o p = (p.name ≡ o.name) × (p.annotations ≡ o.annotations) × (p.spec ≡ o.spec)

  -- The object has all annotations of the other one.
  abbrev pub Covers : Crd S → Crd S → Type 0
  Covers p o =
      (k v : String) → annotation o.annotations k ≡ some v → annotation p.annotations k ≡ some v

  pub record IsSound (m : Manager S) : Type 0 where
    pub lawful : IsLawful (λ (c : Crd S). c.name) Keeps m.client
    pub version_set : m.version ≢ ""
    pub compare_self : m.compare m.version ≡ ok same
    pub equal_same : (p o : Crd S) → p.spec ≡ o.spec → Covers p o → m.equal p o ≡ true
