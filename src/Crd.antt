-- ===== src/Crd.antt =====
-- pkg/operators/crdmanager/manager.go. The manager is generic in the CRD type: `S` is the spec.
-- The version comparison (`versionutil`), the typed client and the comparison of two CRDs are
-- library code, fields of `Manager`. An `AssetFunc` is a closure that may change a state `W` of
-- its caller, and `decode` stands for the codec.
pub mod Assumptions
pub mod Settles
pub mod Removal
pub mod Handover
mod Tests
use registration_operator.Common.{
  String, Bool, true, false, not, Option, none, some, List, [], ◌∷◌, ◌==◌, string_eq, if◌then◌else◌,
  Error, not_found, failure, remaining_crds, requeue, Result, ok, err, is_not_found, error_of,
  ◌>>=◌, cons_error, Aggregate,
}
use registration_operator.Common.Dict
use registration_operator.Common.Dict.{Dict}
use registration_operator.Kube.{Client}

abbrev pub version_annotation_key : String
version_annotation_key = "operator.open-cluster-management.io/version"

pub data VersionOrder : Type 0 where
  lower same higher : VersionOrder

-- A CustomResourceDefinition. A nil map of annotations is `none`.
pub record Crd (S : Type 0) : Type 0 where
  pub name : String
  pub annotations : Option (Dict String)
  pub resource_version : String
  pub spec : S

-- `Manager[T]`. `compare v` is `m.version.Compare(v)`.
pub record Manager (S : Type 0) : Type 1 where
  pub client : Client (Crd S)
  pub equal : Crd S → Crd S → Bool
  pub version : String
  pub compare : String → Result VersionOrder

-- A read of a map that may be nil.
abbrev pub annotation : Option (Dict String) → String → Option String
annotation none k = none
annotation (some d) k = Dict.lookup k d

abbrev set_annotation : Option (Dict String) → String → String → Option (Dict String)
set_annotation none k v = some (Dict.insert k v [])
set_annotation (some d) k v = some (Dict.insert k v d)

-- What became of one file of `Clean`: the two slices that the loop fills are read off it.
pub data Outcome : Type 0 where
  removed : Outcome
  remains : String → Outcome
  failed : Error → Outcome

abbrev pub errs_of : List Outcome → List Error
errs_of [] = []
errs_of (removed ∷ os) = errs_of os
errs_of (remains n ∷ os) = errs_of os
errs_of (failed e ∷ os) = e ∷ errs_of os

abbrev pub remaining_of : List Outcome → List String
remaining_of [] = []
remaining_of (removed ∷ os) = remaining_of os
remaining_of (remains n ∷ os) = n ∷ remaining_of os
remaining_of (failed e ∷ os) = remaining_of os

-- The returns of `Clean` after its loop.
report : Aggregate → List Error → List String → Option Error
report a (e ∷ es) names = a.new_aggregate (e ∷ es)
report a [] (n ∷ names) = some (remaining_crds (n ∷ names))
report a [] [] = none

-- A missing key reads as "" in Go.
abbrev pub existing_version : Option String → String
existing_version none = ""
existing_version (some v) = v

module _ {S : Type 0} (m : Manager S) where
  compare_spec : Result VersionOrder → Crd S → Crd S → Result Bool
  compare_spec (err e) old new = err e
  compare_spec (ok same) old new = ok (not (m.equal old new))
  compare_spec (ok higher) old new = ok true
  compare_spec (ok lower) old new = ok false

  unfoldable pub should_update : Crd S → Crd S → Result Bool
  unfolding compare_spec
  should_update old new =
      let v = existing_version (annotation old.annotations version_annotation_key) in
      if v == "" then ok true else compare_spec (m.compare v) old new

  -- The object that `applyOne` sends to the server.
  unfoldable pub stamped : Crd S → Crd S → Crd S
  stamped existing required = record required {
    annotations = set_annotation required.annotations version_annotation_key m.version;
    resource_version = existing.resource_version;
  }

  create_one : m.client.State → Crd S → Option Error × m.client.State
  create_one s required = let (r, s') = m.client.create s required in (error_of r, s')

  update_one : m.client.State → Crd S → Crd S → Result Bool → Option Error × m.client.State
  unfolding stamped
  update_one s existing required (err e) = (some e, s)
  update_one s existing required (ok false) = (none, s)
  update_one s existing required (ok true) =
      let (r, s') = m.client.update s (stamped existing required) in (error_of r, s')

  apply_existing : m.client.State → Crd S → Result (Crd S) → Option Error × m.client.State
  unfolding create_one update_one should_update
  apply_existing s required (err e) = if is_not_found e then create_one s required else (some e, s)
  apply_existing s required (ok existing) =
      update_one s existing required (should_update existing required)

  unfoldable pub apply_one : m.client.State → Crd S → Option Error × m.client.State
  unfolding apply_existing
  apply_one s required = apply_existing s required (m.client.get s required.name)

  -- The version annotation is erased only if it names this manager's version.
  erase_same :
      m.client.State → Crd S → Dict String → Result VersionOrder → Option Error × m.client.State
  erase_same s existing d (err e) = (some e, s)
  erase_same s existing d (ok lower) = (none, s)
  erase_same s existing d (ok higher) = (none, s)
  erase_same s existing d (ok same) =
      let cleared = record existing { annotations = some (Dict.erase version_annotation_key d) } in
      let (r, s') = m.client.update s cleared in (error_of r, s')

  erase_found : m.client.State → Crd S → Dict String → Option String → Option Error × m.client.State
  unfolding erase_same
  erase_found s existing d none = (none, s)
  erase_found s existing d (some v) = erase_same s existing d (m.compare v)

  erase_version : m.client.State → Crd S → Option (Dict String) → Option Error × m.client.State
  unfolding erase_found
  erase_version s existing none = (none, s)
  erase_version s existing (some d) =
      erase_found s existing d (Dict.lookup version_annotation_key d)

  -- `CleanOne` with `skip`: the CRD stays, without the version annotation.
  skip_existing : m.client.State → Result (Crd S) → Option Error × m.client.State
  unfolding erase_version
  skip_existing s (err e) = if is_not_found e then (none, s) else (some e, s)
  skip_existing s (ok existing) = erase_version s existing existing.annotations

  -- A successful delete is reported, since the server removes the CRD later.
  deleted : String → Option Error × m.client.State → Option Error × m.client.State
  deleted name (none, s) = (some (remaining_crds (name ∷ [])), s)
  deleted name (some e, s) = if is_not_found e then (none, s) else (some e, s)

  unfoldable pub clean_one : m.client.State → String → Bool → Option Error × m.client.State
  unfolding skip_existing deleted
  clean_one s name true = skip_existing s (m.client.get s name)
  clean_one s name false = deleted name (m.client.delete s name)

  module _ {W B : Type 0} (manifests : String → W → Result B × W)
      (decode : B → Result (Crd S)) where
    -- The manifest of a file, and what the closure did to its caller's state.
    unfoldable pub load : String → W → Result (Crd S) × W
    load file w = let (r, w') = manifests file w in (r >>= decode, w')

    apply_loaded : m.client.State → Result (Crd S) → Option Error × m.client.State
    apply_loaded s (err e) = (some e, s)
    apply_loaded s (ok required) = apply_one s required

    -- The loop of `Apply`: an error is kept and the next file follows.
    unfoldable pub apply_files : List String → m.client.State → W → List Error × m.client.State × W
    unfolding load apply_loaded
    apply_files [] s w = ([], s, w)
    apply_files (file ∷ files) s w =
        let (r, w₁) = load file w in
        let (e, s₁) = apply_loaded s r in
        let (es, s₂, w₂) = apply_files files s₁ w₁ in (cons_error e es, s₂, w₂)

    unfoldable pub apply :
        Aggregate → List String → m.client.State → W → Option Error × m.client.State × W
    unfolding apply_files
    apply a files s w = let (es, s₁, w₁) = apply_files files s w in (a.new_aggregate es, s₁, w₁)

    outcome_of : String → Option Error → Outcome
    outcome_of name none = removed
    outcome_of name (some (remaining_crds _)) = remains name
    outcome_of name (some (not_found t)) = failed (not_found t)
    outcome_of name (some (failure t)) = failed (failure t)
    outcome_of name (some (requeue t n)) = failed (requeue t n)

    clean_loaded : Bool → m.client.State → Result (Crd S) → Outcome × m.client.State
    clean_loaded skip s (err e) = (failed e, s)
    clean_loaded skip s (ok required) =
        let (e, s') = clean_one s required.name skip in (outcome_of required.name e, s')

    -- The loop of `Clean`: what became of each file, in order.
    unfoldable pub clean_files :
        Bool → List String → m.client.State → W → List Outcome × m.client.State × W
    unfolding load outcome_of clean_loaded
    clean_files skip [] s w = ([], s, w)
    clean_files skip (file ∷ files) s w =
        let (r, w₁) = load file w in
        let (o, s₁) = clean_loaded skip s r in
        let (os, s₂, w₂) = clean_files skip files s₁ w₁ in (o ∷ os, s₂, w₂)

    unfoldable pub clean :
        Aggregate → Bool → List String → m.client.State → W → Option Error × m.client.State × W
    unfolding clean_files report
    clean a skip files s w =
        let (os, s₁, w₁) = clean_files skip files s w in
        (report a (errs_of os) (remaining_of os), s₁, w₁)
