-- ===== src/Migration/Laws.antt =====
-- When a migration counts as done, and what an apply writes.
use registration_operator.Common.{
  String, ◌≡◌, refl, ◌↔◌, Bool, true, false, Option, none, some, List, [], ◌∷◌, Error, Result, ok,
  err, ◌⊎◌, inl, inr, ap, ◌∙◌, Bool-cases, error_of-eq-none, error_of, All, arith, string_eq,
  if◌then◌else◌, ◌||◌, not,
}
use registration_operator.Kube.{Client, IsLawful}
use registration_operator.Migration.{
  Migration, MigrationCondition, Condition, Decoded, Library, succeeded, failed, running,
  other_phase, get_status_condition, verdict, verdict_of, concluded, is_known, all_succeeded, Phase,
  conclude, existing_of, sync_condition, apply_storage_version_migration, apply_existing,
  update_existing,
}

-- The server keeps the name and the spec of what is written.
abbrev pub Keeps : {M S : Type 0} → Migration M S → Migration M S → Type 0
Keeps o p = (p.name ≡ o.name) × (p.spec ≡ o.spec)

-- Only conditions of the three types are looked at.
get_status_condition_known :
    (cs : List MigrationCondition) {c : MigrationCondition}
    → get_status_condition cs ≡ some c
    → is_known c.phase ≡ true
unfolding get_status_condition
get_status_condition_known [] h = cc
get_status_condition_known (d ∷ cs) {c = x} h =
    ground (arith, get_status_condition_known cs {c = x})

verdict_of-false :
    (name : String) (d : MigrationCondition) (p : Phase) {c : Condition}
    → verdict_of name d p ≡ some c
    → c.holds ≡ false
unfolding verdict_of
verdict_of-false name d succeeded h = cc
verdict_of-false name d failed h = cc
verdict_of-false name d running h = cc
verdict_of-false name d (other_phase _) h = cc

verdict-false :
    (name : String) (r : Option MigrationCondition) {c : Condition}
    → verdict name r ≡ some c
    → c.holds ≡ false
unfolding verdict
verdict-false name none h = cc
verdict-false name (some d) h = verdict_of-false name d d.phase h

verdict_of_succeeded :
    (name : String) (d : MigrationCondition) (p : Phase)
    → verdict_of name d p ≡ none
    → is_known p ≡ true
    → p ≡ succeeded
unfolding verdict_of
verdict_of_succeeded name d succeeded h k = refl
verdict_of_succeeded name d failed h k = cc
verdict_of_succeeded name d running h k = cc
verdict_of_succeeded name d (other_phase _) h k = cc

verdict_succeeded :
    (name : String) (cs : List MigrationCondition)
    → verdict name (get_status_condition cs) ≡ none
    → (c : MigrationCondition) × ((get_status_condition cs ≡ some c) × (c.phase ≡ succeeded))
unfolding verdict
verdict_succeeded name cs = go (get_status_condition cs) refl
  where
    go :
        (r : Option MigrationCondition)
        → get_status_condition cs ≡ r
        → verdict name r ≡ none
        → (c : MigrationCondition) × ((get_status_condition cs ≡ some c) × (c.phase ≡ succeeded))
    go none fn h = cc
    go (some d) fn h =
        (d, (fn, verdict_of_succeeded name d d.phase h (get_status_condition_known cs fn)))

-- A condition that is not true, or whose type is none of the three.
abbrev pub IsPassedOver : MigrationCondition → Type 0
IsPassedOver c = (c.holds ≡ false) ⊎ ((text : String) × (c.phase ≡ other_phase text))

-- Among the conditions of the three types that are true, the first says that the migration succeeded.
abbrev pub FirstSucceeded : List MigrationCondition → Type 0
FirstSucceeded [] = ⊥
FirstSucceeded (c ∷ cs) =
    ((c.holds ≡ true) × (c.phase ≡ succeeded)) ⊎ (IsPassedOver c × FirstSucceeded cs)

known_or_other : (p : Phase) → (is_known p ≡ true) ⊎ ((text : String) × (p ≡ other_phase text))
known_or_other succeeded = inl refl
known_or_other failed = inl refl
known_or_other running = inl refl
known_or_other (other_phase text) = inr (text, refl)

FirstSucceeded-to :
    (cs : List MigrationCondition) (c : MigrationCondition)
    → get_status_condition cs ≡ some c
    → c.phase ≡ succeeded
    → FirstSucceeded cs
unfolding get_status_condition
FirstSucceeded-to [] c h s = cc
FirstSucceeded-to (d ∷ cs) c h s = elim (known_or_other d.phase) [
  | inr other ↦ inr (inr other, FirstSucceeded-to cs c (rw (other.1) at h) s)
  | inl known ↦ elim (Bool-cases d.holds) [
    | inl holds ↦
        let same : d ≡ c = ground arith in
        inl (holds, ap (λ (x : MigrationCondition). x.phase) same ∙ s)
    | inr fails ↦ inr (inl fails, FirstSucceeded-to cs c (ground arith) s)
  ]
]

FirstSucceeded-from :
    (cs : List MigrationCondition)
    → FirstSucceeded cs
    → (c : MigrationCondition) × ((get_status_condition cs ≡ some c) × (c.phase ≡ succeeded))
unfolding get_status_condition
FirstSucceeded-from [] h = absurd h
FirstSucceeded-from (d ∷ cs) (inl (holds, done)) = (d, (rw (done, holds) refl, done))
FirstSucceeded-from (d ∷ cs) (inr (inl fails, rest)) =
    let (c, (got, done)) = FirstSucceeded-from cs rest in (c, (ground arith, done))
FirstSucceeded-from (d ∷ cs) (inr (inr (text, other), rest)) =
    let (c, (got, done)) = FirstSucceeded-from cs rest in (c, (rw other got, done))

module _ {M S B : Type 0} (C : Client (Migration M S)) (L : Library M S)
    (manifests : String → Result B) (decode : B → Result (Decoded M S)) where
  -- The server has the migration, and the first of its known conditions that are true is its success.
  abbrev pub HasSucceeded : C.State → String → Type 0
  HasSucceeded t file =
      (m : Migration M S) × ((existing_of C L manifests decode t file ≡ ok m)
        × FirstSucceeded m.conditions)

  abbrev Reports : C.State → List String → Type 0
  Reports t files =
      (c : Condition) × ((sync_condition C L manifests decode t files ≡ ok c) × (c.holds ≡ true))

  conclude_true :
      (t : C.State) (file : String) (r : Result (Migration M S)) (v : Option Condition)
      (rest : Result Condition) (m : Migration M S) (c : Condition)
      → concluded C L manifests decode v rest ≡ ok c
      → c.holds ≡ true
      → verdict m.name (get_status_condition m.conditions) ≡ v
      → (verdict m.name (get_status_condition m.conditions) ≡ none) × (rest ≡ ok c)
  unfolding concluded
  conclude_true t file r none rest m c h true_ fn = (fn, h)
  conclude_true t file r (some d) rest m c h true_ fn =
      let f = verdict-false m.name (get_status_condition m.conditions) fn in cc

  first_succeeded :
      (t : C.State) (file : String) (r : Result (Migration M S)) (rest : Result Condition)
      (c : Condition)
      → existing_of C L manifests decode t file ≡ r
      → conclude C L manifests decode r rest ≡ ok c
      → c.holds ≡ true
      → HasSucceeded t file × (rest ≡ ok c)
  unfolding conclude
  first_succeeded t file (err e) rest c fn h true_ = cc
  first_succeeded t file (ok m) rest c fn h true_ =
      let (v, r) =
        conclude_true t file (ok m) (verdict m.name (get_status_condition m.conditions)) rest m c h
          true_ refl in
      let (d, (got, done)) = verdict_succeeded m.name m.conditions v in
      ((m, (fn, FirstSucceeded-to m.conditions d got done)), r)

  sync_condition_to :
      (t : C.State) (files : List String) → Reports t files → All (HasSucceeded t) files
  unfolding sync_condition
  sync_condition_to t [] h = tt
  sync_condition_to t (file ∷ files) (c, (h, true_)) =
      let (done, rest) =
        first_succeeded t file (existing_of C L manifests decode t file)
          (sync_condition C L manifests decode t files) c refl h true_ in
      (done, sync_condition_to t files (c, (rest, true_)))

  sync_condition_from :
      (t : C.State) (files : List String) → All (HasSucceeded t) files → Reports t files
  unfolding sync_condition conclude concluded verdict verdict_of
  sync_condition_from t [] h = (all_succeeded, (refl, refl))
  sync_condition_from t (file ∷ files) ((m, (found, first)), rest) =
      let (d, (got, done)) = FirstSucceeded-from m.conditions first in
      let (c, (h, true_)) = sync_condition_from t files rest in
      (c, (rw (found, got, done) h, true_))

  -- The reported condition is true exactly if the server has every requested migration and the first
  -- of each one's known conditions that is true says that it succeeded.
  pub sync_condition_iff :
      (t : C.State) (files : List String)
      → ((c : Condition) × ((sync_condition C L manifests decode t files ≡ ok c)
            × (c.holds ≡ true)))
        ↔ All (HasSucceeded t) files
  sync_condition_iff t files = (sync_condition_to t files, sync_condition_from t files)

  after_choice :
      (P : C.State → Type 0) (b : Bool) (x y : Option Error × C.State)
      → (x.0 ≡ none → P x.1)
      → (y.0 ≡ none → P y.1)
      → (if b then x else y).0 ≡ none
      → P (if b then x else y).1
  after_choice P true x y f g = f
  after_choice P false x y f g = g

  updated :
      (law : IsLawful (λ m. m.name) Keeps C) (t : C.State) (required existing : Migration M S)
      (e : Bool × M)
      → C.get t required.name ≡ ok existing
      → (update_existing C L manifests decode t required existing e).0 ≡ none
      → (m : Migration M S) × ((C.get
              (update_existing C L manifests decode t required existing e).1
              required.name
            ≡ ok m)
          × (m.spec ≡ existing.spec))
  unfolding update_existing
  updated law t required existing (changed, meta) found =
      after_choice Unchanged (changed || not (L.same_spec existing.spec required.spec))
        (error_of (C.update t sent).0, (C.update t sent).1) (none, t) written
        (λ h. (existing, (found, refl)))
    where
      sent : Migration M S
      sent = record existing { meta = meta }

      Unchanged : C.State → Type 0
      Unchanged u =
          (m : Migration M S) × ((C.get u required.name ≡ ok m) × (m.spec ≡ existing.spec))

      written : error_of (C.update t sent).0 ≡ none → Unchanged (C.update t sent).1
      written h =
          let (p, done) = error_of-eq-none (C.update t sent).0 h in
          let (_, same) = law.update-keeps t sent done in
          let named = law.get-name t required.name found in
          (p, (ground (arith, law.get-update t sent required.name done), same))

  -- An apply that reports no error leaves the spec of an existing migration as it was, also if the
  -- manifest asks for another one.
  pub apply_stale :
      (law : IsLawful (λ m. m.name) Keeps C) (t : C.State) (required existing : Migration M S)
      → C.get t required.name ≡ ok existing
      → (apply_storage_version_migration C L manifests decode t required).0 ≡ none
      → (m : Migration M S) × ((C.get
              (apply_storage_version_migration C L manifests decode t required).1
              required.name
            ≡ ok m)
          × (m.spec ≡ existing.spec))
  unfolding apply_storage_version_migration apply_existing
  apply_stale law t required existing found h = rw found (
      updated law t required existing (L.ensure_object_meta existing.meta required.meta) found
        (rw found at h))
