-- ===== src/Crd/Tests.antt =====
-- Runs of the CRD manager over a cluster in memory, and the theorems at concrete data.
use registration_operator.Common.{
  String, ◌≡◌, refl, ◌↔◌, true, false, none, some, [], ◌∷◌, failure, remaining_crds, Result, ok,
  err, arith, ◌==◌, string_eq, if◌then◌else◌, Aggregate, All, eq_iff, ◌⊎◌,
}
use registration_operator.Common.Dict
use registration_operator.Common.Dict.{Dict}
use registration_operator.Kube.Memory
use registration_operator.Kube.Memory.{memory, memory-IsLawful}
use registration_operator.Crd.{
  Crd, Manager, VersionOrder, lower, same, higher, version_annotation_key, existing_version,
  should_update, apply_one, clean_one, clean,
}
use registration_operator.Crd.Assumptions.{Keeps, IsSound}
use registration_operator.Crd.Settles.{apply_one_settles}
use registration_operator.Crd.Removal.{clean-Gone, Gone, loads}
use registration_operator.Crd.Handover.{clean_one-hands_over, should_update_iff, Released}

abbrev first_error : Aggregate
first_error = record {
  new_aggregate = λ es. elim es [ [] ↦ none | e ∷ _ ↦ some e ];
  new_aggregate-nil = refl;
  new_aggregate-cons = λ e es. (e, refl);
}

-- Version "2" compares with "1", "2" and "3"; anything else does not parse.
abbrev compare_with_two : String → Result VersionOrder
compare_with_two v =
    if v == "2"
    then ok same
    else if v == "1"
    then ok higher
    else if v == "3"
    then ok lower
    else err (failure "could not parse")

abbrev manager : Manager String
manager = record {
  client = memory (λ (c : Crd String). c.name);
  equal = λ p o. p.spec == o.spec;
  version = "2";
  compare = compare_with_two;
}

equal_texts : (a b : String) → a ≡ b → (a == b) ≡ true
equal_texts a b e = ground arith

manager-IsSound : IsSound manager
unfolding string_eq
manager-IsSound = record {
  lawful = memory-IsLawful (λ c. c.name) Keeps (λ o. (refl, refl, refl));
  version_set = ground (arith, eq_iff "2" "");
  compare_self = refl;
  equal_same = λ p o e c. equal_texts p.spec o.spec e;
}

abbrev plain : Crd String
plain = record { name = "works"; annotations = none; resource_version = ""; spec = "v1" }

abbrev stamped_two : Crd String
stamped_two = record plain { annotations = some ((version_annotation_key, "2") ∷ []) }

-- The first apply creates the CRD without a version.
first_apply : apply_one manager [] plain ≡ (none, plain ∷ [])
unfolding apply_one Memory.create Memory.find
first_apply = refl

second_apply : apply_one manager (plain ∷ []) plain ≡ (none, stamped_two ∷ [])
unfolding apply_one Memory.update Memory.find Memory.replace Dict.lookup Dict.insert string_eq
second_apply = refl

apply_one_settles_example : apply_one manager (stamped_two ∷ []) plain ≡ (none, stamped_two ∷ [])
unfolding apply_one Memory.create Memory.update Memory.find Memory.replace Dict.lookup Dict.insert
    string_eq
apply_one_settles_example = apply_one_settles manager manager-IsSound [] plain refl refl refl

-- The three answers at "1": the second reason holds.
should_update_iff_example :
    (should_update manager
        (record plain { annotations = some ((version_annotation_key, "1") ∷ []) })
        plain
      ≡ ok true)
    ↔ ((existing_version (some "1") ≡ "")
        ⊎ (manager.compare "1" ≡ ok higher)
        ⊎ ((manager.compare "1" ≡ ok same)
            × (manager.equal
                  (record plain { annotations = some ((version_annotation_key, "1") ∷ []) })
                  plain
                ≡ false)))
unfolding Dict.lookup string_eq
should_update_iff_example =
    should_update_iff manager
      (record plain { annotations = some ((version_annotation_key, "1") ∷ []) }) plain

abbrev read : String → Unit {0} → Result (Crd String) × Unit {0}
read file w = (if file == "works.yaml" then ok plain else err (failure "no such file"), w)

-- The CRD is asked to go, and the caller hears of it.
clean_reports :
    clean manager read ok first_error false ("works.yaml" ∷ []) (plain ∷ []) tt
    ≡ (some (remaining_crds ("works" ∷ [])), [], tt)
unfolding clean clean_one Memory.delete Memory.find Memory.remove string_eq
clean_reports = refl

clean-Gone_example : All (Gone manager []) (loads manager read ok ("works.yaml" ∷ []) tt)
unfolding clean clean_one Memory.delete Memory.find Memory.remove string_eq
clean-Gone_example =
    clean-Gone manager manager-IsSound read ok first_error ("works.yaml" ∷ []) [] tt refl

clean_one-hands_over_example :
    (p : Crd String) × (manager.client.get
        (clean_one manager (stamped_two ∷ []) "works" true).1
        "works"
      ≡ ok p)
    × Released stamped_two p
    × ((other : Manager String) (r : Crd String) → should_update other p r ≡ ok true)
unfolding clean_one Memory.update Memory.find Memory.replace Dict.lookup Dict.erase string_eq
clean_one-hands_over_example =
    clean_one-hands_over manager manager-IsSound (stamped_two ∷ []) "works" stamped_two refl refl
      refl
