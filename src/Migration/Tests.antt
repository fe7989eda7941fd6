-- ===== src/Migration/Tests.antt =====
-- Runs of the migration controller on a cluster in memory. A file is its own text, and a spec a number.
use registration_operator.Common.{
  String, ℕ, ◌≡◌, ◌↔◌, refl, true, false, [], ◌∷◌, Result, ok, string_eq, All,
}
use registration_operator.Kube.{Client}
use registration_operator.Kube.Memory
use registration_operator.Kube.Memory.{memory, memory-IsLawful}
use registration_operator.Migration.{
  Migration, MigrationCondition, Condition, Decoded, migration, Library, succeeded, failed,
  get_status_condition, verdict, sync_condition, apply_storage_version_migration, all_succeeded,
}
use registration_operator.Migration.Laws.{Keeps, HasSucceeded, sync_condition_iff, apply_stale}

abbrev done : MigrationCondition
done = record { phase = succeeded; holds = true; reason = ""; message = "" }

abbrev not_failed : MigrationCondition
not_failed = record { phase = failed; holds = false; reason = ""; message = "" }

abbrev pub sets : Migration Unit ℕ
sets = record { name = "sets"; meta = tt; spec = 1; conditions = not_failed ∷ done ∷ [] }

abbrev wanted : Migration Unit ℕ
wanted = record sets { spec = 2; conditions = [] }

abbrev pub cluster : Client (Migration Unit ℕ)
cluster = memory (λ m. m.name)

abbrev pub library : Library Unit ℕ
library = record { ensure_object_meta = λ _ _. (false, tt); same_spec = λ _ _. false }

abbrev pub files : String → Result (Migration Unit ℕ)
files _ = ok wanted

abbrev pub codec : Migration Unit ℕ → Result (Decoded Unit ℕ)
codec m = ok (migration m)

reported :
    sync_condition cluster library files codec (sets ∷ []) ("sets.yaml" ∷ []) ≡ ok all_succeeded
unfolding sync_condition get_status_condition verdict string_eq Memory.find
reported = refl

sync_condition_iff_example :
    ((c : Condition) × ((sync_condition cluster library files codec (sets ∷ []) ("sets.yaml" ∷ [])
          ≡ ok c)
        × (c.holds ≡ true)))
    ↔ All (HasSucceeded cluster library files codec (sets ∷ [])) ("sets.yaml" ∷ [])
sync_condition_iff_example =
    sync_condition_iff cluster library files codec (sets ∷ []) ("sets.yaml" ∷ [])

apply_stale_example :
    (m : Migration Unit ℕ) × ((cluster.get
          (apply_storage_version_migration cluster library files codec (sets ∷ []) wanted).1
          "sets"
        ≡ ok m)
      × (m.spec ≡ 1))
unfolding apply_storage_version_migration string_eq Memory.find Memory.update
apply_stale_example =
    apply_stale cluster library files codec
      (memory-IsLawful (λ m. m.name) Keeps (λ m. (refl, refl))) (sets ∷ []) wanted sets refl refl
