-- ===== src/Migration.antt =====
-- pkg/operators/clustermanager/controllers/migrationcontroller/migration_controller.go: the requests to
-- migrate stored objects. The merge of metadata, the comparison of specs and the codec are parameters.
pub mod Laws
pub mod Sync
mod Tests
use registration_operator.Common.{
  String, ◌<>◌, Bool, true, false, ◌||◌, not, Option, none, some, List, [], ◌∷◌, Error, failure,
  Result, ok, err, error_of, cons_error, is_not_found, if◌then◌else◌, Aggregate, ◌>>=◌,
}
use registration_operator.Kube.{Client}

pub data Phase : Type 0 where
  succeeded failed running : Phase
  other_phase : String → Phase

-- A condition of a migration; `holds` is whether its status is true.
pub record MigrationCondition : Type 0 where
  pub phase : Phase
  pub holds : Bool
  pub reason : String
  pub message : String

pub record Migration (M S : Type 0) : Type 0 where
  pub name : String
  pub meta : M
  pub spec : S
  pub conditions : List MigrationCondition

-- The condition that the controller reports; `holds` is whether its status is true.
pub record Condition : Type 0 where
  pub holds : Bool
  pub reason : String
  pub message : String

-- What the codec makes of a file.
pub data Decoded (M S : Type 0) : Type 0 where
  migration : Migration M S → Decoded M S
  something_else : Decoded M S

pub record Library (M S : Type 0) : Type 0 where
  -- `EnsureObjectMeta`: whether it changed the metadata, and the metadata.
  pub ensure_object_meta : M → M → Bool × M
  pub same_spec : S → S → Bool

abbrev pub is_known : Phase → Bool
is_known (other_phase _) = false
is_known succeeded = true
is_known failed = true
is_known running = true

unfoldable pub get_status_condition : List MigrationCondition → Option MigrationCondition
get_status_condition [] = none
get_status_condition (c ∷ cs) =
    let rest = get_status_condition cs in
    if is_known c.phase then (if c.holds then some c else rest) else rest

-- The switch on the type of a condition; `none` is to go on with the next file.
unfoldable pub verdict_of : String → MigrationCondition → Phase → Option Condition
verdict_of name c succeeded = none
verdict_of name c failed = some (record {
  holds = false;
  reason = "StorageVersionMigration Failed. " <> c.reason;
  message = "Failed to wait StorageVersionMigration " <> (name <> (" succeed. " <> c.message));
})
verdict_of name c running = some (record {
  holds = false;
  reason = "StorageVersionMigration Running. " <> c.reason;
  message = "Wait StorageVersionMigration " <> (name <> (" succeed. " <> c.message));
})
verdict_of name c (other_phase _) = none

unfoldable pub verdict : String → Option MigrationCondition → Option Condition
unfolding verdict_of
verdict name none = some (record {
  holds = false;
  reason = "StorageVersionMigrationProcessing";
  message = "Wait StorageVersionMigration " <> (name <> " succeed.");
})
verdict name (some c) = verdict_of name c c.phase

abbrev pub all_succeeded : Condition
all_succeeded = record {
  holds = true;
  reason = "StorageVersionMigrationSucceed";
  message = "All StorageVersionMigrations Succeed";
}

module _ {M S B : Type 0} (C : Client (Migration M S)) (L : Library M S)
    (manifests : String → Result B) (decode : B → Result (Decoded M S)) where
  parsed : Result (Decoded M S) → Result (Migration M S)
  parsed (err e) = err (failure "cannot decode")
  parsed (ok (migration m)) = ok m
  parsed (ok something_else) = err (failure "invalid StorageVersionMigration")

  decoded : Result B → Result (Migration M S)
  unfolding parsed
  decoded (err e) = err (failure "missing")
  decoded (ok b) = parsed (decode b)

  unfoldable pub parse_storage_version_migration_file : String → Result (Migration M S)
  unfolding decoded
  parse_storage_version_migration_file file = decoded (manifests file)

  -- The object that is sent is `existingCopy`, whose spec is the old one.
  unfoldable pub update_existing :
      C.State → Migration M S → Migration M S → Bool × M → Option Error × C.State
  update_existing t required existing (changed, meta) =
      if changed || not (L.same_spec existing.spec required.spec)
      then (let (r, t') = C.update t (record existing { meta = meta }) in (error_of r, t'))
      else (none, t)

  unfoldable pub apply_existing :
      C.State → Migration M S → Result (Migration M S) → Option Error × C.State
  unfolding update_existing
  apply_existing t required (err e) =
      if is_not_found e
      then (let (r, t') = C.create t required in (error_of r, t'))
      else (some e, t)
  apply_existing t required (ok existing) =
      update_existing t required existing (L.ensure_object_meta existing.meta required.meta)

  unfoldable pub apply_storage_version_migration : C.State → Migration M S → Option Error × C.State
  unfolding apply_existing
  apply_storage_version_migration t required = apply_existing t required (C.get t required.name)

  apply_parsed : C.State → Result (Migration M S) → Option Error × C.State
  unfolding apply_storage_version_migration
  apply_parsed t (err e) = (some e, t)
  apply_parsed t (ok required) = apply_storage_version_migration t required

  apply_files : List String → C.State → List Error × C.State
  unfolding apply_parsed parse_storage_version_migration_file
  apply_files [] t = ([], t)
  apply_files (file ∷ files) t =
      let (e, t') = apply_parsed t (parse_storage_version_migration_file file) in
      let (es, t'') = apply_files files t' in (cons_error e es, t'')

  unfoldable pub apply_storage_version_migrations :
      Aggregate → List String → C.State → Option Error × C.State
  unfolding apply_files
  apply_storage_version_migrations A files t =
      let (es, t') = apply_files files t in (A.new_aggregate es, t')

  -- The migration on the server that a file asks for.
  unfoldable pub existing_of : C.State → String → Result (Migration M S)
  unfolding parse_storage_version_migration_file
  existing_of t file =
      parse_storage_version_migration_file file >>= λ required. C.get t required.name

  unfoldable pub concluded : Option Condition → Result Condition → Result Condition
  concluded none rest = rest
  concluded (some c) rest = ok c

  unfoldable pub conclude : Result (Migration M S) → Result Condition → Result Condition
  unfolding concluded verdict get_status_condition
  conclude (err e) rest = err e
  conclude (ok m) rest = concluded (verdict m.name (get_status_condition m.conditions)) rest

  unfoldable pub sync_condition : C.State → List String → Result Condition
  unfolding conclude existing_of
  sync_condition t [] = ok all_succeeded
  sync_condition t (file ∷ files) = conclude (existing_of t file) (sync_condition t files)

  remove_parsed : C.State → Result (Migration M S) → Option Error × C.State
  remove_parsed t (err e) = (some e, t)
  remove_parsed t (ok required) = absent (C.delete t required.name)
    where
      absent : Option Error × C.State → Option Error × C.State
      absent (none, t') = (none, t')
      absent (some e, t') = if is_not_found e then (none, t') else (some e, t')

  unfoldable pub remove_storage_version_migration : C.State → String → Option Error × C.State
  unfolding remove_parsed parse_storage_version_migration_file
  remove_storage_version_migration t file =
      remove_parsed t (parse_storage_version_migration_file file)

  unfoldable pub continue :
      Option Error × C.State → (C.State → Option Error × C.State) → Option Error × C.State
  continue (some e, t) next = (some e, t)
  continue (none, t) next = next t

  unfoldable pub remove_storage_version_migrations : List String → C.State → Option Error × C.State
  unfolding remove_storage_version_migration continue
  remove_storage_version_migrations [] t = (none, t)
  remove_storage_version_migrations (file ∷ files) t =
      continue (remove_storage_version_migration t file)
        (λ t. remove_storage_version_migrations files t)
