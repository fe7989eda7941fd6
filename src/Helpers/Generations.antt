-- ===== src/Helpers/Generations.antt =====
-- The generation statuses of pkg/helpers/helpers.go: `FindGenerationStatus`,
-- `SetGenerationStatuses` and the two update functions, which fold it. An int64 generation is a
-- number; the code only copies it.
pub mod Laws
use registration_operator.Common.{
  String, ℕ, suc, ◌+◌, ◌≤◌, ◌≡◌, refl, ap, sym, ◌∙◌, Bool, true, false, ◌&&◌, Option, none, some,
  List, [], ◌∷◌, ◌++◌, ◌==◌, string_eq, if◌then◌else◌, arith, length, length-append,
}
use mathlib.Core.Option.{or_else}
use mathlib.Core.List.{reverse}
use registration_operator.Helpers.Objects.{ObjectKey, key_eq}

pub record GenerationStatus : Type 0 where
  pub group : String
  pub version : String
  pub resource : String
  pub namespace : String
  pub name : String
  pub last_generation : ℕ

-- The guards of the loop of `FindGenerationStatus`, all passed.
unfoldable pub same_object : GenerationStatus → GenerationStatus → Bool
same_object a b =
    a.group == b.group
    && (a.resource == b.resource
        && (a.version == b.version && (a.name == b.name && a.namespace == b.namespace)))

unfoldable pub find_generation_status :
    List GenerationStatus → GenerationStatus → Option GenerationStatus
find_generation_status [] g = none
find_generation_status (s ∷ ss) g = if same_object s g then some s else find_generation_status ss g

-- The write through the pointer that `FindGenerationStatus` returns.
unfoldable pub write_found : List GenerationStatus → GenerationStatus → List GenerationStatus
write_found [] g = []
write_found (s ∷ ss) g =
    if same_object s g
    then (record s { last_generation = g.last_generation }) ∷ ss
    else s ∷ write_found ss g

unfoldable pub set_generation_statuses :
    List GenerationStatus → GenerationStatus → List GenerationStatus
unfolding find_generation_status write_found
set_generation_statuses ss g = elim (find_generation_status ss g) [
  | none ↦ ss ++ (g ∷ [])
  | some _ ↦ write_found ss g
]

-- `UpdateClusterManagerGenerationsFn` and `UpdateKlusterletGenerationsFn`.
unfoldable pub update_generations :
    List GenerationStatus → List GenerationStatus → List GenerationStatus
update_generations [] ss = ss
update_generations (g ∷ gs) ss = update_generations gs (set_generation_statuses ss g)

-- The object that a status is about.
unfoldable pub key : GenerationStatus → ObjectKey
key s = record {
  group = s.group;
  version = s.version;
  resource = s.resource;
  namespace = s.namespace;
  name = s.name;
}

same_object-key : (a b : GenerationStatus) → same_object a b ≡ (key a == key b)
unfolding same_object key
same_object-key a b = ground arith

-- The status of an object, by its key.
abbrev pub status_of : ObjectKey → List GenerationStatus → Option GenerationStatus
status_of k [] = none
status_of k (s ∷ ss) = if key s == k then some s else status_of k ss
