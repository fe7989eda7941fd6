-- ===== src/Helpers/Generations/Laws.antt =====
-- The generation statuses as a map from objects to their last generation.
use registration_operator.Common.{
  ℕ, ◌≡◌, refl, ◌∙◌, Option, none, some, List, [], ◌∷◌, ◌++◌, ◌==◌, if◌then◌else◌, arith,
}
use mathlib.Core.Option.{or_else}
use registration_operator.Helpers.Objects.{ObjectKey, key_eq}
use registration_operator.Helpers.Generations.{
  GenerationStatus, same_object-key, key, status_of, find_generation_status, write_found,
  set_generation_statuses, update_generations,
}

-- The loop compares field by field; what it finds is the status of the object.
pub find-status_of :
    (ss : List GenerationStatus) (g : GenerationStatus)
    → find_generation_status ss g ≡ status_of (key g) ss
unfolding find_generation_status
find-status_of [] g = refl
find-status_of (s ∷ ss) g = ground (arith, same_object-key s g, find-status_of ss g)

written-eq :
    (s g : GenerationStatus)
    → key s ≡ key g
    → ◌≡◌ {A = GenerationStatus} (record s { last_generation = g.last_generation }) g
unfolding key
written-eq s g p = λ i. record {
  group = (p i).group;
  version = (p i).version;
  resource = (p i).resource;
  namespace = (p i).namespace;
  name = (p i).name;
  last_generation = g.last_generation;
}

written-key : (s : GenerationStatus) (n : ℕ) → key (record s { last_generation = n }) ≡ key s
unfolding key
written-key s n = refl

-- A write through the pointer needs the object to be there.
abbrev if_present : Option GenerationStatus → GenerationStatus → Option GenerationStatus
if_present none g = none
if_present (some _) g = some g

status_of-write_found :
    (k : ObjectKey) (ss : List GenerationStatus) (g : GenerationStatus)
    → status_of k (write_found ss g)
      ≡ (if key g == k then if_present (status_of (key g) ss) g else status_of k ss)
unfolding write_found
status_of-write_found k [] g = ground arith
status_of-write_found k (s ∷ ss) g = ground (
  arith,
  same_object-key s g,
  written-eq s g,
  written-key s g.last_generation,
  status_of-write_found k ss g,
)

status_of-append_one :
    (k : ObjectKey) (ss : List GenerationStatus) (g : GenerationStatus)
    → status_of k (ss ++ (g ∷ [])) ≡ or_else (status_of k ss) (if key g == k then some g else none)
unfolding or_else
status_of-append_one k [] g = refl
status_of-append_one k (s ∷ ss) g = ground (arith, status_of-append_one k ss g)

-- `SetGenerationStatuses` sets the status of its object and of no other.
pub status_of-set :
    (k : ObjectKey) (ss : List GenerationStatus) (g : GenerationStatus)
    → status_of k (set_generation_statuses ss g) ≡ (if key g == k then some g else status_of k ss)
unfolding set_generation_statuses or_else
status_of-set k ss g =
    ground (arith, find-status_of ss g, status_of-write_found k ss g, status_of-append_one k ss g)

-- The last status of an object among some updates.
abbrev pub last_of : ObjectKey → List GenerationStatus → Option GenerationStatus
last_of k [] = none
last_of k (g ∷ gs) = or_else (last_of k gs) (if key g == k then some g else none)

-- After `UpdateClusterManagerGenerationsFn` or `UpdateKlusterletGenerationsFn` an object has the
-- last of the given statuses that is about it, and the status it had if none is.
pub status_of-update :
    (k : ObjectKey) (gs ss : List GenerationStatus)
    → status_of k (update_generations gs ss) ≡ or_else (last_of k gs) (status_of k ss)
unfolding update_generations or_else
status_of-update k [] ss = refl
status_of-update k (g ∷ gs) ss =
    status_of-update k gs (set_generation_statuses ss g) ∙ ground (arith, status_of-set k ss g)

-- No object has two statuses.
abbrev pub IsDistinct : List GenerationStatus → Type 0
IsDistinct [] = Unit
IsDistinct (s ∷ ss) = (status_of (key s) ss ≡ none) × IsDistinct ss

write_found-IsDistinct :
    (ss : List GenerationStatus) (g : GenerationStatus)
    → IsDistinct ss
    → IsDistinct (write_found ss g)
unfolding write_found
write_found-IsDistinct [] g d = tt
write_found-IsDistinct (s ∷ ss) g (fresh, d) = ground (
  arith,
  same_object-key s g,
  written-key s g.last_generation,
  write_found-IsDistinct ss g d,
  status_of-write_found (key s) ss g,
)

append_one-IsDistinct :
    (ss : List GenerationStatus) (g : GenerationStatus)
    → status_of (key g) ss ≡ none
    → IsDistinct ss
    → IsDistinct (ss ++ (g ∷ []))
unfolding or_else
append_one-IsDistinct [] g away d = (refl, tt)
append_one-IsDistinct (s ∷ ss) g away (fresh, d) =
    ground (arith, append_one-IsDistinct ss g, status_of-append_one (key s) ss g)

set-IsDistinct :
    (ss : List GenerationStatus) (g : GenerationStatus)
    → IsDistinct ss
    → IsDistinct (set_generation_statuses ss g)
unfolding set_generation_statuses
set-IsDistinct ss g d =
    ground (arith, find-status_of ss g, write_found-IsDistinct ss g d, append_one-IsDistinct ss g)

-- The update functions keep the statuses free of duplicates.
pub update-IsDistinct :
    (gs ss : List GenerationStatus) → IsDistinct ss → IsDistinct (update_generations gs ss)
unfolding update_generations
update-IsDistinct [] ss d = d
update-IsDistinct (g ∷ gs) ss d =
    update-IsDistinct gs (set_generation_statuses ss g) (set-IsDistinct ss g d)
