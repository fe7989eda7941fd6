-- ===== src/Helpers/Related/Laws.antt =====
-- Setting and removing a related resource.
use registration_operator.Common.{
  ◌≡◌, refl, Bool, true, false, ◌||◌, Option, none, some, List, [], ◌∷◌, ◌++◌, ◌==◌, arith,
  contains,
}
use registration_operator.Helpers.Objects.{ObjectKey, key_eq}
use registration_operator.Helpers.Related.{
  find_related_resources_status, remove_related_resources_status, set_related_resources_statuses,
  remove_related_resources_statuses,
}

abbrev is_some : Option ObjectKey → Bool
is_some none = false
is_some (some _) = true

find-contains :
    (xs : List ObjectKey) (r : ObjectKey)
    → is_some (find_related_resources_status xs r) ≡ contains xs r
unfolding find_related_resources_status
find-contains [] r = refl
find-contains (x ∷ xs) r = ground (arith, find-contains xs r)

contains-append_one :
    (xs : List ObjectKey) (r x : ObjectKey)
    → contains (xs ++ (r ∷ [])) x ≡ (x == r || contains xs x)
contains-append_one [] r x = refl
contains-append_one (y ∷ xs) r x = ground (arith, contains-append_one xs r x)

remove_one-append_one :
    (xs : List ObjectKey) (r : ObjectKey)
    → contains xs r ≡ false
    → remove_related_resources_status (xs ++ (r ∷ [])) r ≡ xs
unfolding remove_related_resources_status
remove_one-append_one [] r away = ground arith
remove_one-append_one (x ∷ xs) r away = ground (arith, remove_one-append_one xs r)

-- A resource that was not there is put at the end of the list, a second setting changes nothing, and
-- removing it gives the list back.
pub remove-set :
    (xs : List ObjectKey) (r : ObjectKey)
    → contains xs r ≡ false
    → (set_related_resources_statuses xs r ≡ xs ++ (r ∷ []))
      × (set_related_resources_statuses (set_related_resources_statuses xs r) r
          ≡ set_related_resources_statuses xs r)
      × (remove_related_resources_statuses (set_related_resources_statuses xs r) r ≡ xs)
unfolding set_related_resources_statuses remove_related_resources_statuses
remove-set xs r away = (
  ground (arith, find-contains xs r),
  ground (arith, find-contains xs r, find-contains (xs ++ (r ∷ [])) r, contains-append_one xs r r),
  ground (
    arith,
    find-contains xs r,
    find-contains (xs ++ (r ∷ [])) r,
    contains-append_one xs r r,
    remove_one-append_one xs r away,
  ),
)
