-- ===== src/Helpers/StatusUpdates.antt =====
-- `UpdateClusterManagerStatus`, `UpdateKlusterletStatus` and the functions they are given, of
-- pkg/helpers/helpers.go. The two are the same code over two types of object; a status is its
-- conditions and the rest of its fields. The list of conditions is the API machinery's, and so are
-- the deep comparison and the retry on a conflict.
pub mod Retry
pub mod Enough
pub mod Settled
pub mod Stored
mod Tests
use registration_operator.Common.{
  String, ℕ, ◌≡◌, Bool, true, false, List, [], ◌∷◌, Error, Result, ok, err, if◌then◌else◌, ◌>>=◌,
}

pub record Status (K R : Type 0) : Type 0 where
  pub conditions : List K
  pub rest : R

-- An object as `Get` gives it; its version is what a write is checked against.
pub record Object (K R : Type 0) : Type 0 where
  pub name : String
  pub version : ℕ
  pub status : Status K R

-- `Get` and `UpdateStatus`. The state includes what others write, so that a write may conflict.
pub record Client (K R : Type 0) : Type 1 where
  pub State : Type 0
  pub get : State → String → Result (Object K R)
  pub update_status : State → Object K R → Result (Object K R) × State

-- `meta.SetStatusCondition` and `meta.RemoveStatusCondition`.
pub record Conditions (K : Type 0) : Type 0 where
  pub set_status_condition : K → List K → List K
  pub remove_status_condition : String → List K → List K

-- `UpdateKlusterletStatusFunc`: an error drops the copy that was changed.
abbrev pub UpdateFunc : Type 0 → Type 0 → Type 0
UpdateFunc K R = Status K R → Result (Status K R)

-- The condition types of older releases that each update removes.
abbrev pub klusterlet_old_types : List String
klusterlet_old_types = "InvalidRegistrationFeatureGates" ∷ "ValidRegistrationFeatureGates" ∷ []

abbrev pub cluster_manager_old_types : List String
cluster_manager_old_types = "ValidRegistrationFeatureGates" ∷ "ValidWorkFeatureGates" ∷ []

module _ {K : Type 0} (L : Conditions K) where
  unfoldable pub set_all : List K → List K → List K
  set_all [] cs = cs
  set_all (c ∷ conds) cs = set_all conds (L.set_status_condition c cs)

  unfoldable pub remove_all : List String → List K → List K
  remove_all [] cs = cs
  remove_all (t ∷ types) cs = remove_all types (L.remove_status_condition t cs)

module _ {K R : Type 0} (L : Conditions K) where
  -- `UpdateKlusterletConditionFn` and `UpdateClusterManagerConditionFn`.
  unfoldable pub update_condition_fn : List K → UpdateFunc K R
  unfolding set_all
  update_condition_fn conds s = ok (record s { conditions = set_all L conds s.conditions })

  -- `RemoveKlusterletConditionFn` and `RemoveClusterManagerConditionFn`.
  unfoldable pub remove_condition_fn : List String → UpdateFunc K R
  unfolding remove_all
  remove_condition_fn types s = ok (record s { conditions = remove_all L types s.conditions })

  unfoldable pub run_updates : List (UpdateFunc K R) → UpdateFunc K R
  run_updates [] s = ok s
  run_updates (u ∷ us) s = u s >>= λ s. run_updates us s

  -- The new status that an attempt computes from the old one.
  unfoldable pub new_status : List String → List (UpdateFunc K R) → UpdateFunc K R
  unfolding remove_condition_fn run_updates
  new_status old_types us s = remove_condition_fn old_types s >>= λ s. run_updates us s

  module _ (same : Status K R → Status K R → Bool) (C : Client K R) where
    unfoldable pub sent : Result (Object K R) × C.State → Result (Status K R × Bool) × C.State
    sent (err e, t) = (err e, t)
    sent (ok o, t) = (ok (o.status, true), t)

    unfoldable pub write :
        C.State → Object K R → Result (Status K R) → Result (Status K R × Bool) × C.State
    unfolding sent
    write t o (err e) = (err e, t)
    write t o (ok s) =
        if same o.status s
        then (ok (s, false), t)
        else sent (C.update_status t (record o { status = s }))

    unfoldable pub attempt_with :
        List String
        → List (UpdateFunc K R)
        → C.State
        → Result (Object K R)
        → Result (Status K R × Bool) × C.State
    unfolding write new_status
    attempt_with old_types us t (err e) = (err e, t)
    attempt_with old_types us t (ok o) = write t o (new_status old_types us o.status)

    -- The function that is retried: the status, whether it was written, and the state.
    unfoldable pub attempt :
        List String
        → List (UpdateFunc K R)
        → String
        → C.State
        → Result (Status K R × Bool) × C.State
    unfolding attempt_with
    attempt old_types us name t = attempt_with old_types us t (C.get t name)
