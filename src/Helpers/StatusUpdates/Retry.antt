-- ===== src/Helpers/StatusUpdates/Retry.antt =====
-- The retry on a conflict, of which the code relies on this: it makes up to four attempts
-- (`retry.DefaultBackoff`), a further one only after a conflict, while others may write in between,
-- and answers what the last attempt answers.
use registration_operator.Common.{String, ℕ, suc, ◌≡◌, Bool, true, false, List, Error, Result, err}
use registration_operator.Helpers.StatusUpdates.{
  Status, Client, Conditions, UpdateFunc, attempt, klusterlet_old_types, cluster_manager_old_types,
}

abbrev pub default_steps : ℕ
default_steps = 4

module _ {S A : Type 0} (is_conflict : Error → Bool) (Others : S → S → Type 0)
    (f : S → Result A × S) where
  -- What up to `n` attempts from a state may answer, and the state they may leave.
  pub data Attempts : ℕ → S → Result A → S → Type 0 where
    answered :
        (n : ℕ) (s : S)
        → ((e : Error) → (f s).0 ≡ err e → is_conflict e ≡ false)
        → Attempts (suc n) s (f s).0 (f s).1
    given_up : (s : S) → Attempts 1 s (f s).0 (f s).1
    again :
        {n : ℕ} {s u v : S} {r : Result A} {e : Error}
        → (f s).0 ≡ err e
        → is_conflict e ≡ true
        → Others (f s).1 u
        → Attempts n u r v
        → Attempts (suc n) s r v

-- `retry.RetryOnConflict(retry.DefaultBackoff, f)`
pub record Retry (S A : Type 0) : Type 0 where
  pub retry_on_conflict : (S → Result A × S) → S → Result A × S

-- The promise, for each function and state.
abbrev pub Retries : {S A : Type 0} → (Error → Bool) → (S → S → Type 0) → Retry S A → Type 0
Retries {S = S} {A = A} is_conflict Others T =
    (f : S → Result A × S) (s : S)
    → Attempts is_conflict Others f default_steps s (T.retry_on_conflict f s).0
        (T.retry_on_conflict f s).1

module _ {K R : Type 0} (L : Conditions K) (same : Status K R → Status K R → Bool) (C : Client K R)
    (T : Retry C.State (Status K R × Bool)) where
  unfoldable pub update_status :
      List String → List (UpdateFunc K R) → String → C.State → Result (Status K R × Bool) × C.State
  update_status old_types us name t = T.retry_on_conflict (attempt L same C old_types us name) t

  unfoldable pub update_klusterlet_status :
      List (UpdateFunc K R) → String → C.State → Result (Status K R × Bool) × C.State
  unfolding update_status
  update_klusterlet_status = update_status klusterlet_old_types

  unfoldable pub update_cluster_manager_status :
      List (UpdateFunc K R) → String → C.State → Result (Status K R × Bool) × C.State
  unfolding update_status
  update_cluster_manager_status = update_status cluster_manager_old_types
