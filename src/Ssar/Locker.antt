-- ===== src/Ssar/Locker.antt =====
-- The locker of the same file, the sync, and the goroutine that a sync starts. The work queue hands out
-- a key to one worker at a time, so that the test and the entry of a key are one step; goroutines
-- end in any order.
pub mod Exclusion
use registration_operator.Common.{
  String, ℕ, ◌≡◌, Bool, true, false, Option, none, some, List, [], ◌∷◌, Error, Result, ok, err,
  is_not_found, if◌then◌else◌, ◌==◌, string_eq, contains,
}
use registration_operator.Common.Dict
use registration_operator.Common.Dict.{Dict}
use registration_operator.Helpers.Klusterlets.{Klusterlet, agent_namespace}
use registration_operator.Helpers.StatusUpdates
use registration_operator.Helpers.StatusUpdates.{Status, Conditions, update_condition_fn}
use registration_operator.Helpers.StatusUpdates.Retry.{Retry, update_klusterlet_status}
use registration_operator.Secrets.{Secret}
use registration_operator.Ssar.{Library, KlusterletAgent, Condition, hub_condition}

-- The keys of `klusterletInChecking`.
abbrev pub Locker : Type 0
Locker = Dict Unit

abbrev is_some : {A : Type 0} → Option A → Bool
is_some none = false
is_some (some a) = true

unfoldable pub in_ssar_checking : Locker → String → Bool
in_ssar_checking l k = is_some (Dict.lookup k l)

unfoldable pub add_ssar_checking : Locker → String → Locker
add_ssar_checking l k = Dict.insert k tt l

unfoldable pub delete_ssar_checking : Locker → String → Locker
delete_ssar_checking l k = Dict.erase k l

-- What a check needs of a klusterlet.
pub record Target : Type 0 where
  pub klusterlet : Klusterlet
  pub cluster_name : String
  pub generation : ℕ

-- What a sync does: `requeue` is to come back after 30 seconds.
pub data Decision : Type 0 where
  nothing requeue : Decision
  fails : Error → Decision
  check : Target → Decision

unfoldable pub sync_found : Locker → String → Result Target → Decision × Locker
unfolding in_ssar_checking add_ssar_checking
sync_found l k (err e) = if is_not_found e then (nothing, l) else (fails e, l)
sync_found l k (ok target) =
    if in_ssar_checking l k then (requeue, l) else (check target, add_ssar_checking l k)

-- `found` is the lister's answer for the key.
unfoldable pub sync : Locker → String → Result Target → Decision × Locker
unfolding sync_found
sync l k found = if k == "" then (nothing, l) else sync_found l k found

abbrev agent_of : Target → KlusterletAgent
agent_of target = record {
  cluster_name = target.cluster_name;
  namespace = agent_namespace target.klusterlet;
}

abbrev is_failed : {A : Type 0} → Result A → Bool
is_failed (ok a) = false
is_failed (err e) = true

-- The body of the goroutine: whether the key is queued again, and the state of the server.
unfoldable pub run_check :
    {Cluster R A S : Type 0} (L : Library Cluster R A) (M : Conditions Condition)
    (same : Status Condition S → Status Condition S → Bool) (C : StatusUpdates.Client Condition S)
    (T : Retry C.State (Status Condition S × Bool))
    → (String → String → Result Secret)
    → (String → String → Result Secret)
    → String
    → Target
    → C.State
    → Bool × C.State
run_check L M same C T get get' k target t =
    let condition = hub_condition L get get' (agent_of target) target.generation in
    let (r, t') =
      update_klusterlet_status M same C T (update_condition_fn M (condition ∷ []) ∷ []) k t in
    (is_failed r, t')

-- The locker, and the keys of the goroutines that run.
pub record World : Type 0 where
  pub locker : Locker
  pub running : List String

-- The goroutine that a sync starts.
unfoldable pub started : String → Decision → List String → List String
started k nothing running = running
started k requeue running = running
started k (fails e) running = running
started k (check target) running = k ∷ running

unfoldable pub after_sync : World → String → Result Target → World
unfolding sync started
after_sync w k found =
    let (decision, l) = sync w.locker k found in
    record { locker = l; running = started k decision w.running }

-- One goroutine of the key ends.
unfoldable pub ended : String → List String → List String
ended k [] = []
ended k (j ∷ running) = let rest = ended k running in if k == j then running else j ∷ rest

unfoldable pub after_end : World → String → World
unfolding ended delete_ssar_checking
after_end w k = record { locker = delete_ssar_checking w.locker k; running = ended k w.running }

pub data Step : World → World → Type 0 where
  syncs : (w : World) (k : String) (found : Result Target) → Step w (after_sync w k found)
  ends : (w : World) (k : String) → contains w.running k ≡ true → Step w (after_end w k)

pub data Reach (s : World) : World → Type 0 where
  here : Reach s s
  next : {t u : World} → Reach s t → Step t u → Reach s u

abbrev pub initial : World
initial = record { locker = []; running = [] }
