-- ===== src/Ssar/Locker/Exclusion.antt =====
-- At most one check of a klusterlet runs at a time.
use registration_operator.Common.{
  String, ℕ, suc, ◌+◌, ◌≡◌, refl, Bool, true, false, List, [], ◌∷◌, Result, ok, err, is_not_found,
  if◌then◌else◌, ◌==◌, string_eq, contains, arith,
}
use registration_operator.Common.Dict
use registration_operator.Common.Dict.{Dict, lookup-insert, lookup-erase}
use registration_operator.Ssar.Locker.{
  Locker, in_ssar_checking, add_ssar_checking, delete_ssar_checking, Target, Decision, nothing,
  requeue, fails, check, sync_found, sync, World, started, after_sync, ended, after_end, Step,
  syncs, ends, Reach, here, next, initial,
}

-- How many goroutines of a key run.
abbrev pub count : String → List String → ℕ
count k [] = 0
count k (j ∷ running) = let rest = count k running in if k == j then suc rest else rest

-- A key is in the locker while its one goroutine runs.
abbrev InvOf : Locker → List String → Type 0
InvOf l running = (k : String) → count k running ≡ (if in_ssar_checking l k then 1 else 0)

abbrev Inv : World → Type 0
Inv w = InvOf w.locker w.running

count-ended :
    (j k : String) (running : List String)
    → contains running k ≡ true
    → count j running ≡ count j (ended k running) + (if j == k then 1 else 0)
unfolding ended
count-ended j k [] h = cc
count-ended j k (i ∷ running) h = ground (arith, count-ended j k running)

-- What a decision makes of a state.
abbrev Kept : String → List String → Decision × Locker → Type 0
Kept k running (decision, l) = InvOf l (started k decision running)

either-Kept :
    (k : String) (running : List String) (b : Bool) (x y : Decision × Locker)
    → Kept k running x
    → Kept k running y
    → Kept k running (if b then x else y)
either-Kept k running true x y p q = p
either-Kept k running false x y p q = q

added-InvOf :
    (l : Locker) (k : String) (running : List String)
    → in_ssar_checking l k ≡ false
    → InvOf l running
    → InvOf (add_ssar_checking l k) (k ∷ running)
unfolding add_ssar_checking in_ssar_checking
added-InvOf l k running free inv = λ j. ground (arith, inv j, lookup-insert j k tt l)

sync_found-Kept :
    (l : Locker) (k : String) (running : List String) (found : Result Target)
    → InvOf l running
    → Kept k running (sync_found l k found)
unfolding sync_found started
sync_found-Kept l k running (err e) inv =
    either-Kept k running (is_not_found e) (nothing, l) (fails e, l) inv inv
sync_found-Kept l k running (ok target) inv = go (in_ssar_checking l k) refl
  where
    go :
        (b : Bool)
        → in_ssar_checking l k ≡ b
        → Kept k running (if b then (requeue, l) else (check target, add_ssar_checking l k))
    go true fn = inv
    go false fn = added-InvOf l k running fn inv

after_sync-Inv :
    (w : World) (k : String) (found : Result Target) → Inv w → Inv (after_sync w k found)
unfolding after_sync sync started
after_sync-Inv w k found inv =
    either-Kept k w.running (k == "") (nothing, w.locker) (sync_found w.locker k found) inv
      (sync_found-Kept w.locker k w.running found inv)

after_end-Inv : (w : World) (k : String) → contains w.running k ≡ true → Inv w → Inv (after_end w k)
unfolding after_end delete_ssar_checking in_ssar_checking
after_end-Inv w k runs inv =
    λ j. ground (arith, inv j, lookup-erase j k w.locker, count-ended j k w.running runs)

Step-Inv : {v w : World} → Step v w → Inv v → Inv w
Step-Inv (syncs w k found) inv = after_sync-Inv w k found inv
Step-Inv (ends w k runs) inv = after_end-Inv w k runs inv

Reach-Inv : {w : World} → Reach initial w → Inv w
unfolding in_ssar_checking Dict.lookup
Reach-Inv here = λ k. refl
Reach-Inv (next r step) = Step-Inv step (Reach-Inv r)

-- In every state that syncs and ends of goroutines lead to, in any order, a klusterlet has one running
-- check if the locker has its name, and none else.
pub Reach-exclusive :
    {w : World} (k : String)
    → Reach initial w
    → count k w.running ≡ (if in_ssar_checking w.locker k then 1 else 0)
Reach-exclusive k r = Reach-Inv r k
