-- ===== src/Helpers/StatusUpdates/Settled.antt =====
-- An update of conditions that is run again.
use registration_operator.Common.{
  String, ℕ, ◌≡◌, ◌≢◌, refl, ◌∙◌, Bool, false, List, [], ◌∷◌, Error, Result, ok, All, ap,
}
use registration_operator.Helpers.StatusUpdates.{
  Status, Object, Client, Conditions, UpdateFunc, attempt, attempt_with, write, new_status, set_all,
  remove_all, run_updates, update_condition_fn, remove_condition_fn,
}
use registration_operator.Helpers.StatusUpdates.Retry.{
  Attempts, answered, given_up, again, Retry, Retries, update_status,
}
use registration_operator.Helpers.StatusUpdates.Stored.{
  IsLawful, IsEqual, Stored, update_status-Stored,
}

-- What the code relies on of the two library functions: `Has c cs` is that the condition of `c`'s
-- type says what `c` says, and `Lacks t cs` that no condition has type `t`.
pub record IsConditions {K : Type 0} (title : K → String) (L : Conditions K) : Type 1 where
  pub Has : K → List K → Type 0
  pub Lacks : String → List K → Type 0
  pub set-Has : (c : K) (cs : List K) → Has c (L.set_status_condition c cs)
  pub set-Has_other :
      (c d : K) (cs : List K) → title c ≢ title d → Has c cs → Has c (L.set_status_condition d cs)
  pub set_present : (c : K) (cs : List K) → Has c cs → L.set_status_condition c cs ≡ cs
  pub remove-Lacks : (t : String) (cs : List K) → Lacks t (L.remove_status_condition t cs)
  pub remove-Lacks_other :
      (t u : String) (cs : List K) → Lacks t cs → Lacks t (L.remove_status_condition u cs)
  pub set-Lacks :
      (t : String) (c : K) (cs : List K)
      → t ≢ title c
      → Lacks t cs
      → Lacks t (L.set_status_condition c cs)
  pub remove_absent : (t : String) (cs : List K) → Lacks t cs → L.remove_status_condition t cs ≡ cs

module _ {K : Type 0} (title : K → String) (L : Conditions K) (law : IsConditions title L) where
  -- No two of the conditions have one type.
  abbrev pub Distinct : List K → Type 0
  Distinct [] = Unit
  Distinct (c ∷ cs) = All (λ d. title c ≢ title d) cs × Distinct cs

  abbrev pub Apart : List String → List K → Type 0
  Apart types conds = All (λ t. All (λ c. t ≢ title c) conds) types

  set_all-Has_other :
      (c : K) (ds cs : List K)
      → All (λ d. title c ≢ title d) ds
      → law.Has c cs
      → law.Has c (set_all L ds cs)
  unfolding set_all
  set_all-Has_other c [] cs apart has = has
  set_all-Has_other c (d ∷ ds) cs (differs, apart) has =
      set_all-Has_other c ds (L.set_status_condition d cs) apart
        (law.set-Has_other c d cs differs has)

  set_all-Has : (ds cs : List K) → Distinct ds → All (λ c. law.Has c (set_all L ds cs)) ds
  unfolding set_all
  set_all-Has [] cs distinct = tt
  set_all-Has (d ∷ ds) cs (apart, distinct) = (
    set_all-Has_other d ds (L.set_status_condition d cs) apart (law.set-Has d cs),
    set_all-Has ds (L.set_status_condition d cs) distinct,
  )

  set_all_present : (ds cs : List K) → All (λ c. law.Has c cs) ds → set_all L ds cs ≡ cs
  unfolding set_all
  set_all_present [] cs has = refl
  set_all_present (d ∷ ds) cs (first, has) =
      rw (law.set_present d cs first) (set_all_present ds cs has)

  remove_all-Lacks_other :
      (t : String) (us : List String) (cs : List K)
      → law.Lacks t cs
      → law.Lacks t (remove_all L us cs)
  unfolding remove_all
  remove_all-Lacks_other t [] cs lacks = lacks
  remove_all-Lacks_other t (u ∷ us) cs lacks =
      remove_all-Lacks_other t us (L.remove_status_condition u cs)
        (law.remove-Lacks_other t u cs lacks)

  set_all-Lacks :
      (t : String) (ds cs : List K)
      → All (λ c. t ≢ title c) ds
      → law.Lacks t cs
      → law.Lacks t (set_all L ds cs)
  unfolding set_all
  set_all-Lacks t [] cs apart lacks = lacks
  set_all-Lacks t (d ∷ ds) cs (differs, apart) lacks =
      set_all-Lacks t ds (L.set_status_condition d cs) apart (law.set-Lacks t d cs differs lacks)

  cleared-Lacks :
      (types : List String) (ds cs : List K)
      → Apart types ds
      → All (λ t. law.Lacks t (set_all L ds (remove_all L types cs))) types
  unfolding remove_all
  cleared-Lacks [] ds cs apart = tt
  cleared-Lacks (t ∷ types) ds cs (first, apart) = (
    set_all-Lacks t ds (remove_all L types (L.remove_status_condition t cs)) first
        (remove_all-Lacks_other t types (L.remove_status_condition t cs) (law.remove-Lacks t cs)),
    cleared-Lacks types ds (L.remove_status_condition t cs) apart,
  )

  remove_all_absent :
      (types : List String) (cs : List K)
      → All (λ t. law.Lacks t cs) types
      → remove_all L types cs ≡ cs
  unfolding remove_all
  remove_all_absent [] cs lacks = refl
  remove_all_absent (t ∷ types) cs (first, lacks) =
      rw (law.remove_absent t cs first) (remove_all_absent types cs lacks)

  again_same :
      (types : List String) (ds cs : List K)
      → Apart types ds
      → Distinct ds
      → set_all L ds (remove_all L types (set_all L ds (remove_all L types cs)))
        ≡ set_all L ds (remove_all L types cs)
  again_same types ds cs apart distinct =
      rw
        (remove_all_absent types (set_all L ds (remove_all L types cs))
          (cleared-Lacks types ds cs apart))
        (set_all_present ds (set_all L ds (remove_all L types cs))
          (set_all-Has ds (remove_all L types cs) distinct))

  new_status_again :
      {R : Type 0} (types : List String) (ds : List K) (old : Status K R) {s : Status K R}
      → Apart types ds
      → Distinct ds
      → new_status L types (update_condition_fn L ds ∷ []) old ≡ ok s
      → new_status L types (update_condition_fn L ds ∷ []) s ≡ ok s
  unfolding new_status run_updates update_condition_fn remove_condition_fn
  new_status_again types ds old {s = x} apart distinct h =
      let same = again_same types ds old.conditions apart distinct in cc

module _ {S A : Type 0} {is_conflict : Error → Bool} {Others : S → S → Type 0}
    {f : S → Result A × S} where
  -- An attempt that succeeds is the last one.
  Attempts-first :
      {n : ℕ} {s v : S} {r : Result A} {a : A}
      → Attempts is_conflict Others f n s r v
      → (f s).0 ≡ ok a
      → (r ≡ ok a) × (v ≡ (f s).1)
  Attempts-first (answered n s h) fine = (fine, refl)
  Attempts-first (given_up s) fine = (fine, refl)
  Attempts-first (again fails conflict others rest) fine = cc

paired : {A B : Type 0} (p : A × B) {a : A} {b : B} → p.0 ≡ a → p.1 ≡ b → p ≡ (a, b)
paired (x, y) h k = cc

module _ {K R : Type 0} (title : K → String) (L : Conditions K)
    (same : Status K R → Status K R → Bool) (C : Client K R) (types : List String) (ds : List K)
    (name : String) where
  abbrev fn : List (UpdateFunc K R)
  fn = update_condition_fn L ds ∷ []

  written_again :
      (eq : IsEqual same) (t : C.State) (o : Object K R) {s : Status K R}
      → o.status ≡ s
      → new_status L types fn s ≡ ok s
      → write L same C t o (new_status L types fn o.status) ≡ (ok (s, false), t)
  unfolding write
  written_again eq t o {s = x} e again_ = rw (e, again_, eq.same-refl x) refl

  attempt_again :
      (eq : IsEqual same) (law : IsConditions title L) (t : C.State) {s : Status K R} (b : Bool)
      → Apart title L law types ds
      → Distinct title L law ds
      → Stored L same C types fn name t s b
      → attempt L same C types fn name t ≡ (ok (s, false), t)
  unfolding attempt attempt_with
  attempt_again eq law t {s = x} b apart distinct
        (o, (found, (e, (u, (old, (read, (computed, rest))))))) =
      rw found (
        written_again eq t o e
          (new_status_again title L law types ds old.status apart distinct computed))

  -- An update of conditions of distinct types, none of them an old one, that reports no error and is run
  -- again returns the same status, and neither writes nor changes anything.
  pub update_status_again :
      (is_conflict : Error → Bool) (Others : C.State → C.State → Type 0)
      (T : Retry C.State (Status K R × Bool)) (server : IsLawful C) (eq : IsEqual same)
      (law : IsConditions title L) (t : C.State) {s : Status K R} {b : Bool}
      → Retries is_conflict Others T
      → Apart title L law types ds
      → Distinct title L law ds
      → (update_status L same C T types fn name t).0 ≡ ok (s, b)
      → update_status L same C T types fn name (update_status L same C T types fn name t).1
        ≡ (ok (s, false), (update_status L same C T types fn name t).1)
  unfolding update_status
  update_status_again is_conflict Others T server eq law t {s = x} {b = y} retries apart distinct
        h =
      let u = (update_status L same C T types fn name t).1 in
      let stored =
        update_status-Stored L same C types fn name is_conflict Others T server eq t retries h in
      let one = attempt_again eq law u y apart distinct stored in
      let (r, v) =
        Attempts-first (retries (attempt L same C types fn name) u) (ap (λ r. r.0) one) in
      paired (T.retry_on_conflict (attempt L same C types fn name) u) r (v ∙ ap (λ r. r.1) one)
