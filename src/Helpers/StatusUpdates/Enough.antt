-- ===== src/Helpers/StatusUpdates/Enough.antt =====
-- How many attempts are enough.
use registration_operator.Common.{
  String, ℕ, ◌≤◌, ◌<◌, ◌≡◌, refl, Bool, true, false, List, Error, Result, ok, err, arith, ap,
  if◌then◌else◌,
}
use registration_operator.Helpers.StatusUpdates.{
  Status, Object, Client, Conditions, UpdateFunc, attempt, attempt_with, write, sent, new_status,
}
use registration_operator.Helpers.StatusUpdates.Retry.{
  Attempts, answered, given_up, again, Retry, Retries, default_steps, update_status,
}

module _ {S A : Type 0} {is_conflict : Error → Bool} {Others : S → S → Type 0}
    {f : S → Result A × S} where
  -- With fewer conflicts to come than attempts, the last attempt meets no conflict.
  pub Attempts-enough :
      (pending : S → ℕ) {n : ℕ} {s v : S} {r : Result A} {e : Error}
      → ((s : S) (e : Error) → (f s).0 ≡ err e → is_conflict e ≡ true → pending (f s).1 < pending s)
      → ((s t : S) → Others s t → pending t ≤ pending s)
      → Attempts is_conflict Others f n s r v
      → pending s < n
      → r ≡ err e
      → is_conflict e ≡ false
  Attempts-enough pending {e = x} fewer kept (answered n s h) few fails = h x fails
  Attempts-enough pending {e = x} fewer kept (given_up s) few fails =
      ground (arith, fewer s x fails)
  Attempts-enough pending {e = x} fewer kept (again {s = a} {u = b} {e = y} h conflict others rest)
        few fails =
      Attempts-enough pending {e = x} fewer kept rest
        (let p = fewer a y h conflict in let q = kept (f a).1 b others in omega arith) fails

-- Whether an answer is a conflict.
abbrev pub conflicted : {A : Type 0} → (Error → Bool) → Result A → Bool
conflicted is_conflict (ok a) = false
conflicted is_conflict (err e) = is_conflict e

conflicted-false :
    {A : Type 0} {is_conflict : Error → Bool} (r : Result A)
    → ((e : Error) → r ≡ err e → is_conflict e ≡ false)
    → conflicted is_conflict r ≡ false
conflicted-false (ok a) h = refl
conflicted-false (err e) h = h e refl

module _ {K R : Type 0} (L : Conditions K) (same : Status K R → Status K R → Bool) (C : Client K R)
    (is_conflict : Error → Bool) (pending : C.State → ℕ) where
  -- Only a write meets a conflict. If what is written is the object as it was just read, with a new
  -- status, a conflict is another's write in between, one of those to come.
  pub record IsContended (old_types : List String) (us : List (UpdateFunc K R)) : Type 0 where
    pub get-calm :
        (t : C.State) (k : String) (e : Error) → C.get t k ≡ err e → is_conflict e ≡ false
    pub new_status-calm :
        (s : Status K R) (e : Error) → new_status L old_types us s ≡ err e → is_conflict e ≡ false
    pub update_status-fewer :
        (t : C.State) (k : String) (o : Object K R) (s : Status K R) (e : Error)
        → C.get t k ≡ ok o
        → (C.update_status t (record o { status = s })).0 ≡ err e
        → is_conflict e ≡ true
        → pending (C.update_status t (record o { status = s })).1 < pending t

  module _ (old_types : List String) (us : List (UpdateFunc K R)) (name : String)
      (law : IsContended old_types us) where
    abbrev Fewer : C.State → Result (Status K R × Bool) × C.State → Type 0
    Fewer t r = (e : Error) → r.0 ≡ err e → is_conflict e ≡ true → pending r.1 < pending t

    sent-Fewer :
        (t : C.State) (o : Object K R) (s : Status K R) (r : Result (Object K R) × C.State)
        → C.get t name ≡ ok o
        → C.update_status t (record o { status = s }) ≡ r
        → Fewer t (sent L same C r)
    unfolding sent
    sent-Fewer t o s (err d, t') found fn = λ e h conflict.
        let first = ap (λ r. r.0) fn in
        rw fn at (law.update_status-fewer t name o s e found (cc) conflict)
    sent-Fewer t o s (ok p, t') found fn = λ e h conflict. cc

    chosen-Fewer :
        (t : C.State) (b : Bool) (s : Status K R) (r : Result (Status K R × Bool) × C.State)
        → Fewer t r
        → Fewer t (if b then (ok (s, false), t) else r)
    chosen-Fewer t true s r f = λ e h conflict. cc
    chosen-Fewer t false s r f = f

    write-Fewer :
        (t : C.State) (o : Object K R) (r : Result (Status K R))
        → C.get t name ≡ ok o
        → new_status L old_types us o.status ≡ r
        → Fewer t (write L same C t o r)
    unfolding write
    write-Fewer t o (err d) found fn =
        λ e h conflict. let calm = law.new_status-calm o.status d fn in cc
    write-Fewer t o (ok s) found fn =
        chosen-Fewer t (same o.status s) s
          (sent L same C (C.update_status t (record o { status = s })))
          (sent-Fewer t o s (C.update_status t (record o { status = s })) found refl)

    attempt-Fewer :
        (t : C.State) (r : Result (Object K R))
        → C.get t name ≡ r
        → Fewer t (attempt_with L same C old_types us t r)
    unfolding attempt_with
    attempt-Fewer t (err d) fn = λ e h conflict. let calm = law.get-calm t name d fn in cc
    attempt-Fewer t (ok o) fn = write-Fewer t o (new_status L old_types us o.status) fn refl

    -- If fewer than four conflicts are to come for writes of what was just read, and what others do
    -- between the attempts brings no new one, an update ends with an answer that is no conflict.
    pub update_status_ends :
        (Others : C.State → C.State → Type 0) (T : Retry C.State (Status K R × Bool)) (t : C.State)
        → Retries is_conflict Others T
        → ((s t : C.State) → Others s t → pending t ≤ pending s)
        → pending t < default_steps
        → conflicted is_conflict (update_status L same C T old_types us name t).0 ≡ false
    unfolding update_status attempt
    update_status_ends Others T t retries kept few =
        conflicted-false (T.retry_on_conflict (attempt L same C old_types us name) t).0 λ e fails.
          Attempts-enough pending (λ u. attempt-Fewer u (C.get u name) refl) kept
            (retries (attempt L same C old_types us name) t) few fails
