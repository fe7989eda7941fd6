-- ===== src/Helpers/StatusUpdates/Stored.antt =====
-- What an update leaves on the server.
use registration_operator.Common.{
  String, ℕ, ◌≡◌, refl, Bool, true, false, List, Error, Result, ok, err, if◌then◌else◌, ap, sym,
  ◌∙◌,
}
use registration_operator.Helpers.StatusUpdates.{
  Status, Object, Client, Conditions, UpdateFunc, attempt, attempt_with, write, sent, new_status,
}
use registration_operator.Helpers.StatusUpdates.Retry.{
  Attempts, answered, given_up, again, Retry, Retries, update_status,
}

module _ {S A : Type 0} {is_conflict : Error → Bool} {Others : S → S → Type 0}
    {f : S → Result A × S} where
  -- What holds of every attempt's answer holds of the retry's.
  pub Attempts_last :
      (Q : Result A → S → Type 0) {n : ℕ} {s v : S} {r : Result A}
      → ((s : S) → Q (f s).0 (f s).1)
      → Attempts is_conflict Others f n s r v
      → Q r v
  Attempts_last Q each (answered n s h) = each s
  Attempts_last Q each (given_up s) = each s
  Attempts_last Q each (again fails conflict others rest) = Attempts_last Q each rest

module _ {K R : Type 0} where
  -- What the code relies on of the server.
  pub record IsLawful (C : Client K R) : Type 0 where
    pub get-name : (t : C.State) (k : String) {o : Object K R} → C.get t k ≡ ok o → o.name ≡ k
    pub update_status-stored :
        (t : C.State) (o : Object K R) {p : Object K R}
        → (C.update_status t o).0 ≡ ok p
        → (C.get (C.update_status t o).1 o.name ≡ ok p) × (p.status ≡ o.status)

  -- `equality.Semantic.DeepEqual` tells apart what the model does.
  pub record IsEqual (same : Status K R → Status K R → Bool) : Type 0 where
    pub same-refl : (s : Status K R) → same s s ≡ true
    pub same-eq : (s u : Status K R) → same s u ≡ true → s ≡ u

module _ {K R : Type 0} (L : Conditions K) (same : Status K R → Status K R → Bool) (C : Client K R)
    (old_types : List String) (us : List (UpdateFunc K R)) (name : String) where
  -- What there is after the last attempt: with no write the state is as it was, else it is the one after the
  -- write of the status to the object as it was read.
  abbrev pub Written : C.State → C.State → Object K R → Status K R → Bool → Type 0
  Written u t old s false = t ≡ u
  Written u t old s true = t ≡ (C.update_status u (record old { status = s })).1

  -- In the state `u` of the last attempt the server gave an object, from whose status the update functions
  -- computed `s`.
  abbrev pub Computed : C.State → Status K R → Bool → Type 0
  Computed t s b =
      (u : C.State) × ((old : Object K R) × ((C.get u name ≡ ok old)
          × ((new_status L old_types us old.status ≡ ok s) × Written u t old s b)))

  -- The server's status is `s`, which was computed from the one it had.
  abbrev pub Stored : C.State → Status K R → Bool → Type 0
  Stored t s b = (o : Object K R) × ((C.get t name ≡ ok o) × ((o.status ≡ s) × Computed t s b))

  abbrev Answers : Result (Status K R × Bool) → C.State → Type 0
  Answers r t = (s : Status K R) (b : Bool) → r ≡ ok (s, b) → Stored t s b

  sent_stored :
      (law : IsLawful C) (t : C.State) (o : Object K R) (new : Status K R)
      → C.get t name ≡ ok o
      → new_status L old_types us o.status ≡ ok new
      → Answers
          (sent L same C (C.update_status t (record o { status = new }))).0
          (sent L same C (C.update_status t (record o { status = new }))).1
  unfolding sent
  sent_stored law t o new found computed = go (C.update_status t next) refl
    where
      next : Object K R
      next = record o { status = new }

      go :
          (r : Result (Object K R) × C.State)
          → C.update_status t next ≡ r
          → Answers (sent L same C r).0 (sent L same C r).1
      go (err e, t') fn s b h = cc
      go (ok p, t') fn s b h =
          let (got, kept) = law.update_status-stored t next (ap (λ r. r.0) fn) in
          let named = law.get-name t name found in
          let same_status : new ≡ s = cc in
          let written =
            ap (λ r. r.1) (sym fn)
            ∙ ap (λ v. (C.update_status t (record o { status = v })).1) same_status in
          let yes : true ≡ b = cc in
          (p, (rw (fn, named) at got, (cc, (t, (o, (found, (cc, rw (← yes) written)))))))

  write_stored :
      (law : IsLawful C) (eq : IsEqual same) (t : C.State) (o : Object K R)
      (r : Result (Status K R))
      → C.get t name ≡ ok o
      → new_status L old_types us o.status ≡ r
      → Answers (write L same C t o r).0 (write L same C t o r).1
  unfolding write
  write_stored law eq t o (err e) found computed = λ s b h. cc
  write_stored law eq t o (ok new) found computed = go (same o.status new) refl
    where
      next : Result (Status K R × Bool) × C.State
      next = sent L same C (C.update_status t (record o { status = new }))

      go :
          (b : Bool)
          → same o.status new ≡ b
          → Answers
              (if b then (ok (new, false), t) else next).0
              (if b then (ok (new, false), t) else next).1
      go true fn = λ s b h.
          let e = eq.same-eq o.status new fn in
          let no : false ≡ b = cc in (o, (found, (cc, (t, (o, (found, (cc, rw (← no) refl)))))))
      go false fn = sent_stored law t o new found computed

  attempt_stored :
      (law : IsLawful C) (eq : IsEqual same) (t : C.State) (r : Result (Object K R))
      → C.get t name ≡ r
      → Answers
          (attempt_with L same C old_types us t r).0
          (attempt_with L same C old_types us t r).1
  unfolding attempt_with
  attempt_stored law eq t (err e) fn = λ s b h. cc
  attempt_stored law eq t (ok o) fn =
      write_stored law eq t o (new_status L old_types us o.status) fn refl

  -- An update that reports no error leaves the server with the status that it returns, which the update
  -- functions computed from the status that the server gave; since then nothing has happened if it says
  -- that it wrote nothing, and else only the write of the object with that status.
  pub update_status-Stored :
      (is_conflict : Error → Bool) (Others : C.State → C.State → Type 0)
      (T : Retry C.State (Status K R × Bool)) (law : IsLawful C) (eq : IsEqual same) (t : C.State)
      {s : Status K R} {b : Bool}
      → Retries is_conflict Others T
      → (update_status L same C T old_types us name t).0 ≡ ok (s, b)
      → Stored (update_status L same C T old_types us name t).1 s b
  unfolding update_status attempt
  update_status-Stored is_conflict Others T law eq t {s = x} {b = y} retries =
      Attempts_last Answers (λ u. attempt_stored law eq u (C.get u name) refl)
        (retries (attempt L same C old_types us name) t) x y
