-- ===== src/Helpers/StatusUpdates/Tests.antt =====
-- Runs of status updates on one object, of which some writes meet a conflict. The rest of a status is
-- a number, and a condition a type and a message.
use registration_operator.Common.{
  String, ℕ, zero, suc, ◌≤◌, ◌<◌, ◌≡◌, refl, Bool, true, false, ◌&&◌, List, [], ◌∷◌, Error, failure,
  not_found, Result, ok, err, arith, ap, sym, ◌∙◌, none, some, ◌==◌, string_eq, if◌then◌else◌, leb,
}
use registration_operator.Helpers.StatusUpdates.{
  Status, Object, Client, Conditions, UpdateFunc, attempt, attempt_with, write, sent, new_status,
  set_all, remove_all, run_updates, update_condition_fn, remove_condition_fn, klusterlet_old_types,
}
use registration_operator.Helpers.StatusUpdates.Retry.{
  Attempts, answered, given_up, again, Retry, update_status,
}
use registration_operator.Helpers.StatusUpdates.Stored.{
  IsLawful, IsEqual, Stored, update_status-Stored,
}
use registration_operator.Helpers.StatusUpdates.Enough.{IsContended, conflicted, update_status_ends}
use registration_operator.Helpers.StatusUpdates.Settled.{IsConditions, update_status_again}
use registration_operator.Common.Dict
use registration_operator.Common.Dict.{Dict, lookup-insert, lookup-erase}

abbrev is_conflict : Error → Bool
is_conflict (failure m) = m == "conflict"
is_conflict _ = false

-- The loop of the library, without the waits.
after_attempt : {S A : Type 0} → (S → Result A × S) → Result A × S → Result A × S
after_attempt again_ (ok a, s) = (ok a, s)
after_attempt again_ (err e, s) = if is_conflict e then again_ s else (err e, s)

loop : {S A : Type 0} → ℕ → (S → Result A × S) → S → Result A × S
unfolding after_attempt
loop zero f s = f s
loop (suc n) f s = after_attempt (loop n f) (f s)

abbrev retry : {S A : Type 0} → Retry S A
retry = record { retry_on_conflict = loop 3 }

abbrev NoOthers : {S : Type 0} → S → S → Type 0
NoOthers s t = s ≡ t

last_attempt :
    {S A : Type 0} (n : ℕ) (f : S → Result A × S) (s : S) (p : Result A × S)
    → f s ≡ p
    → ((e : Error) → p.0 ≡ err e → is_conflict e ≡ false)
    → Attempts is_conflict NoOthers f (suc n) s p.0 p.1
last_attempt {S = S} {A = A} n f s p fn calm = rw (← fn) last
  where
    last : Attempts is_conflict NoOthers f (suc n) s (f s).0 (f s).1
    last = answered n s (λ e h. calm e (sym (ap (λ r. r.0) fn) ∙ h))

loop-Attempts :
    {S A : Type 0} (n : ℕ) (f : S → Result A × S) (s : S)
    → Attempts is_conflict NoOthers f (suc n) s (loop n f s).0 (loop n f s).1
unfolding loop after_attempt
loop-Attempts zero f s = given_up s
loop-Attempts {S = S} {A = A} (suc n) f s = go (loop-Attempts n f) (f s) refl
  where
    split :
        ((s : S) → Attempts is_conflict NoOthers f (suc n) s (loop n f s).0 (loop n f s).1)
        → (e : Error) (s' : S) (b : Bool) → f s ≡ (err e, s')
        → is_conflict e ≡ b
        → Attempts is_conflict NoOthers f
            (suc (suc n))
            s
            (if b then loop n f s' else (err e, s')).0
            (if b then loop n f s' else (err e, s')).1
    split rest e s' true fn c = again (ap (λ r. r.0) fn) c (ap (λ r. r.1) fn) (rest s')
    split rest e s' false fn c = last_attempt (suc n) f s (err e, s') fn (λ d h. cc)

    go :
        ((s : S) → Attempts is_conflict NoOthers f (suc n) s (loop n f s).0 (loop n f s).1)
        → (r : Result A × S) → f s ≡ r
        → Attempts is_conflict NoOthers f
            (suc (suc n))
            s
            (after_attempt (loop n f) r).0
            (after_attempt (loop n f) r).1
    go rest (ok a, s') fn = last_attempt (suc n) f s (ok a, s') fn (λ d h. cc)
    go rest (err e, s') fn = split rest e s' (is_conflict e) fn refl

abbrev dictionary : Conditions (String × String)
dictionary = record {
  set_status_condition = λ c cs. Dict.insert c.0 c.1 cs;
  remove_status_condition = Dict.erase;
}

insert_present : (k v : String) (d : Dict String) → Dict.lookup k d ≡ some v → Dict.insert k v d ≡ d
unfolding Dict.insert Dict.lookup
insert_present k v [] h = cc
insert_present k v ((j, w) ∷ d) h = ground (arith, insert_present k v d)

erase_absent : (k : String) (d : Dict String) → Dict.lookup k d ≡ none → Dict.erase k d ≡ d
unfolding Dict.erase Dict.lookup
erase_absent k [] h = refl
erase_absent k ((j, w) ∷ d) h = ground (arith, erase_absent k d)

dictionary-IsConditions : IsConditions (λ c. c.0) dictionary
dictionary-IsConditions = record {
  Has = λ c cs. Dict.lookup c.0 cs ≡ some c.1;
  Lacks = λ t cs. Dict.lookup t cs ≡ none;
  set-Has = λ c cs. ground (arith, lookup-insert c.0 c.0 c.1 cs);
  set-Has_other = λ c d cs apart has. ground (arith, lookup-insert c.0 d.0 d.1 cs);
  set_present = λ c cs has. insert_present c.0 c.1 cs has;
  remove-Lacks = λ t cs. ground (arith, lookup-erase t t cs);
  remove-Lacks_other = λ t u cs lacks. ground (arith, lookup-erase t u cs);
  set-Lacks = λ t c cs apart lacks. ground (arith, lookup-insert t c.0 c.1 cs);
  remove_absent = λ t cs lacks. erase_absent t cs lacks;
}

abbrev K : Type 0
K = String × String

same_conditions : List K → List K → Bool
same_conditions [] [] = true
same_conditions [] (_ ∷ _) = false
same_conditions (_ ∷ _) [] = false
same_conditions ((a, b) ∷ cs) ((c, d) ∷ ds) = a == c && (b == d && same_conditions cs ds)

same_conditions_refl : (cs : List K) → same_conditions cs cs ≡ true
unfolding same_conditions
same_conditions_refl [] = refl
same_conditions_refl ((a, b) ∷ cs) = ground (arith, same_conditions_refl cs)

same_conditions_eq : (cs ds : List K) → same_conditions cs ds ≡ true → cs ≡ ds
unfolding same_conditions
same_conditions_eq [] [] h = refl
same_conditions_eq [] (_ ∷ _) h = cc
same_conditions_eq (_ ∷ _) [] h = cc
same_conditions_eq ((a, b) ∷ cs) ((c, d) ∷ ds) h = ground (arith, same_conditions_eq cs ds)

abbrev same : Status K Unit → Status K Unit → Bool
same s u = same_conditions s.conditions u.conditions

same-IsEqual : IsEqual same
same-IsEqual = record {
  same-refl = λ s. same_conditions_refl s.conditions;
  same-eq = λ s u h.
      ap (λ cs. record { conditions = cs; rest = tt })
        (same_conditions_eq s.conditions u.conditions h);
}

-- One object, and the number of writes of others that will come before one of the object as it was read.
abbrev World : Type 0
World = ℕ × Object K Unit

get : World → String → Result (Object K Unit)
get (n, o) k = if k == o.name then ok o else err (not_found k)

-- The write of a stale object changes nothing, and another's write makes this one stale.
put_fresh : World → Object K Unit → Result (Object K Unit) × World
put_fresh (zero, o) p =
    let stored = record p { version = suc o.version } in (ok stored, (zero, stored))
put_fresh (suc n, o) p = (err (failure "conflict"), (n, record o { version = suc o.version }))

put : World → Object K Unit → Result (Object K Unit) × World
unfolding put_fresh
put (n, o) p =
    if leb o.version p.version && leb p.version o.version
    then put_fresh (n, o) p
    else (err (failure "conflict"), (n, o))

abbrev server : Client K Unit
server = record { State = World; get = get; update_status = put }

-- What a write of an object that is fresh or not answers and leaves.
put_if : Bool → World → Object K Unit → Result (Object K Unit) × World
put_if fresh t o = if fresh then put_fresh t o else (err (failure "conflict"), t)

put_if_stored :
    (fresh : Bool) (t : World) (o : Object K Unit) {p : Object K Unit}
    → (put_if fresh t o).0 ≡ ok p
    → (get (put_if fresh t o).1 o.name ≡ ok p) × (p.status ≡ o.status)
unfolding put_if put_fresh get
put_if_stored false t o h = cc
put_if_stored true (zero, q) o h = (ground arith, cc)
put_if_stored true (suc n, q) o h = cc

server-IsLawful : IsLawful server
unfolding get put put_if
server-IsLawful = record {
  get-name = λ t k h. ground arith;
  update_status-stored =
      λ t o h. put_if_stored (leb t.1.version o.version && leb o.version t.1.version) t o h;
}

abbrev conds : List K
conds = ("Available", "ready") ∷ ("Applied", "done") ∷ []

abbrev updates : List (UpdateFunc K Unit)
updates = update_condition_fn dictionary conds ∷ []

abbrev world : World
world = (
  2,
  record {
    name = "agent";
    version = 7;
    status = record {
      conditions = ("ValidRegistrationFeatureGates", "old") ∷ ("Available", "not") ∷ [];
      rest = tt;
    };
  },
)

abbrev after : Status K Unit
after = record { conditions = conds; rest = tt }

update_runs :
    (update_status dictionary same server retry klusterlet_old_types updates "agent" world).0
    ≡ ok (after, true)
unfolding update_status loop after_attempt attempt attempt_with write sent new_status set_all
    remove_all run_updates update_condition_fn remove_condition_fn same_conditions get put put_fresh
    string_eq Dict.insert Dict.erase
update_runs = refl

update_status-Stored_example :
    Stored dictionary same server klusterlet_old_types updates "agent"
      (update_status dictionary same server retry klusterlet_old_types updates "agent" world).1
      after
      true
update_status-Stored_example =
    update_status-Stored dictionary same server klusterlet_old_types updates "agent" is_conflict
      NoOthers retry server-IsLawful same-IsEqual world (λ f s. loop-Attempts 3 f s) update_runs

update_status_again_example :
    update_status dictionary same server retry klusterlet_old_types updates "agent"
      (update_status dictionary same server retry klusterlet_old_types updates "agent" world).1
    ≡ (
      ok (after, false),
      (update_status dictionary same server retry klusterlet_old_types updates "agent" world).1,
    )
update_status_again_example =
    update_status_again (λ c. c.0) dictionary same server klusterlet_old_types conds "agent"
      is_conflict NoOthers retry server-IsLawful same-IsEqual dictionary-IsConditions world
      (λ f s. loop-Attempts 3 f s)
      (((λ e. cc), ((λ e. cc), tt)), (((λ e. cc), ((λ e. cc), tt)), tt)) (((λ e. cc), tt), (tt, tt))
      update_runs

-- The object is gone.
fails_run :
    (update_status dictionary same server retry klusterlet_old_types updates "other" world).0
    ≡ err (not_found "other")
unfolding update_status loop after_attempt attempt attempt_with get string_eq
fails_run = refl

put_if-fewer :
    (t : World) (o : Object K Unit) (e : Error)
    → (put_if true t o).0 ≡ err e
    → (put_if true t o).1.0 < t.0
unfolding put_if put_fresh
put_if-fewer (zero, q) o e h = cc
put_if-fewer (suc n, q) o e h = omega arith

-- What was just read is fresh.
get_fresh :
    (t : World) (k : String) (o : Object K Unit)
    → get t k ≡ ok o
    → (leb t.1.version o.version && leb o.version t.1.version) ≡ true
unfolding get
get_fresh t k o found =
    let same : t.1 ≡ o = ground arith in
    let version : t.1.version ≡ o.version = ap (λ (p : Object K Unit). p.version) same in
    ground arith

server-IsContended :
    IsContended dictionary same server is_conflict (λ t. t.0) klusterlet_old_types updates
unfolding get put put_if new_status run_updates update_condition_fn remove_condition_fn
server-IsContended = record {
  get-calm = λ t k e h. ground arith;
  new_status-calm = λ s e h. cc;
  update_status-fewer = λ t k o s e found h conflict.
      rw (get_fresh t k o found)
        (put_if-fewer t (record o { status = s }) e (rw (get_fresh t k o found) at h));
}

at_most : (s t : World) → s.0 ≡ t.0 → t.0 ≤ s.0
at_most s t h = omega arith

-- Two of the attempts meet a conflict.
update_status_ends_example :
    conflicted is_conflict
      (update_status dictionary same server retry klusterlet_old_types updates "agent" world).0
    ≡ false
update_status_ends_example =
    update_status_ends dictionary same server is_conflict (λ t. t.0) klusterlet_old_types updates
      "agent" server-IsContended NoOthers retry world (λ f s. loop-Attempts 3 f s)
      (λ s t same. at_most s t (ap (λ w. w.0) same)) (omega arith)
