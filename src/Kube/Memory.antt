-- ===== src/Kube/Memory.antt =====
-- A cluster in memory, which meets the assumptions on a client. It instantiates them in tests.
use registration_operator.Common.{
  String, ◌≡◌, refl, Option, none, some, List, [], ◌∷◌, Error, not_found, failure, Result, ok, err,
  arith, ◌==◌, string_eq, if◌then◌else◌,
}
use registration_operator.Kube.{Client, IsLawful}

module _ {T : Type 0} (name : T → String) where
  unfoldable pub find : List T → String → Result T
  find [] k = err (not_found k)
  find (o ∷ os) k = if k == name o then ok o else find os k

  unfoldable pub replace : List T → T → List T
  replace [] p = []
  replace (o ∷ os) p = if name p == name o then p ∷ os else o ∷ replace os p

  unfoldable pub remove : List T → String → List T
  remove [] k = []
  remove (o ∷ os) k = let rest = remove os k in if k == name o then rest else o ∷ rest

  -- A write needs the object to be there, or not to be there.
  unfoldable pub create : List T → T → Result T → Result T × List T
  create s o (ok _) = (err (failure "already exists"), s)
  create s o (err _) = (ok o, o ∷ s)

  unfoldable pub update : List T → T → Result T → Result T × List T
  update s o (ok _) = (ok o, replace s o)
  update s o (err e) = (err e, s)

  unfoldable pub delete : List T → String → Result T → Option Error × List T
  delete s k (ok _) = (none, remove s k)
  delete s k (err e) = (some e, s)

  abbrev pub memory : Client T
  memory = record {
    State = List T;
    get = find;
    create = λ s o. create s o (find s (name o));
    update = λ s o. update s o (find s (name o));
    delete = λ s k. delete s k (find s k);
  }

  find-name : (s : List T) (k : String) {o : T} → find s k ≡ ok o → name o ≡ k
  unfolding find
  find-name [] k h = cc
  find-name (q ∷ s) k {o = x} h = ground (arith, find-name s k {o = x})

  find-replace :
      (s : List T) (o : T) {p : T} (j : String)
      → find s (name o) ≡ ok p
      → find (replace s o) j ≡ (if j == name o then ok o else find s j)
  unfolding find replace
  find-replace [] o j h = cc
  find-replace (q ∷ s) o {p = x} j h = ground (arith, find-replace s o {p = x} j)

  find-remove :
      (s : List T) (k j : String)
      → find (remove s k) j ≡ (if j == k then err (not_found k) else find s j)
  unfolding find remove
  find-remove [] k j = ground arith
  find-remove (q ∷ s) k j = ground (arith, find-remove s k j)

  find-missing :
      (s : List T) (k : String) {e : Error} → find s k ≡ err e → find s k ≡ err (not_found k)
  unfolding find
  find-missing [] k h = refl
  find-missing (o ∷ s) k {e = x} h = ground (arith, find-missing s k {e = x})

  create_err :
      (s : List T) (o : T) (r : Result T) {e : Error}
      → (create s o r).0 ≡ err e
      → (create s o r).1 ≡ s
  unfolding create
  create_err s o (ok _) h = refl
  create_err s o (err _) h = cc

  create_ok :
      (s : List T) (o : T) (r : Result T) {p : T}
      → (create s o r).0 ≡ ok p
      → (p ≡ o) × ((create s o r).1 ≡ o ∷ s)
  unfolding create
  create_ok s o (ok _) h = cc
  create_ok s o (err _) h = (cc, refl)

  update_err :
      (s : List T) (o : T) (r : Result T) {e : Error}
      → (update s o r).0 ≡ err e
      → (update s o r).1 ≡ s
  unfolding update
  update_err s o (ok _) h = cc
  update_err s o (err _) h = refl

  update_ok :
      (s : List T) (o : T) (r : Result T) {p : T}
      → (update s o r).0 ≡ ok p
      → (p ≡ o) × ((update s o r).1 ≡ replace s o) × (q : T) × (r ≡ ok q)
  unfolding update
  update_ok s o (ok q) h = (cc, refl, q, refl)
  update_ok s o (err _) h = cc

  delete_err :
      (s : List T) (k : String) (r : Result T) {e : Error}
      → (delete s k r).0 ≡ some e
      → ((delete s k r).1 ≡ s) × (r ≡ err e)
  unfolding delete
  delete_err s k (ok _) h = cc
  delete_err s k (err _) h = (refl, cc)

  delete_ok :
      (s : List T) (k : String) (r : Result T)
      → (delete s k r).0 ≡ none
      → (delete s k r).1 ≡ remove s k
  unfolding delete
  delete_ok s k (ok _) h = refl
  delete_ok s k (err _) h = cc

  -- The cluster in memory is a lawful client.
  pub memory-IsLawful :
      (Keeps : T → T → Type 0) → ((o : T) → Keeps o o) → IsLawful name Keeps memory
  unfolding find
  memory-IsLawful Keeps keep = record {
    get-name = find-name;
    create_err = λ s o h. create_err s o (find s (name o)) h;
    create-keeps = λ s o h. rw (create_ok s o (find s (name o)) h).0 (keep o);
    get-create = λ s o j h. let (e, t) = create_ok s o (find s (name o)) h in rw (t, e) refl;
    update_err = λ s o h. update_err s o (find s (name o)) h;
    update-keeps = λ s o h. rw (update_ok s o (find s (name o)) h).0 (keep o);
    get-update = λ s o j h.
        let (e, t, q, f) = update_ok s o (find s (name o)) h in rw (t, e) (find-replace s o j f);
    delete_err = λ s k h. (delete_err s k (find s k) h).0;
    get-delete =
        λ s k j h away. rw (delete_ok s k (find s k) h) (ground (arith, find-remove s k j));
    delete_absent = λ s k h f. find-missing s k (delete_err s k (find s k) h).1;
  }
