-- ===== src/Klusterlet/Teardown/Requests.antt =====
-- What the requests of a deletion leave: nothing comes to life, and what was named is not alive.
use registration_operator.Common.{
  String, ◌≡◌, refl, ◌∙◌, Bool, true, false, Option, none, some, List, [], ◌∷◌, Error, Result, ok,
  err, is_not_found, if◌then◌else◌, Aggregate, All, arith, ◌==◌, string_eq, contains, ◌&&◌, ◌⊎◌,
  inl, inr, ◌≢◌, not_found,
}
use registration_operator.Helpers.Related.{
  Kind, Object, validating_webhook, mutating_webhook, api_service, deployment, namespace, endpoints,
  service, pod, service_account, config_map, secret, cluster_role, cluster_role_binding, role,
  role_binding, crd_v1beta1, crd_v1, other,
}
use registration_operator.Helpers.Deletion.{
  unless_absent, delete_static, clean_up_static_object, with_client,
}
use registration_operator.Klusterlet
use registration_operator.Klusterlet.Teardown.{
  Cluster, Side, Work, ◌then_do◌, request_delete, delete_each, remove_static_resources, eraser,
  remove_finalizer, work_finalizer, update_answer, clean_work, clean_works, clean_listed,
  clean_up_applied_manifest_works,
}

-- What the servers do. An object is alive if it is there and not being deleted. No request brings an
-- object to life, a delete request that succeeds or does not find its object leaves it not alive,
-- and only an update of a klusterlet changes klusterlets: it stores the finalizers, and one that takes
-- the last finalizer off a klusterlet that is being deleted removes it.
pub record IsLawful (C : Cluster) : Type 0 where
  pub alive : C.State → Side → Kind → String → String → Bool
  pub delete_keeps :
      (t : C.State) (side : Side) (k : Kind) (ns n : String) (s : Side) (j : Kind) (ms m : String)
      → alive (C.delete t side k ns n).1 s j ms m ≡ true
      → alive t s j ms m ≡ true
  pub delete_none :
      (t : C.State) (side : Side) (k : Kind) (ns n : String)
      → (C.delete t side k ns n).0 ≡ none
      → alive (C.delete t side k ns n).1 side k ns n ≡ false
  pub delete_absent :
      (t : C.State) (side : Side) (k : Kind) (ns n : String) {e : Error}
      → (C.delete t side k ns n).0 ≡ some e
      → is_not_found e ≡ true
      → alive (C.delete t side k ns n).1 side k ns n ≡ false
  pub get-delete :
      (t : C.State) (side : Side) (k : Kind) (ns n name : String)
      → C.get_klusterlet (C.delete t side k ns n).1 name ≡ C.get_klusterlet t name
  pub update_work_keeps :
      (t : C.State) (w : Work) (s : Side) (j : Kind) (ms m : String)
      → alive (C.update_work t w).1 s j ms m ≡ true
      → alive t s j ms m ≡ true
  pub get-update_work :
      (t : C.State) (w : Work) (name : String)
      → C.get_klusterlet (C.update_work t w).1 name ≡ C.get_klusterlet t name
  pub update_keeps :
      (t : C.State) (k : Klusterlet.Object) (s : Side) (j : Kind) (ms m : String)
      → alive (C.update_klusterlet t k).1 s j ms m ≡ true
      → alive t s j ms m ≡ true
  pub get-update_err :
      (t : C.State) (k : Klusterlet.Object) (name : String) {e : Error}
      → (C.update_klusterlet t k).0 ≡ err e
      → C.get_klusterlet (C.update_klusterlet t k).1 name ≡ C.get_klusterlet t name
  pub get-name :
      (t : C.State) (name : String) {o : Klusterlet.Object}
      → C.get_klusterlet t name ≡ ok o
      → o.name ≡ name
  -- What is being deleted is there as long as it has a finalizer.
  pub get-finalizers :
      (t : C.State) (name : String) {o : Klusterlet.Object}
      → C.get_klusterlet t name ≡ ok o
      → o.deleting ≡ true
      → o.finalizers ≢ []
  pub get-update :
      (t : C.State) (k : Klusterlet.Object) {k' : Klusterlet.Object}
      → (C.update_klusterlet t k).0 ≡ ok k'
      → ((o : Klusterlet.Object) × ((C.get_klusterlet (C.update_klusterlet t k).1 k.name ≡ ok o)
            × (o.finalizers ≡ k.finalizers)))
        ⊎ (((k.deleting ≡ true) × (k.finalizers ≡ []))
            × (C.get_klusterlet (C.update_klusterlet t k).1 k.name ≡ err (not_found k.name)))

module _ (C : Cluster) (law : IsLawful C) where
  -- What the requests of the reconcilers do to the servers: nothing comes to life, and the
  -- klusterlets stay as they are.
  pub record Follows (t t' : C.State) : Type 0 where
    pub keeps :
        (s : Side) (j : Kind) (ms m : String)
        → law.alive t' s j ms m ≡ true
        → law.alive t s j ms m ≡ true
    pub same : (name : String) → C.get_klusterlet t' name ≡ C.get_klusterlet t name

  pub stays : (t : C.State) → Follows t t
  stays t = record { keeps = λ s j ms m h. h; same = λ name. refl }

  pub Follows-trans : {t u v : C.State} → Follows t u → Follows u v → Follows t v
  Follows-trans f g = record {
    keeps = λ s j ms m h. f.keeps s j ms m (g.keeps s j ms m h);
    same = λ name. g.same name ∙ f.same name;
  }

  delete-Follows :
      (t : C.State) (side : Side) (k : Kind) (ns n : String) → Follows t (C.delete t side k ns n).1
  delete-Follows t side k ns n = record {
    keeps = law.delete_keeps t side k ns n;
    same = law.get-delete t side k ns n;
  }

  update_work-Follows : (t : C.State) (w : Work) → Follows t (C.update_work t w).1
  update_work-Follows t w = record {
    keeps = law.update_work_keeps t w;
    same = law.get-update_work t w;
  }

  -- Once not alive, not alive any more.
  pub dead_stays :
      {t t' : C.State}
      → ((s : Side) (j : Kind) (ms m : String)
          → law.alive t' s j ms m ≡ true
          → law.alive t s j ms m ≡ true)
      → (s : Side) (j : Kind) (ms m : String) → law.alive t s j ms m ≡ false
      → law.alive t' s j ms m ≡ false
  dead_stays {t} {t'} keeps s j ms m h = go (law.alive t' s j ms m) refl
    where
      go : (b : Bool) → law.alive t' s j ms m ≡ b → law.alive t' s j ms m ≡ false
      go false e = e
      go true e = let p = keeps s j ms m e in cc

  pub if-Follows :
      (t : C.State) (b : Bool) (x y : Option Error × C.State)
      → Follows t x.1
      → Follows t y.1
      → Follows t (if b then x else y).1
  if-Follows t true x y f g = f
  if-Follows t false x y f g = g

  unless_absent-1 : (x : Option Error × C.State) → (unless_absent x).1 ≡ x.1
  unless_absent-1 (none, t) = refl
  unless_absent-1 (some e, t) = ground arith

  -- A step's relation to its start, by the relation of each of the two it is made of.
  pub then_do-Follows :
      (t : C.State) (x : Option Error × C.State) (next : C.State → Option Error × C.State)
      → Follows t x.1
      → ((u : C.State) → Follows u (next u).1)
      → Follows t (x then_do next).1
  then_do-Follows t (some e, u) next f g = f
  then_do-Follows t (none, u) next f g = Follows-trans f (g u)

  pub request_delete-Follows :
      (side : Side) (k : Kind) (ns n : String) (t : C.State)
      → Follows t (request_delete C side k ns n t).1
  unfolding request_delete
  request_delete-Follows side k ns n t =
      rw (unless_absent-1 (C.delete t side k ns n)) (delete-Follows t side k ns n)

  pub delete_each-Follows :
      (side : Side) (k : Kind) (ns : String) (names : List String) (t : C.State)
      → Follows t (delete_each C side k ns names t).1
  unfolding delete_each
  delete_each-Follows side k ns [] t = stays t
  delete_each-Follows side k ns (n ∷ names) t =
      then_do-Follows t (request_delete C side k ns n t) (delete_each C side k ns names)
        (request_delete-Follows side k ns n t) (delete_each-Follows side k ns names)

  unless_absent-none :
      (x : Option Error × C.State)
      → (unless_absent x).0 ≡ none
      → (x.0 ≡ none) ⊎ ((e : Error) × ((x.0 ≡ some e) × (is_not_found e ≡ true)))
  unless_absent-none (none, t) h = inl refl
  unless_absent-none (some e, t) h = inr (e, (refl, ground arith))

  pub request_delete_dead :
      (side : Side) (k : Kind) (ns n : String) (t : C.State)
      → (request_delete C side k ns n t).0 ≡ none
      → law.alive (request_delete C side k ns n t).1 side k ns n ≡ false
  unfolding request_delete
  request_delete_dead side k ns n t h =
      rw (unless_absent-1 (C.delete t side k ns n))
        (elim (unless_absent-none (C.delete t side k ns n) h) [
          | inl p ↦ law.delete_none t side k ns n p
          | inr (e, (p, q)) ↦ law.delete_absent t side k ns n p q
        ])

  pub delete_each_dead :
      (side : Side) (k : Kind) (ns : String) (names : List String) (t : C.State)
      → (delete_each C side k ns names t).0 ≡ none
      → All (λ n. law.alive (delete_each C side k ns names t).1 side k ns n ≡ false) names
  unfolding delete_each
  delete_each_dead side k ns [] t h = tt
  delete_each_dead side k ns (n ∷ names) t h =
      go (request_delete C side k ns n t) (request_delete_dead side k ns n t) h
        (delete_each_dead side k ns names)
    where
      go :
          (x : Option Error × C.State)
          → (x.0 ≡ none → law.alive x.1 side k ns n ≡ false)
          → (x then_do delete_each C side k ns names).0 ≡ none
          → ((u : C.State)
              → (delete_each C side k ns names u).0 ≡ none
              → All (λ m. law.alive (delete_each C side k ns names u).1 side k ns m ≡ false) names)
          → (law.alive (x then_do delete_each C side k ns names).1 side k ns n ≡ false)
            × All
                (λ m. law.alive (x then_do delete_each C side k ns names).1 side k ns m ≡ false)
                names
      go (some e, u) dead h rest = cc
      go (none, u) dead h rest = (
        dead_stays ((delete_each-Follows side k ns names u).keeps) side k ns n (dead refl),
        rest u h,
      )

  with_client-Follows :
      (side : Side) (given : Bool) (t : C.State) (k : Kind) (n : String)
      → Follows t (with_client (eraser C side) given t k n).1
  unfolding with_client eraser
  with_client-Follows side true t k n = delete-Follows t side k "" n
  with_client-Follows side false t k n = stays t

  delete_static-Follows :
      (side : Side) (ext reg : Bool) (t : C.State) (k : Kind) (ns n : String)
      → Follows t (delete_static (eraser C side) ext reg t k ns n).1
  unfolding delete_static with_client eraser
  delete_static-Follows side ext reg t deployment ns n = delete-Follows t side deployment ns n
  delete_static-Follows side ext reg t endpoints ns n = delete-Follows t side endpoints ns n
  delete_static-Follows side ext reg t service ns n = delete-Follows t side service ns n
  delete_static-Follows side ext reg t service_account ns n =
      delete-Follows t side service_account ns n
  delete_static-Follows side ext reg t config_map ns n = delete-Follows t side config_map ns n
  delete_static-Follows side ext reg t secret ns n = delete-Follows t side secret ns n
  delete_static-Follows side ext reg t role ns n = delete-Follows t side role ns n
  delete_static-Follows side ext reg t role_binding ns n = delete-Follows t side role_binding ns n
  delete_static-Follows side ext reg t namespace ns n = delete-Follows t side namespace "" n
  delete_static-Follows side ext reg t cluster_role ns n = delete-Follows t side cluster_role "" n
  delete_static-Follows side ext reg t cluster_role_binding ns n =
      delete-Follows t side cluster_role_binding "" n
  delete_static-Follows side ext reg t validating_webhook ns n =
      delete-Follows t side validating_webhook "" n
  delete_static-Follows side ext reg t mutating_webhook ns n =
      delete-Follows t side mutating_webhook "" n
  delete_static-Follows side ext reg t crd_v1 ns n = with_client-Follows side ext t crd_v1 n
  delete_static-Follows side ext reg t crd_v1beta1 ns n =
      with_client-Follows side ext t crd_v1beta1 n
  delete_static-Follows side ext reg t api_service ns n =
      with_client-Follows side reg t api_service n
  delete_static-Follows side ext reg t pod ns n = stays t
  delete_static-Follows side ext reg t other ns n = stays t

  clean_static-Follows :
      (side : Side) (ext : Bool) (o : Result Object) (t : C.State)
      → Follows t (clean_up_static_object (eraser C side) ext false o t).1
  unfolding clean_up_static_object
  clean_static-Follows side ext (err e) t = stays t
  clean_static-Follows side ext (ok o) t =
      rw (unless_absent-1 (delete_static (eraser C side) ext false t o.kind o.namespace o.name))
        (delete_static-Follows side ext false t o.kind o.namespace o.name)

  pub static-Follows :
      (side : Side) (ext : Bool) (os : List (Result Object)) (t : C.State)
      → Follows t (remove_static_resources C side ext os t).1
  unfolding remove_static_resources
  static-Follows side ext [] t = stays t
  static-Follows side ext (o ∷ os) t =
      then_do-Follows t (clean_up_static_object (eraser C side) ext false o t)
        (remove_static_resources C side ext os) (clean_static-Follows side ext o t)
        (static-Follows side ext os)

  update_answer-1 : (w : Work) (x : Result Work × C.State) → (update_answer C w x).1 ≡ x.1
  unfolding update_answer
  update_answer-1 w (ok _, t) = refl
  update_answer-1 w (err e, t) = ground arith

  clean_work-Follows : (uid : String) (w : Work) (t : C.State) → Follows t (clean_work C uid w t).1
  unfolding clean_work
  clean_work-Follows uid w t =
      let sent = record w { finalizers = remove_finalizer work_finalizer w.finalizers } in
      if-Follows t (uid == w.agent_id && contains w.finalizers work_finalizer)
        (update_answer C w (C.update_work t sent)) (none, t)
        (rw (update_answer-1 w (C.update_work t sent)) (update_work-Follows t sent)) (stays t)

  clean_works-Follows :
      (uid : String) (ws : List Work) (t : C.State) → Follows t (clean_works C uid ws t).1
  unfolding clean_works
  clean_works-Follows uid [] t = stays t
  clean_works-Follows uid (w ∷ ws) t =
      Follows-trans (clean_work-Follows uid w t)
        (clean_works-Follows uid ws (clean_work C uid w t).1)

  pub works-Follows :
      (A : Aggregate) (uid : String) (t : C.State)
      → Follows t (clean_up_applied_manifest_works C A uid t).1
  unfolding clean_up_applied_manifest_works clean_listed
  works-Follows A uid t = go (C.list_works t)
    where
      go : (r : Result (List Work)) → Follows t (clean_listed C A uid r t).1
      go (err e) = if-Follows t (is_not_found e) (none, t) (some _, t) (stays t) (stays t)
      go (ok ws) = clean_works-Follows uid ws t
