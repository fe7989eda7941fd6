-- ===== src/Klusterlet/Tests.antt =====
-- The deletion of a klusterlet on servers that forget every object of a deleted name.
use registration_operator.Common.{
  String, ◌*◌, ◌≡◌, ◌↔◌, refl, Bool, true, false, none, some, [], ◌∷◌, not_found, Result, ok, err,
  List, ◌&&◌, ◌≢◌, ◌⊎◌, inl, inr, not, Aggregate, if◌then◌else◌, ◌==◌, string_eq, arith,
}
use registration_operator.Common.Dict
use registration_operator.Common.Dict.{Dict}
use registration_operator.Helpers.Klusterlets.{default_mode}
use registration_operator.Helpers.Related.{Kind}
use registration_operator.Klusterlet.{
  Object, klusterlet_finalizer, has_finalizer, without_finalizers,
}
use registration_operator.Klusterlet.Connectivity.{
  Texts, has_text, check_connectivity, is_tcp_time_out_error, is_tcp_no_such_host_error,
}
use registration_operator.Klusterlet.Connectivity.Laws.{
  IsUnreachable, Expired, gives_up_iff, gives_up_in_time, gives_up_reachable,
}
use registration_operator.Klusterlet.Teardown.{Cluster, Manifests, Side}
use registration_operator.Klusterlet.Teardown.Requests.{IsLawful}
use registration_operator.Klusterlet.Cleanup.{
  Readings, CrdCleaner, config_of, World, sync, remove_klusterlet_finalizers,
}
use registration_operator.Klusterlet.Cleanup.Done.{Dead}
use registration_operator.Klusterlet.Cleanup.Finalizers.{sync-Dead}

-- One klusterlet, which is gone when it is being deleted and has no finalizer.
abbrev Servers : Type 0
Servers = (Side → Kind → String → String → Bool) × Object

abbrev is_gone : Bool → List String → Bool
is_gone deleting (f ∷ fs) = false
is_gone deleting [] = deleting

visible : String → Object → Result Object
visible n k =
    if n == k.name && not (is_gone k.deleting k.finalizers) then ok k else err (not_found n)

abbrev servers : Cluster
servers = record {
  State = Servers;
  delete = λ t side k ns n. (none, (λ s j ms m. if m == n then false else t.0 s j ms m, t.1));
  list_works = λ t. ok [];
  update_work = λ t w. (ok w, t);
  get_klusterlet = λ t n. visible n t.1;
  update_klusterlet = λ t k. (ok k, (t.0, k));
}

visible-name : (n : String) (k o : Object) → visible n k ≡ ok o → o.name ≡ n
unfolding visible
visible-name n k o h = ground arith

visible-finalizers :
    (n : String) (k o : Object) → visible n k ≡ ok o → o.deleting ≡ true → o.finalizers ≢ []
unfolding visible
visible-finalizers n k o h deleting e =
    let first : k ≡ o = ground arith in
    let gone : is_gone o.deleting o.finalizers ≡ true = rw (deleting, e) refl in ground arith

is_gone-true :
    (deleting : Bool) (fs : List String)
    → is_gone deleting fs ≡ true
    → (deleting ≡ true) × (fs ≡ [])
is_gone-true deleting [] h = (h, refl)
is_gone-true deleting (f ∷ fs) h = cc

visible-stored :
    (k : Object)
    → ((o : Object) × ((visible k.name k ≡ ok o) × (o.finalizers ≡ k.finalizers)))
      ⊎ (((k.deleting ≡ true) × (k.finalizers ≡ [])) × (visible k.name k ≡ err (not_found k.name)))
unfolding visible
visible-stored k = go (is_gone k.deleting k.finalizers) refl
  where
    go :
        (b : Bool)
        → is_gone k.deleting k.finalizers ≡ b
        → ((o : Object) × ((visible k.name k ≡ ok o) × (o.finalizers ≡ k.finalizers)))
          ⊎ (((k.deleting ≡ true) × (k.finalizers ≡ []))
              × (visible k.name k ≡ err (not_found k.name)))
    go true fn = inr (is_gone-true k.deleting k.finalizers fn, ground arith)
    go false fn = inl (k, (ground arith, refl))

servers-IsLawful : IsLawful servers
servers-IsLawful = record {
  alive = λ t. t.0;
  delete_keeps = λ t side k ns n s j ms m h. ground arith;
  delete_none = λ t side k ns n h. ground arith;
  delete_absent = λ t side k ns n p q. cc;
  get-delete = λ t side k ns n name. refl;
  update_work_keeps = λ t w s j ms m h. h;
  get-update_work = λ t w name. refl;
  update_keeps = λ t k s j ms m h. h;
  get-update_err = λ t k name h. cc;
  get-name = λ t name h. visible-name name t.1 _ h;
  get-finalizers = λ t name h deleting e. visible-finalizers name t.1 _ h deleting e;
  get-update = λ t k h. visible-stored k;
}

abbrev crd_cleaner_done : CrdCleaner
crd_cleaner_done = record { State = Unit; clean = λ d. (none, d) }

abbrev first_error : Aggregate
first_error = record {
  new_aggregate = λ es. elim es [ [] ↦ none | e ∷ _ ↦ some e ];
  new_aggregate-nil = refl;
  new_aggregate-cons = λ e es. (e, refl);
}

abbrev no_manifests : Manifests
no_manifests = record { managed_static = []; kube111_static = []; management_static = [] }

abbrev texts : Texts
texts = record { format = λ _. "then"; parse = λ _. ok 0 }

abbrev dying : Object
dying = record {
  name = "klusterlet";
  uid = "1";
  namespace = "";
  mode = default_mode;
  deleting = true;
  ready_to_apply = true;
  finalizers = klusterlet_finalizer ∷ [];
  annotations = [];
}

abbrev start : World servers crd_cleaner_done first_error no_manifests texts (λ _ _. true)
start = ((λ _ _ _ _. true, dying), tt)

abbrev readings : Readings
readings = record {
  listed = ok dying;
  clock = 0;
  build_error = none;
  list_error = none;
  is_old = false;
}

sync-Dead_example :
    Dead servers servers-IsLawful crd_cleaner_done first_error no_manifests texts
      (λ _ _. true)
      (config_of dying)
      (sync servers crd_cleaner_done first_error no_manifests texts
        (λ _ _. true)
        readings
        start).1.0
unfolding string_eq sync remove_klusterlet_finalizers has_finalizer without_finalizers visible
sync-Dead_example =
    sync-Dead servers servers-IsLawful crd_cleaner_done first_error no_manifests texts (λ _ _. true)
      readings dying dying start refl refl refl tt

abbrev timeout : String
timeout = "dial tcp 10.0.0.1:6443: i/o timeout"

gives_up_in_time_example :
    (check_connectivity texts
      (6 * 60000000000)
      (some timeout)
      (check_connectivity texts 0 (some timeout) []).annotations).clean_managed
    ≡ false
unfolding is_tcp_time_out_error is_tcp_no_such_host_error has_text Dict.lookup
gives_up_in_time_example =
    gives_up_in_time texts 0 (6 * 60000000000) 0 timeout timeout [] refl refl refl refl
      (omega arith) (omega arith)

gives_up_reachable_example :
    (check_connectivity texts
      (6 * 60000000000)
      (some timeout)
      (check_connectivity texts 60000000000 none
        (check_connectivity texts 0 (some timeout) []).annotations).annotations).clean_managed
    ≡ false
unfolding is_tcp_time_out_error is_tcp_no_such_host_error has_text Dict.lookup
gives_up_reachable_example =
    gives_up_reachable texts 0 (6 * 60000000000) 0 timeout timeout [] 60000000000 refl refl refl
      refl (omega arith) (omega arith)

gives_up_iff_example :
    ((check_connectivity texts 0 (some timeout) []).clean_managed ≡ false)
    ↔ (IsUnreachable timeout × Expired texts 0 [])
gives_up_iff_example = gives_up_iff texts 0 timeout []
