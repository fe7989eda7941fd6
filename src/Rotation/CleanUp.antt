-- ===== src/Rotation/CleanUp.antt =====
-- certrotation_controller.go: what is left of a cluster manager that is being deleted.
use registration_operator.Common.{
  String, Bool, true, false, Option, none, some, ◌≡◌, refl, ◌==◌, string_eq, if◌then◌else◌, ◌&&◌,
  ◌∙◌, ap, Error, failure, Aggregate, arith,
}
use registration_operator.Common.Dict
use registration_operator.Common.Dict.{Dict}
use registration_operator.Helpers.Klusterlets.{cluster_manager_namespace}
use registration_operator.Rotation.{Library}
use registration_operator.Rotation.Controller.{
  Hub, Rotations, Manager, Readings, sync_one, sync_mode, clean_up, forget, delete_all,
  after_delete, signer_secret, ca_bundle_config_map, registration_webhook_secret,
  work_webhook_secret,
}

-- What the server does at a delete: a failed one changes nothing, a successful one takes the named
-- object away and nothing else, and one of an object that is not there fails.
pub record IsLawful {State : Type 0} (hub : Hub State) : Type 0 where
  pub has_secret : State → String → String → Bool
  pub has_config_map : State → String → String → Bool
  pub delete_secret_err :
      (t : State) (ns n : String) {e : Error}
      → (hub.delete_secret t ns n).0 ≡ some e
      → (hub.delete_secret t ns n).1 ≡ t
  pub delete_secret_absent :
      (t : State) (ns n : String)
      → has_secret t ns n ≡ false
      → (e : Error) × ((hub.delete_secret t ns n).0 ≡ some e)
  pub has_secret-delete_secret :
      (t : State) (ns n ms m : String)
      → (hub.delete_secret t ns n).0 ≡ none
      → has_secret (hub.delete_secret t ns n).1 ms m
        ≡ (if ms == ns && m == n then false else has_secret t ms m)
  pub has_config_map-delete_secret :
      (t : State) (ns n ms m : String)
      → (hub.delete_secret t ns n).0 ≡ none
      → has_config_map (hub.delete_secret t ns n).1 ms m ≡ has_config_map t ms m
  pub has_config_map-delete_config_map :
      (t : State) (ns n ms m : String)
      → (hub.delete_config_map t ns n).0 ≡ none
      → has_config_map (hub.delete_config_map t ns n).1 ms m
        ≡ (if ms == ns && m == n then false else has_config_map t ms m)
  pub has_secret-delete_config_map :
      (t : State) (ns n ms m : String)
      → (hub.delete_config_map t ns n).0 ≡ none
      → has_secret (hub.delete_config_map t ns n).1 ms m ≡ has_secret t ms m

module _ (L : Library) (hub : Hub L.State) (law : IsLawful hub) (A : Aggregate) where
  abbrev pub Gone : String → L.State → Type 0
  Gone ns t =
      (law.has_secret t ns signer_secret ≡ false)
      × ((law.has_config_map t ns ca_bundle_config_map ≡ false)
          × ((law.has_secret t ns registration_webhook_secret ≡ false)
              × (law.has_secret t ns work_webhook_secret ≡ false)))

  -- What holds after the next steps holds after a delete and them, if there was no error.
  after_delete_ok :
      (P : L.State → Type 0) (what : String) (x : Option Error × L.State)
      (next : L.State → Option Error × L.State)
      → (x.0 ≡ none → (next x.1).0 ≡ none → P (next x.1).1)
      → (after_delete L hub A what x next).0 ≡ none
      → P (after_delete L hub A what x next).1
  unfolding after_delete
  after_delete_ok P what (some e, t) next k h = cc
  after_delete_ok P what (none, t) next k h = k refl h

  -- After the four deletes, each of which succeeded.
  deleted-Gone :
      (ns : String) (t : L.State)
      → let t1 = (hub.delete_secret t ns signer_secret).1 in
        let t2 = (hub.delete_config_map t1 ns ca_bundle_config_map).1 in
        let t3 = (hub.delete_secret t2 ns registration_webhook_secret).1 in
        (hub.delete_secret t ns signer_secret).0 ≡ none
        → (hub.delete_config_map t1 ns ca_bundle_config_map).0 ≡ none
        → (hub.delete_secret t2 ns registration_webhook_secret).0 ≡ none
        → (hub.delete_secret t3 ns work_webhook_secret).0 ≡ none
        → Gone ns (hub.delete_secret t3 ns work_webhook_secret).1
  deleted-Gone ns t a b c d =
      let t1 = (hub.delete_secret t ns signer_secret).1 in
      let t2 = (hub.delete_config_map t1 ns ca_bundle_config_map).1 in
      let t3 = (hub.delete_secret t2 ns registration_webhook_secret).1 in
      (
        rw
            (
              law.has_secret-delete_secret t3 ns work_webhook_secret ns signer_secret d,
              law.has_secret-delete_secret t2 ns registration_webhook_secret ns signer_secret c,
              law.has_secret-delete_config_map t1 ns ca_bundle_config_map ns signer_secret b,
              law.has_secret-delete_secret t ns signer_secret ns signer_secret a,
            )
            (ground arith),
        (
          rw
              (
                law.has_config_map-delete_secret t3 ns work_webhook_secret ns ca_bundle_config_map
                    d,
                law.has_config_map-delete_secret t2 ns registration_webhook_secret ns
                    ca_bundle_config_map c,
                law.has_config_map-delete_config_map t1 ns ca_bundle_config_map ns
                    ca_bundle_config_map b,
              )
              (ground arith),
          (
            rw
                (
                  law.has_secret-delete_secret t3 ns work_webhook_secret ns
                      registration_webhook_secret d,
                  law.has_secret-delete_secret t2 ns registration_webhook_secret ns
                      registration_webhook_secret c,
                )
                (ground arith),
            rw (law.has_secret-delete_secret t3 ns work_webhook_secret ns work_webhook_secret d)
                (ground arith),
          ),
        ),
      )

  delete_all-Gone :
      (ns : String) (t : L.State)
      → (delete_all L hub A ns t).0 ≡ none
      → Gone ns (delete_all L hub A ns t).1
  unfolding delete_all
  delete_all-Gone ns t = after_delete_ok (Gone ns) _ _ _ λ a. after_delete_ok (Gone ns) _ _ _ λ b.
      after_delete_ok (Gone ns) _ _ _
        λ c. after_delete_ok (Gone ns) _ _ _ λ d h. deleted-Gone ns t a b c d

  after_delete_failed :
      (what : String) (x : Option Error × L.State) (next : L.State → Option Error × L.State)
      {e : Error}
      → x.0 ≡ some e
      → after_delete L hub A what x next ≡ (some (failure what), x.1)
  unfolding after_delete
  after_delete_failed what (some f, t) next h = refl
  after_delete_failed what (none, t) next h = cc

  delete_all_stuck :
      (ns : String) (t : L.State)
      → law.has_secret t ns signer_secret ≡ false
      → delete_all L hub A ns t ≡ (some (failure "deleting signer secret failed"), t)
  unfolding delete_all
  delete_all_stuck ns t gone =
      let (e, failed) = law.delete_secret_absent t ns signer_secret gone in
      after_delete_failed _ _ _ failed
      ∙ ap (λ u. (some (failure "deleting signer secret failed"), u))
          (law.delete_secret_err t ns signer_secret failed)

  forget-Gone :
      (name ns : String) (rs : Dict Rotations) (x : Option Error × L.State)
      → (x.0 ≡ none → Gone ns x.1)
      → (forget L hub A name rs x).0 ≡ none
      → Gone ns (forget L hub A name rs x).1.1
        × (Dict.lookup name (forget L hub A name rs x).1.0 ≡ none)
  unfolding forget
  forget-Gone name ns rs (some e, t) k h = cc
  forget-Gone name ns rs (none, t) k h = (k refl, ground (arith, Dict.lookup-erase name name rs))

  module _ (same : Dict String → Dict String → Bool) (r : Readings) (m : Manager)
      (rs : Dict Rotations) (t : L.State) where
    sync_one_deleting :
        {rot : Rotations}
        → m.deleting ≡ true
        → Dict.lookup m.name rs ≡ some rot
        → sync_one L hub A same r m rs t
          ≡ forget L hub A m.name rs
              (delete_all L hub A (cluster_manager_namespace m.name m.mode) t)
    unfolding sync_one sync_mode clean_up
    sync_one_deleting deleting known = rw (deleting, known) refl

    -- When a cluster manager whose rotations the controller knows is being deleted and its sync
    -- reports no error, its signer, bundle and serving certificates are gone, and it is forgotten.
    pub sync_one-Gone :
        {rot : Rotations}
        → m.deleting ≡ true
        → Dict.lookup m.name rs ≡ some rot
        → (sync_one L hub A same r m rs t).0 ≡ none
        → Gone (cluster_manager_namespace m.name m.mode) (sync_one L hub A same r m rs t).1.1
          × (Dict.lookup m.name (sync_one L hub A same r m rs t).1.0 ≡ none)
    sync_one-Gone deleting known done =
        let opened = sync_one_deleting deleting known in
        let ns = cluster_manager_namespace m.name m.mode in
        rw opened (
          forget-Gone m.name ns rs (delete_all L hub A ns t) (delete_all-Gone ns t)
            (rw (← opened) done))

    -- A cluster manager that is being deleted and whose signer is gone, but which the controller
    -- still knows, is not cleaned up by any further sync: each fails and changes nothing.
    pub sync_one_stuck :
        {rot : Rotations}
        → m.deleting ≡ true
        → Dict.lookup m.name rs ≡ some rot
        → law.has_secret t (cluster_manager_namespace m.name m.mode) signer_secret ≡ false
        → sync_one L hub A same r m rs t ≡ (some (failure "deleting signer secret failed"), (rs, t))
    unfolding forget
    sync_one_stuck deleting known gone =
        sync_one_deleting deleting known
        ∙ ap (forget L hub A m.name rs)
            (delete_all_stuck (cluster_manager_namespace m.name m.mode) t gone)
