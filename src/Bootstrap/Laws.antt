-- ===== src/Bootstrap/Laws.antt =====
-- When the agents start anew, and what a reload that fails half way leaves.
use registration_operator.Common.{
  String, ◌<>◌, ℕ, ◌≡◌, refl, ◌∙◌, ap, ◌↔◌, ◌⊎◌, inl, inr, Bool, true, false, Option, none, some,
  Error, not_found, Result, ok, err, arith, if◌then◌else◌, Bool-cases, string_eq,
}
use registration_operator.Common.Dict.{Dict}
use registration_operator.Helpers.Related.{Kind, deployment, secret}
use registration_operator.Bootstrap.{
  Library, Api, Endpoint, nothing, reload, load_kube_config, is_hub_kubeconfig_secret_expired,
  decide, with_bootstrap, with_hub, compare_endpoints, decide_expired, differs, bootstrap_secret,
  hub_secret, sync_klusterlet, act, reload_agents, after_delete,
}
use registration_operator.Bootstrap.Reading.{
  Holds, Differ, HasExpired, Holds-to, Holds-from, differs_to, differs_from, expired_to,
  expired_of_from,
}

module _ (L : Library) where
  -- Both secrets hold a kubeconfig, and these differ or the hub's certificates have expired.
  abbrev pub NeedsReload : ℕ → Result (Dict String) → Result (Dict String) → Type 0
  NeedsReload now boot hub =
      (b : Dict String) × ((h : Dict String) × ((x : Endpoint) × ((y : Endpoint) × (((boot ≡ ok b)
                × Holds L b x)
              × (((hub ≡ ok h) × Holds L h y) × (Differ L x y ⊎ HasExpired L now h))))))

  decide_expired_lem : (r : Result Bool) → decide_expired L r ≡ reload → r ≡ ok true
  unfolding decide_expired
  decide_expired_lem (err e) h = cc
  decide_expired_lem (ok true) h = refl
  decide_expired_lem (ok false) h = cc

  compare_lem :
      (now : ℕ) (a : Endpoint) (d : Dict String) (r : Result Endpoint)
      → compare_endpoints L now a d r ≡ reload
      → (y : Endpoint) × ((r ≡ ok y)
          × ((differs L a y ≡ true) ⊎ (is_hub_kubeconfig_secret_expired L now d ≡ ok true)))
  unfolding compare_endpoints
  compare_lem now a d (err e) h = cc
  compare_lem now a d (ok y) h = elim (Bool-cases (differs L a y)) [
    | inl p ↦ (y, (refl, inl p))
    | inr p ↦
        (y, (refl, inr (decide_expired_lem (is_hub_kubeconfig_secret_expired L now d) (rw p at h))))
  ]

  with_hub_lem :
      (now : ℕ) (a : Endpoint) (hub : Result (Dict String))
      → with_hub L now a hub ≡ reload
      → (d : Dict String) × ((y : Endpoint) × ((hub ≡ ok d)
            × ((load_kube_config L d ≡ ok y)
                × ((differs L a y ≡ true) ⊎ (is_hub_kubeconfig_secret_expired L now d ≡ ok true)))))
  unfolding with_hub
  with_hub_lem now a (err e) h = ground arith
  with_hub_lem now a (ok d) h =
      let (y, (loaded, why)) = compare_lem now a d (load_kube_config L d) h in
      (d, (y, (refl, (loaded, why))))

  with_bootstrap_lem :
      (now : ℕ) (r : Result Endpoint) (hub : Result (Dict String))
      → with_bootstrap L now r hub ≡ reload
      → (x : Endpoint) × ((r ≡ ok x) × (with_hub L now x hub ≡ reload))
  unfolding with_bootstrap
  with_bootstrap_lem now (err e) hub h = cc
  with_bootstrap_lem now (ok a) hub h = (a, (refl, h))

  reason :
      (now : ℕ) (x y : Endpoint) (d : Dict String)
      → (differs L x y ≡ true) ⊎ (is_hub_kubeconfig_secret_expired L now d ≡ ok true)
      → Differ L x y ⊎ HasExpired L now d
  reason now x y d (inl p) = inl (differs_to L x y p)
  reason now x y d (inr p) = inr (expired_to L now d p)

  decide_to :
      (now : ℕ) (boot hub : Result (Dict String))
      → decide L now boot hub ≡ reload
      → NeedsReload now boot hub
  unfolding decide
  decide_to now (err e) hub h = ground arith
  decide_to now (ok b) hub h =
      let (x, (loaded, r)) = with_bootstrap_lem now (load_kube_config L b) hub h in
      let (d, (y, (found, (loaded', why)))) = with_hub_lem now x hub r in
      (
        b,
        (
          d,
          (
            x,
            (
              y,
              (
                (refl, Holds-to L b x loaded),
                ((found, Holds-to L d y loaded'), reason now x y d why),
              ),
            ),
          ),
        ),
      )

  expired_from :
      (now : ℕ) (x y : Endpoint) (d : Dict String)
      → Differ L x y ⊎ HasExpired L now d
      → compare_endpoints L now x d (ok y) ≡ reload
  unfolding compare_endpoints decide_expired
  expired_from now x y d (inl p) = rw (differs_from L x y p) refl
  expired_from now x y d (inr p) = rw (expired_of_from L now d p) (same (differs L x y))
    where
      same : (b : Bool) → (if b then reload else reload) ≡ reload
      same true = refl
      same false = refl

  decide_from :
      (now : ℕ) (boot hub : Result (Dict String))
      → NeedsReload now boot hub
      → decide L now boot hub ≡ reload
  unfolding decide with_bootstrap with_hub
  decide_from now boot hub (b, (d, (x, (y, ((found, loaded), ((found', loaded'), why)))))) =
      let first = Holds-from L b x loaded in
      let second = Holds-from L d y loaded' in
      rw (found, first, found', second) (expired_from now x y d why)

  -- The agents start anew exactly if both secrets hold a kubeconfig and either these name different
  -- servers or authorities, or one of the hub's certificates has expired.
  pub decide_iff :
      (now : ℕ) (boot hub : Result (Dict String))
      → (decide L now boot hub ≡ reload) ↔ NeedsReload now boot hub
  decide_iff now boot hub = (decide_to now boot hub, decide_from now boot hub)

-- A delete request that fails changes nothing. One that succeeds takes the object away; deleting
-- the hub's secret leaves the bootstrap secret.
pub record IsLawful (C : Api) : Type 0 where
  pub delete_err :
      (t : C.State) (k : Kind) (ns n : String) {e : Error}
      → (C.delete t k ns n).0 ≡ some e
      → (C.delete t k ns n).1 ≡ t
  pub delete_secret :
      (t : C.State) (ns n : String)
      → (C.delete t secret ns n).0 ≡ none
      → C.get_secret (C.delete t secret ns n).1 ns n ≡ err (not_found n)

module _ (L : Library) (C : Api) (law : IsLawful C) where
  -- With no hub secret a sync does nothing, unless the bootstrap secret cannot be read.
  decide_missing :
      (now : ℕ) (b : Dict String) (n : String) → decide L now (ok b) (err (not_found n)) ≡ nothing
  unfolding decide with_bootstrap with_hub
  decide_missing now b n = go (load_kube_config L b)
    where
      go : (r : Result Endpoint) → with_bootstrap L now r (err (not_found n)) ≡ nothing
      go (err e) = refl
      go (ok x) = refl

  after_delete_failed :
      (x : Option Error × C.State) (next : C.State → Option Error × C.State) {e : Error}
      → x.0 ≡ some e
      → after_delete L C x next ≡ (some e, x.1)
  unfolding after_delete
  after_delete_failed (some f, t) next h = cc
  after_delete_failed (none, t) next h = cc

  -- If a reload deletes the hub's secret and then fails to delete the registration agent, the retry
  -- finds no secret and does nothing: it reports no error, and the agents go on running.
  pub reload_lost :
      (now later : ℕ) (ns name : String) (t u : C.State) (b : Dict String) {e : Error}
      → decide L now (C.get_secret t ns bootstrap_secret) (C.get_secret t ns hub_secret) ≡ reload
      → C.delete t secret ns hub_secret ≡ (none, u)
      → C.get_secret u ns bootstrap_secret ≡ ok b
      → (C.delete u deployment ns (name <> "-registration-agent")).0 ≡ some e
      → (sync_klusterlet L C now ns name t ≡ (some e, u))
        × (sync_klusterlet L C later ns name u ≡ (none, u))
  unfolding sync_klusterlet act reload_agents after_delete
  reload_lost now later ns name t u b {e} due gone boot failed = (
    rw (due, gone)
        (after_delete_failed _ _ failed
          ∙ ap (λ v. (some e, v))
              (law.delete_err u deployment ns (name <> "-registration-agent") failed)),
    rw (boot, missing, decide_missing later b hub_secret) refl,
  )
    where
      missing : C.get_secret u ns hub_secret ≡ err (not_found hub_secret)
      missing = rw gone at (law.delete_secret t ns hub_secret (ap (λ x. x.0) gone))
