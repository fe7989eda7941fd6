-- ===== src/Ssar/Laws.antt =====
-- When the connection to the hub counts as functional.
use registration_operator.Common.{
  String, ℕ, ◌≡◌, ◌↔◌, refl, sym, ◌∙◌, Bool, true, false, Option, none, some, List, [], ◌∷◌, Result,
  ok, err, All, arith,
}
use registration_operator.Common.Dict
use registration_operator.Secrets.{Secret}
use registration_operator.Ssar.Reviews.{
  ResourceAttributes, Verdict, allowed, denied, failed, after_review,
  create_self_subject_access_reviews, get_hub_config_ssars,
}
use registration_operator.Ssar.{
  Library, KlusterletAgent, hub_finding, hub_named, hub_built, hub_kubeconfig, hub_got, hub_secret,
  cluster_name_of, build_kube_client_with_secret, check_hub_config_secret, hub_condition,
  check_agent_degraded_condition,
}

after_review_allowed :
    (r : ResourceAttributes) (x : Result Bool) (rest : Verdict)
    → after_review r x rest ≡ allowed
    → (x ≡ ok true) × (rest ≡ allowed)
unfolding after_review
after_review_allowed r (err e) rest h = cc
after_review_allowed r (ok true) rest h = (refl, h)
after_review_allowed r (ok false) rest h = cc

reviews_to :
    (create : ResourceAttributes → Result Bool) (rs : List ResourceAttributes)
    → create_self_subject_access_reviews create rs ≡ allowed
    → All (λ r. create r ≡ ok true) rs
unfolding create_self_subject_access_reviews
reviews_to create [] h = tt
reviews_to create (r ∷ rs) h =
    let (first, rest) =
      after_review_allowed r (create r) (create_self_subject_access_reviews create rs) h in
    (first, reviews_to create rs rest)

reviews_from :
    (create : ResourceAttributes → Result Bool) (rs : List ResourceAttributes)
    → All (λ r. create r ≡ ok true) rs
    → create_self_subject_access_reviews create rs ≡ allowed
unfolding create_self_subject_access_reviews after_review
reviews_from create [] h = refl
reviews_from create (r ∷ rs) (first, rest) = rw first (reviews_from create rs rest)

module _ {Cluster R A : Type 0} (L : Library Cluster R A) where
  -- The client may do everything that the agents of a cluster need.
  abbrev pub Permits : A → String → Type 0
  Permits client name = All (λ r. L.create_review client r ≡ ok true) (get_hub_config_ssars name)

  -- The agents' cluster has a hub secret with a kubeconfig, of which a client can be made; the cluster's
  -- name is known; and the client may do what is needed under that name.
  abbrev pub Works : (String → String → Result Secret) → KlusterletAgent → Type 0
  Works get agent =
      (s : Secret) × ((get agent.namespace hub_secret ≡ ok s)
        × (((text : String) × (Dict.lookup "kubeconfig" s.contents ≡ some text))
            × ((built : A × String) × ((build_kube_client_with_secret L s ≡ ok built)
                  × ((name : String) × ((cluster_name_of L agent.cluster_name s ≡ some name)
                        × Permits built.0 name))))))

  finding_allowed :
      (ns host : String) (s : Secret) (v : Verdict)
      → (hub_finding L ns s host v).degraded ≡ false
      → v ≡ allowed
  unfolding hub_finding
  finding_allowed ns host s allowed h = refl
  finding_allowed ns host s (denied r) h = cc
  finding_allowed ns host s (failed r e) h = cc

  named_works :
      (ns host : String) (s : Secret) (client : A) (found : Option String)
      → (hub_named L ns s client host found).degraded ≡ false
      → (name : String) × ((found ≡ some name) × Permits client name)
  unfolding hub_named
  named_works ns host s client none h = cc
  named_works ns host s client (some name) h =
      let v =
        create_self_subject_access_reviews (L.create_review client) (get_hub_config_ssars name) in
      (
        name,
        (
          refl,
          reviews_to (L.create_review client) (get_hub_config_ssars name)
              (finding_allowed ns host s v h),
        ),
      )

  built_works :
      (agent : KlusterletAgent) (s : Secret) (r : Result (A × String))
      → (hub_built L agent s r).degraded ≡ false
      → (built : A × String) × ((r ≡ ok built)
          × ((name : String) × ((cluster_name_of L agent.cluster_name s ≡ some name)
                × Permits built.0 name)))
  unfolding hub_built
  built_works agent s (err e) h = cc
  built_works agent s (ok (client, host)) h = (
    (client, host),
    (refl, named_works agent.namespace host s client (cluster_name_of L agent.cluster_name s) h),
  )

  kubeconfig_works :
      (agent : KlusterletAgent) (s : Secret) (found : Option String)
      → (hub_kubeconfig L agent s found).degraded ≡ false
      → ((text : String) × (found ≡ some text))
        × ((hub_built L agent s (build_kube_client_with_secret L s)).degraded ≡ false)
  unfolding hub_kubeconfig
  kubeconfig_works agent s none h = cc
  kubeconfig_works agent s (some text) h = ((text, refl), h)

  got_works :
      (agent : KlusterletAgent) (r : Result Secret)
      → (hub_got L agent r).degraded ≡ false
      → (s : Secret) × ((r ≡ ok s)
          × ((hub_kubeconfig L agent s (Dict.lookup "kubeconfig" s.contents)).degraded ≡ false))
  unfolding hub_got
  got_works agent (err e) h = cc
  got_works agent (ok s) h = (s, (refl, h))

  check_to :
      (get : String → String → Result Secret) (agent : KlusterletAgent)
      → (check_hub_config_secret L get agent).degraded ≡ false
      → Works get agent
  unfolding check_hub_config_secret
  check_to get agent h =
      let (s, (got, k)) = got_works agent (get agent.namespace hub_secret) h in
      let (text, b) = kubeconfig_works agent s (Dict.lookup "kubeconfig" s.contents) k in
      (s, (got, (text, built_works agent s (build_kube_client_with_secret L s) b)))

  check_from :
      (get : String → String → Result Secret) (agent : KlusterletAgent)
      → Works get agent
      → (check_hub_config_secret L get agent).degraded ≡ false
  unfolding check_hub_config_secret hub_got hub_kubeconfig hub_built hub_named hub_finding
  check_from get agent
        (s, (got, ((text, found), ((client, host), (built, (name, (named, permits))))))) =
      rw
        (
          got,
          found,
          built,
          named,
          reviews_from (L.create_review client) (get_hub_config_ssars name) permits,
        )
        refl

  condition_holds :
      (get get' : String → String → Result Secret) (agent : KlusterletAgent) (generation : ℕ)
      → (hub_condition L get get' agent generation).holds
        ≡ (check_hub_config_secret L get agent).degraded
  unfolding hub_condition check_agent_degraded_condition
  condition_holds get get' agent generation = ground arith

  -- The reported condition is false exactly if the connection works: the hub secret is there and has a
  -- kubeconfig, of which a client can be made, the cluster's name is known, and every access review of
  -- the agents is allowed.
  pub hub_condition_iff :
      (get get' : String → String → Result Secret) (agent : KlusterletAgent) (generation : ℕ)
      → ((hub_condition L get get' agent generation).holds ≡ false) ↔ Works get agent
  hub_condition_iff get get' agent generation = (
    (λ h. check_to get agent (sym (condition_holds get get' agent generation) ∙ h)),
    λ works. condition_holds get get' agent generation ∙ check_from get agent works,
  )
