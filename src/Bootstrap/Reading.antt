-- ===== src/Bootstrap/Reading.antt =====
-- What a secret of the agents holds: a cluster of its kubeconfig, and certificates.
use registration_operator.Common.{
  String, ℕ, ◌≡◌, refl, ap, ◌⊎◌, inl, inr, Bool, true, false, Option, none, some, ◌>>=◌, Result, ok,
  err, arith, Bool-cases, ◌≢◌, List, [], ◌∷◌, ◌<◌, ltb, ◌||◌, ◌==◌, string_eq,
}
use mathlib.Core.List.{Memᴰ}
use registration_operator.Common.Dict
use registration_operator.Common.Dict.{Dict}
use registration_operator.Bootstrap.{
  Library, Endpoint, Kubeconfig, load_kube_config, is_hub_kubeconfig_secret_expired, differs,
  any_expired, expired_of, or_fail,
}

ok-injective : {a b : Bool} → ok a ≡ ok b → a ≡ b
ok-injective h = cc

module _ (L : Library) where
  -- The secret holds a kubeconfig, whose current context has this cluster.
  abbrev pub Holds : Dict String → Endpoint → Type 0
  Holds d x =
      (text : String) × ((config : Kubeconfig) × ((name : String) × ((Dict.lookup "kubeconfig" d
              ≡ some text)
            × ((L.load text ≡ ok config)
                × ((Dict.lookup config.current_context config.contexts ≡ some name)
                    × (Dict.lookup name config.clusters ≡ some x))))))

  or_fail-ok :
      {A : Type 0} (what : String) (r : Option A) {x : A} → or_fail what r ≡ ok x → r ≡ some x
  or_fail-ok what none h = cc
  or_fail-ok what (some y) h = cc

  cluster_to :
      (d : Dict String) (text : String) (config : Kubeconfig) (r : Option String) (x : Endpoint)
      → Dict.lookup "kubeconfig" d ≡ some text
      → L.load text ≡ ok config
      → Dict.lookup config.current_context config.contexts ≡ r
      → (or_fail "unable to get current-context" r >>= λ name.
          or_fail "unable to get current cluster" (Dict.lookup name config.clusters))
        ≡ ok x
      → Holds d x
  cluster_to d text config none x found loaded fn h = cc
  cluster_to d text config (some name) x found loaded fn h = (
    text,
    (config, (name, (found, (loaded, (fn, or_fail-ok _ (Dict.lookup name config.clusters) h))))),
  )

  config_to :
      (d : Dict String) (text : String) (r : Result Kubeconfig) (x : Endpoint)
      → Dict.lookup "kubeconfig" d ≡ some text
      → L.load text ≡ r
      → (r >>= λ config.
          or_fail "unable to get current-context"
            (Dict.lookup config.current_context config.contexts)
          >>= λ name. or_fail "unable to get current cluster" (Dict.lookup name config.clusters))
        ≡ ok x
      → Holds d x
  config_to d text (err e) x found fn h = cc
  config_to d text (ok config) x found fn h =
      cluster_to d text config (Dict.lookup config.current_context config.contexts) x found fn refl
        h

  pub Holds-to : (d : Dict String) (x : Endpoint) → load_kube_config L d ≡ ok x → Holds d x
  unfolding load_kube_config
  Holds-to d x h = go (Dict.lookup "kubeconfig" d) refl h
    where
      go :
          (r : Option String)
          → Dict.lookup "kubeconfig" d ≡ r
          → (or_fail "unable to get kubeconfig in secret" r >>= λ text. L.load text >>= λ config.
              or_fail "unable to get current-context"
                (Dict.lookup config.current_context config.contexts)
              >>= λ name.
                  or_fail "unable to get current cluster" (Dict.lookup name config.clusters))
            ≡ ok x
          → Holds d x
      go none fn h = cc
      go (some text) fn h = config_to d text (L.load text) x fn refl h

  pub Holds-from : (d : Dict String) (x : Endpoint) → Holds d x → load_kube_config L d ≡ ok x
  unfolding load_kube_config
  Holds-from d x (text, (config, (name, (found, (loaded, (context, cluster)))))) =
      rw (found, loaded, context, cluster) refl

  -- One of the certificates of the secret has expired.
  abbrev pub HasExpired : ℕ → Dict String → Type 0
  HasExpired now d =
      (text : String) × ((ends : List ℕ) × ((Dict.lookup "tls.crt" d ≡ some text)
          × ((L.parse_certs_pem text ≡ ok ends) × ((end : ℕ) × (Memᴰ end ends × (end < now))))))

  -- The servers or the authorities are not the same.
  abbrev pub Differ : Endpoint → Endpoint → Type 0
  Differ x y = (x.server ≢ y.server) ⊎ (x.certificate_authority_data ≢ y.certificate_authority_data)

  any_expired_to :
      (now : ℕ) (ends : List ℕ)
      → any_expired L now ends ≡ true
      → (end : ℕ) × (Memᴰ end ends × (end < now))
  unfolding any_expired
  any_expired_to now [] h = cc
  any_expired_to now (end ∷ ends) h = go (ltb end now) refl h (any_expired_to now ends)
    where
      go :
          (b : Bool)
          → ltb end now ≡ b
          → b || any_expired L now ends ≡ true
          → (any_expired L now ends ≡ true → (e : ℕ) × (Memᴰ e ends × (e < now)))
          → (e : ℕ) × (Memᴰ e (end ∷ ends) × (e < now))
      go true fn h rest = (end, (Memᴰ.head refl, ground arith))
      go false fn h rest = let (e, (m, l)) = rest h in (e, (Memᴰ.tail m, l))

  any_expired_from :
      (now : ℕ) (ends : List ℕ) (end : ℕ)
      → Memᴰ end ends
      → end < now
      → any_expired L now ends ≡ true
  unfolding any_expired
  any_expired_from now [] end m l = elim m [ ]
  any_expired_from now (e ∷ ends) end (Memᴰ.head same) l =
      let sooner : e < now = rw (same) at l in ground arith
  any_expired_from now (e ∷ ends) end (Memᴰ.tail m) l =
      ground (arith, any_expired_from now ends end m l)

  parsed_to :
      (now : ℕ) (r : Result (List ℕ))
      → (r >>= expired_of L now) ≡ ok true
      → (ends : List ℕ) × ((r ≡ ok ends) × ((end : ℕ) × (Memᴰ end ends × (end < now))))
  unfolding expired_of
  parsed_to now (err e) h = cc
  parsed_to now (ok []) h = cc
  parsed_to now (ok (end ∷ ends)) h =
      (end ∷ ends, (refl, any_expired_to now (end ∷ ends) (ok-injective h)))

  found_to :
      (now : ℕ) (d : Dict String) (r : Option String)
      → Dict.lookup "tls.crt" d ≡ r
      → (or_fail "there is no cert" r >>= λ text. L.parse_certs_pem text >>= expired_of L now)
        ≡ ok true
      → HasExpired now d
  found_to now d none fn h = cc
  found_to now d (some text) fn h =
      let (ends, (parsed, late)) = parsed_to now (L.parse_certs_pem text) h in
      (text, (ends, (fn, (parsed, late))))

  pub expired_to :
      (now : ℕ) (d : Dict String)
      → is_hub_kubeconfig_secret_expired L now d ≡ ok true
      → HasExpired now d
  unfolding is_hub_kubeconfig_secret_expired
  expired_to now d h = found_to now d (Dict.lookup "tls.crt" d) refl h

  some_expired :
      (now : ℕ) (ends : List ℕ) (end : ℕ)
      → Memᴰ end ends
      → end < now
      → expired_of L now ends ≡ ok true
  unfolding expired_of
  some_expired now [] end m l = elim m [ ]
  some_expired now (e ∷ ends) end m l = ap ok (any_expired_from now (e ∷ ends) end m l)

  pub expired_of_from :
      (now : ℕ) (d : Dict String)
      → HasExpired now d
      → is_hub_kubeconfig_secret_expired L now d ≡ ok true
  unfolding is_hub_kubeconfig_secret_expired
  expired_of_from now d (text, (ends, (found, (parsed, (end, (m, l)))))) =
      rw (found, parsed) (some_expired now ends end m l)

  pub differs_to : (x y : Endpoint) → differs L x y ≡ true → Differ x y
  unfolding differs
  differs_to x y h = go (Bool-cases (x.server == y.server))
    where
      go : ((x.server == y.server) ≡ true) ⊎ ((x.server == y.server) ≡ false) → Differ x y
      go (inl same) = inr (λ e. ground arith)
      go (inr other) = inl (λ e. ground arith)

  pub differs_from : (x y : Endpoint) → Differ x y → differs L x y ≡ true
  unfolding differs
  differs_from x y (inl h) = ground arith
  differs_from x y (inr h) = ground arith
