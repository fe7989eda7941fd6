-- ===== src/Helpers/QueueKeys/Laws.antt =====
-- Which events on the objects of klusterlets and of cluster managers queue them, and which do not.
use text.Mathlib.TextLemmas
use mathlib.Core.List.{Memᴰ}
use registration_operator.Common.{
  String, ◌<>◌, ◌≡◌, refl, sym, ◌⊎◌, inl, inr, Bool, true, false, ◌&&◌, ◌||◌, some, List, [], ◌∷◌,
  ◌==◌, string_eq, if◌then◌else◌, arith, All,
}
use registration_operator.Helpers.Klusterlets.{
  Klusterlet, ClusterManager, default_mode, hosted_mode, other_install_mode, agent_namespace,
  cluster_manager_default_namespace, cluster_manager_namespace,
}
use registration_operator.Helpers.QueueKeys.{
  find_klusterlet_by_namespace, find_cluster_manager_by_namespace, klusterlet_secret_queue_key,
  klusterlet_deployment_queue_key, interesting_secret, has_suffix, is_default,
  cluster_manager_by_namespace_queue_key, cluster_manager_deployment_queue_key,
  interesting_hub_deployment,
}

-- No two klusterlets keep their agents in one namespace.
abbrev pub Apart : Klusterlet → List Klusterlet → Type 0
Apart k [] = Unit
Apart k (j ∷ ks) = ((agent_namespace k == agent_namespace j) ≡ false) × Apart k ks

abbrev pub ArePairwiseApart : List Klusterlet → Type 0
ArePairwiseApart [] = Unit
ArePairwiseApart (k ∷ ks) = Apart k ks × ArePairwiseApart ks

Apart-mem :
    (k j : Klusterlet) (ks : List Klusterlet)
    → Apart k ks
    → Memᴰ j ks
    → (agent_namespace k == agent_namespace j) ≡ false
Apart-mem k j [] a m = elim m [ ]
Apart-mem k j (x ∷ ks) (a, rest) (Memᴰ.head e) = rw e a
Apart-mem k j (x ∷ ks) (a, rest) (Memᴰ.tail m) = Apart-mem k j ks rest m

find_klusterlet_lem :
    (ks : List Klusterlet) (k : Klusterlet)
    → ArePairwiseApart ks
    → Memᴰ k ks
    → find_klusterlet_by_namespace ks (agent_namespace k) ≡ some k
unfolding find_klusterlet_by_namespace
find_klusterlet_lem [] k a m = elim m [ ]
find_klusterlet_lem (j ∷ ks) k (a, rest) (Memᴰ.head e) = rw (sym e) (ground arith)
find_klusterlet_lem (j ∷ ks) k (a, rest) (Memᴰ.tail m) =
    ground (arith, Apart-mem j k ks a m, find_klusterlet_lem ks k rest m)

has_suffix_self : (t : String) → has_suffix t t ≡ true
unfolding has_suffix
has_suffix_self String.[] = ground arith
has_suffix_self (String.◌∷◌ c t) = ground arith

has_suffix-append : (s t : String) → has_suffix (s <> t) t ≡ true
unfolding has_suffix
has_suffix-append String.[] t = rw TextLemmas.nil-append (has_suffix_self t)
has_suffix-append (String.◌∷◌ c s) t =
    rw TextLemmas.cons-append (ground (arith, has_suffix-append s t))

-- An event on a watched secret or on a deployment of a klusterlet's agents, in the namespace of its
-- agents, queues that klusterlet, and an event on another secret there queues nothing. The lister
-- works, and no two klusterlets keep their agents in one namespace.
pub klusterlet_events_queued :
    (ks : List Klusterlet) (k : Klusterlet) (secret prefix : String)
    → ArePairwiseApart ks
    → Memᴰ k ks
    → (klusterlet_secret_queue_key (some ks) (agent_namespace k) secret
        ≡ (if interesting_secret secret then k.name else ""))
      × (klusterlet_deployment_queue_key
            (some ks)
            (agent_namespace k)
            (prefix <> "registration-agent")
          ≡ k.name)
      × (klusterlet_deployment_queue_key (some ks) (agent_namespace k) (prefix <> "work-agent")
          ≡ k.name)
unfolding klusterlet_secret_queue_key klusterlet_deployment_queue_key
klusterlet_events_queued ks k secret prefix a m =
    let found = find_klusterlet_lem ks k a m in
    (
      rw found (ground arith),
      rw (found, has_suffix-append) refl,
      rw (found, has_suffix-append) (ground arith),
    )

-- The namespace of a cluster manager's deployments.
abbrev pub home : ClusterManager → String
home m = cluster_manager_namespace m.name m.mode

-- The test of `FindClusterManagerByNamespace`.
abbrev pub claims : ClusterManager → String → Bool
claims m ns = m.name == ns || (is_default m.mode && ns == cluster_manager_default_namespace)

abbrev pub ClaimsNone : ClusterManager → List ClusterManager → Type 0
ClaimsNone m [] = Unit
ClaimsNone m (n ∷ ns) = (claims m (home n) ≡ false) × ClaimsNone m ns

abbrev pub DoNotClash : List ClusterManager → Type 0
DoNotClash [] = Unit
DoNotClash (m ∷ ms) = ClaimsNone m ms × DoNotClash ms

abbrev pub HasKnownMode : ClusterManager → Type 0
HasKnownMode m = (m.mode ≡ default_mode) ⊎ (m.mode ≡ hosted_mode)

claims-mem :
    (m n : ClusterManager) (ms : List ClusterManager)
    → ClaimsNone m ms
    → Memᴰ n ms
    → claims m (home n) ≡ false
claims-mem m n [] c i = elim i [ ]
claims-mem m n (x ∷ ms) (c, rest) (Memᴰ.head e) = rw e c
claims-mem m n (x ∷ ms) (c, rest) (Memᴰ.tail i) = claims-mem m n ms rest i

claims-home : (m : ClusterManager) → HasKnownMode m → claims m (home m) ≡ true
unfolding cluster_manager_namespace
claims-home m (inl e) = rw e (ground arith)
claims-home m (inr e) = rw e (ground arith)

find_cluster_manager_lem :
    (ms : List ClusterManager) (m : ClusterManager)
    → DoNotClash ms
    → HasKnownMode m
    → Memᴰ m ms
    → find_cluster_manager_by_namespace (home m) ms ≡ some m
unfolding find_cluster_manager_by_namespace
find_cluster_manager_lem [] m d k i = elim i [ ]
find_cluster_manager_lem (n ∷ ms) m (c, rest) k (Memᴰ.head e) =
    rw (sym e) (rw (claims-home m k) refl)
find_cluster_manager_lem (n ∷ ms) m (c, rest) k (Memᴰ.tail i) =
    rw (claims-mem n m ms c i) (find_cluster_manager_lem ms m rest k i)

-- How the names of the deployments end that are watched.
abbrev pub watched_endings : List String
watched_endings =
    "registration-controller" ∷ "registration-webhook" ∷ "work-webhook" ∷ "placement-controller"
    ∷ []

abbrev pub ends_in_one : String → List String → Bool
ends_in_one name [] = false
ends_in_one name (e ∷ es) = has_suffix name e || ends_in_one name es

interesting_hub_deployment-ends_in_one :
    (name : String) → interesting_hub_deployment name ≡ ends_in_one name watched_endings
unfolding interesting_hub_deployment
interesting_hub_deployment-ends_in_one name = ground arith

deployment_key_lem :
    (ms : List ClusterManager) (m : ClusterManager) (name : String)
    → find_cluster_manager_by_namespace (home m) ms ≡ some m
    → cluster_manager_deployment_queue_key (some ms) (home m) name
      ≡ (if ends_in_one name watched_endings then m.name else "")
unfolding cluster_manager_deployment_queue_key
deployment_key_lem ms m name found = rw (interesting_hub_deployment-ends_in_one name, found) refl

-- An event on a secret or a config map in the namespace of a cluster manager queues that cluster manager.
-- One on a deployment there queues it if the name ends in "registration-controller",
-- "registration-webhook", "work-webhook" or "placement-controller", and nothing if it does not. The mode is
-- "Default" or "Hosted", the lister works, and no cluster manager that is listed earlier claims the
-- namespace.
pub cluster_manager_events_queued :
    (ms : List ClusterManager) (m : ClusterManager) (prefix name : String)
    → DoNotClash ms
    → HasKnownMode m
    → Memᴰ m ms
    → (cluster_manager_by_namespace_queue_key (some ms) (home m) ≡ m.name)
      × (All
            (λ ending.
              cluster_manager_deployment_queue_key (some ms) (home m) (prefix <> ending) ≡ m.name)
            watched_endings
          × (cluster_manager_deployment_queue_key (some ms) (home m) name
              ≡ (if ends_in_one name watched_endings then m.name else "")))
unfolding cluster_manager_by_namespace_queue_key
cluster_manager_events_queued ms m prefix name d k i =
    let found = find_cluster_manager_lem ms m d k i in
    let key = λ (n : String). deployment_key_lem ms m n found in
    (
      rw found refl,
      (
        (
          rw (key (prefix <> "registration-controller"), has_suffix-append) refl,
          (
            rw (key (prefix <> "registration-webhook"), has_suffix-append) (ground arith),
            (
              rw (key (prefix <> "work-webhook"), has_suffix-append) (ground arith),
              (rw (key (prefix <> "placement-controller"), has_suffix-append) (ground arith), tt),
            ),
          ),
        ),
        key name,
      ),
    )

-- A cluster manager whose mode is neither is never found by the namespace that
-- `ClusterManagerNamespace` gives it, if no other one is found there: its events are lost.
pub unknown_mode_lost :
    (name mode : String)
    → (name == cluster_manager_default_namespace) ≡ false
    → let m : ClusterManager = record { name = name; mode = other_install_mode mode } in
      cluster_manager_by_namespace_queue_key (some (m ∷ [])) (home m) ≡ ""
unfolding cluster_manager_by_namespace_queue_key cluster_manager_namespace
unknown_mode_lost name mode h = rw h refl
