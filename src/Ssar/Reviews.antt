-- ===== src/Ssar/Reviews.antt =====
-- The access reviews of the same file.
use registration_operator.Common.{
  String, Bool, true, false, List, [], ◌∷◌, ◌++◌, map, Error, Result, ok, err,
}

pub record ResourceAttributes : Type 0 where
  pub group : String
  pub resource : String
  pub subresource : String
  pub name : String
  pub namespace : String
  pub verb : String

-- The result of a list of reviews: the first one that is denied or fails, if there is one.
pub data Verdict : Type 0 where
  allowed : Verdict
  denied : ResourceAttributes → Verdict
  failed : ResourceAttributes → Error → Verdict

unfoldable pub generate_self_subject_access_reviews :
    ResourceAttributes → List String → List ResourceAttributes
generate_self_subject_access_reviews r verbs = map (λ verb. record r { verb = verb }) verbs

unfoldable pub after_review : ResourceAttributes → Result Bool → Verdict → Verdict
after_review r (err e) rest = failed r e
after_review r (ok true) rest = rest
after_review r (ok false) rest = denied r

unfoldable pub create_self_subject_access_reviews :
    (ResourceAttributes → Result Bool) → List ResourceAttributes → Verdict
unfolding after_review
create_self_subject_access_reviews create [] = allowed
create_self_subject_access_reviews create (r ∷ rs) =
    after_review r (create r) (create_self_subject_access_reviews create rs)

abbrev attributes : String → String → String → String → String → ResourceAttributes
attributes group resource subresource name namespace = record {
  group = group;
  resource = resource;
  subresource = subresource;
  name = name;
  namespace = namespace;
  verb = "";
}

unfoldable pub get_bootstrap_ssars : List ResourceAttributes
unfolding generate_self_subject_access_reviews
get_bootstrap_ssars =
    generate_self_subject_access_reviews
      (attributes "cluster.open-cluster-management.io" "managedclusters" "" "" "")
      ("create" ∷ "get" ∷ [])
    ++ generate_self_subject_access_reviews
        (attributes "certificates.k8s.io" "certificatesigningrequests" "" "" "")
        ("create" ∷ "get" ∷ "list" ∷ "watch" ∷ [])

registration_ssars : String → List ResourceAttributes
unfolding generate_self_subject_access_reviews
registration_ssars cluster =
    generate_self_subject_access_reviews
      (attributes "certificates.k8s.io" "certificatesigningrequests" "" "" "")
      ("get" ∷ "list" ∷ "watch" ∷ [])
    ++ generate_self_subject_access_reviews
        (attributes "cluster.open-cluster-management.io" "managedclusters" "" cluster "")
        ("get" ∷ "list" ∷ "update" ∷ "watch" ∷ [])
    ++ generate_self_subject_access_reviews
        (attributes "cluster.open-cluster-management.io" "managedclusters" "status" cluster "")
        ("patch" ∷ "update" ∷ [])
    ++ generate_self_subject_access_reviews
        (attributes "register.open-cluster-management.io" "managedclusters" "clientcertificates" ""
          "")
        ("renew" ∷ [])
    ++ generate_self_subject_access_reviews
        (attributes "coordination.k8s.io" "leases" "" "managed-cluster-lease" cluster)
        ("get" ∷ "update" ∷ [])

work_ssars : String → List ResourceAttributes
unfolding generate_self_subject_access_reviews
work_ssars cluster =
    generate_self_subject_access_reviews (attributes "" "events" "" "" cluster)
      ("create" ∷ "patch" ∷ "update" ∷ [])
    ++ generate_self_subject_access_reviews (attributes "events.k8s.io" "events" "" "" cluster)
        ("create" ∷ "patch" ∷ "update" ∷ [])
    ++ generate_self_subject_access_reviews
        (attributes "work.open-cluster-management.io" "manifestworks" "" "" cluster)
        ("get" ∷ "list" ∷ "watch" ∷ "update" ∷ [])
    ++ generate_self_subject_access_reviews
        (attributes "work.open-cluster-management.io" "manifestworks" "status" "" cluster)
        ("patch" ∷ "update" ∷ [])

unfoldable pub get_hub_config_ssars : String → List ResourceAttributes
unfolding registration_ssars work_ssars
get_hub_config_ssars cluster = registration_ssars cluster ++ work_ssars cluster
