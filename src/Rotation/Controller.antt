-- ===== src/Rotation/Controller.antt =====
-- pkg/operators/clustermanager/controllers/certrotationcontroller/certrotation_controller.go: one
-- sync. The lister's and the clock's answers are `Readings`; the rest of the client is a `Hub`.
use registration_operator.Common.{
  String, ◌<>◌, ℕ, if◌then◌else◌, ◌==◌, string_eq, Bool, true, false, Option, none, some, List, [],
  ◌∷◌, Error, failure, Result, ok, err, cons_error, Aggregate, is_not_found,
}
use registration_operator.Common.Dict
use registration_operator.Common.Dict.{Dict}
use registration_operator.Helpers.Klusterlets.{InstallMode, cluster_manager_namespace}
use registration_operator.Rotation.{
  Certificate, Store, Library, signing_cert_validity, target_cert_validity,
}
use registration_operator.Rotation.Signer.{SigningRotation, ensure_signing_cert_key_pair}
use registration_operator.Rotation.Bundle.{CaBundleRotation, ensure_config_map_ca_bundle}
use registration_operator.Rotation.Target.{TargetRotation, ensure_target_cert_key_pair}

abbrev pub signer_secret : String
signer_secret = "signer-secret"

abbrev pub ca_bundle_config_map : String
ca_bundle_config_map = "ca-bundle-configmap"

abbrev pub registration_webhook_secret : String
registration_webhook_secret = "registration-webhook-serving-cert"

abbrev pub work_webhook_secret : String
work_webhook_secret = "work-webhook-serving-cert"

pub record Rotations : Type 0 where
  pub signing_rotation : SigningRotation
  pub ca_bundle_rotation : CaBundleRotation
  pub target_rotations : List TargetRotation

-- The fields of a ClusterManager that the controller reads.
pub record Manager : Type 0 where
  pub name : String
  pub mode : InstallMode
  pub deleting : Bool

-- The answers of the listers and the readings of the clock during a sync of one manager. The
-- readings for a serving certificate are by its secret's name.
pub record Readings : Type 0 where
  pub now : String → ℕ
  pub later : String → ℕ
  pub clock : String → ℕ
  pub listed_secret : String → Result Store
  pub listed_config_map : Result Store

-- The client's calls that pkg/certrotation does not make.
pub record Hub (State : Type 0) : Type 0 where
  pub delete_secret : State → String → String → Option Error × State
  pub delete_config_map : State → String → String → Option Error × State
  pub get_namespace : State → String → Option Error

unfoldable pub new_rotations : String → Rotations
new_rotations ns = record {
  signing_rotation = record {
    namespace = ns;
    name = signer_secret;
    signer_name_prefix = "cluster-manager-webhook";
    validity = signing_cert_validity;
  };
  ca_bundle_rotation = record { namespace = ns; name = ca_bundle_config_map };
  target_rotations =
      record {
        namespace = ns;
        name = registration_webhook_secret;
        validity = target_cert_validity;
        host_names = ("cluster-manager-registration-webhook." <> (ns <> ".svc")) ∷ [];
      }
      ∷ record {
        namespace = ns;
        name = work_webhook_secret;
        validity = target_cert_validity;
        host_names = ("cluster-manager-work-webhook." <> (ns <> ".svc")) ∷ [];
      }
      ∷ [];
}

module _ (L : Library) (hub : Hub L.State) (A : Aggregate) where
  -- `if err != nil { return fmt.Errorf(…) }` after a delete, or what follows.
  unfoldable pub after_delete :
      String → Option Error × L.State → (L.State → Option Error × L.State) → Option Error × L.State
  after_delete what (some e, t) next = (some (failure what), t)
  after_delete what (none, t) next = next t

  -- The four deletes of `syncOne`.
  unfoldable pub delete_all : String → L.State → Option Error × L.State
  unfolding after_delete
  delete_all ns t =
      after_delete "deleting signer secret failed" (hub.delete_secret t ns signer_secret) λ t.
        after_delete "deleting caBundle config failed"
          (hub.delete_config_map t ns ca_bundle_config_map)
          λ t.
            after_delete "deleting registration webhook secret failed"
              (hub.delete_secret t ns registration_webhook_secret)
              λ t.
                after_delete "deleting work webhook secret failed"
                  (hub.delete_secret t ns work_webhook_secret) λ t. (none, t)

  -- `delete(c.rotationMap, clustermanagerName)`, after the deletes.
  unfoldable pub forget :
      String → Dict Rotations → Option Error × L.State → Option Error × (Dict Rotations × L.State)
  forget name rs (some e, t) = (some e, (rs, t))
  forget name rs (none, t) = (none, (Dict.erase name rs, t))

  unfoldable pub clean_up :
      String
      → String
      → Dict Rotations
      → L.State
      → Option Rotations
      → Option Error × (Dict Rotations × L.State)
  unfolding delete_all forget
  clean_up name ns rs t none = (none, (rs, t))
  clean_up name ns rs t (some _) = forget name rs (delete_all ns t)

  module _ (same : Dict String → Dict String → Bool) (r : Readings) where
    -- The loop over the serving certificates.
    unfoldable pub ensure_targets :
        L.Ca → List Certificate → L.State → List TargetRotation → List Error × L.State
    ensure_targets ca cas t [] = ([], t)
    ensure_targets ca cas t (c ∷ cs) =
        let (e, t') =
          ensure_target_cert_key_pair L c (r.now c.name) (r.later c.name) (r.clock c.name)
            (r.listed_secret c.name) ca cas t in
        let (es, t'') = ensure_targets ca cas t' cs in (cons_error e es, t'')

    with_bundle :
        List TargetRotation → L.Ca → Result (List Certificate) × L.State → Option Error × L.State
    unfolding ensure_targets
    with_bundle cs ca (err e, t) = (some e, t)
    with_bundle cs ca (ok cas, t) =
        let (es, t') = ensure_targets ca cas t cs in (A.new_aggregate es, t')

    with_signer : Rotations → Result L.Ca × L.State → Option Error × L.State
    unfolding with_bundle
    with_signer rot (err e, t) = (some e, t)
    with_signer rot (ok ca, t) =
        with_bundle rot.target_rotations ca
          (ensure_config_map_ca_bundle L rot.ca_bundle_rotation same r.listed_config_map t ca)

    -- From "Ensure certificates are exists" on.
    unfoldable pub ensure_certificates : Rotations → L.State → Option Error × L.State
    unfolding with_signer
    ensure_certificates rot t = with_signer rot (
        ensure_signing_cert_key_pair L rot.signing_rotation (r.now signer_secret)
          (r.later signer_secret) (r.clock signer_secret) (r.listed_secret signer_secret) t)

    -- The rotations of the manager, which the map keeps from the first sync on.
    unfoldable pub ensure_rotations :
        String
        → String
        → Dict Rotations
        → L.State
        → Option Rotations
        → Option Error × (Dict Rotations × L.State)
    unfolding ensure_certificates new_rotations
    ensure_rotations name ns rs t (some rot) =
        let (e, t') = ensure_certificates rot t in (e, (rs, t'))
    ensure_rotations name ns rs t none =
        let (e, t') = ensure_certificates (new_rotations ns) t in
        (e, (Dict.insert name (new_rotations ns) rs, t'))

    in_namespace :
        String
        → String
        → Dict Rotations
        → L.State
        → Option Error
        → Option Error × (Dict Rotations × L.State)
    unfolding ensure_rotations
    in_namespace name ns rs t (some e) =
        (some (if is_not_found e then failure "namespace does not exist yet" else e), (rs, t))
    in_namespace name ns rs t none = ensure_rotations name ns rs t (Dict.lookup name rs)

    unfoldable pub sync_mode :
        Bool
        → String
        → String
        → Dict Rotations
        → L.State
        → Option Error × (Dict Rotations × L.State)
    unfolding clean_up in_namespace
    sync_mode true name ns rs t = clean_up name ns rs t (Dict.lookup name rs)
    sync_mode false name ns rs t = in_namespace name ns rs t (hub.get_namespace t ns)

    unfoldable pub sync_one :
        Manager → Dict Rotations → L.State → Option Error × (Dict Rotations × L.State)
    unfolding sync_mode
    sync_one m rs t = sync_mode m.deleting m.name (cluster_manager_namespace m.name m.mode) rs t

  module _ (same : Dict String → Dict String → Bool) (readings : String → Readings) where
    unfoldable pub sync_each :
        List Manager → Dict Rotations → L.State → List Error × (Dict Rotations × L.State)
    unfolding sync_one
    sync_each [] rs t = ([], (rs, t))
    sync_each (m ∷ ms) rs t =
        let (e, (rs', t')) = sync_one same (readings m.name) m rs t in
        let (es, w) = sync_each ms rs' t' in (cons_error e es, w)

    sync_all :
        Result (List Manager) → Dict Rotations → L.State → Option Error × (Dict Rotations × L.State)
    unfolding sync_each
    sync_all (err e) rs t = (some e, (rs, t))
    sync_all (ok []) rs t = (none, (rs, t))
    sync_all (ok (m ∷ ms)) rs t = let (es, w) = sync_each (m ∷ ms) rs t in (A.new_aggregate es, w)

    -- A lister's `Get` finds the object or answers that it is not there.
    sync_named :
        Option Manager → Dict Rotations → L.State → Option Error × (Dict Rotations × L.State)
    unfolding sync_one
    sync_named none rs t = (some (failure "no clustermanager"), (rs, t))
    sync_named (some m) rs t = sync_one same (readings m.name) m rs t

    unfoldable pub sync :
        String
        → Result (List Manager)
        → (String → Option Manager)
        → Dict Rotations
        → L.State
        → Option Error × (Dict Rotations × L.State)
    unfolding sync_all sync_named
    sync key list get rs t =
        if key == ""
        then (none, (rs, t))
        else if key == "key"
        then sync_all list rs t
        else sync_named (get key) rs t
