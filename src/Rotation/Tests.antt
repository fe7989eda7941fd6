-- ===== src/Rotation/Tests.antt =====
-- The rotation at concrete certificates, with a small library: a PEM text stands for a fixed list.
use registration_operator.Common.{
  ap, ◌&&◌, Bool, true, false, Error, not_found, Option, Aggregate, ◌≡◌, refl, ◌≤◌, String, none,
  some, List, [], ◌∷◌, ◌*◌, if◌then◌else◌, ◌==◌, arith, Result, ok, err, failure, string_eq,
}
use mathlib.Core.List.{Memᴰ}
use registration_operator.Common.Dict
use registration_operator.Common.Int.{pos}
use registration_operator.Rotation.{
  Certificate, Library, Store, already_expired, expires_soon, check_secret, check_times,
  latest_time, day, target_cert_validity, signing_cert_validity,
}
use registration_operator.Rotation.Bundle.{
  has_raw, drop_duplicates, final_certificates, old_certificates, manage_ca_bundle_config_map,
  merged, encoded,
}
use registration_operator.Rotation.Signer.{need_new_signing_cert_key_pair}
use registration_operator.Rotation.Target.{
  need_new_target_cert_key_pair, issuer_check, target_validity,
}
use registration_operator.Rotation.Timing.{kept_target_serves, kept_signer_suffices}
use registration_operator.Common.Dict.{Dict}
use registration_operator.Helpers.Klusterlets.{hosted_mode, cluster_manager_namespace}
use registration_operator.Rotation.Controller.{
  Hub, Rotations, Manager, Readings, new_rotations, sync_one, sync_mode, clean_up, forget,
  delete_all, after_delete, signer_secret,
}
use registration_operator.Rotation.CleanUp.{IsLawful, Gone, sync_one-Gone, sync_one_stuck}
use registration_operator.Rotation.Trust.{unexpired, manage_ca_bundle_lem, IsDistinct}

abbrev signer : Certificate
signer = record {
  raw = "new";
  not_before = 0;
  not_after = signing_cert_validity;
  issuer = "ca";
  subject = "ca";
}

abbrev expired : Certificate
expired = record signer { raw = "expired"; not_after = day }

abbrev served : Certificate
served = record {
  raw = "leaf";
  not_before = 0;
  not_after = target_cert_validity;
  issuer = "ca";
  subject = "webhook";
}

abbrev parse : String → Result (List Certificate)
parse text =
    if text == "bundle"
    then ok (expired ∷ signer ∷ [])
    else if text == "leaf"
    then ok (served ∷ [])
    else if text == "ca"
    then ok (signer ∷ [])
    else err (failure "not PEM")

-- The secrets and the config maps that are there.
abbrev Shelf : Type 0
Shelf = (String → String → Bool) × (String → String → Bool)

abbrev without : (String → String → Bool) → String → String → String → String → Bool
without f ns n ms m = if ms == ns && m == n then false else f ms m

abbrev take_secret : Bool → Shelf → String → String → Option Error × Shelf
take_secret true (f, g) ns n = (none, (without f ns n, g))
take_secret false t ns n = (some (not_found n), t)

abbrev take_config_map : Bool → Shelf → String → String → Option Error × Shelf
take_config_map true (f, g) ns n = (none, (f, without g ns n))
take_config_map false t ns n = (some (not_found n), t)

abbrev shelf : Hub Shelf
shelf = record {
  delete_secret = λ t ns n. take_secret (t.0 ns n) t ns n;
  delete_config_map = λ t ns n. take_config_map (t.1 ns n) t ns n;
  get_namespace = λ _ _. none;
}

take_secret_err :
    (b : Bool) (t : Shelf) (ns n : String) {e : Error}
    → (take_secret b t ns n).0 ≡ some e
    → (take_secret b t ns n).1 ≡ t
take_secret_err true t ns n h = cc
take_secret_err false t ns n h = refl

take_secret-none :
    (b : Bool) (t : Shelf) (ns n : String)
    → (take_secret b t ns n).0 ≡ none
    → (take_secret b t ns n).1 ≡ (without t.0 ns n, t.1)
take_secret-none true (f, g) ns n h = refl
take_secret-none false t ns n h = cc

take_config_map-none :
    (b : Bool) (t : Shelf) (ns n : String)
    → (take_config_map b t ns n).0 ≡ none
    → (take_config_map b t ns n).1 ≡ (t.0, without t.1 ns n)
take_config_map-none true (f, g) ns n h = refl
take_config_map-none false t ns n h = cc

shelf-IsLawful : IsLawful shelf
shelf-IsLawful = record {
  has_secret = λ t. t.0;
  has_config_map = λ t. t.1;
  delete_secret_err = λ t ns n h. take_secret_err (t.0 ns n) t ns n h;
  delete_secret_absent = λ t ns n h. (not_found n, rw h refl);
  has_secret-delete_secret =
      λ t ns n ms m h. ap (λ u. u.0 ms m) (take_secret-none (t.0 ns n) t ns n h);
  has_config_map-delete_secret =
      λ t ns n ms m h. ap (λ u. u.1 ms m) (take_secret-none (t.0 ns n) t ns n h);
  has_config_map-delete_config_map =
      λ t ns n ms m h. ap (λ u. u.1 ms m) (take_config_map-none (t.1 ns n) t ns n h);
  has_secret-delete_config_map =
      λ t ns n ms m h. ap (λ u. u.0 ms m) (take_config_map-none (t.1 ns n) t ns n h);
}

abbrev small : Library
small = record {
  State = Shelf;
  Ca = Unit;
  parse_certs_pem = parse;
  encode_certificates = λ _. ok "encoded";
  filter_expired_certs = unexpired (2 * day);
  get_ca_from_bytes = λ _ _. ok tt;
  ca_certificate = λ _. signer;
  make_self_signed_ca = λ _ _. err (failure "no key");
  make_server_cert = λ _ _ _. err (failure "no key");
  apply_secret = λ t s. (ok s, t);
  apply_config_map = λ t s. (ok s, t);
}

abbrev bundle : Store
bundle = record {
  namespace = "hub";
  name = "ca-bundle-configmap";
  kind = "";
  entries = ("ca-bundle.crt", "bundle") ∷ [];
}

kept_target_serves_example :
    (3 * day ≤ target_cert_validity)
    × ((ca : Certificate) × (Memᴰ ca (signer ∷ []) × (ca.subject ≡ served.issuer)))
unfolding need_new_target_cert_key_pair check_secret check_times latest_time issuer_check string_eq
    Dict.lookup
kept_target_serves_example =
    kept_target_serves small (3 * day) (3 * day) (("tls.crt", "leaf") ∷ []) served [] (signer ∷ [])
      (3 * day) refl refl (omega arith) (omega arith)

renewed_in_last_fifth :
    need_new_target_cert_key_pair small
      (25 * day)
      (25 * day)
      (("tls.crt", "leaf") ∷ [])
      (signer ∷ [])
    ≡ some expires_soon
unfolding need_new_target_cert_key_pair check_secret check_times latest_time issuer_check string_eq
    Dict.lookup
renewed_in_last_fifth = refl

renewed_when_expired :
    need_new_target_cert_key_pair small
      (31 * day)
      (31 * day)
      (("tls.crt", "leaf") ∷ [])
      (signer ∷ [])
    ≡ some already_expired
unfolding need_new_target_cert_key_pair check_secret check_times latest_time issuer_check string_eq
    Dict.lookup
renewed_when_expired = refl

kept_signer_suffices_example :
    target_validity target_cert_validity signer (4 * day) ≡ pos target_cert_validity
unfolding need_new_signing_cert_key_pair check_secret check_times latest_time string_eq Dict.lookup
kept_signer_suffices_example =
    kept_signer_suffices small (4 * day) (4 * day) (("tls.crt", "ca") ∷ []) signer [] (4 * day) refl
      refl (omega arith) (omega arith)

manage_ca_bundle_lem_example :
    (has_raw (signer ∷ []) "expired"
      ≡ has_raw (unexpired (2 * day) (signer ∷ expired ∷ signer ∷ [])) "expired")
    × (IsDistinct (signer ∷ []) × (small.encode_certificates (signer ∷ []) ≡ ok "encoded"))
unfolding manage_ca_bundle_config_map merged encoded old_certificates final_certificates
    drop_duplicates has_raw string_eq Dict.lookup Dict.insert
manage_ca_bundle_lem_example =
    manage_ca_bundle_lem small (2 * day) bundle signer "expired" (λ _. refl) refl refl

abbrev first_error : Aggregate
first_error = record {
  new_aggregate = λ es. elim es [ [] ↦ none | e ∷ _ ↦ some e ];
  new_aggregate-nil = refl;
  new_aggregate-cons = λ e es. (e, refl);
}

abbrev readings : Readings
readings = record {
  now = λ _. 0;
  later = λ _. 0;
  clock = λ _. 0;
  listed_secret = λ n. err (not_found n);
  listed_config_map = err (not_found "ca-bundle-configmap");
}

abbrev dying : Manager
dying = record { name = "hub"; mode = hosted_mode; deleting = true }

abbrev known : Dict Rotations
known = ("hub", new_rotations "hub") ∷ []

abbrev full : Shelf
full = (λ _ _. true, λ _ _. true)

abbrev half : Shelf
half = (without (λ _ _. true) "hub" signer_secret, λ _ _. true)

sync_one-Gone_example :
    Gone small shelf shelf-IsLawful first_error "hub"
      (sync_one small shelf first_error (λ _ _. true) readings dying known full).1.1
    × (Dict.lookup "hub"
          (sync_one small shelf first_error (λ _ _. true) readings dying known full).1.0
        ≡ none)
unfolding sync_one sync_mode clean_up forget delete_all after_delete string_eq Dict.lookup
    cluster_manager_namespace
sync_one-Gone_example =
    sync_one-Gone small shelf shelf-IsLawful first_error (λ _ _. true) readings dying known full
      refl refl refl

sync_one_stuck_example :
    sync_one small shelf first_error (λ _ _. true) readings dying known half
    ≡ (some (failure "deleting signer secret failed"), (known, half))
unfolding string_eq Dict.lookup cluster_manager_namespace shelf-IsLawful
sync_one_stuck_example =
    sync_one_stuck small shelf shelf-IsLawful first_error (λ _ _. true) readings dying known half
      refl refl refl
