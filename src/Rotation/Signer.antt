-- ===== src/Rotation/Signer.antt =====
-- pkg/certrotation/signer.go
use registration_operator.Common.{
  String, ◌<>◌, ℕ, ◌/◌, Option, none, some, [], string_eq, if◌then◌else◌, Result, ok, err,
  is_not_found,
}
use registration_operator.Common.Decimal.{decimal}
use registration_operator.Common.Dict
use registration_operator.Common.Dict.{Dict}
use registration_operator.Rotation.{Store, KeyPair, Library, Reason, entry, check_secret}

pub record SigningRotation : Type 0 where
  pub namespace : String
  pub name : String
  pub signer_name_prefix : String
  pub validity : ℕ

unfoldable pub need_new_signing_cert_key_pair : Library → ℕ → ℕ → Dict String → Option Reason
unfolding check_secret
need_new_signing_cert_key_pair L now later d = check_secret L now later d (λ _. none)

-- The secret to start from: the listed one, or an empty one.
unfoldable pub base_secret : String → String → Result Store → Result Store
base_secret ns name (ok s) = ok (record s { kind = "kubernetes.io/tls" })
base_secret ns name (err e) =
    if is_not_found e
    then ok (record { namespace = ns; name = name; kind = "kubernetes.io/tls"; entries = [] })
    else err e

unfoldable pub with_key_pair : Store → KeyPair → Store
with_key_pair s p = record s {
  entries = Dict.insert "tls.key" p.key (Dict.insert "tls.crt" p.crt s.entries);
}

module _ (L : Library) (c : SigningRotation) where
  read_ca : Store → Result L.Ca
  read_ca s = L.get_ca_from_bytes (entry "tls.crt" s.entries) (entry "tls.key" s.entries)

  applied : Result Store × L.State → Result L.Ca × L.State
  unfolding read_ca
  applied (err e, t) = (err e, t)
  applied (ok s, t) = (read_ca s, t)

  -- `fmt.Sprintf("%s@%d", prefix, time.Now().Unix())`
  signer_name : ℕ → String
  signer_name clock = c.signer_name_prefix <> ("@" <> decimal (clock / 1000000000))

  -- `setSigningCertKeyPairSecret` and the write.
  renew_signer : Store → L.State → Result KeyPair → Result L.Ca × L.State
  unfolding applied with_key_pair
  renew_signer s t (err e) = (err e, t)
  renew_signer s t (ok p) = applied (L.apply_secret t (with_key_pair s p))

  ensure_from : ℕ → L.State → Store → Option Reason → Result L.Ca × L.State
  unfolding renew_signer read_ca signer_name
  ensure_from clock t s none = (read_ca s, t)
  ensure_from clock t s (some reason) =
      renew_signer s t (L.make_self_signed_ca (signer_name clock) c.validity)

  ensure_based : ℕ → ℕ → ℕ → L.State → Result Store → Result L.Ca × L.State
  unfolding ensure_from need_new_signing_cert_key_pair
  ensure_based now later clock t (err e) = (err e, t)
  ensure_based now later clock t (ok s) =
      ensure_from clock t s (need_new_signing_cert_key_pair L now later s.entries)

  unfoldable pub ensure_signing_cert_key_pair :
      ℕ → ℕ → ℕ → Result Store → L.State → Result L.Ca × L.State
  unfolding ensure_based base_secret
  ensure_signing_cert_key_pair now later clock listed t =
      ensure_based now later clock t (base_secret c.namespace c.name listed)
