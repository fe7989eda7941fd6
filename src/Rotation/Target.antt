-- ===== src/Rotation/Target.antt =====
-- pkg/certrotation/target.go
use registration_operator.Common.{
  String, ℕ, ◌+◌, ◌*◌, Option, none, some, List, [], ◌∷◌, ◌==◌, string_eq, if◌then◌else◌, leb,
  Error, failure, Result, ok, err, error_of,
}
use registration_operator.Common.Dict.{Dict}
use registration_operator.Common.Int.{ℤ, pos, sub_ℕ}
use registration_operator.Rotation.{
  Certificate, Store, KeyPair, Library, Reason, issuer_not_in_bundle, check_secret,
}
use registration_operator.Rotation.Signer.{base_secret, with_key_pair}

pub record TargetRotation : Type 0 where
  pub namespace : String
  pub name : String
  pub validity : ℕ
  pub host_names : List String

-- The loop over the bundle.
unfoldable pub issuer_check : Certificate → List Certificate → Option Reason
issuer_check c [] = some (issuer_not_in_bundle c.issuer)
issuer_check c (ca ∷ cas) = if c.issuer == ca.subject then none else issuer_check c cas

unfoldable pub need_new_target_cert_key_pair :
    Library → ℕ → ℕ → Dict String → List Certificate → Option Reason
unfolding check_secret issuer_check
need_new_target_cert_key_pair L now later d cas =
    check_secret L now later d (λ c. issuer_check c cas)

abbrev pub second : ℕ
second = 1000000000

-- The lifetime to ask for: not past the signer's, with two seconds to spare.
unfoldable pub target_validity : ℕ → Certificate → ℕ → ℤ
target_validity validity signer now =
    if leb (validity + (now + 2 * second)) signer.not_after
    then pos validity
    else sub_ℕ signer.not_after (now + 2 * second)

module _ (L : Library) (c : TargetRotation) where
  unfoldable pub new_certificate : List String → L.Ca → ℤ → Result KeyPair
  new_certificate [] ca d = err (failure "no hostnames set")
  new_certificate (h ∷ hs) ca d = L.make_server_cert ca (h ∷ hs) d

  renewed : Store → L.State → Result KeyPair → Option Error × L.State
  unfolding with_key_pair
  renewed s t (err e) = (some e, t)
  renewed s t (ok p) = let (r, t') = L.apply_secret t (with_key_pair s p) in (error_of r, t')

  -- `setTargetCertKeyPairSecret` and the write; `clock` is its reading of the clock.
  renew_target : ℕ → L.Ca → L.State → Store → Option Reason → Option Error × L.State
  unfolding renewed new_certificate target_validity
  renew_target clock ca t s none = (none, t)
  renew_target clock ca t s (some reason) =
      renewed s t
        (new_certificate c.host_names ca (target_validity c.validity (L.ca_certificate ca) clock))

  ensure_based :
      ℕ → ℕ → ℕ → L.Ca → List Certificate → L.State → Result Store → Option Error × L.State
  unfolding renew_target need_new_target_cert_key_pair
  ensure_based now later clock ca cas t (err e) = (some e, t)
  ensure_based now later clock ca cas t (ok s) =
      renew_target clock ca t s (need_new_target_cert_key_pair L now later s.entries cas)

  unfoldable pub ensure_target_cert_key_pair :
      ℕ → ℕ → ℕ → Result Store → L.Ca → List Certificate → L.State → Option Error × L.State
  unfolding ensure_based base_secret
  ensure_target_cert_key_pair now later clock listed ca cas t =
      ensure_based now later clock ca cas t (base_secret c.namespace c.name listed)
