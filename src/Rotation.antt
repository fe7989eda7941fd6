-- ===== src/Rotation.antt =====
-- pkg/certrotation: the signing CA, the CA bundle and the serving certificates of the webhooks.
-- Times and durations are nanoseconds, as Go's; differences of more than 292 years, at which a
-- `time.Duration` saturates, are not modelled. What x509, library-go and the client do is a
-- `Library`; a lister's answer is an argument of each operation, and so is each reading of the clock.
pub mod Signer
pub mod Bundle
pub mod Target
pub mod Timing
pub mod Trust
pub mod Controller
pub mod CleanUp
mod Tests
use registration_operator.Common.{
  String, ℕ, ◌+◌, ◌-◌, ◌*◌, ◌/◌, Bool, Option, none, some, List, [], ◌∷◌, ◌==◌, string_eq,
  if◌then◌else◌, leb, ltb, Error, Result, ok, err,
}
use registration_operator.Common.Dict
use registration_operator.Common.Dict.{Dict}
use registration_operator.Common.Int.{ℤ}

-- The intervals of certrotation_controller.go, in nanoseconds.
abbrev pub minute : ℕ
minute = 60000000000

abbrev pub day : ℕ
day = 1440 * minute

abbrev pub signing_cert_validity : ℕ
signing_cert_validity = 365 * day

abbrev pub target_cert_validity : ℕ
target_cert_validity = 30 * day

abbrev pub resync_interval : ℕ
resync_interval = 10 * minute

pub record Certificate : Type 0 where
  pub raw : String
  pub not_before : ℕ
  pub not_after : ℕ
  pub issuer : String
  pub subject : String

-- A secret or a config map. A nil map of data is empty.
pub record Store : Type 0 where
  pub namespace : String
  pub name : String
  pub kind : String
  pub entries : Dict String

-- PEM texts of a certificate and its key.
pub record KeyPair : Type 0 where
  pub crt : String
  pub key : String

pub record Library : Type 1 where
  pub State : Type 0
  pub Ca : Type 0
  pub parse_certs_pem : String → Result (List Certificate)
  pub encode_certificates : List Certificate → Result String
  pub filter_expired_certs : List Certificate → List Certificate
  pub get_ca_from_bytes : String → String → Result Ca
  pub ca_certificate : Ca → Certificate
  pub make_self_signed_ca : String → ℕ → Result KeyPair
  pub make_server_cert : Ca → List String → ℤ → Result KeyPair
  pub apply_secret : State → Store → Result Store × State
  pub apply_config_map : State → Store → Result Store × State

-- The texts that `needNew…CertKeyPair` returns; the empty text is `none`.
pub data Reason : Type 0 where
  missing_crt bad_certificate missing_certificate already_expired expires_soon : Reason
  issuer_not_in_bundle : String → Reason

-- `secret.Data[key]`, empty if missing.
abbrev pub entry : String → Dict String → String
entry k d = text_of (Dict.lookup k d)
  where
    text_of : Option String → String
    text_of none = ""
    text_of (some t) = t

-- `NotAfter.Add(-(NotAfter.Sub(NotBefore) / 5))`; Go's division rounds towards zero.
unfoldable pub latest_time : Certificate → ℕ
latest_time c =
    if leb c.not_before c.not_after
    then c.not_after - (c.not_after - c.not_before) / 5
    else c.not_after + (c.not_before - c.not_after) / 5

-- The two tests of the clock, which is read twice.
unfoldable pub check_times : ℕ → ℕ → Certificate → Option Reason → Option Reason
unfolding latest_time
check_times now later c rest =
    if ltb c.not_after now
    then some already_expired
    else if ltb (latest_time c) later
    then some expires_soon
    else rest

-- The part that both `needNew…CertKeyPair` share; `rest` looks at the first certificate.
check_parsed : ℕ → ℕ → Result (List Certificate) → (Certificate → Option Reason) → Option Reason
unfolding check_times
check_parsed now later (err e) rest = some bad_certificate
check_parsed now later (ok []) rest = some missing_certificate
check_parsed now later (ok (c ∷ _)) rest = check_times now later c (rest c)

unfoldable pub check_secret :
    Library → ℕ → ℕ → Dict String → (Certificate → Option Reason) → Option Reason
unfolding check_parsed
check_secret L now later d rest =
    if entry "tls.crt" d == ""
    then some missing_crt
    else check_parsed now later (L.parse_certs_pem (entry "tls.crt" d)) rest
