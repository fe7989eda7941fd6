-- ===== src/Rotation/Bundle.antt =====
-- pkg/certrotation/cabundle.go
use registration_operator.Common.{
  String, Bool, false, ◌||◌, List, [], ◌∷◌, ◌++◌, ◌==◌, string_eq, if◌then◌else◌, failure, Result,
  ok, err, is_not_found,
}
use registration_operator.Common.Dict
use registration_operator.Common.Dict.{Dict}
use registration_operator.Rotation.{Certificate, Store, Library, entry}

pub record CaBundleRotation : Type 0 where
  pub namespace : String
  pub name : String

-- The inner loop: `found`.
unfoldable pub has_raw : List Certificate → String → Bool
has_raw [] raw = false
has_raw (c ∷ cs) raw = raw == c.raw || has_raw cs raw

-- The outer loop over the certificates, with `finalCertificates` so far.
unfoldable pub drop_duplicates : List Certificate → List Certificate → List Certificate
unfolding has_raw
drop_duplicates final [] = final
drop_duplicates final (c ∷ cs) =
    drop_duplicates (if has_raw final c.raw then final else final ++ (c ∷ [])) cs

module _ (L : Library) where
  -- An empty bundle is not parsed.
  unfoldable pub old_certificates : String → Result (List Certificate)
  old_certificates bundle = if bundle == "" then ok [] else L.parse_certs_pem bundle

  unfoldable pub final_certificates : Certificate → List Certificate → List Certificate
  unfolding drop_duplicates
  final_certificates signer old = drop_duplicates [] (L.filter_expired_certs (signer ∷ old))

  unfoldable pub encoded :
      Store → List Certificate → Result String → Result (List Certificate × Store)
  encoded s final (err e) = err e
  encoded s final (ok text) =
      ok (final, record s { entries = Dict.insert "ca-bundle.crt" text s.entries })

  unfoldable pub merged :
      Store → Certificate → Result (List Certificate) → Result (List Certificate × Store)
  unfolding encoded final_certificates
  merged s signer (err e) = err e
  merged s signer (ok old) =
      encoded s (final_certificates signer old)
        (L.encode_certificates (final_certificates signer old))

  unfoldable pub manage_ca_bundle_config_map :
      Store → Certificate → Result (List Certificate × Store)
  unfolding merged old_certificates
  manage_ca_bundle_config_map s signer =
      merged s signer (old_certificates (entry "ca-bundle.crt" s.entries))

  -- The certificates of the config map that the code ends with.
  read_bundle : Store → Result (List Certificate)
  read_bundle s =
      if entry "ca-bundle.crt" s.entries == ""
      then err (failure "missing ca-bundle.crt")
      else L.parse_certs_pem (entry "ca-bundle.crt" s.entries)

  written : Result Store × L.State → Result (List Certificate) × L.State
  unfolding read_bundle
  written (err e, t) = (err e, t)
  written (ok s, t) = (read_bundle s, t)

  -- `equality.Semantic.DeepEqual` of the two maps is a library call; a listed map of no entries is nil.
  write_if_changed :
      (Dict String → Dict String → Bool)
      → Result Store
      → L.State
      → Store
      → Result (List Certificate) × L.State
  unfolding written
  write_if_changed same (err e) t s = written (L.apply_config_map t s)
  write_if_changed same (ok original) t s =
      if same original.entries s.entries
      then (read_bundle s, t)
      else written (L.apply_config_map t s)

  managed :
      (Dict String → Dict String → Bool)
      → Result Store
      → L.State
      → Result (List Certificate × Store)
      → Result (List Certificate) × L.State
  unfolding write_if_changed
  managed same listed t (err e) = (err e, t)
  managed same listed t (ok (final, s)) = write_if_changed same listed t s

  -- The config map to start from: the listed one, or an empty one.
  base_config_map : CaBundleRotation → Result Store → Result Store
  base_config_map c (ok s) = ok s
  base_config_map c (err e) =
      if is_not_found e
      then ok (record { namespace = c.namespace; name = c.name; kind = ""; entries = [] })
      else err e

  ensure_based :
      (Dict String → Dict String → Bool)
      → Result Store
      → L.State
      → Certificate
      → Result Store
      → Result (List Certificate) × L.State
  unfolding managed manage_ca_bundle_config_map
  ensure_based same listed t signer (err e) = (err e, t)
  ensure_based same listed t signer (ok s) =
      managed same listed t (manage_ca_bundle_config_map s signer)

  unfoldable pub ensure_config_map_ca_bundle :
      CaBundleRotation
      → (Dict String → Dict String → Bool)
      → Result Store
      → L.State
      → L.Ca
      → Result (List Certificate) × L.State
  unfolding ensure_based base_config_map
  ensure_config_map_ca_bundle c same listed t ca =
      ensure_based same listed t (L.ca_certificate ca) (base_config_map c listed)
