-- ===== src/Rotation/Trust.antt =====
-- The CA bundle: what `manageCABundleConfigMap` keeps.
use registration_operator.Common.{
  String, ℕ, ◌≡◌, refl, ◌∙◌, false, ◌||◌, List, [], ◌∷◌, ◌++◌, ◌==◌, string_eq, if◌then◌else◌, leb,
  Result, ok, err, arith,
}
use registration_operator.Common.Dict
use registration_operator.Common.Dict.{Dict}
use registration_operator.Rotation.{Certificate, Library, Store, entry}
use registration_operator.Rotation.Bundle.{
  has_raw, drop_duplicates, final_certificates, old_certificates, manage_ca_bundle_config_map,
  merged, encoded,
}

has_raw-append_one :
    (cs : List Certificate) (c : Certificate) (raw : String)
    → has_raw (cs ++ (c ∷ [])) raw ≡ (has_raw cs raw || raw == c.raw)
unfolding has_raw
has_raw-append_one [] c raw = ground arith
has_raw-append_one (x ∷ cs) c raw = ground (arith, has_raw-append_one cs c raw)

has_raw-drop_duplicates :
    (final cs : List Certificate) (raw : String)
    → has_raw (drop_duplicates final cs) raw ≡ (has_raw final raw || has_raw cs raw)
unfolding drop_duplicates has_raw
has_raw-drop_duplicates final [] raw = ground arith
has_raw-drop_duplicates final (c ∷ cs) raw =
    has_raw-drop_duplicates (if has_raw final c.raw then final else final ++ (c ∷ [])) cs raw
    ∙ ground (arith, has_raw-append_one final c raw)

abbrev pub IsDistinct : List Certificate → Type 0
IsDistinct [] = Unit
IsDistinct (c ∷ cs) = (has_raw cs c.raw ≡ false) × IsDistinct cs

append_one-IsDistinct :
    (cs : List Certificate) (c : Certificate)
    → has_raw cs c.raw ≡ false
    → IsDistinct cs
    → IsDistinct (cs ++ (c ∷ []))
unfolding has_raw
append_one-IsDistinct [] c away d = (refl, tt)
append_one-IsDistinct (x ∷ cs) c away (fresh, d) =
    ground (arith, append_one-IsDistinct cs c, has_raw-append_one cs c x.raw)

drop_duplicates-IsDistinct :
    (final cs : List Certificate) → IsDistinct final → IsDistinct (drop_duplicates final cs)
unfolding drop_duplicates
drop_duplicates-IsDistinct final [] d = d
drop_duplicates-IsDistinct final (c ∷ cs) d =
    drop_duplicates-IsDistinct (if has_raw final c.raw then final else final ++ (c ∷ [])) cs
      (ground (arith, append_one-IsDistinct final c))

-- The certificates that have not expired.
abbrev pub unexpired : ℕ → List Certificate → List Certificate
unexpired now [] = []
unexpired now (c ∷ cs) = if leb now c.not_after then c ∷ unexpired now cs else unexpired now cs

-- What `FilterExpiredCerts` is documented to do: it keeps the unexpired ones.
abbrev pub DropsExpired : Library → ℕ → Type 0
DropsExpired L now = (cs : List Certificate) → L.filter_expired_certs cs ≡ unexpired now cs

final_certificates_lem :
    (L : Library) (now : ℕ) (signer : Certificate) (old : List Certificate) (raw : String)
    → DropsExpired L now
    → (has_raw (final_certificates L signer old) raw ≡ has_raw (unexpired now (signer ∷ old)) raw)
      × IsDistinct (final_certificates L signer old)
unfolding final_certificates has_raw
final_certificates_lem L now signer old raw filters = rw (filters (signer ∷ old)) (
  has_raw-drop_duplicates [] (unexpired now (signer ∷ old)) raw,
  drop_duplicates-IsDistinct [] (unexpired now (signer ∷ old)) tt,
)

encoded_lem :
    (L : Library) (s : Store) (f final : List Certificate) (s' : Store) (r : Result String)
    → encoded L s f r ≡ ok (final, s')
    → (f ≡ final) × (r ≡ ok (entry "ca-bundle.crt" s'.entries))
unfolding encoded
encoded_lem L s f final s' (err e) h = ground arith
encoded_lem L s f final s' (ok text) h =
    ground (arith, Dict.lookup-insert "ca-bundle.crt" "ca-bundle.crt" text s.entries)

-- The new bundle, which is what the config map then holds, has the current signer and the old
-- certificates, each unless it has expired, and nothing else, and no certificate twice. The
-- hypotheses are that the old bundle can be read and that `FilterExpiredCerts` keeps the unexpired ones.
pub manage_ca_bundle_lem :
    (L : Library) (now : ℕ) (s : Store) (signer : Certificate) (raw : String)
    {old final : List Certificate} {s' : Store}
    → DropsExpired L now
    → old_certificates L (entry "ca-bundle.crt" s.entries) ≡ ok old
    → manage_ca_bundle_config_map L s signer ≡ ok (final, s')
    → (has_raw final raw ≡ has_raw (unexpired now (signer ∷ old)) raw)
      × (IsDistinct final × (L.encode_certificates final ≡ ok (entry "ca-bundle.crt" s'.entries)))
unfolding manage_ca_bundle_config_map merged
manage_ca_bundle_lem L now s signer raw {old} {final} {s'} filters parsed managed =
    let f = final_certificates L signer old in
    let (same, text) =
      encoded_lem L s f final s' (L.encode_certificates f) (rw (← managed, parsed) refl) in
    let (held, distinct) = final_certificates_lem L now signer old raw filters in
    rw (← same) (held, (distinct, text))
