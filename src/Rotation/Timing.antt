-- ===== src/Rotation/Timing.antt =====
-- The clock: when certificates are renewed and how long they last.
use registration_operator.Common.{
  String, ℕ, ◌+◌, ◌-◌, ◌*◌, ◌/◌, ◌≤◌, ◌≡◌, refl, Bool, true, false, Option, none, some, List, ◌∷◌,
  ◌==◌, string_eq, if◌then◌else◌, ok, arith, Bool-cases, ◌⊎◌, inl, inr, [],
}
use mathlib.Core.List.{Memᴰ}
use registration_operator.Common.Dict.{Dict}
use registration_operator.Common.Int.{pos, plus_duration}
use registration_operator.Rotation.{
  Certificate, Library, Reason, missing_crt, entry, latest_time, check_times, check_parsed,
  check_secret, signing_cert_validity, target_cert_validity, resync_interval,
}
use registration_operator.Rotation.Signer.{need_new_signing_cert_key_pair}
use registration_operator.Rotation.Target.{
  need_new_target_cert_key_pair, issuer_check, target_validity, second,
}

-- A certificate that passes both tests has a fifth of its lifetime left.
check_times_left :
    (now later : ℕ) (c : Certificate) (rest : Option Reason)
    → check_times now later c rest ≡ none
    → c.not_before ≤ c.not_after
    → (later + (c.not_after - c.not_before) / 5 ≤ c.not_after) × (rest ≡ none)
unfolding check_times latest_time
check_times_left now later c rest kept h = ground arith

issuer_check-found :
    (c : Certificate) (cas : List Certificate)
    → issuer_check c cas ≡ none
    → (ca : Certificate) × (Memᴰ ca cas × (ca.subject ≡ c.issuer))
unfolding issuer_check
issuer_check-found c [] h = cc
issuer_check-found c (ca ∷ cas) h =
    go (Bool-cases (c.issuer == ca.subject)) (issuer_check-found c cas)
  where
    go :
        ((c.issuer == ca.subject) ≡ true) ⊎ ((c.issuer == ca.subject) ≡ false)
        → (issuer_check c cas ≡ none → (a : Certificate) × (Memᴰ a cas × (a.subject ≡ c.issuer)))
        → (a : Certificate) × (Memᴰ a (ca ∷ cas) × (a.subject ≡ c.issuer))
    go (inl same) rest = (ca, (Memᴰ.head refl, ground arith))
    go (inr other) rest = let (a, (m, e)) = rest (rw (other) at h) in (a, (Memᴰ.tail m, e))

module _ (L : Library) (now later : ℕ) (d : Dict String) (c : Certificate)
    (cs : List Certificate) where
  check_secret_left :
      (rest : Certificate → Option Reason)
      → L.parse_certs_pem (entry "tls.crt" d) ≡ ok (c ∷ cs)
      → check_secret L now later d rest ≡ none
      → check_times now later c (rest c) ≡ none
  unfolding check_secret check_parsed
  check_secret_left rest parsed kept = go (entry "tls.crt" d == "") kept
    where
      go :
          (missing : Bool)
          → (if missing
              then some missing_crt
              else check_parsed now later (L.parse_certs_pem (entry "tls.crt" d)) rest)
            ≡ none
          → check_times now later c (rest c) ≡ none
      go true h = ground arith
      go false h = rw (← h, parsed) refl

  -- A serving certificate that is not renewed is valid until well after the next resync, and its
  -- issuer is the subject of a certificate of the bundle, if it was issued for the validity of the controller.
  pub kept_target_serves :
      (cas : List Certificate) (t : ℕ)
      → L.parse_certs_pem (entry "tls.crt" d) ≡ ok (c ∷ cs)
      → need_new_target_cert_key_pair L now later d cas ≡ none
      → c.not_before + target_cert_validity ≤ c.not_after
      → t ≤ later + 2 * resync_interval
      → (t ≤ c.not_after) × ((ca : Certificate) × (Memᴰ ca cas × (ca.subject ≡ c.issuer)))
  unfolding need_new_target_cert_key_pair
  kept_target_serves cas t parsed kept long h =
      let (left, trusted) =
        check_times_left now later c (issuer_check c cas)
          (check_secret_left (λ x. issuer_check x cas) parsed kept) (omega arith) in
      (omega arith, issuer_check-found c cas trusted)

  -- While the signer is not renewed, a serving certificate signed by it gets its full validity: the
  -- controller reads the clock for it before the next resync.
  pub kept_signer_suffices :
      (clock : ℕ)
      → L.parse_certs_pem (entry "tls.crt" d) ≡ ok (c ∷ cs)
      → need_new_signing_cert_key_pair L now later d ≡ none
      → c.not_before + signing_cert_validity ≤ c.not_after
      → clock ≤ later + resync_interval
      → target_validity target_cert_validity c clock ≡ pos target_cert_validity
  unfolding need_new_signing_cert_key_pair target_validity
  kept_signer_suffices clock parsed kept long h =
      let (left, _) =
        check_times_left now later c none (check_secret_left (λ _. none) parsed kept)
          (omega arith) in
      ground arith

-- A serving certificate does not outlive its signer, if it is made within two seconds of the
-- reading of the clock by which its lifetime was chosen.
pub target_validity-le-signer :
    (validity clock at : ℕ) (signer : Certificate)
    → at ≤ clock + 2 * second
    → plus_duration at (target_validity validity signer clock) ≤ signer.not_after
unfolding target_validity
target_validity-le-signer validity clock at signer h = ground arith
