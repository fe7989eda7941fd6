-- ===== src/Secrets/Tokens/Laws.antt =====
-- When a token is kept.
use registration_operator.Common.{
  String, ℕ, ◌+◌, ◌≤◌, ◌≡◌, ◌↔◌, refl, true, Option, none, some, Result, ok, err, arith,
}
use registration_operator.Common.Dict
use registration_operator.Secrets.{Secret}
use registration_operator.Secrets.Tokens.{Library, refresh_threshold, lasts, valid_at, token_valid}

module _ (L : Library) where
  -- A secret without an end is kept, and one with an end if it is at least the threshold ahead.
  abbrev pub Lasts : ℕ → Option String → Type 0
  Lasts now none = Unit
  Lasts now (some text) =
      (end : ℕ) × ((L.parse_time text ≡ ok end) × (now + refresh_threshold ≤ end))

  lasts-true : (now end : ℕ) → lasts L now (ok end) ≡ true → now + refresh_threshold ≤ end
  unfolding lasts
  lasts-true now end h = ground arith

  pub lasts-enough : (now end : ℕ) → now + refresh_threshold ≤ end → lasts L now (ok end) ≡ true
  unfolding lasts
  lasts-enough now end h = ground arith

  parsed-Lasts :
      (now : ℕ) (r : Result ℕ)
      → (lasts L now r ≡ true) ↔ ((end : ℕ) × ((r ≡ ok end) × (now + refresh_threshold ≤ end)))
  unfolding lasts
  parsed-Lasts now (err e) = ((λ h. cc), λ (end, (fn, h)). cc)
  parsed-Lasts now (ok end) = (
    (λ h. (end, (refl, lasts-true now end h))),
    λ (x, (e, h)). let same : end ≡ x = cc in rw same (lasts-enough now x h),
  )

  -- A token is kept exactly if the secret has one, and it has no end or its end can be read and is no
  -- less than 1728 hours ahead.
  pub token_valid_iff :
      (now : ℕ) (s : Secret)
      → (token_valid L now s ≡ true) ↔ (
          ((token : String) × (Dict.lookup "token" s.contents ≡ some token))
          × Lasts now (Dict.lookup "expiration" s.contents))
  unfolding token_valid
  token_valid_iff now s = go (Dict.lookup "token" s.contents) (Dict.lookup "expiration" s.contents)
    where
      go :
          (token expiration : Option String)
          → (valid_at L now token expiration ≡ true)
            ↔ (((t : String) × (token ≡ some t)) × Lasts now expiration)
      go none expiration = ((λ h. cc), λ ((t, e), h). cc)
      go (some t) none = ((λ h. ((t, refl), tt)), λ h. refl)
      go (some t) (some text) =
          let (f, g) = parsed-Lasts now (L.parse_time text) in
          ((λ h. ((t, refl), f h)), λ (e, h). g h)
