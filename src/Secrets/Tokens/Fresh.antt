-- ===== src/Secrets/Tokens/Fresh.antt =====
-- The tokens that the code requests.
use registration_operator.Common.{String, ℕ, ◌+◌, ◌≤◌, ◌≡◌, refl, ap, true, Result, ok, err}
use registration_operator.Secrets.Tokens.{
  Accounts, TokenRequest, requested, marshalled, requested_seconds, refresh_threshold,
  sa_token_creater, Library, valid_until,
}
use registration_operator.Secrets.Tokens.Laws.{lasts-enough}
use registration_operator.Secrets.Tokens.Settles.{IsFresh}

-- The tokens that the code requests are valid if the server grants at least the threshold, and times
-- are read as they were written.
pub sa_token_creater-IsFresh :
    {S : Type 0} (L : Library) (A : Accounts S) (name ns : String) (now : ℕ)
    → ((t : S) (r : TokenRequest)
        → (A.create_token t ns name requested_seconds).0 ≡ ok r
        → now + refresh_threshold ≤ r.expiration_timestamp)
    → ((end : ℕ) (text : String) → L.marshal_text end ≡ ok text → L.parse_time text ≡ ok end)
    → IsFresh L now (sa_token_creater L A name ns)
unfolding sa_token_creater requested marshalled valid_until
sa_token_creater-IsFresh {S = S} L A name ns now granted reads t token =
    go (A.create_token t ns name requested_seconds) refl
  where
    text_valid :
        (r : TokenRequest) (text : Result String)
        → now + refresh_threshold ≤ r.expiration_timestamp
        → L.marshal_text r.expiration_timestamp ≡ text
        → valid_until L now (marshalled L A name ns r.token text).expiration ≡ true
    text_valid r (err e) enough fn = refl
    text_valid r (ok text) enough fn =
        rw (reads r.expiration_timestamp text fn) (lasts-enough L now r.expiration_timestamp enough)

    go :
        (r : Result TokenRequest × S)
        → A.create_token t ns name requested_seconds ≡ r
        → (requested L A name ns r).0 ≡ ok token
        → valid_until L now token.expiration ≡ true
    go (err e, t') fn h = cc
    go (ok r, t') fn h =
        let same : token ≡ marshalled L A name ns r.token (L.marshal_text r.expiration_timestamp) =
          cc in
        rw same (
          text_valid r (L.marshal_text r.expiration_timestamp) (granted t r (ap (λ r. r.0) fn))
            refl)
