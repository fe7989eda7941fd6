-- ===== src/Secrets/Tokens/Settles.antt =====
-- A synced kubeconfig secret is kept.
use registration_operator.Common.{
  String, ℕ, ◌≡◌, refl, ap, ◌∙◌, Bool, true, false, ◌&&◌, Option, none, some, Error, Result, ok,
  err, arith, if◌then◌else◌, is_not_found, error_of-eq-none, string_eq, ◌>>=◌,
}
use registration_operator.Common.Dict
use registration_operator.Secrets.{Secret, Client, IsLawful}
use registration_operator.Secrets.Tokens.{
  Library, Token, TokenGetter, RestConfig, Endpoint, Kubeconfig, valid_until, valid_at, token_valid,
  cluster_info_not_changed, same_cluster, same_loaded, same_endpoint, same_flag,
  assemble_cluster_config, kubeconfig_of, entries_of, contents_of, secret_of, apply_text,
  kubeconfig_text, apply_token, apply_kubeconfig_secret, sync_with, sync_kube_config_secret,
}

-- What was written can be read, and has the cluster that was written.
abbrev pub RoundTrips : Library → Type 0
RoundTrips L =
    (c : Kubeconfig) (text : String)
    → L.write c ≡ ok text
    → (k : Kubeconfig) × ((L.load text ≡ ok k)
        × (Dict.lookup "cluster" k.clusters ≡ Dict.lookup "cluster" c.clusters))

-- The getter's tokens are valid.
abbrev pub IsFresh : {S : Type 0} → Library → ℕ → TokenGetter S → Type 0
IsFresh {S = S} L now getter =
    (t : S) (token : Token) → (getter t).0 ≡ ok token → valid_until L now token.expiration ≡ true

lookup_kubeconfig :
    (L : Library) (text token : String) (end : Option String)
    → Dict.lookup "kubeconfig" (entries_of L text token end) ≡ some text
unfolding entries_of Dict.lookup string_eq
lookup_kubeconfig L text token none = refl
lookup_kubeconfig L text token (some end) = refl

lookup_token :
    (L : Library) (text token : String) (end : Option String)
    → Dict.lookup "token" (entries_of L text token end) ≡ some token
unfolding entries_of Dict.lookup string_eq
lookup_token L text token none = refl
lookup_token L text token (some end) = refl

lookup_expiration :
    (L : Library) (text token : String) (end : Option String)
    → Dict.lookup "expiration" (entries_of L text token end) ≡ end
unfolding entries_of Dict.lookup string_eq
lookup_expiration L text token none = refl
lookup_expiration L text token (some end) = refl

lookup_cluster :
    (L : Library) (path : String) (c : Endpoint)
    → Dict.lookup "cluster" (kubeconfig_of L path c).clusters ≡ some c
unfolding kubeconfig_of Dict.lookup string_eq
lookup_cluster L path c = refl

same_flag_refl : (L : Library) (b : Bool) → same_flag L b b ≡ true
same_flag_refl L true = refl
same_flag_refl L false = refl

same_endpoint_refl : (L : Library) (c : Endpoint) → same_endpoint L c (some c) ≡ true
unfolding same_endpoint
same_endpoint_refl L c = ground (arith, same_flag_refl L c.insecure_skip_tls_verify)

module _ (L : Library) (C : Client) (getter : TokenGetter C.State) (template : RestConfig)
    (name ns path : String) (now : ℕ) where
  abbrev IsUpToDate : C.State → Type 0
  IsUpToDate t =
      (s : Secret) × ((C.get t ns name ≡ ok s)
        × ((token_valid L now s ≡ true) × (cluster_info_not_changed L s template ≡ true)))

  up_to_date :
      (t : C.State)
      → IsUpToDate t
      → sync_kube_config_secret L C getter template name ns path now t ≡ (none, t)
  unfolding sync_kube_config_secret sync_with
  up_to_date t (s, (found, (valid, same))) = rw (found, valid, same) refl

  -- The text of the secret is a kubeconfig with the template's cluster.
  abbrev IsWritten : String → Type 0
  IsWritten text =
      (c : Endpoint) × ((assemble_cluster_config L template ≡ ok c)
        × (L.write (kubeconfig_of L path c) ≡ ok text))

  written :
      {text : String} → kubeconfig_text L C getter template name ns path ≡ ok text → IsWritten text
  unfolding kubeconfig_text
  written {text = x} h = go (assemble_cluster_config L template) refl h
    where
      go :
          (r : Result Endpoint)
          → assemble_cluster_config L template ≡ r
          → (r >>= λ c. L.write (kubeconfig_of L path c)) ≡ ok x
          → IsWritten x
      go (err e) fn h = cc
      go (ok c) fn h = (c, (fn, h))

  text_unchanged :
      (trip : RoundTrips L) (s : Secret) (text : String)
      → IsWritten text
      → Dict.lookup "kubeconfig" s.contents ≡ some text
      → cluster_info_not_changed L s template ≡ true
  unfolding cluster_info_not_changed same_cluster same_loaded
  text_unchanged trip s text (c, (assembled, wrote)) found =
      let (k, (loaded, same)) = trip (kubeconfig_of L path c) text wrote in
      rw (assembled, found, loaded, same ∙ lookup_cluster L path c) (same_endpoint_refl L c)

  stored_valid :
      (s : Secret) (text : String) (token : Token)
      → s.contents ≡ contents_of L text token
      → valid_until L now token.expiration ≡ true
      → token_valid L now s ≡ true
  unfolding token_valid valid_at contents_of
  stored_valid s text token e fresh =
      rw
        (
          e,
          lookup_token L text token.token token.expiration,
          lookup_expiration L text token.token token.expiration,
        )
        fresh

  applied_text :
      (law : IsLawful C) (trip : RoundTrips L) (t : C.State) (token : Token) (r : Result String)
      → valid_until L now token.expiration ≡ true
      → kubeconfig_text L C getter template name ns path ≡ r
      → (apply_text L C getter template name ns path t token r).0 ≡ none
      → IsUpToDate (apply_text L C getter template name ns path t token r).1
  unfolding apply_text contents_of
  applied_text law trip t token (err e) fresh fn h = cc
  applied_text law trip t token (ok text) fresh fn h =
      let sent = secret_of L C getter template name ns path (contents_of L text token) in
      let (r, fine) = error_of-eq-none (C.apply_secret t sent).0 h in
      let (s, (got, (same, _))) = law.get-apply_secret t sent fine in
      (
        s,
        (
          got,
          (
            stored_valid s text token same fresh,
            text_unchanged trip s text (written fn)
                (rw same (lookup_kubeconfig L text token.token token.expiration)),
          ),
        ),
      )

  synced-IsUpToDate :
      (law : IsLawful C) (trip : RoundTrips L) (fresh : IsFresh L now getter) (t : C.State)
      → (apply_kubeconfig_secret L C getter template name ns path t).0 ≡ none
      → IsUpToDate (apply_kubeconfig_secret L C getter template name ns path t).1
  unfolding apply_kubeconfig_secret apply_token
  synced-IsUpToDate law trip fresh t h = go (getter t) refl h
    where
      go :
          (r : Result Token × C.State)
          → getter t ≡ r
          → (apply_token L C getter template name ns path r).0 ≡ none
          → IsUpToDate (apply_token L C getter template name ns path r).1
      go (err e, t') fn h = cc
      go (ok token, t') fn h =
          applied_text law trip t' token (kubeconfig_text L C getter template name ns path)
            (fresh t token (ap (λ r. r.0) fn)) refl h

  chosen-IsUpToDate :
      (b : Bool) (x y : Option Error × C.State)
      → (b ≡ true → x.0 ≡ none → IsUpToDate x.1)
      → (y.0 ≡ none → IsUpToDate y.1)
      → (if b then x else y).0 ≡ none
      → IsUpToDate (if b then x else y).1
  chosen-IsUpToDate true x y f g h = f refl h
  chosen-IsUpToDate false x y f g h = g h

  sync_with-IsUpToDate :
      (law : IsLawful C) (trip : RoundTrips L) (fresh : IsFresh L now getter) (t : C.State)
      (r : Result Secret)
      → C.get t ns name ≡ r
      → (sync_with L C getter template name ns path now t r).0 ≡ none
      → IsUpToDate (sync_with L C getter template name ns path now t r).1
  unfolding sync_with
  sync_with-IsUpToDate law trip fresh t (err e) fn =
      chosen-IsUpToDate (is_not_found e)
        (apply_kubeconfig_secret L C getter template name ns path t) (some e, t)
        (λ _ h. synced-IsUpToDate law trip fresh t h) (λ h. cc)
  sync_with-IsUpToDate law trip fresh t (ok s) fn =
      chosen-IsUpToDate (token_valid L now s && cluster_info_not_changed L s template) (none, t)
        (apply_kubeconfig_secret L C getter template name ns path t)
        (λ both h. (s, (fn, both_true (token_valid L now s) _ both)))
        (λ h. synced-IsUpToDate law trip fresh t h)
    where
      both_true : (a b : Bool) → (a && b) ≡ true → (a ≡ true) × (b ≡ true)
      both_true true b h = (refl, h)
      both_true false b h = cc

  sync-IsUpToDate :
      (law : IsLawful C) (trip : RoundTrips L) (fresh : IsFresh L now getter) (t : C.State)
      → (sync_kube_config_secret L C getter template name ns path now t).0 ≡ none
      → IsUpToDate (sync_kube_config_secret L C getter template name ns path now t).1
  unfolding sync_kube_config_secret
  sync-IsUpToDate law trip fresh t = sync_with-IsUpToDate law trip fresh t (C.get t ns name) refl

  -- If the getter's tokens are still valid, a sync that reports no error leaves a secret that the next
  -- sync at the same time keeps: that one reports no error and changes nothing.
  pub sync_kube_config_secret_settles :
      (law : IsLawful C) (trip : RoundTrips L) (fresh : IsFresh L now getter) (t : C.State)
      → (sync_kube_config_secret L C getter template name ns path now t).0 ≡ none
      → sync_kube_config_secret L C getter template name ns path now
          (sync_kube_config_secret L C getter template name ns path now t).1
        ≡ (none, (sync_kube_config_secret L C getter template name ns path now t).1)
  sync_kube_config_secret_settles law trip fresh t h =
      up_to_date (sync_kube_config_secret L C getter template name ns path now t).1
        (sync-IsUpToDate law trip fresh t h)
