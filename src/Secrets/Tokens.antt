-- ===== src/Secrets/Tokens.antt =====
-- pkg/helpers/sa_syncer.go: the kubeconfig secret of a service account, with a token that is renewed
-- before it ends. Times are nanoseconds; a `time.Duration` that saturates is on the same side of the
-- threshold as the true difference.
pub mod Laws
pub mod Fresh
pub mod Settles
mod Tests
use registration_operator.Common.{
  String, ℕ, Bool, true, false, ◌&&◌, not, ltb, Option, none, some, List, [], ◌∷◌, Error, Result,
  ok, err, error_of, is_not_found, ◌>>=◌, if◌then◌else◌, ◌==◌, string_eq,
}
use registration_operator.Common.Dict
use registration_operator.Common.Dict.{Dict}
use registration_operator.Common.Int.{ℤ, pos, negsuc, sub_ℕ}
use registration_operator.Secrets.{
  Secret, SecretType, opaque, service_account_token, other_secret_type, Client,
}

-- 8640 hours, in seconds.
abbrev pub requested_seconds : ℕ
requested_seconds = 31_104_000

-- A fifth of 8640 hours, in nanoseconds.
abbrev pub refresh_threshold : ℕ
refresh_threshold = 6_220_800_000_000_000

-- What a getter gives: a token, and the text of its end unless it has none.
pub record Token : Type 0 where
  pub token : String
  pub expiration : Option String

-- The answer of a token request.
pub record TokenRequest : Type 0 where
  pub token : String
  pub expiration_timestamp : ℕ

pub record Endpoint : Type 0 where
  pub server : String
  pub certificate_authority_data : String
  pub insecure_skip_tls_verify : Bool

-- `rest.Config`
pub record RestConfig : Type 0 where
  pub host : String
  pub ca_data : String
  pub ca_file : String

pub record Context : Type 0 where
  pub cluster : String
  pub auth_info : String

-- `clientcmdapi.Config`; a user is the file of its token.
pub record Kubeconfig : Type 0 where
  pub kind : String
  pub api_version : String
  pub clusters : Dict Endpoint
  pub contexts : Dict Context
  pub auth_infos : Dict String
  pub current_context : String

pub record Library : Type 0 where
  -- `time.Parse(time.RFC3339, text)` and `MarshalText` of a time.
  pub parse_time : String → Result ℕ
  pub marshal_text : ℕ → Result String
  pub write : Kubeconfig → Result String
  pub load : String → Result Kubeconfig
  pub read_file : String → Result String
  -- `filepath.Join(filepath.Dir(path), "token")`
  pub token_file : String → String

-- The service accounts of a cluster, over the states `S` of its clients.
pub record Accounts (S : Type 0) : Type 0 where
  -- The names of a service account's secrets.
  pub get_secrets : S → String → String → Result (List String)
  pub get_secret : S → String → String → Result Secret
  pub create_token : S → String → String → ℕ → Result TokenRequest × S

abbrev pub TokenGetter : Type 0 → Type 0
TokenGetter S = S → Result Token × S

abbrev pub is_token_type : SecretType → Bool
is_token_type opaque = false
is_token_type service_account_token = true
is_token_type (other_secret_type n) = false

module _ (L : Library) where
  module _ {S : Type 0} (A : Accounts S) (name ns : String) where
    -- A text that cannot be made is no error: the code returns no token and no end then.
    unfoldable pub marshalled : String → Result String → Token
    marshalled token (ok text) = record { token = token; expiration = some text }
    marshalled token (err e) = record { token = ""; expiration = none }

    unfoldable pub requested : Result TokenRequest × S → Result Token × S
    unfolding marshalled
    requested (err e, t) = (err e, t)
    requested (ok r, t) = (ok (marshalled r.token (L.marshal_text r.expiration_timestamp)), t)

    unfoldable pub sa_token_creater : TokenGetter S
    unfolding requested
    sa_token_creater t = requested (A.create_token t ns name requested_seconds)

    -- One round of the loop; `rest` is what the later rounds give.
    token_of : Secret → Option String → Result (Option String) → Result (Option String)
    token_of s none rest = rest
    token_of s (some token) rest = if is_token_type s.secret_type then ok (some token) else rest

    looked_at : Result Secret → Result (Option String) → Result (Option String)
    unfolding token_of
    looked_at (err e) rest = err e
    looked_at (ok s) rest = token_of s (Dict.lookup "token" s.contents) rest

    unfoldable pub token_of_secrets : S → List String → Result (Option String)
    unfolding looked_at
    token_of_secrets t [] = ok none
    token_of_secrets t (secret ∷ secrets) =
        looked_at (A.get_secret t ns secret) (token_of_secrets t secrets)

    or_requested : S → Result (Option String) → Result Token × S
    unfolding sa_token_creater
    or_requested t (err e) = (err e, t)
    or_requested t (ok none) = sa_token_creater t
    or_requested t (ok (some token)) = (ok (record { token = token; expiration = none }), t)

    unfoldable pub sa_token_getter : TokenGetter S
    unfolding or_requested token_of_secrets
    sa_token_getter t = or_requested t (A.get_secrets t ns name >>= token_of_secrets t)

  abbrev below : ℤ → ℕ → Bool
  below (pos d) n = ltb d n
  below (negsuc d) n = true

  unfoldable pub lasts : ℕ → Result ℕ → Bool
  lasts now (err e) = false
  lasts now (ok end) = not (below (sub_ℕ end now) refresh_threshold)

  unfoldable pub valid_until : ℕ → Option String → Bool
  unfolding lasts
  valid_until now none = true
  valid_until now (some text) = lasts now (L.parse_time text)

  unfoldable pub valid_at : ℕ → Option String → Option String → Bool
  unfolding valid_until
  valid_at now none expiration = false
  valid_at now (some token) expiration = valid_until now expiration

  unfoldable pub token_valid : ℕ → Secret → Bool
  unfolding valid_at
  token_valid now s =
      valid_at now (Dict.lookup "token" s.contents) (Dict.lookup "expiration" s.contents)

  with_ca : String → Result String → Result Endpoint
  with_ca host (err e) = err e
  with_ca host (ok ca) =
      ok (record {
        server = host;
        certificate_authority_data = ca;
        insecure_skip_tls_verify = false;
      })

  unfoldable pub assemble_cluster_config : RestConfig → Result Endpoint
  unfolding with_ca
  assemble_cluster_config c =
      if not (c.ca_data == "")
      then with_ca c.host (ok c.ca_data)
      else if not (c.ca_file == "")
      then with_ca c.host (L.read_file c.ca_file)
      else ok (record {
        server = c.host;
        certificate_authority_data = "";
        insecure_skip_tls_verify = true;
      })

  abbrev pub same_flag : Bool → Bool → Bool
  same_flag true b = b
  same_flag false b = not b

  unfoldable pub same_endpoint : Endpoint → Option Endpoint → Bool
  same_endpoint wanted none = false
  same_endpoint wanted (some e) =
      e.server == wanted.server
      && (e.certificate_authority_data == wanted.certificate_authority_data
          && same_flag e.insecure_skip_tls_verify wanted.insecure_skip_tls_verify)

  unfoldable pub same_loaded : Endpoint → Result Kubeconfig → Bool
  unfolding same_endpoint
  same_loaded wanted (err e) = false
  same_loaded wanted (ok config) = same_endpoint wanted (Dict.lookup "cluster" config.clusters)

  unfoldable pub same_cluster : Result Endpoint → Option String → Bool
  unfolding same_loaded
  same_cluster (err e) text = false
  same_cluster (ok wanted) none = false
  same_cluster (ok wanted) (some text) = same_loaded wanted (L.load text)

  unfoldable pub cluster_info_not_changed : Secret → RestConfig → Bool
  unfolding same_cluster assemble_cluster_config
  cluster_info_not_changed s template =
      same_cluster (assemble_cluster_config template) (Dict.lookup "kubeconfig" s.contents)

  unfoldable pub kubeconfig_of : String → Endpoint → Kubeconfig
  kubeconfig_of path c = record {
    kind = "Config";
    api_version = "v1";
    clusters = ("cluster", c) ∷ [];
    contexts = ("context", record { cluster = "cluster"; auth_info = "user" }) ∷ [];
    auth_infos = ("user", L.token_file path) ∷ [];
    current_context = "context";
  }

  unfoldable pub entries_of : String → String → Option String → Dict String
  entries_of text token none = ("kubeconfig", text) ∷ ("token", token) ∷ []
  entries_of text token (some end) =
      ("kubeconfig", text) ∷ ("token", token) ∷ ("expiration", end) ∷ []

  unfoldable pub contents_of : String → Token → Dict String
  unfolding entries_of
  contents_of text token = entries_of text token.token token.expiration

  module _ (C : Client) (getter : TokenGetter C.State) (template : RestConfig)
      (name ns path : String) where
    abbrev pub secret_of : Dict String → Secret
    secret_of contents = record {
      namespace = ns;
      name = name;
      resource_version = "";
      owner_references = [];
      annotations = [];
      secret_type = other_secret_type "";
      contents = contents;
    }

    unfoldable pub apply_text : C.State → Token → Result String → Option Error × C.State
    unfolding contents_of
    apply_text t token (err e) = (some e, t)
    apply_text t token (ok text) =
        (let (r, t') = C.apply_secret t (secret_of (contents_of text token)) in (error_of r, t'))

    unfoldable pub kubeconfig_text : Result String
    unfolding assemble_cluster_config kubeconfig_of
    kubeconfig_text = assemble_cluster_config template >>= λ c. L.write (kubeconfig_of path c)

    unfoldable pub apply_token : Result Token × C.State → Option Error × C.State
    unfolding apply_text kubeconfig_text
    apply_token (err e, t) = (some e, t)
    apply_token (ok token, t) = apply_text t token kubeconfig_text

    unfoldable pub apply_kubeconfig_secret : C.State → Option Error × C.State
    unfolding apply_token
    apply_kubeconfig_secret t = apply_token (getter t)

    unfoldable pub sync_with : ℕ → C.State → Result Secret → Option Error × C.State
    unfolding apply_kubeconfig_secret token_valid cluster_info_not_changed
    sync_with now t (err e) =
        let renewed = apply_kubeconfig_secret t in if is_not_found e then renewed else (some e, t)
    sync_with now t (ok s) =
        let renewed = apply_kubeconfig_secret t in
        if token_valid now s && cluster_info_not_changed s template then (none, t) else renewed

    unfoldable pub sync_kube_config_secret : ℕ → C.State → Option Error × C.State
    unfolding sync_with
    sync_kube_config_secret now t = sync_with now t (C.get t ns name)
