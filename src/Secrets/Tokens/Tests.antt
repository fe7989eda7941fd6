-- ===== src/Secrets/Tokens/Tests.antt =====
-- Runs on a store of one secret. A time's text is its decimal numeral's length in strokes, and the text
-- of a kubeconfig is always the same.
use registration_operator.Common.{
  String, ℕ, ◌+◌, ◌≤◌, ◌≡◌, ◌↔◌, refl, ap, Bool, true, false, ◌&&◌, Option, none, some, [], ◌∷◌,
  Error, not_found, Result, ok, err, ◌==◌, string_eq, if◌then◌else◌, arith, leb, not,
}
use registration_operator.Common.Dict
use registration_operator.Common.Dict.{Dict}
use registration_operator.Secrets.{Secret, Client, IsLawful, service_account_token}
use registration_operator.Secrets.Sync.{sync_secret, apply_copy, applied, prepare, prepare_typed}
use registration_operator.Secrets.Sync.Laws.{Mirrors, sync_secret-Mirrors}
use registration_operator.Secrets.Tokens.{
  Library, Endpoint, TokenGetter, TokenRequest, Accounts, RestConfig, Kubeconfig, token_valid,
  sync_kube_config_secret, sa_token_creater, refresh_threshold,
}
use registration_operator.Secrets.Tokens.Laws.{Lasts, token_valid_iff}
use registration_operator.Secrets.Tokens.Settles.{
  RoundTrips, IsFresh, sync_kube_config_secret_settles,
}
use registration_operator.Secrets.Tokens.Fresh.{sa_token_creater-IsFresh}

-- The secret of a place.
found : String → String → Secret → Result Secret
found ns name s = if s.namespace == ns && s.name == name then ok s else err (not_found name)

get : Option Secret → String → String → Result Secret
get none ns name = err (not_found name)
get (some s) ns name = found ns name s

remove : Option Secret → Result Secret → String → Option Error × Option Secret
remove t (ok s) name = (none, none)
remove t (err e) name = (some (not_found name), t)

abbrev store : Client
store = record {
  State = Option Secret;
  get = get;
  delete = λ t ns name. remove t (get t ns name) name;
  apply_secret = λ t s. (ok (s, true), some s);
}

get_absent :
    (t : Option Secret) (ns name : String) {k : String}
    → get t ns name ≡ err (not_found k)
    → get t ns name ≡ err (not_found name)
unfolding get found
get_absent none ns name h = refl
get_absent (some s) ns name h = ground arith

remove_ok :
    (t : Option Secret) (r : Result Secret) (ns name : String)
    → (remove t r name).0 ≡ none
    → get (remove t r name).1 ns name ≡ err (not_found name)
unfolding remove get
remove_ok t (ok s) ns name h = refl
remove_ok t (err e) ns name h = cc

missing_name :
    (t : Option Secret) (ns name : String) {e : Error}
    → get t ns name ≡ err e
    → get t ns name ≡ err (not_found name)
unfolding get found
missing_name none ns name h = refl
missing_name (some s) ns name h = ground arith

remove_absent :
    (t : Option Secret) (r : Result Secret) (ns name : String) {k : String}
    → get t ns name ≡ r
    → (remove t r name).0 ≡ some (not_found k)
    → get (remove t r name).1 ns name ≡ err (not_found name)
unfolding remove
remove_absent t (ok s) ns name fn h = cc
remove_absent t (err e) ns name fn h = missing_name t ns name fn

store-IsLawful : IsLawful store
unfolding get found
store-IsLawful = record {
  get-apply_secret = λ t s h. (s, (ground arith, (refl, λ typed. typed)));
  get-delete = λ t ns name h. remove_ok t (get t ns name) ns name h;
  get_absent = λ t ns name h. get_absent t ns name h;
  delete_absent = λ t ns name h. remove_absent t (get t ns name) ns name refl h;
}

abbrev source : Secret
source = record {
  namespace = "operator";
  name = "pull";
  resource_version = "8";
  owner_references = [];
  annotations = ("kubernetes.io/service-account.name", "agent") ∷ [];
  secret_type = service_account_token;
  contents = ("token", "abc") ∷ [];
}

copied : (sync_secret store "addon" "pull" [] none (ok source)).0.error ≡ none
unfolding sync_secret apply_copy applied prepare prepare_typed string_eq Dict.lookup Dict.erase
copied = refl

sync_secret-Mirrors_example :
    Mirrors store "addon" "pull" []
      (ok source)
      (sync_secret store "addon" "pull" [] none (ok source)).1
sync_secret-Mirrors_example =
    sync_secret-Mirrors store "addon" "pull" [] store-IsLawful none (ok source) copied

abbrev template : RestConfig
template = record { host = "https://hub"; ca_data = "ca"; ca_file = "" }

abbrev end : ℕ
end = 31_104_000_000_000_000

-- The text of a kubeconfig is its server; it is written if the rest is what is read.
written : Option Endpoint → Result String
written none = err (not_found "cluster")
written (some e) =
    if e.certificate_authority_data == "ca" && not e.insecure_skip_tls_verify
    then ok e.server
    else err (not_found "ca")

abbrev config : String → Kubeconfig
config server = record {
  kind = "Config";
  api_version = "v1";
  contexts = [];
  auth_infos = [];
  current_context = "context";
  clusters =
      (
        "cluster",
        record {
          server = server;
          certificate_authority_data = "ca";
          insecure_skip_tls_verify = false;
        },
      )
      ∷ [];
}

-- A library that knows one time.
abbrev library : Library
library = record {
  parse_time = λ text. if text == "end" then ok end else err (not_found text);
  marshal_text = λ t. if leb t end && leb end t then ok "end" else err (not_found "time");
  write = λ c. written (Dict.lookup "cluster" c.clusters);
  load = λ text. ok (config text);
  read_file = λ path. ok "ca";
  token_file = λ path. "token";
}

abbrev hub : String → Endpoint
hub server = record {
  server = server;
  certificate_authority_data = "ca";
  insecure_skip_tls_verify = false;
}

written_parts :
    (server ca text : String) (insecure : Bool)
    → (if ca == "ca" && not insecure then ok server else err (not_found "ca")) ≡ ok text
    → hub text ≡ record {
      server = server;
      certificate_authority_data = ca;
      insecure_skip_tls_verify = insecure;
    }
written_parts server ca text true h = ground arith
written_parts server ca text false h = ground arith

written-hub : (e : Option Endpoint) (text : String) → written e ≡ ok text → some (hub text) ≡ e
unfolding written
written-hub none text h = cc
written-hub (some e) text h =
    ap some (written_parts e.server e.certificate_authority_data text e.insecure_skip_tls_verify h)

trips : RoundTrips library
unfolding Dict.lookup string_eq
trips c text h = (config text, (refl, written-hub (Dict.lookup "cluster" c.clusters) text h))

known_time :
    (e : ℕ) (text : String) → library.marshal_text e ≡ ok text → library.parse_time text ≡ ok e
known_time e text h = ground arith

granted :
    (r : TokenRequest)
    → ok (record { token = "abc"; expiration_timestamp = end }) ≡ ok r
    → 0 + refresh_threshold ≤ r.expiration_timestamp
granted r h =
    let same : record { token = "abc"; expiration_timestamp = end } ≡ r = cc in
    rw (← same) (omega arith)

abbrev accounts : Accounts (Option Secret)
accounts = record {
  get_secrets = λ t ns name. ok [];
  get_secret = get;
  create_token =
      λ t ns name seconds. (ok (record { token = "abc"; expiration_timestamp = end }), t);
}

abbrev getter : TokenGetter (Option Secret)
getter = sa_token_creater library accounts "agent" "ns"

getter-IsFresh : IsFresh library 0 getter
getter-IsFresh =
    sa_token_creater-IsFresh library accounts "agent" "ns" 0 (λ t r h. granted r h)
      (λ e text h. known_time e text h)

synced :
    (sync_kube_config_secret library store getter template "agent" "ns" "/path" 0 none).0 ≡ none
unfolding sync_kube_config_secret get sa_token_creater string_eq written Dict.lookup
synced = refl

sync_kube_config_secret_settles_example :
    sync_kube_config_secret library store getter template "agent" "ns" "/path" 0
      (sync_kube_config_secret library store getter template "agent" "ns" "/path" 0 none).1
    ≡ (none, (sync_kube_config_secret library store getter template "agent" "ns" "/path" 0 none).1)
sync_kube_config_secret_settles_example =
    sync_kube_config_secret_settles library store getter template "agent" "ns" "/path" 0
      store-IsLawful trips getter-IsFresh none synced

token_valid_iff_example : (token_valid library 0 source ≡ true) ↔ (
    ((token : String) × (Dict.lookup "token" source.contents ≡ some token))
    × Lasts library 0 (Dict.lookup "expiration" source.contents))
token_valid_iff_example = token_valid_iff library 0 source
