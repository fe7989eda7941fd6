-- ===== src/Bootstrap/Tests.antt =====
-- Runs of the bootstrap controller. A kubeconfig's text is the name of its server.
use registration_operator.Common.{
  String, ◌≡◌, ◌↔◌, refl, Bool, true, false, ◌&&◌, Option, none, some, [], ◌∷◌, Error, not_found,
  failure, Result, ok, err, if◌then◌else◌, ◌==◌, string_eq, arith,
}
use registration_operator.Common.Dict
use registration_operator.Common.Dict.{Dict}
use registration_operator.Helpers.Related.{Kind, secret}
use registration_operator.Bootstrap.{
  Library, Api, reload, decide, differs, load_kube_config, sync_klusterlet, hub_secret,
  bootstrap_secret, is_hub_kubeconfig_secret_expired,
}
use registration_operator.Bootstrap.Laws.{NeedsReload, decide_iff, IsLawful, reload_lost}

abbrev texts : Library
texts = record {
  load = λ text. ok (record {
    current_context = "c";
    contexts = ("c", "hub") ∷ [];
    clusters = ("hub", record { server = text; certificate_authority_data = "" }) ∷ [];
  });
  parse_certs_pem = λ _. ok (100 ∷ []);
  split_key = λ k. ok ("agent", k);
}

abbrev config : String → Dict String
config server = ("kubeconfig", server) ∷ ("tls.crt", "cert") ∷ []

-- The secrets of the agents; a deployment cannot be deleted.
abbrev Secrets : Type 0
Secrets = String → String → Result (Dict String)

abbrev is_secret : Kind → Bool
is_secret secret = true
is_secret _ = false

abbrev erase_if : Bool → Secrets → String → String → Option Error × Secrets
erase_if true t ns n = (none, λ ms m. if ms == ns && m == n then err (not_found n) else t ms m)
erase_if false t ns n = (some (failure "forbidden"), t)

abbrev api : Api
api = record {
  State = Secrets;
  get_secret = λ t ns n. t ns n;
  delete = λ t k ns n. erase_if (is_secret k) t ns n;
}

erase_if-err :
    (b : Bool) (t : Secrets) (ns n : String) {e : Error}
    → (erase_if b t ns n).0 ≡ some e
    → (erase_if b t ns n).1 ≡ t
erase_if-err true t ns n h = cc
erase_if-err false t ns n h = refl

api-IsLawful : IsLawful api
api-IsLawful = record {
  delete_err = λ t k ns n h. erase_if-err (is_secret k) t ns n h;
  delete_secret = λ t ns n h. ground arith;
}

abbrev start : Secrets
start ns n = if n == bootstrap_secret then ok (config "new") else ok (config "old")

decide_iff_example :
    (decide texts 0 (ok (config "new")) (ok (config "old")) ≡ reload)
    ↔ NeedsReload texts 0 (ok (config "new")) (ok (config "old"))
decide_iff_example = decide_iff texts 0 (ok (config "new")) (ok (config "old"))

expired : decide texts 101 (ok (config "old")) (ok (config "old")) ≡ reload
unfolding decide differs load_kube_config string_eq Dict.lookup is_hub_kubeconfig_secret_expired
expired = refl

reload_lost_example :
    (sync_klusterlet texts api 0 "agent" "klusterlet" start
      ≡ (some (failure "forbidden"), (api.delete start secret "agent" hub_secret).1))
    × (sync_klusterlet texts api 1 "agent" "klusterlet"
          (api.delete start secret "agent" hub_secret).1
        ≡ (none, (api.delete start secret "agent" hub_secret).1))
unfolding decide differs load_kube_config string_eq Dict.lookup
reload_lost_example =
    reload_lost texts api api-IsLawful 0 1 "agent" "klusterlet" start
      (api.delete start secret "agent" hub_secret).1 (config "new") refl refl refl refl
