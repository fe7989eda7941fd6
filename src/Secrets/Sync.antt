-- ===== src/Secrets/Sync.antt =====
-- `SyncSecret` of pkg/helpers/helpers.go: a copy of a secret in another namespace, maybe of another
-- cluster.
pub mod Laws
use registration_operator.Common.{
  String, ◌<>◌, Bool, true, false, List, Option, none, some, Error, failure, Result, ok, err,
  is_not_found, if◌then◌else◌, ◌==◌, string_eq,
}
use registration_operator.Common.Dict
use registration_operator.Secrets.{
  Secret, SecretType, opaque, service_account_token, other_secret_type, Client,
}

-- What a sync reports: the applied secret if there is one, whether it changed anything, the error.
pub record Outcome : Type 0 where
  pub secret : Option Secret
  pub changed : Bool
  pub error : Option Error

abbrev pub failed : Error → Outcome
failed e = record { secret = none; changed = false; error = some e }

abbrev pub nothing : Bool → Outcome
nothing changed = record { secret = none; changed = changed; error = none }

-- A missing key reads as an empty value, which Go's `len` does not tell apart either.
abbrev pub value_of : Option String → String
value_of none = ""
value_of (some v) = v

-- The copy of a secret as it is sent, before its place and its owners are set.
unfoldable pub prepare_typed : Secret → SecretType → Result Secret
prepare_typed s service_account_token =
    if value_of (Dict.lookup "token" s.contents) == ""
    then err
        (failure ("secret " <> (s.namespace <> ("/" <> (s.name <> " doesn't have a token yet")))))
    else ok (record s {
      annotations =
          Dict.erase "kubernetes.io/service-account.uid"
            (Dict.erase "kubernetes.io/service-account.name" s.annotations);
      secret_type = opaque;
    })
prepare_typed s opaque = ok s
prepare_typed s (other_secret_type n) = ok s

unfoldable pub prepare : Secret → Result Secret
unfolding prepare_typed
prepare s = prepare_typed s s.secret_type

abbrev pub placed : String → String → List String → Secret → Secret
placed ns name owners s = record s {
  namespace = ns;
  name = name;
  resource_version = "";
  owner_references = owners;
}

-- `source` is the answer of the source's client, and `C` the client of the target.
module _ (C : Client) (ns name : String) (owners : List String) where
  unfoldable pub deleted : Option Error × C.State → Outcome × C.State
  deleted (none, t) = (nothing true, t)
  deleted (some e, t) = if is_not_found e then (nothing false, t) else (failed e, t)

  unfoldable pub remove_target : C.State → Result Secret → Outcome × C.State
  unfolding deleted
  remove_target t (ok s) = deleted (C.delete t ns name)
  remove_target t (err e) =
      let gone = deleted (C.delete t ns name) in if is_not_found e then (nothing true, t) else gone

  unfoldable pub applied : Result (Secret × Bool) × C.State → Outcome × C.State
  applied (ok (s, changed), t) = (record { secret = some s; changed = changed; error = none }, t)
  applied (err e, t) = (failed e, t)

  unfoldable pub apply_copy : C.State → Result Secret → Outcome × C.State
  unfolding applied
  apply_copy t (err e) = (failed e, t)
  apply_copy t (ok s) = applied (C.apply_secret t (placed ns name owners s))

  unfoldable pub sync_secret : C.State → Result Secret → Outcome × C.State
  unfolding remove_target apply_copy prepare
  sync_secret t (ok s) = apply_copy t (prepare s)
  sync_secret t (err e) =
      let gone = remove_target t (C.get t ns name) in if is_not_found e then gone else (failed e, t)
