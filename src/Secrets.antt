-- ===== src/Secrets.antt =====
-- The secrets that the operator copies, reads and renews: pkg/helpers/helpers.go, pkg/helpers/sa_syncer.go
-- and the addon pull secret controller. Bytes are strings. `ApplySecret` is library-go's.
pub mod Sync
pub mod Addon
pub mod ClientConfig
pub mod Tokens
use registration_operator.Common.{
  String, ◌≡◌, ◌≢◌, Bool, List, Option, none, some, Error, Result, ok, err, not_found,
}
use registration_operator.Common.Dict.{Dict}

pub data SecretType : Type 0 where
  opaque service_account_token : SecretType
  other_secret_type : String → SecretType

pub record Secret : Type 0 where
  pub namespace : String
  pub name : String
  pub resource_version : String
  pub owner_references : List String
  pub annotations : Dict String
  pub secret_type : SecretType
  pub contents : Dict String

-- A client of the secrets of a cluster; a name is that of a namespace and of a secret in it.
pub record Client : Type 1 where
  pub State : Type 0
  pub get : State → String → String → Result Secret
  pub delete : State → String → String → Option Error × State
  -- `resourceapply.ApplySecret`
  pub apply_secret : State → Secret → Result (Secret × Bool) × State

-- What the code relies on: an apply that succeeds leaves the secret with the data that was asked
-- for, and as no token of a service account if none was asked for, and a secret that was deleted, or that the server does not find, is not there.
pub record IsLawful (C : Client) : Type 0 where
  pub get-apply_secret :
      (t : C.State) (s : Secret) {r : Secret × Bool}
      → (C.apply_secret t s).0 ≡ ok r
      → (p : Secret) × ((C.get (C.apply_secret t s).1 s.namespace s.name ≡ ok p)
          × ((p.contents ≡ s.contents)
              × (s.secret_type ≢ service_account_token → p.secret_type ≢ service_account_token)))
  pub get-delete :
      (t : C.State) (ns name : String)
      → (C.delete t ns name).0 ≡ none
      → C.get (C.delete t ns name).1 ns name ≡ err (not_found name)
  pub get_absent :
      (t : C.State) (ns name : String) {k : String}
      → C.get t ns name ≡ err (not_found k)
      → C.get t ns name ≡ err (not_found name)
  pub delete_absent :
      (t : C.State) (ns name : String) {k : String}
      → (C.delete t ns name).0 ≡ some (not_found k)
      → C.get (C.delete t ns name).1 ns name ≡ err (not_found name)
