-- ===== src/Helpers/Objects.antt =====
-- What names an object of a cluster: the fields of `RelatedResourceMeta`, which are also the ones
-- by which pkg/helpers/helpers.go tells generation statuses apart.
use registration_operator.Common.{String, Eq, string_eq}

pub record ObjectKey : Type 0 where
  pub group : String
  pub version : String
  pub resource : String
  pub namespace : String
  pub name : String

string_discrete : Discrete String
string_discrete = string_eq.dec

key_discrete : Discrete ObjectKey
key_discrete = hlevel string_discrete

-- Go's `==` and `reflect.DeepEqual` on such values.
instance unfoldable pub key_eq : Eq ObjectKey
unfolding key_discrete string_discrete string_eq
key_eq = record { dec = key_discrete }
