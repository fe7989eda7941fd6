-- ===== src/Helpers/Apply/Tests.antt =====
-- Runs on a cluster of one webhook configuration, whose metadata and webhooks are texts.
use registration_operator.Common.{
  String, ◌<>◌, ◌⊎◌, inl, inr, ◌≡◌, refl, true, not, ◌&&◌, Option, none, some, not_found, Result,
  ok, err, arith, ◌==◌, string_eq, if◌then◌else◌,
}
use registration_operator.Helpers.Apply.{
  Resource, Calls, Library, apply_webhook_configuration, apply_found_webhook, update_webhook,
}
use registration_operator.Helpers.Apply.Laws.{IsLawful, apply_webhook_configuration_stored}

abbrev Hook : Type 0
Hook = Resource String String

placed : String → String → Hook → Result Hook
placed ns name o = if o.namespace == ns && o.name == name then ok o else err (not_found name)

get : Option Hook → String → String → Result Hook
unfolding placed
get none ns name = err (not_found name)
get (some o) ns name = placed ns name o

-- The server gives an object a uid and its webhooks a policy.
abbrev filled : Hook → Hook
filled o = record o { meta = o.meta <> " uid"; body = o.body <> " policy" }

abbrev KeepsMeta : String → String → Type 0
KeepsMeta a b = (b ≡ a) ⊎ (b ≡ a <> " uid")

abbrev KeepsBody : String → String → Type 0
KeepsBody a b = (b ≡ a) ⊎ (b ≡ a <> " policy")

abbrev server : Calls (Option Hook) Hook
server = record {
  get = get;
  create = λ t o. (ok (filled o), some (filled o));
  update = λ t o. (ok (filled o), some (filled o));
}

get_placed :
    (t : Option Hook) (ns name : String) {o : Hook}
    → get t ns name ≡ ok o
    → (o.namespace ≡ ns) × (o.name ≡ name)
unfolding get
get_placed none ns name h = cc
get_placed (some p) ns name h = ground arith

server-IsLawful : IsLawful KeepsMeta KeepsBody server
unfolding get
server-IsLawful = record {
  get-place = λ t ns name h. get_placed t ns name h;
  meta_refl = λ m. inl refl;
  body_refl = λ b. inl refl;
  get-create = λ t o h. (ground arith, (inr cc, inr cc));
  get-update = λ t o h. (ground arith, (inr cc, inr cc));
}

abbrev library : Library String String
library = record { ensure_object_meta = λ old new. (not (old == new), new); same = λ a b. a == b }

sound : (a b : String) → library.same a b ≡ true → a ≡ b
sound a b h = ground arith

abbrev existing : Hook
existing = record { namespace = ""; name = "hooks"; meta = "old"; body = "v1" }

abbrev required : Hook
required = record { namespace = ""; name = "hooks"; meta = "new"; body = "v2" }

applied : (apply_webhook_configuration server library (some existing) required).0.1 ≡ none
unfolding apply_webhook_configuration apply_found_webhook update_webhook get string_eq
applied = refl

-- What the server filled in differs from the manifest, so the next apply sends the object again.
sent_again :
    (apply_webhook_configuration server library
      (apply_webhook_configuration server library none required).1
      required).0
    ≡ (true, none)
unfolding apply_webhook_configuration apply_found_webhook update_webhook get placed string_eq
sent_again = refl

apply_webhook_configuration_stored_example :
    (o : Hook) × ((server.get
          (apply_webhook_configuration server library (some existing) required).1
          ""
          "hooks"
        ≡ ok o)
      × (KeepsBody "v2" o.body × KeepsMeta "old" o.meta))
unfolding get string_eq
apply_webhook_configuration_stored_example =
    apply_webhook_configuration_stored server library sound KeepsMeta KeepsBody server-IsLawful
      (some existing) required refl applied
