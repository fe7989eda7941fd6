-- ===== src/Helpers/Features/Validity.antt =====
-- The condition `ValidFeatureGates` tells whether all feature gates of the spec are known.
use text.Mathlib.TextLemmas
use registration_operator.Common.{
  String, ◌<>◌, ◌≡◌, ◌≢◌, ◌↔◌, refl, Bool, true, false, Option, none, some, List, [], ◌∷◌, map,
  string_eq, arith, All, eq_iff,
}
use registration_operator.Common.Dict
use registration_operator.Common.Dict.{Dict}
use registration_operator.Helpers.Features.{
  FeatureGate, convert_loop, convert_one, convert_to_feature_gate_flags, invalid_message,
  build_feature_condition, joined,
}

abbrev is_known : Option Bool → Bool
is_known none = false
is_known (some _) = true

abbrev pub Known : Dict Bool → FeatureGate → Type 0
Known defaults f = is_known (Dict.lookup f.feature defaults) ≡ true

invalid_one :
    (f : FeatureGate) (d : Option Bool) (r : List String × List String)
    → ((convert_one f d r).1 ≡ []) ↔ ((is_known d ≡ true) × (r.1 ≡ []))
unfolding convert_one
invalid_one f none r = (λ h. cc, λ h. cc)
invalid_one f (some d) r = (λ h. (refl, h), λ h. h.1)

invalid_iff :
    (fs : List FeatureGate) (defaults : Dict Bool)
    → ((convert_loop fs defaults).1 ≡ []) ↔ All (Known defaults) fs
unfolding convert_loop
invalid_iff [] defaults = (λ h. tt, λ h. refl)
invalid_iff (f ∷ fs) defaults =
    let one = invalid_one f (Dict.lookup f.feature defaults) (convert_loop fs defaults) in
    let more = invalid_iff fs defaults in
    (λ h. ((one.0 h).0, more.0 (one.0 h).1), λ h. one.1 (h.0, more.1 h.1))

colon_ne : (t : String) → ": " <> t ≢ ""
colon_ne t h =
    let blank : ◌≡◌ {A = String} ": " "" = (TextLemmas.append-eq-nil_iff.0 h).0 in
    ground (arith, blank, eq_iff ": " "")

message-eq-nil :
    (component : String) (is : List String) → (invalid_message component is ≡ "") ↔ (is ≡ [])
unfolding invalid_message
message-eq-nil component [] = (λ h. refl, λ h. refl)
message-eq-nil component (i ∷ is) =
    (λ h. absurd (colon_ne _ (TextLemmas.append-eq-nil_iff.0 h).1), λ h. cc)

-- What a component asks for, and the gates that it knows.
pub record Component : Type 0 where
  pub title : String
  pub gates : List FeatureGate
  pub defaults : Dict Bool

abbrev pub message : Component → String
message c = (convert_to_feature_gate_flags c.title c.gates c.defaults).1

joined-eq-nil :
    (cs : List Component)
    → (joined (map message cs) ≡ "") ↔ All (λ c. All (Known c.defaults) c.gates) cs
unfolding joined convert_to_feature_gate_flags
joined-eq-nil [] = (λ h. tt, λ h. refl)
joined-eq-nil (c ∷ cs) =
    let rest = joined-eq-nil cs in
    let here = message-eq-nil c.title (convert_loop c.gates c.defaults).1 in
    let gates = invalid_iff c.gates c.defaults in
    (
      λ h. let both = TextLemmas.append-eq-nil_iff.0 h in (gates.0 (here.0 both.0), rest.0 both.1),
      λ h. TextLemmas.append-eq-nil_iff.1 (here.1 (gates.1 h.0), rest.1 h.1),
    )

-- The condition is true exactly if every component knows all gates that its spec lists.
pub valid_iff :
    (cs : List Component)
    → ((build_feature_condition (map message cs)).valid ≡ true)
      ↔ All (λ c. All (Known c.defaults) c.gates) cs
unfolding build_feature_condition
valid_iff cs =
    let same = joined-eq-nil cs in (λ h. same.0 (ground arith), λ h. ground (arith, same.1 h))
