-- ===== src/Helpers/Features/Laws.antt =====
-- The command line flags say what the feature gates of the spec say.
use Prim.Native.Char.{Char, code}
use text.Mathlib.TextLemmas
use registration_operator.Common.{
  String, ◌<>◌, ◌≡◌, ◌≢◌, refl, ap, sym, ◌∙◌, Bool, true, false, not, ◌&&◌, ◌||◌, Option, none,
  some, List, [], ◌∷◌, ◌==◌, string_eq, if◌then◌else◌, arith, contains, All,
}
use registration_operator.Common.Dict
use registration_operator.Common.Dict.{Dict}
use registration_operator.Helpers.Features.{
  Mode, FeatureGate, is_enable, is_disable, enable_flag, disable_flag, convert_loop, convert_one,
  feature_gate_enabled, convert_to_feature_gate_flags,
}

enable_flag-injective : (a b : String) → enable_flag a ≡ enable_flag b → a ≡ b
unfolding enable_flag
enable_flag-injective a b h =
    TextLemmas.append_cancel_right a b "=true"
      (TextLemmas.append_cancel_left "--feature-gates=" _ _ h)

disable_flag-injective : (a b : String) → disable_flag a ≡ disable_flag b → a ≡ b
unfolding disable_flag
disable_flag-injective a b h =
    TextLemmas.append_cancel_right a b "=false"
      (TextLemmas.append_cancel_left "--feature-gates=" _ _ h)

-- The last character of a text, or the given one.
abbrev last_or : Char → String → Char
last_or d String.[] = d
last_or d (String.◌∷◌ c s) = last_or c s

last_or-append : (d : Char) (s t : String) → last_or d (s <> t) ≡ last_or (last_or d s) t
last_or-append d String.[] t = rw TextLemmas.nil-append
last_or-append d (String.◌∷◌ c s) t = rw TextLemmas.cons-append (last_or-append c s t)

-- The two endings differ in the last letter but one.
enable_flag-ne-disable_flag : (a b : String) → enable_flag a ≢ disable_flag b
unfolding enable_flag disable_flag
enable_flag-ne-disable_flag a b h =
    let same_tail : a <> "=true" ≡ b <> "=false" =
      TextLemmas.append_cancel_left "--feature-gates=" _ _ h in
    let shorter : a <> "=tru" ≡ b <> "=fals" =
      TextLemmas.append_cancel_right (a <> "=tru") (b <> "=fals") "e" (
        TextLemmas.append_assoc a "=tru" "e"
        ∙ (same_tail ∙ sym (TextLemmas.append_assoc b "=fals" "e"))) in
    let last : code (last_or "x" (a <> "=tru")) ≡ code (last_or "x" (b <> "=fals")) =
      ap (λ t. code (last_or "x" t)) shorter in
    omega (
      arith,
      sym (ap code (last_or-append "x" a "=tru")) ∙ (last ∙ ap code (last_or-append "x" b "=fals")),
    )

enable_test : (a b : String) → (enable_flag a == enable_flag b) ≡ (a == b)
enable_test a b = ground (arith, enable_flag-injective a b, ap enable_flag)

disable_test : (a b : String) → (disable_flag a == disable_flag b) ≡ (a == b)
disable_test a b = ground (arith, disable_flag-injective a b)

cross_test :
    (a b : String)
    → ((enable_flag a == disable_flag b) ≡ false) × ((disable_flag b == enable_flag a) ≡ false)
cross_test a b = ground (arith, enable_flag-ne-disable_flag a b)

-- What the flags say of a feature, in front of its default.
abbrev pub effective : List String → String → Bool → Bool
effective flags name default =
    if contains flags (enable_flag name)
    then true
    else if contains flags (disable_flag name)
    then false
    else default

-- No feature is listed twice.
abbrev pub lists : List FeatureGate → String → Bool
lists [] name = false
lists (f ∷ fs) name = f.feature == name || lists fs name

abbrev pub IsUnambiguous : List FeatureGate → Type 0
IsUnambiguous [] = Unit
IsUnambiguous (f ∷ fs) = (lists fs f.feature ≡ false) × IsUnambiguous fs

abbrev pub HasMode : FeatureGate → Type 0
HasMode f = (is_enable f.mode || is_disable f.mode) ≡ true

abbrev switches : (Mode → Bool) → List FeatureGate → String → Bool
switches test [] name = false
switches test (f ∷ fs) name = (f.feature == name && test f.mode) || switches test fs name

module _ (defaults : Dict Bool) (name : String) (default : Bool)
    (known : Dict.lookup name defaults ≡ some default) where
  enable_step :
      (f : FeatureGate) (fs : List FeatureGate) (d : Option Bool)
      → Dict.lookup f.feature defaults ≡ d
      → contains (convert_loop fs defaults).0 (enable_flag name)
        ≡ (switches is_enable fs name && not default)
      → contains (convert_one f d (convert_loop fs defaults)).0 (enable_flag name)
        ≡ (switches is_enable (f ∷ fs) name && not default)
  unfolding convert_one
  enable_step f fs none e ih = ground arith
  enable_step f fs (some d) e ih =
      ground (arith, enable_test name f.feature, cross_test name f.feature)

  contains-enable_flag :
      (fs : List FeatureGate)
      → contains (convert_loop fs defaults).0 (enable_flag name)
        ≡ (switches is_enable fs name && not default)
  unfolding convert_loop
  contains-enable_flag [] = refl
  contains-enable_flag (f ∷ fs) =
      enable_step f fs (Dict.lookup f.feature defaults) refl (contains-enable_flag fs)

  disable_step :
      (f : FeatureGate) (fs : List FeatureGate) (d : Option Bool)
      → Dict.lookup f.feature defaults ≡ d
      → contains (convert_loop fs defaults).0 (disable_flag name)
        ≡ (switches is_disable fs name && default)
      → contains (convert_one f d (convert_loop fs defaults)).0 (disable_flag name)
        ≡ (switches is_disable (f ∷ fs) name && default)
  unfolding convert_one
  disable_step f fs none e ih = ground arith
  disable_step f fs (some d) e ih =
      ground (arith, disable_test name f.feature, cross_test f.feature name)

  contains-disable_flag :
      (fs : List FeatureGate)
      → contains (convert_loop fs defaults).0 (disable_flag name)
        ≡ (switches is_disable fs name && default)
  unfolding convert_loop
  contains-disable_flag [] = refl
  contains-disable_flag (f ∷ fs) =
      disable_step f fs (Dict.lookup f.feature defaults) refl (contains-disable_flag fs)

  -- Without the feature in the list nothing is switched.
  switches_unlisted :
      (test : Mode → Bool) (fs : List FeatureGate)
      → lists fs name ≡ false
      → switches test fs name ≡ false
  switches_unlisted test [] h = refl
  switches_unlisted test (f ∷ fs) h = ground (arith, switches_unlisted test fs)

  switched :
      (fs : List FeatureGate)
      → IsUnambiguous fs
      → All HasMode fs
      → (if switches is_enable fs name && not default
          then true
          else if switches is_disable fs name && default
          then false
          else default)
        ≡ feature_gate_enabled fs defaults name
  unfolding feature_gate_enabled
  switched [] u v = ground arith
  switched (f ∷ fs) (alone, u) (mode, v) =
      ground
        (arith, switched fs u v, switches_unlisted is_enable fs, switches_unlisted is_disable fs)

  -- The flags of a component and `FeatureGateEnabled` agree on every known feature: what the flags
  -- set over the default is what the spec asks for. The spec lists no feature twice and its modes
  -- are "Enable" or "Disable".
  pub effective-convert :
      (component : String) (fs : List FeatureGate)
      → IsUnambiguous fs
      → All HasMode fs
      → effective (convert_to_feature_gate_flags component fs defaults).0 name default
        ≡ feature_gate_enabled fs defaults name
  unfolding convert_to_feature_gate_flags
  effective-convert component fs u v =
      rw (contains-enable_flag, contains-disable_flag) (switched fs u v)
