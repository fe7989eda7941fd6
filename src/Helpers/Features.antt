-- ===== src/Helpers/Features.antt =====
-- Feature gates, of pkg/helpers/helpers.go. A map of `featuregate.FeatureSpec` is a dictionary of
-- their `Default` fields, the only ones that are read.
pub mod Laws
pub mod Validity
use registration_operator.Common.{
  String, ◌<>◌, Bool, true, false, not, ◌&&◌, Option, none, some, List, [], ◌∷◌, ◌++◌, ◌==◌,
  string_eq, if◌then◌else◌,
}
use registration_operator.Common.Dict
use registration_operator.Common.Dict.{Dict}

-- `FeatureGateModeType`. A string that is neither "Enable" nor "Disable" is `other_mode`.
pub data Mode : Type 0 where
  enable disable : Mode
  other_mode : String → Mode

pub record FeatureGate : Type 0 where
  pub feature : String
  pub mode : Mode

abbrev pub is_enable : Mode → Bool
is_enable enable = true
is_enable disable = false
is_enable (other_mode _) = false

abbrev pub is_disable : Mode → Bool
is_disable enable = false
is_disable disable = true
is_disable (other_mode _) = false

-- `fmt.Sprintf("--feature-gates=%s=true", feature)` and its counterpart.
unfoldable pub enable_flag : String → String
enable_flag feature = "--feature-gates=" <> (feature <> "=true")

unfoldable pub disable_flag : String → String
disable_flag feature = "--feature-gates=" <> (feature <> "=false")

-- The two appends of the loop's body, for a known feature.
flags_for : FeatureGate → Bool → List String
flags_for f default =
    (if is_disable f.mode && default then disable_flag f.feature ∷ [] else [])
    ++ (if is_enable f.mode && not default then enable_flag f.feature ∷ [] else [])

-- One round of the loop, in front of what the later rounds append.
convert_one : FeatureGate → Option Bool → List String × List String → List String × List String
unfolding flags_for
convert_one f none (flags, invalid) = (flags, f.feature ∷ invalid)
convert_one f (some default) (flags, invalid) = (flags_for f default ++ flags, invalid)

-- The loop: the flags and the invalid features.
unfoldable pub convert_loop : List FeatureGate → Dict Bool → List String × List String
unfolding convert_one
convert_loop [] defaults = ([], [])
convert_loop (f ∷ fs) defaults =
    convert_one f (Dict.lookup f.feature defaults) (convert_loop fs defaults)

-- `fmt.Sprintf("%v", texts)`
abbrev pub spaced : List String → String
spaced [] = ""
spaced (t ∷ []) = t
spaced (t ∷ u ∷ ts) = t <> (" " <> spaced (u ∷ ts))

abbrev pub show_texts : List String → String
show_texts ts = "[" <> (spaced ts <> "]")

invalid_message : String → List String → String
invalid_message component [] = ""
invalid_message component (i ∷ is) = component <> (": " <> show_texts (i ∷ is))

unfoldable pub convert_to_feature_gate_flags :
    String → List FeatureGate → Dict Bool → List String × String
unfolding convert_loop invalid_message
convert_to_feature_gate_flags component features defaults =
    let (flags, invalid) = convert_loop features defaults in
    (flags, invalid_message component invalid)

-- The fallback of `FeatureGateEnabled`.
abbrev pub default_of : Option Bool → Bool
default_of none = false
default_of (some default) = default

unfoldable pub feature_gate_enabled : List FeatureGate → Dict Bool → String → Bool
feature_gate_enabled [] defaults name = default_of (Dict.lookup name defaults)
feature_gate_enabled (f ∷ fs) defaults name =
    if f.feature == name then is_enable f.mode else feature_gate_enabled fs defaults name

pub record FeatureCondition : Type 0 where
  pub valid : Bool
  pub reason : String
  pub message : String

-- `strings.Join(texts, "")`
joined : List String → String
joined [] = ""
joined (t ∷ ts) = t <> joined ts

unfoldable pub build_feature_condition : List String → FeatureCondition
unfolding joined
build_feature_condition msgs =
    if joined msgs == ""
    then record {
      valid = true;
      reason = "FeatureGatesAllValid";
      message = "Feature gates are all valid";
    }
    else record {
      valid = false;
      reason = "InvalidFeatureGatesExisting";
      message =
          "There are some invalid feature gates of "
          <> (show_texts msgs <> ", will process them with default values");
    }
