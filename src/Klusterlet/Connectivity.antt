-- ===== src/Klusterlet/Connectivity.antt =====
-- klusterlet_cleanup_controller.go: `checkConnectivity`. Times are nanoseconds; the texts of RFC 3339
-- are written and read by Go's library.
pub mod Laws
use registration_operator.Common.{
  String, ℕ, ◌+◌, ◌*◌, Bool, true, false, ◌&&◌, ◌||◌, ◌==◌, string_eq, Option, none, some, ltb,
  Error, Result, ok, err, if◌then◌else◌,
}
use text.Mathlib.Text
use registration_operator.Common.Dict
use registration_operator.Common.Dict.{Dict}
use registration_operator.Klusterlet.{eviction_annotation}

-- `strings.Contains`
unfoldable pub has_text : String → String → Bool
has_text String.[] t = t == ""
has_text (String.◌∷◌ c s) t = Text.starts_with (String.◌∷◌ c s) t || has_text s t

-- The time package.
pub record Texts : Type 0 where
  pub format : ℕ → String
  pub parse : String → Result ℕ

-- What `checkConnectivity` returns, and the annotations that it leaves.
pub record Answer : Type 0 where
  pub clean_managed : Bool
  pub error : Option String
  pub annotations : Dict String

abbrev pub eviction_delay : ℕ
eviction_delay = 5 * 60000000000

unfoldable pub is_tcp_time_out_error : String → Bool
unfolding has_text
is_tcp_time_out_error e = has_text e "dial tcp" && has_text e "i/o timeout"

unfoldable pub is_tcp_no_such_host_error : String → Bool
unfolding has_text
is_tcp_no_such_host_error e = has_text e "dial tcp: lookup" && has_text e "no such host"

module _ (T : Texts) where
  -- A new timestamp, in place of one that is missing or cannot be read.
  stamp : ℕ → String → Dict String → Answer
  stamp clock e d = record {
    clean_managed = true;
    error = some e;
    annotations = Dict.insert eviction_annotation (T.format clock) d;
  }

  stamped_at : ℕ → String → Dict String → Result ℕ → Answer
  unfolding stamp
  stamped_at clock e d (err _) = stamp clock e d
  stamped_at clock e d (ok since) =
      if ltb (since + eviction_delay) clock
      then record { clean_managed = false; error = none; annotations = d }
      else record { clean_managed = true; error = some e; annotations = d }

  -- The branch of an unreachable cluster.
  unreachable : ℕ → String → Dict String → Option String → Answer
  unfolding stamp stamped_at
  unreachable clock e d none = stamp clock e d
  unreachable clock e d (some text) = stamped_at clock e d (T.parse text)

  failed : ℕ → String → Dict String → Bool → Answer
  unfolding unreachable
  failed clock e d true = unreachable clock e d (Dict.lookup eviction_annotation d)
  failed clock e d false = record {
    clean_managed = true;
    error = some e;
    annotations = Dict.erase eviction_annotation d;
  }

  -- The second argument is the error of the list request, if it failed.
  unfoldable pub check_connectivity : ℕ → Option String → Dict String → Answer
  unfolding failed is_tcp_time_out_error is_tcp_no_such_host_error
  check_connectivity clock none d = record { clean_managed = true; error = none; annotations = d }
  check_connectivity clock (some e) d =
      failed clock e d (is_tcp_time_out_error e || is_tcp_no_such_host_error e)
