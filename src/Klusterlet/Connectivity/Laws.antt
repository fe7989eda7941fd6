-- ===== src/Klusterlet/Connectivity/Laws.antt =====
-- When the resources of an unreachable managed cluster are given up.
use registration_operator.Common.{
  String, ℕ, ◌+◌, ◌≤◌, ◌<◌, ◌↔◌, ◌≡◌, refl, ◌||◌, Bool, true, false, Option, none, some, Result, ok,
  err, arith,
}
use registration_operator.Common.Dict
use registration_operator.Common.Dict.{Dict}
use registration_operator.Klusterlet.{eviction_annotation}
use registration_operator.Klusterlet.Connectivity.{
  Texts, check_connectivity, failed, unreachable, stamp, stamped_at, eviction_delay,
  is_tcp_time_out_error, is_tcp_no_such_host_error,
}

abbrev pub IsUnreachable : String → Type 0
IsUnreachable e = (is_tcp_time_out_error e || is_tcp_no_such_host_error e) ≡ true

module _ (T : Texts) where
  -- A timestamp that can be read and is more than five minutes old.
  abbrev pub Expired : ℕ → Dict String → Type 0
  Expired clock d =
      (text : String) × ((since : ℕ) × ((Dict.lookup eviction_annotation d ≡ some text)
          × ((T.parse text ≡ ok since) × (since + eviction_delay < clock))))

  stamped_at_iff :
      (clock : ℕ) (e : String) (d : Dict String) (r : Result ℕ)
      → ((stamped_at T clock e d r).clean_managed ≡ false)
        ↔ ((since : ℕ) × ((r ≡ ok since) × (since + eviction_delay < clock)))
  unfolding stamped_at stamp
  stamped_at_iff clock e d (err x) = (λ h. cc, λ (s, (p, q)). cc)
  stamped_at_iff clock e d (ok x) = (λ h. (x, (refl, ground arith)), λ (s, p). ground arith)

  unreachable_iff :
      (clock : ℕ) (e : String) (d : Dict String) (r : Option String)
      → ((unreachable T clock e d r).clean_managed ≡ false) ↔ (
          (text : String) × ((since : ℕ) × ((r ≡ some text)
              × ((T.parse text ≡ ok since) × (since + eviction_delay < clock)))))
  unfolding unreachable stamp
  unreachable_iff clock e d none = (λ h. cc, λ (x, (y, (p, q))). cc)
  unreachable_iff clock e d (some t) =
      let (to, from) = stamped_at_iff clock e d (T.parse t) in
      (
        λ h. let (s, (p, q)) = to h in (t, (s, (refl, (p, q)))),
        λ (x, (s, (p, (q, r)))). from (s, (cc, r)),
      )

  failed_iff :
      (clock : ℕ) (e : String) (d : Dict String) (b : Bool)
      → ((failed T clock e d b).clean_managed ≡ false) ↔ ((b ≡ true) × Expired clock d)
  unfolding failed
  failed_iff clock e d false = (λ h. cc, λ (p, q). cc)
  failed_iff clock e d true =
      let (to, from) = unreachable_iff clock e d (Dict.lookup eviction_annotation d) in
      (λ h. (refl, to h), λ (p, q). from q)

  -- The managed resources are given up exactly if the cluster is unreachable and there is a timestamp
  -- that can be read and is more than five minutes old.
  pub gives_up_iff :
      (clock : ℕ) (e : String) (d : Dict String)
      → ((check_connectivity T clock (some e) d).clean_managed ≡ false)
        ↔ (IsUnreachable e × Expired clock d)
  unfolding check_connectivity
  gives_up_iff clock e d =
      failed_iff clock e d (is_tcp_time_out_error e || is_tcp_no_such_host_error e)

  -- What the annotations are after a check of an unreachable cluster that had no timestamp.
  first_check :
      (clock : ℕ) (e : String) (d : Dict String)
      → IsUnreachable e
      → Dict.lookup eviction_annotation d ≡ none
      → (check_connectivity T clock (some e) d).annotations
        ≡ Dict.insert eviction_annotation (T.format clock) d
  unfolding check_connectivity failed unreachable stamp
  first_check clock e d lost fresh = rw (lost, fresh) refl

  module _ (first last since : ℕ) (e f : String) (d : Dict String) where
    -- A cluster that was first found unreachable more than five minutes ago, and is unreachable now,
    -- is given up, if the timestamp that was written then reads as a time not later than then.
    pub gives_up_in_time :
        IsUnreachable e
        → IsUnreachable f
        → Dict.lookup eviction_annotation d ≡ none
        → T.parse (T.format first) ≡ ok since
        → since ≤ first
        → first + eviction_delay < last
        → (check_connectivity T last
            (some f)
            (check_connectivity T first (some e) d).annotations).clean_managed
          ≡ false
    gives_up_in_time lost again fresh reads earlier waited = rw (first_check first e d lost fresh) (
        (gives_up_iff last f (Dict.insert eviction_annotation (T.format first) d)).1 (
          again,
          (
            T.format first,
            (
              since,
              (
                ground (
                  arith,
                  Dict.lookup-insert eviction_annotation eviction_annotation (T.format first) d,
                ),
                (reads, omega arith),
              ),
            ),
          ),
        ))

    -- This is so even if a check in between reached the cluster: a successful one keeps the timestamp.
    pub gives_up_reachable :
        (between : ℕ)
        → IsUnreachable e
        → IsUnreachable f
        → Dict.lookup eviction_annotation d ≡ none
        → T.parse (T.format first) ≡ ok since
        → since ≤ first
        → first + eviction_delay < last
        → let d1 = (check_connectivity T first (some e) d).annotations in
          let d2 = (check_connectivity T between none d1).annotations in
          (check_connectivity T last (some f) d2).clean_managed ≡ false
    unfolding check_connectivity
    gives_up_reachable between lost again fresh reads earlier waited =
        gives_up_in_time lost again fresh reads earlier waited
