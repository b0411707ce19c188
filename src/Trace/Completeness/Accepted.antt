-- ===== src/Trace/Completeness/Accepted.antt =====
-- src/trace/completeness.cpp: `validate_statistics` accepts consistent statistics, and no others.
use noleax.Prelude.{ℕ, ◌+◌, ◌≤◌, ◌≡◌, sym, ◌∙◌, ◌↔◌, [], ◌||◌, ◌!=◌, IsU64, arith}
use noleax.Prelude.Error.{ok, Holds, Holds-throw_if, Holds-bind, Holds-mono, Holds-ok}
use noleax.Trace.Completeness.Statistics.{
  CaptureStatistics, Totals, no_totals, validate_call_counts, add_apis, check_totals,
  validate_statistics,
}
use noleax.Trace.Completeness.Consistency.{
  IsCounted, IsU64Apis, AreConsistent, Holds-counts, counts-ok, plus_all, AllAdded, IsU64Totals,
  Holds-add_apis, add_apis-ok,
}

-- The counters of a capture are unsigned 64-bit integers.
pub record IsU64Statistics (s : CaptureStatistics) : Type 0 where
  pub observed : IsU64 s.observed_calls
  pub succeeded : IsU64 s.successful_operations
  pub failed : IsU64 s.failed_operations
  pub filtered : IsU64 s.filtered_before_queue
  pub dropped : IsU64 s.dropped_events
  pub unique : IsU64 s.unique_stacks
  pub reused : IsU64 s.reused_stacks
  pub apis : IsU64Apis s.per_api

pointwise :
    (t u : Totals)
    → t.observed ≡ u.observed
    → t.succeeded ≡ u.succeeded
    → t.failed ≡ u.failed
    → t.filtered ≡ u.filtered
    → t.dropped ≡ u.dropped
    → t ≡ u
pointwise t u e₁ e₂ e₃ e₄ e₅ = λ i. record {
  observed = e₁ i;
  succeeded = e₂ i;
  failed = e₃ i;
  filtered = e₄ i;
  dropped = e₅ i;
}

abbrev aggregate : CaptureStatistics → Totals
aggregate s = record {
  observed = s.observed_calls;
  succeeded = s.successful_operations;
  failed = s.failed_operations;
  filtered = s.filtered_before_queue;
  dropped = s.dropped_events;
}

pub HasRoom : CaptureStatistics → Type 0
HasRoom s =
    s.filtered_before_queue + s.dropped_events + s.unique_stacks + s.reused_stacks
    ≤ s.observed_calls

-- The counts fit each other, for each API and together, no API is counted twice, the APIs add up to
-- the aggregate, and there are no more stacks than recorded events.
pub record IsConsistent (s : CaptureStatistics) : Type 0 where
  pub counted :
      IsCounted s.observed_calls s.successful_operations s.failed_operations s.filtered_before_queue
        s.dropped_events
  pub apis : AreConsistent [] s.per_api
  pub sums : plus_all no_totals s.per_api ≡ aggregate s
  pub stacks : HasRoom s

aggregate-IsU64Totals : (s : CaptureStatistics) → IsU64Statistics s → IsU64Totals (aggregate s)
aggregate-IsU64Totals s u = record {
  observed = u.observed;
  succeeded = u.succeeded;
  failed = u.failed;
  filtered = u.filtered;
  dropped = u.dropped;
}

HasCounts : CaptureStatistics → Type 0
HasCounts s =
    IsCounted s.observed_calls s.successful_operations s.failed_operations s.filtered_before_queue
      s.dropped_events

-- What the end of `validate_statistics` has seen to.
Checked : CaptureStatistics → Totals → Unit {0} → Type 0
Checked s t _ = (t ≡ aggregate s) × HasRoom s

Holds-check_totals :
    (s : CaptureStatistics) (t : Totals)
    → IsU64Statistics s
    → HasCounts s
    → Holds (Checked s t) (check_totals s t)
unfolding check_totals Checked HasRoom HasCounts IsCounted
Holds-check_totals s t u c =
    Holds-throw_if (Checked s t)
      (t.observed != s.observed_calls
        || t.succeeded != s.successful_operations
        || t.failed != s.failed_operations
        || t.filtered != s.filtered_before_queue
        || t.dropped != s.dropped_events)
      _ _ λ same. ground (arith, same, u.observed, u.unique, u.reused, c, pointwise t (aggregate s))

check_totals-ok :
    (s : CaptureStatistics)
    → IsU64Statistics s
    → HasCounts s
    → HasRoom s
    → check_totals s (aggregate s) ≡ ok tt
unfolding check_totals HasRoom HasCounts IsCounted
check_totals-ok s u c h = ground (arith, u.observed, u.unique, u.reused, c)

Holds-validate_statistics :
    (s : CaptureStatistics)
    → IsU64Statistics s
    → Holds (λ _. IsConsistent s) (validate_statistics s)
unfolding validate_statistics AllAdded Checked HasCounts IsCounted
Holds-validate_statistics s u =
    Holds-bind P (λ _. IsCounted o c f l d) (validate_call_counts o c f l d "aggregate") _
      (Holds-counts o c f l d "aggregate" u.observed u.succeeded u.failed u.filtered u.dropped)
      λ _ counted.
        Holds-bind P (AllAdded no_totals [] s.per_api) (add_apis no_totals [] s.per_api) _
          (Holds-add_apis s.per_api no_totals [] u.apis)
          λ t added.
            Holds-mono (Checked s t) P (check_totals s t)
              (λ _ k. record {
                counted = counted;
                apis = added.1;
                sums = sym added.0 ∙ k.0;
                stacks = k.1;
              })
              (Holds-check_totals s t u counted)
  where
    o : ℕ
    o = s.observed_calls

    c : ℕ
    c = s.successful_operations

    f : ℕ
    f = s.failed_operations

    l : ℕ
    l = s.filtered_before_queue

    d : ℕ
    d = s.dropped_events

    P : Unit {0} → Type 0
    P _ = IsConsistent s

-- Statistics of 64-bit counters are accepted exactly where they are consistent: the counts fit each
-- other, for each API and together, no API is without an identifier or counted twice, the APIs add
-- up to the aggregate, and there are no more stacks than recorded events.
pub validate_statistics_lem :
    (s : CaptureStatistics) → IsU64Statistics s → (validate_statistics s ≡ ok tt) ↔ IsConsistent s
unfolding validate_statistics HasCounts IsCounted
validate_statistics_lem s u = (
  λ e. Holds-ok (λ _. IsConsistent s) (validate_statistics s) e (Holds-validate_statistics s u),
  λ c.
      rw
        (
          counts-ok s.observed_calls s.successful_operations s.failed_operations
              s.filtered_before_queue s.dropped_events "aggregate" u.observed u.succeeded u.failed
              u.filtered u.dropped c.counted,
          add_apis-ok s.per_api no_totals [] u.apis c.apis (rw c.sums (aggregate-IsU64Totals s u)),
          c.sums,
        )
        (check_totals-ok s u c.counted c.stacks),
)
