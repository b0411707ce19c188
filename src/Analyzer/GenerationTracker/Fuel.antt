-- ===== src/Analyzer/GenerationTracker/Fuel.antt =====
-- The fuel of `run_end` is enough: the `for (;;)` of `observe_vm_allocate` ends.
use noleax.Prelude.{
  ℕ, zero, suc, ◌+◌, ◌≤◌, ◌<◌, [], ◌∷◌, ◌≡◌, ◌≢◌, sym, ◌∙◌, none, some, leb, ◌!=◌, length, arith,
  inl, inr, Option-cases, Bool-cases, if◌then◌else◌,
}
use noleax.Prelude.Error.{err, out_of_fuel}
use noleax.Trace.IntervalSet as Intervals
use noleax.Trace.IntervalSet.{IntervalSet, Fragment}
use noleax.Trace.IntervalSet.Reference.{IsOrdered}
use noleax.Trace.IntervalSet.Laws.{fragment_at, find-fragment_at, size-length}
use noleax.Analyzer.GenerationTracker.Mappings.{run_end, resize_live}

-- How many fragments begin at or after the point.
fragments_from : ℕ → IntervalSet ℕ → ℕ
fragments_from point [] = 0
fragments_from point (f ∷ fs) = (if leb point f.begin then 1 else 0) + fragments_from point fs

fragments_from-le-length : (point : ℕ) (fs : IntervalSet ℕ) → fragments_from point fs ≤ length fs
unfolding fragments_from
fragments_from-le-length point [] = omega arith
fragments_from-le-length point (f ∷ fs) = ground (arith, fragments_from-le-length point fs)

fragments_from_anti :
    (a b : ℕ) (fs : IntervalSet ℕ) → a ≤ b → fragments_from b fs ≤ fragments_from a fs
unfolding fragments_from
fragments_from_anti a b [] h = omega arith
fragments_from_anti a b (f ∷ fs) h = ground (arith, fragments_from_anti a b fs h)

fragment_at_lt_end :
    (point : ℕ) (f : Fragment ℕ) (fs : IntervalSet ℕ)
    → fragment_at point fs ≡ some f
    → point < f.end
fragment_at_lt_end point f [] e = cc
fragment_at_lt_end point f (g ∷ gs) e = ground (arith, fragment_at_lt_end point f gs)

-- A step over the fragment that begins at the point leaves fewer.
fragments_from_falls :
    (point low : ℕ) (f : Fragment ℕ) (fs : IntervalSet ℕ)
    → IsOrdered low fs
    → fragment_at point fs ≡ some f
    → f.begin ≡ point
    → fragments_from f.end fs < fragments_from point fs
unfolding fragments_from
fragments_from_falls point low f [] o e h = cc
fragments_from_falls point low f (g ∷ gs) o e h = ground (
  arith,
  fragment_at_lt_end point f gs,
  fragments_from_falls point g.end f gs o.2,
  fragments_from_anti point g.end gs,
)

run_end_total :
    (fuel point : ℕ) (live : IntervalSet ℕ)
    → IsOrdered 0 live
    → fragments_from point live < fuel
    → (r : ℕ) × (run_end fuel live point ≡ some r)
unfolding run_end
run_end_total zero point live o h = absurd (omega arith)
run_end_total (suc fuel) point live o h = elim (Option-cases (Intervals.find point live)) [
  | inl e ↦ (point, rw (e, run_end))
  | inr (next, e) ↦ elim (Bool-cases (next.begin != point)) [
    | inl b ↦ (point, rw (e, run_end, b))
    | inr b ↦
        let (r, q) = run_end_total fuel next.end live o (
          omega (
            arith,
            fragments_from_falls point 0 next live o (sym (find-fragment_at point 0 live o) ∙ e)
                (ground arith),
          )) in
        (r, rw (e, run_end, b, q))
  ]
]

-- With one round more than there are fragments the search for the end of the run ends.
pub run_end-ne-none :
    (point : ℕ) (live : IntervalSet ℕ)
    → IsOrdered 0 live
    → run_end (suc (Intervals.size live)) live point ≢ none
run_end-ne-none point live o e =
    let (r, q) =
      run_end_total (suc (Intervals.size live)) point live o
        (omega (arith, fragments_from-le-length point live, size-length live)) in
    cc

-- On ordered fragments an update never runs out of fuel, whatever its range.
pub resize_live-ne-out_of_fuel :
    (live : IntervalSet ℕ) (base size : ℕ)
    → IsOrdered 0 live
    → resize_live live base size ≢ err out_of_fuel
unfolding resize_live
resize_live-ne-out_of_fuel live base size o = elim (Option-cases (Intervals.find base live)) [
  | inl e ↦ rw (e, resize_live) (λ p. cc)
  | inr (f, e) ↦
      let (r, q) =
        run_end_total (suc (Intervals.size live)) f.end live o
          (omega (arith, fragments_from-le-length f.end live, size-length live)) in
      rw (e, resize_live, q) (ground arith)
]
