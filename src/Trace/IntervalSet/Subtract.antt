-- ===== src/Trace/IntervalSet/Subtract.antt =====
-- The iterator walk of `subtract`, step by step, against the plain recursion of `Reference`.
use noleax.Prelude.{ℕ, suc, ◌≤◌, ◌<◌, [], ◌∷◌, ◌++◌, ◌≡◌, refl, ◌∙◌, All, arith}
use noleax.Trace.IntervalSet.Reference.{IsOrdered, cut, clip, keep_left, keep_right}
use noleax.Trace.IntervalSet.{
  IntervalSet, Fragment, emplace, upper_bound, back_up, range_start, lower_bound,
  intersections_loop, intersections, subtract_loop, subtract,
}
use mathlib.Core.List.{append-nil}

module _ {T : Type 0} where
  IsOrdered-All-begin :
      (k low : ℕ) (fs : IntervalSet T) → k ≤ low → IsOrdered low fs → All (λ f. k ≤ f.begin) fs
  IsOrdered-All-begin k low [] h o = tt
  IsOrdered-All-begin k low (f ∷ fs) h o =
      (omega arith, IsOrdered-All-begin k f.end fs (omega arith) o.2)

  IsOrdered-All-end :
      (k low : ℕ) (fs : IntervalSet T) → k ≤ low → IsOrdered low fs → All (λ f. k ≤ f.end) fs
  IsOrdered-All-end k low [] h o = tt
  IsOrdered-All-end k low (f ∷ fs) h o =
      (omega arith, IsOrdered-All-end k f.end fs (omega arith) o.2)

  -- An interval that is emplaced before all others is the new head.
  emplace_first :
      (f : Fragment T) (low : ℕ) (fs : IntervalSet T)
      → f.begin < low
      → IsOrdered low fs
      → emplace f fs ≡ f ∷ fs
  unfolding emplace
  emplace_first f low [] h o = refl
  emplace_first f low (g ∷ gs) h o = ground arith

  upper_bound_parts :
      (key low : ℕ) (fs : IntervalSet T)
      → IsOrdered low fs
      → ((upper_bound key fs).0 ++ (upper_bound key fs).1 ≡ fs)
        × All (λ f. f.begin ≤ key) (upper_bound key fs).0
        × All (λ f. key < f.end) (upper_bound key fs).1
  unfolding upper_bound
  upper_bound_parts key low [] o = (refl, tt, tt)
  upper_bound_parts key low (f ∷ fs) o =
      ground (arith, upper_bound_parts key f.end fs o.2, IsOrdered-All-end (suc key) f.end fs)

  lower_bound_parts :
      (end low : ℕ) (fs : IntervalSet T)
      → IsOrdered low fs
      → ((lower_bound end fs).0 ++ (lower_bound end fs).1 ≡ fs)
        × All (λ f. f.begin < end) (lower_bound end fs).0
        × All (λ f. end ≤ f.begin) (lower_bound end fs).1
  unfolding lower_bound
  lower_bound_parts end low [] o = (refl, tt, tt)
  lower_bound_parts end low (f ∷ fs) o =
      ground (arith, lower_bound_parts end f.end fs o.2, IsOrdered-All-begin end f.end fs)

  back_up_parts :
      (begin low : ℕ) (le gt : IntervalSet T)
      → IsOrdered low (le ++ gt)
      → All (λ f. f.begin ≤ begin) le
      → All (λ f. begin < f.end) gt
      → ((back_up begin le gt).0 ++ (back_up begin le gt).1 ≡ le ++ gt)
        × All (λ f. f.end ≤ begin) (back_up begin le gt).0
        × All (λ f. begin < f.end) (back_up begin le gt).1
  unfolding back_up
  back_up_parts begin low [] gt o hl hg = (refl, tt, hg)
  back_up_parts begin low (f ∷ []) gt o hl hg = ground arith
  back_up_parts begin low (f ∷ g ∷ le) gt o hl hg =
      ground (arith, back_up_parts begin f.end (g ∷ le) gt o.2 hl.1 hg)

  range_start_parts :
      (begin low : ℕ) (fs : IntervalSet T)
      → IsOrdered low fs
      → ((range_start begin fs).0 ++ (range_start begin fs).1 ≡ fs)
        × All (λ f. f.end ≤ begin) (range_start begin fs).0
        × All (λ f. begin < f.end) (range_start begin fs).1
  unfolding range_start
  range_start_parts begin low fs o =
      let (e, hl, hg) = upper_bound_parts begin low fs o in
      let (e', hl', hg') = back_up_parts begin low _ _ (rw e o) hl hg in (e' ∙ e, hl', hg')

  -- Outside the range nothing is cut, and nothing is clipped.
  cut_before :
      (begin end : ℕ) (before rest : IntervalSet T)
      → begin < end
      → All (λ f. f.end ≤ begin) before
      → All (λ f. f.begin < f.end) before
      → (cut begin end (before ++ rest) ≡ before ++ cut begin end rest)
        × (clip begin end (before ++ rest) ≡ clip begin end rest)
  unfolding keep_left keep_right
  cut_before begin end [] rest h hb ho = (refl, refl)
  cut_before begin end (f ∷ fs) rest h hb ho =
      ground (arith, cut_before begin end fs rest h hb.1 ho.1)

  cut_after :
      (begin end low : ℕ) (fs : IntervalSet T)
      → begin < end
      → end ≤ low
      → IsOrdered low fs
      → (cut begin end fs ≡ fs) × (clip begin end fs ≡ [])
  unfolding keep_left keep_right
  cut_after begin end low [] h hl o = (refl, refl)
  cut_after begin end low (f ∷ fs) h hl o =
      ground (arith, cut_after begin end f.end fs h (omega arith) o.2)

  cut_high :
      (begin end low : ℕ) (fs : IntervalSet T)
      → begin < end
      → All (λ f. end ≤ f.begin) fs
      → IsOrdered low fs
      → (cut begin end fs ≡ fs) × (clip begin end fs ≡ [])
  cut_high begin end low [] h hb o = (refl, refl)
  cut_high begin end low (f ∷ fs) h hb o =
      cut_after begin end f.begin (f ∷ fs) h hb.0 (omega arith, o.1, o.2)

  subtract_loop-cut :
      (begin end low : ℕ) (fs high : IntervalSet T)
      → begin < end
      → IsOrdered low (fs ++ high)
      → All (λ f. begin < f.end) fs
      → All (λ f. f.begin < end) fs
      → All (λ f. end ≤ f.begin) high
      → subtract_loop begin end fs high ≡ (clip begin end fs, cut begin end fs ++ high)
  unfolding subtract_loop keep_left keep_right
  subtract_loop-cut begin end low [] high h o hb he hh = refl
  subtract_loop-cut begin end low (f ∷ []) high h o hb he hh =
      ground
        (arith, emplace_first (record { begin = end; end = f.end; value = f.value }) f.end high)
  subtract_loop-cut begin end low (f ∷ g ∷ fs) high h o hb he hh =
      ground (arith, subtract_loop-cut begin end f.end (g ∷ fs) high h o.2 hb.1 he.1 hh)

  IsOrdered-drop :
      (low : ℕ) (xs ys : IntervalSet T)
      → IsOrdered low (xs ++ ys)
      → (low' : ℕ) × (low ≤ low') × IsOrdered low' ys
  IsOrdered-drop low [] ys o = (low, omega arith, o)
  IsOrdered-drop low (x ∷ xs) ys o =
      let (low', h, o') = IsOrdered-drop x.end xs ys o.2 in (low', omega arith, o')

  IsOrdered-All-nonempty :
      (low : ℕ) (xs ys : IntervalSet T) → IsOrdered low (xs ++ ys) → All (λ f. f.begin < f.end) xs
  IsOrdered-All-nonempty low [] ys o = tt
  IsOrdered-All-nonempty low (x ∷ xs) ys o = (o.1, IsOrdered-All-nonempty x.end xs ys o.2)

  All-left {κ} : (P : Fragment T → Type κ) (xs ys : IntervalSet T) → All P (xs ++ ys) → All P xs
  All-left P [] ys h = tt
  All-left P (x ∷ xs) ys h = (h.0, All-left P xs ys h.1)

  cut-append :
      (begin end : ℕ) (xs ys : IntervalSet T)
      → (cut begin end (xs ++ ys) ≡ cut begin end xs ++ cut begin end ys)
        × (clip begin end (xs ++ ys) ≡ clip begin end xs ++ clip begin end ys)
  unfolding keep_left keep_right
  cut-append begin end [] ys = (refl, refl)
  cut-append begin end (f ∷ fs) ys = ground (arith, cut-append begin end fs ys)

  -- From the start of the range on, the loop of `subtract` cuts.
  subtract_rest :
      (begin end low : ℕ) (rest : IntervalSet T)
      → begin < end
      → IsOrdered low rest
      → All (λ f. begin < f.end) rest
      → subtract_loop begin end (lower_bound end rest).0 (lower_bound end rest).1
        ≡ (clip begin end rest, cut begin end rest)
  subtract_rest begin end low rest h o hb =
      let lo = (lower_bound end rest).0 in
      let hi = (lower_bound end rest).1 in
      let (e, hl, hh) = lower_bound_parts end low rest o in
      let o' : IsOrdered low (lo ++ hi) = rw e o in
      let hb' : All (λ f. begin < f.end) (lo ++ hi) = rw e hb in
      let (low', _, ohi) = IsOrdered-drop low lo hi o' in
      ground (
        arith,
        e,
        subtract_loop-cut begin end low lo hi h o' (All-left _ lo hi hb') hl hh,
        cut-append begin end lo hi,
        cut_high begin end low' hi h hh ohi,
        append-nil (clip begin end lo),
      )

  -- On an ordered set and a range that is not empty, the map walk of `subtract` does what the plain
  -- recursion over all intervals does: it removes the clipped parts and keeps the rest.
  pub subtract-cut :
      (begin end low : ℕ) (fs : IntervalSet T)
      → begin < end
      → IsOrdered low fs
      → subtract begin end fs ≡ (clip begin end fs, cut begin end fs)
  unfolding subtract
  subtract-cut begin end low fs h o =
      let before = (range_start begin fs).0 in
      let rest = (range_start begin fs).1 in
      let (e, hb, hr) = range_start_parts begin low fs o in
      let o' : IsOrdered low (before ++ rest) = rw e o in
      let (low', _, orest) = IsOrdered-drop low before rest o' in
      ground (
        arith,
        e,
        subtract_rest begin end low' rest h orest hr,
        cut_before begin end before rest h hb (IsOrdered-All-nonempty low before rest o'),
      )

  intersections_loop-clip :
      (begin end low : ℕ) (fs : IntervalSet T)
      → begin < end
      → IsOrdered low fs
      → intersections_loop begin end fs ≡ clip begin end fs
  unfolding intersections_loop
  intersections_loop-clip begin end low [] h o = refl
  intersections_loop-clip begin end low (f ∷ fs) h o =
      ground (arith, intersections_loop-clip begin end f.end fs h o.2, cut_after begin end f.end fs)

  pub intersections-clip :
      (begin end low : ℕ) (fs : IntervalSet T)
      → begin < end
      → IsOrdered low fs
      → intersections begin end fs ≡ clip begin end fs
  unfolding intersections
  intersections-clip begin end low fs h o =
      let before = (range_start begin fs).0 in
      let rest = (range_start begin fs).1 in
      let (e, hb, hr) = range_start_parts begin low fs o in
      let o' : IsOrdered low (before ++ rest) = rw e o in
      let (low', _, orest) = IsOrdered-drop low before rest o' in
      ground (
        arith,
        e,
        intersections_loop-clip begin end low' rest h orest,
        cut_before begin end before rest h hb (IsOrdered-All-nonempty low before rest o'),
      )
