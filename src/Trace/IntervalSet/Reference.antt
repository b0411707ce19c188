-- ===== src/Trace/IntervalSet/Reference.antt =====
-- What an interval set means: the well-formed sets, the value at a point, and `subtract` written
-- as a plain recursion over all intervals.
use noleax.Prelude.{
  ℕ, Bool, ◌+◌, ◌-◌, ◌≤◌, ◌<◌, List, [], ◌∷◌, ◌&&◌, Option, none, some, ltb, leb, ◌≡◌, refl,
  if◌then◌else◌, arith,
}
use noleax.Trace.IntervalSet.{Fragment, IntervalSet, clip_end, push_clip}

module _ {ℓ} {T : Type ℓ} where
  -- The class invariant: sorted, pairwise non-overlapping, not empty; all from `low` on.
  abbrev pub IsOrdered : ℕ → IntervalSet T → Type 0
  IsOrdered low [] = Unit {0}
  IsOrdered low (f ∷ fs) = (low ≤ f.begin) × (f.begin < f.end) × IsOrdered f.end fs

  abbrev pub holds : ℕ → Fragment T → Bool
  holds point f = leb f.begin point && ltb point f.end

  -- The value of the interval that holds the point.
  abbrev pub value_at : ℕ → IntervalSet T → Option T
  value_at point [] = none
  value_at point (f ∷ fs) = if holds point f then some f.value else value_at point fs

  -- The sum of the lengths, as a number without a width.
  abbrev pub bytes : IntervalSet T → ℕ
  bytes [] = 0
  bytes (f ∷ fs) = f.end - f.begin + bytes fs

  unfoldable pub keep_right : ℕ → Fragment T → IntervalSet T → IntervalSet T
  keep_right end f rest =
      if ltb end f.end
      then record f { begin = if ltb f.begin end then end else f.begin } ∷ rest
      else rest

  unfoldable pub keep_left : ℕ → Fragment T → IntervalSet T → IntervalSet T
  keep_left begin f rest =
      if ltb f.begin begin
      then record f { end = if ltb f.end begin then f.end else begin } ∷ rest
      else rest

  -- What is left of each interval on both sides of `[begin, end)`.
  abbrev pub cut : ℕ → ℕ → IntervalSet T → IntervalSet T
  cut begin end [] = []
  cut begin end (f ∷ fs) = keep_left begin f (keep_right end f (cut begin end fs))

  -- The part of each interval inside `[begin, end)`.
  abbrev pub clip : ℕ → ℕ → IntervalSet T → List (Fragment T)
  clip begin end [] = []
  clip begin end (f ∷ fs) = push_clip begin end f (clip begin end fs)

-- The laws, for values in the lowest universe: the tactics split on numbers there only.
module _ {T : Type 0} where
  pub IsOrdered-weaken :
      (low low' : ℕ) (fs : IntervalSet T) → low' ≤ low → IsOrdered low fs → IsOrdered low' fs
  IsOrdered-weaken low low' [] h o = tt
  IsOrdered-weaken low low' (f ∷ fs) h o = (omega arith, o.1, o.2)

  pub IsOrdered-cut :
      (begin end low : ℕ) (fs : IntervalSet T)
      → begin < end
      → IsOrdered low fs
      → IsOrdered low (cut begin end fs)
  unfolding keep_left keep_right
  IsOrdered-cut begin end low [] h o = tt
  IsOrdered-cut begin end low (f ∷ fs) h o = ground (
    arith,
    IsOrdered-cut begin end f.end fs h o.2,
    IsOrdered-weaken f.end end (cut begin end fs),
    IsOrdered-weaken f.end begin (cut begin end fs),
    IsOrdered-weaken f.end low (cut begin end fs),
  )

  pub IsOrdered-clip :
      (begin end low : ℕ) (fs : IntervalSet T)
      → IsOrdered low fs
      → IsOrdered low (clip begin end fs)
  IsOrdered-clip begin end low [] o = tt
  IsOrdered-clip begin end low (f ∷ fs) o = ground (
    arith,
    IsOrdered-clip begin end f.end fs o.2,
    IsOrdered-weaken f.end (clip_end end f) (clip begin end fs),
    IsOrdered-weaken f.end low (clip begin end fs),
  )

  pub value_at-below :
      (point low : ℕ) (fs : IntervalSet T)
      → IsOrdered low fs
      → point < low
      → value_at point fs ≡ none
  value_at-below point low [] o h = refl
  value_at-below point low (f ∷ fs) o h = ground (arith, value_at-below point f.end fs o.2)

  value_at-keep_left :
      (begin point : ℕ) (f : Fragment T) (rest : IntervalSet T)
      → value_at point (keep_left begin f rest)
        ≡ (if holds point f && ltb point begin then some f.value else value_at point rest)
  unfolding keep_left
  value_at-keep_left begin point f rest = ground arith

  value_at-keep_right :
      (end point : ℕ) (f : Fragment T) (rest : IntervalSet T)
      → value_at point (keep_right end f rest)
        ≡ (if holds point f && leb end point then some f.value else value_at point rest)
  unfolding keep_right
  value_at-keep_right end point f rest = ground arith

  pub value_at-cut :
      (begin end low point : ℕ) (fs : IntervalSet T)
      → begin < end
      → IsOrdered low fs
      → value_at point (cut begin end fs)
        ≡ (if leb begin point && ltb point end then none else value_at point fs)
  value_at-cut begin end low point [] h o = ground arith
  value_at-cut begin end low point (f ∷ fs) h o =
      rw
        (
          value_at-keep_left begin point f (keep_right end f (cut begin end fs)),
          value_at-keep_right end point f (cut begin end fs),
          value_at-cut begin end f.end point fs h o.2,
        )
        (ground (arith, value_at-below point f.end fs o.2))

  pub value_at-clip :
      (begin end low point : ℕ) (fs : IntervalSet T)
      → IsOrdered low fs
      → value_at point (clip begin end fs)
        ≡ (if leb begin point && ltb point end then value_at point fs else none)
  value_at-clip begin end low point [] o = ground arith
  value_at-clip begin end low point (f ∷ fs) o =
      ground (arith, value_at-clip begin end f.end point fs o.2, value_at-below point f.end fs o.2)

  pub bytes-cut-clip :
      (begin end : ℕ) (low : ℕ) (fs : IntervalSet T)
      → begin < end
      → IsOrdered low fs
      → bytes (cut begin end fs) + bytes (clip begin end fs) ≡ bytes fs
  unfolding keep_left keep_right
  bytes-cut-clip begin end low [] h o = omega arith
  bytes-cut-clip begin end low (f ∷ fs) h o =
      ground (arith, bytes-cut-clip begin end f.end fs h o.2)
