-- ===== src/Trace/IntervalSet/Laws.antt =====
-- What the operations of an interval set do to the value at each point, to the class invariant,
-- and to the number of bytes.
use noleax.Prelude.{
  ℕ, Bool, true, ◌+◌, ◌-◌, ◌≤◌, ◌<◌, List, [], ◌∷◌, ◌&&◌, Option, none, some, ltb, leb, ◌≡◌, refl,
  if◌then◌else◌, All, arith, IsU64, length,
}
use noleax.Trace.IntervalSet.Reference.{
  IsOrdered, holds, value_at, bytes, cut, clip, IsOrdered-weaken, IsOrdered-cut, IsOrdered-clip,
  value_at-cut, value_at-clip, bytes-cut-clip, keep_left, keep_right,
}
use noleax.Trace.IntervalSet.Subtract.{subtract-cut, intersections-clip}
use noleax.Trace.IntervalSet.{
  IntervalSet, Fragment, emplace, upper_bound, last_entry, back_up, range_start, lower_bound,
  subtract_loop, candidate, find, total_from, total_bytes, intersections, subtract, insert, size,
  empty,
}
use native.Mathlib.Decide.{dec_lt}

abbrev pub in_range : ℕ → ℕ → ℕ → Bool
in_range begin end point = leb begin point && ltb point end

module _ {T : Type 0} where
  -- The first interval that holds the point.
  abbrev pub fragment_at : ℕ → IntervalSet T → Option (Fragment T)
  fragment_at point [] = none
  fragment_at point (f ∷ fs) = if holds point f then some f else fragment_at point fs

  fragment_at-below :
      (point low : ℕ) (fs : IntervalSet T)
      → IsOrdered low fs
      → point < low
      → (fragment_at point fs ≡ none) × ((upper_bound point fs).0 ≡ [])
  unfolding upper_bound
  fragment_at-below point low [] o h = (refl, refl)
  fragment_at-below point low (f ∷ fs) o h =
      ground (arith, fragment_at-below point f.end fs o.2 (omega arith))

  last_entry-cons :
      (f : Fragment T) (fs : List (Fragment T))
      → last_entry (f ∷ fs) ≡ (elim fs [ [] ↦ some f | g ∷ gs ↦ last_entry (g ∷ gs) ])
  unfolding last_entry
  last_entry-cons f [] = refl
  last_entry-cons f (g ∷ gs) = refl

  -- On an ordered set the search from the last key that is not above the point finds the interval
  -- that holds the point, and finds none where no interval holds it.
  pub find-fragment_at :
      (point low : ℕ) (fs : IntervalSet T) → IsOrdered low fs → find point fs ≡ fragment_at point fs
  unfolding find candidate upper_bound last_entry
  find-fragment_at point low [] o = refl
  find-fragment_at point low (f ∷ fs) o = ground (
    arith,
    find-fragment_at point f.end fs o.2,
    fragment_at-below point f.end fs o.2,
    last_entry-cons f (upper_bound point fs).0,
  )

  total_from-bytes :
      (total low : ℕ) (fs : IntervalSet T)
      → IsOrdered low fs
      → total ≤ low
      → All (λ f. IsU64 f.end) fs
      → total_from total fs ≡ total + bytes fs
  unfolding total_from
  total_from-bytes total low [] o h hu = omega arith
  total_from-bytes total low (f ∷ fs) o h hu =
      ground (arith, total_from-bytes (total + (f.end - f.begin)) f.end fs o.2)

  -- On an ordered set whose ends fit 64 bits the sum of `total_bytes` does not wrap: it is the sum of
  -- the lengths.
  pub total_bytes-bytes :
      (low : ℕ) (fs : IntervalSet T)
      → IsOrdered low fs
      → All (λ f. IsU64 f.end) fs
      → total_bytes fs ≡ bytes fs
  unfolding total_bytes
  total_bytes-bytes low fs o hu = omega (arith, total_from-bytes 0 low fs o (omega arith) hu)

  -- `subtract` keeps the class invariant of an ordered set, and the removed pieces satisfy it too.
  pub IsOrdered-subtract :
      (begin end low : ℕ) (fs : IntervalSet T)
      → IsOrdered low fs
      → IsOrdered low (subtract begin end fs).0 × IsOrdered low (subtract begin end fs).1
  IsOrdered-subtract begin end low fs o = elim (dec_lt begin end) [
    | yes h ↦
        rw (subtract-cut begin end low fs h o)
          (IsOrdered-clip begin end low fs o, IsOrdered-cut begin end low fs h o)
    | no h ↦ unfold subtract in ground arith
  ]

  -- From an ordered set, `subtract` returns what it held inside the range, and leaves what it held
  -- outside.
  pub value_at-subtract :
      (begin end low point : ℕ) (fs : IntervalSet T)
      → IsOrdered low fs
      → (value_at point (subtract begin end fs).0
          ≡ (if in_range begin end point then value_at point fs else none))
        × (value_at point (subtract begin end fs).1
            ≡ (if in_range begin end point then none else value_at point fs))
  value_at-subtract begin end low point fs o = elim (dec_lt begin end) [
    | yes h ↦
        rw (subtract-cut begin end low fs h o)
          (value_at-clip begin end low point fs o, value_at-cut begin end low point fs h o)
    | no h ↦ unfold subtract in ground arith
  ]

  bytes-subtract :
      (begin end low : ℕ) (fs : IntervalSet T)
      → IsOrdered low fs
      → bytes (subtract begin end fs).0 + bytes (subtract begin end fs).1 ≡ bytes fs
  bytes-subtract begin end low fs o = elim (dec_lt begin end) [
    | yes h ↦
        rw (subtract-cut begin end low fs h o) (omega (arith, bytes-cut-clip begin end low fs h o))
    | no h ↦ unfold subtract in ground arith
  ]

  All-IsU64-cut :
      (begin end : ℕ) (fs : IntervalSet T)
      → All (λ f. IsU64 f.end) fs
      → All (λ f. IsU64 f.end) (cut begin end fs) × All (λ f. IsU64 f.end) (clip begin end fs)
  unfolding keep_left keep_right
  All-IsU64-cut begin end [] h = (tt, tt)
  All-IsU64-cut begin end (f ∷ fs) h = ground (arith, All-IsU64-cut begin end fs h.1)

  pub All-IsU64-subtract :
      (begin end low : ℕ) (fs : IntervalSet T)
      → IsOrdered low fs
      → All (λ f. IsU64 f.end) fs
      → All (λ f. IsU64 f.end) (subtract begin end fs).0
        × All (λ f. IsU64 f.end) (subtract begin end fs).1
  All-IsU64-subtract begin end low fs o hu = elim (dec_lt begin end) [
    | yes h ↦
        let (c, l) = All-IsU64-cut begin end fs hu in rw (subtract-cut begin end low fs h o) (l, c)
    | no h ↦ unfold subtract in ground arith
  ]

  -- No byte of an ordered set of 64-bit intervals is lost or made by `subtract`: what is removed and
  -- what is left add up to what was there.
  pub total_bytes-subtract :
      (begin end low : ℕ) (fs : IntervalSet T)
      → IsOrdered low fs
      → All (λ f. IsU64 f.end) fs
      → total_bytes (subtract begin end fs).0 + total_bytes (subtract begin end fs).1
        ≡ total_bytes fs
  total_bytes-subtract begin end low fs o hu =
      let (removed, left) = IsOrdered-subtract begin end low fs o in
      let (hr, hl) = All-IsU64-subtract begin end low fs o hu in
      rw
        (
          total_bytes-bytes low (subtract begin end fs).0 removed hr,
          total_bytes-bytes low (subtract begin end fs).1 left hl,
          total_bytes-bytes low fs o hu,
        )
        (bytes-subtract begin end low fs o)

  -- On an ordered set, a query of a range shows exactly the pieces that removing the range would
  -- return.
  pub intersections-subtract :
      (begin end low : ℕ) (fs : IntervalSet T)
      → IsOrdered low fs
      → intersections begin end fs ≡ (subtract begin end fs).0
  intersections-subtract begin end low fs o = elim (dec_lt begin end) [
    | yes h ↦ rw (subtract-cut begin end low fs h o) (intersections-clip begin end low fs h o)
    | no h ↦ unfold subtract intersections in ground arith
  ]

  value_at-emplace :
      (f : Fragment T) (low point : ℕ) (gs : IntervalSet T)
      → IsOrdered low gs
      → value_at f.begin gs ≡ none
      → (holds point f ≡ true → value_at point gs ≡ none)
      → value_at point (emplace f gs) ≡ (if holds point f then some f.value else value_at point gs)
  unfolding emplace
  value_at-emplace f low point [] o hk hp = refl
  value_at-emplace f low point (g ∷ gs) o hk hp =
      ground (arith, value_at-emplace f g.end point gs o.2)

  IsOrdered-emplace :
      (begin end low : ℕ) (value : T) (fs : IntervalSet T)
      → begin < end
      → low ≤ begin
      → IsOrdered low fs
      → IsOrdered low
          (emplace (record { begin = begin; end = end; value = value }) (cut begin end fs))
  unfolding emplace keep_left keep_right
  IsOrdered-emplace begin end low value [] h hl o = omega arith
  IsOrdered-emplace begin end low value (f ∷ fs) h hl o = ground (
    arith,
    IsOrdered-emplace begin end low value fs h hl (IsOrdered-weaken f.end low fs (omega arith) o.2),
    (λ (le : f.end ≤ begin). IsOrdered-emplace begin end f.end value fs h le o.2),
    (λ (le : begin ≤ f.end).
        IsOrdered-emplace begin end begin value fs h (omega arith)
          (IsOrdered-weaken f.end begin fs le o.2)),
    IsOrdered-cut begin end f.end fs h o.2,
    IsOrdered-weaken f.end end (cut begin end fs),
  )

  -- `insert` keeps the class invariant of an ordered set that begins no later than the new interval.
  pub IsOrdered-insert :
      (begin end low : ℕ) (value : T) (fs : IntervalSet T)
      → low ≤ begin
      → IsOrdered low fs
      → IsOrdered low (insert begin end value fs).1
  unfolding insert
  IsOrdered-insert begin end low value fs hl o = elim (dec_lt begin end) [
    | yes h ↦
        ground (
          arith,
          subtract-cut begin end low fs h o,
          IsOrdered-emplace begin end low value fs h hl o,
        )
    | no h ↦ ground (arith, IsOrdered-subtract begin end low fs o)
  ]

  -- After an `insert` into an ordered set the range holds the new value and every other point what it
  -- held; the evicted pieces are what the range held.
  pub value_at-insert :
      (begin end low point : ℕ) (value : T) (fs : IntervalSet T)
      → IsOrdered low fs
      → (value_at point (insert begin end value fs).0
          ≡ (if in_range begin end point then value_at point fs else none))
        × (value_at point (insert begin end value fs).1
            ≡ (if in_range begin end point then some value else value_at point fs))
  unfolding insert
  value_at-insert begin end low point value fs o = ground (
    arith,
    value_at-subtract begin end low point fs o,
    value_at-subtract begin end low begin fs o,
    IsOrdered-subtract begin end low fs o,
    value_at-emplace (record { begin = begin; end = end; value = value }) low point
        (subtract begin end fs).1,
  )

  All-IsU64-emplace :
      (f : Fragment T) (gs : IntervalSet T)
      → IsU64 f.end
      → All (λ g. IsU64 g.end) gs
      → All (λ g. IsU64 g.end) (emplace f gs)
  unfolding emplace
  All-IsU64-emplace f [] h hg = (h, tt)
  All-IsU64-emplace f (g ∷ gs) h hg = ground (arith, All-IsU64-emplace f gs h hg.1)

  pub All-IsU64-insert :
      (begin end low : ℕ) (value : T) (fs : IntervalSet T)
      → IsOrdered low fs
      → (begin < end → IsU64 end)
      → All (λ f. IsU64 f.end) fs
      → All (λ f. IsU64 f.end) (insert begin end value fs).1
  unfolding insert
  All-IsU64-insert begin end low value fs o he hu = elim (dec_lt begin end) [
    | yes h ↦ ground (
      arith,
      All-IsU64-subtract begin end low fs o hu,
      All-IsU64-emplace (record { begin = begin; end = end; value = value })
          (subtract begin end fs).1 (he h),
    )
    | no h ↦ ground (arith, All-IsU64-subtract begin end low fs o hu)
  ]

  -- An interval inserted into the empty set.
  pub bytes-insert_empty :
      (begin end : ℕ) (value : T) → bytes (insert begin end value []).1 ≡ end - begin
  unfolding insert subtract range_start upper_bound back_up lower_bound subtract_loop emplace
  bytes-insert_empty begin end value = ground arith

  pub size-length : (fs : IntervalSet T) → size fs ≡ length fs
  unfolding size
  size-length fs = refl

  clip-cut :
      (begin end low : ℕ) (fs : IntervalSet T)
      → begin < end
      → IsOrdered low fs
      → clip begin end (cut begin end fs) ≡ []
  unfolding keep_left keep_right
  clip-cut begin end low [] h o = refl
  clip-cut begin end low (f ∷ fs) h o = ground (arith, clip-cut begin end f.end fs h o.2)

  -- What has been removed from an ordered set is not there to be removed again.
  pub subtract-subtract :
      (begin end low : ℕ) (fs : IntervalSet T)
      → IsOrdered low fs
      → (subtract begin end (subtract begin end fs).1).0 ≡ []
  subtract-subtract begin end low fs o = elim (dec_lt begin end) [
    | yes h ↦
        rw
          (
            subtract-cut begin end low fs h o,
            subtract-cut begin end low (cut begin end fs) h (IsOrdered-cut begin end low fs h o),
          )
          (clip-cut begin end low fs h o)
    | no h ↦ unfold subtract in ground arith
  ]

  pub empty-value_at : (point : ℕ) (fs : IntervalSet T) → empty fs ≡ true → value_at point fs ≡ none
  unfolding empty
  empty-value_at point [] h = refl
  empty-value_at point (f ∷ fs) h = cc

  pub empty_of_nil : (fs : IntervalSet T) → fs ≡ [] → empty fs ≡ true
  unfolding empty
  empty_of_nil [] h = refl
  empty_of_nil (f ∷ fs) h = cc
