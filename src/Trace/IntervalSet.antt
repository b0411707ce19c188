-- ===== src/Trace/IntervalSet.antt =====
-- include/noleax/trace/interval_set.hpp: ordered half-open intervals that carry a value.
-- The `std::map` from begin to (end, value) is the list of its entries in key order.
pub mod Reference
pub mod Subtract
pub mod Laws
mod Tests
use noleax.Prelude.{
  ℕ, ◌+◌, ◌-◌, ◌%◌, ◌^◌, List, [], ◌∷◌, ◌++◌, Bool, true, false, ◌&&◌, Option, none, some, ltb, leb,
  ◌==◌, if◌then◌else◌, length,
}

-- `IntervalSet::Fragment`, `[begin, end)`; also an entry of the map, with its key as `begin`.
pub record Fragment {ℓ} (T : Type ℓ) : Type ℓ where
  pub begin : ℕ
  pub end : ℕ
  pub value : T

abbrev pub IntervalSet {ℓ} : Type ℓ → Type ℓ
IntervalSet T = List (Fragment T)

module _ {ℓ} {T : Type ℓ} where
  -- `std::map::emplace`: nothing is changed where the key is present.
  unfoldable pub emplace : Fragment T → IntervalSet T → IntervalSet T
  emplace f [] = f ∷ []
  emplace f (g ∷ gs) =
      if ltb f.begin g.begin
      then f ∷ g ∷ gs
      else if f.begin == g.begin
      then g ∷ gs
      else g ∷ emplace f gs

  -- `std::map::upper_bound`: the entries before the iterator, and those from it on.
  unfoldable pub upper_bound : ℕ → IntervalSet T → IntervalSet T × IntervalSet T
  upper_bound key [] = ([], [])
  upper_bound key (f ∷ fs) =
      let (le, gt) = upper_bound key fs in if ltb key f.begin then ([], f ∷ fs) else (f ∷ le, gt)

  -- The `std::prev` of an iterator, if it is not `begin()`.
  unfoldable pub last_entry : IntervalSet T → Option (Fragment T)
  last_entry [] = none
  last_entry (f ∷ []) = some f
  last_entry (f ∷ g ∷ gs) = last_entry (g ∷ gs)

  unfoldable pub empty : IntervalSet T → Bool
  empty [] = true
  empty (f ∷ fs) = false

  unfoldable pub size : IntervalSet T → ℕ
  size fs = length fs

  -- `total += entry.first - begin`, in `std::uint64_t`
  unfoldable pub total_from : ℕ → IntervalSet T → ℕ
  total_from total [] = total
  total_from total (f ∷ fs) = total_from ((total + (f.end + 2 ^ 64 - f.begin) % 2 ^ 64) % 2 ^ 64) fs

  unfoldable pub total_bytes : IntervalSet T → ℕ
  total_bytes fs = total_from 0 fs

  unfoldable pub candidate : ℕ → IntervalSet T → Option (Fragment T)
  candidate point fs = elim (last_entry (upper_bound point fs).0) [
    | none ↦ none
    | some f ↦ if ltb point f.end then some f else none
  ]

  unfoldable pub find : ℕ → IntervalSet T → Option (Fragment T)
  find point fs = candidate point fs

  -- The step back of `range_start`, over the two parts that `upper_bound` gives.
  unfoldable pub back_up : ℕ → IntervalSet T → IntervalSet T → IntervalSet T × IntervalSet T
  back_up begin [] gt = ([], gt)
  back_up begin (f ∷ []) gt = if ltb begin f.end then ([], f ∷ gt) else (f ∷ [], gt)
  back_up begin (f ∷ g ∷ le) gt =
      let (before, rest) = back_up begin (g ∷ le) gt in (f ∷ before, rest)

  unfoldable pub range_start : ℕ → IntervalSet T → IntervalSet T × IntervalSet T
  range_start begin fs = let (le, gt) = upper_bound begin fs in back_up begin le gt

  abbrev pub clip_begin : ℕ → Fragment T → ℕ
  clip_begin begin f = if ltb f.begin begin then begin else f.begin

  abbrev pub clip_end : ℕ → Fragment T → ℕ
  clip_end end f = if ltb f.end end then f.end else end

  -- `if (clip_begin < clip_end) result.push_back(...)`
  abbrev pub push_clip : ℕ → ℕ → Fragment T → List (Fragment T) → List (Fragment T)
  push_clip begin end f rest =
      if ltb (clip_begin begin f) (clip_end end f)
      then record { begin = clip_begin begin f; end = clip_end end f; value = f.value } ∷ rest
      else rest

  -- The loop of `intersections`, from the iterator on.
  pub intersections_loop : ℕ → ℕ → IntervalSet T → List (Fragment T)
  intersections_loop begin end [] = []
  intersections_loop begin end (f ∷ fs) =
      let later = intersections_loop begin end fs in
      if ltb f.begin end then push_clip begin end f later else []

  pub intersections : ℕ → ℕ → IntervalSet T → List (Fragment T)
  intersections begin end fs =
      if leb end begin then [] else intersections_loop begin end (range_start begin fs).1

  -- The entries from the iterator on whose key is below `end`, and the others: the loop of
  -- `subtract` visits the former, and what it emplaces, at the key `end`, joins the latter.
  unfoldable pub lower_bound : ℕ → IntervalSet T → IntervalSet T × IntervalSet T
  lower_bound end [] = ([], [])
  lower_bound end (f ∷ fs) =
      let (low, high) = lower_bound end fs in
      if ltb f.begin end then (f ∷ low, high) else ([], f ∷ fs)

  -- The loop of `subtract`: the removed pieces, and the entries from the iterator's start on.
  unfoldable pub subtract_loop :
      ℕ → ℕ → IntervalSet T → IntervalSet T → List (Fragment T) × IntervalSet T
  subtract_loop begin end [] high = ([], high)
  subtract_loop begin end (f ∷ fs) high =
      let suffix : Fragment T = record { begin = end; end = f.end; value = f.value } in
      let prefix : Fragment T = record f { end = begin } in
      let kept = subtract_loop begin end fs high in
      let moved = subtract_loop begin end fs (emplace suffix high) in
      if ltb f.begin begin && ltb end f.end
      then (push_clip begin end f [], prefix ∷ fs ++ emplace suffix high)
      else if ltb f.begin begin
      then (push_clip begin end f kept.0, prefix ∷ kept.1)
      else if ltb end f.end
      then (push_clip begin end f moved.0, moved.1)
      else (push_clip begin end f kept.0, kept.1)

  -- The removed pieces, and the set that is left.
  unfoldable pub subtract : ℕ → ℕ → IntervalSet T → List (Fragment T) × IntervalSet T
  subtract begin end fs =
      if leb end begin
      then ([], fs)
      else let (before, rest) = range_start begin fs in
        let (low, high) = lower_bound end rest in
        let (removed, kept) = subtract_loop begin end low high in (removed, before ++ kept)

  -- The evicted pieces, and the set with the new interval.
  unfoldable pub insert : ℕ → ℕ → T → IntervalSet T → List (Fragment T) × IntervalSet T
  insert begin end value fs =
      let (evicted, left) = subtract begin end fs in
      if ltb begin end
      then (evicted, emplace (record { begin = begin; end = end; value = value }) left)
      else (evicted, left)
