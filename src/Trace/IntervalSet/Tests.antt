-- ===== src/Trace/IntervalSet/Tests.antt =====
-- Runs on a set of two intervals that touch.
use noleax.Prelude.{ℕ, ◌+◌, [], ◌∷◌, none, some, ◌≡◌, refl, if◌then◌else◌, All, IsU64, arith}
use noleax.Trace.IntervalSet.{
  IntervalSet, total_bytes, intersections, subtract, insert, emplace, upper_bound, back_up,
  range_start, lower_bound, subtract_loop,
}
use noleax.Trace.IntervalSet.Reference.{IsOrdered, value_at, cut, clip}
use noleax.Trace.IntervalSet.Subtract.{subtract-cut}
use noleax.Trace.IntervalSet.Laws.{
  in_range, IsOrdered-subtract, value_at-subtract, total_bytes-subtract, intersections-subtract,
  IsOrdered-insert, value_at-insert,
}

abbrev two : IntervalSet ℕ
two = record { begin = 2; end = 10; value = 1 } ∷ record { begin = 10; end = 30; value = 2 } ∷ []

two-IsOrdered : IsOrdered 0 two
two-IsOrdered = (omega arith, omega arith, (omega arith, omega arith, tt))

two-IsU64 : All (λ f. IsU64 f.end) two
two-IsU64 = (omega arith, (omega arith, tt))

-- A hole inside an interval leaves a prefix and a suffix.
subtract_inside :
    (subtract 12 20 two).1
    ≡ record { begin = 2; end = 10; value = 1 }
      ∷ record { begin = 10; end = 12; value = 2 }
      ∷ record { begin = 20; end = 30; value = 2 }
      ∷ []
unfolding subtract emplace upper_bound back_up range_start lower_bound subtract_loop
subtract_inside = refl

subtract-cut_example : subtract 5 20 two ≡ (clip 5 20 two, cut 5 20 two)
subtract-cut_example = subtract-cut 5 20 0 two (omega arith) two-IsOrdered

IsOrdered-subtract_example : IsOrdered 0 (subtract 5 20 two).0 × IsOrdered 0 (subtract 5 20 two).1
IsOrdered-subtract_example = IsOrdered-subtract 5 20 0 two two-IsOrdered

value_at-subtract_example :
    (value_at 12 (subtract 5 20 two).0 ≡ (if in_range 5 20 12 then value_at 12 two else none))
    × (value_at 12 (subtract 5 20 two).1 ≡ (if in_range 5 20 12 then none else value_at 12 two))
value_at-subtract_example = value_at-subtract 5 20 0 12 two two-IsOrdered

total_bytes-subtract_example :
    total_bytes (subtract 5 20 two).0 + total_bytes (subtract 5 20 two).1 ≡ total_bytes two
total_bytes-subtract_example = total_bytes-subtract 5 20 0 two two-IsOrdered two-IsU64

intersections-subtract_example : intersections 5 20 two ≡ (subtract 5 20 two).0
intersections-subtract_example = intersections-subtract 5 20 0 two two-IsOrdered

IsOrdered-insert_example : IsOrdered 0 (insert 5 20 7 two).1
IsOrdered-insert_example = IsOrdered-insert 5 20 0 7 two (omega arith) two-IsOrdered

value_at-insert_example :
    (value_at 12 (insert 5 20 7 two).0 ≡ (if in_range 5 20 12 then value_at 12 two else none))
    × (value_at 12 (insert 5 20 7 two).1 ≡ (if in_range 5 20 12 then some 7 else value_at 12 two))
value_at-insert_example = value_at-insert 5 20 0 12 7 two two-IsOrdered
