-- ===== src/Trace/Completeness/Reports.antt =====
-- src/trace/completeness.cpp: a report as a set of issues, and what its states say of that set.
use noleax.Prelude.{
  ℕ, ◌-◌, ◌^◌, ◌<◌, ◌≡◌, refl, ◌↔◌, Bool, true, false, ◌&&◌, ◌||◌, if◌then◌else◌, ltb, leb, ◌==◌,
  ◌!=◌, arith,
}
use noleax.Prelude.Bits.{
  digit, bit_not, digit-bit_or, digit-bit_and, digit-bit_not, digit-pow, digit_le, digit-zero,
  digit-large, zero-digits, and_zero-digits, pow_mono, digit-ones, digit_cong, all_below,
  checked_below,
}
use noleax.Prelude.Error.{ok, ◌>>=◌}
use noleax.Trace.Completeness.{
  CompletenessIssue, CompletenessReport, from_mask, issue_value, known_issue_mask,
  lifecycle_issue_mask, stack_detail_issue_mask, understanding_issue_mask, add, remove, merge, has,
  complete, full, overall_state, lifecycle_state, stack_detail_state, understanding_state,
}
use noleax.Trace.Completeness.Issues.{
  issue_index, IsNamed, bit_at, add-IsNamed, remove-IsNamed, has-IsNamed, bit_at-or,
}
use Prim.Native.Nat.{bit_and, bit_or}

-- After a named issue was added to a report, it has that issue, and every other named issue as
-- before.
pub has-add :
    (r : CompletenessReport) (i j : CompletenessIssue)
    → IsNamed i
    → IsNamed j
    → (add r i >>= λ r'. has r' j) ≡ (if issue_index i == issue_index j then ok true else has r j)
has-add r i j hi hj =
    rw
      (
        add-IsNamed r i hi,
        has-IsNamed (from_mask (bit_or r.mask (2 ^ issue_index i))) j hj,
        has-IsNamed r j hj,
        bit_at-or (issue_index j) r.mask i,
      )
      (grind (arith, digit_le (issue_index j) r.mask))

pow_lt : (n : ℕ) → n < 11 → 2 ^ n < 2 ^ 32
pow_lt n h = omega (arith, pow_mono n 31 (omega arith))

pub bit_at-remove :
    (k m : ℕ) (i : CompletenessIssue)
    → IsNamed i
    → k < 32
    → digit k (bit_and m (bit_not (2 ^ issue_index i)))
      ≡ (if issue_index i == k then 0 else digit k m)
bit_at-remove k m i hi hk = grind (
  arith,
  digit-bit_and k m (bit_not (2 ^ issue_index i)),
  digit-bit_not k (2 ^ issue_index i) hk (pow_lt (issue_index i) hi),
  digit-pow k (issue_index i),
  digit_le k m,
)

-- After a named issue was removed from a report, it lacks that issue, and has every other named
-- issue as before.
pub has-remove :
    (r : CompletenessReport) (i j : CompletenessIssue)
    → IsNamed i
    → IsNamed j
    → (remove r i >>= λ r'. has r' j)
      ≡ (if issue_index i == issue_index j then ok false else has r j)
has-remove r i j hi hj =
    rw
      (
        remove-IsNamed r i hi,
        has-IsNamed (from_mask (bit_and r.mask (bit_not (2 ^ issue_index i)))) j hj,
        has-IsNamed r j hj,
        bit_at-remove (issue_index j) r.mask i hi (omega arith),
      )
      (grind arith)

-- A merged report has a named issue if one of the two reports has it.
pub has-merge :
    (r s : CompletenessReport) (j : CompletenessIssue)
    → IsNamed j
    → has (merge r s) j ≡ (do x ← has r j; y ← has s j; ok (x || y))
unfolding merge
has-merge r s j hj =
    rw
      (
        has-IsNamed (from_mask (bit_or r.mask s.mask)) j hj,
        has-IsNamed r j hj,
        has-IsNamed s j hj,
        digit-bit_or (issue_index j) r.mask s.mask,
      )
      (grind (arith, digit_le (issue_index j) r.mask, digit_le (issue_index j) s.mask))

-- No bit of `spoiling` is set, and none without a name.
abbrev is_clear : ℕ → ℕ → Bool
is_clear spoiling mask = bit_and mask spoiling == 0 && bit_and mask (2 ^ 32 - 2 ^ 11) == 0

digit-unnamed :
    (k : ℕ) → digit k (2 ^ 32 - 2 ^ 11) ≡ (if ltb k 11 then 0 else if ltb k 32 then 1 else 0)
unfolding bit_not
digit-unnamed k = grind (
  arith,
  digit-bit_not k (2 ^ 11 - 1),
  digit-ones k 11,
  digit-large k (2 ^ 32 - 2 ^ 11),
  pow_mono 32 k,
)

-- The digits of a mask of named issues are the values of a test of their places.
abbrev Reads : (ℕ → Bool) → ℕ → Type 0
Reads p spoiling = all_below 11 (λ k. digit k spoiling == (if p k then 1 else 0)) ≡ true

Reads-digit :
    (p : ℕ → Bool) (spoiling : ℕ) (k : ℕ)
    → Reads p spoiling
    → k < 11
    → digit k spoiling ≡ (if p k then 1 else 0)
Reads-digit p spoiling k t lt =
    ground (arith, checked_below 11 (λ j. digit j spoiling == (if p j then 1 else 0)) k lt t)

is_clear-digits :
    (p : ℕ → Bool) (spoiling mask : ℕ)
    → Reads p spoiling
    → mask < 2 ^ 32
    → spoiling < 2 ^ 11
    → (is_clear spoiling mask ≡ true) ↔ ((k : ℕ) → (leb 11 k || p k) ≡ true → digit k mask ≡ 0)
is_clear-digits p spoiling mask t h small = (
  λ e k hk. grind (
    arith,
    (and_zero-digits mask spoiling).0 (ground (arith, e)) k,
    (and_zero-digits mask (2 ^ 32 - 2 ^ 11)).0 (ground (arith, e)) k,
    Reads-digit p spoiling k t,
    digit-unnamed k,
    digit-large k mask,
    pow_mono 32 k,
  ),
  λ f. ground (
    arith,
    (and_zero-digits mask spoiling).1 (λ k d.
        f k (grind (arith, Reads-digit p spoiling k t, digit-large k spoiling, pow_mono 11 k))),
    (and_zero-digits mask (2 ^ 32 - 2 ^ 11)).1 (λ k d. f k (grind (arith, digit-unnamed k))),
  ),
)

-- A trace is complete exactly where its report has no bit set.
pub overall_state_lem :
    (r : CompletenessReport) → (overall_state r ≡ complete) ↔ ((k : ℕ) → bit_at k r ≡ 0)
unfolding overall_state
overall_state_lem r = (
  λ e k. ground (arith, digit_cong k r.mask 0, digit-zero k),
  λ f. ground (arith, zero-digits r.mask r.mask (omega arith) f),
)

-- The lifecycle of a 32-bit report is complete exactly where no bit is set but that of lost stack
-- data.
pub lifecycle_state_lem :
    (r : CompletenessReport)
    → r.mask < 2 ^ 32
    → (lifecycle_state r ≡ complete) ↔ ((k : ℕ) → (k != 8) ≡ true → bit_at k r ≡ 0)
unfolding lifecycle_state lifecycle_issue_mask known_issue_mask bit_not digit issue_value
lifecycle_state_lem r h =
    let c = is_clear-digits (λ k. k != 8) lifecycle_issue_mask r.mask refl h (omega arith) in
    (
      λ e k hk. c.0 (ground (arith, e)) k (ground (arith, hk)),
      λ f. ground (arith, c.1 (λ k hk. f k (ground (arith, hk)))),
    )

-- The stacks of a 32-bit report are complete exactly where no bit is set but those of a late start
-- and of unknown earlier allocations.
pub stack_detail_state_lem :
    (r : CompletenessReport)
    → r.mask < 2 ^ 32
    → (stack_detail_state r ≡ complete) ↔ ((k : ℕ) → leb 2 k ≡ true → bit_at k r ≡ 0)
unfolding stack_detail_state stack_detail_issue_mask known_issue_mask bit_not digit issue_value
stack_detail_state_lem r h =
    let c = is_clear-digits (λ k. leb 2 k) stack_detail_issue_mask r.mask refl h (omega arith) in
    (
      λ e k hk. c.0 (ground (arith, e)) k (ground (arith, hk)),
      λ f. ground (arith, c.1 (λ k hk. f k (ground (arith, hk)))),
    )

-- A trace with a 32-bit report is fully understood exactly where its report has no bit of a skipped
-- record or of a partially understood format, and none without a name.
pub understanding_state_lem :
    (r : CompletenessReport)
    → r.mask < 2 ^ 32
    → (understanding_state r ≡ full)
      ↔ ((k : ℕ) → (leb 11 k || k == 5 || k == 9) ≡ true → bit_at k r ≡ 0)
unfolding understanding_state understanding_issue_mask known_issue_mask bit_not digit issue_value
understanding_state_lem r h =
    let c =
      is_clear-digits (λ k. k == 5 || k == 9) understanding_issue_mask r.mask refl h
        (omega arith) in
    (
      λ e k hk. c.0 (ground (arith, e)) k (ground (arith, hk)),
      λ f. ground (arith, c.1 (λ k hk. f k (ground (arith, hk)))),
    )
