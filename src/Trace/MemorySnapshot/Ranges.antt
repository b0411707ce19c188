-- ===== src/Trace/MemorySnapshot/Ranges.antt =====
-- src/trace/memory_snapshot.cpp: which samples are accepted.
use mathlib.Core.Path.{subst}
use native.Mathlib.Nat.{le-div_iff_mul-le}
use noleax.Prelude.{
  sym, ℕ, ◌+◌, ◌*◌, ◌^◌, ◌≤◌, ◌<◌, List, [], ◌∷◌, false, ◌≡◌, ◌≢◌, ◌↔◌, refl, length, IsU64, arith,
  All, u64_max, ◌/◌, ◌%◌,
}
use noleax.Prelude.Error.{ok}
use noleax.Prelude.Map.{contains}
use noleax.Trace.MemorySnapshot.{
  MemoryMapRegion, MemoryMap, BufferConfiguration, validate_regions, validate_memory_map,
  validate_buffer_configuration, AgentMemoryCategorySample, AgentMemory, validate_categories,
  validate_agent_memory,
}

-- Regions that are not empty, end below 2^64 and each begin at the end of the one before or later.
abbrev pub AreOrdered : ℕ → List MemoryMapRegion → Type 0
AreOrdered start [] = Unit {0}
AreOrdered start (region ∷ regions) =
    (region.size ≢ 0)
    × IsU64 (region.base + region.size)
    × (start ≤ region.base)
    × AreOrdered (region.base + region.size) regions

validate_regions_lem :
    (start : ℕ) (regions : List MemoryMapRegion)
    → All (λ region. IsU64 region.size) regions
    → (validate_regions start regions ≡ ok tt) ↔ AreOrdered start regions
unfolding validate_regions
validate_regions_lem start [] widths = (λ h. tt, λ h. refl)
validate_regions_lem start (region ∷ regions) (w, widths) =
    let rest = validate_regions_lem ((region.base + region.size) % 2 ^ 64) regions widths in
    (
      λ h.
          let tail : validate_regions ((region.base + region.size) % 2 ^ 64) regions ≡ ok tt =
            ground (arith, h) in
          let end : region.base + region.size < 2 ^ 64 = ground (arith, h) in
          let same : (region.base + region.size) % 2 ^ 64 ≡ region.base + region.size =
            omega (arith, end) in
          (
            ground (arith, h),
            end,
            ground (arith, h),
            subst (λ e. AreOrdered e regions) same (rest.0 tail),
          ),
      λ h.
          let end : region.base + region.size < 2 ^ 64 = h.1 in
          let same : (region.base + region.size) % 2 ^ 64 ≡ region.base + region.size =
            omega (arith, end) in
          let tail : validate_regions ((region.base + region.size) % 2 ^ 64) regions ≡ ok tt =
            rest.1 (subst (λ e. AreOrdered e regions) (sym same) h.3) in
          ground (arith, h.0, h.1, h.2, tail),
    )

-- A memory map whose sizes are words of 64 bits is accepted exactly where it lists at most 32768
-- regions, and each is not empty, ends below 2^64 and begins at the end of the one before or later.
pub validate_memory_map_lem :
    (map : MemoryMap)
    → All (λ region. IsU64 region.size) map.regions
    → (validate_memory_map map ≡ ok tt) ↔ ((length map.regions ≤ 32768) × AreOrdered 0 map.regions)
unfolding validate_memory_map
validate_memory_map_lem map widths =
    let regions = validate_regions_lem 0 map.regions widths in
    (λ h. ground (arith, h, regions.0), λ h. ground (arith, h, regions.1))

-- Slots, events and a request that are not 0, slots that hold an event, and as many bytes as the
-- slots take, with no overflow.
pub record IsSlotMath (c : BufferConfiguration) : Type 0 where
  pub requested : c.requested_bytes ≢ 0
  pub slots : c.effective_slots ≢ 0
  pub event : c.event_size ≢ 0
  pub holds_event : c.event_size ≤ c.slot_size
  pub reserved : c.reserved_bytes ≡ c.effective_slots * c.slot_size
  pub no_overflow : IsU64 (c.effective_slots * c.slot_size)
  pub resident : c.resident_after_init_bytes ≤ c.reserved_bytes

-- The sum of a field over the samples.
abbrev sum_of : (AgentMemoryCategorySample → ℕ) → List AgentMemoryCategorySample → ℕ
sum_of field [] = 0
sum_of field (sample ∷ samples) = field sample + sum_of field samples

abbrev AreSamples : List ℕ → List AgentMemoryCategorySample → Type 0
AreSamples seen [] = Unit {0}
AreSamples seen (sample ∷ samples) =
    (contains seen sample.category ≡ false)
    × (sample.resident_bytes ≤ sample.reserved_bytes)
    × AreSamples (sample.category ∷ seen) samples

validate_categories_lem :
    (seen : List ℕ) (reserved resident : ℕ) (samples : List AgentMemoryCategorySample)
    → IsU64 reserved
    → IsU64 resident
    → validate_categories seen reserved resident samples ≡ ok tt
    → AreSamples seen samples
      × IsU64 (reserved + sum_of (λ s. s.reserved_bytes) samples)
      × IsU64 (resident + sum_of (λ s. s.resident_bytes) samples)
unfolding validate_categories
validate_categories_lem seen reserved resident [] u v h = (tt, omega arith, omega arith)
validate_categories_lem seen reserved resident (sample ∷ samples) u v h =
    let a : reserved + sample.reserved_bytes < 2 ^ 64 = ground (arith, h) in
    let b : resident + sample.resident_bytes < 2 ^ 64 = ground (arith, h) in
    let rest =
      validate_categories_lem (sample.category ∷ seen) ((reserved + sample.reserved_bytes) % 2 ^ 64)
        ((resident + sample.resident_bytes) % 2 ^ 64) samples (omega arith) (omega arith)
        (ground (arith, h)) in
    (
      (ground (arith, h), ground (arith, h), rest.0),
      omega (arith, a, rest.1),
      omega (arith, b, rest.2),
    )

-- An agent memory record that is accepted lists at most 64 categories, all different and each
-- resident within what it reserves, and neither of its totals overflows.
pub validate_agent_memory_lem :
    (memory : AgentMemory)
    → validate_agent_memory memory ≡ ok tt
    → (length memory.categories ≤ 64)
      × AreSamples [] memory.categories
      × IsU64 (sum_of (λ s. s.reserved_bytes) memory.categories)
      × IsU64 (sum_of (λ s. s.resident_bytes) memory.categories)
unfolding validate_agent_memory
validate_agent_memory_lem memory h =
    let parts =
      validate_categories_lem [] 0 0 memory.categories (omega arith) (omega arith)
        (ground (arith, h)) in
    (ground (arith, h), parts.0, omega (arith, parts.1), omega (arith, parts.2))

-- The test that the source makes by a division, and the product that it guards.
no_overflow_lem : (n k : ℕ) → k ≢ 0 → (n ≤ u64_max / k) ↔ IsU64 (n * k)
no_overflow_lem n k h =
    let division : (n ≤ u64_max / k) ↔ (n * k ≤ u64_max) = le-div_iff_mul-le (omega (arith, h)) in
    (λ e. omega (arith, division.0 e), λ e. division.1 (omega (arith, e)))

-- A buffer configuration is accepted exactly where its slots hold an
-- event, all the numbers of its slot arithmetic are other than 0, and the reserved bytes are those of
-- the slots, with no overflow, and as many as the resident ones or more.
pub validate_buffer_configuration_lem :
    (c : BufferConfiguration) → (validate_buffer_configuration c ≡ ok tt) ↔ IsSlotMath c
unfolding validate_buffer_configuration
validate_buffer_configuration_lem c = (
  λ h.
      let nonzero : c.slot_size ≢ 0 = ground (arith, h) in
      let fits : c.effective_slots ≤ u64_max / c.slot_size = ground (arith, h) in
      let bound = (no_overflow_lem c.effective_slots c.slot_size nonzero).0 fits in
      record {
        requested = ground (arith, h);
        slots = ground (arith, h);
        event = ground (arith, h);
        holds_event = ground (arith, h);
        reserved = ground (arith, h, bound);
        no_overflow = bound;
        resident = ground (arith, h);
      },
  λ h.
      let nonzero : c.slot_size ≢ 0 = omega (arith, h.event, h.holds_event) in
      let fits : c.effective_slots ≤ u64_max / c.slot_size =
        (no_overflow_lem c.effective_slots c.slot_size nonzero).1 h.no_overflow in
      ground (
        arith, h.requested, h.slots, h.event, h.holds_event, h.reserved, h.no_overflow, h.resident,
        fits, nonzero,
      ),
)
