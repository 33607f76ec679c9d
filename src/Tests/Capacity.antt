-- ===== src/Tests/Capacity.antt =====
-- A host of sixteen gibibytes in a container of eight.
use subgen_english_plex.Common.{
  ℕ, ◌+◌, ◌*◌, ◌/◌, ◌%◌, ◌≤◌, ◌<◌, ◌≡◌, ◌↔◌, refl, some, pos, ok, raise, value_error, max, arith,
}
use subgen_english_plex.Segmentation.Number.{integer, null}
use subgen_english_plex.Resource.Capacity.{
  gib, capacity_quantum_bytes, max_automatic_subgen_memory_bytes, reserve_of,
  automatic_subgen_memory_limit_bytes, CapacityProfile, ChunkPolicy, activity_chunk_seconds,
  initial_chunk_seconds, tier_seconds, optional_value,
}
use subgen_english_plex.Resource.Capacity.Limits.{reserve_lem, memory_limit_lem}
use subgen_english_plex.Resource.Capacity.Durations.{
  activity_chunk_seconds_bounds, larger_reserve_not_longer,
}

abbrev host : ℕ
host = 17_179_869_184

reserve_lem_example :
    (reserve_of (some host) % capacity_quantum_bytes ≡ 0)
    × (gib ≤ reserve_of (some host))
    × (host * 15 ≤ reserve_of (some host) * 100)
    × (reserve_of (some host) < max gib ((host * 15 + 99) / 100) + capacity_quantum_bytes)
reserve_lem_example = reserve_lem host

memory_limit_lem_example :
    ((limit : ℕ)
      → automatic_subgen_memory_limit_bytes (integer (pos host)) ≡ ok limit
      → (limit + reserve_of (some host) ≤ host)
        × (limit % capacity_quantum_bytes ≡ 0)
        × (capacity_quantum_bytes ≤ limit)
        × (limit ≤ max_automatic_subgen_memory_bytes))
    × (automatic_subgen_memory_limit_bytes (integer (pos host)) ≡ raise value_error
        ↔ host < reserve_of (some host) + capacity_quantum_bytes)
memory_limit_lem_example = memory_limit_lem host (omega arith) (omega arith)

abbrev container : CapacityProfile
container = record {
  effective_bytes = some 8_589_934_592;
  host_total_bytes = some host;
  cgroup_limit_bytes = some 8_589_934_592;
}

-- Half of the headroom, chunks of ten minutes at most.
abbrev passive : ChunkPolicy
passive = record { working_budget_percent = 50; automatic_chunk_ceiling_minutes = 10 }

-- Three quarters, chunks of twenty minutes at most.
abbrev balanced : ChunkPolicy
balanced = record { working_budget_percent = 75; automatic_chunk_ceiling_minutes = 20 }

passive_seconds : activity_chunk_seconds container null passive 2_684_354_560 ≡ ok 300
unfolding activity_chunk_seconds initial_chunk_seconds
passive_seconds = refl

balanced_seconds : activity_chunk_seconds container null balanced 2_684_354_560 ≡ ok 600
unfolding activity_chunk_seconds initial_chunk_seconds
balanced_seconds = refl

crowded_seconds : activity_chunk_seconds container null balanced 15_032_385_536 ≡ ok 300
unfolding activity_chunk_seconds initial_chunk_seconds
crowded_seconds = refl

activity_chunk_seconds_bounds_example :
    (300 ≤ 600)
    × (600 ≤ max 300 (20 * 60))
    × (600 ≤ tier_seconds container.effective_bytes)
    × ((q : ℕ)
        → initial_chunk_seconds (optional_value container.effective_bytes) null ≡ ok q
        → 600 ≤ max 300 q)
activity_chunk_seconds_bounds_example =
    activity_chunk_seconds_bounds container null balanced 2_684_354_560 600 balanced_seconds

larger_reserve_not_longer_example : 300 ≤ 600
larger_reserve_not_longer_example =
    larger_reserve_not_longer container null balanced 2_684_354_560 15_032_385_536 600 300
      (omega arith) balanced_seconds crowded_seconds
