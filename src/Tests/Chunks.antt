-- ===== src/Tests/Chunks.antt =====
-- A chunk policy of twenty minutes, with a minimum of five.
use subgen_english_plex.Common.{
  ℕ, ◌≤◌, ◌≡◌, refl, true, false, none, some, ok, min, arith, ◌*◌, pos,
}
use subgen_english_plex.Segmentation.Number.{real}
use subgen_english_plex.Resource.Chunks.{
  AdaptiveChunkState, record_allocation_failure, new_chunk_state,
}
use subgen_english_plex.Resource.Chunks.Bounds.{IsValid}
use subgen_english_plex.Resource.Chunks.Exhaustion.{
  failures, successes, failures_exhaust, successes_grow,
}

abbrev fresh : AdaptiveChunkState
fresh = record {
  baseline_seconds = 1200;
  minimum_seconds = 300;
  successes_to_grow = 3;
  current_seconds = 1200;
  minimum_allocation_failures = 0;
  consecutive_healthy_successes = 0;
}

fresh_new : new_chunk_state 1200 300 3 ≡ ok fresh
unfolding new_chunk_state
fresh_new = refl

fresh-IsValid : IsValid fresh
fresh-IsValid = omega arith

failures_exhaust_example :
    record_allocation_failure (failures 3 fresh) none ≡ ok (failures 4 fresh, true)
failures_exhaust_example = failures_exhaust 2 fresh fresh-IsValid (omega arith)

three_failures_tolerated :
    record_allocation_failure (failures 2 fresh) none ≡ ok (failures 3 fresh, false)
unfolding record_allocation_failure
three_failures_tolerated = refl

short_attempt_counts :
    record_allocation_failure fresh (some (real (pos 200_000_000)))
    ≡ ok (record fresh { current_seconds = 300; minimum_allocation_failures = 1 }, false)
unfolding record_allocation_failure
short_attempt_counts = refl

abbrev low : AdaptiveChunkState
low = record fresh { current_seconds = 700 }

successes_grow_example :
    ((m : ℕ) → m ≤ 2 → (successes m low).current_seconds ≡ 700)
    × ((successes 3 low).current_seconds ≡ min 1200 (700 * 2))
successes_grow_example = successes_grow 2 low refl refl (omega arith)
