-- ===== src/Resource/Chunks.antt =====
-- `AdaptiveChunkState` of subgen_core/resource_management.py: the chunk duration of one file and its
-- failures at the minimum duration. A method returns the new state and its result.
pub mod Bounds
pub mod Exhaustion
use subgen_english_plex.Common.{
  ℕ, ◌+◌, ◌*◌, ◌/◌, min, max, Bool, true, false, not, ◌||◌, Option, none, some, ℤ, pos, negsuc,
  Result, ok, raise, ◌>>=◌, ◌>>◌, require, value_error, leb, ltb, ◌==◌, if◌then◌else◌,
}
use subgen_english_plex.Segmentation.Number.{Value, integer, real, ticks}

pub record AdaptiveChunkState : Type 0 where
  pub baseline_seconds : ℕ
  pub minimum_seconds : ℕ
  pub successes_to_grow : ℕ
  pub current_seconds : ℕ
  pub minimum_allocation_failures : ℕ
  pub consecutive_healthy_successes : ℕ

-- `__init__`, at integers.
unfoldable pub new_chunk_state : ℕ → ℕ → ℕ → Result AdaptiveChunkState
new_chunk_state baseline minimum successes = do
  require (ltb 0 baseline) value_error
  require (ltb 0 minimum) value_error
  require (ltb 0 successes) value_error
  require (leb minimum baseline) value_error
  ok (record {
    baseline_seconds = baseline;
    minimum_seconds = minimum;
    successes_to_grow = successes;
    current_seconds = baseline;
    minimum_allocation_failures = 0;
    consecutive_healthy_successes = 0;
  })

unfoldable pub exhausted : AdaptiveChunkState → Bool
exhausted s = leb 2 s.minimum_allocation_failures

unfoldable pub shrink : AdaptiveChunkState → AdaptiveChunkState
shrink s = record s {
  current_seconds = max s.minimum_seconds (s.current_seconds / 2);
  consecutive_healthy_successes = 0;
}

unfoldable pub record_pressure_yield : AdaptiveChunkState → AdaptiveChunkState
unfolding shrink
record_pressure_yield s = shrink (record s { minimum_allocation_failures = 0 })

unfoldable pub record_external_pressure_recovery : AdaptiveChunkState → AdaptiveChunkState
record_external_pressure_recovery s = record s {
  minimum_allocation_failures = 0;
  consecutive_healthy_successes = 0;
}

-- `math.floor` of a finite positive number of seconds.
unfoldable pub attempted_floor : Value → Result ℕ
attempted_floor (integer (pos n)) = if ltb 0 n then ok n else raise value_error
attempted_floor (real (pos n)) = if ltb 0 n then ok (n / ticks) else raise value_error
attempted_floor _ = raise value_error

-- The failure count and the shrinking, at the duration that failed.
unfoldable pub count_failure : AdaptiveChunkState → AdaptiveChunkState
unfolding shrink
count_failure s =
    let t = shrink s in
    if s.current_seconds == s.minimum_seconds
    then record t { minimum_allocation_failures = t.minimum_allocation_failures + 1 }
    else record t { minimum_allocation_failures = 0 }

-- The duration that is taken to have failed, from the one that was attempted.
unfoldable pub limit_to_attempt : AdaptiveChunkState → ℕ → AdaptiveChunkState
limit_to_attempt s floor = record s {
  current_seconds = min s.current_seconds (max s.minimum_seconds floor);
}

unfoldable pub record_allocation_failure :
    AdaptiveChunkState → Option Value → Result (AdaptiveChunkState × Bool)
unfolding count_failure exhausted limit_to_attempt attempted_floor
record_allocation_failure s none = let t = count_failure s in ok (t, exhausted t)
record_allocation_failure s (some attempted) = do
  floor ← attempted_floor attempted
  let t = count_failure (limit_to_attempt s floor)
  ok (t, exhausted t)

unfoldable pub record_success : AdaptiveChunkState → Bool → AdaptiveChunkState
record_success s healthy =
    let n = s.consecutive_healthy_successes + 1 in
    if not healthy || leb s.baseline_seconds s.current_seconds
    then record s { minimum_allocation_failures = 0; consecutive_healthy_successes = 0 }
    else if leb s.successes_to_grow n
    then record s {
      minimum_allocation_failures = 0;
      current_seconds = min s.baseline_seconds (s.current_seconds * 2);
      consecutive_healthy_successes = 0;
    }
    else record s { minimum_allocation_failures = 0; consecutive_healthy_successes = n }
