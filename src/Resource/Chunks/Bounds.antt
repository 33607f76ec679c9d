-- ===== src/Resource/Chunks/Bounds.antt =====
-- The bounds of the adaptive chunk duration.
use subgen_english_plex.Common.{
  ℕ, ◌≤◌, ◌<◌, ◌≡◌, Bool, Option, none, some, ok, Ensures, Ensures-then, arith, ◌∙◌,
}
use subgen_english_plex.Segmentation.Number.{Value}
use subgen_english_plex.Resource.Chunks.{
  AdaptiveChunkState, new_chunk_state, record_pressure_yield, record_external_pressure_recovery,
  attempted_floor, count_failure, limit_to_attempt, record_allocation_failure, record_success,
}

pub record IsValid (s : AdaptiveChunkState) : Type 0 where
  pub minimum_positive : 0 < s.minimum_seconds
  pub at_least : s.minimum_seconds ≤ s.current_seconds
  pub at_most : s.current_seconds ≤ s.baseline_seconds
  pub successes_below : s.consecutive_healthy_successes < s.successes_to_grow

-- The settings of the state, which no method changes.
pub record SameSettings (s t : AdaptiveChunkState) : Type 0 where
  pub baseline : t.baseline_seconds ≡ s.baseline_seconds
  pub minimum : t.minimum_seconds ≡ s.minimum_seconds
  pub growth : t.successes_to_grow ≡ s.successes_to_grow

abbrev pub Keeps : AdaptiveChunkState → AdaptiveChunkState → Type 0
Keeps s t = IsValid t × SameSettings s t

pub new_chunk_state-IsValid :
    (baseline minimum successes : ℕ) {s : AdaptiveChunkState}
    → new_chunk_state baseline minimum successes ≡ ok s
    → IsValid s
unfolding new_chunk_state
new_chunk_state-IsValid b m k h = ground arith

pub record_pressure_yield-Keeps :
    (s : AdaptiveChunkState) → IsValid s → Keeps s (record_pressure_yield s)
unfolding record_pressure_yield
record_pressure_yield-Keeps s v = ground arith

pub record_external_pressure_recovery-Keeps :
    (s : AdaptiveChunkState) → IsValid s → Keeps s (record_external_pressure_recovery s)
unfolding record_external_pressure_recovery
record_external_pressure_recovery-Keeps s v = ground arith

pub count_failure-Keeps : (s : AdaptiveChunkState) → IsValid s → Keeps s (count_failure s)
unfolding count_failure
count_failure-Keeps s v = ground arith

limit_to_attempt-Keeps :
    (s : AdaptiveChunkState) (f : ℕ) → IsValid s → Keeps s (limit_to_attempt s f)
unfolding limit_to_attempt
limit_to_attempt-Keeps s f v = ground arith

pub record_allocation_failure-Keeps :
    (s : AdaptiveChunkState) (a : Option Value)
    → IsValid s
    → Ensures (λ r. Keeps s r.0) (record_allocation_failure s a)
unfolding record_allocation_failure
record_allocation_failure-Keeps s none v = count_failure-Keeps s v
record_allocation_failure-Keeps s (some x) v =
    Ensures-then (λ r. Keeps s r.0) (attempted_floor x) _
      λ f.
        let (v', e) = limit_to_attempt-Keeps s f v in
        let (v'', e') = count_failure-Keeps (limit_to_attempt s f) v' in
        (
          v'',
          record {
            baseline = e'.baseline ∙ e.baseline;
            minimum = e'.minimum ∙ e.minimum;
            growth = e'.growth ∙ e.growth;
          },
        )

pub record_success-Keeps :
    (s : AdaptiveChunkState) (h : Bool) → IsValid s → Keeps s (record_success s h)
unfolding record_success
record_success-Keeps s h v = ground arith
