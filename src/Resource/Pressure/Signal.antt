-- ===== src/Resource/Pressure/Signal.antt =====
-- The priority signal: the checks of an observation, and what it does to the fields of the controller.
use subgen_english_plex.Common.{
  ℕ, ◌+◌, min, Bool, true, false, not, ◌&&◌, ◌||◌, Option, none, some, ℤ, pos, Result, ok, raise,
  require, value_error, runtime_error, leb, ltb, ◌==◌, ◌>>=◌, ◌>>◌, if◌then◌else◌,
}
use subgen_english_plex.Priority.{
  PriorityState, PriorityObservation, is_disabled, is_clear, is_neutral, is_external, is_recognized,
}
use subgen_english_plex.Resource.Capacity.{max_bytes}
use subgen_english_plex.Resource.Pressure.{
  Phase, normal, yielding, recovering, RecoveryReason, Settings, PressureController,
}

abbrev pub clears_needed : ℕ
clears_needed = 3

abbrev pub is_normal : Phase → Bool
is_normal normal = true
is_normal _ = false

abbrev pub is_recovering : Phase → Bool
is_recovering recovering = true
is_recovering _ = false

abbrev pub is_yielding : Phase → Bool
is_yielding yielding = true
is_yielding _ = false

-- `YIELDING if model_resident else RECOVERING`
abbrev pub phase_under_pressure : Bool → Phase
phase_under_pressure true = yielding
phase_under_pressure false = recovering

-- Equality of two states of the signal that passed the validation.
abbrev pub same_state : PriorityState → PriorityState → Bool
same_state PriorityState.disabled PriorityState.disabled = true
same_state PriorityState.clear PriorityState.clear = true
same_state PriorityState.neutral PriorityState.neutral = true
same_state PriorityState.asserted PriorityState.asserted = true
same_state PriorityState.unavailable PriorityState.unavailable = true
same_state _ _ = false

-- `_validate_priority_observation`
unfoldable pub validate_priority_observation : PriorityObservation → Result (Unit {0})
validate_priority_observation o =
    require (is_recognized o.state) value_error
    >> (require (not (if o.configured then is_disabled o.state else not (is_disabled o.state)))
          value_error
        >> (require (not o.new_publication || o.accepted) value_error
            >> require (not o.producer_epoch_changed || o.new_publication) value_error))

-- The tests of a source generation: it must be positive.
unfoldable pub positive_generation : ℤ → Result ℕ
positive_generation (pos n) = if ltb 0 n then ok n else raise value_error
positive_generation _ = raise value_error

abbrev pub above_water : Option ℕ → ℕ → Bool
above_water none n = true
above_water (some high) n = ltb high n

-- `critical`
abbrev pub is_critical : PriorityObservation → Bool
is_critical o = is_external o.state || o.producer_epoch_changed

-- `reset_recovery`
abbrev pub resets_recovery : PriorityObservation → Bool
resets_recovery o = is_external o.state || is_neutral o.state || o.producer_epoch_changed

module _ {R : Type 0} where
  -- `_priority_recovery_ready_locked`
  abbrev pub priority_recovery_ready : Settings R → PressureController R → Bool
  priority_recovery_ready s c =
      not s.priority_configured
      || (is_clear c.priority_observation.state && leb clears_needed c.distinct_clear_count)

  -- The change of the fields when the recovery finishes.
  abbrev pub recovered : PressureController R → PressureController R
  recovered c = record c {
    recovery_generation =
        if c.episode_pending then c.recovery_generation + 1 else c.recovery_generation;
    episode_pending = false;
    consecutive_healthy = 0;
    phase = normal;
    recovery_reason = none;
    admission_open = true;
  }

  -- `_maybe_finish_recovery_locked`
  unfoldable pub maybe_finish_recovery :
      Settings R → PressureController R → Result (PressureController R)
  maybe_finish_recovery s c =
      if is_recovering c.phase
        && leb s.recovery_sample_count c.consecutive_healthy
        && priority_recovery_ready s c
      then (if c.episode_pending && (c.recovery_generation == max_bytes)
          then raise runtime_error
          else ok (recovered c))
      else ok c

  -- `_priority_transition_locked`, with the state of the observation before.
  unfoldable pub priority_transition :
      PriorityObservation → PriorityState → PressureController R → Result (PressureController R)
  priority_transition o previous c =
      if same_state o.state previous && not o.producer_epoch_changed
      then ok c
      else (if c.transition_sequence == max_bytes
          then raise runtime_error
          else ok (record c {
            transition_sequence = c.transition_sequence + 1;
            transition_observation_digest = if o.accepted then o.observation_digest else none;
          }))

  -- The high water of the generations behind an observation that resets the recovery.
  unfoldable pub raise_high_water : Option ℤ → PressureController R → Result (PressureController R)
  unfolding positive_generation
  raise_high_water none c = ok c
  raise_high_water (some g) c = positive_generation g >>= λ n. ok (record c {
    generation_high_water =
        if above_water c.generation_high_water n then some n else c.generation_high_water;
  })

  -- A new clear publication counts if its generation is above every generation before.
  abbrev pub counted_clear : ℕ → PressureController R → PressureController R
  counted_clear n c =
      if above_water c.generation_high_water n
      then record c {
        generation_high_water = some n;
        distinct_clear_count = min clears_needed (c.distinct_clear_count + 1);
      }
      else c

  unfoldable pub count_clear :
      PriorityObservation → PressureController R → Result (PressureController R)
  unfolding positive_generation
  count_clear o c =
      if is_clear o.state && o.new_publication && not o.producer_epoch_changed
      then (elim o.source_generation [
        | none ↦ raise value_error
        | some g ↦ positive_generation g >>= λ n. ok (counted_clear n c)
      ])
      else ok c

  -- The branch of a critical observation.
  abbrev pub yield_to_priority : Bool → PressureController R → PressureController R
  yield_to_priority resident c = record c {
    admission_open = false;
    consecutive_healthy = 0;
    phase = phase_under_pressure resident;
    recovery_reason = some RecoveryReason.priority_pressure;
  }

  -- The branch of a neutral observation.
  abbrev pub hold_for_priority : PressureController R → PressureController R
  hold_for_priority c = record c {
    admission_open = false;
    consecutive_healthy = 0;
    phase = if is_normal c.phase then recovering else c.phase;
    recovery_reason = some RecoveryReason.priority_pressure;
  }
