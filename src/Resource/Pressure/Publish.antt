-- ===== src/Resource/Pressure/Publish.antt =====
-- The snapshot of the priority gate and its publication, and the poll of the signal, which returns the
-- snapshot behind an observation.
use native.Mathlib.Decide.{ℕ_discrete}
use mathlib.Core.Logic.{ite}
use subgen_english_plex.Common.{
  ℕ, ◌+◌, ◌-◌, ◌/◌, min, Bool, true, false, not, ◌&&◌, Option, none, some, ℤ, pos, negsuc, Result,
  ok, raise, ◌>>=◌, runtime_error, if◌then◌else◌,
}
use subgen_english_plex.Segmentation.Number.{Text}
use subgen_english_plex.Priority.{PriorityState, PriorityObservation}
use subgen_english_plex.Resource.Pressure.{
  Phase, yielding, recovering, RecoveryReason, Settings, PressureController, GateSnapshot,
  CoarseReason,
}
use subgen_english_plex.Resource.Pressure.Signal.{priority_recovery_ready, is_yielding, is_normal}

-- `_bounded_priority_age_locked`, in milliseconds.
unfoldable pub bounded_priority_age : Option ℤ → Option ℕ → ℕ → Result (Option ℕ)
bounded_priority_age none observed now = ok none
bounded_priority_age (some (negsuc n)) observed now = raise runtime_error
bounded_priority_age (some (pos n)) none now = ok (some (min 60_000 n))
bounded_priority_age (some (pos n)) (some observed) now =
    ok (some (min 60_000 (n + (now - observed) / 1000)))

-- The reason behind a phase that is not normal.
abbrev pub coarse_of : Option RecoveryReason → CoarseReason
coarse_of (some RecoveryReason.priority_pressure) = CoarseReason.priority_coarse
coarse_of (some RecoveryReason.no_safe_model) = CoarseReason.model_admission
coarse_of (some RecoveryReason.insufficient_capacity) = CoarseReason.model_admission
coarse_of (some RecoveryReason.model_load_profile_unhealthy) = CoarseReason.model_admission
coarse_of (some RecoveryReason.model_load_allocation_failure) = CoarseReason.model_admission
coarse_of (some RecoveryReason.release_during_selection) = CoarseReason.model_admission
coarse_of _ = CoarseReason.resource_pressure

module _ {R : Type 0} where
  -- `_coarse_recovery_reason_locked`
  unfoldable pub coarse_recovery_reason : Settings R → PressureController R → Option CoarseReason
  coarse_recovery_reason s c =
      if is_normal c.phase
      then none
      else (if s.priority_configured && not (priority_recovery_ready s c)
          then some CoarseReason.priority_coarse
          else some (coarse_of c.recovery_reason))

  -- `_gate_priority_snapshot_locked`, at the time that the clock gave.
  unfoldable pub gate_priority_snapshot :
      Settings R → ℕ → PressureController R → Result GateSnapshot
  unfolding bounded_priority_age coarse_recovery_reason
  gate_priority_snapshot s now c =
      let o = c.priority_observation in
      let set = s.priority_configured in
      do
        heartbeat ←
            bounded_priority_age (if set then o.heartbeat_age_ms else none) c.priority_observed_at
              now
        source ←
            bounded_priority_age (if set then o.source_age_ms else none) c.priority_observed_at now
        ok (record {
          configured = set;
          state = if set then o.state else PriorityState.disabled;
          heartbeat_age_ms = heartbeat;
          source_age_ms = source;
          policy_sha256 = if set then o.policy_sha256 else none;
          observation_digest = if set then o.observation_digest else none;
          transition_observation_digest = if set then c.transition_observation_digest else none;
          transition_sequence = if set then c.transition_sequence else 0;
          controller_phase = c.phase;
          coarse_reason = coarse_recovery_reason s c;
          distinct_clear_count = if set then c.distinct_clear_count else 0;
          source_generation = if set then o.source_generation else none;
          admission_open = c.admission_open;
        })

  -- `_latch_receipt_failure_locked`
  abbrev pub latch_receipt_failure : PressureController R → PressureController R
  latch_receipt_failure c = record c {
    phase = if is_yielding c.phase then yielding else recovering;
    admission_open = false;
    recovery_reason = some RecoveryReason.receipt_unavailable;
    consecutive_pressure = 0;
    consecutive_healthy = 0;
  }

-- The tuple of `_receipt_transition_key_locked`.
pub record ReceiptKey : Type 0 where
  pub key_phase : Phase
  pub key_open : Bool
  pub key_reason : Option RecoveryReason
  pub key_observation : PriorityObservation
  pub key_digest : Option Text
  pub key_sequence : ℕ
  pub key_count : ℕ
  pub key_water : Option ℕ

unfoldable pub ReceiptKey-discrete : Discrete ReceiptKey
unfolding ℕ_discrete
ReceiptKey-discrete = hlevel ℕ_discrete

abbrev pub same_key : ReceiptKey → ReceiptKey → Bool
same_key k l = ite (ReceiptKey-discrete k l) true false

abbrev pub receipt_key : {R : Type 0} → PressureController R → ReceiptKey
receipt_key c = record {
  key_phase = c.phase;
  key_open = c.admission_open;
  key_reason = c.recovery_reason;
  key_observation = c.priority_observation;
  key_digest = c.transition_observation_digest;
  key_sequence = c.transition_sequence;
  key_count = c.distinct_clear_count;
  key_water = c.generation_high_water;
}
