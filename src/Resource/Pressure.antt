-- ===== src/Resource/Pressure.antt =====
-- `PressureController` of subgen_core/resource_management.py: its settings, its fields, and what it calls.
-- A call runs under the locks of the controller, so calls follow one another. The requirements of a load
-- are a type `R` of the caller's with the interface `Evidence`; a callback runs over a state `W`.
pub mod Signal
pub mod Listen
pub mod Gauge
pub mod Phases
pub mod Observe
pub mod Publish
pub mod Polling
pub mod Calls
pub mod Loading
pub mod Create
pub mod Rules
pub mod Steps
pub mod Counters
pub mod Readers
pub mod Keeping
pub mod Invariant
pub mod Reach
pub mod Given
pub mod Granted
pub mod Receipts
pub mod Clears
pub mod Timed
pub mod Recovers
pub mod Critical
use subgen_english_plex.Common.{ℕ, ℤ, Bool, Option, List, Result}
use subgen_english_plex.Common.Action.{Action, lift, gets, modify, ◌>>=◌}
use subgen_english_plex.Segmentation.Number.{Text}
use subgen_english_plex.Priority.{PriorityState, PriorityObservation}
use subgen_english_plex.Resource.Admission.{ModelLoadRequirement, PressureSample}

-- `NORMAL`, `YIELDING` and `RECOVERING`.
pub data Phase : Type 0 where
  normal yielding recovering : Phase

-- The strings of `recovery_reason`; `other_reason` is one that the controller does not name.
pub data RecoveryReason : Type 0 where
  priority_pressure receipt_unavailable model_release_failed gpu_telemetry_unavailable :
      RecoveryReason
  no_safe_model insufficient_capacity model_load_profile_unhealthy : RecoveryReason
  model_load_allocation_failure release_during_selection : RecoveryReason
  other_reason : ℕ → RecoveryReason

-- The reasons of `_classify`: four of pressure, six that are critical.
pub data PressureReason : Type 0 where
  cgroup_headroom gpu_headroom psi_full psi_some : PressureReason
  host_inconsistent host_headroom critical_cgroup_headroom : PressureReason
  gpu_reserve_below_floor critical_gpu_headroom cgroup_oom : PressureReason

-- What a requirement of a model load is asked for: its byte counts, whether it rests on an envelope, the
-- checks of `__post_init__`, and equality.
pub record Evidence (R : Type 0) : Type 0 where
  pub measured : R → ModelLoadRequirement
  pub has_envelope : R → Bool
  pub post_init : R → Result (Unit {0})
  pub same_requirement : R → R → Bool

-- The fields that the constructor sets for good.
pub record Settings (R : Type 0) : Type 0 where
  pub reserve_bytes : Option ℕ
  pub gpu_reserve_bytes : Option ℕ
  pub expected_gpu_device : Option Text
  pub canonical_shared_cuda : Bool
  pub require_gpu_telemetry : Bool
  pub explicit_model_authority : Bool
  pub selected_requirement : Option R
  pub require_cgroup : Bool
  pub sample_interval : ℕ
  pub priority_interval : ℕ
  pub recovery_sample_count : ℕ
  pub maximum_wait : ℕ
  pub maximum_sample_age : ℕ
  pub priority_configured : Bool

-- The fields that change. `observed_token` is none for the initial -1.
pub record PressureController (R : Type 0) : Type 0 where
  pub phase : Phase
  pub admission_open : Bool
  pub recovery_reason : Option RecoveryReason
  pub recovery_requirements : List R
  pub last_pressure_reasons : List PressureReason
  pub last_critical_reasons : List PressureReason
  pub last_sample : Option PressureSample
  pub last_sample_at : Option ℕ
  pub sample_token : ℕ
  pub observed_token : Option ℕ
  pub consecutive_pressure : ℕ
  pub consecutive_healthy : ℕ
  pub consecutive_gpu_unavailable : ℕ
  pub last_oom_events : Option ℕ
  pub last_oom_kill_events : Option ℕ
  pub last_observed_at : Option ℕ
  pub last_observed_sample : Option PressureSample
  pub last_priority_poll_at : Option ℕ
  pub priority_observation : PriorityObservation
  pub priority_observed_at : Option ℕ
  pub transition_observation_digest : Option Text
  pub transition_sequence : ℕ
  pub distinct_clear_count : ℕ
  pub generation_high_water : Option ℕ
  pub episode_pending : Bool
  pub recovery_generation : ℕ

-- `_coarse_recovery_reason_locked` gives one of these.
pub data CoarseReason : Type 0 where
  priority_coarse model_admission resource_pressure : CoarseReason

-- The dictionary of `_gate_priority_snapshot_locked`.
pub record GateSnapshot : Type 0 where
  pub configured : Bool
  pub state : PriorityState
  pub heartbeat_age_ms : Option ℕ
  pub source_age_ms : Option ℕ
  pub policy_sha256 : Option Text
  pub observation_digest : Option Text
  pub transition_observation_digest : Option Text
  pub transition_sequence : ℕ
  pub controller_phase : Phase
  pub coarse_reason : Option CoarseReason
  pub distinct_clear_count : ℕ
  pub source_generation : Option ℤ
  pub admission_open : Bool

-- The injected callables; the observer of the priority gate may be left out.
pub record Inputs (W : Type 0) : Type 0 where
  pub clock : Action W ℕ
  pub sample_reader : Action W PressureSample
  pub priority_reader : Action W PriorityObservation
  pub priority_observer : Option (GateSnapshot → Action W (Unit {0}))

-- A controller and the state that the callables run over.
pub record Node (R W : Type 0) : Type 0 where
  pub controller : PressureController R
  pub world : W

module _ {R W : Type 0} where
  unfoldable pub current : Action (Node R W) (PressureController R)
  current = gets (λ n. n.controller)

  unfoldable pub update :
      (PressureController R → PressureController R) → Action (Node R W) (Unit {0})
  update f = modify (λ n. record n { controller = f n.controller })

  -- A call of a callable changes the caller's state alone.
  unfoldable pub consult : {A : Type 0} → Action W A → Action (Node R W) A
  consult m n = let (a, w) = m n.world in (a, record n { world = w })

  -- A change of the fields that may raise before it happens.
  unfoldable pub change :
      (PressureController R → Result (PressureController R)) → Action (Node R W) (Unit {0})
  change f = do c ← current; c' ← lift (f c); update (λ _. c')
