-- ===== src/Resource/Pressure/Create.antt =====
-- The constructor of `PressureController`: its checks, in order, and the fields of a new controller.
use subgen_english_plex.Common.{
  ℕ, Bool, true, false, not, ◌&&◌, ◌||◌, Option, none, some, List, [], ◌∷◌, pos, Result, ok,
  require, value_error, ◌>>=◌, ◌>>◌, leb, ltb, length, if◌then◌else◌,
}
use subgen_english_plex.Segmentation.Number.{Text, integer, ticks}
use subgen_english_plex.Priority.{PriorityState, PriorityObservation}
use subgen_english_plex.Resource.Capacity.{require_bytes}
use subgen_english_plex.Resource.Admission.{checked_gpu_reserve}
use subgen_english_plex.Resource.Pressure.{
  Phase, RecoveryReason, Evidence, Settings, PressureController,
}
use subgen_english_plex.Resource.Pressure.Polling.{is_given}
use subgen_english_plex.Resource.Pressure.Calls.{check_all, all_allowed}

-- What the constructor is given: the settings, the requirements, and whether an observer of the gate and
-- its lock are there.
pub record Arguments (R : Type 0) : Type 0 where
  pub settings : Settings R
  pub requirements : List R
  pub has_observer : Bool
  pub has_transition_lock : Bool

-- `PriorityObservation(state=..., configured=...)`
abbrev pub first_observation : Bool → PriorityObservation
first_observation configured = record {
  state = if configured then PriorityState.unavailable else PriorityState.disabled;
  configured = configured;
  heartbeat_age_ms = none;
  source_age_ms = none;
  policy_sha256 = none;
  observation_digest = none;
  producer_epoch = none;
  sequence = none;
  observed_monotonic_ns = none;
  source_generation = none;
  source_observed_monotonic_ns = none;
  reason_codes = [];
  accepted = false;
  new_publication = false;
  producer_epoch_changed = false;
  sequence_gap = false;
}

abbrev pub has_device : Option Text → Bool
has_device none = false
has_device (some d) = ltb 0 (length d)

-- A device that is named has a name.
abbrev pub device_named : Option Text → Bool
device_named none = true
device_named (some d) = ltb 0 (length d)

unfoldable pub checked_reserve : Option ℕ → Result (Unit {0})
unfolding require_bytes
checked_reserve none = ok tt
checked_reserve (some n) = do m ← require_bytes 0 (integer (pos n)); ok tt

module _ {R : Type 0} where
  -- The fields of a new controller.
  abbrev pub new_controller : Settings R → List R → PressureController R
  new_controller s requirements = record {
    phase = if s.priority_configured then Phase.recovering else Phase.normal;
    admission_open = not s.canonical_shared_cuda && not s.priority_configured;
    recovery_reason = if s.priority_configured then some RecoveryReason.priority_pressure else none;
    recovery_requirements = requirements;
    last_pressure_reasons = [];
    last_critical_reasons = [];
    last_sample = none;
    last_sample_at = none;
    sample_token = 0;
    observed_token = none;
    consecutive_pressure = 0;
    consecutive_healthy = 0;
    consecutive_gpu_unavailable = 0;
    last_oom_events = none;
    last_oom_kill_events = none;
    last_observed_at = none;
    last_observed_sample = none;
    last_priority_poll_at = none;
    priority_observation = first_observation s.priority_configured;
    priority_observed_at = none;
    transition_observation_digest = none;
    transition_sequence = 0;
    distinct_clear_count = 0;
    generation_high_water = none;
    episode_pending = false;
    recovery_generation = 0;
  }

  -- The tests of the intervals and of the count.
  abbrev pub has_valid_times : Settings R → Bool
  has_valid_times s =
      ltb 0 s.sample_interval
      && ltb 0 s.priority_interval
      && leb s.priority_interval ticks
      && ltb 0 s.maximum_wait
      && ltb 0 s.maximum_sample_age
      && ltb 0 s.recovery_sample_count
      && leb s.sample_interval s.maximum_wait

  -- The tests of what the GPU needs.
  abbrev pub has_valid_gpu : Settings R → Bool
  has_valid_gpu s =
      device_named s.expected_gpu_device
      && (not (is_given s.gpu_reserve_bytes) || is_given s.expected_gpu_device)
      && (not s.require_gpu_telemetry
          || (is_given s.gpu_reserve_bytes && is_given s.expected_gpu_device))
      && (not s.canonical_shared_cuda
          || (is_given s.gpu_reserve_bytes && has_device s.expected_gpu_device))

  abbrev pub check_selected : Evidence R → Option R → Result (Unit {0})
  check_selected e none = ok tt
  check_selected e (some r) = e.post_init r

  -- `candidates`
  abbrev pub candidates : Option R → List R → List R
  candidates none rs = rs
  candidates (some r) rs = r ∷ []

  abbrev pub with_telemetry : Settings R → Settings R
  with_telemetry s = record s {
    require_gpu_telemetry = s.require_gpu_telemetry || s.canonical_shared_cuda;
  }

  -- The checks that raise, and the settings and fields behind them.
  unfoldable pub create : Evidence R → Arguments R → Result (Settings R × PressureController R)
  unfolding checked_reserve checked_gpu_reserve check_all all_allowed
  create e a =
      let s = a.settings in
      let rs = candidates s.selected_requirement a.requirements in
      do
        require (has_valid_times s) value_error
        checked_reserve s.reserve_bytes
        gpu ← checked_gpu_reserve s.gpu_reserve_bytes
        require (has_valid_gpu s) value_error
        require (if a.has_observer then a.has_transition_lock else not a.has_transition_lock)
            value_error
        check_selected e s.selected_requirement
        check_all e a.requirements
        require (not s.explicit_model_authority || is_given s.selected_requirement) value_error
        require (all_allowed e s rs) value_error
        ok (with_telemetry s, new_controller (with_telemetry s) rs)
