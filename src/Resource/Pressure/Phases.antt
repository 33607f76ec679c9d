-- ===== src/Resource/Pressure/Phases.antt =====
-- What an observation of the memory does to the fields of the controller, branch by branch.
use subgen_english_plex.Common.{
  ℕ, ◌+◌, min, Bool, true, false, not, ◌&&◌, ◌||◌, Option, none, some, List, [], ◌∷◌, leb,
  if◌then◌else◌,
}
use subgen_english_plex.Segmentation.Number.{Text}
use subgen_english_plex.Resource.Admission.{PressureSample, Conditions}
use subgen_english_plex.Resource.Pressure.{
  yielding, RecoveryReason, PressureReason, Evidence, Settings, PressureController,
}
use subgen_english_plex.Resource.Pressure.Signal.{
  priority_recovery_ready, phase_under_pressure, is_normal,
}
use subgen_english_plex.Resource.Pressure.Gauge.{reason_if, grew, next_baseline}

-- What `_classify` returns.
pub record Classified : Type 0 where
  pub pressure : List PressureReason
  pub critical : List PressureReason

abbrev pub is_some_reason : List PressureReason → Bool
is_some_reason [] = false
is_some_reason (r ∷ rs) = true

-- `pressured`
abbrev pub is_pressured : Classified → Bool
is_pressured k = is_some_reason k.pressure || is_some_reason k.critical

-- `observed_at <= self._last_observed_at`
abbrev pub is_stale : Option ℕ → ℕ → Bool
is_stale none t = false
is_stale (some last) t = leb t last

-- An expected device, empty where the source has None.
abbrev pub device_or_empty : Option Text → Text
device_or_empty none = []
device_or_empty (some d) = d

abbrev pub is_known : Option ℕ → Bool
is_known none = false
is_known (some n) = true

-- What the controller asks of an admission, at its reserve and the time of its clock.
abbrev pub conditions_of : {R : Type 0} → Settings R → ℕ → ℕ → Conditions
conditions_of s reserve now = record {
  host_reserve_bytes = reserve;
  gpu_priority_reserve_bytes = s.gpu_reserve_bytes;
  require_cgroup = s.require_cgroup;
  require_gpu = is_known s.gpu_reserve_bytes;
  expected_gpu_device = device_or_empty s.expected_gpu_device;
  now = some now;
  maximum_sample_age = s.maximum_sample_age;
}

abbrev pub is_priority_reason : Option RecoveryReason → Bool
is_priority_reason (some RecoveryReason.priority_pressure) = true
is_priority_reason _ = false

module _ {R : Type 0} where
  -- The counters of the container and what they leave; the reason is kept once, as `dict.fromkeys` does.
  abbrev pub oom_reasons : PressureSample → PressureController R → List PressureReason
  oom_reasons s c =
      reason_if
        (grew c.last_oom_events s.cgroup_oom_events
          || grew c.last_oom_kill_events s.cgroup_oom_kill_events)
        PressureReason.cgroup_oom

  abbrev pub count_ooms : PressureSample → PressureController R → PressureController R
  count_ooms s c = record c {
    last_oom_events = next_baseline c.last_oom_events s.cgroup_oom_events;
    last_oom_kill_events = next_baseline c.last_oom_kill_events s.cgroup_oom_kill_events;
  }

  -- The two requirements of the recovery under the canonical device.
  abbrev pub is_selected : Evidence R → Option R → R → Bool
  is_selected e none r = false
  is_selected e (some q) r = e.same_requirement r q

  -- `_canonical_requirement_allowed`
  unfoldable pub canonical_requirement_allowed : Evidence R → Settings R → R → Bool
  canonical_requirement_allowed e s r =
      not s.canonical_shared_cuda
      || e.has_envelope r
      || (s.explicit_model_authority && is_selected e s.selected_requirement r)

  -- What a missing observation of a required GPU does.
  abbrev pub lose_gpu : Bool → PressureController R → PressureController R
  lose_gpu resident c =
      if leb 1 c.consecutive_gpu_unavailable
      then record c {
        consecutive_gpu_unavailable = c.consecutive_gpu_unavailable + 1;
        admission_open = false;
        consecutive_pressure = 0;
        consecutive_healthy = 0;
        phase = phase_under_pressure resident;
        recovery_reason = some RecoveryReason.gpu_telemetry_unavailable;
      }
      else record c {
        consecutive_gpu_unavailable = c.consecutive_gpu_unavailable + 1;
        admission_open = false;
      }

  unfoldable pub track_gpu : Settings R → Bool → Bool → PressureController R → PressureController R
  track_gpu s fresh resident c =
      if s.require_gpu_telemetry
      then (if fresh then record c { consecutive_gpu_unavailable = 0 } else lose_gpu resident c)
      else c

  -- The branch of an observation in the normal phase.
  unfoldable pub from_normal :
      Settings R → Bool → Bool → Classified → PressureController R → PressureController R
  from_normal s fresh resident k c =
      if is_some_reason k.critical
      then record c {
        consecutive_healthy = 0;
        consecutive_pressure = 0;
        phase = phase_under_pressure resident;
      }
      else (if is_some_reason k.pressure
          then (if leb 1 c.consecutive_pressure
              then record c {
                consecutive_healthy = 0;
                consecutive_pressure = 0;
                phase = phase_under_pressure resident;
              }
              else record c {
                consecutive_healthy = 0;
                consecutive_pressure = c.consecutive_pressure + 1;
              })
          else record c {
            consecutive_healthy = 0;
            consecutive_pressure = 0;
            admission_open =
                c.admission_open
                || ((not s.require_gpu_telemetry || fresh) && priority_recovery_ready s c);
          })

  -- The branch of an observation that does not qualify for the recovery.
  unfoldable pub lose_health :
      Settings R → Bool → Bool → Bool → PressureController R → PressureController R
  lose_health s resident active pressured c = record c {
    consecutive_healthy = 0;
    phase =
        if resident && active && pressured
          || (resident
              && not active
              && is_priority_reason c.recovery_reason
              && priority_recovery_ready s c)
        then yielding
        else c.phase;
  }

  abbrev pub gain_health : Settings R → PressureController R → PressureController R
  gain_health s c = record c {
    consecutive_healthy = min s.recovery_sample_count (c.consecutive_healthy + 1);
  }

  abbrev pub close_unless_normal : PressureController R → PressureController R
  close_unless_normal c = if is_normal c.phase then c else record c { admission_open = false }
