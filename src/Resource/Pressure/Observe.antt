-- ===== src/Resource/Pressure/Observe.antt =====
-- `_observe_locked`: one observation of the memory, classified and applied, in the order of the source.
use subgen_english_plex.Common.{
  ℕ, Bool, true, false, ◌&&◌, none, some, List, [], ◌∷◌, ◌++◌, if◌then◌else◌,
}
use subgen_english_plex.Common.Action.{Action, pure, lift, ◌>>=◌, ◌>>◌}
use subgen_english_plex.Resource.Capacity.{optional_bytes, optional_value, cgroup_headroom_floor}
use subgen_english_plex.Resource.Admission.{PressureSample, evaluate_admission}
use subgen_english_plex.Resource.Pressure.{
  Phase, normal, yielding, recovering, PressureReason, Evidence, Settings, Inputs, Node, current,
  update, consult, change,
}
use subgen_english_plex.Resource.Pressure.Signal.{maybe_finish_recovery}
use subgen_english_plex.Resource.Pressure.Listen.{current_phase}
use subgen_english_plex.Resource.Pressure.Gauge.{
  required_time, gpu_sample_is_fresh, gpu_reserve_floor_satisfied, reserve_for, reason_if,
  psi_reasons, host_pressure, cgroup_room, short_of, gpu_pressure, gpu_critical,
}
use subgen_english_plex.Resource.Pressure.Phases.{
  Classified, is_pressured, is_stale, conditions_of, oom_reasons, count_ooms,
  canonical_requirement_allowed, track_gpu, from_normal, lose_health, gain_health,
  close_unless_normal,
}

module _ {R W : Type 0} (s : Settings R) (env : Inputs W) where
  -- `_gpu_telemetry_fresh`, which reads the clock if there is a reserve.
  unfoldable pub gpu_telemetry_fresh : PressureSample → Action (Node R W) Bool
  unfolding gpu_sample_is_fresh
  gpu_telemetry_fresh sample = elim s.gpu_reserve_bytes [
    | none ↦ pure true
    | some reserve ↦ do
      now ← consult env.clock
      pure (gpu_sample_is_fresh s.expected_gpu_device now s.maximum_sample_age sample)
  ]

  -- `_gpu_fresh`
  unfoldable pub gpu_fresh : PressureSample → Action (Node R W) Bool
  unfolding gpu_telemetry_fresh gpu_reserve_floor_satisfied
  gpu_fresh sample = do
    telemetry ← gpu_telemetry_fresh sample
    pure (telemetry && gpu_reserve_floor_satisfied s.gpu_reserve_bytes sample)

  -- `_classify`
  unfoldable pub classify : PressureSample → Action (Node R W) Classified
  unfolding reserve_for cgroup_headroom_floor optional_bytes cgroup_room gpu_telemetry_fresh
      host_pressure psi_reasons
  classify sample = do
    reserve ← lift (reserve_for s.reserve_bytes sample)
    available ← lift (optional_bytes 0 (optional_value sample.host_available_bytes))
    total ← lift (optional_bytes 1 (optional_value sample.host_total_bytes))
    floor ← lift (cgroup_headroom_floor (optional_value sample.cgroup_limit_bytes))
    room ← lift (cgroup_room sample.cgroup_limit_bytes sample.cgroup_current_bytes)
    fresh ← gpu_telemetry_fresh sample
    events ← lift (optional_bytes 0 (optional_value sample.cgroup_oom_events))
    kills ← lift (optional_bytes 0 (optional_value sample.cgroup_oom_kill_events))
    before ← current
    update (count_ooms sample)
    pure (record {
      pressure =
          reason_if (short_of 1 room floor) PressureReason.cgroup_headroom
          ++ (gpu_pressure s.gpu_reserve_bytes fresh sample ++ psi_reasons sample);
      critical =
          host_pressure available total reserve
          ++ (reason_if (short_of 2 room floor) PressureReason.critical_cgroup_headroom
              ++ (gpu_critical s.gpu_reserve_bytes fresh sample ++ oom_reasons sample before));
    })

module _ {R W : Type 0} (e : Evidence R) (s : Settings R) (env : Inputs W) where
  -- The loop of `_recovery_qualified` over the requirements.
  unfoldable pub any_admitted : PressureSample → List R → Action (Node R W) Bool
  unfolding canonical_requirement_allowed evaluate_admission
  any_admitted sample [] = pure false
  any_admitted sample (r ∷ rs) =
      let rest = any_admitted sample rs in
      if canonical_requirement_allowed e s r
      then (do
        reserve ← lift (reserve_for s.reserve_bytes sample)
        now ← consult env.clock
        d ← lift (evaluate_admission (e.measured r) sample (conditions_of s reserve now))
        (if d.admitted then pure true else rest))
      else rest

  -- `_recovery_qualified`
  unfoldable pub recovery_qualified : PressureSample → Action (Node R W) Bool
  unfolding gpu_fresh any_admitted
  recovery_qualified sample = do
    c ← current
    fresh ← (elim c.recovery_requirements [ [] ↦ pure true | r ∷ rs ↦ gpu_fresh s env sample ])
    (if fresh then any_admitted sample c.recovery_requirements else pure false)

  -- The branch of an observation in the recovering phase.
  unfoldable pub from_recovering :
      PressureSample → Bool → Bool → Classified → Action (Node R W) (Unit {0})
  unfolding recovery_qualified lose_health maybe_finish_recovery
  from_recovering sample resident active k = do
    update (λ c. record c { consecutive_pressure = 0 })
    qualified ← (if is_pressured k then pure false else recovery_qualified sample)
    (if qualified
        then (do update (gain_health s); change (maybe_finish_recovery s))
        else update (lose_health s resident active (is_pressured k)))

  unfoldable pub apply_phase :
      PressureSample → Bool → Bool → Bool → Classified → Phase → Action (Node R W) (Unit {0})
  unfolding from_normal from_recovering
  apply_phase sample fresh resident active k normal = update (from_normal s fresh resident k)
  apply_phase sample fresh resident active k recovering = from_recovering sample resident active k
  apply_phase sample fresh resident active k yielding = pure tt

  -- Behind the guard on an observation that is not newer.
  unfoldable pub apply_sample : PressureSample → ℕ → Bool → Bool → Action (Node R W) Phase
  unfolding classify gpu_fresh track_gpu apply_phase current_phase
  apply_sample sample observed_at resident active = do
    update
        (λ c. record c { last_observed_at = some observed_at; last_observed_sample = some sample })
    k ← classify s env sample
    update
        (λ c. record c { last_pressure_reasons = k.pressure; last_critical_reasons = k.critical })
    fresh ← gpu_fresh s env sample
    update (track_gpu s fresh resident)
    phase ← current_phase
    apply_phase sample fresh resident active k phase
    update close_unless_normal
    current_phase

  -- `_observe_locked`
  unfoldable pub observe_sample : PressureSample → Bool → Bool → Action (Node R W) Phase
  unfolding apply_sample current_phase
  observe_sample sample resident active = do
    observed_at ← lift (required_time sample.observed_at)
    c ← current
    (if is_stale c.last_observed_at observed_at
        then pure c.phase
        else apply_sample sample observed_at resident active)
