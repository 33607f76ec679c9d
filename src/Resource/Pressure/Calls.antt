-- ===== src/Resource/Pressure/Calls.antt =====
-- The methods of `PressureController`. Each runs under the locks of the controller from its first step to
-- its last, and publishes the gate where it changed.
use subgen_english_plex.Common.{
  Bool, true, false, not, ◌&&◌, ◌||◌, Option, none, some, List, [], ◌∷◌, Result, ok, raise, require,
  value_error, memory_pressure_yield, ◌==◌, leb, if◌then◌else◌,
}
use subgen_english_plex.Common.Action.{Action, pure, throw, lift, ◌>>=◌, ◌>>◌}
use subgen_english_plex.Resource.Admission.{PressureSample}
use subgen_english_plex.Resource.Pressure.{
  Phase, RecoveryReason, Evidence, Settings, PressureController, GateSnapshot, Inputs, Node,
  current, update,
}
use subgen_english_plex.Resource.Pressure.Signal.{
  priority_recovery_ready, phase_under_pressure, is_normal, is_yielding,
}
use subgen_english_plex.Resource.Pressure.Listen.{current_phase}
use subgen_english_plex.Resource.Pressure.Phases.{canonical_requirement_allowed}
use subgen_english_plex.Resource.Pressure.Observe.{observe_sample, gpu_fresh}
use subgen_english_plex.Resource.Pressure.Publish.{receipt_key}
use subgen_english_plex.Resource.Pressure.Polling.{
  is_given, release_with, publish_transition, poll_priority_locked, cached_sample,
}

module _ {R : Type 0} where
  -- `latch_release_failure_without_publication`
  abbrev pub latch_release_failure : Bool → PressureController R → PressureController R
  latch_release_failure resident c = record c {
    phase = phase_under_pressure resident;
    admission_open = false;
    recovery_reason = some RecoveryReason.model_release_failed;
    consecutive_pressure = 0;
    consecutive_healthy = 0;
  }

  abbrev pub close_gate : PressureController R → PressureController R
  close_gate c = record c { admission_open = false }

  -- `self._observed_token != self._sample_token`
  abbrev pub is_unobserved : PressureController R → Bool
  is_unobserved c = elim c.observed_token [ none ↦ true | some t ↦ not (t == c.sample_token) ]

  -- `candidates != (self.selected_requirement,)`, negated.
  abbrev pub are_fixed_to : Evidence R → Option R → List R → Bool
  are_fixed_to e none rs = true
  are_fixed_to e (some q) (r ∷ []) = e.same_requirement r q
  are_fixed_to e (some q) _ = false

  unfoldable pub check_all : Evidence R → List R → Result (Unit {0})
  check_all e [] = ok tt
  check_all e (r ∷ rs) =
      let rest = check_all e rs in elim (e.post_init r) [ raise x ↦ raise x | ok done ↦ rest ]

  unfoldable pub all_allowed : Evidence R → Settings R → List R → Bool
  unfolding canonical_requirement_allowed
  all_allowed e s [] = true
  all_allowed e s (r ∷ rs) = canonical_requirement_allowed e s r && all_allowed e s rs

module _ {R W : Type 0} (s : Settings R) (env : Inputs W) where
  -- A call whose body may change the gate: what it changed is published, always if `force` says so.
  unfoldable pub transition : {A : Type 0} → Action (Node R W) A → (A → Bool) → Action (Node R W) A
  unfolding publish_transition
  transition body force = do
    before ← current
    a ← body
    publish_transition s env (receipt_key before) (force a)
    pure a

  -- `poll_priority`
  unfoldable pub poll_priority : Bool → Bool → Action (Node R W) Phase
  unfolding transition poll_priority_locked current_phase
  poll_priority resident force = do
    transition (poll_priority_locked s env resident none force) is_given
    current_phase

  -- `close_admission`
  unfoldable pub close_admission : Action (Node R W) (Unit {0})
  unfolding transition
  close_admission = transition (update close_gate) (λ done. false)

  -- The last condition of `open_admission_if_normal`, which reads the clock only under its guards.
  unfoldable pub canonical_gpu_ready : Action (Node R W) Bool
  unfolding gpu_fresh
  canonical_gpu_ready = do
    c ← current
    (if s.canonical_shared_cuda
        then (elim c.last_observed_sample [
          | none ↦ pure false
          | some sample ↦
              if leb 1 c.consecutive_gpu_unavailable then pure false else gpu_fresh s env sample
        ])
        else pure true)

  unfoldable pub opening : Action (Node R W) Bool
  unfolding canonical_gpu_ready
  opening = do
    c ← current
    opened ←
        (if is_normal c.phase && priority_recovery_ready s c
          then canonical_gpu_ready
          else pure false)
    update (λ c. record c { admission_open = opened })
    pure opened

  -- `open_admission_if_normal`
  unfoldable pub open_admission_if_normal : Action (Node R W) Bool
  unfolding transition opening
  open_admission_if_normal = transition opening (λ opened. false)

  -- `mark_released`
  unfoldable pub mark_released : Option RecoveryReason → Action (Node R W) Phase
  unfolding transition current_phase
  mark_released reason = transition (do update (release_with reason); current_phase) (λ p. false)

module _ {R W : Type 0} (e : Evidence R) (s : Settings R) (env : Inputs W) where
  unfoldable pub observing : PressureSample → Bool → Action (Node R W) (Option GateSnapshot)
  unfolding observe_sample poll_priority_locked
  observing sample resident = do
    observe_sample e s env sample resident false
    poll_priority_locked s env resident sample.priority_observation false

  -- `observe`
  unfoldable pub observe : PressureSample → Bool → Action (Node R W) Phase
  unfolding transition observing current_phase
  observe sample resident = do transition s env (observing sample resident) is_given; current_phase

  -- A sample that was not observed yet, and the observation of the signal that it carries.
  unfoldable pub apply_unobserved : PressureSample → Bool → Bool → Action (Node R W) Bool
  unfolding observe_sample poll_priority_locked
  apply_unobserved sample resident active = do
    observe_sample e s env sample resident active
    update (λ c. record c { observed_token = some c.sample_token })
    (elim sample.priority_observation [
      | none ↦ pure false
      | some o ↦ do
        snapshot ← poll_priority_locked s env resident (some o) false
        pure (is_given snapshot)
    ])

  unfoldable pub poll_sample : Bool → Bool → Action (Node R W) Bool
  unfolding cached_sample apply_unobserved
  poll_sample resident active = do
    sample ← cached_sample s env
    c ← current
    (if is_unobserved c then apply_unobserved sample resident active else pure false)

  -- The body of `poll`: whether the signal was observed.
  unfoldable pub polling : Bool → Bool → Bool → Action (Node R W) Bool
  unfolding poll_priority_locked poll_sample
  polling resident force active = do
    snapshot ← poll_priority_locked s env resident none force
    c ← current
    observed ← (if is_yielding c.phase then pure false else poll_sample resident active)
    pure (observed || is_given snapshot)

  -- `poll`
  unfoldable pub poll : Bool → Bool → Bool → Action (Node R W) Phase
  unfolding transition polling current_phase
  poll resident force active = do
    lift (require (not active || resident) value_error)
    transition s env (polling resident force active) (λ observed. observed)
    current_phase

  -- `check_or_raise`
  unfoldable pub check_or_raise : Bool → Action (Node R W) Phase
  unfolding poll
  check_or_raise force = do
    phase ← poll true force true
    (if is_yielding phase then throw memory_pressure_yield else pure phase)

  -- The guards of `enter_no_safe_model` on new requirements, which it then keeps.
  unfoldable pub replace_requirements : Option (List R) → Action (Node R W) (Unit {0})
  unfolding check_all all_allowed
  replace_requirements none = pure tt
  replace_requirements (some rs) = do
    lift (check_all e rs)
    lift (require (are_fixed_to e s.selected_requirement rs) value_error)
    lift (require (all_allowed e s rs) value_error)
    update (λ c. record c { recovery_requirements = rs })

  -- `enter_no_safe_model`
  unfoldable pub enter_no_safe_model : Option (List R) → Action (Node R W) Phase
  unfolding transition replace_requirements current_phase
  enter_no_safe_model requirements =
      transition s env
        (do
          replace_requirements requirements
          update (release_with (some RecoveryReason.no_safe_model))
          current_phase)
        (λ p. false)
