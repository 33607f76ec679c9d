-- ===== src/Resource/Pressure/Listen.antt =====
-- `_observe_priority_locked`: one observation of the priority signal, in the order of the source.
use subgen_english_plex.Common.{Bool, true, not, ◌&&◌, some, require, value_error, if◌then◌else◌}
use subgen_english_plex.Common.Action.{Action, pure, lift, gets, ◌>>=◌, ◌>>◌}
use subgen_english_plex.Priority.{PriorityObservation, is_disabled, is_neutral, is_external}
use subgen_english_plex.Resource.Pressure.{Phase, Settings, Inputs, Node, update, consult, change}
use subgen_english_plex.Resource.Pressure.Signal.{
  is_critical, resets_recovery, validate_priority_observation, priority_transition,
  raise_high_water, count_clear, maybe_finish_recovery, yield_to_priority, hold_for_priority,
}

module _ {R W : Type 0} where
  unfoldable pub current_phase : Action (Node R W) Phase
  current_phase = gets (λ n. n.controller.phase)

  unfoldable pub reset_recovery : PriorityObservation → Action (Node R W) (Unit {0})
  unfolding raise_high_water
  reset_recovery o =
      if resets_recovery o
      then (do
        update (λ c. record c { distinct_clear_count = 0 })
        change (raise_high_water o.source_generation))
      else pure tt

  -- The branches behind the bookkeeping.
  unfoldable pub answer_priority : Settings R → PriorityObservation → Bool → Action (Node R W) Phase
  unfolding count_clear maybe_finish_recovery current_phase
  answer_priority s o resident =
      if is_critical o
      then (do update (yield_to_priority resident); current_phase)
      else (if is_neutral o.state
          then (do update hold_for_priority; current_phase)
          else (do change (count_clear o); change (maybe_finish_recovery s); current_phase))

  unfoldable pub observe_configured :
      Settings R → Inputs W → PriorityObservation → Bool → Action (Node R W) Phase
  unfolding priority_transition reset_recovery answer_priority
  observe_configured s env o resident = do
    lift (require (o.configured && not (is_disabled o.state)) value_error)
    previous ← gets (λ n. n.controller.priority_observation.state)
    update (λ c. record c { priority_observation = o })
    now ← consult env.clock
    update (λ c. record c { priority_observed_at = some now })
    change (priority_transition o previous)
    reset_recovery o
    update (λ c. if is_external o.state then record c { episode_pending = true } else c)
    answer_priority s o resident

  -- `_observe_priority_locked`
  unfoldable pub observe_priority :
      Settings R → Inputs W → PriorityObservation → Bool → Action (Node R W) Phase
  unfolding validate_priority_observation observe_configured current_phase
  observe_priority s env o resident = do
    lift (validate_priority_observation o)
    (if s.priority_configured then observe_configured s env o resident else (do
      lift (require (not o.configured && is_disabled o.state) value_error)
      current_phase))
