-- ===== src/Resource/Pressure/Reach.antt =====
-- What a controller can become: its fields stay consistent whatever is called.
use subgen_english_plex.Common.{
  ◌≡◌, refl, sym, Bool, true, false, ◌&&◌, ◌||◌, not, Option, none, some, List, arith, require,
  value_error, subst, Ensures, ensured, Ensures-then, if◌then◌else◌,
}
use subgen_english_plex.Common.Action.{Action, Outcome-either, pure, Outcome, ◌>>◌}
use subgen_english_plex.Resource.Admission.{PressureSample, checked_gpu_reserve}
use subgen_english_plex.Resource.Pressure.{
  Evidence, Settings, PressureController, Inputs, Node, RecoveryReason, normal,
}
use subgen_english_plex.Resource.Pressure.Signal.{priority_recovery_ready, is_normal, is_yielding}
use subgen_english_plex.Resource.Pressure.Polling.{is_given}
use subgen_english_plex.Resource.Pressure.Calls.{
  is_unobserved, observing, observe, poll_priority, apply_unobserved, poll_sample, polling, poll,
  check_or_raise, close_admission, opening, open_admission_if_normal, mark_released,
  replace_requirements, enter_no_safe_model, check_all, all_allowed,
}
use subgen_english_plex.Resource.Pressure.Loading.{
  decide_load, deny, load_signal, load_from, loading, immediate_load_admission,
}
use subgen_english_plex.Resource.Pressure.Create.{
  Arguments, create, new_controller, candidates, has_valid_times, has_valid_gpu, checked_reserve,
  check_selected,
}
use subgen_english_plex.Resource.Pressure.Steps.{
  Call, observing_call, priority_call, poll_call, check_call, close_call, open_call, release_call,
  no_safe_model_call, load_call, receipt_failure_call, release_failure_call, perform, Reached,
  created, called, elsewhere,
}
use subgen_english_plex.Resource.Pressure.Rules.{
  On, Keeps-consult, Keeps-lift, Keeps-pure, Triple-pure, Triple-throw, Triple-if, Triple-option,
  Triple-bind, Triple-current, Triple-update, Triple-weaken,
}
use subgen_english_plex.Resource.Pressure.Counters.{
  IsConsistent, release-IsConsistent, latch-IsConsistent, latch_release-IsConsistent,
  close_gate-IsConsistent, gate_after-IsConsistent,
}
use subgen_english_plex.Resource.Pressure.Readers.{Reads-canonical_gpu_ready}
use subgen_english_plex.Resource.Pressure.Keeping.{
  KeepsIt, keeps_current, keeps_phase, observe_sample-Keeps,
}
use subgen_english_plex.Resource.Pressure.Invariant.{
  poll_signal-Keeps, sample-Keeps, transition-Keeps,
}

module _ {R W : Type 0} (s : Settings R) (env : Inputs W) where
  -- Consistent, and opened only in the normal phase.
  opening-Keeps : KeepsIt s (opening s env)
  unfolding opening
  opening-Keeps = Triple-bind _ _ Triple-current λ c.
      Triple-bind _ _
        (Triple-if {Q = λ opened d. IsConsistent s d × (opened ≡ true → d.phase ≡ normal)}
          (is_normal c.phase && priority_recovery_ready s c) _ _
          (λ h.
            Triple-weaken _ (λ d i. i) (λ b d i. (i.0, λ t. ground arith)) (λ d i. i.0)
              ((Reads-canonical_gpu_ready s env).keeps (λ d. IsConsistent s d × (d ≡ c))))
          (λ h. Triple-pure false (λ d i. (i.0, λ t. absurd (cc)))))
        λ opened.
          Triple-bind _ _ (Triple-update {I' = IsConsistent s} _ (λ d i. ground arith))
            λ u. Keeps-pure opened

  load_signal-Keeps : (sample : PressureSample) → KeepsIt s (load_signal s env sample)
  unfolding load_signal
  load_signal-Keeps sample =
      Triple-if (is_given sample.priority_observation || s.priority_configured) _ _
        (λ h.
          Triple-bind _ _ (poll_signal-Keeps s env false sample.priority_observation _)
            λ g. Keeps-pure (is_given g))
        (λ h. Keeps-pure false)

  deny-Keeps : (observed : Bool) → KeepsIt {W = W} s (deny observed)
  unfolding deny
  deny-Keeps observed =
      Triple-bind _ _ (Triple-update _ (close_gate-IsConsistent s))
        λ u. Triple-bind _ _ (keeps_current s) λ c. Keeps-pure _

module _ {R W : Type 0} (e : Evidence R) (s : Settings R) (env : Inputs W) where
  observing-Keeps :
      (sample : PressureSample) (resident : Bool) → KeepsIt s (observing e s env sample resident)
  unfolding observing
  observing-Keeps sample resident =
      Triple-bind _ _ (observe_sample-Keeps e s env sample resident false)
        λ p. poll_signal-Keeps s env resident sample.priority_observation false

  unobserved-Keeps :
      (sample : PressureSample) (resident active : Bool)
      → KeepsIt s (apply_unobserved e s env sample resident active)
  unfolding apply_unobserved
  unobserved-Keeps sample resident active =
      Triple-bind _ _ (observe_sample-Keeps e s env sample resident active) λ p.
        Triple-bind _ _ (Triple-update {I' = IsConsistent s} _ (λ c i. ground arith)) λ u.
          Triple-option sample.priority_observation _ _ (Keeps-pure false) (λ o.
            Triple-bind _ _ (poll_signal-Keeps s env resident (some o) false)
              λ g. Keeps-pure (is_given g))

  poll_sample-Keeps : (resident active : Bool) → KeepsIt s (poll_sample e s env resident active)
  unfolding poll_sample
  poll_sample-Keeps resident active = Triple-bind _ _ (sample-Keeps s env) λ sample.
      Triple-bind _ _ (keeps_current s) λ c.
        Triple-if (is_unobserved c) _ _ (λ h. unobserved-Keeps sample resident active)
          (λ h. Keeps-pure false)

  polling-Keeps : (resident force active : Bool) → KeepsIt s (polling e s env resident force active)
  unfolding polling
  polling-Keeps resident force active =
      Triple-bind _ _ (poll_signal-Keeps s env resident none force) λ g.
        Triple-bind _ _ (keeps_current s) λ c.
          Triple-bind _ _
            (Triple-if (is_yielding c.phase) _ _ (λ h. Keeps-pure false)
              (λ h. poll_sample-Keeps resident active))
            λ observed. Keeps-pure _

  poll-Keeps : (resident force active : Bool) → KeepsIt s (poll e s env resident force active)
  unfolding poll
  poll-Keeps resident force active = Triple-bind _ _ (Keeps-lift _) λ u.
      Triple-bind _ _ (transition-Keeps s env _ _ (polling-Keeps resident force active))
        λ o. keeps_phase s

  check-Keeps : (force : Bool) → KeepsIt s (check_or_raise e s env force)
  unfolding check_or_raise
  check-Keeps force =
      Triple-bind _ _ (poll-Keeps true force true)
        λ p. Triple-if (is_yielding p) _ _ (λ h. Triple-throw _ (λ c i. i)) (λ h. Keeps-pure p)

  replace-Keeps : (rs : Option (List R)) → KeepsIt {W = W} s (replace_requirements e s env rs)
  unfolding replace_requirements
  replace-Keeps none = Keeps-pure tt
  replace-Keeps (some rs) = Triple-bind _ _ (Keeps-lift _) λ u1.
      Triple-bind _ _ (Keeps-lift _) λ u2.
        Triple-bind _ _ (Keeps-lift _)
          λ u3. Triple-update {I' = IsConsistent s} _ (λ c i. ground arith)

  decide-Keeps :
      (r : R) (sample : PressureSample) (observed : Bool)
      → KeepsIt s (decide_load e s env r sample observed)
  unfolding decide_load
  decide-Keeps r sample observed = Triple-bind _ _ (Keeps-lift _) λ reserve.
      Triple-bind _ _ (Keeps-consult env.clock) λ now.
        Triple-bind _ _ (Keeps-lift _)
          λ d. Triple-bind _ _ (Triple-update _ (gate_after-IsConsistent s d)) λ u. Keeps-pure _

  load_from-Keeps : (r : R) (sample : PressureSample) → KeepsIt s (load_from e s env r sample)
  unfolding load_from
  load_from-Keeps r sample = Triple-bind _ _ (load_signal-Keeps s env sample) λ observed.
      Triple-bind _ _ (keeps_current s) λ c.
        Triple-if (is_normal c.phase) _ _ (λ h. decide-Keeps r sample observed)
          (λ h. deny-Keeps s env observed)

  loading-Keeps :
      (r : Option R) (reader : Option (Action W PressureSample))
      → KeepsIt s (loading e s env r reader)
  unfolding loading
  loading-Keeps r reader = Triple-bind _ _ (Keeps-lift _) λ chosen.
      Triple-bind _ _ (Keeps-lift _) λ u1. Triple-bind _ _ (Keeps-lift _) λ u2.
        Triple-bind _ _ (Keeps-lift _) λ u3. Triple-bind _ _ (keeps_current s) λ c.
          Triple-if (is_normal c.phase) _ _
            (λ h. Triple-bind _ _ (Keeps-consult _) λ sample. load_from-Keeps chosen sample)
            (λ h. deny-Keeps s env false)

  then_done : {A : Type 0} (m : Action (Node R W) A) → KeepsIt s m → KeepsIt s (m >> pure tt)
  then_done m h = Triple-bind _ _ h λ a. Keeps-pure tt

  perform-Keeps : (call : Call R W) → KeepsIt s (perform e s env call)
  unfolding perform observe poll_priority close_admission open_admission_if_normal mark_released
      enter_no_safe_model immediate_load_admission
  perform-Keeps (observing_call sample resident) = then_done _ (
      Triple-bind _ _ (transition-Keeps s env _ _ (observing-Keeps sample resident))
        λ g. keeps_phase s)
  perform-Keeps (priority_call resident force) = then_done _ (
      Triple-bind _ _ (transition-Keeps s env _ _ (poll_signal-Keeps s env resident none force))
        λ g. keeps_phase s)
  perform-Keeps (poll_call resident force active) = then_done _ (poll-Keeps resident force active)
  perform-Keeps (check_call force) = then_done _ (check-Keeps force)
  perform-Keeps close_call =
      transition-Keeps s env _ (λ u. false) (Triple-update _ (close_gate-IsConsistent s))
  perform-Keeps open_call =
      then_done _ (transition-Keeps s env _ (λ o. false) (opening-Keeps s env))
  perform-Keeps (release_call reason) = then_done _ (
      transition-Keeps s env _ (λ p. false)
        (Triple-bind _ _ (Triple-update _ (release-IsConsistent s reason)) λ u. keeps_phase s))
  perform-Keeps (no_safe_model_call rs) = then_done _ (
      transition-Keeps s env _ (λ p. false)
        (Triple-bind _ _ (replace-Keeps rs) λ u1.
          Triple-bind _ _
            (Triple-update _ (release-IsConsistent s (some RecoveryReason.no_safe_model)))
            λ u2. keeps_phase s))
  perform-Keeps (load_call r reader) = then_done _ (
      Triple-bind _ _ (transition-Keeps s env _ _ (loading-Keeps r reader))
        λ l. Keeps-pure l.outcome)
  perform-Keeps receipt_failure_call = Triple-update _ (latch-IsConsistent s)
  perform-Keeps (release_failure_call resident) =
      Triple-update _ (latch_release-IsConsistent s resident)

-- A new controller, whatever its settings are.
new-IsConsistent :
    {R : Type 0} (s : Settings R) (rs : List R) → IsConsistent s (new_controller s rs)
new-IsConsistent s rs = ground arith

-- What the constructor returns is a new controller for its settings.
abbrev IsNew : {R : Type 0} → Settings R × PressureController R → Type 0
IsNew {R} (s, c) = (rs : List R) × (c ≡ new_controller s rs)

create-IsNew : {R : Type 0} (e : Evidence R) (a : Arguments R) → Ensures IsNew (create e a)
unfolding create
create-IsNew e a =
    let s = a.settings in
    let rs = candidates s.selected_requirement a.requirements in
    Ensures-then IsNew (require (has_valid_times s) value_error) _ λ u1.
      Ensures-then IsNew (checked_reserve s.reserve_bytes) _ λ u2.
        Ensures-then IsNew (checked_gpu_reserve s.gpu_reserve_bytes) _ λ u3.
          Ensures-then IsNew (require (has_valid_gpu s) value_error) _ λ u4.
            Ensures-then IsNew
              (require (if a.has_observer then a.has_transition_lock else not a.has_transition_lock)
                value_error)
              _
              λ u5. Ensures-then IsNew (check_selected e s.selected_requirement) _ λ u6.
                Ensures-then IsNew (check_all e a.requirements) _ λ u7.
                  Ensures-then IsNew
                    (require (not s.explicit_model_authority || is_given s.selected_requirement)
                      value_error)
                    _
                    λ u8.
                      Ensures-then IsNew (require (all_allowed e s rs) value_error) _
                        λ u9. (rs, refl)

module _ {R W : Type 0} {e : Evidence R} {s : Settings R} {env : Inputs W} where
  -- Whatever is called on a controller that the constructor returned, and whatever its callables do, return
  -- or raise: its admission is open only in the normal phase, which has no recovery reason; healthy samples
  -- are counted only while it is recovering, up to the setting; and its other counters stay in their bounds.
  pub Reached-IsConsistent : {n : Node R W} → Reached e s env n → IsConsistent s n.controller
  Reached-IsConsistent (created a c w h) =
      let (rs, new) = ensured IsNew (create e a) (s, c) (create-IsNew e a) h in
      subst (IsConsistent s) (sym new) (new-IsConsistent s rs)
  Reached-IsConsistent (called {n} call r n' h step) =
      let kept = (perform-Keeps e s env call).holds.at n (Reached-IsConsistent h) in
      Outcome-either (On (IsConsistent s)) r n'
        (subst (Outcome (λ u. On (IsConsistent s)) (On (IsConsistent s))) step kept)
  Reached-IsConsistent (elsewhere w h) = Reached-IsConsistent h
