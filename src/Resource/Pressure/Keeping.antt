-- ===== src/Resource/Pressure/Keeping.antt =====
-- The observations of the signal and of the memory keep the fields consistent, exceptions included.
use subgen_english_plex.Common.{ℕ, ◌≡◌, Bool, false, arith}
use subgen_english_plex.Common.Action.{Action}
use subgen_english_plex.Priority.{PriorityObservation, is_neutral}
use subgen_english_plex.Resource.Admission.{PressureSample}
use subgen_english_plex.Resource.Pressure.{
  normal, yielding, recovering, Phase, Evidence, Settings, PressureController, Inputs, Node,
  current,
}
use subgen_english_plex.Resource.Pressure.Signal.{is_critical, resets_recovery}
use subgen_english_plex.Resource.Pressure.Listen.{
  current_phase, reset_recovery, answer_priority, observe_configured, observe_priority,
}
use subgen_english_plex.Resource.Pressure.Phases.{Classified, is_pressured, is_stale}
use subgen_english_plex.Resource.Pressure.Observe.{
  from_recovering, apply_phase, apply_sample, observe_sample,
}
use subgen_english_plex.Resource.Pressure.Readers.{
  classify-Keeps, Reads-gpu_fresh, Reads-recovery_qualified,
}
use subgen_english_plex.Resource.Pressure.Rules.{
  Reads-if, Reads-pure, Reads-current, Triple, Keeps, Keeps-consult, Keeps-lift, Keeps-pure,
  Keeps-gets, Triple-pure, Triple-if, Triple-bind, Triple-current_phase, Triple-update,
  Triple-change, Triple-weaken,
}
use subgen_english_plex.Resource.Pressure.Counters.{
  IsConsistent, Counted, finish-IsConsistent, transition-IsConsistent, water-IsConsistent,
  track-IsConsistent, from_normal-Counted, gain-IsConsistent, lose-IsConsistent, close-IsConsistent,
  count_clear-IsConsistent, yield-IsConsistent, hold-IsConsistent,
}

module _ {R W : Type 0} (s : Settings R) where
  -- A consistent controller stays consistent.
  abbrev pub KeepsIt : {A : Type 0} → Action (Node R W) A → Type 0
  KeepsIt m = Keeps (IsConsistent s) m

  pub keeps_current : KeepsIt current
  keeps_current = Reads-current.keeps (IsConsistent s)

  pub keeps_phase : KeepsIt current_phase
  keeps_phase =
      Triple-weaken current_phase (λ c i. i) (λ p c q. q.0) (λ c j. j) Triple-current_phase

  reset-Keeps : (o : PriorityObservation) → KeepsIt (reset_recovery o)
  unfolding reset_recovery
  reset-Keeps o =
      Triple-if (resets_recovery o) _ _
        (λ e.
          Triple-bind _ _ (Triple-update {I' = IsConsistent s} _ (λ c i. ground arith))
            λ u. Triple-change _ (λ c i. i) (water-IsConsistent s o.source_generation))
        (λ e. Keeps-pure tt)

  answer-Keeps :
      (o : PriorityObservation) (resident : Bool) → KeepsIt (answer_priority s o resident)
  unfolding answer_priority
  answer-Keeps o resident =
      Triple-if (is_critical o) _ _
        (λ e. Triple-bind _ _ (Triple-update _ (yield-IsConsistent s resident)) λ u. keeps_phase)
        (λ e.
          Triple-if (is_neutral o.state) _ _
            (λ f. Triple-bind _ _ (Triple-update _ (hold-IsConsistent s)) λ u. keeps_phase)
            (λ f. Triple-bind _ _ (Triple-change _ (λ c i. i) (count_clear-IsConsistent s o)) λ u.
              Triple-bind _ _ (Triple-change _ (λ c i. i) (finish-IsConsistent s))
                λ v. keeps_phase))

  pub listen-Keeps :
      (env : Inputs W) (o : PriorityObservation) (resident : Bool)
      → KeepsIt (observe_priority s env o resident)
  unfolding observe_priority observe_configured
  listen-Keeps env o resident = Triple-bind _ _ (Keeps-lift _) λ v.
      Triple-if s.priority_configured _ _
        (λ e. Triple-bind _ _ (Keeps-lift _) λ u1. Triple-bind _ _ (Keeps-gets _) λ previous.
          Triple-bind _ _ (Triple-update {I' = IsConsistent s} _ (λ c i. ground arith)) λ u2.
            Triple-bind _ _ (Keeps-consult env.clock) λ now.
              Triple-bind _ _ (Triple-update {I' = IsConsistent s} _ (λ c i. ground arith)) λ u3.
                Triple-bind _ _ (Triple-change _ (λ c i. i) (transition-IsConsistent s o previous))
                  λ u4. Triple-bind _ _ (reset-Keeps o) λ u5.
                    Triple-bind _ _ (Triple-update {I' = IsConsistent s} _ (λ c i. ground arith))
                      λ u6. answer-Keeps o resident)
        (λ e. Triple-bind _ _ (Keeps-lift _) λ u. keeps_phase)

module _ {R W : Type 0} (e : Evidence R) (s : Settings R) (env : Inputs W) where
  -- Consistent, and recovering.
  abbrev Recovering : PressureController R → Type 0
  Recovering c = IsConsistent s c × (c.phase ≡ recovering)

  from_recovering-Keeps :
      (sample : PressureSample) (resident active : Bool) (k : Classified)
      → Triple Recovering
          (from_recovering e s env sample resident active k)
          (λ u. IsConsistent s)
          (IsConsistent s)
  unfolding from_recovering
  from_recovering-Keeps sample resident active k =
      Triple-bind _ _ (Triple-update {I' = Recovering} _ (λ c i. (ground arith, i.1))) λ u.
        Triple-bind _ _
          (Triple-weaken _ (λ c i. i) (λ b c i. i) (λ c i. i.0)
            ((Reads-if (is_pressured k) _ _ (Reads-pure false)
                (Reads-recovery_qualified e s env sample)).keeps
              Recovering))
          λ qualified.
            Triple-if qualified _ _
              (λ q.
                Triple-bind _ _
                  (Triple-update {I' = IsConsistent s} _ (λ c i. gain-IsConsistent s c i.0 i.1))
                  λ v. Triple-change _ (λ c i. i) (finish-IsConsistent s))
              (λ q.
                Triple-update _
                  (λ c i. lose-IsConsistent s resident active (is_pressured k) c i.0 i.1))

  phase-Counted :
      (sample : PressureSample) (fresh resident active : Bool) (k : Classified) (p : Phase)
      → Triple
          (λ c. IsConsistent s c × (c.phase ≡ p))
          (apply_phase e s env sample fresh resident active k p)
          (λ u. Counted s)
          (IsConsistent s)
  unfolding apply_phase
  phase-Counted sample fresh resident active k normal =
      Triple-update _ (λ c i. from_normal-Counted s fresh resident k c i.0 i.1)
  phase-Counted sample fresh resident active k recovering =
      Triple-weaken _ (λ c i. i) (λ u c i. i.counted) (λ c i. i)
        (from_recovering-Keeps sample resident active k)
  phase-Counted sample fresh resident active k yielding = Triple-pure tt (λ c i. i.0.counted)

  apply-Keeps :
      (sample : PressureSample) (t : ℕ) (resident active : Bool)
      → KeepsIt s (apply_sample e s env sample t resident active)
  unfolding apply_sample
  apply-Keeps sample t resident active =
      Triple-bind _ _ (Triple-update {I' = IsConsistent s} _ (λ c i. ground arith)) λ u1.
        Triple-bind _ _ (classify-Keeps s env sample (λ c i. ground arith)) λ k.
          Triple-bind _ _ (Triple-update {I' = IsConsistent s} _ (λ c i. ground arith)) λ u2.
            Triple-bind _ _ ((Reads-gpu_fresh s env sample).keeps (IsConsistent s)) λ fresh.
              Triple-bind _ _ (Triple-update _ (track-IsConsistent s fresh resident)) λ u3.
                Triple-bind _ _ Triple-current_phase λ p.
                  Triple-bind _ _ (phase-Counted sample fresh resident active k p) λ u4.
                    Triple-bind _ _ (Triple-update _ (close-IsConsistent s)) λ u5. keeps_phase s

  pub observe_sample-Keeps :
      (sample : PressureSample) (resident active : Bool)
      → KeepsIt s (observe_sample e s env sample resident active)
  unfolding observe_sample
  observe_sample-Keeps sample resident active = Triple-bind _ _ (Keeps-lift _) λ t.
      Triple-bind _ _ (Reads-current.keeps (IsConsistent s)) λ c.
        Triple-if (is_stale c.last_observed_at t) _ _ (λ h. Keeps-pure c.phase)
          (λ h. apply-Keeps sample t resident active)
