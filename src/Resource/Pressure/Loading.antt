-- ===== src/Resource/Pressure/Loading.antt =====
-- `immediate_load_admission`: the fresh admission of a load, which only the normal phase reaches.
use subgen_english_plex.Common.{
  Bool, true, false, not, ◌&&◌, ◌||◌, Option, none, some, List, [], ◌∷◌, Result, ok, raise, require,
  value_error, if◌then◌else◌,
}
use subgen_english_plex.Common.Action.{Action, pure, lift, ◌>>=◌, ◌>>◌}
use subgen_english_plex.Resource.Admission.{
  PressureSample, Reason, AdmissionDecision, evaluate_admission,
}
use subgen_english_plex.Resource.Pressure.{
  Phase, RecoveryReason, Evidence, Settings, PressureController, Inputs, Node, current, update,
  consult,
}
use subgen_english_plex.Resource.Pressure.Signal.{priority_recovery_ready, is_normal}
use subgen_english_plex.Resource.Pressure.Gauge.{reserve_for}
use subgen_english_plex.Resource.Pressure.Phases.{conditions_of, canonical_requirement_allowed}
use subgen_english_plex.Resource.Pressure.Calls.{close_gate, transition}
use subgen_english_plex.Resource.Pressure.Polling.{is_given, release_with, poll_priority_locked}

-- What a fresh admission of a load returns: a decision, or the refusal of a phase.
pub data LoadDecision : Type 0 where
  decided : AdmissionDecision → LoadDecision
  refused : Phase → LoadDecision

-- `decision.admitted` of what was returned.
abbrev pub is_granted : LoadDecision → Bool
is_granted (decided d) = d.admitted
is_granted (refused p) = false

abbrev pub names_gpu : List Reason → Bool
names_gpu [] = false
names_gpu (Reason.gpu_unavailable ∷ rs) = true
names_gpu (r ∷ rs) = names_gpu rs

abbrev pub refusal_reason : AdmissionDecision → RecoveryReason
refusal_reason d =
    if names_gpu d.reasons
    then RecoveryReason.gpu_telemetry_unavailable
    else RecoveryReason.insufficient_capacity

-- A decision and whether the signal was observed on the way.
pub record Loading : Type 0 where
  pub outcome : LoadDecision
  pub heard : Bool

module _ {R : Type 0} where
  -- The gate behind a decision.
  abbrev pub gate_after :
      Settings R → AdmissionDecision → PressureController R → PressureController R
  gate_after s d c =
      if d.admitted
      then record c { admission_open = is_normal c.phase && priority_recovery_ready s c }
      else release_with (some (refusal_reason d)) c

  -- `requirement or self.selected_requirement`
  abbrev pub chosen_requirement : Settings R → Option R → Result R
  chosen_requirement s (some r) = ok r
  chosen_requirement s none = elim s.selected_requirement [
    | none ↦ raise value_error
    | some r ↦ ok r
  ]

  abbrev pub is_fixed_to : Evidence R → Option R → R → Bool
  is_fixed_to e none r = true
  is_fixed_to e (some q) r = e.same_requirement r q

module _ {R W : Type 0} where
  unfoldable pub deny : Bool → Action (Node R W) Loading
  deny observed = do
    update close_gate
    c ← current
    pure (record { outcome = refused c.phase; heard = observed })

module _ {R W : Type 0} (s : Settings R) (env : Inputs W) where
  -- The observation of the signal in front of the decision.
  unfoldable pub load_signal : PressureSample → Action (Node R W) Bool
  unfolding poll_priority_locked
  load_signal sample =
      if is_given sample.priority_observation || s.priority_configured
      then (do
        snapshot ←
            poll_priority_locked s env false sample.priority_observation
              (not (is_given sample.priority_observation))
        pure (is_given snapshot))
      else pure false

module _ {R W : Type 0} (e : Evidence R) (s : Settings R) (env : Inputs W) where
  -- The decision for a sample, in the normal phase.
  unfoldable pub decide_load : R → PressureSample → Bool → Action (Node R W) Loading
  unfolding reserve_for evaluate_admission
  decide_load r sample observed = do
    reserve ← lift (reserve_for s.reserve_bytes sample)
    now ← consult env.clock
    d ← lift (evaluate_admission (e.measured r) sample (conditions_of s reserve now))
    update (gate_after s d)
    pure (record { outcome = decided d; heard = observed })

  unfoldable pub load_from : R → PressureSample → Action (Node R W) Loading
  unfolding load_signal decide_load deny
  load_from r sample = do
    observed ← load_signal s env sample
    c ← current
    (if is_normal c.phase then decide_load r sample observed else deny observed)

  -- `_immediate_load_admission_locked`
  unfoldable pub loading : Option R → Option (Action W PressureSample) → Action (Node R W) Loading
  unfolding canonical_requirement_allowed deny load_from
  loading requirement reader = do
    r ← lift (chosen_requirement s requirement)
    lift (e.post_init r)
    lift (require (is_fixed_to e s.selected_requirement r) value_error)
    lift (require (canonical_requirement_allowed e s r) value_error)
    c ← current
    (if is_normal c.phase
        then (do
          sample ← consult (elim reader [ none ↦ env.sample_reader | some given ↦ given ])
          load_from r sample)
        else deny false)

  -- `immediate_load_admission`
  unfoldable pub immediate_load_admission :
      Option R → Option (Action W PressureSample) → Action (Node R W) LoadDecision
  unfolding transition loading
  immediate_load_admission requirement reader = do
    l ← transition s env (loading requirement reader) (λ l. l.heard)
    pure l.outcome
