-- ===== src/Tests/Pressure.antt =====
-- A controller for one model on a host without a GPU, under a clock that moves on by a second at each
-- reading and with a signal that publishes a clear generation at each poll.
use subgen_english_plex.Common.{
  ℕ, ◌+◌, ◌≡◌, ◌<◌, refl, Bool, true, false, Option, none, some, [], ◌∷◌, pos, Result, ok, raise,
  arith, require, value_error, ltb, ◌&&◌, Bool-cases, ◌==◌, inl, inr,
}
use subgen_english_plex.Common.Action.{Action, pure, throw, lift, gets, modify, attempt, ◌>>=◌}
use subgen_english_plex.Segmentation.Number.{null}
use subgen_english_plex.Priority.{PriorityState, PriorityObservation}
use subgen_english_plex.Resource.Admission.{ModelLoadRequirement, PressureSample}
use subgen_english_plex.Resource.Pressure.{
  Phase, Evidence, Settings, Inputs, Node, current, update, consult, change,
}
use subgen_english_plex.Resource.Pressure.Listen.{observe_priority}
use subgen_english_plex.Resource.Pressure.Observe.{observe_sample}
use subgen_english_plex.Resource.Pressure.Publish.{ReceiptKey-discrete}
use subgen_english_plex.Resource.Pressure.Create.{
  Arguments, create, new_controller, first_observation,
}
use subgen_english_plex.Resource.Pressure.{GateSnapshot}
use subgen_english_plex.Resource.Pressure.Polling.{is_given, poll_priority_locked}
use subgen_english_plex.Resource.Pressure.Calls.{transition}
use subgen_english_plex.Resource.Pressure.Loading.{LoadDecision, refused, immediate_load_admission}
use subgen_english_plex.Resource.Pressure.Receipts.{Receipted, transition-Receipted}
use subgen_english_plex.Resource.Pressure.Granted.{Admitted, granted-Fits}
use subgen_english_plex.Resource.Pressure.Loading.{is_granted}
use subgen_english_plex.Resource.Pressure.Critical.{IsClosed, critical-IsClosed}
use subgen_english_plex.Resource.Pressure.Clears.Three.{
  Listened, begun, heard, ThreeClears, ready-ThreeClears,
}
use subgen_english_plex.Resource.Pressure.Steps.{poll_call, perform, Reached, created, called}
use subgen_english_plex.Resource.Pressure.Counters.{IsConsistent}
use subgen_english_plex.Resource.Pressure.Reach.{Reached-IsConsistent}

abbrev pub small : ModelLoadRequirement
small = record {
  host_incremental_bytes = 1_073_741_824;
  cgroup_incremental_bytes = 1_073_741_824;
  device_incremental_bytes = 0;
  host_margin_bytes = 536_870_912;
  device_margin_bytes = 1;
}

-- Two requirements are the same if they ask the same of the host.
abbrev pub evidence : Evidence ModelLoadRequirement
evidence = record {
  measured = λ r. r;
  has_envelope = λ r. false;
  post_init = λ r. require (ltb 0 r.host_margin_bytes && ltb 0 r.device_margin_bytes) value_error;
  same_requirement = λ r q. r.host_incremental_bytes == q.host_incremental_bytes;
}

abbrev pub settings : Settings ModelLoadRequirement
settings = record {
  reserve_bytes = none;
  gpu_reserve_bytes = none;
  expected_gpu_device = none;
  canonical_shared_cuda = false;
  require_gpu_telemetry = false;
  explicit_model_authority = true;
  selected_requirement = some small;
  require_cgroup = false;
  sample_interval = 500_000;
  priority_interval = 500_000;
  recovery_sample_count = 3;
  maximum_wait = 60_000_000;
  maximum_sample_age = 10_000_000;
  priority_configured = true;
}

abbrev pub sample_at : ℕ → PressureSample
sample_at t = record {
  observed_at = some t;
  host_available_bytes = some 12_884_901_888;
  host_total_bytes = some 17_179_869_184;
  cgroup_current_bytes = none;
  cgroup_limit_bytes = none;
  psi_some_avg10 = null;
  psi_full_avg10 = null;
  cgroup_oom_events = none;
  cgroup_oom_kill_events = none;
  host_psi_some_avg10 = null;
  host_psi_full_avg10 = null;
  cgroup_psi_some_avg10 = null;
  cgroup_psi_full_avg10 = null;
  gpu_total_bytes = none;
  gpu_free_bytes = none;
  gpu_device_id = none;
  gpu_observed_at = none;
  priority_observation = none;
}

abbrev clear_at : ℕ → PriorityObservation
clear_at g = record (first_observation true) {
  state = PriorityState.clear;
  source_generation = some (pos g);
  accepted = true;
  new_publication = true;
}

-- The state of the callables is the time.
abbrev pub inputs : Inputs ℕ
inputs = record {
  clock = λ t. (ok t, t + 1_000_000);
  sample_reader = λ t. (ok (sample_at t), t);
  priority_reader = λ t. (ok (clear_at t), t);
  priority_observer = some (λ snapshot t. (ok tt, t));
}

abbrev arguments : Arguments ModelLoadRequirement
arguments = record {
  settings = settings;
  requirements = [];
  has_observer = true;
  has_transition_lock = true;
}

abbrev first_node : Node ModelLoadRequirement ℕ
first_node = record { controller = new_controller settings (small ∷ []); world = 1_000_000 }

step : Node ModelLoadRequirement ℕ → Result (Unit {0}) × Node ModelLoadRequirement ℕ
unfolding perform
step = perform evidence settings inputs (poll_call false true false)

-- Three polls see three clear generations and three healthy samples, which opens the admission.
three_polls : Node ModelLoadRequirement ℕ
unfolding step
three_polls = (step (step (step first_node).1).1).1

opens :
    (three_polls.controller.phase ≡ Phase.normal) × (three_polls.controller.admission_open ≡ true)
unfolding three_polls current update consult change gets modify lift pure throw attempt ◌>>=◌
    ReceiptKey-discrete
opens = (refl, refl)

once : Reached evidence settings inputs (step first_node).1
unfolding step create
once =
    called (poll_call false true false) (step first_node).0 (step first_node).1
      (created arguments (new_controller settings (small ∷ [])) 1_000_000 refl) refl

Reached-IsConsistent_example : IsConsistent settings (step first_node).1.controller
Reached-IsConsistent_example = Reached-IsConsistent once

-- The body of a poll of the signal alone, and what the poll leaves.
abbrev signal_body : Action (Node ModelLoadRequirement ℕ) (Option GateSnapshot)
signal_body = poll_priority_locked settings inputs false none true

signal_read : Result (Option GateSnapshot) × Node ModelLoadRequirement ℕ
unfolding poll_priority_locked current update consult change gets modify lift pure throw ◌>>=◌
signal_read = signal_body first_node

abbrev read_snapshot : Result (Option GateSnapshot) → Option GateSnapshot
read_snapshot (ok g) = g
read_snapshot (raise x) = none

transition-Receipted_example :
    Receipted settings inputs
      (λ snapshot t. (ok tt, t))
      is_given
      first_node
      signal_read.1
      (read_snapshot signal_read.0)
      (transition settings inputs signal_body is_given first_node)
unfolding signal_read
transition-Receipted_example =
    transition-Receipted settings inputs (λ snapshot t. (ok tt, t)) is_given first_node
      signal_read.1 (read_snapshot signal_read.0) signal_body refl refl

-- A load beside the reserve of the host, in the normal phase.
loaded : Result LoadDecision × Node ModelLoadRequirement ℕ
unfolding immediate_load_admission current update consult change gets modify lift pure throw ◌>>=◌
    attempt ReceiptKey-discrete
loaded = immediate_load_admission evidence settings inputs (some small) none three_polls

abbrev load_decision : Result LoadDecision → LoadDecision
load_decision (ok d) = d
load_decision (raise x) = refused Phase.normal

measures :
    (r : ModelLoadRequirement)
    → evidence.post_init r ≡ ok tt
    → (0 < r.host_margin_bytes) × (0 < r.device_margin_bytes)
measures r h = elim (Bool-cases (ltb 0 r.host_margin_bytes && ltb 0 r.device_margin_bytes)) [
  | inl t ↦ (ground arith, ground arith)
  | inr f ↦ absurd (raised (ltb 0 r.host_margin_bytes && ltb 0 r.device_margin_bytes) f h)
]
  where
    raised : (b : Bool) → b ≡ false → require b value_error ≡ ok tt → ⊥
    raised true f h = absurd (cc)
    raised false f h = absurd (cc)

granted-Fits_example :
    Admitted evidence settings inputs measures three_polls.world
      (some small)
      none
      (load_decision loaded.0)
      loaded.1.controller
unfolding loaded three_polls
granted-Fits_example =
    granted-Fits evidence settings inputs measures (some small) none three_polls loaded.1
      (load_decision loaded.0) refl

load_granted : is_granted (load_decision loaded.0) ≡ true
unfolding loaded three_polls
load_granted = refl

-- Three clear generations, heard one after the other.
hear : ℕ → Node ModelLoadRequirement ℕ → Result Phase × Node ModelLoadRequirement ℕ
unfolding observe_priority current update consult change gets modify lift pure throw ◌>>=◌
hear g = observe_priority settings inputs (clear_at g) false

abbrev heard_phase : Result Phase → Phase
heard_phase (ok p) = p
heard_phase (raise x) = Phase.normal

abbrev first_heard : Node ModelLoadRequirement ℕ
first_heard = (hear 7 first_node).1

abbrev second_heard : Node ModelLoadRequirement ℕ
second_heard = (hear 8 first_heard).1

abbrev third_heard : Node ModelLoadRequirement ℕ
third_heard = (hear 9 second_heard).1

three_heard : Listened settings inputs (clear_at 9 ∷ clear_at 8 ∷ clear_at 7 ∷ []) third_heard
unfolding hear
three_heard =
    heard (clear_at 9) false Phase.recovering third_heard
      (heard (clear_at 8) false Phase.recovering second_heard
        (heard (clear_at 7) false Phase.recovering first_heard (begun first_node refl) refl) refl)
      refl

ready-ThreeClears_example : ThreeClears (clear_at 9 ∷ clear_at 8 ∷ clear_at 7 ∷ [])
unfolding hear
ready-ThreeClears_example = ready-ThreeClears refl three_heard refl

-- A sample in which the host is short of its reserve, while a model is in use.
abbrev short_sample : PressureSample
short_sample = record (sample_at 90_000_000) { host_available_bytes = some 1_073_741_824 }

shorted : Result Phase × Node ModelLoadRequirement ℕ
unfolding observe_sample current update consult change gets modify lift pure throw ◌>>=◌
shorted = observe_sample evidence settings inputs short_sample true true three_polls

critical-IsClosed_example :
    IsClosed true true shorted.1.controller × (shorted.1.controller.phase ≡ Phase.yielding)
unfolding shorted three_polls attempt
critical-IsClosed_example =
    critical-IsClosed evidence settings inputs short_sample true true 90_000_000 three_polls
      shorted.1 Phase.yielding refl refl refl refl
