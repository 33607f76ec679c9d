-- ===== src/Resource/Pressure/Granted.antt =====
-- What a fresh admission of a load grants, and what it leaves behind.
use subgen_english_plex.Common.{
  ℕ, ◌<◌, ◌≡◌, refl, Bool, true, false, Option, none, some, ok, arith, require, value_error, subst,
}
use subgen_english_plex.Common.Action.{
  Action, Outcome, Holds, Holds-from, Holds-bind, Holds-gets, Holds-pure, Holds-if,
}
use subgen_english_plex.Resource.Admission.{PressureSample}
use subgen_english_plex.Resource.Admission.Safety.{IsSafe, admission-IsSafe}
use subgen_english_plex.Resource.Pressure.{
  Evidence, Settings, PressureController, Inputs, Node, normal, current,
}
use subgen_english_plex.Resource.Pressure.Signal.{priority_recovery_ready, is_normal}
use subgen_english_plex.Resource.Pressure.Gauge.{reserve_for}
use subgen_english_plex.Resource.Pressure.Phases.{conditions_of, canonical_requirement_allowed}
use subgen_english_plex.Resource.Pressure.Loading.{
  LoadDecision, decided, is_granted, gate_after, chosen_requirement, is_fixed_to, decide_load, deny,
  load_signal, load_from, loading, immediate_load_admission,
}
use subgen_english_plex.Resource.Pressure.Rules.{
  On, Triple, Triple-pure, Triple-if, Triple-bind, Triple-lift, Triple-current, Triple-update,
  Triple-weaken, Reads-current, Anything, returned,
}
use subgen_english_plex.Resource.Pressure.Given.{
  Gave, GaveAt, transition-returns, consult-Gave, consult-GaveAt, lift-returns, given,
  anything-returns,
}

required : (b : Bool) (u : Unit {0}) → require b value_error ≡ ok u → b ≡ true
required true u h = refl
required false u h = absurd (cc)

module _ {R W : Type 0} (e : Evidence R) (s : Settings R) (env : Inputs W)
    (measures : (r : R)
      → e.post_init r ≡ ok tt
      → (0 < (e.measured r).host_margin_bytes) × (0 < (e.measured r).device_margin_bytes)) where
  -- The reader that an admission asks for a sample.
  abbrev pub asked : Option (Action W PressureSample) → Action W PressureSample
  asked none = env.sample_reader
  asked (some given_reader) = given_reader

  -- A requirement fits beside a sample, at the reserve and a time that the clock gave.
  abbrev pub FitsBeside : PressureSample → R → Type 0
  FitsBeside sample r =
      (reserve : ℕ) × (now : ℕ) × (reserve_for s.reserve_bytes sample ≡ ok reserve)
      × Gave env.clock now
      × IsSafe (e.measured r) sample (conditions_of s reserve now)

  -- What an admission leaves.
  abbrev pub Granted : PressureSample → R → LoadDecision → PressureController R → Type 0
  Granted sample r d c =
      (is_granted d ≡ true
        → FitsBeside sample r
          × (c.phase ≡ normal)
          × (c.admission_open ≡ priority_recovery_ready s c))
      × (is_granted d ≡ false → c.admission_open ≡ false)

  decide-Granted :
      (r : R) (sample : PressureSample) (observed : Bool)
      → e.post_init r ≡ ok tt
      → Triple
          (λ c. c.phase ≡ normal)
          (decide_load e s env r sample observed)
          (λ l c. Granted sample r l.outcome c)
          Anything
  unfolding decide_load
  decide-Granted r sample observed valid =
      Triple-lift _ _ (λ c i. tt)
        λ reserve k. Triple-bind _ _ (consult-Gave (λ c. c.phase ≡ normal) env.clock) λ now.
          Triple-lift _ _ (λ c i. tt)
            λ d h.
              Triple-bind _ _
                (Triple-update {I' = Granted sample r (decided d)} (gate_after s d) (λ c i. (
                  λ g.
                      let (m, n) = measures r valid in
                      (
                        (reserve, now, k, i.1, admission-IsSafe _ _ _ d m n h g),
                        ground (arith, i.0),
                        ground (arith, i.0),
                      ),
                  λ g. ground arith,
                )))
                λ u. Triple-pure _ (λ c q. q)

  -- The requirement that an admission is about, with its guards passed.
  abbrev pub Chosen : Option R → R → Type 0
  Chosen requirement r =
      (chosen_requirement s requirement ≡ ok r)
      × (e.post_init r ≡ ok tt)
      × (is_fixed_to e s.selected_requirement r ≡ true)
      × (canonical_requirement_allowed e s r ≡ true)

  -- What an admission of a requirement leaves that started in the state `start`.
  abbrev pub Admitted :
      W → Option R → Option (Action W PressureSample) → LoadDecision → PressureController R → Type 0
  Admitted start requirement reader d c =
      (is_granted d ≡ true
        → (r : R) × (sample : PressureSample) × Chosen requirement r
          × GaveAt start (asked reader) sample
          × FitsBeside sample r
          × (c.phase ≡ normal)
          × (c.admission_open ≡ priority_recovery_ready s c))
      × (is_granted d ≡ false → c.admission_open ≡ false)

  module _ (start : W) (requirement : Option R) (reader : Option (Action W PressureSample)) where
    denied :
        {I : PressureController R → Type 0} (observed : Bool)
        → Triple {W = W} I
            (deny observed)
            (λ l c. Admitted start requirement reader l.outcome c)
            Anything
    unfolding deny
    denied observed =
        Triple-bind _ _ (Triple-update {I' = λ c. c.admission_open ≡ false} _ (λ c i. refl)) λ u.
          Triple-bind _ _ (returned current Reads-current)
            λ c. Triple-pure _ (λ d i. (λ h. absurd (cc), λ h. i))

    load_from-Admitted :
        (r : R) (sample : PressureSample)
        → Chosen requirement r
        → GaveAt start (asked reader) sample
        → Triple Anything
            (load_from e s env r sample)
            (λ l c. Admitted start requirement reader l.outcome c)
            Anything
    unfolding load_from
    load_from-Admitted r sample chosen read =
        Triple-bind _ _ (anything-returns (load_signal s env sample)) λ observed.
          Triple-bind _ _ Triple-current λ c.
            Triple-if (is_normal c.phase) _ _
              (λ h.
                Triple-weaken _ (λ d i. ground arith)
                  (λ l d g. (λ k. let (f, p, o) = g.0 k in (r, sample, chosen, read, f, p, o), g.1))
                  (λ d i. i) (decide-Granted r sample observed chosen.1))
              (λ h. denied observed)

    loading-Admitted :
        Holds {S = Node R W}
          (λ n. n.world ≡ start)
          (loading e s env requirement reader)
          (λ l. On (λ c. Admitted start requirement reader l.outcome c))
          (On Anything)
    unfolding loading current
    loading-Admitted = lift-returns _ _ λ r k1. lift-returns _ _ λ u1 k2. lift-returns _ _ λ u2 k3.
        lift-returns _ _ λ u3 k4.
          Holds-bind {M = λ c n. n.world ≡ start} _ _ (Holds-gets _ (λ n p. p)) λ c.
            Holds-if (is_normal c.phase) _ _
              (λ h. Holds-bind _ _ (consult-GaveAt start (asked reader)) λ sample.
                given (load_from e s env r sample) (
                  load_from-Admitted r sample (
                    k1,
                    k2,
                    required (is_fixed_to e s.selected_requirement r) u2 k3,
                    required (canonical_requirement_allowed e s r) u3 k4,
                  )))
              (λ h. Holds-from (deny false) (λ n p. tt) (denied false).holds)

    immediate-Admitted :
        Holds {S = Node R W}
          (λ n. n.world ≡ start)
          (immediate_load_admission e s env requirement reader)
          (λ d. On (λ c. Admitted start requirement reader d c))
          (On Anything)
    unfolding immediate_load_admission
    immediate-Admitted =
        Holds-bind _ _
          (transition-returns s env _ (loading e s env requirement reader) (λ l. l.heard)
            loading-Admitted)
          λ l. Holds-pure l.outcome (λ c q. q)

  -- A load that is granted fits: where the margins that a requirement has behind its own checks are
  -- positive, an admission that returns a grant is about the requirement that was asked for, or else the
  -- selected one, which passed its checks, is the selected one if there is one, and passed the check for a
  -- shared device. The requirement fits, beside the reserve and at a time that the clock gave, beside the
  -- sample that the given reader, or else the reader of the controller, gave in the state that the call
  -- started from. The controller is left in the normal phase, and open exactly if the priority signal is
  -- ready. An admission that returns no grant leaves the controller closed.
  pub granted-Fits :
      (requirement : Option R) (reader : Option (Action W PressureSample)) (n n' : Node R W)
      (d : LoadDecision)
      → immediate_load_admission e s env requirement reader n ≡ (ok d, n')
      → Admitted n.world requirement reader d n'.controller
  granted-Fits requirement reader n n' d h =
      subst (Outcome (λ x. On (Admitted n.world requirement reader x)) (On Anything)) h
        ((immediate-Admitted n.world requirement reader).at n refl)
