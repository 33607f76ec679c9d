-- ===== src/Resource/Pressure/Recovers/Ends.antt =====
-- Recovery ends: enough healthy observations of the memory open the admission again.
use subgen_english_plex.Common.{
  ℕ, suc, ◌+◌, ◌≤◌, ◌<◌, ◌≡◌, refl, sym, ap, ◌∙◌, inr, Bool, true, false, Option, some, List, [],
  ◌∷◌, ok, arith, length, subst,
}
use subgen_english_plex.Common.Action.{Action, modify, Holds-modify, ◌>>◌}
use subgen_english_plex.Resource.Admission.{PressureSample}
use subgen_english_plex.Resource.Pressure.{
  Phase, normal, recovering, Evidence, Settings, PressureController, Inputs, Node,
}
use subgen_english_plex.Resource.Pressure.Listen.{current_phase}
use subgen_english_plex.Resource.Pressure.Gauge.{required_time}
use subgen_english_plex.Resource.Pressure.Phases.{is_stale}
use subgen_english_plex.Resource.Pressure.Observe.{observe_sample}
use subgen_english_plex.Resource.Pressure.Timed.{
  Timed, Timed-if, Timed-bind, Timed-known, Timed-current, Timed-current_phase, Timed-weaken,
  Timed-returns,
}
use subgen_english_plex.Resource.Pressure.Readers.{not_stale}
use subgen_english_plex.Resource.Pressure.Recovers.{
  IsOpen, IsHealthy, IsSteady, Progress, Mends, apply-Mends,
}

-- An observation to come, its time, and what becomes of the state of the callables up to it.
pub record Coming (W : Type 0) : Type 0 where
  pub sample : PressureSample
  pub time : ℕ
  pub meanwhile : W → W

module _ {R W : Type 0} where
  abbrev pub elapse : (W → W) → Action (Node R W) (Unit {0})
  elapse f = modify (λ n. record n { world = f n.world })

  starts :
      {I : PressureController R → Type 0} (P Q : W → Type 0) (f : W → W)
      → ((w : W) → P w → Q (f w))
      → Timed P I (elapse f) (λ u. I) Q
  starts P Q f h = record { holds = Holds-modify _ (λ n i. (i.0, h n.world i.1)) }

module _ {R W : Type 0} (e : Evidence R) (s : Settings R) (env : Inputs W)
    (resident active : Bool) where
  -- The observations, one after the other.
  abbrev pub observe_each : List (Coming W) → Action (Node R W) Phase
  observe_each [] = current_phase
  observe_each (o ∷ os) =
      elapse o.meanwhile >> (observe_sample e s env o.sample resident active >> observe_each os)

module _ {R W : Type 0} (e : Evidence R) (s : Settings R) (env : Inputs W) (rs : List R) where
  -- Healthy observations, each newer than the one before, from states of the callables with `P`: what a
  -- state with `P` has become by the first one has `Q`, and that one leaves states with `Q'` for the rest.
  abbrev pub AllHealthy : (W → Type 0) → Option ℕ → List (Coming W) → Type 1
  AllHealthy P last [] = Unit {1}
  AllHealthy P last (o ∷ os) =
      (Q : W → Type 0) × (Q' : W → Type 0) × ((w : W) → P w → Q (o.meanwhile w))
      × (is_stale last o.time ≡ false)
      × IsHealthy e s env rs Q Q' o.sample o.time
      × AllHealthy Q' (some o.time) os

  module _ (resident active : Bool) where
    observe-Mends :
        {P P' : W → Type 0} (x : PressureSample) (t m : ℕ) (last : Option ℕ)
        → IsHealthy e s env rs P P' x t
        → is_stale last t ≡ false
        → Timed P
            (λ c. (IsSteady s rs c × Progress s rs (suc m) c) × (c.last_observed_at ≡ last))
            (observe_sample e s env x resident active)
            (λ p. Mends s rs m t)
            P'
    unfolding observe_sample
    observe-Mends x t m last healthy newer = Timed-known _ _ t (ap required_time healthy.timed) (
        Timed-bind _ _ Timed-current λ c.
          Timed-if (is_stale c.last_observed_at t) _ _
            (λ h. record {
              holds = record {
                at = λ n i. absurd (not_stale t last c n.controller h newer i.0.1 i.0.0.1);
              };
            })
            (λ h.
              Timed-weaken _ (λ d i. i.0.0) (λ p d i. i.0) (λ w i. i)
                (apply-Mends e s env rs x t m resident active healthy)))

    each-Open :
        (P : W → Type 0) (os : List (Coming W)) (last : Option ℕ)
        → AllHealthy P last os
        → (P' : W → Type 0) × Timed P
            (λ c. (IsSteady s rs c × Progress s rs (length os) c) × (c.last_observed_at ≡ last))
            (observe_each e s env resident active os)
            (λ p c. (p ≡ normal) × IsOpen c)
            P'
    each-Open P [] last healthy = (
      P,
      Timed-weaken {P' = P} current_phase (λ c i. i) (λ p c i. (sym i.1 ∙ i.0.0.1.0, i.0.0.1))
          (λ w i. i) Timed-current_phase,
    )
    each-Open P (o ∷ os) last (Q, Q', becomes, newer, healthy, rest) =
        let (P', ends) = each-Open Q' os (some o.time) rest in
        (
          P',
          Timed-bind {P' = Q} _ _ (starts P Q o.meanwhile becomes) λ u.
              Timed-bind _ _ (observe-Mends o.sample o.time (length os) last healthy newer) λ p.
                Timed-weaken (observe_each e s env resident active os) (λ c i. ((i.0, i.1), i.2))
                  (λ q c i. i) (λ w i. i) ends,
        )

    -- Recovery ends: in the recovering phase, with the signal ready and a generation left, as many
    -- healthy observations as are still needed, one at least and each newer than the one before, return
    -- and leave the controller in the normal phase, with its admission open. The clock may move on
    -- between the observations and at each reading, as long as each observation is healthy when its turn
    -- comes.
    pub recovery_ends :
        (n : Node R W) (P : W → Type 0) (os : List (Coming W))
        → P n.world
        → n.controller.phase ≡ recovering
        → IsSteady s rs n.controller
        → 0 < length os
        → s.recovery_sample_count ≤ n.controller.consecutive_healthy + length os
        → AllHealthy P n.controller.last_observed_at os
        → (n' : Node R W) × (observe_each e s env resident active os n ≡ (ok normal, n'))
          × (n'.controller.phase ≡ normal)
          × (n'.controller.admission_open ≡ true)
    recovery_ends n P [] start p steady some_os enough healthy = absurd (omega arith)
    recovery_ends n P (o ∷ os) start p steady some_os enough healthy =
        let (P', ends) = each-Open P (o ∷ os) n.controller.last_observed_at healthy in
        let (q, n', returned, (same, (open_phase, is_open))) =
          Timed-returns (observe_each e s env resident active (o ∷ os)) n ends
            ((steady, inr (p, enough)), refl) start in
        (
          n',
          subst (λ z. observe_each e s env resident active (o ∷ os) n ≡ (ok z, n')) same returned,
          open_phase,
          is_open,
        )
