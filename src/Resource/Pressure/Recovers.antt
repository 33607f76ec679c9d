-- ===== src/Resource/Pressure/Recovers.antt =====
-- What a healthy observation does to a controller that recovers: it comes one closer to the normal phase.
pub mod Ends
use subgen_english_plex.Common.{
  ℕ, zero, suc, ◌+◌, ◌≤◌, ◌<◌, ◌≡◌, refl, sym, ap, ◌∙◌, ◌⊎◌, inl, inr, Bool, true, false, ◌&&◌,
  ◌||◌, not, Option, none, some, List, [], ◌∷◌, Result, ok, raise, arith, Ensures, ◌==◌, leb,
  length, subst, Bool-cases, if◌then◌else◌,
}
use subgen_english_plex.Common.Action.{Action, Outcome, pure, lift, ◌>>=◌, ◌>>◌}
use subgen_english_plex.Resource.Capacity.{max_bytes}
use subgen_english_plex.Resource.Admission.{PressureSample}
use subgen_english_plex.Resource.Pressure.{
  Phase, normal, yielding, recovering, Evidence, Settings, PressureController, Inputs, Node,
  current,
}
use subgen_english_plex.Resource.Pressure.Signal.{priority_recovery_ready, maybe_finish_recovery}
use subgen_english_plex.Resource.Pressure.Listen.{current_phase}
use subgen_english_plex.Resource.Pressure.Gauge.{required_time}
use subgen_english_plex.Resource.Pressure.Phases.{
  Classified, is_pressured, is_stale, count_ooms, track_gpu, from_normal, gain_health, lose_health,
  close_unless_normal,
}
use subgen_english_plex.Resource.Pressure.Observe.{
  classify, gpu_fresh, recovery_qualified, from_recovering, apply_phase, apply_sample,
  observe_sample,
}
use subgen_english_plex.Resource.Pressure.Rules.{Delivers}
use subgen_english_plex.Resource.Pressure.Timed.{
  Timed, Timed-if, Timed-bind, Timed-current_phase, Timed-update, Timed-change, Timed-weaken,
}

abbrev pub IsOpen : {R : Type 0} → PressureController R → Type 0
IsOpen c = (c.phase ≡ normal) × (c.admission_open ≡ true)

module _ {R : Type 0} (s : Settings R) (rs : List R) where
  -- The signal is ready, the requirements are `rs`, and a generation is left for the recovery.
  pub record IsSteady (c : PressureController R) : Type 0 where
    pub ready : priority_recovery_ready s c ≡ true
    pub wanted : c.recovery_requirements ≡ rs
    pub left : (c.episode_pending && (c.recovery_generation == max_bytes)) ≡ false

  -- Open, or `m` healthy observations away from it.
  abbrev pub Progress : ℕ → PressureController R → Type 0
  Progress zero c = IsOpen c
  Progress (suc m) c =
      IsOpen c
      ⊎ ((c.phase ≡ recovering) × (s.recovery_sample_count ≤ c.consecutive_healthy + suc m))

  abbrev pub Mends : ℕ → ℕ → PressureController R → Type 0
  Mends m t c = IsSteady c × Progress m c × (c.last_observed_at ≡ some t)

module _ {R W : Type 0} (e : Evidence R) (s : Settings R) (env : Inputs W) (rs : List R) where
  -- An observation of the time `t`, from states of the callables with `P` to those with `P'`: it shows no
  -- pressure and a fresh GPU and qualifies for the requirements `rs`, whatever the other fields of the
  -- controller are. The clock may move at each of its readings.
  pub record IsHealthy (P P' : W → Type 0) (x : PressureSample) (t : ℕ) : Type 1 where
    pub classified : W → Type 0
    pub checked : W → Type 0
    pub timed : x.observed_at ≡ some t
    pub calm :
        (I : PressureController R → Type 0)
        → ((c : PressureController R) → I c → I (count_ooms x c))
        → Timed P I (classify s env x) (λ k c. I c × (is_pressured k ≡ false)) classified
    pub fresh :
        (I : PressureController R → Type 0)
        → Timed classified I (gpu_fresh s env x) (λ b c. I c × (b ≡ true)) checked
    pub qualifies :
        (I : PressureController R → Type 0)
        → ((c : PressureController R) → I c → c.recovery_requirements ≡ rs)
        → Timed checked I (recovery_qualified e s env x) (λ b c. I c × (b ≡ true)) P'
    pub unasked : (w : W) → checked w → P' w

  -- In the recovering phase, behind the count of an observation.
  abbrev Gained : ℕ → ℕ → PressureController R → Type 0
  Gained m t c =
      IsSteady s rs c
      × (c.phase ≡ recovering)
      × (s.recovery_sample_count ≤ c.consecutive_healthy + m)
      × (c.last_observed_at ≡ some t)

  gain-Gained :
      (m t : ℕ) (c : PressureController R) → Gained (suc m) t c → Gained m t (gain_health s c)
  gain-Gained m t c g = ground arith

  finish-Mends :
      (m t : ℕ) (c : PressureController R)
      → Gained m t c
      → Delivers (Mends s rs m t) (maybe_finish_recovery s c)
  unfolding maybe_finish_recovery
  finish-Mends zero t c g = ground arith
  finish-Mends (suc m) t c g = ground arith

  normal-Mends :
      (m t : ℕ) (fresh resident : Bool) (k : Classified) (c : PressureController R)
      → Mends s rs (suc m) t c
      → c.phase ≡ normal
      → is_pressured k ≡ false
      → Mends s rs m t (from_normal s fresh resident k c)
  unfolding from_normal
  normal-Mends zero t fresh resident k c h p calm = ground arith
  normal-Mends (suc m) t fresh resident k c h p calm = ground arith

  close-Mends :
      (m t : ℕ) (c : PressureController R)
      → Mends s rs m t c
      → Mends s rs m t (close_unless_normal c)
  close-Mends zero t c h = ground arith
  close-Mends (suc m) t c h = ground arith

  track-Mends :
      (m t : ℕ) (fresh resident : Bool) (c : PressureController R)
      → fresh ≡ true
      → Mends s rs (suc m) t c
      → Mends s rs (suc m) t (track_gpu s fresh resident c)
  unfolding track_gpu
  track-Mends m t fresh resident c f h = ground arith

  module _ {P P' : W → Type 0} where
    mending :
        (x : PressureSample) (t m : ℕ) (resident active : Bool) (k : Classified)
        → (healthy : IsHealthy P P' x t) → is_pressured k ≡ false
        → Timed healthy.checked
            (λ c. Mends s rs (suc m) t c × (c.phase ≡ recovering))
            (from_recovering e s env x resident active k)
            (λ u. Mends s rs m t)
            P'
    unfolding from_recovering
    mending x t m resident active k healthy calm =
        Timed-bind _ _ (Timed-update {I' = Gained (suc m) t} _ (λ c i. ground arith)) λ u.
          Timed-bind _ _
            (Timed-if {Q = λ b c. Gained (suc m) t c × (b ≡ true)} (is_pressured k) _ _
              (λ h. absurd (cc)) (λ h. healthy.qualifies (Gained (suc m) t) (λ c i. i.0.wanted)))
            λ qualified.
              Timed-if qualified _ _
                (λ q.
                  Timed-bind _ _ (Timed-update {I' = Gained m t} _ (λ c i. gain-Gained m t c i.0))
                    λ v. Timed-change _ (finish-Mends m t))
                (λ q. Timed-update _ (λ c i. absurd (cc)))

    phase-Mends :
        (x : PressureSample) (t m : ℕ) (fresh resident active : Bool) (k : Classified) (p : Phase)
        → (healthy : IsHealthy P P' x t) → is_pressured k ≡ false
        → Timed healthy.checked
            (λ c. Mends s rs (suc m) t c × (c.phase ≡ p))
            (apply_phase e s env x fresh resident active k p)
            (λ u. Mends s rs m t)
            P'
    unfolding apply_phase
    phase-Mends x t m fresh resident active k normal healthy calm =
        Timed-weaken {P' = healthy.checked} {Q = λ u. Mends s rs m t} _ (λ c i. i) (λ u c q. q)
          healthy.unasked (Timed-update _ (λ c i. normal-Mends m t fresh resident k c i.0 i.1 calm))
    phase-Mends x t m fresh resident active k recovering healthy calm =
        mending x t m resident active k healthy calm
    phase-Mends x t m fresh resident active k yielding healthy calm = record {
      holds = record { at = λ n i. absurd (ground (arith, i.0)) };
    }

    -- With the calm of the classification among the facts.
    applied :
        (x : PressureSample) (t m : ℕ) (fresh resident active : Bool) (k : Classified) (p : Phase)
        → (healthy : IsHealthy P P' x t)
        → Timed healthy.checked
            (λ c. (Mends s rs (suc m) t c × (is_pressured k ≡ false)) × (c.phase ≡ p))
            (apply_phase e s env x fresh resident active k p)
            (λ u. Mends s rs m t)
            P'
    applied x t m fresh resident active k p healthy = record {
      holds = record {
        at = λ n i.
            (phase-Mends x t m fresh resident active k p healthy i.0.0.1).holds.at n
              ((i.0.0.0, i.0.1), i.1);
      };
    }

    pub apply-Mends :
        (x : PressureSample) (t m : ℕ) (resident active : Bool)
        → IsHealthy P P' x t
        → Timed P
            (λ c. IsSteady s rs c × Progress s rs (suc m) c)
            (apply_sample e s env x t resident active)
            (λ p c. Mends s rs m t c × (c.phase ≡ p))
            P'
    unfolding apply_sample
    apply-Mends x t m resident active healthy =
        Timed-bind _ _ (Timed-update {I' = Mends s rs (suc m) t} _ (λ c i. ground arith)) λ u1.
          Timed-bind _ _ (healthy.calm (Mends s rs (suc m) t) (λ c i. ground arith)) λ k.
            Timed-bind _ _
              (Timed-update {I' = λ c. Mends s rs (suc m) t c × (is_pressured k ≡ false)} _
                (λ c i. ground arith))
              λ u2.
                Timed-bind _ _
                  (healthy.fresh (λ c. Mends s rs (suc m) t c × (is_pressured k ≡ false)))
                  λ fresh.
                    Timed-bind _ _
                      (Timed-update {I' = λ c. Mends s rs (suc m) t c × (is_pressured k ≡ false)} _
                        (λ c i. (track-Mends m t fresh resident c i.1 i.0.0, i.0.1)))
                      λ u3. Timed-bind _ _ Timed-current_phase λ p.
                        Timed-bind _ _ (applied x t m fresh resident active k p healthy) λ u4.
                          Timed-bind _ _ (Timed-update {I' = Mends s rs m t} _ (close-Mends m t))
                            λ u5. Timed-current_phase
