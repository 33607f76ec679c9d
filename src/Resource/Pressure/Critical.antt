-- ===== src/Resource/Pressure/Critical.antt =====
-- What a critical observation of the memory leaves.
use subgen_english_plex.Common.{
  ℕ, ◌≡◌, refl, ap, ◌≢◌, Bool, true, false, ◌&&◌, Option, some, ok, arith, Ensures, subst,
}
use subgen_english_plex.Common.Action.{Outcome}
use subgen_english_plex.Resource.Admission.{PressureSample}
use subgen_english_plex.Resource.Pressure.{
  Phase, normal, yielding, recovering, Evidence, Settings, PressureController, Inputs, Node,
}
use subgen_english_plex.Resource.Pressure.Signal.{maybe_finish_recovery}
use subgen_english_plex.Resource.Pressure.Gauge.{required_time}
use subgen_english_plex.Resource.Pressure.Phases.{
  Classified, is_some_reason, is_pressured, is_stale, track_gpu, from_normal, lose_health,
  close_unless_normal,
}
use subgen_english_plex.Resource.Pressure.Observe.{
  from_recovering, apply_phase, apply_sample, observe_sample,
}
use subgen_english_plex.Resource.Pressure.Readers.{
  not_stale, classify-Keeps, Reads-gpu_fresh, Reads-recovery_qualified,
}
use subgen_english_plex.Resource.Pressure.Rules.{
  On, Triple, Triple-pure, Triple-if, Triple-bind, Triple-current, Triple-known,
  Triple-current_phase, Triple-update, Triple-change, Triple-weaken, Anything, returned, partly,
}

module _ {R : Type 0} (resident active : Bool) where
  -- Behind the last step.
  abbrev pub IsClosed : PressureController R → Type 0
  IsClosed c =
      (c.phase ≢ normal)
      × (c.admission_open ≡ false)
      × ((resident && active) ≡ true → c.phase ≡ yielding)

  abbrev Closes : PressureController R → Type 0
  Closes c = is_some_reason c.last_critical_reasons ≡ true → IsClosed c

module _ {R : Type 0} (resident active : Bool) (k : Classified) where
  -- The reasons of the classification are noted, and a critical one has left the normal phase, to
  -- yield if a resident model is in use.
  abbrev pub Noted : PressureController R → Type 0
  Noted c =
      (c.last_critical_reasons ≡ k.critical)
      × (is_some_reason k.critical ≡ true
          → (c.phase ≢ normal) × ((resident && active) ≡ true → c.phase ≡ yielding))

  abbrev pub Reasons : PressureController R → Type 0
  Reasons c = c.last_critical_reasons ≡ k.critical

  -- The reasons are noted, and none is critical.
  abbrev pub Uncritical : PressureController R → Type 0
  Uncritical c = Reasons c × (is_some_reason k.critical ≡ false)

  module _ (s : Settings R) where
    normal-Noted :
        (fresh : Bool) (c : PressureController R)
        → Reasons c
        → Noted (from_normal s fresh resident k c)
    unfolding from_normal
    normal-Noted fresh c i = (ground arith, λ h. (ground arith, λ u. ground arith))

    lose-Noted :
        (c : PressureController R)
        → Reasons c
        → c.phase ≡ recovering
        → Noted (lose_health s resident active (is_pressured k) c)
    unfolding lose_health
    lose-Noted c i p = (i, λ h. (ground arith, λ u. ground arith))

    finish-Uncritical :
        (c : PressureController R) → Uncritical c → Ensures Uncritical (maybe_finish_recovery s c)
    unfolding maybe_finish_recovery
    finish-Uncritical c i = ground arith

    track-Reasons :
        (fresh : Bool) (c : PressureController R)
        → Reasons c
        → Reasons (track_gpu s fresh resident c)
    unfolding track_gpu
    track-Reasons fresh c i = ground arith

  close-Closes :
      (c : PressureController R) → Noted c → Closes resident active (close_unless_normal c)
  close-Closes c i h = (ground arith, ground arith, λ u. ground arith)

module _ {R W : Type 0} (e : Evidence R) (s : Settings R) (env : Inputs W) (x : PressureSample)
    (resident active : Bool) where
  recovering-Noted :
      (k : Classified)
      → Triple
          (λ c. Reasons resident active k c × (c.phase ≡ recovering))
          (from_recovering e s env x resident active k)
          (λ u. Noted resident active k)
          Anything
  unfolding from_recovering
  recovering-Noted k =
      let Held =
        λ (c : PressureController R). Reasons resident active k c × (c.phase ≡ recovering) in
      Triple-bind _ _ (Triple-update {I' = Held} _ (λ c i. i)) λ u.
        Triple-bind _ _
          (Triple-if {Q = λ b c. Held c × (is_pressured k ≡ true → b ≡ false)} (is_pressured k) _ _
            (λ h. Triple-pure false (λ c i. (i, λ t. refl)))
            (λ h.
              Triple-weaken _ (λ c i. i) (λ b c i. (i, λ t. absurd (cc))) (λ c i. tt)
                ((Reads-recovery_qualified e s env x).keeps Held)))
          λ qualified.
            Triple-if qualified _ _
              (λ q.
                Triple-bind _ _
                  (Triple-update {I' = Uncritical resident active k} _
                    (λ c i. (i.0.0, ground arith)))
                  λ v.
                    Triple-weaken _ (λ c i. i) (λ w c i. (i.0, λ h. absurd (cc))) (λ c i. i)
                      (Triple-change {I' = Uncritical resident active k} _ (λ c i. tt)
                        (finish-Uncritical resident active k s)))
              (λ q. Triple-update _ (λ c i. lose-Noted resident active k s c i.0.0 i.0.1))

  phase-Noted :
      (fresh : Bool) (k : Classified) (p : Phase)
      → Triple
          (λ c. Reasons resident active k c × (c.phase ≡ p))
          (apply_phase e s env x fresh resident active k p)
          (λ u. Noted resident active k)
          Anything
  unfolding apply_phase
  phase-Noted fresh k normal = Triple-update _ (λ c i. normal-Noted resident active k s fresh c i.0)
  phase-Noted fresh k recovering = recovering-Noted k
  phase-Noted fresh k yielding = Triple-pure tt (λ c i. (i.0, λ h. (ground arith, λ u. i.1)))

  apply-Closes :
      (t : ℕ)
      → Triple Anything
          (apply_sample e s env x t resident active)
          (λ p c. Closes resident active c × (c.phase ≡ p))
          Anything
  unfolding apply_sample
  apply-Closes t = Triple-bind _ _ (Triple-update {I' = Anything} _ (λ c i. tt)) λ u1.
      Triple-bind _ _ (partly _ (classify-Keeps s env x (λ c i. i))) λ k.
        Triple-bind _ _ (Triple-update {I' = Reasons resident active k} _ (λ c i. refl)) λ u2.
          Triple-bind _ _ (returned _ (Reads-gpu_fresh s env x)) λ fresh.
            Triple-bind _ _ (Triple-update _ (track-Reasons resident active k s fresh)) λ u3.
              Triple-bind _ _ Triple-current_phase λ p.
                Triple-bind _ _ (phase-Noted fresh k p) λ u4.
                  Triple-bind _ _
                    (Triple-update {I' = Closes resident active} _ (close-Closes resident active k))
                    λ u5. Triple-current_phase

  observe-Closes :
      (t : ℕ) (last : Option ℕ)
      → x.observed_at ≡ some t
      → is_stale last t ≡ false
      → Triple
          (λ c. c.last_observed_at ≡ last)
          (observe_sample e s env x resident active)
          (λ p c. Closes resident active c × (c.phase ≡ p))
          Anything
  unfolding observe_sample
  observe-Closes t last timed newer = Triple-known _ _ t (ap required_time timed) (
      Triple-bind _ _ Triple-current λ c.
        Triple-if (is_stale c.last_observed_at t) _ _
          (λ h. Triple-pure c.phase (λ d i. absurd (not_stale t last c d h newer i.1 i.0)))
          (λ h. Triple-weaken _ (λ d i. tt) (λ p d i. i) (λ d i. i) (apply-Closes t)))

  -- A critical observation closes: if an observation that is newer than the last one returns and noted a
  -- critical reason, then the phase that it returns is that of the controller and is not normal, the
  -- admission is closed, and the phase is yielding if a resident model is in use.
  pub critical-IsClosed :
      (t : ℕ) (n n' : Node R W) (p : Phase)
      → x.observed_at ≡ some t
      → is_stale n.controller.last_observed_at t ≡ false
      → observe_sample e s env x resident active n ≡ (ok p, n')
      → is_some_reason n'.controller.last_critical_reasons ≡ true
      → IsClosed resident active n'.controller × (n'.controller.phase ≡ p)
  critical-IsClosed t n n' p timed newer returns critical =
      let (closes, same) =
        subst (Outcome (λ q. On (λ c. Closes resident active c × (c.phase ≡ q))) (On Anything))
          returns ((observe-Closes t n.controller.last_observed_at timed newer).holds.at n refl) in
      (closes critical, same)
