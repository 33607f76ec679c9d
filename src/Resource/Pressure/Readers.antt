-- ===== src/Resource/Pressure/Readers.antt =====
-- The actions that only read the fields of a controller.
use subgen_english_plex.Common.{
  ℕ, ◌≡◌, sym, ap, ◌∙◌, subst, Bool, true, false, Option, none, some, List, [], ◌∷◌, inl, inr,
  Option-cases, if◌then◌else◌,
}
use subgen_english_plex.Common.Action.{pure}
use subgen_english_plex.Resource.Admission.{PressureSample}
use subgen_english_plex.Resource.Pressure.{Evidence, Settings, PressureController, Inputs}
use subgen_english_plex.Resource.Pressure.Phases.{
  is_stale, canonical_requirement_allowed, count_ooms,
}
use subgen_english_plex.Resource.Pressure.Observe.{
  gpu_telemetry_fresh, gpu_fresh, classify, any_admitted, recovery_qualified,
}
use subgen_english_plex.Resource.Pressure.Polling.{gate_snapshot}
use subgen_english_plex.Resource.Pressure.Calls.{canonical_gpu_ready}
use subgen_english_plex.Resource.Pressure.Rules.{
  Reads, Reads-bind, Reads-consult, Reads-lift, Reads-pure, Reads-if, Reads-current, Keeps,
  Triple-bind, Triple-update, Keeps-pure,
}

module _ {R W : Type 0} (s : Settings R) (env : Inputs W) where
  pub Reads-gpu_telemetry_fresh :
      (sample : PressureSample) → Reads {R = R} (gpu_telemetry_fresh s env sample)
  unfolding gpu_telemetry_fresh
  Reads-gpu_telemetry_fresh sample = elim (Option-cases s.gpu_reserve_bytes) [
    | inl e ↦ rw e (Reads-pure true)
    | inr (r, e) ↦ rw e (Reads-bind _ _ (Reads-consult env.clock) (λ now. Reads-pure _))
  ]

  pub Reads-gpu_fresh : (sample : PressureSample) → Reads {R = R} (gpu_fresh s env sample)
  unfolding gpu_fresh
  Reads-gpu_fresh sample = Reads-bind _ _ (Reads-gpu_telemetry_fresh sample) (λ t. Reads-pure _)

  pub Reads-gate_snapshot : Reads {R = R} (gate_snapshot s env)
  unfolding gate_snapshot
  Reads-gate_snapshot =
      Reads-bind _ _ (Reads-consult env.clock) λ now. Reads-bind _ _ Reads-current λ c. Reads-lift _

  sampled :
      (o : Option PressureSample) (b : Bool)
      → Reads {R = R} {W = W} (elim o [
        | none ↦ pure false
        | some sample ↦ if b then pure false else gpu_fresh s env sample
      ])
  sampled none b = Reads-pure false
  sampled (some sample) b = Reads-if b _ _ (Reads-pure false) (Reads-gpu_fresh sample)

  pub Reads-canonical_gpu_ready : Reads {R = R} (canonical_gpu_ready s env)
  unfolding canonical_gpu_ready
  Reads-canonical_gpu_ready =
      Reads-bind _ _ Reads-current λ c.
        Reads-if s.canonical_shared_cuda _ _ (sampled c.last_observed_sample _) (Reads-pure true)

  pub classify-Keeps :
      {I : PressureController R → Type 0} (sample : PressureSample)
      → ((c : PressureController R) → I c → I (count_ooms sample c))
      → Keeps I (classify s env sample)
  unfolding classify
  classify-Keeps {I} sample h = Triple-bind _ _ ((Reads-lift _).keeps I) λ u1.
      Triple-bind _ _ ((Reads-lift _).keeps I) λ u2. Triple-bind _ _ ((Reads-lift _).keeps I) λ u3.
        Triple-bind _ _ ((Reads-lift _).keeps I) λ u4.
          Triple-bind _ _ ((Reads-lift _).keeps I) λ u5.
            Triple-bind _ _ ((Reads-gpu_telemetry_fresh sample).keeps I) λ fresh.
              Triple-bind _ _ ((Reads-lift _).keeps I) λ u6.
                Triple-bind _ _ ((Reads-lift _).keeps I) λ u7.
                  Triple-bind _ _ (Reads-current.keeps I)
                    λ c. Triple-bind _ _ (Triple-update {I' = I} _ h) λ u8. Keeps-pure _

module _ {R W : Type 0} (e : Evidence R) (s : Settings R) (env : Inputs W) where
  Reads-any_admitted :
      (sample : PressureSample) (rs : List R) → Reads (any_admitted e s env sample rs)
  unfolding any_admitted
  Reads-any_admitted sample [] = Reads-pure false
  Reads-any_admitted sample (r ∷ rs) =
      Reads-if (canonical_requirement_allowed e s r) _ _
        (Reads-bind _ _ (Reads-lift _) λ reserve. Reads-bind _ _ (Reads-consult env.clock) λ now.
          Reads-bind _ _ (Reads-lift _)
            λ d. Reads-if d.admitted _ _ (Reads-pure true) (Reads-any_admitted sample rs))
        (Reads-any_admitted sample rs)

  wanted :
      (sample : PressureSample) (rs : List R)
      → Reads {R = R} {W = W} (elim rs [ [] ↦ pure true | r ∷ more ↦ gpu_fresh s env sample ])
  wanted sample [] = Reads-pure true
  wanted sample (r ∷ rs) = Reads-gpu_fresh s env sample

  pub Reads-recovery_qualified :
      (sample : PressureSample) → Reads (recovery_qualified e s env sample)
  unfolding recovery_qualified
  Reads-recovery_qualified sample = Reads-bind _ _ Reads-current λ c.
      Reads-bind _ _ (wanted sample c.recovery_requirements) λ fresh.
        Reads-if fresh _ _ (Reads-any_admitted sample c.recovery_requirements) (Reads-pure false)

-- A controller that was read is not ahead of an observation that is newer.
pub not_stale :
    {R : Type 0} (t : ℕ) (last : Option ℕ) (c d : PressureController R)
    → is_stale c.last_observed_at t ≡ true
    → is_stale last t ≡ false
    → d ≡ c
    → d.last_observed_at ≡ last
    → ⊥
not_stale t last c d h newer same e =
    let stale = subst (λ z. is_stale z t ≡ true) (ap (λ z. z.last_observed_at) (sym same) ∙ e) h in
    absurd (cc)
