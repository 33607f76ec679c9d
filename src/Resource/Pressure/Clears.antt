-- ===== src/Resource/Pressure/Clears.antt =====
-- What one observation of the signal does to the count of clear publications.
pub mod Three
use subgen_english_plex.Common.{
  ℕ, suc, ◌+◌, ◌≤◌, ◌<◌, ◌≡◌, refl, sym, ◌⊎◌, inl, inr, Bool, true, false, ◌&&◌, ◌||◌, not, Option,
  none, some, List, [], ◌∷◌, ◌++◌, ℤ, pos, negsuc, Result, ok, raise, arith, require, value_error,
  Ensures, ◌>>=◌, Bool-cases, ltb, length, subst, if◌then◌else◌,
}
use subgen_english_plex.Common.Action.{Action, Outcome}
use subgen_english_plex.Priority.{
  PriorityState, PriorityObservation, is_clear, is_neutral, is_external,
}
use subgen_english_plex.Resource.Pressure.{
  Phase, Settings, PressureController, Inputs, Node, current,
}
use subgen_english_plex.Resource.Pressure.Signal.{
  is_critical, resets_recovery, above_water, positive_generation, raise_high_water, count_clear,
  counted_clear, maybe_finish_recovery, priority_transition, priority_recovery_ready,
}
use subgen_english_plex.Resource.Pressure.Listen.{
  current_phase, reset_recovery, answer_priority, observe_configured, observe_priority,
}
use subgen_english_plex.Resource.Pressure.Rules.{
  On, Triple, Keeps-consult, Keeps-lift, Keeps-pure, Keeps-gets, Triple-pure, Triple-if,
  Triple-bind, Triple-current_phase, Triple-update, Triple-change, Triple-weaken, Anything, partly,
  Reads-consult, returned, Reads-lift, Triple-lift,
}

-- A clear observation that publishes the generation `g` and resets nothing.
abbrev pub Publishes : ℕ → PriorityObservation → Type 0
Publishes g o =
    (o.state ≡ PriorityState.clear)
    × (o.new_publication ≡ true)
    × (o.producer_epoch_changed ≡ false)
    × (o.source_generation ≡ some (pos g))

-- What one observation does to the count and to the high water.
abbrev pub Counts : PriorityObservation → ℕ → Option ℕ → ℕ → Option ℕ → Type 0
Counts o k w k' w' =
    (k' ≡ 0)
    ⊎ (((resets_recovery o ≡ false) × (k' ≡ k) × (w' ≡ w))
        ⊎ ((g : ℕ) × (resets_recovery o ≡ false)
            × Publishes g o
            × (above_water w g ≡ true)
            × (w' ≡ some g)
            × (k' ≤ suc k)))

module _ {R : Type 0} where
  abbrev pub At : ℕ → Option ℕ → PressureController R → Type 0
  At k w c = (c.distinct_clear_count ≡ k) × (c.generation_high_water ≡ w)

  abbrev pub Counted : PriorityObservation → ℕ → Option ℕ → PressureController R → Type 0
  Counted o k w c = Counts o k w c.distinct_clear_count c.generation_high_water

  -- Behind the reset.
  abbrev Reset : PriorityObservation → ℕ → Option ℕ → PressureController R → Type 0
  Reset o k w c =
      ((resets_recovery o ≡ true) × (c.distinct_clear_count ≡ 0))
      ⊎ ((resets_recovery o ≡ false) × At k w c)

  transition-At :
      (o : PriorityObservation) (p : PriorityState) (k : ℕ) (w : Option ℕ)
      (c : PressureController R)
      → At k w c
      → Ensures (At k w) (priority_transition o p c)
  unfolding priority_transition
  transition-At o p k w c h = ground arith

  finish-Counted :
      (s : Settings R) (o : PriorityObservation) (k : ℕ) (w : Option ℕ) (c : PressureController R)
      → Counted o k w c
      → Ensures (Counted o k w) (maybe_finish_recovery s c)
  unfolding maybe_finish_recovery
  finish-Counted s o k w c h = ground arith

  water-zero :
      (g : Option ℤ) (c : PressureController R)
      → c.distinct_clear_count ≡ 0
      → Ensures (λ d. d.distinct_clear_count ≡ 0) (raise_high_water g c)
  unfolding raise_high_water positive_generation
  water-zero none c h = h
  water-zero (some (pos n)) c h = ground arith
  water-zero (some (negsuc n)) c h = tt

  stepped :
      (o : PriorityObservation) (n k : ℕ) (w : Option ℕ) (c : PressureController R)
      → resets_recovery o ≡ false
      → Publishes n o
      → At k w c
      → Counted o k w (counted_clear n c)
  stepped o n k w c r p h = elim (Bool-cases (above_water c.generation_high_water n)) [
    | inl a ↦
        let above : above_water w n ≡ true = subst (λ x. above_water x n ≡ true) h.1 a in
        rw a (inr (inr (n, r, p, above, refl, omega (arith, h.0))))
    | inr a ↦ rw a (inr (inl (r, h.0, h.1)))
  ]

  clear_step :
      (o : PriorityObservation) (g : ℤ) (k : ℕ) (w : Option ℕ) (c : PressureController R)
      → resets_recovery o ≡ false
      → (is_clear o.state && o.new_publication && not o.producer_epoch_changed) ≡ true
      → o.source_generation ≡ some g
      → At k w c
      → Ensures (Counted o k w) (positive_generation g >>= λ n. ok (counted_clear n c))
  unfolding positive_generation
  clear_step o (pos n) k w c r t e h =
      let p : Publishes n o = (ground arith, ground arith, ground arith, e) in
      elim (Bool-cases (ltb 0 n)) [ inl l ↦ rw l (stepped o n k w c r p h) | inr l ↦ rw l tt ]
  clear_step o (negsuc n) k w c r t e h = tt

  optional_step :
      (o : PriorityObservation) (g : Option ℤ) (k : ℕ) (w : Option ℕ) (c : PressureController R)
      → resets_recovery o ≡ false
      → (is_clear o.state && o.new_publication && not o.producer_epoch_changed) ≡ true
      → o.source_generation ≡ g
      → At k w c
      → Ensures (Counted o k w) (elim g [
        | none ↦ raise value_error
        | some n ↦ positive_generation n >>= λ m. ok (counted_clear m c)
      ])
  optional_step o none k w c r t e h = tt
  optional_step o (some g) k w c r t e h = clear_step o g k w c r t e h

  count_clear-Counted :
      (o : PriorityObservation) (k : ℕ) (w : Option ℕ) (c : PressureController R)
      → resets_recovery o ≡ false
      → At k w c
      → Ensures (Counted o k w) (count_clear o c)
  unfolding count_clear
  count_clear-Counted o k w c r h =
      elim (Bool-cases (is_clear o.state && o.new_publication && not o.producer_epoch_changed)) [
        | inl t ↦ rw t (optional_step o o.source_generation k w c r t refl h)
        | inr t ↦ rw t (inr (inl (r, h.0, h.1)))
      ]

  Reset-Counted :
      (o : PriorityObservation) (k : ℕ) (w : Option ℕ) (c : PressureController R)
      → Reset o k w c
      → Counted o k w c
  Reset-Counted o k w c (inl h) = inl h.1
  Reset-Counted o k w c (inr h) = inr (inl (h.0, h.1.0, h.1.1))

  same_counts :
      (o : PriorityObservation) (k : ℕ) (w : Option ℕ) (c : PressureController R)
      → is_critical o ≡ false
      → is_neutral o.state ≡ false
      → Reset o k w c
      → (resets_recovery o ≡ false) × At k w c
  same_counts o k w c e f (inl h) = absurd (ground arith)
  same_counts o k w c e f (inr h) = h

module _ {R W : Type 0} (s : Settings R) where
  zeroed :
      (o : PriorityObservation) (k : ℕ) (w : Option ℕ)
      → Triple {R = R} {W = W} (At k w) (reset_recovery o) (λ u. Reset o k w) Anything
  unfolding reset_recovery
  zeroed o k w =
      Triple-if (resets_recovery o) _ _
        (λ e.
          Triple-bind _ _ (Triple-update {I' = λ c. c.distinct_clear_count ≡ 0} _ (λ c i. refl))
            λ u.
              Triple-weaken _ (λ c i. i) (λ v c i. inl (e, i)) (λ c i. i)
                (Triple-change _ (λ c i. tt) (water-zero o.source_generation)))
        (λ e. Triple-pure tt (λ c i. inr (e, i)))

  phase-returns :
      (I : PressureController R → Type 0) → Triple {W = W} I current_phase (λ p. I) Anything
  phase-returns I =
      Triple-weaken current_phase (λ c i. i) (λ p c q. q.0) (λ c j. tt)
        (Triple-current_phase {I = I} {J = Anything})

  answer-Counted :
      (o : PriorityObservation) (resident : Bool) (k : ℕ) (w : Option ℕ)
      → Triple {W = W} (Reset o k w) (answer_priority s o resident) (λ p. Counted o k w) Anything
  unfolding answer_priority
  answer-Counted o resident k w =
      Triple-if (is_critical o) _ _
        (λ e.
          Triple-bind _ _ (Triple-update {I' = Counted o k w} _ (λ c i. Reset-Counted o k w c i))
            λ u. phase-returns (Counted o k w))
        (λ e.
          Triple-if (is_neutral o.state) _ _
            (λ f.
              Triple-bind _ _
                (Triple-update {I' = Counted o k w} _ (λ c i. Reset-Counted o k w c i))
                λ u. phase-returns (Counted o k w))
            (λ f.
              Triple-bind _ _
                (Triple-change {I' = Counted o k w} _ (λ c i. tt)
                  (λ c i.
                    let (r, h) = same_counts o k w c e f i in count_clear-Counted o k w c r h))
                λ u.
                  Triple-bind _ _
                    (Triple-change {I' = Counted o k w} _ (λ c i. tt) (finish-Counted s o k w))
                    λ v. phase-returns (Counted o k w)))

  pub listen-Counted :
      (env : Inputs W) (o : PriorityObservation) (resident : Bool) (k : ℕ) (w : Option ℕ)
      → s.priority_configured ≡ true
      → Triple (At k w) (observe_priority s env o resident) (λ p. Counted o k w) Anything
  unfolding observe_priority observe_configured
  listen-Counted env o resident k w on = Triple-bind _ _ (returned _ (Reads-lift _)) λ u0.
      Triple-if s.priority_configured _ _
        (λ e. Triple-bind _ _ (returned _ (Reads-lift _)) λ u1.
          Triple-bind _ _ (partly _ (Keeps-gets _)) λ previous.
            Triple-bind _ _ (Triple-update {I' = At k w} _ (λ c i. i)) λ u2.
              Triple-bind _ _ (returned _ (Reads-consult env.clock)) λ now.
                Triple-bind _ _ (Triple-update {I' = At k w} _ (λ c i. i)) λ u3.
                  Triple-bind _ _
                    (Triple-change {I' = At k w} _ (λ c i. tt) (transition-At o previous k w))
                    λ u4. Triple-bind _ _ (zeroed o k w) λ u5.
                      Triple-bind _ _ (Triple-update {I' = Reset o k w} _ (λ c i. ground arith))
                        λ u6. answer-Counted o resident k w)
        (λ e. absurd (cc))
