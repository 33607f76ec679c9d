-- ===== src/Resource/Pressure/Counters.antt =====
-- What holds of the fields of a controller between its calls, and that every change of them keeps it.
use subgen_english_plex.Common.{
  ℕ, ◌≤◌, ◌<◌, ◌≡◌, Bool, true, false, Option, none, some, ℤ, pos, negsuc, ok, arith, Ensures,
  ◌>>=◌, Bool-cases, Option-cases, inl, inr, ◌&&◌, not,
}
use subgen_english_plex.Priority.{is_clear, PriorityObservation, PriorityState}
use subgen_english_plex.Resource.Admission.{AdmissionDecision}
use subgen_english_plex.Resource.Capacity.{max_bytes}
use subgen_english_plex.Resource.Pressure.{
  normal, recovering, RecoveryReason, Settings, PressureController,
}
use subgen_english_plex.Resource.Pressure.Signal.{
  clears_needed, maybe_finish_recovery, priority_transition, raise_high_water, positive_generation,
  count_clear, counted_clear, yield_to_priority, hold_for_priority,
}
use subgen_english_plex.Resource.Pressure.Phases.{
  Classified, track_gpu, from_normal, lose_health, gain_health, close_unless_normal,
}
use subgen_english_plex.Resource.Pressure.Publish.{latch_receipt_failure}
use subgen_english_plex.Resource.Pressure.Polling.{release_with}
use subgen_english_plex.Resource.Pressure.Calls.{latch_release_failure, close_gate}
use subgen_english_plex.Resource.Pressure.Loading.{gate_after}

module _ {R : Type 0} (s : Settings R) where
  -- The counters in their bounds: healthy samples are counted in the recovering phase alone, and a
  -- normal phase has no reason to recover from.
  pub record Counted (c : PressureController R) : Type 0 where
    pub calm : c.phase ≡ normal → c.recovery_reason ≡ none
    pub healthy : c.consecutive_healthy ≤ s.recovery_sample_count
    pub counting : 0 < c.consecutive_healthy → c.phase ≡ recovering
    pub pressure : c.consecutive_pressure ≤ 1
    pub clears : c.distinct_clear_count ≤ clears_needed
    pub transitions : c.transition_sequence ≤ max_bytes
    pub generation : c.recovery_generation ≤ max_bytes

  -- Counted, and open only in the normal phase.
  pub record IsConsistent (c : PressureController R) : Type 0 where
    pub counted : Counted c
    pub gate : c.admission_open ≡ true → c.phase ≡ normal

  -- A closed controller.
  shut : (c : PressureController R) → Counted c → c.admission_open ≡ false → IsConsistent c
  shut c k e = record { counted = k; gate = λ h. absurd (cc) }

  pub finish-IsConsistent :
      (c : PressureController R) → IsConsistent c → Ensures IsConsistent (maybe_finish_recovery s c)
  unfolding maybe_finish_recovery
  finish-IsConsistent c i = ground arith

  pub transition-IsConsistent :
      (o : PriorityObservation) (previous : PriorityState) (c : PressureController R)
      → IsConsistent c
      → Ensures IsConsistent (priority_transition o previous c)
  unfolding priority_transition
  transition-IsConsistent o previous c i = ground arith

  pub water-IsConsistent :
      (g : Option ℤ) (c : PressureController R)
      → IsConsistent c
      → Ensures IsConsistent (raise_high_water g c)
  unfolding raise_high_water positive_generation
  water-IsConsistent none c i = i
  water-IsConsistent (some (pos n)) c i = ground arith
  water-IsConsistent (some (negsuc n)) c i = tt

  pub counted_clear-IsConsistent :
      (n : ℕ) (c : PressureController R) → IsConsistent c → IsConsistent (counted_clear n c)
  counted_clear-IsConsistent n c i = ground arith

  count_generation :
      (g : ℤ) (c : PressureController R)
      → IsConsistent c
      → Ensures IsConsistent (positive_generation g >>= λ n. ok (counted_clear n c))
  unfolding positive_generation
  count_generation (pos n) c i = ground arith
  count_generation (negsuc n) c i = tt

  pub count_clear-IsConsistent :
      (o : PriorityObservation) (c : PressureController R)
      → IsConsistent c
      → Ensures IsConsistent (count_clear o c)
  unfolding count_clear
  count_clear-IsConsistent o c i =
      elim (Bool-cases (is_clear o.state && o.new_publication && not o.producer_epoch_changed)) [
        | inl e ↦ rw e (elim (Option-cases o.source_generation) [
          | inl f ↦ rw f tt
          | inr (g, f) ↦ rw f (count_generation g c i)
        ])
        | inr e ↦ rw e i
      ]

  pub yield-IsConsistent :
      (resident : Bool) (c : PressureController R)
      → IsConsistent c
      → IsConsistent (yield_to_priority resident c)
  yield-IsConsistent resident c i = ground arith

  pub hold-IsConsistent :
      (c : PressureController R) → IsConsistent c → IsConsistent (hold_for_priority c)
  hold-IsConsistent c i = ground arith

  pub track-IsConsistent :
      (fresh resident : Bool) (c : PressureController R)
      → IsConsistent c
      → IsConsistent (track_gpu s fresh resident c)
  unfolding track_gpu
  track-IsConsistent fresh resident c i = ground arith

  pub from_normal-Counted :
      (fresh resident : Bool) (k : Classified) (c : PressureController R)
      → IsConsistent c
      → c.phase ≡ normal
      → Counted (from_normal s fresh resident k c)
  unfolding from_normal
  from_normal-Counted fresh resident k c i e = ground arith

  pub gain-IsConsistent :
      (c : PressureController R)
      → IsConsistent c
      → c.phase ≡ recovering
      → IsConsistent (gain_health s c)
  gain-IsConsistent c i e = ground arith

  pub lose-IsConsistent :
      (resident active pressured : Bool) (c : PressureController R)
      → IsConsistent c
      → c.phase ≡ recovering
      → IsConsistent (lose_health s resident active pressured c)
  unfolding lose_health
  lose-IsConsistent resident active pressured c i e = ground arith

  pub close-IsConsistent :
      (c : PressureController R) → Counted c → IsConsistent (close_unless_normal c)
  close-IsConsistent c i = ground arith

  pub release-IsConsistent :
      (reason : Option RecoveryReason) (c : PressureController R)
      → IsConsistent c
      → IsConsistent (release_with reason c)
  release-IsConsistent reason c i = ground arith

  pub latch-IsConsistent :
      (c : PressureController R) → IsConsistent c → IsConsistent (latch_receipt_failure c)
  latch-IsConsistent c i = ground arith

  pub latch_release-IsConsistent :
      (resident : Bool) (c : PressureController R)
      → IsConsistent c
      → IsConsistent (latch_release_failure resident c)
  latch_release-IsConsistent resident c i = ground arith

  pub close_gate-IsConsistent :
      (c : PressureController R) → IsConsistent c → IsConsistent (close_gate c)
  close_gate-IsConsistent c i = ground arith

  pub gate_after-IsConsistent :
      (d : AdmissionDecision) (c : PressureController R)
      → IsConsistent c
      → IsConsistent (gate_after s d c)
  gate_after-IsConsistent d c i = ground arith
