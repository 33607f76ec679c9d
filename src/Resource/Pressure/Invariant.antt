-- ===== src/Resource/Pressure/Invariant.antt =====
-- Every call keeps the fields of a controller consistent, exceptions included.
use subgen_english_plex.Common.{ℕ, Bool, Option, none, some, Result, ok, raise, arith}
use subgen_english_plex.Common.Action.{Action}
use subgen_english_plex.Priority.{PriorityObservation}
use subgen_english_plex.Resource.Pressure.{Settings, Inputs, Node, GateSnapshot}
use subgen_english_plex.Resource.Pressure.Publish.{ReceiptKey, receipt_key}
use subgen_english_plex.Resource.Pressure.Polling.{
  latched, publish, publish_to, publish_transition, polled, polled_at, read_priority,
  poll_configured, poll_priority_locked, read_sample, cached_sample,
}
use subgen_english_plex.Resource.Pressure.Calls.{transition}
use subgen_english_plex.Resource.Pressure.Rules.{
  Keeps-consult, Keeps-pure, Triple-throw, Triple-if, Triple-option, Triple-bind, Triple-update,
  Reads-attempt, Reads-bind, Reads-consult,
}
use subgen_english_plex.Resource.Pressure.Counters.{IsConsistent, latch-IsConsistent}
use subgen_english_plex.Resource.Pressure.Readers.{Reads-gate_snapshot}
use subgen_english_plex.Resource.Pressure.Keeping.{KeepsIt, keeps_current, listen-Keeps}

module _ {R W : Type 0} (s : Settings R) (env : Inputs W) where
  latched-Keeps : (r : Result (Unit {0})) → KeepsIt {W = W} s (latched s env r)
  unfolding latched
  latched-Keeps (ok u) = Keeps-pure tt
  latched-Keeps (raise x) =
      Triple-bind _ _ (Triple-update _ (latch-IsConsistent s)) λ u. Triple-throw x (λ c i. i)

  published-Keeps :
      (observer : GateSnapshot → Action W (Unit {0})) → KeepsIt s (publish s env observer)
  unfolding publish
  published-Keeps observer =
      let reading =
        Reads-attempt _
          (Reads-bind _ _ (Reads-gate_snapshot s env) λ g. Reads-consult (observer g)) in
      Triple-bind _ _ (reading.keeps (IsConsistent s)) λ r. latched-Keeps r

  publish_to-Keeps :
      (o : Option (GateSnapshot → Action W (Unit {0}))) (previous : ReceiptKey) (force : Bool)
      → KeepsIt s (publish_to s env o previous force)
  unfolding publish_to
  publish_to-Keeps none previous force = Keeps-pure tt
  publish_to-Keeps (some observer) previous force =
      Triple-bind _ _ (keeps_current s)
        λ c. Triple-if _ _ _ (λ h. published-Keeps observer) (λ h. Keeps-pure tt)

  polled-Keeps : (o : PriorityObservation) (resident : Bool) → KeepsIt s (polled s env o resident)
  unfolding polled
  polled-Keeps o resident = Triple-bind _ _ (listen-Keeps s env o resident) λ p.
      Triple-bind _ _ ((Reads-gate_snapshot s env).keeps (IsConsistent s)) λ g. Keeps-pure (some g)

  polled_at-Keeps :
      (now : ℕ) (o : PriorityObservation) (resident : Bool)
      → KeepsIt s (polled_at s env now o resident)
  unfolding polled_at
  polled_at-Keeps now o resident =
      Triple-bind _ _ (Triple-update {I' = IsConsistent s} _ (λ c i. ground arith))
        λ u. polled-Keeps o resident

  configured-Keeps :
      (resident : Bool) (o : Option PriorityObservation) (force : Bool)
      → KeepsIt s (poll_configured s env resident o force)
  unfolding poll_configured read_priority
  configured-Keeps resident (some o) force =
      Triple-bind _ _ (Keeps-consult env.clock) λ now. polled_at-Keeps now o resident
  configured-Keeps resident none force = Triple-bind _ _ (Keeps-consult env.clock) λ now.
      Triple-bind _ _ (keeps_current s) λ c.
        Triple-if _ _ _ (λ h. Keeps-pure none)
          (λ h.
            Triple-bind _ _ (Keeps-consult env.priority_reader) λ o. polled_at-Keeps now o resident)

  pub poll_signal-Keeps :
      (resident : Bool) (o : Option PriorityObservation) (force : Bool)
      → KeepsIt s (poll_priority_locked s env resident o force)
  unfolding poll_priority_locked
  poll_signal-Keeps resident none force =
      Triple-if s.priority_configured _ _ (λ h. configured-Keeps resident none force)
        (λ h. Keeps-pure none)
  poll_signal-Keeps resident (some o) force =
      Triple-if s.priority_configured _ _ (λ h. configured-Keeps resident (some o) force)
        (λ h. polled-Keeps o resident)

  read-Keeps : (now : ℕ) → KeepsIt s (read_sample s env now)
  unfolding read_sample
  read-Keeps now = Triple-bind _ _ (Keeps-consult env.sample_reader) λ sample.
      Triple-bind _ _ (Triple-update {I' = IsConsistent s} _ (λ c i. ground arith))
        λ u. Keeps-pure sample

  pub sample-Keeps : KeepsIt s (cached_sample s env)
  unfolding cached_sample
  sample-Keeps = Triple-bind _ _ (Keeps-consult env.clock) λ now.
      Triple-bind _ _ (keeps_current s) λ c.
        Triple-option c.last_sample _ _ (read-Keeps now)
          (λ last. Triple-if _ _ _ (λ h. Keeps-pure last) (λ h. read-Keeps now))

  -- A call whose body keeps the fields consistent does so with its publication.
  pub transition-Keeps :
      {A : Type 0} (body : Action (Node R W) A) (force : A → Bool)
      → KeepsIt s body
      → KeepsIt s (transition s env body force)
  unfolding transition publish_transition
  transition-Keeps body force h = Triple-bind _ _ (keeps_current s) λ before. Triple-bind _ _ h λ a.
      Triple-bind _ _ (publish_to-Keeps env.priority_observer (receipt_key before) (force a))
        λ u. Keeps-pure a
