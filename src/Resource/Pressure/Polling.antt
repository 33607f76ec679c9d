-- ===== src/Resource/Pressure/Polling.antt =====
-- What the calls of the controller share: the publication of a changed gate, the poll of the signal, the
-- cached observation of the memory, and the release of a model.
use subgen_english_plex.Common.{
  ℕ, ◌+◌, Bool, true, false, not, ◌&&◌, ◌||◌, Option, none, some, Result, ok, raise, ltb,
  if◌then◌else◌,
}
use subgen_english_plex.Common.Action.{Action, pure, throw, lift, attempt, ◌>>=◌, ◌>>◌}
use subgen_english_plex.Priority.{PriorityObservation}
use subgen_english_plex.Resource.Admission.{PressureSample}
use subgen_english_plex.Resource.Pressure.{
  recovering, RecoveryReason, Settings, PressureController, GateSnapshot, Inputs, Node, current,
  update, consult,
}
use subgen_english_plex.Resource.Pressure.Listen.{observe_priority}
use subgen_english_plex.Resource.Pressure.Publish.{
  gate_priority_snapshot, latch_receipt_failure, ReceiptKey, same_key, receipt_key,
}

module _ {A : Type 0} where
  -- `snapshot is not None`
  abbrev pub is_given : Option A → Bool
  is_given none = false
  is_given (some a) = true

-- A time at `interval` or less behind the last: there is none, or the interval has passed.
abbrev pub is_within : Option ℕ → ℕ → ℕ → Bool
is_within none interval now = false
is_within (some last) interval now = ltb now (last + interval)

-- `_mark_released_locked`
abbrev pub release_with :
    {R : Type 0} → Option RecoveryReason → PressureController R → PressureController R
release_with reason c = record c {
  phase = recovering;
  admission_open = false;
  recovery_reason = if is_given reason then reason else c.recovery_reason;
  consecutive_pressure = 0;
  consecutive_healthy = 0;
}

module _ {R W : Type 0} (s : Settings R) (env : Inputs W) where
  unfoldable pub gate_snapshot : Action (Node R W) GateSnapshot
  unfolding gate_priority_snapshot
  gate_snapshot = do now ← consult env.clock; c ← current; lift (gate_priority_snapshot s now c)

  -- `except BaseException` around a publication
  unfoldable pub latched : Result (Unit {0}) → Action (Node R W) (Unit {0})
  latched (ok done) = pure tt
  latched (raise e) = do update latch_receipt_failure; throw e

  unfoldable pub publish : (GateSnapshot → Action W (Unit {0})) → Action (Node R W) (Unit {0})
  unfolding gate_snapshot latched
  publish observer = do
    r ← attempt (do snapshot ← gate_snapshot; consult (observer snapshot))
    latched r

  -- The publication of a gate that changed since its key was taken, to an observer if there is one.
  unfoldable pub publish_to :
      Option (GateSnapshot → Action W (Unit {0})) → ReceiptKey → Bool → Action (Node R W) (Unit {0})
  unfolding publish
  publish_to none previous force = pure tt
  publish_to (some observer) previous force = do
    c ← current
    (if force || not (same_key (receipt_key c) previous) then publish observer else pure tt)

  -- `_publish_transition_locked`
  unfoldable pub publish_transition : ReceiptKey → Bool → Action (Node R W) (Unit {0})
  unfolding publish_to
  publish_transition = publish_to env.priority_observer

  -- An observation of the signal, and the snapshot behind it.
  unfoldable pub polled : PriorityObservation → Bool → Action (Node R W) (Option GateSnapshot)
  unfolding observe_priority gate_snapshot
  polled o resident = do
    observe_priority s env o resident
    snapshot ← gate_snapshot
    pure (some snapshot)

  -- A poll of a configured signal, at the time `now`.
  unfoldable pub polled_at :
      ℕ → PriorityObservation → Bool → Action (Node R W) (Option GateSnapshot)
  unfolding polled
  polled_at now o resident = do
    update (λ c. record c { last_priority_poll_at = some now })
    polled o resident

  unfoldable pub read_priority : ℕ → Bool → Action (Node R W) (Option GateSnapshot)
  unfolding polled_at
  read_priority now resident = do o ← consult env.priority_reader; polled_at now o resident

  unfoldable pub poll_configured :
      Bool → Option PriorityObservation → Bool → Action (Node R W) (Option GateSnapshot)
  unfolding polled_at read_priority
  poll_configured resident (some o) force = do now ← consult env.clock; polled_at now o resident
  poll_configured resident none force = do
    now ← consult env.clock
    c ← current
    (if not force && is_within c.last_priority_poll_at s.priority_interval now
        then pure none
        else read_priority now resident)

  -- `_poll_priority_locked`
  unfoldable pub poll_priority_locked :
      Bool → Option PriorityObservation → Bool → Action (Node R W) (Option GateSnapshot)
  unfolding polled poll_configured
  poll_priority_locked resident o force =
      if s.priority_configured
      then poll_configured resident o force
      else (elim o [ none ↦ pure none | some given ↦ polled given resident ])

  unfoldable pub read_sample : ℕ → Action (Node R W) PressureSample
  read_sample now = do
    sample ← consult env.sample_reader
    update (λ c. record c {
      last_sample = some sample;
      last_sample_at = some now;
      sample_token = c.sample_token + 1;
    })
    pure sample

  -- `sample`
  unfoldable pub cached_sample : Action (Node R W) PressureSample
  unfolding read_sample
  cached_sample = do
    now ← consult env.clock
    c ← current
    (elim c.last_sample [
      | none ↦ read_sample now
      | some last ↦
          if is_within c.last_sample_at s.sample_interval now then pure last else read_sample now
    ])
