-- ===== src/Priority.antt =====
-- What subgen_core/priority_pressure.py defines for its clients: one observation of the priority signal.
-- A time is a whole number of microseconds, and an age is in milliseconds, as in the source.
use subgen_english_plex.Common.{ℕ, Bool, true, false, Option, List, ℤ}
use subgen_english_plex.Segmentation.Number.{Text}

-- `PriorityState`; `unrecognized` is any string beside the five.
pub data PriorityState : Type 0 where
  disabled clear neutral asserted unavailable : PriorityState
  unrecognized : Text → PriorityState

-- `PriorityObservation`
pub record PriorityObservation : Type 0 where
  pub state : PriorityState
  pub configured : Bool
  pub heartbeat_age_ms : Option ℤ
  pub source_age_ms : Option ℤ
  pub policy_sha256 : Option Text
  pub observation_digest : Option Text
  pub producer_epoch : Option Text
  pub sequence : Option ℕ
  pub observed_monotonic_ns : Option ℕ
  pub source_generation : Option ℤ
  pub source_observed_monotonic_ns : Option ℕ
  pub reason_codes : List Text
  pub accepted : Bool
  pub new_publication : Bool
  pub producer_epoch_changed : Bool
  pub sequence_gap : Bool

-- `state == "disabled"`
abbrev pub is_disabled : PriorityState → Bool
is_disabled PriorityState.disabled = true
is_disabled _ = false

-- `state == "clear"`
abbrev pub is_clear : PriorityState → Bool
is_clear PriorityState.clear = true
is_clear _ = false

-- `state == "neutral"`
abbrev pub is_neutral : PriorityState → Bool
is_neutral PriorityState.neutral = true
is_neutral _ = false

-- `state in {"asserted", "unavailable"}`
abbrev pub is_external : PriorityState → Bool
is_external PriorityState.asserted = true
is_external PriorityState.unavailable = true
is_external _ = false

-- The membership in the five states.
abbrev pub is_recognized : PriorityState → Bool
is_recognized (PriorityState.unrecognized s) = false
is_recognized _ = true
