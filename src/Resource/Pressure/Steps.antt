-- ===== src/Resource/Pressure/Steps.antt =====
-- Every call of a controller, and what a new controller can go through: calls in any order, whatever
-- the callables do, return or raise, and whatever their state becomes between two calls.
use subgen_english_plex.Common.{◌≡◌, Bool, Option, List, Result, ok}
use subgen_english_plex.Common.Action.{Action, ◌>>◌, pure}
use subgen_english_plex.Resource.Admission.{PressureSample}
use subgen_english_plex.Resource.Pressure.{
  RecoveryReason, Evidence, Settings, PressureController, Inputs, Node, update,
}
use subgen_english_plex.Resource.Pressure.Publish.{latch_receipt_failure}
use subgen_english_plex.Resource.Pressure.Calls.{
  observe, poll_priority, poll, check_or_raise, close_admission, open_admission_if_normal,
  mark_released, enter_no_safe_model, latch_release_failure,
}
use subgen_english_plex.Resource.Pressure.Loading.{immediate_load_admission}
use subgen_english_plex.Resource.Pressure.Create.{Arguments, create}

-- The methods, with their arguments.
pub data Call (R W : Type 0) : Type 0 where
  observing_call : PressureSample → Bool → Call R W
  priority_call : Bool → Bool → Call R W
  poll_call : Bool → Bool → Bool → Call R W
  check_call : Bool → Call R W
  close_call : Call R W
  open_call : Call R W
  release_call : Option RecoveryReason → Call R W
  no_safe_model_call : Option (List R) → Call R W
  load_call : Option R → Option (Action W PressureSample) → Call R W
  receipt_failure_call : Call R W
  release_failure_call : Bool → Call R W

module _ {R W : Type 0} (e : Evidence R) (s : Settings R) (env : Inputs W) where
  unfoldable pub perform : Call R W → Action (Node R W) (Unit {0})
  unfolding observe poll_priority poll check_or_raise close_admission open_admission_if_normal
      mark_released enter_no_safe_model immediate_load_admission
  perform (observing_call sample resident) = observe e s env sample resident >> pure tt
  perform (priority_call resident force) = poll_priority s env resident force >> pure tt
  perform (poll_call resident force active) = poll e s env resident force active >> pure tt
  perform (check_call force) = check_or_raise e s env force >> pure tt
  perform close_call = close_admission s env
  perform open_call = open_admission_if_normal s env >> pure tt
  perform (release_call reason) = mark_released s env reason >> pure tt
  perform (no_safe_model_call requirements) = enter_no_safe_model e s env requirements >> pure tt
  perform (load_call requirement reader) =
      immediate_load_admission e s env requirement reader >> pure tt
  perform receipt_failure_call = update latch_receipt_failure
  perform (release_failure_call resident) = update (latch_release_failure resident)

-- What a controller that the constructor returned can become.
pub data Reached {R W : Type 0} (e : Evidence R) (s : Settings R) (env : Inputs W)
    : Node R W → Type 0 where
  created :
      (a : Arguments R) (c : PressureController R) (w : W)
      → create e a ≡ ok (s, c)
      → Reached e s env (record { controller = c; world = w })
  called :
      {n : Node R W} (call : Call R W) (r : Result (Unit {0})) (n' : Node R W)
      → Reached e s env n
      → perform e s env call n ≡ (r, n')
      → Reached e s env n'
  elsewhere : {n : Node R W} (w : W) → Reached e s env n → Reached e s env (record n { world = w })
