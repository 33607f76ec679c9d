-- ===== src/Segmentation/Sequential.antt =====
-- `run_segmented_transcription` of subgen_core/segmentation.py. The injected callbacks are functions
-- over a state `W` of the caller's; an event is recorded when a chunk callback returns, when a chunk
-- is unwound and when the transcript is finalized.
pub mod Rules
pub mod Trace
pub mod Attempts
pub mod Outcome
pub mod Finish
pub mod Liveness
pub mod Delivery
use subgen_english_plex.Common.{
  ℕ, zero, suc, Bool, true, false, ◌&&◌, not, Option, none, some, List, [], ◌∷◌, ℤ, pos, negsuc,
  Error, is_exception, Result, ok, raise, memory_pressure_yield, ltb, if◌then◌else◌,
}
use subgen_english_plex.Common.Action.{
  Action, pure, throw, lift, gets, attempt, modify, ◌>>=◌, ◌>>◌,
}
use subgen_english_plex.Resource.Chunks.{
  AdaptiveChunkState, record_pressure_yield, record_external_pressure_recovery,
  record_allocation_failure, record_success,
}
use subgen_english_plex.Segmentation.Number.{Value, integer, real, positive_number}
use subgen_english_plex.Segmentation.Recognition.{RawResult, StagedChunk}
use subgen_english_plex.Segmentation.Window.{ChunkWindow, plan_next_window}
use subgen_english_plex.Segmentation.Staging.{stage_chunk_result}
use subgen_english_plex.Segmentation.Assembly.{
  AssemblyState, initial_state, checked_state, complete, commit_chunk,
}

-- What `wait_for_recovery` returns: a pair of integer generations, or anything else.
pub data Recovery : Type 0 where
  generations : ℤ → ℤ → Recovery
  other_recovery : Recovery

-- `_external_pressure_recovered`
unfoldable pub external_pressure_recovered : Recovery → Bool
external_pressure_recovered (generations (pos before) (pos after)) = ltb before after
external_pressure_recovered _ = false

pub data Event : Type 0 where
  started : ChunkWindow → Event
  persisted : ChunkWindow → StagedChunk → Event
  committed : ChunkWindow → Event
  unwound : ChunkWindow → Event
  finalized : AssemblyState → Event

-- The state of a run: the caller's, the chunk policy, and the events, the newest first.
pub record Run (W : Type 0) : Type 0 where
  pub world : W
  pub adaptive : AdaptiveChunkState
  pub trace : List Event

-- The callbacks, over the audio and the output types of the caller.
pub record Callbacks (W Audio Output : Type 0) : Type 0 where
  pub extract_chunk : ChunkWindow → Action W Audio
  pub transcribe_chunk : Audio → ChunkWindow → Action W RawResult
  pub release_failure : Error → ChunkWindow → Action W (Unit {0})
  pub wait_for_recovery : Error → ChunkWindow → Action W Recovery
  pub persist_chunk : ChunkWindow → StagedChunk → AssemblyState → Action W (Unit {0})
  pub finalize_assembly : AssemblyState → Action W Output
  pub check_cancelled : Action W (Unit {0})
  pub check_before_commit : Action W Bool
  pub is_allocation_failure : Error → Action W Bool
  pub chunk_started : ChunkWindow → Action W (Unit {0})
  pub chunk_unwound : ChunkWindow → Action W (Unit {0})
  pub chunk_committed : ChunkWindow → AssemblyState → Action W (Unit {0})

-- How the guarded part of an attempt ends without raising.
pub data Attempted : Type 0 where
  staged : StagedChunk → Bool → Attempted
  pressure : Error → Attempted
  allocation : Error → Attempted

-- How an iteration of the loop ends.
pub data Iteration : Type 0 where
  again : AssemblyState → Iteration
  leave : AssemblyState → Iteration

module _ {W : Type 0} where
  -- A call of a callback changes the caller's state alone.
  unfoldable pub call : {A : Type 0} → Action W A → Action (Run W) A
  call m r = let (a, w) = m r.world in (a, record r { world = w })

  unfoldable pub emit : Event → Action (Run W) (Unit {0})
  emit e = modify (λ r. record r { trace = e ∷ r.trace })

  unfoldable pub adapt : (AdaptiveChunkState → AdaptiveChunkState) → Action (Run W) (Unit {0})
  adapt f = modify (λ r. record r { adaptive = f r.adaptive })

  -- `adaptive.record_allocation_failure()`
  unfoldable pub adapt_failure : Action (Run W) Bool
  adapt_failure = do
    a ← gets (λ r. r.adaptive)
    (a', exhausted) ← lift (record_allocation_failure a none)
    adapt (λ _. a')
    pure exhausted

  -- Behind the body of the loop: the next iteration, or what follows the loop.
  unfoldable pub follow :
      (AssemblyState → Action (Run W) (Option AssemblyState))
      → Iteration
      → Action (Run W) (Option AssemblyState)
  follow k (again s) = k s
  follow k (leave s) = pure (some s)

module _ {W Audio Output : Type 0} (cb : Callbacks W Audio Output) where
  open cb use {
    extract_chunk, transcribe_chunk, release_failure, wait_for_recovery, persist_chunk,
    finalize_assembly, check_cancelled, check_before_commit, is_allocation_failure, chunk_started,
    chunk_unwound, chunk_committed,
  }

  -- `except MemoryPressureYield` around `check_before_commit`
  unfoldable pub checked : StagedChunk → Result Bool → Action (Run W) Attempted
  checked c (ok healthy) = pure (staged c healthy)
  checked c (raise memory_pressure_yield) = pure (pressure memory_pressure_yield)
  checked c (raise e) = throw e

  unfoldable pub stage_result : ChunkWindow → RawResult → Action (Run W) Attempted
  stage_result w result = do
    call check_cancelled
    c ← lift (stage_chunk_result result w)
    call check_cancelled
    r ← attempt (call check_before_commit)
    checked c r

  -- `except Exception` around `transcribe_chunk`
  unfoldable pub recognition_failed : Error → Action (Run W) Attempted
  recognition_failed e = do
    is_allocation ← call (is_allocation_failure e)
    (if is_allocation then pure (allocation e) else throw e)

  -- The two `except` clauses around `transcribe_chunk`, and what follows a result.
  unfoldable pub transcribed : ChunkWindow → Result RawResult → Action (Run W) Attempted
  transcribed w (ok result) = stage_result w result
  transcribed w (raise memory_pressure_yield) = pure (pressure memory_pressure_yield)
  transcribed w (raise e) = if is_exception e then recognition_failed e else throw e

  unfoldable pub unwind : ChunkWindow → Action (Run W) (Unit {0})
  unwind w = do emit (unwound w); call (chunk_unwound w)

  -- `except BaseException` while the chunk is uncommitted
  unfoldable pub guarded : {A : Type 0} → ChunkWindow → Result A → Action (Run W) A
  guarded w (ok a) = pure a
  guarded w (raise e) = do unwind w; throw e

  unfoldable pub attempt_chunk : ChunkWindow → Audio → Action (Run W) Attempted
  attempt_chunk w audio = do
    call check_cancelled
    call (chunk_started w)
    emit (started w)
    r ← attempt (do t ← attempt (call (transcribe_chunk audio w)); transcribed w t)
    guarded w r

  -- What a control error does to the chunk policy before the recovery.
  unfoldable pub record_control : Bool → Action (Run W) Bool
  record_control true = adapt_failure
  record_control false = do adapt record_pressure_yield; pure false

  -- `if exhausted: raise control_error`
  unfoldable pub give_up : Bool → Error → AssemblyState → Action (Run W) Iteration
  give_up exhausted error s = if exhausted then throw error else pure (again s)

  unfoldable pub settle : Bool → Recovery → Bool → Error → AssemblyState → Action (Run W) Iteration
  settle is_allocation recovery exhausted error s =
      if is_allocation && external_pressure_recovered recovery
      then (do adapt record_external_pressure_recovery; give_up false error s)
      else give_up exhausted error s

  unfoldable pub recover : Bool → Error → ChunkWindow → AssemblyState → Action (Run W) Iteration
  recover is_allocation error w s = do
    unwind w
    call (release_failure error w)
    call check_cancelled
    exhausted ← record_control is_allocation
    recovery ← call (wait_for_recovery error w)
    call check_cancelled
    settle is_allocation recovery exhausted error s

  -- The storage callback, recorded when it returns.
  unfoldable pub persist : ChunkWindow → StagedChunk → AssemblyState → Action (Run W) (Unit {0})
  persist w c next = do call (persist_chunk w c next); emit (persisted w c)

  unfoldable pub commit_and_report :
      AssemblyState → ChunkWindow → StagedChunk → Action (Run W) AssemblyState
  commit_and_report s w c = do
    next ← commit_chunk persist s w c
    call (chunk_committed w next)
    emit (committed w)
    pure next

  unfoldable pub conclude : AssemblyState → ChunkWindow → Attempted → Action (Run W) Iteration
  conclude s w (pressure e) = recover false e w s
  conclude s w (allocation e) = recover true e w s
  conclude s w (staged c healthy) = do
    r ← attempt (commit_and_report s w c)
    next ← guarded w r
    call check_cancelled
    adapt (λ a. record_success a healthy)
    pure (again next)

  unfoldable pub process : AssemblyState → Option ChunkWindow → Action (Run W) Iteration
  process s none = pure (leave s)
  process s (some w) = do
    call check_cancelled
    audio ← call (extract_chunk w)
    a ← attempt_chunk w audio
    conclude s w a

  unfoldable pub finish : Option AssemblyState → Action (Run W) (Option Output)
  finish none = pure none
  finish (some s) = do
    call check_cancelled
    emit (finalized s)
    result ← call (finalize_assembly s)
    call check_cancelled
    pure (some result)

  module _ (overlap_seconds : Value) where
    -- The body of the loop.
    unfoldable pub iterate : AssemblyState → Action (Run W) Iteration
    iterate s = do
      call check_cancelled
      seconds ← gets (λ r. r.adaptive.current_seconds)
      plan ← lift (
          plan_next_window (real (pos s.cursor)) (real (pos s.media_duration))
            (integer (pos seconds)) s.completed_chunks overlap_seconds)
      process s plan

    -- `while not state.complete`; `none` means that the fuel ran out.
    unfoldable pub loop : ℕ → AssemblyState → Action (Run W) (Option AssemblyState)
    loop zero s = pure none
    loop (suc fuel) s =
        let body = iterate s >>= follow (loop fuel) in if complete s then pure (some s) else body

    unfoldable pub run_segmented_transcription : ℕ → Value → Action (Run W) (Option Output)
    run_segmented_transcription fuel media_duration = do
      duration ← lift (positive_number media_duration)
      s ← lift (checked_state (initial_state duration))
      o ← loop fuel s
      finish o
