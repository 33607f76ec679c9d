-- ===== src/Segmentation/Parallel.antt =====
-- `ParallelChunkCoordinator` of subgen_core/segmentation.py: which ranges are assigned, staged and to
-- be retried. An assignment is identified by its attempt number, which its window carries; the calls
-- that store and commit are in the child `Storage`.
pub mod Storage
pub mod Books
pub mod Dispatch
pub mod Claim
pub mod Storing
pub mod Committing
pub mod Reach
pub mod Keeping
pub mod Attempts
pub mod Delivery
use subgen_english_plex.Common.{
  ℕ, zero, suc, ◌+◌, ◌-◌, ◌*◌, min, Bool, true, false, not, ◌||◌, ◌&&◌, Option, none, some, List,
  [], ◌∷◌, ◌++◌, pos, Result, ok, raise, ◌>>=◌, ◌>>◌, require, segmentation_error, runtime_error,
  value_error, attribute_error, leb, ltb, ◌==◌, if◌then◌else◌, length, same_text,
}
use subgen_english_plex.Segmentation.Number.{
  Text, Value, real, positive_number, finite_number, non_negative,
}
use subgen_english_plex.Segmentation.Ranges.{Range, sort_ranges, merge_ranges}
use subgen_english_plex.Segmentation.Window.{ChunkWindow, plan_next_window}
use subgen_english_plex.Segmentation.Assembly.{AssemblyState, initial_state, checked_state}

pub record ChunkAssignment : Type 0 where
  pub worker : Text
  pub window : ChunkWindow

-- The coordinator's fields, over the state `W` that its storage callbacks share.
pub record Coordinator (W Handle : Type 0) : Type 0 where
  pub world : W
  pub state : AssemblyState
  pub workers : List Text
  pub overlap : ℕ
  pub cursor : ℕ
  pub attempt : ℕ
  pub inflight : List ChunkAssignment
  pub ready : List (ChunkWindow × Handle)
  pub retry : List Range
  pub closed : Bool
  pub dispatch_paused : Bool

unfoldable pub mentions : Text → List Text → Bool
mentions w [] = false
mentions w (v ∷ vs) = same_text w v || mentions w vs

unfoldable pub all_distinct : List Text → Bool
unfolding mentions
all_distinct [] = true
all_distinct (v ∷ vs) = not (mentions v vs) && all_distinct vs

-- `not w or len(w) > 64`, negated, for every worker.
unfoldable pub names_fit : List Text → Bool
names_fit [] = true
names_fit (v ∷ vs) = ltb 0 (length v) && leb (length v) 64 && names_fit vs

-- The guard of the worker identities, negated.
unfoldable pub workers_fit : List Text → Bool
unfolding names_fit all_distinct
workers_fit ws = leb 1 (length ws) && leb (length ws) 32 && names_fit ws && all_distinct ws

-- `self._inflight.get(worker)`
unfoldable pub assigned : Text → List ChunkAssignment → Option ChunkWindow
assigned w [] = none
assigned w (a ∷ as') = if same_text w a.worker then some a.window else assigned w as'

-- `del self._inflight[worker]`
unfoldable pub unassign : Text → List ChunkAssignment → List ChunkAssignment
unassign w [] = []
unassign w (a ∷ as') = if same_text w a.worker then as' else a ∷ unassign w as'

-- What is left of the retry ranges when the first was claimed up to `end`.
abbrev pub rest_of_retry : ℕ → ℕ → List Range → List Range
rest_of_retry end limit rest = if end == limit then rest else (end, limit) ∷ rest

unfoldable pub is_assigned : Option ChunkWindow → Bool
is_assigned none = false
is_assigned (some w) = true

-- The window behind `_require_attempt`, if the worker still has this attempt.
unfoldable pub same_attempt : ChunkAssignment → Option ChunkWindow → Result ChunkWindow
same_attempt a none = raise segmentation_error
same_attempt a (some w) = do require (w.ordinal == a.window.ordinal) segmentation_error; ok w

module _ {W Handle : Type 0} where
  -- `__init__`
  unfoldable pub new_coordinator : W → Value → List Text → Value → Result (Coordinator W Handle)
  unfolding workers_fit checked_state finite_number positive_number
  new_coordinator world media_duration workers overlap_seconds = do
    require (workers_fit workers) value_error
    duration ← positive_number media_duration
    s ← checked_state (initial_state duration)
    n ← finite_number overlap_seconds
    overlap ← non_negative n
    ok (record {
      world = world;
      state = s;
      workers = workers;
      overlap = overlap;
      cursor = 0;
      attempt = 0;
      inflight = [];
      ready = [];
      retry = [];
      closed = false;
      dispatch_paused = false;
    })

  unfoldable pub pending_count : Coordinator W Handle → ℕ
  pending_count c = length c.inflight + length c.ready

  unfoldable pub maximum_pending : Coordinator W Handle → ℕ
  maximum_pending c = 2 * length c.workers

  unfoldable pub pause_dispatch : Bool → Coordinator W Handle → Coordinator W Handle
  pause_dispatch paused c = record c { dispatch_paused = paused }

  -- The window for at most `seconds` from `start` up to `limit`.
  unfoldable pub plan_claim : Coordinator W Handle → ℕ → ℕ → ℕ → Result (Option ChunkWindow)
  plan_claim c start limit seconds =
      plan_next_window (real (pos start)) (real (pos c.state.media_duration))
        (real (pos (min seconds (limit - start)))) c.attempt (real (pos c.overlap))

  abbrev pub assign : Coordinator W Handle → Text → ChunkWindow → Coordinator W Handle
  assign c worker w = record c {
    attempt = c.attempt + 1;
    inflight = record { worker = worker; window = w } ∷ c.inflight;
  }

  -- A planned retry; a plan of nothing has no `core_end` and raises.
  unfoldable pub claim_retry :
      Coordinator W Handle
      → Text
      → ℕ
      → List Range
      → Option ChunkWindow
      → Result (Coordinator W Handle × Option ChunkAssignment)
  claim_retry c worker limit rest none = raise attribute_error
  claim_retry c worker limit rest (some w) = ok (
    record (assign c worker w) { retry = rest_of_retry w.core_end limit rest },
    some (record { worker = worker; window = w }),
  )

  unfoldable pub claim_fresh :
      Coordinator W Handle
      → Text
      → Option ChunkWindow
      → Result (Coordinator W Handle × Option ChunkAssignment)
  claim_fresh c worker none = raise attribute_error
  claim_fresh c worker (some w) = ok (
    record (assign c worker w) { cursor = w.core_end },
    some (record { worker = worker; window = w }),
  )

  -- The earliest retry, otherwise fresh work.
  unfoldable pub dispatch :
      Coordinator W Handle
      → Text
      → ℕ
      → List Range
      → Result (Coordinator W Handle × Option ChunkAssignment)
  unfolding plan_claim claim_retry claim_fresh
  dispatch c worker seconds [] =
      if c.cursor == c.state.media_duration
      then ok (c, none)
      else do w ← plan_claim c c.cursor c.state.media_duration seconds; claim_fresh c worker w
  dispatch c worker seconds ((start, limit) ∷ rest) =
      if start == limit
      then ok (c, none)
      else do w ← plan_claim c start limit seconds; claim_retry c worker limit rest w

  unfoldable pub claim :
      Coordinator W Handle → Text → Value → Result (Coordinator W Handle × Option ChunkAssignment)
  unfolding mentions is_assigned pending_count maximum_pending
  claim c worker core_seconds = do
    require (not c.closed) runtime_error
    require (mentions worker c.workers) value_error
    seconds ← positive_number core_seconds
    require (not (is_assigned (assigned worker c.inflight))) runtime_error
    if c.dispatch_paused || leb (maximum_pending c) (pending_count c)
        then ok (c, none)
        else dispatch c worker seconds c.retry

  unfoldable pub require_attempt : Coordinator W Handle → ChunkAssignment → Result ChunkWindow
  unfolding same_attempt
  require_attempt c a = do
    require (not c.closed) runtime_error
    same_attempt a (assigned a.worker c.inflight)

  unfoldable pub yielded : Coordinator W Handle → ChunkAssignment → Result (Coordinator W Handle)
  yielded c a = do
    w ← require_attempt c a
    ok (record c {
      retry = merge_ranges (sort_ranges (c.retry ++ (w.core_start, w.core_end) ∷ []));
      inflight = unassign a.worker c.inflight;
    })
