-- ===== src/Segmentation/Assembly.antt =====
-- `AssemblyState` and `commit_chunk` of subgen_core/segmentation.py: scalar progress over transcript
-- content that is stored elsewhere.
pub mod Commit
pub mod Transcript
use subgen_english_plex.Common.{
  ℕ, ◌+◌, Bool, true, ◌&&◌, ◌||◌, not, Option, none, some, List, [], ◌∷◌, Error, Result, ok, raise,
  ◌>>=◌, ◌>>◌, require, segmentation_error, non_monotonic_result, leb, ltb, ◌==◌, length,
}
use subgen_english_plex.Common.Action
use subgen_english_plex.Common.Action.{Action, lift, pure}
use subgen_english_plex.Segmentation.Number.{Text}
use subgen_english_plex.Segmentation.Recognition.{StagedSegment, StagedChunk}
use subgen_english_plex.Segmentation.Window.{ChunkWindow}
use subgen_english_plex.Segmentation.Staging.{validate_monotonic_segments}

pub record AssemblyState : Type 0 where
  pub media_duration : ℕ
  pub cursor : ℕ
  pub completed_chunks : ℕ
  pub language : Option Text
  pub segment_count : ℕ
  pub last_segment_end : ℕ

-- `AssemblyState.__post_init__`
unfoldable pub checked_state : AssemblyState → Result AssemblyState
checked_state s = do
  require (ltb 0 s.media_duration) segmentation_error
  require (leb s.cursor s.media_duration) segmentation_error
  require (leb s.last_segment_end s.cursor) segmentation_error
  require (not (s.segment_count == 0 && not (s.last_segment_end == 0))) segmentation_error
  ok s

-- `AssemblyState(media_duration=...)`
abbrev pub initial_state : ℕ → AssemblyState
initial_state duration = record {
  media_duration = duration;
  cursor = 0;
  completed_chunks = 0;
  language = none;
  segment_count = 0;
  last_segment_end = 0;
}

unfoldable pub complete : AssemblyState → Bool
complete s = s.cursor == s.media_duration

-- `state.language or (staged.language if staged.segments else None)`
unfoldable pub aggregate_language : Option Text → StagedChunk → Option Text
aggregate_language (some (c ∷ cs)) staged = some (c ∷ cs)
aggregate_language _ staged = elim staged.segments [ [] ↦ none | s ∷ ss ↦ staged.language ]

-- The end of the last of some segments, or what was there before.
abbrev pub last_end : ℕ → List StagedSegment → ℕ
last_end e [] = e
last_end e (s ∷ ss) = last_end s.end ss

-- `staged.segments and staged.segments[0]["start"] < state.last_segment_end`, negated.
abbrev pub starts_after : ℕ → List StagedSegment → Bool
starts_after e [] = true
starts_after e (s ∷ ss) = leb e s.start

abbrev pub advanced : AssemblyState → ChunkWindow → StagedChunk → AssemblyState
advanced s w staged = record {
  media_duration = s.media_duration;
  cursor = w.core_end;
  completed_chunks = s.completed_chunks + 1;
  language = aggregate_language s.language staged;
  segment_count = s.segment_count + length staged.segments;
  last_segment_end = last_end s.last_segment_end staged.segments;
}

-- `commit_chunk` up to the call of `persist_chunk`.
unfoldable pub next_state : AssemblyState → ChunkWindow → StagedChunk → Result AssemblyState
unfolding checked_state
next_state s w staged = do
  require (w.media_duration == s.media_duration) segmentation_error
  require (w.ordinal == s.completed_chunks) segmentation_error
  require (w.core_start == s.cursor) segmentation_error
  validate_monotonic_segments s.media_duration staged.segments
  require (starts_after s.last_segment_end staged.segments) non_monotonic_result
  checked_state (advanced s w staged)

-- The storage callback over a state `S`: it may change the state and raise.
abbrev pub Persist : Type 0 → Type 0
Persist S = ChunkWindow → StagedChunk → AssemblyState → Action S (Unit {0})

-- `commit_chunk`: the new state is returned only if the storage callback returned.
unfoldable pub commit_chunk :
    {S : Type 0} → Persist S → AssemblyState → ChunkWindow → StagedChunk → Action S AssemblyState
commit_chunk persist s w staged =
    Action.◌>>=◌ (lift (next_state s w staged))
      (λ next. Action.◌>>=◌ (persist w staged next) (λ _. pure next))
