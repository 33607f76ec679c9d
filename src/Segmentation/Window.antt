-- ===== src/Segmentation/Window.antt =====
-- Chunk windows of subgen_core/segmentation.py: the interval that a chunk owns, the interval that is
-- extracted for it, and the planning of the next one.
pub mod Plan
pub mod Tiling
pub mod Progress
use subgen_english_plex.Common.{
  ℕ, ◌+◌, ◌-◌, ◌*◌, Bool, ◌&&◌, not, Option, none, some, ℤ, pos, min, max, Result, ok, ◌>>=◌, ◌>>◌,
  require, segmentation_error, leb, ltb, ◌==◌, if◌then◌else◌, neg_part, pos_part,
}
use subgen_english_plex.Segmentation.Number.{
  Value, finite_number, non_negative, positive_number, ticks,
}

pub record ChunkWindow : Type 0 where
  pub ordinal : ℕ
  pub media_duration : ℕ
  pub core_start : ℕ
  pub core_end : ℕ
  pub extract_start : ℕ
  pub extract_end : ℕ

-- The chain of comparisons of `ChunkWindow.__post_init__`.
abbrev pub intervals_consistent : ChunkWindow → Bool
intervals_consistent w =
    leb w.extract_start w.core_start
    && ltb w.core_start w.core_end
    && leb w.core_end w.extract_end
    && leb w.extract_end w.media_duration

-- `ChunkWindow(...)`: the fields are numbers already, so the interval checks are what is left.
unfoldable pub checked_window : ChunkWindow → Result ChunkWindow
checked_window w = do
  require (ltb 0 w.media_duration) segmentation_error
  require (intervals_consistent w) segmentation_error
  ok w

unfoldable pub is_final : ChunkWindow → Bool
is_final w = w.core_end == w.media_duration

unfoldable pub extract_duration : ChunkWindow → ℕ
extract_duration w = w.extract_end - w.extract_start

-- `owns_midpoint` of half of `twice_midpoint`: the comparisons are doubled, so that the midpoint of
-- two times is exact.
unfoldable pub owns_midpoint : ChunkWindow → ℕ → Bool
unfolding is_final
owns_midpoint w twice_midpoint =
    if is_final w
    then leb (2 * w.core_start) twice_midpoint && leb twice_midpoint (2 * w.core_end)
    else leb (2 * w.core_start) twice_midpoint && ltb twice_midpoint (2 * w.core_end)

-- The body of `plan_next_window` behind its numeric guards.
unfoldable pub plan_window : ℕ → ℕ → ℕ → ℕ → ℕ → Result (Option ChunkWindow)
unfolding checked_window
plan_window cursor duration working_seconds ordinal overlap = do
  require (leb cursor duration) segmentation_error
  if cursor == duration then ok none else do
    let core_end = min duration (cursor + working_seconds)
    require (ltb cursor core_end) segmentation_error
    w ← checked_window (record {
      ordinal = ordinal;
      media_duration = duration;
      core_start = cursor;
      core_end = core_end;
      extract_start = cursor - overlap;
      extract_end = min duration (core_end + overlap);
    })
    ok (some w)

-- `plan_next_window`; `max(0.0, cursor - overlap)` is the subtraction that stops at 0.
unfoldable pub plan_next_window : Value → Value → Value → ℕ → Value → Result (Option ChunkWindow)
unfolding finite_number positive_number plan_window
plan_next_window cursor media_duration core_seconds ordinal overlap_seconds = do
  source_cursor ← finite_number cursor
  duration ← positive_number media_duration
  working_seconds ← positive_number core_seconds
  overlap ← finite_number overlap_seconds
  overlap' ← non_negative overlap
  cursor' ← non_negative source_cursor
  plan_window cursor' duration working_seconds ordinal overlap'

-- `source_seek` of `mapped_progress`, from the two numbers of the recogniser.
unfoldable pub source_seek : ChunkWindow → ℤ → ℤ → ℕ
unfolding extract_duration
source_seek w local_seek local_total =
    if ltb 0 (pos_part local_total)
    then (let bounded_seek = min (pos_part local_seek) (extract_duration w) in
        min (max (w.extract_start + bounded_seek) w.core_start) w.core_end)
    else w.core_start

-- `mapped_progress`: the arguments that the progress callback is given.
unfoldable pub mapped_progress : ChunkWindow → Value → Value → Result (ℕ × ℕ)
unfolding finite_number source_seek
mapped_progress w seek total = do
  local_seek ← finite_number seek
  local_total ← finite_number total
  ok (source_seek w local_seek local_total, w.media_duration)
