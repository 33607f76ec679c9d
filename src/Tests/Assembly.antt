-- ===== src/Tests/Assembly.antt =====
-- Commits of the first two windows, the first of them silent.
use subgen_english_plex.Common.{◌≡◌, ◌↔◌, refl, [], ◌∷◌, none, some, ok, arith}
use subgen_english_plex.Segmentation.Recognition.{StagedChunk}
use subgen_english_plex.Segmentation.Window.Plan.{next_window-IsNext}
use subgen_english_plex.Segmentation.Staging.{validate_monotonic_segments}
use subgen_english_plex.Segmentation.Staging.Contract.{IsStaged}
use subgen_english_plex.Segmentation.Assembly.{
  AssemblyState, initial_state, next_state, advanced, aggregate_language,
}
use subgen_english_plex.Segmentation.Assembly.Commit.{
  IsValid, Continues, next_state_iff, staged_commits,
}
use subgen_english_plex.Segmentation.Assembly.Transcript.{
  Log, Commits, start, next, Describes, Commits-Describes,
}
use subgen_english_plex.Tests.Window.{first, second}
use subgen_english_plex.Tests.Staging.{heard_chunk}

abbrev silence : StagedChunk
silence = record { language = none; segments = [] }

abbrev after_first : AssemblyState
after_first = record {
  media_duration = 10;
  cursor = 4;
  completed_chunks = 1;
  language = none;
  segment_count = 0;
  last_segment_end = 0;
}

abbrev after_second : AssemblyState
after_second = record {
  media_duration = 10;
  cursor = 8;
  completed_chunks = 2;
  language = some (101 ∷ 110 ∷ []);
  segment_count = 2;
  last_segment_end = 8;
}

first_commits : next_state (initial_state 10) first silence ≡ ok after_first
unfolding next_state validate_monotonic_segments aggregate_language
first_commits = refl

second_commits : next_state after_first second heard_chunk ≡ ok after_second
unfolding next_state validate_monotonic_segments aggregate_language
second_commits = refl

next_state_iff_example :
    (next_state after_first second heard_chunk ≡ ok (advanced after_first second heard_chunk))
    ↔ (Continues after_first second heard_chunk × IsValid (advanced after_first second heard_chunk))
next_state_iff_example = next_state_iff after_first second heard_chunk

silence-IsStaged : IsStaged first silence
silence-IsStaged = record { in_core = tt; ordered = tt; silent = λ e. refl }

staged_commits_example :
    (next_state (initial_state 10) first silence ≡ ok (advanced (initial_state 10) first silence))
    × IsValid (advanced (initial_state 10) first silence)
staged_commits_example =
    staged_commits (initial_state 10) 4 1 first silence (omega arith)
      (next_window-IsNext 0 10 4 0 1 (omega arith) (omega arith)) silence-IsStaged

abbrev both : Log
both = (first, silence) ∷ (second, heard_chunk) ∷ []

both_commit : Commits 10 after_second both
both_commit =
    next second heard_chunk (next first silence start (omega arith) first_commits) (omega arith)
      second_commits

Commits-Describes_example : Describes 10 after_second both
Commits-Describes_example = Commits-Describes 10 (omega arith) both_commit
