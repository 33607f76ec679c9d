-- ===== src/Tests/Journal.antt =====
-- Runs of the journal on concrete inputs.
use native.Mathlib.Decide.{ℕ_discrete}
use subgen_english_plex.Common.{
  ℕ, ◌≡◌, refl, ap, sym, List, [], ◌∷◌, none, some, Result, ok, raise, value_error, All,
  segment_journal_commit_error, subst, ◌==◌, true, false,
}
use subgen_english_plex.Common.Action
use subgen_english_plex.Common.Action.{gets, lift, pure, attempt, throw, modify}
use subgen_english_plex.Segmentation.Recognition.{StagedSegment, StagedChunk}
use subgen_english_plex.Segmentation.Window.{ChunkWindow}
use subgen_english_plex.Segmentation.Assembly.{
  AssemblyState, initial_state, next_state, checked_state, commit_chunk, aggregate_language,
}
use subgen_english_plex.Segmentation.Staging.{validate_monotonic_segments}
use subgen_english_plex.Journal.InStep.{InStep, Follows, FinalizedIfComplete, commit_chunk-Follows}
use subgen_english_plex.Journal.File.{newline}
use subgen_english_plex.Journal.{JournalRecord, chunk_record, Codec, Node, new_journal, on_disk}
use subgen_english_plex.Journal.Commit.{chunk_agrees, persist_chunk}
use subgen_english_plex.Journal.Read.{iter_committed_chunks}
use subgen_english_plex.Journal.Writing.{joined}
use subgen_english_plex.Journal.Reach.{Reached, created, committed, commit_raised}
use subgen_english_plex.Journal.Turns.{Faithful, loaded_of}
use subgen_english_plex.Journal.Roundtrip.{reads_what_was_written}

unfoldable JournalRecord-discrete : Discrete JournalRecord
unfolding ℕ_discrete
JournalRecord-discrete = hlevel ℕ_discrete

abbrev spoken : StagedSegment
spoken = record {
  metadata = record {
    temperature = none;
    avg_logprob = none;
    compression_ratio = none;
    no_speech_prob = none;
  };
  start = 1_000_000;
  end = 2_000_000;
  segment_text = 72 ∷ 105 ∷ [];
  tokens = none;
  words = none;
}

-- An encoder of one record, in two parts; it raises for any other.
abbrev spoken_record : JournalRecord
spoken_record = chunk_record 0 0 10_000_000 none (spoken ∷ [])

abbrev parts_of : {r : JournalRecord} → Dec (r ≡ spoken_record) → List (Result (List ℕ))
parts_of (yes e) = ok (123 ∷ []) ∷ ok (125 ∷ []) ∷ []
parts_of (no f) = ok (123 ∷ []) ∷ raise value_error ∷ []

abbrev codec : Codec
codec = record {
  iterencode = λ r. parts_of (JournalRecord-discrete r spoken_record);
  loads = λ bs. loaded_of spoken_record;
}

line_back :
    (r : JournalRecord) (d : Dec (r ≡ spoken_record)) (bs : List ℕ)
    → joined (parts_of d) ≡ ok bs
    → (loaded_of spoken_record ≡ loaded_of r) × (123 ∷ 125 ∷ [] ≡ bs)
line_back r (yes e) bs h = (ap loaded_of (sym e), cc)
line_back r (no f) bs h = absurd (cc)

codec-Faithful : Faithful codec
codec-Faithful = record {
  reads_back = λ r bs h. (line_back r (JournalRecord-discrete r spoken_record) bs h).0;
  one_line = λ r bs h.
      subst (All (λ b. (b == newline) ≡ false))
        (line_back r (JournalRecord-discrete r spoken_record) bs h).1 (refl, (refl, tt));
}

abbrev window : ChunkWindow
window = record {
  ordinal = 0;
  media_duration = 10_000_000;
  core_start = 0;
  core_end = 10_000_000;
  extract_start = 0;
  extract_end = 10_000_000;
}

abbrev chunk : StagedChunk
chunk = record { language = none; segments = spoken ∷ [] }

abbrev behind_chunk : AssemblyState
behind_chunk = record {
  media_duration = 10_000_000;
  cursor = 10_000_000;
  completed_chunks = 1;
  language = none;
  segment_count = 1;
  last_segment_end = 2_000_000;
}

-- The second part of the first commit cannot be written; the calls behind it work.
abbrev fresh : Node
fresh = record {
  journal = new_journal true true;
  disk = record { bytes = []; position = 0; faults = none ∷ none ∷ none ∷ some 0 ∷ [] };
}

unfoldable persisted : Node → Result (Unit {0}) × Node
unfolding persist_chunk
persisted n = persist_chunk codec window chunk behind_chunk n

-- The first commit fails and is rolled back.
rolls_back : (persisted fresh).0 ≡ raise segment_journal_commit_error
unfolding persisted JournalRecord-discrete on_disk Action.◌>>=◌ gets lift pure attempt throw modify
rolls_back = refl

-- The second one returns.
commits : (persisted (persisted fresh).1).0 ≡ ok tt
unfolding persisted JournalRecord-discrete on_disk Action.◌>>=◌ gets lift pure attempt throw modify
commits = refl

run : Reached codec (persisted (persisted fresh).1).1 ((spoken ∷ []) ∷ [])
unfolding persisted JournalRecord-discrete on_disk Action.◌>>=◌ gets lift pure attempt throw modify
run =
    committed window chunk behind_chunk (persisted (persisted fresh).1).1
      (commit_raised window chunk behind_chunk segment_journal_commit_error (persisted fresh).1
        (created true true (none ∷ none ∷ none ∷ some 0 ∷ [])) refl)
      refl

reads_what_was_written_example :
    (n' : Node) × (iter_committed_chunks codec (persisted (persisted fresh).1).1
      ≡ (ok (some ((spoken ∷ []) ∷ [])), n'))
unfolding persisted JournalRecord-discrete on_disk Action.◌>>=◌ gets lift pure attempt throw modify
reads_what_was_written_example =
    reads_what_was_written codec-Faithful (persisted (persisted fresh).1).1 ((spoken ∷ []) ∷ []) run
      refl refl

-- Behind the commit that was rolled back, the first state is in step with the empty journal.
rolled_in_step : InStep codec [] (initial_state 10_000_000) (persisted fresh).1
unfolding persisted JournalRecord-discrete on_disk Action.◌>>=◌ gets lift pure attempt throw modify
rolled_in_step = record {
  reached =
      commit_raised window chunk behind_chunk segment_journal_commit_error (persisted fresh).1
        (created true true (none ∷ none ∷ none ∷ some 0 ∷ [])) refl;
  usable_now = refl;
  chunks = refl;
  segments = refl;
  last = refl;
}

accepted : next_state (initial_state 10_000_000) window chunk ≡ ok behind_chunk
unfolding next_state checked_state validate_monotonic_segments aggregate_language
accepted = refl

commit_chunk-Follows_example :
    (chunk_agrees (persisted fresh).1.journal window chunk behind_chunk ≡ ok tt)
    × Follows codec [] (initial_state 10_000_000) (persisted fresh).1 rolled_in_step window chunk (
        commit_chunk
          (persist_chunk codec)
          (initial_state 10_000_000)
          window
          chunk
          (persisted fresh).1)
    × FinalizedIfComplete (initial_state 10_000_000) (persisted fresh).1
commit_chunk-Follows_example =
    commit_chunk-Follows codec [] (initial_state 10_000_000) (persisted fresh).1 rolled_in_step
      window chunk behind_chunk accepted
