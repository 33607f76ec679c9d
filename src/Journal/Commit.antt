-- ===== src/Journal/Commit.antt =====
-- `commit_chunk`, `append_segment`, `finalize` and `close` of `SegmentJournal`, with `_commit_record` and `_rollback`.
use subgen_english_plex.Common.{
  ℕ, suc, ◌+◌, Bool, true, false, ◌&&◌, not, Option, none, some, List, [], ◌∷◌, ℤ, pos, negsuc,
  leb_ℤ, length, Result, ok, raise, require, leb, ◌==◌, segmentation_error, type_error,
  non_monotonic_result, segment_journal_error, segment_journal_commit_error,
  segment_journal_poisoned_error, if◌then◌else◌,
}
use subgen_english_plex.Common
use subgen_english_plex.Common.Action.{
  Action, pure, throw, lift, gets, modify, attempt, ◌>>=◌, ◌>>◌,
}
use subgen_english_plex.Segmentation.Number.{Text, Value, text, finite_number}
use subgen_english_plex.Segmentation.Recognition.{Metadata, StagedWord, StagedSegment, StagedChunk}
use subgen_english_plex.Segmentation.Window.{ChunkWindow}
use subgen_english_plex.Segmentation.Assembly.{AssemblyState, last_end}
use subgen_english_plex.Journal.File.{Disk, seek, truncate, write, tell, sync, newline, close_file}
use subgen_english_plex.Journal.{
  JournalRecord, chunk_record, append_record, segments_of, Codec, SegmentJournal, Node, on_disk,
}

-- `_require_usable`, with the journal that passed it.
abbrev pub usable : SegmentJournal → Result (Unit {0})
usable j =
    Common.◌>>◌ (require (not j.closed) segment_journal_error)
      (require (not j.poisoned) segment_journal_poisoned_error)

unfoldable pub require_usable : Action Node SegmentJournal
require_usable = do j ← gets (λ n. n.journal); lift (usable j); pure j

unfoldable pub rollback : ℕ → Action Disk (Unit {0})
unfolding seek truncate sync
rollback offset = do seek offset; truncate offset; sync

unfoldable pub write_parts : List (Result (List ℕ)) → Action Disk (Unit {0})
unfolding write
write_parts [] = pure tt
write_parts (part ∷ parts) = do bs ← lift part; write bs; write_parts parts

-- The `try` of `_commit_record`, with the offset behind the line.
unfoldable pub write_record : List (Result (List ℕ)) → ℕ → Action Disk ℕ
unfolding seek truncate write write_parts sync tell
write_record parts start = do
  seek start
  truncate start
  write_parts parts
  write (newline ∷ [])
  sync
  tell

-- `_segment_has_words`
abbrev pub segment_has_words : StagedSegment → Bool
segment_has_words s = elim s.words [ some (w ∷ ws) ↦ true | _ ↦ false ]

abbrev pub all_have_words : List StagedSegment → Bool
all_have_words [] = true
all_have_words (s ∷ ss) = segment_has_words s && all_have_words ss

-- The last of some segments, or what was there before.
abbrev pub last_of : Option StagedSegment → List StagedSegment → Option StagedSegment
last_of o [] = o
last_of o (s ∷ ss) = last_of (some s) ss

-- The fields behind a record that was written.
abbrev pub recorded : ℕ → List StagedSegment → ℕ → SegmentJournal → SegmentJournal
recorded chunk_delta segments next_offset j = record j {
  committed_offset = next_offset;
  chunk_count = j.chunk_count + chunk_delta;
  segment_count = j.segment_count + length segments;
  last_segment = last_of j.last_segment segments;
  last_segment_end = last_end j.last_segment_end segments;
  all_segments_have_words = j.all_segments_have_words && all_have_words segments;
}

abbrev pub set_journal : (SegmentJournal → SegmentJournal) → Action Node (Unit {0})
set_journal f = modify (λ n. record n { journal = f n.journal })

unfoldable pub rolled_back : Result (Unit {0}) → Action Node (Unit {0})
rolled_back (ok done) = throw segment_journal_commit_error
rolled_back (raise e) = do
  set_journal (λ j. record j { poisoned = true })
  throw segment_journal_poisoned_error

-- What `_commit_record` does behind its `try`, given the fields from before it.
unfoldable pub finish_record :
    SegmentJournal → ℕ → List StagedSegment → Result ℕ → Action Node (Unit {0})
unfolding rollback rolled_back
finish_record j chunk_delta segments (ok next_offset) =
    set_journal (λ _. recorded chunk_delta segments next_offset j)
finish_record j chunk_delta segments (raise e) = do
  r ← attempt (on_disk (rollback j.committed_offset))
  rolled_back r

-- The guards of `commit_chunk`.
abbrev pub chunk_agrees :
    SegmentJournal → ChunkWindow → StagedChunk → AssemblyState → Result (Unit {0})
chunk_agrees j w staged s =
    Common.◌>>◌ (require (w.ordinal == j.chunk_count) segment_journal_error) (
      Common.◌>>◌ (require (s.completed_chunks == suc j.chunk_count) segment_journal_error) (
        Common.◌>>◌ (require (s.cursor == w.core_end) segment_journal_error) (
          Common.◌>>◌
            (require (s.segment_count == (j.segment_count + length staged.segments))
              segment_journal_error)
            (require (s.last_segment_end == last_end j.last_segment_end staged.segments)
              segment_journal_error))))

module _ (c : Codec) where
  -- `_commit_record`
  unfoldable pub commit_record : JournalRecord → ℕ → Action Node (Unit {0})
  unfolding require_usable write_record finish_record
  commit_record r chunk_delta = do
    j ← require_usable
    next ← attempt (on_disk (write_record (c.iterencode r) j.committed_offset))
    finish_record j chunk_delta (segments_of r) next

  -- `commit_chunk` of the journal, the storage callback of an assembly.
  unfoldable pub persist_chunk : ChunkWindow → StagedChunk → AssemblyState → Action Node (Unit {0})
  unfolding require_usable commit_record
  persist_chunk w staged s = do
    j ← require_usable
    lift (chunk_agrees j w staged s)
    commit_record (chunk_record w.ordinal w.core_start w.core_end s.language staged.segments) 1

-- A segment to append, a mapping: what is checked, and what is copied.
pub record AppendedSegment : Type 0 where
  pub start : Value
  pub end : Value
  pub text_value : Value
  pub metadata : Metadata (Option ℤ)
  pub tokens : Option (List ℤ)
  pub words : Option (List StagedWord)

-- The checked fields of an appended segment.
pub record Checked : Type 0 where
  pub start : ℤ
  pub end : ℤ
  pub segment_text : Text

abbrev pub checked_text : Value → Result Text
checked_text (text t) = ok t
checked_text _ = raise segmentation_error

-- `_segment_payload`
unfoldable pub segment_payload : AppendedSegment → Result Checked
segment_payload a = Common.◌>>=◌ (finite_number a.start) (λ start.
    Common.◌>>=◌ (finite_number a.end) (λ end.
      Common.◌>>◌ (require (leb_ℤ start end) non_monotonic_result) (
        Common.◌>>=◌ (checked_text a.text_value)
          (λ t. ok (record { start = start; end = end; segment_text = t })))))

-- A time that is not before the end of what is committed.
abbrev pub not_before : ℕ → ℤ → Result ℕ
not_before last (pos n) = if leb last n then ok n else raise non_monotonic_result
not_before last (negsuc n) = raise non_monotonic_result

-- The payload, with its start behind what is committed; its end is not before its start.
abbrev pub appended_payload : AppendedSegment → Checked → ℕ → StagedSegment
appended_payload a k start = record {
  metadata = a.metadata;
  start = start;
  end = Common.pos_part k.end;
  segment_text = k.segment_text;
  tokens = a.tokens;
  words = a.words;
}

module _ (c : Codec) where
  unfoldable pub append_segment : AppendedSegment → Action Node (Unit {0})
  unfolding require_usable commit_record segment_payload
  append_segment a = do
    k ← lift (segment_payload a)
    j ← require_usable
    start ← lift (not_before j.last_segment_end k.start)
    commit_record c (append_record (appended_payload a k start ∷ [])) 0

abbrev pub ended_journal : SegmentJournal → SegmentJournal
ended_journal j = record j { closed = true }

-- `close`
unfoldable pub close_journal : Action Node (Unit {0})
unfolding close_file
close_journal = do
  j ← gets (λ n. n.journal)
  (if j.closed then pure tt else (do set_journal ended_journal; on_disk close_file))

-- Whether both factories are callable.
abbrev pub has_factories : SegmentJournal → Bool
has_factories j = j.has_result_factory && j.has_segment_factory

-- The guards of `finalize`.
abbrev pub final_agrees : SegmentJournal → AssemblyState → Result (Unit {0})
final_agrees j s = Common.◌>>◌ (require (s.cursor == s.media_duration) segmentation_error) (
    Common.◌>>◌ (require (s.completed_chunks == j.chunk_count) segment_journal_error) (
      Common.◌>>◌ (require (s.segment_count == j.segment_count) segment_journal_error) (
        Common.◌>>◌ (require (s.last_segment_end == j.last_segment_end) segment_journal_error)
          (require (has_factories j) type_error))))

-- `finalize`, up to the result that it constructs.
unfoldable pub finalize : AssemblyState → Action Node (Unit {0})
unfolding require_usable
finalize s = do j ← require_usable; lift (final_agrees j s)
