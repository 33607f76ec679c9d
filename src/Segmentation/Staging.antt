-- ===== src/Segmentation/Staging.antt =====
-- Staging of subgen_core/segmentation.py: a recognition result is copied, moved onto the source
-- timeline, reduced to what the window owns, and validated before anything is committed.
pub mod Order
pub mod Ownership
pub mod Contract
use subgen_english_plex.Common.{
  ℕ, ◌+◌, Bool, ◌&&◌, ◌||◌, Option, none, some, List, [], ◌∷◌, ◌++◌, reverse, ℤ, pos, ◌+ℤ◌, min,
  max, Result, ok, raise, ◌>>=◌, ◌>>◌, require, segmentation_error, non_monotonic_result, leb, ◌==◌,
  if◌then◌else◌,
}
use subgen_english_plex.Segmentation.Number.{Text, Value, text, null, finite_number}
use subgen_english_plex.Segmentation.Recognition.{
  Field, missing, no_value, malformed, items, Metadata, RawWord, RawSegment, RawItem, not_segment,
  segment, RawResult, StagedWord, StagedSegment, StagedChunk,
}
use subgen_english_plex.Segmentation.Copy.{
  structured_sequence, segment_tokens, copy_segment_metadata, copy_words, flatten_owned_tokens,
  validated_interval, string_value,
}
use subgen_english_plex.Segmentation.Window.{ChunkWindow, owns_midpoint}

-- `_clamp_owned_interval_to_core`, on a word.
unfoldable pub clamp_word : ChunkWindow → StagedWord → StagedWord
clamp_word w v = record v { start = max v.start w.core_start; end = min v.end w.core_end }

-- The comprehension of `owned_words` and the clamping loop behind it.
unfoldable pub own_words : ChunkWindow → List StagedWord → List StagedWord
unfolding clamp_word
own_words w [] = []
own_words w (v ∷ vs) =
    let rest = own_words w vs in
    if owns_midpoint w (v.start + v.end) then clamp_word w v ∷ rest else rest

abbrev pub last_end : ℕ → List StagedWord → ℕ
last_end e [] = e
last_end e (v ∷ vs) = last_end v.end vs

unfoldable pub join_words : List StagedWord → Text
join_words [] = []
join_words (v ∷ vs) = v.word_text ++ join_words vs

-- The payload of a segment that carries words.
unfoldable pub word_payload : Metadata (Option ℤ) → List StagedWord → Option StagedSegment
unfolding join_words
word_payload m [] = none
word_payload m (v ∷ vs) = some (record {
  metadata = m;
  start = v.start;
  end = last_end v.end vs;
  segment_text = join_words (v ∷ vs);
  tokens = flatten_owned_tokens (v ∷ vs);
  words = some (v ∷ vs);
})

-- The part of `_stage_segment` for a segment whose words are absent or empty.
-- `no_words` is what the payload's `words` become.
unfoldable pub stage_plain :
    ChunkWindow
    → RawSegment
    → Metadata (Option ℤ)
    → Option (List StagedWord)
    → Text
    → Result (Option StagedSegment)
unfolding finite_number validated_interval
stage_plain w s m no_words [] = ok none
stage_plain w s m no_words (c ∷ cs) = do
  local_start ← finite_number s.start
  local_end ← finite_number s.end
  (start, end) ←
      validated_interval (local_start +ℤ pos w.extract_start) (local_end +ℤ pos w.extract_start)
        w.media_duration
  tokens ← (if owns_midpoint w (start + end) then segment_tokens s.tokens else ok none)
  ok (
      if owns_midpoint w (start + end)
      then some (record {
        metadata = m;
        start = max start w.core_start;
        end = min end w.core_end;
        segment_text = c ∷ cs;
        tokens = tokens;
        words = no_words;
      })
      else none)

-- `source.get("text", "")`, which must be a string.
abbrev pub segment_text_value : Option Value → Result Text
segment_text_value none = ok []
segment_text_value (some v) = string_value v

-- `_stage_segment` behind the metadata, by the words that the segment has.
unfoldable pub stage_by_words :
    ChunkWindow → RawSegment → Metadata (Option ℤ) → Field RawWord → Result (Option StagedSegment)
unfolding stage_plain word_payload own_words
stage_by_words w s m missing = do t ← segment_text_value s.text_value; stage_plain w s m none t
stage_by_words w s m no_value = do t ← segment_text_value s.text_value; stage_plain w s m none t
stage_by_words w s m malformed = raise segmentation_error
stage_by_words w s m (items []) = do
  t ← segment_text_value s.text_value
  stage_plain w s m (some []) t
stage_by_words w s m (items (v ∷ vs)) = do
  copied ← copy_words w.extract_start w.media_duration (v ∷ vs)
  ok (word_payload m (own_words w copied))

-- `_stage_segment`
unfoldable pub stage_segment : ChunkWindow → RawItem → Result (Option StagedSegment)
unfolding stage_by_words
stage_segment w not_segment = raise segmentation_error
stage_segment w (segment s) = do m ← copy_segment_metadata s.metadata; stage_by_words w s m s.words

unfoldable pub stage_segments : ChunkWindow → List RawItem → Result (List StagedSegment)
stage_segments w [] = ok []
stage_segments w (s ∷ ss) = do
  payload ← stage_segment w s
  rest ← stage_segments w ss
  ok (elim payload [ none ↦ rest | some p ↦ p ∷ rest ])

-- The inner loop of `_validate_monotonic_segments`, over the words of one segment.
unfoldable pub check_words : ℕ → ℕ → List StagedWord → Result (Unit {0})
check_words media_duration previous [] = ok tt
check_words media_duration previous (v ∷ vs) = do
  require (leb v.start v.end && leb v.end media_duration) non_monotonic_result
  require (leb previous v.start) non_monotonic_result
  check_words media_duration v.end vs

-- The words of a segment: their order, and that they span the segment.
unfoldable pub check_segment_words :
    ℕ → StagedSegment → Option (List StagedWord) → Result (Unit {0})
unfolding check_words
check_segment_words media_duration s none = ok tt
check_segment_words media_duration s (some []) = ok tt
check_segment_words media_duration s (some (v ∷ vs)) = do
  check_words media_duration s.start (v ∷ vs)
  require (s.start == v.start && s.end == last_end v.end vs) non_monotonic_result

-- The loop of `_validate_monotonic_segments` from `previous_segment_end`.
unfoldable pub check_segments : ℕ → ℕ → List StagedSegment → Result (Unit {0})
unfolding check_segment_words
check_segments media_duration previous [] = ok tt
check_segments media_duration previous (s ∷ ss) = do
  require (leb s.start s.end && leb s.end media_duration) non_monotonic_result
  require (leb previous s.start) non_monotonic_result
  check_segment_words media_duration s s.words
  check_segments media_duration s.end ss

-- `_validate_monotonic_segments`
unfoldable pub validate_monotonic_segments : ℕ → List StagedSegment → Result (Unit {0})
unfolding check_segments
validate_monotonic_segments media_duration segments = check_segments media_duration 0 segments

-- The characters that `str.strip` removes.
unfoldable pub is_space : ℕ → Bool
is_space c =
    (leb 9 c && leb c 13)
    || (leb 28 c && leb c 32)
    || c == 133
    || c == 160
    || c == 5760
    || (leb 8192 c && leb c 8202)
    || (leb 8232 c && leb c 8233)
    || c == 8239
    || c == 8287
    || c == 12288

unfoldable pub strip_left : Text → Text
unfolding is_space
strip_left [] = []
strip_left (c ∷ cs) = let rest = strip_left cs in if is_space c then rest else c ∷ cs

-- `str.strip`
unfoldable pub strip : Text → Text
unfolding strip_left
strip t = reverse (strip_left (reverse (strip_left t)))

-- `normalized or None`
abbrev pub text_or_none : Text → Option Text
text_or_none [] = none
text_or_none (c ∷ cs) = some (c ∷ cs)

-- `_normalized_language`
unfoldable pub normalized_language : Value → Result (Option Text)
unfolding strip
normalized_language null = ok none
normalized_language (text t) = ok (text_or_none (strip t))
normalized_language _ = raise segmentation_error

-- The language is read only from a chunk that has segments.
unfoldable pub chunk_language : Value → List StagedSegment → Result (Option Text)
chunk_language v [] = ok none
chunk_language v (s ∷ ss) = normalized_language v

-- `stage_chunk_result`
unfoldable pub stage_chunk_result : RawResult → ChunkWindow → Result StagedChunk
unfolding chunk_language
stage_chunk_result result w = do
  source_segments ← structured_sequence result.segments
  staged_segments ← stage_segments w source_segments
  validate_monotonic_segments w.media_duration staged_segments
  language ← chunk_language result.language staged_segments
  ok (record { language = language; segments = staged_segments })
