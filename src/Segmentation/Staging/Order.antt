-- ===== src/Segmentation/Staging/Order.antt =====
-- The order of a staged transcript and its validator.
use subgen_english_plex.Common.{
  ℕ, ◌≤◌, ◌≡◌, ◌↔◌, Option, none, some, List, [], ◌∷◌, ok, arith, refl,
}
use subgen_english_plex.Segmentation.Recognition.{StagedWord, StagedSegment}
use subgen_english_plex.Segmentation.Staging.{
  last_end, check_words, check_segment_words, check_segments, validate_monotonic_segments,
}

-- Words that follow one another from `previous`, inside the media.
abbrev pub WordsOrdered : ℕ → ℕ → List StagedWord → Type 0
WordsOrdered media previous [] = Unit {0}
WordsOrdered media previous (v ∷ vs) =
    (previous ≤ v.start) × (v.start ≤ v.end) × (v.end ≤ media) × WordsOrdered media v.end vs

abbrev pub SpansWords : ℕ → StagedSegment → Option (List StagedWord) → Type 0
SpansWords media s none = Unit {0}
SpansWords media s (some []) = Unit {0}
SpansWords media s (some (v ∷ vs)) =
    WordsOrdered media s.start (v ∷ vs) × (s.start ≡ v.start) × (s.end ≡ last_end v.end vs)

-- Segments that follow one another from `previous`, inside the media, each spanned by its words.
abbrev pub SegmentsOrdered : ℕ → ℕ → List StagedSegment → Type 0
SegmentsOrdered media previous [] = Unit {0}
SegmentsOrdered media previous (s ∷ ss) =
    (previous ≤ s.start)
    × (s.start ≤ s.end)
    × (s.end ≤ media)
    × SpansWords media s s.words
    × SegmentsOrdered media s.end ss

words_ordered :
    (media p : ℕ) (vs : List StagedWord) → check_words media p vs ≡ ok tt → WordsOrdered media p vs
unfolding check_words
words_ordered media p [] h = tt
words_ordered media p (v ∷ vs) h = ground (arith, words_ordered media v.end vs)

words_checked :
    (media p : ℕ) (vs : List StagedWord) → WordsOrdered media p vs → check_words media p vs ≡ ok tt
unfolding check_words
words_checked media p [] h = refl
words_checked media p (v ∷ vs) h = ground (arith, words_checked media v.end vs)

spans_words :
    (media : ℕ) (s : StagedSegment) (o : Option (List StagedWord))
    → (check_segment_words media s o ≡ ok tt) ↔ SpansWords media s o
unfolding check_segment_words
spans_words media s none = (λ h. tt, λ h. refl)
spans_words media s (some []) = (λ h. tt, λ h. refl)
spans_words media s (some (v ∷ vs)) = (
  λ h. ground (arith, words_ordered media s.start (v ∷ vs)),
  λ h. ground (arith, words_checked media s.start (v ∷ vs)),
)

segments_ordered :
    (media p : ℕ) (ss : List StagedSegment)
    → check_segments media p ss ≡ ok tt
    → SegmentsOrdered media p ss
unfolding check_segments
segments_ordered media p [] h = tt
segments_ordered media p (s ∷ ss) h =
    ground (arith, (spans_words media s s.words).0, segments_ordered media s.end ss)

segments_checked :
    (media p : ℕ) (ss : List StagedSegment)
    → SegmentsOrdered media p ss
    → check_segments media p ss ≡ ok tt
unfolding check_segments
segments_checked media p [] h = refl
segments_checked media p (s ∷ ss) h =
    ground (arith, (spans_words media s s.words).1, segments_checked media s.end ss)

-- The validator accepts exactly the segment lists in which each segment starts no earlier than the
-- one before it ends, no segment ends before it starts or after the media, and each word list that
-- is not empty is ordered in the same way and spans its segment.
pub validate_monotonic_segments_iff :
    (media : ℕ) (ss : List StagedSegment)
    → (validate_monotonic_segments media ss ≡ ok tt) ↔ SegmentsOrdered media 0 ss
unfolding validate_monotonic_segments
validate_monotonic_segments_iff media ss =
    (segments_ordered media 0 ss, segments_checked media 0 ss)
