-- ===== src/Segmentation/Staging/Ownership.antt =====
-- What a window publishes, and its core.
use subgen_english_plex.Common.{
  ℕ, ◌+◌, ◌≤◌, ◌≡◌, true, Bool-cases, inl, inr, Option, none, some, List, [], ◌∷◌, All, ok, arith,
  if◌then◌else◌, min, max, ℤ, pos, ◌+ℤ◌, Ensures, Ensures-then, Ensures-bind,
}
use subgen_english_plex.Segmentation.Number.{Text, finite_number}
use subgen_english_plex.Segmentation.Recognition.{
  Field, missing, no_value, malformed, items, Metadata, RawWord, not_mapping, word, RawSegment,
  RawItem, not_segment, segment, StagedWord, StagedSegment,
}
use subgen_english_plex.Segmentation.Copy.{
  copy_word, copy_words, copy_optional_real, copy_tokens, string_value, copy_segment_metadata,
  segment_tokens, validated_interval,
}
use subgen_english_plex.Segmentation.Window.{ChunkWindow, owns_midpoint}
use subgen_english_plex.Segmentation.Window.Plan.{IsConsistent}
use subgen_english_plex.Segmentation.Staging.{
  own_words, clamp_word, last_end, word_payload, stage_plain, stage_by_words, stage_segment,
  stage_segments, segment_text_value,
}

abbrev pub WordInCore : ChunkWindow → StagedWord → Type 0
WordInCore w v =
    (w.core_start ≤ v.start)
    × (v.start ≤ w.core_end)
    × (w.core_start ≤ v.end)
    × (v.end ≤ w.core_end)

abbrev pub WordsInCore : ChunkWindow → Option (List StagedWord) → Type 0
WordsInCore w none = Unit {0}
WordsInCore w (some vs) = All (WordInCore w) vs

-- A segment, and each of its words, inside the core of the window.
pub record InCore (w : ChunkWindow) (s : StagedSegment) : Type 0 where
  pub starts : w.core_start ≤ s.start
  pub ends : s.end ≤ w.core_end
  pub words_inside : WordsInCore w s.words

abbrev PayloadInCore : ChunkWindow → Option StagedSegment → Type 0
PayloadInCore w none = Unit {0}
PayloadInCore w (some s) = InCore w s

-- Copied words are intervals that do not run backwards.
abbrev Forward : StagedWord → Type 0
Forward v = v.start ≤ v.end

validated_interval-le :
    (start end : ℤ) (media : ℕ)
    → Ensures (λ p. (p.0 ≤ p.1) × (p.1 ≤ media)) (validated_interval start end media)
unfolding validated_interval
validated_interval-le start end media = ground arith

copy_word-Forward : (offset media : ℕ) (v : RawWord) → Ensures Forward (copy_word offset media v)
unfolding copy_word
copy_word-Forward offset media not_mapping = tt
copy_word-Forward offset media (word t s e p ts) = Ensures-then Forward (string_value t) _ λ t'.
    Ensures-then Forward (finite_number s) _ λ s'. Ensures-then Forward (finite_number e) _ λ e'.
      Ensures-bind (λ p. (p.0 ≤ p.1) × (p.1 ≤ media)) Forward _ _
        (validated_interval-le (s' +ℤ pos offset) (e' +ℤ pos offset) media)
        λ i hi.
          Ensures-then Forward (copy_optional_real p) _
            λ p'. Ensures-then Forward (copy_tokens ts) _ λ ts'. hi.0

copy_words-Forward :
    (offset media : ℕ) (ws : List RawWord) → Ensures (All Forward) (copy_words offset media ws)
unfolding copy_words
copy_words-Forward offset media [] = tt
copy_words-Forward offset media (v ∷ vs) =
    Ensures-bind Forward (All Forward) (copy_word offset media v) _
      (copy_word-Forward offset media v)
      λ a ha.
        Ensures-bind (All Forward) (All Forward) (copy_words offset media vs) _
          (copy_words-Forward offset media vs) λ rest hr. (ha, hr)

owned_in_core :
    (w : ChunkWindow) (v : StagedWord)
    → IsConsistent w
    → Forward v
    → owns_midpoint w (v.start + v.end) ≡ true
    → WordInCore w (clamp_word w v)
unfolding owns_midpoint clamp_word
owned_in_core w v c h owned = ground arith

own_words-in_core :
    (w : ChunkWindow) (vs : List StagedWord)
    → IsConsistent w
    → All Forward vs
    → All (WordInCore w) (own_words w vs)
unfolding own_words
own_words-in_core w [] c h = tt
own_words-in_core w (v ∷ vs) c h = elim (Bool-cases (owns_midpoint w (v.start + v.end))) [
  | inl owned ↦ rw owned (owned_in_core w v c h.0 owned, own_words-in_core w vs c h.1)
  | inr other ↦ rw other (own_words-in_core w vs c h.1)
]

last_end-in_core :
    (w : ChunkWindow) (e : ℕ) (vs : List StagedWord)
    → e ≤ w.core_end
    → All (WordInCore w) vs
    → last_end e vs ≤ w.core_end
last_end-in_core w e [] h a = h
last_end-in_core w e (v ∷ vs) h a = last_end-in_core w v.end vs a.0.3 a.1

word_payload-in_core :
    (w : ChunkWindow) (m : Metadata (Option ℤ)) (vs : List StagedWord)
    → All (WordInCore w) vs
    → PayloadInCore w (word_payload m vs)
unfolding word_payload
word_payload-in_core w m [] h = tt
word_payload-in_core w m (v ∷ vs) h = record {
  starts = h.0.0;
  ends = last_end-in_core w v.end vs h.0.3 h.1;
  words_inside = h;
}

publish_plain-in_core :
    (w : ChunkWindow) (m : Metadata (Option ℤ)) (o : Option (List StagedWord)) (t : Text)
    (ts : Option (List ℤ)) (start end : ℕ)
    → WordsInCore w o
    → PayloadInCore w (
        if owns_midpoint w (start + end)
        then some (record {
          metadata = m;
          start = max start w.core_start;
          end = min end w.core_end;
          segment_text = t;
          tokens = ts;
          words = o;
        })
        else none)
publish_plain-in_core w m o t ts start end h = elim (Bool-cases (owns_midpoint w (start + end))) [
  | inl owned ↦ rw owned (record { starts = omega arith; ends = omega arith; words_inside = h })
  | inr other ↦ rw other tt
]

stage_plain-in_core :
    (w : ChunkWindow) (s : RawSegment) (m : Metadata (Option ℤ)) (o : Option (List StagedWord))
    (t : Text)
    → WordsInCore w o
    → Ensures (PayloadInCore w) (stage_plain w s m o t)
unfolding stage_plain
stage_plain-in_core w s m o [] h = tt
stage_plain-in_core w s m o (c ∷ cs) h =
    Ensures-then (PayloadInCore w) (finite_number s.start) _ λ s'.
      Ensures-then (PayloadInCore w) (finite_number s.end) _ λ e'.
        Ensures-then (PayloadInCore w)
          (validated_interval (s' +ℤ pos w.extract_start) (e' +ℤ pos w.extract_start)
            w.media_duration)
          _
          λ i.
            Ensures-then (PayloadInCore w)
              (if owns_midpoint w (i.0 + i.1) then segment_tokens s.tokens else ok none) _
              λ ts. publish_plain-in_core w m o (c ∷ cs) ts i.0 i.1 h

stage_by_words-in_core :
    (w : ChunkWindow) (s : RawSegment) (m : Metadata (Option ℤ)) (f : Field RawWord)
    → IsConsistent w
    → Ensures (PayloadInCore w) (stage_by_words w s m f)
unfolding stage_by_words
stage_by_words-in_core w s m missing c =
    Ensures-then (PayloadInCore w) (segment_text_value s.text_value) _
      λ t. stage_plain-in_core w s m none t tt
stage_by_words-in_core w s m no_value c =
    Ensures-then (PayloadInCore w) (segment_text_value s.text_value) _
      λ t. stage_plain-in_core w s m none t tt
stage_by_words-in_core w s m malformed c = tt
stage_by_words-in_core w s m (items []) c =
    Ensures-then (PayloadInCore w) (segment_text_value s.text_value) _
      λ t. stage_plain-in_core w s m (some []) t tt
stage_by_words-in_core w s m (items (v ∷ vs)) c =
    Ensures-bind (All Forward) (PayloadInCore w)
      (copy_words w.extract_start w.media_duration (v ∷ vs)) _
      (copy_words-Forward w.extract_start w.media_duration (v ∷ vs))
      λ copied h. word_payload-in_core w m (own_words w copied) (own_words-in_core w copied c h)

stage_segment-in_core :
    (w : ChunkWindow) (i : RawItem) → IsConsistent w → Ensures (PayloadInCore w) (stage_segment w i)
unfolding stage_segment
stage_segment-in_core w not_segment c = tt
stage_segment-in_core w (segment s) c =
    Ensures-then (PayloadInCore w) (copy_segment_metadata s.metadata) _
      λ m. stage_by_words-in_core w s m s.words c

add_payload :
    (w : ChunkWindow) (p : Option StagedSegment) (rest : List StagedSegment)
    → PayloadInCore w p
    → All (InCore w) rest
    → All (InCore w) (elim p [ none ↦ rest | some q ↦ q ∷ rest ])
add_payload w none rest h r = r
add_payload w (some q) rest h r = (h, r)

pub stage_segments-InCore :
    (w : ChunkWindow) (ss : List RawItem)
    → IsConsistent w
    → Ensures (All (InCore w)) (stage_segments w ss)
unfolding stage_segments
stage_segments-InCore w [] c = tt
stage_segments-InCore w (s ∷ ss) c =
    Ensures-bind (PayloadInCore w) (All (InCore w)) (stage_segment w s) _
      (stage_segment-in_core w s c)
      λ p hp.
        Ensures-bind (All (InCore w)) (All (InCore w)) (stage_segments w ss) _
          (stage_segments-InCore w ss c) λ rest hr. add_payload w p rest hp hr
