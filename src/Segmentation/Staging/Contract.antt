-- ===== src/Segmentation/Staging/Contract.antt =====
-- What `stage_chunk_result` promises to the commit.
use subgen_english_plex.Common.{
  ℕ, ◌+◌, ◌≤◌, ◌<◌, ◌≡◌, refl, List, [], ◌∷◌, none, All, Ensures, Ensures-then, ok, ◌>>=◌, length,
  ensured, through, arith,
}
use subgen_english_plex.Segmentation.Recognition.{StagedWord, StagedSegment, StagedChunk, RawResult}
use subgen_english_plex.Segmentation.Copy.{structured_sequence}
use subgen_english_plex.Segmentation.Window.{ChunkWindow}
use subgen_english_plex.Segmentation.Window.Plan.{IsConsistent}
use subgen_english_plex.Segmentation.Window.Tiling.{Tiles, owners, owners_one}
use subgen_english_plex.Segmentation.Staging.{
  own_words, stage_segments, validate_monotonic_segments, chunk_language, stage_chunk_result,
}
use subgen_english_plex.Segmentation.Staging.Order.{
  SegmentsOrdered, validate_monotonic_segments_iff,
}
use subgen_english_plex.Segmentation.Staging.Ownership.{InCore, stage_segments-InCore}

-- A chunk that may be committed for the window `w`.
pub record IsStaged (w : ChunkWindow) (c : StagedChunk) : Type 0 where
  pub in_core : All (InCore w) c.segments
  pub ordered : SegmentsOrdered w.media_duration 0 c.segments
  pub silent : c.segments ≡ [] → c.language ≡ none

unit_same : (u : Unit {0}) → u ≡ tt
unit_same tt = refl

silent_language :
    (w : ChunkWindow) (r : RawResult) (ss : List StagedSegment)
    → All (InCore w) ss
    → SegmentsOrdered w.media_duration 0 ss
    → Ensures (IsStaged w) (do
      language ← chunk_language r.language ss
      ok (record { language = language; segments = ss }))
unfolding chunk_language
silent_language w r [] a o = record { in_core = tt; ordered = tt; silent = λ e. refl }
silent_language w r (s ∷ ss) a o =
    Ensures-then (IsStaged w) (chunk_language r.language (s ∷ ss)) _
      λ l. record { in_core = a; ordered = o; silent = λ e. absurd (cc) }

-- Whatever the recogniser returned, a chunk that staging accepts for a consistent window has all its
-- segments and words inside the core of the window, in order and spanned by their words, and it has
-- no language if it has no segment.
pub stage_chunk_result-IsStaged :
    (r : RawResult) (w : ChunkWindow) (c : StagedChunk)
    → IsConsistent w
    → stage_chunk_result r w ≡ ok c
    → IsStaged w c
unfolding stage_chunk_result
stage_chunk_result-IsStaged r w c k e =
    let (items, got, e1) = through (structured_sequence r.segments) _ _ e in
    let (ss, staged, e2) = through (stage_segments w items) _ _ e1 in
    let (u, checked, e3) = through (validate_monotonic_segments w.media_duration ss) _ _ e2 in
    ensured (IsStaged w) _ c
      (silent_language w r ss
        (ensured (All (InCore w)) (stage_segments w items) ss (stage_segments-InCore w items k)
          staged)
        ((validate_monotonic_segments_iff w.media_duration ss).0 (cc (checked, unit_same u))))
      e3

-- In how many of the chunks of the windows a word of the source would be published.
abbrev pub publications : List ChunkWindow → StagedWord → ℕ
publications [] v = 0
publications (w ∷ ws) v = length (own_words w (v ∷ [])) + publications ws v

publications-owners :
    (ws : List ChunkWindow) (v : StagedWord) → publications ws v ≡ owners ws (v.start + v.end)
unfolding owners own_words
publications-owners [] v = refl
publications-owners (w ∷ ws) v = ground (arith, publications-owners ws v)

-- In windows that tile the whole of the media, a word inside the media that every window hears alike
-- is published by exactly one of them.
pub published_once :
    (duration : ℕ) (ws : List ChunkWindow) (v : StagedWord)
    → 0 < duration
    → Tiles duration 0 duration ws
    → v.start ≤ v.end
    → v.end ≤ duration
    → publications ws v ≡ 1
published_once d ws v p t h k =
    ground (arith, publications-owners ws v, owners_one d (v.start + v.end) ws p t (omega arith))
