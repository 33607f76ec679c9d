-- ===== src/Segmentation/Assembly/Transcript.antt =====
-- The transcript that a sequence of commits leaves in the store.
use mathlib.Core.List.{append-nil, append_assoc}
use subgen_english_plex.Common.{
  ℕ, ◌<◌, ◌≡◌, refl, true, List, [], ◌∷◌, ◌++◌, ok, arith, length, length-append, subst, ap, sym,
  ◌∙◌,
}
use subgen_english_plex.Segmentation.Recognition.{StagedSegment, StagedChunk}
use subgen_english_plex.Segmentation.Window.{ChunkWindow}
use subgen_english_plex.Segmentation.Window.Plan.{IsConsistent}
use subgen_english_plex.Segmentation.Window.Tiling.{Tiles, Tiles-append}
use subgen_english_plex.Segmentation.Staging.Order.{SegmentsOrdered}
use subgen_english_plex.Segmentation.Assembly.{
  AssemblyState, initial_state, last_end, starts_after, advanced, next_state,
}
use subgen_english_plex.Segmentation.Assembly.Commit.{
  IsValid, initial_state-IsValid, next_state_iff, next_state-advanced,
}

abbrev pub Log : Type 0
Log = List (ChunkWindow × StagedChunk)

abbrev pub windows : Log → List ChunkWindow
windows [] = []
windows ((w, c) ∷ l) = w ∷ windows l

abbrev pub transcript : Log → List StagedSegment
transcript [] = []
transcript ((w, c) ∷ l) = c.segments ++ transcript l

-- The states that successful commits reach, with what they committed.
pub data Commits (duration : ℕ) : AssemblyState → Log → Type 0 where
  start : Commits duration (initial_state duration) []
  next :
      {s n : AssemblyState} {l : Log} (w : ChunkWindow) (c : StagedChunk)
      → Commits duration s l
      → IsConsistent w
      → next_state s w c ≡ ok n
      → Commits duration n (l ++ (w, c) ∷ [])

-- How a state describes the content that was committed.
pub record Describes (duration : ℕ) (s : AssemblyState) (l : Log) : Type 0 where
  pub valid : IsValid s
  pub media : s.media_duration ≡ duration
  pub tiled : Tiles duration 0 s.cursor (windows l)
  pub ordered : SegmentsOrdered duration 0 (transcript l)
  pub counted : s.segment_count ≡ length (transcript l)
  pub chunks : s.completed_chunks ≡ length l
  pub last : s.last_segment_end ≡ last_end 0 (transcript l)

SegmentsOrdered-append :
    (media p : ℕ) (xs ys : List StagedSegment)
    → SegmentsOrdered media p xs
    → SegmentsOrdered media 0 ys
    → starts_after (last_end p xs) ys ≡ true
    → SegmentsOrdered media p (xs ++ ys)
SegmentsOrdered-append media p [] [] x y h = tt
SegmentsOrdered-append media p [] (s ∷ ss) x y h = (ground arith, y.1, y.2, y.3, y.4)
SegmentsOrdered-append media p (s ∷ ss) ys x y h =
    (x.0, x.1, x.2, x.3, SegmentsOrdered-append media s.end ss ys x.4 y h)

last_end-append :
    (p : ℕ) (xs ys : List StagedSegment) → last_end p (xs ++ ys) ≡ last_end (last_end p xs) ys
last_end-append p [] ys = refl
last_end-append p (s ∷ ss) ys = last_end-append s.end ss ys

transcript-append :
    (l : Log) (w : ChunkWindow) (c : StagedChunk)
    → transcript (l ++ (w, c) ∷ []) ≡ transcript l ++ c.segments
transcript-append [] w c = append-nil c.segments
transcript-append ((v, d) ∷ l) w c =
    rw (transcript-append l w c) (sym (append_assoc d.segments (transcript l) c.segments))

windows-append :
    (l : Log) (w : ChunkWindow) (c : StagedChunk) → windows (l ++ (w, c) ∷ []) ≡ windows l ++ w ∷ []
windows-append [] w c = refl
windows-append ((v, d) ∷ l) w c = ap (◌∷◌ v) (windows-append l w c)

pub Describes-advanced :
    (duration : ℕ) (s : AssemblyState) (l : Log) (w : ChunkWindow) (c : StagedChunk)
    → Describes duration s l
    → IsConsistent w
    → next_state s w c ≡ ok (advanced s w c)
    → Describes duration (advanced s w c) (l ++ (w, c) ∷ [])
Describes-advanced d s l w c h k e =
    let (fits, valid) = (next_state_iff s w c).0 e in
    record {
      valid = valid;
      media = h.media;
      tiled = rw (windows-append l w c) (
          Tiles-append d 0 s.cursor (windows l) w h.tiled k (fits.same_media ∙ h.media)
            fits.at_cursor);
      ordered = rw (transcript-append l w c) (
          SegmentsOrdered-append d 0 (transcript l) c.segments h.ordered
            (subst (λ m. SegmentsOrdered m 0 c.segments) h.media fits.ordered)
            (subst (λ e. starts_after e c.segments ≡ true) h.last fits.after_last));
      counted =
          rw (transcript-append l w c)
            (omega (arith, length-append (transcript l) c.segments, h.counted));
      chunks = omega (arith, length-append l ((w, c) ∷ []), h.chunks);
      last = rw (transcript-append l w c) (
          rw (last_end-append 0 (transcript l) c.segments)
            (ap (λ e. last_end e c.segments) h.last));
    }

-- Whatever was committed, the windows follow one another from the start of the media to the cursor,
-- the stored segments form one ordered transcript across the chunks, and the state counts its
-- segments and chunks and knows where it ends.
pub Commits-Describes :
    (duration : ℕ) {s : AssemblyState} {l : Log}
    → 0 < duration
    → Commits duration s l
    → Describes duration s l
Commits-Describes d p start = record {
  valid = initial_state-IsValid d p;
  media = refl;
  tiled = refl;
  ordered = tt;
  counted = refl;
  chunks = refl;
  last = refl;
}
Commits-Describes d p (next {s = s} {l = l} w c r k e) =
    let same = next_state-advanced s _ w c e in
    subst (λ n. Describes d n (l ++ (w, c) ∷ [])) (sym same)
      (Describes-advanced d s l w c (Commits-Describes d p r) k
        (subst (λ n. next_state s w c ≡ ok n) same e))
