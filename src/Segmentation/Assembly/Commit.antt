-- ===== src/Segmentation/Assembly/Commit.antt =====
-- What a commit accepts, and the staged chunk of the planned window.
use subgen_english_plex.Common.{
  ℕ, ◌+◌, ◌≤◌, ◌<◌, ◌≡◌, ◌↔◌, refl, true, List, [], ◌∷◌, ok, All, arith, length, subst,
}
use subgen_english_plex.Segmentation.Recognition.{StagedSegment, StagedChunk}
use subgen_english_plex.Segmentation.Window.{ChunkWindow}
use subgen_english_plex.Segmentation.Window.Plan.{IsNext}
use subgen_english_plex.Segmentation.Staging.Order.{
  SegmentsOrdered, validate_monotonic_segments_iff,
}
use subgen_english_plex.Segmentation.Staging.Ownership.{InCore}
use subgen_english_plex.Segmentation.Staging.Contract.{IsStaged}
use subgen_english_plex.Segmentation.Assembly.{
  AssemblyState, checked_state, initial_state, last_end, starts_after, advanced, next_state,
}

-- What `AssemblyState.__post_init__` checks.
pub record IsValid (s : AssemblyState) : Type 0 where
  pub media : 0 < s.media_duration
  pub inside : s.cursor ≤ s.media_duration
  pub behind : s.last_segment_end ≤ s.cursor
  pub empty : s.segment_count ≡ 0 → s.last_segment_end ≡ 0

checked_state_iff : (s : AssemblyState) → (checked_state s ≡ ok s) ↔ IsValid s
unfolding checked_state
checked_state_iff s = (λ h. ground arith, λ h. ground arith)

pub initial_state-IsValid : (d : ℕ) → 0 < d → IsValid (initial_state d)
initial_state-IsValid d h = omega arith

-- Where a commit may follow a state.
pub record Continues (s : AssemblyState) (w : ChunkWindow) (c : StagedChunk) : Type 0 where
  pub same_media : w.media_duration ≡ s.media_duration
  pub in_turn : w.ordinal ≡ s.completed_chunks
  pub at_cursor : w.core_start ≡ s.cursor
  pub ordered : SegmentsOrdered s.media_duration 0 c.segments
  pub after_last : starts_after s.last_segment_end c.segments ≡ true

-- A commit goes as far as its storage callback exactly if the window continues the state, the
-- segments are ordered and start no earlier than the last committed segment ends, and the new state
-- is valid; the new state is then the advanced one.
pub next_state_iff :
    (s : AssemblyState) (w : ChunkWindow) (c : StagedChunk)
    → (next_state s w c ≡ ok (advanced s w c)) ↔ (Continues s w c × IsValid (advanced s w c))
unfolding next_state
next_state_iff s w c = (
  λ h. ground (arith, (validate_monotonic_segments_iff s.media_duration c.segments).0),
  λ h. ground (arith, (validate_monotonic_segments_iff s.media_duration c.segments).1),
)

-- Behind any result of `next_state` is the advanced state.
pub next_state-advanced :
    (s n : AssemblyState) (w : ChunkWindow) (c : StagedChunk)
    → next_state s w c ≡ ok n
    → n ≡ advanced s w c
unfolding next_state
next_state-advanced s n w c h = ground arith

last_end-le :
    (w : ChunkWindow) (e : ℕ) (ss : List StagedSegment)
    → e ≤ w.core_end
    → All (InCore w) ss
    → last_end e ss ≤ w.core_end
last_end-le w e [] h a = h
last_end-le w e (s ∷ ss) h a = last_end-le w s.end ss a.0.ends a.1

starts_after-core :
    (w : ChunkWindow) (e : ℕ) (ss : List StagedSegment)
    → e ≤ w.core_start
    → All (InCore w) ss
    → starts_after e ss ≡ true
starts_after-core w e [] h a = refl
starts_after-core w e (s ∷ ss) h a =
    let starts : w.core_start ≤ s.start = a.0.starts in ground arith

empty_end :
    (n e : ℕ) (ss : List StagedSegment) → (n ≡ 0 → e ≡ 0) → n + length ss ≡ 0 → last_end e ss ≡ 0
empty_end n e [] h z = h (omega arith)
empty_end n e (s ∷ ss) h z = absurd (omega arith)

-- From a valid state whose media is not finished, a chunk staged for the window that is planned at the
-- cursor commits, and the new state is valid, with its cursor at the end of the window.
pub staged_commits :
    (s : AssemblyState) (seconds overlap : ℕ) (w : ChunkWindow) (c : StagedChunk)
    → IsValid s
    → IsNext s.cursor s.media_duration seconds s.completed_chunks overlap w
    → IsStaged w c
    → (next_state s w c ≡ ok (advanced s w c)) × IsValid (advanced s w c)
staged_commits s seconds overlap w c v n g =
    let valid : IsValid (advanced s w c) = record {
      media = v.media;
      inside = omega arith;
      behind = last_end-le w s.last_segment_end c.segments (omega arith) g.in_core;
      empty = empty_end s.segment_count s.last_segment_end c.segments v.empty;
    } in
    let continues : Continues s w c = record {
      same_media = n.whole;
      in_turn = n.numbered;
      at_cursor = n.starts;
      ordered = subst (λ m. SegmentsOrdered m 0 c.segments) n.whole g.ordered;
      after_last = starts_after-core w s.last_segment_end c.segments (omega arith) g.in_core;
    } in
    ((next_state_iff s w c).1 (continues, valid), valid)
