-- ===== src/Journal/InStep.antt =====
-- An assembly that commits to a journal: its state and the journal stay in step.
use subgen_english_plex.Common.{
  ℕ, suc, ◌+◌, ◌≡◌, refl, sym, ap, ◌∙◌, subst, ◌⊎◌, inl, inr, true, List, [], ◌∷◌, ◌++◌, Result, ok,
  raise, arith, Bool-cases, ◌==◌, require, segmentation_error, type_error, length,
}
use subgen_english_plex.Common
use subgen_english_plex.Common.Action
use subgen_english_plex.Common.Action.{Action, Outcome, resume, lift, pure}
use subgen_english_plex.Segmentation.Recognition.{StagedSegment, StagedChunk}
use subgen_english_plex.Segmentation.Window.{ChunkWindow}
use subgen_english_plex.Segmentation.Assembly.{
  AssemblyState, advanced, next_state, commit_chunk, complete, last_end,
}
use subgen_english_plex.Segmentation.Assembly.Commit.{next_state-advanced}
use subgen_english_plex.Journal.{Codec, SegmentJournal, Node}
use subgen_english_plex.Journal.Commit.{
  usable, persist_chunk, finalize, chunk_agrees, has_factories, final_agrees,
}
use subgen_english_plex.Journal.Reach.{
  Reached, committed, commit_raised, Reached-Keeps, persist_chunk_outcome,
}
use subgen_english_plex.Journal.Turns.{then_lem}
use subgen_english_plex.Journal.Roundtrip.{usable_lem}

equal_test : (m n : ℕ) → m ≡ n → (m == n) ≡ true
equal_test m n h = ground (arith, h)

next_state-ordinal :
    (s s' : AssemblyState) (w : ChunkWindow) (staged : StagedChunk)
    → next_state s w staged ≡ ok s'
    → w.ordinal ≡ s.completed_chunks
unfolding next_state
next_state-ordinal s s' w staged h = ground arith

-- The guards of the journal accept an advanced state.
agrees-advanced :
    (j : SegmentJournal) (s : AssemblyState) (w : ChunkWindow) (staged : StagedChunk)
    → w.ordinal ≡ s.completed_chunks
    → s.completed_chunks ≡ j.chunk_count
    → s.segment_count ≡ j.segment_count
    → s.last_segment_end ≡ j.last_segment_end
    → chunk_agrees j w staged (advanced s w staged) ≡ ok tt
agrees-advanced j s w staged o k m l =
    let numbered = equal_test w.ordinal j.chunk_count (o ∙ k) in
    let counted = equal_test (s.completed_chunks + 1) (suc j.chunk_count) (omega (arith, k)) in
    let reached = equal_test w.core_end w.core_end refl in
    let segments =
      equal_test (s.segment_count + length staged.segments)
        (j.segment_count + length staged.segments) (omega (arith, m)) in
    let last =
      equal_test (last_end s.last_segment_end staged.segments)
        (last_end j.last_segment_end staged.segments) (ap (λ e. last_end e staged.segments) l) in
    rw numbered (rw counted (rw reached (rw segments (rw last refl))))

final-agrees :
    (j : SegmentJournal) (s : AssemblyState)
    → s.completed_chunks ≡ j.chunk_count
    → s.segment_count ≡ j.segment_count
    → s.last_segment_end ≡ j.last_segment_end
    → final_agrees j s
      ≡ Common.◌>>◌ (require (complete s) segmentation_error) (require (has_factories j) type_error)
unfolding complete
final-agrees j s k m l =
    let chunks = equal_test s.completed_chunks j.chunk_count k in
    let segments = equal_test s.segment_count j.segment_count m in
    let last = equal_test s.last_segment_end j.last_segment_end l in
    elim (Bool-cases (s.cursor == s.media_duration)) [
      | inl at_end ↦ rw at_end (rw chunks (rw segments (rw last refl)))
      | inr before ↦ rw before refl
    ]

-- The guards of `finalize`: completeness, and then the factories.
abbrev pub FinalizedIfComplete : AssemblyState → Node → Type 0
FinalizedIfComplete s n = finalize s n ≡ (
  Common.◌>>◌ (require (complete s) segmentation_error)
      (require (has_factories n.journal) type_error),
  n,
)

module _ (c : Codec) where
  -- A usable journal that holds `log`, and the state that counts it.
  pub record InStep (log : List (List StagedSegment)) (s : AssemblyState) (n : Node) : Type 0 where
    pub reached : Reached c n log
    pub usable_now : usable n.journal ≡ ok tt
    pub chunks : s.completed_chunks ≡ n.journal.chunk_count
    pub segments : s.segment_count ≡ n.journal.segment_count
    pub last : s.last_segment_end ≡ n.journal.last_segment_end

  finalize-FinalizedIfComplete :
      (log : List (List StagedSegment)) (s : AssemblyState) (n : Node)
      → InStep log s n
      → FinalizedIfComplete s n
  unfolding finalize complete lift
  finalize-FinalizedIfComplete log s n step =
      then_lem _ _ (usable_lem n step.usable_now)
      ∙ ap (λ r. (r, n)) (final-agrees n.journal s step.chunks step.segments step.last)

  module _ (log : List (List StagedSegment)) (s : AssemblyState) (n : Node) (step : InStep log s n)
      (w : ChunkWindow) (staged : StagedChunk) where
    -- What a commit leaves: the new state in step, or the old one, or a journal that is poisoned.
    abbrev pub Follows : Result AssemblyState × Node → Type 0
    Follows =
        Outcome (λ s' n'. InStep (log ++ staged.segments ∷ []) s' n')
          (λ n'. InStep log s n' ⊎ (n'.journal.poisoned ≡ true))

    persisted :
        (s' : AssemblyState) (r : Result (Unit {0})) (n' : Node)
        → s' ≡ advanced s w staged
        → persist_chunk c w staged s' n ≡ (r, n')
        → Follows (resume (λ u. pure s') (r, n'))
    unfolding pure
    persisted s' (ok u) n' e h =
        let (rs, stored, logs) = Reached-Keeps c step.reached in
        let (next, same) = (persist_chunk_outcome c rs n stored w staged s' (ok tt) n' h).1 in
        record {
          reached = committed w staged s' n' step.reached h;
          usable_now = ap usable same ∙ step.usable_now;
          chunks =
              ap (λ a. a.completed_chunks) e
              ∙ ap (λ k. k + 1) step.chunks
              ∙ sym (ap (λ j. j.chunk_count) same);
          segments =
              ap (λ a. a.segment_count) e
              ∙ ap (λ k. k + length staged.segments) step.segments
              ∙ sym (ap (λ j. j.segment_count) same);
          last =
              ap (λ a. a.last_segment_end) e
              ∙ ap (λ k. last_end k staged.segments) step.last
              ∙ sym (ap (λ j. j.last_segment_end) same);
        }
    persisted s' (raise x) n' e h =
        let (rs, stored, logs) = Reached-Keeps c step.reached in
        elim (persist_chunk_outcome c rs n stored w staged s' (raise x) n' h).0 [
          | inl same ↦ inl (record {
            reached = commit_raised w staged s' x n' step.reached h;
            usable_now = ap usable same ∙ step.usable_now;
            chunks = step.chunks ∙ sym (ap (λ j. j.chunk_count) same);
            segments = step.segments ∙ sym (ap (λ j. j.segment_count) same);
            last = step.last ∙ sym (ap (λ j. j.last_segment_end) same);
          })
          | inr same ↦ inr (ap (λ j. j.poisoned) same)
        ]

    agreed :
        (s' : AssemblyState)
        → next_state s w staged ≡ ok s'
        → chunk_agrees n.journal w staged s' ≡ ok tt
    agreed s' h =
        subst (λ a. chunk_agrees n.journal w staged a ≡ ok tt)
          (sym (next_state-advanced s s' w staged h))
          (agrees-advanced n.journal s w staged (next_state-ordinal s s' w staged h) step.chunks
            step.segments step.last)

    -- From a state in step with the journal, a commit that the assembly accepts passes the guards of the
    -- journal. If it returns, the new state is in step, with the segments of the chunk behind what was
    -- stored; if it raises, the old state is in step with what was stored before, or the journal is
    -- poisoned. And the guards of the end of the journal accept a state in step exactly if it is
    -- complete and both factories are callable.
    pub commit_chunk-Follows :
        (s' : AssemblyState)
        → next_state s w staged ≡ ok s'
        → (chunk_agrees n.journal w staged s' ≡ ok tt)
          × Follows (commit_chunk (persist_chunk c) s w staged n)
          × FinalizedIfComplete s n
    unfolding commit_chunk lift Action.◌>>=◌
    commit_chunk-Follows s' h =
        let (r, n') = persist_chunk c w staged s' n in
        (
          agreed s' h,
          rw h (persisted s' r n' (next_state-advanced s s' w staged h) refl),
          finalize-FinalizedIfComplete log s n step,
        )
