-- ===== src/Journal/Calls.antt =====
-- What the calls that write leave of a journal, whether they return or raise.
use subgen_english_plex.Common.{
  ℕ, ◌≡◌, refl, sym, subst, inl, inr, List, [], ◌∷◌, ◌++◌, Result, ok, raise, arith, Bool-cases,
  ◌==◌,
}
use subgen_english_plex.Common.Action.{
  Action, Holds, Holds-bind, Holds-gets, Holds-lift, Holds-pure, Holds-to, Holds-known,
  Holds-raised, Outcome, attempt, lift, ◌>>=◌, ◌>>◌,
}
use subgen_english_plex.Segmentation.Recognition.{StagedSegment, StagedChunk}
use subgen_english_plex.Segmentation.Window.{ChunkWindow}
use subgen_english_plex.Segmentation.Assembly.{AssemblyState}
use subgen_english_plex.Journal.{
  JournalRecord, chunk_record, append_record, segments_of, Codec, SegmentJournal, Node, on_disk,
}
use subgen_english_plex.Journal.Commit.{
  recorded, require_usable, write_record, finish_record, commit_record, chunk_agrees, persist_chunk,
  AppendedSegment, Checked, segment_payload, not_before, appended_payload, append_segment,
}
use subgen_english_plex.Journal.Writing.{At, Kept}
use subgen_english_plex.Journal.Committing.{Beside, Undone, recording_lem}
use subgen_english_plex.Journal.Records.{lines, Continues, IsStored, Committed-IsStored}

module _ {S A B : Type 0} {P R : S → Type 0} {Q : B → S → Type 0} where
  -- A check, and what follows if it returns.
  Holds-checked :
      (r : Result A) (f : A → Action S B)
      → ((s : S) → P s → R s)
      → ((a : A) → r ≡ ok a → Holds P (f a) Q R)
      → Holds P (lift r >>= f) Q R
  Holds-checked (ok a) f h k = Holds-known (ok a) f a refl (k a refl)
  Holds-checked (raise e) f h k = Holds-raised e f h

module _ {X R : Node → Type 0} where
  -- The guard of a usable journal, whose fields are `j`.
  pub require_usable_lem :
      (j : SegmentJournal)
      → ((n : Node) → X n → n.journal ≡ j)
      → ((n : Node) → X n → R n)
      → Holds X require_usable (λ i n. (i ≡ j) × X n) R
  unfolding require_usable
  require_usable_lem j same h =
      Holds-bind _ _ (Holds-gets {Q = λ i n. (i ≡ j) × X n} _ (λ n x. (same n x, x))) λ i.
        Holds-bind _ _ (Holds-lift {Q = λ u n. (i ≡ j) × X n} _ (λ u n e x. x) (λ n x. h n x.1))
          λ u. Holds-pure i (λ n x. x)

  pub at_journal :
      {B : Type 0} {Q : B → Node → Type 0} (j i : SegmentJournal)
      (f : SegmentJournal → Action Node B)
      → Holds X (f j) Q R
      → Holds (λ n. (i ≡ j) × X n) (f i) Q R
  at_journal {Q = Q} j i f h = record {
    at = λ n x. subst (λ k. Outcome Q R (f k n)) (sym x.0) (h.at n x.1);
  }

agreed_ordinal :
    (j : SegmentJournal) (w : ChunkWindow) (staged : StagedChunk) (s : AssemblyState) (u : Unit {0})
    → chunk_agrees j w staged s ≡ ok u
    → w.ordinal ≡ j.chunk_count
agreed_ordinal j w staged s u h = elim (Bool-cases (w.ordinal == j.chunk_count)) [
  | inl same ↦ ground arith
  | inr other ↦ absurd (ground arith)
]

module _ (c : Codec) (rs : List JournalRecord) (n : Node) (stored : IsStored c rs n) where
  abbrev pub Same : Node → Type 0
  Same = Beside n.journal (At (Kept (lines c rs)))

  abbrev pub Left : Node → Type 0
  Left = Undone (lines c rs) n.journal

  left : (n' : Node) → Same n' → Left n'
  left n' h = (inl h.0, h.1)

  -- The fields behind a record that was written.
  abbrev pub Marked : ℕ → List StagedSegment → Node → Type 0
  Marked delta segments n' = (next : ℕ) × (n'.journal ≡ recorded delta segments next n.journal)

  commit_record_lem :
      (r : JournalRecord) (delta : ℕ)
      → Continues r n.journal.chunk_count delta
      → Holds Same
          (commit_record c r delta)
          (λ u n'. IsStored c (rs ++ r ∷ []) n' × Marked delta (segments_of r) n')
          Left
  unfolding commit_record
  commit_record_lem r delta follows =
      Holds-to _ (λ u n' h. (Committed-IsStored c rs n stored r delta n' follows h, (h.0, h.2)))
        (Holds-bind _ _ (require_usable_lem n.journal (λ m h. h.0) left) λ i.
          at_journal n.journal i
            (λ j.
              attempt (on_disk (write_record (c.iterencode r) j.committed_offset))
              >>= finish_record j delta (segments_of r))
            (recording_lem (lines c rs) n.journal r delta (c.iterencode r) stored.offset))

  abbrev pub chunk_of : ChunkWindow → StagedChunk → AssemblyState → JournalRecord
  chunk_of w staged s = chunk_record w.ordinal w.core_start w.core_end s.language staged.segments

  pub persist_chunk_lem :
      (w : ChunkWindow) (staged : StagedChunk) (s : AssemblyState)
      → Holds Same
          (persist_chunk c w staged s)
          (λ u n'. IsStored c (rs ++ chunk_of w staged s ∷ []) n' × Marked 1 staged.segments n')
          Left
  unfolding persist_chunk
  persist_chunk_lem w staged s =
      Holds-bind _ _ (require_usable_lem n.journal (λ m h. h.0) left) λ i.
        at_journal n.journal i
          (λ j. lift (chunk_agrees j w staged s) >> commit_record c (chunk_of w staged s) 1)
          (Holds-checked (chunk_agrees n.journal w staged s) _ left λ u agreed.
            commit_record_lem (chunk_of w staged s) 1
              (agreed_ordinal n.journal w staged s u agreed, refl))

  abbrev pub Added : AppendedSegment → Node → Type 0
  Added a n' =
      (k : Checked) × (start : ℕ) × (segment_payload a ≡ ok k)
      × (not_before n.journal.last_segment_end k.start ≡ ok start)
      × IsStored c (rs ++ append_record (appended_payload a k start ∷ []) ∷ []) n'

  pub append_segment_lem :
      (a : AppendedSegment) → Holds Same (append_segment c a) (λ u. Added a) Left
  unfolding append_segment
  append_segment_lem a = Holds-checked (segment_payload a) _ left λ k checked.
      Holds-bind _ _ (require_usable_lem n.journal (λ m h. h.0) left) λ i.
        at_journal n.journal i
          (λ j. lift (not_before j.last_segment_end k.start) >>= λ start.
            commit_record c (append_record (appended_payload a k start ∷ [])) 0)
          (Holds-checked (not_before n.journal.last_segment_end k.start) _ left λ start after.
            Holds-to _ (λ u n' h. (k, start, checked, after, h.0))
              (commit_record_lem (append_record (appended_payload a k start ∷ [])) 0 refl))
