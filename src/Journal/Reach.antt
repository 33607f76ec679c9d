-- ===== src/Journal/Reach.antt =====
-- What a journal goes through: commits, additions and readings, of which any may raise, and the end.
use subgen_english_plex.Common.{
  ℕ, Bool, ◌≡◌, refl, ap, ◌∙◌, subst, inl, inr, List, [], ◌∷◌, ◌++◌, map, Result, ok, raise, Error,
  Option,
}
use subgen_english_plex.Common.Action.{Outcome, Outcome-either}
use subgen_english_plex.Segmentation.Recognition.{StagedSegment, StagedChunk}
use subgen_english_plex.Segmentation.Window.{ChunkWindow}
use subgen_english_plex.Segmentation.Assembly.{AssemblyState}
use subgen_english_plex.Journal.{
  JournalRecord, append_record, segments_of, Codec, Node, new_journal,
}
use subgen_english_plex.Journal.Commit.{
  persist_chunk, AppendedSegment, Checked, segment_payload, not_before, appended_payload,
  append_segment, close_journal,
}
use subgen_english_plex.Journal.Read.{iter_committed_chunks}
use subgen_english_plex.Journal.Records.{IsStored, Undone-IsStored, Closed-IsStored}
use subgen_english_plex.Journal.Fixed.{Fixed, iter-Fixed, Closing, close_journal-Closing}
use subgen_english_plex.Journal.Calls.{
  Left, Marked, chunk_of, Added, persist_chunk_lem, append_segment_lem,
}

-- The journals that a new one becomes, with the segments that each successful write stored.
pub data Reached (c : Codec) : Node → List (List StagedSegment) → Type 0 where
  created :
      (has_result_factory has_segment_factory : Bool) (fs : List (Option ℕ))
      → Reached c
          (record {
            journal = new_journal has_result_factory has_segment_factory;
            disk = record { bytes = []; position = 0; faults = fs };
          })
          []
  committed :
      {n : Node} {log : List (List StagedSegment)} (w : ChunkWindow) (staged : StagedChunk)
      (s : AssemblyState) (n' : Node)
      → Reached c n log
      → persist_chunk c w staged s n ≡ (ok tt, n')
      → Reached c n' (log ++ staged.segments ∷ [])
  added :
      {n : Node} {log : List (List StagedSegment)} (a : AppendedSegment) (k : Checked) (start : ℕ)
      (n' : Node)
      → Reached c n log
      → segment_payload a ≡ ok k
      → not_before n.journal.last_segment_end k.start ≡ ok start
      → append_segment c a n ≡ (ok tt, n')
      → Reached c n' (log ++ (appended_payload a k start ∷ []) ∷ [])
  commit_raised :
      {n : Node} {log : List (List StagedSegment)} (w : ChunkWindow) (staged : StagedChunk)
      (s : AssemblyState) (e : Error) (n' : Node)
      → Reached c n log
      → persist_chunk c w staged s n ≡ (raise e, n')
      → Reached c n' log
  append_raised :
      {n : Node} {log : List (List StagedSegment)} (a : AppendedSegment) (e : Error) (n' : Node)
      → Reached c n log
      → append_segment c a n ≡ (raise e, n')
      → Reached c n' log
  read :
      {n : Node} {log : List (List StagedSegment)} (r : Result (Option (List (List StagedSegment))))
      (n' : Node)
      → Reached c n log
      → iter_committed_chunks c n ≡ (r, n')
      → Reached c n' log
  ended :
      {n : Node} {log : List (List StagedSegment)} (r : Result (Unit {0})) (n' : Node)
      → Reached c n log
      → close_journal n ≡ (r, n')
      → Reached c n' log
  elsewhere :
      {n : Node} {log : List (List StagedSegment)} (fs : List (Option ℕ))
      → Reached c n log
      → Reached c (record n { disk = record n.disk { faults = fs } }) log

logged :
    (rs : List JournalRecord) (r : JournalRecord) (log : List (List StagedSegment))
    → map segments_of rs ≡ log
    → map segments_of (rs ++ r ∷ []) ≡ log ++ segments_of r ∷ []
logged rs r log e = mapped rs ∙ ap (λ xs. xs ++ segments_of r ∷ []) e
  where
    mapped :
        (rs : List JournalRecord)
        → map segments_of (rs ++ r ∷ []) ≡ map segments_of rs ++ segments_of r ∷ []
    mapped [] = refl
    mapped (x ∷ xs) = ap (λ ys. segments_of x ∷ ys) (mapped xs)

module _ (c : Codec) (rs : List JournalRecord) (n : Node) (stored : IsStored c rs n) where
  -- What a commit leaves of what was stored, and of the fields if it returned.
  abbrev pub Settled : ChunkWindow → StagedChunk → AssemblyState → Result (Unit {0}) × Node → Type 0
  Settled w staged s =
      Outcome
        (λ u n'.
          IsStored c (rs ++ chunk_of c rs n stored w staged s ∷ []) n'
          × Marked c rs n stored 1 staged.segments n')
        (Left c rs n stored)

  pub persist_chunk_outcome :
      (w : ChunkWindow) (staged : StagedChunk) (s : AssemblyState) (r : Result (Unit {0}))
      (n' : Node)
      → persist_chunk c w staged s n ≡ (r, n')
      → Settled w staged s (r, n')
  persist_chunk_outcome w staged s r n' step =
      subst (Settled w staged s) step
        ((persist_chunk_lem c rs n stored w staged s).at n (refl, stored.kept))

  Fixed-IsStored : (n' : Node) → Fixed c n.journal n.disk.bytes n' → IsStored c rs n'
  Fixed-IsStored n' h =
      Undone-IsStored c rs n stored n' (inl h.0, (stored.kept.0, h.1 ∙ stored.kept.1))

  Closing-IsStored : (n' : Node) → Closing c n.journal n.disk.bytes n' → IsStored c rs n'
  Closing-IsStored n' (inl same, bytes) = Fixed-IsStored n' (same, bytes)
  Closing-IsStored n' (inr same, bytes) = Closed-IsStored c rs n stored n' same bytes

  Added-IsStored :
      (a : AppendedSegment) (k : Checked) (start : ℕ) (n' : Node)
      → segment_payload a ≡ ok k
      → not_before n.journal.last_segment_end k.start ≡ ok start
      → Added c rs n stored a n'
      → IsStored c (rs ++ append_record (appended_payload a k start ∷ []) ∷ []) n'
  Added-IsStored a k start n' checked after (k', start', checked', after', h) =
      let same_k : k' ≡ k = cc in
      let same_start : start' ≡ start = cc in
      subst (λ i. IsStored c (rs ++ append_record (appended_payload a i start ∷ []) ∷ []) n') same_k
        (subst (λ i. IsStored c (rs ++ append_record (appended_payload a k' i ∷ []) ∷ []) n')
          same_start h)

module _ (c : Codec) where
  -- The records behind a log.
  abbrev pub Keeps : List (List StagedSegment) → Node → Type 0
  Keeps log n = (rs : List JournalRecord) × IsStored c rs n × (map segments_of rs ≡ log)

  pub Reached-Keeps : {n : Node} {log : List (List StagedSegment)} → Reached c n log → Keeps log n
  Reached-Keeps (created a b fs) = (
    [],
    record {
      offset = refl;
      kept = ([], refl);
      encoded = tt;
      numbered = refl;
      counted = refl;
      last = refl;
    },
    refl,
  )
  Reached-Keeps (committed {n} {log} w staged s n' h step) =
      let (rs, stored, e) = Reached-Keeps h in
      let r = chunk_of c rs n stored w staged s in
      (
        rs ++ r ∷ [],
        (persist_chunk_outcome c rs n stored w staged s (ok tt) n' step).0,
        logged rs r log e,
      )
  Reached-Keeps (added {n} {log} a k start n' h checked after step) =
      let (rs, stored, e) = Reached-Keeps h in
      let r = append_record (appended_payload a k start ∷ []) in
      (
        rs ++ r ∷ [],
        Added-IsStored c rs n stored a k start n' checked after (
            subst (Outcome (λ u. Added c rs n stored a) (Left c rs n stored)) step
              ((append_segment_lem c rs n stored a).at n (refl, stored.kept))),
        logged rs r log e,
      )
  Reached-Keeps (commit_raised {n} w staged s x n' h step) =
      let (rs, stored, e) = Reached-Keeps h in
      (
        rs,
        Undone-IsStored c rs n stored n'
            (persist_chunk_outcome c rs n stored w staged s (raise x) n' step),
        e,
      )
  Reached-Keeps (append_raised {n} a x n' h step) =
      let (rs, stored, e) = Reached-Keeps h in
      (
        rs,
        Undone-IsStored c rs n stored n' (
            subst (Outcome (λ u. Added c rs n stored a) (Left c rs n stored)) step
              ((append_segment_lem c rs n stored a).at n (refl, stored.kept))),
        e,
      )
  Reached-Keeps (read {n} r n' h step) =
      let (rs, stored, e) = Reached-Keeps h in
      let fixed = Fixed c n.journal n.disk.bytes in
      (
        rs,
        Fixed-IsStored c rs n stored n' (
            Outcome-either fixed r n' (
              subst (Outcome (λ x. fixed) fixed) step
                ((iter-Fixed c n.journal n.disk.bytes).at n (refl, refl)))),
        e,
      )
  Reached-Keeps (ended {n} r n' h step) =
      let (rs, stored, e) = Reached-Keeps h in
      let closing = Closing c n.journal n.disk.bytes in
      (
        rs,
        Closing-IsStored c rs n stored n' (
            Outcome-either closing r n' (
              subst (Outcome (λ u. closing) closing) step
                ((close_journal-Closing c n.journal n.disk.bytes).at n (refl, refl)))),
        e,
      )
  Reached-Keeps (elsewhere {n} fs h) =
      let (rs, stored, e) = Reached-Keeps h in
      (
        rs,
        record {
          offset = stored.offset;
          kept = stored.kept;
          encoded = stored.encoded;
          numbered = stored.numbered;
          counted = stored.counted;
          last = stored.last;
        },
        e,
      )
