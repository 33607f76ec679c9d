-- ===== src/Journal/Roundtrip.antt =====
-- What is read from a journal is what was written to it.
use mathlib.Core.List.{append_assoc}
use subgen_english_plex.Common.{
  ℕ, zero, suc, ◌+◌, ◌≤◌, ◌≡◌, refl, sym, ap, ◌∙◌, subst, true, false, List, [], ◌∷◌, ◌++◌, map,
  All, length, length-append, Result, ok, Option, some, arith, ltb, ◌==◌,
}
use subgen_english_plex.Common.Action
use subgen_english_plex.Common.Action.{Action, resume, lift, gets, attempt, pure}
use subgen_english_plex.Segmentation.Recognition.{StagedSegment}
use subgen_english_plex.Journal.File.{newline}
use subgen_english_plex.Journal.{JournalRecord, segments_of, Codec, SegmentJournal, Node}
use subgen_english_plex.Journal.Commit.{usable, require_usable}
use subgen_english_plex.Journal.Read.{all_read, next_chunk, chunks_from, iter_committed_chunks}
use subgen_english_plex.Journal.Records.{bytes_of, lines, Encodes, Numbered}
use subgen_english_plex.Journal.Turns.{
  Faithful, read_record, node_at, turn_at, after, Numbered-after, then_lem,
}
use subgen_english_plex.Journal.Reach.{Reached, Reached-Keeps}

module _ (c : Codec) (faithful : Faithful c) where
  abbrev Reads :
      SegmentJournal
      → List ℕ
      → ℕ
      → List JournalRecord
      → ℕ
      → Result (Option (List (List StagedSegment) × ℕ)) × Node
      → Type 0
  Reads j bytes q rs m o = (q' : ℕ) × (o ≡ (ok (some (map segments_of rs, m)), node_at j bytes q'))

  -- The loop stops where everything was read.
  stop_lem :
      (n : Node) (fuel limit p k : ℕ)
      → limit ≤ p
      → chunks_from c fuel limit p k n ≡ (ok (some ([], k)), n)
  unfolding chunks_from pure
  stop_lem n zero limit p k h = let off : ltb p limit ≡ false = ground (arith, h) in rw off refl
  stop_lem n (suc fuel) limit p k h =
      let off : ltb p limit ≡ false = ground (arith, h) in rw off refl

  split_line :
      (r : JournalRecord) (rs : List JournalRecord) (pre t : List ℕ)
      → pre ++ (lines c (r ∷ rs) ++ t)
        ≡ (pre ++ (bytes_of c r ++ newline ∷ [])) ++ (lines c rs ++ t)
  split_line r rs pre t =
      ap (λ xs. pre ++ xs)
        (append_assoc (bytes_of c r) (newline ∷ lines c rs) t
          ∙ sym (append_assoc (bytes_of c r) (newline ∷ []) (lines c rs ++ t)))
      ∙ sym (append_assoc pre (bytes_of c r ++ newline ∷ []) (lines c rs ++ t))

  chunks_lem :
      (j : SegmentJournal) (rs : List JournalRecord) (pre t bytes : List ℕ) (fuel q limit p k m : ℕ)
      → usable j ≡ ok tt
      → All (Encodes c) rs
      → Numbered k rs m
      → bytes ≡ pre ++ (lines c rs ++ t)
      → p ≡ length pre
      → limit ≡ p + length (lines c rs)
      → length (lines c rs) ≤ fuel
      → Reads j bytes q rs m (chunks_from c fuel limit p k (node_at j bytes q))
  unfolding chunks_from pure
  chunks_lem j [] pre t bytes fuel q limit p k m u e h same here all enough = (
    q,
    stop_lem (node_at j bytes q) fuel limit p k (omega (arith, all))
        ∙ ap (λ i. (ok (some ([], i)), node_at j bytes q)) h,
  )
  chunks_lem j (r ∷ rs) pre t bytes zero q limit p k m u e h same here all enough =
      absurd (omega (arith, enough, length-append (bytes_of c r) (newline ∷ lines c rs)))
  chunks_lem j (r ∷ rs) pre t bytes (suc fuel) q limit p k m u e h same here all enough =
      let sizes = length-append (bytes_of c r) (newline ∷ lines c rs) in
      let line_size = length-append (bytes_of c r) (newline ∷ []) in
      let on : ltb p limit ≡ true = ground (arith, all, sizes) in
      let p' = length pre + length (bytes_of c r ++ newline ∷ []) in
      let turn : next_chunk c limit p k (node_at j bytes q)
          ≡ (ok (read_record r p' k), node_at j bytes j.committed_offset) =
        turn_at c faithful j r rs pre t bytes q limit p k m u e.0 h same here
          (omega (arith, all, here, sizes)) in
      let (q', rest) =
        chunks_lem j rs (pre ++ (bytes_of c r ++ newline ∷ [])) t bytes fuel j.committed_offset
          limit p' (after k r) m u e.1 (Numbered-after k m r rs h) (same ∙ split_line r rs pre t)
          (sym (length-append pre (bytes_of c r ++ newline ∷ [])))
          (omega (arith, all, here, sizes, line_size)) (omega (arith, enough, sizes)) in
      (q', rw on (then_lem _ _ turn ∙ then_lem _ _ rest))

pub usable_lem : (n : Node) → usable n.journal ≡ ok tt → require_usable n ≡ (ok n.journal, n)
unfolding require_usable Action.◌>>=◌ gets lift pure
usable_lem n u = rw u refl

module _ {c : Codec} (faithful : Faithful c) where
  -- What was written is read: with a faithful encoder, whatever commits and additions a new journal went
  -- through, and whichever of them raised, as long as it is usable and its file does what it is asked,
  -- reading it returns, of each write that returned, the segments that it stored, in order.
  pub reads_what_was_written :
      (n : Node) (log : List (List StagedSegment))
      → Reached c n log
      → usable n.journal ≡ ok tt
      → n.disk.faults ≡ []
      → (n' : Node) × (iter_committed_chunks c n ≡ (ok (some log), n'))
  unfolding iter_committed_chunks lift
  reads_what_was_written n log h u works =
      let (rs, stored, e) = Reached-Keeps c h in
      let offset = n.journal.committed_offset in
      let count = n.journal.chunk_count in
      let (q', read) =
        chunks_lem c faithful n.journal rs [] stored.kept.0 n.disk.bytes offset n.disk.position
          offset 0 0 count u stored.encoded stored.numbered stored.kept.1 refl
          (omega (arith, stored.offset)) (omega (arith, stored.offset)) in
      let full : (count == count) ≡ true = ground arith in
      let tested : all_read count (some (map segments_of rs, count)) ≡ ok (some log) =
        rw full (ap (λ l. ok (some l)) e) in
      let n' = node_at n.journal n.disk.bytes q' in
      (
        n',
        then_lem _ _ (usable_lem n u)
            ∙ then_lem _ _ (
                subst
                  (λ d.
                    chunks_from c offset offset 0 0 (record { journal = n.journal; disk = d })
                    ≡ (ok (some (map segments_of rs, count)), n'))
                  (ap
                    (λ fs. record { bytes = n.disk.bytes; position = n.disk.position; faults = fs })
                    (sym works))
                  read)
            ∙ ap (λ r. (r, n')) tested,
      )
