-- ===== src/Journal/Records.antt =====
-- The records that a journal holds: its bytes are their lines, and its fields describe them.
use mathlib.Core.List.{append_assoc, append-nil}
use subgen_english_plex.Common.{
  ℕ, suc, ◌+◌, ◌≡◌, refl, sym, ap, ◌∙◌, subst, inl, inr, List, [], ◌∷◌, ◌++◌, All, length,
  length-append, Result, ok, raise, arith,
}
use subgen_english_plex.Segmentation.Recognition.{StagedSegment}
use subgen_english_plex.Segmentation.Assembly.{last_end}
use subgen_english_plex.Journal.File.{newline}
use subgen_english_plex.Journal.{
  JournalRecord, chunk_record, append_record, segments_of, Codec, SegmentJournal, Node,
}
use subgen_english_plex.Journal.Commit.{ended_journal}
use subgen_english_plex.Journal.Writing.{joined, At, Kept}
use subgen_english_plex.Journal.Committing.{poisoned_journal, Undone, Committed}

abbrev pub contents : List JournalRecord → List StagedSegment
contents [] = []
contents (r ∷ rs) = segments_of r ++ contents rs

-- The chunks among the records are numbered from `k`, and the next would be `m`.
abbrev pub Numbered : ℕ → List JournalRecord → ℕ → Type 0
Numbered k [] m = k ≡ m
Numbered k (chunk_record ordinal a b l ss ∷ rs) m = (ordinal ≡ k) × Numbered (suc k) rs m
Numbered k (append_record ss ∷ rs) m = Numbered k rs m

-- A record that may follow `m` chunks, and how many chunks it adds.
abbrev pub Continues : JournalRecord → ℕ → ℕ → Type 0
Continues (chunk_record ordinal a b l ss) m delta = (ordinal ≡ m) × (delta ≡ 1)
Continues (append_record ss) m delta = delta ≡ 0

Numbered-append :
    (k m delta : ℕ) (rs : List JournalRecord) (r : JournalRecord)
    → Numbered k rs m
    → Continues r m delta
    → Numbered k (rs ++ r ∷ []) (m + delta)
Numbered-append k m delta [] (chunk_record ordinal a b l ss) h f =
    (f.0 ∙ sym h, omega (arith, h, f.1))
Numbered-append k m delta [] (append_record ss) h f = omega (arith, h, f)
Numbered-append k m delta (chunk_record ordinal a b l ss ∷ rs) r h f =
    (h.0, Numbered-append (suc k) m delta rs r h.1 f)
Numbered-append k m delta (append_record ss ∷ rs) r h f = Numbered-append k m delta rs r h f

contents-append :
    (rs : List JournalRecord) (r : JournalRecord)
    → contents (rs ++ r ∷ []) ≡ contents rs ++ segments_of r
contents-append [] r = append-nil (segments_of r)
contents-append (x ∷ rs) r =
    ap (λ xs. segments_of x ++ xs) (contents-append rs r)
    ∙ sym (append_assoc (segments_of x) (contents rs) (segments_of r))

last_end-append :
    (e : ℕ) (xs ys : List StagedSegment) → last_end e (xs ++ ys) ≡ last_end (last_end e xs) ys
last_end-append e [] ys = refl
last_end-append e (x ∷ xs) ys = last_end-append x.end xs ys

abbrev pub or_empty : Result (List ℕ) → List ℕ
or_empty (ok bs) = bs
or_empty (raise e) = []

module _ (c : Codec) where
  -- The bytes of a record, without the newline.
  abbrev pub bytes_of : JournalRecord → List ℕ
  bytes_of r = or_empty (joined (c.iterencode r))

  abbrev pub lines : List JournalRecord → List ℕ
  lines [] = []
  lines (r ∷ rs) = bytes_of r ++ newline ∷ lines rs

  abbrev pub Encodes : JournalRecord → Type 0
  Encodes r = joined (c.iterencode r) ≡ ok (bytes_of r)

  Encodes-append :
      (rs : List JournalRecord) (r : JournalRecord)
      → All Encodes rs
      → Encodes r
      → All Encodes (rs ++ r ∷ [])
  Encodes-append [] r h k = (k, tt)
  Encodes-append (x ∷ rs) r h k = (h.0, Encodes-append rs r h.1 k)

  lines-append :
      (rs : List JournalRecord) (r : JournalRecord)
      → lines (rs ++ r ∷ []) ≡ lines rs ++ (bytes_of r ++ newline ∷ [])
  lines-append [] r = refl
  lines-append (x ∷ rs) r =
      ap (λ xs. bytes_of x ++ newline ∷ xs) (lines-append rs r)
      ∙ sym (append_assoc (bytes_of x) (newline ∷ lines rs) (bytes_of r ++ newline ∷ []))

  -- What the fields and the bytes say of the records.
  pub record IsStored (rs : List JournalRecord) (n : Node) : Type 0 where
    pub offset : n.journal.committed_offset ≡ length (lines rs)
    pub kept : At (Kept (lines rs)) n.disk
    pub encoded : All Encodes rs
    pub numbered : Numbered 0 rs n.journal.chunk_count
    pub counted : n.journal.segment_count ≡ length (contents rs)
    pub last : n.journal.last_segment_end ≡ last_end 0 (contents rs)

  module _ (rs : List JournalRecord) (n : Node) (stored : IsStored rs n) where
    moved :
        (n' : Node) (j : SegmentJournal)
        → n'.journal ≡ j
        → j.committed_offset ≡ n.journal.committed_offset
        → j.chunk_count ≡ n.journal.chunk_count
        → j.segment_count ≡ n.journal.segment_count
        → j.last_segment_end ≡ n.journal.last_segment_end
        → At (Kept (lines rs)) n'.disk
        → IsStored rs n'
    moved n' j same offset chunks segments last kept = record {
      offset = ap (λ i. i.committed_offset) same ∙ offset ∙ stored.offset;
      kept = kept;
      encoded = stored.encoded;
      numbered =
          subst (Numbered 0 rs) (sym (ap (λ i. i.chunk_count) same ∙ chunks)) stored.numbered;
      counted = ap (λ i. i.segment_count) same ∙ segments ∙ stored.counted;
      last = ap (λ i. i.last_segment_end) same ∙ last ∙ stored.last;
    }

    -- A commit that failed leaves the records.
    pub Undone-IsStored : (n' : Node) → Undone (lines rs) n.journal n' → IsStored rs n'
    Undone-IsStored n' (inl same, kept) = moved n' n.journal same refl refl refl refl kept
    Undone-IsStored n' (inr same, kept) =
        moved n' (poisoned_journal n.journal) same refl refl refl refl kept

    -- The end of a journal leaves them too.
    pub Closed-IsStored :
        (n' : Node)
        → n'.journal ≡ ended_journal n.journal
        → n'.disk.bytes ≡ n.disk.bytes
        → IsStored rs n'
    Closed-IsStored n' same bytes =
        moved n' (ended_journal n.journal) same refl refl refl refl
          (stored.kept.0, bytes ∙ stored.kept.1)

    -- A record that was written is behind the others.
    pub Committed-IsStored :
        (r : JournalRecord) (delta : ℕ) (n' : Node)
        → Continues r n.journal.chunk_count delta
        → Committed (lines rs) n.journal r delta (c.iterencode r) n'
        → IsStored (rs ++ r ∷ []) n'
    Committed-IsStored r delta n' follows (next, (bs, j, ends, at_end), same) =
        let mine : bs ≡ bytes_of r = sym (ap or_empty j) in
        let all : lines rs ++ (bs ++ newline ∷ []) ≡ lines (rs ++ r ∷ []) =
          ap (λ xs. lines rs ++ (xs ++ newline ∷ [])) mine ∙ sym (lines-append rs r) in
        record {
          offset = ap (λ i. i.committed_offset) same ∙ at_end ∙ ap length all;
          kept = ([], ends.0 ∙ all ∙ sym (append-nil (lines (rs ++ r ∷ []))));
          encoded = Encodes-append rs r stored.encoded (j ∙ ap ok mine);
          numbered =
              subst (Numbered 0 (rs ++ r ∷ [])) (sym (ap (λ i. i.chunk_count) same))
                (Numbered-append 0 n.journal.chunk_count delta rs r stored.numbered follows);
          counted =
              ap (λ i. i.segment_count) same
              ∙ ap (λ k. k + length (segments_of r)) stored.counted
              ∙ sym (length-append (contents rs) (segments_of r))
              ∙ ap length (sym (contents-append rs r));
          last =
              ap (λ i. i.last_segment_end) same
              ∙ ap (λ e. last_end e (segments_of r)) stored.last
              ∙ sym (last_end-append 0 (contents rs) (segments_of r))
              ∙ ap (last_end 0) (sym (contents-append rs r));
        }
