-- ===== src/Journal/Turns.antt =====
-- A turn of the loop that reads a journal passes one record.
use mathlib.Core.List.{append_assoc}
use subgen_english_plex.Common.{
  ℕ, zero, suc, ◌+◌, ◌-◌, ◌≤◌, ◌≡◌, refl, sym, ap, ◌∙◌, subst, Bool, true, false, List, [], ◌∷◌,
  ◌++◌, map, All, length, length-append, pos, Result, ok, raise, Option, some, none, arith, ltb,
  ◌==◌, same_text, if◌then◌else◌,
}
use subgen_english_plex.Common
use subgen_english_plex.Common.Action
use subgen_english_plex.Common.Action.{Action, resume, lift, gets, attempt, pure}
use subgen_english_plex.Segmentation.Number.{integer, text, null}
use subgen_english_plex.Segmentation.Recognition.{items, StagedSegment}
use subgen_english_plex.Journal.File.{newline, behind, line, seek, read_line, tell}
use subgen_english_plex.Journal.{
  JournalRecord, chunk_record, append_record, segments_of, payload, Loaded, dict, Codec,
  SegmentJournal, Node, on_disk,
}
use subgen_english_plex.Journal.Commit.{usable, require_usable}
use subgen_english_plex.Journal.Read.{
  chunk_word, append_word, payloads, decode_record, without_newline, next_ordinal, Passed, passed,
  read_chunk, next_chunk,
}
use subgen_english_plex.Journal.Writing.{joined}
use subgen_english_plex.Journal.Records.{bytes_of, lines, Encodes, Numbered}

-- What a record is loaded as.
abbrev pub loaded_of : JournalRecord → Loaded
loaded_of (chunk_record ordinal core_start core_end language segments) = dict (record {
  version = integer (pos 1);
  kind = text chunk_word;
  ordinal = integer (pos ordinal);
  segments = items (map payload segments);
})
loaded_of (append_record segments) = dict (record {
  version = integer (pos 1);
  kind = text append_word;
  ordinal = null;
  segments = items (map payload segments);
})

-- A line that was encoded is loaded as its record, and has no newline in it.
pub record Faithful (c : Codec) : Type 0 where
  pub reads_back :
      (r : JournalRecord) (bs : List ℕ) → joined (c.iterencode r) ≡ ok bs → c.loads bs ≡ loaded_of r
  pub one_line :
      (r : JournalRecord) (bs : List ℕ)
      → joined (c.iterencode r) ≡ ok bs
      → All (λ b. (b == newline) ≡ false) bs

behind_prefix : (pre t : List ℕ) → behind (length pre) (pre ++ t) ≡ t
behind_prefix [] t = refl
behind_prefix (b ∷ bs) t = behind_prefix bs t

line_lem :
    (bs t : List ℕ) (limit : ℕ)
    → All (λ b. (b == newline) ≡ false) bs
    → length bs + 1 ≤ limit
    → line limit (bs ++ newline ∷ t) ≡ bs ++ newline ∷ []
line_lem [] t zero h k = absurd (omega (arith, k))
line_lem [] t (suc limit) h k = refl
line_lem (b ∷ bs) t zero h k = absurd (omega (arith, k))
line_lem (b ∷ bs) t (suc limit) h k =
    rw h.0 (ap (λ xs. b ∷ xs) (line_lem bs t limit h.1 (omega (arith, k))))

without_newline_lem : (bs : List ℕ) → without_newline (bs ++ newline ∷ []) ≡ ok bs
without_newline_lem [] = refl
without_newline_lem (b ∷ []) = refl
without_newline_lem (b ∷ x ∷ bs) =
    ap (λ r. Common.◌>>=◌ r (λ rest. ok (b ∷ rest))) (without_newline_lem (x ∷ bs))

payloads_lem : (ss : List StagedSegment) → payloads (map payload ss) ≡ ok ss
payloads_lem [] = refl
payloads_lem (s ∷ ss) = ap (λ r. Common.◌>>=◌ r (λ rest. ok (s ∷ rest))) (payloads_lem ss)

pub then_lem :
    {S A B : Type 0} (m : Action S A) (f : A → Action S B) {n n' : S} {a : A}
    → m n ≡ (ok a, n')
    → (Action.◌>>=◌ m f) n ≡ f a n'
unfolding Action.◌>>=◌
then_lem m f h = ap (resume f) h

-- The ordinal that is expected behind a record.
abbrev pub after : ℕ → JournalRecord → ℕ
after k (chunk_record ordinal a b l ss) = suc k
after k (append_record ss) = k

pub Numbered-after :
    (k m : ℕ) (r : JournalRecord) (rs : List JournalRecord)
    → Numbered k (r ∷ rs) m
    → Numbered (after k r) rs m
Numbered-after k m (chunk_record ordinal a b l ss) rs h = h.1
Numbered-after k m (append_record ss) rs h = h

abbrev pub read_record : JournalRecord → ℕ → ℕ → Passed
read_record r position k = record {
  segments = segments_of r;
  position = position;
  expected_ordinal = after k r;
}

-- A file that does what it is asked.
abbrev pub node_at : SegmentJournal → List ℕ → ℕ → Node
node_at j bytes position = record {
  journal = j;
  disk = record { bytes = bytes; position = position; faults = [] };
}

module _ (c : Codec) (faithful : Faithful c) where
  decoded_lem :
      (r : JournalRecord) (k m position : ℕ) (rs : List JournalRecord)
      → Numbered k (r ∷ rs) m
      → Common.◌>>=◌ (decode_record (loaded_of r)) (λ d. Common.◌>>=◌ (next_ordinal d k) (λ next.
        ok (record { segments = d.segments; position = position; expected_ordinal = next })))
        ≡ ok (read_record r position k)
  unfolding same_text
  decoded_lem (chunk_record ordinal a b l ss) k m position rs h =
      let here : (ordinal == k) ≡ true = ground (arith, h.0) in rw (payloads_lem ss) (rw here refl)
  decoded_lem (append_record ss) k m position rs h = rw (payloads_lem ss) refl

  passed_lem :
      (r : JournalRecord) (k m position : ℕ) (rs : List JournalRecord)
      → Encodes c r
      → Numbered k (r ∷ rs) m
      → passed c (bytes_of c r ++ newline ∷ []) position k ≡ ok (read_record r position k)
  passed_lem r k m position rs e h =
      rw (without_newline_lem (bytes_of c r))
        (rw (faithful.reads_back r (bytes_of c r) e) (decoded_lem r k m position rs h))

  abbrev line_in : ℕ → ℕ → List ℕ → List ℕ
  line_in limit p bytes = line (limit - p) (behind p bytes)

  next_chunk_lem :
      (j : SegmentJournal) (bytes : List ℕ) (q limit p k : ℕ)
      → usable j ≡ ok tt
      → next_chunk c limit p k (node_at j bytes q) ≡ (
        passed c (line_in limit p bytes) (p + length (line_in limit p bytes)) k,
        node_at j bytes j.committed_offset,
      )
  unfolding next_chunk read_chunk require_usable on_disk seek read_line tell Action.◌>>=◌ lift gets
      attempt pure
  next_chunk_lem j bytes q limit p k h = rw h refl

  line_here :
      (r : JournalRecord) (pre t : List ℕ) (limit : ℕ)
      → Encodes c r
      → length pre + (length (bytes_of c r) + 1) ≤ limit
      → line_in limit (length pre) (pre ++ (bytes_of c r ++ newline ∷ t))
        ≡ bytes_of c r ++ newline ∷ []
  line_here r pre t limit e enough =
      ap (line (limit - length pre)) (behind_prefix pre (bytes_of c r ++ newline ∷ t))
      ∙ line_lem (bytes_of c r) t (limit - length pre) (faithful.one_line r (bytes_of c r) e)
          (omega (arith, enough))

  -- A turn of the loop passes a record.
  turn_lem :
      (j : SegmentJournal) (r : JournalRecord) (rs : List JournalRecord) (pre t : List ℕ)
      (q limit k m : ℕ)
      → usable j ≡ ok tt
      → Encodes c r
      → Numbered k (r ∷ rs) m
      → length pre + (length (bytes_of c r) + 1) ≤ limit
      → next_chunk c limit (length pre) k (node_at j (pre ++ (bytes_of c r ++ newline ∷ t)) q) ≡ (
        ok (read_record r (length pre + length (bytes_of c r ++ newline ∷ [])) k),
        node_at j (pre ++ (bytes_of c r ++ newline ∷ t)) j.committed_offset,
      )
  turn_lem j r rs pre t q limit k m u e h enough =
      let bytes = pre ++ (bytes_of c r ++ newline ∷ t) in
      next_chunk_lem j bytes q limit (length pre) k u
      ∙ ap (λ l. (passed c l (length pre + length l) k, node_at j bytes j.committed_offset))
          (line_here r pre t limit e enough)
      ∙ ap (λ x. (x, node_at j bytes j.committed_offset))
          (passed_lem r k m (length pre + length (bytes_of c r ++ newline ∷ [])) rs e h)

  pub turn_at :
      (j : SegmentJournal) (r : JournalRecord) (rs : List JournalRecord) (pre t bytes : List ℕ)
      (q limit p k m : ℕ)
      → usable j ≡ ok tt
      → Encodes c r
      → Numbered k (r ∷ rs) m
      → bytes ≡ pre ++ (lines c (r ∷ rs) ++ t)
      → p ≡ length pre
      → length pre + (length (bytes_of c r) + 1) ≤ limit
      → next_chunk c limit p k (node_at j bytes q) ≡ (
        ok (read_record r (length pre + length (bytes_of c r ++ newline ∷ [])) k),
        node_at j bytes j.committed_offset,
      )
  turn_at j r rs pre t bytes q limit p k m u e h same here enough =
      let done = ok (read_record r (length pre + length (bytes_of c r ++ newline ∷ [])) k) in
      subst
        (λ i.
          next_chunk c limit i k (node_at j bytes q) ≡ (done, node_at j bytes j.committed_offset))
        (sym here)
        (subst
          (λ xs.
            next_chunk c limit (length pre) k (node_at j xs q)
            ≡ (done, node_at j xs j.committed_offset))
          (sym (same ∙ ap (λ xs. pre ++ xs) (append_assoc (bytes_of c r) (newline ∷ lines c rs) t)))
          (turn_lem j r rs pre (lines c rs ++ t) q limit k m u e h enough))
