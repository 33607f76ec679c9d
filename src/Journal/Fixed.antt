-- ===== src/Journal/Fixed.antt =====
-- Reading leaves the fields and the bytes of a journal alone.
use subgen_english_plex.Common.{ℕ, suc, ◌≡◌, ap, ◌⊎◌, inl, inr, List, [], some, none, zero, ltb}
use subgen_english_plex.Common.Action.{
  Holds, Holds-bind, Holds-gets, Holds-lift, Holds-pure, Holds-to, Holds-if, Holds-modify,
  Holds-alike, ◌>>=◌, ◌>>◌, pure,
}
use subgen_english_plex.Journal.File.{seek, read_line, tell, close_file}
use subgen_english_plex.Journal.{Codec, SegmentJournal, Node, on_disk}
use subgen_english_plex.Journal.Commit.{set_journal, ended_journal, close_journal}
use subgen_english_plex.Journal.Read.{
  read_chunk, next_chunk, chunks_from, iter_committed_chunks, prefixed,
}
use subgen_english_plex.Journal.Writing.{Holds-call}
use subgen_english_plex.Journal.Committing.{Beside, Holds-on_disk, tried}
use subgen_english_plex.Journal.Calls.{require_usable_lem}

-- Reading changes neither the fields nor the bytes.
module _ (c : Codec) (j : SegmentJournal) (bytes : List ℕ) where
  abbrev pub Fixed : Node → Type 0
  Fixed = Beside j (λ d. d.bytes ≡ bytes)

  seek-Fixed :
      (k : ℕ)
      → Holds (λ d. d.bytes ≡ bytes) (seek k) (λ u d. d.bytes ≡ bytes) (λ d. d.bytes ≡ bytes)
  unfolding seek
  seek-Fixed k = Holds-call (λ bs p. bs ≡ bytes) _ _ _ (λ d h. h) (λ m d h. h)

  read_chunk-Fixed :
      (limit position expected : ℕ)
      → Holds
          (λ d. d.bytes ≡ bytes)
          (read_chunk c limit position expected)
          (λ p d. d.bytes ≡ bytes)
          (λ d. d.bytes ≡ bytes)
  unfolding read_chunk read_line tell
  read_chunk-Fixed limit position expected = Holds-bind _ _ (seek-Fixed position) λ u.
      Holds-bind {M = λ bs d. d.bytes ≡ bytes} _ _
        (Holds-call (λ bs p. bs ≡ bytes) _ _ _ (λ d h. h) (λ m d h. h))
        λ encoded.
          Holds-bind {M = λ k d. d.bytes ≡ bytes} _ _
            (Holds-call (λ bs p. bs ≡ bytes) _ _ _ (λ d h. h) (λ m d h. h))
            λ behind. Holds-lift _ (λ p d e h. h) (λ d h. h)

  next_chunk-Fixed :
      (limit position expected : ℕ)
      → Holds Fixed (next_chunk c limit position expected) (λ p. Fixed) Fixed
  unfolding next_chunk
  next_chunk-Fixed limit position expected =
      Holds-bind _ _ (Holds-to _ (λ i n h. h.1) (require_usable_lem j (λ n h. h.0) (λ n h. h))) λ i.
        Holds-bind _ _ (tried _ (Holds-on_disk j _ (read_chunk-Fixed limit position expected))) λ r.
          Holds-bind _ _ (Holds-gets {Q = λ k. Fixed} _ (λ n h. h)) λ offset.
            Holds-bind _ _ (Holds-on_disk j _ (seek-Fixed offset))
              λ u. Holds-lift r (λ p n e h. h) (λ n h. h)

  chunks_from-Fixed :
      (fuel limit position expected : ℕ)
      → Holds Fixed (chunks_from c fuel limit position expected) (λ x. Fixed) Fixed
  unfolding chunks_from
  chunks_from-Fixed zero limit position expected =
      Holds-if (ltb position limit) (pure none) (pure (some ([], expected)))
        (λ h. Holds-pure none (λ n i. i)) (λ h. Holds-pure (some ([], expected)) (λ n i. i))
  chunks_from-Fixed (suc fuel) limit position expected =
      Holds-if (ltb position limit)
        (next_chunk c limit position expected >>= λ p.
          chunks_from c fuel limit p.position p.expected_ordinal >>= λ rest.
          pure (prefixed p.segments rest))
        (pure (some ([], expected)))
        (λ h. Holds-bind _ _ (next_chunk-Fixed limit position expected) λ p.
          Holds-bind _ _ (chunks_from-Fixed fuel limit p.position p.expected_ordinal)
            λ rest. Holds-pure (prefixed p.segments rest) (λ n i. i))
        (λ h. Holds-pure (some ([], expected)) (λ n i. i))

  pub iter-Fixed : Holds Fixed (iter_committed_chunks c) (λ x. Fixed) Fixed
  unfolding iter_committed_chunks
  iter-Fixed =
      Holds-bind _ _ (Holds-to _ (λ i n h. h.1) (require_usable_lem j (λ n h. h.0) (λ n h. h))) λ i.
        Holds-bind _ _ (chunks_from-Fixed i.committed_offset i.committed_offset 0 0)
          λ found. Holds-lift _ (λ x n e h. h) (λ n h. h)

  -- What the end of a journal leaves.
  abbrev pub Closing : Node → Type 0
  Closing n = ((n.journal ≡ j) ⊎ (n.journal ≡ ended_journal j)) × (n.disk.bytes ≡ bytes)

  pub close_journal-Closing : Holds Fixed close_journal (λ u. Closing) Closing
  unfolding close_journal close_file
  close_journal-Closing = Holds-bind _ _ (Holds-gets {Q = λ i. Fixed} _ (λ n h. h)) λ i.
      Holds-if i.closed (pure tt) (set_journal ended_journal >> on_disk close_file)
        (λ h. Holds-pure tt (λ n f. (inl f.0, f.1)))
        (λ h.
          Holds-bind {M = λ u. Beside (ended_journal j) (λ d. d.bytes ≡ bytes)} _ _
            (Holds-modify _ (λ n f. (ap ended_journal f.0, f.1)))
            λ u.
              Holds-alike _ (λ n f. (inr f.0, f.1))
                (Holds-on_disk (ended_journal j) _
                  (Holds-call (λ bs p. bs ≡ bytes) _ _ _ (λ d h. h) (λ m d h. h))))
