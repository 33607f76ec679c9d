-- ===== src/Journal/Read.antt =====
-- `_decode_record` and `iter_committed_chunks` of `SegmentJournal`: a consumer that takes every chunk.
use subgen_english_plex.Common.{
  ℕ, zero, suc, ◌-◌, ◌*◌, Bool, true, false, Option, none, some, List, [], ◌∷◌, ◌++◌, ℤ, pos,
  negsuc, Result, ok, raise, require, ltb, ◌==◌, same_text, segment_journal_error, type_error,
  if◌then◌else◌,
}
use subgen_english_plex.Common
use subgen_english_plex.Common.Action.{Action, pure, lift, gets, attempt, ◌>>=◌, ◌>>◌}
use subgen_english_plex.Segmentation.Number.{
  Text, Value, integer, real, boolean, text, object, ticks,
}
use subgen_english_plex.Segmentation.Recognition.{Field, items, StagedSegment}
use subgen_english_plex.Journal.File.{Disk, seek, tell, read_line, newline}
use subgen_english_plex.Journal.{
  LoadedItem, not_payload, payload, Loaded, undecodable, not_dict, dict, Codec, Node, on_disk,
}
use subgen_english_plex.Journal.Commit.{require_usable}

abbrev pub chunk_word : Text
chunk_word = 99 ∷ 104 ∷ 117 ∷ 110 ∷ 107 ∷ []

abbrev pub append_word : Text
append_word = 97 ∷ 112 ∷ 112 ∷ 101 ∷ 110 ∷ 100 ∷ []

-- `value == n`, for an int: a float or a bool of that value is equal to it.
abbrev pub equals_int : Value → ℕ → Bool
equals_int (integer (pos m)) n = m == n
equals_int (real (pos m)) n = m == (n * ticks)
equals_int (boolean true) n = 1 == n
equals_int (boolean false) n = 0 == n
equals_int _ n = false

-- Whether `kind` is that of a chunk; a list or a dict cannot be looked up in a set.
abbrev pub kind_of : Value → Result Bool
kind_of (text t) =
    if same_text t chunk_word
    then ok true
    else (if same_text t append_word then ok false else raise segment_journal_error)
kind_of object = raise type_error
kind_of _ = raise segment_journal_error

abbrev pub payloads : List LoadedItem → Result (List StagedSegment)
payloads [] = ok []
payloads (not_payload ∷ rest) = raise segment_journal_error
payloads (payload s ∷ rest) = Common.◌>>=◌ (payloads rest) (λ ss. ok (s ∷ ss))

abbrev pub segment_list : Field LoadedItem → Result (List StagedSegment)
segment_list (items xs) = payloads xs
segment_list _ = raise segment_journal_error

-- A record that passed the checks.
pub record Decoded : Type 0 where
  pub is_chunk : Bool
  pub ordinal : Value
  pub segments : List StagedSegment

-- `_decode_record`
abbrev pub decode_record : Loaded → Result Decoded
decode_record undecodable = raise segment_journal_error
decode_record not_dict = raise segment_journal_error
decode_record (dict r) = Common.◌>>◌ (require (equals_int r.version 1) segment_journal_error) (
    Common.◌>>=◌ (kind_of r.kind) (λ is_chunk.
      Common.◌>>=◌ (segment_list r.segments) (λ segments.
        ok (record { is_chunk = is_chunk; ordinal = r.ordinal; segments = segments }))))

-- `encoded[:-1]`, of a line that ends in a newline.
abbrev pub without_newline : List ℕ → Result (List ℕ)
without_newline [] = raise segment_journal_error
without_newline (b ∷ []) = if b == newline then ok [] else raise segment_journal_error
without_newline (b ∷ c ∷ bs) = Common.◌>>=◌ (without_newline (c ∷ bs)) (λ rest. ok (b ∷ rest))

-- The ordinal that is expected next.
abbrev pub next_ordinal : Decoded → ℕ → Result ℕ
next_ordinal r expected =
    if r.is_chunk
    then (if equals_int r.ordinal expected then ok (suc expected) else raise segment_journal_error)
    else ok expected

-- The chunk at a position, the position behind it, and the ordinal that is expected there.
pub record Passed : Type 0 where
  pub segments : List StagedSegment
  pub position : ℕ
  pub expected_ordinal : ℕ

-- What a line is read as.
abbrev pub passed : Codec → List ℕ → ℕ → ℕ → Result Passed
passed c encoded position expected = Common.◌>>=◌ (without_newline encoded) (λ bs.
    Common.◌>>=◌ (decode_record (c.loads bs)) (λ r. Common.◌>>=◌ (next_ordinal r expected) (λ next.
      ok (record { segments = r.segments; position = position; expected_ordinal = next }))))

abbrev pub prefixed :
    List StagedSegment
    → Option (List (List StagedSegment) × ℕ)
    → Option (List (List StagedSegment) × ℕ)
prefixed segments none = none
prefixed segments (some (chunks, expected)) = some (segments ∷ chunks, expected)

-- The test behind the loop.
abbrev pub all_read :
    ℕ → Option (List (List StagedSegment) × ℕ) → Result (Option (List (List StagedSegment)))
all_read count none = ok none
all_read count (some (chunks, expected)) =
    if expected == count then ok (some chunks) else raise segment_journal_error

module _ (c : Codec) where
  -- The `try` of a turn of the loop.
  unfoldable pub read_chunk : ℕ → ℕ → ℕ → Action Disk Passed
  unfolding seek read_line tell
  read_chunk limit position expected = do
    seek position
    encoded ← read_line (limit - position)
    behind ← tell
    lift (passed c encoded behind expected)

  -- A turn of the loop, with its `finally`.
  unfoldable pub next_chunk : ℕ → ℕ → ℕ → Action Node Passed
  unfolding require_usable read_chunk
  next_chunk limit position expected = do
    require_usable
    r ← attempt (on_disk (read_chunk limit position expected))
    offset ← gets (λ n. n.journal.committed_offset)
    on_disk (seek offset)
    lift r

  -- The loop on fuel: the chunks that it yields and the ordinal at its end.
  unfoldable pub chunks_from : ℕ → ℕ → ℕ → ℕ → Action Node (Option (List (List StagedSegment) × ℕ))
  unfolding next_chunk
  chunks_from zero limit position expected =
      if ltb position limit then pure none else pure (some ([], expected))
  chunks_from (suc fuel) limit position expected =
      if ltb position limit
      then (do
        p ← next_chunk limit position expected
        rest ← chunks_from fuel limit p.position p.expected_ordinal
        pure (prefixed p.segments rest))
      else pure (some ([], expected))

  unfoldable pub iter_committed_chunks : Action Node (Option (List (List StagedSegment)))
  unfolding require_usable chunks_from
  iter_committed_chunks = do
    j ← require_usable
    found ← chunks_from j.committed_offset j.committed_offset 0 0
    lift (all_read j.chunk_count found)
