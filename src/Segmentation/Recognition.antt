-- ===== src/Segmentation/Recognition.antt =====
-- What subgen_core/segmentation.py reads and what it stages: the structured result of a recogniser,
-- with the value of each field before it is checked, and the copied content of a chunk.
use subgen_english_plex.Common.{ℕ, Option, List, ℤ}
use subgen_english_plex.Segmentation.Number.{Text, Value}

-- A field that should hold a sequence: a missing key, None, something that is no sequence, or items.
pub data Field (A : Type 0) : Type 0 where
  missing no_value malformed : Field A
  items : List A → Field A

-- A word of a recognition result, through `_canonical_mapping`.
pub data RawWord : Type 0 where
  not_mapping : RawWord
  word : Value → Value → Value → Value → Field Value → RawWord

pub record Metadata (A : Type 0) : Type 0 where
  pub temperature : A
  pub avg_logprob : A
  pub compression_ratio : A
  pub no_speech_prob : A

pub record RawSegment : Type 0 where
  pub metadata : Metadata Value
  pub start : Value
  pub end : Value
  pub text_value : Option Value
  pub tokens : Field Value
  pub words : Field RawWord

-- An item of `segments` that may not be a mapping.
pub data RawItem : Type 0 where
  not_segment : RawItem
  segment : RawSegment → RawItem

pub record RawResult : Type 0 where
  pub segments : Field RawItem
  pub language : Value

pub record StagedWord : Type 0 where
  pub word_text : Text
  pub start : ℕ
  pub end : ℕ
  pub probability : Option ℤ
  pub tokens : Option (List ℤ)

-- A staged payload; the field `seek`, which is always None, is left out.
pub record StagedSegment : Type 0 where
  pub metadata : Metadata (Option ℤ)
  pub start : ℕ
  pub end : ℕ
  pub segment_text : Text
  pub tokens : Option (List ℤ)
  pub words : Option (List StagedWord)

pub record StagedChunk : Type 0 where
  pub language : Option Text
  pub segments : List StagedSegment
