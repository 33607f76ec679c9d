-- ===== src/Journal.antt =====
-- `SegmentJournal` of subgen_core/segmented_result.py: the store of committed chunks, one line of JSON
-- for each record in an anonymous file. The encoder and the decoder are a `Codec` of the caller's.
pub mod File
pub mod Commit
pub mod Read
pub mod Writing
pub mod Committing
pub mod Records
pub mod Calls
pub mod Fixed
pub mod Reach
pub mod Turns
pub mod Roundtrip
pub mod InStep
use subgen_english_plex.Common.{ℕ, Bool, true, false, Option, none, List, [], ◌∷◌, Result}
use subgen_english_plex.Common.Action.{Action}
use subgen_english_plex.Segmentation.Number.{Text, Value, integer, text, null}
use subgen_english_plex.Segmentation.Recognition.{Field, items, StagedSegment}
use subgen_english_plex.Journal.File.{Disk}

pub data JournalRecord : Type 0 where
  chunk_record : ℕ → ℕ → ℕ → Option Text → List StagedSegment → JournalRecord
  append_record : List StagedSegment → JournalRecord

abbrev pub segments_of : JournalRecord → List StagedSegment
segments_of (chunk_record ordinal core_start core_end language segments) = segments
segments_of (append_record segments) = segments

-- What loading a line gives, as far as the journal reads it: a missing key is read as None.
pub data LoadedItem : Type 0 where
  not_payload : LoadedItem
  payload : StagedSegment → LoadedItem

pub record LoadedRecord : Type 0 where
  pub version : Value
  pub kind : Value
  pub ordinal : Value
  pub segments : Field LoadedItem

pub data Loaded : Type 0 where
  undecodable not_dict : Loaded
  dict : LoadedRecord → Loaded

-- The encoder gives the parts of a line, and may raise between two of them.
pub record Codec : Type 0 where
  pub iterencode : JournalRecord → List (Result (List ℕ))
  pub loads : List ℕ → Loaded

-- A factory, which `finalize` passes on, is here whether it is callable.
pub record SegmentJournal : Type 0 where
  pub committed_offset : ℕ
  pub chunk_count : ℕ
  pub segment_count : ℕ
  pub last_segment : Option StagedSegment
  pub last_segment_end : ℕ
  pub all_segments_have_words : Bool
  pub closed : Bool
  pub poisoned : Bool
  pub has_result_factory : Bool
  pub has_segment_factory : Bool

-- A journal and its file.
pub record Node : Type 0 where
  pub journal : SegmentJournal
  pub disk : Disk

-- The fields that the constructor sets, given whether the factories are callable.
abbrev pub new_journal : Bool → Bool → SegmentJournal
new_journal has_result_factory has_segment_factory = record {
  committed_offset = 0;
  chunk_count = 0;
  segment_count = 0;
  last_segment = none;
  last_segment_end = 0;
  all_segments_have_words = true;
  closed = false;
  poisoned = false;
  has_result_factory = has_result_factory;
  has_segment_factory = has_segment_factory;
}

unfoldable pub on_disk : {A : Type 0} → Action Disk A → Action Node A
on_disk m n = let (a, d) = m n.disk in (a, record n { disk = d })
