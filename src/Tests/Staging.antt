-- ===== src/Tests/Staging.antt =====
-- A recognition of the second window: one word before its core, two words in it, and a plain segment
-- at its end.
use subgen_english_plex.Common.{◌≡◌, ◌↔◌, refl, [], ◌∷◌, none, some, pos, negsuc, ok, arith, ◌+ℤ◌}
use subgen_english_plex.Segmentation.Number.{Value, real, integer, text, null}
use subgen_english_plex.Segmentation.Recognition.{
  Metadata, word, segment, RawItem, RawResult, items, missing, no_value, StagedWord, StagedChunk,
}
use subgen_english_plex.Segmentation.Window.{owns_midpoint}
use subgen_english_plex.Segmentation.Staging.{
  stage_chunk_result, validate_monotonic_segments, stage_segments, stage_segment,
  normalized_language,
}
use subgen_english_plex.Segmentation.Copy.{
  structured_sequence, copy_segment_metadata, copy_optional_real, copy_words, copy_word,
  copy_tokens, copy_token_list, flatten_owned_tokens, segment_tokens,
}
use subgen_english_plex.Segmentation.Staging.Order.{
  SegmentsOrdered, validate_monotonic_segments_iff,
}
use subgen_english_plex.Segmentation.Staging.Contract.{
  IsStaged, stage_chunk_result-IsStaged, published_once, publications,
}
use subgen_english_plex.Tests.Window.{second, whole, whole-Tiles}

abbrev nothing : Metadata Value
nothing = record {
  temperature = null;
  avg_logprob = null;
  compression_ratio = null;
  no_speech_prob = null;
}

abbrev spoken : RawItem
spoken = segment (record {
  metadata = nothing;
  start = real (pos 0);
  end = real (pos 4);
  text_value = some (text (97 ∷ []));
  tokens = missing;
  words = items (
      word (text (97 ∷ [])) (real (negsuc 0)) (real (pos 1)) null missing
      ∷ word (text (98 ∷ [])) (real (pos 0)) (real (pos 3)) null (items (integer (pos 7) ∷ []))
      ∷ word (text (99 ∷ [])) (real (pos 3)) (real (pos 4)) null (items (integer (pos 8) ∷ []))
      ∷ []);
})

abbrev plain : RawItem
plain = segment (record {
  metadata = nothing;
  start = real (pos 4);
  end = real (pos 5);
  text_value = some (text (100 ∷ []));
  tokens = missing;
  words = no_value;
})

abbrev heard : RawResult
heard = record { segments = items (spoken ∷ plain ∷ []); language = text (32 ∷ 101 ∷ 110 ∷ []) }

abbrev pub heard_chunk : StagedChunk
heard_chunk = record {
  language = some (101 ∷ 110 ∷ []);
  segments =
      record {
        metadata = record {
          temperature = none;
          avg_logprob = none;
          compression_ratio = none;
          no_speech_prob = none;
        };
        start = 4;
        end = 7;
        segment_text = 98 ∷ 99 ∷ [];
        tokens = some (pos 7 ∷ pos 8 ∷ []);
        words = some (
            record {
              word_text = 98 ∷ [];
              start = 4;
              end = 6;
              probability = none;
              tokens = some (pos 7 ∷ []);
            }
            ∷ record {
              word_text = 99 ∷ [];
              start = 6;
              end = 7;
              probability = none;
              tokens = some (pos 8 ∷ []);
            }
            ∷ []);
      }
      ∷ record {
        metadata = record {
          temperature = none;
          avg_logprob = none;
          compression_ratio = none;
          no_speech_prob = none;
        };
        start = 7;
        end = 8;
        segment_text = 100 ∷ [];
        tokens = some [];
        words = none;
      }
      ∷ [];
}

heard_staged : stage_chunk_result heard second ≡ ok heard_chunk
unfolding stage_chunk_result structured_sequence stage_segments stage_segment copy_segment_metadata
    copy_optional_real copy_words copy_word copy_tokens copy_token_list ◌+ℤ◌ owns_midpoint
    validate_monotonic_segments normalized_language flatten_owned_tokens segment_tokens
heard_staged = refl

stage_chunk_result-IsStaged_example : IsStaged second heard_chunk
stage_chunk_result-IsStaged_example =
    stage_chunk_result-IsStaged heard second heard_chunk (omega arith) heard_staged

abbrev boundary_word : StagedWord
boundary_word = record {
  word_text = 98 ∷ [];
  start = 3;
  end = 5;
  probability = none;
  tokens = none;
}

published_once_example : publications whole boundary_word ≡ 1
published_once_example =
    published_once 10 whole boundary_word (omega arith) whole-Tiles (omega arith) (omega arith)

validate_monotonic_segments_iff_example :
    (validate_monotonic_segments 10 heard_chunk.segments ≡ ok tt)
    ↔ SegmentsOrdered 10 0 heard_chunk.segments
validate_monotonic_segments_iff_example = validate_monotonic_segments_iff 10 heard_chunk.segments
