-- ===== src/Segmentation/Copy.antt =====
-- The copying functions of subgen_core/segmentation.py: a field of a recognition result becomes a
-- checked value, moved onto the source timeline.
use subgen_english_plex.Common.{
  ℕ, Option, none, some, List, [], ◌∷◌, ◌++◌, ℤ, pos, negsuc, ◌+ℤ◌, leb_ℤ, Result, ok, raise, ◌>>=◌,
  ◌>>◌, require, segmentation_error, non_monotonic_result, leb,
}
use subgen_english_plex.Segmentation.Number.{Text, Value, integer, text, null, finite_number}
use subgen_english_plex.Segmentation.Recognition.{
  Field, missing, no_value, malformed, items, RawWord, not_mapping, word, Metadata, StagedWord,
}

-- `_structured_sequence`
unfoldable pub structured_sequence : {A : Type 0} → Field A → Result (List A)
structured_sequence (items xs) = ok xs
structured_sequence _ = raise segmentation_error

-- The loop of `_copy_tokens`: only integers, and no bool, are tokens.
unfoldable pub copy_token_list : List Value → Result (List ℤ)
copy_token_list [] = ok []
copy_token_list (integer n ∷ vs) = do ns ← copy_token_list vs; ok (n ∷ ns)
copy_token_list (_ ∷ vs) = raise segmentation_error

-- `_copy_tokens`
unfoldable pub copy_tokens : Field Value → Result (Option (List ℤ))
copy_tokens missing = ok none
copy_tokens no_value = ok none
copy_tokens malformed = raise segmentation_error
copy_tokens (items vs) = do ns ← copy_token_list vs; ok (some ns)

-- `_copy_tokens(source.get("tokens", []), "segment")`: a missing key is an empty list here.
unfoldable pub segment_tokens : Field Value → Result (Option (List ℤ))
unfolding copy_tokens
segment_tokens missing = ok (some [])
segment_tokens no_value = copy_tokens no_value
segment_tokens malformed = copy_tokens malformed
segment_tokens (items vs) = copy_tokens (items vs)

-- `_copy_optional_real`
unfoldable pub copy_optional_real : Value → Result (Option ℤ)
copy_optional_real null = ok none
copy_optional_real v = do n ← finite_number v; ok (some n)

-- `0 <= number <= media_duration`, which makes the number a natural.
unfoldable pub on_timeline : ℕ → ℤ → Result ℕ
on_timeline media_duration (pos n) = do require (leb n media_duration) non_monotonic_result; ok n
on_timeline media_duration (negsuc n) = raise non_monotonic_result

-- `_validated_interval` with a media duration, which every caller gives.
unfoldable pub validated_interval : ℤ → ℤ → ℕ → Result (ℕ × ℕ)
unfolding on_timeline
validated_interval start end media_duration = do
  require (leb_ℤ start end) non_monotonic_result
  s ← on_timeline media_duration start
  e ← on_timeline media_duration end
  ok (s, e)

-- A string field.
abbrev pub string_value : Value → Result Text
string_value (text t) = ok t
string_value _ = raise segmentation_error

-- `_copy_word`, moved by the start of the extraction.
unfoldable pub copy_word : ℕ → ℕ → RawWord → Result StagedWord
copy_word offset media_duration not_mapping = raise segmentation_error
copy_word offset media_duration (word text_field start end probability tokens) = do
  t ← string_value text_field
  local_start ← finite_number start
  local_end ← finite_number end
  (s, e) ← validated_interval (local_start +ℤ pos offset) (local_end +ℤ pos offset) media_duration
  p ← copy_optional_real probability
  ts ← copy_tokens tokens
  ok (record { word_text = t; start = s; end = e; probability = p; tokens = ts })

unfoldable pub copy_words : ℕ → ℕ → List RawWord → Result (List StagedWord)
copy_words offset media_duration [] = ok []
copy_words offset media_duration (w ∷ ws) = do
  staged ← copy_word offset media_duration w
  rest ← copy_words offset media_duration ws
  ok (staged ∷ rest)

-- `_copy_segment_metadata`
unfoldable pub copy_segment_metadata : Metadata Value → Result (Metadata (Option ℤ))
copy_segment_metadata m = do
  t ← copy_optional_real m.temperature
  a ← copy_optional_real m.avg_logprob
  c ← copy_optional_real m.compression_ratio
  n ← copy_optional_real m.no_speech_prob
  ok (record { temperature = t; avg_logprob = a; compression_ratio = c; no_speech_prob = n })

-- `_flatten_owned_tokens`: nothing if there is no word or a word has no tokens.
unfoldable pub flatten_groups : List StagedWord → Option (List ℤ)
flatten_groups [] = some []
flatten_groups (w ∷ ws) = elim w.tokens [
  | none ↦ none
  | some ts ↦ elim (flatten_groups ws) [ none ↦ none | some rest ↦ some (ts ++ rest) ]
]

unfoldable pub flatten_owned_tokens : List StagedWord → Option (List ℤ)
unfolding flatten_groups
flatten_owned_tokens [] = none
flatten_owned_tokens (w ∷ ws) = flatten_groups (w ∷ ws)
