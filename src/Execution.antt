-- ===== src/Execution.antt =====
-- `resolve_execution_policy` of subgen_core/execution_policy.py: what the settings of activity and run
-- mode stand for. A variable that is not set is `none`; the flags are parsed booleans.
pub mod Policy
use subgen_english_plex.Common.{
  ℕ, ◌+◌, Bool, true, false, not, ◌&&◌, ◌||◌, Option, none, some, List, [], ◌∷◌, Result, ok, raise,
  ◌>>=◌, ◌>>◌, require, value_error, leb, ltb, same_text, if◌then◌else◌, length,
}
use subgen_english_plex.Segmentation.Number.{Text}
use subgen_english_plex.Segmentation.Staging.{strip}

pub data Activity : Type 0 where
  passive balanced max_activity : Activity

pub data RunMode : Type 0 where
  adaptive dedicated : RunMode

pub record ExecutionPolicy : Type 0 where
  pub activity : Activity
  pub run_mode : RunMode
  pub working_budget_percent : ℕ
  pub automatic_chunk_ceiling_minutes : ℕ
  pub inter_file_delay_seconds : ℕ
  pub priority_signal_enabled : Bool
  pub adaptive_segmentation_enabled : Bool

-- `str.lower` on the letters of the accepted words; no other letter is lowered to one of them.
abbrev pub lower_letter : ℕ → ℕ
lower_letter c = if leb 65 c && leb c 90 then c + 32 else c

unfoldable pub lower : Text → Text
lower [] = []
lower (c ∷ cs) = lower_letter c ∷ lower cs

abbrev pub passive_word : Text
passive_word = 112 ∷ 97 ∷ 115 ∷ 115 ∷ 105 ∷ 118 ∷ 101 ∷ []

abbrev pub balanced_word : Text
balanced_word = 98 ∷ 97 ∷ 108 ∷ 97 ∷ 110 ∷ 99 ∷ 101 ∷ 100 ∷ []

abbrev pub max_word : Text
max_word = 109 ∷ 97 ∷ 120 ∷ []

abbrev pub adaptive_word : Text
adaptive_word = 97 ∷ 100 ∷ 97 ∷ 112 ∷ 116 ∷ 105 ∷ 118 ∷ 101 ∷ []

abbrev pub dedicated_word : Text
dedicated_word = 100 ∷ 101 ∷ 100 ∷ 105 ∷ 99 ∷ 97 ∷ 116 ∷ 101 ∷ 100 ∷ []

-- `_choice` among the activities, for a normalized word.
unfoldable pub activity_of : Text → Result Activity
activity_of w =
    if same_text w passive_word
    then ok passive
    else (if same_text w balanced_word
        then ok balanced
        else (if same_text w max_word then ok max_activity else raise value_error))

-- `_choice` among the run modes.
unfoldable pub run_mode_of : Text → Result RunMode
run_mode_of w =
    if same_text w adaptive_word
    then ok adaptive
    else (if same_text w dedicated_word then ok dedicated else raise value_error)

-- `environment.get(name, default)`
abbrev pub setting : Text → Option Text → Text
setting default none = default
setting default (some t) = t

-- The rows of `_ACTIVITIES`.
unfoldable pub percent_of : Activity → ℕ
percent_of passive = 50
percent_of balanced = 75
percent_of max_activity = 100

unfoldable pub ceiling_of : Activity → ℕ
ceiling_of passive = 10
ceiling_of balanced = 20
ceiling_of max_activity = 30

unfoldable pub delay_of : Activity → ℕ
delay_of passive = 5
delay_of balanced = 1
delay_of max_activity = 0

abbrev pub runs_dedicated : RunMode → Bool
runs_dedicated dedicated = true
runs_dedicated adaptive = false

-- The flags that the caller has parsed, and the path of the priority file.
pub record Flags : Type 0 where
  pub segmentation_enabled : Bool
  pub memory_pressure_yield : Bool
  pub shared_host_gate_enabled : Bool
  pub priority_pressure_file : Text

-- `bool(priority_pressure_file.strip())`
unfoldable pub priority_configured : Flags → Bool
unfolding strip
priority_configured f = ltb 0 (length (strip f.priority_pressure_file))

unfoldable pub policy_of : Activity → RunMode → Flags → ExecutionPolicy
unfolding percent_of ceiling_of delay_of priority_configured
policy_of a m f = record {
  activity = a;
  run_mode = m;
  working_budget_percent = percent_of a;
  automatic_chunk_ceiling_minutes = ceiling_of a;
  inter_file_delay_seconds = delay_of a;
  priority_signal_enabled = priority_configured f && not (runs_dedicated m);
  adaptive_segmentation_enabled = true;
}

unfoldable pub resolve_execution_policy : Option Text → Option Text → Flags → Result ExecutionPolicy
unfolding activity_of run_mode_of lower strip policy_of
resolve_execution_policy activity run_mode f = do
  a ← activity_of (lower (strip (setting balanced_word activity)))
  m ← run_mode_of (lower (strip (setting adaptive_word run_mode)))
  require f.segmentation_enabled value_error
  require f.memory_pressure_yield value_error
  require (not (runs_dedicated m && f.shared_host_gate_enabled)) value_error
  ok (policy_of a m f)

unfoldable pub retain_model_for_queued_work : ExecutionPolicy → Bool
retain_model_for_queued_work p = runs_dedicated p.run_mode
