-- ===== src/Tests/Execution.antt =====
-- An activity in capitals between blanks, and the default run mode with a priority file.
use subgen_english_plex.Common.{
  ◌≡◌, refl, true, some, none, [], ◌∷◌, ok, raise, value_error, same_text,
}
use subgen_english_plex.Execution.{
  Flags, ExecutionPolicy, max_activity, adaptive, dedicated_word, resolve_execution_policy,
}
use subgen_english_plex.Execution.Policy.{IsSound, resolve_execution_policy-IsSound}

abbrev flags : Flags
flags = record {
  segmentation_enabled = true;
  memory_pressure_yield = true;
  shared_host_gate_enabled = true;
  priority_pressure_file = 47 ∷ 112 ∷ [];
}

abbrev resolved : ExecutionPolicy
resolved = record {
  activity = max_activity;
  run_mode = adaptive;
  working_budget_percent = 100;
  automatic_chunk_ceiling_minutes = 30;
  inter_file_delay_seconds = 0;
  priority_signal_enabled = true;
  adaptive_segmentation_enabled = true;
}

maximum_resolved :
    resolve_execution_policy (some (32 ∷ 77 ∷ 65 ∷ 88 ∷ 10 ∷ [])) none flags ≡ ok resolved
unfolding resolve_execution_policy same_text
maximum_resolved = refl

gated_refused : resolve_execution_policy none (some dedicated_word) flags ≡ raise value_error
unfolding resolve_execution_policy same_text
gated_refused = refl

resolve_execution_policy-IsSound_example : IsSound flags resolved
resolve_execution_policy-IsSound_example =
    resolve_execution_policy-IsSound (some (32 ∷ 77 ∷ 65 ∷ 88 ∷ 10 ∷ [])) none flags resolved
      maximum_resolved
