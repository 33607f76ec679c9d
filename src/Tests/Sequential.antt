-- ===== src/Tests/Sequential.antt =====
-- Runs over ten seconds of silence, with chunks of four seconds. The state of the caller counts the
-- recognitions; `flaky` yields to memory pressure at the first.
use subgen_english_plex.Common.{
  ℕ, ◌+◌, ◌≡◌, refl, List, [], ◌∷◌, none, some, pos, ok, raise, arith, scale, true, false, ◌==◌,
  Result, memory_pressure_yield, if◌then◌else◌, Option,
}
use subgen_english_plex.Common.Action.{Outcome, pure, lift, gets, modify, attempt, ◌>>=◌, throw}
use subgen_english_plex.Resource.Chunks.{record_success, record_pressure_yield}
use subgen_english_plex.Segmentation.Number.{Value, real, null, positive_number}
use subgen_english_plex.Segmentation.Recognition.{RawResult, items}
use subgen_english_plex.Segmentation.Copy.{structured_sequence}
use subgen_english_plex.Segmentation.Window.{ChunkWindow, plan_next_window}
use subgen_english_plex.Segmentation.Window.Tiling.{Tiles}
use subgen_english_plex.Segmentation.Staging.{
  stage_chunk_result, stage_segments, validate_monotonic_segments,
}
use subgen_english_plex.Segmentation.Assembly.{
  AssemblyState, commit_chunk, next_state, checked_state, complete, aggregate_language,
}
use subgen_english_plex.Segmentation.Assembly.Transcript.{Describes, windows}
use subgen_english_plex.Segmentation.Sequential.{
  Run, Callbacks, other_recovery, Event, finalized, run_segmented_transcription, loop, iterate,
  follow, process, conclude, attempt_chunk, commit_and_report, persist, recover, settle, give_up,
  record_control, unwind, guarded, transcribed, stage_result, checked, call, emit, adapt, finish,
  external_pressure_recovered,
}
use subgen_english_plex.Segmentation.Sequential.Trace.{Closed, stored, Ended}
use subgen_english_plex.Segmentation.Sequential.Rules.{On}
use subgen_english_plex.Segmentation.Sequential.Finish.{AfterRun, run_settles, run_transcript}
use subgen_english_plex.Segmentation.Sequential.Liveness.{Smooth}
use subgen_english_plex.Segmentation.Sequential.Delivery.{run_delivers}

abbrev silent_result : RawResult
silent_result = record { segments = items []; language = null }

abbrev calm : Callbacks ℕ (Unit {0}) ℕ
calm = record {
  extract_chunk = λ w n. (ok tt, n);
  transcribe_chunk = λ a w n. (ok silent_result, n + 1);
  release_failure = λ e w n. (ok tt, n);
  wait_for_recovery = λ e w n. (ok other_recovery, n);
  persist_chunk = λ w c s n. (ok tt, n);
  finalize_assembly = λ s n. (ok s.completed_chunks, n);
  check_cancelled = λ n. (ok tt, n);
  check_before_commit = λ n. (ok true, n);
  is_allocation_failure = λ e n. (ok false, n);
  chunk_started = λ w n. (ok tt, n);
  chunk_unwound = λ w n. (ok tt, n);
  chunk_committed = λ w s n. (ok tt, n);
}

abbrev flaky : Callbacks ℕ (Unit {0}) ℕ
flaky = record calm {
  transcribe_chunk =
      λ a w n. if n == 0 then (raise memory_pressure_yield, n + 1) else (ok silent_result, n + 1);
}

abbrev begin : Run ℕ
begin = record {
  world = 0;
  adaptive = record {
    baseline_seconds = 4;
    minimum_seconds = 2;
    successes_to_grow = 3;
    current_seconds = 4;
    minimum_allocation_failures = 0;
    consecutive_healthy_successes = 0;
  };
  trace = [];
}

abbrev overlap : Value
overlap = real (pos 1_000_000)

flaky_run : Result (Option ℕ) × Run ℕ
flaky_run = run_segmented_transcription flaky overlap 9 (real (pos 10_000_000)) begin

-- After the yield the chunks are two seconds long until three of them have succeeded.
flaky_delivers : flaky_run ≡ (ok (some 4), flaky_run.1)
unfolding flaky_run run_segmented_transcription ◌>>=◌ lift pure throw gets modify attempt
    positive_number checked_state loop complete iterate follow plan_next_window scale process
    attempt_chunk call emit adapt guarded unwind transcribed stage_result checked stage_chunk_result
    structured_sequence stage_segments validate_monotonic_segments conclude commit_and_report
    commit_chunk persist next_state aggregate_language record_success record_pressure_yield recover
    record_control settle give_up external_pressure_recovered finish
flaky_delivers = refl

run_settles_example : Outcome (AfterRun 10_000_000 flaky) (On (Ended 10_000_000)) flaky_run
unfolding flaky_run
run_settles_example = run_settles 10_000_000 flaky overlap 9 begin (omega arith) refl

run_transcript_example :
    (s : AssemblyState) × (es : List Event) × (flaky_run.1.trace ≡ finalized s ∷ es)
    × Closed es
    × Describes 10_000_000 s (stored es)
    × Tiles 10_000_000 0 10_000_000 (windows (stored es))
unfolding flaky_run
run_transcript_example =
    run_transcript flaky 10_000_000 overlap 9 begin flaky_run.1 4 (omega arith) refl flaky_delivers

calm_stages :
    (w : ChunkWindow)
    → stage_chunk_result silent_result w ≡ ok (record { language = none; segments = [] })
unfolding stage_chunk_result structured_sequence stage_segments validate_monotonic_segments
calm_stages w = refl

calm-Smooth : Smooth calm
calm-Smooth = record {
  extracts = λ w n. (tt, n, refl);
  transcribes = λ a w k n.
      (silent_result, n + 1, refl, record { language = none; segments = [] }, calm_stages w);
  persists = λ w c s n. (tt, n, refl);
  finalizes = λ s n. (s.completed_chunks, n, refl);
  continues = λ n. (tt, n, refl);
  samples = λ n. (true, n, refl);
  starts = λ w n. (tt, n, refl);
  reports = λ w s n. (tt, n, refl);
}

run_delivers_example :
    (o : ℕ) × (r : Run ℕ) × (run_segmented_transcription calm overlap 6
        (real (pos 10_000_000))
        begin
      ≡ (ok (some o), r))
run_delivers_example =
    run_delivers calm 10_000_000 1_000_000 5 begin calm-Smooth (omega arith) (omega arith)
      (omega arith)
