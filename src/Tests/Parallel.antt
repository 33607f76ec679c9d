-- ===== src/Tests/Parallel.antt =====
-- Two workers over ten microseconds of media, in chunks of four, and one worker over a single chunk.
use subgen_english_plex.Common.{
  same_text, All, ℕ, ◌+◌, ◌≡◌, refl, List, [], ◌∷◌, none, some, pos, ok, raise, arith, true, false,
  segmentation_error, Bool, ◌/◌,
}
use subgen_english_plex.Common.Action.{Action, Outcome, pure, lift, gets, modify, attempt, ◌>>=◌}
use subgen_english_plex.Segmentation.Number.{Text, real, null, positive_number}
use subgen_english_plex.Segmentation.Recognition.{RawResult, items, StagedChunk}
use subgen_english_plex.Segmentation.Copy.{structured_sequence}
use subgen_english_plex.Segmentation.Ranges.{Range, merge_ranges, sort_ranges}
use subgen_english_plex.Segmentation.Ranges.Coverage.{coverage, holds, coalesce, Proper}
use subgen_english_plex.Segmentation.Window.{plan_next_window}
use subgen_english_plex.Segmentation.Window.Plan.{next_window}
use subgen_english_plex.Segmentation.Staging.{
  stage_chunk_result, stage_segments, validate_monotonic_segments,
}
use subgen_english_plex.Segmentation.Assembly.{initial_state, commit_chunk, next_state, complete}
use subgen_english_plex.Segmentation.Parallel.{
  ChunkAssignment, Coordinator, new_coordinator, mentions, assigned, unassign, claim, dispatch,
  claim_fresh, claim_retry, plan_claim, pending_count, maximum_pending, require_attempt,
  same_attempt, yielded,
}
use subgen_english_plex.Segmentation.Parallel.Storage.{
  Storage, completed, commit_ready, commit_loop, commit_ready_at, commit_next, commit_one,
  commit_limit, on_world, ready_at, set_ready, remove_ready,
}
use subgen_english_plex.Segmentation.Ranges.Order.{From}
use subgen_english_plex.Segmentation.Parallel.Dispatch.{Balanced, Dispatched}
use subgen_english_plex.Segmentation.Parallel.Claim.{claim_lem}
use subgen_english_plex.Segmentation.Parallel.Committing.{commit_ready-Balanced, Returned}
use subgen_english_plex.Segmentation.Parallel.Reach.{
  Steps, claims, yields, completes, commits, here, there,
}
use subgen_english_plex.Segmentation.Parallel.Attempts.{late_report-refused}
use subgen_english_plex.Segmentation.Parallel.Delivery.{reached-Balanced, nothing_lost}

-- Handles are the staged chunks; the caller's state counts the calls.
abbrev calm_storage : Storage ℕ StagedChunk
calm_storage = record {
  store_result = λ c n. (ok c, n + 1);
  read_result = λ h n. (ok h, n + 1);
  discard_result = λ h n. (ok tt, n + 1);
  persist_chunk = λ w c s n. (ok tt, n + 1);
}

abbrev silence : RawResult
silence = record { segments = items []; language = null }

abbrev first : Text
first = 97 ∷ []

abbrev second : Text
second = 98 ∷ []

abbrev healthy : Action ℕ Bool
healthy n = (ok true, n)

-- A coordinator of two workers with no ready entry.
abbrev two_workers : ℕ → ℕ → List ChunkAssignment → List Range → Coordinator ℕ StagedChunk
two_workers cursor attempt inflight retry = record {
  world = 0;
  state = initial_state 10;
  workers = first ∷ second ∷ [];
  overlap = 2;
  cursor = cursor;
  attempt = attempt;
  inflight = inflight;
  ready = [];
  retry = retry;
  closed = false;
  dispatch_paused = false;
}

abbrev given : Text → ℕ → ChunkAssignment
given worker attempt = record { worker = worker; window = next_window 0 10 4 attempt 2 }

abbrev idle : Coordinator ℕ StagedChunk
idle = two_workers 0 0 [] []

abbrev claimed : Coordinator ℕ StagedChunk
claimed = two_workers 4 1 (given first 0 ∷ []) []

abbrev returned : Coordinator ℕ StagedChunk
returned = two_workers 4 1 [] ((0, 4) ∷ [])

abbrev reassigned : Coordinator ℕ StagedChunk
reassigned = two_workers 4 2 (given second 1 ∷ []) []

idle_new : new_coordinator 0 (real (pos 10)) (first ∷ second ∷ []) (real (pos 2)) ≡ ok idle
unfolding new_coordinator same_text
idle_new = refl

idle-claimed : claim idle first (real (pos 4)) ≡ ok (claimed, some (given first 0))
unfolding claim dispatch claim_fresh plan_claim plan_next_window same_text assigned
idle-claimed = refl

claimed-returned : yielded claimed (given first 0) ≡ ok returned
unfolding yielded require_attempt assigned unassign same_attempt merge_ranges sort_ranges same_text
claimed-returned = refl

returned-reassigned : claim returned second (real (pos 4)) ≡ ok (reassigned, some (given second 1))
unfolding claim dispatch claim_retry plan_claim plan_next_window same_text assigned
returned-reassigned = refl

to_claimed : Steps calm_storage idle claimed
to_claimed = there here (claims first (real (pos 4)) (some (given first 0)) idle-claimed)

claimed-Balanced : Balanced claimed
claimed-Balanced =
    reached-Balanced calm_storage 0 (real (pos 10)) (first ∷ second ∷ []) (real (pos 2)) idle
      claimed idle_new to_claimed

reached-Balanced_example : Balanced reassigned
reached-Balanced_example =
    reached-Balanced calm_storage 0 (real (pos 10)) (first ∷ second ∷ []) (real (pos 2)) idle
      reassigned idle_new
      (there (there to_claimed (yields (given first 0) claimed-returned))
        (claims second (real (pos 4)) (some (given second 1)) returned-reassigned))

late_report-refused_example :
    (yielded reassigned (given first 0) ≡ raise segmentation_error)
    × (completed calm_storage (given first 0) silence reassigned
        ≡ (raise segmentation_error, reassigned))
late_report-refused_example =
    late_report-refused calm_storage claimed returned reassigned (given first 0) silence
      claimed-Balanced claimed-returned
      (there here (claims second (real (pos 4)) (some (given second 1)) returned-reassigned)) refl

claim_lem_example :
    Dispatched claimed second 4 (4, 10) (claim claimed second (real (pos 4)))
    × All (From 4) claimed.retry
unfolding mentions assigned pending_count positive_number same_text maximum_pending
claim_lem_example =
    claim_lem claimed second (real (pos 4)) 4 claimed-Balanced refl refl refl refl (omega arith)
      refl

commit_ready-Balanced_example :
    Outcome (Returned calm_storage) Balanced (commit_ready calm_storage healthy none claimed)
commit_ready-Balanced_example =
    (commit_ready-Balanced calm_storage healthy none).at claimed claimed-Balanced

-- One worker, for a file of one chunk.
abbrev one_worker : ℕ → List ChunkAssignment → Coordinator ℕ StagedChunk
one_worker cursor inflight = record {
  world = 0;
  state = initial_state 4;
  workers = first ∷ [];
  overlap = 0;
  cursor = cursor;
  attempt = cursor / 4;
  inflight = inflight;
  ready = [];
  retry = [];
  closed = false;
  dispatch_paused = false;
}

abbrev whole_file : ChunkAssignment
whole_file = record { worker = first; window = next_window 0 4 4 0 0 }

abbrev staged_file : Coordinator ℕ StagedChunk
staged_file = (completed calm_storage whole_file silence (one_worker 4 (whole_file ∷ []))).1

abbrev committed_file : Coordinator ℕ StagedChunk
committed_file = (commit_ready calm_storage healthy none staged_file).1

one_worker_new : new_coordinator 0 (real (pos 4)) (first ∷ []) (real (pos 0)) ≡ ok (one_worker 0 [])
unfolding new_coordinator
one_worker_new = refl

one_worker-claimed :
    claim (one_worker 0 []) first (real (pos 4))
    ≡ ok (one_worker 4 (whole_file ∷ []), some whole_file)
unfolding claim dispatch claim_fresh plan_claim plan_next_window same_text assigned
one_worker-claimed = refl

nothing_lost_example : complete committed_file.state ≡ true
unfolding completed require_attempt assigned unassign same_attempt stage_chunk_result commit_ready
    commit_loop commit_ready_at commit_next commit_one commit_limit commit_chunk next_state on_world
    ready_at set_ready remove_ready pure lift gets modify ◌>>=◌ same_text structured_sequence
    stage_segments validate_monotonic_segments
nothing_lost_example =
    nothing_lost calm_storage 0 (real (pos 4)) (first ∷ []) (real (pos 0)) (one_worker 0 [])
      committed_file one_worker_new
      (there
        (there (there here (claims first (real (pos 4)) (some whole_file) one_worker-claimed))
          (completes whole_file silence))
        (commits healthy none))
      refl refl refl refl

coalesce_example :
    ((t : ℕ)
      → coverage (merge_ranges (sort_ranges ((0, 2) ∷ (4, 6) ∷ (2, 4) ∷ []))) t
        ≡ coverage ((0, 2) ∷ (4, 6) ∷ []) t + holds 2 4 t)
    × All (Proper 10) (merge_ranges (sort_ranges ((0, 2) ∷ (4, 6) ∷ (2, 4) ∷ [])))
coalesce_example =
    coalesce 10 ((0, 2) ∷ (4, 6) ∷ []) (2, 4)
      ((omega arith, omega arith), ((omega arith, omega arith), tt)) (omega arith, omega arith)
