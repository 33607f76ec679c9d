-- ===== src/Segmentation/Sequential/Delivery.antt =====
-- The fuel of a run whose callbacks do not fail, and its transcript.
use subgen_english_plex.Common.{
  ℕ, zero, suc, ◌+◌, ◌*◌, ◌≤◌, ◌<◌, Bool, Option, none, some, Result, ok, raise, ◌≡◌, refl, pos,
  ◌==◌, subst, sym, ◌∙◌, arith, min, ==_iff, scale,
}
use subgen_english_plex.Common.Action.{
  Action, lift, ◌>>=◌, Holds, Outcome, Holds-bind, Holds-pure, Holds-gets, Holds-attempt,
  Holds-from, Holds-if, Holds-known,
}
use subgen_english_plex.Resource.Chunks.{AdaptiveChunkState, record_success}
use subgen_english_plex.Resource.Chunks.Bounds.{Keeps, SameSettings, record_success-Keeps}
use subgen_english_plex.Resource.Chunks.Bounds
use subgen_english_plex.Segmentation.Number.{real, integer, ticks, positive_number, finite_number}
use subgen_english_plex.Segmentation.Recognition.{StagedChunk}
use subgen_english_plex.Segmentation.Window.{ChunkWindow, plan_next_window}
use subgen_english_plex.Segmentation.Window.Plan.{
  IsNext, next_window, next_window-IsNext, plan_window_eq,
}
use subgen_english_plex.Segmentation.Assembly.{
  AssemblyState, initial_state, checked_state, complete, advanced,
}
use subgen_english_plex.Segmentation.Assembly.Commit.{
  IsValid, initial_state-IsValid, staged_commits,
}
use subgen_english_plex.Segmentation.Sequential.{
  finalized, Run, Callbacks, Attempted, staged, pressure, allocation, Iteration, again, leave,
  conclude, process, iterate, follow, loop, finish, run_segmented_transcription,
}
use subgen_english_plex.Segmentation.Sequential.Liveness.{
  Smooth, Never, Policy, Produced, call-Returns, emit_returns, attempt_produces, adapt_returns,
  commit_returns, guarded_returns,
}

positive_real : (d : ℕ) → 0 < d → positive_number (real (pos d)) ≡ ok d
unfolding positive_number
positive_real d h = ground arith

positive_seconds : (n : ℕ) → 0 < n → positive_number (integer (pos n)) ≡ ok (n * ticks)
unfolding positive_number scale
positive_seconds n h = ground arith

initial_state_checked : (d : ℕ) → 0 < d → checked_state (initial_state d) ≡ ok (initial_state d)
unfolding checked_state
initial_state_checked d h = ground arith

-- The plan for a whole number of seconds.
plan_seconds :
    (c d o l seconds : ℕ)
    → c < d
    → 0 < seconds
    → plan_next_window (real (pos c)) (real (pos d)) (integer (pos seconds)) o (real (pos l))
      ≡ ok (some (next_window c d (seconds * ticks) o l))
unfolding plan_next_window finite_number
plan_seconds c d o l seconds h p =
    rw (positive_real d (omega arith))
      (rw (positive_seconds seconds p) (plan_window_eq c d (seconds * ticks) o l h (omega arith)))

-- A chunk policy in its bounds, with the minimum `minimum`.
abbrev Adapted : ℕ → AdaptiveChunkState → Type 0
Adapted minimum a = Bounds.IsValid a × (a.minimum_seconds ≡ minimum)

success-Adapted :
    (m : ℕ) (b : Bool) (a : AdaptiveChunkState) → Adapted m a → Adapted m (record_success a b)
success-Adapted m b a (v, e) = let (v', same) = record_success-Keeps a b v in (v', same.minimum ∙ e)

-- An iteration goes on, with a valid state that is further on by the minimum at least.
abbrev Advanced : ℕ → AssemblyState → Iteration → Type 0
Advanced minimum s (leave n) = ⊥
Advanced minimum s (again n) =
    IsValid n
    × (n.media_duration ≡ s.media_duration)
    × (min s.media_duration (s.cursor + minimum * ticks) ≤ n.cursor)

further :
    (s : AssemblyState) {minimum overlap : ℕ} (seconds : ℕ) (w : ChunkWindow) (c : StagedChunk)
    → minimum ≤ seconds
    → IsNext s.cursor s.media_duration (seconds * ticks) s.completed_chunks overlap w
    → IsValid (advanced s w c)
    → (m : AssemblyState) → m ≡ advanced s w c
    → Advanced minimum s (again m)
further s {minimum} seconds w c k n v m e =
    subst (λ x. Advanced minimum s (again x)) (sym e) (v, refl, omega arith)

enough_left :
    (fuel minimum : ℕ) (s n : AssemblyState)
    → s.media_duration ≤ s.cursor + suc fuel * (minimum * ticks)
    → Advanced minimum s (again n)
    → n.media_duration ≤ n.cursor + fuel * (minimum * ticks)
enough_left fuel minimum s n h a = omega arith

module _ {W Audio Output : Type 0} (cb : Callbacks W Audio Output) (smooth : Smooth cb)
    (overlap minimum : ℕ) where
  abbrev AfterStep : AssemblyState → Iteration → Run W → Type 0
  AfterStep s i r = Policy (Adapted minimum) r × Advanced minimum s i

  module _ (s : AssemblyState) (valid : IsValid s) where
    conclude_advances :
        (seconds : ℕ) (w : ChunkWindow) (a : Attempted)
        → minimum ≤ seconds
        → IsNext s.cursor s.media_duration (seconds * ticks) s.completed_chunks overlap w
        → Holds {S = Run W}
            (λ r. Policy (Adapted minimum) r × Produced w a)
            (conclude cb s w a)
            (AfterStep s)
            Never
    unfolding conclude
    conclude_advances seconds w (staged c healthy) k n = record {
      at = λ r h.
          let (accepted, valid') = staged_commits s (seconds * ticks) overlap w c valid n h.1 in
          (Holds-bind _ _
              (Holds-attempt _
                (commit_returns cb smooth (Adapted minimum) s (advanced s w c) w c accepted))
              λ x. Holds-bind _ _ (guarded_returns cb smooth (Adapted minimum) w x) λ m.
                Holds-bind _ _
                  (call-Returns (λ p. Adapted minimum p × (m ≡ advanced s w c)) cb.check_cancelled
                    smooth.continues)
                  λ u.
                    Holds-bind _ _
                      (adapt_returns (λ p. Adapted minimum p × (m ≡ advanced s w c))
                        (λ p. Adapted minimum p × (m ≡ advanced s w c)) _
                        (λ p t. (success-Adapted minimum healthy p t.0, t.1)))
                      λ u1.
                        Holds-pure (again m)
                          (λ r t. (t.0, further s seconds w c k n valid' m t.1))).at
            r h.0;
    }
    conclude_advances seconds w (pressure e) k n = record { at = λ r h. absurd h.1 }
    conclude_advances seconds w (allocation e) k n = record { at = λ r h. absurd h.1 }

    process_advances :
        (seconds : ℕ) (w : ChunkWindow)
        → minimum ≤ seconds
        → IsNext s.cursor s.media_duration (seconds * ticks) s.completed_chunks overlap w
        → Holds {S = Run W} (Policy (Adapted minimum)) (process cb s (some w)) (AfterStep s) Never
    unfolding process
    process_advances seconds w k n =
        Holds-bind _ _ (call-Returns (Adapted minimum) cb.check_cancelled smooth.continues) λ u.
          Holds-bind _ _ (call-Returns (Adapted minimum) (cb.extract_chunk w) (smooth.extracts w))
            λ audio.
              Holds-bind _ _ (attempt_produces cb smooth (Adapted minimum) w audio n.consistent)
                λ a. conclude_advances seconds w a k n

    iterate_advances :
        s.cursor < s.media_duration
        → Holds {S = Run W}
            (Policy (Adapted minimum))
            (iterate cb (real (pos overlap)) s)
            (AfterStep s)
            Never
    unfolding iterate
    iterate_advances more =
        Holds-bind _ _ (call-Returns (Adapted minimum) cb.check_cancelled smooth.continues) λ u.
          Holds-bind
            {M = λ seconds r. Policy (Adapted minimum) r × (0 < seconds) × (minimum ≤ seconds)} _ _
            (Holds-gets _ (λ r h. (h, omega arith, omega arith)))
            λ seconds. record {
              at = λ r h.
                  let w =
                    next_window s.cursor s.media_duration (seconds * ticks) s.completed_chunks
                      overlap in
                  (Holds-known _ (process cb s) (some w)
                      (plan_seconds s.cursor s.media_duration s.completed_chunks overlap seconds
                        more h.1)
                      (process_advances seconds w h.2 (
                        next_window-IsNext s.cursor s.media_duration (seconds * ticks)
                          s.completed_chunks overlap more (omega arith)))).at
                    r h.0;
            }

  -- The loop ends with a state at the end of the media.
  abbrev Finished : Option AssemblyState → Run W → Type 0
  Finished none r = ⊥
  Finished (some s) r = s.cursor ≡ s.media_duration

  follow_finishes :
      (k : AssemblyState → Action (Run W) (Option AssemblyState)) (s : AssemblyState)
      (i : Iteration)
      → ((n : AssemblyState)
          → Advanced minimum s (again n)
          → Holds {S = Run W} (Policy (Adapted minimum)) (k n) Finished Never)
      → Holds {S = Run W} (AfterStep s i) (follow k i) Finished Never
  unfolding follow
  follow_finishes k s (again n) h = record { at = λ r t. (h n t.1).at r t.0 }
  follow_finishes k s (leave n) h = record { at = λ r t. absurd t.1 }

  loop_finishes :
      (fuel : ℕ) (s : AssemblyState)
      → IsValid s
      → s.media_duration ≤ s.cursor + fuel * (minimum * ticks)
      → Holds {S = Run W}
          (Policy (Adapted minimum))
          (loop cb (real (pos overlap)) (suc fuel) s)
          Finished
          Never
  unfolding loop complete
  loop_finishes zero s valid enough =
      Holds-if (s.cursor == s.media_duration) _ _
        (λ full. Holds-pure (some s) (λ r h. (==_iff _ _).0 full)) λ more. absurd (ground arith)
  loop_finishes (suc fuel) s valid enough =
      Holds-if (s.cursor == s.media_duration) _ _
        (λ full. Holds-pure (some s) (λ r h. (==_iff _ _).0 full))
        λ more. Holds-bind _ _ (iterate_advances s valid (ground arith)) λ i.
          follow_finishes (loop cb (real (pos overlap)) (suc fuel)) s i
            λ n h. loop_finishes fuel n h.0 (enough_left fuel minimum s n enough h)

  Delivered : Option Output → Run W → Type 0
  Delivered none r = ⊥
  Delivered (some o) r = Unit

  finish_delivers :
      (o : Option AssemblyState) → Holds {S = Run W} (Finished o) (finish cb o) Delivered Never
  unfolding finish Delivered
  finish_delivers none = record { at = λ r h. absurd h }
  finish_delivers (some s) =
      Holds-from _ (λ r h. tt)
        (Holds-bind _ _ (call-Returns (λ p. Unit {0}) cb.check_cancelled smooth.continues) λ u.
          Holds-bind _ _ (emit_returns (λ p. Unit {0}) (finalized s)) λ u1.
            Holds-bind _ _
              (call-Returns (λ p. Unit {0}) (cb.finalize_assembly s) (smooth.finalizes s))
              λ o.
                Holds-bind _ _ (call-Returns (λ p. Unit {0}) cb.check_cancelled smooth.continues)
                  λ u2. Holds-pure (some o) (λ r h. tt))

  Delivered-result :
      (x : Result (Option Output) × Run W)
      → Outcome Delivered Never x
      → (o : Output) × (r : Run W) × (x ≡ (ok (some o), r))
  unfolding Delivered
  Delivered-result (ok none, r) h = absurd h
  Delivered-result (ok (some o), r) h = (o, r, refl)
  Delivered-result (raise e, r) h = absurd h

-- If no callback raises and staging accepts what is recognised, a run over media of a positive duration
-- with a chunk policy in its bounds returns a result, on fuel of one more than the chunks of the
-- minimum duration that cover the media.
pub run_delivers :
    {W Audio Output : Type 0} (cb : Callbacks W Audio Output) (duration overlap fuel : ℕ)
    (r : Run W)
    → Smooth cb
    → Bounds.IsValid r.adaptive
    → 0 < duration
    → duration ≤ fuel * (r.adaptive.minimum_seconds * ticks)
    → (o : Output) × (r' : Run W) × (run_segmented_transcription cb
          (real (pos overlap))
          (suc fuel)
          (real (pos duration))
          r
        ≡ (ok (some o), r'))
unfolding run_segmented_transcription lift ◌>>=◌
run_delivers cb d overlap fuel r smooth v p enough =
    let m = r.adaptive.minimum_seconds in
    rw (positive_real d p) (
      rw (initial_state_checked d p) (
        Delivered-result cb smooth overlap m _ (
          (Holds-bind _ _
              (loop_finishes cb smooth overlap m fuel (initial_state d) (initial_state-IsValid d p)
                (omega arith))
              (finish_delivers cb smooth overlap m)).at
            r (v, refl))))
