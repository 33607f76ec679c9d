-- ===== src/Segmentation/Sequential/Finish.antt =====
-- The loop of a run, and how a run ends.
use subgen_english_plex.Common.{
  ℕ, zero, suc, Option, none, some, List, [], ◌∷◌, ok, ◌≡◌, refl, pos, ◌<◌, ◌==◌, subst, sym, ◌∙◌,
  arith, ==_iff,
}
use subgen_english_plex.Common.Action.{
  Action, lift, ◌>>=◌, Holds, Outcome, Holds-bind, Holds-pure, Holds-from, Holds-if,
}
use subgen_english_plex.Segmentation.Number.{Value, real, positive_number, finite_number}
use subgen_english_plex.Segmentation.Assembly.{
  AssemblyState, initial_state, checked_state, complete,
}
use subgen_english_plex.Segmentation.Assembly.Transcript.{
  start, Describes, Commits-Describes, windows,
}
use subgen_english_plex.Segmentation.Window.Tiling.{Tiles}
use subgen_english_plex.Segmentation.Sequential.{
  Event, finalized, Run, Callbacks, Iteration, again, leave, follow, loop, finish,
  run_segmented_transcription,
}
use subgen_english_plex.Segmentation.Sequential.Trace.{
  Closed, untouched, stored, Settled, Ended, delivered, Settled-Ended,
}
use subgen_english_plex.Segmentation.Sequential.Rules.{On, Holds-call, Holds-emit}
use subgen_english_plex.Segmentation.Sequential.Outcome.{AfterIteration, iterate_settles}

positive_number_lem : (d : ℕ) → 0 < d → positive_number (real (pos d)) ≡ ok d
unfolding positive_number finite_number
positive_number_lem d h = ground arith

initial_state_checked : (d : ℕ) → 0 < d → checked_state (initial_state d) ≡ ok (initial_state d)
unfolding checked_state
initial_state_checked d h = ground arith

module _ (duration : ℕ) where
  module _ {W Audio Output : Type 0} (cb : Callbacks W Audio Output) where
    -- The loop ends settled, at the end of the media unless its fuel ran out.
    abbrev pub AfterLoop : Option AssemblyState → Run W → Type 0
    AfterLoop none r = Ended duration r.trace
    AfterLoop (some s) r = Settled duration s r.trace × (s.cursor ≡ duration)

    follow_settles :
        (k : AssemblyState → Action (Run W) (Option AssemblyState))
        → ((n : AssemblyState)
            → n.media_duration ≡ duration
            → Holds (On (Settled duration n)) (k n) AfterLoop (On (Ended duration)))
        → (i : Iteration)
        → Holds {S = Run W} (AfterIteration duration i) (follow k i) AfterLoop (On (Ended duration))
    unfolding follow
    follow_settles k h (again n) = record { at = λ r t. (h n t.1).at r t.0 }
    follow_settles k h (leave n) = Holds-pure (some n) (λ r t. t)

    loop_settles :
        (overlap : Value) (fuel : ℕ) (s : AssemblyState)
        → s.media_duration ≡ duration
        → Holds {S = Run W}
            (On (Settled duration s))
            (loop cb overlap fuel s)
            AfterLoop
            (On (Ended duration))
    unfolding loop complete
    loop_settles overlap zero s media = Holds-pure none (λ r h. Settled-Ended duration s r.trace h)
    loop_settles overlap (suc fuel) s media =
        Holds-if (s.cursor == s.media_duration) _ _
          (λ full. Holds-pure (some s) (λ r h. (h, (==_iff _ _).0 full ∙ media)))
          λ more.
            Holds-bind _ _ (iterate_settles duration cb s media overlap)
              (follow_settles (loop cb overlap fuel) (loop_settles overlap fuel))

    -- A result is returned only behind the finalization of a finished transcript.
    abbrev pub AfterRun : Option Output → Run W → Type 0
    AfterRun none r = Ended duration r.trace
    AfterRun (some o) r =
        (s : AssemblyState) × (es : List Event) × (r.trace ≡ finalized s ∷ es)
        × Settled duration s es
        × (s.cursor ≡ duration)

    Finalizing : AssemblyState → List Event → Type 0
    Finalizing s es =
        (earlier : List Event) × (es ≡ finalized s ∷ earlier)
        × Settled duration s earlier
        × (s.cursor ≡ duration)

    Finalizing-Ended : (s : AssemblyState) (es : List Event) → Finalizing s es → Ended duration es
    unfolding Finalizing
    Finalizing-Ended s es (earlier, e, t, h) = subst (Ended duration) (sym e) (delivered s t h)

    finish_settles :
        (o : Option AssemblyState)
        → Holds {S = Run W} (AfterLoop o) (finish cb o) AfterRun (On (Ended duration))
    unfolding finish Finalizing
    finish_settles none = Holds-pure none (λ r h. h)
    finish_settles (some s) =
        Holds-bind _ _
          (Holds-call {T = λ es. Settled duration s es × (s.cursor ≡ duration)}
            (λ es h. Settled-Ended duration s es h.0) cb.check_cancelled)
          λ u.
            Holds-bind _ _
              (Holds-from _ (λ r h. (r.trace, refl, h.0, h.1))
                (Holds-emit (Finalizing s) (Ended duration) (finalized s)))
              λ u1. Holds-bind _ _ (Holds-call (Finalizing-Ended s) (cb.finalize_assembly s)) λ o.
                Holds-bind _ _ (Holds-call (Finalizing-Ended s) cb.check_cancelled)
                  λ u2. Holds-pure (some o) (λ r h. (s, h.0, h.1, h.2, h.3))

    -- Whatever the callbacks return, raise or change, and whatever the fuel, a run over media of a
    -- positive duration that starts with no event ends with each started chunk committed or unwound,
    -- and its store holds the chunks of successful commits in turn. If it returns a result, the last
    -- event is the finalization of a state whose cursor is at the end of the media.
    pub run_settles :
        (overlap : Value) (fuel : ℕ) (r : Run W)
        → 0 < duration
        → r.trace ≡ []
        → Outcome AfterRun
            (On (Ended duration))
            (run_segmented_transcription cb overlap fuel (real (pos duration)) r)
    unfolding run_segmented_transcription lift ◌>>=◌
    run_settles overlap fuel r p e = rw (positive_number_lem duration p) (
        rw (initial_state_checked duration p) (
          (Holds-bind _ _ (loop_settles overlap fuel (initial_state duration) refl)
              finish_settles).at
            r
            (subst (Settled duration (initial_state duration)) (sym e)
              (record { closed = untouched; commits = start }))))

-- If a run that starts with no event returns a result, it finalized, last of all, a state that describes
-- the store: its windows tile the media from start to end, its segments form one ordered transcript
-- whose number the state holds, and every chunk that was started was committed or unwound.
pub run_transcript :
    {W Audio Output : Type 0} (cb : Callbacks W Audio Output) (duration : ℕ) (overlap : Value)
    (fuel : ℕ) (r r' : Run W) (o : Output)
    → 0 < duration
    → r.trace ≡ []
    → run_segmented_transcription cb overlap fuel (real (pos duration)) r ≡ (ok (some o), r')
    → (s : AssemblyState) × (es : List Event) × (r'.trace ≡ finalized s ∷ es)
      × Closed es
      × Describes duration s (stored es)
      × Tiles duration 0 duration (windows (stored es))
run_transcript cb d overlap fuel r r' o p e h =
    let (s, es, last, t, full) =
      subst (Outcome (AfterRun d cb) (On (Ended d))) h (run_settles d cb overlap fuel r p e) in
    let known = Commits-Describes d p t.commits in
    (s, es, last, t.closed, known, subst (λ x. Tiles d 0 x (windows (stored es))) full known.tiled)
