-- ===== src/Segmentation/Sequential/Outcome.antt =====
-- How one iteration of a run leaves its attempts.
use subgen_english_plex.Common.{
  ℕ, Bool, true, false, Option, none, some, List, ◌∷◌, Error, ok, ◌≡◌, ◌&&◌, pos, ap, ◌∙◌, ensured,
}
use subgen_english_plex.Common.Action.{
  lift, Holds, Holds-bind, Holds-pure, Holds-throw, Holds-lift, Holds-gets, Holds-attempt,
  Holds-from, Holds-if,
}
use subgen_english_plex.Segmentation.Number.{Value, real, integer}
use subgen_english_plex.Segmentation.Recognition.{StagedChunk}
use subgen_english_plex.Segmentation.Window.{ChunkWindow, plan_next_window}
use subgen_english_plex.Segmentation.Window.Plan.{IsConsistent, Planned, plan_next_window-Planned}
use subgen_english_plex.Segmentation.Assembly.{AssemblyState, next_state, commit_chunk}
use subgen_english_plex.Segmentation.Assembly.Commit.{next_state-advanced}
use subgen_english_plex.Segmentation.Sequential.{
  Event, persisted, committed, Run, Callbacks, Attempted, staged, pressure, allocation, Iteration,
  again, leave, Recovery, external_pressure_recovered, record_control, give_up, settle, recover,
  persist, commit_and_report, conclude, process, iterate,
}
use subgen_english_plex.Segmentation.Sequential.Trace.{
  Settled, Opened, Unwindable, Kept, Ended, Opened-undone, Opened-Unwindable, Kept-Unwindable,
  Kept-done, Opened-Kept, Settled-Ended,
}
use subgen_english_plex.Segmentation.Sequential.Rules.{
  On, Holds-call, Holds-emit, Holds-adapt, Holds-adapt_failure,
}
use subgen_english_plex.Segmentation.Sequential.Attempts.{
  unwind_leads, guarded_closes, attempt_chunk_opens,
}

module _ (duration : ℕ) where
  -- An iteration leaves the run settled; it leaves the loop only at the end of the media.
  abbrev pub AfterIteration : {W : Type 0} → Iteration → Run W → Type 0
  AfterIteration (again s) r = Settled duration s r.trace × (s.media_duration ≡ duration)
  AfterIteration (leave s) r = Settled duration s r.trace × (s.cursor ≡ duration)

  module _ {W Audio Output : Type 0} (cb : Callbacks W Audio Output) where
    module _ (s : AssemblyState) (media : s.media_duration ≡ duration) where
      give_up_settles :
          (exhausted : Bool) (e : Error)
          → Holds {S = Run W}
              (On (Settled duration s))
              (give_up cb exhausted e s)
              AfterIteration
              (On (Ended duration))
      unfolding give_up
      give_up_settles exhausted e =
          Holds-if exhausted _ _ (λ q. Holds-throw e (λ r h. Settled-Ended duration s r.trace h))
            (λ q. Holds-pure (again s) (λ r h. (h, media)))

      settle_settles :
          (is_allocation : Bool) (recovery : Recovery) (exhausted : Bool) (e : Error)
          → Holds {S = Run W}
              (On (Settled duration s))
              (settle cb is_allocation recovery exhausted e s)
              AfterIteration
              (On (Ended duration))
      unfolding settle
      settle_settles is_allocation recovery exhausted e =
          Holds-if (is_allocation && external_pressure_recovered recovery) _ _
            (λ q.
              Holds-bind _ _ (Holds-adapt (Settled duration s) (Ended duration) _)
                λ u. give_up_settles false e)
            (λ q. give_up_settles exhausted e)

      record_control_settles :
          (is_allocation : Bool)
          → Holds {S = Run W}
              (On (Settled duration s))
              (record_control cb is_allocation)
              (λ _. On (Settled duration s))
              (On (Ended duration))
      unfolding record_control
      record_control_settles true =
          Holds-adapt_failure (Settled duration s) (Ended duration) (Settled-Ended duration s)
      record_control_settles false =
          Holds-bind _ _ (Holds-adapt (Settled duration s) (Ended duration) _)
            λ u. Holds-pure _ (λ r h. h)

      recover_settles :
          (is_allocation : Bool) (e : Error) (w : ChunkWindow)
          → Holds {S = Run W}
              (On (Opened duration s w))
              (recover cb is_allocation e w s)
              AfterIteration
              (On (Ended duration))
      unfolding recover
      recover_settles is_allocation e w =
          let leads = Settled-Ended duration s in
          Holds-bind _ _
            (Holds-from _ (λ r h. Opened-undone duration s w r.trace h)
              (unwind_leads duration cb (Settled duration s) w leads))
            λ u. Holds-bind _ _ (Holds-call leads (cb.release_failure e w)) λ u1.
              Holds-bind _ _ (Holds-call leads cb.check_cancelled) λ u2.
                Holds-bind _ _ (record_control_settles is_allocation) λ exhausted.
                  Holds-bind _ _ (Holds-call leads (cb.wait_for_recovery e w)) λ recovery.
                    Holds-bind _ _ (Holds-call leads cb.check_cancelled)
                      λ u3. settle_settles is_allocation recovery exhausted e

      module _ (w : ChunkWindow) (whole : IsConsistent w) where
        keeps :
            (c : StagedChunk) (n : AssemblyState) (es : List Event)
            → Opened duration s w es × (next_state s w c ≡ ok n)
            → Kept duration n w (persisted w c ∷ es) × (n.media_duration ≡ duration)
        keeps c n es h = (
          Opened-Kept duration s n w c es whole h,
          ap (λ (a : AssemblyState). a.media_duration) (next_state-advanced s n w c h.1) ∙ media,
        )

        commit_keeps :
            (c : StagedChunk)
            → Holds {S = Run W}
                (On (Opened duration s w))
                (commit_chunk (persist cb) s w c)
                (λ n r. Kept duration n w r.trace × (n.media_duration ≡ duration))
                (On (Unwindable duration w))
        unfolding commit_chunk persist
        commit_keeps c =
            let pending : AssemblyState → List Event → Type 0 =
              λ n es. Opened duration s w es × (next_state s w c ≡ ok n) in
            Holds-bind _ _
              (Holds-lift {Q = λ n. On (pending n)} (next_state s w c) (λ n r e o. (o, e))
                (λ r o. Opened-Unwindable duration s w r.trace o))
              λ n.
                Holds-bind _ _
                  (Holds-bind _ _
                    (Holds-call {T = pending n} (λ es h. Opened-Unwindable duration s w es h.0)
                      (cb.persist_chunk w c n))
                    λ u.
                      Holds-from _ (λ r h. keeps c n r.trace h)
                        (Holds-emit (λ es. Kept duration n w es × (n.media_duration ≡ duration))
                          (Unwindable duration w) (persisted w c)))
                  λ u. Holds-pure n (λ r h. h)

        commit_and_report_settles :
            (c : StagedChunk)
            → Holds {S = Run W}
                (On (Opened duration s w))
                (commit_and_report cb s w c)
                (λ n r. Settled duration n r.trace × (n.media_duration ≡ duration))
                (On (Unwindable duration w))
        unfolding commit_and_report
        commit_and_report_settles c = Holds-bind _ _ (commit_keeps c) λ n.
            Holds-bind _ _
              (Holds-call (λ es h. Kept-Unwindable duration n w es h.0) (cb.chunk_committed w n))
              λ u.
                Holds-bind _ _
                  (Holds-from _ (λ r h. (Kept-done duration n w r.trace h.0, h.1))
                    (Holds-emit (λ es. Settled duration n es × (n.media_duration ≡ duration))
                      (Unwindable duration w) (committed w)))
                  λ u'. Holds-pure n (λ r h. h)

        conclude_settles :
            (a : Attempted)
            → Holds {S = Run W}
                (On (Opened duration s w))
                (conclude cb s w a)
                (AfterIteration)
                (On (Ended duration))
        unfolding conclude
        conclude_settles (pressure e) = recover_settles false e w
        conclude_settles (allocation e) = recover_settles true e w
        conclude_settles (staged c healthy) =
            Holds-bind _ _ (Holds-attempt _ (commit_and_report_settles c)) λ r.
              Holds-bind _ _ (guarded_closes duration cb w r) λ n.
                Holds-bind _ _
                  (Holds-call (λ es h. Settled-Ended duration n es h.0) cb.check_cancelled)
                  λ u.
                    Holds-bind _ _
                      (Holds-adapt (λ es. Settled duration n es × (n.media_duration ≡ duration))
                        (Ended duration) _)
                      λ u'. Holds-pure (again n) (λ r h. h)

      process_settles :
          (p : Option ChunkWindow)
          → Planned s.cursor s.media_duration p
          → Holds {S = Run W}
              (On (Settled duration s))
              (process cb s p)
              AfterIteration
              (On (Ended duration))
      unfolding process
      process_settles none h = Holds-pure (leave s) (λ r t. (t, h ∙ media))
      process_settles (some w) h =
          let leads = Settled-Ended duration s in
          Holds-bind _ _ (Holds-call leads cb.check_cancelled) λ u.
            Holds-bind _ _ (Holds-call leads (cb.extract_chunk w)) λ audio.
              Holds-bind _ _ (attempt_chunk_opens duration cb s w audio)
                λ a. conclude_settles w h.0 a

      plan_settles :
          (seconds : ℕ) (overlap : Value)
          → Holds {S = Run W}
              (On (Settled duration s))
              (lift (
                plan_next_window
                  (real (pos s.cursor))
                  (real (pos s.media_duration))
                  (integer (pos seconds))
                  s.completed_chunks
                  overlap))
              (λ p r. Settled duration s r.trace × Planned s.cursor s.media_duration p)
              (On (Ended duration))
      plan_settles seconds overlap =
          Holds-lift _
            (λ p r e t. (
              t,
              ensured (Planned s.cursor s.media_duration) _ p
                  (plan_next_window-Planned s.cursor s.media_duration s.completed_chunks
                    (integer (pos seconds)) overlap)
                  e,
            ))
            (λ r t. Settled-Ended duration s r.trace t)

      pub iterate_settles :
          (overlap : Value)
          → Holds {S = Run W}
              (On (Settled duration s))
              (iterate cb overlap s)
              AfterIteration
              (On (Ended duration))
      unfolding iterate
      iterate_settles overlap =
          let leads = Settled-Ended duration s in
          Holds-bind _ _ (Holds-call leads cb.check_cancelled) λ u.
            Holds-bind _ _ (Holds-gets _ (λ r h. h)) λ seconds.
              Holds-bind _ _ (plan_settles seconds overlap)
                λ p. record { at = λ r h. (process_settles p h.1).at r h.0 }
