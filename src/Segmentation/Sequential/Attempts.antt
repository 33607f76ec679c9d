-- ===== src/Segmentation/Sequential/Attempts.antt =====
-- The bookkeeping of attempts: how each chunk that was started is closed, and what the store keeps.
use subgen_english_plex.Common.{
  ℕ, Bool, Error, List, ◌∷◌, Result, ok, raise, refl, memory_pressure_yield, is_exception,
}
use subgen_english_plex.Common.Action.{
  throw, Holds, Outcome, Holds-bind, Holds-pure, Holds-throw, Holds-attempt, Holds-from,
  Outcome-either, Holds-if,
}
use subgen_english_plex.Segmentation.Recognition.{RawResult, StagedChunk}
use subgen_english_plex.Segmentation.Window.{ChunkWindow}
use subgen_english_plex.Segmentation.Staging.{stage_chunk_result}
use subgen_english_plex.Segmentation.Assembly.{AssemblyState}
use subgen_english_plex.Segmentation.Sequential.{
  Event, started, unwound, Run, Callbacks, checked, stage_result, recognition_failed, transcribed,
  unwind, guarded, attempt_chunk,
}
use subgen_english_plex.Segmentation.Sequential.Trace.{
  Settled, Opened, Unwindable, Ended, Opened-Unwindable, Settled-Ended, Unwindable-Ended,
}
use subgen_english_plex.Segmentation.Sequential.Rules.{On, Holds-call, Holds-lift-On, Holds-emit}

module _ (duration : ℕ) where
  module _ {W Audio Output : Type 0} (cb : Callbacks W Audio Output) where
    pub unwind_leads :
        (T : List Event → Type 0) (w : ChunkWindow)
        → ((es : List Event) → T es → Ended duration es)
        → Holds {S = Run W}
            (On (λ es. T (unwound w ∷ es)))
            (unwind cb w)
            (λ _. On T)
            (On (Ended duration))
    unfolding unwind
    unwind_leads T w leads =
        Holds-bind _ _ (Holds-emit T (Ended duration) (unwound w))
          λ u. Holds-call leads (cb.chunk_unwound w)

    pub guarded_closes :
        {A : Type 0} {Q : A → Run W → Type 0} (w : ChunkWindow) (x : Result A)
        → Holds {S = Run W}
            (λ r. Outcome Q (On (Unwindable duration w)) (x, r))
            (guarded cb w x)
            Q
            (On (Ended duration))
    unfolding guarded
    guarded_closes w (ok a) = Holds-pure a (λ s h. h)
    guarded_closes w (raise e) =
        Holds-bind _ _
          (Holds-from _ (λ r u. Unwindable-Ended duration w r.trace u)
            (unwind_leads (Ended duration) w (λ es h. h)))
          λ u. Holds-throw e (λ s h. h)

    module _ (s : AssemblyState) (w : ChunkWindow) where
      opens : (es : List Event) → Opened duration s w es → Unwindable duration w es
      opens = Opened-Unwindable duration s w

      checked-Opened :
          (c : StagedChunk) (r : Result Bool)
          → Holds {S = Run W}
              (On (Opened duration s w))
              (checked cb c r)
              (λ _. On (Opened duration s w))
              (On (Unwindable duration w))
      unfolding checked
      checked-Opened c (ok healthy) = Holds-pure _ (λ r h. h)
      checked-Opened c (raise memory_pressure_yield) = Holds-pure _ (λ r h. h)
      checked-Opened c (raise e) = Holds-throw e (λ r h. opens r.trace h)

      stage_result-Opened :
          (result : RawResult)
          → Holds {S = Run W}
              (On (Opened duration s w))
              (stage_result cb w result)
              (λ _. On (Opened duration s w))
              (On (Unwindable duration w))
      unfolding stage_result
      stage_result-Opened result = Holds-bind _ _ (Holds-call opens cb.check_cancelled) λ u.
          Holds-bind _ _ (Holds-lift-On opens (stage_chunk_result result w)) λ c.
            Holds-bind _ _ (Holds-call opens cb.check_cancelled) λ u'.
              Holds-bind _ _ (Holds-attempt _ (Holds-call (λ es h. h) cb.check_before_commit)) λ r.
                Holds-from _ (λ st h. Outcome-either (On (Opened duration s w)) r st h)
                  (checked-Opened c r)

      recognition_failed-Opened :
          (e : Error)
          → Holds {S = Run W}
              (On (Opened duration s w))
              (recognition_failed cb e)
              (λ _. On (Opened duration s w))
              (On (Unwindable duration w))
      unfolding recognition_failed
      recognition_failed-Opened e =
          Holds-bind _ _ (Holds-call opens (cb.is_allocation_failure e)) λ is_allocation.
            Holds-if is_allocation _ _ (λ q. Holds-pure _ (λ r h. h))
              (λ q. Holds-throw e (λ r h. opens r.trace h))

      transcribed-Opened :
          (r : Result RawResult)
          → Holds {S = Run W}
              (On (Opened duration s w))
              (transcribed cb w r)
              (λ _. On (Opened duration s w))
              (On (Unwindable duration w))
      unfolding transcribed
      transcribed-Opened (ok result) = stage_result-Opened result
      transcribed-Opened (raise memory_pressure_yield) = Holds-pure _ (λ r h. h)
      transcribed-Opened (raise e) =
          Holds-if (is_exception e) (recognition_failed cb e) (throw e)
            (λ x. recognition_failed-Opened e) (λ x. Holds-throw e (λ r h. opens r.trace h))

      pub attempt_chunk_opens :
          (audio : Audio)
          → Holds {S = Run W}
              (On (Settled duration s))
              (attempt_chunk cb w audio)
              (λ _. On (Opened duration s w))
              (On (Ended duration))
      unfolding attempt_chunk
      attempt_chunk_opens audio =
          Holds-bind _ _ (Holds-call (Settled-Ended duration s) cb.check_cancelled) λ u.
            Holds-bind _ _ (Holds-call (Settled-Ended duration s) (cb.chunk_started w)) λ u'.
              Holds-bind _ _
                (Holds-from _ (λ r h. record { earlier = r.trace; opened = refl; before = h })
                  (Holds-emit (Opened duration s w) (Ended duration) (started w)))
                λ u''.
                  Holds-bind _ _
                    (Holds-attempt _ (
                      Holds-bind _ _
                        (Holds-attempt _ (Holds-call (λ es h. h) (cb.transcribe_chunk audio w)))
                        λ t.
                          Holds-from _ (λ st h. Outcome-either (On (Opened duration s w)) t st h)
                            (transcribed-Opened t)))
                    λ r. guarded_closes w r
