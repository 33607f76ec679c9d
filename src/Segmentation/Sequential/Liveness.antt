-- ===== src/Segmentation/Sequential/Liveness.antt =====
-- Runs whose callbacks do not fail: what an iteration commits.
use subgen_english_plex.Common.{Bool, Result, ok, raise, ◌≡◌, refl}
use subgen_english_plex.Common.Action.{
  Action, attempt, ◌>>=◌, Holds, Outcome, Holds-bind, Holds-pure, Holds-attempt, Holds-modify,
  Holds-known,
}
use subgen_english_plex.Resource.Chunks.{AdaptiveChunkState}
use subgen_english_plex.Segmentation.Recognition.{RawResult, StagedChunk}
use subgen_english_plex.Segmentation.Window.{ChunkWindow}
use subgen_english_plex.Segmentation.Window.Plan.{IsConsistent}
use subgen_english_plex.Segmentation.Staging.{stage_chunk_result}
use subgen_english_plex.Segmentation.Staging.Contract.{IsStaged, stage_chunk_result-IsStaged}
use subgen_english_plex.Segmentation.Assembly.{AssemblyState, next_state, commit_chunk}
use subgen_english_plex.Segmentation.Sequential.{
  Event, started, persisted, committed, Run, Callbacks, Attempted, staged, call, emit, adapt,
  checked, stage_result, transcribed, guarded, attempt_chunk, persist, commit_and_report,
}

-- A callback that always returns.
abbrev pub Returns : {W A : Type 0} → Action W A → Type 0
Returns {W} {A} m = (w : W) → (a : A) × (w' : W) × (m w ≡ (ok a, w'))

-- A recognition of the window that staging accepts.
abbrev pub Recognizes : {W : Type 0} → ChunkWindow → Action W RawResult → Type 0
Recognizes {W} w m =
    (u : W)
    → (raw : RawResult) × (u' : W) × (m u ≡ (ok raw, u'))
      × (c : StagedChunk) × (stage_chunk_result raw w ≡ ok c)

-- Callbacks that never raise, over recognitions that staging accepts.
pub record Smooth {W Audio Output : Type 0} (cb : Callbacks W Audio Output) : Type 0 where
  pub extracts : (w : ChunkWindow) → Returns (cb.extract_chunk w)
  pub transcribes :
      (a : Audio) (w : ChunkWindow) → IsConsistent w → Recognizes w (cb.transcribe_chunk a w)
  pub persists :
      (w : ChunkWindow) (c : StagedChunk) (s : AssemblyState) → Returns (cb.persist_chunk w c s)
  pub finalizes : (s : AssemblyState) → Returns (cb.finalize_assembly s)
  pub continues : Returns cb.check_cancelled
  pub samples : Returns cb.check_before_commit
  pub starts : (w : ChunkWindow) → Returns (cb.chunk_started w)
  pub reports : (w : ChunkWindow) (s : AssemblyState) → Returns (cb.chunk_committed w s)

abbrev pub Never : {W : Type 0} → Run W → Type 0
Never r = ⊥

-- A condition on the chunk policy of a run.
abbrev pub Policy : {W : Type 0} → (AdaptiveChunkState → Type 0) → Run W → Type 0
Policy T r = T r.adaptive

module _ {W : Type 0} (T : AdaptiveChunkState → Type 0) where
  pub call-Returns :
      {A : Type 0} (m : Action W A)
      → Returns m
      → Holds {S = Run W} (Policy T) (call m) (λ _. Policy T) Never
  unfolding call
  call-Returns m h = record { at = λ r t. let (a, w, e) = h r.world in rw e t }

  pub emit_returns : (e : Event) → Holds {S = Run W} (Policy T) (emit e) (λ _. Policy T) Never
  unfolding emit
  emit_returns e = Holds-modify _ (λ r t. t)

pub adapt_returns :
    {W : Type 0} (T T' : AdaptiveChunkState → Type 0) (f : AdaptiveChunkState → AdaptiveChunkState)
    → ((a : AdaptiveChunkState) → T a → T' (f a))
    → Holds {S = Run W} (Policy T) (adapt f) (λ _. Policy T') Never
unfolding adapt
adapt_returns T T' f h = Holds-modify _ (λ r t. h r.adaptive t)

-- An attempt that produced a chunk for the window.
abbrev pub Produced : ChunkWindow → Attempted → Type 0
Produced w (staged c healthy) = IsStaged w c
Produced w _ = ⊥

module _ {W Audio Output : Type 0} (cb : Callbacks W Audio Output) (smooth : Smooth cb) where
  open smooth use {extracts, transcribes, persists, finalizes, continues, samples, starts, reports}

  module _ (T : AdaptiveChunkState → Type 0) where
    abbrev pub AfterAttempt : ChunkWindow → Attempted → Run W → Type 0
    AfterAttempt w a r = Policy T r × Produced w a

    checked_produces :
        (w : ChunkWindow) (c : StagedChunk) (r : Result Bool)
        → IsStaged w c
        → Holds {S = Run W}
            (λ s. Outcome (λ _. Policy T) Never (r, s))
            (checked cb c r)
            (AfterAttempt w)
            Never
    unfolding checked
    checked_produces w c (ok b) h = Holds-pure _ (λ r t. (t, h))
    checked_produces w c (raise e) h = record { at = λ r t. absurd t }

    stage_result_produces :
        (w : ChunkWindow) (raw : RawResult) (c : StagedChunk)
        → stage_chunk_result raw w ≡ ok c
        → IsStaged w c
        → Holds {S = Run W} (Policy T) (stage_result cb w raw) (AfterAttempt w) Never
    unfolding stage_result
    stage_result_produces w raw c e h =
        Holds-bind _ _ (call-Returns T cb.check_cancelled continues) λ u. Holds-known _ _ c e (
          Holds-bind _ _ (call-Returns T cb.check_cancelled continues) λ u1.
            Holds-bind _ _ (Holds-attempt _ (call-Returns T cb.check_before_commit samples))
              λ r. checked_produces w c r h)

    transcribed_produces :
        (w : ChunkWindow) (audio : Audio)
        → IsConsistent w
        → Holds {S = Run W}
            (Policy T)
            (do t ← attempt (call (cb.transcribe_chunk audio w)); transcribed cb w t)
            (AfterAttempt w)
            Never
    unfolding transcribed call attempt ◌>>=◌
    transcribed_produces w audio k = record {
      at = λ r t.
          let (raw, u, e, c, accepted) = transcribes audio w k r.world in
          rw e (
            (stage_result_produces w raw c accepted
                (stage_chunk_result-IsStaged raw w c k accepted)).at
              (record r { world = u }) t);
    }

    pub guarded_returns :
        {A : Type 0} {Q : A → Run W → Type 0} (w : ChunkWindow) (x : Result A)
        → Holds {S = Run W} (λ r. Outcome Q Never (x, r)) (guarded cb w x) Q Never
    unfolding guarded
    guarded_returns w (ok a) = Holds-pure a (λ s h. h)
    guarded_returns w (raise e) = record { at = λ r t. absurd t }

    pub attempt_produces :
        (w : ChunkWindow) (audio : Audio)
        → IsConsistent w
        → Holds {S = Run W} (Policy T) (attempt_chunk cb w audio) (AfterAttempt w) Never
    unfolding attempt_chunk
    attempt_produces w audio k = Holds-bind _ _ (call-Returns T cb.check_cancelled continues) λ u.
        Holds-bind _ _ (call-Returns T (cb.chunk_started w) (starts w)) λ u1.
          Holds-bind _ _ (emit_returns T (started w)) λ u2.
            Holds-bind _ _ (Holds-attempt _ (transcribed_produces w audio k))
              λ r. guarded_returns w r

    pub commit_returns :
        (s n : AssemblyState) (w : ChunkWindow) (c : StagedChunk)
        → next_state s w c ≡ ok n
        → Holds {S = Run W}
            (Policy T)
            (commit_and_report cb s w c)
            (λ m r. Policy T r × (m ≡ n))
            Never
    unfolding commit_and_report commit_chunk persist
    commit_returns s n w c e =
        Holds-bind {M = λ m r. Policy T r × (m ≡ n)} _ _
          (Holds-known _ _ n e (
            Holds-bind _ _
              (Holds-bind _ _ (call-Returns T (cb.persist_chunk w c n) (persists w c n))
                λ u. emit_returns T (persisted w c))
              λ u. Holds-pure n (λ r t. (t, refl))))
          λ m.
            Holds-bind _ _
              (call-Returns (λ a. T a × (m ≡ n)) (cb.chunk_committed w m) (reports w m))
              λ u.
                Holds-bind _ _ (emit_returns (λ a. T a × (m ≡ n)) (committed w))
                  λ u1. Holds-pure m (λ r t. t)
