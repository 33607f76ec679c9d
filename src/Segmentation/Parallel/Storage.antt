-- ===== src/Segmentation/Parallel/Storage.antt =====
-- The storage calls of `ParallelChunkCoordinator`: `completed`, `commit_ready` and `close`. A callback
-- changes the caller's state alone; what the coordinator changed before a callback raised stays.
use subgen_english_plex.Common.{
  ℕ, zero, suc, Bool, true, false, not, Option, none, some, List, [], ◌∷◌, ◌++◌, pos, Result, ok,
  raise, require, runtime_error, value_error, leb, ◌==◌, if◌then◌else◌, length,
}
use subgen_english_plex.Common.Action.{Action, pure, lift, gets, modify, attempt, ◌>>=◌, ◌>>◌}
use subgen_english_plex.Segmentation.Number.{Value, integer}
use subgen_english_plex.Segmentation.Recognition.{RawResult, StagedChunk}
use subgen_english_plex.Segmentation.Window.{ChunkWindow, checked_window}
use subgen_english_plex.Segmentation.Staging.{stage_chunk_result}
use subgen_english_plex.Segmentation.Assembly.{AssemblyState, Persist, commit_chunk}
use subgen_english_plex.Segmentation.Parallel.{
  ChunkAssignment, Coordinator, require_attempt, unassign,
}

pub record Storage (W Handle : Type 0) : Type 0 where
  pub store_result : StagedChunk → Action W Handle
  pub read_result : Handle → Action W StagedChunk
  pub discard_result : Handle → Action W (Unit {0})
  pub persist_chunk : Persist W

-- `maximum_commits is not None and (type(maximum_commits) is not int or maximum_commits < 1)`, negated.
unfoldable pub commit_limit : Option Value → Result (Option ℕ)
commit_limit none = ok none
commit_limit (some (integer (pos (suc n)))) = ok (some (suc n))
commit_limit (some v) = raise value_error

abbrev pub at_limit : Option ℕ → ℕ → Bool
at_limit none n = false
at_limit (some limit) n = leb limit n

module _ {Handle : Type 0} where
  -- `self._ready.get(start)`: the key of a window is where its core starts.
  unfoldable pub ready_at : ℕ → List (ChunkWindow × Handle) → Option (ChunkWindow × Handle)
  ready_at t [] = none
  ready_at t (r ∷ rs) = if r.0.core_start == t then some r else ready_at t rs

  -- `self._ready[window.core_start] = (window, handle)`
  unfoldable pub set_ready :
      ChunkWindow × Handle → List (ChunkWindow × Handle) → List (ChunkWindow × Handle)
  set_ready x [] = x ∷ []
  set_ready x (r ∷ rs) = if r.0.core_start == x.0.core_start then x ∷ rs else r ∷ set_ready x rs

  -- `del self._ready[start]`
  unfoldable pub remove_ready : ℕ → List (ChunkWindow × Handle) → List (ChunkWindow × Handle)
  remove_ready t [] = []
  remove_ready t (r ∷ rs) = if r.0.core_start == t then rs else r ∷ remove_ready t rs

module _ {W Handle : Type 0} where
  -- A call of a storage callback.
  unfoldable pub on_world : {A : Type 0} → Action W A → Action (Coordinator W Handle) A
  on_world m c = let (a, w) = m c.world in (a, record c { world = w })

  abbrev pub stage_ready :
      ChunkAssignment → ChunkWindow → Handle → Coordinator W Handle → Coordinator W Handle
  stage_ready a w handle c = record c {
    ready = set_ready (w, handle) c.ready;
    inflight = unassign a.worker c.inflight;
  }

  -- `del self._ready[self.state.cursor]; self.state = next_state`
  abbrev pub move_on : AssemblyState → Coordinator W Handle → Coordinator W Handle
  move_on next c = record c { ready = remove_ready c.state.cursor c.ready; state = next }

  abbrev pub clear : Coordinator W Handle → Coordinator W Handle
  clear c = record c { ready = []; retry = []; inflight = [] }

  module _ (cb : Storage W Handle) where
    unfoldable pub completed :
        ChunkAssignment → RawResult → Action (Coordinator W Handle) (Unit {0})
    unfolding stage_chunk_result
    completed a result = do
      c ← gets (λ c. c)
      w ← lift (require_attempt c a)
      staged ← lift (stage_chunk_result result w)
      handle ← on_world (cb.store_result staged)
      modify (stage_ready a w handle)

    -- The commit of a window that is ready, with the final ordinal.
    unfoldable pub commit_one : ChunkWindow → Handle → Action (Coordinator W Handle) ChunkWindow
    unfolding checked_window
    commit_one w handle = do
      staged ← on_world (cb.read_result handle)
      s ← gets (λ c. c.state)
      numbered ← lift (checked_window (record w { ordinal = s.completed_chunks }))
      next ← on_world (commit_chunk cb.persist_chunk s numbered staged)
      modify (move_on next)
      on_world (cb.discard_result handle)
      pure numbered

    unfoldable pub commit_next :
        Bool
        → (List ChunkWindow → Action (Coordinator W Handle) (Option (List ChunkWindow)))
        → List ChunkWindow
        → ChunkWindow × Handle
        → Action (Coordinator W Handle) (Option (List ChunkWindow))
    commit_next healthy k done r =
        if healthy then (do w ← commit_one r.0 r.1; k (done ++ w ∷ [])) else pure (some done)

    unfoldable pub commit_ready_at :
        Action W Bool
        → Option ℕ
        → (List ChunkWindow → Action (Coordinator W Handle) (Option (List ChunkWindow)))
        → List ChunkWindow
        → Option (ChunkWindow × Handle)
        → Action (Coordinator W Handle) (Option (List ChunkWindow))
    commit_ready_at check limit k done none = pure (some done)
    commit_ready_at check limit k done (some r) =
        if at_limit limit (length done)
        then pure (some done)
        else do healthy ← on_world check; commit_next healthy k done r

    -- `while self.state.cursor in self._ready`; `none` means that the fuel ran out.
    unfoldable pub commit_loop :
        Action W Bool
        → Option ℕ
        → ℕ
        → List ChunkWindow
        → Action (Coordinator W Handle) (Option (List ChunkWindow))
    commit_loop check limit zero done = pure none
    commit_loop check limit (suc fuel) done = do
      r ← gets (λ c. ready_at c.state.cursor c.ready)
      commit_ready_at check limit (commit_loop check limit fuel) done r

    -- Every commit takes an entry from `_ready`, so one more than its entries is enough fuel.
    unfoldable pub commit_ready :
        Action W Bool → Option Value → Action (Coordinator W Handle) (Option (List ChunkWindow))
    commit_ready check maximum_commits = do
      closed ← gets (λ c. c.closed)
      lift (require (not closed) runtime_error)
      limit ← lift (commit_limit maximum_commits)
      fuel ← gets (λ c. length c.ready)
      commit_loop check limit (suc fuel) []

    -- The loop of `close`, which an exception leaves.
    unfoldable pub discard_all :
        List (ChunkWindow × Handle) → Action (Coordinator W Handle) (Unit {0})
    discard_all [] = pure tt
    discard_all (r ∷ rs) = do on_world (cb.discard_result r.1); discard_all rs

    -- `finally`: what is left is cleared, then an exception of the loop goes on.
    unfoldable pub close : Action (Coordinator W Handle) (Unit {0})
    close = do
      modify (λ c. record c { closed = true })
      ready ← gets (λ c. c.ready)
      r ← attempt (discard_all ready)
      modify clear
      lift r
