-- ===== src/Segmentation/Parallel/Keeping.antt =====
-- Conditions that the storage calls of the coordinator keep: those that see neither the caller's state
-- nor what staging and committing change.
use subgen_english_plex.Common.{
  ℕ, zero, suc, Bool, not, Option, none, some, List, [], ◌∷◌, ◌++◌, length, Result, require,
  runtime_error,
}
use subgen_english_plex.Common.Action.{
  Action, lift, gets, ◌>>=◌, Holds, Holds-bind, Holds-pure, Holds-lift, Holds-gets, Holds-modify,
  Holds-from, Holds-if,
}
use subgen_english_plex.Segmentation.Number.{Value}
use subgen_english_plex.Segmentation.Recognition.{RawResult}
use subgen_english_plex.Segmentation.Window.{ChunkWindow, checked_window}
use subgen_english_plex.Segmentation.Staging.{stage_chunk_result}
use subgen_english_plex.Segmentation.Assembly.{AssemblyState, commit_chunk}
use subgen_english_plex.Segmentation.Parallel.{ChunkAssignment, Coordinator, require_attempt}
use subgen_english_plex.Segmentation.Parallel.Storage.{
  Storage, on_world, stage_ready, move_on, completed, commit_one, commit_next, commit_ready_at,
  commit_loop, commit_ready, commit_limit, at_limit,
}
use subgen_english_plex.Segmentation.Parallel.Storing.{Unseen, Holds-any}

module _ {W Handle : Type 0} (cb : Storage W Handle) (X : Coordinator W Handle → Type 0)
    (unseen : Unseen X) where
  -- A call of a callback, then the rest.
  then_any :
      {A B : Type 0} (m : Action W A) (f : A → Action (Coordinator W Handle) B)
      → ((a : A) → Holds X (f a) (λ _. X) X)
      → Holds X (on_world m >>= f) (λ _. X) X
  then_any m f h =
      Holds-bind _ _ (Holds-any m unseen (λ c x. x)) λ a. Holds-from (f a) (λ c x. x.1) (h a)

  -- A computation that does not touch the coordinator, then the rest.
  then_lift :
      {A B : Type 0} (r : Result A) (f : A → Action (Coordinator W Handle) B)
      → ((a : A) → Holds X (f a) (λ _. X) X)
      → Holds X (lift r >>= f) (λ _. X) X
  then_lift r f h = Holds-bind _ _ (Holds-lift r (λ a c e x. x) (λ c x. x)) h

  then_gets :
      {A B : Type 0} (g : Coordinator W Handle → A) (f : A → Action (Coordinator W Handle) B)
      → ((a : A) → Holds X (f a) (λ _. X) X)
      → Holds X (gets g >>= f) (λ _. X) X
  then_gets g f h = Holds-bind _ _ (Holds-gets g (λ c x. x)) h

  module _
      (stages : (a : ChunkAssignment) (w : ChunkWindow) (h : Handle) (c : Coordinator W Handle)
        → X c
        → X (stage_ready a w h c)) where
    pub completed-keeps :
        (a : ChunkAssignment) (result : RawResult) → Holds X (completed cb a result) (λ _. X) X
    unfolding completed
    completed-keeps a result =
        then_gets (λ c. c) _
          λ c. then_lift (require_attempt c a) _ λ w.
            then_lift (stage_chunk_result result w) _ λ staged.
              then_any (cb.store_result staged) _
                λ handle. Holds-modify (stage_ready a w handle) (stages a w handle)

  module _
      (moves : (next : AssemblyState) (c : Coordinator W Handle) → X c → X (move_on next c)) where
    commit_one-keeps :
        (w : ChunkWindow) (handle : Handle) → Holds X (commit_one cb w handle) (λ _. X) X
    unfolding commit_one
    commit_one-keeps w handle = then_any (cb.read_result handle) _ λ staged.
        then_gets (λ c. c.state) _
          λ s. then_lift (checked_window (record w { ordinal = s.completed_chunks })) _ λ v.
            then_any (commit_chunk cb.persist_chunk s v staged) _ λ next.
              Holds-bind _ _ (Holds-modify (move_on next) (moves next))
                λ u. then_any (cb.discard_result handle) _ λ u'. Holds-pure v (λ c x. x)

    module _ (check : Action W Bool) (limit : Option ℕ) where
      commit_ready_at-keeps :
          (done : List ChunkWindow) (o : Option (ChunkWindow × Handle))
          (k : List ChunkWindow → Action (Coordinator W Handle) (Option (List ChunkWindow)))
          → ((ws : List ChunkWindow) → Holds X (k ws) (λ _. X) X)
          → Holds X (commit_ready_at cb check limit k done o) (λ _. X) X
      unfolding commit_ready_at commit_next
      commit_ready_at-keeps done none k h = Holds-pure (some done) (λ c x. x)
      commit_ready_at-keeps done (some r) k h =
          Holds-if (at_limit limit (length done)) _ _ (λ stop. Holds-pure (some done) (λ c x. x))
            (λ go. then_any check _ λ healthy.
              Holds-if healthy _ _
                (λ yes. Holds-bind _ _ (commit_one-keeps r.0 r.1) λ w. h (done ++ w ∷ []))
                (λ no. Holds-pure (some done) (λ c x. x)))

      commit_loop-keeps :
          (fuel : ℕ) (done : List ChunkWindow)
          → Holds X (commit_loop cb check limit fuel done) (λ _. X) X
      unfolding commit_loop
      commit_loop-keeps zero done = Holds-pure none (λ c x. x)
      commit_loop-keeps (suc fuel) done =
          then_gets _ _ λ r. commit_ready_at-keeps done r _ (commit_loop-keeps fuel)

    pub commit_ready-keeps :
        (check : Action W Bool) (maximum_commits : Option Value)
        → Holds X (commit_ready cb check maximum_commits) (λ _. X) X
    unfolding commit_ready
    commit_ready-keeps check maximum_commits =
        then_gets (λ c. c.closed) _
          λ closed. then_lift (require (not closed) runtime_error) _ λ u.
            then_lift (commit_limit maximum_commits) _
              λ l. then_gets (λ c. length c.ready) _ λ n. commit_loop-keeps check l (suc n) []
