-- ===== src/Segmentation/Parallel/Committing.antt =====
-- What `commit_ready` does to the books of the coordinator, and how its loop ends.
use subgen_english_plex.Common.{
  ℕ, zero, suc, ◌-◌, ◌≤◌, ◌≡◌, refl, Bool, not, Option, none, some, List, [], ◌∷◌, ◌++◌, arith,
  length, ap, subst, sym, Result, ok, raise, require, runtime_error, ensured, Ensures,
}
use subgen_english_plex.Common.Action.{
  Action, pure, resume, lift, modify, ◌>>=◌, Holds, Holds-bind, Holds-pure, Holds-lift, Holds-gets,
  Holds-modify, Holds-from, Holds-if,
}
use subgen_english_plex.Segmentation.Number.{Value}
use subgen_english_plex.Segmentation.Recognition.{StagedChunk}
use subgen_english_plex.Segmentation.Ranges.Coverage.{holds, holds-join}
use subgen_english_plex.Segmentation.Window.{ChunkWindow, checked_window}
use subgen_english_plex.Segmentation.Assembly.{
  AssemblyState, Persist, commit_chunk, advanced, next_state,
}
use subgen_english_plex.Segmentation.Assembly.Commit.{next_state-advanced}
use subgen_english_plex.Segmentation.Parallel.{Coordinator}
use subgen_english_plex.Segmentation.Parallel.Storage.{
  Storage, ready_at, remove_ready, on_world, move_on, commit_one, commit_next, commit_ready_at,
  commit_loop, commit_ready, commit_limit, at_limit,
}
use subgen_english_plex.Segmentation.Parallel.Books.{
  ready_at-coverage, ready_at-start, remove_ready-length, ready_at-Whole,
}
use subgen_english_plex.Segmentation.Parallel.Dispatch.{Balanced}
use subgen_english_plex.Segmentation.Parallel.Storing.{Holds-on_world, Holds-any}

checked_window-same : (w : ChunkWindow) → Ensures (λ v. v ≡ w) (checked_window w)
unfolding checked_window
checked_window-same w = ground arith

module _ {W : Type 0} (persist : Persist W) where
  persist-returns :
      (P : AssemblyState → Type 0) (n : AssemblyState) (r : Result (Unit {0}) × W)
      → P n
      → Ensures P (resume (λ _. pure n) r).0
  unfolding pure
  persist-returns P n (ok u, world) h = h
  persist-returns P n (raise e, world) h = tt

  persisted-next :
      (s : AssemblyState) (w : ChunkWindow) (c : StagedChunk) (r : Result AssemblyState) (world : W)
      → ((n : AssemblyState) → r ≡ ok n → n ≡ advanced s w c)
      → Ensures
          (λ n. n ≡ advanced s w c)
          ((lift r >>= (λ next. persist w c next >>= (λ _. pure next))) world).0
  unfolding lift pure ◌>>=◌
  persisted-next s w c (raise e) world h = tt
  persisted-next s w c (ok n) world h =
      persist-returns (λ n. n ≡ advanced s w c) n (persist w c n world) (h n refl)

  -- A commit that returns returns the advanced state.
  commit_chunk-advanced :
      (s : AssemblyState) (w : ChunkWindow) (c : StagedChunk) (world : W)
      → Ensures (λ n. n ≡ advanced s w c) (commit_chunk persist s w c world).0
  unfolding commit_chunk
  commit_chunk-advanced s w c world =
      persisted-next s w c (next_state s w c) world (λ n e. next_state-advanced s n w c e)

module _ {W Handle : Type 0} where
  -- The entry that the loop has found, with at most `n` entries there.
  abbrev pub Found : ℕ → ChunkWindow × Handle → Coordinator W Handle → Type 0
  Found n r c = Balanced c × (ready_at c.state.cursor c.ready ≡ some r) × (length c.ready ≤ n)

  -- The dispatched cursor is not before the end of a range that is ready.
  ready_before_cursor :
      (n : ℕ) (r : ChunkWindow × Handle) (c : Coordinator W Handle)
      → Found n r c
      → r.0.core_end ≤ c.cursor
  unfolding holds
  ready_before_cursor n r c (b, found, few) =
      let whole =
        (ready_at-Whole c.state.media_duration c.state.cursor c.ready r found b.ready_whole).0 in
      let nonempty = whole.0.core_nonempty in
      ground (
        arith,
        b.covered (r.0.core_end - 1),
        ready_at-coverage c.state.cursor c.ready r (r.0.core_end - 1) found,
      )

  move_on-Balanced :
      (n : ℕ) (r : ChunkWindow × Handle) (c : Coordinator W Handle) (w : ChunkWindow)
      (staged : StagedChunk)
      → Found n r c
      → w.core_end ≡ r.0.core_end
      → Balanced (move_on (advanced c.state w staged) c)
        × (suc (length (remove_ready c.state.cursor c.ready)) ≤ n)
  move_on-Balanced n r c w staged (b, found, few) ends =
      let (whole, others) =
        ready_at-Whole c.state.media_duration c.state.cursor c.ready r found b.ready_whole in
      let nonempty = whole.0.core_nonempty in
      let starts = ready_at-start c.state.cursor c.ready r found in
      let reached = ready_before_cursor n r c (b, found, few) in
      let shorter = remove_ready-length c.state.cursor c.ready r found in
      (
        record {
          media = b.media;
          behind = omega arith;
          within = b.within;
          covered = λ t. omega (
            arith,
            b.covered t,
            ready_at-coverage c.state.cursor c.ready r t found,
            holds-join c.state.cursor r.0.core_end c.cursor t (omega arith) reached,
            ap (λ x. holds x r.0.core_end t) starts,
            ap (λ x. holds x c.cursor t) ends,
          );
          assigned_whole = b.assigned_whole;
          ready_whole = others;
          retry_proper = b.retry_proper;
          retry_ordered = b.retry_ordered;
          numbered = b.numbered;
          bounded = omega (arith, b.bounded);
        },
        omega arith,
      )

  -- The found window with its final ordinal.
  abbrev Numbered :
      ℕ → ChunkWindow × Handle → AssemblyState → ChunkWindow → Coordinator W Handle → Type 0
  Numbered n r s v c =
      (v ≡ record r.0 { ordinal = s.completed_chunks }) × (s ≡ c.state) × Found n r c

  module _ (cb : Storage W Handle) where
    commit-Numbered-Balanced :
        (n : ℕ) (r : ChunkWindow × Handle) (s : AssemblyState) (v : ChunkWindow)
        (staged : StagedChunk)
        → Holds
            (Numbered n r s v)
            (on_world (commit_chunk cb.persist_chunk s v staged) >>= (λ next.
              modify (move_on next) >>= (λ _. on_world (cb.discard_result r.1) >>= (λ _. pure v))))
            (λ _ c. Balanced c × (suc (length c.ready) ≤ n))
            Balanced
    commit-Numbered-Balanced n r s v staged =
        Holds-bind {M = λ next c. (next ≡ advanced s v staged) × Numbered n r s v c} _ _
          (Holds-on_world (λ next. next ≡ advanced s v staged) {X = Numbered n r s v}
            (commit_chunk cb.persist_chunk s v staged)
            (commit_chunk-advanced cb.persist_chunk s v staged) (λ c w f. f) (λ c f. f.2.0))
          λ next.
            Holds-bind {M = λ u c. Balanced c × (suc (length c.ready) ≤ n)} _ _
              (Holds-modify (move_on next) (λ c f.
                let same : next ≡ advanced c.state v staged = cc (f.0, f.1.1) in
                let ends : v.core_end ≡ r.0.core_end = ap (λ x. x.core_end) f.1.0 in
                subst
                  (λ x.
                    Balanced (move_on x c)
                    × (suc (length (remove_ready c.state.cursor c.ready)) ≤ n))
                  (sym same) (move_on-Balanced n r c v staged f.1.2 ends)))
              λ u.
                Holds-bind _ _ (Holds-any (cb.discard_result r.1) (λ c w f. f) (λ c f. f.0))
                  λ u'. Holds-pure v (λ c f. f.1)

    commit_one-Balanced :
        (n : ℕ) (r : ChunkWindow × Handle)
        → Holds
            (Found n r)
            (commit_one cb r.0 r.1)
            (λ _ c. Balanced c × (suc (length c.ready) ≤ n))
            Balanced
    unfolding commit_one
    commit_one-Balanced n r =
        Holds-bind _ _ (Holds-any (cb.read_result r.1) (λ c w f. f) (λ c f. f.0)) λ staged.
          Holds-bind {M = λ s c. (s ≡ c.state) × Found n r c} _ _
            (Holds-gets _ (λ c f. (refl, f.1)))
            λ s.
              let numbered = record r.0 { ordinal = s.completed_chunks } in
              Holds-bind {M = λ v. Numbered n r s v} _ _
                (Holds-lift (checked_window numbered)
                  (λ v c e f. (
                    ensured _ (checked_window numbered) v (checked_window-same numbered) e,
                    f.0,
                    f.1,
                  ))
                  (λ c f. f.1.0))
                λ v. commit-Numbered-Balanced n r s v staged

    -- A loop that returns had enough fuel.
    abbrev pub Returned : Option (List ChunkWindow) → Coordinator W Handle → Type 0
    Returned o c = Balanced c × ((ws : List ChunkWindow) × (o ≡ some ws))

    module _ (check : Action W Bool) (limit : Option ℕ) where
      -- One entry, if the rest of the loop is right.
      commit_ready_at-Balanced :
          (fuel : ℕ) (done : List ChunkWindow) (o : Option (ChunkWindow × Handle))
          (k : List ChunkWindow → Action (Coordinator W Handle) (Option (List ChunkWindow)))
          → ((ws : List ChunkWindow)
              → Holds (λ c. Balanced c × (suc (length c.ready) ≤ fuel)) (k ws) Returned Balanced)
          → Holds
              (λ c. (o ≡ ready_at c.state.cursor c.ready) × Balanced c × (length c.ready ≤ fuel))
              (commit_ready_at cb check limit k done o)
              Returned
              Balanced
      unfolding commit_ready_at commit_next
      commit_ready_at-Balanced fuel done none k h =
          Holds-pure (some done) (λ c f. (f.1, (done, refl)))
      commit_ready_at-Balanced fuel done (some r) k h =
          Holds-if (at_limit limit (length done)) _ _
            (λ stop. Holds-pure (some done) (λ c f. (f.1, (done, refl))))
            (λ go.
              Holds-bind {M = λ u c. Unit {0} × Found fuel r c} _ _
                (Holds-from {P = Found fuel r} _ (λ c f. (f.1, sym f.0, f.2))
                  (Holds-any check (λ c w f. f) (λ c f. f.0)))
                λ healthy.
                  Holds-if healthy _ _
                    (λ yes.
                      Holds-bind _ _ (Holds-from _ (λ c f. f.1) (commit_one-Balanced fuel r))
                        λ w. h (done ++ w ∷ []))
                    (λ no. Holds-pure (some done) (λ c f. (f.1.0, (done, refl)))))

      commit_loop-Balanced :
          (fuel : ℕ) (done : List ChunkWindow)
          → Holds
              (λ c. Balanced c × (suc (length c.ready) ≤ fuel))
              (commit_loop cb check limit fuel done)
              Returned
              Balanced
      unfolding commit_loop
      commit_loop-Balanced zero done = record { at = λ c f. absurd (omega arith) }
      commit_loop-Balanced (suc fuel) done =
          Holds-bind _ _ (Holds-gets _ (λ c f. (refl, f.0, omega arith))) λ r.
            commit_ready_at-Balanced fuel done r (commit_loop cb check limit fuel)
              (commit_loop-Balanced fuel)

    -- Wherever a callback raises, the books stay balanced; and a commit that does not raise ends, since
    -- the fuel is one more than the entries that are ready.
    pub commit_ready-Balanced :
        (check : Action W Bool) (maximum_commits : Option Value)
        → Holds Balanced (commit_ready cb check maximum_commits) Returned Balanced
    unfolding commit_ready
    commit_ready-Balanced check maximum_commits = Holds-bind _ _ (Holds-gets _ (λ c b. b)) λ closed.
        Holds-bind {M = λ u. Balanced} _ _
          (Holds-lift (require (not closed) runtime_error) (λ u c e b. b) (λ c b. b))
          λ u.
            Holds-bind {M = λ l. Balanced} _ _
              (Holds-lift (commit_limit maximum_commits) (λ l c e b. b) (λ c b. b))
              λ l.
                Holds-bind {M = λ n c. Balanced c × (suc (length c.ready) ≤ suc n)} _ _
                  (Holds-gets _ (λ c b. (b, omega arith)))
                  λ n. commit_loop-Balanced check l (suc n) []
