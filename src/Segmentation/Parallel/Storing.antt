-- ===== src/Segmentation/Parallel/Storing.antt =====
-- What `completed` does to the books of the coordinator, whatever the storage
-- callbacks do and wherever they raise.
use subgen_english_plex.Common.{
  ◌≡◌, refl, none, some, arith, Option-cases, inl, inr, subst, Result, ok, raise, ensured, Ensures,
  Ensures-trivial,
}
use subgen_english_plex.Common.Action.{
  Action, Holds, Outcome, Holds-bind, Holds-lift, Holds-gets, Holds-modify,
}
use subgen_english_plex.Segmentation.Recognition.{RawResult}
use subgen_english_plex.Segmentation.Ranges.Coverage.{holds}
use subgen_english_plex.Segmentation.Window.{ChunkWindow}
use subgen_english_plex.Segmentation.Staging.{stage_chunk_result}
use subgen_english_plex.Segmentation.Parallel.{
  ChunkAssignment, Coordinator, assigned, require_attempt,
}
use subgen_english_plex.Segmentation.Parallel.Storage.{
  Storage, ready_at, on_world, stage_ready, completed,
}
use subgen_english_plex.Segmentation.Parallel.Books.{
  assigned-coverage, assigned-Whole, unassign-length, unassign-Descending, set_ready-coverage,
  set_ready-length, set_ready-Whole, ready_at-covers,
}
use subgen_english_plex.Segmentation.Parallel.Dispatch.{Balanced}
use subgen_english_plex.Segmentation.Parallel.Claim.{require_attempt-assigned}

module _ {W Handle : Type 0} where
  -- A condition that does not see the caller's state outlives a call of a callback.
  abbrev pub Unseen : (Coordinator W Handle → Type 0) → Type 0
  Unseen X = (c : Coordinator W Handle) (w : W) → X c → X (record c { world = w })

  on_world-Outcome :
      {A : Type 0} (P : A → Type 0) (X R : Coordinator W Handle → Type 0) (r : Result A)
      (c : Coordinator W Handle)
      → ((c : Coordinator W Handle) → X c → R c)
      → Ensures P r
      → X c
      → Outcome {S = Coordinator W Handle} (λ a c. P a × X c) R (r, c)
  on_world-Outcome P X R (ok a) c k p x = (p, x)
  on_world-Outcome P X R (raise e) c k p x = k c x

  -- A callback whose result is known to satisfy `P`, from a condition that does not see its state.
  pub Holds-on_world :
      {A : Type 0} (P : A → Type 0) {X R : Coordinator W Handle → Type 0} (m : Action W A)
      → ((w : W) → Ensures P (m w).0)
      → Unseen X
      → ((c : Coordinator W Handle) → X c → R c)
      → Holds X (on_world m) (λ a c. P a × X c) R
  unfolding on_world
  Holds-on_world P {X} {R} m p h k = record {
    at = λ c x.
        let (a, w) = m c.world in
        on_world-Outcome P X R a (record c { world = w }) k (p c.world) (h c w x);
  }

  -- A callback of which nothing is known.
  pub Holds-any :
      {A : Type 0} {X R : Coordinator W Handle → Type 0} (m : Action W A)
      → Unseen X
      → ((c : Coordinator W Handle) → X c → R c)
      → Holds X (on_world m) (λ a c. Unit {0} × X c) R
  Holds-any m h k = Holds-on_world (λ _. Unit) m (λ w. Ensures-trivial (m w).0) h k

  -- While a report is stored: the books are balanced and the worker still has the assignment.
  abbrev pub Reporting : ChunkAssignment → ChunkWindow → Coordinator W Handle → Type 0
  Reporting a w c = Balanced c × (assigned a.worker c.inflight ≡ some w)

  -- The key of a reported window is new.
  key_new :
      (c : Coordinator W Handle) (a : ChunkAssignment) (w : ChunkWindow)
      → Reporting a w c
      → ready_at w.core_start c.ready ≡ none
  unfolding holds
  key_new c a w (b, found) = elim (Option-cases (ready_at w.core_start c.ready)) [
    | inl n ↦ n
    | inr (r, e) ↦
        let whole =
          (assigned-Whole a.worker c.state.media_duration c.inflight w found b.assigned_whole).0 in
        absurd (
          ground (
            arith,
            ready_at-covers c.state.media_duration w.core_start c.ready r e b.ready_whole,
            b.covered w.core_start,
            assigned-coverage a.worker c.inflight w w.core_start found,
            whole.0.core_nonempty,
          ))
  ]

  stage_ready-Balanced :
      (a : ChunkAssignment) (w : ChunkWindow) (handle : Handle) (c : Coordinator W Handle)
      → Reporting a w c
      → Balanced (stage_ready a w handle c)
  stage_ready-Balanced a w handle c (b, found) =
      let new = key_new c a w (b, found) in
      let (whole, others) =
        assigned-Whole a.worker c.state.media_duration c.inflight w found b.assigned_whole in
      record {
        media = b.media;
        behind = b.behind;
        within = b.within;
        covered = λ t. omega (
          arith,
          b.covered t,
          assigned-coverage a.worker c.inflight w t found,
          set_ready-coverage (w, handle) c.ready t new,
        );
        assigned_whole = others;
        ready_whole =
            set_ready-Whole c.state.media_duration (w, handle) c.ready whole b.ready_whole;
        retry_proper = b.retry_proper;
        retry_ordered = b.retry_ordered;
        numbered =
            unassign-Descending a.worker c.attempt c.attempt c.inflight (omega arith) b.numbered;
        bounded = omega (
          arith,
          b.bounded,
          unassign-length a.worker c.inflight w found,
          set_ready-length (w, handle) c.ready new,
        );
      }

  -- Whatever was recognised and wherever storing raises, the books stay balanced: a range whose report
  -- is refused or not stored stays assigned.
  pub completed-Balanced :
      (cb : Storage W Handle) (a : ChunkAssignment) (result : RawResult)
      → Holds Balanced (completed cb a result) (λ _. Balanced) Balanced
  unfolding completed
  completed-Balanced cb a result =
      Holds-bind {M = λ c s. (c ≡ s) × Balanced s} _ _ (Holds-gets _ (λ s b. (refl, b))) λ c.
        Holds-bind {M = λ w. Reporting a w} _ _
          (Holds-lift (require_attempt c a)
            (λ w s e b. (
              b.1,
              subst (λ x. assigned a.worker x.inflight ≡ some w) b.0
                  (ensured _ (require_attempt c a) w (require_attempt-assigned c a) e).0,
            ))
            (λ s b. b.1))
          λ w.
            Holds-bind {M = λ staged. Reporting a w} _ _
              (Holds-lift (stage_chunk_result result w) (λ staged s e b. b) (λ s b. b.0))
              λ staged.
                Holds-bind {M = λ handle s. Unit {0} × Reporting a w s} _ _
                  (Holds-any (cb.store_result staged) (λ s x b. b) (λ s b. b.0))
                  λ handle.
                    Holds-modify (stage_ready a w handle)
                      (λ s b. stage_ready-Balanced a w handle s b.1)
