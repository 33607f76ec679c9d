-- ===== src/Segmentation/Parallel/Claim.antt =====
-- What `claim` and `yielded` do to the books of the coordinator.
use subgen_english_plex.Common.{
  List, [], ◌∷◌, ◌++◌, All, ℕ, ◌<◌, ◌≡◌, refl, inl, inr, true, false, not, ◌||◌, none, some, Option,
  arith, subst, sym, leb, Bool-cases, if◌then◌else◌, Result, ok, Ensures, require, runtime_error,
  value_error, Ensures-then, Ensures-bind, ensured,
}
use subgen_english_plex.Segmentation.Number.{Text, Value, positive_number}
use subgen_english_plex.Segmentation.Ranges.{Range, sort_ranges}
use subgen_english_plex.Segmentation.Ranges.Order.{From, InOrder, sort-InOrder, merge-InOrder}
use subgen_english_plex.Segmentation.Ranges.Coverage.{coalesce}
use subgen_english_plex.Segmentation.Window.{ChunkWindow}
use subgen_english_plex.Segmentation.Parallel.{
  ChunkAssignment, Coordinator, assigned, pending_count, maximum_pending, dispatch, claim,
  is_assigned, mentions, require_attempt, same_attempt, yielded,
}
use subgen_english_plex.Segmentation.Parallel.Books.{
  assigned-coverage, assigned-Whole, unassign-length, unassign-Descending,
}
use subgen_english_plex.Segmentation.Parallel.Dispatch.{
  positive_number-positive, work_from, Balanced, next_work, Dispatched, IsAssigned, dispatch_lem,
}

same_attempt-same :
    (a : ChunkAssignment) (o : Option ChunkWindow)
    → Ensures (λ w. (o ≡ some w) × (w.ordinal ≡ a.window.ordinal)) (same_attempt a o)
unfolding same_attempt
same_attempt-same a none = tt
same_attempt-same a (some w) = ground arith

first_is_earliest :
    (cursor duration : ℕ) (retry : List Range)
    → InOrder retry
    → All (From (work_from cursor duration retry).0) retry
first_is_earliest cursor duration [] o = tt
first_is_earliest cursor duration (r ∷ rs) o = (omega arith, o.0)

module _ {W Handle : Type 0} where
  -- An idle worker of an open scheduler that is not paused and has room for lookahead is refused work
  -- exactly if nothing is left to be assigned. Otherwise it is assigned the first range that waits for a
  -- retry, or else fresh work, for at most its safe duration, and the books stay balanced. No range that
  -- waits for a retry starts earlier than the work that is next.
  pub claim_lem :
      (c : Coordinator W Handle) (worker : Text) (v : Value) (seconds : ℕ)
      → Balanced c
      → c.closed ≡ false
      → c.dispatch_paused ≡ false
      → mentions worker c.workers ≡ true
      → assigned worker c.inflight ≡ none
      → pending_count c < maximum_pending c
      → positive_number v ≡ ok seconds
      → Dispatched c worker seconds (next_work c) (claim c worker v)
        × All (From (next_work c).0) c.retry
  unfolding claim is_assigned
  claim_lem c worker v seconds b open' paused known idle room e =
      let p = ensured (λ n. 0 < n) (positive_number v) seconds (positive_number-positive v) e in
      let d = dispatch_lem c worker seconds c.retry b refl room p in
      let roomy : leb (maximum_pending c) (pending_count c) ≡ false = ground arith in
      let same : claim c worker v ≡ dispatch c worker seconds c.retry =
        simp (open', paused, known, e, idle, roomy) in
      (
        subst (Dispatched c worker seconds (next_work c)) (sym same) d,
        first_is_earliest c.cursor c.state.media_duration c.retry b.retry_ordered,
      )

  -- What holds of a scheduler, and of each that a claim leads to.
  abbrev pub Claimed : Coordinator W Handle → Text → (Coordinator W Handle → Type 0) → Type 0
  Claimed c worker Q =
      (w : ChunkWindow) (c' : Coordinator W Handle)
      → w.ordinal ≡ c.attempt
      → IsAssigned c worker w c'
      → Balanced c'
      → Q c'

  module _ (c : Coordinator W Handle) (worker : Text) (Q : Coordinator W Handle → Type 0) where
    Dispatched-Ensures :
        (seconds : ℕ) (next : Range) (r : Result (Coordinator W Handle × Option ChunkAssignment))
        → Q c
        → Claimed c worker Q
        → Dispatched c worker seconds next r
        → Ensures (λ x. Q x.0) r
    Dispatched-Ensures seconds next r q h (inl (z, e)) = subst (Ensures (λ x. Q x.0)) (sym e) q
    Dispatched-Ensures seconds next r q h (inr (w, c', e, share, new, b)) =
        subst (Ensures (λ x. Q x.0)) (sym e) (h w c' share.numbered new b)

    within_lookahead :
        (seconds : ℕ)
        → Balanced c
        → 0 < seconds
        → Q c
        → Claimed c worker Q
        → Ensures
            (λ x. Q x.0)
            (if c.dispatch_paused || leb (maximum_pending c) (pending_count c)
              then ok (c, none)
              else dispatch c worker seconds c.retry)
    within_lookahead seconds b p q h =
        elim (Bool-cases (c.dispatch_paused || leb (maximum_pending c) (pending_count c))) [
          | inl stop ↦ rw stop q
          | inr go ↦
              let room : pending_count c < maximum_pending c = ground arith in
              rw go (
                Dispatched-Ensures seconds (next_work c) _ q h
                  (dispatch_lem c worker seconds c.retry b refl room p))
        ]

    -- What a claim keeps, whoever claims whatever.
    pub claim-Ensures :
        (v : Value)
        → Balanced c
        → Q c
        → Claimed c worker Q
        → Ensures (λ x. Q x.0) (claim c worker v)
    unfolding claim
    claim-Ensures v b q h =
        Ensures-then (λ x. Q x.0) (require (not c.closed) runtime_error) _
          λ u1.
            Ensures-then (λ x. Q x.0) (require (mentions worker c.workers) value_error) _
              λ u2.
                Ensures-bind (λ n. 0 < n) (λ x. Q x.0) (positive_number v) _
                  (positive_number-positive v)
                  λ seconds p.
                    Ensures-then (λ x. Q x.0)
                      (require (not (is_assigned (assigned worker c.inflight))) runtime_error) _
                      λ u3. within_lookahead seconds b p q h

  -- Behind an accepted report stands the assignment of the worker.
  pub require_attempt-assigned :
      (c : Coordinator W Handle) (a : ChunkAssignment)
      → Ensures
          (λ w. (assigned a.worker c.inflight ≡ some w) × (w.ordinal ≡ a.window.ordinal))
          (require_attempt c a)
  unfolding require_attempt
  require_attempt-assigned c a =
      Ensures-then _ (require (not c.closed) runtime_error) _
        λ u. same_attempt-same a (assigned a.worker c.inflight)

  pub yielded-Balanced :
      (c : Coordinator W Handle) (a : ChunkAssignment) → Balanced c → Ensures Balanced (yielded c a)
  unfolding yielded
  yielded-Balanced c a b =
      Ensures-bind _ Balanced (require_attempt c a) _ (require_attempt-assigned c a) λ w found.
        let (whole, others) =
          assigned-Whole a.worker c.state.media_duration c.inflight w found.0 b.assigned_whole in
        let (covers, proper) =
          coalesce c.state.media_duration c.retry (w.core_start, w.core_end) b.retry_proper
            (omega arith) in
        record {
          media = b.media;
          behind = b.behind;
          within = b.within;
          covered = λ t.
              omega
                (arith, b.covered t, covers t, assigned-coverage a.worker c.inflight w t found.0);
          assigned_whole = others;
          ready_whole = b.ready_whole;
          retry_proper = proper;
          retry_ordered =
              merge-InOrder (sort_ranges (c.retry ++ (w.core_start, w.core_end) ∷ []))
                (sort-InOrder (c.retry ++ (w.core_start, w.core_end) ∷ []));
          numbered =
              unassign-Descending a.worker c.attempt c.attempt c.inflight (omega arith) b.numbered;
          bounded = omega (arith, b.bounded, unassign-length a.worker c.inflight w found.0);
        }
