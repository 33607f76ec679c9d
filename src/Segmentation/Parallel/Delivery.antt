-- ===== src/Segmentation/Parallel/Delivery.antt =====
-- What is committed when the scheduler has nothing left to do.
use subgen_english_plex.Common.{
  ℕ, ◌<◌, ◌≡◌, true, none, some, List, [], arith, ◌==◌, Bool-cases, inl, inr, ap, ok, ensured,
  subst,
}
use subgen_english_plex.Segmentation.Number.{Text, Value}
use subgen_english_plex.Segmentation.Ranges.Coverage.{holds, coverage}
use subgen_english_plex.Segmentation.Window.{ChunkWindow}
use subgen_english_plex.Segmentation.Assembly.{complete}
use subgen_english_plex.Segmentation.Parallel.{Coordinator, new_coordinator}
use subgen_english_plex.Segmentation.Parallel.Storage.{Storage, ready_at}
use subgen_english_plex.Segmentation.Parallel.Books.{
  assigned_coverage, ready_coverage, covered-ready_at, ready_at-covers,
}
use subgen_english_plex.Segmentation.Parallel.Dispatch.{Balanced}
use subgen_english_plex.Segmentation.Parallel.Reach.{
  Steps, Steps-Balanced, new_coordinator-Balanced,
}

module _ {W Handle : Type 0} where
  covered_once :
      (c : Coordinator W Handle) (t : ℕ)
      → Balanced c
      → c.inflight ≡ []
      → c.retry ≡ []
      → ready_coverage c.ready t ≡ holds c.state.cursor c.cursor t
  unfolding assigned_coverage coverage
  covered_once c t b i r =
      omega (arith, b.covered t, ap (λ x. assigned_coverage x t) i, ap (λ x. coverage x t) r)

  -- What waits behind the committed cursor has its first range at the cursor.
  first_ready :
      (c : Coordinator W Handle)
      → Balanced c
      → c.inflight ≡ []
      → c.retry ≡ []
      → c.state.cursor < c.cursor
      → (s : ChunkWindow × Handle) × (ready_at c.state.cursor c.ready ≡ some s)
  unfolding holds
  first_ready c b i r h =
      let (q, s, low, high, found) =
        covered-ready_at c.state.cursor c.ready
          (ground (arith, covered_once c c.state.cursor b i r)) in
      let here =
        ready_at-covers c.state.media_duration q.0.core_start c.ready s found b.ready_whole in
      let same : q.0.core_start ≡ c.state.cursor =
        ground (arith, covered_once c q.0.core_start b i r) in
      (s, subst (λ t. ready_at t c.ready ≡ some s) same found)

  -- Whatever sequence of calls led there, the assigned, staged and retried ranges of a scheduler that
  -- is not closed partition what is between the committed cursor and the dispatched one, all their
  -- windows are consistent windows of the media, the attempts in flight have different numbers, and the
  -- assigned and staged ranges are at most twice as many as the workers.
  pub reached-Balanced :
      (cb : Storage W Handle) (world : W) (duration : Value) (workers : List Text) (overlap : Value)
      (c c' : Coordinator W Handle)
      → new_coordinator world duration workers overlap ≡ ok c
      → Steps cb c c'
      → Balanced c'
  reached-Balanced cb world duration workers overlap c c' e steps = Steps-Balanced cb c c' steps (
      ensured Balanced (new_coordinator world duration workers overlap) c
        (new_coordinator-Balanced Handle world duration workers overlap) e)

  -- Whatever sequence of calls led there, if everything was dispatched, nothing is in flight or to be
  -- retried, and the entry at the committed cursor is not ready, then the whole media is committed.
  pub nothing_lost :
      (cb : Storage W Handle) (world : W) (duration : Value) (workers : List Text) (overlap : Value)
      (c c' : Coordinator W Handle)
      → new_coordinator world duration workers overlap ≡ ok c
      → Steps cb c c'
      → c'.inflight ≡ []
      → c'.retry ≡ []
      → c'.cursor ≡ c'.state.media_duration
      → ready_at c'.state.cursor c'.ready ≡ none
      → complete c'.state ≡ true
  unfolding complete
  nothing_lost cb world duration workers overlap c c' e steps i r d n =
      let b = reached-Balanced cb world duration workers overlap c c' e steps in
      elim (Bool-cases (c'.state.cursor == c'.state.media_duration)) [
        | inl whole ↦ whole
        | inr rest ↦
            let behind = b.behind in
            let within = b.within in
            let (s, found) = first_ready c' b i r (ground arith) in absurd (cc)
      ]
