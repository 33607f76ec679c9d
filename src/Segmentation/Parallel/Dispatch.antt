-- ===== src/Segmentation/Parallel/Dispatch.antt =====
-- What dispatching work does to the books of the coordinator.
use subgen_english_plex.Common.{
  ℕ, ◌+◌, ◌-◌, ◌≤◌, ◌<◌, ◌≡◌, refl, ◌⊎◌, inl, inr, min, false, List, [], ◌∷◌, none, some, Option,
  pos, negsuc, ℤ, ap, arith, All, subst, sym, ◌==◌, Bool-cases, ==_iff, Result, ok, Ensures,
  Ensures-then,
}
use subgen_english_plex.Segmentation.Number.{
  Text, Value, positive_number, finite_number, above_zero,
}
use subgen_english_plex.Segmentation.Ranges.{Range}
use subgen_english_plex.Segmentation.Ranges.Coverage.{holds, holds-join, coverage, Proper}
use subgen_english_plex.Segmentation.Ranges.Order.{From, InOrder, All-From, behind_end}
use subgen_english_plex.Segmentation.Window.{ChunkWindow}
use subgen_english_plex.Segmentation.Window.Plan.{IsNext, plan_next_window_cases}
use subgen_english_plex.Segmentation.Parallel.{
  ChunkAssignment, Coordinator, pending_count, maximum_pending, plan_claim, assign, rest_of_retry,
  claim_retry, claim_fresh, dispatch,
}
use subgen_english_plex.Segmentation.Parallel.Books.{assigned_coverage, Descending, IsBalanced}

-- Where the next claim starts and where it must end: the earliest retry, otherwise fresh work.
abbrev pub work_from : ℕ → ℕ → List Range → Range
work_from cursor duration [] = (cursor, duration)
work_from cursor duration (r ∷ rs) = r

above_zero-positive : (n : ℤ) → Ensures (λ n. 0 < n) (above_zero n)
above_zero-positive (pos n) = ground arith
above_zero-positive (negsuc n) = tt

pub positive_number-positive : (v : Value) → Ensures (λ n. 0 < n) (positive_number v)
unfolding positive_number
positive_number-positive v =
    Ensures-then (λ n. 0 < n) (finite_number v) _ λ n. above_zero-positive n

rest_of_retry-coverage :
    (end limit : ℕ) (rest : List Range) (t : ℕ)
    → coverage (rest_of_retry end limit rest) t ≡ holds end limit t + coverage rest t
unfolding coverage holds
rest_of_retry-coverage e l rest t = ground arith

rest_of_retry-Proper :
    (duration end limit : ℕ) (rest : List Range)
    → end ≤ limit
    → limit ≤ duration
    → All (Proper duration) rest
    → All (Proper duration) (rest_of_retry end limit rest)
rest_of_retry-Proper d e l rest h k p = elim (Bool-cases (e == l)) [
  | inl q ↦ rw q p
  | inr q ↦ rw q ((ground arith, k), p)
]

rest_of_retry-InOrder :
    (end limit : ℕ) (rest : List Range)
    → All (From end) rest
    → InOrder rest
    → InOrder (rest_of_retry end limit rest)
rest_of_retry-InOrder e l rest a o = elim (Bool-cases (e == l)) [
  | inl q ↦ rw q o
  | inr q ↦ rw q (a, o)
]

module _ {W Handle : Type 0} where
  abbrev pub Balanced : Coordinator W Handle → Type 0
  Balanced c = IsBalanced c.workers c.state c.cursor c.attempt c.inflight c.ready c.retry

  abbrev pub next_work : Coordinator W Handle → Range
  next_work c = work_from c.cursor c.state.media_duration c.retry

  -- A window for the work of at most `seconds` from `start`.
  abbrev pub IsShare : Coordinator W Handle → ℕ → Range → ChunkWindow → Type 0
  IsShare c seconds r w =
      IsNext r.0 c.state.media_duration (min seconds (r.1 - r.0)) c.attempt c.overlap w

  plan_claim_lem :
      (c : Coordinator W Handle) (start limit seconds : ℕ)
      → start < limit
      → limit ≤ c.state.media_duration
      → 0 < seconds
      → (w : ChunkWindow) × (plan_claim c start limit seconds ≡ ok (some w))
        × IsShare c seconds (start, limit) w
  unfolding plan_claim
  plan_claim_lem c start limit seconds h k p =
      (plan_next_window_cases start c.state.media_duration (min seconds (limit - start)) c.attempt
          c.overlap (omega arith) (omega arith)).0
        (omega arith)

  fresh-Balanced :
      (c : Coordinator W Handle) (worker : Text) (seconds : ℕ) (w : ChunkWindow)
      → Balanced c
      → pending_count c < maximum_pending c
      → IsShare c seconds (c.cursor, c.state.media_duration) w
      → Balanced (record (assign c worker w) { cursor = w.core_end })
  unfolding pending_count maximum_pending assigned_coverage
  fresh-Balanced c worker seconds w b room n =
      let nonempty = n.consistent.core_nonempty in
      let starts = n.starts in
      let ends = n.ends in
      record {
        media = b.media;
        behind = omega (arith, b.behind);
        within = omega (arith, b.within);
        covered = λ t. omega (
          arith,
          b.covered t,
          holds-join c.state.cursor c.cursor w.core_end t b.behind (omega arith),
          ap (λ x. holds x w.core_end t) starts,
        );
        assigned_whole = ((n.consistent, n.whole), b.assigned_whole);
        ready_whole = b.ready_whole;
        retry_proper = b.retry_proper;
        retry_ordered = b.retry_ordered;
        numbered = (
          omega (arith, n.numbered),
          subst (λ m. Descending m c.inflight) (sym n.numbered) b.numbered,
        );
        bounded = omega arith;
      }

  retry-Balanced :
      (c : Coordinator W Handle) (worker : Text) (seconds start limit : ℕ) (rest : List Range)
      (w : ChunkWindow)
      → Balanced c
      → c.retry ≡ (start, limit) ∷ rest
      → pending_count c < maximum_pending c
      → IsShare c seconds (start, limit) w
      → Balanced (record (assign c worker w) { retry = rest_of_retry w.core_end limit rest })
  unfolding pending_count maximum_pending assigned_coverage coverage holds
  retry-Balanced c worker seconds start limit rest w b e room n =
      let nonempty = n.consistent.core_nonempty in
      let starts = n.starts in
      let ends = n.ends in
      let proper : All (Proper c.state.media_duration) ((start, limit) ∷ rest) =
        subst (All (Proper c.state.media_duration)) e b.retry_proper in
      let ordered : InOrder ((start, limit) ∷ rest) = subst InOrder e b.retry_ordered in
      let fits : w.core_end ≤ limit = omega (arith, proper.0.0) in
      record {
        media = b.media;
        behind = b.behind;
        within = b.within;
        covered = λ t. omega (
          arith,
          b.covered t,
          ap (λ x. coverage x t) e,
          rest_of_retry-coverage w.core_end limit rest t,
          holds-join start w.core_end limit t (omega arith) fits,
          ap (λ x. holds x w.core_end t) starts,
        );
        assigned_whole = ((n.consistent, n.whole), b.assigned_whole);
        ready_whole = b.ready_whole;
        retry_proper =
            rest_of_retry-Proper c.state.media_duration w.core_end limit rest fits proper.0.1
              proper.1;
        retry_ordered =
            rest_of_retry-InOrder w.core_end limit rest
              (All-From w.core_end limit rest fits (
                behind_end c.state.media_duration start limit rest
                  (λ t. ground (arith, b.covered t, ap (λ x. coverage x t) e)) ordered.0 proper.1))
              ordered.1;
        numbered = (
          omega (arith, n.numbered),
          subst (λ m. Descending m c.inflight) (sym n.numbered) b.numbered,
        );
        bounded = omega arith;
      }

  -- What a claim adds: one attempt, newly numbered.
  abbrev pub IsAssigned : Coordinator W Handle → Text → ChunkWindow → Coordinator W Handle → Type 0
  IsAssigned c worker w c' =
      (c'.inflight ≡ record { worker = worker; window = w } ∷ c.inflight)
      × (c'.attempt ≡ c.attempt + 1)

  -- How a claim by an idle worker ends for what is next: nothing is left, or the work is shared.
  abbrev pub Dispatched :
      Coordinator W Handle
      → Text
      → ℕ
      → Range
      → Result (Coordinator W Handle × Option ChunkAssignment)
      → Type 0
  Dispatched c worker seconds next r =
      ((next.0 ≡ next.1) × (r ≡ ok (c, none)))
      ⊎ ((w : ChunkWindow) × (c' : Coordinator W Handle) × (r
            ≡ ok (c', some (record { worker = worker; window = w })))
          × IsShare c seconds next w
          × IsAssigned c worker w c'
          × Balanced c')

  dispatch_fresh :
      (c : Coordinator W Handle) (worker : Text) (seconds : ℕ)
      → Balanced c
      → pending_count c < maximum_pending c
      → 0 < seconds
      → Dispatched c worker seconds
          (c.cursor, c.state.media_duration)
          (dispatch c worker seconds [])
  unfolding dispatch claim_fresh
  dispatch_fresh c worker seconds b room p =
      elim (Bool-cases (c.cursor == c.state.media_duration)) [
        | inl q ↦ inl ((==_iff c.cursor c.state.media_duration).0 q, rw q refl)
        | inr q ↦
            let within = b.within in
            let unfinished : c.cursor < c.state.media_duration = ground arith in
            let (w, planned, share) =
              plan_claim_lem c c.cursor c.state.media_duration seconds unfinished (omega arith) p in
            inr (
              w,
              record (assign c worker w) { cursor = w.core_end },
              rw q (rw planned refl),
              share,
              (refl, refl),
              fresh-Balanced c worker seconds w b room share,
            )
      ]

  dispatch_retry :
      (c : Coordinator W Handle) (worker : Text) (seconds start limit : ℕ) (rest : List Range)
      → Balanced c
      → c.retry ≡ (start, limit) ∷ rest
      → pending_count c < maximum_pending c
      → 0 < seconds
      → Dispatched c worker seconds
          (start, limit)
          (dispatch c worker seconds ((start, limit) ∷ rest))
  unfolding dispatch claim_retry
  dispatch_retry c worker seconds start limit rest b e room p =
      let proper : All (Proper c.state.media_duration) ((start, limit) ∷ rest) =
        subst (All (Proper c.state.media_duration)) e b.retry_proper in
      let unequal : (start == limit) ≡ false = ground (arith, proper.0.0) in
      let (w, planned, share) = plan_claim_lem c start limit seconds proper.0.0 proper.0.1 p in
      inr (
        w,
        record (assign c worker w) { retry = rest_of_retry w.core_end limit rest },
        rw unequal (rw planned refl),
        share,
        (refl, refl),
        retry-Balanced c worker seconds start limit rest w b e room share,
      )

  pub dispatch_lem :
      (c : Coordinator W Handle) (worker : Text) (seconds : ℕ) (retry : List Range)
      → Balanced c
      → c.retry ≡ retry
      → pending_count c < maximum_pending c
      → 0 < seconds
      → Dispatched c worker seconds
          (work_from c.cursor c.state.media_duration retry)
          (dispatch c worker seconds retry)
  dispatch_lem c worker seconds [] b e room p = dispatch_fresh c worker seconds b room p
  dispatch_lem c worker seconds ((start, limit) ∷ rest) b e room p =
      dispatch_retry c worker seconds start limit rest b e room p
