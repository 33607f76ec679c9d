-- ===== src/Segmentation/Parallel/Books.antt =====
-- The books of the coordinator: what its lists of assigned, staged and retried ranges cover, and how
-- looking up, adding and removing an entry changes that.
use subgen_english_plex.Common.{
  ℕ, suc, ◌+◌, ◌*◌, ◌≤◌, ◌<◌, ◌≡◌, refl, List, [], ◌∷◌, none, some, arith, All, length, subst, ◌==◌,
  Bool-cases, leb, ltb, ◌&&◌, inl, inr, same_text,
}
use subgen_english_plex.Segmentation.Number.{Text}
use subgen_english_plex.Segmentation.Ranges.{Range}
use subgen_english_plex.Segmentation.Ranges.Coverage.{holds, coverage, Proper}
use subgen_english_plex.Segmentation.Ranges.Order.{InOrder}
use subgen_english_plex.Segmentation.Window.{ChunkWindow}
use subgen_english_plex.Segmentation.Window.Plan.{IsConsistent}
use subgen_english_plex.Segmentation.Assembly.{AssemblyState}
use subgen_english_plex.Segmentation.Parallel.{ChunkAssignment, assigned, unassign}
use subgen_english_plex.Segmentation.Parallel.Storage.{ready_at, set_ready, remove_ready}

-- How often the cores of assigned windows hold a time.
unfoldable pub assigned_coverage : List ChunkAssignment → ℕ → ℕ
assigned_coverage [] t = 0
assigned_coverage (a ∷ as') t =
    holds a.window.core_start a.window.core_end t + assigned_coverage as' t

-- A consistent window of the media.
abbrev pub Whole : ℕ → ChunkWindow → Type 0
Whole duration w = IsConsistent w × (w.media_duration ≡ duration)

-- Attempt numbers below `n`, the newest first, each given once.
abbrev pub Descending : ℕ → List ChunkAssignment → Type 0
Descending n [] = Unit
Descending n (a ∷ as') = (a.window.ordinal < n) × Descending a.window.ordinal as'

abbrev pub WholeAssignment : ℕ → ChunkAssignment → Type 0
WholeAssignment duration a = Whole duration a.window

raise-Descending :
    (n m : ℕ) (as' : List ChunkAssignment) → n ≤ m → Descending n as' → Descending m as'
raise-Descending n m [] h d = tt
raise-Descending n m (a ∷ as') h d = (omega arith, d.1)

module _ (worker : Text) where
  pub assigned-coverage :
      (as' : List ChunkAssignment) (w : ChunkWindow) (t : ℕ)
      → assigned worker as' ≡ some w
      → assigned_coverage as' t
        ≡ holds w.core_start w.core_end t + assigned_coverage (unassign worker as') t
  unfolding assigned unassign assigned_coverage
  assigned-coverage [] w t h = absurd (cc)
  assigned-coverage (a ∷ as') w t h = ground (arith, assigned-coverage as' w t)

  pub assigned-Whole :
      (duration : ℕ) (as' : List ChunkAssignment) (w : ChunkWindow)
      → assigned worker as' ≡ some w
      → All (WholeAssignment duration) as'
      → Whole duration w × All (WholeAssignment duration) (unassign worker as')
  unfolding assigned unassign
  assigned-Whole d [] w h p = absurd (cc)
  assigned-Whole d (a ∷ as') w h p = elim (Bool-cases (same_text worker a.worker)) [
    | inl e ↦ let same : a.window ≡ w = ground arith in rw e (subst (Whole d) same p.0, p.1)
    | inr n ↦
        let later : assigned worker as' ≡ some w = ground arith in
        let (v, vs) = assigned-Whole d as' w later p.1 in rw n (v, (p.0, vs))
  ]

  pub unassign-length :
      (as' : List ChunkAssignment) (w : ChunkWindow)
      → assigned worker as' ≡ some w
      → length as' ≡ suc (length (unassign worker as'))
  unfolding assigned unassign
  unassign-length [] w h = absurd (cc)
  unassign-length (a ∷ as') w h = ground (arith, unassign-length as' w)

  pub unassign-Descending :
      (n m : ℕ) (as' : List ChunkAssignment)
      → n ≤ m
      → Descending n as'
      → Descending m (unassign worker as')
  unfolding unassign
  unassign-Descending n m [] h d = tt
  unassign-Descending n m (a ∷ as') h d = elim (Bool-cases (same_text worker a.worker)) [
    | inl e ↦ rw e (raise-Descending a.window.ordinal m as' (omega arith) d.1)
    | inr k ↦
        rw k
          (omega arith, unassign-Descending a.window.ordinal a.window.ordinal as' (omega arith) d.1)
  ]

module _ {Handle : Type 0} where
  unfoldable pub ready_coverage : List (ChunkWindow × Handle) → ℕ → ℕ
  ready_coverage [] t = 0
  ready_coverage (r ∷ rs) t = holds r.0.core_start r.0.core_end t + ready_coverage rs t

  abbrev pub WholeReady : ℕ → ChunkWindow × Handle → Type 0
  WholeReady duration r = Whole duration r.0

  pub ready_at-coverage :
      (k : ℕ) (rs : List (ChunkWindow × Handle)) (r : ChunkWindow × Handle) (t : ℕ)
      → ready_at k rs ≡ some r
      → ready_coverage rs t
        ≡ holds r.0.core_start r.0.core_end t + ready_coverage (remove_ready k rs) t
  unfolding ready_at remove_ready ready_coverage
  ready_at-coverage k [] r t h = absurd (cc)
  ready_at-coverage k (s ∷ rs) r t h = ground (arith, ready_at-coverage k rs r t)

  pub ready_at-start :
      (k : ℕ) (rs : List (ChunkWindow × Handle)) (r : ChunkWindow × Handle)
      → ready_at k rs ≡ some r
      → r.0.core_start ≡ k
  unfolding ready_at
  ready_at-start k [] r h = absurd (cc)
  ready_at-start k (s ∷ rs) r h = ground (arith, ready_at-start k rs r)

  pub remove_ready-length :
      (k : ℕ) (rs : List (ChunkWindow × Handle)) (r : ChunkWindow × Handle)
      → ready_at k rs ≡ some r
      → length rs ≡ suc (length (remove_ready k rs))
  unfolding ready_at remove_ready
  remove_ready-length k [] r h = absurd (cc)
  remove_ready-length k (s ∷ rs) r h = ground (arith, remove_ready-length k rs r)

  pub set_ready-coverage :
      (x : ChunkWindow × Handle) (rs : List (ChunkWindow × Handle)) (t : ℕ)
      → ready_at x.0.core_start rs ≡ none
      → ready_coverage (set_ready x rs) t
        ≡ holds x.0.core_start x.0.core_end t + ready_coverage rs t
  unfolding ready_at set_ready ready_coverage
  set_ready-coverage x [] t h = refl
  set_ready-coverage x (r ∷ rs) t h = ground (arith, set_ready-coverage x rs t)

  pub set_ready-length :
      (x : ChunkWindow × Handle) (rs : List (ChunkWindow × Handle))
      → ready_at x.0.core_start rs ≡ none
      → length (set_ready x rs) ≡ suc (length rs)
  unfolding ready_at set_ready
  set_ready-length x [] h = refl
  set_ready-length x (r ∷ rs) h = ground (arith, set_ready-length x rs)

  pub ready_at-Whole :
      (duration k : ℕ) (rs : List (ChunkWindow × Handle)) (r : ChunkWindow × Handle)
      → ready_at k rs ≡ some r
      → All (WholeReady duration) rs
      → Whole duration r.0 × All (WholeReady duration) (remove_ready k rs)
  unfolding ready_at remove_ready
  ready_at-Whole d k [] r h p = absurd (cc)
  ready_at-Whole d k (s ∷ rs) r h p = elim (Bool-cases (s.0.core_start == k)) [
    | inl e ↦ let same : s ≡ r = ground arith in rw e (subst (WholeReady d) same p.0, p.1)
    | inr n ↦
        let later : ready_at k rs ≡ some r = ground arith in
        let (v, vs) = ready_at-Whole d k rs r later p.1 in rw n (v, (p.0, vs))
  ]

  pub set_ready-Whole :
      (duration : ℕ) (x : ChunkWindow × Handle) (rs : List (ChunkWindow × Handle))
      → Whole duration x.0
      → All (WholeReady duration) rs
      → All (WholeReady duration) (set_ready x rs)
  unfolding set_ready
  set_ready-Whole d x [] v p = (v, tt)
  set_ready-Whole d x (r ∷ rs) v p = elim (Bool-cases (r.0.core_start == x.0.core_start)) [
    | inl e ↦ rw e (v, p.1)
    | inr n ↦ rw n (p.0, set_ready-Whole d x rs v p.1)
  ]

  -- An entry that is found covers the time where it starts.
  pub ready_at-covers :
      (duration k : ℕ) (rs : List (ChunkWindow × Handle)) (r : ChunkWindow × Handle)
      → ready_at k rs ≡ some r
      → All (WholeReady duration) rs
      → 1 ≤ ready_coverage rs k
  unfolding holds
  ready_at-covers d k rs r h p =
      let whole = (ready_at-Whole d k rs r h p).0 in
      ground (arith, ready_at-coverage k rs r k h, ready_at-start k rs r h, whole.0.core_nonempty)

  pub ready_at-more :
      (k : ℕ) (r s : ChunkWindow × Handle) (rs : List (ChunkWindow × Handle))
      → ready_at k rs ≡ some s
      → (s' : ChunkWindow × Handle) × (ready_at k (r ∷ rs) ≡ some s')
  unfolding ready_at
  ready_at-more k r s rs h = elim (Bool-cases (r.0.core_start == k)) [
    | inl e ↦ (r, ground arith)
    | inr n ↦ (s, ground arith)
  ]

  -- Where an entry starts that covers a time, an entry is found.
  pub covered-ready_at :
      (t : ℕ) (rs : List (ChunkWindow × Handle))
      → 1 ≤ ready_coverage rs t
      → (r : ChunkWindow × Handle) × (s : ChunkWindow × Handle) × (r.0.core_start ≤ t)
        × (t < r.0.core_end)
        × (ready_at r.0.core_start rs ≡ some s)
  unfolding ready_coverage ready_at holds
  covered-ready_at t [] h = absurd (omega arith)
  covered-ready_at t (r ∷ rs) h = elim (Bool-cases (leb r.0.core_start t && ltb t r.0.core_end)) [
    | inl e ↦ (r, r, ground arith, ground arith, ground arith)
    | inr n ↦
        let (q, s, low, high, found) = covered-ready_at t rs (ground arith) in
        let (s', found') = ready_at-more q.0.core_start r s rs found in (q, s', low, high, found')
  ]

  -- What the coordinator keeps: the assigned, staged and retried ranges partition what is between the
  -- committed cursor and the dispatched one, those to be retried are in order, every window is
  -- consistent, attempts are numbered apart, and the lookahead is bounded.
  pub record IsBalanced (workers : List Text) (state : AssemblyState) (cursor attempt : ℕ)
      (inflight : List ChunkAssignment) (ready : List (ChunkWindow × Handle)) (retry : List Range)
      : Type 0 where
    pub media : 0 < state.media_duration
    pub behind : state.cursor ≤ cursor
    pub within : cursor ≤ state.media_duration
    pub covered :
        (t : ℕ)
        → assigned_coverage inflight t + ready_coverage ready t + coverage retry t
          ≡ holds state.cursor cursor t
    pub assigned_whole : All (WholeAssignment state.media_duration) inflight
    pub ready_whole : All (WholeReady state.media_duration) ready
    pub retry_proper : All (Proper state.media_duration) retry
    pub retry_ordered : InOrder retry
    pub numbered : Descending attempt inflight
    pub bounded : length inflight + length ready ≤ 2 * length workers
