-- ===== src/Segmentation/Parallel/Attempts.antt =====
-- Reports of attempts that were given back before.
use subgen_english_plex.Common.{
  ℕ, ◌≤◌, ◌<◌, ◌≡◌, refl, false, Option, none, some, List, [], ◌∷◌, arith, All, Bool-cases, inl,
  inr, subst, sym, ok, raise, segmentation_error, same_text, ensured, Ensures, Ensures-then,
  Ensures-bind, ◌==◌,
}
use subgen_english_plex.Common.Action.{gets, lift, ◌>>=◌, Outcome-either}
use subgen_english_plex.Segmentation.Number.{Text}
use subgen_english_plex.Segmentation.Recognition.{RawResult}
use subgen_english_plex.Segmentation.Window.{ChunkWindow}
use subgen_english_plex.Segmentation.Parallel.{
  ChunkAssignment, Coordinator, assigned, unassign, claim, pause_dispatch, require_attempt,
  same_attempt, yielded,
}
use subgen_english_plex.Segmentation.Parallel.Storage.{Storage, completed, commit_ready}
use subgen_english_plex.Segmentation.Parallel.Books.{Descending}
use subgen_english_plex.Segmentation.Parallel.Dispatch.{Balanced}
use subgen_english_plex.Segmentation.Parallel.Claim.{
  claim-Ensures, yielded-Balanced, require_attempt-assigned,
}
use subgen_english_plex.Segmentation.Parallel.Keeping.{completed-keeps, commit_ready-keeps}
use subgen_english_plex.Segmentation.Parallel.Reach.{
  Step, Steps, claims, yields, completes, commits, pauses, here, there, Steps-Balanced,
}

abbrev pub HasOther : ℕ → ChunkAssignment → Type 0
HasOther n a = (a.window.ordinal == n) ≡ false

All-unassign :
    (n : ℕ) (worker : Text) (as' : List ChunkAssignment)
    → All (HasOther n) as'
    → All (HasOther n) (unassign worker as')
unfolding unassign
All-unassign n worker [] h = tt
All-unassign n worker (a ∷ as') h = elim (Bool-cases (same_text worker a.worker)) [
  | inl e ↦ rw e h.1
  | inr k ↦ rw k (h.0, All-unassign n worker as' h.1)
]

assigned-HasOther :
    (n : ℕ) (worker : Text) (as' : List ChunkAssignment) (w : ChunkWindow)
    → All (HasOther n) as'
    → assigned worker as' ≡ some w
    → (w.ordinal == n) ≡ false
unfolding assigned
assigned-HasOther n worker [] w h e = absurd (cc)
assigned-HasOther n worker (a ∷ as') w h e = elim (Bool-cases (same_text worker a.worker)) [
  | inl s ↦ let same : a.window ≡ w = ground arith in subst (λ x. (x.ordinal == n) ≡ false) same h.0
  | inr k ↦
      let later : assigned worker as' ≡ some w = ground arith in
      assigned-HasOther n worker as' w h.1 later
]

below-HasOther :
    (n m : ℕ) (as' : List ChunkAssignment) → n ≤ m → Descending n as' → All (HasOther m) as'
below-HasOther n m [] h d = tt
below-HasOther n m (a ∷ as') h d =
    (ground (arith, d.0), below-HasOther a.window.ordinal m as' (omega (arith, d.0)) d.1)

-- What is left behind an assignment that is removed has other numbers.
unassign-HasOther :
    (n : ℕ) (worker : Text) (as' : List ChunkAssignment) (w : ChunkWindow)
    → Descending n as'
    → assigned worker as' ≡ some w
    → (w.ordinal < n) × All (HasOther w.ordinal) (unassign worker as')
unfolding assigned unassign
unassign-HasOther n worker [] w d e = absurd (cc)
unassign-HasOther n worker (a ∷ as') w d e = elim (Bool-cases (same_text worker a.worker)) [
  | inl s ↦
      let same : a.window ≡ w = ground arith in
      rw s (
        subst (λ x. (x.ordinal < n) × All (HasOther x.ordinal) as') same
          (d.0, below-HasOther a.window.ordinal a.window.ordinal as' (omega arith) d.1))
  | inr k ↦
      let later : assigned worker as' ≡ some w = ground arith in
      let (below, others) = unassign-HasOther a.window.ordinal worker as' w d.1 later in
      rw k (omega (arith, d.0), (ground arith, others))
]

same_attempt-refused :
    (a : ChunkAssignment) (o : Option ChunkWindow)
    → ((w : ChunkWindow) → o ≡ some w → (w.ordinal == a.window.ordinal) ≡ false)
    → same_attempt a o ≡ raise segmentation_error
unfolding same_attempt
same_attempt-refused a none h = refl
same_attempt-refused a (some w) h = let other = h w refl in rw other refl

module _ {W Handle : Type 0} where
  -- The attempt was given and is not in flight.
  abbrev pub IsStale : ℕ → Coordinator W Handle → Type 0
  IsStale n c = (n < c.attempt) × All (HasOther n) c.inflight

  stale-refused :
      (c : Coordinator W Handle) (a : ChunkAssignment)
      → c.closed ≡ false
      → IsStale a.window.ordinal c
      → require_attempt c a ≡ raise segmentation_error
  unfolding require_attempt
  stale-refused c a open' stale =
      let refused =
        same_attempt-refused a (assigned a.worker c.inflight)
          λ w e. assigned-HasOther a.window.ordinal a.worker c.inflight w stale.1 e in
      simp (open', refused)

  yielded-IsStale :
      (c : Coordinator W Handle) (a : ChunkAssignment) (n : ℕ)
      → IsStale n c
      → Ensures (IsStale n) (yielded c a)
  unfolding yielded
  yielded-IsStale c a n s =
      Ensures-then (IsStale n) (require_attempt c a) _
        λ w. (s.0, All-unassign n a.worker c.inflight s.1)

  -- Giving an attempt back makes it stale.
  yielded-makes-IsStale :
      (c : Coordinator W Handle) (a : ChunkAssignment)
      → Balanced c
      → Ensures (IsStale a.window.ordinal) (yielded c a)
  unfolding yielded
  yielded-makes-IsStale c a b =
      Ensures-bind _ (IsStale a.window.ordinal) (require_attempt c a) _
        (require_attempt-assigned c a)
        λ w f.
          subst (λ n. (n < c.attempt) × All (HasOther n) (unassign a.worker c.inflight)) f.1
            (unassign-HasOther c.attempt a.worker c.inflight w b.numbered f.0)

  Step-IsStale :
      (cb : Storage W Handle) (n : ℕ) (c c' : Coordinator W Handle)
      → Step cb c c'
      → Balanced c
      → IsStale n c
      → IsStale n c'
  unfolding pause_dispatch
  Step-IsStale cb n c c' (claims worker v o e) b s =
      ensured (λ x. IsStale n x.0) (claim c worker v) (c', o)
        (claim-Ensures c worker (IsStale n) v b s λ w d number new b'. (
          omega (arith, new.1, s.0),
          subst (All (HasOther n)) (sym new.0) (ground (arith, s.0), s.1),
        ))
        e
  Step-IsStale cb n c c' (yields a e) b s =
      ensured (IsStale n) (yielded c a) c' (yielded-IsStale c a n s) e
  Step-IsStale cb n c _ (completes a result) b s =
      let (r, d) = completed cb a result c in
      Outcome-either (IsStale n) r d (
        (completed-keeps cb (IsStale n) (λ c w x. x)
            (λ a w h c x. (x.0, All-unassign n a.worker c.inflight x.1)) a result).at
          c s)
  Step-IsStale cb n c _ (commits check m) b s =
      let (r, d) = commit_ready cb check m c in
      Outcome-either (IsStale n) r d
        ((commit_ready-keeps cb (IsStale n) (λ c w x. x) (λ next c x. x) check m).at c s)
  Step-IsStale cb n c _ (pauses paused) b s = s

  Steps-IsStale :
      (cb : Storage W Handle) (n : ℕ) (c c' : Coordinator W Handle)
      → Steps cb c c'
      → Balanced c
      → IsStale n c
      → IsStale n c'
  Steps-IsStale cb n c _ here b s = s
  Steps-IsStale cb n c c'' (there {c'} p t) b s =
      Step-IsStale cb n c' c'' t (Steps-Balanced cb c c' p b) (Steps-IsStale cb n c c' p b s)

  -- Once a worker has given its attempt back, no later report of that attempt is accepted by the open
  -- scheduler, whatever was called in between and even if the range was assigned again: giving it back
  -- again and completing it raise a segmentation error, and completing it changes nothing.
  pub late_report-refused :
      (cb : Storage W Handle) (c c' c'' : Coordinator W Handle) (a : ChunkAssignment)
      (result : RawResult)
      → Balanced c
      → yielded c a ≡ ok c'
      → Steps cb c' c''
      → c''.closed ≡ false
      → (yielded c'' a ≡ raise segmentation_error)
        × (completed cb a result c'' ≡ (raise segmentation_error, c''))
  unfolding yielded completed gets lift ◌>>=◌
  late_report-refused cb c c' c'' a result b e steps open' =
      let balanced = ensured Balanced (yielded c a) c' (yielded-Balanced c a b) e in
      let stale =
        ensured (IsStale a.window.ordinal) (yielded c a) c' (yielded-makes-IsStale c a b) e in
      let refused =
        stale-refused c'' a open' (Steps-IsStale cb a.window.ordinal c' c'' steps balanced stale) in
      (rw refused refl, rw refused refl)
