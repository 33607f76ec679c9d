-- ===== src/Segmentation/Sequential/Trace.antt =====
-- The events of a run: which attempts are closed, and what the store has kept.
use subgen_english_plex.Common.{ℕ, List, [], ◌∷◌, ◌++◌, ok, ◌≡◌, subst, sym, ap}
use subgen_english_plex.Segmentation.Recognition.{StagedChunk}
use subgen_english_plex.Segmentation.Window.{ChunkWindow}
use subgen_english_plex.Segmentation.Window.Plan.{IsConsistent}
use subgen_english_plex.Segmentation.Assembly.{AssemblyState, next_state}
use subgen_english_plex.Segmentation.Assembly.Transcript.{Log, Commits}
use subgen_english_plex.Segmentation.Sequential.{
  Event, started, persisted, committed, unwound, finalized,
}

-- Events, the newest first, in which every chunk that was started is closed.
pub data Closed : List Event → Type 0 where
  untouched : Closed []
  undone : (w : ChunkWindow) {es : List Event} → Closed es → Closed (unwound w ∷ started w ∷ es)
  undone_stored :
      (w : ChunkWindow) (c : StagedChunk) {es : List Event}
      → Closed es
      → Closed (unwound w ∷ persisted w c ∷ started w ∷ es)
  done :
      (w : ChunkWindow) (c : StagedChunk) {es : List Event}
      → Closed es
      → Closed (committed w ∷ persisted w c ∷ started w ∷ es)

-- The chunks that the storage callback kept, the oldest first.
abbrev pub stored : List Event → Log
stored [] = []
stored (persisted w c ∷ es) = stored es ++ (w, c) ∷ []
stored (started w ∷ es) = stored es
stored (committed w ∷ es) = stored es
stored (unwound w ∷ es) = stored es
stored (finalized s ∷ es) = stored es

module _ (duration : ℕ) where
  -- Between two attempts, at the state `s`.
  pub record Settled (s : AssemblyState) (es : List Event) : Type 0 where
    pub closed : Closed es
    pub commits : Commits duration s (stored es)

  -- In an attempt, before its chunk is stored.
  pub record Opened (s : AssemblyState) (w : ChunkWindow) (es : List Event) : Type 0 where
    pub earlier : List Event
    pub opened : es ≡ started w ∷ earlier
    pub before : Settled s earlier

  -- In an attempt, so that an unwinding closes it.
  pub record Unwindable (w : ChunkWindow) (es : List Event) : Type 0 where
    pub state : AssemblyState
    pub closes : Settled state (unwound w ∷ es)

  -- How a run ends: settled, or settled with the finalization of a finished transcript on top.
  pub data Ended : List Event → Type 0 where
    stopped : (s : AssemblyState) {es : List Event} → Settled s es → Ended es
    delivered :
        (s : AssemblyState) {es : List Event}
        → Settled s es
        → s.cursor ≡ duration
        → Ended (finalized s ∷ es)

  -- In an attempt, when its chunk is stored and the state would be `next`.
  pub record Kept (next : AssemblyState) (w : ChunkWindow) (es : List Event) : Type 0 where
    pub chunk : StagedChunk
    pub earlier : List Event
    pub kept : es ≡ persisted w chunk ∷ started w ∷ earlier
    pub closed : Closed earlier
    pub commits : Commits duration next (stored earlier ++ (w, chunk) ∷ [])

  pub Opened-undone :
      (s : AssemblyState) (w : ChunkWindow) (es : List Event)
      → Opened s w es
      → Settled s (unwound w ∷ es)
  Opened-undone s w es o =
      subst (λ l. Settled s (unwound w ∷ l)) (sym o.opened)
        (record { closed = undone w o.before.closed; commits = o.before.commits })

  pub Opened-Unwindable :
      (s : AssemblyState) (w : ChunkWindow) (es : List Event) → Opened s w es → Unwindable w es
  Opened-Unwindable s w es o = record { state = s; closes = Opened-undone s w es o }

  pub Kept-Unwindable :
      (n : AssemblyState) (w : ChunkWindow) (es : List Event) → Kept n w es → Unwindable w es
  Kept-Unwindable n w es k = record {
    state = n;
    closes =
        subst (λ l. Settled n (unwound w ∷ l)) (sym k.kept)
          (record { closed = undone_stored w k.chunk k.closed; commits = k.commits });
  }

  pub Kept-done :
      (n : AssemblyState) (w : ChunkWindow) (es : List Event)
      → Kept n w es
      → Settled n (committed w ∷ es)
  Kept-done n w es k =
      subst (λ l. Settled n (committed w ∷ l)) (sym k.kept)
        (record { closed = done w k.chunk k.closed; commits = k.commits })

  pub Opened-Kept :
      (s n : AssemblyState) (w : ChunkWindow) (c : StagedChunk) (es : List Event)
      → IsConsistent w
      → Opened s w es × (next_state s w c ≡ ok n)
      → Kept n w (persisted w c ∷ es)
  Opened-Kept s n w c es k (o, e) = record {
    chunk = c;
    earlier = o.earlier;
    kept = ap (◌∷◌ (persisted w c)) o.opened;
    closed = o.before.closed;
    commits = Commits.next w c o.before.commits k e;
  }

  pub Settled-Ended : (s : AssemblyState) (es : List Event) → Settled s es → Ended es
  Settled-Ended s es h = stopped s h

  pub Unwindable-Ended :
      (w : ChunkWindow) (es : List Event) → Unwindable w es → Ended (unwound w ∷ es)
  Unwindable-Ended w es u = stopped u.state u.closes
