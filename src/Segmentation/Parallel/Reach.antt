-- ===== src/Segmentation/Parallel/Reach.antt =====
-- The scheduler as a step relation: every sequence of calls before `close`, an exception of a storage
-- callback included, and what no sequence of them can do.
use subgen_english_plex.Common.{
  ℕ, ◌<◌, ◌≡◌, Bool, false, Option, List, [], arith, subst, sym, Result, ok, raise, require,
  value_error, ensured, Ensures, Ensures-then, Ensures-bind,
}
use subgen_english_plex.Common.Action.{Action, Outcome, Outcome-either}
use subgen_english_plex.Segmentation.Number.{
  Text, Value, positive_number, finite_number, non_negative,
}
use subgen_english_plex.Segmentation.Recognition.{RawResult}
use subgen_english_plex.Segmentation.Ranges.Coverage.{holds, coverage}
use subgen_english_plex.Segmentation.Window.{ChunkWindow}
use subgen_english_plex.Segmentation.Assembly.{AssemblyState, initial_state, checked_state}
use subgen_english_plex.Segmentation.Parallel.{
  ChunkAssignment, Coordinator, new_coordinator, workers_fit, claim, pause_dispatch, yielded,
}
use subgen_english_plex.Segmentation.Parallel.Storage.{Storage, completed, commit_ready}
use subgen_english_plex.Segmentation.Parallel.Books.{assigned_coverage, ready_coverage}
use subgen_english_plex.Segmentation.Parallel.Dispatch.{positive_number-positive, Balanced}
use subgen_english_plex.Segmentation.Parallel.Claim.{claim-Ensures, yielded-Balanced}
use subgen_english_plex.Segmentation.Parallel.Storing.{completed-Balanced}
use subgen_english_plex.Segmentation.Parallel.Committing.{commit_ready-Balanced, Returned}

checked_state-same : (s : AssemblyState) → Ensures (λ x. x ≡ s) (checked_state s)
unfolding checked_state
checked_state-same s = ground arith

module _ {W : Type 0} (H : Type 0) where
  -- The coordinator behind `__init__`.
  abbrev begun : W → List Text → ℕ → AssemblyState → Coordinator W H
  begun world workers overlap s = record {
    world = world;
    state = s;
    workers = workers;
    overlap = overlap;
    cursor = 0;
    attempt = 0;
    inflight = [];
    ready = [];
    retry = [];
    closed = false;
    dispatch_paused = false;
  }

  fresh-Balanced :
      (world : W) (workers : List Text) (overlap duration : ℕ)
      → 0 < duration
      → Balanced (begun world workers overlap (initial_state duration))
  unfolding holds coverage assigned_coverage ready_coverage
  fresh-Balanced world workers overlap d p = record {
    media = p;
    behind = omega arith;
    within = omega arith;
    covered = λ t. ground arith;
    assigned_whole = tt;
    ready_whole = tt;
    retry_proper = tt;
    retry_ordered = tt;
    numbered = tt;
    bounded = omega arith;
  }

  pub new_coordinator-Balanced :
      (world : W) (duration : Value) (workers : List Text) (overlap : Value)
      → Ensures Balanced (new_coordinator {Handle = H} world duration workers overlap)
  unfolding new_coordinator
  new_coordinator-Balanced world duration workers overlap =
      Ensures-then Balanced (require (workers_fit workers) value_error) _ λ u.
        Ensures-bind (λ d. 0 < d) Balanced (positive_number duration) _
          (positive_number-positive duration)
          λ d p.
            Ensures-bind (λ s. s ≡ initial_state d) Balanced (checked_state (initial_state d)) _
              (checked_state-same (initial_state d))
              λ s same. Ensures-then Balanced (finite_number overlap) _ λ n.
                Ensures-then Balanced (non_negative n) _ λ o.
                  subst (λ x. Balanced (begun world workers o x)) (sym same)
                    (fresh-Balanced world workers o d p)

module _ {W Handle : Type 0} where
  -- A call on the open scheduler: those that raise before they change anything are no step.
  pub data Step (cb : Storage W Handle) : Coordinator W Handle → Coordinator W Handle → Type 0 where
    claims :
        {c c' : Coordinator W Handle} (worker : Text) (v : Value) (o : Option ChunkAssignment)
        → claim c worker v ≡ ok (c', o)
        → Step cb c c'
    yields :
        {c c' : Coordinator W Handle} (a : ChunkAssignment) → yielded c a ≡ ok c' → Step cb c c'
    completes :
        {c : Coordinator W Handle} (a : ChunkAssignment) (result : RawResult)
        → Step cb c (completed cb a result c).1
    commits :
        {c : Coordinator W Handle} (check : Action W Bool) (maximum_commits : Option Value)
        → Step cb c (commit_ready cb check maximum_commits c).1
    pauses : {c : Coordinator W Handle} (paused : Bool) → Step cb c (pause_dispatch paused c)

  pub data Steps (cb : Storage W Handle) (c : Coordinator W Handle)
      : Coordinator W Handle → Type 0 where
    here : Steps cb c c
    there : {c' c'' : Coordinator W Handle} → Steps cb c c' → Step cb c' c'' → Steps cb c c''

  committed-Balanced :
      (cb : Storage W Handle) (r : Result (Option (List ChunkWindow))) (c : Coordinator W Handle)
      → Outcome (Returned cb) Balanced (r, c)
      → Balanced c
  committed-Balanced cb (ok o) c h = h.0
  committed-Balanced cb (raise e) c h = h

  pub Step-Balanced :
      (cb : Storage W Handle) (c c' : Coordinator W Handle)
      → Step cb c c'
      → Balanced c
      → Balanced c'
  unfolding pause_dispatch
  Step-Balanced cb c c' (claims worker v o e) b =
      ensured (λ x. Balanced x.0) (claim c worker v) (c', o)
        (claim-Ensures c worker Balanced v b b (λ w d n new b'. b')) e
  Step-Balanced cb c c' (yields a e) b =
      ensured Balanced (yielded c a) c' (yielded-Balanced c a b) e
  Step-Balanced cb c _ (completes a result) b =
      let (r, d) = completed cb a result c in
      Outcome-either Balanced r d ((completed-Balanced cb a result).at c b)
  Step-Balanced cb c _ (commits check m) b =
      let (r, d) = commit_ready cb check m c in
      committed-Balanced cb r d ((commit_ready-Balanced cb check m).at c b)
  Step-Balanced cb c _ (pauses paused) b = b

  pub Steps-Balanced :
      (cb : Storage W Handle) (c c' : Coordinator W Handle)
      → Steps cb c c'
      → Balanced c
      → Balanced c'
  Steps-Balanced cb c _ here b = b
  Steps-Balanced cb c c'' (there {c'} s t) b =
      Step-Balanced cb c' c'' t (Steps-Balanced cb c c' s b)
