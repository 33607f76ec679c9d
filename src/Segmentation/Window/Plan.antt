-- ===== src/Segmentation/Window/Plan.antt =====
-- Planning: what a window satisfies, and how far the cursor moves.
use subgen_english_plex.Common.{
  ℕ, ◌+◌, ◌-◌, ◌≤◌, ◌<◌, ◌≡◌, none, some, pos, min, ok, raise, arith, segmentation_error, ◌↔◌,
  Option, Ensures, Ensures-then, Ensures-bind, subst, sym,
}
use subgen_english_plex.Segmentation.Number.{
  Value, real, above_zero, positive_number, finite_number, non_negative,
}
use subgen_english_plex.Segmentation.Window.{
  ChunkWindow, checked_window, plan_window, plan_next_window,
}

-- The order that `ChunkWindow.__post_init__` checks.
pub record IsConsistent (w : ChunkWindow) : Type 0 where
  pub extract_before : w.extract_start ≤ w.core_start
  pub core_nonempty : w.core_start < w.core_end
  pub extract_after : w.core_end ≤ w.extract_end
  pub within_media : w.extract_end ≤ w.media_duration

-- The constructor accepts exactly the windows whose intervals are in order.
checked_window_iff : (w : ChunkWindow) → (checked_window w ≡ ok w) ↔ IsConsistent w
unfolding checked_window
checked_window_iff w = (λ h. ground arith, λ h. ground arith)

-- What the planner promises of the window after `cursor`.
pub record IsNext (cursor duration seconds ordinal overlap : ℕ) (w : ChunkWindow) : Type 0 where
  pub consistent : IsConsistent w
  pub numbered : w.ordinal ≡ ordinal
  pub whole : w.media_duration ≡ duration
  pub starts : w.core_start ≡ cursor
  pub ends : w.core_end ≡ min duration (cursor + seconds)
  pub context_before : w.extract_start ≡ cursor - overlap
  pub context_after : w.extract_end ≡ min duration (w.core_end + overlap)

abbrev pub next_window : ℕ → ℕ → ℕ → ℕ → ℕ → ChunkWindow
next_window cursor duration seconds ordinal overlap = record {
  ordinal = ordinal;
  media_duration = duration;
  core_start = cursor;
  core_end = min duration (cursor + seconds);
  extract_start = cursor - overlap;
  extract_end = min duration (min duration (cursor + seconds) + overlap);
}

pub plan_window_eq :
    (cursor duration seconds ordinal overlap : ℕ)
    → cursor < duration
    → 0 < seconds
    → plan_window cursor duration seconds ordinal overlap
      ≡ ok (some (next_window cursor duration seconds ordinal overlap))
unfolding plan_window
plan_window_eq c d s o l h p = ground arith

pub next_window-IsNext :
    (cursor duration seconds ordinal overlap : ℕ)
    → cursor < duration
    → 0 < seconds
    → IsNext cursor duration seconds ordinal overlap
        (next_window cursor duration seconds ordinal overlap)
next_window-IsNext c d s o l h p = omega arith

-- With a positive duration and working time and a non-negative cursor and overlap, planning returns
-- the next window, which is consistent, starts at the cursor and ends at the working time or the end
-- of the media, while the cursor is before the end; it returns no window exactly at the end, and it
-- raises a segmentation error behind it.
pub plan_next_window_cases :
    (cursor duration seconds ordinal overlap : ℕ)
    → 0 < duration
    → 0 < seconds
    → let plan =
        plan_next_window
          (real (pos cursor))
          (real (pos duration))
          (real (pos seconds))
          ordinal
          (real (pos overlap)) in
      (cursor < duration
        → (w : ChunkWindow) × (plan ≡ ok (some w))
          × IsNext cursor duration seconds ordinal overlap w)
      × (plan ≡ ok none ↔ cursor ≡ duration)
      × (duration < cursor → plan ≡ raise segmentation_error)
unfolding plan_next_window
plan_next_window_cases c d s o l e p = (
  λ h. (next_window c d s o l, ground arith, next_window-IsNext c d s o l h p),
  (λ h. ground arith, λ h. ground arith),
  λ h. ground arith,
)

-- What stands behind a plan, whatever the working time and the overlap are.
abbrev pub Planned : ℕ → ℕ → Option ChunkWindow → Type 0
Planned cursor duration none = cursor ≡ duration
Planned cursor duration (some w) =
    IsConsistent w × (w.media_duration ≡ duration) × (w.core_start ≡ cursor)

plan_window-Planned : (c d s o l : ℕ) → Ensures (Planned c d) (plan_window c d s o l)
unfolding plan_window
plan_window-Planned c d s o l = ground arith

above_zero_same : (d : ℕ) → Ensures (λ x. x ≡ d) (above_zero (pos d))
above_zero_same d = ground arith

pub plan_next_window-Planned :
    (c d o : ℕ) (seconds overlap : Value)
    → Ensures (Planned c d) (plan_next_window (real (pos c)) (real (pos d)) seconds o overlap)
unfolding plan_next_window
plan_next_window-Planned c d o seconds overlap =
    Ensures-bind (λ x. x ≡ d) (Planned c d) (above_zero (pos d)) _ (above_zero_same d)
      λ d' same. Ensures-then (Planned c d) (positive_number seconds) _ λ s.
        Ensures-then (Planned c d) (finite_number overlap) _ λ l.
          Ensures-then (Planned c d) (non_negative l) _ λ l'.
            subst (λ x. Ensures (Planned c d) (plan_window c x s o l')) (sym same)
              (plan_window-Planned c d s o l')
