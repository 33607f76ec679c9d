-- ===== src/Segmentation/Window/Progress.antt =====
-- Progress reports of a chunk and the core that is being transcribed.
use subgen_english_plex.Common.{◌≤◌, ◌≡◌, ok, arith, ℤ, pos_part}
use subgen_english_plex.Segmentation.Number.{real}
use subgen_english_plex.Segmentation.Window.{ChunkWindow, mapped_progress, source_seek}
use subgen_english_plex.Segmentation.Window.Plan.{IsConsistent}

-- For every finite seek and total the callback of a consistent window is given a position in the core
-- with the duration of the media, a later seek never gives an earlier position, and at a total that
-- is not positive the position is the start of the core.
pub mapped_progress_in_core :
    (w : ChunkWindow) (seek later total : ℤ)
    → IsConsistent w
    → pos_part seek ≤ pos_part later
    → let p = source_seek w seek total in
      let q = source_seek w later total in
      (mapped_progress w (real seek) (real total) ≡ ok (p, w.media_duration))
      × (mapped_progress w (real later) (real total) ≡ ok (q, w.media_duration))
      × (w.core_start ≤ p)
      × (p ≤ q)
      × (q ≤ w.core_end)
      × (pos_part total ≡ 0 → p ≡ w.core_start)
unfolding mapped_progress
mapped_progress_in_core w s l t c h = ground arith
