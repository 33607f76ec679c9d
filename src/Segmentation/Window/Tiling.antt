-- ===== src/Segmentation/Window/Tiling.antt =====
-- Windows that follow one another, and who owns a midpoint.
use subgen_english_plex.Common.{
  ℕ, ◌+◌, ◌*◌, ◌≤◌, ◌<◌, ◌≡◌, refl, ◌&&◌, List, [], ◌∷◌, ◌++◌, arith, leb, ltb, if◌then◌else◌,
}
use subgen_english_plex.Segmentation.Window.{ChunkWindow, owns_midpoint}
use subgen_english_plex.Segmentation.Window.Plan.{IsConsistent}

-- `windows` follow one another from `from` to `to`, in media of the length `duration`.
abbrev pub Tiles : ℕ → ℕ → ℕ → List ChunkWindow → Type 0
Tiles duration from to [] = from ≡ to
Tiles duration from to (w ∷ ws) =
    IsConsistent w
    × (w.media_duration ≡ duration)
    × (w.core_start ≡ from)
    × Tiles duration w.core_end to ws

pub Tiles-append :
    (duration from to : ℕ) (ws : List ChunkWindow) (w : ChunkWindow)
    → Tiles duration from to ws
    → IsConsistent w
    → w.media_duration ≡ duration
    → w.core_start ≡ to
    → Tiles duration from w.core_end (ws ++ w ∷ [])
Tiles-append d a b [] w t c m s = (c, m, omega arith, refl)
Tiles-append d a b (v ∷ ws) w t c m s = (t.0, t.1, t.2, Tiles-append d v.core_end b ws w t.3 c m s)

-- How many of the windows own a midpoint, given as its double.
unfoldable pub owners : List ChunkWindow → ℕ → ℕ
unfolding owns_midpoint
owners [] m = 0
owners (w ∷ ws) m = (if owns_midpoint w m then 1 else 0) + owners ws m

owners_from :
    (duration from m : ℕ) (ws : List ChunkWindow)
    → Tiles duration from duration ws
    → m ≤ 2 * duration
    → owners ws m ≡ (if leb (2 * from) m && ltb from duration then 1 else 0)
unfolding owners
owners_from d a m [] t h = ground arith
owners_from d a m (w ∷ ws) t h = ground (arith, owners_from d w.core_end m ws t.3)

-- In windows that tile the whole of the media every midpoint, the end of the media included, is owned
-- by exactly one window.
pub owners_one :
    (duration m : ℕ) (ws : List ChunkWindow)
    → 0 < duration
    → Tiles duration 0 duration ws
    → m ≤ 2 * duration
    → owners ws m ≡ 1
owners_one d m ws p t h = ground (arith, owners_from d 0 m ws t h)
