-- ===== src/Tests/Window.antt =====
-- Windows of a recording of ten seconds, in chunks of four seconds with an overlap of one.
use subgen_english_plex.Common.{
  ℕ, ◌≤◌, ◌<◌, ◌≡◌, ◌↔◌, refl, List, [], ◌∷◌, none, some, pos, negsuc, ok, raise,
  segmentation_error, arith,
}
use subgen_english_plex.Segmentation.Number.{real}
use subgen_english_plex.Segmentation.Window.{
  ChunkWindow, plan_next_window, mapped_progress, source_seek,
}
use subgen_english_plex.Segmentation.Window.Plan.{IsNext, next_window, plan_next_window_cases}
use subgen_english_plex.Segmentation.Window.Tiling.{Tiles, owners, owners_one}
use subgen_english_plex.Segmentation.Window.Progress.{mapped_progress_in_core}

abbrev pub first : ChunkWindow
first = next_window 0 10 4 0 1

abbrev pub second : ChunkWindow
second = next_window 4 10 4 1 1

abbrev pub third : ChunkWindow
third = next_window 8 10 4 2 1

abbrev pub whole : List ChunkWindow
whole = first ∷ second ∷ third ∷ []

pub whole-Tiles : Tiles 10 0 10 whole
whole-Tiles = omega arith

third_planned :
    plan_next_window (real (pos 8)) (real (pos 10)) (real (pos 4)) 2 (real (pos 1))
    ≡ ok (some third)
unfolding plan_next_window
third_planned = refl

plan_next_window_cases_example :
    let plan = plan_next_window (real (pos 8)) (real (pos 10)) (real (pos 4)) 2 (real (pos 1)) in
    (8 < 10 → (w : ChunkWindow) × (plan ≡ ok (some w)) × IsNext 8 10 4 2 1 w)
    × (plan ≡ ok none ↔ ◌≡◌ {A = ℕ} 8 10)
    × (10 < 8 → plan ≡ raise segmentation_error)
plan_next_window_cases_example = plan_next_window_cases 8 10 4 2 1 (omega arith) (omega arith)

owners_one_example : owners whole 8 ≡ 1
owners_one_example = owners_one 10 8 whole (omega arith) whole-Tiles (omega arith)

progress_below_core : mapped_progress second (real (negsuc 3)) (real (pos 6)) ≡ ok (4, 10)
unfolding mapped_progress
progress_below_core = refl

mapped_progress_in_core_example :
    let p = source_seek second (pos 2) (pos 6) in
    let q = source_seek second (pos 9) (pos 6) in
    (mapped_progress second (real (pos 2)) (real (pos 6)) ≡ ok (p, 10))
    × (mapped_progress second (real (pos 9)) (real (pos 6)) ≡ ok (q, 10))
    × (4 ≤ p)
    × (p ≤ q)
    × (q ≤ 8)
    × (◌≡◌ {A = ℕ} 6 0 → p ≡ 4)
mapped_progress_in_core_example =
    mapped_progress_in_core second (pos 2) (pos 9) (pos 6) (omega arith) (omega arith)
