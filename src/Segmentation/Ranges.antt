-- ===== src/Segmentation/Ranges.antt =====
-- The retry ranges of `ParallelChunkCoordinator` in subgen_core/segmentation.py: `sorted` on pairs of
-- numbers, and the coalescing loop of `yielded`.
pub mod Coverage
pub mod Order
use subgen_english_plex.Common.{
  ℕ, Bool, true, false, ◌&&◌, ◌||◌, List, [], ◌∷◌, leb, ltb, ◌==◌, if◌then◌else◌,
}

abbrev pub Range : Type 0
Range = ℕ × ℕ

-- The order of pairs of numbers.
unfoldable pub range_le : Range → Range → Bool
range_le r s = ltb r.0 s.0 || (r.0 == s.0 && leb r.1 s.1)

unfoldable pub insert_range : Range → List Range → List Range
insert_range r [] = r ∷ []
insert_range r (s ∷ ss) = if range_le r s then r ∷ s ∷ ss else s ∷ insert_range r ss

-- `sorted`
unfoldable pub sort_ranges : List Range → List Range
unfolding insert_range range_le
sort_ranges [] = []
sort_ranges (r ∷ rs) = insert_range r (sort_ranges rs)

-- The loop over the sorted ranges, with the last merged range in hand.
unfoldable pub merge_from : Range → List Range → List Range
merge_from last [] = last ∷ []
merge_from last (r ∷ rs) =
    let joined = merge_from (last.0, r.1) rs in
    let apart = last ∷ merge_from r rs in if r.0 == last.1 then joined else apart

unfoldable pub merge_ranges : List Range → List Range
unfolding merge_from
merge_ranges [] = []
merge_ranges (r ∷ rs) = merge_from r rs
