-- ===== src/Segmentation/Ranges/Order.antt =====
-- The order of the retry ranges: sorting and merging put them in the order of their starts.
use subgen_english_plex.Common.{
  ℕ, ◌+◌, ◌≤◌, ◌≡◌, true, false, List, [], ◌∷◌, arith, All, ◌==◌, Bool-cases, inl, inr,
}
use subgen_english_plex.Segmentation.Ranges.{
  Range, range_le, insert_range, sort_ranges, merge_from, merge_ranges,
}
use subgen_english_plex.Segmentation.Ranges.Coverage.{holds, coverage, Proper}

-- A range that does not start before `k`.
abbrev pub From : ℕ → Range → Type 0
From k r = k ≤ r.0

-- Ranges in the order of their starts.
abbrev pub InOrder : List Range → Type 0
InOrder [] = Unit
InOrder (r ∷ rs) = All (From r.0) rs × InOrder rs

pub All-From : (j k : ℕ) (rs : List Range) → j ≤ k → All (From k) rs → All (From j) rs
All-From j k [] h a = tt
All-From j k (r ∷ rs) h a = (omega (arith, a.0), All-From j k rs h a.1)

insert-From :
    (k : ℕ) (r : Range) (rs : List Range)
    → From k r
    → All (From k) rs
    → All (From k) (insert_range r rs)
unfolding insert_range
insert-From k r [] h a = (h, tt)
insert-From k r (s ∷ ss) h a = elim (Bool-cases (range_le r s)) [
  | inl le ↦ rw le (h, a)
  | inr gt ↦ rw gt (a.0, insert-From k r ss h a.1)
]

le_starts : (r s : Range) → range_le r s ≡ true → r.0 ≤ s.0
unfolding range_le
le_starts r s h = ground arith

gt_starts : (r s : Range) → range_le r s ≡ false → s.0 ≤ r.0
unfolding range_le
gt_starts r s h = ground arith

insert-InOrder : (r : Range) (rs : List Range) → InOrder rs → InOrder (insert_range r rs)
unfolding insert_range
insert-InOrder r [] o = (tt, tt)
insert-InOrder r (s ∷ ss) o = elim (Bool-cases (range_le r s)) [
  | inl le ↦ let first = le_starts r s le in rw le ((first, All-From r.0 s.0 ss first o.0), o)
  | inr gt ↦ rw gt (insert-From s.0 r ss (gt_starts r s gt) o.0, insert-InOrder r ss o.1)
]

pub sort-InOrder : (rs : List Range) → InOrder (sort_ranges rs)
unfolding sort_ranges
sort-InOrder [] = tt
sort-InOrder (r ∷ rs) = insert-InOrder r (sort_ranges rs) (sort-InOrder rs)

merge-From :
    (k : ℕ) (r : Range) (rs : List Range)
    → From k r
    → All (From k) rs
    → All (From k) (merge_from r rs)
unfolding merge_from
merge-From k r [] h a = (h, tt)
merge-From k r (s ∷ ss) h a = elim (Bool-cases (s.0 == r.1)) [
  | inl e ↦ rw e (merge-From k (r.0, s.1) ss h a.1)
  | inr n ↦ rw n (h, merge-From k s ss a.0 a.1)
]

merge_from-InOrder :
    (r : Range) (rs : List Range) → All (From r.0) rs → InOrder rs → InOrder (merge_from r rs)
unfolding merge_from
merge_from-InOrder r [] a o = (tt, tt)
merge_from-InOrder r (s ∷ ss) a o = elim (Bool-cases (s.0 == r.1)) [
  | inl e ↦ rw e (merge_from-InOrder (r.0, s.1) ss a.1 o.1)
  | inr n ↦
      rw n (merge-From r.0 s ss a.0 (All-From r.0 s.0 ss a.0 o.0), merge_from-InOrder s ss o.0 o.1)
]

pub merge-InOrder : (rs : List Range) → InOrder rs → InOrder (merge_ranges rs)
unfolding merge_ranges
merge-InOrder [] o = tt
merge-InOrder (r ∷ rs) o = merge_from-InOrder r rs o.0 o.1

-- Ranges that start behind the start of one that they do not overlap start behind its end.
pub behind_end :
    (limit start end : ℕ) (rs : List Range)
    → ((t : ℕ) → holds start end t + coverage rs t ≤ 1)
    → All (From start) rs
    → All (Proper limit) rs
    → All (From end) rs
unfolding holds coverage
behind_end limit start end [] apart a p = tt
behind_end limit start end (r ∷ rs) apart a p = (
  ground (arith, apart r.0, a.0, p.0),
  behind_end limit start end rs (λ t. omega (arith, apart t)) a.1 p.1,
)
