-- ===== src/Segmentation/Ranges/Coverage.antt =====
-- How often ranges cover a time, before and after sorting and merging.
use subgen_english_plex.Common.{
  ℕ, ◌+◌, ◌≤◌, ◌<◌, ◌≡◌, refl, ◌&&◌, List, [], ◌∷◌, ◌++◌, arith, All, leb, ltb, ◌==◌, if◌then◌else◌,
  Bool-cases, inl, inr, ==_iff, ap,
}
use subgen_english_plex.Segmentation.Ranges.{
  Range, range_le, insert_range, sort_ranges, merge_from, merge_ranges,
}

-- Whether the range from `a` to `b` holds the time `t`, as a number.
unfoldable pub holds : ℕ → ℕ → ℕ → ℕ
holds a b t = if leb a t && ltb t b then 1 else 0

unfoldable pub coverage : List Range → ℕ → ℕ
unfolding holds
coverage [] t = 0
coverage (r ∷ rs) t = holds r.0 r.1 t + coverage rs t

-- Ranges that are not empty and end by `limit`.
abbrev pub Proper : ℕ → Range → Type 0
Proper limit r = (r.0 < r.1) × (r.1 ≤ limit)

coverage-append :
    (rs ss : List Range) (t : ℕ) → coverage (rs ++ ss) t ≡ coverage rs t + coverage ss t
unfolding coverage
coverage-append [] ss t = omega arith
coverage-append (r ∷ rs) ss t = omega (arith, coverage-append rs ss t)

coverage-insert :
    (r : Range) (rs : List Range) (t : ℕ)
    → coverage (insert_range r rs) t ≡ holds r.0 r.1 t + coverage rs t
unfolding coverage insert_range
coverage-insert r [] t = refl
coverage-insert r (s ∷ ss) t = elim (Bool-cases (range_le r s)) [
  | inl le ↦ rw le refl
  | inr gt ↦ rw gt (omega (arith, coverage-insert r ss t))
]

coverage-sort : (rs : List Range) (t : ℕ) → coverage (sort_ranges rs) t ≡ coverage rs t
unfolding sort_ranges coverage
coverage-sort [] t = refl
coverage-sort (r ∷ rs) t = omega (arith, coverage-insert r (sort_ranges rs) t, coverage-sort rs t)

pub holds-join : (a b c t : ℕ) → a ≤ b → b ≤ c → holds a c t ≡ holds a b t + holds b c t
unfolding holds
holds-join a b c t h k = ground arith

coverage-merge_from :
    (limit : ℕ) (r : Range) (rs : List Range) (t : ℕ)
    → Proper limit r
    → All (Proper limit) rs
    → coverage (merge_from r rs) t ≡ holds r.0 r.1 t + coverage rs t
unfolding merge_from coverage
coverage-merge_from limit r [] t p ps = refl
coverage-merge_from limit r (s ∷ ss) t p ps = elim (Bool-cases (s.0 == r.1)) [
  | inl e ↦
      let meets = (==_iff s.0 r.1).0 e in
      rw e (
        omega (
          arith,
          coverage-merge_from limit (r.0, s.1) ss t (omega arith) ps.1,
          holds-join r.0 r.1 s.1 t (omega arith) (omega arith),
          ap (λ x. holds x s.1 t) meets,
        ))
  | inr n ↦ rw n (omega (arith, coverage-merge_from limit s ss t ps.0 ps.1))
]

All-insert :
    (limit : ℕ) (r : Range) (rs : List Range)
    → Proper limit r
    → All (Proper limit) rs
    → All (Proper limit) (insert_range r rs)
unfolding insert_range
All-insert limit r [] p ps = (p, tt)
All-insert limit r (s ∷ ss) p ps = elim (Bool-cases (range_le r s)) [
  | inl le ↦ rw le (p, ps)
  | inr gt ↦ rw gt (ps.0, All-insert limit r ss p ps.1)
]

All-sort :
    (limit : ℕ) (rs : List Range) → All (Proper limit) rs → All (Proper limit) (sort_ranges rs)
unfolding sort_ranges
All-sort limit [] ps = tt
All-sort limit (r ∷ rs) ps = All-insert limit r (sort_ranges rs) ps.0 (All-sort limit rs ps.1)

All-merge_from :
    (limit : ℕ) (r : Range) (rs : List Range)
    → Proper limit r
    → All (Proper limit) rs
    → All (Proper limit) (merge_from r rs)
unfolding merge_from
All-merge_from limit r [] p ps = (p, tt)
All-merge_from limit r (s ∷ ss) p ps = elim (Bool-cases (s.0 == r.1)) [
  | inl e ↦
      let meets = (==_iff s.0 r.1).0 e in
      rw e (All-merge_from limit (r.0, s.1) ss (omega arith) ps.1)
  | inr n ↦ rw n (p, All-merge_from limit s ss ps.0 ps.1)
]

coverage-merge :
    (limit : ℕ) (rs : List Range) (t : ℕ)
    → All (Proper limit) rs
    → coverage (merge_ranges rs) t ≡ coverage rs t
unfolding merge_ranges coverage
coverage-merge limit [] t ps = refl
coverage-merge limit (r ∷ rs) t ps = coverage-merge_from limit r rs t ps.0 ps.1

All-merge :
    (limit : ℕ) (rs : List Range) → All (Proper limit) rs → All (Proper limit) (merge_ranges rs)
unfolding merge_ranges
All-merge limit [] ps = tt
All-merge limit (r ∷ rs) ps = All-merge_from limit r rs ps.0 ps.1

All-append :
    (limit : ℕ) (rs ss : List Range)
    → All (Proper limit) rs
    → All (Proper limit) ss
    → All (Proper limit) (rs ++ ss)
All-append limit [] ss ps qs = qs
All-append limit (r ∷ rs) ss ps qs = (ps.0, All-append limit rs ss ps.1 qs)

-- Coalescing what was to be retried with one more range covers each time as often as both did, with
-- ranges that are not empty and end by the same limit.
pub coalesce :
    (limit : ℕ) (rs : List Range) (r : Range)
    → All (Proper limit) rs
    → Proper limit r
    → ((t : ℕ)
        → coverage (merge_ranges (sort_ranges (rs ++ r ∷ []))) t ≡ coverage rs t + holds r.0 r.1 t)
      × All (Proper limit) (merge_ranges (sort_ranges (rs ++ r ∷ [])))
unfolding coverage
coalesce limit rs r ps p =
    let every = All-sort limit (rs ++ r ∷ []) (All-append limit rs (r ∷ []) ps (p, tt)) in
    (
      λ t. omega (
        arith,
        coverage-merge limit (sort_ranges (rs ++ r ∷ [])) t every,
        coverage-sort (rs ++ r ∷ []) t,
        coverage-append rs (r ∷ []) t,
      ),
      All-merge limit (sort_ranges (rs ++ r ∷ [])) every,
    )
