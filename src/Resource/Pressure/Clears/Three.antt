-- ===== src/Resource/Pressure/Clears/Three.antt =====
-- What stands behind a signal that counts as recovered: three clear publications.
use subgen_english_plex.Common.{
  ℕ, suc, ◌≤◌, ◌<◌, ◌≡◌, refl, sym, ◌⊎◌, inl, inr, Bool, true, false, Option, none, some, List, [],
  ◌∷◌, ◌++◌, ok, arith, length, subst,
}
use subgen_english_plex.Common.Action.{Outcome}
use subgen_english_plex.Priority.{PriorityObservation}
use subgen_english_plex.Resource.Pressure.{Phase, Settings, Inputs, Node}
use subgen_english_plex.Resource.Pressure.Signal.{
  resets_recovery, above_water, priority_recovery_ready,
}
use subgen_english_plex.Resource.Pressure.Listen.{observe_priority}
use subgen_english_plex.Resource.Pressure.Rules.{On, Anything}
use subgen_english_plex.Resource.Pressure.Clears.{Publishes, Counts, Counted, listen-Counted}

-- The generations were published in this order, the newest first, and nothing reset the recovery since.
abbrev pub Supported : List PriorityObservation → List ℕ → Type 0
Supported os [] = Unit
Supported [] (g ∷ gs) = ⊥
Supported (o ∷ os) (g ∷ gs) =
    (resets_recovery o ≡ false) × ((Publishes g o × Supported os gs) ⊎ Supported os (g ∷ gs))

-- Ever smaller, from below `h` on.
abbrev pub Descends : ℕ → List ℕ → Type 0
Descends h [] = Unit
Descends h (g ∷ gs) = (g < h) × Descends g gs

abbrev UnderWater : Option ℕ → List ℕ → Type 0
UnderWater none gs = gs ≡ []
UnderWater (some h) gs = Descends (suc h) gs

-- As many generations as were counted.
abbrev Backed : List PriorityObservation → ℕ → Option ℕ → Type 0
Backed os k w = (gs : List ℕ) × (k ≤ length gs) × UnderWater w gs × Supported os gs

module _ {R W : Type 0} (s : Settings R) (env : Inputs W) where
  -- The observations that a controller took since its count was zero, the newest first. What happens in
  -- between leaves the observation, the count and the high water alone.
  pub data Listened : List PriorityObservation → Node R W → Type 0 where
    begun : (n : Node R W) → n.controller.distinct_clear_count ≡ 0 → Listened [] n
    heard :
        {os : List PriorityObservation} {n : Node R W} (o : PriorityObservation) (resident : Bool)
        (p : Phase) (n' : Node R W)
        → Listened os n
        → observe_priority s env o resident n ≡ (ok p, n')
        → Listened (o ∷ os) n'
    aside :
        {os : List PriorityObservation} {n : Node R W} (n' : Node R W)
        → Listened os n
        → n'.controller.distinct_clear_count ≡ n.controller.distinct_clear_count
        → n'.controller.generation_high_water ≡ n.controller.generation_high_water
        → Listened os n'

-- The new generation is above those before.
raised :
    (g : ℕ) (w : Option ℕ) (gs : List ℕ) → above_water w g ≡ true → UnderWater w gs → Descends g gs
raised g none gs a u = subst (Descends g) (sym u) tt
raised g (some h) [] a u = tt
raised g (some h) (x ∷ gs) a u = (ground arith, u.1)

older :
    (o : PriorityObservation) (os : List PriorityObservation) (gs : List ℕ)
    → resets_recovery o ≡ false
    → Supported os gs
    → Supported (o ∷ os) gs
older o os [] r h = tt
older o os (g ∷ gs) r h = (r, inr h)

next-Backed :
    (o : PriorityObservation) (os : List PriorityObservation) (k k' : ℕ) (w w' : Option ℕ)
    → Backed os k w
    → Counts o k w k' w'
    → Backed (o ∷ os) k' w'
next-Backed o os k k' w none b (inl z) = ([], omega arith, refl, tt)
next-Backed o os k k' w (some h) b (inl z) = ([], omega arith, tt, tt)
next-Backed o os k k' w w' (gs, few, under, support) (inr (inl (r, e, f))) =
    (gs, omega (arith, few), subst (λ x. UnderWater x gs) (sym f) under, older o os gs r support)
next-Backed o os k k' w w' (gs, few, under, support) (inr (inr (g, r, p, a, e, f))) = (
  g ∷ gs,
  omega (arith, few),
  subst (λ x. UnderWater x (g ∷ gs)) (sym e) (omega arith, raised g w gs a under),
  (r, inl (p, support)),
)

prefix_lem :
    (os : List PriorityObservation) (xs ys : List ℕ) → Supported os (xs ++ ys) → Supported os xs
prefix_lem os [] ys h = tt
prefix_lem [] (x ∷ xs) ys h = h
prefix_lem (o ∷ os) (x ∷ xs) ys (r, inl (p, h)) = (r, inl (p, prefix_lem os xs ys h))
prefix_lem (o ∷ os) (x ∷ xs) ys (r, inr h) = (r, inr (prefix_lem os (x ∷ xs) ys h))

-- Three generations, each above the one before.
abbrev pub ThreeClears : List PriorityObservation → Type 0
ThreeClears os =
    (g1 : ℕ) × (g2 : ℕ) × (g3 : ℕ) × (g1 < g2) × (g2 < g3) × Supported os (g3 ∷ g2 ∷ g1 ∷ [])

at_least_three :
    (os : List PriorityObservation) (k : ℕ) (w : Option ℕ) → 3 ≤ k → Backed os k w → ThreeClears os
at_least_three os k w m ([], few, u, h) = absurd (omega (arith, few))
at_least_three os k w m (a ∷ [], few, u, h) = absurd (omega (arith, few))
at_least_three os k w m (a ∷ b ∷ [], few, u, h) = absurd (omega (arith, few))
at_least_three os k none m (a ∷ b ∷ c ∷ gs, few, u, h) = absurd (cc)
at_least_three os k (some w) m (a ∷ b ∷ c ∷ gs, few, u, h) =
    (c, b, a, u.1.1.0, u.1.0, prefix_lem os (a ∷ b ∷ c ∷ []) gs h)

module _ {R W : Type 0} {s : Settings R} {env : Inputs W} (on : s.priority_configured ≡ true) where
  listened-Backed :
      {os : List PriorityObservation} {n : Node R W}
      → Listened s env os n
      → Backed os n.controller.distinct_clear_count n.controller.generation_high_water
  listened-Backed (begun n z) = nothing n.controller.generation_high_water
    where
      nothing : (w : Option ℕ) → Backed [] n.controller.distinct_clear_count w
      nothing none = ([], omega (arith, z), refl, tt)
      nothing (some h) = ([], omega (arith, z), tt, tt)
  listened-Backed (heard {os} {n} o resident p n' before step) =
      let k = n.controller.distinct_clear_count in
      let w = n.controller.generation_high_water in
      next-Backed o os k n'.controller.distinct_clear_count w n'.controller.generation_high_water
        (listened-Backed before)
        (subst (Outcome (λ q. On (Counted o k w)) (On Anything)) step
          ((listen-Counted s env o resident k w on).holds.at n (refl, refl)))
  listened-Backed (aside {os} {n} n' before same_count same_water) =
      subst (λ k. Backed os k n'.controller.generation_high_water) (sym same_count)
        (subst (Backed os n.controller.distinct_clear_count) (sym same_water)
          (listened-Backed before))

  -- A configured signal counts as recovered only behind three publications: since the last
  -- observation that was asserted, neutral, unavailable or of a changed producer epoch, three
  -- observations were clear and new, each of a generation above that of the one before.
  pub ready-ThreeClears :
      {os : List PriorityObservation} {n : Node R W}
      → Listened s env os n
      → priority_recovery_ready s n.controller ≡ true
      → ThreeClears os
  ready-ThreeClears {os} {n} h ready =
      at_least_three os n.controller.distinct_clear_count n.controller.generation_high_water
        (ground arith) (listened-Backed h)
