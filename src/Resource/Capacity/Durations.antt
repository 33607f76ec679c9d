-- ===== src/Resource/Capacity/Durations.antt =====
-- The chunk duration between its floor and its ceilings, and how it follows the memory.
use subgen_english_plex.Common.{
  ℕ, ◌-◌, ◌*◌, ◌/◌, ◌≤◌, ◌≡◌, min, max, Option, some, none, List, [], ◌∷◌, ◌++◌, ok, arith, through,
}
use native.Mathlib.Nat.{mul-le-mul_right}
use subgen_english_plex.Segmentation.Number.{Value, null}
use subgen_english_plex.Resource.Capacity.{
  tier_seconds, initial_chunk_seconds, cgroup_headroom_floor, CapacityProfile, ChunkPolicy,
  optional_value, budgets, budget_ceiling, headroom, known, least, activity_chunk_seconds,
}

pub tier_seconds_mono : (n m : ℕ) → n ≤ m → tier_seconds (some n) ≤ tier_seconds (some m)
unfolding tier_seconds
tier_seconds_mono n m h = ground arith

-- Within the bounds of a requested duration.
abbrev pub Requestable : ℕ → Type 0
Requestable s = (300 ≤ s) × (s ≤ 3600)

tier_seconds-Requestable : (o : Option ℕ) → Requestable (tier_seconds o)
unfolding tier_seconds
tier_seconds-Requestable none = omega arith
tier_seconds-Requestable (some n) = ground arith

initial_tier :
    (o c : Option ℕ) (n : ℕ)
    → initial_chunk_seconds (optional_value o) null ≡ ok n
    → n ≡ tier_seconds o
unfolding initial_chunk_seconds
initial_tier none c n e = ground arith
initial_tier (some k) c n e = ground arith

-- The chunk duration that an activity allows is never less than five minutes, and never more than the
-- requested duration, the tier of the capacity, or the ceiling of the activity where that is above five
-- minutes.
pub activity_chunk_seconds_bounds :
    (c : CapacityProfile) (m : Value) (policy : ChunkPolicy) (host_reserve s : ℕ)
    → activity_chunk_seconds c m policy host_reserve ≡ ok s
    → (300 ≤ s)
      × (s ≤ max 300 (policy.automatic_chunk_ceiling_minutes * 60))
      × (s ≤ tier_seconds c.effective_bytes)
      × ((q : ℕ)
          → initial_chunk_seconds (optional_value c.effective_bytes) m ≡ ok q
          → s ≤ max 300 q)
unfolding activity_chunk_seconds
activity_chunk_seconds_bounds c m policy host_reserve s e =
    let (q, requested, e1) =
      through (initial_chunk_seconds (optional_value c.effective_bytes) m) _ _ e in
    let (h, hardware, e2) =
      through (initial_chunk_seconds (optional_value c.effective_bytes) null) _ _ e1 in
    let (f, floor, e3) =
      through (cgroup_headroom_floor (optional_value c.cgroup_limit_bytes)) _ _ e2 in
    let (b, budget, e4) = through (budget_ceiling policy h (budgets c host_reserve f)) _ _ e3 in
    let tier = initial_tier c.effective_bytes none h hardware in
    let least = (tier_seconds-Requestable c.effective_bytes).0 in
    (ground arith, ground arith, ground arith, λ q' e'. ground arith)

least_mono : (n m : ℕ) (ks : List ℕ) → n ≤ m → least n ks ≤ least m ks
least_mono n m [] h = h
least_mono n m (k ∷ ks) h = least_mono (min n k) (min m k) ks (omega arith)

budget_tier :
    (policy : ChunkPolicy) (hardware n b : ℕ) (ns : List ℕ)
    → budget_ceiling policy hardware (n ∷ ns) ≡ ok b
    → b ≡ tier_seconds (some (least n ns * policy.working_budget_percent / 100))
unfolding budget_ceiling
budget_tier policy hardware n b ns e =
    initial_tier (some (least n ns * policy.working_budget_percent / 100)) none b e

-- A budget that a larger reserve of the host leaves is no larger.
budget_ceiling_mono :
    (policy : ChunkPolicy) (hardware r r' b b' : ℕ) (total : Option ℕ) (rest : List ℕ)
    → r ≤ r'
    → budget_ceiling policy hardware (headroom total (some r) ++ rest) ≡ ok b
    → budget_ceiling policy hardware (headroom total (some r') ++ rest) ≡ ok b'
    → b' ≤ b
budget_ceiling_mono policy hardware r r' b b' none rest h e e' =
    let same : b' ≡ b = cc in omega arith
budget_ceiling_mono policy hardware r r' b b' (some t) rest h e e' =
    let shorter = least_mono (t - r') (t - r) rest (omega arith) in
    let scaled = mul-le-mul_right policy.working_budget_percent shorter in
    let tiers =
      tier_seconds_mono (least (t - r') rest * policy.working_budget_percent / 100)
        (least (t - r) rest * policy.working_budget_percent / 100) (omega (arith, scaled)) in
    omega (
      arith,
      tiers,
      budget_tier policy hardware (t - r) b rest e,
      budget_tier policy hardware (t - r') b' rest e',
    )

budgets_mono :
    (c : CapacityProfile) (policy : ChunkPolicy) (hardware r r' b b' : ℕ) (f : Option ℕ)
    → r ≤ r'
    → budget_ceiling policy hardware (budgets c r f) ≡ ok b
    → budget_ceiling policy hardware (budgets c r' f) ≡ ok b'
    → b' ≤ b
unfolding budgets
budgets_mono c policy hardware r r' b b' f h e e' =
    budget_ceiling_mono policy hardware r r' b b' c.host_total_bytes
      (headroom c.cgroup_limit_bytes f ++ known c.effective_bytes) h e e'

-- What a duration is made of.
abbrev Parts : CapacityProfile → Value → ChunkPolicy → ℕ → ℕ → Type 0
Parts c m policy r s =
    (q : ℕ) × (h : ℕ) × (f : Option ℕ) × (b : ℕ) × (initial_chunk_seconds
        (optional_value c.effective_bytes) m
      ≡ ok q)
    × (initial_chunk_seconds (optional_value c.effective_bytes) null ≡ ok h)
    × (cgroup_headroom_floor (optional_value c.cgroup_limit_bytes) ≡ ok f)
    × (budget_ceiling policy h (budgets c r f) ≡ ok b)
    × (s ≡ max 300 (min (min (min q h) b) (policy.automatic_chunk_ceiling_minutes * 60)))

activity-Parts :
    (c : CapacityProfile) (m : Value) (policy : ChunkPolicy) (r s : ℕ)
    → activity_chunk_seconds c m policy r ≡ ok s
    → Parts c m policy r s
unfolding activity_chunk_seconds
activity-Parts c m policy r s e =
    let (q, requested, e1) =
      through (initial_chunk_seconds (optional_value c.effective_bytes) m) _ _ e in
    let (h, hardware, e2) =
      through (initial_chunk_seconds (optional_value c.effective_bytes) null) _ _ e1 in
    let (f, floor, e3) =
      through (cgroup_headroom_floor (optional_value c.cgroup_limit_bytes)) _ _ e2 in
    let (b, budget, e4) = through (budget_ceiling policy h (budgets c r f)) _ _ e3 in
    (q, h, f, b, requested, hardware, floor, budget, ground arith)

-- Parts of the same profile, request and policy for two reserves.
compare-Parts :
    (c : CapacityProfile) (m : Value) (policy : ChunkPolicy) (r r' s s' : ℕ)
    → r ≤ r'
    → Parts c m policy r s
    → Parts c m policy r' s'
    → s' ≤ s
compare-Parts c m policy r r' s s' le (q, h, f, b, e1, e2, e3, e4, e5)
      (q', h', f', b', d1, d2, d3, d4, d5) =
    let same_q : q' ≡ q = cc in
    let same_h : h' ≡ h = cc in
    let same_f : f' ≡ f = cc in
    let same_budget : budget_ceiling policy h (budgets c r' f) ≡ ok b' = cc in
    let less = budgets_mono c policy h r r' b b' f le e4 same_budget in omega arith

-- Where both are given, the duration for a larger reserve of the host is no longer.
pub larger_reserve_not_longer :
    (c : CapacityProfile) (m : Value) (policy : ChunkPolicy) (r r' s s' : ℕ)
    → r ≤ r'
    → activity_chunk_seconds c m policy r ≡ ok s
    → activity_chunk_seconds c m policy r' ≡ ok s'
    → s' ≤ s
larger_reserve_not_longer c m policy r r' s s' le e e' =
    compare-Parts c m policy r r' s s' le (activity-Parts c m policy r s e)
      (activity-Parts c m policy r' s' e')
