-- ===== src/Resource/Chunks/Exhaustion.antt =====
-- Repeated allocation failures and repeated successes.
use subgen_english_plex.Common.{
  ℕ, zero, suc, ◌+◌, ◌*◌, ◌^◌, ◌≤◌, ◌<◌, ◌≡◌, inl, inr, refl, true, false, Bool-cases, none, ok,
  arith, min, ==_iff, ◌==◌, pow-suc,
}
use subgen_english_plex.Resource.Chunks.{
  AdaptiveChunkState, count_failure, record_allocation_failure, record_success,
}
use subgen_english_plex.Resource.Chunks.Bounds.{IsValid, SameSettings, count_failure-Keeps}

-- The state after allocation failures in a row.
abbrev pub failures : ℕ → AdaptiveChunkState → AdaptiveChunkState
failures zero s = s
failures (suc n) s = failures n (count_failure s)

-- The state after healthy successes in a row.
abbrev pub successes : ℕ → AdaptiveChunkState → AdaptiveChunkState
successes zero s = s
successes (suc n) s = successes n (record_success s true)

failures-last :
    (n : ℕ) (s : AdaptiveChunkState) → count_failure (failures n s) ≡ failures n (count_failure s)
failures-last zero s = refl
failures-last (suc n) s = failures-last n (count_failure s)

count_at_minimum :
    (s : AdaptiveChunkState)
    → s.current_seconds ≡ s.minimum_seconds
    → ((count_failure s).current_seconds ≡ (count_failure s).minimum_seconds)
      × ((count_failure s).minimum_allocation_failures ≡ s.minimum_allocation_failures + 1)
unfolding count_failure
count_at_minimum s h = ground arith

at_minimum :
    (n : ℕ) (s : AdaptiveChunkState)
    → s.current_seconds ≡ s.minimum_seconds
    → (failures n s).minimum_allocation_failures ≡ s.minimum_allocation_failures + n
at_minimum zero s h = omega arith
at_minimum (suc n) s h =
    let (low, more) = count_at_minimum s h in
    omega (arith, at_minimum n (count_failure s) low, more)

count_halves :
    (s : AdaptiveChunkState) (b : ℕ)
    → s.minimum_seconds ≤ b
    → s.current_seconds ≤ b + b
    → (count_failure s).current_seconds ≤ b
unfolding count_failure
count_halves s b h k = ground arith

pow_double : (m k : ℕ) → m * 2 ^ suc k ≡ m * 2 ^ k + m * 2 ^ k
pow_double m k = rw (pow-suc 2 k) (omega arith)

le-mul-pow : (m k : ℕ) → m ≤ m * 2 ^ k
le-mul-pow m zero = omega arith
le-mul-pow m (suc k) = omega (arith, pow_double m k, le-mul-pow m k)

enough_failures :
    (k : ℕ) (s : AdaptiveChunkState)
    → IsValid s
    → s.current_seconds ≤ s.minimum_seconds * 2 ^ k
    → 2 ≤ (failures (suc (suc k)) s).minimum_allocation_failures
enough_failures zero s v h = omega (arith, at_minimum 2 s (omega arith))
enough_failures (suc k) s v h = elim (Bool-cases (s.current_seconds == s.minimum_seconds)) [
  | inl low ↦ omega (arith, at_minimum (suc (suc (suc k))) s ((==_iff _ _).0 low))
  | inr high ↦
      let (v', e) = count_failure-Keeps s v in
      enough_failures k (count_failure s) v' (
        rw e.minimum (
          count_halves s (s.minimum_seconds * 2 ^ k) (le-mul-pow s.minimum_seconds k)
            (omega (arith, pow_double s.minimum_seconds k))))
]

-- From a valid state whose duration is at most 2 ^ k minimum durations, k + 2 allocation failures in a
-- row exhaust the file: the call that reports the last of them returns true.
pub failures_exhaust :
    (k : ℕ) (s : AdaptiveChunkState)
    → IsValid s
    → s.current_seconds ≤ s.minimum_seconds * 2 ^ k
    → record_allocation_failure (failures (suc k) s) none ≡ ok (failures (suc (suc k)) s, true)
unfolding record_allocation_failure
failures_exhaust k s v h =
    rw (failures-last (suc k) s) (let enough = enough_failures k s v h in ground arith)

-- A single failure never exhausts a state that has no failure at its minimum.
pub failure_tolerated :
    (s : AdaptiveChunkState)
    → s.minimum_allocation_failures ≡ 0
    → record_allocation_failure s none ≡ ok (count_failure s, false)
unfolding record_allocation_failure
failure_tolerated s h = ground arith

successes-last :
    (n : ℕ) (s : AdaptiveChunkState)
    → record_success (successes n s) true ≡ successes n (record_success s true)
successes-last zero s = refl
successes-last (suc n) s = successes-last n (record_success s true)

success_waits :
    (s : AdaptiveChunkState)
    → s.current_seconds < s.baseline_seconds
    → s.consecutive_healthy_successes + 1 < s.successes_to_grow
    → ((record_success s true).current_seconds ≡ s.current_seconds)
      × ((record_success s true).consecutive_healthy_successes
          ≡ s.consecutive_healthy_successes + 1)
      × SameSettings s (record_success s true)
unfolding record_success
success_waits s h k = ground arith

grows :
    (t s : AdaptiveChunkState)
    → t.current_seconds ≡ s.current_seconds
    → t.consecutive_healthy_successes + 1 ≡ s.successes_to_grow
    → SameSettings s t
    → s.current_seconds < s.baseline_seconds
    → (record_success t true).current_seconds ≡ min s.baseline_seconds (s.current_seconds * 2)
unfolding record_success
grows t s c k e h = ground arith

-- The run of healthy successes before the duration grows.
waiting :
    (n : ℕ) (s : AdaptiveChunkState)
    → s.current_seconds < s.baseline_seconds
    → s.consecutive_healthy_successes + n < s.successes_to_grow
    → ((successes n s).current_seconds ≡ s.current_seconds)
      × ((successes n s).consecutive_healthy_successes ≡ s.consecutive_healthy_successes + n)
      × SameSettings s (successes n s)
waiting zero s h k = (refl, omega arith, record { baseline = refl; minimum = refl; growth = refl })
waiting (suc n) s h k =
    let (same, more, settings) = success_waits s h (omega arith) in
    let (same', more', settings') = waiting n (record_success s true) (omega arith) (omega arith) in
    (omega arith, omega arith, omega arith)

-- Below the baseline, with no success counted yet, fewer healthy successes in a row than
-- `successes_to_grow` leave the duration alone, and that many double it, up to the baseline.
pub successes_grow :
    (n : ℕ) (s : AdaptiveChunkState)
    → s.successes_to_grow ≡ suc n
    → s.consecutive_healthy_successes ≡ 0
    → s.current_seconds < s.baseline_seconds
    → ((m : ℕ) → m ≤ n → (successes m s).current_seconds ≡ s.current_seconds)
      × ((successes (suc n) s).current_seconds ≡ min s.baseline_seconds (s.current_seconds * 2))
successes_grow n s g c h = (
  λ m k. (waiting m s h (omega arith)).0,
  rw (← successes-last n s) (
      let (same, counted, settings) = waiting n s h (omega arith) in
      grows (successes n s) s same (omega arith) settings h),
)
