-- ===== src/Resource/Capacity.antt =====
-- Bytes and chunk durations of subgen_core/resource_management.py: the guards of byte counts, the
-- reserves and limits that follow from the memory of the host, and the chunk duration that a capacity
-- and an activity allow. A byte count that may be anything is a `Value`, `null` for None.
pub mod Limits
pub mod Durations
use subgen_english_plex.Common.{
  ℕ, suc, ◌+◌, ◌-◌, ◌*◌, ◌/◌, min, max, Bool, true, false, ◌&&◌, Option, none, some, List, [], ◌∷◌,
  ◌++◌, pos, Result, ok, raise, ◌>>=◌, ◌>>◌, require, value_error, leb, ltb, if◌then◌else◌,
}
use subgen_english_plex.Segmentation.Number.{Value, integer, null}

abbrev pub gib : ℕ
gib = 1_073_741_824

abbrev pub mib : ℕ
mib = 1_048_576

abbrev pub capacity_quantum_bytes : ℕ
capacity_quantum_bytes = 268_435_456

abbrev pub max_automatic_subgen_memory_bytes : ℕ
max_automatic_subgen_memory_bytes = 25_769_803_776

abbrev pub max_bytes : ℕ
max_bytes = 9_223_372_036_854_775_807

abbrev pub unbounded_cgroup_threshold : ℕ
unbounded_cgroup_threshold = 1_152_921_504_606_846_976

-- `_require_bytes`, with the smallest count that is accepted.
unfoldable pub require_bytes : ℕ → Value → Result ℕ
require_bytes minimum (integer (pos n)) =
    if leb minimum n && leb n max_bytes then ok n else raise value_error
require_bytes minimum _ = raise value_error

-- `_optional_bytes`
unfoldable pub optional_bytes : ℕ → Value → Result (Option ℕ)
unfolding require_bytes
optional_bytes minimum null = ok none
optional_bytes minimum v = do n ← require_bytes minimum v; ok (some n)

-- `_round_up_capacity_quantum`, behind its guard.
unfoldable pub round_up_capacity_quantum : ℕ → ℕ
round_up_capacity_quantum n =
    (n + capacity_quantum_bytes - 1) / capacity_quantum_bytes * capacity_quantum_bytes

-- `_round_down_capacity_quantum`, behind its guard.
unfoldable pub round_down_capacity_quantum : ℕ → ℕ
round_down_capacity_quantum n = n / capacity_quantum_bytes * capacity_quantum_bytes

-- `automatic_host_reserve_bytes` for a total that passed its guard; the rounded value is in its bounds.
unfoldable pub reserve_of : Option ℕ → ℕ
unfolding round_up_capacity_quantum
reserve_of none = gib
reserve_of (some total) = round_up_capacity_quantum (max gib ((total * 15 + 99) / 100))

unfoldable pub automatic_host_reserve_bytes : Value → Result ℕ
unfolding optional_bytes reserve_of
automatic_host_reserve_bytes host_total = do
  total ← optional_bytes 1 host_total
  ok (reserve_of total)

-- A difference below zero is below the quantum too.
unfoldable pub automatic_subgen_memory_limit_bytes : Value → Result ℕ
unfolding require_bytes reserve_of round_down_capacity_quantum
automatic_subgen_memory_limit_bytes host_total = do
  total ← require_bytes 1 host_total
  require (leb capacity_quantum_bytes (total - reserve_of (some total))) value_error
  ok (
      min max_automatic_subgen_memory_bytes
        (round_down_capacity_quantum (total - reserve_of (some total))))

-- `cgroup_headroom_floor`
abbrev pub headroom_of : Option ℕ → Option ℕ
headroom_of none = none
headroom_of (some limit) =
    if leb unbounded_cgroup_threshold limit then none else some (max (512 * mib) (limit / 10))

unfoldable pub cgroup_headroom_floor : Value → Result (Option ℕ)
unfolding optional_bytes
cgroup_headroom_floor limit = do l ← optional_bytes 0 limit; ok (headroom_of l)

-- The tiers of `initial_chunk_seconds`.
unfoldable pub tier_seconds : Option ℕ → ℕ
tier_seconds none = 600
tier_seconds (some n) =
    if ltb n (4 * gib)
    then 300
    else if ltb n (8 * gib)
    then 600
    else if ltb n (16 * gib)
    then 1200
    else 1800

-- `initial_chunk_seconds`, at the effective bytes of the capacity.
unfoldable pub initial_chunk_seconds : Value → Value → Result ℕ
unfolding optional_bytes tier_seconds
initial_chunk_seconds capacity null = do c ← optional_bytes 0 capacity; ok (tier_seconds c)
initial_chunk_seconds capacity (integer (pos m)) =
    if leb 5 m && leb m 60 then ok (m * 60) else raise value_error
initial_chunk_seconds capacity _ = raise value_error

-- The fields of `CapacityProfile` that the durations read.
pub record CapacityProfile : Type 0 where
  pub effective_bytes : Option ℕ
  pub host_total_bytes : Option ℕ
  pub cgroup_limit_bytes : Option ℕ

-- The fields of the execution policy that the durations read.
pub record ChunkPolicy : Type 0 where
  pub working_budget_percent : ℕ
  pub automatic_chunk_ceiling_minutes : ℕ

abbrev pub optional_value : Option ℕ → Value
optional_value none = null
optional_value (some n) = integer (pos n)

-- What is left above a floor, if both are known.
abbrev pub headroom : Option ℕ → Option ℕ → List ℕ
headroom (some total) (some floor) = (total - floor) ∷ []
headroom _ _ = []

abbrev pub known : Option ℕ → List ℕ
known none = []
known (some n) = n ∷ []

-- `available`
unfoldable pub budgets : CapacityProfile → ℕ → Option ℕ → List ℕ
budgets c host_reserve cgroup_floor =
    headroom c.host_total_bytes (some host_reserve)
    ++ (headroom c.cgroup_limit_bytes cgroup_floor ++ known c.effective_bytes)

abbrev pub least : ℕ → List ℕ → ℕ
least n [] = n
least n (m ∷ ms) = least (min n m) ms

-- The ceiling that the working budget sets, or that of the hardware where no budget is known.
unfoldable pub budget_ceiling : ChunkPolicy → ℕ → List ℕ → Result ℕ
unfolding initial_chunk_seconds
budget_ceiling policy hardware [] = ok hardware
budget_ceiling policy hardware (n ∷ ns) =
    initial_chunk_seconds (integer (pos (least n ns * policy.working_budget_percent / 100))) null

unfoldable pub activity_chunk_seconds : CapacityProfile → Value → ChunkPolicy → ℕ → Result ℕ
unfolding initial_chunk_seconds cgroup_headroom_floor budgets budget_ceiling
activity_chunk_seconds c configured_minutes policy host_reserve = do
  requested ← initial_chunk_seconds (optional_value c.effective_bytes) configured_minutes
  hardware ← initial_chunk_seconds (optional_value c.effective_bytes) null
  floor ← cgroup_headroom_floor (optional_value c.cgroup_limit_bytes)
  budget ← budget_ceiling policy hardware (budgets c host_reserve floor)
  ok (
      max 300
        (min (min (min requested hardware) budget) (policy.automatic_chunk_ceiling_minutes * 60)))
