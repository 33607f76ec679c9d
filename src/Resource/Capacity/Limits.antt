-- ===== src/Resource/Capacity/Limits.antt =====
-- The automatic reserve of the host and the automatic memory limit.
use subgen_english_plex.Common.{
  ℕ, ◌+◌, ◌-◌, ◌*◌, ◌/◌, ◌%◌, ◌≤◌, ◌<◌, ◌≡◌, ◌↔◌, max, some, ok, raise, value_error, pos, arith,
}
use subgen_english_plex.Segmentation.Number.{integer}
use subgen_english_plex.Resource.Capacity.{
  gib, capacity_quantum_bytes, max_automatic_subgen_memory_bytes, max_bytes,
  round_up_capacity_quantum, round_down_capacity_quantum, reserve_of,
  automatic_subgen_memory_limit_bytes,
}

round_up_lem :
    (n : ℕ)
    → (round_up_capacity_quantum n % capacity_quantum_bytes ≡ 0)
      × (n ≤ round_up_capacity_quantum n)
      × (round_up_capacity_quantum n < n + capacity_quantum_bytes)
unfolding round_up_capacity_quantum
round_up_lem n = (omega arith, omega arith, omega arith)

round_down_lem :
    (n : ℕ)
    → (round_down_capacity_quantum n % capacity_quantum_bytes ≡ 0)
      × (round_down_capacity_quantum n ≤ n)
      × (n < round_down_capacity_quantum n + capacity_quantum_bytes)
unfolding round_down_capacity_quantum
round_down_lem n = (omega arith, omega arith, omega arith)

-- The reserve of a host is a whole number of quanta, at least a gibibyte, at least fifteen percent of the
-- total, and less than one quantum above the larger of these two.
pub reserve_lem :
    (total : ℕ)
    → (reserve_of (some total) % capacity_quantum_bytes ≡ 0)
      × (gib ≤ reserve_of (some total))
      × (total * 15 ≤ reserve_of (some total) * 100)
      × (reserve_of (some total) < max gib ((total * 15 + 99) / 100) + capacity_quantum_bytes)
unfolding reserve_of round_up_capacity_quantum
reserve_lem total =
    let (whole, above, near) = round_up_lem (max gib ((total * 15 + 99) / 100)) in
    (whole, omega arith, omega arith, near)

-- The automatic memory limit of a host whose memory is counted leaves the reserve of the host alone, is a whole
-- number of quanta, at least one and at most twenty-four gibibytes, and is refused exactly if the memory
-- above the reserve is less than one quantum.
pub memory_limit_lem :
    (total : ℕ)
    → 1 ≤ total
    → total ≤ max_bytes
    → ((limit : ℕ)
        → automatic_subgen_memory_limit_bytes (integer (pos total)) ≡ ok limit
        → (limit + reserve_of (some total) ≤ total)
          × (limit % capacity_quantum_bytes ≡ 0)
          × (capacity_quantum_bytes ≤ limit)
          × (limit ≤ max_automatic_subgen_memory_bytes))
      × (automatic_subgen_memory_limit_bytes (integer (pos total)) ≡ raise value_error
          ↔ total < reserve_of (some total) + capacity_quantum_bytes)
unfolding automatic_subgen_memory_limit_bytes
memory_limit_lem total h k =
    let (whole, below, near) = round_down_lem (total - reserve_of (some total)) in
    (
      λ limit e. (ground arith, ground arith, ground arith, ground arith),
      (λ e. ground arith, λ e. ground arith),
    )
