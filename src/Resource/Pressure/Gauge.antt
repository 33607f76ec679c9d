-- ===== src/Resource/Pressure/Gauge.antt =====
-- The parts of `_classify` that compute: whether an observation of the GPU is fresh, the stalled time,
-- and the reasons of each resource. A headroom of the container below zero counts as zero, which is below
-- every floor as well.
use Prim.Native.Nat.{max}
use subgen_english_plex.Common.{
  ℕ, ◌-◌, ◌*◌, Bool, true, false, ◌&&◌, Option, none, some, List, [], ◌∷◌, ◌++◌, pos, Result, ok,
  raise, ◌>>=◌, value_error, leb, ltb, same_text, length, if◌then◌else◌,
}
use subgen_english_plex.Segmentation.Number.{Text, Value, integer, real, ticks}
use subgen_english_plex.Resource.Capacity.{max_bytes, optional_bytes, optional_value, reserve_of}
use subgen_english_plex.Resource.Admission.{PressureSample, is_recent, gpu_reserve_floor}
use subgen_english_plex.Resource.Pressure.{PressureReason}

-- `required_time`, for a time that is not negative.
abbrev pub required_time : Option ℕ → Result ℕ
required_time none = raise value_error
required_time (some t) = ok t

-- A count that passes the guard of `_optional_bytes`.
abbrev pub is_count : ℕ → ℕ → Bool
is_count minimum n = leb minimum n && leb n max_bytes

-- `sample.gpu_device_id and (expected_device is None or ...)`
abbrev pub expected_gpu : Option Text → Option Text → Bool
expected_gpu none expected = false
expected_gpu (some id) none = ltb 0 (length id)
expected_gpu (some id) (some e) = ltb 0 (length id) && same_text id e

abbrev pub whole_gpu : Option ℕ → Option ℕ → Bool
whole_gpu (some total) (some free) = is_count 1 total && is_count 0 free && leb free total
whole_gpu _ _ = false

-- `_gpu_sample_is_fresh`
unfoldable pub gpu_sample_is_fresh : Option Text → ℕ → ℕ → PressureSample → Bool
unfolding is_recent
gpu_sample_is_fresh expected now age sample =
    whole_gpu sample.gpu_total_bytes sample.gpu_free_bytes
    && expected_gpu sample.gpu_device_id expected
    && (elim sample.gpu_observed_at [ none ↦ false | some observed ↦ is_recent age now observed ])

-- `_gpu_reserve_floor_satisfied`
unfoldable pub gpu_reserve_floor_satisfied : Option ℕ → PressureSample → Bool
unfolding gpu_reserve_floor
gpu_reserve_floor_satisfied none sample = true
gpu_reserve_floor_satisfied (some reserve) sample = elim sample.gpu_total_bytes [
  | none ↦ false
  | some total ↦ is_count 1 total && leb (gpu_reserve_floor (some total)) reserve
]

-- `_reserve_for`: the configured reserve, or that of the total of the host.
unfoldable pub reserve_for : Option ℕ → PressureSample → Result ℕ
unfolding optional_bytes reserve_of
reserve_for (some reserve) sample = ok reserve
reserve_for none sample = do
  total ← optional_bytes 1 (optional_value sample.host_total_bytes)
  ok (reserve_of total)

-- `_normalized_psi_percent`, in millionths of a percent.
unfoldable pub normalized_psi_percent : Value → Option ℕ
normalized_psi_percent (integer (pos n)) = if leb n 100 then some (n * ticks) else none
normalized_psi_percent (real (pos n)) = if leb n (100 * ticks) then some n else none
normalized_psi_percent _ = none

-- The larger of two values, where they are known.
abbrev pub larger : Option ℕ → Option ℕ → Option ℕ
larger none o = o
larger (some m) none = some m
larger (some m) (some n) = some (max m n)

-- `_maximum_known` of three values
unfoldable pub maximum_known : Value → Value → Value → Option ℕ
unfolding normalized_psi_percent
maximum_known a b c =
    larger (normalized_psi_percent a) (larger (normalized_psi_percent b) (normalized_psi_percent c))

abbrev pub reason_if : Bool → PressureReason → List PressureReason
reason_if true r = r ∷ []
reason_if false r = []

abbrev pub is_at_least : Option ℕ → ℕ → Bool
is_at_least none n = false
is_at_least (some m) n = leb n m

-- The reasons of stalled time.
unfoldable pub psi_reasons : PressureSample → List PressureReason
unfolding maximum_known
psi_reasons s =
    reason_if
      (is_at_least (maximum_known s.psi_full_avg10 s.host_psi_full_avg10 s.cgroup_psi_full_avg10)
        ticks)
      PressureReason.psi_full
    ++ reason_if
        (is_at_least (maximum_known s.psi_some_avg10 s.host_psi_some_avg10 s.cgroup_psi_some_avg10)
          (10 * ticks))
        PressureReason.psi_some

-- The critical reasons of the host, at its reserve.
unfoldable pub host_pressure : Option ℕ → Option ℕ → ℕ → List PressureReason
host_pressure none total reserve = []
host_pressure (some available) none reserve =
    reason_if (ltb available reserve) PressureReason.host_headroom
host_pressure (some available) (some total) reserve =
    if ltb total available
    then PressureReason.host_inconsistent ∷ []
    else reason_if (ltb available reserve) PressureReason.host_headroom

-- `headroom` of the container, each of its two counts guarded.
unfoldable pub cgroup_room : Option ℕ → Option ℕ → Result (Option ℕ)
unfolding optional_bytes
cgroup_room (some limit) (some used) = do
  l ← optional_bytes 0 (optional_value (some limit))
  u ← optional_bytes 0 (optional_value (some used))
  ok (some (limit - used))
cgroup_room _ _ = ok none

-- The test of the container's headroom against its floor, `factor` times.
abbrev pub short_of : ℕ → Option ℕ → Option ℕ → Bool
short_of factor (some room) (some floor) = ltb (room * factor) floor
short_of factor _ _ = false

-- The reasons of the GPU: `fresh` is `_gpu_telemetry_fresh`.
abbrev pub gpu_pressure : Option ℕ → Bool → PressureSample → List PressureReason
gpu_pressure (some reserve) true s =
    reason_if
      (gpu_reserve_floor_satisfied (some reserve) s && short_of 1 s.gpu_free_bytes (some reserve))
      PressureReason.gpu_headroom
gpu_pressure _ _ s = []

abbrev pub gpu_critical : Option ℕ → Bool → PressureSample → List PressureReason
gpu_critical (some reserve) true s =
    if gpu_reserve_floor_satisfied (some reserve) s
    then reason_if (short_of 2 s.gpu_free_bytes (some reserve)) PressureReason.critical_gpu_headroom
    else PressureReason.gpu_reserve_below_floor ∷ []
gpu_critical _ _ s = []

-- A counter of the container that grew.
abbrev pub grew : Option ℕ → Option ℕ → Bool
grew (some before) (some now) = ltb before now
grew _ _ = false

-- The baseline that a counter leaves.
abbrev pub next_baseline : Option ℕ → Option ℕ → Option ℕ
next_baseline before none = before
next_baseline before (some now) = some now
