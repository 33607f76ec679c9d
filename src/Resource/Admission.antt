-- ===== src/Resource/Admission.antt =====
-- `evaluate_admission` of subgen_core/resource_management.py: whether a model may be loaded, from one
-- observation of the memory. Times are microseconds; a field of the observation that is None is `none`.
pub mod Terms
pub mod Safety
use subgen_english_plex.Common.{
  ℕ, ◌+◌, ◌-◌, ◌/◌, min, max, Bool, true, false, not, ◌&&◌, ◌||◌, Option, none, some, List, [], ◌∷◌,
  ◌++◌, pos, Result, ok, raise, ◌>>=◌, ◌>>◌, require, value_error, leb, ltb, same_text,
  if◌then◌else◌, length,
}
use subgen_english_plex.Segmentation.Number.{Text, Value, integer}
use subgen_english_plex.Priority.{PriorityObservation}
use subgen_english_plex.Resource.Capacity.{
  gib, require_bytes, optional_bytes, optional_value, headroom_of,
}

-- The byte counts of `ModelLoadRequirement`.
pub record ModelLoadRequirement : Type 0 where
  pub host_incremental_bytes : ℕ
  pub cgroup_incremental_bytes : ℕ
  pub device_incremental_bytes : ℕ
  pub host_margin_bytes : ℕ
  pub device_margin_bytes : ℕ

unfoldable pub required_host_bytes : ModelLoadRequirement → ℕ
required_host_bytes r =
    max r.host_incremental_bytes r.cgroup_incremental_bytes + r.host_margin_bytes

unfoldable pub required_device_bytes : ModelLoadRequirement → ℕ
required_device_bytes r = r.device_incremental_bytes + r.device_margin_bytes

-- A percentage of stalled time may be any value until it is normalized.
pub record PressureSample : Type 0 where
  pub observed_at : Option ℕ
  pub host_available_bytes : Option ℕ
  pub host_total_bytes : Option ℕ
  pub cgroup_current_bytes : Option ℕ
  pub cgroup_limit_bytes : Option ℕ
  pub psi_some_avg10 : Value
  pub psi_full_avg10 : Value
  pub cgroup_oom_events : Option ℕ
  pub cgroup_oom_kill_events : Option ℕ
  pub host_psi_some_avg10 : Value
  pub host_psi_full_avg10 : Value
  pub cgroup_psi_some_avg10 : Value
  pub cgroup_psi_full_avg10 : Value
  pub gpu_total_bytes : Option ℕ
  pub gpu_free_bytes : Option ℕ
  pub gpu_device_id : Option Text
  pub gpu_observed_at : Option ℕ
  pub priority_observation : Option PriorityObservation

pub data Reason : Type 0 where
  decision_time_unavailable sample_time_unavailable sample_stale : Reason
  host_inconsistent host_unavailable cgroup_unavailable insufficient_host : Reason
  gpu_reserve_below_floor gpu_unavailable insufficient_device : Reason

-- What the caller asks for; `expected_gpu_device` is the device that a GPU
-- admission is about, empty where the source has None.
pub record Conditions : Type 0 where
  pub host_reserve_bytes : ℕ
  pub gpu_priority_reserve_bytes : Option ℕ
  pub require_cgroup : Bool
  pub require_gpu : Bool
  pub expected_gpu_device : Text
  pub now : Option ℕ
  pub maximum_sample_age : ℕ

pub record AdmissionDecision : Type 0 where
  pub admitted : Bool
  pub reasons : List Reason
  pub host_admission_bytes : Option ℕ
  pub cgroup_admission_bytes : Option ℕ
  pub effective_host_admission_bytes : Option ℕ
  pub device_admission_bytes : Option ℕ

-- `0 <= decision_time - observed_at <= maximum_sample_age_seconds`
unfoldable pub is_recent : ℕ → ℕ → ℕ → Bool
is_recent age t observed = leb observed t && leb (t - observed) age

unfoldable pub time_reason : Option ℕ → Option ℕ → ℕ → Option Reason
unfolding is_recent
time_reason none observed age = some decision_time_unavailable
time_reason (some t) none age = some sample_time_unavailable
time_reason (some t) (some o) age = if is_recent age t o then none else some sample_stale

-- `host_inconsistent`
unfoldable pub exceeds : Option ℕ → Option ℕ → Bool
exceeds (some a) (some b) = ltb b a
exceeds _ _ = false

unfoldable pub host_admission : Option Reason → Option ℕ → Bool → ℕ → Option ℕ
host_admission none (some available) false reserve = some (available - reserve)
host_admission _ _ _ _ = none

abbrev pub above_floor : ℕ → ℕ → Option ℕ → Option ℕ
above_floor limit current none = none
above_floor limit current (some floor) = some (limit - current - floor)

unfoldable pub cgroup_admission : Option Reason → Option ℕ → Option ℕ → Option ℕ
cgroup_admission none (some limit) (some current) =
    above_floor limit current (headroom_of (some limit))
cgroup_admission _ _ _ = none

-- `effective_host`
unfoldable pub effective_host : Option ℕ → Option ℕ → Bool → Option ℕ
effective_host none cgroup require_cgroup = none
effective_host (some h) none require_cgroup = if require_cgroup then none else some h
effective_host (some h) (some c) require_cgroup = some (min h c)

-- `_gpu_reserve_floor_bytes`, behind its guard.
unfoldable pub gpu_reserve_floor : Option ℕ → ℕ
gpu_reserve_floor none = gib
gpu_reserve_floor (some total) = max gib (total / 10)

-- The reserve, which must be at least the floor of an unknown total.
unfoldable pub checked_gpu_reserve : Option ℕ → Result (Option ℕ)
unfolding require_bytes gpu_reserve_floor
checked_gpu_reserve none = ok none
checked_gpu_reserve (some r) = do
  reserve ← require_bytes 1 (integer (pos r))
  require (leb (gpu_reserve_floor none) reserve) value_error
  ok (some reserve)

-- `reserve_below_floor`
unfoldable pub reserve_below_floor : Option ℕ → Option ℕ → Bool
unfolding gpu_reserve_floor
reserve_below_floor (some r) (some total) = ltb r (gpu_reserve_floor (some total))
reserve_below_floor _ _ = false

abbrev pub same_device : Option Text → Text → Bool
same_device none expected = false
same_device (some id) expected = same_text id expected

abbrev pub fresh_gpu : Option ℕ → Option ℕ → ℕ → Bool
fresh_gpu (some t) (some o) age = is_recent age t o
fresh_gpu _ _ age = false

-- What is free above the reserve, where the observation of the device is valid.
unfoldable pub device_admission : Option ℕ → Option ℕ → Option ℕ → Bool → Option ℕ
device_admission (some reserve) (some total) (some free) valid =
    if valid && leb free total then some (free - reserve) else none
device_admission _ _ _ valid = none

abbrev pub below : Option ℕ → ℕ → Bool
below none n = false
below (some m) n = ltb m n

abbrev pub one_of : Bool → Reason → List Reason
one_of true r = r ∷ []
one_of false r = []

abbrev pub missing : Option ℕ → Bool
missing none = true
missing (some n) = false

abbrev pub timed : Option Reason → List Reason
timed none = []
timed (some r) = r ∷ []

unfoldable pub host_reasons : Bool → Option ℕ → List Reason
host_reasons inconsistent host =
    if inconsistent then host_inconsistent ∷ [] else one_of (missing host) host_unavailable

unfoldable pub device_reasons : Bool → Option ℕ → ℕ → List Reason
device_reasons below_floor device required =
    if below_floor
    then gpu_reserve_below_floor ∷ []
    else (if missing device
        then gpu_unavailable ∷ []
        else one_of (below device required) insufficient_device)

abbrev pub none_of : List Reason → Bool
none_of [] = true
none_of (r ∷ rs) = false

-- The device term of a GPU admission.
unfoldable pub device_of : Conditions → PressureSample → Option Reason → Option ℕ → Option ℕ
unfolding reserve_below_floor device_admission
device_of c s (some late) reserve = none
device_of c s none reserve =
    if reserve_below_floor reserve s.gpu_total_bytes
    then none
    else device_admission reserve s.gpu_total_bytes s.gpu_free_bytes (
        same_device s.gpu_device_id c.expected_gpu_device
        && fresh_gpu c.now s.gpu_observed_at c.maximum_sample_age)

abbrev pub time_of : Conditions → PressureSample → Option Reason
time_of c s = time_reason c.now s.observed_at c.maximum_sample_age

abbrev pub host_of : Conditions → PressureSample → Option ℕ
host_of c s =
    host_admission (time_of c s) s.host_available_bytes
      (exceeds s.host_available_bytes s.host_total_bytes) c.host_reserve_bytes

abbrev pub cgroup_of : Conditions → PressureSample → Option ℕ
cgroup_of c s = cgroup_admission (time_of c s) s.cgroup_limit_bytes s.cgroup_current_bytes

abbrev pub effective_of : Conditions → PressureSample → Option ℕ
effective_of c s = effective_host (host_of c s) (cgroup_of c s) c.require_cgroup

abbrev pub gpu_reasons : ModelLoadRequirement → Conditions → PressureSample → Option ℕ → List Reason
gpu_reasons r c s reserve =
    if c.require_gpu
    then device_reasons (reserve_below_floor reserve s.gpu_total_bytes)
        (device_of c s (time_of c s) reserve) (required_device_bytes r)
    else []

-- `reasons`
unfoldable pub reasons_of :
    ModelLoadRequirement → Conditions → PressureSample → Option ℕ → List Reason
unfolding time_reason exceeds host_admission cgroup_admission effective_host host_reasons
    device_reasons device_of required_host_bytes required_device_bytes
reasons_of r c s reserve =
    timed (time_of c s)
    ++ (host_reasons (exceeds s.host_available_bytes s.host_total_bytes) (host_of c s)
        ++ (one_of (c.require_cgroup && missing (cgroup_of c s)) cgroup_unavailable
            ++ (one_of (below (effective_of c s) (required_host_bytes r)) insufficient_host
                ++ gpu_reasons r c s reserve)))

unfoldable pub decision :
    ModelLoadRequirement → Conditions → PressureSample → Option ℕ → AdmissionDecision
unfolding reasons_of
decision r c s reserve = record {
  admitted = none_of (reasons_of r c s reserve);
  reasons = reasons_of r c s reserve;
  host_admission_bytes = host_of c s;
  cgroup_admission_bytes = cgroup_of c s;
  effective_host_admission_bytes = effective_of c s;
  device_admission_bytes = if c.require_gpu then device_of c s (time_of c s) reserve else none;
}

-- The guards of a GPU admission, and its reserve.
unfoldable pub gpu_reserve_of : Conditions → Result (Option ℕ)
unfolding checked_gpu_reserve
gpu_reserve_of c =
    if c.require_gpu
    then (do
      require (ltb 0 (length c.expected_gpu_device)) value_error
      checked_gpu_reserve c.gpu_priority_reserve_bytes)
    else ok none

unfoldable pub evaluate_admission :
    ModelLoadRequirement → PressureSample → Conditions → Result AdmissionDecision
unfolding require_bytes optional_bytes gpu_reserve_of decision
evaluate_admission r s c = do
  host_reserve ← require_bytes 0 (integer (pos c.host_reserve_bytes))
  require (ltb 0 c.maximum_sample_age) value_error
  host_available ← optional_bytes 0 (optional_value s.host_available_bytes)
  host_total ← optional_bytes 1 (optional_value s.host_total_bytes)
  cgroup_current ← optional_bytes 0 (optional_value s.cgroup_current_bytes)
  cgroup_limit ← optional_bytes 0 (optional_value s.cgroup_limit_bytes)
  gpu_total ← optional_bytes 1 (optional_value s.gpu_total_bytes)
  gpu_free ← optional_bytes 0 (optional_value s.gpu_free_bytes)
  reserve ← gpu_reserve_of c
  ok (decision r c s reserve)
